-- ===== src/Options.antt =====
-- options.go: the options of a client, their defaults, and how a URL gives them. Durations are in
-- nanoseconds and not negative. What net/url makes of a text is a parameter; a dialer and the contents of
-- a TLS configuration are left out.
pub mod Laws
pub mod Tests
use go_pg.Base.{
  ℕ, ◌+◌, ◌*◌, Bool, true, false, not, ◌&&◌, ◌||◌, Option, none, some, List, [], ◌∷◌, ◌++◌, Bytes,
  codes, equal, find, drop, ◌==◌, if◌then◌else◌,
}
use go_pg.Pool.{ConnPool, new_conn_pool}

pub record Options : Type 0 where
  pub network : Bytes
  pub addr : Bytes
  pub user : Bytes
  pub password : Bytes
  pub database : Bytes
  -- whether there is a TLS configuration
  pub tls_config : Bool
  pub max_retries : ℕ
  pub retry_statement_timeout : Bool
  pub dial_timeout : ℕ
  pub read_timeout : ℕ
  pub write_timeout : ℕ
  pub pool_size : ℕ
  pub pool_timeout : ℕ
  pub idle_timeout : ℕ
  pub max_age : ℕ
  pub idle_check_frequency : ℕ
  pub disable_transaction : Bool

abbrev pub second : ℕ
second = 1000000000

abbrev pub or_text : Bytes → Bytes → Bytes
or_text [] d = d
or_text (c ∷ s) d = c ∷ s

abbrev pub or_number : ℕ → ℕ → ℕ
or_number n d = if n == 0 then d else n

-- The address of a network, when there is none; a network of another name has none.
abbrev pub default_addr : Bytes → Bytes
default_addr network =
    if equal network (codes "tcp")
    then codes "localhost:5432"
    else if equal network (codes "unix")
    then codes "/var/run/postgresql/.s.PGSQL.5432"
    else []

abbrev pub default_pool_timeout : ℕ → ℕ
default_pool_timeout read_timeout = if read_timeout == 0 then 30 * second else read_timeout + second

-- `init`.
unfoldable pub init : Options → Options
init o =
    let network = or_text (o.network) (codes "tcp") in
    record o {
      network = network;
      addr = or_text (o.addr) (default_addr network);
      pool_size = or_number (o.pool_size) 20;
      pool_timeout = or_number (o.pool_timeout) (default_pool_timeout (o.read_timeout));
      dial_timeout = or_number (o.dial_timeout) (5 * second);
      idle_check_frequency = or_number (o.idle_check_frequency) (60 * second);
    }

-- `newConnPool`: the age is not handed on.
unfoldable pub new_pool : Options → ConnPool
unfolding new_conn_pool
new_pool o =
    new_conn_pool (record { pool_size = o.pool_size; idle_timeout = o.idle_timeout; max_age = 0 })

-- A parsed URL; the user comes with a password or without.
pub record Url : Type 0 where
  pub scheme : Bytes
  pub host : Bytes
  pub user : Option (Bytes × Option Bytes)
  pub path : Bytes
  pub raw_query : Bytes

pub data UrlError : Type 0 where
  bad_url : UrlError
  bad_scheme : Bytes → UrlError
  no_database : UrlError
  bad_url_query : UrlError
  bad_sslmode : Bytes → UrlError
  other_options : UrlError

pub data Parsed (A : Type 0) : Type 0 where
  parsed : A → Parsed A
  failed : UrlError → Parsed A

infixl 20 ◌then_parse◌
abbrev pub ◌then_parse◌ : {A B : Type 0} → Parsed A → (A → Parsed B) → Parsed B
(parsed a) then_parse k = k a
(failed e) then_parse k = failed e

unfoldable pub has_byte : ℕ → Bytes → Bool
has_byte c [] = false
has_byte c (x ∷ s) = if x == c then true else has_byte c s

-- `strings.Trim(s, "/")`: its front, and its end.
unfoldable pub trim_front : ℕ → Bytes → Bytes
trim_front c [] = []
trim_front c (x ∷ s) = if x == c then trim_front c s else x ∷ s

abbrev cons_unless : ℕ → ℕ → Bytes → Bytes
cons_unless c x [] = if x == c then [] else x ∷ []
cons_unless c x (y ∷ s) = x ∷ y ∷ s

unfoldable pub trim_end : ℕ → Bytes → Bytes
trim_end c [] = []
trim_end c (x ∷ s) = cons_unless c x (trim_end c s)

abbrev pub is_blank : Bytes → Bool
is_blank [] = true
is_blank (c ∷ s) = false

abbrev pub user_name : Option (Bytes × Option Bytes) → Bytes
user_name none = codes "postgres"
user_name (some (name, password)) = or_text name (codes "postgres")

abbrev user_password : Option (Bytes × Option Bytes) → Bytes
user_password none = []
user_password (some (name, none)) = []
user_password (some (name, some password)) = password

abbrev pub UrlQuery : Type 0
UrlQuery = List (Bytes × List Bytes)

abbrev first_mode : Option (List Bytes) → Option Bytes
first_mode none = none
first_mode (some []) = none
first_mode (some (v ∷ vs)) = some v

-- Whether there is a TLS configuration, by `sslmode`.
unfoldable pub tls_of : UrlQuery → Parsed Bool
unfolding find equal
tls_of query = elim (first_mode (find query (codes "sslmode"))) [
  | none ↦ parsed true
  | some v ↦
      if equal v (codes "allow") || equal v (codes "prefer")
      then parsed true
      else if equal v (codes "disable")
      then parsed false
      else failed (bad_sslmode v)
]

-- `delete(query, "sslmode")` and the test that nothing is left.
unfoldable pub only_sslmode : UrlQuery → Bool
only_sslmode [] = true
only_sslmode ((k, vs) ∷ query) = if equal k (codes "sslmode") then only_sslmode query else false

abbrev pub with_port : Bytes → Bytes
with_port host = if has_byte b':' host then host else host ++ codes ":5432"

-- The options of a URL without its query: the zero options but for these.
abbrev pub zero_options : Options
zero_options = record {
  network = [];
  addr = [];
  user = [];
  password = [];
  database = [];
  tls_config = false;
  max_retries = 0;
  retry_statement_timeout = false;
  dial_timeout = 0;
  read_timeout = 0;
  write_timeout = 0;
  pool_size = 0;
  pool_timeout = 0;
  idle_timeout = 0;
  max_age = 0;
  idle_check_frequency = 0;
  disable_transaction = false;
}

abbrev pub from_url : Url → Bool → Options
from_url u tls = record zero_options {
  addr = with_port (u.host);
  user = user_name (u.user);
  password = user_password (u.user);
  database = drop 1 (u.path);
  tls_config = tls;
}

-- `url.Parse` and `url.ParseQuery`.
module _ (parse : Bytes → Option Url) (parse_query : Bytes → Option UrlQuery) where
  abbrev pub finish_query : Url → Option UrlQuery → Parsed Options
  finish_query u none = failed bad_url_query
  finish_query u (some query) = tls_of query then_parse λ tls.
      if only_sslmode query then parsed (from_url u tls) else failed other_options

  unfoldable pub from_parsed : Url → Parsed Options
  unfolding has_byte trim_front trim_end tls_of only_sslmode
  from_parsed u =
      if equal (u.scheme) (codes "postgres")
      then (if is_blank (trim_end b'/' (trim_front b'/' (u.path)))
          then failed no_database
          else finish_query u (parse_query (u.raw_query)))
      else failed (bad_scheme (u.scheme))

  -- `ParseURL`.
  unfoldable pub parse_url : Bytes → Parsed Options
  unfolding from_parsed
  parse_url s = elim (parse s) [ none ↦ failed bad_url | some u ↦ from_parsed u ]
