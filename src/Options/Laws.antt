-- ===== src/Options/Laws.antt =====
-- The defaults of the options, and the options of a URL.
use go_pg.Base.{ℕ, ◌*◌, ◌≡◌, ◌≢◌, ◌⊎◌, refl, true, false, [], ◌∷◌, ◌++◌, Bytes, codes, drop, arith}
use go_pg.Pool.{ConnInfo, is_stale_conn, new_conn_pool}
use go_pg.Options.{
  Options, or_text, or_number, default_addr, default_pool_timeout, init, new_pool, Url, Parsed,
  parsed, failed, has_byte, second,
}

or_text-twice : (s d : Bytes) → or_text (or_text s d) d ≡ or_text s d
or_text-twice [] [] = refl
or_text-twice [] (c ∷ d) = refl
or_text-twice (c ∷ s) d = refl

or_number-twice : (n d : ℕ) → or_number (or_number n d) d ≡ or_number n d
or_number-twice n d = ground arith

-- The options with their defaults keep them.
init-init : (o : Options) → init (init o) ≡ init o
unfolding init
init-init o =
    rw
      (
        or_text-twice (o.network) (codes "tcp"),
        or_text-twice (o.addr) (default_addr (or_text (o.network) (codes "tcp"))),
        or_number-twice (o.pool_size) 20,
        or_number-twice (o.pool_timeout) (default_pool_timeout (o.read_timeout)),
        or_number-twice (o.dial_timeout) (5 * second),
        or_number-twice (o.idle_check_frequency) (60 * second),
      )
      refl

-- No option that has a default is left without a value.
abbrev pub Complete : Options → Type 0
Complete o =
    (o.network ≢ [])
    × (o.pool_size ≢ 0)
    × (o.pool_timeout ≢ 0)
    × (o.dial_timeout ≢ 0)
    × (o.idle_check_frequency ≢ 0)

or_text-≢ : (s d : Bytes) → d ≢ [] → or_text s d ≢ []
or_text-≢ [] d h = h
or_text-≢ (c ∷ s) d h = λ e. absurd cc

or_number-≢ : (n d : ℕ) → d ≢ 0 → or_number n d ≢ 0
or_number-≢ n d h = ground arith

default_pool_timeout-≢ : (n : ℕ) → default_pool_timeout n ≢ 0
default_pool_timeout-≢ n = ground arith

-- Every option that has a default has a value behind `init`.
pub init-Complete : (o : Options) → Complete (init o)
unfolding init
init-Complete o = (
  or_text-≢ (o.network) (codes "tcp") (λ e. absurd cc),
  or_number-≢ (o.pool_size) 20 (omega arith),
  or_number-≢ (o.pool_timeout) (default_pool_timeout (o.read_timeout))
      (default_pool_timeout-≢ (o.read_timeout)),
  or_number-≢ (o.dial_timeout) (5 * second) (omega arith),
  or_number-≢ (o.idle_check_frequency) (60 * second) (omega arith),
)

-- The pool of a client without an idle timeout takes no connection for stale, however old it is and whatever
-- the MaxAge of the options.
new_pool-ageless :
    (o : Options) (now : ℕ) (info : ConnInfo)
    → o.idle_timeout ≡ 0
    → is_stale_conn ((new_pool o).opt) now info ≡ false
unfolding new_pool new_conn_pool is_stale_conn
new_pool-ageless o now info h = rw h refl

-- The address is the host, with the port 5432 behind it when it has no colon.
abbrev pub Addressed : Bytes → Bytes → Type 0
Addressed host addr =
    ((has_byte b':' host ≡ true) × (addr ≡ host))
    ⊎ ((has_byte b':' host ≡ false) × (addr ≡ host ++ codes ":5432"))

-- The path of a URL with a scheme is empty or begins with a slash.
abbrev pub Rooted : Bytes → Type 0
Rooted [] = Unit
Rooted (c ∷ s) = c ≡ b'/'

-- Options that are enough to connect: a user, the address of the URL's host and the database of its path.
abbrev pub Connects : Url → Options → Type 0
Connects u o =
    (o.user ≢ []) × Addressed (u.host) (o.addr) × (o.database ≡ drop 1 (u.path)) × (o.database ≢ [])

abbrev options_of : Options → Parsed Options → Options
options_of d (parsed x) = x
options_of d (failed e) = d
