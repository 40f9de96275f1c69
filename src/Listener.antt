-- ===== src/Listener.antt =====
-- listener.go: a connection that stays with its listener, and the channels that it listens to. The methods
-- are run by one goroutine; a panic and fuel that ran out are `none`. The error of closing a socket is left
-- out, as are timeouts, which decide only with which error a read ends.
pub mod Laws
pub mod Places
pub mod Sent
pub mod Tests
use go_pg.Base.{
  ℕ, zero, suc, Bool, true, false, Option, none, some, ◌⊎◌, inl, inr, List, [], ◌∷◌, ◌++◌, Bytes,
  codes, equal, if◌then◌else◌,
}
use go_pg.Errors.{Error, internal_error, listener_closed, is_bad_conn}
use go_pg.Net.{Conn, Outcome, ok, err, panic, no_fuel, M, ◌>>=◌, flush_writer}
use go_pg.Message.Write.{Format, query_text}
use go_pg.Message.Copy.{Notification, read_notification}
use go_pg.Pool.{ConnPool}
use go_pg.Pool.Get.{Env, remove_conn}
use go_pg.Database.{Db, store, write_query, conn}
use go_pg.Orm.Format.{Formatter, format}
use go_pg.Orm.Query.{field_param}
use go_pg.Orm.Clauses.{text_or_empty}

pub record Listener : Type 0 where
  pub db : Db
  pub channels : List Bytes
  pub cn : Option ℕ
  pub closed : Bool

abbrev pub Ret : Type 0 → Type 0
Ret A = Option ((Error ⊎ A) × Listener)

unfoldable pub contains : List Bytes → Bytes → Bool
contains [] e = false
contains (s ∷ ss) e = if equal s e then true else contains ss e

unfoldable pub append_if_not_exists : List Bytes → List Bytes → List Bytes
unfolding contains
append_if_not_exists ss [] = ss
append_if_not_exists ss (e ∷ es) =
    append_if_not_exists (if contains ss e then ss else ss ++ e ∷ []) es

-- `LISTEN ?` with the channel as a quoted name, formatted by the handle.
abbrev pub with_channel : Formatter → Bytes → Format
with_channel f channel dst query =
    text_or_empty (format f dst query (some (field_param channel ∷ [])))

-- A message for each channel, and all of them sent at once.
unfoldable pub listen : Formatter → List Bytes → M (Unit {0})
unfolding write_query format
listen f [] = flush_writer
listen f (c ∷ cs) = do
  written ← write_query (with_channel f c) (query_text (codes "LISTEN ?"))
  listen f cs

abbrev pub stored : Listener → ℕ → Conn → Listener
stored ln k c = record ln { db = store (ln.db) k c }

-- `closeConn`.
abbrev pub removed : Listener → Option ConnPool → Option Listener
removed ln none = none
removed ln (some p) = some (record ln { db = record (ln.db) { pool = p }; cn = none })

abbrev pub close_held : Listener → Option ℕ → Option Listener
close_held ln none = some ln
close_held ln (some k) = removed ln (remove_conn (ln.db.pool) k)

unfoldable pub close_conn : Listener → Option Listener
unfolding remove_conn
close_conn ln = close_held ln (ln.cn)

-- `freeConn`: a timeout is no reason to drop the connection.
unfoldable pub free_own_conn : Listener → Error → Option Listener
unfolding close_conn is_bad_conn
free_own_conn ln e = if is_bad_conn (some e) true then close_conn ln else some ln

abbrev pub with_error : {A : Type 0} → Error → Option Listener → Ret A
with_error e none = none
with_error e (some ln) = some (inl e, ln)

abbrev pub left_with : Option Error → Option Listener → Option (Option Error × Listener)
left_with e none = none
left_with e (some ln) = some (e, ln)

-- What `listen` on a new connection makes of the listener, which has it already.
abbrev pub resubscribed : Listener → ℕ → Outcome (Unit {0}) → Ret ℕ
resubscribed ln k (ok u c) = some (inr k, stored ln k c)
resubscribed ln k (err e c) = some (inl e, stored ln k c)
resubscribed ln k panic = none
resubscribed ln k no_fuel = none

abbrev pub resubscribe : Formatter → Listener → ℕ → List Bytes → Ret ℕ
resubscribe f ln k [] = some (inr k, ln)
resubscribe f ln k (c ∷ cs) = resubscribed ln k (listen f (c ∷ cs) (ln.db.conns k))

abbrev pub opened : Formatter → Listener → Option ((Error ⊎ ℕ) × Db) → Ret ℕ
opened f ln none = none
opened f ln (some (inl e, db)) = some (inl e, record ln { db = db })
opened f ln (some (inr k, db)) = resubscribe f (record ln { db = db; cn = some k }) k (ln.channels)

-- `init` is what `initConn` does with the options of the handle, and `f` the handle's formatter.
module _ (init : M (Unit {0})) (f : Formatter) where
  abbrev pub kept_or_opened : Env → Listener → Option ℕ → Ret ℕ
  kept_or_opened env ln (some k) = some (inr k, ln)
  kept_or_opened env ln none = opened f ln (conn init env (ln.db))

  -- `conn`.
  unfoldable pub own_conn : Env → Listener → Ret ℕ
  unfolding conn listen
  own_conn env ln =
      if ln.closed
      then some (inl (internal_error listener_closed), ln)
      else kept_or_opened env ln (ln.cn)

  abbrev pub heard :
      Listener → ℕ → List Bytes → Outcome (Unit {0}) → Option (Option Error × Listener)
  heard ln k cs (ok u c) =
      some (none, record (stored ln k c) { channels = append_if_not_exists (ln.channels) cs })
  heard ln k cs (err e c) = left_with (some e) (free_own_conn (stored ln k c) e)
  heard ln k cs panic = none
  heard ln k cs no_fuel = none

  abbrev pub listen_on : List Bytes → Ret ℕ → Option (Option Error × Listener)
  listen_on cs none = none
  listen_on cs (some (inl e, ln)) = some (some e, ln)
  listen_on cs (some (inr k, ln)) = heard ln k cs (listen f cs (ln.db.conns k))

  -- `Listen`: the error of `conn` does not free the connection.
  unfoldable pub listen_to : Env → Listener → List Bytes → Option (Option Error × Listener)
  unfolding own_conn listen free_own_conn append_if_not_exists
  listen_to env ln cs = listen_on cs (own_conn env ln)

  abbrev pub notified : Listener → ℕ → Outcome Notification → Ret Notification
  notified ln k (ok n c) = some (inr n, stored ln k c)
  notified ln k (err e c) = with_error e (free_own_conn (stored ln k c) e)
  notified ln k panic = none
  notified ln k no_fuel = none

  abbrev pub receive_on : Ret ℕ → Ret Notification
  receive_on none = none
  receive_on (some (inl e, ln)) = with_error e (free_own_conn ln e)
  receive_on (some (inr k, ln)) = notified ln k (read_notification (ln.db.conns k))

  -- `ReceiveTimeout`.
  unfoldable pub receive : Env → Listener → Ret Notification
  unfolding own_conn free_own_conn read_notification
  receive env ln = receive_on (own_conn env ln)

-- `Close`.
unfoldable pub close : Listener → Option (Option Error × Listener)
unfolding close_conn
close ln =
    if ln.closed
    then some (some (internal_error listener_closed), ln)
    else left_with none (close_conn (record ln { closed = true }))
