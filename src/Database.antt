-- ===== src/Database.antt =====
-- db.go: a query of the database handle takes a connection from the pool, uses it, gives it back, and
-- tries again after some errors. `conns` is the heap of connections, by the numbers of the pool; `inited`
-- says whose `InitedAt` is set. A panic is `none`, as is a loop that ran out of fuel.
pub mod Places
pub mod Retries
pub mod Tx
pub mod Endings
pub mod Back
pub mod Begins
pub mod Calls
pub mod Queries
pub mod Stmts
pub mod TxCalls
pub mod Tests
use go_pg.Base.{
  ℕ, zero, suc, Bool, true, false, Option, none, some, ◌⊎◌, inl, inr, codes, leb, equal, ◌==◌,
  if◌then◌else◌,
}
use go_pg.Errors.{
  Error, eof, net_error, pg_error, plain_error, field, is_bad_conn, is_network_error,
}
use go_pg.Net.{Conn, Outcome, ok, err, panic, no_fuel, M, fail, ◌>>=◌, ◌>>◌, flush_writer}
use go_pg.Wire.Buffer.{WriteBuffer}
use go_pg.Types.Result.{PgResult}
use go_pg.Message.Read.{Reply}
use go_pg.Message.Write.{Query, Format, write_query_msg}
use go_pg.Message.Query.{read_simple_query}
use go_pg.Pool.{ConnPool}
use go_pg.Pool.Get.{Env, Got, got, refused, get, put, remove_conn}

pub record DbOptions : Type 0 where
  pub max_retries : ℕ
  pub retry_statement_timeout : Bool
  pub disable_transaction : Bool

pub record Db : Type 0 where
  pub opt : DbOptions
  pub pool : ConnPool
  pub conns : ℕ → Conn
  pub inited : ℕ → Bool

abbrev pub store : Db → ℕ → Conn → Db
store db cn c = record db { conns = λ k. if k == cn then c else db.conns k }

abbrev pub mark_inited : Db → ℕ → Db
mark_inited db cn = record db { inited = λ k. if k == cn then true else db.inited k }

abbrev pub with_pool : Option ConnPool → Db → Option Db
with_pool none db = none
with_pool (some q) db = some (record db { pool = q })

-- The query of a simple protocol: its message is written, sent, and answered.
abbrev pub sent_query : Option (Option Error × WriteBuffer) → M (Unit {0})
sent_query none c = panic
sent_query (some (none, w)) c = ok tt (record c { wr = w })
sent_query (some (some e, w)) c = err e (record c { wr = w })

unfoldable pub write_query : Format → Query → M (Unit {0})
write_query format q c = sent_query (write_query_msg format c.wr q) c

unfoldable pub simple_query : Format → Query → M Reply
simple_query format q = do written ← write_query format q; flushed ← flush_writer; read_simple_query

unfoldable pub free_conn : Env → Db → ℕ → Option Error → Option Db
unfolding is_bad_conn
free_conn env db cn e =
    if is_bad_conn e false
    then with_pool (remove_conn db.pool cn) db
    else with_pool (put db.pool cn (env.info cn)) db

-- `shouldRetry` on a code of the server.
abbrev retry_code : DbOptions → Error → Bool
retry_code opt (pg_error m) =
    if equal (field m b'C') (codes "40001")
    then true
    else if equal (field m b'C') (codes "55000")
    then true
    else if equal (field m b'C') (codes "57014")
    then opt.retry_statement_timeout
    else false
retry_code opt e = is_network_error e

unfoldable pub should_retry : DbOptions → Option Error → Bool
should_retry opt none = false
should_retry opt (some e) = retry_code opt e

-- A value beside the handle, unless making the handle panicked.
abbrev pub beside : {A : Type 0} → A → Option Db → Option (A × Db)
beside a none = none
beside a (some db) = some (a, db)

-- What a call on a connection returned, and the heap with the connection as it left it.
abbrev pub returned : Db → ℕ → Outcome Reply → Option (Reply × Db)
returned db cn (ok r c) = some (r, store db cn c)
returned db cn (err e c) = some (record { res = none; ret_err = some e }, store db cn c)
returned db cn panic = none
returned db cn no_fuel = none

abbrev pub freed : Env → ℕ → Option (Reply × Db) → Option ((Error ⊎ Reply) × Db)
freed env cn none = none
freed env cn (some (r, db)) = beside (inr r) (free_conn env db cn r.ret_err)

abbrev pub use_conn : M Reply → Env → Option ((Error ⊎ ℕ) × Db) → Option ((Error ⊎ Reply) × Db)
use_conn call env none = none
use_conn call env (some (inl e, db)) = some (inl e, db)
use_conn call env (some (inr cn, db)) = freed env cn (returned db cn (call (db.conns cn)))

-- The end of a round of `Exec`: `again` is what the rounds behind it return.
unfoldable pub decide : DbOptions → ℕ → Reply × Db → Option (Reply × Db) → Option (Reply × Db)
unfolding should_retry
decide opt i (r, db) again =
    if leb opt.max_retries i
    then some (r, db)
    else if should_retry opt r.ret_err
    then again
    else some (r, db)

-- `init` is what `initConn` does with the options of the handle.
module _ (init : M (Unit {0})) where
  abbrev pub initialised : ℕ → Db → Outcome (Unit {0}) → Option ((Error ⊎ ℕ) × Db)
  initialised cn db (ok u c) = some (inr cn, mark_inited (store db cn c) cn)
  initialised cn db (err e c) = beside (inl e) (with_pool (remove_conn db.pool cn) (store db cn c))
  initialised cn db panic = none
  initialised cn db no_fuel = none

  abbrev pub ready_conn : Db → Option (Got × ConnPool) → Option ((Error ⊎ ℕ) × Db)
  ready_conn db none = none
  ready_conn db (some (refused e, q)) = some (inl e, record db { pool = q })
  ready_conn db (some (got cn fresh, q)) =
      if db.inited cn
      then some (inr cn, record db { pool = q })
      else initialised cn (record db { pool = q }) (init (db.conns cn))

  -- `conn`: a connection from the pool, started up if it is new.
  unfoldable pub conn : Env → Db → Option ((Error ⊎ ℕ) × Db)
  unfolding get remove_conn
  conn env db = ready_conn db (get env db.pool)

  -- One round of `Exec`. The left is the error of `conn`, which ends the loop.
  unfoldable pub attempt : M Reply → Env → Db → Option ((Error ⊎ Reply) × Db)
  unfolding conn free_conn
  attempt call env db = use_conn call env (conn env db)

  -- The loop of `Exec` from its round `i`, with the environment of each round.
  unfoldable pub exec_from : ℕ → ℕ → DbOptions → M Reply → (ℕ → Env) → Db → Option (Reply × Db)
  unfolding attempt
  exec_from zero i opt call env db = none
  exec_from (suc fuel) i opt call env db = elim (attempt call (env i) db) [
    | none ↦ none
    | some (inl e, s) ↦ some (record { res = none; ret_err = some e }, s)
    | some (inr r, s) ↦ decide opt i (r, s) (exec_from fuel (suc i) opt call env s)
  ]

  -- Round `i` is the last where `i >= MaxRetries`, so one more round of fuel than `MaxRetries` is enough.
  unfoldable pub exec : M Reply → (ℕ → Env) → Db → Option (Reply × Db)
  unfolding exec_from
  exec call env db = exec_from (suc db.opt.max_retries) 0 db.opt call env db
