-- ===== src/Database/Stmts.antt =====
-- stmt.go, and Prepare and Stmt of tx.go: prepared statements. A statement holds the connection on
-- which it was prepared until it is closed; one of a transaction shares that of the transaction. The
-- mutex and the sleep between two rounds are left out.
pub mod Held
pub mod Laws
pub mod Tests
use go_pg.Base.{
  ℕ, zero, suc, ◌⊎◌, inl, inr, Bool, true, false, Option, none, some, List, [], ◌∷◌, ◌++◌, Bytes,
  if◌then◌else◌,
}
use go_pg.Errors.{Error, internal_error, stmt_closed}
use go_pg.Net.{Outcome, ok, err, panic, no_fuel, M}
use go_pg.Types.Append.{Value}
use go_pg.Message.Read.{Reply}
use go_pg.Message.Rows.{RowModel, Gathered}
use go_pg.Pool.Get.{Env}
use go_pg.Database.{Db, DbOptions, store, free_conn, beside, conn, returned}
use go_pg.Database.Calls.{left_by, prepare_call, ext_query, ext_query_data, one_row}
use go_pg.Database.Queries.{goes_on, refused_with, queried}
use go_pg.Database.Tx.{Stmt, Tx, held, close_stmt, stmt_freed}

abbrev pub stmt_of : ℕ → Bytes → Bytes × List Bytes → Stmt
stmt_of cn q (name, columns) = record {
  cn = some cn;
  in_tx = false;
  q = q;
  name = name;
  columns = columns;
  sticky_err = none;
}

abbrev pub prepared :
    Env → ℕ → Bytes → Option ((Error ⊎ (Bytes × List Bytes)) × Db) → Option ((Error ⊎ Stmt) × Db)
prepared env cn q none = none
prepared env cn q (some (inl e, db)) = beside (inl e) (free_conn env db cn (some e))
prepared env cn q (some (inr r, db)) = some (inr (stmt_of cn q r), db)

-- `prepare`: on an error it frees the connection, whoever has taken it.
unfoldable pub prepare : Env → ℕ → Bytes → Db → Option ((Error ⊎ Stmt) × Db)
unfolding prepare_call free_conn
prepare env cn q db = prepared env cn q (left_by db cn (prepare_call q (db.conns cn)))

abbrev pub prepare_on : Env → Bytes → Option ((Error ⊎ ℕ) × Db) → Option ((Error ⊎ Stmt) × Db)
prepare_on env q none = none
prepare_on env q (some (inl e, db)) = some (inl e, db)
prepare_on env q (some (inr cn, db)) = prepare env cn q db

-- `Stmt.conn`.
abbrev pub stmt_conn : Option ℕ → Option Error → Error ⊎ ℕ
stmt_conn (some cn) e = inr cn
stmt_conn none (some e) = inl e
stmt_conn none none = inl (internal_error stmt_closed)

abbrev pub on_conn : Error ⊎ ℕ → M Reply → Db → Option (Reply × Db)
on_conn (inl e) call db = some (refused_with e, db)
on_conn (inr cn) call db = returned db cn (call (db.conns cn))

-- `Stmt.exec`, one round.
unfoldable pub exec_once : Stmt → List Value → Db → Option (Reply × Db)
unfolding ext_query
exec_once s params db = on_conn (stmt_conn s.cn s.sticky_err) (ext_query s.name params) db

-- The loop of Stmt.Exec and Stmt.Query from its round `i`, with the rounds that are left.
unfoldable pub rounds : (Db → Option (Reply × Db)) → ℕ → ℕ → Reply → Db → Option (Reply × Db)
unfolding goes_on
rounds once zero i last db = some (last, db)
rounds once (suc left) i last db = elim (once db) [
  | none ↦ none
  | some (r, s) ↦ elim (goes_on s.opt i r.ret_err) [
    | true ↦ rounds once left (suc i) r s
    | false ↦ some (r, s)
  ]
]

-- `setErr`.
abbrev pub sticky : Option Error → Error → Option Error
sticky none e = some e
sticky (some x) e = some x

abbrev pub noted : Stmt → Option Error → Stmt
noted s none = s
noted s (some e) = record s { sticky_err = sticky s.sticky_err e }

-- `if err != nil { stmt.setErr(err) }`.
abbrev pub note : Stmt → Option (Reply × Db) → Option (Reply × (Stmt × Db))
note s none = none
note s (some (r, db)) = some (r, (noted s r.ret_err, db))

unfoldable pub stmt_exec : List Value → Stmt → Db → Option (Reply × (Stmt × Db))
unfolding rounds exec_once
stmt_exec params s db =
    note s (rounds (exec_once s params) 3 0 (record { res = none; ret_err = none }) db)

abbrev checked_row : Option (Reply × (Stmt × Db)) → Option (Reply × (Stmt × Db))
checked_row none = none
checked_row (some (r, s)) = elim (one_row r) [ none ↦ none | some x ↦ some (x, s) ]

unfoldable pub stmt_exec_one : List Value → Stmt → Db → Option (Reply × (Stmt × Db))
unfolding stmt_exec one_row
stmt_exec_one params s db = checked_row (stmt_exec params s db)

-- `Stmt.Query` for a model, with its hook `AfterQuery`.
module _ (m : RowModel) (hook : m.State → Db → Option (Option Error × Db)) where
  abbrev query_on : Stmt → List Value → Error ⊎ ℕ → Db → Option (Reply × Db)
  query_on s params (inl e) db = some (refused_with e, db)
  query_on s params (inr cn) db =
      queried m hook (left_by db cn (ext_query_data m s.name s.columns params (db.conns cn)))

  -- `Stmt.query`, one round: here the hook is part of the round.
  unfoldable pub query_once : Stmt → List Value → Db → Option (Reply × Db)
  unfolding ext_query_data
  query_once s params db = query_on s params (stmt_conn s.cn s.sticky_err) db

  unfoldable pub stmt_query : List Value → Stmt → Db → Option (Reply × (Stmt × Db))
  unfolding rounds query_once
  stmt_query params s db =
      note s (rounds (query_once s params) 3 0 (record { res = none; ret_err = none }) db)

  unfoldable pub stmt_query_one : List Value → Stmt → Db → Option (Reply × (Stmt × Db))
  unfolding stmt_query one_row
  stmt_query_one params s db = elim m.make [
    | inl e ↦ some (refused_with e, (s, db))
    | inr state ↦ checked_row (stmt_query params s db)
  ]

abbrev pub closed : Stmt → Option Error → Option Db → Option (Option Error × (Stmt × Db))
closed s e none = none
closed s e (some db) = some (e, (record s { cn = none }, db))

abbrev pub closed_by :
    Env → Stmt → ℕ → Db → Outcome (Unit {0}) → Option (Option Error × (Stmt × Db))
closed_by env s cn db (ok u c) = closed s none (stmt_freed env s cn none (store db cn c))
closed_by env s cn db (err e c) = closed s (some e) (stmt_freed env s cn (some e) (store db cn c))
closed_by env s cn db panic = none
closed_by env s cn db no_fuel = none

abbrev pub close_on : Env → Stmt → Option ℕ → Db → Option (Option Error × (Stmt × Db))
close_on env s none db = some (some (internal_error stmt_closed), (s, db))
close_on env s (some cn) db = closed_by env s cn db (close_stmt s.name (db.conns cn))

-- `Stmt.Close`.
unfoldable pub stmt_close : Env → Stmt → Db → Option (Option Error × (Stmt × Db))
unfolding close_stmt free_conn
stmt_close env s db = close_on env s s.cn db

-- `tx.freeConn`.
abbrev pub tx_free : Env → ℕ → Option Error → Db → Option Db
tx_free env cn e db = if db.opt.disable_transaction then free_conn env db cn e else some db

abbrev pub adopted : Tx → Stmt → Option Db → Option ((Error ⊎ Stmt) × (Tx × Db))
adopted tx s none = none
adopted tx s (some db) =
    let own : Stmt = record s { in_tx = true } in
    some (inr own, (record tx { stmts = tx.stmts ++ own ∷ [] }, db))

abbrev pub given_up : Tx → Error → Option Db → Option ((Error ⊎ Stmt) × (Tx × Db))
given_up tx e none = none
given_up tx e (some db) = some (inl e, (tx, db))

-- `Tx.Prepare` once `prepare` has returned: the connection is freed again, as `tx.freeConn` does it.
abbrev pub tx_prepared :
    Env → Tx → ℕ → Option ((Error ⊎ Stmt) × Db) → Option ((Error ⊎ Stmt) × (Tx × Db))
tx_prepared env tx cn none = none
tx_prepared env tx cn (some (inl e, db)) = given_up tx e (tx_free env cn (some e) db)
tx_prepared env tx cn (some (inr s, db)) = adopted tx s (tx_free env cn none db)

abbrev pub tx_prepare_on :
    Env → Bytes → Tx → Option ((Error ⊎ ℕ) × Db) → Option ((Error ⊎ Stmt) × (Tx × Db))
tx_prepare_on env q tx none = none
tx_prepare_on env q tx (some (inl e, db)) = some (inl e, (tx, db))
tx_prepare_on env q tx (some (inr cn, db)) = tx_prepared env tx cn (prepare env cn q db)

-- `Tx.Stmt` from its `Prepare`: an error becomes a statement without a connection that keeps it.
abbrev pub stmt_or_error : Error ⊎ Stmt → Stmt
stmt_or_error (inr s) = s
stmt_or_error (inl e) = record {
  cn = none;
  in_tx = false;
  q = [];
  name = [];
  columns = [];
  sticky_err = some e;
}

module _ (init : M (Unit {0})) where
  -- `DB.Prepare`.
  unfoldable pub db_prepare : Env → Bytes → Db → Option ((Error ⊎ Stmt) × Db)
  unfolding conn prepare
  db_prepare env q db = prepare_on env q (conn init env db)

  -- `Tx.Prepare`.
  unfoldable pub tx_prepare : Env → Bytes → Tx → Db → Option ((Error ⊎ Stmt) × (Tx × Db))
  unfolding conn prepare free_conn
  tx_prepare env q tx db =
      if db.opt.disable_transaction
      then tx_prepare_on env q tx (conn init env db)
      else tx_prepare_on env q tx (some (held tx.cn, db))

  abbrev stmt_beside : Option ((Error ⊎ Stmt) × (Tx × Db)) → Option (Stmt × (Tx × Db))
  stmt_beside none = none
  stmt_beside (some (r, s)) = some (stmt_or_error r, s)

  -- `Tx.Stmt`.
  unfoldable pub tx_stmt : Env → Stmt → Tx → Db → Option (Stmt × (Tx × Db))
  unfolding tx_prepare
  tx_stmt env s tx db = stmt_beside (tx_prepare env s.q tx db)
