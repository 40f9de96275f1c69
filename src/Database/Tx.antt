-- ===== src/Database/Tx.antt =====
-- tx.go: a transaction holds one connection from Begin to Commit or Rollback; with
-- `DisableTransaction` it holds none, and each query takes its own. Stmt.Close and closeStmt of stmt.go
-- end the statements of a transaction with it.
use go_pg.Base.{
  ℕ, Bool, Option, none, some, ◌⊎◌, inl, inr, List, [], ◌∷◌, Bytes, codes, if◌then◌else◌,
}
use go_pg.Errors.{Error, internal_error, tx_done}
use go_pg.Net.{Outcome, ok, err, panic, no_fuel, M, ◌>>=◌, flush_writer}
use go_pg.Message.Read.{Reply}
use go_pg.Message.Write.{Format, query_text, write_close_msg, write_flush_msg}
use go_pg.Message.Startup.{write_with}
use go_pg.Message.Prepare.{read_close_complete_msg}
use go_pg.Pool.Get.{Env}
use go_pg.Database.{Db, store, simple_query, free_conn, beside, conn, returned, use_conn}

pub record Stmt : Type 0 where
  pub cn : Option ℕ
  pub in_tx : Bool
  pub q : Bytes
  pub name : Bytes
  pub columns : List Bytes
  pub sticky_err : Option Error

pub record Tx : Type 0 where
  pub cn : Option ℕ
  pub stmts : List Stmt

unfoldable pub close_stmt : Bytes → M (Unit {0})
close_stmt name = do
  written ← write_with (λ w. write_close_msg w name)
  flush ← write_with write_flush_msg
  flushed ← flush_writer
  read_close_complete_msg

-- The end of `Stmt.Close`, with the error of `closeStmt`.
abbrev pub stmt_freed : Env → Stmt → ℕ → Option Error → Db → Option Db
stmt_freed env stmt cn e db = if stmt.in_tx then some db else free_conn env db cn e

abbrev pub stmt_closed : Env → Stmt → ℕ → Db → Outcome (Unit {0}) → Option Db
stmt_closed env stmt cn db (ok u c) = stmt_freed env stmt cn none (store db cn c)
stmt_closed env stmt cn db (err e c) = stmt_freed env stmt cn (some e) (store db cn c)
stmt_closed env stmt cn db panic = none
stmt_closed env stmt cn db no_fuel = none

-- `Stmt.Close`, whose error `Tx.close` drops.
abbrev pub close_held : Env → Stmt → Option ℕ → Db → Option Db
close_held env stmt none db = some db
close_held env stmt (some cn) db = stmt_closed env stmt cn db (close_stmt stmt.name (db.conns cn))

-- The loop over `tx.stmts`, from the first on.
unfoldable pub close_stmts : Env → List Stmt → Option Db → Option Db
close_stmts env ss none = none
close_stmts env [] (some db) = some db
close_stmts env (s ∷ ss) (some db) = close_stmts env ss (close_held env s s.cn db)

abbrev pub free_held : Env → ℕ → Option Error → Option Db → Option Db
free_held env cn e none = none
free_held env cn e (some db) = free_conn env db cn e

-- `close`: its own error, `errTxDone`, is not looked at by its callers.
abbrev pub close_tx : Env → Tx → Option ℕ → Option Error → Db → Option (Tx × Db)
close_tx env tx none e db = some (tx, db)
close_tx env tx (some cn) e db =
    beside (record { cn = none; stmts = [] })
      (free_held env cn e (close_stmts env tx.stmts (some db)))

abbrev pub held : Option ℕ → Error ⊎ ℕ
held none = inl (internal_error tx_done)
held (some cn) = inr cn

abbrev pub error_of : Error ⊎ Reply → Option Error
error_of (inl e) = some e
error_of (inr r) = r.ret_err

abbrev pub begun : ℕ → Option ((Error ⊎ Reply) × Db) → Option ((Error ⊎ Tx) × Db)
begun cn none = none
begun cn (some (r, db)) = elim (error_of r) [
  | none ↦ some (inr (record { cn = some cn; stmts = [] }), db)
  | some e ↦ some (inl e, db)
]

abbrev pub answered : Option (Reply × Db) → Option ((Error ⊎ Reply) × Db)
answered none = none
answered (some (r, db)) = some (inr r, db)

-- A query on the connection that the transaction holds.
abbrev pub on_held : M Reply → Error ⊎ ℕ → Db → Option ((Error ⊎ Reply) × Db)
on_held call (inl e) db = some (inl e, db)
on_held call (inr cn) db = answered (returned db cn (call (db.conns cn)))

abbrev pub ended : Env → Tx → Option ((Error ⊎ Reply) × Db) → Option (Option Error × (Tx × Db))
ended env tx none = none
ended env tx (some (r, db)) = elim (close_tx env tx tx.cn (error_of r) db) [
  | none ↦ none
  | some s ↦ some (error_of r, s)
]

-- What the caller's function does to the transaction and the handle, with its error.
abbrev pub TxFn : Type 0
TxFn = Tx → Db → Option (Option Error × (Tx × Db))

-- The error of the function, in place of that of the rollback.
abbrev pub with_error :
    Error → Option (Option Error × (Tx × Db)) → Option (Option Error × (Tx × Db))
with_error e none = none
with_error e (some (x, s)) = some (some e, s)

module _ (init : M (Unit {0})) where
  -- `Tx.Exec`, with `conn` and `freeConn` of tx.go.
  unfoldable pub tx_exec : M Reply → Env → Tx → Db → Option ((Error ⊎ Reply) × Db)
  unfolding conn free_conn
  tx_exec call env tx db =
      if db.opt.disable_transaction
      then use_conn call env (conn init env db)
      else on_held call (held tx.cn) db

  -- `Commit` with the text COMMIT, `Rollback` with ROLLBACK.
  unfoldable pub end_tx : Format → Bytes → Env → Tx → Db → Option (Option Error × (Tx × Db))
  unfolding tx_exec close_stmts
  end_tx format text env tx db =
      if db.opt.disable_transaction
      then some (none, (tx, db))
      else ended env tx (tx_exec (simple_query format (query_text text)) env tx db)

  abbrev pub commit : Format → Env → Tx → Db → Option (Option Error × (Tx × Db))
  commit format = end_tx format (codes "COMMIT")

  abbrev pub rollback : Format → Env → Tx → Db → Option (Option Error × (Tx × Db))
  rollback format = end_tx format (codes "ROLLBACK")

  abbrev pub after_fn :
      Format → Env → Option (Option Error × (Tx × Db)) → Option (Option Error × (Tx × Db))
  after_fn format env none = none
  after_fn format env (some (none, (tx, db))) = commit format env tx db
  after_fn format env (some (some e, (tx, db))) = with_error e (rollback format env tx db)

  -- `Tx.RunInTransaction`.
  unfoldable pub run_in_transaction :
      Format → Env → TxFn → Tx → Db → Option (Option Error × (Tx × Db))
  unfolding end_tx
  run_in_transaction format env fn tx db = after_fn format env (fn tx db)

  abbrev pub begin_on : M Reply → Option ((Error ⊎ ℕ) × Db) → Option ((Error ⊎ Tx) × Db)
  begin_on call none = none
  begin_on call (some (inl e, db)) = some (inl e, db)
  begin_on call (some (inr cn, db)) = begun cn (on_held call (inr cn) db)

  -- `Begin`; its last step, `tx.begin`, is the query BEGIN on the connection that was taken.
  unfoldable pub begin : Format → Env → Db → Option ((Error ⊎ Tx) × Db)
  unfolding conn
  begin format env db =
      if db.opt.disable_transaction
      then some (inr (record { cn = none; stmts = [] }), db)
      else begin_on (simple_query format (query_text (codes "BEGIN"))) (conn init env db)
