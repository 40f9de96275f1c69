-- ===== src/Database/TxCalls.antt =====
-- tx.go: the queries of a transaction besides Exec, on the connection that it holds or, with
-- `DisableTransaction`, on one of their own; and `cancelRequest` of db.go.
use go_pg.Base.{ℕ, Bool, true, false, ◌⊎◌, inl, inr, Option, none, some, if◌then◌else◌}
use go_pg.Base.Int.{ℤ}
use go_pg.Errors.{Error}
use go_pg.Net.{Conn, Outcome, ok, err, panic, no_fuel, M}
use go_pg.Message.Read.{Reply}
use go_pg.Message.Write.{Format, Query}
use go_pg.Message.Rows.{RowModel, Gathered}
use go_pg.Pool.Get.{Env}
use go_pg.Database.{Db, conn, free_conn}
use go_pg.Database.Calls.{left_by, Chunks, copy_from_call, one_row, cancel_call}
use go_pg.Database.Queries.{refused_with, use_data, queried}
use go_pg.Database.Tx.{Tx, held, tx_exec}

abbrev pub reply_of : Option ((Error ⊎ Reply) × Db) → Option (Reply × Db)
reply_of none = none
reply_of (some (inl e, db)) = some (refused_with e, db)
reply_of (some (inr r, db)) = some (r, db)

abbrev pub checked : Option (Reply × Db) → Option (Reply × Db)
checked none = none
checked (some (r, db)) = elim (one_row r) [ none ↦ none | some x ↦ some (x, db) ]

-- The error of `FlushWriter`, and whether the connection was closed: only behind a flush that succeeds.
abbrev pub cancelled : Outcome (Unit {0}) → Option (Option Error × Bool)
cancelled (ok u c) = some (none, true)
cancelled (err e c) = some (some e, false)
cancelled panic = none
cancelled no_fuel = none

-- `cancelRequest` with what `NewConn` returned: a connection that is not in the pool.
unfoldable pub cancel_request : Error ⊎ Conn → ℤ → ℤ → Option (Option Error × Bool)
unfolding cancel_call
cancel_request (inl e) process secret = some (some e, false)
cancel_request (inr c) process secret = cancelled (cancel_call process secret c)

module _ (init : M (Unit {0})) where
  unfoldable pub tx_exec_one : M Reply → Env → Tx → Db → Option (Reply × Db)
  unfolding tx_exec one_row
  tx_exec_one call env tx db = checked (reply_of (tx_exec init call env tx db))

  unfoldable pub tx_copy_from :
      Format → Query → Chunks → Env → Tx → Db → Option ((Error ⊎ Reply) × Db)
  unfolding tx_exec copy_from_call
  tx_copy_from format q r env tx db = tx_exec init (copy_from_call format q r) env tx db

  module _ (m : RowModel) (hook : m.State → Db → Option (Option Error × Db)) where
    abbrev data_on_held : M (Gathered m) → Error ⊎ ℕ → Db → Option ((Error ⊎ Gathered m) × Db)
    data_on_held call (inl e) db = some (inl e, db)
    data_on_held call (inr cn) db = left_by db cn (call (db.conns cn))

    unfoldable pub tx_query : M (Gathered m) → Env → Tx → Db → Option (Reply × Db)
    unfolding conn free_conn
    tx_query call env tx db = queried m hook (
        if db.opt.disable_transaction
        then use_data m call env (conn init env db)
        else data_on_held call (held tx.cn) db)

    unfoldable pub tx_query_one : M (Gathered m) → Env → Tx → Db → Option (Reply × Db)
    unfolding tx_query one_row
    tx_query_one call env tx db = elim m.make [
      | inl e ↦ some (refused_with e, db)
      | inr s ↦ checked (tx_query call env tx db)
    ]
