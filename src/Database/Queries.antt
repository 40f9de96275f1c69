-- ===== src/Database/Queries.antt =====
-- db.go: Query, QueryOne, ExecOne, CopyFrom and CopyTo. The sleep between two rounds is left out.
pub mod Balance
use go_pg.Base.{
  ℕ, zero, suc, ◌⊎◌, inl, inr, Bool, true, false, Option, none, some, leb, ◌==◌, if◌then◌else◌,
}
use go_pg.Errors.{Error}
use go_pg.Net.{Outcome, ok, err, panic, no_fuel, M}
use go_pg.Message.Read.{Reply}
use go_pg.Message.Write.{Format, Query}
use go_pg.Message.Rows.{RowModel, Gathered}
use go_pg.Message.Copy.{Writer, Copied}
use go_pg.Pool.Get.{Env, put}
use go_pg.Database.{
  Db, DbOptions, store, with_pool, free_conn, should_retry, beside, conn, attempt, exec,
  write_query,
}
use go_pg.Database.Calls.{
  left_by, Chunks, copy_from_call, copy_out_call, one_row, simple_query_data, nothing_but,
}

-- Whether a loop with `i` rounds behind it, whose last ended in an error, makes another.
unfoldable pub goes_on : DbOptions → ℕ → Option Error → Bool
unfolding should_retry
goes_on opt i e = if leb opt.max_retries i then false else should_retry opt e

abbrev pub refused_with : Error → Reply
refused_with e = record { res = none; ret_err = some e }

abbrev one_row_of : Option (Reply × Db) → Option (Reply × Db)
one_row_of none = none
one_row_of (some (r, db)) = elim (one_row r) [ none ↦ none | some x ↦ some (x, db) ]

-- `db.freeConn(cn, nil)`, and `db.pool.Put(cn)`.
abbrev pub put_back : Env → ℕ → Db → Option Db
put_back env cn db = with_pool (put db.pool cn (env.info cn)) db

abbrev pub copied_out : Env → ℕ → Option ((Error ⊎ Copied) × Db) → Option ((Error ⊎ Copied) × Db)
copied_out env cn none = none
copied_out env cn (some (inl e, db)) = beside (inl e) (free_conn env db cn (some e))
copied_out env cn (some (inr r, db)) = beside (inr r) (put_back env cn db)

-- `CopyTo` with what its `writeQueryMsg` returned: a query that was not written keeps the connection
-- in the pool, whatever the error is.
abbrev pub copy_written :
    Writer → Env → ℕ → Db → Outcome (Unit {0}) → Option ((Error ⊎ Copied) × Db)
copy_written w env cn db (ok u c) = copied_out env cn (left_by db cn (copy_out_call w c))
copy_written w env cn db (err e c) = beside (inl e) (put_back env cn (store db cn c))
copy_written w env cn db panic = none
copy_written w env cn db no_fuel = none

abbrev pub copy_on :
    Format → Writer → Query → Env → Option ((Error ⊎ ℕ) × Db) → Option ((Error ⊎ Copied) × Db)
copy_on format w q env none = none
copy_on format w q env (some (inl e, db)) = some (inl e, db)
copy_on format w q env (some (inr cn, db)) =
    copy_written w env cn db (write_query format q (db.conns cn))

module _ (m : RowModel) where
  abbrev pub freed_data :
      Env → ℕ → Option ((Error ⊎ Gathered m) × Db) → Option ((Error ⊎ Gathered m) × Db)
  freed_data env cn none = none
  freed_data env cn (some (inl e, db)) =
      beside (inr (nothing_but m e)) (free_conn env db cn (some e))
  freed_data env cn (some (inr g, db)) = beside (inr g) (free_conn env db cn g.ret_err)

  abbrev pub use_data :
      M (Gathered m) → Env → Option ((Error ⊎ ℕ) × Db) → Option ((Error ⊎ Gathered m) × Db)
  use_data call env none = none
  use_data call env (some (inl e, db)) = some (inl e, db)
  use_data call env (some (inr cn, db)) = freed_data env cn (left_by db cn (call (db.conns cn)))

  -- `hook` is `AfterQuery` of the model, which may itself use the handle.
  module _ (hook : m.State → Db → Option (Option Error × Db)) where
    abbrev pub hooked : Reply → Option (Option Error × Db) → Option (Reply × Db)
    hooked r none = none
    hooked r (some (e, db)) = some (record r { ret_err = e }, db)

    -- `mod.AfterQuery(db)` if rows came and there is a model.
    abbrev pub after_rows : Gathered m → Reply → Db → ℕ → Option (Reply × Db)
    after_rows g r db zero = some (r, db)
    after_rows g r db (suc n) = elim g.model [ none ↦ some (r, db) | some s ↦ hooked r (hook s db) ]

    -- Without a result `res.RowsReturned()` panics.
    abbrev pub queried : Option ((Error ⊎ Gathered m) × Db) → Option (Reply × Db)
    queried none = none
    queried (some (inl e, db)) = some (refused_with e, db)
    queried (some (inr g, db)) = elim g.ret_err [
      | some e ↦ some (refused_with e, db)
      | none ↦ elim g.res [
        | none ↦ none
        | some r ↦ after_rows g (record { res = some r; ret_err = none }) db r.returned
      ]
    ]

module _ (init : M (Unit {0})) where
  unfoldable pub exec_one : M Reply → (ℕ → Env) → Db → Option (Reply × Db)
  unfolding exec one_row
  exec_one call env db = one_row_of (exec init call env db)

  -- CopyFrom is one round of Exec with another call.
  unfoldable pub copy_from : Format → Query → Chunks → Env → Db → Option ((Error ⊎ Reply) × Db)
  unfolding attempt copy_from_call
  copy_from format q r env db = attempt init (copy_from_call format q r) env db

  unfoldable pub copy_to : Format → Writer → Query → Env → Db → Option ((Error ⊎ Copied) × Db)
  unfolding conn free_conn copy_out_call
  copy_to format w q env db = copy_on format w q env (conn init env db)

  module _ (m : RowModel) where
    -- One round of Query.
    unfoldable pub attempt_data : M (Gathered m) → Env → Db → Option ((Error ⊎ Gathered m) × Db)
    unfolding conn free_conn
    attempt_data call env db = use_data m call env (conn init env db)

    -- The loop of Query from its round `i`, with the rounds that are left and the variables.
    unfoldable pub query_from :
        ℕ
        → ℕ
        → DbOptions
        → M (Gathered m)
        → (ℕ → Env)
        → Gathered m
        → Db
        → Option ((Error ⊎ Gathered m) × Db)
    unfolding attempt_data goes_on
    query_from zero i opt call env last db = some (inr last, db)
    query_from (suc left) i opt call env last db = elim (attempt_data call (env i) db) [
      | none ↦ none
      | some (inl e, s) ↦ some (inl e, s)
      | some (inr g, s) ↦ elim (goes_on opt i g.ret_err) [
        | true ↦ query_from left (suc i) opt call env g s
        | false ↦ some (inr g, s)
      ]
    ]

    module _ (hook : m.State → Db → Option (Option Error × Db)) where
      unfoldable pub query : M (Gathered m) → (ℕ → Env) → Db → Option (Reply × Db)
      unfolding query_from
      query call env db = queried m hook (
          query_from 3 0 db.opt call env
            (record { res = none; model = none; ret_err = none; rows = 0 }) db)

      unfoldable pub query_one : M (Gathered m) → (ℕ → Env) → Db → Option (Reply × Db)
      unfolding query one_row
      query_one call env db = elim m.make [
        | inl e ↦ some (refused_with e, db)
        | inr s ↦ one_row_of (query call env db)
      ]
