-- ===== src/Database/Stmts/Laws.antt =====
-- stmt.go: the connection that a statement holds, and its errors.
use go_pg.Base.{ℕ, zero, suc, ◌≡◌, inl, inr, refl, sym, subst, Bool-cases, Option, none, some, List}
use go_pg.Errors.{Error, internal_error, stmt_closed}
use go_pg.Net.{M}
use go_pg.Types.Append.{Value}
use go_pg.Message.Read.{Reply}
use go_pg.Message.Rows.{RowModel}
use go_pg.Pool.Get.{Env}
use go_pg.Database.{Db}
use go_pg.Database.Calls.{ext_query}
use go_pg.Database.Queries.{goes_on, refused_with}
use go_pg.Database.Tx.{Stmt}
use go_pg.Database.Stmts.{
  stmt_conn, on_conn, exec_once, rounds, note, stmt_exec, query_once, stmt_query, stmt_close,
}

-- A round that changes nothing is the last word, however often it is made.
rounds-idle :
    (once : Db → Option (Reply × Db)) (left i : ℕ) (last r : Reply) (db : Db)
    → once db ≡ some (r, db)
    → rounds once (suc left) i last db ≡ some (r, db)
unfolding rounds
rounds-idle once zero i last r db e = elim (Bool-cases (goes_on db.opt i r.ret_err)) [
  | inl t ↦ rw (e, rounds) (rw (t, rounds) refl)
  | inr t ↦ rw (e, rounds) (rw (t, rounds) refl)
]
rounds-idle once (suc left) i last r db e = elim (Bool-cases (goes_on db.opt i r.ret_err)) [
  | inl t ↦ rw (e, rounds) (rw (t, rounds) (rounds-idle once left (suc i) r r db e))
  | inr t ↦ rw (e, rounds) (rw (t, rounds) refl)
]

-- The error of a statement without a connection: the first that it has met, if there was one.
abbrev pub error_of_closed : Option Error → Error
error_of_closed none = internal_error stmt_closed
error_of_closed (some e) = e

note_refused :
    (s : Stmt) (o : Option Error) (db : Db)
    → note (record s { sticky_err = o }) (some (refused_with (error_of_closed o), db))
      ≡ some (
        refused_with (error_of_closed o),
        (record s { sticky_err = some (error_of_closed o) }, db),
      )
note_refused s none db = refl
note_refused s (some e) db = refl

on_closed :
    (o : Option Error) (call : M Reply) (db : Db)
    → on_conn (stmt_conn none o) call db ≡ some (refused_with (error_of_closed o), db)
on_closed none call db = refl
on_closed (some e) call db = refl

exec_closed :
    (s : Stmt) (params : List Value) (db : Db)
    → s.cn ≡ none
    → exec_once s params db ≡ some (refused_with (error_of_closed s.sticky_err), db)
unfolding exec_once
exec_closed s params db h = rw h (on_closed s.sticky_err (ext_query s.name params) db)

module _ (m : RowModel) (hook : m.State → Db → Option (Option Error × Db)) where
  query_closed :
      (s : Stmt) (o : Option Error) (params : List Value) (db : Db)
      → query_once m hook (record s { cn = none; sticky_err = o }) params db
        ≡ some (refused_with (error_of_closed o), db)
  unfolding query_once
  query_closed s none params db = refl
  query_closed s (some e) params db = refl

  -- A statement without a connection answers Exec and Query with the first error that it has met, or with
  -- errStmtClosed when it has met none, which it then keeps; the handle is not touched, whatever its
  -- number of retries. Close on it returns errStmtClosed and changes nothing.
  pub closed-Refused :
      (s : Stmt) (params : List Value) (env : Env) (db : Db)
      → s.cn ≡ none
      → (stmt_exec params s db
          ≡ some (
            refused_with (error_of_closed s.sticky_err),
            (record s { sticky_err = some (error_of_closed s.sticky_err) }, db),
          ))
        × (stmt_query m hook params s db
            ≡ some (
              refused_with (error_of_closed s.sticky_err),
              (record s { sticky_err = some (error_of_closed s.sticky_err) }, db),
            ))
        × (stmt_close env s db ≡ some (some (internal_error stmt_closed), (s, db)))
  unfolding stmt_exec stmt_query stmt_close
  closed-Refused s params env db h =
      let e = error_of_closed s.sticky_err in
      let start : Reply = record { res = none; ret_err = none } in
      let asked : query_once m hook s params db ≡ some (refused_with e, db) =
        subst (λ o. query_once m hook (record s { cn = o }) params db ≡ some (refused_with e, db))
          (sym h) (query_closed s s.sticky_err params db) in
      (
        rw
            (rounds-idle (exec_once s params) 2 0 start (refused_with e) db
              (exec_closed s params db h))
            (note_refused s s.sticky_err db),
        rw (rounds-idle (query_once m hook s params) 2 0 start (refused_with e) db asked)
            (note_refused s s.sticky_err db),
        rw h refl,
      )
