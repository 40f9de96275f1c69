-- ===== src/Database/Stmts/Held.antt =====
-- stmt.go: the place in the pool's channel that a statement holds, from Prepare to Close.
use go_pg.Base.{
  Bool, ℕ, zero, suc, ◌≡◌, ◌⊎◌, inl, inr, refl, ap, ◌∙◌, false, Bool-cases, Option, none, some,
  List, Bytes,
}
use go_pg.Errors.{Error}
use go_pg.Pool.{ConnPool}
use go_pg.Net.{Conn, Outcome, ok, err, panic, no_fuel, M}
use go_pg.Types.Append.{Value}
use go_pg.Message.Read.{Reply}
use go_pg.Pool.Get.{Env}
use go_pg.Database.{Db, store, free_conn, conn, returned, beside}
use go_pg.Database.Back.{BackIn, unfit, free_conn-BackIn, free_conn-same}
use go_pg.Database.Calls.{left_by, prepare_call, ext_query}
use go_pg.Database.Queries.{goes_on}
use go_pg.Database.Retries.{
  Good, Returns, Sized, Freed, Joined, Balanced, store-Sized, free_conn-Freed, conn-Joined,
}
use go_pg.Database.Tx.{Stmt, Tx, close_stmt, stmt_freed}
use go_pg.Database.Stmts.{
  prepared, prepare, prepare_on, on_conn, stmt_conn, exec_once, rounds, noted, note, stmt_exec,
  closed, closed_by, stmt_close, db_prepare, tx_prepare, tx_prepared,
}

module _ (P : Conn → Type 0) where
  -- The statement holds a connection of its own, and the channel one value for it beside `n` others.
  abbrev pub Holds : ℕ → Stmt → Db → Type 0
  Holds n s db = ((cn : ℕ) × (s.cn ≡ some cn)) × (s.in_tx ≡ false) × Sized P (suc n) db

  abbrev pub Prepared : ℕ → Option ((Error ⊎ Stmt) × Db) → Type 0
  Prepared n none = ⊥
  Prepared n (some (inl e, db)) = Sized P n db
  Prepared n (some (inr s, db)) = Holds n s db

  abbrev pub StillHolds : {A : Type 0} → ℕ → Option (A × (Stmt × Db)) → Type 0
  StillHolds n none = ⊥
  StillHolds n (some (r, (s, db))) = Holds n s db

  abbrev pub GivenBack : {A : Type 0} → ℕ → Option (A × (Stmt × Db)) → Type 0
  GivenBack n none = ⊥
  GivenBack n (some (r, (s, db))) = (s.cn ≡ none) × Sized P n db

  refused-Prepared :
      (n : ℕ) (e : Error) (r : Option Db) → Freed P n r → Prepared n (beside (inl e) r)
  refused-Prepared n e none h = h
  refused-Prepared n e (some db) h = h

  prepared-Prepared :
      (env : Env) (cn n : ℕ) (q : Bytes) (r : Outcome (Bytes × List Bytes)) (db : Db)
      → Good P r
      → Sized P (suc n) db
      → Prepared n (prepared env cn q (left_by db cn r))
  prepared-Prepared env cn n q (ok x c) db g h =
      ((cn, refl), refl, store-Sized P (suc n) db cn c h g)
  prepared-Prepared env cn n q (err e c) db g h =
      refused-Prepared n e _
        (free_conn-Freed P env (store db cn c) cn n (some e) (store-Sized P (suc n) db cn c h g))
  prepared-Prepared env cn n q panic db g h = absurd g
  prepared-Prepared env cn n q no_fuel db g h = absurd g

  pub prepare-Prepared :
      (env : Env) (cn n : ℕ) (q : Bytes) (db : Db)
      → Returns P (prepare_call q)
      → Sized P (suc n) db
      → Prepared n (prepare env cn q db)
  unfolding prepare
  prepare-Prepared env cn n q db t h =
      prepared-Prepared env cn n q (prepare_call q (db.conns cn)) db (t (db.conns cn) (h.1 cn)) h

  prepare_on-Prepared :
      (env : Env) (n : ℕ) (q : Bytes) (r : Option ((Error ⊎ ℕ) × Db))
      → Returns P (prepare_call q)
      → Joined P n r
      → Prepared n (prepare_on env q r)
  prepare_on-Prepared env n q none t h = h
  prepare_on-Prepared env n q (some (inl e, db)) t h = h
  prepare_on-Prepared env n q (some (inr cn, db)) t h = prepare-Prepared env cn n q db t h

  returned-Sized :
      (n cn : ℕ) (r : Outcome Reply) (db : Db)
      → Good P r
      → Sized P n db
      → Balanced P n (returned db cn r)
  returned-Sized n cn (ok r c) db g h = store-Sized P n db cn c h g
  returned-Sized n cn (err e c) db g h = store-Sized P n db cn c h g
  returned-Sized n cn panic db g h = absurd g
  returned-Sized n cn no_fuel db g h = absurd g

  on_conn-Sized :
      (n : ℕ) (name : Bytes) (params : List Value) (x : Error ⊎ ℕ) (db : Db)
      → Returns P (ext_query name params)
      → Sized P n db
      → Balanced P n (on_conn x (ext_query name params) db)
  on_conn-Sized n name params (inl e) db t h = h
  on_conn-Sized n name params (inr cn) db t h =
      returned-Sized n cn (ext_query name params (db.conns cn)) db (t (db.conns cn) (h.1 cn)) h

  round-Sized :
      (once : Db → Option (Reply × Db)) (left i n : ℕ) (last : Reply) (db : Db)
      → ((r : Reply) (s : Db) → Sized P n s → Balanced P n (rounds once left (suc i) r s))
      → (x : Option (Reply × Db)) → once db ≡ x
      → Balanced P n x
      → Balanced P n (rounds once (suc left) i last db)
  unfolding rounds
  round-Sized once left i n last db next none e h = absurd h
  round-Sized once left i n last db next (some (r, s)) e h =
      elim (Bool-cases (goes_on s.opt i r.ret_err)) [
        | inl t ↦ rw (e, rounds) (rw (t, rounds) (next r s h))
        | inr t ↦ rw (e, rounds) (rw (t, rounds) h)
      ]

  rounds-Sized :
      (once : Db → Option (Reply × Db)) (left i n : ℕ) (last : Reply) (db : Db)
      → ((s : Db) → Sized P n s → Balanced P n (once s))
      → Sized P n db
      → Balanced P n (rounds once left i last db)
  rounds-Sized once zero i n last db t h = unfold rounds in h
  rounds-Sized once (suc left) i n last db t h =
      round-Sized once left i n last db (λ r s k. rounds-Sized once left (suc i) n r s t k)
        (once db) refl (t db h)

  noted-Holds :
      (n : ℕ) (s : Stmt) (e : Option Error) (db : Db) → Holds n s db → Holds n (noted s e) db
  noted-Holds n s none db h = h
  noted-Holds n s (some e) db h = h

  note-StillHolds :
      (n cn : ℕ) (s : Stmt) (r : Option (Reply × Db))
      → s.cn ≡ some cn
      → s.in_tx ≡ false
      → Balanced P (suc n) r
      → StillHolds n (note s r)
  note-StillHolds n cn s none c t h = h
  note-StillHolds n cn s (some (r, db)) c t h = noted-Holds n s r.ret_err db ((cn, c), t, h)

  exec-StillHolds :
      (n : ℕ) (s : Stmt) (params : List Value) (db : Db)
      → Returns P (ext_query s.name params)
      → Holds n s db
      → StillHolds n (stmt_exec params s db)
  unfolding stmt_exec exec_once
  exec-StillHolds n s params db x ((cn, c), t, h) = note-StillHolds n cn s _ c t (
      rounds-Sized (exec_once s params) 3 0 (suc n) (record { res = none; ret_err = none }) db
        (λ d k. on_conn-Sized (suc n) s.name params (stmt_conn s.cn s.sticky_err) d x k) h)

  module _ (closes : (name : Bytes) → Returns P (close_stmt name)) where
    closed-GivenBack :
        (n : ℕ) (s : Stmt) (e : Option Error) (r : Option Db)
        → Freed P n r
        → GivenBack n (closed s e r)
    closed-GivenBack n s e none h = h
    closed-GivenBack n s e (some db) h = (refl, h)

    stmt_freed-Freed :
        (env : Env) (n cn : ℕ) (s : Stmt) (e : Option Error) (db : Db)
        → s.in_tx ≡ false
        → Sized P (suc n) db
        → Freed P n (stmt_freed env s cn e db)
    stmt_freed-Freed env n cn s e db t h = rw t (free_conn-Freed P env db cn n e h)

    closed_by-GivenBack :
        (env : Env) (n cn : ℕ) (s : Stmt) (r : Outcome (Unit {0})) (db : Db)
        → s.in_tx ≡ false
        → Good P r
        → Sized P (suc n) db
        → GivenBack n (closed_by env s cn db r)
    closed_by-GivenBack env n cn s (ok u c) db t g h =
        closed-GivenBack n s none _
          (stmt_freed-Freed env n cn s none (store db cn c) t (store-Sized P (suc n) db cn c h g))
    closed_by-GivenBack env n cn s (err e c) db t g h =
        closed-GivenBack n s (some e) _ (
          stmt_freed-Freed env n cn s (some e) (store db cn c) t
            (store-Sized P (suc n) db cn c h g))
    closed_by-GivenBack env n cn s panic db t g h = absurd g
    closed_by-GivenBack env n cn s no_fuel db t g h = absurd g

    close-GivenBack :
        (env : Env) (n : ℕ) (s : Stmt) (db : Db) → Holds n s db → GivenBack n (stmt_close env s db)
    unfolding stmt_close
    close-GivenBack env n s db ((cn, c), t, h) = rw c (
        closed_by-GivenBack env n cn s (close_stmt s.name (db.conns cn)) db t
          (closes s.name (db.conns cn) (h.1 cn)) h)

    -- Given a start, a Parse, an execution and a Close that return on connections with the property `P` and
    -- keep it: DB.Prepare returns either an error, with the channel as it was, or a statement that holds one
    -- place more; Exec, however its rounds go, leaves a statement its place; and Close takes the connection
    -- off the statement and gives the place back, also when the server could not be told.
    pub stmts-Holds :
        (init : M (Unit {0})) (env : Env) (q : Bytes) (params : List Value) (n : ℕ) (s : Stmt)
        (db d : Db)
        → Returns P init
        → Returns P (prepare_call q)
        → Returns P (ext_query s.name params)
        → ((k : ℕ) → P (db.conns k))
        → Holds n s d
        → Prepared db.pool.queue (db_prepare init env q db)
          × StillHolds n (stmt_exec params s d)
          × GivenBack n (stmt_close env s d)
    unfolding db_prepare
    stmts-Holds init env q params n s db d i t x h k = (
      prepare_on-Prepared env db.pool.queue q (conn init env db) t (conn-Joined P init i env db h),
      exec-StillHolds n s params d x k,
      close-GivenBack env n s d k,
    )

  -- In a transaction, a connection that fails in Prepare is given back twice: `prepare` gives it back, and
  -- the transaction goes on holding it. `p` is the pool before the call.
  abbrev pub Leaked : Bool → ℕ → ℕ → Error → ConnPool → Option ((Error ⊎ Stmt) × (Tx × Db)) → Type 0
  Leaked u n cn e p none = ⊥
  Leaked u n cn e p (some (inl x, (tx, db))) =
      (x ≡ e) × (tx.cn ≡ some cn) × BackIn u cn p db.pool × Sized P n db
  Leaked u n cn e p (some (inr s, (tx, db))) = ⊥

  given_up-Leaked :
      (env : Env) (u : Bool) (n cn : ℕ) (ss : List Stmt) (e : Error) (p : ConnPool) (r : Option Db)
      → Freed P n r
      → ((db : Db) → r ≡ some db → BackIn u cn p db.pool)
      → ((db : Db) → r ≡ some db → db.opt.disable_transaction ≡ false)
      → Leaked u n cn e p
          (tx_prepared env (record { cn = some cn; stmts = ss }) cn (beside (inl e) r))
  given_up-Leaked env u n cn ss e p none h b d = absurd h
  given_up-Leaked env u n cn ss e p (some db) h b d = rw (d db refl) (refl, refl, b db refl, h)

  -- When the messages of Tx.Prepare fail with `e` on the connection that the transaction holds, and leave it with the
  -- property `P`: the connection has been put behind the free ones of the pool, or, after an error that is no
  -- answer of the server or with bytes unread, closed and taken off its connections, and its place in the
  -- channel is free; Tx.Prepare returns the error, and the transaction still holds the connection.
  pub tx_prepare-Leaked :
      (init : M (Unit {0})) (env : Env) (q : Bytes) (ss : List Stmt) (db : Db) (cn n : ℕ)
      (e : Error) (c : Conn)
      → db.opt.disable_transaction ≡ false
      → Sized P (suc n) db
      → P c
      → prepare_call q (db.conns cn) ≡ err e c
      → Leaked
          (unfit env cn (some e))
          n
          cn
          e
          db.pool
          (tx_prepare init env q (record { cn = some cn; stmts = ss }) db)
  unfolding tx_prepare prepare
  tx_prepare-Leaked init env q ss db cn n e c d h g f = simp d (
      rw f (
        given_up-Leaked env (unfit env cn (some e)) n cn ss e db.pool
          (free_conn env (store db cn c) cn (some e))
          (free_conn-Freed P env (store db cn c) cn n (some e) (store-Sized P (suc n) db cn c h g))
          (λ s k. free_conn-BackIn env (store db cn c) s cn (some e) k)
          (λ s k.
            ap (λ (x : Db). x.opt.disable_transaction)
              (free_conn-same env (store db cn c) s cn (some e) k)
            ∙ d)))
