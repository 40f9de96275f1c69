-- ===== src/Database/Endings.antt =====
-- tx.go: the end of a transaction: what it sends, and the connection that it gives back.
use go_pg.Base.{
  ℕ, suc, ◌≡◌, ◌⊎◌, inr, refl, subst, sym, ap, ◌∙◌, true, false, Bool, Option, none, some, List, [],
  ◌∷◌, ◌++◌, Bytes, codes, append_assoc, append-nil, arith, ◌==◌, if◌then◌else◌,
}
use go_pg.Errors.{Error}
use go_pg.Net.{Conn, Outcome, ok, err, panic, no_fuel, M}
use go_pg.Message.Read.{Reply}
use go_pg.Message.Write.{Format, query_text}
use go_pg.Pool.{ConnPool}
use go_pg.Pool.Get.{Env}
use go_pg.Database.{Db, store, simple_query, returned, free_conn}
use go_pg.Database.Back.{BackIn, unfit, free_conn-BackIn, free_conn-same}
use go_pg.Database.Retries.{Sized, Freed, store-Sized, free_conn-Freed}
use go_pg.Database.Tx.{
  Stmt, Tx, close_stmt, stmt_closed, close_held, close_stmts, error_of, answered, tx_exec, ended,
  end_tx, TxFn, with_error, after_fn, run_in_transaction,
}

module _ (P : Conn → Type 0) where
  -- `sent` is what has been sent on a connection. A call that adds the given bytes to it, and returns on
  -- every connection with the property `P`, and leaves such a connection.
  module _ (sent : Conn → Bytes) where
    abbrev pub Left : {A : Type 0} → Bytes → Outcome A → Type 0
    Left b (ok a c) = P c × (sent c ≡ b)
    Left b (err e c) = P c × (sent c ≡ b)
    Left b panic = ⊥
    Left b no_fuel = ⊥

    abbrev pub Says : {A : Type 0} → Bytes → M A → Type 0
    Says b call = (c : Conn) → P c → Left (sent c ++ b) (call c)

    -- The statements that `Tx.Prepare` has put into a transaction on the connection `cn`; `bye` is what a call
    -- that closes the statement of a name sends.
    abbrev pub AllInTx : ℕ → (Bytes → Bytes) → List Stmt → Type 0
    AllInTx cn bye [] = Unit {0}
    AllInTx cn bye (s ∷ ss) =
        ((s.in_tx ≡ true) × (s.cn ≡ some cn) × Says (bye s.name) (close_stmt s.name))
        × AllInTx cn bye ss

    abbrev pub byes : (Bytes → Bytes) → List Stmt → Bytes
    byes bye [] = []
    byes bye (s ∷ ss) = bye s.name ++ byes bye ss

    -- A handle with the pool `p` and `n` values in its channel, where `b` has been sent on `cn`.
    abbrev pub Standing : ℕ → ConnPool → ℕ → Bytes → Option Db → Type 0
    Standing cn p n b none = ⊥
    Standing cn p n b (some db) = (db.pool ≡ p) × Sized P n db × (sent (db.conns cn) ≡ b)

    -- The transaction is over: it holds nothing, its connection `cn` is back in the pool `p` of before, the channel
    -- has `n` values, and `b` has been sent on the connection.
    abbrev pub Over : Bool → ℕ → ConnPool → ℕ → Bytes → Option (Option Error × (Tx × Db)) → Type 0
    Over u cn p n b none = ⊥
    Over u cn p n b (some (e, (tx, db))) =
        (tx.cn ≡ none)
        × (tx.stmts ≡ [])
        × BackIn u cn p db.pool
        × Sized P n db
        × (sent (db.conns cn) ≡ b)

    abbrev pub ErrorIs : Option Error → Option (Option Error × (Tx × Db)) → Type 0
    ErrorIs e none = ⊥
    ErrorIs e (some (x, s)) = x ≡ e

    -- The error of a query.
    abbrev pub error_in : Outcome Reply → Option Error
    error_in (ok r c) = r.ret_err
    error_in (err e c) = some e
    error_in panic = none
    error_in no_fuel = none

    -- The transaction is over after a query with the error `x`, which is returned.
    abbrev pub Closed :
        Env → Option Error → ℕ → ConnPool → ℕ → Bytes → Option (Option Error × (Tx × Db)) → Type 0
    Closed env x cn p n b r = Over (unfit env cn x) cn p n b r × ErrorIs x r

    own_conn : (cn : ℕ) (c : Conn) (db : Db) → (store db cn c).conns cn ≡ c
    own_conn cn c db = own (cn == cn) (ground arith)
      where
        own : (b : Bool) → b ≡ true → (if b then c else db.conns cn) ≡ c
        own true h = refl
        own false h = absurd (cc)

    stored-Standing :
        (cn n : ℕ) (p : ConnPool) (b b' : Bytes) (db : Db) (c : Conn)
        → P c
        → sent c ≡ b'
        → Standing cn p n b (some db)
        → Standing cn p n b' (some (store db cn c))
    stored-Standing cn n p b b' db c g e (same, h, l) =
        (same, store-Sized P n db cn c h g, ap sent (own_conn cn c db) ∙ e)

    stmt_closed-Standing :
        (env : Env) (s : Stmt) (cn n : ℕ) (p : ConnPool) (b b' : Bytes) (db : Db)
        (r : Outcome (Unit {0}))
        → s.in_tx ≡ true
        → Left b' r
        → Standing cn p n b (some db)
        → Standing cn p n b' (stmt_closed env s cn db r)
    stmt_closed-Standing env s cn n p b b' db (ok u c) t g h =
        rw t (stored-Standing cn n p b b' db c g.0 g.1 h)
    stmt_closed-Standing env s cn n p b b' db (err e c) t g h =
        rw t (stored-Standing cn n p b b' db c g.0 g.1 h)
    stmt_closed-Standing env s cn n p b b' db panic t g h = absurd g
    stmt_closed-Standing env s cn n p b b' db no_fuel t g h = absurd g

    close_held-Standing :
        (env : Env) (s : Stmt) (cn n : ℕ) (p : ConnPool) (b bye : Bytes) (db : Db)
        → s.in_tx ≡ true
        → s.cn ≡ some cn
        → Says bye (close_stmt s.name)
        → Standing cn p n b (some db)
        → Standing cn p n (b ++ bye) (close_held env s s.cn db)
    close_held-Standing env s cn n p b bye db t c q (same, h, l) = rw c (
        stmt_closed-Standing env s cn n p b (b ++ bye) db (close_stmt s.name (db.conns cn)) t
          (subst (λ x. Left (x ++ bye) (close_stmt s.name (db.conns cn))) l
            (q (db.conns cn) (h.1 cn)))
          (same, h, l))

    close_stmts-Standing :
        (env : Env) (cn n : ℕ) (p : ConnPool) (bye : Bytes → Bytes) (ss : List Stmt) (b : Bytes)
        (r : Option Db)
        → AllInTx cn bye ss
        → Standing cn p n b r
        → Standing cn p n (b ++ byes bye ss) (close_stmts env ss r)
    unfolding close_stmts
    close_stmts-Standing env cn n p bye [] b none a h = h
    close_stmts-Standing env cn n p bye (s ∷ ss) b none a h = h
    close_stmts-Standing env cn n p bye [] b (some db) a h = (h.0, h.1, h.2 ∙ sym (append-nil b))
    close_stmts-Standing env cn n p bye (s ∷ ss) b (some db) a h =
        subst (λ x. Standing cn p n x (close_stmts env ss (close_held env s s.cn db)))
          (append_assoc b (bye s.name) (byes bye ss))
          (close_stmts-Standing env cn n p bye ss (b ++ bye s.name) (close_held env s s.cn db) a.1
            (close_held-Standing env s cn n p b (bye s.name) db a.0.0 a.0.1 a.0.2 h))

    -- The connection is given back, whatever the last query returned.
    Freed-Over :
        (env : Env) (cn n : ℕ) (p : ConnPool) (b : Bytes) (ss : List Stmt) (r : Error ⊎ Reply)
        (d db : Db) (x : Option Db)
        → free_conn env d cn (error_of r) ≡ x
        → Freed P n x
        → Standing cn p (suc n) b (some d)
        → close_stmts env ss (some db) ≡ some d
        → Closed env
            (error_of r)
            cn
            p
            n
            b
            (ended env (record { cn = some cn; stmts = ss }) (some (r, db)))
    Freed-Over env cn n p b ss r d db none e f h c = absurd f
    Freed-Over env cn n p b ss r d db (some s) e f h c = (
      rw (c, e, Over)
          (
            refl,
            refl,
            subst (λ q. BackIn (unfit env cn (error_of r)) cn q s.pool) h.0
                (free_conn-BackIn env d s cn (error_of r) e),
            f,
            ap (λ (x : Db). sent (x.conns cn)) (free_conn-same env d s cn (error_of r) e) ∙ h.2,
          ),
      rw (c, e, ErrorIs) refl,
    )

    closed-Over :
        (env : Env) (cn n : ℕ) (p : ConnPool) (b : Bytes) (ss : List Stmt) (r : Error ⊎ Reply)
        (db : Db) (o : Option Db)
        → close_stmts env ss (some db) ≡ o
        → Standing cn p (suc n) b o
        → Closed env
            (error_of r)
            cn
            p
            n
            b
            (ended env (record { cn = some cn; stmts = ss }) (some (r, db)))
    closed-Over env cn n p b ss r db none c h = absurd h
    closed-Over env cn n p b ss r db (some d) c h =
        Freed-Over env cn n p b ss r d db (free_conn env d cn (error_of r)) refl
          (free_conn-Freed P env d cn n (error_of r) h.1) h c

    ended-Over :
        (env : Env) (cn n : ℕ) (p : ConnPool) (bye : Bytes → Bytes) (b : Bytes) (ss : List Stmt)
        (r : Error ⊎ Reply) (db : Db)
        → AllInTx cn bye ss
        → Standing cn p (suc n) b (some db)
        → Closed env
            (error_of r)
            cn
            p
            n
            (b ++ byes bye ss)
            (ended env (record { cn = some cn; stmts = ss }) (some (r, db)))
    ended-Over env cn n p bye b ss r db a h =
        closed-Over env cn n p (b ++ byes bye ss) ss r db (close_stmts env ss (some db)) refl
          (close_stmts-Standing env cn (suc n) p bye ss b (some db) a h)

    returned-Over :
        (env : Env) (cn n : ℕ) (p : ConnPool) (bye : Bytes → Bytes) (b b' : Bytes) (ss : List Stmt)
        (r : Outcome Reply) (db : Db)
        → AllInTx cn bye ss
        → Left b' r
        → Standing cn p (suc n) b (some db)
        → Closed env
            (error_in r)
            cn
            p
            n
            (b' ++ byes bye ss)
            (ended env (record { cn = some cn; stmts = ss }) (answered (returned db cn r)))
    returned-Over env cn n p bye b b' ss (ok r c) db a g h =
        ended-Over env cn n p bye b' ss (inr r) (store db cn c) a
          (stored-Standing cn (suc n) p b b' db c g.0 g.1 h)
    returned-Over env cn n p bye b b' ss (err e c) db a g h =
        ended-Over env cn n p bye b' ss (inr (record { res = none; ret_err = some e }))
          (store db cn c) a (stored-Standing cn (suc n) p b b' db c g.0 g.1 h)
    returned-Over env cn n p bye b b' ss panic db a g h = absurd g
    returned-Over env cn n p bye b b' ss no_fuel db a g h = absurd g

    -- Given that the last query sends `ask` and the closing of a statement `bye` of its name, and that they return on
    -- connections with the property `P`, and keep it: Commit and Rollback of a transaction that holds `cn`, with
    -- statements of its own on it, always return, whether the query succeeded, was refused, or lost its
    -- connection, and they return its error. They have sent the query and then the closing of every statement on
    -- `cn`; the connection is put behind the free ones of the pool, or, after an error of the query that is no
    -- answer of the server or with bytes unread, closed and taken off its connections; the channel has one
    -- value less, and the transaction holds nothing.
    pub end_tx-Over :
        (init : M (Unit {0})) (format : Format) (text ask : Bytes) (bye : Bytes → Bytes) (env : Env)
        (db : Db) (cn n : ℕ) (ss : List Stmt)
        → Says ask (simple_query format (query_text text))
        → db.opt.disable_transaction ≡ false
        → AllInTx cn bye ss
        → Sized P (suc n) db
        → Closed env
            (error_in (simple_query format (query_text text) (db.conns cn)))
            cn
            db.pool
            n
            ((sent (db.conns cn) ++ ask) ++ byes bye ss)
            (end_tx init format text env (record { cn = some cn; stmts = ss }) db)
    unfolding end_tx tx_exec
    end_tx-Over init format text ask bye env db cn n ss t d a h = simp d (
        returned-Over env cn n db.pool bye (sent (db.conns cn)) (sent (db.conns cn) ++ ask) ss
          (simple_query format (query_text text) (db.conns cn)) db a (t (db.conns cn) (h.1 cn))
          (refl, h, refl))

    -- What a function has to leave of a transaction that holds `cn`: that connection, statements of its
    -- own, and the place in the channel.
    abbrev pub Ongoing : ℕ → (Bytes → Bytes) → ℕ → Option (Option Error × (Tx × Db)) → Type 0
    Ongoing cn bye n none = ⊥
    Ongoing cn bye n (some (e, (tx, db))) =
        (tx.cn ≡ some cn)
        × AllInTx cn bye tx.stmts
        × (db.opt.disable_transaction ≡ false)
        × Sized P (suc n) db

    -- The end of a transaction by what its function has left: after no error `commit_text` has been sent, and after an
    -- error `rollback_text`, and that error is returned; then the statements were closed.
    abbrev pub EndsFn :
        Format
        → Env
        → ℕ
        → (Bytes → Bytes)
        → ℕ
        → Bytes
        → Bytes
        → Option (Option Error × (Tx × Db))
        → Option (Option Error × (Tx × Db))
        → Type 0
    EndsFn format env cn bye n commit_text rollback_text none r = ⊥
    EndsFn format env cn bye n commit_text rollback_text (some (none, (tx, db))) r =
        Closed env (error_in (simple_query format (query_text (codes "COMMIT")) (db.conns cn))) cn
          db.pool n ((sent (db.conns cn) ++ commit_text) ++ byes bye tx.stmts) r
    EndsFn format env cn bye n commit_text rollback_text (some (some e, (tx, db))) r =
        Over
          (unfit env cn
            (error_in (simple_query format (query_text (codes "ROLLBACK")) (db.conns cn))))
          cn db.pool n ((sent (db.conns cn) ++ rollback_text) ++ byes bye tx.stmts) r
        × ErrorIs (some e) r

    with_error-Over :
        (e : Error) (u : Bool) (cn n : ℕ) (p : ConnPool) (b : Bytes)
        (r : Option (Option Error × (Tx × Db)))
        → Over u cn p n b r
        → Over u cn p n b (with_error e r) × ErrorIs (some e) (with_error e r)
    with_error-Over e u cn n p b none h = absurd h
    with_error-Over e u cn n p b (some (x, s)) h = (h, refl)

    holding :
        (init : M (Unit {0})) (format : Format) (text ask : Bytes) (bye : Bytes → Bytes) (env : Env)
        (tx : Tx) (db : Db) (cn n : ℕ)
        → Says ask (simple_query format (query_text text))
        → Ongoing cn bye n (some (none, (tx, db)))
        → Closed env
            (error_in (simple_query format (query_text text) (db.conns cn)))
            cn
            db.pool
            n
            ((sent (db.conns cn) ++ ask) ++ byes bye tx.stmts)
            (end_tx init format text env tx db)
    holding init format text ask bye env tx db cn n t (held_cn, a, d, h) =
        subst
          (λ o.
            Closed env (error_in (simple_query format (query_text text) (db.conns cn))) cn db.pool n
              ((sent (db.conns cn) ++ ask) ++ byes bye tx.stmts)
              (end_tx init format text env (record { cn = o; stmts = tx.stmts }) db))
          (sym held_cn) (end_tx-Over init format text ask bye env db cn n tx.stmts t d a h)

    after_fn-EndsFn :
        (init : M (Unit {0})) (format : Format) (env : Env) (cn n : ℕ)
        (commit_text rollback_text : Bytes) (bye : Bytes → Bytes)
        (r : Option (Option Error × (Tx × Db)))
        → Says commit_text (simple_query format (query_text (codes "COMMIT")))
        → Says rollback_text (simple_query format (query_text (codes "ROLLBACK")))
        → Ongoing cn bye n r
        → EndsFn format env cn bye n commit_text rollback_text r (after_fn init format env r)
    after_fn-EndsFn init format env cn n commit_text rollback_text bye none t u h = h
    after_fn-EndsFn init format env cn n commit_text rollback_text bye (some (none, (tx, db))) t u
          h =
        holding init format (codes "COMMIT") commit_text bye env tx db cn n t h
    after_fn-EndsFn init format env cn n commit_text rollback_text bye (some (some e, (tx, db))) t u
          h =
        with_error-Over e _ cn n db.pool _ _
          (holding init format (codes "ROLLBACK") rollback_text bye env tx db cn n u h).0

    -- Given that COMMIT sends `commit_text`, ROLLBACK `rollback_text` and the closing of a statement `bye` of its
    -- name, and that they return on connections with the property `P`, and keep it: RunInTransaction, on a
    -- function that leaves the transaction its connection, always returns. After no error of the function COMMIT
    -- has been sent, and its error is returned; after an error ROLLBACK, and that of the function is
    -- returned. Then the closing of every statement has been sent, the connection is behind the free ones of the
    -- pool, or, after a query whose error is no answer of the server or with bytes unread, closed and taken
    -- off its connections, and its place in the channel is free.
    pub run_in_transaction-Over :
        (init : M (Unit {0})) (format : Format) (env : Env) (fn : TxFn) (tx : Tx) (db : Db)
        (cn n : ℕ) (commit_text rollback_text : Bytes) (bye : Bytes → Bytes)
        → Says commit_text (simple_query format (query_text (codes "COMMIT")))
        → Says rollback_text (simple_query format (query_text (codes "ROLLBACK")))
        → Ongoing cn bye n (fn tx db)
        → EndsFn format env cn bye n commit_text rollback_text
            (fn tx db)
            (run_in_transaction init format env fn tx db)
    unfolding run_in_transaction
    run_in_transaction-Over init format env fn tx db cn n commit_text rollback_text bye t u h =
        after_fn-EndsFn init format env cn n commit_text rollback_text bye (fn tx db) t u h
