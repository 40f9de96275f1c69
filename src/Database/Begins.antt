-- ===== src/Database/Begins.antt =====
-- tx.go: what Begin returns of BEGIN, and the place of the connection that it has taken.
use go_pg.Base.{ℕ, suc, ◌≡◌, ◌⊎◌, inl, inr, refl, subst, sym, false, Option, none, some, [], codes}
use go_pg.Errors.{Error}
use go_pg.Net.{Conn, Outcome, ok, err, panic, no_fuel, M}
use go_pg.Message.Read.{Reply}
use go_pg.Message.Write.{Format, query_text}
use go_pg.Pool.{ConnPool}
use go_pg.Pool.Get.{Env}
use go_pg.Database.{Db, store, simple_query, conn, returned}
use go_pg.Database.Retries.{Good, Returns, Sized, Joined, conn-Joined}
use go_pg.Database.Tx.{Tx, answered, begin, begin_on, begun}

module _ (P : Conn → Type 0) where
  -- How BEGIN fails: the connection was lost, or the server refused it.
  abbrev pub Fails : Error → Outcome Reply → Type 0
  Fails e (ok r c) = r.ret_err ≡ some e
  Fails e (err x c) = x ≡ e
  Fails e panic = ⊥
  Fails e no_fuel = ⊥

  abbrev pub Passes : Outcome Reply → Type 0
  Passes (ok r c) = r.ret_err ≡ none
  Passes (err x c) = ⊥
  Passes panic = ⊥
  Passes no_fuel = ⊥

  -- What `Begin` returns of BEGIN on the connection `cn`, where `p` was the pool with that connection taken.
  abbrev pub Began : ℕ → ConnPool → Outcome Reply → Option ((Error ⊎ Tx) × Db) → Type 0
  Began cn p o none = ⊥
  Began cn p o (some (inl e, db)) = Fails e o × (db.pool ≡ p)
  Began cn p o (some (inr tx, db)) = Passes o × (tx.cn ≡ some cn) × (tx.stmts ≡ []) × (db.pool ≡ p)

  replied-Began :
      (cn : ℕ) (r : Reply) (c : Conn) (s : Db) (x : Option Error)
      → Began cn s.pool
          (ok (record r { ret_err = x }) c)
          (begun cn (some (inr (record r { ret_err = x }), store s cn c)))
  replied-Began cn r c s none = (refl, refl, refl, refl)
  replied-Began cn r c s (some e) = (refl, refl)

  returned-Began :
      (cn : ℕ) (s : Db) (o : Outcome Reply)
      → Good P o
      → Began cn s.pool o (begun cn (answered (returned s cn o)))
  returned-Began cn s (ok r c) g = replied-Began cn r c s r.ret_err
  returned-Began cn s (err e c) g = (refl, refl)
  returned-Began cn s panic g = absurd g
  returned-Began cn s no_fuel g = absurd g

  -- For a start and a BEGIN that return on connections with the property `P`, and keep it: when `Begin` has got a
  -- connection, it always returns, with the transaction that holds the connection if BEGIN succeeds, and
  -- with the error of BEGIN and no transaction if the connection is lost or the server refuses it. Either way the
  -- pool is left with the place of the connection taken: after an error nobody gives it back.
  pub begin-Began :
      (init : M (Unit {0})) (format : Format) (env : Env) (db s : Db) (cn : ℕ)
      → Returns P init
      → Returns P (simple_query format (query_text (codes "BEGIN")))
      → ((k : ℕ) → P (db.conns k))
      → db.opt.disable_transaction ≡ false
      → conn init env db ≡ some (inr cn, s)
      → Began cn s.pool
          (simple_query format (query_text (codes "BEGIN")) (s.conns cn))
          (begin init format env db)
        × (s.pool.queue ≡ suc db.pool.queue)
  begin-Began init format env db s cn t b h d g =
      let joined : Joined P db.pool.queue (conn init env db) = conn-Joined P init t env db h in
      let sized : Sized P (suc db.pool.queue) s = subst (Joined P db.pool.queue) g joined in
      let call = simple_query format (query_text (codes "BEGIN")) in
      (
        unfold begin in
            simp d (
              subst (λ x. Began cn s.pool (call (s.conns cn)) (begin_on init call x)) (sym g)
                (returned-Began cn s (call (s.conns cn)) (b (s.conns cn) (sized.1 cn)))),
        sized.0,
      )
