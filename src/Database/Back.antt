-- ===== src/Database/Back.antt =====
-- db.go: the connection that freeConn gives back to the pool.
use go_pg.Base.{
  ℕ, zero, suc, ◌≡◌, refl, sym, subst, ◌∙◌, true, false, Bool, Option, none, some, [], ◌∷◌, ◌++◌,
  ◌||◌, if◌then◌else◌,
}
use go_pg.Errors.{Error, is_bad_conn}
use go_pg.Pool.{ConnPool, release, remove, remove_first, push_free}
use go_pg.Pool.Get.{Env, put, remove_conn}
use go_pg.Database.{Db, free_conn, with_pool}

-- freeConn drops a connection: its last error is no answer of the server, or bytes of the peer are unread.
abbrev pub unfit : Env → ℕ → Option Error → Bool
unfit env cn e = is_bad_conn e false || (env.info cn).has_unread

-- The connection has been given back to the pool: an unfit one has been closed and taken off the pool's, and
-- any other is the last of the free ones.
abbrev pub BackIn : Bool → ℕ → ConnPool → ConnPool → Type 0
BackIn true cn p q = (q.dropped ≡ cn ∷ p.dropped) × (q.conns ≡ remove_first cn p.conns)
BackIn false cn p q = (q.free_conns ≡ p.free_conns ++ cn ∷ []) × (q.conns ≡ p.conns)

abbrev db_of : Db → Option Db → Db
db_of d none = d
db_of d (some s) = s

abbrev pool_of : Db → Option Db → ConnPool
pool_of d none = d.pool
pool_of d (some s) = s.pool

release-BackIn :
    (u : Bool) (cn : ℕ) (p r : ConnPool) (db s : Db)
    → BackIn u cn p r
    → with_pool (release r) db ≡ some s
    → BackIn u cn p s.pool
unfolding release
release-BackIn u cn p r db s b h = queued_BackIn u b r.queue h
  where
    queued_BackIn :
        (u : Bool)
        → BackIn u cn p r
        → (k : ℕ)
        → with_pool (elim k [ zero ↦ none | suc n ↦ some (record r { queue = n }) ]) db ≡ some s
        → BackIn u cn p s.pool
    queued_BackIn u b zero h = absurd (cc)
    queued_BackIn true b (suc n) h = subst (λ o. BackIn true cn p (pool_of db o)) h b
    queued_BackIn false b (suc n) h = subst (λ o. BackIn false cn p (pool_of db o)) h b

if_BackIn :
    (cn : ℕ) (p : ConnPool) (db s : Db) (b u : Bool) (x y : Option ConnPool)
    → (with_pool x db ≡ some s → BackIn true cn p s.pool)
    → (with_pool y db ≡ some s → BackIn u cn p s.pool)
    → with_pool (if b then x else y) db ≡ some s
    → BackIn (b || u) cn p s.pool
if_BackIn cn p db s true u x y f g h = f h
if_BackIn cn p db s false u x y f g h = g h

last_if_BackIn :
    (cn : ℕ) (p : ConnPool) (db s : Db) (b : Bool) (x y : Option ConnPool)
    → (with_pool x db ≡ some s → BackIn true cn p s.pool)
    → (with_pool y db ≡ some s → BackIn false cn p s.pool)
    → with_pool (if b then x else y) db ≡ some s
    → BackIn b cn p s.pool
last_if_BackIn cn p db s true x y f g h = f h
last_if_BackIn cn p db s false x y f g h = g h

if_with_pool :
    (b : Bool) (x y : Option ConnPool) (db : Db)
    → (if b then with_pool x db else with_pool y db) ≡ with_pool (if b then x else y) db
if_with_pool true x y db = refl
if_with_pool false x y db = refl

remove_conn-BackIn :
    (db s : Db) (cn : ℕ)
    → with_pool (remove_conn db.pool cn) db ≡ some s
    → BackIn true cn db.pool s.pool
unfolding remove_conn remove
remove_conn-BackIn db s cn h =
    release-BackIn true cn db.pool (remove db.pool cn) db s (refl, refl) h

put-BackIn :
    (env : Env) (db s : Db) (cn : ℕ)
    → with_pool (put db.pool cn (env.info cn)) db ≡ some s
    → BackIn (env.info cn).has_unread cn db.pool s.pool
unfolding put push_free
put-BackIn env db s cn h =
    last_if_BackIn cn db.pool db s (env.info cn).has_unread (remove_conn db.pool cn) _
      (remove_conn-BackIn db s cn)
      (release-BackIn false cn db.pool (push_free db.pool cn) db s (refl, refl)) h

pub free_conn-BackIn :
    (env : Env) (db s : Db) (cn : ℕ) (e : Option Error)
    → free_conn env db cn e ≡ some s
    → BackIn (unfit env cn e) cn db.pool s.pool
unfolding free_conn
free_conn-BackIn env db s cn e h =
    if_BackIn cn db.pool db s (is_bad_conn e false) (env.info cn).has_unread
      (remove_conn db.pool cn) (put db.pool cn (env.info cn)) (remove_conn-BackIn db s cn)
      (put-BackIn env db s cn) (sym (if_with_pool (is_bad_conn e false) _ _ db) ∙ h)

with_pool-same :
    (r : Option ConnPool) (db s : Db) → with_pool r db ≡ some s → s ≡ record db { pool = s.pool }
with_pool-same none db s h = absurd (cc)
with_pool-same (some q) db s h = subst (λ o. db_of db o ≡ record db { pool = pool_of db o }) h refl

-- Nothing but the pool of the handle has changed.
pub free_conn-same :
    (env : Env) (db s : Db) (cn : ℕ) (e : Option Error)
    → free_conn env db cn e ≡ some s
    → s ≡ record db { pool = s.pool }
unfolding free_conn
free_conn-same env db s cn e h =
    with_pool-same _ db s (sym (if_with_pool (is_bad_conn e false) _ _ db) ∙ h)
