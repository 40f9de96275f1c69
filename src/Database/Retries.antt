-- ===== src/Database/Retries.antt =====
-- `Exec` of db.go and the places that it takes in the pool's channel, round by round.
use go_pg.Base.{
  ℕ, zero, suc, ◌+◌, ◌<◌, ◌≤◌, ◌≡◌, ◌⊎◌, inl, inr, refl, sym, subst, Bool, true, false, Option,
  none, some, arith, if◌then◌else◌, Bool-cases, leb, ◌==◌,
}
use go_pg.Errors.{Error, is_bad_conn}
use go_pg.Net.{Conn, Outcome, ok, err, panic, no_fuel, M}
use go_pg.Message.Read.{Reply}
use go_pg.Pool.{ConnPool}
use go_pg.Pool.Get.{Env, Got, got, refused, get, put, remove_conn}
use go_pg.Database.{
  Db, DbOptions, decide, beside, store, with_pool, free_conn, should_retry, ready_conn, initialised,
  conn, returned, freed, use_conn, attempt, exec_from, exec,
}
use go_pg.Database.Places.{Placed, get-Placed, Kept, remove_conn-Kept, put-Kept}

-- `P` is what the calls need and keep of a connection, such as that its peer is gone.
module _ (P : Conn → Type 0) where
  -- A call on such a connection returns, with a result or an error, and leaves such a connection.
  abbrev pub Good : {A : Type 0} → Outcome A → Type 0
  Good (ok a c) = P c
  Good (err e c) = P c
  Good panic = ⊥
  Good no_fuel = ⊥

  abbrev pub Returns : {A : Type 0} → M A → Type 0
  Returns m = (c : Conn) → P c → Good (m c)

  -- A handle with `n` values in the channel of its pool.
  abbrev pub Sized : ℕ → Db → Type 0
  Sized n db = (db.pool.queue ≡ n) × ((k : ℕ) → P (db.conns k))

  abbrev pub Freed : ℕ → Option Db → Type 0
  Freed n none = ⊥
  Freed n (some db) = Sized n db

  abbrev pub Joined : ℕ → Option ((Error ⊎ ℕ) × Db) → Type 0
  Joined n none = ⊥
  Joined n (some (inl e, db)) = Sized n db
  Joined n (some (inr cn, db)) = Sized (suc n) db

  abbrev pub Balanced : {A : Type 0} → ℕ → Option (A × Db) → Type 0
  Balanced n none = ⊥
  Balanced n (some (a, db)) = Sized n db

  if-P : (b : Bool) (c d : Conn) → P c → P d → P (if b then c else d)
  if-P true c d h k = h
  if-P false c d h k = k

  pub store-Sized :
      (n : ℕ) (db : Db) (cn : ℕ) (c : Conn) → Sized n db → P c → Sized n (store db cn c)
  store-Sized n db cn c h g = (h.0, λ k. if-P (k == cn) c (db.conns k) g (h.1 k))

  pub with_pool-Freed :
      (n m : ℕ) (db : Db) (r : Option ConnPool) → Sized m db → Kept n r → Freed n (with_pool r db)
  with_pool-Freed n m db (some q) g h = (h, g.1)
  with_pool-Freed n m db none g h = h

  if-Freed :
      (n : ℕ) (b : Bool) (x y : Option Db) → Freed n x → Freed n y → Freed n (if b then x else y)
  if-Freed n true x y h k = h
  if-Freed n false x y h k = k

  pub free_conn-Freed :
      (env : Env) (db : Db) (cn n : ℕ) (e : Option Error)
      → Sized (suc n) db
      → Freed n (free_conn env db cn e)
  unfolding free_conn
  free_conn-Freed env db cn n e h =
      if-Freed n (is_bad_conn e false) (with_pool (remove_conn db.pool cn) db)
        (with_pool (put db.pool cn (env.info cn)) db)
        (with_pool-Freed n (suc n) db _ h (remove_conn-Kept db.pool cn n h.0))
        (with_pool-Freed n (suc n) db _ h (put-Kept db.pool cn (env.info cn) n h.0))

  pub beside-Balanced :
      {A : Type 0} (n : ℕ) (a : A) (r : Option Db) → Freed n r → Balanced n (beside a r)
  beside-Balanced n a none h = h
  beside-Balanced n a (some db) h = h

  beside-Joined : (n : ℕ) (e : Error) (r : Option Db) → Freed n r → Joined n (beside (inl e) r)
  beside-Joined n e none h = h
  beside-Joined n e (some db) h = h

  returned-Balanced :
      (env : Env) (db : Db) (cn n : ℕ) (r : Outcome Reply)
      → Good r
      → Sized (suc n) db
      → Balanced n (freed env cn (returned db cn r))
  returned-Balanced env db cn n (ok r c) g h =
      beside-Balanced n (inr r) _
        (free_conn-Freed env (store db cn c) cn n r.ret_err (store-Sized (suc n) db cn c h g))
  returned-Balanced env db cn n (err x c) g h =
      beside-Balanced n _ _
        (free_conn-Freed env (store db cn c) cn n (some x) (store-Sized (suc n) db cn c h g))
  returned-Balanced env db cn n panic g h = absurd g
  returned-Balanced env db cn n no_fuel g h = absurd g

  use_conn-Balanced :
      (call : M Reply) (env : Env) (n : ℕ) (r : Option ((Error ⊎ ℕ) × Db))
      → Returns call
      → Joined n r
      → Balanced n (use_conn call env r)
  use_conn-Balanced call env n none t h = h
  use_conn-Balanced call env n (some (inl e, db)) t h = h
  use_conn-Balanced call env n (some (inr cn, db)) t h =
      returned-Balanced env db cn n (call (db.conns cn)) (t (db.conns cn) (h.1 cn)) h

  decide-Balanced :
      (opt : DbOptions) (i n : ℕ) (r : Reply) (db : Db) (again : Option (Reply × Db))
      → Sized n db
      → (i < opt.max_retries → Balanced n again)
      → Balanced n (decide opt i (r, db) again)
  unfolding decide
  decide-Balanced opt i n r db again h k = elim (Bool-cases (leb opt.max_retries i)) [
    | inl e ↦ rw (e, Balanced) h
    | inr e ↦ elim (Bool-cases (should_retry opt r.ret_err)) [
      | inl g ↦ rw (e, g) (k (ground arith))
      | inr g ↦ rw (e, g, Balanced) h
    ]
  ]

  module _ (init : M (Unit {0})) (init_returns : Returns init) where
    init-Joined :
        (db : Db) (cn n : ℕ) (r : Outcome (Unit {0}))
        → Good r
        → Sized (suc n) db
        → Joined n (initialised init cn db r)
    init-Joined db cn n (ok u c) g h = store-Sized (suc n) db cn c h g
    init-Joined db cn n (err x c) g h = beside-Joined n x _ (
        with_pool-Freed n (suc n) (store db cn c) _ (store-Sized (suc n) db cn c h g)
          (remove_conn-Kept db.pool cn n h.0))
    init-Joined db cn n panic g h = absurd g
    init-Joined db cn n no_fuel g h = absurd g

    if-Joined :
        (n : ℕ) (b : Bool) (x y : Option ((Error ⊎ ℕ) × Db))
        → Joined n x
        → Joined n y
        → Joined n (if b then x else y)
    if-Joined n true x y h k = h
    if-Joined n false x y h k = k

    pub ready_conn-Joined :
        (db : Db) (n : ℕ) (r : Option (Got × ConnPool))
        → ((k : ℕ) → P (db.conns k))
        → Placed n r
        → Joined n (ready_conn init db r)
    ready_conn-Joined db n (some (refused e, q)) g h = (h, g)
    ready_conn-Joined db n (some (got cn fresh, q)) g h =
        let s : Db = record db { pool = q } in
        if-Joined n (db.inited cn) (some (inr cn, s)) (initialised init cn s (init (db.conns cn)))
          (h, g)
          (init-Joined s cn n (init (db.conns cn)) (init_returns (db.conns cn) (g cn)) (h, g))
    ready_conn-Joined db n none g h = h

    pub conn-Joined :
        (env : Env) (db : Db) → ((k : ℕ) → P (db.conns k)) → Joined db.pool.queue (conn init env db)
    unfolding conn
    conn-Joined env db h =
        ready_conn-Joined db db.pool.queue (get env db.pool) h (get-Placed env db.pool)

    pub attempt-Balanced :
        (call : M Reply) (env : Env) (db : Db) (n : ℕ)
        → Returns call
        → Sized n db
        → Balanced n (attempt init call env db)
    unfolding attempt conn
    attempt-Balanced call env db n t h = use_conn-Balanced call env n (conn init env db) t (
        ready_conn-Joined db n (get env db.pool) h.1
          (subst (λ k. Placed k (get env db.pool)) h.0 (get-Placed env db.pool)))

    exec_from-refused :
        (fuel i : ℕ) (opt : DbOptions) (call : M Reply) (env : ℕ → Env) (db s : Db) (e : Error)
        → attempt init call (env i) db ≡ some (inl e, s)
        → exec_from init (suc fuel) i opt call env db
          ≡ some (record { res = none; ret_err = some e }, s)
    unfolding exec_from
    exec_from-refused fuel i opt call env db s e h = rw (h, exec_from) refl

    exec_from-answered :
        (fuel i : ℕ) (opt : DbOptions) (call : M Reply) (env : ℕ → Env) (db s : Db) (r : Reply)
        → attempt init call (env i) db ≡ some (inr r, s)
        → exec_from init (suc fuel) i opt call env db
          ≡ decide opt i (r, s) (exec_from init fuel (suc i) opt call env s)
    unfolding exec_from
    exec_from-answered fuel i opt call env db s r h = rw (h, exec_from) refl

    round-Balanced :
        (fuel i n : ℕ) (opt : DbOptions) (call : M Reply) (env : ℕ → Env) (db : Db)
        → ((s : Db)
            → i < opt.max_retries
            → Sized n s
            → Balanced n (exec_from init fuel (suc i) opt call env s))
        → (r : Option ((Error ⊎ Reply) × Db)) → attempt init call (env i) db ≡ r
        → Balanced n r
        → Balanced n (exec_from init (suc fuel) i opt call env db)
    round-Balanced fuel i n opt call env db next none e h = absurd h
    round-Balanced fuel i n opt call env db next (some (inl x, s)) e h =
        subst (Balanced n) (sym (exec_from-refused fuel i opt call env db s x e)) h
    round-Balanced fuel i n opt call env db next (some (inr r, s)) e h =
        subst (Balanced n) (sym (exec_from-answered fuel i opt call env db s r e)) (
          decide-Balanced opt i n r s (exec_from init fuel (suc i) opt call env s) h
            (λ k. next s k h))

    -- `Exec` from its round `i`, on a handle with `n` values in the channel.
    exec_from-Balanced :
        (fuel i n : ℕ) (opt : DbOptions) (call : M Reply) (env : ℕ → Env) (db : Db)
        → Returns call
        → i ≤ opt.max_retries
        → opt.max_retries < i + fuel
        → Sized n db
        → Balanced n (exec_from init fuel i opt call env db)
    exec_from-Balanced zero i n opt call env db t b f q = absurd (omega arith)
    exec_from-Balanced (suc fuel) i n opt call env db t b f q =
        round-Balanced fuel i n opt call env db
          (λ s k h. exec_from-Balanced fuel (suc i) n opt call env s t k (omega arith) h)
          (attempt init call (env i) db) refl (attempt-Balanced call (env i) db n t q)

    -- A start and a query are given that return on connections with the property `P`, and keep it, and a
    -- handle whose connections all have it. Then `Exec` always comes to an end, after at most `MaxRetries`
    -- rounds more than the first; however its rounds go, a closed pool, a timeout, a failed dial or start, a
    -- bad connection and a retry included, it leaves as many values in the pool's channel as it found.
    pub exec-Balanced :
        (call : M Reply) (env : ℕ → Env) (db : Db)
        → Returns call
        → ((k : ℕ) → P (db.conns k))
        → Balanced db.pool.queue (exec init call env db)
    unfolding exec
    exec-Balanced call env db t h =
        exec_from-Balanced (suc db.opt.max_retries) 0 db.pool.queue db.opt call env db t
          (omega arith) (omega arith) (refl, h)
