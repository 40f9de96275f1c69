-- ===== src/Database/Queries/Balance.antt =====
-- db.go: the places that Query, CopyFrom and CopyTo take in the pool's channel.
use go_pg.Base.{ℕ, zero, suc, ◌≡◌, ◌⊎◌, inl, inr, refl, subst, Bool-cases, Option, none, some}
use go_pg.Errors.{Error}
use go_pg.Net.{Conn, Outcome, ok, err, panic, no_fuel, M}
use go_pg.Message.Read.{Reply}
use go_pg.Message.Write.{Format, Query}
use go_pg.Message.Rows.{RowModel, Gathered}
use go_pg.Message.Copy.{Writer, Copied}
use go_pg.Types.Result.{PgResult}
use go_pg.Pool.Get.{Env}
use go_pg.Database.{Db, DbOptions, store, beside, conn, write_query}
use go_pg.Database.Calls.{left_by, copy_from_call, copy_out_call, nothing_but, Chunks}
use go_pg.Database.Places.{put-Kept}
use go_pg.Database.Retries.{
  Good, Returns, Sized, Freed, Joined, Balanced, store-Sized, with_pool-Freed, beside-Balanced,
  free_conn-Freed, conn-Joined, attempt-Balanced,
}
use go_pg.Database.Queries.{
  goes_on, put_back, copied_out, copy_written, copy_on, copy_from, copy_to, freed_data, use_data,
  attempt_data, query_from, queried, query, hooked, after_rows,
}

module _ (P : Conn → Type 0) where
  put_back-Freed :
      (env : Env) (cn n : ℕ) (db : Db) → Sized P (suc n) db → Freed P n (put_back env cn db)
  put_back-Freed env cn n db h =
      with_pool-Freed P n (suc n) db _ h (put-Kept db.pool cn (env.info cn) n h.0)

  copied_out-Balanced :
      (env : Env) (cn n : ℕ) (r : Outcome Copied) (db : Db)
      → Good P r
      → Sized P (suc n) db
      → Balanced P n (copied_out env cn (left_by db cn r))
  copied_out-Balanced env cn n (ok r c) db g h =
      beside-Balanced P n (inr r) _
        (put_back-Freed env cn n (store db cn c) (store-Sized P (suc n) db cn c h g))
  copied_out-Balanced env cn n (err e c) db g h =
      beside-Balanced P n (inl e) _
        (free_conn-Freed P env (store db cn c) cn n (some e) (store-Sized P (suc n) db cn c h g))
  copied_out-Balanced env cn n panic db g h = absurd g
  copied_out-Balanced env cn n no_fuel db g h = absurd g

  copy_written-Balanced :
      (w : Writer) (env : Env) (cn n : ℕ) (r : Outcome (Unit {0})) (db : Db)
      → Returns P (copy_out_call w)
      → Good P r
      → Sized P (suc n) db
      → Balanced P n (copy_written w env cn db r)
  copy_written-Balanced w env cn n (ok u c) db t g h =
      copied_out-Balanced env cn n (copy_out_call w c) db (t c g) h
  copy_written-Balanced w env cn n (err e c) db t g h =
      beside-Balanced P n (inl e) _
        (put_back-Freed env cn n (store db cn c) (store-Sized P (suc n) db cn c h g))
  copy_written-Balanced w env cn n panic db t g h = absurd g
  copy_written-Balanced w env cn n no_fuel db t g h = absurd g

  copy_on-Balanced :
      (format : Format) (w : Writer) (q : Query) (env : Env) (n : ℕ) (r : Option ((Error ⊎ ℕ) × Db))
      → Returns P (write_query format q)
      → Returns P (copy_out_call w)
      → Joined P n r
      → Balanced P n (copy_on format w q env r)
  copy_on-Balanced format w q env n none s t h = h
  copy_on-Balanced format w q env n (some (inl e, db)) s t h = h
  copy_on-Balanced format w q env n (some (inr cn, db)) s t h =
      copy_written-Balanced w env cn n (write_query format q (db.conns cn)) db t
        (s (db.conns cn) (h.1 cn)) h

  module _ (m : RowModel) where
    abbrev BalancedData : ℕ → Option ((Error ⊎ Gathered m) × Db) → Type 0
    BalancedData n none = ⊥
    BalancedData n (some (inl e, db)) = Sized P n db
    BalancedData n (some (inr g, db)) = Sized P n db

    beside-BalancedData :
        (n : ℕ) (g : Gathered m) (r : Option Db) → Freed P n r → BalancedData n (beside (inr g) r)
    beside-BalancedData n g none h = h
    beside-BalancedData n g (some db) h = h

    freed_data-Balanced :
        (env : Env) (cn n : ℕ) (r : Outcome (Gathered m)) (db : Db)
        → Good P r
        → Sized P (suc n) db
        → BalancedData n (freed_data m env cn (left_by db cn r))
    freed_data-Balanced env cn n (ok g c) db h k =
        beside-BalancedData n g _
          (free_conn-Freed P env (store db cn c) cn n g.ret_err (store-Sized P (suc n) db cn c k h))
    freed_data-Balanced env cn n (err e c) db h k =
        beside-BalancedData n (nothing_but m e) _
          (free_conn-Freed P env (store db cn c) cn n (some e) (store-Sized P (suc n) db cn c k h))
    freed_data-Balanced env cn n panic db h k = absurd h
    freed_data-Balanced env cn n no_fuel db h k = absurd h

    use_data-Balanced :
        (call : M (Gathered m)) (env : Env) (n : ℕ) (r : Option ((Error ⊎ ℕ) × Db))
        → Returns P call
        → Joined P n r
        → BalancedData n (use_data m call env r)
    use_data-Balanced call env n none t h = h
    use_data-Balanced call env n (some (inl e, db)) t h = h
    use_data-Balanced call env n (some (inr cn, db)) t h =
        freed_data-Balanced env cn n (call (db.conns cn)) db (t (db.conns cn) (h.1 cn)) h

    module _ (init : M (Unit {0})) (init_returns : Returns P init) where
      attempt_data-Balanced :
          (call : M (Gathered m)) (env : Env) (db : Db) (n : ℕ)
          → Returns P call
          → Sized P n db
          → BalancedData n (attempt_data init m call env db)
      unfolding attempt_data
      attempt_data-Balanced call env db n t h = use_data-Balanced call env n (conn init env db) t (
          subst (λ k. Joined P k (conn init env db)) h.0
            (conn-Joined P init init_returns env db h.1))

      -- A round that ends with `r`, and the rounds behind it.
      round-Balanced :
          (left i n : ℕ) (opt : DbOptions) (call : M (Gathered m)) (env : ℕ → Env)
          (last : Gathered m) (db : Db)
          → ((g : Gathered m) (s : Db)
              → Sized P n s
              → BalancedData n (query_from init m left (suc i) opt call env g s))
          → (r : Option ((Error ⊎ Gathered m) × Db)) → attempt_data init m call (env i) db ≡ r
          → BalancedData n r
          → BalancedData n (query_from init m (suc left) i opt call env last db)
      unfolding query_from
      round-Balanced left i n opt call env last db next none e h = absurd h
      round-Balanced left i n opt call env last db next (some (inl x, s)) e h = rw (e, query_from) h
      round-Balanced left i n opt call env last db next (some (inr g, s)) e h =
          elim (Bool-cases (goes_on opt i g.ret_err)) [
            | inl t ↦ rw (e, query_from) (rw (t, query_from) (next g s h))
            | inr t ↦ rw (e, query_from) (rw (t, query_from) h)
          ]

      query_from-Balanced :
          (left i n : ℕ) (opt : DbOptions) (call : M (Gathered m)) (env : ℕ → Env)
          (last : Gathered m) (db : Db)
          → Returns P call
          → Sized P n db
          → BalancedData n (query_from init m left i opt call env last db)
      query_from-Balanced zero i n opt call env last db t h = unfold query_from in h
      query_from-Balanced (suc left) i n opt call env last db t h =
          round-Balanced left i n opt call env last db
            (λ g s k. query_from-Balanced left (suc i) n opt call env g s t k)
            (attempt_data init m call (env i) db) refl (attempt_data-Balanced call (env i) db n t h)

      module _ (hook : m.State → Db → Option (Option Error × Db)) where
        -- `AfterQuery` leaves a handle that it may have used as it has found it.
        abbrev pub HookReturns : ℕ → Type 0
        HookReturns n = (s : m.State) (db : Db) → Sized P n db → Balanced P n (hook s db)

        hooked-Balanced :
            (n : ℕ) (r : Reply) (x : Option (Option Error × Db))
            → Balanced P n x
            → Balanced P n (hooked m hook r x)
        hooked-Balanced n r none h = h
        hooked-Balanced n r (some (e, db)) h = h

        after_rows-Balanced :
            (n rows : ℕ) (g : Gathered m) (o : Option m.State) (r : Reply) (db : Db)
            → HookReturns n
            → Sized P n db
            → Balanced P n (after_rows m hook (record g { model = o }) r db rows)
        after_rows-Balanced n zero g o r db k h = h
        after_rows-Balanced n (suc rows) g none r db k h = h
        after_rows-Balanced n (suc rows) g (some s) r db k h =
            hooked-Balanced n r (hook s db) (k s db h)

        -- The rounds have ended with a reply that has neither a result nor an error, and no place is taken.
        abbrev pub NoResult : ℕ → Option ((Error ⊎ Gathered m) × Db) → Type 0
        NoResult n none = ⊥
        NoResult n (some (inl e, db)) = ⊥
        NoResult n (some (inr g, db)) = (g.ret_err ≡ none) × (g.res ≡ none) × Sized P n db

        -- What Query makes of the end of its rounds: it returns with the places of before, but for a reply
        -- without result and error, on which it panics.
        abbrev pub Ended : ℕ → Option ((Error ⊎ Gathered m) × Db) → Option (Reply × Db) → Type 0
        Ended n rounds r = Balanced P n r ⊎ (NoResult n rounds × (r ≡ none))

        gathered-Ended :
            (n : ℕ) (g : Gathered m) (res : Option PgResult) (e : Option Error) (db : Db)
            → HookReturns n
            → Sized P n db
            → Ended n
                (some (inr (record g { res = res; ret_err = e }), db))
                (queried m hook (some (inr (record g { res = res; ret_err = e }), db)))
        gathered-Ended n g res (some e) db k h = inl h
        gathered-Ended n g none none db k h = inr ((refl, refl, h), refl)
        gathered-Ended n g (some r) none db k h = inl (
            after_rows-Balanced n r.returned (record g { res = some r; ret_err = none }) g.model
              (record { res = some r; ret_err = none }) db k h)

        queried-Ended :
            (n : ℕ) (r : Option ((Error ⊎ Gathered m) × Db))
            → HookReturns n
            → BalancedData n r
            → Ended n r (queried m hook r)
        queried-Ended n none k h = absurd h
        queried-Ended n (some (inl e, db)) k h = inl h
        queried-Ended n (some (inr g, db)) k h = gathered-Ended n g g.res g.ret_err db k h

        -- The rounds of Query.
        abbrev pub rounds : M (Gathered m) → (ℕ → Env) → Db → Option ((Error ⊎ Gathered m) × Db)
        rounds call env db =
            query_from init m 3 0 db.opt call env
              (record { res = none; model = none; ret_err = none; rows = 0 }) db

        query-Ended :
            (call : M (Gathered m)) (env : ℕ → Env) (db : Db)
            → Returns P call
            → HookReturns db.pool.queue
            → ((k : ℕ) → P (db.conns k))
            → Ended db.pool.queue (rounds call env db) (query init m hook call env db)
        unfolding query
        query-Ended call env db t k h = queried-Ended db.pool.queue _ k (
            round-Balanced 2 0 db.pool.queue db.opt call env
              (record { res = none; model = none; ret_err = none; rows = 0 }) db
              (λ g s j. query_from-Balanced 2 1 db.pool.queue db.opt call env g s t j)
              (attempt_data init m call (env 0) db) refl
              (attempt_data-Balanced call (env 0) db db.pool.queue t (refl, h)))

        -- A start and calls are given that return on connections with the property `P` and keep it, and a hook
        -- that leaves the channel as it is. Then CopyFrom and CopyTo always return, and on every path of
        -- theirs, a query that cannot be written, a refused copy, a failed flush and a lost connection
        -- included, the pool's channel holds as many values after the call as before it. So does Query, with
        -- its rounds and AfterQuery, unless its last round ends with a reply that has neither a result nor
        -- an error: there it panics, with all the places given back.
        pub calls-Balanced :
            (call : M (Gathered m)) (format : Format) (q : Query) (chunks : Chunks) (w : Writer)
            (env : ℕ → Env) (db : Db)
            → Returns P call
            → HookReturns db.pool.queue
            → Returns P (copy_from_call format q chunks)
            → Returns P (write_query format q)
            → Returns P (copy_out_call w)
            → ((k : ℕ) → P (db.conns k))
            → Ended db.pool.queue (rounds call env db) (query init m hook call env db)
              × Balanced P db.pool.queue (copy_from init format q chunks (env 0) db)
              × Balanced P db.pool.queue (copy_to init format w q (env 0) db)
        unfolding copy_from copy_to
        calls-Balanced call format q chunks w env db t k f g o h = (
          query-Ended call env db t k h,
          attempt-Balanced P init init_returns (copy_from_call format q chunks) (env 0) db
              db.pool.queue f (refl, h),
          copy_on-Balanced format w q (env 0) db.pool.queue (conn init (env 0) db) g o
              (conn-Joined P init init_returns (env 0) db h),
        )
