-- ===== src/Pool/Tests.antt =====
-- internal/pool/pool.go on small pools: runs of the operations, and instances of the theorems.
use go_pg.Base.{
  ℕ, ◌≤◌, ◌≡◌, refl, inr, true, false, List, [], ◌∷◌, length, arith, ◌==◌, if◌then◌else◌,
}
use go_pg.Pool.{
  ConnPool, ConnInfo, Options, new_conn_pool, is_stale_conn, acquire, release, pop_free,
}
use go_pg.Pool.Get.{Env, get, reap_stale_conns}
use go_pg.Pool.Fresh.{GetSpec, get-GetSpec}
use go_pg.Pool.Stale.{Reaping, reap_stale_conns-Reaping}
use go_pg.Pool.Steps.{
  Thread, outside, lent, World, Reach, here, later, step, request, take_turn, pop_nothing, dial,
  add,
}
use go_pg.Pool.Limits.{start}
use go_pg.Pool.Invariant.{owns, total, count}
use go_pg.Pool.Length.{conns-le-pool_size, lent_exclusively}

abbrev two_places : Options
two_places = record { pool_size = 2; idle_timeout = 10; max_age = 0 }

abbrev two_threads : List Thread
two_threads = outside ∷ outside ∷ []

-- The first goroutine has dialled and holds connection 0.
abbrev one_lent : World
one_lent = record {
  pool = record {
    opt = two_places;
    queue = 1;
    conns = 0 ∷ [];
    free_conns = [];
    stats = record { requests = 1; hits = 0; timeouts = 0 };
    closed = false;
    dropped = [];
  };
  next = 1;
  threads = lent 0 ∷ outside ∷ [];
}

one_lent-Reach : Reach (start two_places two_threads) one_lent
unfolding new_conn_pool go_pg.Pool.count_request acquire pop_free go_pg.Pool.split_last
    go_pg.Pool.add_conn
one_lent-Reach =
    later
      (later
        (later
          (later (later here (step [] (outside ∷ []) refl (request refl)))
            (step [] (outside ∷ []) refl (take_turn refl)))
          (step [] (outside ∷ []) refl (pop_nothing refl)))
        (step [] (outside ∷ []) refl dial))
      (step [] (outside ∷ []) refl (add 0))

conns-le-pool_size_example : length one_lent.pool.conns ≤ 2
conns-le-pool_size_example =
    conns-le-pool_size two_places two_threads (refl, (refl, tt)) one_lent-Reach refl

lent_exclusively_example :
    (count 0 one_lent.pool.free_conns ≡ 0) × (total (owns 0) (outside ∷ []) ≡ 0)
lent_exclusively_example =
    lent_exclusively two_places two_threads [] (outside ∷ []) 0 (refl, (refl, tt)) one_lent-Reach
      refl

-- Connection 4 was used at time 1 and 5 at time 20.
abbrev used : ℕ → ConnInfo
used cn = record { used_at = if cn == 4 then 1 else 20; inited_at = 0; has_unread = false }

abbrev two_free : List ℕ → ConnPool
two_free free = record {
  opt = two_places;
  queue = 0;
  conns = 4 ∷ 5 ∷ [];
  free_conns = free;
  stats = record { requests = 0; hits = 0; timeouts = 0 };
  closed = false;
  dropped = [];
}

abbrev at_25 : Env
at_25 = record { in_time = true; now = 25; info = used; dial = inr 6 }

-- The stale connection 4 stands behind the fresh one and is dropped.
get-GetSpec_example : GetSpec at_25 (two_free (5 ∷ 4 ∷ [])) (get at_25 (two_free (5 ∷ 4 ∷ [])))
get-GetSpec_example = get-GetSpec at_25 (two_free (5 ∷ 4 ∷ [])) refl refl (omega arith)

reap_stale_conns-Reaping_example :
    Reaping
      (λ cn. is_stale_conn two_places 25 (used cn))
      (4 ∷ 5 ∷ [])
      (two_free (4 ∷ 5 ∷ []))
      (reap_stale_conns 3 25 used (two_free (4 ∷ 5 ∷ [])))
reap_stale_conns-Reaping_example =
    reap_stale_conns-Reaping 3 25 used (two_free (4 ∷ 5 ∷ [])) (omega arith) (omega arith)
