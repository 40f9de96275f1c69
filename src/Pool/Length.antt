-- ===== src/Pool/Length.antt =====
-- The number of connections that internal/pool/pool.go lists, and its callers' view of the invariant.
use go_pg.Base.{
  ℕ, suc, ◌+◌, ◌≤◌, ◌<◌, ◌≡◌, refl, ap, ◌∙◌, inl, inr, true, false, List, [], ◌∷◌, ◌++◌, length,
  arith, length-append,
}
use go_pg.Pool.{
  ConnPool, Options, count_request, count_hit, count_timeout, acquire, release, push_free, add_conn,
  remove_first, remove, set_closed, close_conns, forget_free, new_conn_pool,
}
use go_pg.Pool.Steps.{
  Thread, outside, get_removing, lent, Move, take_turn, pop_nothing, pop_fresh, pop_stale,
  drop_stale, add, put_back, remove_lent, give_turn, reap_turn, reap_one, World, Step, step, Reach,
  here, later, AllOutside,
}
use go_pg.Pool.Invariant.{
  slots, turns, owns, lists, total, total-append, count, pop_free-some, Reaped,
  reap_stale_conn-Reaped,
}
use go_pg.Pool.Moves.{marks, Move-opt}
use go_pg.Pool.Limits.{Inv, Reach-Inv, start, others, total-split, total-AllOutside}

-- 1 for a goroutine whose connection the pool lists.
abbrev in_use : Thread → ℕ
in_use (get_removing cn) = 1
in_use (lent cn) = 1
in_use _ = 0

length-remove_first :
    (cn : ℕ) (l : List ℕ) → 0 < count cn l → suc (length (remove_first cn l)) ≡ length l
unfolding count remove_first
length-remove_first cn [] h = absurd (omega arith)
length-remove_first cn (c ∷ l) h = ground (arith, length-remove_first cn l)

-- What the pool's list is known to hold, for the connection that a goroutine or the reaper removes.
abbrev Holds : ConnPool → Thread → Type 0
Holds p t = (x : ℕ) → p.closed ≡ false → 0 < count x p.free_conns + lists x t → 0 < count x p.conns

abbrev Counted : ConnPool → ℕ → Type 0
Counted p n = p.closed ≡ false → length p.conns ≡ length p.free_conns + n

reap-length :
    (p q : ConnPool) (A : ℕ)
    → ((x : ℕ) → p.closed ≡ false → 0 < count x p.free_conns + 0 → 0 < count x p.conns)
    → Counted p A
    → Reaped p q
    → Counted q A
reap-length p q A held f (inl e) = rw e f
reap-length p q A held f (inr (cn, rest, l, e)) = rw e λ k.
    unfold remove in
    omega (
      arith,
      length-remove_first cn p.conns (held cn k (rw l (unfold count in ground arith))),
      f k,
      ap length l,
    )

Move-length :
    {p q : ConnPool} {next next' : ℕ} {t t' : Thread}
    → Move p next t t' q next'
    → (A : ℕ) → (0 < marks t → p.closed ≡ true)
    → Holds p t
    → Counted p (A + in_use t)
    → Counted q (A + in_use t')
unfolding count_request count_hit count_timeout acquire release push_free add_conn remove set_closed
    close_conns forget_free
Move-length {p} (take_turn {q} e) A m held f = ground arith
Move-length {p} (pop_nothing e) A m held f = f
Move-length {p} (pop_fresh {q} {cn} now info e s) A m held f =
    ground (arith, pop_free-some p q cn e, length-append {0} q.free_conns (cn ∷ []))
Move-length {p} (pop_stale {q} {cn} now info e s) A m held f =
    ground (arith, pop_free-some p q cn e, length-append {0} q.free_conns (cn ∷ []))
Move-length {p} (drop_stale cn) A m held f =
    λ k. omega (arith, f k, length-remove_first cn p.conns (held cn k (ground arith)))
Move-length {p} (remove_lent cn) A m held f =
    λ k. omega (arith, f k, length-remove_first cn p.conns (held cn k (ground arith)))
Move-length {p} (put_back cn) A m held f = ground (arith, length-append {0} p.free_conns (cn ∷ []))
Move-length {p} (add cn) A m held f = ground (arith, length-append {0} p.conns (cn ∷ []))
Move-length {p} (give_turn {q} e) A m held f = ground arith
Move-length {p} (reap_turn {q} e) A m held f = ground arith
Move-length {p} (reap_one {q} {reaped} now info e) A m held f =
    reap-length p q (A + 0) held f (reap_stale_conn-Reaped p q now info reaped e)
Move-length {p} _ A m held f = ground arith

step-Counted :
    {w v : World}
    → Step w v
    → Inv w
    → Counted w.pool (total in_use w.threads)
    → Counted v.pool (total in_use v.threads)
step-Counted {w} (step {t} {t'} {q} {next} a b e m) i f = rw (total-split in_use a t' b) (
    Move-length m (others in_use a b) (λ k. i.closing (omega (arith, at marks)))
      (λ x k h. omega (arith, i.listed k x, at (lists x))) (λ k. omega (arith, f k, at in_use)))
  where
    at : (f : Thread → ℕ) → total f w.threads ≡ others f a b + f t
    at f = rw e (total-split f a t b)

Reach-Counted :
    (opt : Options) (ts : List Thread) {w : World}
    → AllOutside ts
    → Reach (start opt ts) w
    → Counted w.pool (total in_use w.threads)
unfolding new_conn_pool
Reach-Counted opt ts h here = λ k. omega (arith, total-AllOutside in_use ts refl h)
Reach-Counted opt ts h (later r s) =
    step-Counted s (Reach-Inv opt ts h r) (Reach-Counted opt ts h r)

in_use-le-slots : (ts : List Thread) → total in_use ts ≤ total slots ts
in_use-le-slots [] = omega arith
in_use-le-slots (t ∷ ts) = omega (arith, one t, in_use-le-slots ts)
  where
    one : (t : Thread) → in_use t ≤ slots t
    one outside = omega arith
    one _ = omega arith

Reach-opt :
    (opt : Options) (ts : List Thread) {w : World} → Reach (start opt ts) w → w.pool.opt ≡ opt
unfolding new_conn_pool
Reach-opt opt ts here = refl
Reach-opt opt ts (later r (step a b e m)) = Move-opt m ∙ Reach-opt opt ts r

-- From a new pool and goroutines outside it, after any steps in any order: while the pool is open it
-- lists at most `PoolSize` connections, free and in use together.
pub conns-le-pool_size :
    (opt : Options) (ts : List Thread) {w : World}
    → AllOutside ts
    → Reach (start opt ts) w
    → w.pool.closed ≡ false
    → length w.pool.conns ≤ opt.pool_size
conns-le-pool_size opt ts {w} h r k = rw (← Reach-opt opt ts r) (
    omega
      (arith, Reach-Counted opt ts h r k, (Reach-Inv opt ts h r).fits, in_use-le-slots w.threads))

-- From a new pool and goroutines outside it, after any steps in any order: a connection that a caller
-- has from `Get` is not among the free ones, and no other goroutine has it or is about to close it.
pub lent_exclusively :
    (opt : Options) (ts a b : List Thread) (cn : ℕ) {w : World}
    → AllOutside ts
    → Reach (start opt ts) w
    → w.threads ≡ a ++ lent cn ∷ b
    → (count cn w.pool.free_conns ≡ 0) × (total (owns cn) (a ++ b) ≡ 0)
lent_exclusively opt ts a b cn {w} h r e =
    let i = Reach-Inv opt ts h r in
    let at : total (owns cn) w.threads ≡ others (owns cn) a b + owns cn (lent cn) =
      rw e (total-split (owns cn) a (lent cn) b) in
    let self : owns cn (lent cn) ≡ 1 = ground arith in
    (
      omega (arith, i.one_owner cn, at, self),
      omega (arith, i.one_owner cn, at, self, total-append (owns cn) a b),
    )

-- From a new pool and goroutines outside it, after any steps in any order: the channel holds as many
-- values as there are goroutines between the send and the receive, and never more than `PoolSize`.
queue-counts-turns :
    (opt : Options) (ts : List Thread) {w : World}
    → AllOutside ts
    → Reach (start opt ts) w
    → (w.pool.queue ≡ total turns w.threads) × (w.pool.queue ≤ opt.pool_size)
queue-counts-turns opt ts h r =
    let i = Reach-Inv opt ts h r in (i.one_each, rw (← Reach-opt opt ts r) i.has_room)
