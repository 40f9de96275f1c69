-- ===== src/Pool/Moves.antt =====
-- What each action of a goroutine does to the numbers that the invariant is made of. `A` and `T` stand
-- for what the other goroutines hold.
use go_pg.Base.{ℕ, ◌+◌, ◌≤◌, ◌<◌, ◌≡◌, true, false, [], ◌∷◌, length, arith, length-append}
use go_pg.Pool.{
  ConnPool, count_request, count_hit, count_timeout, acquire, release, push_free, add_conn, remove,
  set_closed, close_conns, forget_free,
}
use go_pg.Pool.Steps.{
  Thread, close_marked, close_emptied, Move, take_turn, pop_nothing, pop_fresh, pop_stale,
  drop_stale, add, put_back, remove_lent, give_turn, reap_turn, reap_one,
}
use go_pg.Pool.Invariant.{
  turns, slots, owns, lists, count, count-append, count-remove_first, pop_free-some, pop_free-none,
  reap_stale_conn-Reaped, reap_counts,
}

-- 1 for a goroutine in the middle of `Close`.
abbrev pub marks : Thread → ℕ
marks close_marked = 1
marks close_emptied = 1
marks _ = 0

pub Move-opt :
    {p q : ConnPool} {next next' : ℕ} {t t' : Thread} → Move p next t t' q next' → q.opt ≡ p.opt
unfolding count_request count_hit count_timeout acquire release push_free add_conn remove set_closed
    close_conns forget_free
Move-opt {p} (take_turn {q} e) = ground arith
Move-opt {p} (pop_nothing e) = ground (arith, pop_free-none p e)
Move-opt {p} (pop_fresh {q} {cn} now info e s) = ground (arith, pop_free-some p q cn e)
Move-opt {p} (pop_stale {q} {cn} now info e s) = ground (arith, pop_free-some p q cn e)
Move-opt {p} (give_turn {q} e) = ground arith
Move-opt {p} (reap_turn {q} e) = ground arith
Move-opt {p} (reap_one {q} {reaped} now info e) =
    ground (arith, reap_stale_conn-Reaped p q now info reaped e)
Move-opt {p} _ = ground arith

-- The channel gains and loses what the goroutine does.
pub Move-queue :
    {p q : ConnPool} {next next' : ℕ} {t t' : Thread}
    → Move p next t t' q next'
    → q.queue + turns t ≡ p.queue + turns t'
unfolding count_request count_hit count_timeout acquire release push_free add_conn remove set_closed
    close_conns forget_free
Move-queue {p} (take_turn {q} e) = ground arith
Move-queue {p} (pop_nothing e) = ground (arith, pop_free-none p e)
Move-queue {p} (pop_fresh {q} {cn} now info e s) = ground (arith, pop_free-some p q cn e)
Move-queue {p} (pop_stale {q} {cn} now info e s) = ground (arith, pop_free-some p q cn e)
Move-queue {p} (give_turn {q} e) = ground arith
Move-queue {p} (reap_turn {q} e) = ground arith
Move-queue {p} (reap_one {q} {reaped} now info e) =
    ground (arith, reap_stale_conn-Reaped p q now info reaped e)
Move-queue {p} _ = ground arith

pub Move-queue_le :
    {p q : ConnPool} {next next' : ℕ} {t t' : Thread}
    → Move p next t t' q next'
    → p.queue ≤ p.opt.pool_size
    → q.queue ≤ p.opt.pool_size
unfolding count_request count_hit count_timeout acquire release push_free add_conn remove set_closed
    close_conns forget_free
Move-queue_le {p} (take_turn {q} e) h = ground arith
Move-queue_le {p} (pop_nothing e) h = ground (arith, pop_free-none p e)
Move-queue_le {p} (pop_fresh {q} {cn} now info e s) h = ground (arith, pop_free-some p q cn e)
Move-queue_le {p} (pop_stale {q} {cn} now info e s) h = ground (arith, pop_free-some p q cn e)
Move-queue_le {p} (give_turn {q} e) h = ground arith
Move-queue_le {p} (reap_turn {q} e) h = ground arith
Move-queue_le {p} (reap_one {q} {reaped} now info e) h =
    ground (arith, reap_stale_conn-Reaped p q now info reaped e)
Move-queue_le {p} _ h = ground arith

-- A dial begins only when no connection is free, so that every slot is one of a turn.
pub Move-fits :
    {p q : ConnPool} {next next' : ℕ} {t t' : Thread}
    → Move p next t t' q next'
    → (A T : ℕ) → A ≤ T
    → p.queue ≡ T + turns t
    → p.queue ≤ p.opt.pool_size
    → length p.free_conns + (A + slots t) ≤ p.opt.pool_size
    → length q.free_conns + (A + slots t') ≤ p.opt.pool_size
unfolding count_request count_hit count_timeout acquire release push_free add_conn remove set_closed
    close_conns forget_free
Move-fits {p} (put_back cn) A T le k b h = ground (arith, length-append {0} p.free_conns (cn ∷ []))
Move-fits {p} (take_turn {q} e) A T le k b h = ground arith
Move-fits {p} (pop_nothing e) A T le k b h = ground (arith, pop_free-none p e)
Move-fits {p} (pop_fresh {q} {cn} now info e s) A T le k b h =
    ground (arith, pop_free-some p q cn e, length-append {0} q.free_conns (cn ∷ []))
Move-fits {p} (pop_stale {q} {cn} now info e s) A T le k b h =
    ground (arith, pop_free-some p q cn e, length-append {0} q.free_conns (cn ∷ []))
Move-fits {p} (give_turn {q} e) A T le k b h = ground arith
Move-fits {p} (reap_turn {q} e) A T le k b h = ground arith
Move-fits {p} (reap_one {q} {reaped} now info e) A T le k b h =
    ground (arith, reap_stale_conn-Reaped p q now info reaped e)
Move-fits {p} _ A T le k b h = ground arith

-- No connection gets a second owner.
pub Move-owned :
    {p q : ConnPool} {next next' : ℕ} {t t' : Thread}
    → Move p next t t' q next'
    → (x A : ℕ) → (next ≤ x → count x p.free_conns + (A + owns x t) ≡ 0)
    → count x p.free_conns + (A + owns x t) ≤ 1
    → count x q.free_conns + (A + owns x t') ≤ 1
unfolding count_request count_hit count_timeout acquire release push_free add_conn remove set_closed
    close_conns forget_free count
Move-owned {p} (put_back cn) x A f h = ground (arith, count-append x p.free_conns (cn ∷ []))
Move-owned {p} (take_turn {q} e) x A f h = ground arith
Move-owned {p} (pop_nothing e) x A f h = ground (arith, pop_free-none p e)
Move-owned {p} (pop_fresh {q} {cn} now info e s) x A f h =
    ground (arith, pop_free-some p q cn e, count-append x q.free_conns (cn ∷ []))
Move-owned {p} (pop_stale {q} {cn} now info e s) x A f h =
    ground (arith, pop_free-some p q cn e, count-append x q.free_conns (cn ∷ []))
Move-owned {p} (give_turn {q} e) x A f h = ground arith
Move-owned {p} (reap_turn {q} e) x A f h = ground arith
Move-owned {p} (reap_one {q} {reaped} now info e) x A f h =
    ground
      (arith, reap_stale_conn-Reaped p q now info reaped e, reap_counts p q now info reaped x e)
Move-owned {p} _ x A f h = ground arith

-- A number that was not given out yet is nowhere in the pool.
pub Move-fresh :
    {p q : ConnPool} {next next' : ℕ} {t t' : Thread}
    → Move p next t t' q next'
    → (x A : ℕ) → (next ≤ x → count x p.free_conns + (A + owns x t) + count x p.conns ≡ 0)
    → next' ≤ x
    → count x q.free_conns + (A + owns x t') + count x q.conns ≡ 0
unfolding count_request count_hit count_timeout acquire release push_free add_conn remove set_closed
    close_conns forget_free count
Move-fresh {p} (put_back cn) x A f h = ground (arith, count-append x p.free_conns (cn ∷ []))
Move-fresh {p} (add cn) x A f h = ground (arith, count-append x p.conns (cn ∷ []))
Move-fresh {p} (drop_stale cn) x A f h = ground (arith, count-remove_first x cn p.conns)
Move-fresh {p} (remove_lent cn) x A f h = ground (arith, count-remove_first x cn p.conns)
Move-fresh {p} (take_turn {q} e) x A f h = ground arith
Move-fresh {p} (pop_nothing e) x A f h = ground (arith, pop_free-none p e)
Move-fresh {p} (pop_fresh {q} {cn} now info e s) x A f h =
    ground (arith, pop_free-some p q cn e, count-append x q.free_conns (cn ∷ []))
Move-fresh {p} (pop_stale {q} {cn} now info e s) x A f h =
    ground (arith, pop_free-some p q cn e, count-append x q.free_conns (cn ∷ []))
Move-fresh {p} (give_turn {q} e) x A f h = ground arith
Move-fresh {p} (reap_turn {q} e) x A f h = ground arith
Move-fresh {p} (reap_one {q} {reaped} now info e) x A f h =
    ground
      (arith, reap_stale_conn-Reaped p q now info reaped e, reap_counts p q now info reaped x e)
Move-fresh {p} _ x A f h = ground arith

pub Move-marks :
    {p q : ConnPool} {next next' : ℕ} {t t' : Thread}
    → Move p next t t' q next'
    → (A : ℕ) → (0 < A + marks t → p.closed ≡ true)
    → 0 < A + marks t'
    → q.closed ≡ true
unfolding count_request count_hit count_timeout acquire release push_free add_conn remove set_closed
    close_conns forget_free
Move-marks {p} (take_turn {q} e) A f h = ground arith
Move-marks {p} (pop_nothing e) A f h = ground (arith, pop_free-none p e)
Move-marks {p} (pop_fresh {q} {cn} now info e s) A f h = ground (arith, pop_free-some p q cn e)
Move-marks {p} (pop_stale {q} {cn} now info e s) A f h = ground (arith, pop_free-some p q cn e)
Move-marks {p} (give_turn {q} e) A f h = ground arith
Move-marks {p} (reap_turn {q} e) A f h = ground arith
Move-marks {p} (reap_one {q} {reaped} now info e) A f h =
    ground (arith, reap_stale_conn-Reaped p q now info reaped e)
Move-marks {p} _ A f h = ground arith

-- While the pool is open, the listed connections are the free ones and those in use.
pub Move-listed :
    {p q : ConnPool} {next next' : ℕ} {t t' : Thread}
    → Move p next t t' q next'
    → (x A : ℕ) → (0 < marks t → p.closed ≡ true)
    → (p.closed ≡ false → count x p.conns ≡ count x p.free_conns + (A + lists x t))
    → q.closed ≡ false
    → count x q.conns ≡ count x q.free_conns + (A + lists x t')
unfolding count_request count_hit count_timeout acquire release push_free add_conn remove set_closed
    close_conns forget_free count
Move-listed {p} (put_back cn) x A m f h = ground (arith, count-append x p.free_conns (cn ∷ []))
Move-listed {p} (add cn) x A m f h = ground (arith, count-append x p.conns (cn ∷ []))
Move-listed {p} (drop_stale cn) x A m f h = ground (arith, count-remove_first x cn p.conns)
Move-listed {p} (remove_lent cn) x A m f h = ground (arith, count-remove_first x cn p.conns)
Move-listed {p} (take_turn {q} e) x A m f h = ground arith
Move-listed {p} (pop_nothing e) x A m f h = ground (arith, pop_free-none p e)
Move-listed {p} (pop_fresh {q} {cn} now info e s) x A m f h =
    ground (arith, pop_free-some p q cn e, count-append x q.free_conns (cn ∷ []))
Move-listed {p} (pop_stale {q} {cn} now info e s) x A m f h =
    ground (arith, pop_free-some p q cn e, count-append x q.free_conns (cn ∷ []))
Move-listed {p} (give_turn {q} e) x A m f h = ground arith
Move-listed {p} (reap_turn {q} e) x A m f h = ground arith
Move-listed {p} (reap_one {q} {reaped} now info e) x A m f h =
    ground
      (arith, reap_stale_conn-Reaped p q now info reaped e, reap_counts p q now info reaped x e)
Move-listed {p} _ x A m f h = ground arith
