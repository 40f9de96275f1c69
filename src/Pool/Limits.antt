-- ===== src/Pool/Limits.antt =====
-- The invariant of internal/pool/pool.go under the steps of its goroutines.
use go_pg.Base.{ℕ, ◌+◌, ◌≤◌, ◌<◌, ◌≡◌, refl, ap, true, false, List, [], ◌∷◌, ◌++◌, length, arith}
use go_pg.Pool.{Options, new_conn_pool}
use go_pg.Pool.Steps.{Thread, outside, World, Step, step, Reach, here, later, AllOutside}
use go_pg.Pool.Invariant.{turns, slots, owns, lists, total, total-append, count}
use go_pg.Pool.Moves.{
  marks, Move-opt, Move-queue, Move-queue_le, Move-fits, Move-owned, Move-fresh, Move-marks,
  Move-listed,
}

pub record Inv (w : World) : Type 0 where
  -- the channel holds one value for each goroutine that has its turn, and has room for them
  pub one_each : w.pool.queue ≡ total turns w.threads
  pub has_room : w.pool.queue ≤ w.pool.opt.pool_size
  -- free connections, owned ones and dials under way fit the pool's size
  pub fits : length w.pool.free_conns + total slots w.threads ≤ w.pool.opt.pool_size
  -- a connection is free at most once, or has one owner
  pub one_owner : (x : ℕ) → count x w.pool.free_conns + total (owns x) w.threads ≤ 1
  pub fresh :
      (x : ℕ)
      → w.next ≤ x
      → count x w.pool.free_conns + total (owns x) w.threads + count x w.pool.conns ≡ 0
  pub closing : 0 < total marks w.threads → w.pool.closed ≡ true
  pub listed :
      w.pool.closed ≡ false
      → (x : ℕ) → count x w.pool.conns ≡ count x w.pool.free_conns + total (lists x) w.threads

-- What the goroutines beside the one that moves hold.
abbrev pub others : (Thread → ℕ) → List Thread → List Thread → ℕ
others f a b = total f a + total f b

pub total-split :
    (f : Thread → ℕ) (a : List Thread) (t : Thread) (b : List Thread)
    → total f (a ++ t ∷ b) ≡ others f a b + f t
total-split f a t b = omega (arith, total-append f a (t ∷ b))

slots-le-turns : (ts : List Thread) → total slots ts ≤ total turns ts
slots-le-turns [] = omega arith
slots-le-turns (t ∷ ts) = omega (arith, one t, slots-le-turns ts)
  where
    one : (t : Thread) → slots t ≤ turns t
    one outside = omega arith
    one _ = omega arith

pub step-Inv : {w v : World} → Step w v → Inv w → Inv v
step-Inv {w} (step {t} {t'} {q} {next} a b e m) i = record {
  one_each = omega (arith, Move-queue m, i.one_each, at turns, total-split turns a t' b);
  has_room = rw (Move-opt m) (Move-queue_le m i.has_room);
  fits =
      rw (total-split slots a t' b, Move-opt m)
        (Move-fits m (others slots a b) (others turns a b)
          (omega (arith, slots-le-turns a, slots-le-turns b)) (omega (arith, i.one_each, at turns))
          i.has_room (omega (arith, i.fits, at slots)));
  one_owner = λ x. rw (total-split (owns x) a t' b) (
      Move-owned m x (others (owns x) a b) (λ h. omega (arith, i.fresh x h, at (owns x)))
        (omega (arith, i.one_owner x, at (owns x))));
  fresh = λ x h.
      rw (total-split (owns x) a t' b)
        (Move-fresh m x (others (owns x) a b) (λ k. omega (arith, i.fresh x k, at (owns x))) h);
  closing = λ h.
      Move-marks m (others marks a b) (λ k. i.closing (omega (arith, at marks)))
        (omega (arith, total-split marks a t' b));
  listed = λ open_yet x. rw (total-split (lists x) a t' b) (
      Move-listed m x (others (lists x) a b) (λ k. i.closing (omega (arith, at marks)))
        (λ k. omega (arith, i.listed k x, at (lists x))) open_yet);
}
  where
    at : (f : Thread → ℕ) → total f w.threads ≡ others f a b + f t
    at f = rw e (total-split f a t b)

pub total-AllOutside :
    (f : Thread → ℕ) (ts : List Thread) → f outside ≡ 0 → AllOutside ts → total f ts ≡ 0
total-AllOutside f [] z h = refl
total-AllOutside f (t ∷ ts) z h = omega (arith, ap f h.0, total-AllOutside f ts z h.1)

-- The world in which a pool was just made, and goroutines are about to use it.
abbrev pub start : Options → List Thread → World
start opt ts = record { pool = new_conn_pool opt; next = 0; threads = ts }

pub start-Inv : (opt : Options) (ts : List Thread) → AllOutside ts → Inv (start opt ts)
unfolding new_conn_pool count
start-Inv opt ts h = record {
  one_each = omega (arith, total-AllOutside turns ts refl h);
  has_room = omega arith;
  fits = omega (arith, total-AllOutside slots ts refl h);
  one_owner = λ x. omega (arith, total-AllOutside (owns x) ts refl h);
  fresh = λ x k. omega (arith, total-AllOutside (owns x) ts refl h);
  closing = λ k. absurd (omega (arith, total-AllOutside marks ts refl h));
  listed = λ k x. omega (arith, total-AllOutside (lists x) ts refl h);
}

-- Whatever the goroutines do, and in whatever order, the pool's invariant holds.
pub Reach-Inv :
    (opt : Options) (ts : List Thread) {w : World} → AllOutside ts → Reach (start opt ts) w → Inv w
Reach-Inv opt ts h here = start-Inv opt ts h
Reach-Inv opt ts h (later r s) = step-Inv s (Reach-Inv opt ts h r)
