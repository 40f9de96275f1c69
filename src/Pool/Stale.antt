-- ===== src/Pool/Stale.antt =====
-- `ReapStaleConns` of internal/pool/pool.go, and the stale connections in front of the free list.
use go_pg.Base.{
  ℕ, zero, suc, ◌<◌, ◌≡◌, inl, inr, refl, sym, ap, subst, ◌∙◌, Bool, true, false, Option, none,
  some, List, [], ◌∷◌, length, arith, if◌then◌else◌, Bool-cases,
}
use go_pg.Pool.{ConnPool, ConnInfo, is_stale_conn, remove, reap_oldest}
use go_pg.Pool.Invariant.{Dropped, nothing-Dropped, remove-Dropped}
use go_pg.Pool.Get.{reap_round, one_more, reap_stale_conns}

-- The free connections in front that are stale, and those behind them.
abbrev pub stale_front : (ℕ → Bool) → List ℕ → ℕ
stale_front stale [] = 0
stale_front stale (cn ∷ l) = if stale cn then suc (stale_front stale l) else 0

abbrev pub behind_stale : (ℕ → Bool) → List ℕ → List ℕ
behind_stale stale [] = []
behind_stale stale (cn ∷ l) = if stale cn then behind_stale stale l else cn ∷ l

abbrev pub in_front : (ℕ → Bool) → List ℕ → List ℕ
in_front stale [] = []
in_front stale (cn ∷ l) = if stale cn then cn ∷ in_front stale l else []

-- What the reaper reports and leaves of a pool whose free connections are the list.
abbrev pub Reaping : (ℕ → Bool) → List ℕ → ConnPool → Option (ℕ × ConnPool) → Type 0
Reaping stale l p none = ⊥
Reaping stale l p (some (n, q)) =
    (n ≡ stale_front stale l)
    × (q.free_conns ≡ behind_stale stale l)
    × Dropped (in_front stale l) p q.dropped q.conns
    × (q.queue ≡ p.queue)

reap_round-oldest :
    (now : ℕ) (info : ℕ → ConnInfo) (p : ConnPool) (l : List ℕ)
    → p.free_conns ≡ l
    → p.queue < p.opt.pool_size
    → reap_round now info p ≡ some (reap_oldest p now info l)
unfolding reap_round remove
reap_round-oldest now info p [] e room = ground arith
reap_round-oldest now info p (cn ∷ l) e room = ground arith

one_more-Reaping :
    (stale : ℕ → Bool) (cn : ℕ) (l : List ℕ) (p : ConnPool) (r : Option (ℕ × ConnPool))
    → stale cn ≡ true
    → Reaping stale l (record (remove p cn) { free_conns = l }) r
    → Reaping stale (cn ∷ l) p (one_more r)
unfolding remove
one_more-Reaping stale cn l p none s h = h
one_more-Reaping stale cn l p (some (n, q)) s (m, f, d, k) =
    rw s (ap suc m, f, (remove-Dropped p cn (in_front stale l) q.dropped q.conns d).1, k)

round_again :
    (fuel now : ℕ) (info : ℕ → ConnInfo) (p q : ConnPool)
    → reap_round now info p ≡ some (true, q)
    → reap_stale_conns (suc fuel) now info p ≡ one_more (reap_stale_conns fuel now info q)
unfolding reap_stale_conns
round_again fuel now info p q e = rw (e, reap_stale_conns)

round_last :
    (fuel now : ℕ) (info : ℕ → ConnInfo) (p q : ConnPool)
    → reap_round now info p ≡ some (false, q)
    → reap_stale_conns (suc fuel) now info p ≡ some (0, q)
unfolding reap_stale_conns
round_last fuel now info p q e = rw (e, reap_stale_conns)

reap_oldest-cons :
    (now : ℕ) (info : ℕ → ConnInfo) (p : ConnPool) (cn : ℕ) (l : List ℕ) (b : Bool)
    → is_stale_conn p.opt now (info cn) ≡ b
    → reap_oldest p now info (cn ∷ l)
      ≡ (if b then (true, record (remove p cn) { free_conns = l }) else (false, p))
reap_oldest-cons now info p cn l b e = rw e

abbrev stale_at : ConnPool → ℕ → (ℕ → ConnInfo) → ℕ → Bool
stale_at p now info cn = is_stale_conn p.opt now (info cn)

Reaping-from :
    (fuel now : ℕ) (info : ℕ → ConnInfo) (l : List ℕ) (p : ConnPool)
    → p.free_conns ≡ l
    → p.queue < p.opt.pool_size
    → length l < fuel
    → Reaping (stale_at p now info) l p (reap_stale_conns fuel now info p)
unfolding remove
Reaping-from zero now info l p e room f = absurd (omega arith)
Reaping-from (suc fuel) now info [] p e room f =
    subst (Reaping (stale_at p now info) [] p)
      (sym (round_last fuel now info p p (reap_round-oldest now info p [] e room)))
      (refl, e, nothing-Dropped p, refl)
Reaping-from (suc fuel) now info (cn ∷ l) p e room f = elim (Bool-cases (stale_at p now info cn)) [
  | inl stale ↦
      let q = record (remove p cn) { free_conns = l } in
      subst (Reaping (stale_at p now info) (cn ∷ l) p)
        (sym (
          round_again fuel now info p q (
            reap_round-oldest now info p (cn ∷ l) e room
            ∙ ap some (reap_oldest-cons now info p cn l true stale))))
        (one_more-Reaping (stale_at p now info) cn l p (reap_stale_conns fuel now info q) stale
          (Reaping-from fuel now info l q refl room (omega arith)))
  | inr kept ↦
      subst (Reaping (stale_at p now info) (cn ∷ l) p)
        (sym (
          round_last fuel now info p p (
            reap_round-oldest now info p (cn ∷ l) e room
            ∙ ap some (reap_oldest-cons now info p cn l false kept))))
        (rw kept (refl, e, nothing-Dropped p, refl))
]

-- On a pool with a place in the channel, with fuel for more rounds than there are free connections,
-- the reaper comes to an end. It closes the stale free connections in front of the first that is not
-- stale, however many, takes them off the free ones and off the connections of the pool, reports their
-- number, and leaves the channel as it was.
pub reap_stale_conns-Reaping :
    (fuel now : ℕ) (info : ℕ → ConnInfo) (p : ConnPool)
    → p.queue < p.opt.pool_size
    → length p.free_conns < fuel
    → Reaping
        (λ cn. is_stale_conn p.opt now (info cn))
        p.free_conns
        p
        (reap_stale_conns fuel now info p)
reap_stale_conns-Reaping fuel now info p room f =
    Reaping-from fuel now info p.free_conns p refl room f
