-- ===== src/Pool/Fresh.antt =====
-- What `Get` of internal/pool/pool.go takes from the free list.
use go_pg.Base.{
  ℕ, zero, suc, ◌<◌, ◌≡◌, ◌⊎◌, inl, inr, refl, sym, ap, subst, ◌∙◌, Bool, true, false, Option, none,
  some, List, [], ◌∷◌, ◌++◌, length, arith, Bool-cases, Option-cases, length-append, append_assoc,
}
use go_pg.Errors.{Error}
use go_pg.Pool.{
  ConnPool, Options, is_stale_conn, count_request, count_hit, release, pop_free, add_conn, remove,
}
use go_pg.Pool.Get.{Env, Got, got, refused, pop_until_fresh, get_new, found, get}
use go_pg.Pool.Invariant.{pop_free-some, pop_free-none, Dropped, nothing-Dropped, remove-Dropped}

abbrev pub stale_at : Options → Env → ℕ → Bool
stale_at opt env cn = is_stale_conn opt env.now (env.info cn)

abbrev pub AllStale : Options → Env → List ℕ → Type 0
AllStale opt env [] = Unit {0}
AllStale opt env (c ∷ l) = (stale_at opt env c ≡ true) × AllStale opt env l

AllStale-concat :
    (opt : Options) (env : Env) (l : List ℕ) (c : ℕ)
    → AllStale opt env l
    → stale_at opt env c ≡ true
    → AllStale opt env (l ++ c ∷ [])
AllStale-concat opt env [] c h s = (s, tt)
AllStale-concat opt env (x ∷ l) c h s = (h.0, AllStale-concat opt env l c h.1 s)

-- What the loop over `popFree` leaves: the free list was cut behind a fresh connection, or used up.
abbrev Popped : Env → ConnPool → Option ℕ × ConnPool → Type 0
Popped env p (some cn, q) =
    (later : List ℕ) × (p.free_conns ≡ q.free_conns ++ cn ∷ later)
    × (stale_at p.opt env cn ≡ false)
    × AllStale p.opt env later
    × Dropped later p q.dropped q.conns
    × (q.queue ≡ p.queue)
Popped env p (none, q) =
    AllStale p.opt env p.free_conns
    × (q.free_conns ≡ [])
    × Dropped p.free_conns p q.dropped q.conns
    × (q.queue ≡ p.queue)

loop_empty :
    (fuel : ℕ) (env : Env) (p : ConnPool)
    → pop_free p ≡ none
    → pop_until_fresh (suc fuel) env p ≡ (none, p)
unfolding pop_until_fresh
loop_empty fuel env p e = rw (e, pop_until_fresh)

loop_fresh :
    (fuel : ℕ) (env : Env) (p q : ConnPool) (cn : ℕ)
    → pop_free p ≡ some (cn, q)
    → stale_at q.opt env cn ≡ false
    → pop_until_fresh (suc fuel) env p ≡ (some cn, count_hit q)
unfolding pop_until_fresh
loop_fresh fuel env p q cn e s = ground arith

loop_stale :
    (fuel : ℕ) (env : Env) (p q : ConnPool) (cn : ℕ)
    → pop_free p ≡ some (cn, q)
    → stale_at q.opt env cn ≡ true
    → pop_until_fresh (suc fuel) env p ≡ pop_until_fresh fuel env (remove q cn)
unfolding pop_until_fresh
loop_stale fuel env p q cn e s = ground arith

-- The pool without a free connection that has been taken.
taken_Dropped :
    (p q : ConnPool) (cn : ℕ) (l dropped conns : List ℕ)
    → q ≡ record p { free_conns = q.free_conns }
    → Dropped l (remove q cn) dropped conns
    → Dropped (l ++ cn ∷ []) p dropped conns
taken_Dropped p q cn l dropped conns e h =
    subst (λ r. Dropped (l ++ cn ∷ []) r dropped conns) e (remove-Dropped q cn l dropped conns h).0

-- One more stale connection behind those that the rest of the loop has seen.
Popped-stale :
    (env : Env) (p q : ConnPool) (cn : ℕ) (r : Option ℕ × ConnPool)
    → p.free_conns ≡ q.free_conns ++ cn ∷ []
    → q ≡ record p { free_conns = q.free_conns }
    → stale_at p.opt env cn ≡ true
    → Popped env (remove q cn) r
    → Popped env p r
unfolding remove
Popped-stale env p q cn (some x, u) e same s (later, f, fresh, all, d, n) =
    let o : q.opt ≡ p.opt = rw same in
    (
      later ++ cn ∷ [],
      e ∙ ap (λ l. l ++ cn ∷ []) f ∙ append_assoc u.free_conns (x ∷ later) (cn ∷ []),
      rw (← o) fresh,
      rw (← o) (AllStale-concat q.opt env later cn all (rw o s)),
      taken_Dropped p q cn later u.dropped u.conns same d,
      n ∙ ap (λ r. r.queue) same,
    )
Popped-stale env p q cn (none, u) e same s (all, f, d, n) =
    let o : q.opt ≡ p.opt = rw same in
    (
      rw e (rw (← o) (AllStale-concat q.opt env q.free_conns cn all (rw o s))),
      f,
      subst (λ l. Dropped l p u.dropped u.conns) (sym e)
          (taken_Dropped p q cn q.free_conns u.dropped u.conns same d),
      n ∙ ap (λ r. r.queue) same,
    )

pop_until_fresh-Popped :
    (fuel : ℕ) (env : Env) (p : ConnPool)
    → length p.free_conns < fuel
    → Popped env p (pop_until_fresh fuel env p)
pop_until_fresh-Popped zero env p h = absurd (omega arith)
pop_until_fresh-Popped (suc fuel) env p h = elim (Option-cases (pop_free p)) [
  | inl e ↦
      let empty = pop_free-none p e in
      subst (Popped env p) (sym (loop_empty fuel env p e)) (
        rw empty tt,
        empty,
        subst (λ l. Dropped l p p.dropped p.conns) (sym empty) (nothing-Dropped p),
        refl,
      )
  | inr ((cn, q), e) ↦
      let (last, rest) = pop_free-some p q cn e in
      let opt : q.opt ≡ p.opt = rw rest in
      let queue : q.queue ≡ p.queue = rw rest in
      let shorter : length q.free_conns < fuel =
        omega (arith, ap length last, length-append {0} q.free_conns (cn ∷ [])) in
      elim (Bool-cases (stale_at p.opt env cn)) [
        | inl s ↦ subst (Popped env p) (sym (loop_stale fuel env p q cn e (rw opt s))) (
            Popped-stale env p q cn _ last rest s
              (pop_until_fresh-Popped fuel env (remove q cn) (unfold remove in shorter)))
        | inr s ↦ subst (Popped env p) (sym (loop_fresh fuel env p q cn e (rw opt s))) (
            unfold count_hit in
            (
              [],
              last,
              s,
              tt,
              subst (λ r. Dropped [] r q.dropped q.conns) rest (nothing-Dropped q),
              queue,
            ))
      ]
]

abbrev pub GetSpec : Env → ConnPool → Option (Got × ConnPool) → Type 0
GetSpec env p none = ⊥
GetSpec env p (some (got cn false, q)) =
    (later : List ℕ) × (p.free_conns ≡ q.free_conns ++ cn ∷ later)
    × (stale_at p.opt env cn ≡ false)
    × AllStale p.opt env later
    × Dropped later p q.dropped q.conns
    × (q.queue ≡ suc p.queue)
GetSpec env p (some (got cn true, q)) =
    AllStale p.opt env p.free_conns
    × (q.free_conns ≡ [])
    × (env.dial ≡ inr cn)
    × ((kept : List ℕ) × (q.conns ≡ kept ++ cn ∷ []) × Dropped p.free_conns p q.dropped kept)
    × (q.queue ≡ suc p.queue)
GetSpec env p (some (refused e, q)) =
    AllStale p.opt env p.free_conns
    × (q.free_conns ≡ [])
    × (env.dial ≡ inl e)
    × Dropped p.free_conns p q.dropped q.conns
    × (q.queue ≡ p.queue)

-- The pool once `Get` has its place in the channel.
abbrev seated : ConnPool → ConnPool
seated p = record (count_request p) { queue = suc p.queue }

get-found :
    (env : Env) (p : ConnPool)
    → p.closed ≡ false
    → env.in_time ≡ true
    → p.queue < p.opt.pool_size
    → get env p ≡ found env (pop_until_fresh (suc (length p.free_conns)) env (seated p))
unfolding get count_request
get-found env p c t room = ground arith

get_new-GetSpec :
    (env : Env) (p u : ConnPool)
    → AllStale p.opt env p.free_conns
    → u.free_conns ≡ []
    → Dropped p.free_conns p u.dropped u.conns
    → u.queue ≡ suc p.queue
    → (d : Error ⊎ ℕ) → env.dial ≡ d
    → GetSpec env p (get_new env u)
unfolding release add_conn
get_new-GetSpec env p u all f g n (inl e) d =
    let failed : get_new env u ≡ some (refused e, record u { queue = p.queue }) =
      unfold get_new in ground arith in
    subst (GetSpec env p) (sym failed) (all, f, d, g, refl)
get_new-GetSpec env p u all f g n (inr cn) d =
    let dialled : get_new env u ≡ some (got cn true, add_conn u cn) =
      unfold get_new in ground arith in
    subst (GetSpec env p) (sym dialled) (all, f, d, (u.conns, refl, g), n)

found-GetSpec :
    (env : Env) (p : ConnPool) (r : Option ℕ × ConnPool)
    → Popped env (seated p) r
    → GetSpec env p (found env r)
unfolding count_request
found-GetSpec env p (some cn, q) h = h
found-GetSpec env p (none, u) (all, f, g, n) = get_new-GetSpec env p u all f g n env.dial refl

-- `Get` on an open pool with a place in the channel always returns. If some free connection is not
-- stale, it is the one put back last among these, all behind it are stale, closed and taken off the
-- connections of the pool, and no new one is dialled; otherwise all free ones are, and the result is that
-- of the dial, with a new connection added behind those of the pool. The place in the channel is kept
-- with a connection, and given back with an error.
pub get-GetSpec :
    (env : Env) (p : ConnPool)
    → p.closed ≡ false
    → env.in_time ≡ true
    → p.queue < p.opt.pool_size
    → GetSpec env p (get env p)
get-GetSpec env p c t room = subst (GetSpec env p) (sym (get-found env p c t room)) (
    found-GetSpec env p _ (
      pop_until_fresh-Popped (suc (length p.free_conns)) env (seated p)
        (unfold count_request in omega arith)))
