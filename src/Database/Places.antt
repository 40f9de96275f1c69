-- ===== src/Database/Places.antt =====
-- Places in the pool's channel, as the methods of internal/pool/pool.go take them and give them back.
use go_pg.Base.{
  ℕ, zero, suc, ◌≡◌, ◌⊎◌, inl, inr, refl, sym, subst, ◌∙◌, Bool, true, false, Option, none, some,
  arith, if◌then◌else◌, Option-cases, length,
}
use go_pg.Errors.{Error, plain_error, pool_timeout, pool_closed}
use go_pg.Pool.{
  ConnPool, ConnInfo, pop_free, remove, acquire, release, count_hit, count_request, count_timeout,
  push_free, add_conn,
}
use go_pg.Pool.Get.{
  Env, Got, got, refused, pop_until_fresh, get_new, found, take_place, get_open, get, put,
  remove_conn,
}
use go_pg.Pool.Invariant.{pop_free-some}

pop_until_fresh-queue :
    (fuel : ℕ) (env : Env) (p : ConnPool) → (pop_until_fresh fuel env p).1.queue ≡ p.queue
unfolding pop_until_fresh remove count_hit
pop_until_fresh-queue zero env p = refl
pop_until_fresh-queue (suc fuel) env p = elim (Option-cases (pop_free p)) [
  | inl e ↦ rw (e, pop_until_fresh) refl
  | inr ((cn, q), e) ↦
      let (last, rest) = pop_free-some p q cn e in
      let queue : q.queue ≡ p.queue = rw rest in
      ground (arith, pop_until_fresh-queue fuel env (remove q cn))
]

-- A connection from `Get` comes with one place in a channel that had `n`, an error with none.
abbrev pub Placed : ℕ → Option (Got × ConnPool) → Type 0
Placed n none = ⊥
Placed n (some (got cn fresh, q)) = q.queue ≡ suc n
Placed n (some (refused e, q)) = q.queue ≡ n

get_new-Placed :
    (env : Env) (n : ℕ) (q : ConnPool)
    → q.queue ≡ suc n
    → (d : Error ⊎ ℕ) → env.dial ≡ d
    → Placed n (get_new env q)
unfolding release add_conn
get_new-Placed env n q h (inl e) d =
    let failed : get_new env q ≡ some (refused e, record q { queue = n }) =
      unfold get_new in ground arith in
    subst (Placed n) (sym failed) refl
get_new-Placed env n q h (inr cn) d =
    let dialled : get_new env q ≡ some (got cn true, add_conn q cn) =
      unfold get_new in ground arith in
    subst (Placed n) (sym dialled) h

found-Placed :
    (env : Env) (n : ℕ) (r : Option ℕ × ConnPool) → r.1.queue ≡ suc n → Placed n (found env r)
found-Placed env n (some cn, q) h = h
found-Placed env n (none, q) h = get_new-Placed env n q h env.dial refl

take_place-queue : (env : Env) (p q : ConnPool) → take_place env p ≡ some q → q.queue ≡ suc p.queue
unfolding acquire
take_place-queue env p q e = ground arith

-- What follows the `select`.
abbrev after_place : Env → ConnPool → Option ConnPool → Option (Got × ConnPool)
after_place env p none = some (refused (plain_error pool_timeout), count_timeout p)
after_place env p (some q) = found env (pop_until_fresh (suc (length q.free_conns)) env q)

after_place-Placed :
    (env : Env) (p : ConnPool) (r : Option ConnPool)
    → take_place env p ≡ r
    → Placed p.queue (after_place env p r)
unfolding count_timeout
after_place-Placed env p none e = refl
after_place-Placed env p (some q) e =
    found-Placed env p.queue (pop_until_fresh (suc (length q.free_conns)) env q)
      (pop_until_fresh-queue (suc (length q.free_conns)) env q ∙ take_place-queue env p q e)

get_open-after_place :
    (env : Env) (p : ConnPool) → get_open env p ≡ after_place env p (take_place env p)
get_open-after_place env p = ground arith

if-Placed :
    (n : ℕ) (b : Bool) (x y : Option (Got × ConnPool))
    → Placed n x
    → Placed n y
    → Placed n (if b then x else y)
if-Placed n true x y h k = h
if-Placed n false x y h k = k

pub get-Placed : (env : Env) (p : ConnPool) → Placed p.queue (get env p)
unfolding get count_request
get-Placed env p =
    let u = count_request p in
    if-Placed p.queue p.closed (some (refused (plain_error pool_closed), p)) (get_open env u) refl (
      subst (Placed p.queue) (sym (get_open-after_place env u))
        (after_place-Placed env u (take_place env u) refl))

remove_conn-queue :
    (p : ConnPool) (cn n : ℕ)
    → p.queue ≡ suc n
    → remove_conn p cn ≡ some (record (remove p cn) { queue = n })
unfolding remove_conn release remove
remove_conn-queue p cn n h = ground arith

push-queue :
    (p : ConnPool) (cn n : ℕ)
    → p.queue ≡ suc n
    → release (push_free p cn) ≡ some (record (push_free p cn) { queue = n })
unfolding release push_free
push-queue p cn n h = ground arith

abbrev pub Kept : ℕ → Option ConnPool → Type 0
Kept n none = ⊥
Kept n (some q) = q.queue ≡ n

if-Kept :
    (n : ℕ) (b : Bool) (x y : Option ConnPool) → Kept n x → Kept n y → Kept n (if b then x else y)
if-Kept n true x y h k = h
if-Kept n false x y h k = k

pub remove_conn-Kept : (p : ConnPool) (cn n : ℕ) → p.queue ≡ suc n → Kept n (remove_conn p cn)
remove_conn-Kept p cn n h = rw (remove_conn-queue p cn n h) refl

pub put-Kept :
    (p : ConnPool) (cn : ℕ) (info : ConnInfo) (n : ℕ) → p.queue ≡ suc n → Kept n (put p cn info)
unfolding put
put-Kept p cn info n h =
    if-Kept n info.has_unread (remove_conn p cn) (release (push_free p cn))
      (remove_conn-Kept p cn n h) (rw (push-queue p cn n h) refl)
