-- ===== src/Pool/Get.antt =====
-- internal/pool/pool.go, the methods run by one goroutine with no other between its actions. What the
-- environment decides is an argument: whether a place in the channel comes before the timer, the time,
-- and what the dialler returns. `none` is a receive from the channel that blocks for ever.
use go_pg.Base.{
  ℕ, zero, suc, ◌⊎◌, inl, inr, Bool, true, false, Option, none, some, length, if◌then◌else◌,
}
use go_pg.Errors.{Error, plain_error, pool_closed, pool_timeout}
use go_pg.Pool.{
  ConnPool, ConnInfo, is_stale_conn, count_request, count_hit, count_timeout, acquire, release,
  pop_free, push_free, add_conn, remove, reap_stale_conn, set_closed, close_conns, forget_free,
}

pub record Env : Type 0 where
  pub in_time : Bool
  pub now : ℕ
  pub info : ℕ → ConnInfo
  pub dial : Error ⊎ ℕ

-- The result of `Get`: a connection and whether it is new, or an error.
pub data Got : Type 0 where
  got : ℕ → Bool → Got
  refused : Error → Got

-- The loop over free connections: the first that is not stale. Each round takes one off, so fuel
-- beyond their number is enough.
unfoldable pub pop_until_fresh : ℕ → Env → ConnPool → Option ℕ × ConnPool
pop_until_fresh zero env p = (none, p)
pop_until_fresh (suc fuel) env p = elim (pop_free p) [
  | none ↦ (none, p)
  | some (cn, q) ↦ elim (is_stale_conn q.opt env.now (env.info cn)) [
    | true ↦ pop_until_fresh fuel env (remove q cn)
    | false ↦ (some cn, count_hit q)
  ]
]

-- `NewConn` and what follows it in `Get`.
unfoldable pub get_new : Env → ConnPool → Option (Got × ConnPool)
get_new env p = elim env.dial [
  | inl e ↦ elim (release p) [ none ↦ none | some q ↦ some (refused e, q) ]
  | inr cn ↦ some (got cn true, add_conn p cn)
]

abbrev pub found : Env → Option ℕ × ConnPool → Option (Got × ConnPool)
found env (none, p) = get_new env p
found env (some cn, p) = some (got cn false, p)

-- The `select`: a place in the channel if there is one and it comes in time.
abbrev pub take_place : Env → ConnPool → Option ConnPool
take_place env p = if env.in_time then acquire p else none

abbrev pub get_open : Env → ConnPool → Option (Got × ConnPool)
get_open env p = elim (take_place env p) [
  | none ↦ some (refused (plain_error pool_timeout), count_timeout p)
  | some q ↦ found env (pop_until_fresh (suc (length q.free_conns)) env q)
]

unfoldable pub get : Env → ConnPool → Option (Got × ConnPool)
unfolding acquire pop_until_fresh get_new count_request count_timeout
get env p =
    if p.closed then some (refused (plain_error pool_closed), p) else get_open env (count_request p)

-- `Remove`; the reason goes only to the log.
unfoldable pub remove_conn : ConnPool → ℕ → Option ConnPool
unfolding remove release
remove_conn p cn = release (remove p cn)

unfoldable pub put : ConnPool → ℕ → ConnInfo → Option ConnPool
unfolding remove_conn push_free release
put p cn info = if info.has_unread then remove_conn p cn else release (push_free p cn)

-- `PopFree`: its place in the channel is given back when nothing was free.
unfoldable pub pop_free_conn : Env → ConnPool → Option (Option ℕ × ConnPool)
unfolding acquire release pop_free count_timeout
pop_free_conn env p = elim (take_place env p) [
  | none ↦ some (none, count_timeout p)
  | some q ↦ elim (pop_free q) [
    | none ↦ elim (release q) [ none ↦ none | some r ↦ some (none, r) ]
    | some (cn, r) ↦ some (some cn, r)
  ]
]

abbrev pub len : ConnPool → ℕ
len p = length p.conns

abbrev pub free_len : ConnPool → ℕ
free_len p = length p.free_conns

-- `Close`: an error the second time. The errors of closing connections are not kept.
unfoldable pub close : ConnPool → Option Error × ConnPool
unfolding set_closed close_conns forget_free
close p =
    if p.closed
    then (some (plain_error pool_closed), p)
    else (none, forget_free (close_conns (set_closed p)))

-- A round of `ReapStaleConns` in its place in the channel; `none` where that is waited for for ever.
unfoldable pub reap_round : ℕ → (ℕ → ConnInfo) → ConnPool → Option (Bool × ConnPool)
unfolding acquire release reap_stale_conn
reap_round now info p = elim (acquire p) [
  | none ↦ none
  | some q ↦
      let r = reap_stale_conn q now info in
      elim (release r.1) [ none ↦ none | some u ↦ some (r.0, u) ]
]

abbrev pub one_more : Option (ℕ × ConnPool) → Option (ℕ × ConnPool)
one_more none = none
one_more (some (n, p)) = some (suc n, p)

-- `ReapStaleConns`, with the number of connections removed. Each round but the last shortens the
-- free list, so fuel beyond its length is enough.
unfoldable pub reap_stale_conns : ℕ → ℕ → (ℕ → ConnInfo) → ConnPool → Option (ℕ × ConnPool)
unfolding reap_round
reap_stale_conns zero now info p = none
reap_stale_conns (suc fuel) now info p = elim (reap_round now info p) [
  | none ↦ none
  | some (reaped, q) ↦ elim reaped [
    | true ↦ one_more (reap_stale_conns fuel now info q)
    | false ↦ some (0, q)
  ]
]
