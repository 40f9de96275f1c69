-- ===== src/Pool/Steps.antt =====
-- internal/pool/pool.go as goroutines run it. A goroutine stands between two of the pool's atomic
-- actions: an operation on the channel, or a section under a lock. Any goroutine may move next.
use go_pg.Base.{ℕ, suc, ◌≡◌, Bool, true, false, none, some, List, [], ◌∷◌, ◌++◌}
use go_pg.Pool.{
  ConnPool, ConnInfo, is_stale_conn, count_request, count_hit, count_timeout, acquire, release,
  pop_free, push_free, add_conn, remove, reap_stale_conn, set_closed, close_conns, forget_free,
}

-- Where a goroutine stands. `lent c` is a caller that has `c` from `Get`; `giving_back` has returned or
-- lost its connection and has `<-p.queue` ahead.
pub data Thread : Type 0 where
  outside get_waiting get_popping get_dialing giving_back : Thread
  get_removing get_adding lent : ℕ → Thread
  reap_waiting reaping : Thread
  close_marked close_emptied : Thread

-- One action of one goroutine on the pool. `next` is a number that no connection has had yet.
pub data Move (p : ConnPool) (next : ℕ) : Thread → Thread → ConnPool → ℕ → Type 0 where
  -- Get: `Closed()` and the count of requests
  request : p.closed ≡ false → Move p next outside get_waiting (count_request p) next
  take_turn : {q : ConnPool} → acquire p ≡ some q → Move p next get_waiting get_popping q next
  time_out : Move p next get_waiting outside (count_timeout p) next
  pop_nothing : pop_free p ≡ none → Move p next get_popping get_dialing p next
  pop_fresh :
      {q : ConnPool} {cn : ℕ} (now : ℕ) (info : ConnInfo)
      → pop_free p ≡ some (cn, q)
      → is_stale_conn p.opt now info ≡ false
      → Move p next get_popping (lent cn) (count_hit q) next
  pop_stale :
      {q : ConnPool} {cn : ℕ} (now : ℕ) (info : ConnInfo)
      → pop_free p ≡ some (cn, q)
      → is_stale_conn p.opt now info ≡ true
      → Move p next get_popping (get_removing cn) q next
  drop_stale : (cn : ℕ) → Move p next (get_removing cn) get_popping (remove p cn) next
  dial_fails : Move p next get_dialing giving_back p next
  dial : Move p next get_dialing (get_adding next) p (suc next)
  add : (cn : ℕ) → Move p next (get_adding cn) (lent cn) (add_conn p cn) next
  -- Put on a healthy connection, and Remove, which Put calls on any other
  put_back : (cn : ℕ) → Move p next (lent cn) giving_back (push_free p cn) next
  remove_lent : (cn : ℕ) → Move p next (lent cn) giving_back (remove p cn) next
  give_turn : {q : ConnPool} → release p ≡ some q → Move p next giving_back outside q next
  -- ReapStaleConns, one round
  reap : Move p next outside reap_waiting p next
  reap_turn : {q : ConnPool} → acquire p ≡ some q → Move p next reap_waiting reaping q next
  reap_one :
      {q : ConnPool} {reaped : Bool} (now : ℕ) (info : ℕ → ConnInfo)
      → reap_stale_conn p now info ≡ (reaped, q)
      → Move p next reaping giving_back q next
  -- Close
  close_mark : p.closed ≡ false → Move p next outside close_marked (set_closed p) next
  close_empty : Move p next close_marked close_emptied (close_conns p) next
  close_forget : Move p next close_emptied outside (forget_free p) next

pub record World : Type 0 where
  pub pool : ConnPool
  pub next : ℕ
  pub threads : List Thread

pub data Step (w : World) : World → Type 0 where
  step :
      {t t' : Thread} {q : ConnPool} {next : ℕ} (before after : List Thread)
      → w.threads ≡ before ++ t ∷ after
      → Move w.pool w.next t t' q next
      → Step w (record { pool = q; next = next; threads = before ++ t' ∷ after })

pub data Reach (w : World) : World → Type 0 where
  here : Reach w w
  later : {u v : World} → Reach w u → Step u v → Reach w v

-- Goroutines that are all outside the pool.
abbrev pub AllOutside : List Thread → Type 0
AllOutside [] = Unit {0}
AllOutside (t ∷ ts) = (t ≡ outside) × AllOutside ts
