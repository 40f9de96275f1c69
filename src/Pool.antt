-- ===== src/Pool.antt =====
-- internal/pool/pool.go: the pool of connections. A connection is a number, as the code compares
-- pointers; what the pool asks about one (`ConnInfo`) and the time are arguments. `queue` is the count
-- of values in the buffered channel, one for each caller that may hold a connection.
pub mod Get
pub mod Stale
pub mod Fresh
pub mod Steps
pub mod Invariant
pub mod Moves
pub mod Limits
pub mod Length
pub mod Tests
use go_pg.Base.{
  ℕ, zero, suc, ◌+◌, ◌%◌, ◌^◌, Bool, true, false, not, ◌&&◌, ◌||◌, Option, none, some, List, [],
  ◌∷◌, ◌++◌, length, ltb, leb, ◌==◌, if◌then◌else◌,
}

-- Durations; 0 switches a limit off.
pub record Options : Type 0 where
  pub pool_size : ℕ
  pub idle_timeout : ℕ
  pub max_age : ℕ

-- The fields of a `*Conn` that the pool reads: `UsedAt`, `InitedAt`, and whether `CheckHealth` finds
-- unread data.
pub record ConnInfo : Type 0 where
  pub used_at : ℕ
  pub inited_at : ℕ
  pub has_unread : Bool

-- Accumulated in uint32.
pub record Stats : Type 0 where
  pub requests : ℕ
  pub hits : ℕ
  pub timeouts : ℕ

-- `free_conns` is in the slice's order: the oldest first. `dropped` records the connections that
-- `closeConn` was called on, the latest first.
pub record ConnPool : Type 0 where
  pub opt : Options
  pub queue : ℕ
  pub conns : List ℕ
  pub free_conns : List ℕ
  pub stats : Stats
  pub closed : Bool
  pub dropped : List ℕ

unfoldable pub new_conn_pool : Options → ConnPool
new_conn_pool opt = record {
  opt = opt;
  queue = 0;
  conns = [];
  free_conns = [];
  stats = record { requests = 0; hits = 0; timeouts = 0 };
  closed = false;
  dropped = [];
}

-- `now.Sub(t) >= d`, without a negative difference.
abbrev pub elapsed : ℕ → ℕ → ℕ → Bool
elapsed now t d = leb (t + d) now

unfoldable pub is_stale_conn : Options → ℕ → ConnInfo → Bool
is_stale_conn opt now info =
    if opt.idle_timeout == 0 && opt.max_age == 0
    then false
    else if ltb 0 opt.idle_timeout && elapsed now info.used_at opt.idle_timeout
    then true
    else if ltb 0 opt.max_age && elapsed now info.inited_at opt.max_age
    then true
    else false

abbrev inc_uint32 : ℕ → ℕ
inc_uint32 n = (n + 1) % 2 ^ 32

unfoldable pub count_request : ConnPool → ConnPool
count_request p = record p { stats = record stats { requests = inc_uint32 stats.requests } }
  where
    open p use {stats}

unfoldable pub count_hit : ConnPool → ConnPool
count_hit p = record p { stats = record stats { hits = inc_uint32 stats.hits } }
  where
    open p use {stats}

unfoldable pub count_timeout : ConnPool → ConnPool
count_timeout p = record p { stats = record stats { timeouts = inc_uint32 stats.timeouts } }
  where
    open p use {stats}

-- `p.queue <- struct{}{}`; `none` where the send blocks.
unfoldable pub acquire : ConnPool → Option ConnPool
acquire p = if ltb p.queue p.opt.pool_size then some (record p { queue = suc p.queue }) else none

-- `<-p.queue`; `none` where the receive blocks.
unfoldable pub release : ConnPool → Option ConnPool
release p = elim p.queue [ zero ↦ none | suc n ↦ some (record p { queue = n }) ]

-- The last element of a slice and those before it.
unfoldable pub split_last : List ℕ → Option (ℕ × List ℕ)
split_last [] = none
split_last (x ∷ xs) = elim (split_last xs) [ none ↦ some (x, []) | some (y, ys) ↦ some (y, x ∷ ys) ]

abbrev pub take_split : ConnPool → Option (ℕ × List ℕ) → Option (ℕ × ConnPool)
take_split p none = none
take_split p (some (cn, rest)) = some (cn, record p { free_conns = rest })

-- `popFree`: the connection that was put back last.
unfoldable pub pop_free : ConnPool → Option (ℕ × ConnPool)
unfolding split_last
pop_free p = take_split p (split_last p.free_conns)

unfoldable pub push_free : ConnPool → ℕ → ConnPool
push_free p cn = record p { free_conns = p.free_conns ++ cn ∷ [] }

unfoldable pub add_conn : ConnPool → ℕ → ConnPool
add_conn p cn = record p { conns = p.conns ++ cn ∷ [] }

unfoldable pub close_conn : ConnPool → ℕ → ConnPool
close_conn p cn = record p { dropped = cn ∷ p.dropped }

-- The loop of `remove`, which stops at the first occurrence.
unfoldable pub remove_first : ℕ → List ℕ → List ℕ
remove_first cn [] = []
remove_first cn (c ∷ cs) = if c == cn then cs else c ∷ remove_first cn cs

unfoldable pub remove : ConnPool → ℕ → ConnPool
unfolding close_conn remove_first
remove p cn = record (close_conn p cn) { conns = remove_first cn p.conns }

abbrev pub reap_oldest : ConnPool → ℕ → (ℕ → ConnInfo) → List ℕ → Bool × ConnPool
reap_oldest p now info [] = (false, p)
reap_oldest p now info (cn ∷ rest) =
    if is_stale_conn p.opt now (info cn)
    then (true, record (remove p cn) { free_conns = rest })
    else (false, p)

-- `reapStaleConn`: the oldest free connection, if it is stale.
unfoldable pub reap_stale_conn : ConnPool → ℕ → (ℕ → ConnInfo) → Bool × ConnPool
unfolding remove is_stale_conn
reap_stale_conn p now info = reap_oldest p now info p.free_conns

abbrev pub close_all : List ℕ → List ℕ → List ℕ
close_all [] dropped = dropped
close_all (c ∷ cs) dropped = close_all cs (c ∷ dropped)

-- `Close` in its three steps: the flag, then under one lock all connections are closed and
-- forgotten, then under the other the free ones are forgotten.
unfoldable pub set_closed : ConnPool → ConnPool
set_closed p = record p { closed = true }

unfoldable pub close_conns : ConnPool → ConnPool
close_conns p = record p { dropped = close_all p.conns p.dropped; conns = [] }

unfoldable pub forget_free : ConnPool → ConnPool
forget_free p = record p { free_conns = [] }
