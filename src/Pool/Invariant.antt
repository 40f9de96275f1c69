-- ===== src/Pool/Invariant.antt =====
-- The numbers that the invariant of internal/pool/pool.go is made of: values in the channel, owners of
-- connections, and dials under way.
use go_pg.Base.{
  ℕ, ◌+◌, ◌-◌, ◌≡◌, ◌⊎◌, inl, inr, Bool-cases, refl, ap, Bool, Option, none, some, List, [], ◌∷◌,
  ◌++◌, arith, if◌then◌else◌, ◌==◌,
}
use go_pg.Pool.{
  ConnPool, ConnInfo, is_stale_conn, split_last, take_split, pop_free, reap_oldest, remove_first,
  remove, reap_stale_conn,
}
use go_pg.Pool.Steps.{
  Thread, get_popping, get_dialing, giving_back, get_removing, get_adding, lent, reaping,
}

-- 1 for a goroutine that has a value in the channel.
abbrev pub turns : Thread → ℕ
turns get_popping = 1
turns get_dialing = 1
turns giving_back = 1
turns (get_removing cn) = 1
turns (get_adding cn) = 1
turns (lent cn) = 1
turns reaping = 1
turns _ = 0

-- 1 for a goroutine that owns a connection or is about to dial one.
abbrev pub slots : Thread → ℕ
slots get_dialing = 1
slots (get_removing cn) = 1
slots (get_adding cn) = 1
slots (lent cn) = 1
slots _ = 0

-- 1 if a connection is the one asked about.
abbrev pub is : ℕ → ℕ → ℕ
is x cn = if x == cn then 1 else 0

-- How often a goroutine owns `x`, and how often as a connection that the pool has listed.
abbrev pub owns : ℕ → Thread → ℕ
owns x (get_removing cn) = is x cn
owns x (get_adding cn) = is x cn
owns x (lent cn) = is x cn
owns x _ = 0

abbrev pub lists : ℕ → Thread → ℕ
lists x (get_removing cn) = is x cn
lists x (lent cn) = is x cn
lists x _ = 0

abbrev pub total : (Thread → ℕ) → List Thread → ℕ
total f [] = 0
total f (t ∷ ts) = f t + total f ts

unfoldable pub count : ℕ → List ℕ → ℕ
count x [] = 0
count x (y ∷ ys) = is x y + count x ys

pub total-append : (f : Thread → ℕ) (a b : List Thread) → total f (a ++ b) ≡ total f a + total f b
total-append f [] b = omega arith
total-append f (t ∷ a) b = omega (arith, total-append f a b)

pub count-append : (x : ℕ) (a b : List ℕ) → count x (a ++ b) ≡ count x a + count x b
unfolding count
count-append x [] b = omega arith
count-append x (y ∷ a) b = omega (arith, count-append x a b)

pub count-remove_first : (x cn : ℕ) (l : List ℕ) → count x (remove_first cn l) ≡ count x l - is x cn
unfolding count remove_first
count-remove_first x cn [] = ground arith
count-remove_first x cn (c ∷ l) = ground (arith, count-remove_first x cn l)

-- The connections of a list have been closed, each once more than before, and taken off those of the pool.
abbrev pub Dropped : List ℕ → ConnPool → List ℕ → List ℕ → Type 0
Dropped l p dropped conns =
    (x : ℕ)
    → (count x dropped ≡ count x p.dropped + count x l)
      × (count x conns ≡ count x p.conns - count x l)

pub nothing-Dropped : (p : ConnPool) → Dropped [] p p.dropped p.conns
unfolding count
nothing-Dropped p x = (omega arith, omega arith)

pub remove-Dropped :
    (p : ConnPool) (cn : ℕ) (l dropped conns : List ℕ)
    → Dropped l (remove p cn) dropped conns
    → Dropped (l ++ cn ∷ []) p dropped conns × Dropped (cn ∷ l) p dropped conns
unfolding remove count
remove-Dropped p cn l dropped conns h = (
  λ x. (
    omega (arith, (h x).0, count-append x l (cn ∷ [])),
    omega (arith, (h x).1, count-append x l (cn ∷ []), count-remove_first x cn p.conns),
  ),
  λ x. (omega (arith, (h x).0), omega (arith, (h x).1, count-remove_first x cn p.conns)),
)

abbrev SplitsTo : List ℕ → Option (ℕ × List ℕ) → Type 0
SplitsTo xs none = xs ≡ []
SplitsTo xs (some (y, ys)) = xs ≡ ys ++ y ∷ []

split_last-SplitsTo : (xs : List ℕ) → SplitsTo xs (split_last xs)
unfolding split_last
split_last-SplitsTo [] = refl
split_last-SplitsTo (x ∷ xs) = after (split_last xs) (split_last-SplitsTo xs)
  where
    after :
        (o : Option (ℕ × List ℕ))
        → SplitsTo xs o
        → SplitsTo (x ∷ xs) (elim o [ none ↦ some (x, []) | some (y, ys) ↦ some (y, x ∷ ys) ])
    after none e = ap (◌∷◌ x) e
    after (some (y, ys)) e = ap (◌∷◌ x) e

-- What `popFree` takes: the last free connection, and nothing else changes.
pub pop_free-some :
    (p q : ConnPool) (cn : ℕ)
    → pop_free p ≡ some (cn, q)
    → (p.free_conns ≡ q.free_conns ++ cn ∷ []) × (q ≡ record p { free_conns = q.free_conns })
unfolding pop_free
pop_free-some p q cn e = after (split_last p.free_conns) (split_last-SplitsTo p.free_conns) e
  where
    after :
        (o : Option (ℕ × List ℕ))
        → SplitsTo p.free_conns o
        → take_split p o ≡ some (cn, q)
        → (p.free_conns ≡ q.free_conns ++ cn ∷ []) × (q ≡ record p { free_conns = q.free_conns })
    after none s e = cc
    after (some (c, rest)) s e = (ground arith, ground arith)

pub pop_free-none : (p : ConnPool) → pop_free p ≡ none → p.free_conns ≡ []
unfolding pop_free
pop_free-none p e = after (split_last p.free_conns) (split_last-SplitsTo p.free_conns) e
  where
    after :
        (o : Option (ℕ × List ℕ))
        → SplitsTo p.free_conns o
        → take_split p o ≡ none
        → p.free_conns ≡ []
    after none s e = s
    after (some (c, rest)) s e = cc

abbrev pub Reaped : ConnPool → ConnPool → Type 0
Reaped p q =
    (q ≡ p)
    ⊎ ((cn : ℕ) × (rest : List ℕ) × (p.free_conns ≡ cn ∷ rest)
        × (q ≡ record (remove p cn) { free_conns = rest }))

-- A round of the reaper removes the oldest free connection, or nothing.
pub reap_stale_conn-Reaped :
    (p q : ConnPool) (now : ℕ) (info : ℕ → ConnInfo) (b : Bool)
    → reap_stale_conn p now info ≡ (b, q)
    → Reaped p q
unfolding reap_stale_conn
reap_stale_conn-Reaped p q now info b e = after p.free_conns refl e
  where
    after : (l : List ℕ) → p.free_conns ≡ l → reap_oldest p now info l ≡ (b, q) → Reaped p q
    after [] s e = inl (ground arith)
    after (cn ∷ rest) s e = elim (Bool-cases (is_stale_conn p.opt now (info cn))) [
      | inl stale ↦ inr (cn, rest, s, ground arith)
      | inr kept ↦ inl (ground arith)
    ]

abbrev pub ReapCounts : ConnPool → ConnPool → ℕ → Type 0
ReapCounts p q x =
    (d : ℕ) × (count x p.free_conns ≡ d + count x q.free_conns)
    × (count x q.conns ≡ count x p.conns - d)
    × (q.closed ≡ p.closed)

-- The reaper takes a connection out of both lists.
pub reap_counts :
    (p q : ConnPool) (now : ℕ) (info : ℕ → ConnInfo) (b : Bool) (x : ℕ)
    → reap_stale_conn p now info ≡ (b, q)
    → ReapCounts p q x
reap_counts p q now info b x e = after (reap_stale_conn-Reaped p q now info b e)
  where
    after : Reaped p q → ReapCounts p q x
    after (inl e') = rw e' (0, omega arith, omega arith, refl)
    after (inr (cn, rest, f, e')) = rw e' (
      is x cn,
      rw f (unfold count in refl),
      unfold remove in count-remove_first x cn p.conns,
      unfold remove in refl,
    )
