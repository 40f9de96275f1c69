-- ===== src/Net/Laws.antt =====
-- What the reading primitives consume. `Bounded m` says that `m` leaves no more bytes than it finds
-- and runs out of no fuel; `shrinking` is the set of its rules.
use go_pg.Base.{
  ℕ, zero, suc, ◌≤◌, ◌<◌, Bool, true, false, Option, none, some, [], ◌∷◌, Bytes, length, ◌==◌,
  if◌then◌else◌, arith, length-drop,
}
use go_pg.Base.Int.{ℤ, pos, negsuc}
use go_pg.Errors.{Error}
use go_pg.Net.{
  Conn, Outcome, ok, err, panic, no_fuel, M, pure, fail, and_then, ◌>>=◌, ◌>>◌, read_n, read_byte,
  cut_zero, read_until_zero, flush_writer, or_panic, push_front,
}
use go_pg.Net.Loop.{Step, more, done, rounds, for_ever}

abbrev pub Shorter : {A : Type 0} → Conn → Outcome A → Type 0
Shorter c (ok a d) = length d.rd ≤ length c.rd
Shorter c (err e d) = Unit
Shorter c panic = Unit
Shorter c no_fuel = ⊥

pub record Bounded {A : Type 0} (m : M A) : Type 0 where
  pub apply : (c : Conn) → Shorter c (m c)

-- `Eats m` says so too, and that `m` consumes a byte when it succeeds.
abbrev pub Strict : {A : Type 0} → Conn → Outcome A → Type 0
Strict c (ok a d) = length d.rd < length c.rd
Strict c (err e d) = Unit
Strict c panic = Unit
Strict c no_fuel = ⊥

pub record Eats {A : Type 0} (m : M A) : Type 0 where
  pub apply : (c : Conn) → Strict c (m c)

and_then-Shorter :
    {A B : Type 0} (c : Conn) (o : Outcome A) (f : A → M B)
    → Shorter c o
    → ((a : A) (d : Conn) → Shorter d (f a d))
    → Shorter c (and_then o f)
and_then-Shorter {B = B} c (ok a d) f h k = widen (f a d) (k a d)
  where
    widen : (o : Outcome B) → Shorter d o → Shorter c o
    widen (ok b e) s = omega arith
    widen (err x e) s = tt
    widen panic s = tt
    widen no_fuel s = s
and_then-Shorter c (err e d) f h k = tt
and_then-Shorter c panic f h k = tt
and_then-Shorter c no_fuel f h k = h

module _ {A B : Type 0} where
  pub >>=-Bounded :
      {m : M A} {f : A → M B} → Bounded m → ((a : A) → Bounded (f a)) → Bounded (m >>= f)
  unfolding ◌>>=◌
  >>=-Bounded {m} {f} h k = record {
    apply = λ c. and_then-Shorter c (m c) f (h.apply c) (λ a. (k a).apply);
  }

  pub >>-Bounded : {m : M A} {n : M B} → Bounded m → Bounded n → Bounded (m >> n)
  unfolding ◌>>◌
  >>-Bounded {m} {n} h k = record {
    apply = λ c. and_then-Shorter c (m c) (λ _. n) (h.apply c) (λ _. k.apply);
  }

and_then-Strict :
    {A B : Type 0} (c : Conn) (o : Outcome A) (f : A → M B)
    → Strict c o
    → ((a : A) (d : Conn) → Shorter d (f a d))
    → Strict c (and_then o f)
and_then-Strict {B = B} c (ok a d) f h k = widen (f a d) (k a d)
  where
    widen : (o : Outcome B) → Shorter d o → Strict c o
    widen (ok b e) s = omega arith
    widen (err x e) s = tt
    widen panic s = tt
    widen no_fuel s = s
and_then-Strict c (err e d) f h k = tt
and_then-Strict c panic f h k = tt
and_then-Strict c no_fuel f h k = h

module _ {A B : Type 0} where
  pub >>=-Eats : {m : M A} {f : A → M B} → Eats m → ((a : A) → Bounded (f a)) → Eats (m >>= f)
  unfolding ◌>>=◌
  >>=-Eats {m} {f} h k = record {
    apply = λ c. and_then-Strict c (m c) f (h.apply c) (λ a. (k a).apply);
  }

pub Eats-Bounded : {A : Type 0} {m : M A} → Eats m → Bounded m
Eats-Bounded {A} {m} h = record { apply = λ c. weaken c (m c) (h.apply c) }
  where
    weaken : (c : Conn) (o : Outcome A) → Strict c o → Shorter c o
    weaken c (ok a d) s = omega arith
    weaken c (err e d) s = tt
    weaken c panic s = tt
    weaken c no_fuel s = s

-- A loop whose every round consumes a byte comes to an end.
module _ {S R : Type 0} {body : S → M (Step S R)} (progress : (s : S) → Eats (body s)) where
  rounds-Shorter :
      (fuel : ℕ) (s : S) (c : Conn) → length c.rd < fuel → Shorter c (rounds body fuel s c)
  unfolding rounds
  rounds-Shorter zero s c h = absurd (omega arith)
  rounds-Shorter (suc fuel) s c h =
      after (body s c) ((progress s).apply c) (λ s' d. rounds-Shorter fuel s' d)
    where
      widen : (d : Conn) → length d.rd < length c.rd → (o : Outcome R) → Shorter d o → Shorter c o
      widen d l (ok b e) s = omega arith
      widen d l (err x e) s = tt
      widen d l panic s = tt
      widen d l no_fuel s = s

      after :
          (o : Outcome (Step S R))
          → Strict c o
          → ((s' : S) (d : Conn) → length d.rd < fuel → Shorter d (rounds body fuel s' d))
          → Shorter c (and_then o (λ r. elim r [ more s' ↦ rounds body fuel s' | done x ↦ ok x ]))
      after (ok (more s') d) k rec = widen d k (rounds body fuel s' d) (rec s' d (omega arith))
      after (ok (done x) d) k rec = omega arith
      after (err e d) k rec = tt
      after panic k rec = tt
      after no_fuel k rec = k

  pub for_ever-Bounded : (s : S) → Bounded (for_ever body s)
  unfolding for_ever
  for_ever-Bounded s = record { apply = λ c. rounds-Shorter (suc (length c.rd)) s c (omega arith) }

module _ {A : Type 0} where
  pub if-Bounded : (b : Bool) {m n : M A} → Bounded m → Bounded n → Bounded (if b then m else n)
  if-Bounded true h k = h
  if-Bounded false h k = k

  pub pure-Bounded : (a : A) → Bounded (pure a)
  unfolding pure
  pure-Bounded a = record { apply = λ c. omega arith }

  pub fail-Bounded : (e : Error) → Bounded (fail {A = A} e)
  unfolding fail
  fail-Bounded e = record { apply = λ c. tt }

  pub or_panic-Bounded : (o : Option A) → Bounded (or_panic o)
  unfolding or_panic
  or_panic-Bounded none = record { apply = λ c. tt }
  or_panic-Bounded (some a) = record { apply = λ c. omega arith }

pub read_n-Bounded : (n : ℤ) → Bounded (read_n n)
unfolding read_n
read_n-Bounded (pos n) = record { apply = λ c. ground (arith, length-drop {0} n c.rd) }
read_n-Bounded (negsuc n) = record { apply = λ c. tt }

pub read_byte-Eats : Eats read_byte
unfolding read_byte
read_byte-Eats = record { apply = λ c. ground arith }

pub read_byte-Bounded : Bounded read_byte
read_byte-Bounded = Eats-Bounded read_byte-Eats

abbrev Cuts : Bytes → Option (Bytes × Bytes) → Type 0
Cuts b none = Unit
Cuts b (some (s, rest)) = length rest < length b

push_front-Cuts :
    (x : ℕ) (b : Bytes) (o : Option (Bytes × Bytes)) → Cuts b o → Cuts (x ∷ b) (push_front x o)
push_front-Cuts x b none h = tt
push_front-Cuts x b (some (s, rest)) h = omega arith

cut_zero-Cuts : (b : Bytes) → Cuts b (cut_zero b)
unfolding cut_zero
cut_zero-Cuts [] = tt
cut_zero-Cuts (x ∷ b) =
    elim (x == 0) as (λ t. Cuts (x ∷ b) (if t then some ([], b) else push_front x (cut_zero b))) [
      | true ↦ omega arith
      | false ↦ push_front-Cuts x b (cut_zero b) (cut_zero-Cuts b)
    ]

pub read_until_zero-Bounded : Bounded read_until_zero
unfolding read_until_zero
read_until_zero-Bounded = record { apply = λ c. after c (cut_zero c.rd) (cut_zero-Cuts c.rd) }
  where
    after :
        (c : Conn) (o : Option (Bytes × Bytes))
        → Cuts c.rd o
        → Shorter c (elim o [
          | none ↦ err c.rd_end (record c { rd = [] })
          | some (s, rest) ↦ ok s (record c { rd = rest })
        ])
    after c none h = tt
    after c (some (s, rest)) h = omega arith

pub flush_writer-Bounded : Bounded flush_writer
unfolding flush_writer
flush_writer-Bounded = record { apply = λ c. ground arith }

pub ruleset shrinking = (
  >>=-Bounded, >>-Bounded, if-Bounded, pure-Bounded, fail-Bounded, or_panic-Bounded, read_n-Bounded,
  read_byte-Bounded, read_until_zero-Bounded, flush_writer-Bounded,
)
