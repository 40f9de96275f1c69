-- ===== src/Orm/Tags/Split.antt =====
-- orm/tag.go: the options of a tag, as a list.
use go_pg.Base.{
  ℕ, zero, suc, ◌≡◌, refl, Option, none, some, List, [], ◌∷◌, ◌++◌, Bytes, length, ◌==◌, ◌≤◌, arith,
  false, length-append, ◌∙◌, ap,
}
use go_pg.Orm.Tags.{cut_comma, after_prefix, rest_of, get_rounds, get}

-- A text without a comma.
abbrev pub NoComma : Bytes → Type 0
NoComma [] = Unit {0}
NoComma (c ∷ s) = ((c == b',') ≡ false) × NoComma s

abbrev pub AllOptions : List Bytes → Type 0
AllOptions [] = Unit {0}
AllOptions (o ∷ os) = NoComma o × AllOptions os

-- The options as a tag lists them.
abbrev pub joined : List Bytes → Bytes
joined [] = []
joined (o ∷ []) = o
joined (o ∷ p ∷ os) = o ++ b',' ∷ joined (p ∷ os)

-- The value of the first option that begins with the name.
abbrev pub first_with : Bytes → List Bytes → Option Bytes
first_with name [] = none
first_with name (o ∷ os) = elim (after_prefix name o) [
  | some value ↦ some value
  | none ↦ first_with name os
]

cut_comma-last : (o : Bytes) → NoComma o → cut_comma o ≡ (o, none)
unfolding cut_comma
cut_comma-last [] h = refl
cut_comma-last (c ∷ o) h = rw (h.0, cut_comma-last o h.1) refl

cut_comma-found : (o s : Bytes) → NoComma o → cut_comma (o ++ b',' ∷ s) ≡ (o, some s)
unfolding cut_comma
cut_comma-found [] s h = refl
cut_comma-found (c ∷ o) s h = rw (h.0, cut_comma-found o s h.1) refl

-- A round of the loop at a text of which the option and what follows it are known.
round_cut :
    (fuel : ℕ) (name s o : Bytes) (r : Option Bytes)
    → 1 ≤ length s
    → cut_comma s ≡ (o, r)
    → get_rounds (suc fuel) name s ≡ elim (after_prefix name o) [
      | some value ↦ some value
      | none ↦ get_rounds fuel name (rest_of r)
    ]
round_cut fuel name [] o r l e = absurd (omega arith)
round_cut fuel name (c ∷ s) o r l e =
    unfold get_rounds in
    ap
      (λ (p : Bytes × Option Bytes). elim (after_prefix name (p.0)) [
        | some value ↦ some value
        | none ↦ get_rounds fuel name (rest_of (p.1))
      ])
      e

get_rounds-nothing : (fuel : ℕ) (name : Bytes) → get_rounds fuel name [] ≡ none
unfolding get_rounds
get_rounds-nothing fuel name = refl

-- The round at the last option.
round_last :
    (fuel n : ℕ) (name o : Bytes)
    → NoComma o
    → length o ≤ fuel
    → get_rounds fuel (n ∷ name) o ≡ first_with (n ∷ name) (o ∷ [])
round_last fuel n name [] h l = unfold get_rounds after_prefix in refl
round_last zero n name (c ∷ o) h l = absurd (omega arith)
round_last (suc fuel) n name (c ∷ o) h l =
    round_cut fuel (n ∷ name) (c ∷ o) (c ∷ o) none (omega arith) (cut_comma-last (c ∷ o) h)
    ∙ ap
        (λ (r : Option Bytes). elim (after_prefix (n ∷ name) (c ∷ o)) [
          | some value ↦ some value
          | none ↦ r
        ])
        (get_rounds-nothing fuel (n ∷ name))

get_rounds-first_with :
    (fuel n : ℕ) (name : Bytes) (os : List Bytes)
    → AllOptions os
    → length (joined os) ≤ fuel
    → get_rounds fuel (n ∷ name) (joined os) ≡ first_with (n ∷ name) os
get_rounds-first_with fuel n name [] h l = unfold get_rounds in refl
get_rounds-first_with fuel n name (o ∷ []) h l = round_last fuel n name o h.0 l
get_rounds-first_with zero n name (o ∷ p ∷ os) h l =
    absurd (omega (arith, length-append {0} o (b',' ∷ joined (p ∷ os))))
get_rounds-first_with (suc fuel) n name (o ∷ p ∷ os) h l =
    round_cut fuel (n ∷ name) (o ++ b',' ∷ joined (p ∷ os)) o (some (joined (p ∷ os)))
      (omega (arith, length-append {0} o (b',' ∷ joined (p ∷ os))))
      (cut_comma-found o (joined (p ∷ os)) h.0)
    ∙ ap
        (λ (r : Option Bytes). elim (after_prefix (n ∷ name) o) [
          | some value ↦ some value
          | none ↦ r
        ])
        (get_rounds-first_with fuel n name (p ∷ os) h.1
          (omega (arith, l, length-append {0} o (b',' ∷ joined (p ∷ os)))))

-- On options without commas, listed with commas between them, Get returns for a name that is not empty what
-- stands behind that name in the first option that begins with it, and nothing when none does: an option
-- is taken for a shorter one with which it begins.
pub get-first_with :
    (n : ℕ) (name : Bytes) (os : List Bytes)
    → AllOptions os
    → get (joined os) (n ∷ name) ≡ first_with (n ∷ name) os
unfolding get
get-first_with n name os h = get_rounds-first_with (length (joined os)) n name os h (omega arith)
