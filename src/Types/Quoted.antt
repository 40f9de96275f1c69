-- ===== src/Types/Quoted.antt =====
-- types/append_field.go on a name of one part: the identifier between double quotes.
use go_pg.Base.{
  ℕ, not, ◌&&◌, sym, ◌≡◌, refl, ap, ◌∙◌, Bool, true, false, [], ◌∷◌, ◌++◌, Bytes, append_assoc,
  append-nil, ◌==◌, if◌then◌else◌, Bool-cases, inl, inr,
}
use go_pg.Types.Field.{field_mark, doubled, append_field_from, append_field}

-- A text without a dot.
abbrev pub NoDot : Bytes → Type 0
NoDot [] = Unit {0}
NoDot (c ∷ s) = ((c == b'.') ≡ false) × NoDot s

-- A name of one part that is no `*`.
abbrev pub OnePart : Bytes → Type 0
OnePart [] = ⊥
OnePart (c ∷ s) = ((c == b'*') ≡ false) × NoDot (c ∷ s)

abbrev pub twice_quotes : Bytes → Bytes
twice_quotes [] = []
twice_quotes (c ∷ s) = if c == b'"' then b'"' ∷ b'"' ∷ twice_quotes s else c ∷ twice_quotes s

-- The identifier in SQL: between double quotes, with the double quotes in it written twice.
abbrev pub identifier : Bytes → Bytes
identifier s = b'"' ∷ (twice_quotes s ++ b'"' ∷ [])

twice_quotes-cons : (c : ℕ) (s : Bytes) → doubled c ++ twice_quotes s ≡ twice_quotes (c ∷ s)
twice_quotes-cons c s = elim (Bool-cases (c == b'"')) [ inl e ↦ rw e refl | inr e ↦ rw e refl ]

append_field_from-plain :
    (q : Bool) (b : Bytes) (c : ℕ) (s : Bytes)
    → (c == b'.') ≡ false
    → (c == b'*' && not q) ≡ false
    → append_field_from true q b (c ∷ s)
      ≡ append_field_from true true ((b ++ field_mark (not q)) ++ doubled c) s
unfolding append_field_from
append_field_from-plain true b c [] d h = rw (h, d) refl
append_field_from-plain false b c [] d h = rw (h, d) refl
append_field_from-plain true b c (x ∷ s) d h = rw (h, d) refl
append_field_from-plain false b c (x ∷ s) d h = rw (h, d) refl

and_false : (x : Bool) → (x && false) ≡ false
and_false true = refl
and_false false = refl

and_true : (x : Bool) → (x && true) ≡ x
and_true true = refl
and_true false = refl

append_field_from-inside :
    (b s : Bytes) → NoDot s → append_field_from true true b s ≡ b ++ (twice_quotes s ++ b'"' ∷ [])
unfolding field_mark
append_field_from-inside b [] h = unfold append_field_from in refl
append_field_from-inside b (c ∷ s) h =
    append_field_from-plain true b c s h.0 (and_false (c == b'*'))
    ∙ append_field_from-inside ((b ++ []) ++ doubled c) s h.1
    ∙ ap (λ x. (x ++ doubled c) ++ (twice_quotes s ++ b'"' ∷ [])) (append-nil b)
    ∙ append_assoc b (doubled c) (twice_quotes s ++ b'"' ∷ [])
    ∙ ap (λ x. b ++ x) (sym (append_assoc (doubled c) (twice_quotes s) (b'"' ∷ [])))
    ∙ ap (λ x. b ++ (x ++ b'"' ∷ [])) (twice_quotes-cons c s)

-- A name of one part is written as that identifier.
pub append_field-identifier : (s : Bytes) → OnePart s → append_field [] s true ≡ identifier s
unfolding append_field
append_field-identifier [] h = absurd h
append_field-identifier (c ∷ s) h =
    append_field_from-plain false [] c s h.1.0 (and_true (c == b'*') ∙ h.0)
    ∙ append_field_from-inside (b'"' ∷ doubled c) s h.1.1
    ∙ ap (λ x. b'"' ∷ x)
        (sym (append_assoc (doubled c) (twice_quotes s) (b'"' ∷ []))
          ∙ ap (λ x. x ++ b'"' ∷ []) (twice_quotes-cons c s))
