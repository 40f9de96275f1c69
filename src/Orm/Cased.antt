-- ===== src/Orm/Cased.antt =====
-- What internal/underscore.go makes of the letters of a name.
use go_pg.Base.{ℕ, ◌≡◌, refl, Bool, true, false, ◌||◌, [], ◌∷◌, ◌++◌, Bytes, arith, if◌then◌else◌}
use go_pg.Orm.Names.{is_upper, is_lower, to_lower, cased, underscore_after, underscore}

-- No upper case letter of ASCII.
abbrev pub NoUpper : Bytes → Type 0
NoUpper [] = Unit
NoUpper (c ∷ s) = (is_upper c ≡ false) × NoUpper s

NoUpper-append : (s t : Bytes) → NoUpper s → NoUpper t → NoUpper (s ++ t)
NoUpper-append [] t h g = g
NoUpper-append (c ∷ s) t h g = (h.0, NoUpper-append s t h.1 g)

if-NoUpper :
    (b : Bool) (s t : Bytes)
    → (b ≡ true → NoUpper s)
    → (b ≡ false → NoUpper t)
    → NoUpper (if b then s else t)
if-NoUpper true s t h g = h refl
if-NoUpper false s t h g = g refl

to_lower-is_upper : (c : ℕ) → is_upper c ≡ true → is_upper (to_lower c) ≡ false
to_lower-is_upper c h = ground (arith, h)

cased-NoUpper : (p c : ℕ) (s : Bytes) → NoUpper (cased p c s)
cased-NoUpper p c [] =
    if-NoUpper (is_upper c) (to_lower c ∷ []) (c ∷ []) (λ e. (to_lower-is_upper c e, tt))
      (λ e. (e, tt))
cased-NoUpper p c (d ∷ s) =
    if-NoUpper (is_upper c) _ (c ∷ [])
      (λ e.
        if-NoUpper (is_lower p || is_lower d) (b'_' ∷ to_lower c ∷ []) (to_lower c ∷ [])
          (λ g. (ground arith, (to_lower-is_upper c e, tt))) (λ g. (to_lower-is_upper c e, tt)))
      (λ e. (e, tt))

underscore_after-NoUpper : (p : ℕ) (s : Bytes) → NoUpper (underscore_after p s)
unfolding underscore_after
underscore_after-NoUpper p [] = tt
underscore_after-NoUpper p (c ∷ s) =
    NoUpper-append (cased p c s) (underscore_after c s) (cased-NoUpper p c s)
      (underscore_after-NoUpper c s)

if-lower : (c : ℕ) → is_upper (if is_upper c then to_lower c else c) ≡ false
if-lower c = ground arith

-- The name of a column or table that Underscore makes has no upper case letter.
underscore-NoUpper : (s : Bytes) → NoUpper (underscore s)
unfolding underscore
underscore-NoUpper [] = tt
underscore-NoUpper (c ∷ s) = (if-lower c, underscore_after-NoUpper c s)
