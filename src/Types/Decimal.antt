-- ===== src/Types/Decimal.antt =====
-- Decimal numbers as `strconv.AppendInt` writes them and `strconv.Atoi` reads them.
use go_pg.Base.{
  ℕ, zero, suc, ◌+◌, ◌/◌, ◌%◌, ◌^◌, ◌<◌, ◌≡◌, refl, ◌∙◌, Bool, true, false, some, [], ◌∷◌, Bytes,
  arith, ltb, Bool-cases, inl, inr,
}
use go_pg.Base.Int.{ℤ, pos, negsuc}
use go_pg.Types.Append.{decimal_onto, decimal, append_int}
use go_pg.Types.Result.{is_digit, digits_value, atoi, parse_digits, in_range}

digits_value-decimal_onto :
    (f n : ℕ) (acc : Bytes) → n < f → digits_value 0 (decimal_onto f n acc) ≡ digits_value n acc
unfolding digits_value decimal_onto is_digit
digits_value-decimal_onto zero n acc h = absurd (omega (arith, h))
digits_value-decimal_onto (suc f) n acc h =
    ground (arith, h, digits_value-decimal_onto f (n / 10) ((b'0' + n % 10) ∷ acc))

-- A text that begins with a digit.
abbrev pub Digital : Bytes → Type 0
Digital [] = ⊥
Digital (c ∷ s) = is_digit c ≡ true

decimal_onto-Digital : (f n : ℕ) (acc : Bytes) → n < f → Digital (decimal_onto f n acc)
unfolding decimal_onto is_digit
decimal_onto-Digital zero n acc h = absurd (omega (arith, h))
decimal_onto-Digital (suc f) n acc h = elim (Bool-cases (ltb n 10)) [
  | inl e ↦ rw e (ground (arith, e))
  | inr e ↦ rw e (decimal_onto-Digital f (n / 10) ((b'0' + n % 10) ∷ acc) (ground (arith, e, h)))
]

pub digits_value-decimal : (n : ℕ) → digits_value 0 (decimal n) ≡ some n
unfolding decimal digits_value
digits_value-decimal n = digits_value-decimal_onto (suc n) n [] (omega arith)

pub decimal-Digital : (n : ℕ) → Digital (decimal n)
unfolding decimal
decimal-Digital n = decimal_onto-Digital (suc n) n [] (omega arith)

parse_digits-Digital :
    (negative : Bool) (s : Bytes) (n : ℕ)
    → Digital s
    → digits_value 0 s ≡ some n
    → parse_digits negative s ≡ in_range negative n
parse_digits-Digital negative [] n d h = absurd d
parse_digits-Digital negative (c ∷ s) n d h = rw (parse_digits, h) refl

atoi-Digital : (s : Bytes) → Digital s → atoi s ≡ parse_digits false s
unfolding atoi is_digit
atoi-Digital [] d = absurd d
atoi-Digital (c ∷ s) d = ground (arith, d)

-- A number as Go's `int` holds it.
abbrev pub IsInt : ℤ → Type 0
IsInt (pos n) = n < 2 ^ 63
IsInt (negsuc n) = n < 2 ^ 63

-- Every 64-bit number is read back from what `strconv.AppendInt` writes.
pub atoi-append_int : (n : ℤ) → IsInt n → atoi (append_int [] n) ≡ some n
unfolding append_int atoi
atoi-append_int (pos n) h =
    atoi-Digital (decimal n) (decimal-Digital n)
    ∙ parse_digits-Digital false (decimal n) n (decimal-Digital n) (digits_value-decimal n)
    ∙ ground (arith, h)
atoi-append_int (negsuc n) h =
    parse_digits-Digital true (decimal (suc n)) (suc n) (decimal-Digital (suc n))
      (digits_value-decimal (suc n))
    ∙ ground (arith, h)
