-- ===== src/Types/Result.antt =====
-- types/result.go, and the part of strconv that it uses. The tag of a command ends in the number of
-- rows that it touched: `INSERT 0 5`, with a 0 byte behind.
use go_pg.Base.{
  ℕ, ◌+◌, ◌-◌, ◌*◌, ◌^◌, Bool, true, false, ◌&&◌, Option, none, some, [], ◌∷◌, Bytes, leb, ltb,
  ◌==◌, if◌then◌else◌,
}
use go_pg.Base.Int.{ℤ, pos, negsuc, sub_ℕ}

unfoldable pub is_digit : ℕ → Bool
is_digit c = leb b'0' c && leb c b'9'

-- The value of a run of decimal digits read after `acc`.
unfoldable pub digits_value : ℕ → Bytes → Option ℕ
unfolding is_digit
digits_value acc [] = some acc
digits_value acc (c ∷ cs) =
    let rest = digits_value (acc * 10 + (c - b'0')) cs in if is_digit c then rest else none

abbrev pub in_range : Bool → ℕ → Option ℤ
in_range negative n =
    if negative
    then (if leb n (2 ^ 63) then some (sub_ℕ 0 n) else none)
    else (if ltb n (2 ^ 63) then some (pos n) else none)

abbrev pub parse_digits : Bool → Bytes → Option ℤ
parse_digits negative [] = none
parse_digits negative (c ∷ cs) = elim (digits_value 0 (c ∷ cs)) [
  | none ↦ none
  | some n ↦ in_range negative n
]

-- `strconv.Atoi`, and `ParseInt(s, 10, 64)`; any error is `none`.
unfoldable pub atoi : Bytes → Option ℤ
unfolding digits_value
atoi [] = none
atoi (c ∷ cs) =
    if c == b'-'
    then parse_digits true cs
    else if c == b'+'
    then parse_digits false cs
    else parse_digits false (c ∷ cs)

pub record PgResult : Type 0 where
  pub affected : ℤ
  pub returned : ℕ

-- The bytes behind the last space: `b[bytes.LastIndexByte(b, ' ') + 1:]`.
unfoldable pub after_last_space : Bytes → Option Bytes
after_last_space [] = none
after_last_space (c ∷ cs) = elim (after_last_space cs) [
  | some rest ↦ some rest
  | none ↦ if c == b' ' then some cs else none
]

-- All but the last byte; there is none to drop where the slice expression panics.
unfoldable pub but_last : Bytes → Option Bytes
but_last [] = none
but_last (c ∷ []) = some []
but_last (c ∷ d ∷ ds) = elim (but_last (d ∷ ds)) [ none ↦ none | some r ↦ some (c ∷ r) ]

abbrev affected_of : Option ℤ → ℤ
affected_of none = negsuc 0
affected_of (some n) = n

-- `NewResult`; `none` is the panic on a tag that ends in a space.
unfoldable pub new_result : Bytes → ℕ → Option PgResult
unfolding after_last_space but_last atoi
new_result b returned = elim (after_last_space b) [
  | none ↦ some (record { affected = negsuc 0; returned = returned })
  | some rest ↦ elim (but_last rest) [
    | none ↦ none
    | some s ↦ some (record { affected = affected_of (atoi s); returned = returned })
  ]
]
