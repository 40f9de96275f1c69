-- ===== src/Types/Jsonb.antt =====
-- types/append_jsonb.go: a JSON text as a value of type jsonb. The bytes that the parser has not
-- read yet stand as a list, and every turn of the loop reads at least one of them, so that as many
-- rounds as there are bytes are enough.
pub mod Quoted
use go_pg.Base.{
  ℕ, zero, suc, ◌≤◌, ◌≡◌, refl, [], ◌∷◌, ◌++◌, Bytes, codes, length, drop, ◌==◌, equal,
  if◌then◌else◌, arith,
}
use go_pg.Parser.{advance, skip_bytes}
use go_pg.Types.Append.{query_mark}

-- What is appended for a byte that is no backslash.
unfoldable jsonb_byte : ℕ → ℕ → Bytes
jsonb_byte quote c =
    if c == b'\''
    then (if quote == 1 then b'\'' ∷ b'\'' ∷ [] else b'\'' ∷ [])
    else if c == 0
    then []
    else c ∷ []

-- The byte behind a backslash, read and copied when there is one.
abbrev first : Bytes → Bytes
first [] = []
first (c ∷ p) = c ∷ []

-- The case of a backslash: what is appended, and the bytes that are left.
unfoldable jsonb_backslash : Bytes → Bytes × Bytes
unfolding skip_bytes equal
jsonb_backslash p =
    let r = skip_bytes (codes "u0000") p in
    if r.0 then (codes "\\\\u0000", r.1) else (b'\\' ∷ first p, advance p)

unfoldable jsonb_loop : ℕ → ℕ → Bytes → Bytes → Bytes
unfolding jsonb_byte jsonb_backslash
jsonb_loop zero quote b p = b
jsonb_loop (suc f) quote b [] = b
jsonb_loop (suc f) quote b (c ∷ p) =
    let escaped = jsonb_loop f quote (b ++ (jsonb_backslash p).0) ((jsonb_backslash p).1) in
    let plain = jsonb_loop f quote (b ++ jsonb_byte quote c) p in
    if c == b'\\' then escaped else plain

unfoldable pub append_jsonb : Bytes → Bytes → ℕ → Bytes
unfolding jsonb_loop
append_jsonb b jsonb quote =
    jsonb_loop (length jsonb) quote (b ++ query_mark quote) jsonb ++ query_mark quote

length-drop : (n : ℕ) (p : Bytes) → length (drop n p) ≤ length p
length-drop zero p = omega arith
length-drop (suc n) [] = omega arith
length-drop (suc n) (c ∷ p) = ground (arith, length-drop n p)

jsonb_backslash-rest : (p : Bytes) → length ((jsonb_backslash p).1) ≤ length p
unfolding jsonb_backslash skip_bytes
jsonb_backslash-rest [] = omega arith
jsonb_backslash-rest (c ∷ p) = ground (arith, length-drop 5 (c ∷ p))

-- More rounds than there are bytes change nothing.
jsonb_loop-enough :
    (f g quote : ℕ) (b p : Bytes)
    → length p ≤ f
    → length p ≤ g
    → jsonb_loop f quote b p ≡ jsonb_loop g quote b p
unfolding jsonb_loop
jsonb_loop-enough zero zero quote b p m n = refl
jsonb_loop-enough zero (suc g) quote b [] m n = refl
jsonb_loop-enough zero (suc g) quote b (c ∷ p) m n = absurd (omega arith)
jsonb_loop-enough (suc f) zero quote b [] m n = refl
jsonb_loop-enough (suc f) zero quote b (c ∷ p) m n = absurd (omega arith)
jsonb_loop-enough (suc f) (suc g) quote b [] m n = refl
jsonb_loop-enough (suc f) (suc g) quote b (c ∷ p) m n =
    rw
      (
        jsonb_loop-enough f g quote (b ++ (jsonb_backslash p).0) ((jsonb_backslash p).1)
            (ground (arith, jsonb_backslash-rest p)) (ground (arith, jsonb_backslash-rest p)),
        jsonb_loop-enough f g quote (b ++ jsonb_byte quote c) p (omega arith) (omega arith),
      )
      refl
