-- ===== src/Parser.antt =====
-- internal/parser/parser.go: a parser is the bytes that it has not read yet. `Advance` on no bytes
-- panics in the source; every caller below has looked at a byte first.
pub mod Array
pub mod Hstore
pub mod Escape
pub mod RoundTrip
pub mod HstoreTrip
pub mod IntTrip
pub mod Tests
use go_pg.Base.{
  ℕ, zero, suc, ◌+◌, Bool, true, false, ◌&&◌, ◌||◌, not, Option, none, some, List, [], ◌∷◌, ◌++◌,
  Bytes, length, take, drop, equal, leb, ◌==◌, if◌then◌else◌,
}
use go_pg.Types.Result.{is_digit, atoi}
use go_pg.Base.Int.{ℤ, pos}

abbrev pub valid : Bytes → Bool
valid [] = false
valid (c ∷ cs) = true

abbrev pub peek : Bytes → ℕ
peek [] = 0
peek (c ∷ cs) = c

abbrev pub advance : Bytes → Bytes
advance [] = []
advance (c ∷ cs) = cs

-- Callers pass a byte that is not 0.
unfoldable pub skip : ℕ → Bytes → Bool × Bytes
skip c b = if peek b == c then (true, advance b) else (false, b)

unfoldable pub skip_bytes : Bytes → Bytes → Bool × Bytes
skip_bytes s b =
    if leb (length s) (length b) && equal (take (length s) b) s
    then (true, drop (length s) b)
    else (false, b)

-- The bytes before a separator, those behind it, and whether there was one.
pub record Cut : Type 0 where
  pub before : Bytes
  pub rest : Bytes
  pub found : Bool

abbrev pub cut_front : ℕ → Cut → Cut
cut_front x k = record k { before = x ∷ k.before }

unfoldable pub read_sep : ℕ → Bytes → Cut
read_sep c [] = record { before = []; rest = []; found = false }
read_sep c (x ∷ b) =
    if x == c then record { before = []; rest = b; found = true } else cut_front x (read_sep c b)

abbrev pub is_alpha : ℕ → Bool
is_alpha c = (leb b'a' c && leb c b'z') || (leb b'A' c && leb c b'Z')

-- The longest front of letters, digits and `_`; the flag is whether it holds only digits.
unfoldable pub read_word : Bytes → Bytes × Bool × Bytes
read_word [] = ([], true, [])
read_word (c ∷ b) =
    let r = read_word b in
    if is_digit c
    then (c ∷ r.0, r.1, r.2)
    else if is_alpha c || c == b'_'
    then (c ∷ r.0, false, r.2)
    else ([], true, c ∷ b)

-- The flag is false when there is no identifier.
unfoldable pub read_identifier : Bytes → Bytes × Bool × Bytes
unfolding read_word
read_identifier b = let r = read_word b in (r.0, valid (r.0) && r.1, r.2)

unfoldable pub read_digits : Bytes → Bytes × Bytes
read_digits [] = ([], [])
read_digits (c ∷ b) = let r = read_digits b in if is_digit c then (c ∷ r.0, r.1) else ([], c ∷ b)

-- What `readSubstring` has read, and the rest. The source's slice is nil when it has read no byte.
abbrev pub Substring : Type 0
Substring = Bytes × Bytes

-- `readSubstring`, with what was read so far: up to a double quote or the end of the text. A backslash
-- escapes itself and a double quote, and a single quote escapes itself.
unfoldable pub read_substring_onto : Bytes → Bytes → Substring
read_substring_onto acc [] = (acc, [])
read_substring_onto acc (c ∷ []) = if c == b'"' then (acc, []) else (acc ++ c ∷ [], [])
read_substring_onto acc (c ∷ d ∷ b) =
    let pair = read_substring_onto (acc ++ d ∷ []) b in
    let single = read_substring_onto (acc ++ c ∷ []) (d ∷ b) in
    if c == b'\\'
    then (if d == b'\\' || d == b'"' then pair else single)
    else if c == b'\''
    then (if d == b'\'' then pair else single)
    else if c == b'"'
    then (acc, d ∷ b)
    else single

unfoldable pub read_substring : Bytes → Substring
unfolding read_substring_onto
read_substring b = read_substring_onto [] b
