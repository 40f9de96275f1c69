-- ===== src/Parser/Escape.antt =====
-- `AppendString` with quote 2 and `readSubstring` together.
use go_pg.Base.{
  ℕ, ◌≡◌, ◌≢◌, refl, sym, ap, ◌∙◌, [], ◌∷◌, ◌++◌, Bytes, arith, append_assoc, append-nil,
}
use go_pg.Message.Frames.{NoZero}
use go_pg.Types.Append.{escape_byte, escape, append_string, quote_mark}
use go_pg.Parser.{read_substring_onto, read_substring}

-- The escaped text with no accumulator.
abbrev pub escaped : Bytes → Bytes
escaped [] = []
escaped (c ∷ s) = escape_byte 2 c ++ escaped s

escape-escaped : (s b : Bytes) → escape 2 b s ≡ b ++ escaped s
unfolding escape
escape-escaped [] b = sym (append-nil b)
escape-escaped (c ∷ s) b =
    escape-escaped s (b ++ escape_byte 2 c) ∙ append_assoc b (escape_byte 2 c) (escaped s)

-- The text between double quotes that `AppendString` writes.
abbrev pub quoted : Bytes → Bytes
quoted s = b'"' ∷ (escaped s ++ b'"' ∷ [])

pub append_string-quoted : (b s : Bytes) → append_string b s 2 ≡ b ++ quoted s
unfolding append_string quote_mark
append_string-quoted b s =
    rw escape-escaped
      (rw (append_assoc b (b'"' ∷ []) (escaped s)) (append_assoc b (b'"' ∷ escaped s) (b'"' ∷ [])))

-- What stands behind an escaped text never starts like the second half of an escape.
read_substring_onto-byte :
    (acc : Bytes) (c d : ℕ) (rest : Bytes)
    → c ≢ 0
    → read_substring_onto acc (escape_byte 2 c ++ (d ∷ rest))
      ≡ read_substring_onto (acc ++ c ∷ []) (d ∷ rest)
unfolding read_substring_onto escape_byte
read_substring_onto-byte acc c d rest h = ground arith

front : (l : Bytes) (x : ℕ) (rest : Bytes) → (d : ℕ) × (r : Bytes) × (l ++ (x ∷ rest) ≡ d ∷ r)
front [] x rest = (x, rest, refl)
front (d ∷ l) x rest = (d, l ++ (x ∷ rest), refl)

read_end : (acc rest : Bytes) → read_substring_onto acc (b'"' ∷ rest) ≡ (acc, rest)
unfolding read_substring_onto
read_end acc [] = refl
read_end acc (d ∷ rest) = refl

read_substring_onto-escaped :
    (s acc rest : Bytes)
    → NoZero s
    → read_substring_onto acc (escaped s ++ (b'"' ∷ rest)) ≡ (acc ++ s, rest)
read_substring_onto-escaped [] acc rest h = read_end acc rest ∙ rw append-nil
read_substring_onto-escaped (c ∷ s) acc rest h =
    let (d, r, e) = front (escaped s) b'"' rest in
    rw (append_assoc (escape_byte 2 c) (escaped s) (b'"' ∷ rest), e)
      (read_substring_onto-byte acc c d r h.0
        ∙ ap (read_substring_onto (acc ++ c ∷ [])) (sym e)
        ∙ read_substring_onto-escaped s (acc ++ c ∷ []) rest h.1
        ∙ ap (λ a. (a, rest)) (append_assoc acc (c ∷ []) s))

-- A text without 0 bytes is read back from its quoted form, whatever follows the closing quote.
pub read_substring-escaped :
    (s rest : Bytes) → NoZero s → read_substring (escaped s ++ (b'"' ∷ rest)) ≡ (s, rest)
unfolding read_substring
read_substring-escaped s rest h = read_substring_onto-escaped s [] rest h
