-- ===== src/Parser/Array.antt =====
-- internal/parser/array_parser.go, and the readers of arrays in types/scan_array.go.
use go_pg.Base.{
  ℕ, zero, suc, ◌≡◌, refl, Bool, true, false, ◌&&◌, ◌||◌, not, Option, none, some, List, [], ◌∷◌,
  ◌++◌, Bytes, codes, length, equal, ltb, ◌==◌, if◌then◌else◌,
}
use go_pg.Base.Int.{ℤ, pos}
use go_pg.Types.Result.{but_last, atoi}
use go_pg.Parser.{valid, peek, skip, advance, read_sep, read_substring}

-- The text between the braces, or all of a text that cannot be parsed: then every element is an error.
pub record ArrayParser : Type 0 where
  pub rest : Bytes
  pub is_bad : Bool

unfoldable pub last : Bytes → ℕ
last [] = 0
last (c ∷ []) = c
last (c ∷ d ∷ b) = last (d ∷ b)

abbrev pub inner : Option Bytes → Bytes
inner none = []
inner (some b) = b

unfoldable pub new_array_parser : Bytes → ArrayParser
unfolding last but_last
new_array_parser b =
    if ltb (length b) 2 || not (peek b == b'{') || not (last b == b'}')
    then record { rest = b; is_bad = true }
    else record { rest = inner (but_last (advance b)); is_bad = false }

-- The loop inside `readElem` behind a double quote: up to a double quote that no backslash precedes.
-- Each round reads through a separator, or to the end; the source's loop never ends where a text ends
-- in a backslash there, and `none` stands for that.
unfoldable pub read_quoted : ℕ → Bytes → Bytes → Option (Bytes × Bytes)
unfolding read_sep last
read_quoted zero acc b = none
read_quoted (suc fuel) acc b =
    let k = read_sep b'"' b in
    let read = acc ++ k.before in
    let stop = ltb 0 (length read) && not (last read == b'\\') in
    let acc' = if k.found then read ++ b'"' ∷ [] else read in
    let again = read_quoted fuel acc' k.rest in if stop then some (acc', k.rest) else again

-- `readElem`: the bytes up to a closing brace that stands outside double quotes.
unfoldable pub read_elem : ℕ → Bytes → Bytes → Option (Bytes × Bytes)
unfolding read_quoted
read_elem zero acc b = none
read_elem (suc fuel) acc [] = some (acc, [])
read_elem (suc fuel) acc (c ∷ b) =
    let quoted : Option (Bytes × Bytes) = elim (read_quoted (suc (length b)) (acc ++ b'"' ∷ []) b) [
      | none ↦ none
      | some (acc', rest) ↦ read_elem fuel acc' rest
    ] in
    let plain = read_elem fuel (acc ++ c ∷ []) b in
    if c == b'"' then quoted else if c == b'}' then some (acc, b) else plain

-- An element: none is a nil slice, which stands for NULL.
abbrev pub Elem : Type 0
Elem = Option Bytes

abbrev pub nil_if_empty : Bytes → Elem
nil_if_empty [] = none
nil_if_empty (c ∷ b) = some (c ∷ b)

abbrev close_elem : Option (Bytes × Bytes) → Option (Elem × Bytes)
close_elem none = none
close_elem (some ([], rest)) = some (none, (skip b',' rest).1)
close_elem (some (c ∷ b, rest)) = some (some (c ∷ b ++ b'}' ∷ []), (skip b',' rest).1)

-- `NextElem` on a parser with no error; `none` is a loop without end.
unfoldable pub next_elem : Bytes → Option (Elem × Bytes)
unfolding skip read_substring read_elem read_sep
next_elem b =
    if peek b == b'"'
    then (let s = read_substring (advance b) in some (nil_if_empty s.0, (skip b',' s.1).1))
    else if peek b == b'{'
    then close_elem (read_elem (suc (length b)) [] b)
    else (let k = read_sep b',' b in
        some ((if equal k.before (codes "NULL") then none else some k.before), k.rest))

pub data Decoded (A : Type 0) : Type 0 where
  ok : A → Decoded A
  bad : Decoded A
  endless : Decoded A

abbrev pub text_of : Elem → Bytes
text_of none = []
text_of (some b) = b

-- The loop of `decodeSliceString`, with the strings read so far.
unfoldable pub decode_strings : ℕ → List Bytes → Bytes → Decoded (List Bytes)
unfolding next_elem
decode_strings zero acc b = endless
decode_strings (suc fuel) acc [] = ok acc
decode_strings (suc fuel) acc (c ∷ b) = elim (next_elem (c ∷ b)) [
  | none ↦ endless
  | some (e, rest) ↦ decode_strings fuel (acc ++ text_of e ∷ []) rest
]

abbrev pub some_strings : Decoded (List Bytes) → Decoded (Option (List Bytes))
some_strings (ok ss) = ok (some ss)
some_strings bad = bad
some_strings endless = endless

abbrev pub decode_with : ArrayParser → Decoded (Option (List Bytes))
decode_with p =
    if p.is_bad && valid p.rest
    then bad
    else some_strings (decode_strings (suc (length p.rest)) [] p.rest)

-- `decodeSliceString`; a nil slice of bytes is a nil slice of strings.
unfoldable pub decode_slice_string : Option Bytes → Decoded (Option (List Bytes))
unfolding new_array_parser decode_strings
decode_slice_string none = ok none
decode_slice_string (some b) = decode_with (new_array_parser b)

-- One element of `decodeSliceInt`: NULL is 0.
abbrev pub int_of : Elem → Option ℤ
int_of none = some (pos 0)
int_of (some b) = atoi b

-- The loop of `decodeSliceInt`.
unfoldable pub decode_ints : ℕ → List ℤ → Bytes → Decoded (List ℤ)
unfolding next_elem atoi
decode_ints zero acc b = endless
decode_ints (suc fuel) acc [] = ok acc
decode_ints (suc fuel) acc (c ∷ b) = elim (next_elem (c ∷ b)) [
  | none ↦ endless
  | some (e, rest) ↦ elim (int_of e) [ none ↦ bad | some n ↦ decode_ints fuel (acc ++ n ∷ []) rest ]
]

abbrev pub some_ints : Decoded (List ℤ) → Decoded (Option (List ℤ))
some_ints (ok ns) = ok (some ns)
some_ints bad = bad
some_ints endless = endless

abbrev pub decode_ints_with : ArrayParser → Decoded (Option (List ℤ))
decode_ints_with p =
    if p.is_bad && valid p.rest
    then bad
    else some_ints (decode_ints (suc (length p.rest)) [] p.rest)

-- `decodeSliceInt`.
unfoldable pub decode_slice_int : Option Bytes → Decoded (Option (List ℤ))
unfolding new_array_parser decode_ints
decode_slice_int none = ok none
decode_slice_int (some b) = decode_ints_with (new_array_parser b)

two_strings :
    decode_slice_string (some (codes "{\"a''b\",\"c\\\"\"}"))
    ≡ ok (some (codes "a'b" ∷ codes "c\"" ∷ []))
unfolding decode_slice_string
two_strings = refl
