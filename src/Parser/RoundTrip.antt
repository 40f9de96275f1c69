-- ===== src/Parser/RoundTrip.antt =====
-- Arrays of strings: `appendSliceString` and `decodeSliceString` together.
use go_pg.Base.{
  ℕ, zero, suc, ◌<◌, ◌≤◌, ◌≡◌, refl, sym, ap, ◌∙◌, false, List, [], ◌∷◌, ◌++◌, map, Option, some,
  Bytes, length, arith, append_assoc, append-nil, length-append,
}
use go_pg.Message.Frames.{NoZero}
use go_pg.Types.Append.{
  append_elems, replace_last, append_array, append_slice_string, append_string,
}
use go_pg.Types.Result.{but_last}
use go_pg.Parser.{skip}
use go_pg.Parser.Array.{
  last, new_array_parser, nil_if_empty, text_of, decode_strings, some_strings, decode_with,
  decode_slice_string, ok,
}
use go_pg.Parser.Escape.{escaped, quoted, append_string-quoted, read_substring-escaped}

-- The texts with a comma between two.
abbrev pub joined : List Bytes → Bytes
joined [] = []
joined (x ∷ []) = x
joined (x ∷ y ∷ xs) = x ++ (b',' ∷ joined (y ∷ xs))

module _ {A : Type 0} (f : Bytes → A → Option Bytes) (text : A → Bytes)
    (appends : (b : Bytes) (x : A) → f b x ≡ some (b ++ text x)) where
  pub append_elems-joined :
      (b : Bytes) (x : A) (xs : List A)
      → append_elems f b (x ∷ xs) ≡ (b ++ joined (map text (x ∷ xs))) ++ b',' ∷ []
  unfolding append_elems
  append_elems-joined b x [] = rw (appends b x)
  append_elems-joined b x (y ∷ xs) = rw (appends b x) (
      append_elems-joined ((b ++ text x) ++ b',' ∷ []) y xs
      ∙ ap (λ l. l ++ b',' ∷ [])
          (append_assoc (b ++ text x) (b',' ∷ []) _ ∙ append_assoc b (text x) _))

pub replace_last-concat : (l : Bytes) (x : ℕ) → replace_last (l ++ x ∷ []) ≡ l ++ b'}' ∷ []
unfolding replace_last
replace_last-concat [] x = refl
replace_last-concat (c ∷ []) x = refl
replace_last-concat (c ∷ d ∷ l) x = ap (◌∷◌ c) (replace_last-concat (d ∷ l) x)

but_last-concat : (l : Bytes) (x : ℕ) → but_last (l ++ x ∷ []) ≡ some l
unfolding but_last
but_last-concat [] x = refl
but_last-concat (c ∷ []) x = refl
but_last-concat (c ∷ d ∷ l) x = rw (but_last-concat (d ∷ l) x, but_last)

last-concat : (l : Bytes) (x : ℕ) → last (l ++ x ∷ []) ≡ x
unfolding last
last-concat [] x = refl
last-concat (c ∷ []) x = refl
last-concat (c ∷ d ∷ l) x = last-concat (d ∷ l) x

-- A text in braces, as it stands between quotes or as a parameter.
abbrev pub braced : Bytes → Bytes
braced b = b'{' ∷ (b ++ b'}' ∷ [])

-- `NewArrayParser` takes the braces off.
pub new_array_parser-braced :
    (b : Bytes) → new_array_parser (braced b) ≡ record { rest = b; is_bad = false }
unfolding new_array_parser
new_array_parser-braced b =
    ground
      (arith, last-concat (b'{' ∷ b) b'}', but_last-concat b b'}', length-append {0} b (b'}' ∷ []))

append_slice_string-braced :
    (ss : List Bytes) → append_slice_string [] (some ss) 0 ≡ some (braced (joined (map quoted ss)))
unfolding append_slice_string append_array
append_slice_string-braced [] = refl
append_slice_string-braced (s ∷ ss) =
    let text : Bytes = b'{' ∷ joined (map quoted (s ∷ ss)) in
    let elems : append_elems (λ b x. some (append_string b x 2)) (b'{' ∷ []) (s ∷ ss)
        ≡ text ++ b',' ∷ [] =
      append_elems-joined (λ b x. some (append_string b x 2)) quoted
        (λ b x. ap some (append_string-quoted b x)) (b'{' ∷ []) s ss in
    ap some (append-nil _ ∙ ap replace_last elems ∙ replace_last-concat text b',')

text_of-nil_if_empty : (s : Bytes) → text_of (nil_if_empty s) ≡ s
text_of-nil_if_empty [] = refl
text_of-nil_if_empty (c ∷ s) = refl

abbrev pub NoZeros : List Bytes → Type 0
NoZeros [] = Unit {0}
NoZeros (s ∷ ss) = NoZero s × NoZeros ss

decode_strings-nil : (fuel : ℕ) (acc : List Bytes) → 0 < fuel → decode_strings fuel acc [] ≡ ok acc
unfolding decode_strings
decode_strings-nil zero acc h = elim h [ ]
decode_strings-nil (suc fuel) acc h = refl

decode_strings-joined :
    (ss acc : List Bytes) (fuel : ℕ)
    → NoZeros ss
    → length ss < fuel
    → decode_strings fuel acc (joined (map quoted ss)) ≡ ok (acc ++ ss)
unfolding decode_strings skip
decode_strings-joined ss acc zero h f = absurd (omega arith)
decode_strings-joined [] acc (suc fuel) h f = ap ok (sym (append-nil acc))
decode_strings-joined (s ∷ []) acc (suc fuel) h f =
    rw (read_substring-escaped s [] h.0, text_of-nil_if_empty s)
      (decode_strings-nil fuel (acc ++ s ∷ []) (omega arith))
decode_strings-joined (s ∷ r ∷ ss) acc (suc fuel) h f =
    let next : Bytes = b',' ∷ joined (map quoted (r ∷ ss)) in
    rw
      (
        append_assoc (escaped s) (b'"' ∷ []) next,
        read_substring-escaped s next h.0,
        text_of-nil_if_empty s,
      )
      (decode_strings-joined (r ∷ ss) (acc ++ s ∷ []) fuel h.1 (omega arith)
        ∙ ap ok (append_assoc acc (s ∷ []) (r ∷ ss)))

length-joined : (ss : List Bytes) → length ss ≤ length (joined (map quoted ss))
length-joined [] = omega arith
length-joined (s ∷ []) = omega arith
length-joined (s ∷ r ∷ ss) = omega (
  arith,
  length-append {0} (quoted s) (b',' ∷ joined (map quoted (r ∷ ss))),
  length-joined (r ∷ ss),
)

-- Every list of strings without 0 bytes, written by `appendSliceString` as a parameter and read by
-- `decodeSliceString`, comes back as it was: commas, braces, quotes, backslashes and the word NULL
-- inside the strings included.
pub decode-append_slice_string :
    (ss : List Bytes)
    → NoZeros ss
    → decode_slice_string (append_slice_string [] (some ss) 0) ≡ ok (some ss)
unfolding decode_slice_string
decode-append_slice_string ss h =
    let body : Bytes = joined (map quoted ss) in
    let fuel : length ss < suc (length body) = omega (arith, length-joined ss) in
    ap decode_slice_string (append_slice_string-braced ss)
    ∙ ap decode_with (new_array_parser-braced body)
    ∙ ap some_strings (decode_strings-joined ss [] (suc (length body)) h fuel)
