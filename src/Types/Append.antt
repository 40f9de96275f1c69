-- ===== src/Types/Append.antt =====
-- types/append.go, append_array.go and append_hstore.go: values as SQL text. A slice that
-- the code may return as nil is an `Option`; bytes are appended to a nil slice as to an empty one.
-- The quote is 0 for a parameter of a prepared statement, 1 in a query and 2 inside an array or hstore.
use go_pg.Base.{
  ℕ, zero, suc, ◌+◌, ◌-◌, ◌/◌, ◌%◌, Bool, true, false, ◌&&◌, List, [], ◌∷◌, ◌++◌, Option, none,
  some, Bytes, codes, leb, ltb, ◌==◌, if◌then◌else◌,
}
use go_pg.Base.Int.{ℤ, pos, negsuc}

-- `append(b, …)` where `b` may be nil.
abbrev pub or_empty : Option Bytes → Bytes
or_empty none = []
or_empty (some b) = b

-- `strconv.AppendUint(b, n, 10)` in front of `acc`; `n + 1` rounds are enough.
unfoldable pub decimal_onto : ℕ → ℕ → Bytes → Bytes
decimal_onto zero n acc = acc
decimal_onto (suc f) n acc =
    let rest = decimal_onto f (n / 10) ((b'0' + n % 10) ∷ acc) in
    if ltb n 10 then (b'0' + n) ∷ acc else rest

unfoldable pub decimal : ℕ → Bytes
unfolding decimal_onto
decimal n = decimal_onto (suc n) n []

unfoldable pub append_int : Bytes → ℤ → Bytes
unfolding decimal
append_int b (pos n) = b ++ decimal n
append_int b (negsuc n) = b ++ b'-' ∷ decimal (suc n)

-- `AppendNull`: outside a query the result is nil, whatever was in `b`.
unfoldable pub append_null : Bytes → ℕ → Option Bytes
append_null b quote = if quote == 1 then some (b ++ codes "NULL") else none

unfoldable pub append_bool : Bytes → Bool → Bytes
append_bool b true = b ++ codes "TRUE"
append_bool b false = b ++ codes "FALSE"

-- The mark that stands before and after a text.
unfoldable pub quote_mark : ℕ → Bytes
quote_mark quote = if quote == 2 then b'"' ∷ [] else if quote == 1 then b'\'' ∷ [] else []

-- What the loop of `AppendString` appends for one byte.
unfoldable pub escape_byte : ℕ → ℕ → Bytes
escape_byte quote c =
    if c == 0
    then []
    else if leb 1 quote && c == b'\''
    then b'\'' ∷ b'\'' ∷ []
    else if quote == 2 && c == b'"'
    then b'\\' ∷ b'"' ∷ []
    else if quote == 2 && c == b'\\'
    then b'\\' ∷ b'\\' ∷ []
    else c ∷ []

unfoldable pub escape : ℕ → Bytes → Bytes → Bytes
unfolding escape_byte
escape quote b [] = b
escape quote b (c ∷ s) = escape quote (b ++ escape_byte quote c) s

-- The closing mark is written for `quote >= 2`: the source's quotes are 0, 1 and 2.
unfoldable pub append_string : Bytes → Bytes → ℕ → Bytes
unfolding quote_mark escape
append_string b s quote = escape quote (b ++ quote_mark quote) s ++ quote_mark quote

abbrev pub query_mark : ℕ → Bytes
query_mark quote = if quote == 1 then b'\'' ∷ [] else []

abbrev hex_digit : ℕ → ℕ
hex_digit n = if ltb n 10 then b'0' + n else b'a' + (n - 10)

-- `hex.Encode`.
unfoldable pub hex_encode : Bytes → Bytes
hex_encode [] = []
hex_encode (c ∷ cs) = hex_digit (c / 16) ∷ hex_digit (c % 16) ∷ hex_encode cs

unfoldable pub append_bytes : Bytes → Option Bytes → ℕ → Option Bytes
unfolding append_null hex_encode
append_bytes b none quote = append_null b quote
append_bytes b (some s) quote =
    some ((((b ++ query_mark quote) ++ codes "\\x") ++ hex_encode s) ++ query_mark quote)

-- The loop over the elements: each is followed by a comma, and the last comma becomes `}`.
unfoldable pub append_elems : {A : Type 0} → (Bytes → A → Option Bytes) → Bytes → List A → Bytes
append_elems append_elem b [] = b
append_elems append_elem b (x ∷ xs) =
    append_elems append_elem (or_empty (append_elem b x) ++ b',' ∷ []) xs

-- `b[len(b)-1] = '}'`.
unfoldable pub replace_last : Bytes → Bytes
replace_last [] = []
replace_last (c ∷ []) = b'}' ∷ []
replace_last (c ∷ d ∷ ds) = c ∷ replace_last (d ∷ ds)

abbrev close_brace : {A : Type 0} → List A → Bytes → Bytes
close_brace [] b = b ++ b'}' ∷ []
close_brace (x ∷ xs) b = replace_last b

-- The function that `ArrayAppender` returns, over the appender of an element.
unfoldable pub append_array :
    {A : Type 0} → (Bytes → A → Option Bytes) → Bytes → Option (List A) → ℕ → Option Bytes
unfolding append_null append_elems replace_last
append_array append_elem b none quote = append_null b quote
append_array append_elem b (some xs) quote = some (
    close_brace xs (append_elems append_elem ((b ++ query_mark quote) ++ b'{' ∷ []) xs)
    ++ query_mark quote)

unfoldable pub append_slice_string : Bytes → Option (List Bytes) → ℕ → Option Bytes
unfolding append_array append_string
append_slice_string = append_array (λ b s. some (append_string b s 2))

unfoldable pub append_slice_int : Bytes → Option (List ℤ) → ℕ → Option Bytes
unfolding append_array append_int
append_slice_int = append_array (λ b n. some (append_int b n))

-- A slice of byte slices goes through the generic appender.
unfoldable pub append_slice_bytes : Bytes → Option (List (Option Bytes)) → ℕ → Option Bytes
unfolding append_array append_bytes
append_slice_bytes = append_array (λ b s. append_bytes b s 2)

-- The map in the order in which `range` happens to give it.
unfoldable pub append_pairs : Bytes → List (Bytes × Bytes) → Bytes
unfolding append_string
append_pairs b [] = b
append_pairs b ((k, v) ∷ m) =
    append_pairs (append_string (append_string b k 2 ++ b'=' ∷ b'>' ∷ []) v 2 ++ b',' ∷ []) m

-- `b[:len(b)-1]`.
unfoldable pub strip_last : Bytes → Bytes
strip_last [] = []
strip_last (c ∷ []) = []
strip_last (c ∷ d ∷ ds) = c ∷ strip_last (d ∷ ds)

abbrev strip_comma : {A : Type 0} → List A → Bytes → Bytes
strip_comma [] b = b
strip_comma (x ∷ xs) b = strip_last b

unfoldable pub append_map_string_string : Bytes → Option (List (Bytes × Bytes)) → ℕ → Option Bytes
unfolding append_null append_pairs strip_last
append_map_string_string b none quote = append_null b quote
append_map_string_string b (some m) quote =
    some (strip_comma m (append_pairs (b ++ query_mark quote) m) ++ query_mark quote)

-- The values whose text the package itself decides. Floats, times, drivers' values and reflection
-- are left out.
pub data Value : Type 0 where
  null : Value
  bool : Bool → Value
  int : ℤ → Value
  uint : ℕ → Value
  text : Bytes → Value
  blob : Option Bytes → Value
  texts : Option (List Bytes) → Value
  ints : Option (List ℤ) → Value
  blobs : Option (List (Option Bytes)) → Value
  hstore : Option (List (Bytes × Bytes)) → Value

unfoldable pub append : Bytes → Value → ℕ → Option Bytes
unfolding append_null append_bool append_int append_string append_bytes append_slice_string
    append_slice_int append_slice_bytes append_map_string_string decimal
append b null quote = append_null b quote
append b (bool x) quote = some (append_bool b x)
append b (int n) quote = some (append_int b n)
append b (uint n) quote = some (b ++ decimal n)
append b (text s) quote = some (append_string b s quote)
append b (blob s) quote = append_bytes b s quote
append b (texts xs) quote = append_slice_string b xs quote
append b (ints xs) quote = append_slice_int b xs quote
append b (blobs xs) quote = append_slice_bytes b xs quote
append b (hstore m) quote = append_map_string_string b m quote
