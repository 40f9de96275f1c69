-- ===== src/Parser/Hstore.antt =====
-- internal/parser/hstore_parser.go, and `scanMapStringString` of types/scan_hstore.go.
use go_pg.Base.{
  ℕ, zero, suc, ◌&&◌, Option, none, some, List, [], ◌∷◌, ◌++◌, Bytes, codes, length, if◌then◌else◌,
}
use go_pg.Parser.{skip, skip_bytes, read_substring}

-- `Skip(',')`, and then `Skip(' ')`.
abbrev skip_comma : Bytes → Bytes
skip_comma b = let s = skip b',' b in if s.0 then (skip b' ' s.1).1 else s.1

abbrev key_end : Bytes × Bytes → Option (Bytes × Bytes)
key_end (key, b) =
    let eq = skip b'=' b in
    let gt = skip b'>' eq.1 in if eq.0 && gt.0 then some (key, gt.1) else none

-- `NextKey`; any error is `none`.
unfoldable pub next_key : Bytes → Option (Bytes × Bytes)
unfolding skip read_substring
next_key b = let q = skip b'"' (skip_comma b) in if q.0 then key_end (read_substring q.1) else none

-- `NextValue`.
unfoldable pub next_value : Bytes → Option (Bytes × Bytes)
unfolding skip skip_bytes read_substring
next_value b =
    let q = skip b'"' b in
    if q.0
    then (let s = read_substring q.1 in some (s.0, (skip_bytes (codes ", ") s.1).1))
    else none

-- A slice that nothing was appended to is nil, which the scanner takes for NULL and refuses.
abbrev pub not_nil : Option (Bytes × Bytes) → Option (Bytes × Bytes)
not_nil none = none
not_nil (some ([], rest)) = none
not_nil (some (c ∷ s, rest)) = some (c ∷ s, rest)

pub data Scanned : Type 0 where
  ok : List (Bytes × Bytes) → Scanned
  bad : Scanned
  endless : Scanned

-- The loop of `scanMapStringString`; the map is the list of the assignments made to it, in order.
unfoldable pub scan_pairs : ℕ → List (Bytes × Bytes) → Bytes → Scanned
scan_pairs zero m b = endless
scan_pairs (suc fuel) m [] = ok m
scan_pairs (suc fuel) m (c ∷ b) = elim (not_nil (next_key (c ∷ b))) [
  | none ↦ bad
  | some (key, r) ↦ elim (not_nil (next_value r)) [
    | none ↦ bad
    | some (value, rest) ↦ scan_pairs fuel (m ++ (key, value) ∷ []) rest
  ]
]

unfoldable pub scan_map_string_string : Bytes → Scanned
unfolding scan_pairs next_key next_value
scan_map_string_string b = scan_pairs (suc (length b)) [] b
