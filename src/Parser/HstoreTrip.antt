-- ===== src/Parser/HstoreTrip.antt =====
-- Hstores: `appendMapStringString` and `scanMapStringString` together.
use go_pg.Base.{
  ℕ, zero, suc, ◌<◌, ◌≤◌, ◌≡◌, ◌≢◌, refl, ap, ◌∙◌, Bool, true, false, List, [], ◌∷◌, ◌++◌, Option,
  none, some, Bytes, length, arith, append_assoc, append-nil, length-append, equal,
}
use go_pg.Message.Frames.{NoZero}
use go_pg.Types.Append.{append_pairs, strip_last, append_map_string_string, append_string}
use go_pg.Parser.{skip, skip_bytes}
use go_pg.Parser.Hstore.{
  next_key, next_value, not_nil, Scanned, ok, bad, scan_pairs, scan_map_string_string,
}
use go_pg.Parser.Escape.{escaped, quoted, append_string-quoted, read_substring-escaped}

abbrev pub pair_text : Bytes → Bytes → Bytes
pair_text k v = quoted k ++ (b'=' ∷ b'>' ∷ quoted v)

abbrev pub pairs_text : List (Bytes × Bytes) → Bytes
pairs_text [] = []
pairs_text ((k, v) ∷ []) = pair_text k v
pairs_text ((k, v) ∷ p ∷ m) = pair_text k v ++ (b',' ∷ pairs_text (p ∷ m))

-- Keys and values that the scanner can tell from NULL, without 0 bytes.
abbrev pub GoodPairs : List (Bytes × Bytes) → Type 0
GoodPairs [] = Unit {0}
GoodPairs ((k, v) ∷ m) = (k ≢ []) × NoZero k × (v ≢ []) × NoZero v × GoodPairs m

append_pair :
    (b k v : Bytes)
    → append_string (append_string b k 2 ++ b'=' ∷ b'>' ∷ []) v 2 ≡ b ++ pair_text k v
append_pair b k v =
    append_string-quoted (append_string b k 2 ++ b'=' ∷ b'>' ∷ []) v
    ∙ ap (λ a. (a ++ b'=' ∷ b'>' ∷ []) ++ quoted v) (append_string-quoted b k)
    ∙ append_assoc (b ++ quoted k) (b'=' ∷ b'>' ∷ []) (quoted v)
    ∙ append_assoc b (quoted k) (b'=' ∷ b'>' ∷ quoted v)

append_pairs-text :
    (b : Bytes) (k v : Bytes) (m : List (Bytes × Bytes))
    → append_pairs b ((k, v) ∷ m) ≡ (b ++ pairs_text ((k, v) ∷ m)) ++ b',' ∷ []
unfolding append_pairs
append_pairs-text b k v [] = ap (λ a. a ++ b',' ∷ []) (append_pair b k v)
append_pairs-text b k v ((k', v') ∷ m) =
    append_pairs-text (append_string (append_string b k 2 ++ b'=' ∷ b'>' ∷ []) v 2 ++ b',' ∷ []) k'
      v' m
    ∙ ap (λ a. ((a ++ b',' ∷ []) ++ pairs_text ((k', v') ∷ m)) ++ b',' ∷ []) (append_pair b k v)
    ∙ ap (λ a. a ++ b',' ∷ [])
        (append_assoc (b ++ pair_text k v) (b',' ∷ []) (pairs_text ((k', v') ∷ m))
          ∙ append_assoc b (pair_text k v) (b',' ∷ pairs_text ((k', v') ∷ m)))

strip_last-concat : (l : Bytes) (x : ℕ) → strip_last (l ++ x ∷ []) ≡ l
unfolding strip_last
strip_last-concat [] x = refl
strip_last-concat (c ∷ []) x = refl
strip_last-concat (c ∷ d ∷ l) x = ap (◌∷◌ c) (strip_last-concat (d ∷ l) x)

append_map-text :
    (m : List (Bytes × Bytes)) → append_map_string_string [] (some m) 0 ≡ some (pairs_text m)
unfolding append_map_string_string
append_map-text [] = refl
append_map-text ((k, v) ∷ m) = ap some (
    append-nil _
    ∙ ap strip_last (append_pairs-text [] k v m)
    ∙ strip_last-concat (pairs_text ((k, v) ∷ m)) b',')

next_key-quoted :
    (k rest : Bytes) → NoZero k → next_key (quoted k ++ (b'=' ∷ b'>' ∷ rest)) ≡ some (k, rest)
unfolding next_key skip
next_key-quoted k rest h = rw (
  append_assoc (escaped k) (b'"' ∷ []) (b'=' ∷ b'>' ∷ rest),
  read_substring-escaped k (b'=' ∷ b'>' ∷ rest) h,
)

next_value-last : (v : Bytes) → NoZero v → next_value (quoted v) ≡ some (v, [])
unfolding next_value skip skip_bytes
next_value-last v h = rw (read_substring-escaped v [] h)

next_value-comma :
    (v rest : Bytes)
    → NoZero v
    → next_value (quoted v ++ (b',' ∷ b'"' ∷ rest)) ≡ some (v, b',' ∷ b'"' ∷ rest)
unfolding next_value skip skip_bytes equal
next_value-comma v rest h =
    rw
      (
        append_assoc (escaped v) (b'"' ∷ []) (b',' ∷ b'"' ∷ rest),
        read_substring-escaped v (b',' ∷ b'"' ∷ rest) h,
      )
      (ground arith)

next_key-comma :
    (k rest : Bytes)
    → NoZero k
    → next_key (b',' ∷ (quoted k ++ (b'=' ∷ b'>' ∷ rest))) ≡ some (k, rest)
unfolding next_key skip
next_key-comma k rest h = rw (
  append_assoc (escaped k) (b'"' ∷ []) (b'=' ∷ b'>' ∷ rest),
  read_substring-escaped k (b'=' ∷ b'>' ∷ rest) h,
)

-- The text of a pair stands behind a comma, but for the first.
abbrev led : Bool → Bytes → Bytes
led true b = b',' ∷ b
led false b = b

next_key-led :
    (lead : Bool) (k rest : Bytes)
    → NoZero k
    → next_key (led lead (quoted k ++ (b'=' ∷ b'>' ∷ rest))) ≡ some (k, rest)
next_key-led true k rest h = next_key-comma k rest h
next_key-led false k rest h = next_key-quoted k rest h

not_nil-some : (s rest : Bytes) → s ≢ [] → not_nil (some (s, rest)) ≡ some (s, rest)
not_nil-some [] rest h = absurd (h refl)
not_nil-some (c ∷ s) rest h = refl

-- One round of the scanner, with both calls known.
scan_pairs-round :
    (fuel : ℕ) (acc : List (Bytes × Bytes)) (c : ℕ) (b k r v rest : Bytes)
    → next_key (c ∷ b) ≡ some (k, r)
    → next_value r ≡ some (v, rest)
    → k ≢ []
    → v ≢ []
    → scan_pairs (suc fuel) acc (c ∷ b) ≡ scan_pairs fuel (acc ++ (k, v) ∷ []) rest
unfolding scan_pairs
scan_pairs-round fuel acc c b k r v rest e f g h =
    rw (e, scan_pairs, not_nil-some k r g, f, not_nil-some v rest h)

pair_text-append :
    (k v rest : Bytes) → pair_text k v ++ rest ≡ quoted k ++ (b'=' ∷ b'>' ∷ (quoted v ++ rest))
pair_text-append k v rest = append_assoc (quoted k) (b'=' ∷ b'>' ∷ quoted v) rest

scan_pairs-nil :
    (fuel : ℕ) (acc : List (Bytes × Bytes)) → 0 < fuel → scan_pairs fuel acc [] ≡ ok acc
unfolding scan_pairs
scan_pairs-nil zero acc h = elim h [ ]
scan_pairs-nil (suc fuel) acc h = refl

-- A round on the text of the next pair, with or without a comma in front.
scan_led :
    (lead : Bool) (fuel : ℕ) (acc : List (Bytes × Bytes)) (k v r rest : Bytes)
    → NoZero k
    → k ≢ []
    → v ≢ []
    → next_value r ≡ some (v, rest)
    → scan_pairs (suc fuel) acc (led lead (quoted k ++ (b'=' ∷ b'>' ∷ r)))
      ≡ scan_pairs fuel (acc ++ (k, v) ∷ []) rest
scan_led true fuel acc k v r rest z g h f =
    scan_pairs-round fuel acc b',' _ k r v rest (next_key-led true k r z) f g h
scan_led false fuel acc k v r rest z g h f =
    scan_pairs-round fuel acc b'"' _ k r v rest (next_key-led false k r z) f g h

next_value-pairs :
    (v k' v' : Bytes) (m : List (Bytes × Bytes))
    → NoZero v
    → next_value (quoted v ++ (b',' ∷ pairs_text ((k', v') ∷ m)))
      ≡ some (v, b',' ∷ pairs_text ((k', v') ∷ m))
next_value-pairs v k' v' [] h = next_value-comma v _ h
next_value-pairs v k' v' (p ∷ m) h = next_value-comma v _ h

scan_pairs-text :
    (m acc : List (Bytes × Bytes)) (k v : Bytes) (fuel : ℕ) (lead : Bool)
    → GoodPairs ((k, v) ∷ m)
    → suc (length m) < fuel
    → scan_pairs fuel acc (led lead (pairs_text ((k, v) ∷ m))) ≡ ok (acc ++ (k, v) ∷ m)
scan_pairs-text m acc k v zero lead g f = absurd (omega arith)
scan_pairs-text [] acc k v (suc fuel) lead g f =
    scan_led lead fuel acc k v (quoted v) [] g.1 g.0 g.2 (next_value-last v g.3)
    ∙ scan_pairs-nil fuel (acc ++ (k, v) ∷ []) (omega arith)
scan_pairs-text ((k', v') ∷ m) acc k v (suc fuel) lead g f =
    let next : Bytes = pairs_text ((k', v') ∷ m) in
    ap (λ t. scan_pairs (suc fuel) acc (led lead t)) (pair_text-append k v (b',' ∷ next))
    ∙ scan_led lead fuel acc k v (quoted v ++ (b',' ∷ next)) (b',' ∷ next) g.1 g.0 g.2
        (next_value-pairs v k' v' m g.3)
    ∙ scan_pairs-text m (acc ++ (k, v) ∷ []) k' v' fuel true g.4 (omega arith)
    ∙ ap ok (append_assoc acc ((k, v) ∷ []) ((k', v') ∷ m))

length-pairs_text : (m : List (Bytes × Bytes)) → length m ≤ length (pairs_text m)
length-pairs_text [] = omega arith
length-pairs_text ((k, v) ∷ []) = omega arith
length-pairs_text ((k, v) ∷ p ∷ m) = omega (
  arith,
  length-append {0} (pair_text k v) (b',' ∷ pairs_text (p ∷ m)),
  length-pairs_text (p ∷ m),
)

-- The scanner on the text that a map was written as.
abbrev pub scan_text : Option Bytes → Scanned
scan_text none = ok []
scan_text (some b) = scan_map_string_string b

-- Every map whose keys and values are not empty and hold no 0 bytes, written by
-- `appendMapStringString` as a parameter in any order, is read back with the same pairs.
pub scan-append_map_string_string :
    (m : List (Bytes × Bytes))
    → GoodPairs m
    → scan_text (append_map_string_string [] (some m) 0) ≡ ok m
unfolding scan_map_string_string append_map_string_string
scan-append_map_string_string [] g = refl
scan-append_map_string_string ((k, v) ∷ m) g =
    ap scan_text (append_map-text ((k, v) ∷ m))
    ∙ scan_pairs-text m [] k v (suc (length (pairs_text ((k, v) ∷ m)))) false g
        (omega (arith, length-pairs_text ((k, v) ∷ m)))

scan_pairs-refused :
    (fuel : ℕ) (acc : List (Bytes × Bytes)) (c : ℕ) (b k r rest : Bytes)
    → next_key (c ∷ b) ≡ some (k, r)
    → next_value r ≡ some ([], rest)
    → k ≢ []
    → scan_pairs (suc fuel) acc (c ∷ b) ≡ bad
unfolding scan_pairs
scan_pairs-refused fuel acc c b k r rest e f g = rw (e, scan_pairs, not_nil-some k r g, f)

-- The text of a key and what follows it, without the first double quote.
abbrev behind_mark : Bytes → Bytes → Bytes
behind_mark k rest = (escaped k ++ b'"' ∷ []) ++ (b'=' ∷ b'>' ∷ rest)

-- A map whose first key is not empty and has no 0 bytes, and whose first value is empty, is written,
-- and then refused by the scanner, whatever the pairs behind it.
pub empty_value_refused :
    (k : Bytes) (m : List (Bytes × Bytes))
    → NoZero k
    → k ≢ []
    → scan_text (append_map_string_string [] (some ((k, []) ∷ m)) 0) ≡ bad
unfolding scan_map_string_string
empty_value_refused k [] z g =
    ap scan_text (append_map-text ((k, []) ∷ []))
    ∙ scan_pairs-refused (length (pair_text k [])) [] b'"' (behind_mark k (quoted [])) k (quoted [])
        [] (next_key-quoted k (quoted []) z) (next_value-last [] tt) g
empty_value_refused k ((k', v') ∷ m) z g =
    let next : Bytes = b',' ∷ pairs_text ((k', v') ∷ m) in
    let value : Bytes = quoted [] ++ next in
    ap scan_text (append_map-text ((k, []) ∷ (k', v') ∷ m))
    ∙ ap scan_map_string_string (pair_text-append k [] next)
    ∙ scan_pairs-refused (suc (length (behind_mark k value))) [] b'"' (behind_mark k value) k value
        next (next_key-quoted k value z) (next_value-pairs [] k' v' m tt) g
