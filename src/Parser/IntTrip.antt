-- ===== src/Parser/IntTrip.antt =====
-- Arrays of integers: `appendSliceInt` and `decodeSliceInt` together.
use go_pg.Base.{
  ℕ, zero, suc, ◌+◌, ◌/◌, ◌%◌, ◌<◌, ◌≤◌, ◌≡◌, refl, sym, ap, subst, ◌∙◌, Bool, true, false, ◌||◌,
  some, List, [], ◌∷◌, ◌++◌, map, Bytes, equal, length, length-append, append_assoc, append-nil,
  arith, ltb, ◌==◌, if◌then◌else◌,
}
use go_pg.Base.Int.{ℤ, pos, negsuc}
use go_pg.Types.Append.{
  decimal_onto, decimal, append_int, append_elems, append_array, append_slice_int, replace_last,
}
use go_pg.Types.Result.{is_digit, atoi}
use go_pg.Types.Decimal.{IsInt, Digital, decimal-Digital, atoi-append_int}
use go_pg.Parser.{read_sep}
use go_pg.Parser.Array.{next_elem, decode_ints, some_ints, decode_ints_with, decode_slice_int, ok}
use go_pg.Parser.RoundTrip.{
  joined, append_elems-joined, braced, new_array_parser-braced, replace_last-concat,
}

-- What `AppendInt` writes.
abbrev pub shown : ℤ → Bytes
shown n = append_int [] n

append_int-shown : (b : Bytes) (n : ℤ) → append_int b n ≡ b ++ shown n
unfolding append_int
append_int-shown b (pos n) = refl
append_int-shown b (negsuc n) = refl

-- Digits and a minus sign.
abbrev number_byte : ℕ → Bool
number_byte c = is_digit c || c == b'-'

abbrev AllNumber : Bytes → Type 0
AllNumber [] = Unit
AllNumber (c ∷ s) = (number_byte c ≡ true) × AllNumber s

if-AllNumber :
    (b : Bool) (s t : Bytes)
    → (b ≡ true → AllNumber s)
    → (b ≡ false → AllNumber t)
    → AllNumber (if b then s else t)
if-AllNumber true s t h g = h refl
if-AllNumber false s t h g = g refl

decimal_onto-AllNumber : (f n : ℕ) (acc : Bytes) → AllNumber acc → AllNumber (decimal_onto f n acc)
unfolding decimal_onto is_digit
decimal_onto-AllNumber zero n acc h = h
decimal_onto-AllNumber (suc f) n acc h =
    if-AllNumber (ltb n 10) ((b'0' + n) ∷ acc) (decimal_onto f (n / 10) ((b'0' + n % 10) ∷ acc))
      (λ e. (ground (arith, e), h))
      (λ e. decimal_onto-AllNumber f (n / 10) ((b'0' + n % 10) ∷ acc) (ground arith, h))

shown-AllNumber : (n : ℤ) → AllNumber (shown n)
unfolding append_int decimal is_digit
shown-AllNumber (pos n) = decimal_onto-AllNumber (suc n) n [] tt
shown-AllNumber (negsuc n) = (ground arith, decimal_onto-AllNumber (suc (suc n)) (suc n) [] tt)

ne_comma : (c : ℕ) → number_byte c ≡ true → (c == b',') ≡ false
unfolding is_digit
ne_comma c h = ground (arith, h)

ne_quote : (c : ℕ) → number_byte c ≡ true → (c == b'"') ≡ false
unfolding is_digit
ne_quote c h = ground (arith, h)

ne_brace : (c : ℕ) → number_byte c ≡ true → (c == b'{') ≡ false
unfolding is_digit
ne_brace c h = ground (arith, h)

ne_n : (c : ℕ) → number_byte c ≡ true → (c == b'N') ≡ false
unfolding is_digit
ne_n c h = ground (arith, h)

-- A number is read as an element up to the comma behind it, or to the end.
read_sep-number :
    (s rest : Bytes)
    → AllNumber s
    → read_sep b',' (s ++ b',' ∷ rest) ≡ record { before = s; rest = rest; found = true }
unfolding read_sep is_digit
read_sep-number [] rest h = refl
read_sep-number (c ∷ s) rest h = rw (ne_comma c h.0, read_sep-number s rest h.1) refl

read_sep-last :
    (s : Bytes) → AllNumber s → read_sep b',' s ≡ record { before = s; rest = []; found = false }
unfolding read_sep
read_sep-last [] h = refl
read_sep-last (c ∷ s) h = rw (ne_comma c h.0, read_sep-last s h.1) refl

next_elem-number :
    (c : ℕ) (s b rest : Bytes) (f : Bool)
    → AllNumber (c ∷ s)
    → read_sep b',' (c ∷ b) ≡ record { before = c ∷ s; rest = rest; found = f }
    → next_elem (c ∷ b) ≡ some (some (c ∷ s), rest)
unfolding next_elem equal
next_elem-number c s b rest f h r = rw (ne_quote c h.0, ne_brace c h.0, r, ne_n c h.0) refl

Digital-cons : (s : Bytes) → Digital s → (c : ℕ) × (t : Bytes) × (s ≡ c ∷ t)
Digital-cons [] h = absurd h
Digital-cons (c ∷ t) h = (c, t, refl)

shown-cons : (n : ℤ) → (c : ℕ) × (t : Bytes) × (shown n ≡ c ∷ t)
unfolding append_int
shown-cons (pos n) = Digital-cons (decimal n) (decimal-Digital n)
shown-cons (negsuc n) = (b'-', decimal (suc n), refl)

abbrev pub AllInt : List ℤ → Type 0
AllInt [] = Unit {0}
AllInt (n ∷ ns) = IsInt n × AllInt ns

decode_ints-next :
    (fuel : ℕ) (acc : List ℤ) (c : ℕ) (s b rest : Bytes) (n : ℤ)
    → next_elem (c ∷ b) ≡ some (some (c ∷ s), rest)
    → atoi (c ∷ s) ≡ some n
    → decode_ints (suc fuel) acc (c ∷ b) ≡ decode_ints fuel (acc ++ n ∷ []) rest
unfolding decode_ints
decode_ints-next fuel acc c s b rest n e h = rw (decode_ints, e, h) refl

decode_ints-nil : (fuel : ℕ) (acc : List ℤ) → 0 < fuel → decode_ints fuel acc [] ≡ ok acc
unfolding decode_ints
decode_ints-nil zero acc h = elim h [ ]
decode_ints-nil (suc fuel) acc h = refl

decode_ints-last :
    (fuel : ℕ) (acc : List ℤ) (n : ℤ)
    → IsInt n
    → decode_ints (suc fuel) acc (shown n) ≡ decode_ints fuel (acc ++ n ∷ []) []
decode_ints-last fuel acc n i =
    let (c, t, e) = shown-cons n in
    let all : AllNumber (c ∷ t) = subst AllNumber e (shown-AllNumber n) in
    ap (decode_ints (suc fuel) acc) e
    ∙ decode_ints-next fuel acc c t t [] n
        (next_elem-number c t t [] false all (read_sep-last (c ∷ t) all))
        (ap atoi (sym e) ∙ atoi-append_int n i)

decode_ints-comma :
    (fuel : ℕ) (acc : List ℤ) (n : ℤ) (rest : Bytes)
    → IsInt n
    → decode_ints (suc fuel) acc (shown n ++ b',' ∷ rest) ≡ decode_ints fuel (acc ++ n ∷ []) rest
decode_ints-comma fuel acc n rest i =
    let (c, t, e) = shown-cons n in
    let all : AllNumber (c ∷ t) = subst AllNumber e (shown-AllNumber n) in
    ap (λ s. decode_ints (suc fuel) acc (s ++ b',' ∷ rest)) e
    ∙ decode_ints-next fuel acc c t (t ++ b',' ∷ rest) rest n
        (next_elem-number c t (t ++ b',' ∷ rest) rest true all (read_sep-number (c ∷ t) rest all))
        (ap atoi (sym e) ∙ atoi-append_int n i)

decode_ints-joined :
    (ns acc : List ℤ) (fuel : ℕ)
    → AllInt ns
    → length ns < fuel
    → decode_ints fuel acc (joined (map shown ns)) ≡ ok (acc ++ ns)
decode_ints-joined ns acc zero a h = absurd (omega arith)
decode_ints-joined [] acc (suc fuel) a h =
    decode_ints-nil (suc fuel) acc (omega arith) ∙ ap ok (sym (append-nil acc))
decode_ints-joined (n ∷ []) acc (suc fuel) a h =
    decode_ints-last fuel acc n a.0 ∙ decode_ints-nil fuel (acc ++ n ∷ []) (omega arith)
decode_ints-joined (n ∷ m ∷ ns) acc (suc fuel) a h =
    decode_ints-comma fuel acc n (joined (map shown (m ∷ ns))) a.0
    ∙ decode_ints-joined (m ∷ ns) (acc ++ n ∷ []) fuel a.1 (omega arith)
    ∙ ap ok (append_assoc acc (n ∷ []) (m ∷ ns))

length-shown : (n : ℤ) → 0 < length (shown n)
length-shown n = let (c, t, e) = shown-cons n in subst (λ s. 0 < length s) (sym e) (omega arith)

length-joined : (ns : List ℤ) → length ns ≤ length (joined (map shown ns))
length-joined [] = omega arith
length-joined (n ∷ []) = omega (arith, length-shown n)
length-joined (n ∷ m ∷ ns) = omega (
  arith,
  length-append {0} (shown n) (b',' ∷ joined (map shown (m ∷ ns))),
  length-joined (m ∷ ns),
)

append_slice_int-braced :
    (ns : List ℤ) → append_slice_int [] (some ns) 0 ≡ some (braced (joined (map shown ns)))
unfolding append_slice_int append_array
append_slice_int-braced [] = refl
append_slice_int-braced (n ∷ ns) =
    let text : Bytes = b'{' ∷ joined (map shown (n ∷ ns)) in
    let elems : append_elems (λ b x. some (append_int b x)) (b'{' ∷ []) (n ∷ ns)
        ≡ text ++ b',' ∷ [] =
      append_elems-joined (λ b x. some (append_int b x)) shown
        (λ b x. ap some (append_int-shown b x)) (b'{' ∷ []) n ns in
    ap some (append-nil _ ∙ ap replace_last elems ∙ replace_last-concat text b',')

-- Every list of 64-bit numbers, written by `appendSliceInt` as a parameter and read by `decodeSliceInt`, comes
-- back as it was.
pub decode-append_slice_int :
    (ns : List ℤ) → AllInt ns → decode_slice_int (append_slice_int [] (some ns) 0) ≡ ok (some ns)
unfolding decode_slice_int
decode-append_slice_int ns a =
    let body : Bytes = joined (map shown ns) in
    let fuel : length ns < suc (length body) = omega (arith, length-joined ns) in
    ap decode_slice_int (append_slice_int-braced ns)
    ∙ ap decode_ints_with (new_array_parser-braced body)
    ∙ ap some_ints (decode_ints-joined ns [] (suc (length body)) a fuel)
