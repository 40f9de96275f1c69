-- ===== src/Types/Kinds/Trip.antt =====
-- types/append_value.go and types/scan_value.go: what is written as a parameter is scanned to the same.
use go_pg.Base.{
  ℕ, ◌+◌, ◌-◌, ◌/◌, ◌%◌, ◌^◌, ◌<◌, ◌≡◌, ◌≢◌, refl, ap, ◌∙◌, sym, Option, none, some, [], ◌∷◌, ◌++◌,
  Bytes, arith, ◌⊎◌, inl, inr, subst, if◌then◌else◌, ltb, append-nil, append_assoc,
}
use go_pg.Types.Append.{
  append_string, append_bytes, append_null, escape, escape_byte, quote_mark, decimal, hex_encode,
}
use go_pg.Types.Result.{digits_value}
use go_pg.Types.Decimal.{Digital, decimal-Digital, digits_value-decimal, atoi-append_int}
use go_pg.Types.Kinds.{
  Width, w8, w16, w32, w64, modulus, Kind, bool, int, uint, text, bytes, ptr, Value, set_uint,
  parse_uint, hex_decode, scan_bytes, scan_value, append_value, hex_value, zero_value, pointed,
}
use go_pg.Types.Kinds.Words.{Fits, set_int-eq, Fits-IsInt}

abbrev pub NoZero : Bytes → Type 0
NoZero [] = Unit {0}
NoZero (c ∷ s) = (c ≢ 0) × NoZero s

abbrev pub AllBytes : Bytes → Type 0
AllBytes [] = Unit {0}
AllBytes (c ∷ s) = (c < 256) × AllBytes s

-- The value is not written as NULL.
abbrev pub NotNull : (k : Kind) → Value k → Type 0
NotNull bool v = Unit {0}
NotNull (int w) v = Unit {0}
NotNull (uint w) v = Unit {0}
NotNull text v = Unit {0}
NotNull bytes none = ⊥
NotNull bytes (some s) = Unit {0}
NotNull (ptr k) none = ⊥
NotNull (ptr k) (some v) = NotNull k v

-- A value of its Go type whose text the server hands on as it is: no Boolean, no text with a 0 byte, and no
-- pointer to a nil.
abbrev pub Sendable : (k : Kind) → Value k → Type 0
Sendable bool v = ⊥
Sendable (int w) n = Fits w n
Sendable (uint w) n = n < modulus w
Sendable text s = NoZero s
Sendable bytes none = Unit {0}
Sendable bytes (some s) = AllBytes s
Sendable (ptr k) none = Unit {0}
Sendable (ptr k) (some v) = NotNull k v × Sendable k v

escape-NoZero : (b s : Bytes) → NoZero s → escape 0 b s ≡ b ++ s
unfolding escape escape_byte
escape-NoZero b [] h = sym (append-nil b)
escape-NoZero b (c ∷ s) h =
    let kept : escape_byte 0 c ≡ c ∷ [] = ground (arith, h.0) in
    rw kept (escape-NoZero (b ++ c ∷ []) s h.1 ∙ append_assoc b (c ∷ []) s)

append_text : (s : Bytes) → NoZero s → append_string [] s 0 ≡ s
unfolding append_string quote_mark
append_text s h = append-nil (escape 0 [] s) ∙ escape-NoZero [] s h

hex_value-digit :
    (n : ℕ) → n < 16 → hex_value (if ltb n 10 then b'0' + n else b'a' + (n - 10)) ≡ some n
hex_value-digit n h = ground (arith, h)

hex_decode-hex_encode : (s : Bytes) → AllBytes s → hex_decode (hex_encode s) ≡ some s
unfolding hex_decode hex_encode
hex_decode-hex_encode [] h = refl
hex_decode-hex_encode (c ∷ s) h =
    rw
      (
        hex_value-digit (c / 16) (omega (arith, h.0)),
        hex_value-digit (c % 16) (omega arith),
        hex_decode-hex_encode s h.1,
      )
      (ap (λ x. some (x ∷ s)) (omega arith))

parse_uint-Digital :
    (s : Bytes) (n : ℕ) → Digital s → digits_value 0 s ≡ some n → n < 2 ^ 64 → parse_uint s ≡ some n
unfolding parse_uint
parse_uint-Digital [] n d e h = absurd d
parse_uint-Digital (c ∷ s) n d e h = rw e (ground (arith, h))

set_uint-eq : (w : Width) (n : ℕ) → n < modulus w → (n < 2 ^ 64) × (set_uint w n ≡ n)
unfolding set_uint
set_uint-eq w8 n h = (omega (arith, h), omega (arith, h))
set_uint-eq w16 n h = (omega (arith, h), omega (arith, h))
set_uint-eq w32 n h = (omega (arith, h), omega (arith, h))
set_uint-eq w64 n h = (omega (arith, h), omega (arith, h))

append_value-NotNull :
    (k : Kind) (v : Value k) → NotNull k v → (b : Bytes) × (append_value k [] v 0 ≡ some b)
unfolding append_value append_bytes
append_value-NotNull bool v h = (_, refl)
append_value-NotNull (int w) v h = (_, refl)
append_value-NotNull (uint w) v h = (_, refl)
append_value-NotNull text v h = (_, refl)
append_value-NotNull bytes none h = absurd h
append_value-NotNull bytes (some s) h = (_, refl)
append_value-NotNull (ptr k) none h = absurd h
append_value-NotNull (ptr k) (some v) h = append_value-NotNull k v h

scan_ptr :
    (k : Kind) (u v : Value k)
    → NotNull k v
    → scan_value k u (append_value k [] v 0) ≡ (none, v)
    → (old : Option (Value k)) → (old ≡ some u) ⊎ ((old ≡ none) × (u ≡ zero_value k))
    → scan_value (ptr k) old (append_value k [] v 0) ≡ (none, some v)
unfolding scan_value
scan_ptr k u v n h old c =
    let (b, e) = append_value-NotNull k v n in
    let here : scan_value k u (some b) ≡ (none, v) =
      subst (λ o. scan_value k u o ≡ (none, v)) e h in
    rw e
      (elim c [ inl x ↦ rw x (ap pointed here) | inr (x, z) ↦ rw x (rw (← z) (ap pointed here)) ])

-- A value that is no Boolean, in the range of its type, is scanned back from what its appender writes for
-- a parameter, into any variable of that type: signed and unsigned integers of every width, texts without
-- 0 bytes, bytes, pointers to such, and nil bytes and a nil pointer, but not a pointer to a nil pointer
-- or to nil bytes.
pub scan-append :
    (k : Kind) (old v : Value k)
    → Sendable k v
    → scan_value k old (append_value k [] v 0) ≡ (none, v)
unfolding scan_value append_value append_bytes append_null scan_bytes
scan-append bool old v h = absurd h
scan-append (int w) old v h = rw (atoi-append_int v (Fits-IsInt w v h), set_int-eq w v h) refl
scan-append (uint w) old v h =
    rw
      (
        parse_uint-Digital (decimal v) v (decimal-Digital v) (digits_value-decimal v)
            (set_uint-eq w v h).0,
        (set_uint-eq w v h).1,
      )
      refl
scan-append text old v h = rw (append_text v h) refl
scan-append bytes old none h = refl
scan-append bytes old (some s) h = rw (append-nil (hex_encode s), hex_decode-hex_encode s h) refl
scan-append (ptr k) old none h = refl
scan-append (ptr k) none (some v) h =
    scan_ptr k (zero_value k) v h.0 (scan-append k (zero_value k) v h.1) none (inr (refl, refl))
scan-append (ptr k) (some u) (some v) h =
    scan_ptr k u v h.0 (scan-append k u v h.1) (some u) (inl refl)
