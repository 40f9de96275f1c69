-- ===== src/Types/Kinds.antt =====
-- types/scan.go, scan_value.go and append_value.go: the scanner and the appender of a type. `Kind` is a
-- Go type and `Value` holds its values; `ScanValue` writes through a pointer, so a settable variable is a
-- value before and one after. Floats, times, JSON and types with methods of their own are left out.
pub mod Words
pub mod Trip
use go_pg.Base.{
  ℕ, zero, suc, ◌+◌, ◌-◌, ◌*◌, ◌/◌, ◌%◌, ◌^◌, Bool, true, false, ◌&&◌, ◌||◌, Option, none, some,
  List, [], ◌∷◌, ◌++◌, ◌⊎◌, inl, inr, Bytes, leb, ltb, ◌==◌, if◌then◌else◌,
}
use go_pg.Base.Int.{ℤ, pos, negsuc}
use go_pg.Errors.{Error, plain_error, cannot_parse, internal_error, cannot_scan}
use go_pg.Types.Append.{append_null, append_bool, append_int, append_string, append_bytes, decimal}
use go_pg.Types.Result.{atoi, digits_value}

pub data Width : Type 0 where
  w8 w16 w32 w64 : Width

pub data Kind : Type 0 where
  bool : Kind
  int : Width → Kind
  uint : Width → Kind
  text : Kind
  bytes : Kind
  ptr : Kind → Kind

-- A nil pointer and a nil slice are `none`.
abbrev pub Value : Kind → Type 0
Value bool = Bool
Value (int w) = ℤ
Value (uint w) = ℕ
Value text = Bytes
Value bytes = Option Bytes
Value (ptr k) = Option (Value k)

-- `reflect.Zero`, and what `reflect.New` points to.
abbrev pub zero_value : (k : Kind) → Value k
zero_value bool = false
zero_value (int w) = pos 0
zero_value (uint w) = 0
zero_value text = []
zero_value bytes = none
zero_value (ptr k) = none

-- 2 to the number of bits, and half of it.
abbrev pub modulus : Width → ℕ
modulus w8 = 256
modulus w16 = 65536
modulus w32 = 4294967296
modulus w64 = 18446744073709551616

abbrev pub half : Width → ℕ
half w8 = 128
half w16 = 32768
half w32 = 2147483648
half w64 = 9223372036854775808

abbrev signed_of : Width → ℕ → ℤ
signed_of w k = if ltb k (half w) then pos k else negsuc (modulus w - 1 - k)

-- `SetInt`: the number is cut to the width of the variable, and `SetUint` likewise.
unfoldable pub set_int : Width → ℤ → ℤ
set_int w (pos n) = signed_of w (n % modulus w)
set_int w (negsuc n) = signed_of w (modulus w - 1 - n % modulus w)

unfoldable pub set_uint : Width → ℕ → ℕ
set_uint w n = n % modulus w

abbrev below_limit : Option ℕ → Option ℕ
below_limit none = none
below_limit (some n) = if ltb n (2 ^ 64) then some n else none

-- `strconv.ParseUint(s, 10, 64)`.
unfoldable pub parse_uint : Bytes → Option ℕ
unfolding digits_value
parse_uint [] = none
parse_uint (c ∷ s) = below_limit (digits_value 0 (c ∷ s))

abbrev pub hex_value : ℕ → Option ℕ
hex_value c =
    if leb b'0' c && leb c b'9'
    then some (c - b'0')
    else if leb b'a' c && leb c b'f'
    then some (c - b'a' + 10)
    else if leb b'A' c && leb c b'F'
    then some (c - b'A' + 10)
    else none

abbrev hex_byte : Option ℕ → Option ℕ → Option Bytes → Option Bytes
hex_byte (some a) (some b) (some r) = some ((a * 16 + b) ∷ r)
hex_byte (some a) (some b) none = none
hex_byte (some a) none r = none
hex_byte none b r = none

-- `hex.Decode`; an odd length or another byte is an error.
unfoldable pub hex_decode : Bytes → Option Bytes
hex_decode [] = some []
hex_decode (a ∷ []) = none
hex_decode (a ∷ b ∷ s) = hex_byte (hex_value a) (hex_value b) (hex_decode s)

abbrev of_hex : Option Bytes → Error ⊎ Bytes
of_hex none = inl (plain_error cannot_parse)
of_hex (some b) = inr b

-- `scanBytes` drops two bytes, whatever they are.
unfoldable pub scan_bytes : Bytes → Error ⊎ Bytes
unfolding hex_decode
scan_bytes [] = inl (internal_error cannot_scan)
scan_bytes (a ∷ []) = inl (internal_error cannot_scan)
scan_bytes (a ∷ b ∷ s) = of_hex (hex_decode s)

-- What a scanner returns, and the variable behind it.
abbrev pub Scanned : Kind → Type 0
Scanned k = Option Error × Value k

-- The value of a number that was read, or the variable as it was with the error.
abbrev stored : {A B : Type 0} → B → (A → B) → Option A → Option Error × B
stored old f none = (some (plain_error cannot_parse), old)
stored old f (some a) = (none, f a)

abbrev stored_bytes : Option Bytes → Error ⊎ Bytes → Option Error × Option Bytes
stored_bytes old (inl e) = (some e, old)
stored_bytes old (inr b) = (none, some b)

abbrev is_true : Bytes → Bool
is_true [] = false
is_true (c ∷ []) = c == b't' || c == b'1'
is_true (c ∷ d ∷ s) = false

abbrev pub pointed : {A : Type 0} → Option Error × A → Option Error × Option A
pointed (e, v) = (e, some v)

unfoldable pub scan_bool_value : Bool → Option Bytes → Option Error × Bool
scan_bool_value old none = (none, false)
scan_bool_value old (some b) = (none, is_true b)

unfoldable pub scan_int_value : Width → ℤ → Option Bytes → Option Error × ℤ
unfolding atoi set_int
scan_int_value w old none = (none, pos 0)
scan_int_value w old (some b) = stored old (set_int w) (atoi b)

unfoldable pub scan_uint_value : Width → ℕ → Option Bytes → Option Error × ℕ
unfolding parse_uint set_uint
scan_uint_value w old none = (none, 0)
scan_uint_value w old (some b) = stored old (set_uint w) (parse_uint b)

unfoldable pub scan_string_value : Bytes → Option Bytes → Option Error × Bytes
scan_string_value old none = (none, [])
scan_string_value old (some b) = (none, b)

unfoldable pub scan_bytes_value : Option Bytes → Option Bytes → Option Error × Option Bytes
unfolding scan_bytes
scan_bytes_value old none = (none, none)
scan_bytes_value old (some b) = stored_bytes old (scan_bytes b)

-- `ptrScannerFunc` over the scanner of the type behind the pointer: a nil pointer gets a new value to
-- point to, also when that scanner fails.
unfoldable pub scan_ptr_value :
    {A : Type 0}
    → A
    → (A → Option Bytes → Option Error × A)
    → Option A
    → Option Bytes
    → Option Error × Option A
scan_ptr_value zero_of scan old none = (none, none)
scan_ptr_value zero_of scan none (some b) = pointed (scan zero_of (some b))
scan_ptr_value zero_of scan (some v) (some b) = pointed (scan v (some b))

-- `ScanValue` on a settable variable: the scanner of its type.
unfoldable pub scan_value : (k : Kind) → Value k → Option Bytes → Scanned k
unfolding scan_bool_value scan_int_value scan_uint_value scan_string_value scan_bytes_value
    scan_ptr_value
scan_value bool = scan_bool_value
scan_value (int w) = scan_int_value w
scan_value (uint w) = scan_uint_value w
scan_value text = scan_string_value
scan_value bytes = scan_bytes_value
scan_value (ptr k) = scan_ptr_value (zero_value k) (scan_value k)

-- `appendValue`: the appender of the type.
unfoldable pub append_value : (k : Kind) → Bytes → Value k → ℕ → Option Bytes
unfolding append_null append_bool append_int append_string append_bytes decimal
append_value bool b v quote = some (append_bool b v)
append_value (int w) b v quote = some (append_int b v)
append_value (uint w) b v quote = some (b ++ decimal v)
append_value text b v quote = some (append_string b v quote)
append_value bytes b v quote = append_bytes b v quote
append_value (ptr k) b none quote = append_null b quote
append_value (ptr k) b (some v) quote = append_value k b v quote
