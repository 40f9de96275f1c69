-- ===== src/Message/Frames.antt =====
-- How the reading primitives act on what a server sends: whole frames, and the fields of an error.
use go_pg.Base.{
  ℕ, zero, suc, ◌+◌, ◌%◌, ◌^◌, ◌≤◌, ◌<◌, ◌≡◌, ◌≢◌, refl, some, [], ◌∷◌, ◌++◌, Bytes, length, arith,
  length-append, take-append, drop-append, append_assoc, le→leb, ne→==,
}
use go_pg.Base.Int.{pos, ◌-ℤ◌, signed32}
use go_pg.Errors.{PgFields, pg_error}
use go_pg.Net.{Conn, ok, pure, ◌>>=◌, read_n, read_byte, cut_zero, read_until_zero, or_panic}
use go_pg.Net.Loop.{for_ever, rounds}
use go_pg.Wire.Words.{be32, uint32-be32}
use go_pg.Wire.Framing.{frame}
use go_pg.Message.Read.{read_int32, read_string, read_field, read_error, read_message_type}

-- The connection with other bytes to read.
abbrev pub with_rd : Conn → Bytes → Conn
with_rd c b = record c { rd = b }

pub read_n-append :
    (c : Conn) (pre rest : Bytes)
    → read_n (pos (length pre)) (with_rd c (pre ++ rest)) ≡ ok pre (with_rd c rest)
unfolding read_n
read_n-append c pre rest =
    rw (le→leb (length pre) (length (pre ++ rest)) (omega (arith, length-append {0} pre rest)))
      (rw (take-append pre rest, drop-append pre rest))

signed32-small : (n : ℕ) → n < 2 ^ 31 → signed32 n ≡ pos n
signed32-small n h = ground arith

read_int32-be32 :
    (c : Conn) (n : ℕ) (rest : Bytes)
    → n < 2 ^ 31
    → read_int32 (with_rd c (be32 n ++ rest)) ≡ ok (pos n) (with_rd c rest)
unfolding read_int32 ◌>>=◌ or_panic pure
read_int32-be32 c n rest h =
    rw (read_n-append c (be32 n) rest) (rw (uint32-be32 n (omega arith)) (rw (signed32-small n h)))

-- A frame whose length fits an int32 is announced by its type and by the length of its body, which is then next in the stream.
pub read_message_type-frame :
    (c : Conn) (k : ℕ) (body rest : Bytes)
    → length body + 4 < 2 ^ 31
    → read_message_type (with_rd c (frame k body ++ rest))
      ≡ ok (k, pos (length body)) (with_rd c (body ++ rest))
unfolding read_message_type ◌>>=◌ read_byte pure ◌-ℤ◌
read_message_type-frame c k body rest h =
    rw (read_int32-be32 c ((length body + 4) % 2 ^ 32) (body ++ rest) (omega arith)) (ground arith)

-- A text that holds no 0 byte.
abbrev pub NoZero : Bytes → Type 0
NoZero [] = Unit {0}
NoZero (x ∷ xs) = (x ≢ 0) × NoZero xs

cut_zero-append : (s rest : Bytes) → NoZero s → cut_zero (s ++ (0 ∷ rest)) ≡ some (s, rest)
unfolding cut_zero
cut_zero-append [] rest h = refl
cut_zero-append (x ∷ s) rest h = ground (arith, cut_zero-append s rest h.1)

pub read_string-append :
    (c : Conn) (s rest : Bytes)
    → NoZero s
    → read_string (with_rd c (s ++ (0 ∷ rest))) ≡ ok s (with_rd c rest)
unfolding read_string read_until_zero
read_string-append c s rest h = rw (cut_zero-append s rest h, read_until_zero)

-- The fields of an error response as the server writes them, without the 0 that ends them.
abbrev pub fields_text : PgFields → Bytes
fields_text [] = []
fields_text ((k, s) ∷ fs) = k ∷ (s ++ (0 ∷ fields_text fs))

abbrev pub GoodFields : PgFields → Type 0
GoodFields [] = Unit {0}
GoodFields ((k, s) ∷ fs) = (k ≢ 0) × NoZero s × GoodFields fs

-- The map that the fields are put into, newest first.
abbrev pub stored : PgFields → PgFields → PgFields
stored m [] = m
stored m (f ∷ fs) = stored (f ∷ m) fs

rounds-fields :
    (c : Conn) (rest : Bytes) (fs m : PgFields) (fuel : ℕ)
    → GoodFields fs
    → length fs < fuel
    → rounds read_field fuel m (with_rd c (fields_text fs ++ (0 ∷ rest)))
      ≡ ok (stored m fs) (with_rd c rest)
unfolding rounds read_field ◌>>=◌ read_byte pure
rounds-fields c rest fs m zero g h = absurd (omega arith)
rounds-fields c rest [] m (suc fuel) g h = refl
rounds-fields c rest ((k, s) ∷ fs) m (suc fuel) g h =
    rw
      (
        ne→== k 0 g.0,
        append_assoc s (0 ∷ fields_text fs) (0 ∷ rest),
        read_string-append c s (fields_text fs ++ (0 ∷ rest)) g.1,
      )
      (rounds-fields c rest fs ((k, s) ∷ m) fuel g.2 (omega arith))

length-fields_text : (fs : PgFields) → length fs ≤ length (fields_text fs)
length-fields_text [] = omega arith
length-fields_text ((k, s) ∷ fs) =
    omega (arith, length-append {0} s (0 ∷ fields_text fs), length-fields_text fs)

-- `readError` on fields of types other than 0, without 0 bytes in their texts, takes them up to the 0
-- that ends them, and adds the peer's address.
pub read_error-fields :
    (c : Conn) (fs : PgFields) (rest : Bytes)
    → GoodFields fs
    → read_error (with_rd c (fields_text fs ++ (0 ∷ rest)))
      ≡ ok (pg_error (stored ((b'a', c.remote_addr) ∷ []) fs)) (with_rd c rest)
unfolding read_error ◌>>=◌ for_ever pure
read_error-fields c fs rest g = rw (
    rounds-fields c rest fs ((b'a', c.remote_addr) ∷ [])
      (suc (length (fields_text fs ++ (0 ∷ rest)))) g
      (omega (arith, length-append {0} (fields_text fs) (0 ∷ rest), length-fields_text fs)))
