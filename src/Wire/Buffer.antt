-- ===== src/Wire/Buffer.antt =====
-- internal/pool/write_buffer.go: the buffer that outgoing messages are built in. A method returns
-- the new buffer; `none` is the panic of an index out of range. The slice's capacity is not kept:
-- `append` grows it, and only `ReadFrom` looks at it, which takes what was read as its argument.
use go_pg.Base.{
  ℕ, ◌+◌, ◌-◌, ◌%◌, ◌^◌, [], ◌∷◌, ◌++◌, Option, none, some, Bytes, length, take, drop, leb, ◌==◌,
  if◌then◌else◌,
}
use go_pg.Base.Int.{ℤ, to_word}
use go_pg.Wire.Words.{be16, be32}

pub record WriteBuffer : Type 0 where
  pub bytes : Bytes
  pub msg_start : ℕ
  pub param_start : ℕ

unfoldable pub new_write_buffer : WriteBuffer
new_write_buffer = record { bytes = []; msg_start = 0; param_start = 0 }

-- `binary.BigEndian.PutUint32(b[at:], v)`.
unfoldable pub put_uint32 : Bytes → ℕ → ℕ → Option Bytes
put_uint32 b at v =
    if leb (at + 4) (length b) then some (take at b ++ (be32 v ++ drop (at + 4) b)) else none

unfoldable pub start_message : WriteBuffer → ℕ → WriteBuffer
start_message w c =
    if c == 0
    then record w { msg_start = length w.bytes; bytes = w.bytes ++ 0 ∷ 0 ∷ 0 ∷ 0 ∷ [] }
    else record w { msg_start = length w.bytes + 1; bytes = w.bytes ++ c ∷ 0 ∷ 0 ∷ 0 ∷ 0 ∷ [] }

-- The buffer with new bytes, if the write was in range.
abbrev pub with_bytes : WriteBuffer → Option Bytes → Option WriteBuffer
with_bytes w none = none
with_bytes w (some b) = some (record w { bytes = b })

unfoldable pub finish_message : WriteBuffer → Option WriteBuffer
finish_message w =
    with_bytes w (put_uint32 w.bytes w.msg_start ((length w.bytes - w.msg_start) % 2 ^ 32))

unfoldable pub start_param : WriteBuffer → WriteBuffer
start_param w = record w { param_start = length w.bytes; bytes = w.bytes ++ 0 ∷ 0 ∷ 0 ∷ 0 ∷ [] }

unfoldable pub finish_param : WriteBuffer → Option WriteBuffer
finish_param w =
    with_bytes w
      (put_uint32 w.bytes w.param_start ((length w.bytes + 2 ^ 32 - w.param_start - 4) % 2 ^ 32))

-- `uint32(int32(-1))`.
unfoldable pub finish_null_param : WriteBuffer → Option WriteBuffer
finish_null_param w = with_bytes w (put_uint32 w.bytes w.param_start (2 ^ 32 - 1))

unfoldable pub write : WriteBuffer → Bytes → WriteBuffer
write w b = record w { bytes = w.bytes ++ b }

-- Both writes of a number append its bytes: the last two, or four, are patched in place.
unfoldable pub write_int16 : WriteBuffer → ℤ → WriteBuffer
write_int16 w n = record w { bytes = w.bytes ++ be16 (to_word 16 n) }

unfoldable pub write_int32 : WriteBuffer → ℤ → WriteBuffer
write_int32 w n = record w { bytes = w.bytes ++ be32 (to_word 32 n) }

unfoldable pub write_string : WriteBuffer → Bytes → WriteBuffer
write_string w s = record w { bytes = (w.bytes ++ s) ++ 0 ∷ [] }

unfoldable pub write_byte : WriteBuffer → ℕ → WriteBuffer
write_byte w c = record w { bytes = w.bytes ++ c ∷ [] }

unfoldable pub reset : WriteBuffer → WriteBuffer
reset w = record w { bytes = [] }

-- `chunk` is what the reader put into the free part of the buffer.
unfoldable pub read_from : WriteBuffer → Bytes → WriteBuffer
read_from w chunk = record w { bytes = w.bytes ++ chunk }
