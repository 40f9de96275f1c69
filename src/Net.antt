-- ===== src/Net.antt =====
-- internal/pool/conn.go: a connection, as the readers and writers of messages.go use it. The peer is
-- data: the bytes that it will still send, and the error that ends them. Reading is a monad over the
-- connection; a panic is an outcome.
pub mod Loop
pub mod Laws
use go_pg.Base.{
  ℕ, zero, suc, ◌+◌, ◌-◌, Bool, List, [], ◌∷◌, ◌++◌, Option, none, some, Bytes, length, take, drop,
  leb, ◌==◌, if◌then◌else◌,
}
use go_pg.Base.Int.{ℤ, pos, negsuc}
use go_pg.Errors.{Error, eof, unexpected_eof}
use go_pg.Wire.Buffer.{WriteBuffer, reset}

pub record Conn : Type 0 where
  -- what the reader `cn.Rd` will still deliver, and the error behind it
  pub rd : Bytes
  pub rd_end : Error
  pub wr : WriteBuffer
  -- what the socket has accepted, and the error with which it refuses a write
  pub sent : Bytes
  pub wr_error : Option Error
  pub columns : List Bytes
  pub process_id : ℤ
  pub secret_key : ℤ
  pub last_id : ℕ
  pub remote_addr : Bytes

-- `err e c` is a return with the error `e`; the fuel of a loop can run out only in the model.
pub data Outcome (A : Type 0) : Type 0 where
  ok : A → Conn → Outcome A
  err : Error → Conn → Outcome A
  panic : Outcome A
  no_fuel : Outcome A

abbrev pub M : Type 0 → Type 0
M A = Conn → Outcome A

unfoldable pub pure : {A : Type 0} → A → M A
pure a c = ok a c

unfoldable pub fail : {A : Type 0} → Error → M A
fail e c = err e c

abbrev pub and_then : {A B : Type 0} → Outcome A → (A → M B) → Outcome B
and_then (ok a c) f = f a c
and_then (err e c) f = err e c
and_then panic f = panic
and_then no_fuel f = no_fuel

infixl 5 ◌>>=◌ ◌>>◌
unfoldable pub ◌>>=◌ : {A B : Type 0} → M A → (A → M B) → M B
◌>>=◌ m f c = and_then (m c) f

unfoldable pub ◌>>◌ : {A B : Type 0} → M A → M B → M B
◌>>◌ m k c = and_then (m c) (λ _. k)

-- The error of a read that found `got` in place of all that it asked for.
unfoldable pub short_read : Bytes → Error → Error
short_read [] e = e
short_read (x ∷ xs) eof = unexpected_eof
short_read (x ∷ xs) e = e

-- `io.ReadFull(cn.Rd, buf)` on a buffer of `n` bytes.
unfoldable pub read_full : ℕ → M Bytes
unfolding short_read
read_full n c =
    if leb n (length c.rd)
    then ok (take n c.rd) (record c { rd = drop n c.rd })
    else err (short_read c.rd c.rd_end) (record c { rd = [] })

-- `ReadN`: a negative length makes the slice expression panic.
unfoldable pub read_n : ℤ → M Bytes
unfolding read_full
read_n (pos n) c = read_full n c
read_n (negsuc n) c = panic

-- `cn.Rd.ReadByte()`.
unfoldable pub read_byte : M ℕ
read_byte c = elim c.rd [ [] ↦ err c.rd_end c | x ∷ xs ↦ ok x (record c { rd = xs }) ]

abbrev pub push_front : ℕ → Option (Bytes × Bytes) → Option (Bytes × Bytes)
push_front a none = none
push_front a (some (s, rest)) = some (a ∷ s, rest)

-- The bytes before the first 0 and those behind it.
unfoldable pub cut_zero : Bytes → Option (Bytes × Bytes)
cut_zero [] = none
cut_zero (x ∷ xs) = if x == 0 then some ([], xs) else push_front x (cut_zero xs)

-- `cn.Rd.ReadString(0)` without the 0 itself.
unfoldable pub read_until_zero : M Bytes
unfolding cut_zero
read_until_zero c = elim (cut_zero c.rd) [
  | none ↦ err c.rd_end (record c { rd = [] })
  | some (s, rest) ↦ ok s (record c { rd = rest })
]

-- `FlushWriter`: the buffer is reset whether the write succeeds or not.
unfoldable pub flush_writer : M (Unit {0})
flush_writer c = elim c.wr_error [
  | none ↦ ok tt (record c { sent = c.sent ++ c.wr.bytes; wr = reset c.wr })
  | some e ↦ err e (record c { wr = reset c.wr })
]

-- `NextId`, the number of the prepared statement.
unfoldable pub next_id : M ℕ
next_id c = ok (suc c.last_id) (record c { last_id = suc c.last_id })

unfoldable pub or_panic : {A : Type 0} → Option A → M A
or_panic none c = panic
or_panic (some a) c = ok a c
