-- ===== src/Message/Read.antt =====
-- messages.go: what every reader is made of. A reader is a loop over messages; `each_message` is its
-- `for` with the call of `readMessageType` at the head.
use go_pg.Base.{ℕ, Option, none, some, [], ◌∷◌, Bytes, ◌==◌, if◌then◌else◌}
use go_pg.Base.Int.{ℤ, pos, ◌-ℤ◌, signed16, signed32}
use go_pg.Errors.{Error, PgFields, pg_error, plain_error, unexpected_message}
use go_pg.Net.{ok, M, pure, fail, ◌>>=◌, ◌>>◌, read_n, read_byte, read_until_zero, or_panic}
use go_pg.Net.Loop.{Step, more, done, for_ever}
use go_pg.Types.Result.{PgResult}
use go_pg.Wire.Words.{uint16, uint32}
use go_pg.Message.Kind.{notice_response_msg, parameter_status_msg}

-- `binary.BigEndian.Uint16(b)` and `Uint32(b)`; a shorter slice panics.
abbrev pub word16 : Bytes → Option ℕ
word16 (a ∷ b ∷ r) = some (uint16 a b)
word16 r = none

abbrev pub word32 : Bytes → Option ℕ
word32 (a ∷ b ∷ c ∷ d ∷ r) = some (uint32 a b c d)
word32 r = none

unfoldable pub read_int16 : M ℤ
read_int16 = do b ← read_n (pos 2); w ← or_panic (word16 b); pure (signed16 w)

unfoldable pub read_int32 : M ℤ
read_int32 = do b ← read_n (pos 4); w ← or_panic (word32 b); pure (signed32 w)

unfoldable pub read_string : M Bytes
read_string = read_until_zero

-- The loop body of `readError`: one field, or the 0 that ends them.
unfoldable pub read_field : PgFields → M (Step PgFields PgFields)
read_field m = do
  c ← read_byte
  if c == 0 then pure (done m) else (do s ← read_string; pure (more ((c, s) ∷ m)))

abbrev pub remote_addr : M Bytes
remote_addr c = ok c.remote_addr c

unfoldable pub read_error : M Error
read_error = do addr ← remote_addr; m ← for_ever read_field ((b'a', addr) ∷ []); pure (pg_error m)

-- The type of the next message and the length of its body.
unfoldable pub read_message_type : M (ℕ × ℤ)
read_message_type = do c ← read_byte; l ← read_int32; pure (c, l -ℤ pos 4)

-- One round of a reader: the head of the loop, and its `switch`.
unfoldable pub round : {S R : Type 0} → (ℕ → ℤ → S → M (Step S R)) → S → M (Step S R)
round switch s = read_message_type >>= λ m. switch m.0 m.1 s

unfoldable pub each_message : {S R : Type 0} → (ℕ → ℤ → S → M (Step S R)) → S → M R
each_message switch = for_ever (round switch)

-- `logNotice` and `logParameterStatus` read the body and drop it.
unfoldable pub log_notice : ℤ → M Bytes
log_notice n = read_n n

unfoldable pub log_parameter_status : ℤ → M Bytes
log_parameter_status n = read_n n

-- A case that reads the body, drops it and goes on.
unfoldable pub skip : {S R : Type 0} → ℤ → S → M (Step S R)
skip n s = read_n n >> pure (more s)

-- The cases that end nearly every `switch`: notices, parameter changes, and any other type byte.
unfoldable pub notice_or_unexpected : {S R : Type 0} → ℕ → ℤ → S → M (Step S R)
notice_or_unexpected c n s =
    if c == notice_response_msg
    then log_notice n >> pure (more s)
    else if c == parameter_status_msg
    then log_parameter_status n >> pure (more s)
    else fail (plain_error (unexpected_message c))

-- An error response that ends the reader.
unfoldable pub return_error : {A : Type 0} → M A
return_error = read_error >>= λ e. fail e

-- What a query returns: the result, and the error that goes with it.
pub record Reply : Type 0 where
  pub res : Option PgResult
  pub ret_err : Option Error

-- The variables of the readers of query results, with `setErr`.
pub record Progress : Type 0 where
  pub reply : Reply
  pub rows : ℕ

abbrev pub no_progress : Progress
no_progress = record { reply = record { res = none; ret_err = none }; rows = 0 }

abbrev pub first_error : Option Error → Error → Option Error
first_error none e = some e
first_error (some x) e = some x

abbrev pub set_err : Progress → Error → Progress
set_err p e = record p {
  reply = record { res = p.reply.res; ret_err = first_error p.reply.ret_err e };
}

abbrev pub set_res : Progress → PgResult → Progress
set_res p r = record p { reply = record { res = some r; ret_err = p.reply.ret_err } }
