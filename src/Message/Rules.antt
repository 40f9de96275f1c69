-- ===== src/Message/Rules.antt =====
-- Rules for the termination of the readers of messages.go: a round consumes the head of a message.
use go_pg.Base.{ℕ, arith}
use go_pg.Base.Int.{ℤ}
use go_pg.Errors.{PgFields}
use go_pg.Net.{M}
use go_pg.Net.Loop.{Step}
use go_pg.Net.Laws.{
  Shorter, Bounded, Eats, shrinking, >>=-Bounded, >>=-Eats, if-Bounded, pure-Bounded,
  read_until_zero-Bounded, read_byte-Eats, for_ever-Bounded, >>-Bounded, fail-Bounded,
  read_n-Bounded,
}
use go_pg.Message.Read.{
  read_int16, read_int32, read_string, read_field, read_error, read_message_type, round,
  each_message, log_notice, log_parameter_status, skip, notice_or_unexpected, return_error,
  remote_addr,
}

pub read_int16-Bounded : Bounded read_int16
unfolding read_int16
read_int16-Bounded = search shrinking

pub read_int32-Bounded : Bounded read_int32
unfolding read_int32
read_int32-Bounded = search shrinking

pub read_string-Bounded : Bounded read_string
unfolding read_string
read_string-Bounded = read_until_zero-Bounded

read_message_type-Eats : Eats read_message_type
unfolding read_message_type
read_message_type-Eats =
    >>=-Eats read_byte-Eats (λ c. >>=-Bounded read_int32-Bounded (λ l. pure-Bounded _))

remote_addr-Bounded : Bounded remote_addr
remote_addr-Bounded = record { apply = λ c. omega arith }

read_field-Eats : (m : PgFields) → Eats (read_field m)
unfolding read_field
read_field-Eats m = >>=-Eats read_byte-Eats λ c. search (shrinking, read_string-Bounded)

pub read_error-Bounded : Bounded read_error
unfolding read_error
read_error-Bounded =
    >>=-Bounded remote_addr-Bounded
      λ a. >>=-Bounded (for_ever-Bounded read_field-Eats _) (λ m. pure-Bounded _)

pub skip-Bounded : {S R : Type 0} (n : ℤ) (s : S) → Bounded (skip {R = R} n s)
unfolding skip
skip-Bounded n s = >>-Bounded (read_n-Bounded n) (pure-Bounded _)

pub notice_or_unexpected-Bounded :
    {S R : Type 0} (c : ℕ) (n : ℤ) (s : S) → Bounded (notice_or_unexpected {R = R} c n s)
unfolding notice_or_unexpected log_notice log_parameter_status
notice_or_unexpected-Bounded c n s = search shrinking

pub return_error-Bounded : {A : Type 0} → Bounded (return_error {A = A})
unfolding return_error
return_error-Bounded = >>=-Bounded read_error-Bounded (λ e. fail-Bounded e)

pub ruleset message_shrinking = (
  shrinking, read_int16-Bounded, read_int32-Bounded, read_string-Bounded, read_error-Bounded,
  skip-Bounded, notice_or_unexpected-Bounded, return_error-Bounded,
)

-- A reader is bounded if each case of its `switch` is.
pub each_message-Bounded :
    {S R : Type 0} {switch : ℕ → ℤ → S → M (Step S R)}
    → ((c : ℕ) (n : ℤ) (s : S) → Bounded (switch c n s))
    → (s : S) → Bounded (each_message switch s)
unfolding each_message round
each_message-Bounded h s =
    for_ever-Bounded (λ s. >>=-Eats read_message_type-Eats (λ m. h m.0 m.1 s)) s
