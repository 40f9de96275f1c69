-- ===== src/Message/Copy.antt =====
-- messages.go: the readers of COPY, and of notifications.
use go_pg.Base.{ℕ, Option, none, some, List, [], ◌∷◌, ◌++◌, Bytes, ◌==◌, if◌then◌else◌}
use go_pg.Base.Int.{ℤ}
use go_pg.Errors.{Error, plain_error, unexpected_message}
use go_pg.Net.{M, pure, fail, ◌>>=◌, ◌>>◌, read_n, or_panic}
use go_pg.Net.Loop.{Step, more, done}
use go_pg.Types.Result.{PgResult, new_result}
use go_pg.Message.Kind.{
  copy_in_response_msg, copy_out_response_msg, copy_data_msg, copy_done_msg, command_complete_msg,
  ready_for_query_msg, error_response_msg, notice_response_msg, notification_response_msg,
}
use go_pg.Message.Read.{
  each_message, skip, read_int32, read_string, log_notice, return_error, notice_or_unexpected,
}
use go_pg.Message.Prepare.{read_and_return}

unfoldable pub copy_in_switch : ℕ → ℤ → Unit {0} → M (Step (Unit {0}) (Unit {0}))
copy_in_switch c n u =
    if c == copy_in_response_msg
    then read_and_return n u
    else if c == error_response_msg
    then return_error
    else notice_or_unexpected c n u

unfoldable pub read_copy_in_response : M (Unit {0})
unfolding copy_in_switch
read_copy_in_response = each_message copy_in_switch tt

unfoldable pub copy_out_switch : ℕ → ℤ → Unit {0} → M (Step (Unit {0}) (Unit {0}))
copy_out_switch c n u =
    if c == copy_out_response_msg
    then read_and_return n u
    else if c == error_response_msg
    then return_error
    else notice_or_unexpected c n u

unfoldable pub read_copy_out_response : M (Unit {0})
unfolding copy_out_switch
read_copy_out_response = each_message copy_out_switch tt

-- The chunks that the writer has accepted, and the result so far.
pub record Copied : Type 0 where
  pub chunks : List Bytes
  pub res : Option PgResult

-- The writer refuses a chunk with an error, given what it has accepted.
abbrev pub Writer : Type 0
Writer = List Bytes → Bytes → Option Error

unfoldable pub write_chunk : Writer → Copied → Bytes → M (Step Copied Copied)
write_chunk w s b = elim (w s.chunks b) [
  | none ↦ pure (more (record s { chunks = s.chunks ++ b ∷ [] }))
  | some e ↦ fail e
]

unfoldable pub copy_data_switch : Writer → ℕ → ℤ → Copied → M (Step Copied Copied)
copy_data_switch w c n s =
    if c == copy_data_msg
    then (do b ← read_n n; write_chunk w s b)
    else if c == copy_done_msg
    then skip n s
    else if c == command_complete_msg
    then (do b ← read_n n; r ← or_panic (new_result b 0); pure (more (record s { res = some r })))
    else if c == ready_for_query_msg
    then read_and_return n s
    else if c == error_response_msg
    then return_error
    else notice_or_unexpected c n s

unfoldable pub read_copy_data : Writer → M Copied
unfolding copy_data_switch write_chunk
read_copy_data w = each_message (copy_data_switch w) (record { chunks = []; res = none })

pub record Notification : Type 0 where
  pub channel : Bytes
  pub payload : Bytes

unfoldable pub read_notification_body : M (Step (Unit {0}) Notification)
read_notification_body = do
  process ← read_int32
  channel ← read_string
  payload ← read_string
  pure (done (record { channel = channel; payload = payload }))

-- Unlike the other readers this one has no case for a parameter status.
unfoldable pub notification_switch : ℕ → ℤ → Unit {0} → M (Step (Unit {0}) Notification)
notification_switch c n u =
    if c == command_complete_msg
    then skip n u
    else if c == ready_for_query_msg
    then skip n u
    else if c == error_response_msg
    then return_error
    else if c == notice_response_msg
    then log_notice n >> pure (more u)
    else if c == notification_response_msg
    then read_notification_body
    else fail (plain_error (unexpected_message c))

unfoldable pub read_notification : M Notification
unfolding notification_switch read_notification_body
read_notification = each_message notification_switch tt
