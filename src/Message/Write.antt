-- ===== src/Message/Write.antt =====
-- messages.go: the writers of messages. Each builds one message or more in the connection's buffer;
-- `none` is the panic of a message finished out of range.
use go_pg.Base.{Option, none, some, ◌⊎◌, inl, inr, List, [], ◌∷◌, Bytes, codes, length}
use go_pg.Base.Int.{ℤ, pos}
use go_pg.Errors.{Error, plain_error, bad_query}
use go_pg.Types.Append.{Value, append}
use go_pg.Wire.Buffer.{
  WriteBuffer, start_message, finish_message, start_param, finish_param, finish_null_param,
  write_int16, write_int32, write_string, write_byte, reset, read_from,
}
use go_pg.Message.Kind.{
  password_message_msg, flush_msg, query_msg, sync_msg, parse_msg, describe_msg, bind_msg,
  execute_msg, close_msg, copy_data_msg, copy_done_msg,
}

infixl 5 ◌>>=◌
abbrev pub ◌>>=◌ {ℓ κ} : {A : Type ℓ} {B : Type κ} → Option A → (A → Option B) → Option B
none >>= f = none
some a >>= f = f a

unfoldable pub write_startup_msg : WriteBuffer → Bytes → Bytes → Option WriteBuffer
write_startup_msg w user database =
    let w1 = write_int32 (start_message w 0) (pos 196608) in
    let w2 = write_string (write_string w1 (codes "user")) user in
    let w3 = write_string (write_string w2 (codes "database")) database in
    finish_message (write_string w3 [])

unfoldable pub write_ssl_msg : WriteBuffer → Option WriteBuffer
write_ssl_msg w = finish_message (write_int32 (start_message w 0) (pos 80877103))

unfoldable pub write_password_msg : WriteBuffer → Bytes → Option WriteBuffer
write_password_msg w password =
    finish_message (write_string (start_message w password_message_msg) password)

unfoldable pub write_flush_msg : WriteBuffer → Option WriteBuffer
write_flush_msg w = finish_message (start_message w flush_msg)

unfoldable pub write_cancel_request_msg : WriteBuffer → ℤ → ℤ → Option WriteBuffer
write_cancel_request_msg w process_id secret_key =
    let w1 = write_int32 (start_message w 0) (pos 80877102) in
    finish_message (write_int32 (write_int32 w1 process_id) secret_key)

-- What `Exec` and its like are given: an `orm.QueryAppender`, a text, or something else.
pub data Query : Type 0 where
  appender : (Bytes → Error ⊎ Bytes) → Query
  query_text : Bytes → Query
  unsupported : Query

-- `fmter.FormatQuery` with the parameters of the call put in.
abbrev pub Format : Type 0
Format = Bytes → Bytes → Bytes

unfoldable pub append_query : Format → Bytes → Query → Error ⊎ Bytes
append_query format dst (appender f) = f dst
append_query format dst (query_text q) = inr (format dst q)
append_query format dst unsupported = inl (plain_error bad_query)

abbrev with_no_error : Option WriteBuffer → Option (Option Error × WriteBuffer)
with_no_error none = none
with_no_error (some w) = some (none, w)

-- The rest of `writeQueryMsg`: a query that could not be formatted empties the buffer.
unfoldable pub finish_query : WriteBuffer → Error ⊎ Bytes → Option (Option Error × WriteBuffer)
finish_query w (inl e) = some (some e, reset w)
finish_query w (inr b) = with_no_error (finish_message (write_byte (record w { bytes = b }) 0))

-- The error, if any, beside the buffer. The log of queries is off.
unfoldable pub write_query_msg : Format → WriteBuffer → Query → Option (Option Error × WriteBuffer)
unfolding append_query finish_query
write_query_msg format w q =
    let w1 = start_message w query_msg in finish_query w1 (append_query format w1.bytes q)

unfoldable pub write_sync_msg : WriteBuffer → Option WriteBuffer
write_sync_msg w = finish_message (start_message w sync_msg)

unfoldable pub write_parse_describe_sync_msg : WriteBuffer → Bytes → Bytes → Option WriteBuffer
unfolding write_sync_msg
write_parse_describe_sync_msg w name q = do
  let w1 = write_string (write_string (start_message w parse_msg) name) q
  w2 ← finish_message (write_int16 w1 (pos 0))
  w3 ← finish_message (write_string (write_byte (start_message w2 describe_msg) b'S') name)
  write_sync_msg w3

-- The end of a parameter: what `types.Append` made of the buffer, or NULL for a nil slice.
unfoldable pub put_param : WriteBuffer → Option Bytes → Option WriteBuffer
put_param w none = finish_null_param w
put_param w (some b) = finish_param (record w { bytes = b })

unfoldable pub write_params : WriteBuffer → List Value → Option WriteBuffer
unfolding put_param
write_params w [] = some w
write_params w (v ∷ vs) = do
  let w1 = start_param w
  w2 ← put_param w1 (append w1.bytes v 0)
  write_params w2 vs

unfoldable pub write_bind_execute_msg : WriteBuffer → Bytes → List Value → Option WriteBuffer
unfolding write_params write_sync_msg
write_bind_execute_msg w name params = do
  let w1 = write_string (write_string (start_message w bind_msg) []) name
  w2 ← write_params (write_int16 (write_int16 w1 (pos 0)) (pos (length params))) params
  w3 ← finish_message (write_int16 w2 (pos 0))
  w4 ← finish_message (write_int32 (write_string (start_message w3 execute_msg) []) (pos 0))
  write_sync_msg w4

unfoldable pub write_close_msg : WriteBuffer → Bytes → Option WriteBuffer
write_close_msg w name =
    finish_message (write_string (write_byte (start_message w close_msg) b'S') name)

-- `chunk` is what the reader delivered.
unfoldable pub write_copy_data : WriteBuffer → Bytes → Option WriteBuffer
write_copy_data w chunk = finish_message (read_from (start_message w copy_data_msg) chunk)

unfoldable pub write_copy_done : WriteBuffer → Option WriteBuffer
write_copy_done w = finish_message (start_message w copy_done_msg)
