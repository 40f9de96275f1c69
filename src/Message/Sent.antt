-- ===== src/Message/Sent.antt =====
-- What the writers of messages.go put into the buffer.
use go_pg.Base.{
  ℕ, ◌≡◌, refl, ap, ◌∙◌, [], ◌∷◌, ◌++◌, Option, none, some, ◌⊎◌, inl, inr, Bytes, length, arith,
  append_assoc,
}
use go_pg.Base.Int.{ℤ, to_word}
use go_pg.Wire.Buffer.{WriteBuffer, reset, write_byte, write_string, start_message, finish_message}
use go_pg.Errors.{Error}
use go_pg.Wire.Words.{be16, be32}
use go_pg.Wire.Framing.{
  frame, sized, opened, start_message-typed, finish_message-opened, write_byte-opened, framing,
}
use go_pg.Message.Kind.{
  password_message_msg, flush_msg, query_msg, sync_msg, parse_msg, describe_msg, close_msg,
  copy_data_msg, copy_done_msg,
}
use go_pg.Message.Write.{
  write_ssl_msg, write_password_msg, write_flush_msg, write_cancel_request_msg, write_sync_msg,
  write_parse_describe_sync_msg, write_close_msg, write_copy_data, write_copy_done, Query, Format,
  append_query, finish_query, write_query_msg, ◌>>=◌,
}

-- The bytes of a buffer, unless a writer panicked.
abbrev pub sent : Option WriteBuffer → Option Bytes
sent none = none
sent (some w) = some w.bytes

-- The error and the bytes of a writer that can refuse.
abbrev pub sent_or_refused : Option (Option Error × WriteBuffer) → Option (Option Error × Bytes)
sent_or_refused none = none
sent_or_refused (some (e, w)) = some (e, w.bytes)

-- Behind a type byte the sized body is a frame.
sized-frame :
    (out : Bytes) (c : ℕ) (body : Bytes) → (out ++ c ∷ []) ++ sized body ≡ out ++ frame c body
sized-frame out c body = append_assoc out (c ∷ []) (sized body)

write_password_msg-frame :
    (w : WriteBuffer) (password : Bytes)
    → sent (write_password_msg w password)
      ≡ some (w.bytes ++ frame password_message_msg (password ++ 0 ∷ []))
unfolding write_password_msg
write_password_msg-frame w password =
    rw (start_message-typed w password_message_msg (omega arith))
      (simp framing (ap some (sized-frame w.bytes _ _)))

pub write_flush_msg-frame :
    (w : WriteBuffer) → sent (write_flush_msg w) ≡ some (w.bytes ++ frame flush_msg [])
unfolding write_flush_msg
write_flush_msg-frame w =
    rw (start_message-typed w flush_msg (omega arith))
      (simp framing (ap some (sized-frame w.bytes flush_msg [])))

write_sync_msg-frame :
    (w : WriteBuffer) → sent (write_sync_msg w) ≡ some (w.bytes ++ frame sync_msg [])
unfolding write_sync_msg
write_sync_msg-frame w =
    rw (start_message-typed w sync_msg (omega arith))
      (simp framing (ap some (sized-frame w.bytes sync_msg [])))

pub write_close_msg-frame :
    (w : WriteBuffer) (name : Bytes)
    → sent (write_close_msg w name) ≡ some (w.bytes ++ frame close_msg (b'S' ∷ (name ++ 0 ∷ [])))
unfolding write_close_msg
write_close_msg-frame w name =
    rw (start_message-typed w close_msg (omega arith))
      (simp framing (ap some (sized-frame w.bytes close_msg (b'S' ∷ (name ++ 0 ∷ [])))))

write_copy_data-frame :
    (w : WriteBuffer) (chunk : Bytes)
    → sent (write_copy_data w chunk) ≡ some (w.bytes ++ frame copy_data_msg chunk)
unfolding write_copy_data
write_copy_data-frame w chunk =
    rw (start_message-typed w copy_data_msg (omega arith))
      (simp framing (ap some (sized-frame w.bytes _ _)))

write_copy_done-frame :
    (w : WriteBuffer) → sent (write_copy_done w) ≡ some (w.bytes ++ frame copy_done_msg [])
unfolding write_copy_done
write_copy_done-frame w =
    rw (start_message-typed w copy_done_msg (omega arith))
      (simp framing (ap some (sized-frame w.bytes copy_done_msg [])))

write_ssl_msg-sized :
    (w : WriteBuffer) → sent (write_ssl_msg w) ≡ some (w.bytes ++ sized (be32 80877103))
unfolding write_ssl_msg
write_ssl_msg-sized w = simp framing refl

write_cancel_request_msg-sized :
    (w : WriteBuffer) (process_id secret_key : ℤ)
    → sent (write_cancel_request_msg w process_id secret_key)
      ≡ some (
          w.bytes
          ++ sized
              (be32 80877102 ++ (be32 (to_word 32 process_id) ++ be32 (to_word 32 secret_key))))
unfolding write_cancel_request_msg
write_cancel_request_msg-sized w process_id secret_key = simp framing refl

-- One message more in front of what `f` writes.
frame_then :
    (out : Bytes) (c : ℕ) (body rest : Bytes) (m p : ℕ) (f : WriteBuffer → Option WriteBuffer)
    → ((v : WriteBuffer) → sent (f v) ≡ some (v.bytes ++ rest))
    → sent (
        some (record { bytes = (out ++ c ∷ []) ++ sized body; msg_start = m; param_start = p })
        >>= f)
      ≡ some (out ++ (frame c body ++ rest))
frame_then out c body rest m p f h =
    h _
    ∙ ap some (ap (λ b. b ++ rest) (sized-frame out c body) ∙ append_assoc out (frame c body) rest)

describe_sync :
    (name : Bytes) (w : WriteBuffer)
    → sent (
        finish_message (write_string (write_byte (start_message w describe_msg) b'S') name) >>= λ v.
        write_sync_msg v)
      ≡ some (w.bytes ++ (frame describe_msg (b'S' ∷ (name ++ 0 ∷ [])) ++ frame sync_msg []))
describe_sync name w = rw (start_message-typed w describe_msg (omega arith)) (
    simp framing (
      frame_then w.bytes describe_msg (b'S' ∷ (name ++ 0 ∷ [])) (frame sync_msg []) _ _
        (λ v. write_sync_msg v) write_sync_msg-frame))

-- `writeParseDescribeSyncMsg` appends three whole frames to the buffer: Parse with the name, the
-- text and no parameter types, Describe of that statement, and Sync.
pub write_parse_describe_sync_msg-frames :
    (w : WriteBuffer) (name q : Bytes)
    → sent (write_parse_describe_sync_msg w name q)
      ≡ some (
          w.bytes
          ++ (frame parse_msg (((name ++ 0 ∷ []) ++ (q ++ 0 ∷ [])) ++ be16 0)
              ++ (frame describe_msg (b'S' ∷ (name ++ 0 ∷ [])) ++ frame sync_msg [])))
unfolding write_parse_describe_sync_msg
write_parse_describe_sync_msg-frames w name q = rw (start_message-typed w parse_msg (omega arith)) (
    simp framing (
      frame_then w.bytes parse_msg (((name ++ 0 ∷ []) ++ (q ++ 0 ∷ [])) ++ be16 0) _ _ _ _
        (describe_sync name)))

finish_query-opened :
    (pre text : Bytes) (p : ℕ)
    → finish_query (opened pre [] p) (inr ((pre ++ 0 ∷ 0 ∷ 0 ∷ 0 ∷ []) ++ text))
      ≡ some (
        none,
        record { bytes = pre ++ sized (text ++ 0 ∷ []); msg_start = length pre; param_start = p },
      )
unfolding finish_query
finish_query-opened pre text p =
    rw
      (
        append_assoc pre (0 ∷ 0 ∷ 0 ∷ 0 ∷ []) text,
        write_byte-opened pre text 0 p,
        finish_message-opened pre (text ++ 0 ∷ []) p,
      )
      refl

-- A formatter appends its text to what stands in the buffer, or refuses.
abbrev pub appended : Bytes → Error ⊎ Bytes → Error ⊎ Bytes
appended dst (inl e) = inl e
appended dst (inr text) = inr (dst ++ text)

-- What a query leaves: its frame, or the error and an empty buffer.
abbrev pub query_sent : Bytes → Error ⊎ Bytes → Option (Option Error × Bytes)
query_sent out (inl e) = some (some e, [])
query_sent out (inr text) = some (none, out ++ frame query_msg (text ++ 0 ∷ []))

-- For a query that is appended to whatever stands in the buffer, or refused: `writeQueryMsg` appends
-- one frame with the formatted query behind what stood in the buffer, or, when the query is refused,
-- reports that error and leaves an empty buffer.
pub write_query_msg-frame :
    (format : Format) (w : WriteBuffer) (q : Query) (text : Error ⊎ Bytes)
    → ((dst : Bytes) → append_query format dst q ≡ appended dst text)
    → sent_or_refused (write_query_msg format w q) ≡ query_sent w.bytes text
unfolding write_query_msg finish_query reset
write_query_msg-frame format w q (inl e) h =
    rw
      (
        start_message-typed w query_msg (omega arith),
        h (opened (w.bytes ++ query_msg ∷ []) [] w.param_start).bytes,
      )
      refl
write_query_msg-frame format w q (inr text) h =
    rw
      (
        start_message-typed w query_msg (omega arith),
        h (opened (w.bytes ++ query_msg ∷ []) [] w.param_start).bytes,
        finish_query-opened (w.bytes ++ query_msg ∷ []) text w.param_start,
      )
      (ap (λ b. some (none, b)) (sized-frame w.bytes query_msg (text ++ 0 ∷ [])))

-- The writers of a single message.
abbrev pub FramesSent : WriteBuffer → Type 0
FramesSent w =
    ((password : Bytes)
      → sent (write_password_msg w password)
        ≡ some (w.bytes ++ frame password_message_msg (password ++ 0 ∷ [])))
    × (sent (write_flush_msg w) ≡ some (w.bytes ++ frame flush_msg []))
    × (sent (write_sync_msg w) ≡ some (w.bytes ++ frame sync_msg []))
    × ((name : Bytes)
        → sent (write_close_msg w name)
          ≡ some (w.bytes ++ frame close_msg (b'S' ∷ (name ++ 0 ∷ []))))
    × ((chunk : Bytes)
        → sent (write_copy_data w chunk) ≡ some (w.bytes ++ frame copy_data_msg chunk))
    × (sent (write_copy_done w) ≡ some (w.bytes ++ frame copy_done_msg []))
    × (sent (write_ssl_msg w) ≡ some (w.bytes ++ sized (be32 80877103)))
    × ((process_id secret_key : ℤ)
        → sent (write_cancel_request_msg w process_id secret_key)
          ≡ some (
              w.bytes
              ++ sized (
                  be32 80877102 ++ (be32 (to_word 32 process_id) ++ be32 (to_word 32 secret_key)))))

-- The writers of a single message append exactly that message to the buffer and never panic: type
-- byte, length counting itself, and body for the typed ones, length and body for the two without.
pub writers-FramesSent : (w : WriteBuffer) → FramesSent w
writers-FramesSent w = (
  write_password_msg-frame w,
  write_flush_msg-frame w,
  write_sync_msg-frame w,
  write_close_msg-frame w,
  write_copy_data-frame w,
  write_copy_done-frame w,
  write_ssl_msg-sized w,
  write_cancel_request_msg-sized w,
)
