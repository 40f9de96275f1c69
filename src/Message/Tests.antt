-- ===== src/Message/Tests.antt =====
-- messages.go on small conversations with a server.
use go_pg.Base.{ℕ, ◌≡◌, inl, refl, [], ◌∷◌, ◌++◌, List, none, some, Bytes, codes, arith}
use go_pg.Base.Int.{pos}
use go_pg.Errors.{eof, pg_error}
use go_pg.Net.{Conn, ok}
use go_pg.Wire.Buffer.{WriteBuffer}
use go_pg.Wire.Framing.{frame}
use go_pg.Types.Result.{new_result}
use go_pg.Message.Kind.{ready_for_query_msg, row_description_msg, bind_complete_msg}
use go_pg.Message.Query.{read_simple_query, read_ext_query}
use go_pg.Message.Frames.{with_rd, GoodFields}
use go_pg.Message.Replies.{
  ServerMsg, dropped, row, finished, failed, transcript, AllSound, SimpleDrops, ExtDrops, answer,
  read_simple_query-transcript, read_ext_query-transcript,
}
use go_pg.Message.Total.{ReadersEnd, readers-ReadersEnd}
use go_pg.Message.Sent.{FramesSent, writers-FramesSent}

abbrev idle : Conn
idle = record {
  rd = [];
  rd_end = eof;
  wr = record { bytes = []; msg_start = 0; param_start = 0 };
  sent = [];
  wr_error = none;
  columns = [];
  process_id = pos 7;
  secret_key = pos 9;
  last_id = 0;
  remote_addr = codes "db";
}

abbrev tag : Bytes
tag = codes "SELECT 2" ++ 0 ∷ []

tag-result : (rows : ℕ) → new_result tag rows ≡ some (record { affected = pos 2; returned = rows })
unfolding new_result
tag-result rows = refl

-- Two rows, then the end of the command, and an error behind it.
abbrev simple_reply : List ServerMsg
simple_reply =
    dropped row_description_msg (codes "id")
    ∷ row (codes "1")
    ∷ row (codes "2")
    ∷ finished tag (pos 2)
    ∷ failed ((b'C', codes "42601") ∷ [])
    ∷ []

abbrev ext_reply : List ServerMsg
ext_reply = dropped bind_complete_msg [] ∷ row (codes "1") ∷ finished tag (pos 2) ∷ []

fields-GoodFields : GoodFields ((b'C', codes "42601") ∷ [])
fields-GoodFields = ground arith

simple_reply-AllSound : AllSound SimpleDrops simple_reply
simple_reply-AllSound = (
  omega arith,
  inl refl,
  (
    omega arith,
    tt,
    (omega arith, tt, (omega arith, tag-result, (omega arith, fields-GoodFields, tt))),
  ),
)

ext_reply-AllSound : AllSound ExtDrops ext_reply
ext_reply-AllSound = (omega arith, inl refl, (omega arith, tt, (omega arith, tag-result, tt)))

read_simple_query-transcript_example :
    read_simple_query
      (with_rd idle (transcript simple_reply (frame ready_for_query_msg (codes "I") ++ [])))
    ≡ ok (answer idle simple_reply) (with_rd idle [])
read_simple_query-transcript_example =
    read_simple_query-transcript simple_reply idle (codes "I") [] simple_reply-AllSound
      (omega arith)

-- The answer to these messages: the tag's count, the two rows, and the error with its fields.
simple_reply-answer : answer idle simple_reply ≡ record {
  res = some (record { affected = pos 2; returned = 2 });
  ret_err = some (pg_error ((b'C', codes "42601") ∷ (b'a', codes "db") ∷ []));
}
simple_reply-answer = refl

read_ext_query-transcript_example :
    read_ext_query
      (with_rd idle (transcript ext_reply (frame ready_for_query_msg (codes "I") ++ [])))
    ≡ ok (answer idle ext_reply) (with_rd idle [])
read_ext_query-transcript_example =
    read_ext_query-transcript ext_reply idle (codes "I") [] ext_reply-AllSound (omega arith)

readers-ReadersEnd_example : ReadersEnd idle
readers-ReadersEnd_example = readers-ReadersEnd idle

abbrev one_byte : WriteBuffer
one_byte = record { bytes = 1 ∷ []; msg_start = 0; param_start = 0 }

writers-FramesSent_example : FramesSent one_byte
writers-FramesSent_example = writers-FramesSent one_byte
