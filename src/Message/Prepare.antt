-- ===== src/Message/Prepare.antt =====
-- messages.go: the readers of prepared statements, and of column names.
use go_pg.Base.{ℕ, zero, suc, Option, none, some, List, [], ◌∷◌, ◌++◌, Bytes, ◌==◌, if◌then◌else◌}
use go_pg.Base.Int.{ℤ, pos, negsuc}
use go_pg.Net.{ok, err, M, pure, ◌>>=◌, ◌>>◌, read_n, or_panic}
use go_pg.Net.Loop.{Step, more, done, for_ever}
use go_pg.Message.Kind.{
  parse_complete_msg, row_description_msg, parameter_description_msg, no_data_msg,
  ready_for_query_msg, error_response_msg, bind_complete_msg, close_complete_msg,
}
use go_pg.Message.Read.{each_message, skip, read_int16, return_error, notice_or_unexpected}

-- `cn.Rd.ReadSlice(0)` over a buffer that has room for a number of bytes: the bytes up to the 0, a
-- full buffer without one, or the end of the stream.
pub data Slice : Type 0 where
  line : Bytes → Bytes → Slice
  full : Bytes → Bytes → Slice
  ended : Slice

abbrev pub put_front : ℕ → Slice → Slice
put_front x (line l rest) = line (x ∷ l) rest
put_front x (full l rest) = full (x ∷ l) rest
put_front x ended = ended

unfoldable pub read_slice : ℕ → Bytes → Slice
read_slice zero b = full [] b
read_slice (suc k) [] = ended
read_slice (suc k) (x ∷ b) = if x == 0 then line [] b else put_front x (read_slice k b)

-- A round of the loop in `readBytes`. The 0 is dropped here, and by `b[:len(b)-1]` in the source.
unfoldable pub read_chunk : ℕ → Bytes → M (Step Bytes Bytes)
unfolding read_slice
read_chunk size b c = elim (read_slice size c.rd) [
  | line l rest ↦ ok (done (b ++ l)) (record c { rd = rest })
  | full l rest ↦ ok (more (b ++ l)) (record c { rd = rest })
  | ended ↦ err c.rd_end (record c { rd = [] })
]

-- The size of the buffer that `bufio.NewReader` makes.
abbrev pub buffer_size : ℕ
buffer_size = 4096

unfoldable pub read_bytes : M Bytes
unfolding read_chunk
read_bytes = for_ever (read_chunk buffer_size) []

-- `n` columns, appended to those read before; the 18 bytes behind each name are dropped.
unfoldable pub read_columns : ℕ → List Bytes → M (List Bytes)
read_columns zero columns = pure columns
read_columns (suc n) columns = do
  name ← read_bytes
  rest ← read_n (pos 18)
  read_columns n (columns ++ name ∷ [])

-- `setByteSliceLen`: a negative length panics. Every element is written before it is read, so what
-- the reused slice held before does not matter.
abbrev pub slice_len : ℤ → Option ℕ
slice_len (pos n) = some n
slice_len (negsuc n) = none

unfoldable pub read_row_description : M (List Bytes)
unfolding read_columns
read_row_description = do col_num ← read_int16; n ← or_panic (slice_len col_num); read_columns n []

-- `_, err := cn.ReadN(msgLen); return x, err`.
unfoldable pub read_and_return : {S R : Type 0} → ℤ → R → M (Step S R)
read_and_return n r = read_n n >> pure (done r)

unfoldable pub parse_describe_sync_switch : ℕ → ℤ → List Bytes → M (Step (List Bytes) (List Bytes))
parse_describe_sync_switch c n columns =
    if c == parse_complete_msg
    then skip n columns
    else if c == row_description_msg
    then (do cols ← read_row_description; pure (more cols))
    else if c == parameter_description_msg
    then skip n columns
    else if c == no_data_msg
    then skip n columns
    else if c == ready_for_query_msg
    then read_and_return n columns
    else if c == error_response_msg
    then return_error
    else notice_or_unexpected c n columns

unfoldable pub read_parse_describe_sync : M (List Bytes)
unfolding parse_describe_sync_switch
read_parse_describe_sync = each_message parse_describe_sync_switch []

unfoldable pub bind_switch : ℕ → ℤ → Unit {0} → M (Step (Unit {0}) (Unit {0}))
bind_switch c n u =
    if c == bind_complete_msg
    then skip n u
    else if c == ready_for_query_msg
    then read_and_return n u
    else if c == error_response_msg
    then return_error
    else notice_or_unexpected c n u

unfoldable pub read_bind_msg : M (Unit {0})
unfolding bind_switch
read_bind_msg = each_message bind_switch tt

unfoldable pub close_complete_switch : ℕ → ℤ → Unit {0} → M (Step (Unit {0}) (Unit {0}))
close_complete_switch c n u =
    if c == close_complete_msg
    then read_and_return n u
    else if c == error_response_msg
    then return_error
    else notice_or_unexpected c n u

unfoldable pub read_close_complete_msg : M (Unit {0})
unfolding close_complete_switch
read_close_complete_msg = each_message close_complete_switch tt
