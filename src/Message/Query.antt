-- ===== src/Message/Query.antt =====
-- messages.go: the readers of query results that keep no rows, `readSimpleQuery`, `readExtQuery` and
-- `readReadyForQuery`.
use go_pg.Base.{ℕ, suc, some, ◌==◌, if◌then◌else◌}
use go_pg.Base.Int.{ℤ}
use go_pg.Net.{M, pure, ◌>>=◌, ◌>>◌, read_n, or_panic}
use go_pg.Net.Loop.{Step, more, done}
use go_pg.Types.Result.{new_result}
use go_pg.Message.Kind.{
  command_complete_msg, ready_for_query_msg, row_description_msg, data_row_msg, error_response_msg,
  bind_complete_msg,
}
use go_pg.Message.Read.{
  each_message, skip, read_error, notice_or_unexpected, Progress, Reply, no_progress, set_err,
  set_res,
}

-- `case commandCompleteMsg`: the tag becomes the result.
unfoldable pub complete : ℤ → Progress → M (Step Progress Reply)
complete n p = do b ← read_n n; r ← or_panic (new_result b p.rows); pure (more (set_res p r))

-- `case readyForQueryMsg`.
unfoldable pub ready : ℤ → Progress → M (Step Progress Reply)
ready n p = read_n n >> pure (done p.reply)

-- `case dataRowMsg`: the row is dropped and counted.
unfoldable pub count_row : ℤ → Progress → M (Step Progress Reply)
count_row n p = read_n n >> pure (more (record p { rows = suc p.rows }))

-- `case errorResponseMsg`: the first error is kept.
unfoldable pub keep_error : Progress → M (Step Progress Reply)
keep_error p = do e ← read_error; pure (more (set_err p e))

unfoldable pub simple_query_switch : ℕ → ℤ → Progress → M (Step Progress Reply)
simple_query_switch c n p =
    if c == command_complete_msg
    then complete n p
    else if c == ready_for_query_msg
    then ready n p
    else if c == row_description_msg
    then skip n p
    else if c == data_row_msg
    then count_row n p
    else if c == error_response_msg
    then keep_error p
    else notice_or_unexpected c n p

unfoldable pub read_simple_query : M Reply
read_simple_query = each_message simple_query_switch no_progress

unfoldable pub ext_query_switch : ℕ → ℤ → Progress → M (Step Progress Reply)
ext_query_switch c n p =
    if c == bind_complete_msg
    then skip n p
    else if c == data_row_msg
    then count_row n p
    else if c == command_complete_msg
    then complete n p
    else if c == ready_for_query_msg
    then ready n p
    else if c == error_response_msg
    then keep_error p
    else notice_or_unexpected c n p

unfoldable pub read_ext_query : M Reply
read_ext_query = each_message ext_query_switch no_progress

-- `retErr = e`: here the last error wins.
unfoldable pub replace_error : Progress → M (Step Progress Reply)
replace_error p = do
  e ← read_error
  pure (more (record p { reply = record { res = p.reply.res; ret_err = some e } }))

-- `readReadyForQuery` counts no rows, so `rows` stays 0.
unfoldable pub ready_for_query_switch : ℕ → ℤ → Progress → M (Step Progress Reply)
ready_for_query_switch c n p =
    if c == command_complete_msg
    then complete n p
    else if c == ready_for_query_msg
    then ready n p
    else if c == error_response_msg
    then replace_error p
    else notice_or_unexpected c n p

unfoldable pub read_ready_for_query : M Reply
read_ready_for_query = each_message ready_for_query_switch no_progress
