-- ===== src/Database/Calls.antt =====
-- db.go and stmt.go: what a call of the handle does on a connection that it has, and how its result and
-- the connection come back.
use go_pg.Base.{ℕ, ◌⊎◌, inl, inr, Option, none, some, List, [], ◌∷◌, Bytes}
use go_pg.Base.Int.{ℤ}
use go_pg.Errors.{Error, eof, assert_one_row}
use go_pg.Net.{Outcome, ok, err, panic, no_fuel, M, pure, fail, ◌>>=◌, ◌>>◌, flush_writer, next_id}
use go_pg.Types.Append.{Value, decimal}
use go_pg.Message.Read.{Reply}
use go_pg.Message.Write.{
  Format, Query, write_parse_describe_sync_msg, write_bind_execute_msg, write_copy_data,
  write_copy_done, write_cancel_request_msg,
}
use go_pg.Message.Startup.{write_with}
use go_pg.Message.Prepare.{read_parse_describe_sync}
use go_pg.Message.Query.{read_ext_query, read_ready_for_query}
use go_pg.Message.Rows.{RowModel, Gathered, read_simple_query_data, read_ext_query_data}
use go_pg.Message.Copy.{
  Writer, Copied, read_copy_in_response, read_copy_out_response, read_copy_data,
}
use go_pg.Database.{Db, store, write_query}

-- What a call left: its value, or the error that ended it, and the heap with the connection.
abbrev pub left_by : {A : Type 0} → Db → ℕ → Outcome A → Option ((Error ⊎ A) × Db)
left_by db cn (ok a c) = some (inr a, store db cn c)
left_by db cn (err e c) = some (inl e, store db cn c)
left_by db cn panic = none
left_by db cn no_fuel = none

-- `prepare` up to its result: the name of the statement and its columns.
unfoldable pub prepare_call : Bytes → M (Bytes × List Bytes)
prepare_call q = do
  id ← next_id
  written ← write_with (λ w. write_parse_describe_sync_msg w (decimal id) q)
  flushed ← flush_writer
  columns ← read_parse_describe_sync
  pure (decimal id, columns)

unfoldable pub ext_query : Bytes → List Value → M Reply
ext_query name params = do
  written ← write_with (λ w. write_bind_execute_msg w name params)
  flushed ← flush_writer
  read_ext_query

-- What `Read` of the reader of CopyFrom returns: some bytes, and an error such as the end.
abbrev pub Chunks : Type 0
Chunks = List (Bytes × Option Error)

-- What follows `writeCopyData` with the error of the reader: a chunk that comes with an error has been
-- put into the buffer, and is flushed with the end of the copy.
abbrev pub after_chunk : M Reply → M Reply → Option Error → M Reply
after_chunk next finish none = flush_writer >> next
after_chunk next finish (some eof) = finish
after_chunk next finish (some e) = fail e

abbrev pub end_copy : M Reply
end_copy = do written ← write_with write_copy_done; flushed ← flush_writer; read_ready_for_query

-- The loop over what the reader returns; when the list is used up it returns no bytes and the end.
unfoldable pub copy_chunks : Chunks → M Reply
copy_chunks [] = write_with (λ w. write_copy_data w []) >> end_copy
copy_chunks ((b, e) ∷ r) =
    let next = copy_chunks r in write_with (λ w. write_copy_data w b) >> after_chunk next end_copy e

unfoldable pub copy_from_call : Format → Query → Chunks → M Reply
unfolding copy_chunks write_query
copy_from_call format q r = do
  written ← write_query format q
  flushed ← flush_writer
  accepted ← read_copy_in_response
  copy_chunks r

-- `CopyTo` behind its `writeQueryMsg`.
unfoldable pub copy_out_call : Writer → M Copied
copy_out_call w = do flushed ← flush_writer; u ← read_copy_out_response; read_copy_data w

-- The message of `cancelRequest`, on a connection of its own.
unfoldable pub cancel_call : ℤ → ℤ → M (Unit {0})
cancel_call process secret =
    write_with (λ w. write_cancel_request_msg w process secret) >> flush_writer

-- `AssertOneRow(res.RowsAffected())` behind a query: without a result the call panics.
unfoldable pub one_row : Reply → Option Reply
unfolding assert_one_row
one_row r = elim r.ret_err [
  | some e ↦ some (record { res = none; ret_err = some e })
  | none ↦ elim r.res [
    | none ↦ none
    | some res ↦ elim (assert_one_row res.affected) [
      | none ↦ some r
      | some e ↦ some (record { res = none; ret_err = some e })
    ]
  ]
]

module _ (m : RowModel) where
  unfoldable pub simple_query_data : Format → Query → M (Gathered m)
  unfolding write_query
  simple_query_data format q = do
    written ← write_query format q
    flushed ← flush_writer
    read_simple_query_data m

  unfoldable pub ext_query_data : Bytes → List Bytes → List Value → M (Gathered m)
  ext_query_data name columns params = do
    written ← write_with (λ w. write_bind_execute_msg w name params)
    flushed ← flush_writer
    read_ext_query_data m columns

  -- A call that returns an error instead of reading on.
  abbrev pub nothing_but : Error → Gathered m
  nothing_but e = record { res = none; model = none; ret_err = some e; rows = 0 }
