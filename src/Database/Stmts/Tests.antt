-- ===== src/Database/Stmts/Tests.antt =====
-- db.go and stmt.go on connections whose socket refuses what is written.
use go_pg.Base.{
  true, ◌≡◌, refl, sym, ap, ◌∙◌, subst, Option, [], ◌∷◌, codes, false, none, some, inr, Bytes,
  arith, suc,
}
use go_pg.Errors.{Error, eof, internal_error, stmt_closed}
use go_pg.Net.{Conn, Outcome, ok, err, M, ◌>>=◌, flush_writer}
use go_pg.Wire.Buffer.{WriteBuffer}
use go_pg.Types.Append.{decimal}
use go_pg.Message.Write.{
  query_text, write_query_msg, Query, write_parse_describe_sync_msg, write_close_msg,
  write_flush_msg,
}
use go_pg.Message.Sent.{
  sent, sent_or_refused, write_query_msg-frame, write_parse_describe_sync_msg-frames,
  write_close_msg-frame, write_flush_msg-frame,
}
use go_pg.Message.Rows.{RowModel}
use go_pg.Message.Copy.{Writer}
use go_pg.Database.{Db, write_query}
use go_pg.Database.Calls.{simple_query_data, copy_from_call, copy_out_call, prepare_call, ext_query}
use go_pg.Database.Retries.{Returns, Good, Balanced}
use go_pg.Database.Queries.{query, copy_from, copy_to, refused_with}
use go_pg.Database.Tx.{Stmt, close_stmt}
use go_pg.Database.Stmts.{db_prepare, stmt_exec, stmt_close, tx_prepare, stmt_query}
use go_pg.Database.Stmts.Laws.{closed-Refused}
use go_pg.Database.Stmts.Held.{
  Prepared, StillHolds, GivenBack, stmts-Holds, Leaked, tx_prepare-Leaked,
}
use go_pg.Database.Queries.Balance.{calls-Balanced, Ended, rounds}
use go_pg.Database.Tests.{start_up, plainly, one_retry, dials}

abbrev Refuses : Conn → Type 0
Refuses c = c.wr_error ≡ some eof

start_up-Refuses : Returns Refuses start_up
start_up-Refuses c h = h

abbrev a_text : Query
a_text = query_text (codes "q")

written_text :
    (r : Option (Option Error × WriteBuffer)) (b : Bytes)
    → sent_or_refused r ≡ some (none, b)
    → (w : WriteBuffer) × (r ≡ some (none, w))
written_text none b h = absurd (cc)
written_text (some (none, w)) b h = (w, refl)
written_text (some (some e, w)) b h = ground arith

writes : (c : Conn) → (w : WriteBuffer) × (write_query_msg plainly c.wr a_text ≡ some (none, w))
unfolding go_pg.Message.Write.append_query
writes c =
    written_text (write_query_msg plainly c.wr a_text) _
      (write_query_msg-frame plainly c.wr a_text (inr (codes "q")) (λ dst. refl))

-- A query is written, and then the socket refuses it.
written_first :
    {A : Type 0} (k : Unit {0} → M A) (c : Conn)
    → Refuses c
    → Good Refuses ((write_query plainly a_text >>= λ u. flush_writer >>= k) c)
unfolding write_query flush_writer ◌>>=◌ go_pg.Wire.Buffer.reset
written_first k c h = let (w, e) = writes c in rw (e, h) h

write-Returns : Returns Refuses (write_query plainly a_text)
unfolding write_query
write-Returns c h = let (w, e) = writes c in rw e h

flush_first :
    {A : Type 0} (k : Unit {0} → M A) (c : Conn) → Refuses c → Good Refuses ((flush_writer >>= k) c)
unfolding flush_writer ◌>>=◌ go_pg.Wire.Buffer.reset
flush_first k c h = rw (h, flush_writer) h

-- A model that takes no rows.
abbrev no_rows : RowModel
no_rows = record {
  State = Unit {0};
  Row = Unit {0};
  make = inr tt;
  discard = tt;
  new_model = λ s. tt;
  scan_column = λ r i name b. (r, none);
  add_model = λ s r. (s, none);
}

abbrev no_hook : Unit {0} → Db → Option (Option Error × Db)
no_hook s db = some (none, db)

abbrev any_writer : Writer
any_writer chunks b = none

data-Returns : Returns Refuses (simple_query_data no_rows plainly a_text)
unfolding simple_query_data write_query flush_writer ◌>>=◌ go_pg.Wire.Buffer.reset
data-Returns c h = let (w, e) = writes c in rw (e, h) h

copy_from-Returns : Returns Refuses (copy_from_call plainly a_text ((codes "1", none) ∷ []))
unfolding copy_from_call
copy_from-Returns c h = written_first _ c h

copy_out-Returns : Returns Refuses (copy_out_call any_writer)
unfolding copy_out_call
copy_out-Returns c h = flush_first _ c h

-- A handle whose connections all refuse what is written.
abbrev refusing : Db
refusing = record one_retry { conns = λ k. record (one_retry.conns k) { wr_error = some eof } }

calls-Balanced_example :
    Ended Refuses no_rows start_up start_up-Refuses no_hook 0
      (rounds Refuses no_rows start_up start_up-Refuses no_hook
        (simple_query_data no_rows plainly a_text)
        dials
        refusing)
      (query start_up no_rows no_hook (simple_query_data no_rows plainly a_text) dials refusing)
    × Balanced Refuses 0
        (copy_from start_up plainly a_text ((codes "1", none) ∷ []) (dials 0) refusing)
    × Balanced Refuses 0 (copy_to start_up plainly any_writer a_text (dials 0) refusing)
unfolding go_pg.Pool.new_conn_pool
calls-Balanced_example =
    calls-Balanced Refuses no_rows start_up start_up-Refuses no_hook
      (simple_query_data no_rows plainly a_text) plainly a_text ((codes "1", none) ∷ []) any_writer
      dials refusing data-Returns (λ s db h. h) copy_from-Returns write-Returns copy_out-Returns
      (λ k. refl)

-- Nothing is left in the buffer, and the socket refuses what is written.
abbrev Dead : Conn → Type 0
Dead c = (c.wr.bytes ≡ []) × (c.wr_error ≡ some eof)

abbrev dead : Conn → Conn
dead c = record c { wr = record c.wr { bytes = [] }; wr_error = some eof }

same_dead : (c : Conn) → Dead c → c ≡ dead c
same_dead c h =
    ap (λ b. record c { wr = record c.wr { bytes = b } }) h.0
    ∙ ap (λ e. record c { wr = record c.wr { bytes = [] }; wr_error = e }) h.1

some_of : (r : Option WriteBuffer) (b : Bytes) → sent r ≡ some b → (w : WriteBuffer) × (r ≡ some w)
some_of none b h = ground arith
some_of (some w) b h = (w, refl)

ext_query-Good : (c : Conn) → Good Dead (ext_query (codes "1") [] (dead c))
unfolding ext_query go_pg.Message.Startup.write_with flush_writer ◌>>=◌ go_pg.Wire.Buffer.reset
    go_pg.Message.Write.write_bind_execute_msg go_pg.Message.Write.write_sync_msg
    go_pg.Message.Write.write_params go_pg.Wire.Buffer.finish_message go_pg.Wire.Buffer.put_uint32
    go_pg.Wire.Buffer.start_message go_pg.Wire.Buffer.write_int16 go_pg.Wire.Buffer.write_string
    go_pg.Wire.Buffer.write_int32
ext_query-Good c = (refl, refl)

ext_query-Returns : Returns Dead (ext_query (codes "1") [])
ext_query-Returns c h =
    subst (λ d. Good Dead (ext_query (codes "1") [] d)) (sym (same_dead c h)) (ext_query-Good c)

prepare-Good :
    (q : Bytes) (c : Conn) (w : WriteBuffer)
    → write_parse_describe_sync_msg (dead c).wr (decimal (suc c.last_id)) q ≡ some w
    → Good Dead (prepare_call q (dead c))
unfolding prepare_call go_pg.Message.Startup.write_with flush_writer ◌>>=◌ go_pg.Wire.Buffer.reset
    go_pg.Net.next_id
prepare-Good q c w h = rw (h, Good) (refl, refl)

prepare-Returns : (q : Bytes) → Returns Dead (prepare_call q)
prepare-Returns q c h =
    let (w, e) =
      some_of (write_parse_describe_sync_msg (dead c).wr (decimal (suc c.last_id)) q) _
        (write_parse_describe_sync_msg-frames (dead c).wr (decimal (suc c.last_id)) q) in
    subst (λ d. Good Dead (prepare_call q d)) (sym (same_dead c h)) (prepare-Good q c w e)

close-Good :
    (name : Bytes) (c : Conn) (v w : WriteBuffer)
    → write_close_msg (dead c).wr name ≡ some v
    → write_flush_msg v ≡ some w
    → Good Dead (close_stmt name (dead c))
unfolding close_stmt go_pg.Message.Startup.write_with flush_writer ◌>>=◌ go_pg.Wire.Buffer.reset
close-Good name c v w h k = rw (h, k, Good) (refl, refl)

close-Returns : (name : Bytes) → Returns Dead (close_stmt name)
close-Returns name c h =
    let (v, e) =
      some_of (write_close_msg (dead c).wr name) _ (write_close_msg-frame (dead c).wr name) in
    let (w, k) = some_of (write_flush_msg v) _ (write_flush_msg-frame v) in
    subst (λ d. Good Dead (close_stmt name d)) (sym (same_dead c h)) (close-Good name c v w e k)

abbrev a_stmt : Stmt
a_stmt = record {
  cn = some 3;
  in_tx = false;
  q = codes "q";
  name = codes "1";
  columns = [];
  sticky_err = none;
}

-- The handle with its only place taken.
abbrev taken : Db
taken = record refusing { pool = record refusing.pool { queue = 1; conns = 3 ∷ [] } }

stmts-Holds_example :
    Prepared Dead 0 (db_prepare start_up (dials 0) (codes "q") refusing)
    × StillHolds Dead 0 (stmt_exec [] a_stmt taken)
    × GivenBack Dead 0 (stmt_close (dials 0) a_stmt taken)
unfolding go_pg.Pool.new_conn_pool
stmts-Holds_example =
    stmts-Holds Dead close-Returns start_up (dials 0) (codes "q") [] 0 a_stmt refusing taken
      (λ c h. h) (prepare-Returns (codes "q")) ext_query-Returns (λ k. (refl, refl))
      ((3, refl), refl, (refl, λ k. (refl, refl)))

-- The connection after the Parse that the socket has refused.
abbrev after_parse : Conn
after_parse = record (refusing.conns 3) {
  wr = record { bytes = []; msg_start = 20; param_start = 0 };
  last_id = 1;
}

parse_refused : prepare_call (codes "q") (refusing.conns 3) ≡ err eof after_parse
unfolding prepare_call go_pg.Message.Startup.write_with flush_writer ◌>>=◌ go_pg.Wire.Buffer.reset
    go_pg.Net.next_id decimal write_parse_describe_sync_msg go_pg.Message.Write.write_sync_msg
    go_pg.Wire.Buffer.finish_message go_pg.Wire.Buffer.put_uint32 go_pg.Wire.Buffer.start_message
    go_pg.Wire.Buffer.write_int16 go_pg.Wire.Buffer.write_string go_pg.Wire.Buffer.write_byte
parse_refused = refl

tx_prepare-Leaked_example :
    Leaked Dead true 0 3 eof taken.pool
      (tx_prepare start_up (dials 0) (codes "q") (record { cn = some 3; stmts = [] }) taken)
unfolding go_pg.Errors.is_bad_conn
tx_prepare-Leaked_example =
    tx_prepare-Leaked Dead start_up (dials 0) (codes "q") [] taken 3 0 eof after_parse refl
      (refl, λ k. (refl, refl)) (refl, refl) parse_refused

closed-Refused_example :
    (stmt_exec [] (record a_stmt { cn = none }) taken
      ≡ some (
        refused_with (internal_error stmt_closed),
        (record a_stmt { cn = none; sticky_err = some (internal_error stmt_closed) }, taken),
      ))
    × (stmt_query no_rows no_hook [] (record a_stmt { cn = none }) taken
        ≡ some (
          refused_with (internal_error stmt_closed),
          (record a_stmt { cn = none; sticky_err = some (internal_error stmt_closed) }, taken),
        ))
    × (stmt_close (dials 0) (record a_stmt { cn = none }) taken
        ≡ some (some (internal_error stmt_closed), (record a_stmt { cn = none }, taken)))
closed-Refused_example =
    closed-Refused no_rows no_hook (record a_stmt { cn = none }) [] (dials 0) taken refl
