-- ===== src/Database/Tests.antt =====
-- db.go and tx.go on a small pool.
use go_pg.Base.{
  ℕ, ◌≡◌, refl, sym, ap, subst, ◌∙◌, Option, [], ◌++◌, codes, true, false, none, some, inr, Bytes,
  List, ◌∷◌, suc,
}
use go_pg.Base.Int.{pos}
use go_pg.Errors.{Error, eof}
use go_pg.Net.{Conn, Outcome, ok, err, M}
use go_pg.Message.Read.{Reply}
use go_pg.Wire.Buffer.{WriteBuffer}
use go_pg.Database.Tx.{TxFn, run_in_transaction, Stmt, close_stmt, end_tx, begin}
use go_pg.Database.Endings.{Left, Says, Closed, EndsFn, end_tx-Over, run_in_transaction-Over}
use go_pg.Database.Begins.{Began, begin-Began}
use go_pg.Message.Write.{write_close_msg, write_flush_msg, Format, query_text}
use go_pg.Pool.{new_conn_pool}
use go_pg.Pool.Get.{Env, get}
use go_pg.Database.{Db, DbOptions, exec, simple_query, conn, store, mark_inited}
use go_pg.Database.Retries.{Returns, Good, Balanced, exec-Balanced}

abbrev pub fresh_conn : Conn
fresh_conn = record {
  rd = [];
  rd_end = eof;
  wr = record { bytes = []; msg_start = 0; param_start = 0 };
  sent = [];
  wr_error = none;
  columns = [];
  process_id = pos 0;
  secret_key = pos 0;
  last_id = 0;
  remote_addr = [];
}

abbrev pub one_retry : Db
one_retry = record {
  opt = record { max_retries = 1; retry_statement_timeout = false; disable_transaction = false };
  pool = new_conn_pool (record { pool_size = 1; idle_timeout = 0; max_age = 0 });
  conns = λ cn. fresh_conn;
  inited = λ cn. false;
}

-- Each round dials another connection.
abbrev pub dials : ℕ → Env
dials i = record {
  in_time = true;
  now = 5;
  info = λ cn. record { used_at = 5; inited_at = 5; has_unread = false };
  dial = inr i;
}

abbrev pub start_up : M (Unit {0})
start_up c = ok tt c

-- The peer is gone, and nothing is left in the buffer.
abbrev Gone : Conn → Type 0
Gone c = (c.rd ≡ []) × (c.wr.bytes ≡ [])

abbrev pub plainly : Format
plainly dst q = dst ++ q

abbrev a_query : M Reply
a_query = simple_query plainly (query_text (codes "q"))

start_up-Returns : Returns Gone start_up
start_up-Returns c h = h

-- The connection `c` with no peer, where writing fails with `e`.
abbrev gone : Conn → Option Error → Conn
gone c e = record c { rd = []; wr = record c.wr { bytes = [] }; wr_error = e }

gone-Good : (c : Conn) (e : Option Error) → Good Gone (a_query (gone c e))
unfolding simple_query go_pg.Database.write_query go_pg.Net.flush_writer
    go_pg.Message.Query.read_simple_query go_pg.Net.◌>>=◌ go_pg.Message.Write.write_query_msg
    go_pg.Wire.Buffer.finish_message go_pg.Wire.Buffer.put_uint32 go_pg.Wire.Buffer.write_byte
    go_pg.Wire.Buffer.start_message go_pg.Message.Read.each_message go_pg.Net.Loop.for_ever
    go_pg.Message.Read.round go_pg.Message.Read.read_message_type go_pg.Net.read_byte
    go_pg.Wire.Buffer.reset
gone-Good c none = (refl, refl)
gone-Good c (some e) = (refl, refl)

same_gone : (c : Conn) → Gone c → c ≡ gone c c.wr_error
same_gone c h =
    ap (λ r. record c { rd = r }) h.0
    ∙ ap (λ b. record c { rd = []; wr = record c.wr { bytes = b } }) h.1

a_query-Returns : Returns Gone a_query
a_query-Returns c h =
    subst (λ d. Good Gone (a_query d)) (sym (same_gone c h)) (gone-Good c c.wr_error)

-- Both rounds lose their connection, and neither keeps the only place.
exec-Balanced_example : Balanced Gone 0 (exec start_up a_query dials one_retry)
unfolding new_conn_pool
exec-Balanced_example =
    exec-Balanced Gone start_up start_up-Returns a_query dials one_retry a_query-Returns
      (λ k. (refl, refl))

-- The peer is gone, and what is written is still taken.
abbrev Writable : Conn → Type 0
Writable c = (c.rd ≡ []) × (c.wr.bytes ≡ []) × (c.wr_error ≡ none)

same-Writable : (c : Conn) → Writable c → c ≡ gone c none
same-Writable c h =
    same_gone c (h.0, h.1)
    ∙ ap (λ e. record c { rd = []; wr = record c.wr { bytes = [] }; wr_error = e }) h.2

abbrev query_frame : ℕ → Bytes → Bytes
query_frame n q = b'Q' ∷ 0 ∷ 0 ∷ 0 ∷ n ∷ (q ++ 0 ∷ [])

-- What closes a statement whose name has one byte.
abbrev goodbye : Bytes → Bytes
goodbye name = b'C' ∷ 0 ∷ 0 ∷ 0 ∷ 7 ∷ b'S' ∷ (name ++ 0 ∷ b'H' ∷ 0 ∷ 0 ∷ 0 ∷ 4 ∷ [])

close_gone :
    (c : Conn)
    → Left Writable
        (λ d. d.sent)
        (c.sent ++ goodbye (codes "1"))
        (close_stmt (codes "1") (gone c none))
unfolding close_stmt go_pg.Message.Startup.write_with go_pg.Net.flush_writer go_pg.Net.◌>>=◌
    go_pg.Message.Prepare.read_close_complete_msg go_pg.Message.Read.each_message
    go_pg.Net.Loop.for_ever go_pg.Message.Read.round go_pg.Message.Read.read_message_type
    go_pg.Net.read_byte go_pg.Wire.Buffer.reset go_pg.Message.Write.write_close_msg
    go_pg.Message.Write.write_flush_msg go_pg.Wire.Buffer.finish_message
    go_pg.Wire.Buffer.put_uint32 go_pg.Wire.Buffer.write_byte go_pg.Wire.Buffer.start_message
    go_pg.Wire.Buffer.write_string
close_gone c = ((refl, refl, refl), refl)

close_stmt-Says : Says Writable (λ d. d.sent) (goodbye (codes "1")) (close_stmt (codes "1"))
close_stmt-Says c h =
    subst
      (λ d. Left Writable (λ d. d.sent) (d.sent ++ goodbye (codes "1")) (close_stmt (codes "1") d))
      (sym (same-Writable c h)) (close_gone c)

abbrev commit_query : M Reply
commit_query = simple_query plainly (query_text (codes "COMMIT"))

abbrev commit_frame : Bytes
commit_frame = query_frame 11 (codes "COMMIT")

commit_gone :
    (c : Conn) → Left Writable (λ d. d.sent) (c.sent ++ commit_frame) (commit_query (gone c none))
unfolding simple_query go_pg.Database.write_query go_pg.Net.flush_writer
    go_pg.Message.Query.read_simple_query go_pg.Net.◌>>=◌ go_pg.Message.Write.write_query_msg
    go_pg.Wire.Buffer.finish_message go_pg.Wire.Buffer.put_uint32 go_pg.Wire.Buffer.write_byte
    go_pg.Wire.Buffer.start_message go_pg.Message.Read.each_message go_pg.Net.Loop.for_ever
    go_pg.Message.Read.round go_pg.Message.Read.read_message_type go_pg.Net.read_byte
    go_pg.Wire.Buffer.reset
commit_gone c = ((refl, refl, refl), refl)

commit_query-Says : Says Writable (λ d. d.sent) commit_frame commit_query
commit_query-Says c h =
    subst (λ d. Left Writable (λ d. d.sent) (d.sent ++ commit_frame) (commit_query d))
      (sym (same-Writable c h)) (commit_gone c)

abbrev one_stmt : List Stmt
one_stmt =
    record {
      cn = some 3;
      in_tx = true;
      q = codes "q";
      name = codes "1";
      columns = [];
      sticky_err = none;
    }
    ∷ []

-- A handle whose only place is taken by a transaction.
abbrev in_tx : Db
in_tx = record one_retry {
  pool = record {
    opt = record { pool_size = 1; idle_timeout = 0; max_age = 0 };
    queue = 1;
    conns = 3 ∷ [];
    free_conns = [];
    stats = record { requests = 1; hits = 0; timeouts = 0 };
    closed = false;
    dropped = [];
  };
}

abbrev rollback_query : M Reply
rollback_query = simple_query plainly (query_text (codes "ROLLBACK"))

abbrev rollback_frame : Bytes
rollback_frame = query_frame 13 (codes "ROLLBACK")

rollback_gone :
    (c : Conn)
    → Left Writable (λ d. d.sent) (c.sent ++ rollback_frame) (rollback_query (gone c none))
unfolding simple_query go_pg.Database.write_query go_pg.Net.flush_writer
    go_pg.Message.Query.read_simple_query go_pg.Net.◌>>=◌ go_pg.Message.Write.write_query_msg
    go_pg.Wire.Buffer.finish_message go_pg.Wire.Buffer.put_uint32 go_pg.Wire.Buffer.write_byte
    go_pg.Wire.Buffer.start_message go_pg.Message.Read.each_message go_pg.Net.Loop.for_ever
    go_pg.Message.Read.round go_pg.Message.Read.read_message_type go_pg.Net.read_byte
    go_pg.Wire.Buffer.reset
rollback_gone c = ((refl, refl, refl), refl)

rollback_query-Says : Says Writable (λ d. d.sent) rollback_frame rollback_query
rollback_query-Says c h =
    subst (λ d. Left Writable (λ d. d.sent) (d.sent ++ rollback_frame) (rollback_query d))
      (sym (same-Writable c h)) (rollback_gone c)

-- COMMIT and the closing of the statement were sent, the connection is lost and closed, and its place is free.
end_tx-Over_example :
    Closed Writable
      (λ c. c.sent)
      (dials 0)
      (some eof)
      3
      in_tx.pool
      0
      (commit_frame ++ (goodbye (codes "1") ++ []))
      (end_tx start_up plainly
        (codes "COMMIT")
        (dials 0)
        (record { cn = some 3; stmts = one_stmt })
        in_tx)
unfolding simple_query go_pg.Net.◌>>=◌ go_pg.Database.write_query
    go_pg.Message.Write.write_query_msg go_pg.Wire.Buffer.finish_message
    go_pg.Wire.Buffer.put_uint32 go_pg.Wire.Buffer.write_byte go_pg.Wire.Buffer.start_message
    go_pg.Net.flush_writer go_pg.Message.Query.read_simple_query go_pg.Message.Read.each_message
    go_pg.Net.Loop.for_ever go_pg.Message.Read.round go_pg.Message.Read.read_message_type
    go_pg.Net.read_byte
end_tx-Over_example =
    end_tx-Over Writable (λ c. c.sent) start_up plainly (codes "COMMIT") commit_frame goodbye
      (dials 0) in_tx 3 0 one_stmt commit_query-Says refl ((refl, refl, close_stmt-Says), tt)
      (refl, λ k. (refl, refl, refl))

-- A function that fails and leaves all as it is.
abbrev gives_up : TxFn
gives_up tx db = some (some eof, (tx, db))

run_in_transaction-Over_example :
    EndsFn Writable
      (λ c. c.sent)
      plainly
      (dials 0)
      3
      goodbye
      0
      commit_frame
      rollback_frame
      (some (some eof, (record { cn = some 3; stmts = one_stmt }, in_tx)))
      (run_in_transaction start_up plainly
        (dials 0)
        gives_up
        (record { cn = some 3; stmts = one_stmt })
        in_tx)
run_in_transaction-Over_example =
    run_in_transaction-Over Writable (λ c. c.sent) start_up plainly (dials 0) gives_up
      (record { cn = some 3; stmts = one_stmt }) in_tx 3 0 commit_frame rollback_frame goodbye
      commit_query-Says rollback_query-Says
      (refl, ((refl, refl, close_stmt-Says), tt), refl, (refl, λ k. (refl, refl, refl)))

-- The handle behind a `Begin` that has dialled connection 0.
abbrev dialled : Db
dialled =
    mark_inited
      (store
        (record one_retry {
          pool = record (new_conn_pool (record { pool_size = 1; idle_timeout = 0; max_age = 0 })) {
            queue = 1;
            conns = 0 ∷ [];
            stats = record { requests = 1; hits = 0; timeouts = 0 };
          };
        })
        0 fresh_conn)
      0

dialled-conn : conn start_up (dials 0) one_retry ≡ some (inr 0, dialled)
unfolding conn get new_conn_pool go_pg.Pool.pop_free go_pg.Pool.add_conn
dialled-conn = refl

abbrev begin_query : M Reply
begin_query = simple_query plainly (query_text (codes "BEGIN"))

begin-Good : (c : Conn) (e : Option Error) → Good Gone (begin_query (gone c e))
unfolding simple_query go_pg.Database.write_query go_pg.Net.flush_writer
    go_pg.Message.Query.read_simple_query go_pg.Net.◌>>=◌ go_pg.Message.Write.write_query_msg
    go_pg.Wire.Buffer.finish_message go_pg.Wire.Buffer.put_uint32 go_pg.Wire.Buffer.write_byte
    go_pg.Wire.Buffer.start_message go_pg.Message.Read.each_message go_pg.Net.Loop.for_ever
    go_pg.Message.Read.round go_pg.Message.Read.read_message_type go_pg.Net.read_byte
    go_pg.Wire.Buffer.reset
begin-Good c none = (refl, refl)
begin-Good c (some e) = (refl, refl)

begin_query-Returns : Returns Gone begin_query
begin_query-Returns c h =
    subst (λ d. Good Gone (begin_query d)) (sym (same_gone c h)) (begin-Good c c.wr_error)

begin-Began_example :
    Began Gone 0 dialled.pool (begin_query fresh_conn) (begin start_up plainly (dials 0) one_retry)
    × (dialled.pool.queue ≡ suc one_retry.pool.queue)
begin-Began_example =
    begin-Began Gone start_up plainly (dials 0) one_retry dialled 0 start_up-Returns
      begin_query-Returns (λ k. (refl, refl)) refl dialled-conn
