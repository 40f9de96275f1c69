-- ===== src/Listener/Tests.antt =====
-- A listener on a small pool, with a server that sends nothing.
use go_pg.Base.{◌≡◌, refl, sym, ap, subst, true, false, none, some, inl, inr, [], ◌∷◌, ◌++◌, codes}
use go_pg.Errors.{net_error}
use go_pg.Net.{Conn, ok, err}
use go_pg.Message.Copy.{read_notification}
use go_pg.Pool.{new_conn_pool}
use go_pg.Database.{Db, conn, store, mark_inited}
use go_pg.Database.Retries.{Good, Returns}
use go_pg.Database.Tests.{fresh_conn, one_retry, dials, start_up}
use go_pg.Types.Field.{append_field}
use go_pg.Orm.Format.{Formatter}
use go_pg.Listener.{Listener, listen, close, own_conn}
use go_pg.Listener.Laws.{unsubscribed_kept}
use go_pg.Listener.Places.{AllHold, listener-Holds}
use go_pg.Listener.Sent.{Silent, SentOk, identifier_frames, listen-SentOk, listen-Good}

abbrev no_names : Formatter
no_names = record { named_params = none }

abbrev new_listener : Listener
new_listener = record { db = one_retry; channels = []; cn = none; closed = false }

start_up-Silent : Returns Silent start_up
start_up-Silent c h = h

silent : (c : Conn) → Silent c → c ≡ record c { rd = [] }
silent c h = ap (λ r. record c { rd = r }) h

read_notification-Silent : Returns Silent read_notification
unfolding read_notification go_pg.Message.Read.each_message go_pg.Net.Loop.for_ever
    go_pg.Message.Read.round go_pg.Message.Read.read_message_type go_pg.Net.read_byte
    go_pg.Net.◌>>=◌
read_notification-Silent c h =
    subst (λ d. Good Silent (read_notification d)) (sym (silent c h)) refl

listener-Holds_example : AllHold Silent start_up no_names 0 (dials 3) new_listener
unfolding new_conn_pool
listener-Holds_example =
    listener-Holds Silent start_up no_names start_up-Silent (listen-Good no_names) (dials 3) 0
      new_listener read_notification-Silent (refl, λ k. refl)

abbrev closed_listener : Listener
closed_listener = record new_listener { closed = true }

close_new : close new_listener ≡ some (none, closed_listener)
unfolding close
close_new = refl

listen-SentOk_example :
    SentOk
      (fresh_conn.sent
        ++ (fresh_conn.wr.bytes ++ identifier_frames (codes "a" ∷ codes "b\"c" ∷ [])))
      (listen no_names (codes "a" ∷ codes "b\"c" ∷ []) fresh_conn)
listen-SentOk_example =
    listen-SentOk no_names (codes "a" ∷ codes "b\"c" ∷ []) fresh_conn refl
      ((refl, (refl, tt)), ((refl, (refl, (refl, (refl, tt)))), tt))

-- A pool whose connections refuse what is written, and a listener that had a channel.
abbrev refusing : Conn
refusing = record fresh_conn { wr_error = some (net_error true) }

abbrev refused_listener : Listener
refused_listener = record new_listener {
  db = record one_retry { conns = λ k. refusing };
  channels = codes "a" ∷ [];
}

abbrev dialled : Db
dialled =
    mark_inited
      (store
        (record (refused_listener.db) {
          pool = record {
            opt = record { pool_size = 1; idle_timeout = 0; max_age = 0 };
            queue = 1;
            conns = 3 ∷ [];
            free_conns = [];
            stats = record { requests = 1; hits = 0; timeouts = 0 };
            closed = false;
            dropped = [];
          };
        })
        3 refusing)
      3

dialled-conn : conn start_up (dials 3) (refused_listener.db) ≡ some (inr 3, dialled)
unfolding conn go_pg.Pool.Get.get new_conn_pool go_pg.Pool.pop_free go_pg.Pool.add_conn
dialled-conn = refl

abbrev unheard : Conn
unheard = record refusing { wr = record { bytes = []; msg_start = 1; param_start = 0 } }

refused_a : listen no_names (codes "a" ∷ []) (dialled.conns 3) ≡ err (net_error true) unheard
unfolding listen go_pg.Net.flush_writer go_pg.Net.◌>>=◌ go_pg.Message.Write.write_query_msg
    go_pg.Wire.Buffer.finish_message go_pg.Wire.Buffer.put_uint32 go_pg.Wire.Buffer.write_byte
    go_pg.Wire.Buffer.start_message append_field go_pg.Wire.Buffer.reset
refused_a = refl

unsubscribed_kept_example :
    (after : Listener) × (own_conn start_up no_names (dials 3) refused_listener
      ≡ some (inl (net_error true), after))
    × (own_conn start_up no_names (dials 4) after ≡ some (inr 3, after))
unsubscribed_kept_example =
    unsubscribed_kept no_names start_up (dials 3) (dials 4) refused_listener 3 dialled (codes "a")
      [] (net_error true) unheard refl refl refl dialled-conn refused_a
