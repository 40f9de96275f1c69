-- ===== src/Message/Total.antt =====
-- Termination of the readers of messages.go.
use go_pg.Base.{
  ℕ, zero, suc, ◌+◌, ◌<◌, ◌≡◌, ◌≢◌, true, false, none, some, List, [], ◌∷◌, ◌++◌, Bytes, length,
  ◌==◌, if◌then◌else◌, arith,
}
use go_pg.Base.Int.{ℤ, pos}
use go_pg.Net.{Conn, Outcome, ok, err, panic, no_fuel, M, pure, fail}
use go_pg.Net.Loop.{Step, more}
use go_pg.Net.Laws.{
  Shorter, Bounded, Eats, for_ever-Bounded, >>=-Bounded, pure-Bounded, fail-Bounded, read_n-Bounded,
}
use go_pg.Message.Rules.{message_shrinking, each_message-Bounded}
use go_pg.Message.Query.{
  complete, ready, count_row, keep_error, replace_error, simple_query_switch, read_simple_query,
  ext_query_switch, read_ext_query, ready_for_query_switch, read_ready_for_query,
}
use go_pg.Message.Read.{Progress, log_notice}
use go_pg.Message.Prepare.{
  Slice, line, full, ended, put_front, read_slice, read_chunk, buffer_size, read_bytes,
  read_columns, read_row_description, read_and_return, parse_describe_sync_switch,
  read_parse_describe_sync, bind_switch, read_bind_msg, close_complete_switch,
  read_close_complete_msg,
}
use go_pg.Message.Copy.{
  read_copy_in_response, copy_in_switch, copy_out_switch, read_copy_out_response, Writer, Copied,
  write_chunk, copy_data_switch, read_copy_data, notification_switch, read_notification,
  read_notification_body,
}

not_out_of_fuel : {A : Type 0} {m : M A} → Bounded m → (c : Conn) → m c ≢ no_fuel
not_out_of_fuel {A} {m} h c = after (m c) (h.apply c)
  where
    after : (o : Outcome A) → Shorter c o → o ≢ no_fuel
    after (ok a d) s = λ e. cc
    after (err x d) s = λ e. cc
    after panic s = λ e. cc
    after no_fuel s = absurd s

simple_query_switch-Bounded : (c : ℕ) (n : ℤ) (p : Progress) → Bounded (simple_query_switch c n p)
unfolding simple_query_switch complete ready count_row keep_error
simple_query_switch-Bounded c n p = search message_shrinking depth 12

ext_query_switch-Bounded : (c : ℕ) (n : ℤ) (p : Progress) → Bounded (ext_query_switch c n p)
unfolding ext_query_switch complete ready count_row keep_error
ext_query_switch-Bounded c n p = search message_shrinking depth 12

ready_for_query_switch-Bounded :
    (c : ℕ) (n : ℤ) (p : Progress) → Bounded (ready_for_query_switch c n p)
unfolding ready_for_query_switch complete ready replace_error
ready_for_query_switch-Bounded c n p = search message_shrinking depth 12

-- `readBytes` makes progress because the buffer has room for a byte.
abbrev Rest : ℕ → Bytes → Slice → Type 0
Rest size b (line l rest) = length rest < length b
Rest size b (full l rest) = length rest + size ≡ length b
Rest size b ended = Unit

put_front-Rest :
    (size x : ℕ) (b : Bytes) (s : Slice) → Rest size b s → Rest (suc size) (x ∷ b) (put_front x s)
put_front-Rest size x b (line l rest) h = omega arith
put_front-Rest size x b (full l rest) h = omega arith
put_front-Rest size x b ended h = tt

pub read_slice-Rest : (size : ℕ) (b : Bytes) → Rest size b (read_slice size b)
unfolding read_slice
read_slice-Rest zero b = omega arith
read_slice-Rest (suc k) [] = tt
read_slice-Rest (suc k) (x ∷ b) =
    elim (x == 0)
      as (λ t. Rest (suc k) (x ∷ b) (if t then line [] b else put_front x (read_slice k b))) [
        | true ↦ omega arith
        | false ↦ put_front-Rest k x b (read_slice k b) (read_slice-Rest k b)
      ]

read_chunk-Eats : (size : ℕ) (b : Bytes) → 0 < size → Eats (read_chunk size b)
unfolding read_chunk
read_chunk-Eats size b room = record { apply = λ c. ground (arith, read_slice-Rest size c.rd) }

read_bytes-Bounded : Bounded read_bytes
unfolding read_bytes
read_bytes-Bounded = for_ever-Bounded (λ b. read_chunk-Eats buffer_size b (omega arith)) []

read_columns-Bounded : (n : ℕ) (cols : List Bytes) → Bounded (read_columns n cols)
unfolding read_columns
read_columns-Bounded zero cols = pure-Bounded cols
read_columns-Bounded (suc n) cols =
    >>=-Bounded read_bytes-Bounded
      λ name. >>=-Bounded (read_n-Bounded (pos 18)) (λ r. read_columns-Bounded n _)

pub read_row_description-Bounded : Bounded read_row_description
unfolding read_row_description
read_row_description-Bounded = search (message_shrinking, read_columns-Bounded) depth 8

pub read_and_return-Bounded : {S R : Type 0} (n : ℤ) (r : R) → Bounded (read_and_return {S = S} n r)
unfolding read_and_return
read_and_return-Bounded n r = search message_shrinking

parse_describe_sync_switch-Bounded :
    (c : ℕ) (n : ℤ) (cols : List Bytes) → Bounded (parse_describe_sync_switch c n cols)
unfolding parse_describe_sync_switch
parse_describe_sync_switch-Bounded c n cols =
    search (message_shrinking, read_row_description-Bounded, read_and_return-Bounded) depth 12

bind_switch-Bounded : (c : ℕ) (n : ℤ) (u : Unit {0}) → Bounded (bind_switch c n u)
unfolding bind_switch
bind_switch-Bounded c n u = search (message_shrinking, read_and_return-Bounded) depth 12

close_complete_switch-Bounded :
    (c : ℕ) (n : ℤ) (u : Unit {0}) → Bounded (close_complete_switch c n u)
unfolding close_complete_switch
close_complete_switch-Bounded c n u = search (message_shrinking, read_and_return-Bounded) depth 12

copy_in_switch-Bounded : (c : ℕ) (n : ℤ) (u : Unit {0}) → Bounded (copy_in_switch c n u)
unfolding copy_in_switch
copy_in_switch-Bounded c n u = search (message_shrinking, read_and_return-Bounded) depth 12

copy_out_switch-Bounded : (c : ℕ) (n : ℤ) (u : Unit {0}) → Bounded (copy_out_switch c n u)
unfolding copy_out_switch
copy_out_switch-Bounded c n u = search (message_shrinking, read_and_return-Bounded) depth 12

write_chunk-Bounded : (w : Writer) (s : Copied) (b : Bytes) → Bounded (write_chunk w s b)
unfolding write_chunk
write_chunk-Bounded w s b =
    elim (w s.chunks b)
      as (λ r. Bounded {A = Step Copied Copied} (elim r [
        | none ↦ pure (more (record s { chunks = s.chunks ++ b ∷ [] }))
        | some e ↦ fail e
      ])) [ none ↦ pure-Bounded _ | some e ↦ fail-Bounded e ]

copy_data_switch-Bounded :
    (w : Writer) (c : ℕ) (n : ℤ) (s : Copied) → Bounded (copy_data_switch w c n s)
unfolding copy_data_switch
copy_data_switch-Bounded w c n s =
    search (message_shrinking, read_and_return-Bounded, write_chunk-Bounded) depth 12

notification_switch-Bounded : (c : ℕ) (n : ℤ) (u : Unit {0}) → Bounded (notification_switch c n u)
unfolding notification_switch read_notification_body log_notice
notification_switch-Bounded c n u = search message_shrinking depth 12

-- The loops over messages, on one connection.
abbrev pub ReadersEnd : Conn → Type 0
ReadersEnd c =
    (read_simple_query c ≢ no_fuel)
    × (read_ext_query c ≢ no_fuel)
    × (read_ready_for_query c ≢ no_fuel)
    × (read_parse_describe_sync c ≢ no_fuel)
    × (read_bind_msg c ≢ no_fuel)
    × (read_close_complete_msg c ≢ no_fuel)
    × (read_copy_in_response c ≢ no_fuel)
    × (read_copy_out_response c ≢ no_fuel)
    × ((w : Writer) → read_copy_data w c ≢ no_fuel)
    × (read_notification c ≢ no_fuel)

-- None of the ten readers runs for ever: on every connection, whatever bytes it still delivers, the
-- loop of each is left by a result, an error or a panic.
pub readers-ReadersEnd : (c : Conn) → ReadersEnd c
unfolding read_simple_query read_ext_query read_ready_for_query read_parse_describe_sync
    read_bind_msg read_close_complete_msg read_copy_in_response read_copy_out_response
    read_copy_data read_notification
readers-ReadersEnd c = (
  not_out_of_fuel (each_message-Bounded simple_query_switch-Bounded _) c,
  not_out_of_fuel (each_message-Bounded ext_query_switch-Bounded _) c,
  not_out_of_fuel (each_message-Bounded ready_for_query_switch-Bounded _) c,
  not_out_of_fuel (each_message-Bounded parse_describe_sync_switch-Bounded _) c,
  not_out_of_fuel (each_message-Bounded bind_switch-Bounded _) c,
  not_out_of_fuel (each_message-Bounded close_complete_switch-Bounded _) c,
  not_out_of_fuel (each_message-Bounded copy_in_switch-Bounded _) c,
  not_out_of_fuel (each_message-Bounded copy_out_switch-Bounded _) c,
  (λ w. not_out_of_fuel (each_message-Bounded (copy_data_switch-Bounded w) _) c),
  not_out_of_fuel (each_message-Bounded notification_switch-Bounded _) c,
)
