-- ===== src/Listener/Sent.antt =====
-- What `listen` writes to the connection.
use go_pg.Base.{
  ◌≡◌, refl, sym, ap, subst, ◌∙◌, true, Option, none, some, inr, List, [], ◌∷◌, ◌++◌, Bytes, codes,
  append-nil, append_assoc, arith,
}
use go_pg.Errors.{Error}
use go_pg.Net.{Conn, Outcome, ok, err, panic, no_fuel, ◌>>=◌, flush_writer}
use go_pg.Wire.Buffer.{WriteBuffer}
use go_pg.Wire.Framing.{frame}
use go_pg.Message.Kind.{query_msg}
use go_pg.Message.Write.{query_text, append_query, write_query_msg}
use go_pg.Message.Sent.{appended, sent_or_refused, write_query_msg-frame}
use go_pg.Types.Field.{append_field}
use go_pg.Types.Quoted.{OnePart, identifier, append_field-identifier}
use go_pg.Types.Onto.{append_field-append}
use go_pg.Database.{write_query}
use go_pg.Database.Retries.{Good}
use go_pg.Orm.Format.{Formatter, ends_in, last_param}
use go_pg.Orm.Filled.{Literals, Appends, format-bare}
use go_pg.Orm.Template.{Literal, render}
use go_pg.Orm.Query.{field_param}
use go_pg.Orm.Clauses.{text_or_empty}
use go_pg.Listener.{listen, with_channel}

-- The query for a channel.
abbrev listen_text : Bytes → Bytes
listen_text c = codes "LISTEN " ++ append_field [] c true

field-Appends : (c : Bytes) → Appends (field_param c ∷ [])
field-Appends c = ((λ b. append_field-append b c true), tt)

listen-Literal : Literal (codes "LISTEN ")
unfolding ends_in
listen-Literal = ground arith

nothing-Literals : Literals ([] ∷ [])
unfolding ends_in
nothing-Literals = ground arith

with_channel-appended :
    (f : Formatter) (c dst : Bytes)
    → append_query (with_channel f c) dst (query_text (codes "LISTEN ?"))
      ≡ appended dst (inr (listen_text c))
unfolding append_query last_param render
with_channel-appended f c dst =
    ap (λ o. inr (text_or_empty o))
      (format-bare f dst (codes "LISTEN ") [] [] (field_param c ∷ []) listen-Literal
        nothing-Literals (field-Appends c) refl)
    ∙ ap (λ x. inr (dst ++ (codes "LISTEN " ++ x))) (append-nil (append_field [] c true))

-- The messages for the channels.
abbrev listen_frames : List Bytes → Bytes
listen_frames [] = []
listen_frames (c ∷ cs) = frame query_msg (listen_text c ++ 0 ∷ []) ++ listen_frames cs

abbrev error_in : Option (Option Error × Bytes) → Option Error
error_in none = none
error_in (some p) = p.0

abbrev bytes_in : Option (Option Error × Bytes) → Bytes
bytes_in none = []
bytes_in (some p) = p.1

written :
    (r : Option (Option Error × WriteBuffer)) (b : Bytes)
    → sent_or_refused r ≡ some (none, b)
    → (w : WriteBuffer) × (r ≡ some (none, w)) × (w.bytes ≡ b)
written none b h = absurd cc
written (some (e, w)) b h = (w, ap (λ x. some (x, w)) (ap error_in h), ap bytes_in h)

-- An outcome without error, where the server has been sent `b`.
abbrev pub SentOk : Bytes → Outcome (Unit {0}) → Type 0
SentOk b (ok u c) = c.sent ≡ b
SentOk b (err e c) = ⊥
SentOk b panic = ⊥
SentOk b no_fuel = ⊥

write_query-listen :
    (f : Formatter) (c : Bytes) (cn : Conn)
    → (w : WriteBuffer) × (write_query (with_channel f c) (query_text (codes "LISTEN ?")) cn
        ≡ ok tt (record cn { wr = w }))
      × (w.bytes ≡ cn.wr.bytes ++ frame query_msg (listen_text c ++ 0 ∷ []))
unfolding write_query
write_query-listen f c cn =
    let (w, e, b) =
      written (write_query_msg (with_channel f c) (cn.wr) (query_text (codes "LISTEN ?"))) _ (
        write_query_msg-frame (with_channel f c) (cn.wr) (query_text (codes "LISTEN ?"))
          (inr (listen_text c)) (with_channel-appended f c)) in
    (w, rw e refl, b)

listen-listen_frames :
    (f : Formatter) (cs : List Bytes) (cn : Conn)
    → cn.wr_error ≡ none
    → SentOk (cn.sent ++ (cn.wr.bytes ++ listen_frames cs)) (listen f cs cn)
unfolding listen ◌>>=◌ flush_writer
listen-listen_frames f [] cn h = rw h (ap (λ x. cn.sent ++ x) (sym (append-nil (cn.wr.bytes))))
listen-listen_frames f (c ∷ cs) cn h =
    let (w, e, b) = write_query-listen f c cn in
    rw (e, SentOk)
      (subst (λ t. SentOk (cn.sent ++ t) (listen f cs (record cn { wr = w })))
        (ap (λ x. x ++ listen_frames cs) b ∙ append_assoc (cn.wr.bytes) _ (listen_frames cs))
        (listen-listen_frames f cs (record cn { wr = w }) h))

abbrev pub AllOnePart : List Bytes → Type 0
AllOnePart [] = Unit {0}
AllOnePart (c ∷ cs) = OnePart c × AllOnePart cs

-- A query `LISTEN "<channel>"` for each channel.
abbrev pub identifier_frames : List Bytes → Bytes
identifier_frames [] = []
identifier_frames (c ∷ cs) =
    frame query_msg ((codes "LISTEN " ++ identifier c) ++ 0 ∷ []) ++ identifier_frames cs

listen_frames-identifier :
    (cs : List Bytes) → AllOnePart cs → listen_frames cs ≡ identifier_frames cs
listen_frames-identifier [] h = refl
listen_frames-identifier (c ∷ cs) h =
    rw (append_field-identifier c h.0, listen_frames-identifier cs h.1) refl

-- On a connection that accepts what is written, `listen` on channels whose names are not empty, hold no dot
-- and do not begin with a `*` sends one query for each channel, in their order, behind what stood in the
-- buffer: LISTEN with the name between double quotes, the double quotes in it doubled.
pub listen-SentOk :
    (f : Formatter) (cs : List Bytes) (cn : Conn)
    → cn.wr_error ≡ none
    → AllOnePart cs
    → SentOk (cn.sent ++ (cn.wr.bytes ++ identifier_frames cs)) (listen f cs cn)
listen-SentOk f cs cn h a =
    subst (λ b. SentOk (cn.sent ++ (cn.wr.bytes ++ b)) (listen f cs cn))
      (listen_frames-identifier cs a) (listen-listen_frames f cs cn h)

-- The server sends nothing.
abbrev pub Silent : Conn → Type 0
Silent c = c.rd ≡ []

flush_writer-Good :
    (cn : Conn) (e : Option Error) → cn.wr_error ≡ e → Silent cn → Good Silent (flush_writer cn)
unfolding flush_writer
flush_writer-Good cn none g h = rw (g, Good) h
flush_writer-Good cn (some e) g h = rw (g, Good) h

pub listen-Good :
    (f : Formatter) (cs : List Bytes) (cn : Conn) → Silent cn → Good Silent (listen f cs cn)
unfolding listen ◌>>=◌
listen-Good f [] cn h = flush_writer-Good cn (cn.wr_error) refl h
listen-Good f (c ∷ cs) cn h =
    let (w, e, b) = write_query-listen f c cn in
    rw (e, Good) (listen-Good f cs (record cn { wr = w }) h)
