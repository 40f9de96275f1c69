-- ===== src/Message/Replies.antt =====
-- The readers of query results against what a server may answer: a list of messages, and then
-- ReadyForQuery. The answer's meaning is stated on the list, with no reader in sight.
use go_pg.Base.{
  ℕ, zero, suc, ◌+◌, ◌^◌, ◌≤◌, ◌<◌, ◌≡◌, ◌⊎◌, refl, Option, none, some, List, [], ◌∷◌, ◌++◌, Bytes,
  length, arith, append_assoc, inl, inr, length-append,
}
use go_pg.Base.Int.{ℤ, pos}
use go_pg.Errors.{Error, PgFields, pg_error}
use go_pg.Net.{Conn, ok, M, pure, ◌>>=◌, ◌>>◌, or_panic}
use go_pg.Net.Loop.{Step, more, for_ever, rounds}
use go_pg.Types.Result.{PgResult, new_result}
use go_pg.Wire.Framing.{frame}
use go_pg.Message.Kind.{
  command_complete_msg, ready_for_query_msg, row_description_msg, data_row_msg, error_response_msg,
  bind_complete_msg, notice_response_msg, parameter_status_msg,
}
use go_pg.Message.Read.{
  round, each_message, skip, notice_or_unexpected, log_notice, log_parameter_status, Progress,
  Reply, no_progress, set_err, set_res,
}
use go_pg.Message.Query.{
  complete, ready, count_row, keep_error, simple_query_switch, read_simple_query, ext_query_switch,
  read_ext_query,
}
use go_pg.Message.Frames.{
  with_rd, read_n-append, read_message_type-frame, GoodFields, fields_text, stored,
  read_error-fields,
}

-- A message of the server: one that a reader drops, with its type; a row; the end of a command, with
-- the count that its tag stands for; an error.
pub data ServerMsg : Type 0 where
  dropped : ℕ → Bytes → ServerMsg
  row : Bytes → ServerMsg
  finished : Bytes → ℤ → ServerMsg
  failed : PgFields → ServerMsg

abbrev pub body_of : ServerMsg → Bytes
body_of (dropped k b) = b
body_of (row b) = b
body_of (finished tag n) = tag
body_of (failed fs) = fields_text fs ++ 0 ∷ []

abbrev pub kind_of : ServerMsg → ℕ
kind_of (dropped k b) = k
kind_of (row b) = data_row_msg
kind_of (finished tag n) = command_complete_msg
kind_of (failed fs) = error_response_msg

abbrev pub encode : ServerMsg → Bytes
encode m = frame (kind_of m) (body_of m)

-- The server's text, with `rest` behind it.
abbrev pub transcript : List ServerMsg → Bytes → Bytes
transcript [] rest = rest
transcript (m ∷ ms) rest = encode m ++ transcript ms rest

-- What a reader may be sent: messages whose length fits an int32, with well-formed contents, and to
-- drop only those of the types `P`.
abbrev pub Sound : (ℕ → Type 0) → ServerMsg → Type 0
Sound P (dropped k b) = P k
Sound P (row b) = Unit {0}
Sound P (finished tag n) =
    (rows : ℕ) → new_result tag rows ≡ some (record { affected = n; returned = rows })
Sound P (failed fs) = GoodFields fs

abbrev pub AllSound : (ℕ → Type 0) → List ServerMsg → Type 0
AllSound P [] = Unit {0}
AllSound P (m ∷ ms) = (length (body_of m) + 4 < 2 ^ 31) × Sound P m × AllSound P ms

-- The result of the last command, which counts the rows sent before it.
abbrev pub last_result : ℕ → Option PgResult → List ServerMsg → Option PgResult
last_result rows r [] = r
last_result rows r (dropped k b ∷ ms) = last_result rows r ms
last_result rows r (row b ∷ ms) = last_result (suc rows) r ms
last_result rows r (finished tag n ∷ ms) =
    last_result rows (some (record { affected = n; returned = rows })) ms
last_result rows r (failed fs ∷ ms) = last_result rows r ms

-- An error response as a Go error: its fields, and the peer's address.
abbrev pub failure : Conn → PgFields → Error
failure c fs = pg_error (stored ((b'a', c.remote_addr) ∷ []) fs)

abbrev pub first_failure : Conn → List ServerMsg → Option Error
first_failure c [] = none
first_failure c (failed fs ∷ ms) = some (failure c fs)
first_failure c (dropped k b ∷ ms) = first_failure c ms
first_failure c (row b ∷ ms) = first_failure c ms
first_failure c (finished tag n ∷ ms) = first_failure c ms

-- What one message does to the variables of a reader that keeps the first error.
abbrev apply : Conn → Progress → ServerMsg → Progress
apply c p (dropped k b) = p
apply c p (row b) = record p { rows = suc p.rows }
apply c p (finished tag n) = set_res p (record { affected = n; returned = p.rows })
apply c p (failed fs) = set_err p (failure c fs)

abbrev apply_all : Conn → Progress → List ServerMsg → Progress
apply_all c p [] = p
apply_all c p (m ∷ ms) = apply_all c (apply c p m) ms

apply_all-res :
    (c : Conn) (p : Progress) (ms : List ServerMsg)
    → (apply_all c p ms).reply.res ≡ last_result p.rows p.reply.res ms
apply_all-res c p [] = refl
apply_all-res c p (dropped k b ∷ ms) = apply_all-res c p ms
apply_all-res c p (row b ∷ ms) = apply_all-res c (apply c p (row b)) ms
apply_all-res c p (finished tag n ∷ ms) = apply_all-res c (apply c p (finished tag n)) ms
apply_all-res c p (failed fs ∷ ms) = apply_all-res c (apply c p (failed fs)) ms

abbrev or_first : Option Error → Option Error → Option Error
or_first none e = e
or_first (some x) e = some x

apply_all-err :
    (c : Conn) (p : Progress) (ms : List ServerMsg)
    → (apply_all c p ms).reply.ret_err ≡ or_first p.reply.ret_err (first_failure c ms)
apply_all-err c p [] = ground arith
apply_all-err c p (dropped k b ∷ ms) = apply_all-err c p ms
apply_all-err c p (row b ∷ ms) = apply_all-err c (apply c p (row b)) ms
apply_all-err c p (finished tag n ∷ ms) = apply_all-err c (apply c p (finished tag n)) ms
apply_all-err c p (failed fs ∷ ms) = ground (arith, apply_all-err c (apply c p (failed fs)) ms)

-- The switch does to each message what `apply` says, and returns at ReadyForQuery.
module _ (switch : ℕ → ℤ → Progress → M (Step Progress Reply)) (P : ℕ → Type 0)
    (drops : (k : ℕ) (b rest : Bytes) (p : Progress) (c : Conn)
      → P k
      → switch k (pos (length b)) p (with_rd c (b ++ rest)) ≡ ok (more p) (with_rd c rest))
    (takes_row : (n : ℤ) (p : Progress) → switch data_row_msg n p ≡ count_row n p)
    (takes_tag : (n : ℤ) (p : Progress) → switch command_complete_msg n p ≡ complete n p)
    (takes_error : (n : ℤ) (p : Progress) → switch error_response_msg n p ≡ keep_error p)
    (takes_ready : (n : ℤ) (p : Progress) → switch ready_for_query_msg n p ≡ ready n p) where
  switch-apply :
      (c : Conn) (p : Progress) (m : ServerMsg) (rest : Bytes)
      → Sound P m
      → switch (kind_of m) (pos (length (body_of m))) p (with_rd c (body_of m ++ rest))
        ≡ ok (more (apply c p m)) (with_rd c rest)
  unfolding complete ready count_row keep_error ◌>>=◌ ◌>>◌ pure or_panic
  switch-apply c p (dropped k b) rest h = drops k b rest p c h
  switch-apply c p (row b) rest h = rw takes_row (rw (read_n-append c b rest))
  switch-apply c p (finished tag n) rest h =
      rw takes_tag (rw (read_n-append c tag rest) (rw (h p.rows)))
  switch-apply c p (failed fs) rest h =
      rw (takes_error, append_assoc (fields_text fs) (0 ∷ []) rest)
        (rw (read_error-fields c fs rest h))

  rounds-transcript :
      (ms : List ServerMsg) (c : Conn) (p : Progress) (status rest : Bytes) (fuel : ℕ)
      → AllSound P ms
      → length status + 4 < 2 ^ 31
      → length ms < fuel
      → rounds
          (round switch)
          fuel
          p
          (with_rd c (transcript ms (frame ready_for_query_msg status ++ rest)))
        ≡ ok (apply_all c p ms).reply (with_rd c rest)
  unfolding rounds round ◌>>=◌ ready ◌>>◌ pure
  rounds-transcript ms c p status rest zero g s h = absurd (omega arith)
  rounds-transcript [] c p status rest (suc fuel) g s h =
      rw (read_message_type-frame c ready_for_query_msg status rest s)
        (rw takes_ready (rw (read_n-append c status rest)))
  rounds-transcript (m ∷ ms) c p status rest (suc fuel) g s h =
      rw (read_message_type-frame c (kind_of m) (body_of m) _ g.0) (
        rw (switch-apply c p m _ g.1)
          (rounds-transcript ms c (apply c p m) status rest fuel g.2 s (omega arith)))

length-transcript : (ms : List ServerMsg) (rest : Bytes) → length ms ≤ length (transcript ms rest)
length-transcript [] rest = omega arith
length-transcript (m ∷ ms) rest =
    omega (arith, length-append {0} (encode m) (transcript ms rest), length-transcript ms rest)

-- What a query returns for these messages.
abbrev pub answer : Conn → List ServerMsg → Reply
answer c ms = record { res = last_result 0 none ms; ret_err = first_failure c ms }

answer-apply_all :
    (c : Conn) (ms : List ServerMsg) → (apply_all c no_progress ms).reply ≡ answer c ms
answer-apply_all c ms =
    ground (arith, apply_all-res c no_progress ms, apply_all-err c no_progress ms)

-- The types of the messages that each reader drops.
abbrev pub SimpleDrops : ℕ → Type 0
SimpleDrops k = (k ≡ row_description_msg) ⊎ ((k ≡ notice_response_msg) ⊎ (k ≡ parameter_status_msg))

abbrev pub ExtDrops : ℕ → Type 0
ExtDrops k = (k ≡ bind_complete_msg) ⊎ ((k ≡ notice_response_msg) ⊎ (k ≡ parameter_status_msg))

simple_drops :
    (k : ℕ) (b rest : Bytes) (p : Progress) (c : Conn)
    → SimpleDrops k
    → simple_query_switch k (pos (length b)) p (with_rd c (b ++ rest))
      ≡ ok (more p) (with_rd c rest)
unfolding simple_query_switch skip notice_or_unexpected log_notice log_parameter_status ◌>>◌ pure
simple_drops k b rest p c (inl e) = rw e (rw (read_n-append c b rest))
simple_drops k b rest p c (inr (inl e)) = rw e (rw (read_n-append c b rest))
simple_drops k b rest p c (inr (inr e)) = rw e (rw (read_n-append c b rest))

ext_drops :
    (k : ℕ) (b rest : Bytes) (p : Progress) (c : Conn)
    → ExtDrops k
    → ext_query_switch k (pos (length b)) p (with_rd c (b ++ rest)) ≡ ok (more p) (with_rd c rest)
unfolding ext_query_switch skip notice_or_unexpected log_notice log_parameter_status ◌>>◌ pure
ext_drops k b rest p c (inl e) = rw e (rw (read_n-append c b rest))
ext_drops k b rest p c (inr (inl e)) = rw e (rw (read_n-append c b rest))
ext_drops k b rest p c (inr (inr e)) = rw e (rw (read_n-append c b rest))

-- `readSimpleQuery` on any well-formed messages of the server, closed by ReadyForQuery: it returns the
-- result of the last command, with the rows sent before it counted, and the first error; it has then
-- read these messages and nothing behind them.
pub read_simple_query-transcript :
    (ms : List ServerMsg) (c : Conn) (status rest : Bytes)
    → AllSound SimpleDrops ms
    → length status + 4 < 2 ^ 31
    → read_simple_query (with_rd c (transcript ms (frame ready_for_query_msg status ++ rest)))
      ≡ ok (answer c ms) (with_rd c rest)
unfolding read_simple_query each_message for_ever simple_query_switch
read_simple_query-transcript ms c status rest g s =
    let stream : Bytes = transcript ms (frame ready_for_query_msg status ++ rest) in
    let fuel : length ms < suc (length stream) =
      omega (arith, length-transcript ms (frame ready_for_query_msg status ++ rest)) in
    rw (← answer-apply_all c ms) (
      rounds-transcript simple_query_switch SimpleDrops simple_drops (λ n p. refl) (λ n p. refl)
        (λ n p. refl) (λ n p. refl) ms c no_progress status rest (suc (length stream)) g s fuel)

-- `readExtQuery` on any well-formed messages of the server, BindComplete among them, closed by
-- ReadyForQuery: it returns the result of the last command, with the rows sent before it counted, and
-- the first error; it has then read these messages and nothing behind them.
pub read_ext_query-transcript :
    (ms : List ServerMsg) (c : Conn) (status rest : Bytes)
    → AllSound ExtDrops ms
    → length status + 4 < 2 ^ 31
    → read_ext_query (with_rd c (transcript ms (frame ready_for_query_msg status ++ rest)))
      ≡ ok (answer c ms) (with_rd c rest)
unfolding read_ext_query each_message for_ever ext_query_switch
read_ext_query-transcript ms c status rest g s =
    let stream : Bytes = transcript ms (frame ready_for_query_msg status ++ rest) in
    let fuel : length ms < suc (length stream) =
      omega (arith, length-transcript ms (frame ready_for_query_msg status ++ rest)) in
    rw (← answer-apply_all c ms) (
      rounds-transcript ext_query_switch ExtDrops ext_drops (λ n p. refl) (λ n p. refl)
        (λ n p. refl) (λ n p. refl) ms c no_progress status rest (suc (length stream)) g s fuel)
