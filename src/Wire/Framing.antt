-- ===== src/Wire/Framing.antt =====
-- Messages between `StartMessage` and `FinishMessage` of internal/pool/write_buffer.go.
use go_pg.Base.{
  ℕ, suc, ◌∙◌, le→leb, ne→==, ◌+◌, ◌-◌, ◌%◌, ◌^◌, ◌≡◌, ◌≢◌, refl, ap, [], ◌∷◌, ◌++◌, some, Bytes,
  length, drop, arith, length-append, take-append, append_assoc,
}
use go_pg.Base.Int.{ℤ, to_word}
use go_pg.Wire.Words.{be16, be32}
use go_pg.Wire.Buffer.{
  WriteBuffer, put_uint32, start_message, finish_message, with_bytes, write_string, write_byte,
  write_int16, write_int32, read_from,
}

-- A frame as the server sends it and as it expects one.
abbrev pub frame : ℕ → Bytes → Bytes
frame c body = c ∷ (be32 ((length body + 4) % 2 ^ 32) ++ body)

drop_hole :
    (pre : Bytes) (x y z w : ℕ) (rest : Bytes)
    → drop (length pre + 4) (pre ++ (x ∷ y ∷ z ∷ w ∷ rest)) ≡ rest
drop_hole [] x y z w rest = refl
drop_hole (a ∷ pre) x y z w rest =
    let e : suc (length pre) + 4 ≡ suc (length pre + 4) = omega arith in
    rw e (drop_hole pre x y z w rest)

-- The four bytes behind `pre` are overwritten, all else stays.
put_uint32_hole :
    (pre : Bytes) (x y z w v : ℕ) (rest : Bytes)
    → put_uint32 (pre ++ (x ∷ y ∷ z ∷ w ∷ rest)) (length pre) v ≡ some (pre ++ (be32 v ++ rest))
unfolding put_uint32
put_uint32_hole pre x y z w v rest = rw (
  le→leb (length pre + 4) (length (pre ++ (x ∷ y ∷ z ∷ w ∷ rest)))
      (omega (arith, length-append {0} pre (x ∷ y ∷ z ∷ w ∷ rest))),
  take-append pre (x ∷ y ∷ z ∷ w ∷ rest),
  drop_hole pre x y z w rest,
)

-- The buffer inside a message whose length stands behind `pre`.
abbrev pub opened : Bytes → Bytes → ℕ → WriteBuffer
opened pre body p = record {
  bytes = pre ++ (0 ∷ 0 ∷ 0 ∷ 0 ∷ body);
  msg_start = length pre;
  param_start = p;
}

-- The length of a message and its body, as they stand behind the type.
abbrev pub sized : Bytes → Bytes
sized body = be32 ((length body + 4) % 2 ^ 32) ++ body

pub start_message-typed :
    (w : WriteBuffer) (c : ℕ)
    → c ≢ 0
    → start_message w c ≡ opened (w.bytes ++ c ∷ []) [] w.param_start
unfolding start_message
start_message-typed w c h =
    rw (ne→== c 0 h, append_assoc w.bytes (c ∷ []) (0 ∷ 0 ∷ 0 ∷ 0 ∷ []))
      (ap
        (λ n. record {
          bytes = w.bytes ++ c ∷ 0 ∷ 0 ∷ 0 ∷ 0 ∷ [];
          msg_start = n;
          param_start = w.param_start;
        })
        (omega (arith, length-append {0} w.bytes (c ∷ []))))

pub start_message-untyped : (w : WriteBuffer) → start_message w 0 ≡ opened w.bytes [] w.param_start
unfolding start_message
start_message-untyped w = refl

-- `FinishMessage` puts the length in front of what was appended since `StartMessage`.
pub finish_message-opened :
    (pre body : Bytes) (p : ℕ)
    → finish_message (opened pre body p)
      ≡ some (record { bytes = pre ++ sized body; msg_start = length pre; param_start = p })
unfolding finish_message
finish_message-opened pre body p =
    let size : length (pre ++ (0 ∷ 0 ∷ 0 ∷ 0 ∷ body)) - length pre ≡ length body + 4 =
      omega (arith, length-append {0} pre (0 ∷ 0 ∷ 0 ∷ 0 ∷ body)) in
    rw size (ap (with_bytes (opened pre body p)) (put_uint32_hole pre 0 0 0 0 _ body))

-- What the writes do inside a message.
pub write_string-opened :
    (pre body s : Bytes) (p : ℕ)
    → write_string (opened pre body p) s ≡ opened pre (body ++ (s ++ 0 ∷ [])) p
unfolding write_string
write_string-opened pre body s p =
    ap (λ b. record { bytes = b; msg_start = length pre; param_start = p })
      (append_assoc (pre ++ (0 ∷ 0 ∷ 0 ∷ 0 ∷ body)) s (0 ∷ [])
        ∙ append_assoc pre (0 ∷ 0 ∷ 0 ∷ 0 ∷ body) (s ++ 0 ∷ []))

pub write_byte-opened :
    (pre body : Bytes) (c p : ℕ) → write_byte (opened pre body p) c ≡ opened pre (body ++ c ∷ []) p
unfolding write_byte
write_byte-opened pre body c p =
    ap (λ b. record { bytes = b; msg_start = length pre; param_start = p })
      (append_assoc pre (0 ∷ 0 ∷ 0 ∷ 0 ∷ body) (c ∷ []))

pub write_int16-opened :
    (pre body : Bytes) (n : ℤ) (p : ℕ)
    → write_int16 (opened pre body p) n ≡ opened pre (body ++ be16 (to_word 16 n)) p
unfolding write_int16
write_int16-opened pre body n p =
    ap (λ b. record { bytes = b; msg_start = length pre; param_start = p })
      (append_assoc pre (0 ∷ 0 ∷ 0 ∷ 0 ∷ body) (be16 (to_word 16 n)))

pub write_int32-opened :
    (pre body : Bytes) (n : ℤ) (p : ℕ)
    → write_int32 (opened pre body p) n ≡ opened pre (body ++ be32 (to_word 32 n)) p
unfolding write_int32
write_int32-opened pre body n p =
    ap (λ b. record { bytes = b; msg_start = length pre; param_start = p })
      (append_assoc pre (0 ∷ 0 ∷ 0 ∷ 0 ∷ body) (be32 (to_word 32 n)))

pub read_from-opened :
    (pre body chunk : Bytes) (p : ℕ)
    → read_from (opened pre body p) chunk ≡ opened pre (body ++ chunk) p
unfolding read_from
read_from-opened pre body chunk p =
    ap (λ b. record { bytes = b; msg_start = length pre; param_start = p })
      (append_assoc pre (0 ∷ 0 ∷ 0 ∷ 0 ∷ body) chunk)

pub ruleset framing = (
  start_message-untyped, finish_message-opened, write_string-opened, write_byte-opened,
  write_int16-opened, write_int32-opened, read_from-opened,
)
