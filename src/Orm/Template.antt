-- ===== src/Orm/Template.antt =====
-- The text of a query as the marks in it and the literal text behind each, and what the loop of
-- `Formatter.append` does with it.
use go_pg.Base.{
  ℕ, zero, suc, ◌≤◌, ◌≡◌, ◌≢◌, refl, sym, ap, subst, ◌∙◌, Bool, true, false, ◌||◌, Option, some,
  List, [], ◌∷◌, ◌++◌, Bytes, length, length-append, append_assoc, append-nil, arith, ◌==◌, ne→==,
}
use go_pg.Types.Append.{strip_last}
use go_pg.Types.Result.{is_digit}
use go_pg.Parser.{is_alpha, read_sep, read_word, read_identifier}
use go_pg.Orm.Format.{
  Param, Formatter, Fields, Loop, onto, put_mark, ends_in, format_round, format_rounds, format_loop,
  start, without_model, model_of, last_param,
}

-- `\?`, or a `?` with what names its parameter.
pub data Mark : Type 0 where
  escaped : Mark
  at : Bytes → Mark

unfoldable pub mark_text : Mark → Bytes
mark_text escaped = b'\\' ∷ b'?' ∷ []
mark_text (at id) = b'?' ∷ id

-- Each mark with the literal text behind it.
unfoldable pub render : List (Mark × Bytes) → Bytes
unfolding mark_text
render [] = []
render ((m, l) ∷ t) = mark_text m ++ (l ++ render t)

abbrev pub word_byte : ℕ → Bool
word_byte c = is_digit c || (is_alpha c || c == b'_')

abbrev pub AllWord : Bytes → Type 0
AllWord [] = Unit
AllWord (c ∷ s) = (word_byte c ≡ true) × AllWord s

abbrev pub NoMark : Bytes → Type 0
NoMark [] = Unit
NoMark (c ∷ s) = (c ≢ b'?') × NoMark s

-- A literal text: no `?` in it and no backslash at its end.
abbrev pub Literal : Bytes → Type 0
Literal s = NoMark s × (ends_in b'\\' s ≡ false)

abbrev pub Stops : Bytes → Type 0
Stops [] = Unit
Stops (c ∷ s) = word_byte c ≡ false

-- What stands behind an identifier does not continue it.
abbrev pub Ready : List (Mark × Bytes) → Type 0
Ready [] = Unit
Ready ((escaped, l) ∷ t) = Literal l × Ready t
Ready ((at id, l) ∷ t) = (AllWord id × Stops l) × (Literal l × Ready t)

abbrev pub all_digits : Bytes → Bool
all_digits s = (read_identifier s).1

-- The variables of the loop when it has replaced the marks one after the other.
unfoldable pub expand : Formatter → Option Fields → Loop → List (Mark × Bytes) → Loop
unfolding put_mark
expand f model l [] = l
expand f model l ((escaped, s) ∷ t) = expand f model (onto (onto l (b'?' ∷ [])) s) t
expand f model l ((at id, s) ∷ t) =
    expand f model (onto (put_mark f model l id (all_digits id)) s) t

pub read_sep-found :
    (s rest : Bytes)
    → NoMark s
    → read_sep b'?' (s ++ b'?' ∷ rest) ≡ record { before = s; rest = rest; found = true }
unfolding read_sep
read_sep-found [] rest h = refl
read_sep-found (c ∷ s) rest h = rw (ne→== c b'?' h.0, read_sep-found s rest h.1) refl

read_sep-none :
    (s : Bytes) → NoMark s → read_sep b'?' s ≡ record { before = s; rest = []; found = false }
unfolding read_sep
read_sep-none [] h = refl
read_sep-none (c ∷ s) h = rw (ne→== c b'?' h.0, read_sep-none s h.1) refl

NoMark-concat : (s : Bytes) (c : ℕ) → NoMark s → c ≢ b'?' → NoMark (s ++ c ∷ [])
NoMark-concat [] c h d = (d, tt)
NoMark-concat (x ∷ s) c h d = (h.0, NoMark-concat s c h.1 d)

ends_in-concat : (s : Bytes) (c : ℕ) → ends_in c (s ++ c ∷ []) ≡ true
unfolding ends_in
ends_in-concat [] c = ground arith
ends_in-concat (x ∷ []) c = ends_in-concat [] c
ends_in-concat (x ∷ y ∷ s) c = ends_in-concat (y ∷ s) c

strip_last-concat : (s : Bytes) (c : ℕ) → strip_last (s ++ c ∷ []) ≡ s
unfolding strip_last
strip_last-concat [] c = refl
strip_last-concat (x ∷ []) c = refl
strip_last-concat (x ∷ y ∷ s) c = ap (◌∷◌ x) (strip_last-concat (y ∷ s) c)

read_word-Stops : (s : Bytes) → Stops s → read_word s ≡ ([], true, s)
unfolding read_word
read_word-Stops [] h = refl
read_word-Stops (c ∷ s) h = ground arith

read_word-append :
    (id s : Bytes) → AllWord id → Stops s → read_word (id ++ s) ≡ (id, (read_word id).1, s)
unfolding read_word
read_word-append [] s a h = read_word-Stops s h
read_word-append (c ∷ id) s a h = rw (read_word-append id s a.1 h) (ground (arith, a.0))

pub read_word-AllWord : (id : Bytes) → AllWord id → (read_word id).0 ≡ id
unfolding read_word
read_word-AllWord [] a = refl
read_word-AllWord (c ∷ id) a = ground (arith, a.0, read_word-AllWord id a.1)

-- What stands behind a mark continues no identifier.
Stops-render : (l : Bytes) (t : List (Mark × Bytes)) → Stops l → Stops (l ++ render t)
unfolding render mark_text is_digit
Stops-render [] [] h = tt
Stops-render [] ((escaped, s) ∷ t) h = refl
Stops-render [] ((at id, s) ∷ t) h = refl
Stops-render (c ∷ l) t h = h

-- A text that is not empty costs one unit of fuel.
format_rounds-format_round :
    (f : Formatter) (model : Option Fields) (n : ℕ) (l : Loop) (s : Bytes) (c : ℕ) (rest : Bytes)
    → format_rounds (suc n) f model l (s ++ c ∷ rest)
      ≡ format_rounds n f model
          ((format_round f model l (s ++ c ∷ rest)).0)
          ((format_round f model l (s ++ c ∷ rest)).1)
unfolding format_rounds
format_rounds-format_round f model n l [] c rest = refl
format_rounds-format_round f model n l (x ∷ s) c rest = refl

format_round-escaped :
    (f : Formatter) (model : Option Fields) (l : Loop) (s rest : Bytes)
    → NoMark s
    → format_round f model l (s ++ b'\\' ∷ b'?' ∷ rest) ≡ (onto (onto l s) (b'?' ∷ []), rest)
unfolding format_round
format_round-escaped f model l s rest h =
    rw
      (
        sym (append_assoc s (b'\\' ∷ []) (b'?' ∷ rest)),
        read_sep-found (s ++ b'\\' ∷ []) rest (NoMark-concat s b'\\' h (omega arith)),
        ends_in-concat s b'\\',
        strip_last-concat s b'\\',
      )
      refl

format_round-at :
    (f : Formatter) (model : Option Fields) (l : Loop) (s id rest : Bytes)
    → Literal s
    → AllWord id
    → Stops rest
    → format_round f model l (s ++ b'?' ∷ (id ++ rest))
      ≡ (put_mark f model (onto l s) id (all_digits id), rest)
unfolding format_round
format_round-at f model l s id rest h w st =
    rw
      (
        read_sep-found s (id ++ rest) h.0,
        h.1,
        read_word-append id rest w st,
        read_word-AllWord id w,
      )
      refl

format_round-literal :
    (f : Formatter) (model : Option Fields) (l : Loop) (s : Bytes)
    → NoMark s
    → format_round f model l s ≡ (onto l s, [])
unfolding format_round
format_round-literal f model l s h = rw (read_sep-none s h) refl

format_rounds-literal :
    (f : Formatter) (model : Option Fields) (n : ℕ) (l : Loop) (s : Bytes)
    → NoMark s
    → length s ≤ n
    → format_rounds n f model l s ≡ some (onto l s)
unfolding format_rounds
format_rounds-literal f model n l [] h e =
    ap some (ap (λ b. record l { dst = b }) (sym (append-nil (l.dst))))
format_rounds-literal f model zero l (c ∷ s) h e = absurd (omega (arith, e))
format_rounds-literal f model (suc n) l (c ∷ s) h e =
    ap (λ r. format_rounds n f model (r.0) (r.1)) (format_round-literal f model l (c ∷ s) h)

shorter :
    (n : ℕ) (s : Bytes) (c : ℕ) (r rest : Bytes)
    → length (s ++ c ∷ (r ++ rest)) ≤ suc n
    → length rest ≤ n
shorter n s c r rest e = omega (arith, e, length-append s (c ∷ (r ++ rest)), length-append r rest)

pub format_rounds-expand :
    (f : Formatter) (model : Option Fields) (n : ℕ) (l : Loop) (s : Bytes) (t : List (Mark × Bytes))
    → Literal s
    → Ready t
    → length (s ++ render t) ≤ n
    → format_rounds n f model l (s ++ render t) ≡ some (expand f model (onto l s) t)
unfolding render expand mark_text
format_rounds-expand f model n l s [] h r e =
    rw (append-nil s)
      (format_rounds-literal f model n l s h.0 (subst (λ b. length b ≤ n) (append-nil s) e))
format_rounds-expand f model zero l s ((escaped, k) ∷ t) h r e =
    absurd (omega (arith, e, length-append s (b'\\' ∷ b'?' ∷ (k ++ render t))))
format_rounds-expand f model zero l s ((at id, k) ∷ t) h r e =
    absurd (omega (arith, e, length-append s (b'?' ∷ (id ++ (k ++ render t)))))
format_rounds-expand f model (suc n) l s ((escaped, k) ∷ t) h r e =
    format_rounds-format_round f model n l s b'\\' (b'?' ∷ (k ++ render t))
    ∙ rw (format_round-escaped f model l s (k ++ render t) h.0) (
        format_rounds-expand f model n (onto (onto l s) (b'?' ∷ [])) k t r.0 r.1
          (shorter n s b'\\' (b'?' ∷ []) (k ++ render t) e))
format_rounds-expand f model (suc n) l s ((at id, k) ∷ t) h r e =
    format_rounds-format_round f model n l s b'?' (id ++ (k ++ render t))
    ∙ rw (format_round-at f model l s id (k ++ render t) h r.0.0 (Stops-render k t r.0.1)) (
        format_rounds-expand f model n (put_mark f model (onto l s) id (all_digits id)) k t r.1.0
          r.1.1 (shorter n s b'?' id (k ++ render t) e))

-- The text of a template whose literal parts hold no `?` and end in no backslash, and whose
-- identifiers are not continued by what follows them, is formatted by replacing its marks one after the
-- other: the i-th `?` by the next parameter, `?0` by a parameter counted from 0, `?name` by a name's.
pub format_loop-expand :
    (f : Formatter) (dst s : Bytes) (t : List (Mark × Bytes)) (params : List Param)
    → Literal s
    → Ready t
    → format_loop f dst (s ++ render t) params
      ≡ some (expand f (model_of (last_param params)) (onto (start dst (without_model params)) s) t)
unfolding format_loop
format_loop-expand f dst s t params h r =
    format_rounds-expand f (model_of (last_param params)) (length (s ++ render t))
      (start dst (without_model params)) s t h r (omega arith)
