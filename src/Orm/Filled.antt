-- ===== src/Orm/Filled.antt =====
-- The loop of `Formatter.append` on any text, and on texts whose marks are bare.
use go_pg.Base.{
  ℕ, zero, suc, ◌≤◌, ◌≡◌, refl, sym, ap, ◌∙◌, Bool, true, false, Option, none, some, List, [], ◌∷◌,
  ◌++◌, Bytes, length, get_elem?, length-append, append_assoc, append-nil, arith, if◌then◌else◌,
}
use go_pg.Parser.{read_sep, read_word, read_identifier}
use go_pg.Orm.Format.{
  Param, Formatter, Fields, Loop, onto, put_value, put_next, put_mark, format_round, format_rounds,
  format_loop, start, without_model, model_of, last_param, finish, format, slice,
}
use go_pg.Orm.Template.{
  Mark, at, render, Literal, Ready, Stops, expand, format_loop-expand, read_sep-found,
}

read_sep-rest : (c : ℕ) (s : Bytes) → length ((read_sep c s).rest) ≤ length s
unfolding read_sep
read_sep-rest c [] = omega arith
read_sep-rest c (x ∷ s) = ground (arith, read_sep-rest c s)

read_sep-shorter : (c x : ℕ) (s : Bytes) → length ((read_sep c (x ∷ s)).rest) ≤ length s
unfolding read_sep
read_sep-shorter c x s = ground (arith, read_sep-rest c s)

read_word-rest : (s : Bytes) → length ((read_word s).2) ≤ length s
unfolding read_word
read_word-rest [] = omega arith
read_word-rest (c ∷ s) = ground (arith, read_word-rest s)

read_identifier-rest : (s : Bytes) → length ((read_identifier s).2) ≤ length s
unfolding read_identifier
read_identifier-rest s = read_word-rest s

format_round-shorter :
    (f : Formatter) (model : Option Fields) (l : Loop) (c : ℕ) (s : Bytes)
    → length ((format_round f model l (c ∷ s)).1) ≤ length s
unfolding format_round
format_round-shorter f model l c s =
    ground (arith, read_sep-shorter b'?' c s, read_identifier-rest ((read_sep b'?' (c ∷ s)).rest))

pub format_rounds-total :
    (f : Formatter) (model : Option Fields) (n : ℕ) (l : Loop) (s : Bytes)
    → length s ≤ n
    → (l' : Loop) × (format_rounds n f model l s ≡ some l')
unfolding format_rounds
format_rounds-total f model n l [] h = (l, refl)
format_rounds-total f model zero l (c ∷ s) h = absurd (omega (arith, h))
format_rounds-total f model (suc n) l (c ∷ s) h =
    format_rounds-total f model n ((format_round f model l (c ∷ s)).0)
      ((format_round f model l (c ∷ s)).1) (omega (arith, h, format_round-shorter f model l c s))

either_total :
    (c : Bool) (b : Bytes) (o : Option Loop) (l : Loop)
    → o ≡ some l
    → (out : Bytes) × ((if c then some b else finish o) ≡ some out)
either_total true b o l e = (b, refl)
either_total false b o l e = (l.dst, ap finish e)

-- Formatting ends, with as many rounds as the text has bytes, whatever the text and its parameters.
pub format-total :
    (f : Formatter) (dst src : Bytes) (params : Option (List Param))
    → (out : Bytes) × (format f dst src params ≡ some out)
unfolding format format_loop
format-total f dst src params =
    let (l, e) =
      format_rounds-total f (model_of (last_param (slice params))) (length src)
        (start dst (without_model (slice params))) src (omega arith) in
    either_total _ _ _ l e

-- What stands between the literal texts when the parameters are put in their places, one after the other;
-- a mark without a parameter stays.
abbrev pub filled : List Param → List Bytes → Bytes
filled ps [] = []
filled [] (s ∷ ss) = b'?' ∷ (s ++ filled [] ss)
filled (p ∷ ps) (s ∷ ss) = p.append_to [] ++ (s ++ filled ps ss)

-- A bare `?` in front of each literal text.
abbrev pub bare : List Bytes → List (Mark × Bytes)
bare [] = []
bare (s ∷ ss) = (at [], s) ∷ bare ss

-- A parameter that only appends.
abbrev pub Appends : List Param → Type 0
Appends [] = Unit
Appends (p ∷ ps) = ((b : Bytes) → p.append_to b ≡ b ++ p.append_to []) × Appends ps

get_elem?-append :
    (done todo : List Param) → get_elem? (done ++ todo) (length done) ≡ get_elem? todo 0
get_elem?-append [] todo = refl
get_elem?-append (p ∷ done) todo = get_elem?-append done todo

abbrev at_index : Loop → List Param → ℕ → Loop
at_index l ps n = record l { params = ps; params_index = n }

length-concat : (ps : List Param) (p : Param) → length (ps ++ p ∷ []) ≡ suc (length ps)
length-concat ps p = omega (arith, length-append ps (p ∷ []))

put_next-none :
    (l : Loop) → get_elem? (l.params) (l.params_index) ≡ none → put_next l ≡ onto l (b'?' ∷ [])
unfolding put_next
put_next-none l e = rw (put_next, e) refl

put_next-some :
    (l : Loop) (p : Param)
    → get_elem? (l.params) (l.params_index) ≡ some p
    → put_next l ≡ record (put_value l p) { params_index = suc (l.params_index) }
unfolding put_next
put_next-some l p e = rw (put_next, e) refl

expand-bare :
    (f : Formatter) (model : Option Fields) (l : Loop) (done todo : List Param) (ss : List Bytes)
    → Appends todo
    → (expand f model (at_index l (done ++ todo) (length done)) (bare ss)).dst
      ≡ l.dst ++ filled todo ss
unfolding expand put_mark
expand-bare f model l done todo [] h = sym (append-nil (l.dst))
expand-bare f model l done [] (s ∷ ss) h =
    ap (λ l'. (expand f model (onto l' s) (bare ss)).dst)
      (put_next-none (at_index l (done ++ []) (length done)) (get_elem?-append done []))
    ∙ expand-bare f model (onto (onto l (b'?' ∷ [])) s) done [] ss tt
    ∙ append_assoc (l.dst ++ b'?' ∷ []) s (filled [] ss)
    ∙ append_assoc (l.dst) (b'?' ∷ []) (s ++ filled [] ss)
expand-bare f model l done (p ∷ todo) (s ∷ ss) h =
    ap (λ l'. (expand f model (onto l' s) (bare ss)).dst)
      (put_next-some (at_index l (done ++ p ∷ todo) (length done)) p
        (get_elem?-append done (p ∷ todo)))
    ∙ rw (sym (append_assoc done (p ∷ []) todo), sym (length-concat done p), h.0 (l.dst))
        (expand-bare f model (onto (onto l (p.append_to [])) s) (done ++ p ∷ []) todo ss h.1)
    ∙ append_assoc (l.dst ++ p.append_to []) s (filled todo ss)
    ∙ append_assoc (l.dst) (p.append_to []) (s ++ filled todo ss)

-- Literal texts none of which continues an identifier.
abbrev pub Literals : List Bytes → Type 0
Literals [] = Unit
Literals (s ∷ ss) = (Stops s × Literal s) × Literals ss

Ready-bare : (ss : List Bytes) → Literals ss → Ready (bare ss)
Ready-bare [] h = tt
Ready-bare (s ∷ ss) h = ((tt, h.0.0), (h.0.1, Ready-bare ss h.1))

pub without_model-none : (ps : List Param) → model_of (last_param ps) ≡ none → without_model ps ≡ ps
without_model-none ps e = rw (without_model, e) refl

pub format-loop :
    (f : Formatter) (dst src : Bytes) (ps : List Param) (l : Loop)
    → (read_sep b'?' src).found ≡ true
    → format_loop f dst src ps ≡ some l
    → format f dst src (some ps) ≡ some (l.dst)
unfolding format
format-loop f dst src ps l h e = rw (format, h, e) refl

pub format-bare_without :
    (f : Formatter) (dst s k : Bytes) (ss : List Bytes) (qs ps : List Param)
    → Literal s
    → Literals (k ∷ ss)
    → Appends ps
    → without_model qs ≡ ps
    → format f dst (s ++ render (bare (k ∷ ss))) (some qs) ≡ some (dst ++ (s ++ filled ps (k ∷ ss)))
unfolding render
format-bare_without f dst s k ss qs ps h r a m =
    format-loop f dst (s ++ render (bare (k ∷ ss))) qs _
      (ap (λ c. c.found) (read_sep-found s (k ++ render (bare ss)) h.0))
      (format_loop-expand f dst s (bare (k ∷ ss)) qs h (Ready-bare (k ∷ ss) r))
    ∙ rw m (
        ap some (
          expand-bare f (model_of (last_param qs)) (onto (start dst ps) s) [] ps (k ∷ ss) a
          ∙ append_assoc dst s (filled ps (k ∷ ss))))

-- A query's text with bare `?` marks is formatted by putting the text of the i-th parameter in place of the
-- i-th mark: what a parameter appends is not searched for marks, a mark without a parameter stays, and
-- parameters without a mark are dropped. The last parameter is not a model, each parameter only appends, and
-- the literal parts hold no `?`, end in no backslash and do not begin, behind a mark, like an identifier.
pub format-bare :
    (f : Formatter) (dst s k : Bytes) (ss : List Bytes) (ps : List Param)
    → Literal s
    → Literals (k ∷ ss)
    → Appends ps
    → model_of (last_param ps) ≡ none
    → format f dst (s ++ render (bare (k ∷ ss))) (some ps) ≡ some (dst ++ (s ++ filled ps (k ∷ ss)))
format-bare f dst s k ss ps h r a m =
    format-bare_without f dst s k ss ps ps h r a (without_model-none ps m)
