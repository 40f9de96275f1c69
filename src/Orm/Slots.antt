-- ===== src/Orm/Slots.antt =====
-- The loop of `Formatter.append` on a text with bare, numbered and escaped marks in any order.
use go_pg.Base.{
  ℕ, zero, suc, ◌+◌, ◌*◌, ◌-◌, ◌<◌, ◌^◌, if◌then◌else◌, ◌≡◌, refl, sym, ap, ◌∙◌, Bool, true, false,
  Option, none, some, List, [], ◌∷◌, ◌++◌, Bytes, get_elem?, append_assoc, append-nil, arith,
}
use go_pg.Base.Int.{pos, negsuc}
use go_pg.Types.Append.{decimal, append_int}
use go_pg.Types.Result.{is_digit, digits_value, atoi}
use go_pg.Types.Decimal.{digits_value-decimal, decimal-Digital, Digital, atoi-append_int}
use go_pg.Parser.{read_word, read_identifier}
use go_pg.Orm.Format.{
  Param, Formatter, Fields, Loop, onto, put_value, put_next, put_number, put_nth, put_mark,
  restored, format_loop, start, without_model, model_of, last_param,
}
use go_pg.Orm.Template.{
  Mark, at, escaped, render, Literal, Ready, Stops, AllWord, all_digits, expand, format_loop-expand,
  read_word-AllWord,
}
use go_pg.Orm.Filled.{Appends, without_model-none}

-- A mark `?`, a mark `?7`, or `\?`.
pub data Slot : Type 0 where
  next : Slot
  numbered : ℕ → Slot
  no_slot : Slot

abbrev pub mark_of : Slot → Mark
mark_of next = at []
mark_of (numbered n) = at (decimal n)
mark_of no_slot = escaped

abbrev pub marked : List (Slot × Bytes) → List (Mark × Bytes)
marked [] = []
marked ((m, s) ∷ t) = (mark_of m, s) ∷ marked t

-- The parameter at a place, as it writes itself into an empty query, or the mark.
abbrev pub text_at : List Param → ℕ → Bytes → Bytes
text_at [] n mark = b'?' ∷ mark
text_at (p ∷ ps) zero mark = p.append_to []
text_at (p ∷ ps) (suc n) mark = text_at ps n mark

-- Whether the bare mark takes a parameter.
abbrev pub behind : List Param → ℕ → ℕ
behind [] n = 0
behind (p ∷ ps) zero = 1
behind (p ∷ ps) (suc n) = behind ps n

-- The text of the query: each bare mark takes the next parameter, each numbered one its own, counted from 0.
abbrev pub slotted : List Param → ℕ → List (Slot × Bytes) → Bytes
slotted ps i [] = []
slotted ps i ((next, s) ∷ t) = text_at ps i [] ++ (s ++ slotted ps (behind ps i + i) t)
slotted ps i ((numbered n, s) ∷ t) = text_at ps n (decimal n) ++ (s ++ slotted ps i t)
slotted ps i ((no_slot, s) ∷ t) = b'?' ∷ (s ++ slotted ps i t)

-- Literal texts without marks, and none behind a mark that would continue its number; numbers of 63 bits.
abbrev pub SlotReady : Slot → Bytes → Type 0
SlotReady next s = Stops s
SlotReady (numbered n) s = (n < 2 ^ 63) × Stops s
SlotReady no_slot s = Unit {0}

abbrev pub SlotsReady : List (Slot × Bytes) → Type 0
SlotsReady [] = Unit {0}
SlotsReady ((m, s) ∷ t) = SlotReady m s × Literal s × SlotsReady t

abbrev AllDigit : Bytes → Type 0
AllDigit [] = Unit {0}
AllDigit (c ∷ s) = (is_digit c ≡ true) × AllDigit s

if_some :
    {n : ℕ} (b : Bool) (x : Option ℕ) → (if b then x else none) ≡ some n → (b ≡ true) × (x ≡ some n)
if_some true x h = (refl, h)
if_some false x h = absurd (cc)

digits_value-AllDigit : (s : Bytes) (a n : ℕ) → digits_value a s ≡ some n → AllDigit s
unfolding digits_value
digits_value-AllDigit [] a n h = tt
digits_value-AllDigit (c ∷ s) a n h =
    let (d, rest) = if_some (is_digit c) (digits_value (a * 10 + (c - b'0')) s) h in
    (d, digits_value-AllDigit s (a * 10 + (c - b'0')) n rest)

decimal-AllDigit : (n : ℕ) → AllDigit (decimal n)
decimal-AllDigit n = digits_value-AllDigit (decimal n) 0 n (digits_value-decimal n)

AllDigit-AllWord : (s : Bytes) → AllDigit s → AllWord s
AllDigit-AllWord [] h = tt
AllDigit-AllWord (c ∷ s) h = (rw (h.0) refl, AllDigit-AllWord s h.1)

read_word-AllDigit : (s : Bytes) → AllDigit s → (read_word s).1 ≡ true
unfolding read_word
read_word-AllDigit [] h = refl
read_word-AllDigit (c ∷ s) h = rw (h.0) (read_word-AllDigit s h.1)

all_digits-AllDigit : (s : Bytes) → Digital s → AllDigit s → all_digits s ≡ true
unfolding read_identifier
all_digits-AllDigit [] d h = absurd d
all_digits-AllDigit (c ∷ s) d h =
    rw (read_word-AllWord (c ∷ s) (AllDigit-AllWord (c ∷ s) h), read_word-AllDigit (c ∷ s) h) refl

put_mark-number :
    (f : Formatter) (model : Option Fields) (l : Loop) (id : Bytes)
    → Digital id
    → put_mark f model l id true ≡ put_number l id
unfolding put_mark
put_mark-number f model l [] d = absurd d
put_mark-number f model l (c ∷ id) d = refl

-- The parameter at a place of the list is put where the mark stood.
put_nth-text_at :
    (l : Loop) (ps : List Param) (n : ℕ) (mark : Bytes)
    → Appends ps
    → put_nth l mark (get_elem? ps n) ≡ onto l (text_at ps n mark)
put_nth-text_at l [] n mark h = refl
put_nth-text_at l (p ∷ ps) zero mark h = ap (λ b. record l { dst = b }) (h.0 (l.dst))
put_nth-text_at l (p ∷ ps) (suc n) mark h = put_nth-text_at l ps n mark h.1

abbrev at_index : Loop → List Param → ℕ → Loop
at_index l ps i = record l { params = ps; params_index = i }

atoi-decimal : (n : ℕ) → n < 2 ^ 63 → atoi (decimal n) ≡ some (pos n)
unfolding append_int
atoi-decimal n k = atoi-append_int (pos n) k

put_number-slot :
    (l : Loop) (ps : List Param) (i n : ℕ)
    → Appends ps
    → n < 2 ^ 63
    → put_number (at_index l ps i) (decimal n) ≡ at_index (onto l (text_at ps n (decimal n))) ps i
unfolding put_number
put_number-slot l ps i n h k =
    ap
      (λ o. elim o as (λ x. Loop) [
        | none ↦ restored (at_index l ps i) (decimal n)
        | some (pos m) ↦ put_nth (at_index l ps i) (decimal n) (get_elem? ps m)
        | some (negsuc m) ↦ restored (at_index l ps i) (decimal n)
      ])
      (atoi-decimal n k)
    ∙ put_nth-text_at (at_index l ps i) ps n (decimal n) h

next_case :
    (l : Loop) (qs ps : List Param) (i n : ℕ)
    → Appends ps
    → elim (get_elem? ps n) as (λ x. Loop) [
      | none ↦ onto (at_index l qs i) (b'?' ∷ [])
      | some p ↦ record (put_value (at_index l qs i) p) { params_index = suc i }
    ]
      ≡ at_index (onto l (text_at ps n [])) qs (behind ps n + i)
next_case l qs [] i n h = ap (at_index (onto l (b'?' ∷ [])) qs) (omega arith)
next_case l qs (p ∷ ps) i zero h =
    ap (λ b. at_index (record l { dst = b }) qs (suc i)) (h.0 (l.dst))
    ∙ ap (at_index (onto l (p.append_to [])) qs) (omega arith)
next_case l qs (p ∷ ps) i (suc n) h = next_case l qs ps i n h.1

put_next-slot :
    (l : Loop) (ps : List Param) (i : ℕ)
    → Appends ps
    → put_next (at_index l ps i) ≡ at_index (onto l (text_at ps i [])) ps (behind ps i + i)
unfolding put_next
put_next-slot l ps i h = next_case l ps ps i i h

three : (a b c d : Bytes) → ((a ++ b) ++ c) ++ d ≡ a ++ (b ++ (c ++ d))
three a b c d = append_assoc (a ++ b) c d ∙ append_assoc a b (c ++ d)

expand-slotted :
    (f : Formatter) (model : Option Fields) (l : Loop) (ps : List Param) (i : ℕ)
    (t : List (Slot × Bytes))
    → Appends ps
    → SlotsReady t
    → (expand f model (at_index l ps i) (marked t)).dst ≡ l.dst ++ slotted ps i t
unfolding expand
expand-slotted f model l ps i [] a r = sym (append-nil (l.dst))
expand-slotted f model l ps i ((next, s) ∷ t) a r =
    ap (λ x. (expand f model (onto x s) (marked t)).dst)
      ((unfold put_mark in refl) ∙ put_next-slot l ps i a)
    ∙ expand-slotted f model (onto (onto l (text_at ps i [])) s) ps (behind ps i + i) t a r.2
    ∙ three (l.dst) (text_at ps i []) s (slotted ps (behind ps i + i) t)
expand-slotted f model l ps i ((numbered n, s) ∷ t) a r =
    ap (λ x. (expand f model (onto x s) (marked t)).dst)
      (ap (put_mark f model (at_index l ps i) (decimal n))
          (all_digits-AllDigit (decimal n) (decimal-Digital n) (decimal-AllDigit n))
        ∙ put_mark-number f model (at_index l ps i) (decimal n) (decimal-Digital n)
        ∙ put_number-slot l ps i n a r.0.0)
    ∙ expand-slotted f model (onto (onto l (text_at ps n (decimal n))) s) ps i t a r.2
    ∙ three (l.dst) (text_at ps n (decimal n)) s (slotted ps i t)
expand-slotted f model l ps i ((no_slot, s) ∷ t) a r =
    expand-slotted f model (onto (onto l (b'?' ∷ [])) s) ps i t a r.2
    ∙ three (l.dst) (b'?' ∷ []) s (slotted ps i t)

marked-Ready : (t : List (Slot × Bytes)) → SlotsReady t → Ready (marked t)
marked-Ready [] r = tt
marked-Ready ((next, s) ∷ t) r = ((tt, r.0), (r.1, marked-Ready t r.2))
marked-Ready ((numbered n, s) ∷ t) r =
    ((AllDigit-AllWord (decimal n) (decimal-AllDigit n), r.0.1), (r.1, marked-Ready t r.2))
marked-Ready ((no_slot, s) ∷ t) r = (r.1, marked-Ready t r.2)

-- The loop of the formatter on a text with bare, numbered and escaped marks in any order: each bare mark
-- becomes the text of the next parameter, a mark with a number that of the parameter at that place, counted
-- from 0, and an escaped one a `?`; a mark without a parameter stays, and what a parameter appends is not
-- searched for marks. The last parameter is not a model, each parameter only appends, the numbers are below
-- 2^63, and the literal parts hold no `?`, end in no backslash and do not continue a mark.
pub format_loop-slotted :
    (f : Formatter) (dst s : Bytes) (t : List (Slot × Bytes)) (ps : List Param)
    → Literal s
    → SlotsReady t
    → Appends ps
    → model_of (last_param ps) ≡ none
    → (l : Loop) × (format_loop f dst (s ++ render (marked t)) ps ≡ some l)
      × (l.dst ≡ dst ++ (s ++ slotted ps 0 t))
format_loop-slotted f dst s t ps h r a m = (
  expand f (model_of (last_param ps)) (onto (start dst (without_model ps)) s) (marked t),
  format_loop-expand f dst s (marked t) ps h (marked-Ready t r),
  rw (without_model-none ps m) (
      expand-slotted f (model_of (last_param ps)) (onto (start dst ps) s) ps 0 t a r
      ∙ append_assoc dst s (slotted ps 0 t)),
)
