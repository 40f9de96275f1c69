-- ===== src/Orm/Grows.antt =====
-- What `Formatter.append` leaves of the bytes that are written, and of the parameters.
pub mod Rounds
pub mod Written
use go_pg.Base.{
  ℕ, zero, suc, ◌+◌, ◌≡◌, refl, sym, ap, subst, ◌∙◌, Bool, true, false, not, Option, none, some,
  List, [], ◌∷◌, ◌++◌, Bytes, length, get_elem?, find, equal, append_assoc, append-nil,
  if◌then◌else◌,
}
use go_pg.Base.Int.{ℤ, pos, negsuc}
use go_pg.Types.Append.{strip_last}
use go_pg.Types.Result.{atoi}
use go_pg.Parser.{read_sep, read_identifier}
use go_pg.Orm.Format.{
  Param, Formatter, Fields, Loop, onto, put_value, put_nth, put_next, put_number, put_name,
  put_mark, init_named, lookup, try_fields, restored, last_param, but_last_param, fields_of,
  model_of, ends_in, format_round, format_rounds, format_loop, format, start, without_model, slice,
}
use go_pg.Orm.Filled.{format_rounds-total}

-- The second text begins with the first.
abbrev pub Extends : Bytes → Bytes → Type 0
Extends b b' = (t : Bytes) × (b' ≡ b ++ t)

pub Extends-refl : (b : Bytes) → Extends b b
Extends-refl b = ([], sym (append-nil b))

pub Extends-trans : (a b c : Bytes) → Extends a b → Extends b c → Extends a c
Extends-trans a b c (s, h) (t, g) = (s ++ t, g ∙ ap (λ x. x ++ t) h ∙ append_assoc a s t)

pub Extends-append : (a b s : Bytes) → Extends a b → Extends a (b ++ s)
Extends-append a b s h = Extends-trans a b (b ++ s) h (s, refl)

-- An appender of fields that never takes back what is written.
abbrev pub FieldsGrow : Option Fields → Type 0
FieldsGrow none = Unit
FieldsGrow (some fs) = (b id b' : Bytes) → fs b id ≡ some b' → Extends b b'

abbrev pub Grows : Param → Type 0
Grows p = ((b : Bytes) → Extends b (p.append_to b)) × (FieldsGrow (p.fields) × FieldsGrow (p.model))

abbrev pub AllGrow : List Param → Type 0
AllGrow [] = Unit
AllGrow (p ∷ ps) = Grows p × AllGrow ps

abbrev pub MapGrows : List (Bytes × Param) → Type 0
MapGrows [] = Unit
MapGrows ((k, p) ∷ m) = Grows p × MapGrows m

abbrev pub FormatterGrows : Option (List (Bytes × Param)) → Type 0
FormatterGrows none = Unit
FormatterGrows (some m) = MapGrows m

abbrev pub LoopGrows : Loop → Type 0
LoopGrows l = AllGrow (l.params) × FieldsGrow (l.named_params)

abbrev pub Kept : Loop → Loop → Type 0
Kept l l' = Extends (l.dst) (l'.dst) × LoopGrows l'

abbrev pub OptionGrows : Option Param → Type 0
OptionGrows none = Unit
OptionGrows (some p) = Grows p

pub onto-Kept : (l l' : Loop) (s : Bytes) → Kept l l' → Kept l (onto l' s)
onto-Kept l l' s h = (Extends-append (l.dst) (l'.dst) s h.0, h.1)

pub Kept-refl : (l : Loop) → LoopGrows l → Kept l l
Kept-refl l h = (Extends-refl (l.dst), h)

pub Kept-trans : (a b c : Loop) → Kept a b → Kept b c → Kept a c
Kept-trans a b c h g = (Extends-trans (a.dst) (b.dst) (c.dst) h.0 g.0, g.1)

get_elem?-OptionGrows : (ps : List Param) (n : ℕ) → AllGrow ps → OptionGrows (get_elem? ps n)
get_elem?-OptionGrows [] n h = tt
get_elem?-OptionGrows (p ∷ ps) zero h = h.0
get_elem?-OptionGrows (p ∷ ps) (suc n) h = get_elem?-OptionGrows ps n h.1

put_nth-Kept :
    (l : Loop) (id : Bytes) (o : Option Param)
    → LoopGrows l
    → OptionGrows o
    → Kept l (put_nth l id o)
put_nth-Kept l id none h g = onto-Kept l l (b'?' ∷ id) (Kept-refl l h)
put_nth-Kept l id (some p) h g = (g.0 (l.dst), h)

pub put_number-Kept : (l : Loop) (id : Bytes) → LoopGrows l → Kept l (put_number l id)
unfolding put_number
put_number-Kept l id h = number_Kept (atoi id)
  where
    number_Kept :
        (o : Option ℤ)
        → Kept l (elim o [
          | none ↦ restored l id
          | some (pos n) ↦ put_nth l id (get_elem? (l.params) n)
          | some (negsuc n) ↦ restored l id
        ])
    number_Kept none = onto-Kept l l (b'?' ∷ id) (Kept-refl l h)
    number_Kept (some (pos n)) =
        put_nth-Kept l id (get_elem? (l.params) n) h (get_elem?-OptionGrows (l.params) n h.0)
    number_Kept (some (negsuc n)) = onto-Kept l l (b'?' ∷ id) (Kept-refl l h)

pub put_next-Kept : (l : Loop) → LoopGrows l → Kept l (put_next l)
unfolding put_next
put_next-Kept l h =
    next_Kept (get_elem? (l.params) (l.params_index))
      (get_elem?-OptionGrows (l.params) (l.params_index) h.0)
  where
    next_Kept :
        (o : Option Param)
        → OptionGrows o
        → Kept l (elim o [
          | none ↦ onto l (b'?' ∷ [])
          | some p ↦ record (put_value l p) { params_index = suc (l.params_index) }
        ])
    next_Kept none g = onto-Kept l l (b'?' ∷ []) (Kept-refl l h)
    next_Kept (some p) g = (g.0 (l.dst), h)

pub try_fields-Kept :
    (o : Option Fields) (l other : Loop) (id : Bytes)
    → FieldsGrow o
    → LoopGrows l
    → Kept l other
    → Kept l (try_fields o l id other)
try_fields-Kept none l other id g h k = k
try_fields-Kept (some fs) l other id g h k = tried_Kept (fs (l.dst) id) refl
  where
    tried_Kept :
        (r : Option Bytes)
        → fs (l.dst) id ≡ r
        → Kept l (elim r [ none ↦ other | some dst ↦ record l { dst = dst } ])
    tried_Kept none e = k
    tried_Kept (some b) e = (g (l.dst) id b e, h)

pub last_param-OptionGrows : (ps : List Param) → AllGrow ps → OptionGrows (last_param ps)
unfolding last_param
last_param-OptionGrows [] h = tt
last_param-OptionGrows (p ∷ []) h = h.0
last_param-OptionGrows (p ∷ q ∷ ps) h = last_param-OptionGrows (q ∷ ps) h.1

pub but_last_param-AllGrow : (ps : List Param) → AllGrow ps → AllGrow (but_last_param ps)
unfolding but_last_param
but_last_param-AllGrow [] h = tt
but_last_param-AllGrow (p ∷ []) h = tt
but_last_param-AllGrow (p ∷ q ∷ ps) h = (h.0, but_last_param-AllGrow (q ∷ ps) h.1)

pub fields_of-FieldsGrow : (o : Option Param) → OptionGrows o → FieldsGrow (fields_of o)
fields_of-FieldsGrow none h = tt
fields_of-FieldsGrow (some p) h = h.1.0

pub model_of-FieldsGrow : (o : Option Param) → OptionGrows o → FieldsGrow (model_of o)
model_of-FieldsGrow none h = tt
model_of-FieldsGrow (some p) h = h.1.1
