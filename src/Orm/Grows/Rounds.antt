-- ===== src/Orm/Grows/Rounds.antt =====
-- The rounds of `Formatter.append`, and what they leave of the bytes that are written.
use go_pg.Base.{
  ℕ, zero, suc, ◌≡◌, refl, sym, ap, subst, Bool, true, false, not, Option, none, some, List, [],
  ◌∷◌, ◌++◌, Bytes, length, find, equal, if◌then◌else◌,
}
use go_pg.Types.Append.{strip_last}
use go_pg.Parser.{read_sep, read_identifier}
use go_pg.Orm.Format.{
  Param, Formatter, Fields, Loop, onto, put_value, put_name, put_mark, init_named, lookup,
  try_fields, restored, last_param, but_last_param, fields_of, model_of, ends_in, format_round,
  format_rounds, format_loop, format, start, without_model, slice, finish,
}
use go_pg.Orm.Grows.{
  Extends, Extends-refl, FieldsGrow, AllGrow, MapGrows, FormatterGrows, OptionGrows, LoopGrows,
  Kept, Kept-refl, Kept-trans, onto-Kept, put_number-Kept, put_next-Kept, try_fields-Kept,
  last_param-OptionGrows, but_last_param-AllGrow, fields_of-FieldsGrow, model_of-FieldsGrow,
}

-- What the first use of a name makes of the variables: `fs` are the fields of the last parameter.
abbrev named_by : Loop → List Param → Option Fields → Loop
named_by l ps none = record l { named_params_init = true }
named_by l ps (some fs) = record l {
  params = but_last_param ps;
  named_params = some fs;
  named_params_init = true;
}

named_by-Kept :
    (l : Loop) (ps : List Param) (o : Option Fields)
    → LoopGrows l
    → AllGrow ps
    → FieldsGrow o
    → Kept l (named_by l ps o)
named_by-Kept l ps none h a g = (Extends-refl (l.dst), h)
named_by-Kept l ps (some fs) h a g = (Extends-refl (l.dst), (but_last_param-AllGrow ps a, g))

init_named-Kept : (l : Loop) → LoopGrows l → Kept l (init_named l)
unfolding init_named
init_named-Kept l h = named_Kept (l.named_params_init) (l.params) h.0
  where
    named_Kept :
        (b : Bool) (ps : List Param)
        → AllGrow ps
        → Kept l (elim b [
          | true ↦ l
          | false ↦ elim ps [
            | [] ↦ l
            | p ∷ qs ↦ named_by l (p ∷ qs) (fields_of (last_param (p ∷ qs)))
          ]
        ])
    named_Kept true ps a = Kept-refl l h
    named_Kept false [] a = Kept-refl l h
    named_Kept false (p ∷ qs) a =
        named_by-Kept l (p ∷ qs) (fields_of (last_param (p ∷ qs))) h a
          (fields_of-FieldsGrow (last_param (p ∷ qs)) (last_param-OptionGrows (p ∷ qs) a))

if-OptionGrows :
    (b : Bool) (o o' : Option Param)
    → OptionGrows o
    → OptionGrows o'
    → OptionGrows (if b then o else o')
if-OptionGrows true o o' h g = h
if-OptionGrows false o o' h g = g

find-OptionGrows : (m : List (Bytes × Param)) (k : Bytes) → MapGrows m → OptionGrows (find m k)
unfolding find
find-OptionGrows [] k h = tt
find-OptionGrows ((k', p) ∷ m) k h =
    if-OptionGrows (equal k' k) (some p) (find m k) h.0 (find-OptionGrows m k h.1)

lookup-OptionGrows :
    (o : Option (List (Bytes × Param))) (id : Bytes)
    → FormatterGrows o
    → OptionGrows (lookup (record { named_params = o }) id)
lookup-OptionGrows none id h = tt
lookup-OptionGrows (some m) id h = find-OptionGrows m id h

put_name-Kept :
    (f : Formatter) (model : Option Fields) (l : Loop) (id : Bytes)
    → FormatterGrows (f.named_params)
    → FieldsGrow model
    → LoopGrows l
    → Kept l (put_name f model l id)
unfolding put_name
put_name-Kept f model l id g m h =
    found_Kept (lookup f id) (lookup-OptionGrows (f.named_params) id g)
  where
    l' : Loop
    l' = init_named l

    init_Kept : Kept l l'
    init_Kept = init_named-Kept l h

    fields_Kept :
        Kept l' (try_fields (l'.named_params) l' id (try_fields model l' id (restored l' id)))
    fields_Kept =
        try_fields-Kept (l'.named_params) l' (try_fields model l' id (restored l' id)) id
          init_Kept.1.1 init_Kept.1
          (try_fields-Kept model l' (restored l' id) id m init_Kept.1
            (onto-Kept l' l' (b'?' ∷ id) (Kept-refl l' init_Kept.1)))

    found_Kept :
        (o : Option Param)
        → OptionGrows o
        → Kept l (elim o [
          | some p ↦ put_value l p
          | none ↦ try_fields (l'.named_params) l' id (try_fields model l' id (restored l' id))
        ])
    found_Kept (some p) k = (k.0 (l.dst), h)
    found_Kept none k =
        Kept-trans l l'
          (try_fields (l'.named_params) l' id (try_fields model l' id (restored l' id))) init_Kept
          fields_Kept

put_mark-Kept :
    (f : Formatter) (model : Option Fields) (l : Loop) (id : Bytes) (numeric : Bool)
    → FormatterGrows (f.named_params)
    → FieldsGrow model
    → LoopGrows l
    → Kept l (put_mark f model l id numeric)
unfolding put_mark
put_mark-Kept f model l [] numeric g m h = put_next-Kept l h
put_mark-Kept f model l (c ∷ id) true g m h = put_number-Kept l (c ∷ id) h
put_mark-Kept f model l (c ∷ id) false g m h = put_name-Kept f model l (c ∷ id) g m h

-- A choice of two rounds.
either_Kept :
    (l : Loop) (b : Bool) (x y : Loop × Bytes)
    → Kept l x.0
    → Kept l y.0
    → Kept l ((if b then x else y).0)
either_Kept l true x y h g = h
either_Kept l false x y h g = g

format_round-Kept :
    (f : Formatter) (model : Option Fields) (l : Loop) (src : Bytes)
    → FormatterGrows (f.named_params)
    → FieldsGrow model
    → LoopGrows l
    → Kept l ((format_round f model l src).0)
unfolding format_round
format_round-Kept f model l src g m h =
    let k = read_sep b'?' src in
    let r = read_identifier (k.rest) in
    let text = onto-Kept l l (k.before) (Kept-refl l h) in
    either_Kept l (not (k.found)) _ _ text (
      either_Kept l (ends_in b'\\' (k.before)) _ _
        (onto-Kept l (onto l (strip_last (k.before))) (b'?' ∷ [])
          (onto-Kept l l (strip_last (k.before)) (Kept-refl l h)))
        (Kept-trans l (onto l (k.before)) (put_mark f model (onto l (k.before)) (r.0) (r.1)) text
          (put_mark-Kept f model (onto l (k.before)) (r.0) (r.1) g m h)))

format_rounds-Kept :
    (n : ℕ) (f : Formatter) (model : Option Fields) (l l' : Loop) (src : Bytes)
    → FormatterGrows (f.named_params)
    → FieldsGrow model
    → LoopGrows l
    → format_rounds n f model l src ≡ some l'
    → Kept l l'
unfolding format_rounds
format_rounds-Kept n f model l l' [] g m h e =
    subst (Kept l) (ap (λ o. elim o [ none ↦ l | some x ↦ x ]) e) (Kept-refl l h)
format_rounds-Kept zero f model l l' (c ∷ src) g m h e = absurd cc
format_rounds-Kept (suc n) f model l l' (c ∷ src) g m h e =
    let k = format_round-Kept f model l (c ∷ src) g m h in
    Kept-trans l ((format_round f model l (c ∷ src)).0) l' k (
      format_rounds-Kept n f model ((format_round f model l (c ∷ src)).0) l'
        ((format_round f model l (c ∷ src)).1) g m k.1 e)

without_model-AllGrow : (ps : List Param) → AllGrow ps → AllGrow (without_model ps)
without_model-AllGrow ps a = model_AllGrow (model_of (last_param ps))
  where
    model_AllGrow :
        (o : Option Fields) → AllGrow (elim o [ none ↦ ps | some m ↦ but_last_param ps ])
    model_AllGrow none = a
    model_AllGrow (some m) = but_last_param-AllGrow ps a

format_loop-Extends :
    (f : Formatter) (dst src : Bytes) (ps : List Param) (l : Loop)
    → FormatterGrows (f.named_params)
    → AllGrow ps
    → format_loop f dst src ps ≡ some l
    → Extends dst (l.dst)
unfolding format_loop
format_loop-Extends f dst src ps l g a e =
    (format_rounds-Kept (length src) f (model_of (last_param ps)) (start dst (without_model ps)) l
      src g (model_of-FieldsGrow (last_param ps) (last_param-OptionGrows ps a))
      (without_model-AllGrow ps a, tt) e).0

finish-Extends :
    (b : Bool) (dst src out : Bytes) (o : Option Loop)
    → ((l : Loop) → o ≡ some l → Extends dst (l.dst))
    → (if b then some (dst ++ src) else finish o) ≡ some out
    → Extends dst out
finish-Extends true dst src out o h e = (src, sym cc)
finish-Extends false dst src out none h e = absurd cc
finish-Extends false dst src out (some l) h e = subst (Extends dst) (cc) (h l refl)

-- Formatting keeps every byte that is written when no parameter takes one back.
pub format-Extends :
    (f : Formatter) (dst src out : Bytes) (ps : Option (List Param))
    → FormatterGrows (f.named_params)
    → AllGrow (slice ps)
    → format f dst src ps ≡ some out
    → Extends dst out
unfolding format
format-Extends f dst src out ps g a e =
    finish-Extends _ dst src out (format_loop f dst src (slice ps))
      (λ l h. format_loop-Extends f dst src (slice ps) l g a h) e
