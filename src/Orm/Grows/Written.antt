-- ===== src/Orm/Grows/Written.antt =====
-- What the clauses of a statement leave of the bytes that are written.
use go_pg.Base.{
  ◌≡◌, ◌≢◌, refl, Bool, true, false, not, ◌&&◌, ◌||◌, Option, none, some, List, [], ◌∷◌, ◌++◌,
  Bytes, codes, ◌==◌, if◌then◌else◌,
}
use go_pg.Types.Field.{append_field, append_field_from, field_mark, doubled}
use go_pg.Orm.Format.{Param, slice, format}
use go_pg.Orm.Table.{Field, Table, Strct, append_sep, value_onto, append_column_and_value}
use go_pg.Orm.Query.{Part, expr, field, Cond, cond, pk_cond, Body}
use go_pg.Orm.Clauses.{
  as_param, formatter_of, format_query, append_part, append_cond, conj_of, append_conds,
  append_returning, is_empty, text_or_empty,
}
use go_pg.Orm.Statements.{maybe_returning}
use go_pg.Orm.Filled.{format-total}
use go_pg.Orm.Grows.{
  Extends, Extends-refl, Extends-trans, Extends-append, AllGrow, FormatterGrows, Grows,
}
use go_pg.Orm.Grows.Rounds.{format-Extends}

-- Neither the database's named parameters nor the model takes back what is written.
abbrev pub BodyGrows : Body → Type 0
BodyGrows d = FormatterGrows ((formatter_of (d.fmter)).named_params) × Grows (as_param (d.model))

abbrev pub StrctGrows : Strct → Type 0
StrctGrows s = (f : Field) (b : Bytes) → Extends b (value_onto f s b)

abbrev pub PartsGrow : List Part → Type 0
PartsGrow [] = Unit
PartsGrow (expr e ps ∷ xs) = AllGrow (slice ps) × PartsGrow xs
PartsGrow (field s ∷ xs) = PartsGrow xs

abbrev pub CondsGrow : List Cond → Type 0
CondsGrow [] = Unit
CondsGrow (cond c e ps ∷ cs) = AllGrow (slice ps) × CondsGrow cs
CondsGrow (pk_cond t s ∷ cs) = StrctGrows s × CondsGrow cs

AllGrow-append : (ps : List Param) (p : Param) → AllGrow ps → Grows p → AllGrow (ps ++ p ∷ [])
AllGrow-append [] p h g = (g, tt)
AllGrow-append (q ∷ ps) p h g = (h.0, AllGrow-append ps p h.1 g)

text_or_empty-Extends :
    (o : Option Bytes) (dst : Bytes)
    → ((out : Bytes) → o ≡ some out → Extends dst out)
    → o ≢ none
    → Extends dst (text_or_empty o)
text_or_empty-Extends none dst h n = absurd (n refl)
text_or_empty-Extends (some b) dst h n = h b refl

pub format_query-Extends :
    (d : Body) (b e : Bytes) (ps : Option (List Param))
    → BodyGrows d
    → AllGrow (slice ps)
    → Extends b (format_query d b e ps)
unfolding format_query
format_query-Extends d b e ps g a =
    let f = formatter_of (d.fmter) in
    let qs = some (slice ps ++ as_param (d.model) ∷ []) in
    let (out, t) = format-total f b e qs in
    text_or_empty-Extends (format f b e qs) b
      (λ out.
        format-Extends f b e out qs g.0 (AllGrow-append (slice ps) (as_param (d.model)) a g.1))
      (λ h. absurd cc)

if-Extends : (c : Bool) (b x y : Bytes) → Extends b x → Extends b y → Extends b (if c then x else y)
if-Extends true b x y h g = h
if-Extends false b x y h g = g

sep_front : (first : Bool) (b sep : Bytes) → Extends b (if first then b else b ++ sep)
sep_front first b sep = if-Extends first b b (b ++ sep) (Extends-refl b) (sep, refl)

pub append_sep-Extends {ℓ} :
    {A : Type ℓ} (sep : Bytes) (put : Bytes → A → Bytes) (xs : List A) (first : Bool) (b : Bytes)
    → ((b : Bytes) (x : A) → Extends b (put b x))
    → Extends b (append_sep first sep put b xs)
unfolding append_sep
append_sep-Extends sep put [] first b h = Extends-refl b
append_sep-Extends sep put (x ∷ xs) first b h =
    let front = if first then b else b ++ sep in
    Extends-trans b front (append_sep false sep put (put front x) xs) (sep_front first b sep) (
      Extends-trans front (put front x) (append_sep false sep put (put front x) xs) (h front x)
        (append_sep-Extends sep put xs false (put front x) h))

pub append_column_and_value-Extends :
    (b : Bytes) (s : Strct) (t : Table) (fs : List Field)
    → StrctGrows s
    → Extends b (append_column_and_value b s t fs)
unfolding append_column_and_value
append_column_and_value-Extends b s t fs h =
    append_sep-Extends (codes " AND ")
      (λ b f. value_onto f s (((b ++ t.alias) ++ b'.' ∷ []) ++ (f.col_name ++ codes " = "))) fs true
      b
      (λ b f.
        Extends-trans b (((b ++ t.alias) ++ b'.' ∷ []) ++ (f.col_name ++ codes " = ")) _
          (Extends-append b ((b ++ t.alias) ++ b'.' ∷ []) _
            (Extends-append b (b ++ t.alias) _ (t.alias, refl)))
          (h f _))

pub append_cond-Extends :
    (d : Body) (b : Bytes) (c : Cond)
    → BodyGrows d
    → CondsGrow (c ∷ [])
    → Extends b (append_cond d b c)
unfolding append_cond
append_cond-Extends d b (cond conj e ps) g h =
    Extends-append b (format_query d (b ++ b'(' ∷ []) e ps) (b')' ∷ []) (
      Extends-trans b (b ++ b'(' ∷ []) _ (b'(' ∷ [], refl)
        (format_query-Extends d (b ++ b'(' ∷ []) e ps g h.0))
append_cond-Extends d b (pk_cond t s) g h = append_column_and_value-Extends b s t (t.pks) h.0

pub CondsGrow-head : (c : Cond) (cs : List Cond) → CondsGrow (c ∷ cs) → CondsGrow (c ∷ [])
CondsGrow-head (cond conj e ps) cs h = (h.0, tt)
CondsGrow-head (pk_cond t s) cs h = (h.0, tt)

pub CondsGrow-tail : (c : Cond) (cs : List Cond) → CondsGrow (c ∷ cs) → CondsGrow cs
CondsGrow-tail (cond conj e ps) cs h = h.1
CondsGrow-tail (pk_cond t s) cs h = h.1

conj_front :
    (first : Bool) (b conj : Bytes)
    → Extends b (if first then b else ((b ++ b' ' ∷ []) ++ conj) ++ b' ' ∷ [])
conj_front first b conj = if-Extends first b b _ (Extends-refl b) (
    Extends-append b ((b ++ b' ' ∷ []) ++ conj) (b' ' ∷ [])
      (Extends-append b (b ++ b' ' ∷ []) conj (b' ' ∷ [], refl)))

pub append_conds-Extends :
    (d : Body) (cs : List Cond) (first : Bool) (b : Bytes)
    → BodyGrows d
    → CondsGrow cs
    → Extends b (append_conds d first b cs)
unfolding append_conds
append_conds-Extends d [] first b g h = Extends-refl b
append_conds-Extends d (c ∷ cs) first b g h =
    let front = if first then b else ((b ++ b' ' ∷ []) ++ conj_of c) ++ b' ' ∷ [] in
    Extends-trans b front (append_conds d false (append_cond d front c) cs)
      (conj_front first b (conj_of c))
      (Extends-trans front (append_cond d front c) (append_conds d false (append_cond d front c) cs)
        (append_cond-Extends d front c g (CondsGrow-head c cs h))
        (append_conds-Extends d cs false (append_cond d front c) g (CondsGrow-tail c cs h)))

append_field_from-Extends :
    (q quoted : Bool) (b s : Bytes) → Extends b (append_field_from q quoted b s)
unfolding append_field_from
append_field_from-Extends q quoted b [] = (_, refl)
append_field_from-Extends q quoted b (c ∷ []) =
    let closed = Extends-append b (b ++ field_mark (q && quoted)) (b'.' ∷ []) (_, refl) in
    if-Extends _ b _ _ (Extends-append b (b ++ b'*' ∷ []) _ (_, refl)) (
      if-Extends _ b _ _ (Extends-append b _ _ (Extends-append b _ (field_mark q) closed))
        (Extends-append b _ _ (Extends-append b (b ++ field_mark (not quoted && q)) _ (_, refl))))
append_field_from-Extends q quoted b (c ∷ d ∷ s) =
    let closed = Extends-append b (b ++ field_mark (q && quoted)) (b'.' ∷ []) (_, refl) in
    if-Extends (c == b'*' && not quoted) b _ _
      (Extends-trans b (b ++ b'*' ∷ []) _ (b'*' ∷ [], refl)
        (append_field_from-Extends q quoted (b ++ b'*' ∷ []) (d ∷ s)))
      (if-Extends (c == b'.') b _ _
        (if-Extends (d == b'*') b _ _
          (Extends-trans b _ _ (Extends-append b _ (b'*' ∷ []) closed)
            (append_field_from-Extends q (quoted && not q) _ s))
          (Extends-trans b _ _ (Extends-append b _ (field_mark q) closed)
            (append_field_from-Extends q (quoted || q) _ (d ∷ s))))
        (Extends-trans b _ _
          (Extends-append b (b ++ field_mark (not quoted && q)) (doubled c) (_, refl))
          (append_field_from-Extends q (quoted || q) _ (d ∷ s))))

append_part-Extends :
    (d : Body) (b : Bytes) (p : Part)
    → BodyGrows d
    → PartsGrow (p ∷ [])
    → Extends b (append_part d b p)
unfolding append_part append_field
append_part-Extends d b (expr e ps) g h = format_query-Extends d b e ps g h.0
append_part-Extends d b (field s) g h = append_field_from-Extends true false b s

PartsGrow-head : (p : Part) (ps : List Part) → PartsGrow (p ∷ ps) → PartsGrow (p ∷ [])
PartsGrow-head (expr e args) ps h = (h.0, tt)
PartsGrow-head (field s) ps h = tt

PartsGrow-tail : (p : Part) (ps : List Part) → PartsGrow (p ∷ ps) → PartsGrow ps
PartsGrow-tail (expr e args) ps h = h.1
PartsGrow-tail (field s) ps h = h

append_parts-Extends :
    (d : Body) (ps : List Part) (first : Bool) (b : Bytes)
    → BodyGrows d
    → PartsGrow ps
    → Extends b (append_sep first (codes ", ") (append_part d) b ps)
unfolding append_sep
append_parts-Extends d [] first b g h = Extends-refl b
append_parts-Extends d (p ∷ ps) first b g h =
    let front = if first then b else b ++ codes ", " in
    Extends-trans b front _ (sep_front first b (codes ", ")) (
      Extends-trans front (append_part d front p) _
        (append_part-Extends d front p g (PartsGrow-head p ps h))
        (append_parts-Extends d ps false (append_part d front p) g (PartsGrow-tail p ps h)))

pub maybe_returning-Extends :
    (d : Body) (b : Bytes) → BodyGrows d → PartsGrow (d.returning) → Extends b (maybe_returning d b)
unfolding append_returning
maybe_returning-Extends d b g h = if-Extends (is_empty (d.returning)) b b _ (Extends-refl b) (
    Extends-trans b (b ++ codes " RETURNING ") _ (codes " RETURNING ", refl)
      (append_parts-Extends d (d.returning) true (b ++ codes " RETURNING ") g h))
