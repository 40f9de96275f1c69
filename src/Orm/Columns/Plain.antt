-- ===== src/Orm/Columns/Plain.antt =====
-- orm/table.go: the table of a struct type whose fields are columns and nothing else.
pub mod Tables
use go_pg.Base.{
  ℕ, zero, suc, ◌≡◌, refl, sym, Bool, true, false, not, ◌&&◌, ◌||◌, Option, none, some, List, [],
  ◌∷◌, ◌++◌, Bytes, equal, equal-eq, find, assign, map, if◌then◌else◌, ◌==◌, ◌∙◌, ap, subst,
  append_assoc, append-nil, arith,
}
use go_pg.Orm.Table.{Field, add_field}
use go_pg.Orm.Tags.{parse_tag}
use go_pg.Orm.Columns.{Kind, StructField, StructType, Built, slice, struct}
use go_pg.Orm.Columns.Build.{
  Registry, update, Call, new_table, add_fields, new_field, Answer, listed, by_kind, is_key,
  value_type,
}
use go_pg.Orm.Columns.Fields.{
  is_table_name, is_dash, sql_name_of, made, with_pk, add_listed, add_found, add_new,
  new_field_step, add_each, embedded, new_table_step, step, run, get_table, empty_table,
  set_methods,
}
use go_pg.Orm.Columns.Keyed.{if_case}
use mathlib.Core.List.{map-append}

-- The SQL name of a field.
abbrev pub column_of : StructField → Bytes
column_of f = sql_name_of ((parse_tag (f.sql_tag)).0) (f.name)

abbrev pub is_plain : Kind → Bool
is_plain (slice (some e)) = false
is_plain (struct e) = false
is_plain k = true

-- A field that is a column: not embedded, not the one that names the table, exported, not left out by its
-- tag, no struct and no slice of structs.
pub record Plain (f : StructField) : Type 0 where
  pub not_embedded : f.is_anonymous ≡ false
  pub no_table_name : is_table_name (f.name) ≡ false
  pub exported : f.is_exported ≡ true
  pub not_left_out : is_dash ((parse_tag (f.sql_tag)).0) ≡ false
  pub plain_kind : is_plain (f.kind) ≡ true

abbrev pub AllPlain : List StructField → Type 0
AllPlain [] = Unit {0}
AllPlain (f ∷ fs) = Plain f × AllPlain fs

abbrev pub Apart : Bytes → List StructField → Type 0
Apart n [] = Unit {0}
Apart n (f ∷ fs) = (equal n (column_of f) ≡ false) × Apart n fs

-- No two fields have the same SQL name.
abbrev pub AllApart : List StructField → Type 0
AllApart [] = Unit {0}
AllApart (f ∷ fs) = Apart (column_of f) fs × AllApart fs

abbrev Absent : List (Bytes × Field) → List StructField → Type 0
Absent m [] = Unit {0}
Absent m (f ∷ fs) = (find m (column_of f) ≡ none) × Absent m fs

abbrev pub names : List Field → List Bytes
names = map (λ f. f.sql_name)

other_case :
    (f g : Field) (m m' : List (Bytes × Field)) (k k' n : Bytes) (c : Bool)
    → (c ≡ true → k' ≡ k)
    → equal k n ≡ false
    → find m' n ≡ find m n
    → find (if c then (k, f) ∷ m else (k', g) ∷ m') n ≡ find ((k', g) ∷ m) n
unfolding find
other_case f g m m' k k' n true e a h = rw (e refl, a) refl
other_case f g m m' k k' n false e a h = ap (λ o. if equal k' n then some g else o) h

find-assign-other :
    (m : List (Bytes × Field)) (k n : Bytes) (f : Field)
    → equal k n ≡ false
    → find (assign m k f) n ≡ find m n
unfolding assign
find-assign-other [] k n f e = unfold find in rw e refl
find-assign-other ((k', g) ∷ m) k n f e =
    other_case f g m (assign m k f) k k' n (equal k' k) (equal-eq k' k) e
      (find-assign-other m k n f e)

assign-Absent :
    (m : List (Bytes × Field)) (k : Bytes) (g : Field) (fs : List StructField)
    → Apart k fs
    → Absent m fs
    → Absent (assign m k g) fs
assign-Absent m k g [] a h = tt
assign-Absent m k g (f ∷ fs) a h =
    (find-assign-other m k (column_of f) g a.0 ∙ h.0, assign-Absent m k g fs a.1 h.1)

[]-Absent : (fs : List StructField) → Absent [] fs
[]-Absent [] = tt
[]-Absent (f ∷ fs) = (unfold find in refl, []-Absent fs)

if_on : {A : Type 0} {c : Bool} (x y : A) → c ≡ true → (if c then x else y) ≡ x
if_on x y e = rw e refl

if_off : {A : Type 0} {c : Bool} (x y : A) → c ≡ false → (if c then x else y) ≡ y
if_off x y e = rw e refl

==-same : (t : ℕ) → (t == t) ≡ true
==-same t = ground arith

update-own : (t : ℕ) (g : Built → Built) (r : Registry) → (update t g r).objects t ≡ g (r.objects t)
unfolding update
update-own t g r = if_on _ _ (==-same t)

-- A field entered into the table of a type.
abbrev entered : ℕ → Field → Registry → Registry
entered t g r = update t (add_listed g) (update t (with_pk g) r)

entered-own :
    (t : ℕ) (g : Field) (r : Registry)
    → (entered t g r).objects t ≡ add_listed g (with_pk g (r.objects t))
entered-own t g r =
    update-own t (add_listed g) (update t (with_pk g) r)
    ∙ ap (add_listed g) (update-own t (with_pk g) r)

entered-names :
    (t : ℕ) (g : Field) (r : Registry)
    → names (((entered t g r).objects t).built.fields)
      ≡ names ((r.objects t).built.fields) ++ g.sql_name ∷ []
unfolding add_listed add_field with_pk
entered-names t g r =
    ap (λ (b : Built). names (b.built.fields)) (entered-own t g r)
    ∙ if_case
        (λ (b : Built).
          names (b.built.fields ++ g ∷ []) ≡ names ((r.objects t).built.fields) ++ g.sql_name ∷ [])
        (g.is_primary_key) (map-append (λ f. f.sql_name) ((r.objects t).built.fields) (g ∷ []))
        (map-append (λ f. f.sql_name) ((r.objects t).built.fields) (g ∷ []))

entered-map :
    (t : ℕ) (g : Field) (r : Registry)
    → ((entered t g r).objects t).built.fields_map
      ≡ assign ((r.objects t).built.fields_map) (g.sql_name) g
unfolding add_listed add_field with_pk
entered-map t g r =
    ap (λ (b : Built). b.built.fields_map) (entered-own t g r)
    ∙ if_case
        (λ (b : Built).
          assign (b.built.fields_map) (g.sql_name) g
          ≡ assign ((r.objects t).built.fields_map) (g.sql_name) g)
        (g.is_primary_key) refl refl

module _ (types : ℕ → StructType) (call : Call → Registry → Answer) where
  by_kind-Plain :
      (t : ℕ) (opt : Bytes) (f : Field) (k : Kind) (r : Registry)
      → is_plain k ≡ true
      → by_kind types call t opt false f k r ≡ (r, some f)
  unfolding by_kind listed
  by_kind-Plain t opt f (slice (some e)) r h = absurd (cc)
  by_kind-Plain t opt f (struct e) r h = absurd (cc)
  by_kind-Plain t opt f k r h = refl

  abbrev field_of : ℕ → StructField → Registry → Field
  field_of t f r = made ((r.objects t).built.pks) (column_of f) ((parse_tag (f.sql_tag)).1) f

  add_new-Plain :
      (t : ℕ) (f : StructField) (skip : Bool) (r : Registry)
      → Plain f
      → skip ≡ false
      → add_new types call t f (column_of f) ((parse_tag (f.sql_tag)).1) skip r
        ≡ (update t (with_pk (field_of t f r)) r, some (field_of t f r))
  unfolding add_new
  add_new-Plain t f true r p e = absurd (cc)
  add_new-Plain t f false r p e =
      let g = field_of t f r in
      let r' = update t (with_pk g) r in
      if_case (λ (a : Answer). a ≡ (r', some g)) (f.is_sql_scanner) refl
        (by_kind-Plain t ((parse_tag (f.pg_tag)).1) g (f.kind) r' (p.plain_kind))

  new_field_step-Plain :
      (t : ℕ) (f : StructField) (nested : Bool) (r : Registry)
      → Plain f
      → find ((r.objects t).built.fields_map) (column_of f) ≡ none
      → new_field_step types call t f nested r
        ≡ (update t (with_pk (field_of t f r)) r, some (field_of t f r))
  unfolding new_field_step
  new_field_step-Plain t f nested r p h =
      let tag = parse_tag (f.sql_tag) in
      if_off _ _ (p.no_table_name)
      ∙ if_off _ _ (ap not (p.exported))
      ∙ ap
          (λ (o : Option Field). elim o as (λ x. Answer) [
            | some g ↦ (r, some g)
            | none ↦ add_new types call t f (column_of f) (tag.1) (is_dash (tag.0)) r
          ])
          h
      ∙ add_new-Plain t f (is_dash (tag.0)) r p (p.not_left_out)

-- The loop of addFields over plain fields.
module _ (types : ℕ → StructType) (call again : Call → Registry → Answer) (t : ℕ) (nested : Bool)
    (answers : (f : StructField) (r : Registry)
      → call (new_field t f nested) r ≡ new_field_step types again t f nested r) where
  add_one-Plain :
      (f : StructField) (r : Registry)
      → Plain f
      → find ((r.objects t).built.fields_map) (column_of f) ≡ none
      → (if f.is_anonymous
          then embedded call t f (f.kind) r
          else add_found t (call (new_field t f nested) r))
        ≡ entered t (field_of types again t f r) r
  add_one-Plain f r p h =
      if_off _ _ (p.not_embedded)
      ∙ ap (add_found t) (answers f r ∙ new_field_step-Plain types again t f nested r p h)

  add_each-Plain :
      (fs : List StructField) (r : Registry)
      → AllPlain fs
      → AllApart fs
      → Absent ((r.objects t).built.fields_map) fs
      → (names (((add_each call t fs nested r).objects t).built.fields)
          ≡ names ((r.objects t).built.fields) ++ map column_of fs)
        × ((add_each call t fs nested r).halted ≡ r.halted)
  unfolding add_each made sql_name_of
  add_each-Plain [] r p a h = (sym (append-nil (names ((r.objects t).built.fields))), refl)
  add_each-Plain (f ∷ fs) r p a h =
      let g = field_of types again t f r in
      let m = (r.objects t).built.fields_map in
      let rest = add_each-Plain fs (entered t g r) p.1 a.1 (
        subst (λ q. Absent q fs) (sym (entered-map t g r))
          (assign-Absent m (column_of f) g fs a.0 h.1)) in
      subst
        (λ (q : Registry).
          (names (((add_each call t fs nested q).objects t).built.fields)
            ≡ names ((r.objects t).built.fields) ++ column_of f ∷ map column_of fs)
          × ((add_each call t fs nested q).halted ≡ r.halted))
        (sym (add_one-Plain f r p.0 h.0))
        (
          rest.0
              ∙ ap (λ z. z ++ map column_of fs) (entered-names t g r)
              ∙ append_assoc (names ((r.objects t).built.fields)) (column_of f ∷ [])
                  (map column_of fs),
          rest.1 ∙ (unfold update in refl),
        )
