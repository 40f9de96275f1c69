-- ===== src/Orm/Columns/Keeps.antt =====
-- orm/table.go: what the fields of struct and slice types keep of the tables.
pub mod Fields
use go_pg.Base.{
  ℕ, zero, suc, ◌≡◌, refl, Bool, true, false, not, ◌&&◌, ◌||◌, Option, none, some, List, [], ◌∷◌,
  Bytes, find, if◌then◌else◌, codes, ◌++◌,
}
use go_pg.Orm.Table.{Field, has_field}
use go_pg.Orm.Joins.{has_one, belongs_to}
use go_pg.Orm.Tags.{get, has, parse_tag}
use go_pg.Orm.Columns.{
  StructField, StructType, Relation, Built, Kind, add_relation, slice, struct, int8, int16, int32,
  int64, int, uint8, uint16, uint32, uint64, uint, float32, float64, bool, string, of_map, other,
}
use go_pg.Orm.Columns.Build.{
  Registry, halt, update, Call, new_table, add_fields, new_field, Answer, listed, by_kind, related,
  detect_has_one, detect_belongs_to_one, register, inline, struct_field, slice_field, foreign_keys,
  get_field, named, belongs_or, one_or, many_or, is_key, delete, given, value_type, pointer_to,
  plain, many_to_many_of, has_many_of, many_prefix,
}
use go_pg.Orm.Columns.Fields.{
  set_names, with_pk, override, add_listed, add_found, empty_table, set_methods, add_new,
  new_field_step, embedded, add_each, new_table_step, step, run, made, is_table_name, sql_name_of,
  get_table, is_dash,
}
use go_pg.Orm.Columns.Keyed.{
  Keyed, AllKeyed, if_case, update-AllKeyed, register-Keyed, inline-Keyed, add_listed-Keyed,
  with_pk-Keyed, kept, OwnNames, Listed, Flagged,
}

-- A property of the tables built so far that every change of one of them keeps.
pub record Closed (Kept : Registry → Type 0) : Type 0 where
  pub on_register : (t : ℕ) (f : Field) (r : Registry) → Kept r → Kept (update t (register f) r)
  pub on_relation :
      (t : ℕ) (rel : Relation) (r : Registry) → Kept r → Kept (update t (add_relation rel) r)
  pub on_inline :
      (t : ℕ) (f : Field) (m : List (Bytes × Field)) (r : Registry)
      → Kept r
      → Kept (update t (inline f m) r)
  pub on_listed : (t : ℕ) (f : Field) (r : Registry) → Kept r → Kept (update t (add_listed f) r)
  pub on_pk : (t : ℕ) (f : Field) (r : Registry) → Kept r → Kept (update t (with_pk f) r)
  pub on_names :
      (t : ℕ) (n opt : Bytes) (r : Registry) → Kept r → Kept (update t (set_names n opt) r)
  pub on_override : (t : ℕ) (e : Built) (r : Registry) → Kept r → Kept (update t (override e) r)
  pub on_halt : (r : Registry) → Kept r → Kept (halt r)

-- The calls of a round keep the property.
abbrev pub Keeps : (Registry → Type 0) → (Call → Registry → Answer) → Type 0
Keeps Kept call = (c : Call) (r : Registry) → Kept r → Kept ((call c r).0)

module _ (Kept : Registry → Type 0) (closed : Closed Kept) where
  listed-Kept :
      (t : ℕ) (skip : Bool) (f : Field) (r : Registry) → Kept r → Kept ((listed t skip f r).0)
  unfolding listed
  listed-Kept t true f r h = closed.on_register t f r h
  listed-Kept t false f r h = h

  related-Kept :
      (t : ℕ) (rel : Relation) (p : Registry × List Field) → Kept (p.0) → Kept ((related t rel p).0)
  unfolding related
  related-Kept t rel (r, []) h = h
  related-Kept t rel (r, k ∷ ks) h = closed.on_relation t (record rel { fks = k ∷ ks }) r h

  belongs_or-Kept :
      (t : ℕ) (skip : Bool) (f : Field) (join : ℕ) (p : Registry × Bool)
      → Kept (p.0)
      → Kept ((belongs_or t skip f join p).0)
  belongs_or-Kept t skip f join (r, true) h = closed.on_register t f r h
  belongs_or-Kept t skip f join (r, false) h = listed-Kept t skip f r h

  many_or-Kept :
      (t : ℕ) (skip : Bool) (f : Field) (p : Registry × Bool)
      → Kept (p.0)
      → Kept ((many_or t skip f p).0)
  many_or-Kept t skip f (r, true) h = h
  many_or-Kept t skip f (r, false) h = listed-Kept t skip f r h

  module _ (types : ℕ → StructType) (call : Call → Registry → Answer)
      (keeps : Keeps Kept call) where
    found_case :
        (t : ℕ) (o : Option Field) (s : Option StructField) (r : Registry)
        → Kept r
        → Kept (
            (elim o as (λ x. Answer) [
              | some f ↦ (r, some f)
              | none ↦ elim s as (λ x. Answer) [
                | some f ↦ call (new_field t f false) r
                | none ↦ (r, none)
              ]
            ]).0)
    found_case t (some f) s r h = h
    found_case t none (some f) r h = keeps (new_field t f false) r h
    found_case t none none r h = h

    get_field-Kept :
        (t : ℕ) (n : Bytes) (r : Registry) → Kept r → Kept ((get_field types call t n r).0)
    unfolding get_field
    get_field-Kept t n r h =
        found_case t (named ((r.objects t).built.fields) n) ((types t).field_by_name n) r h

    foreign_keys-Kept :
        (pks : List Field) (join : ℕ) (prefix : Bytes) (r : Registry)
        → Kept r
        → Kept ((foreign_keys types call pks join prefix r).0)
    unfolding foreign_keys
    foreign_keys-Kept [] join prefix r h = h
    foreign_keys-Kept (pk ∷ pks) join prefix r h =
        foreign_keys-Kept pks join prefix ((get_field types call join (prefix ++ pk.go_name) r).0)
          (get_field-Kept join (prefix ++ pk.go_name) r h)

    detect_has_one-Kept :
        (t : ℕ) (f : Field) (join : ℕ) (r : Registry)
        → Kept r
        → Kept ((detect_has_one types call t f join r).0)
    unfolding detect_has_one
    detect_has_one-Kept t f join r h =
        let pks = (r.objects join).built.pks in
        related-Kept t (plain has_one f join) (foreign_keys types call pks t (f.go_name) r)
          (foreign_keys-Kept pks t (f.go_name) r h)

    detect_belongs_to_one-Kept :
        (t : ℕ) (f : Field) (join : ℕ) (r : Registry)
        → Kept r
        → Kept ((detect_belongs_to_one types call t f join r).0)
    unfolding detect_belongs_to_one
    detect_belongs_to_one-Kept t f join r h =
        let pks = (r.objects t).built.pks in
        let prefix = (r.objects t).type_name in
        related-Kept t (plain belongs_to f join) (foreign_keys types call pks join prefix r)
          (foreign_keys-Kept pks join prefix r h)

    one_or-Kept :
        (t : ℕ) (skip : Bool) (f : Field) (join : ℕ) (p : Registry × Bool)
        → Kept (p.0)
        → Kept ((one_or types call t skip f join p).0)
    one_or-Kept t skip f join (r, true) h = closed.on_register t f r h
    one_or-Kept t skip f join (r, false) h =
        belongs_or-Kept t skip f join (detect_belongs_to_one types call t f join r)
          (detect_belongs_to_one-Kept t f join r h)

    struct_case :
        (t : ℕ) (skip : Bool) (f : Field) (join : ℕ) (fs : List Field) (r : Registry)
        → Kept r
        → Kept (
            (elim fs as (λ x. Answer) [
              | [] ↦ listed t skip f r
              | g ∷ gs ↦ one_or types call t skip f join (
                  detect_has_one types call t f join
                    (update t (inline f ((r.objects join).built.fields_map)) r))
            ]).0)
    struct_case t skip f join [] r h = listed-Kept t skip f r h
    struct_case t skip f join (g ∷ gs) r h =
        let m = (r.objects join).built.fields_map in
        let r' = update t (inline f m) r in
        one_or-Kept t skip f join (detect_has_one types call t f join r')
          (detect_has_one-Kept t f join r' (closed.on_inline t f m r h))

    slice_case :
        (t : ℕ) (opt : Bytes) (skip : Bool) (f : Field) (rel : Bytes → Relation) (m : Option Bytes)
        (r : Registry) (p : Registry × Bool)
        → Kept r
        → Kept (p.0)
        → Kept (
            (elim m as (λ x. Answer) [
              | some s ↦ (update t (add_relation (rel s)) r, none)
              | none ↦ many_or t skip f p
            ]).0)
    slice_case t opt skip f rel (some s) r p h k = closed.on_relation t (rel s) r h
    slice_case t opt skip f rel none r p h k = many_or-Kept t skip f p k

    slice_field-Kept :
        (t : ℕ) (opt : Bytes) (skip : Bool) (f : Field) (join : ℕ) (r : Registry)
        → Kept r
        → Kept ((slice_field types call t opt skip f join r).0)
    unfolding slice_field
    slice_field-Kept t opt skip f join r h =
        let rel = has_many_of t opt f join r in
        let pks = (r.objects t).built.pks in
        let prefix = many_prefix t opt r in
        slice_case t opt skip f (λ m. many_to_many_of t opt f join m r)
          (given (get opt (codes "many2many:"))) r
          (related t rel (foreign_keys types call pks join prefix r)) h
          (related-Kept t rel (foreign_keys types call pks join prefix r)
            (foreign_keys-Kept pks join prefix r h))

    pub by_kind-Kept :
        (t : ℕ) (opt : Bytes) (skip : Bool) (f : Field) (k : Kind) (r : Registry)
        → Kept r
        → Kept ((by_kind types call t opt skip f k r).0)
    unfolding by_kind
    by_kind-Kept t opt skip f (slice (some e)) r h =
        slice_field-Kept t opt skip f e ((call (new_table e) r).0) (keeps (new_table e) r h)
    by_kind-Kept t opt skip f (struct e) r h =
        unfold struct_field in
        struct_case t skip f e ((((call (new_table e) r).0).objects e).built.fields)
          ((call (new_table e) r).0) (keeps (new_table e) r h)
    by_kind-Kept t opt skip f k r h = listed-Kept t skip f r h
