-- ===== src/Orm/Columns/Keeps/Fields.antt =====
-- orm/table.go: what newField and addFields keep of the tables.
use go_pg.Base.{
  ℕ, Bool, true, not, ◌&&◌, Option, none, some, List, [], ◌∷◌, Bytes, find, if◌then◌else◌, codes,
}
use go_pg.Orm.Table.{Field}
use go_pg.Orm.Tags.{has, parse_tag}
use go_pg.Orm.Columns.{StructField, StructType, Kind, struct}
use go_pg.Orm.Columns.Build.{Registry, update, Call, new_table, add_fields, new_field, Answer}
use go_pg.Orm.Columns.Fields.{
  with_pk, override, add_found, add_new, new_field_step, embedded, add_each, made, is_table_name,
  sql_name_of, is_dash,
}
use go_pg.Orm.Columns.Keyed.{if_case}
use go_pg.Orm.Columns.Keeps.{Closed, Keeps, by_kind-Kept}

module _ (Kept : Registry → Type 0) (closed : Closed Kept) where
  add_found-Kept : (t : ℕ) (a : Answer) → Kept (a.0) → Kept (add_found t a)
  add_found-Kept t (r, none) h = h
  add_found-Kept t (r, some f) h = closed.on_listed t f r h

  module _ (types : ℕ → StructType) (call : Call → Registry → Answer)
      (keeps : Keeps Kept call) where
    add_new-Kept :
        (t : ℕ) (f : StructField) (n opt : Bytes) (skip : Bool) (r : Registry)
        → Kept r
        → Kept ((add_new types call t f n opt skip r).0)
    unfolding add_new
    add_new-Kept t f n opt skip r h =
        let field = made ((r.objects t).built.pks) n opt f in
        let r' = update t (with_pk field) r in
        let k = closed.on_pk t field r h in
        if_case (λ (a : Answer). Kept (a.0)) (not skip && f.is_sql_scanner) k
          (by_kind-Kept Kept closed types call keeps t ((parse_tag (f.pg_tag)).1) skip field
            (f.kind) r' k)

    name_case :
        (t : ℕ) (f : StructField) (n opt : Bytes) (skip : Bool) (o : Option Field) (r : Registry)
        → Kept r
        → Kept (
            (elim o as (λ x. Answer) [
              | some g ↦ (r, some g)
              | none ↦ add_new types call t f n opt skip r
            ]).0)
    name_case t f n opt skip (some g) r h = h
    name_case t f n opt skip none r h = add_new-Kept t f n opt skip r h

    pub new_field_step-Kept :
        (t : ℕ) (f : StructField) (nested : Bool) (r : Registry)
        → Kept r
        → Kept ((new_field_step types call t f nested r).0)
    unfolding new_field_step
    new_field_step-Kept t f nested r h =
        let tag = parse_tag (f.sql_tag) in
        let n = sql_name_of (tag.0) (f.name) in
        if_case (λ (a : Answer). Kept (a.0)) (is_table_name (f.name))
          (if_case Kept nested h (closed.on_names t (tag.0) (tag.1) r h))
          (if_case (λ (a : Answer). Kept (a.0)) (not (f.is_exported)) h
            (name_case t f n (tag.1) (is_dash (tag.0)) (find ((r.objects t).built.fields_map) n) r
              h))

    embedded-Kept :
        (t : ℕ) (f : StructField) (k : Kind) (r : Registry) → Kept r → Kept (embedded call t f k r)
    unfolding embedded
    embedded-Kept t f (struct e) r h =
        let r1 = (call (new_table e) r).0 in
        let h1 = keeps (new_table e) r h in
        let o = has ((parse_tag (f.pg_tag)).1) (codes "override") in
        let r2 = if o then update t (override (r1.objects e)) r1 else r1 in
        keeps (add_fields t e true) r2
          (if_case Kept o (closed.on_override t (r1.objects e) r1 h1) h1)
    embedded-Kept t f k r h = closed.on_halt r h

    pub add_each-Kept :
        (t : ℕ) (fs : List StructField) (nested : Bool) (r : Registry)
        → Kept r
        → Kept (add_each call t fs nested r)
    unfolding add_each
    add_each-Kept t [] nested r h = h
    add_each-Kept t (f ∷ fs) nested r h =
        add_each-Kept t fs nested
          (if f.is_anonymous
            then embedded call t f (f.kind) r
            else add_found t (call (new_field t f nested) r))
          (if_case Kept (f.is_anonymous) (embedded-Kept t f (f.kind) r h)
            (add_found-Kept t (call (new_field t f nested) r) (keeps (new_field t f nested) r h)))
