-- ===== src/Orm/Columns/Fields.antt =====
-- orm/table.go and orm/tables.go: newField, addFields, newTable and Get, one round of their recursion at
-- a time. The plural of a name is of github.com/jinzhu/inflection.
use go_pg.Base.{
  ℕ, zero, suc, Bool, true, false, not, ◌&&◌, ◌||◌, none, some, List, [], ◌∷◌, ◌++◌, Bytes, codes,
  equal, find, if◌then◌else◌,
}
use go_pg.Types.Field.{append_field}
use go_pg.Orm.Names.{underscore, to_exported}
use go_pg.Orm.Table.{Field, Method, add_field}
use go_pg.Orm.Tags.{get, has, parse_tag}
use go_pg.Orm.Columns.{
  Kind, StructField, MethodInfo, StructType, Built, sql_type_of, ends_in_id, struct,
}
use go_pg.Orm.Columns.Build.{
  value_type, pointer_to, is_key, delete, Registry, halt, update, Call, new_table, add_fields,
  new_field, Answer, by_kind,
}

abbrev pub is_table_name : Bytes → Bool
is_table_name n = equal n (codes "tableName") || equal n (codes "TableName")

-- The names that a field `tableName` gives its table.
unfoldable pub set_names : Bytes → Bytes → Built → Built
unfolding get
set_names n opt b =
    let t = b.built in
    record b {
      built = record t {
        name = elim n [ [] ↦ t.name | c ∷ s ↦ c ∷ s ];
        alias = elim (get opt (codes "alias:")) [ some a ↦ a | none ↦ t.alias ];
      };
    }

unfoldable pub is_pk : List Field → Bytes → Bytes → Bool
unfolding get equal
is_pk [] n opt = (equal n (codes "id") || equal n (codes "uuid")) || has opt (codes "pk")
is_pk (f ∷ fs) n opt = has opt (codes "pk")

-- The field of a table that has these primary keys.
unfoldable pub made : List Field → Bytes → Bytes → StructField → Field
unfolding is_pk ends_in_id sql_type_of append_field get
made pks n opt f = record {
  go_name = f.name;
  sql_name = n;
  col_name = append_field [] n true;
  sql_type = sql_type_of opt (is_pk pks n opt) f;
  is_primary_key = is_pk pks n opt;
  is_foreign_key = not (is_pk pks n opt) && ends_in_id n;
  is_not_null = has opt (codes "notnull");
  is_unique = has opt (codes "unique");
}

-- The new field is one of the primary keys if it has the flag.
unfoldable pub with_pk : Field → Built → Built
with_pk f b =
    if f.is_primary_key
    then record b { built = record (b.built) { pks = b.built.pks ++ f ∷ [] } }
    else b

abbrev pub is_dash : Bytes → Bool
is_dash n = equal n (codes "-")

-- The SQL name of a field, from that of its tag.
unfoldable pub sql_name_of : Bytes → Bytes → Bytes
unfolding underscore equal
sql_name_of [] go = underscore go
sql_name_of (c ∷ n) go = if is_dash (c ∷ n) then underscore go else c ∷ n

-- The names that an embedded table overrides.
unfoldable pub override : Built → Built → Built
override e b = record b {
  type_name = e.type_name;
  built = record (b.built) {
    name = e.built.name;
    alias = e.built.alias;
    model_name = e.built.model_name;
  };
}

unfoldable pub add_listed : Field → Built → Built
unfolding add_field
add_listed f b = record b { built = add_field (b.built) f }

abbrev pub add_found : ℕ → Answer → Registry
add_found t (r, none) = r
add_found t (r, some f) = update t (add_listed f) r

-- The methods that a table keeps: exported, without arguments, with one result.
unfoldable pub methods_of : List MethodInfo → List (Bytes × Method)
methods_of [] = []
methods_of (m ∷ ms) =
    let rest = methods_of ms in
    if (m.is_exported_method && not (m.has_arguments)) && m.has_one_result
    then (m.method_name, m.method) ∷ rest
    else rest

module _ (call : Call → Registry → Answer) where
  -- An embedded struct, whose fields are the table's.
  unfoldable pub embedded : ℕ → StructField → Kind → Registry → Registry
  unfolding override update parse_tag get
  embedded t f (struct e) r =
      let r1 = (call (new_table e) r).0 in
      let r2 =
        if has ((parse_tag (f.pg_tag)).1) (codes "override")
        then update t (override (r1.objects e)) r1
        else r1 in
      (call (add_fields t e true) r2).0
  embedded t f k r = halt r

  unfoldable pub add_each : ℕ → List StructField → Bool → Registry → Registry
  unfolding embedded add_listed update
  add_each t [] nested r = r
  add_each t (f ∷ fs) nested r = add_each t fs nested (
      if f.is_anonymous
      then embedded t f (f.kind) r
      else add_found t (call (new_field t f nested) r))

module _ (types : ℕ → StructType) (call : Call → Registry → Answer) where
  -- `newField` behind the look-up of the name.
  unfoldable pub add_new : ℕ → StructField → Bytes → Bytes → Bool → Registry → Answer
  unfolding made with_pk update by_kind parse_tag
  add_new t f n opt skip r =
      let field = made ((r.objects t).built.pks) n opt f in
      let r' = update t (with_pk field) r in
      if not skip && f.is_sql_scanner
      then (r', some field)
      else by_kind types call t ((parse_tag (f.pg_tag)).1) skip field (f.kind) r'

  unfoldable pub new_field_step : ℕ → StructField → Bool → Registry → Answer
  unfolding add_new set_names sql_name_of find parse_tag update
  new_field_step t f nested r =
      let tag = parse_tag (f.sql_tag) in
      let n = sql_name_of (tag.0) (f.name) in
      if is_table_name (f.name)
      then (if nested then r else update t (set_names (tag.0) (tag.1)) r, none)
      else if not (f.is_exported)
      then (r, none)
      else elim (find ((r.objects t).built.fields_map) n) [
        | some g ↦ (r, some g)
        | none ↦ add_new t f n (tag.1) (is_dash (tag.0)) r
      ]

module _ (plural : Bytes → Bytes) (types : ℕ → StructType) where
  unfoldable pub empty_table : ℕ → Built
  unfolding underscore to_exported append_field
  empty_table t =
      let model = underscore ((types t).struct_name) in
      record {
        type_name = to_exported ((types t).struct_name);
        relations = [];
        built = record {
          name = append_field [] (plural model) true;
          alias = append_field [] model true;
          model_name = model;
          fields = [];
          pks = [];
          fields_map = [];
          methods = [];
        };
      }

  unfoldable pub set_methods : ℕ → Built → Built
  unfolding methods_of
  set_methods t b = record b {
    built = record (b.built) { methods = methods_of ((types t).struct_methods) };
  }

  module _ (call : Call → Registry → Answer) where
    -- `newTable` of a struct type: the pointer type is the key under which the table is kept.
    unfoldable pub new_table_step : ℕ → Registry → Registry
    unfolding is_key delete update empty_table set_methods
    new_table_step t r =
        if is_key (value_type t) (r.tables) || is_key (value_type t) (r.in_flight)
        then r
        else (let r1 = record (update t (λ b. empty_table t) r) {
          in_flight = value_type t ∷ r.in_flight;
        } in
            let r2 = update t (set_methods t) ((call (add_fields t t false) r1).0) in
            record r2 {
              tables = pointer_to t ∷ r2.tables;
              in_flight = delete (pointer_to t) (r2.in_flight);
            })

    unfoldable pub step : Call → Registry → Answer
    unfolding new_table_step add_each new_field_step
    step (new_table t) r = (new_table_step t r, none)
    step (add_fields t u nested) r = (add_each call t ((types u).struct_fields) nested r, none)
    step (new_field t f nested) r = new_field_step types call t f nested r

  -- The recursion, on rounds: each call nested in another takes one. It need not end in the source either:
  -- a struct that embeds a pointer to itself has its fields added for ever.
  unfoldable pub run : ℕ → Call → Registry → Answer
  unfolding step
  run zero c r = (halt r, none)
  run (suc fuel) c r = step (run fuel) c r

  -- `Get`.
  unfoldable pub get_table : ℕ → ℕ → Registry → Registry
  unfolding is_key run
  get_table fuel t r = if is_key (value_type t) (r.tables) then r else (run fuel (new_table t) r).0
