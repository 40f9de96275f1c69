-- ===== src/Orm/Columns/Tests.antt =====
-- The tables of two struct types that point to each other, and the text that creates one.
use go_pg.Base.{ℕ, zero, suc, ◌≡◌, refl, true, false, none, some, [], ◌∷◌, ◌++◌, Bytes, codes, map}
use go_pg.Orm.Columns.{Kind, StructField, StructType, int64, string, slice, struct, Relation}
use go_pg.Orm.Columns.Build.{Registry, new_tables, new_table, Answer}
use go_pg.Orm.Columns.Fields.{run, get_table}
use go_pg.Orm.Columns.Create.{append_query}
use go_pg.Orm.Columns.Keyed.{AllKeyed}
use go_pg.Orm.Columns.Registry.{OnlyPointers, run-AllKeyed, get_table-Again}
use go_pg.Orm.Columns.Plain.{Plain, column_of, names}
use go_pg.Orm.Columns.Plain.Tables.{get_table-Plain}

abbrev member : Bytes → Bytes → Kind → StructField
member n tag k = record {
  name = n;
  is_exported = true;
  is_anonymous = false;
  sql_tag = tag;
  pg_tag = [];
  known = none;
  kind = k;
  is_sql_scanner = false;
}

-- Authors have many books, and a book belongs to an author.
abbrev types : ℕ → StructType
types zero = record {
  struct_name = codes "Author";
  struct_fields =
      member (codes "Id") [] int64
      ∷ member (codes "Name") (codes ",notnull,unique") string
      ∷ member (codes "Books") [] (slice (some 1))
      ∷ [];
  field_by_name = λ n. none;
  struct_methods = [];
}
types (suc t) = record {
  struct_name = codes "Book";
  struct_fields =
      member (codes "Id") [] int64
      ∷ member (codes "AuthorId") [] int64
      ∷ member (codes "Author") [] (struct 0)
      ∷ [];
  field_by_name = λ n. none;
  struct_methods = [];
}

abbrev add_s : Bytes → Bytes
add_s n = n ++ codes "s"

abbrev authors : Registry
unfolding get_table
authors = get_table add_s types 12 0 new_tables

authors_created :
    append_query false [] (some (authors.objects 0))
    ≡ some (
        codes
          "CREATE TABLE \"authors\" (id bigserial, name text NOT NULL UNIQUE, PRIMARY KEY (id))")
unfolding append_query get_table go_pg.Orm.Columns.Build.same_key
authors_created = refl

authors_done : authors.halted ≡ false
unfolding get_table go_pg.Orm.Columns.Build.same_key
authors_done = refl

relation_names :
    map (λ (p : Bytes × Relation). p.0) ((authors.objects 0).relations) ≡ codes "Books" ∷ []
unfolding get_table go_pg.Orm.Columns.Build.same_key
relation_names = refl

parents : map (λ (p : Bytes × Relation). p.0) ((authors.objects 1).relations) ≡ codes "Author" ∷ []
unfolding get_table go_pg.Orm.Columns.Build.same_key
parents = refl

run-AllKeyed_example : AllKeyed ((run add_s types 12 (new_table 0) new_tables).0)
run-AllKeyed_example =
    run-AllKeyed add_s types 12 (new_table 0) new_tables
      (λ t. record { own_names = tt; all_listed = tt; all_flagged = tt })

get_table-Again_example :
    OnlyPointers ((get_table add_s types 12 0 new_tables).tables)
    × (get_table add_s types 3 0 (get_table add_s types 12 0 new_tables)
        ≡ get_table add_s types 12 0 new_tables)
unfolding go_pg.Orm.Columns.Build.is_key
get_table-Again_example = get_table-Again add_s types 2 11 0 new_tables (λ t. refl)

-- A struct with two columns.
abbrev tags : ℕ → StructType
tags t = record {
  struct_name = codes "Tag";
  struct_fields = member (codes "Id") [] int64 ∷ member (codes "Name") (codes "label") string ∷ [];
  field_by_name = λ n. none;
  struct_methods = [];
}

id-Plain : Plain (member (codes "Id") [] int64)
unfolding go_pg.Base.equal go_pg.Orm.Tags.parse_tag
id-Plain = record {
  not_embedded = refl;
  no_table_name = refl;
  exported = refl;
  not_left_out = refl;
  plain_kind = refl;
}

name-Plain : Plain (member (codes "Name") (codes "label") string)
unfolding go_pg.Base.equal go_pg.Orm.Tags.parse_tag
name-Plain = record {
  not_embedded = refl;
  no_table_name = refl;
  exported = refl;
  not_left_out = refl;
  plain_kind = refl;
}

get_table-Plain_example :
    (names (((get_table add_s tags 3 0 new_tables).objects 0).built.fields)
      ≡ map column_of ((tags 0).struct_fields))
    × ((get_table add_s tags 3 0 new_tables).halted ≡ false)
unfolding go_pg.Orm.Columns.Build.is_key go_pg.Base.equal go_pg.Orm.Tags.parse_tag
    go_pg.Orm.Columns.Fields.sql_name_of
get_table-Plain_example =
    get_table-Plain add_s tags 0 0 new_tables (id-Plain, (name-Plain, tt)) ((refl, tt), (tt, tt))
      refl refl
