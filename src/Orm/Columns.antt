-- ===== src/Orm/Columns.antt =====
-- orm/table.go: the fields and tables that reflection describes, and the SQL type of a field.
pub mod Build
pub mod Create
pub mod Fields
pub mod Keeps
pub mod Keyed
pub mod Plain
pub mod Registry
mod Tests
use go_pg.Base.{
  ℕ, Bool, true, false, not, ◌&&◌, ◌||◌, Option, none, some, List, [], ◌∷◌, ◌++◌, Bytes, codes,
  equal, find, assign, if◌then◌else◌, ◌==◌, map,
}
use go_pg.Orm.Table.{Field, Method, Table, add_field}
use go_pg.Orm.Joins.{RelationType}
use go_pg.Orm.Tags.{get, has}

-- The types that sqlType names before it asks for their kind.
pub data Known : Type 0 where
  time_type : Known
  null_bool : Known
  null_float : Known
  null_int : Known
  null_string : Known

-- The kind of a field's type without its pointer. A slice has the struct type of its elements, if they
-- are structs or pointers to structs; struct types are numbers.
pub data Kind : Type 0 where
  int8 : Kind
  int16 : Kind
  int32 : Kind
  int64 : Kind
  int : Kind
  uint8 : Kind
  uint16 : Kind
  uint32 : Kind
  uint64 : Kind
  uint : Kind
  float32 : Kind
  float64 : Kind
  bool : Kind
  string : Kind
  of_map : Kind
  slice : Option ℕ → Kind
  struct : ℕ → Kind
  other : Bytes → Kind

pub record StructField : Type 0 where
  pub name : Bytes
  pub is_exported : Bool
  pub is_anonymous : Bool
  pub sql_tag : Bytes
  pub pg_tag : Bytes
  pub known : Option Known
  pub kind : Kind
  pub is_sql_scanner : Bool

pub record MethodInfo : Type 0 where
  pub method_name : Bytes
  pub is_exported_method : Bool
  pub has_arguments : Bool
  pub has_one_result : Bool
  pub method : Method

-- What reflection says of a struct type; `field_by_name` also finds the fields of embedded structs.
pub record StructType : Type 0 where
  pub struct_name : Bytes
  pub struct_fields : List StructField
  pub field_by_name : Bytes → Option StructField
  pub struct_methods : List MethodInfo

-- `Relation`, with the struct type of its `JoinTable`.
pub record Relation : Type 0 where
  pub relation_type : RelationType
  pub polymorphic : Bool
  pub relation_field : Field
  pub join_type : ℕ
  pub fks : List Field
  pub m2m_table_name : Bytes
  pub base_prefix : Bytes
  pub join_prefix : Bytes

-- A `Table` as it is built: what queries are written from, and what finds its relations.
pub record Built : Type 0 where
  pub built : Table
  pub type_name : Bytes
  pub relations : List (Bytes × Relation)

unfoldable pub add_relation : Relation → Built → Built
unfolding assign
add_relation r b = record b { relations = assign (b.relations) (r.relation_field.go_name) r }

abbrev serial : Bool → Bytes → Bytes → Bytes
serial is_pk s t = if is_pk then s else t

abbrev pub kind_type : Bool → Kind → Bytes
kind_type pk int8 = serial pk (codes "smallserial") (codes "smallint")
kind_type pk uint8 = serial pk (codes "smallserial") (codes "smallint")
kind_type pk int16 = serial pk (codes "smallserial") (codes "smallint")
kind_type pk uint16 = serial pk (codes "serial") (codes "integer")
kind_type pk int32 = serial pk (codes "serial") (codes "integer")
kind_type pk uint32 = serial pk (codes "bigserial") (codes "bigint")
kind_type pk int64 = serial pk (codes "bigserial") (codes "bigint")
kind_type pk int = serial pk (codes "bigserial") (codes "bigint")
kind_type pk uint = codes "decimal"
kind_type pk uint64 = codes "decimal"
kind_type pk float32 = codes "real"
kind_type pk float64 = codes "double precision"
kind_type pk bool = codes "boolean"
kind_type pk string = codes "text"
kind_type pk of_map = codes "jsonb"
kind_type pk (slice e) = codes "jsonb"
kind_type pk (struct t) = codes "jsonb"
kind_type pk (other k) = k

abbrev pub known_type : Known → Bytes
known_type time_type = codes "timestamptz"
known_type null_bool = codes "boolean"
known_type null_float = codes "double precision"
known_type null_int = codes "bigint"
known_type null_string = codes "text"

-- `sqlType`, from the options of the tag, the primary key flag and the type.
unfoldable pub sql_type_of : Bytes → Bool → StructField → Bytes
unfolding get
sql_type_of sql_opt pk f = elim (get sql_opt (codes "type:")) [
  | some v ↦ v
  | none ↦ elim (f.known) [ some k ↦ known_type k | none ↦ kind_type pk (f.kind) ]
]

-- `strings.HasSuffix(s, "_id")`.
unfoldable pub ends_in_id : Bytes → Bool
ends_in_id [] = false
ends_in_id (c ∷ s) = equal (c ∷ s) (codes "_id") || ends_in_id s
