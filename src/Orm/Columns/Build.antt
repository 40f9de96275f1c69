-- ===== src/Orm/Columns/Build.antt =====
-- orm/table.go: newTable with newField, on the tables built so far.
use go_pg.Base.{
  ℕ, Bool, true, false, ◌||◌, Option, none, some, List, [], ◌∷◌, ◌++◌, Bytes, codes, equal, assign,
  if◌then◌else◌, ◌==◌,
}
use go_pg.Types.Field.{append_field}
use go_pg.Orm.Names.{underscore}
use go_pg.Orm.Table.{Field}
use go_pg.Orm.Joins.{RelationType, has_one, belongs_to, has_many, many_to_many}
use go_pg.Orm.Tags.{get}
use go_pg.Orm.Columns.{Kind, StructField, StructType, Relation, Built, add_relation, slice, struct}

-- A type as a key of the maps of `tables`: a struct type, or the pointer to one.
pub data Key : Type 0 where
  value_type : ℕ → Key
  pointer_to : ℕ → Key

unfoldable pub same_key : Key → Key → Bool
same_key (value_type t) (value_type u) = t == u
same_key (value_type t) (pointer_to u) = false
same_key (pointer_to t) (value_type u) = false
same_key (pointer_to t) (pointer_to u) = t == u

unfoldable pub is_key : Key → List Key → Bool
is_key k [] = false
is_key k (k' ∷ ks) = let rest = is_key k ks in same_key k k' || rest

unfoldable pub delete : Key → List Key → List Key
delete k [] = []
delete k (k' ∷ ks) = let rest = delete k ks in if same_key k k' then rest else k' ∷ rest

-- `tables`: the keys of its two maps, and the `Table` of each struct type, which other tables point to.
-- It is halted when the rounds ran out, or newTable was called for a type that is no struct, which
-- panics; what it holds then is of no account.
pub record Registry : Type 0 where
  pub in_flight : List Key
  pub tables : List Key
  pub objects : ℕ → Built
  pub halted : Bool

-- `newTables`. A table that is not begun has nothing in it.
abbrev pub new_tables : Registry
new_tables = record {
  in_flight = [];
  tables = [];
  objects = λ t. record {
    built = record {
      name = [];
      alias = [];
      model_name = [];
      fields = [];
      pks = [];
      fields_map = [];
      methods = [];
    };
    type_name = [];
    relations = [];
  };
  halted = false;
}

abbrev pub halt : Registry → Registry
halt r = record r { halted = true }

-- A change of the table of a type.
unfoldable pub update : ℕ → (Built → Built) → Registry → Registry
update t g r = record r { objects = λ u. if u == t then g (r.objects t) else r.objects u }

-- The calls that newTable and newField make again, with what newField returns.
pub data Call : Type 0 where
  new_table : ℕ → Call
  add_fields : ℕ → ℕ → Bool → Call
  new_field : ℕ → StructField → Bool → Call

abbrev pub Answer : Type 0
Answer = Registry × Option Field

-- `getField`.
abbrev pub named : List Field → Bytes → Option Field
named [] n = none
named (f ∷ fs) n = let rest = named fs n in if equal (f.go_name) n then some f else rest

-- `foreignKeys`, over the primary keys of the base table.
abbrev pub found_by : Option Field → List Field → List Field
found_by none fks = fks
found_by (some f) fks = f ∷ fks

-- A relation with these keys, if there are any.
unfoldable pub related : ℕ → Relation → Registry × List Field → Registry × Bool
unfolding add_relation update
related t rel (r, []) = (r, false)
related t rel (r, k ∷ ks) = (update t (add_relation (record rel { fks = k ∷ ks })) r, true)

abbrev pub plain : RelationType → Field → ℕ → Relation
plain k f join = record {
  relation_type = k;
  polymorphic = false;
  relation_field = f;
  join_type = join;
  fks = [];
  m2m_table_name = [];
  base_prefix = [];
  join_prefix = [];
}

-- A field that is looked up and not listed.
unfoldable pub register : Field → Built → Built
unfolding assign
register f b = record b {
  built = record (b.built) { fields_map = assign (b.built.fields_map) (f.sql_name) f };
}

-- The end of `newField`.
unfoldable pub listed : ℕ → Bool → Field → Registry → Answer
unfolding register update
listed t skip f r = if skip then (update t (register f) r, none) else (r, some f)

-- A column of a joined struct under the name of its field. A struct with a field of its own type ranges
-- over the map that it writes to; here it takes the fields that were there before.
unfoldable pub prefixed : Field → Field → Field
unfolding append_field
prefixed f g = record g {
  sql_name = (f.sql_name ++ codes "__") ++ g.sql_name;
  col_name = append_field [] ((f.sql_name ++ codes "__") ++ g.sql_name) true;
}

unfoldable pub inline : Field → List (Bytes × Field) → Built → Built
unfolding register prefixed
inline f [] b = b
inline f ((k, g) ∷ gs) b = inline f gs (register (prefixed f g) b)

abbrev pub belongs_or : ℕ → Bool → Field → ℕ → Registry × Bool → Answer
belongs_or t skip f join (r, true) = (update t (register f) r, none)
belongs_or t skip f join (r, false) = listed t skip f r

abbrev or_name : Bytes → Option Bytes → Bytes
or_name n none = n
or_name n (some s) = s

abbrev is_given : Option Bytes → Bool
is_given none = false
is_given (some s) = true

-- `many2many:` with a name behind it.
abbrev pub given : Option Bytes → Option Bytes
given none = none
given (some []) = none
given (some (c ∷ s)) = some (c ∷ s)

abbrev with_separator : Bytes → Bytes
with_separator s = underscore (s ++ b'_' ∷ [])

unfoldable pub many_to_many_of : ℕ → Bytes → Field → ℕ → Bytes → Registry → Relation
unfolding get underscore
many_to_many_of t opt f join m2m r = record (plain many_to_many f join) {
  m2m_table_name = m2m;
  base_prefix = with_separator (or_name ((r.objects t).type_name) (get opt (codes "fk:")));
  join_prefix = with_separator (or_name ((r.objects join).type_name) (get opt (codes "joinFK:")));
}

-- The prefix of the keys of a has-many relation.
unfoldable pub many_prefix : ℕ → Bytes → Registry → Bytes
unfolding get
many_prefix t opt r =
    or_name (or_name ((r.objects t).type_name) (get opt (codes "fk:")))
      (get opt (codes "polymorphic:"))

unfoldable pub has_many_of : ℕ → Bytes → Field → ℕ → Registry → Relation
unfolding get underscore many_prefix
has_many_of t opt f join r = record (plain has_many f join) {
  polymorphic = is_given (get opt (codes "polymorphic:"));
  base_prefix = with_separator (many_prefix t opt r);
}

abbrev pub many_or : ℕ → Bool → Field → Registry × Bool → Answer
many_or t skip f (r, true) = (r, none)
many_or t skip f (r, false) = listed t skip f r

module _ (types : ℕ → StructType) (call : Call → Registry → Answer) where
  unfoldable pub get_field : ℕ → Bytes → Registry → Answer
  unfolding equal
  get_field t n r = elim (named ((r.objects t).built.fields) n) [
    | some f ↦ (r, some f)
    | none ↦ elim ((types t).field_by_name n) [
      | some f ↦ call (new_field t f false) r
      | none ↦ (r, none)
    ]
  ]

  unfoldable pub foreign_keys : List Field → ℕ → Bytes → Registry → Registry × List Field
  unfolding get_field
  foreign_keys [] join prefix r = (r, [])
  foreign_keys (pk ∷ pks) join prefix r =
      let found = get_field join (prefix ++ pk.go_name) r in
      let rest = foreign_keys pks join prefix (found.0) in (rest.0, found_by (found.1) (rest.1))

  unfoldable pub detect_has_one : ℕ → Field → ℕ → Registry → Registry × Bool
  unfolding related foreign_keys
  detect_has_one t f join r =
      related t (plain has_one f join) (foreign_keys ((r.objects join).built.pks) t (f.go_name) r)

  unfoldable pub detect_belongs_to_one : ℕ → Field → ℕ → Registry → Registry × Bool
  unfolding related foreign_keys
  detect_belongs_to_one t f join r =
      related t (plain belongs_to f join)
        (foreign_keys ((r.objects t).built.pks) join ((r.objects t).type_name) r)

  abbrev pub one_or : ℕ → Bool → Field → ℕ → Registry × Bool → Answer
  one_or t skip f join (r, true) = (update t (register f) r, none)
  one_or t skip f join (r, false) = belongs_or t skip f join (detect_belongs_to_one t f join r)

  -- A field of a struct type, behind the table of that type.
  unfoldable pub struct_field : ℕ → Bool → Field → ℕ → Registry → Answer
  unfolding listed inline detect_has_one
  struct_field t skip f join r = elim ((r.objects join).built.fields) [
    | [] ↦ listed t skip f r
    | g ∷ gs ↦
        (let r' = update t (inline f ((r.objects join).built.fields_map)) r in
          one_or t skip f join (detect_has_one t f join r'))
  ]

  -- A field of structs, behind the table of their type.
  unfoldable pub slice_field : ℕ → Bytes → Bool → Field → ℕ → Registry → Answer
  unfolding get listed many_to_many_of has_many_of many_prefix related foreign_keys
  slice_field t opt skip f join r = elim (given (get opt (codes "many2many:"))) [
    | some m ↦ (update t (add_relation (many_to_many_of t opt f join m r)) r, none)
    | none ↦ many_or t skip f (
        related t (has_many_of t opt f join r)
          (foreign_keys ((r.objects t).built.pks) join (many_prefix t opt r) r))
  ]

  unfoldable pub by_kind : ℕ → Bytes → Bool → Field → Kind → Registry → Answer
  unfolding struct_field slice_field listed
  by_kind t opt skip f (slice (some e)) r = slice_field t opt skip f e ((call (new_table e) r).0)
  by_kind t opt skip f (struct e) r = struct_field t skip f e ((call (new_table e) r).0)
  by_kind t opt skip f k r = listed t skip f r
