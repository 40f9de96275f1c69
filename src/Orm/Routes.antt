-- ===== src/Orm/Routes.antt =====
-- orm/model_table_struct.go: the joins of a model, and which of them a column of a row belongs to.
-- What reflection does with the structs is left out: a column is routed to the joins that lead to its
-- struct, the nearest first, and to the field that scans it.
pub mod Back
pub mod Twice
pub mod Tests
use go_pg.Base.{
  ℕ, zero, suc, Bool, true, false, ◌&&◌, ◌||◌, Option, none, some, List, [], ◌∷◌, ◌++◌, Bytes,
  codes, equal, find, ◌==◌, length, if◌then◌else◌,
}
use go_pg.Orm.Table.{Field, Table}
use go_pg.Orm.Joins.{Join, Joins, no_join}

-- `GetJoin`: the first join of that name, with the joins of its model.
unfoldable pub get_join : Bytes → Joins → Option (Join × Joins)
get_join name no_join = none
get_join name (Joins.join j inner rest) =
    if equal (j.go_name) name || equal (j.field_name) name
    then some (j, inner)
    else get_join name rest

abbrev pub push_name : ℕ → Option (Bytes × Bytes) → Option (Bytes × Bytes)
push_name c none = none
push_name c (some (s, rest)) = some (c ∷ s, rest)

-- `strings.Index(s, "__")`: the bytes before the first `__` and those behind it.
unfoldable pub cut_column : Bytes → Option (Bytes × Bytes)
cut_column [] = none
cut_column (c ∷ []) = none
cut_column (c ∷ d ∷ s) =
    let next = push_name c (cut_column (d ∷ s)) in
    if c == b'_' && d == b'_' then some ([], s) else next

unfoldable pub split_column : Bytes → Bytes × Bytes
unfolding cut_column
split_column s = elim (cut_column s) [ none ↦ ([], s) | some r ↦ r ]

-- Where a column goes; `no_fuel` is only the model's.
pub data Routed : Type 0 where
  to : List Join → Field → Routed
  no_column : Routed
  no_fuel : Routed

-- `FieldsMap[colName]`.
abbrev pub own_column : List Join → Table → Bytes → Routed
own_column ps t name = elim (find (t.fields_map) name) [ some f ↦ to ps f | none ↦ no_column ]

-- `scanColumn` behind its `splitColumn` and `GetJoin`; `next` is its calls of itself.
abbrev pub by_join :
    (List Join → Table → Joins → Bytes → Routed)
    → List Join
    → Table
    → Joins
    → Bytes
    → Bytes
    → Bytes
    → Option (Join × Joins)
    → Routed
by_join next ps t js name front rest (some (j, inner)) = next (j ∷ ps) (j.join_table) inner rest
by_join next ps t js name front rest none =
    if equal (t.model_name) front then next ps t js rest else own_column ps t name

abbrev pub by_split :
    (List Join → Table → Joins → Bytes → Routed)
    → List Join
    → Table
    → Joins
    → Bytes
    → Bytes × Bytes
    → Routed
by_split next ps t js name ([], rest) = own_column ps t name
by_split next ps t js name (c ∷ s, rest) =
    by_join next ps t js name (c ∷ s) rest (get_join (c ∷ s) js)

-- `scanColumn` of a model that is reached over the joins `ps`. Each round has a shorter name.
unfoldable pub scan_column : ℕ → List Join → Table → Joins → Bytes → Routed
scan_column zero ps t js name = no_fuel
scan_column (suc fuel) ps t js name = by_split (scan_column fuel) ps t js name (split_column name)

-- How deep a call of `join` has come below a model: no join, with or without a name left that is no
-- relation; or a join, and whether it was made by this call.
pub data Deep : Type 0 where
  here : Bool → Deep
  below : Bool → Deep

-- `lastJoin.Columns`, for the last name of the path.
abbrev pub add_column : Bytes → Option (List Bytes) → Option (List Bytes)
add_column col none = if equal col (codes "_") then some [] else some (col ∷ [])
add_column col (some cs) = if equal col (codes "_") then some cs else some (cs ++ col ∷ [])

abbrev pub finish_join : Bytes → Bool → Join → Deep → Join × Deep
finish_join col created j (below made) = (j, below made)
finish_join col created j (here false) = (j, below created)
finish_join col created j (here true) =
    (record j { columns = add_column col (j.columns) }, below created)

unfoldable pub add_join : Joins → Join → Joins → Joins
add_join no_join j inner = Joins.join j inner no_join
add_join (Joins.join k deep rest) j inner = Joins.join k deep (add_join rest j inner)

-- The first join of that name, replaced.
unfoldable pub set_join : Bytes → Joins → Join → Joins → Joins
set_join name no_join j inner = no_join
set_join name (Joins.join k deep rest) j inner =
    if equal (k.go_name) name || equal (k.field_name) name
    then Joins.join j inner rest
    else Joins.join k deep (set_join name rest j inner)

-- `relation` gives the relations of a table, as joins without columns; `col` is the last name of the path.
module _ (relation : Table → Bytes → Option Join) (col : Bytes) where
  -- The loop of `join` over the rest of a path, below a model.
  unfoldable pub join_path : Table → Joins → List Bytes → Joins × Deep
  join_path t js [] = (js, here false)
  join_path t js (name ∷ path) = elim (relation t name) [
    | none ↦ (js, here true)
    | some rel ↦ elim (get_join name js) [
      | some (j, inner) ↦
          let r = join_path (rel.join_table) inner path in
          let k = finish_join col false j (r.1) in (set_join name js (k.0) (r.0), k.1)
      | none ↦
          let r = join_path (rel.join_table) no_join path in
          let k = finish_join col true rel (r.1) in (add_join js (k.0) (r.0), k.1)
    ]
  ]

-- `ScanColumn` of the model of a query; its error for an unknown column is `no_column`.
unfoldable pub route_column : Table → Joins → Bytes → Routed
unfolding scan_column split_column get_join find
route_column t js name = scan_column (suc (length name)) [] t js name
