-- ===== src/Orm/Query.antt =====
-- orm/query.go: a query and the methods that put it together. A slice whose nil is told from an empty
-- one is an `Option`; two queries that share an array or a pointer are copies here.
use go_pg.Base.{
  Bool, true, false, ◌||◌, Option, none, some, List, [], ◌∷◌, ◌++◌, Bytes, codes, equal, ◌==◌,
  if◌then◌else◌,
}
use go_pg.Base.Int.{ℤ, pos}
use go_pg.Types.Field.{append_field}
use go_pg.Orm.Format.{Param, Formatter}
use go_pg.Orm.Table.{Table, Strct}
use go_pg.Orm.Joins.{Joins}
use go_pg.Orm.Names.{upper}

-- The errors that are made while a query is put together or written.
pub data QueryError : Type 0 where
  no_model : QueryError
  no_pks : QueryError
  no_column : Bytes → QueryError
  no_relation : Bytes → QueryError
  other_error : Bytes → QueryError

-- The model's table and struct, the structs of a slice, and the joins. `find_join` is what `Join` with a
-- name makes of the joins, `none` when the model has no such relation.
pub record Model : Type 0 where
  pub table : Table
  pub strct : Strct
  pub slice_of : Option (List Strct)
  pub joins : Joins
  pub find_join : Bytes → Joins → Option Joins

-- `queryParamsAppender` and `fieldAppender`.
pub data Part : Type 0 where
  expr : Bytes → Option (List Param) → Part
  field : Bytes → Part

-- `whereAppender`, and `wherePKQuery` with its own query's model.
pub data Cond : Type 0 where
  cond : Bytes → Bytes → Option (List Param) → Cond
  pk_cond : Table → Strct → Cond

-- All of a query but its `WITH` queries.
pub record Body : Type 0 where
  pub fmter : Option Formatter
  pub sticky_err : Option QueryError
  pub model : Option Model
  pub ignore_model : Bool
  pub tables : List Part
  pub columns : Option (List Part)
  pub set : List Part
  pub wheres : List Cond
  pub joins : List Part
  pub group : List Part
  pub having : List Part
  pub order : List Part
  pub on_conflict : Option Part
  pub returning : List Part
  pub limit : ℤ
  pub offset : ℤ

-- The queries of a `WITH`: a name, a query with those of its own, and the rest.
pub data Withs : Type 0 where
  no_with : Withs
  with_query : Bytes → Body → Withs → Withs → Withs

pub record Query : Type 0 where
  pub body : Body
  pub withs : Withs

-- `&Query{db, model}`.
abbrev pub empty_body : Option Formatter → Option Model → Body
empty_body f m = record {
  fmter = f;
  sticky_err = none;
  model = m;
  ignore_model = false;
  tables = [];
  columns = none;
  set = [];
  wheres = [];
  joins = [];
  group = [];
  having = [];
  order = [];
  on_conflict = none;
  returning = [];
  limit = pos 0;
  offset = pos 0;
}

abbrev pub on_body : Query → Body → Query
on_body q d = record q { body = d }

unfoldable pub new : Query → Query
new q = record {
  body = record (empty_body (q.body.fmter) (q.body.model)) { ignore_model = true };
  withs = no_with;
}

abbrev pub add_with : Withs → Bytes → Query → Withs
add_with no_with name sub = with_query name (sub.body) (sub.withs) no_with
add_with (with_query n d inner rest) name sub = with_query n d inner (add_with rest name sub)

unfoldable pub with : Query → Bytes → Query → Query
with q name sub = record q { withs = add_with (q.withs) name sub }

unfoldable pub wrap_with : Query → Bytes → Query
unfolding new with
wrap_with q name = with (record (new q) { withs = q.withs }) name (record q { withs = no_with })

-- `err` keeps the first error.
unfoldable pub add_err : Body → QueryError → Body
add_err d e = record d {
  sticky_err = elim (d.sticky_err) [ none ↦ some e | some first ↦ some first ];
}

-- `Model`: `newTableModel` of the arguments gives the model or an error; it is `none` for no argument.
unfoldable pub set_model : Body → Option Model → Option QueryError → Body
unfolding add_err
set_model d m none = record d { model = m; ignore_model = false }
set_model d m (some e) = record (add_err (record d { model = m }) e) { ignore_model = false }

abbrev pub map_fields : List Bytes → List Part
map_fields [] = []
map_fields (s ∷ ss) = field s ∷ map_fields ss

unfoldable pub table : Body → List Bytes → Body
table d names = record d { tables = d.tables ++ map_fields names }

unfoldable pub table_expr : Body → Bytes → Option (List Param) → Body
table_expr d e ps = record d { tables = d.tables ++ expr e ps ∷ [] }

abbrev pub parts : Option (List Part) → List Part
parts none = []
parts (some ps) = ps

unfoldable pub column_expr : Body → Bytes → Option (List Param) → Body
column_expr d e ps = record d { columns = some (parts (d.columns) ++ expr e ps ∷ []) }

abbrev joined_model : Option Model → Bytes → Option Model
joined_model none name = none
joined_model (some m) name = elim (m.find_join name (m.joins)) [
  | none ↦ none
  | some js ↦ some (record m { joins = js })
]

-- One round of the loop of `Column`.
unfoldable pub column_one : Body → Bytes → Body
column_one d name =
    if equal name (codes "_")
    then record d { columns = some (parts (d.columns)) }
    else elim (joined_model (d.model) name) [
      | some m ↦ record d { model = some m }
      | none ↦ record d { columns = some (parts (d.columns) ++ field name ∷ []) }
    ]

unfoldable pub column : Body → List Bytes → Body
unfolding column_one
column d [] = d
column d (name ∷ names) = column (column_one d name) names

-- `Relation` with a model.
unfoldable pub relation : Body → Bytes → Body
unfolding add_err
relation d name = elim (joined_model (d.model) name) [
  | some m ↦ record d { model = some m }
  | none ↦ add_err d (no_relation name)
]

-- `getFields`.
unfoldable pub get_fields : List Part → List Bytes
get_fields [] = []
get_fields (field s ∷ ps) = s ∷ get_fields ps
get_fields (expr e args ∷ ps) = get_fields ps

unfoldable pub set_expr : Body → Bytes → Option (List Param) → Body
set_expr d e ps = record d { set = d.set ++ expr e ps ∷ [] }

unfoldable pub where_and : Body → Bytes → Option (List Param) → Body
where_and d e ps = record d { wheres = d.wheres ++ cond (codes "AND") e ps ∷ [] }

unfoldable pub where_or : Body → Bytes → Option (List Param) → Body
where_or d e ps = record d { wheres = d.wheres ++ cond (codes "OR") e ps ∷ [] }

unfoldable pub join : Body → Bytes → Option (List Param) → Body
join d e ps = record d { joins = d.joins ++ expr e ps ∷ [] }

unfoldable pub group : Body → List Bytes → Body
group d names = record d { group = d.group ++ map_fields names }

unfoldable pub group_expr : Body → Bytes → Option (List Param) → Body
group_expr d e ps = record d { group = d.group ++ expr e ps ∷ [] }

unfoldable pub having : Body → Bytes → Option (List Param) → Body
having d e ps = record d { having = d.having ++ expr e ps ∷ [] }

-- The text before the last space and behind it.
unfoldable pub split_last_space : Bytes → Option (Bytes × Bytes)
split_last_space [] = none
split_last_space (c ∷ s) = elim (split_last_space s) [
  | some r ↦ some (c ∷ r.0, r.1)
  | none ↦ if c == b' ' then some ([], s) else none
]

abbrev is_direction : Bytes → Bool
is_direction s = equal (upper s) (codes "ASC") || equal (upper s) (codes "DESC")

-- `types.F` and `types.Q` as parameters of a query.
abbrev pub field_param : Bytes → Param
field_param s = record { append_to = λ b. append_field b s true; fields = none; model = none }

abbrev pub raw_param : Bytes → Param
raw_param s = record { append_to = λ b. b ++ s; fields = none; model = none }

-- What `Order` adds for one text.
unfoldable pub order_part : Bytes → Part
unfolding split_last_space upper append_field
order_part s = elim (split_last_space s) [
  | none ↦ field s
  | some r ↦
      if is_direction (r.1)
      then expr (codes "? ?") (some (field_param (r.0) ∷ raw_param (r.1) ∷ []))
      else field s
]

unfoldable pub order : Body → List Bytes → Body
unfolding order_part
order d [] = d
order d (s ∷ ss) = order (record d { order = d.order ++ order_part s ∷ [] }) ss

unfoldable pub order_expr : Body → Bytes → Option (List Param) → Body
order_expr d e ps = record d { order = d.order ++ expr e ps ∷ [] }

unfoldable pub set_limit : Body → ℤ → Body
set_limit d n = record d { limit = n }

unfoldable pub set_offset : Body → ℤ → Body
set_offset d n = record d { offset = n }

unfoldable pub on_conflict : Body → Bytes → Option (List Param) → Body
on_conflict d e ps = record d { on_conflict = some (expr e ps) }

unfoldable pub returning : Body → Bytes → Option (List Param) → Body
returning d e ps = record d { returning = d.returning ++ expr e ps ∷ [] }
