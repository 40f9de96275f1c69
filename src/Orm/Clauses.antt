-- ===== src/Orm/Clauses.antt =====
-- orm/query.go: the clauses that the statements are written from.
use go_pg.Base.{
  Bool, true, false, not, Option, none, some, List, [], ◌∷◌, ◌++◌, Bytes, codes, equal,
  if◌then◌else◌,
}
use go_pg.Types.Append.{null}
use go_pg.Types.Field.{append_field}
use go_pg.Orm.Format.{Param, Formatter, Fields, format, of_value, slice}
use go_pg.Orm.Table.{append_param, append_sep, comma, append_column_and_value, check_pks}
use go_pg.Orm.Query.{
  QueryError, no_model, no_pks, Model, Part, expr, field, Cond, cond, pk_cond, Body,
}

-- `AppendParam` of a model: the columns and methods of its table, and the table's alias.
unfoldable pub model_param : Model → Fields
unfolding append_param
model_param m dst name = elim (append_param (m.table) dst (m.strct) name) [
  | some b ↦ some b
  | none ↦ if equal name (codes "TableAlias") then some (dst ++ m.table.alias) else none
]

-- The model as the parameter that `FormatQuery` adds: a model is always taken off again, and no model
-- is a nil interface, which is a value like any other.
abbrev pub as_param : Option Model → Param
as_param none = of_value null
as_param (some m) = record { append_to = λ b. b; fields = none; model = some (model_param m) }

abbrev pub formatter_of : Option Formatter → Formatter
formatter_of none = record { named_params = none }
formatter_of (some f) = f

-- The formatter always returns.
abbrev pub text_or_empty : Option Bytes → Bytes
text_or_empty none = []
text_or_empty (some b) = b

-- `Query.FormatQuery`.
unfoldable pub format_query : Body → Bytes → Bytes → Option (List Param) → Bytes
unfolding format model_param
format_query d dst query params =
    text_or_empty
      (format (formatter_of (d.fmter)) dst query (some (slice params ++ as_param (d.model) ∷ [])))

unfoldable pub append_part : Body → Bytes → Part → Bytes
unfolding format_query append_field
append_part d b (expr e ps) = format_query d b e ps
append_part d b (field s) = append_field b s true

unfoldable pub append_cond : Body → Bytes → Cond → Bytes
unfolding format_query append_column_and_value
append_cond d b (cond conj e ps) = format_query d (b ++ b'(' ∷ []) e ps ++ b')' ∷ []
append_cond d b (pk_cond t s) = append_column_and_value b s t (t.pks)

-- `AppendSep`.
abbrev pub conj_of : Cond → Bytes
conj_of (cond conj e ps) = conj
conj_of (pk_cond t s) = codes "AND"

unfoldable pub has_model : Body → Bool
has_model d = elim (d.model) [ none ↦ false | some m ↦ not (d.ignore_model) ]

abbrev pub is_empty {ℓ} : {A : Type ℓ} → List A → Bool
is_empty [] = true
is_empty (x ∷ xs) = false

unfoldable pub has_tables : Body → Bool
unfolding has_model
has_tables d = if has_model d then true else not (is_empty (d.tables))

abbrev pub append_table_name : Body → Bytes → Model → Bytes
append_table_name d b m = format_query d b (m.table.name) none

unfoldable pub append_table_name_with_alias : Body → Bytes → Model → Bytes
unfolding format_query
append_table_name_with_alias d b m = (append_table_name d b m ++ codes " AS ") ++ m.table.alias

abbrev pub append_parts : Body → Bytes → List Part → Bytes
append_parts d b ps = append_sep true comma (append_part d) b ps

-- The model that `hasModel` has seen.
abbrev pub used_model : Body → Option Model
used_model d = if d.ignore_model then none else d.model

unfoldable pub append_tables : Body → Bytes → Bytes
unfolding append_sep append_part append_table_name_with_alias
append_tables d b = elim (used_model d) [
  | some m ↦
      let b' = append_table_name_with_alias d b m in
      append_parts d (if is_empty (d.tables) then b' else b' ++ comma) (d.tables)
  | none ↦ append_parts d b (d.tables)
]

unfoldable pub append_first_table : Body → Bytes → Bytes
unfolding append_part append_table_name_with_alias
append_first_table d b = elim (used_model d) [
  | some m ↦ append_table_name_with_alias d b m
  | none ↦ elim (d.tables) [ [] ↦ b | p ∷ ps ↦ append_part d b p ]
]

-- The tables behind the first.
abbrev pub other_tables : Body → List Part
other_tables d = elim (used_model d) [
  | some m ↦ d.tables
  | none ↦ elim (d.tables) [ [] ↦ [] | p ∷ ps ↦ ps ]
]

unfoldable pub has_other_tables : Body → Bool
has_other_tables d = not (is_empty (other_tables d))

-- Called when there are other tables.
unfoldable pub append_other_tables : Body → Bytes → Bytes
unfolding append_sep append_part
append_other_tables d b = append_parts d b (other_tables d)

-- The conditions, each behind the first after its own conjunction.
unfoldable pub append_conds : Body → Bool → Bytes → List Cond → Bytes
unfolding append_cond
append_conds d first b [] = b
append_conds d first b (c ∷ cs) =
    append_conds d false
      (append_cond d (if first then b else ((b ++ b' ' ∷ []) ++ conj_of c) ++ b' ' ∷ []) c) cs

unfoldable pub append_where : Body → Bytes → Bytes
unfolding append_conds
append_where d b = append_conds d true (b ++ codes " WHERE ") (d.wheres)

unfoldable pub append_set : Body → Bytes → Bytes
unfolding append_sep append_part
append_set d b = append_parts d (b ++ codes " SET ") (d.set)

unfoldable pub append_returning : Body → Bytes → Bytes
unfolding append_sep append_part
append_returning d b = append_parts d (b ++ codes " RETURNING ") (d.returning)

-- What writing a statement comes to: its text, or an error.
pub data Built : Type 0 where
  built : Bytes → Built
  refused : QueryError → Built

infixl 20 ◌and_then◌
abbrev pub ◌and_then◌ : Built → (Bytes → Built) → Built
(built b) and_then k = k b
(refused e) and_then k = refused e

unfoldable pub must_append_where : Body → Bytes → Built
unfolding append_where append_column_and_value check_pks
must_append_where d b = elim (d.wheres) [
  | c ∷ cs ↦ built (append_where d b)
  | [] ↦ elim (d.model) [
    | none ↦ refused no_model
    | some m ↦
        if check_pks (m.table)
        then built
            (append_column_and_value (b ++ codes " WHERE ") (m.strct) (m.table) (m.table.pks))
        else refused no_pks
  ]
]
