-- ===== src/Orm/Statements.antt =====
-- orm/delete.go, orm/update.go and orm/insert.go: the texts of the statements that change rows.
use go_pg.Base.{
  ℕ, Bool, true, false, not, ◌&&◌, Option, none, some, List, [], ◌∷◌, ◌++◌, Bytes, codes, equal,
  length, drop, leb, ◌-◌, if◌then◌else◌,
}
use go_pg.Types.Append.{strip_last}
use go_pg.Orm.Table.{
  Field, Table, Strct, get_field, omit_empty, append_value, value_onto, append_sep, comma,
}
use go_pg.Orm.Query.{no_model, no_column, Model, Body, parts, get_fields, Query}
use go_pg.Orm.Clauses.{
  append_part, append_first_table, append_other_tables, has_other_tables, must_append_where,
  append_where, append_set, append_returning, append_table_name, append_table_name_with_alias,
  format_query, is_empty, Built, built, refused, ◌and_then◌,
}
use go_pg.Orm.Select.{with_front}

abbrev pub maybe_returning : Body → Bytes → Bytes
maybe_returning d b = if is_empty (d.returning) then b else append_returning d b

abbrev pub others_after : Bytes → Body → Bytes → Bytes
others_after word d b = if has_other_tables d then append_other_tables d (b ++ word) else b

abbrev pub ending : Body → Bytes → Built
ending d b = must_append_where d b and_then λ b. built (maybe_returning d b)

-- The text of a DELETE behind its WITH.
unfoldable pub append_delete : Body → Bytes → Built
unfolding append_first_table has_other_tables append_other_tables must_append_where append_returning
append_delete d b =
    ending d (others_after (codes " USING ") d (append_first_table d (b ++ codes "DELETE FROM ")))

abbrev pub after_with : Option Bytes → (Bytes → Built) → Option Built
after_with none k = none
after_with (some b) k = some (k b)

-- `deleteQuery.AppendQuery`; `none` is a panic in a query of the WITH.
unfoldable pub delete_query : Query → Bytes → Option Built
unfolding with_front append_delete
delete_query q b = after_with (with_front [] b (q.withs)) (append_delete (q.body))

-- `<column> = <value>`.
abbrev pub assignment : Strct → Bytes → Field → Bytes
assignment s b f = value_onto f s ((b ++ f.col_name) ++ codes " = ")

-- The loop over the columns of the query: a name that the table does not have is an error.
unfoldable pub append_named : Bool → Table → Strct → Bytes → List Bytes → Built
unfolding get_field append_value
append_named first t s b [] = built b
append_named first t s b (name ∷ names) = elim (get_field t name) [
  | none ↦ refused (no_column name)
  | some f ↦ append_named false t s (assignment s (if first then b else b ++ comma) f) names
]

-- The loop over the table's fields that are no primary key, each with a comma behind it.
unfoldable pub append_all : Strct → Bytes → List Field → Bytes
unfolding append_value
append_all s b [] = b
append_all s b (f ∷ fs) =
    append_all s (if f.is_primary_key then b else assignment s b f ++ comma) fs

-- `b[:len(b)-2]` when something was written behind the first `n` bytes.
abbrev pub cut_comma : ℕ → Bytes → Bytes
cut_comma n b = if leb (length b) n then b else strip_last (strip_last b)

abbrev set_fields : Model → Bytes → List Bytes → Built
set_fields m b [] = built (cut_comma (length b) (append_all (m.strct) b (m.table.fields)))
set_fields m b (name ∷ names) = append_named true (m.table) (m.strct) b (name ∷ names)

unfoldable pub must_append_set : Body → Bytes → Built
unfolding append_set append_named append_all get_fields strip_last
must_append_set d b = elim (d.set) [
  | p ∷ ps ↦ built (append_set d b)
  | [] ↦ elim (d.model) [
    | none ↦ refused no_model
    | some m ↦ set_fields m (b ++ codes " SET ") (get_fields (parts (d.columns)))
  ]
]

-- The text of an UPDATE behind its WITH.
unfoldable pub append_update : Body → Bytes → Built
unfolding append_first_table must_append_set has_other_tables append_other_tables must_append_where
    append_returning
append_update d b = must_append_set d (append_first_table d (b ++ codes "UPDATE ")) and_then λ b.
    ending d (others_after (codes " FROM ") d b)

-- `updateQuery.AppendQuery`.
unfoldable pub update_query : Query → Bytes → Option Built
unfolding with_front append_update
update_query q b = after_with (with_front [] b (q.withs)) (append_update (q.body))

-- The columns of an INSERT, each with a comma behind it.
unfoldable pub append_names : Bytes → List Field → Bytes
append_names b [] = b
append_names b (f ∷ fs) = append_names ((b ++ f.col_name) ++ comma) fs

-- `addReturningField`: the field once. Fields of a table are told apart by their names.
unfoldable pub add_returning : List Field → Field → List Field
add_returning [] f = f ∷ []
add_returning (g ∷ gs) f =
    if equal (g.sql_name) (f.sql_name) then g ∷ gs else g ∷ add_returning gs f

-- `appendValues`: the text, and the fields that the server is to fill in and to return.
unfoldable pub append_values : Bool → Strct → Bytes × List Field → List Field → Bytes × List Field
unfolding omit_empty add_returning append_value
append_values first s r [] = r
append_values first s r (f ∷ fs) =
    let b = if first then r.0 else r.0 ++ comma in
    append_values false s
      (if omit_empty f s
        then (b ++ codes "DEFAULT", add_returning (r.1) f)
        else (value_onto f s b, r.1))
      fs

-- The rows of a slice.
unfoldable pub append_rows : List Field → Bytes × List Field → List Strct → Bytes × List Field
unfolding append_values
append_rows fs r [] = r
append_rows fs r (s ∷ []) = append_values true s r fs
append_rows fs r (s ∷ s' ∷ ss) =
    let one = append_values true s r fs in append_rows fs (one.0 ++ codes "), (", one.1) (s' ∷ ss)

abbrev pub rows : Model → Bytes × List Field → Bytes × List Field
rows m r = elim (m.slice_of) [
  | none ↦ append_values true (m.strct) r (m.table.fields)
  | some ss ↦ append_rows (m.table.fields) r ss
]

-- `onConflictDoUpdate`.
unfoldable pub ends_with : Bytes → Bytes → Bool
ends_with b s = leb (length s) (length b) && equal (drop (length b - length s) b) s

abbrev pub do_update : Body → Bytes → Bytes
do_update d b =
    let b' = if is_empty (d.set) then b else append_set d b in
    if is_empty (d.wheres) then b' else append_where d b'

unfoldable pub append_conflict : Body → Bytes → Bytes
unfolding append_part append_set append_where ends_with
append_conflict d b = elim (d.on_conflict) [
  | none ↦ b
  | some p ↦
      let b' = append_part d (b ++ codes " ON CONFLICT ") p in
      if ends_with b' (codes " DO UPDATE") then do_update d b' else b'
]

-- `appendReturningFields`.
unfoldable pub append_returning_fields : Bytes → List Field → Bytes
unfolding append_sep
append_returning_fields b fs =
    append_sep true comma (λ b f. b ++ f.col_name) (b ++ codes " RETURNING ") fs

abbrev returned : Body → Bytes × List Field → Bytes
returned d r =
    if not (is_empty (d.returning))
    then append_returning d (r.0)
    else if is_empty (r.1)
    then r.0
    else append_returning_fields (r.0) (r.1)

abbrev insert_head : Body → Model → Bytes → Bytes
insert_head d m b = elim (d.on_conflict) [
  | none ↦ append_table_name d (b ++ codes "INSERT INTO ") m
  | some p ↦ append_table_name_with_alias d (b ++ codes "INSERT INTO ") m
]

abbrev insert_columns : Model → Bytes → Bytes
insert_columns m b = cut_comma (length b) (append_names b (m.table.fields))

-- `insertQuery.AppendQuery`: the WITH of the query is not written.
unfoldable pub insert_query : Query → Bytes → Built
unfolding append_table_name_with_alias append_names strip_last append_values append_rows
    append_conflict append_returning append_returning_fields format_query
insert_query q b = elim (q.body.model) [
  | none ↦ refused no_model
  | some m ↦
      let head = insert_columns m (insert_head (q.body) m b ++ codes " (") in
      let r = rows m (head ++ codes ") VALUES (", []) in
      built (returned (q.body) (append_conflict (q.body) (r.0 ++ b')' ∷ []), r.1))
]
