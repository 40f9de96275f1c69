-- ===== src/Orm/Joins.antt =====
-- orm/join.go: the tables joined to the model's by has-one and belongs-to relations.
use go_pg.Base.{
  Bool, true, false, Option, none, some, List, [], ◌∷◌, ◌++◌, Bytes, codes, if◌then◌else◌,
}
use go_pg.Types.Field.{append_field}
use go_pg.Orm.Table.{Field, Table, append_sep, comma}

pub data RelationType : Type 0 where
  has_one : RelationType
  belongs_to : RelationType
  has_many : RelationType
  many_to_many : RelationType

-- A join without its parent: the table of the joined model, the base model's, and the relation's fields.
pub record Join : Type 0 where
  pub relation_type : RelationType
  pub go_name : Bytes
  pub field_name : Bytes
  pub join_table : Table
  pub base_table : Table
  pub fks : List Field
  pub many_table : Bytes
  pub columns : Option (List Bytes)

-- The joins of a model: each with the joins of the model it joins.
pub data Joins : Type 0 where
  no_join : Joins
  join : Join → Joins → Joins → Joins

abbrev pub is_single : RelationType → Bool
is_single has_one = true
is_single belongs_to = true
is_single has_many = false
is_single many_to_many = false

-- `appendAlias` of a join and of its parents, the nearest first. A parent that is no has-one and no
-- belongs-to relation counts as none.
unfoldable pub append_alias_parts : Bool → Bytes → Join → List Join → Bytes
append_alias_parts top b j [] = (if top then b else b ++ codes "__") ++ j.field_name
append_alias_parts top b j (p ∷ ps) =
    if is_single (p.relation_type)
    then (append_alias_parts top b p ps ++ codes "__") ++ j.field_name
    else (if top then b else b ++ codes "__") ++ j.field_name

unfoldable pub append_alias : Bytes → Join → List Join → Bytes
unfolding append_alias_parts
append_alias b j ps = append_alias_parts true (b ++ b'"' ∷ []) j ps ++ b'"' ∷ []

unfoldable pub append_alias_column : Bytes → Join → List Join → Bytes → Bytes
unfolding append_alias_parts append_field
append_alias_column b j ps column =
    append_field (append_alias_parts true (b ++ b'"' ∷ []) j ps ++ codes "__") column false
    ++ b'"' ∷ []

unfoldable pub append_base_alias : Bytes → Join → List Join → Bytes
unfolding append_alias
append_base_alias b j [] = b ++ j.base_table.alias
append_base_alias b j (p ∷ ps) =
    if is_single (p.relation_type) then append_alias b p ps else b ++ j.base_table.alias

unfoldable pub append_has_one_columns : Bytes → Join → List Join → Bytes
unfolding append_sep append_alias append_alias_column append_field
append_has_one_columns b j ps = elim (j.columns) [
  | none ↦
      append_sep true comma
        (λ b f.
          append_alias_column (((append_alias b j ps ++ b'.' ∷ []) ++ f.col_name) ++ codes " AS ") j
            ps (f.sql_name))
        b (j.join_table.fields)
  | some cs ↦
      append_sep true comma
        (λ b c.
          append_alias_column
            (append_field (append_alias b j ps ++ b'.' ∷ []) c true ++ codes " AS ") j ps c)
        b cs
]

-- The loop over the foreign keys, each with the key at the same place of the other table; `none` is the
-- panic when that table has fewer.
unfoldable pub append_on :
    Bool → (Bytes → Field → Field → Bytes) → Bytes → List Field → List Field → Option Bytes
append_on first put b [] pks = some b
append_on first put b (fk ∷ fks) [] = none
append_on first put b (fk ∷ fks) (pk ∷ pks) =
    append_on false put (put (if first then b else b ++ codes " AND ") fk pk) fks pks

-- `<alias>.<column> = <base alias>.<column>`.
abbrev condition : Join → List Join → Bytes → Bytes → Bytes → Bytes
condition j ps b joined base =
    (append_base_alias (((append_alias b j ps ++ b'.' ∷ []) ++ joined) ++ codes " = ") j ps
      ++ b'.' ∷ [])
    ++ base

abbrev join_head : Bytes → Join → List Join → Bytes
join_head b j ps =
    append_alias (((b ++ codes "LEFT JOIN ") ++ j.join_table.name) ++ codes " AS ") j ps
    ++ codes " ON "

unfoldable pub append_has_one_join : Bytes → Join → List Join → Option Bytes
unfolding append_on append_alias append_base_alias
append_has_one_join b j ps = elim (j.relation_type) [
  | has_one ↦
      append_on true (λ b fk pk. condition j ps b (pk.col_name) (fk.col_name)) (join_head b j ps)
        (j.fks) (j.join_table.pks)
  | _ ↦
      append_on true (λ b fk pk. condition j ps b (fk.col_name) (pk.col_name)) (join_head b j ps)
        (j.fks) (j.base_table.pks)
]

abbrev all_of_many : Bytes → Bytes → Bytes
all_of_many b [] = b
all_of_many b (c ∷ cs) = (b ++ c ∷ cs) ++ codes ".*, "

-- `hasManyColumnsAppender.AppendFormat`.
unfoldable pub append_many_columns : Bytes → Join → Bytes
unfolding append_sep append_field
append_many_columns b j = elim (j.columns) [
  | none ↦
      append_sep true comma (λ b f. ((b ++ j.join_table.alias) ++ b'.' ∷ []) ++ f.col_name)
        (all_of_many b (j.many_table)) (j.join_table.fields)
  | some cs ↦
      append_sep true comma (λ b c. append_field ((b ++ j.join_table.alias) ++ b'.' ∷ []) c true)
        (all_of_many b (j.many_table)) cs
]
