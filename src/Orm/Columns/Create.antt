-- ===== src/Orm/Columns/Create.antt =====
-- orm/create_table.go: the text of CREATE TABLE.
use go_pg.Base.{Bool, true, Option, none, some, List, [], ◌∷◌, ◌++◌, Bytes, codes, if◌then◌else◌}
use go_pg.Orm.Table.{Field, append_sep, comma}
use go_pg.Orm.Columns.{Built}

-- A column of CREATE TABLE.
unfoldable pub append_column : Bytes → Field → Bytes
append_column b f =
    let b1 = ((b ++ f.sql_name) ++ codes " ") ++ f.sql_type in
    let b2 = if f.is_not_null then b1 ++ codes " NOT NULL" else b1 in
    if f.is_unique then b2 ++ codes " UNIQUE" else b2

unfoldable pub append_pk_constraint : Bytes → List Field → Bytes
unfolding append_sep
append_pk_constraint b [] = b
append_pk_constraint b (f ∷ fs) =
    append_sep true comma (λ b f. b ++ f.sql_name) (b ++ codes ", PRIMARY KEY (") (f ∷ fs)
    ++ codes ")"

-- `AppendQuery`, for a model whose type is a struct, with its table, or is none.
unfoldable pub append_query : Bool → Bytes → Option Built → Option Bytes
unfolding append_sep append_column append_pk_constraint
append_query temp b none = none
append_query temp b (some t) =
    let b1 = if temp then (b ++ codes "CREATE ") ++ codes "TEMP " else b ++ codes "CREATE " in
    let b2 = ((b1 ++ codes "TABLE ") ++ t.built.name) ++ codes " (" in
    let b3 = append_sep true comma append_column b2 (t.built.fields) in
    some (append_pk_constraint b3 (t.built.pks) ++ codes ")")
