-- ===== src/Orm/Safe.antt =====
-- The WHERE of the statements that change or remove rows.
use go_pg.Base.{Option, none, some, List, [], ◌∷◌, ◌++◌, Bytes, codes}
use go_pg.Orm.Table.{Field, Table}
use go_pg.Orm.Query.{Model, Cond, cond, pk_cond, Body, Query}
use go_pg.Orm.Clauses.{append_first_table}
use go_pg.Orm.Statements.{others_after}
use go_pg.Orm.Grows.{Extends}
use go_pg.Orm.Grows.Written.{StrctGrows}

abbrev pub ModelGrows : Option Model → Type 0
ModelGrows none = Unit
ModelGrows (some m) = StrctGrows (m.strct)

-- A comparison of the first of these columns of the table stands behind the front; there is one.
abbrev pub KeyStands : Table → List Field → Bytes → Bytes → Type 0
KeyStands t [] front out = ⊥
KeyStands t (f ∷ fs) front out =
    Extends (((front ++ t.alias) ++ b'.' ∷ []) ++ (f.col_name ++ codes " = ")) out

-- A condition of the query stands behind the front: its opening parenthesis, or what a select of
-- a model by its primary keys adds.
abbrev pub CondStands : Cond → Bytes → Bytes → Type 0
CondStands (cond c e ps) front out = Extends (front ++ b'(' ∷ []) out
CondStands (pk_cond t s) front out = Extends front out

-- Behind the front stands the first condition, or without conditions the first primary key of the model.
abbrev pub WhereStands : List Cond → Option Model → Bytes → Bytes → Type 0
WhereStands (c ∷ cs) o front out = CondStands c front out
WhereStands [] none front out = ⊥
WhereStands [] (some m) front out = KeyStands (m.table) (m.table.pks) front out

-- What a DELETE has written in front of its WHERE, behind the WITH `w`.
abbrev pub delete_front : Body → Bytes → Bytes
delete_front d w =
    others_after (codes " USING ") d (append_first_table d (w ++ codes "DELETE FROM "))
