-- ===== src/Orm/Routes/Tests.antt =====
-- orm/model_table_struct.go: books with an author, and their publishers.
use go_pg.Base.{
  ◌≡◌, refl, Option, none, some, [], ◌∷◌, ◌++◌, Bytes, codes, equal, find, true, false,
  if◌then◌else◌, Bool, sym, ap, ◌∙◌, equal-eq,
}
use go_pg.Orm.Table.{Field, Table}
use go_pg.Orm.Joins.{Join, Joins, no_join, belongs_to, append_alias_column}
use go_pg.Orm.Routes.{get_join, to, no_column, route_column, join_path, add_join, set_join, below}
use go_pg.Orm.Routes.Back.{Reached, root, joined, route_column-alias}
use go_pg.Orm.Routes.Twice.{Again, Keyed, join_path-Again}

abbrev name_field : Field
name_field = record {
  go_name = codes "Name";
  sql_name = codes "name";
  col_name = codes "\"name\"";
  sql_type = codes "text";
  is_primary_key = false;
  is_foreign_key = false;
  is_not_null = false;
  is_unique = false;
}

abbrev table : Bytes → Table
table n = record {
  name = n;
  alias = n;
  model_name = n;
  fields = name_field ∷ [];
  pks = [];
  fields_map = (codes "name", name_field) ∷ [];
  methods = [];
}

abbrev belongs : Bytes → Bytes → Table → Table → Join
belongs go sql from target = record {
  relation_type = belongs_to;
  go_name = go;
  field_name = sql;
  join_table = target;
  base_table = from;
  fks = [];
  many_table = [];
  columns = none;
}

abbrev books : Table
books = table (codes "book")

abbrev authors : Table
authors = table (codes "author")

abbrev publishers : Table
publishers = table (codes "publisher")

abbrev author : Join
author = belongs (codes "Author") (codes "author") books authors

abbrev publisher : Join
publisher = belongs (codes "Publisher") (codes "publisher") authors publishers

-- Books joined with their authors, and those with their publishers.
abbrev publisher_only : Joins
publisher_only = Joins.join publisher no_join no_join

abbrev tree : Joins
tree = Joins.join author publisher_only no_join

abbrev relation : Table → Bytes → Option Join
relation t name =
    if equal name (codes "Author")
    then some author
    else if equal name (codes "Publisher")
    then some publisher
    else none

nested_column :
    route_column books tree (codes "author__publisher__name")
    ≡ to (publisher ∷ author ∷ []) name_field
unfolding route_column equal
nested_column = refl

own_model_column : route_column books tree (codes "book__name") ≡ to [] name_field
unfolding route_column equal
own_model_column = refl

unknown_column : route_column books tree (codes "author__age") ≡ no_column
unfolding route_column equal
unknown_column = refl

-- The path to a column of the publisher makes both joins, and keeps the column on the second.
path_to_column :
    join_path relation
      (codes "name")
      books
      no_join
      (codes "Author" ∷ codes "Publisher" ∷ codes "name" ∷ [])
    ≡ (
      Joins.join author
          (Joins.join (record publisher { columns = some (codes "name" ∷ []) }) no_join no_join)
          no_join,
      below true,
    )
unfolding join_path equal get_join add_join set_join
path_to_column = refl

author-found : get_join (codes "author") tree ≡ some (author, publisher_only)
unfolding get_join equal
author-found = refl

publisher-found : get_join (codes "publisher") publisher_only ≡ some (publisher, no_join)
unfolding get_join equal
publisher-found = refl

name-found : find (publishers.fields_map) (codes "name") ≡ some name_field
unfolding find equal
name-found = refl

abbrev to_author : Reached books tree (author ∷ []) authors publisher_only
to_author =
    joined author publisher_only root author-found (refl, (refl, (refl, (refl, (refl, refl)))))

route_column-alias_example :
    (name : Bytes) × (append_alias_column [] publisher (author ∷ []) (codes "name")
      ≡ ([] ++ b'"' ∷ []) ++ (name ++ b'"' ∷ []))
    × (route_column books tree name ≡ to (publisher ∷ author ∷ []) name_field)
route_column-alias_example =
    route_column-alias [] publisher (author ∷ []) no_join (codes "name") name_field
      (joined publisher no_join to_author publisher-found
        (refl, (refl, (refl, (refl, (refl, (refl, (refl, (refl, refl)))))))))
      (refl, tt) (refl, (refl, (refl, refl)))
      (refl, refl, refl, (refl, refl, refl, (refl, refl, refl, (refl, refl, refl, tt)))) name-found

-- The relations of the tables are listed under their Go names.
abbrev go_name_of : Option Join → Bytes
go_name_of none = []
go_name_of (some r) = r.go_name

keyed_of :
    (b c : Bool) (name : Bytes) (rel : Join)
    → (b ≡ true → name ≡ codes "Author")
    → (c ≡ true → name ≡ codes "Publisher")
    → (if b then some author else if c then some publisher else none) ≡ some rel
    → rel.go_name ≡ name
keyed_of true c name rel f g h = sym (ap go_name_of h) ∙ sym (f refl)
keyed_of false true name rel f g h = sym (ap go_name_of h) ∙ sym (g refl)
keyed_of false false name rel f g h = absurd (cc)

relation-Keyed : Keyed relation (codes "name")
relation-Keyed t name rel h =
    keyed_of (equal name (codes "Author")) (equal name (codes "Publisher")) name rel
      (λ e. equal-eq name (codes "Author") e) (λ e. equal-eq name (codes "Publisher") e) h

join_path-Again_example :
    Again relation
      (codes "name")
      books
      ((join_path relation
        (codes "name")
        books
        no_join
        (codes "Author" ∷ codes "Publisher" ∷ codes "name" ∷ [])).0)
      (codes "Author" ∷ codes "Publisher" ∷ codes "name" ∷ [])
join_path-Again_example =
    join_path-Again relation (codes "name") books no_join
      (codes "Author" ∷ codes "Publisher" ∷ codes "name" ∷ []) relation-Keyed
