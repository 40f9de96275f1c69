-- ===== src/Orm/Tests.antt =====
-- Queries about a small table, put together and written.
pub mod Pages
pub mod Races
pub mod Tagged
use go_pg.Base.{
  ℕ, ◌≡◌, ◌≢◌, refl, true, false, Option, none, some, List, [], ◌∷◌, ◌++◌, Bytes, codes, arith,
  equal, find, ◌*◌,
}
use go_pg.Base.Int.{pos}
use go_pg.Types.Append.{int, text, append}
use go_pg.Types.Result.{is_digit}
use go_pg.Types.Field.{append_field}
use go_pg.Orm.Format.{
  Loop, Param, Formatter, of_value, format, format_loop, model_of, last_param, onto, start,
  without_model, ends_in,
}
use go_pg.Orm.Template.{Mark, at, escaped, render, Literal, Ready, format_loop-expand, expand}
use go_pg.Orm.Slots.{
  Slot, next, numbered, no_slot, marked, slotted, SlotsReady, format_loop-slotted,
}
use go_pg.Orm.Filled.{Appends, Literals, filled, bare, format-total, format-bare}
use go_pg.Orm.Scalars.{of_value-appends}
use go_pg.Orm.Grows.{Grows}
use go_pg.Orm.Table.{Field, Cell, Strct, Table}
use go_pg.Orm.Joins.{Joins, no_join}
use go_pg.Orm.Query.{
  Model, expr, field, cond, Body, Query, Withs, no_with, with, wrap_with, empty_body, where_and,
  where_or, column, order, table, set_limit, set_offset, set_expr, on_conflict, returning,
}
use go_pg.Orm.Clauses.{built, format_query}
use go_pg.Orm.Select.{select_query}
use go_pg.Orm.Statements.{update_query, insert_query}
use go_pg.Orm.Pager.{UrlValues, int_param, value, paged, pager, url_values}
use go_pg.Orm.Paging.{Bounded, pager-Bounded}
use go_pg.Orm.Names.{underscore, upper, is_upper_string}

abbrev no_params : Formatter
no_params = record { named_params = none }

abbrev seven : Param
seven = of_value (int (pos 7))

abbrev quoted_text : Param
quoted_text = of_value (text (codes "a?'b"))

test_format :
    format no_params [] (codes "a = ? AND b = ?0 OR c = '\\?' ?x") (some (seven ∷ quoted_text ∷ []))
    ≡ some (codes "a = 7 AND b = 7 OR c = '?' ?x")
unfolding format append
test_format = refl

test_positions :
    format no_params [] (codes "? ? ?") (some (seven ∷ quoted_text ∷ []))
    ≡ some (codes "7 'a?''b' ?")
unfolding format append
test_positions = refl

test_field : append_field [] (codes "a.b\"c.*") true ≡ codes "\"a\".\"b\"\"c\".*"
unfolding append_field
test_field = refl

format-total_example :
    (out : Bytes) × (format no_params [] (codes "? \\? ?x") (some (seven ∷ [])) ≡ some out)
format-total_example = format-total no_params [] (codes "? \\? ?x") (some (seven ∷ []))

seven-Appends : Appends (seven ∷ quoted_text ∷ [])
seven-Appends = (
  (λ b. of_value-appends (int (pos 7)) b tt),
  ((λ b. of_value-appends (text (codes "a?'b")) b tt), tt),
)

a_is-Literal : Literal (codes "a = ")
unfolding ends_in
a_is-Literal = ground arith

rest-Literals : Literals (codes " AND b = " ∷ codes ";" ∷ codes " " ∷ [])
unfolding ends_in is_digit
rest-Literals = ground arith

format-bare_example :
    format no_params
      (codes "q ")
      (codes "a = " ++ render (bare (codes " AND b = " ∷ codes ";" ∷ codes " " ∷ [])))
      (some (seven ∷ quoted_text ∷ []))
    ≡ some (
        codes "q "
        ++ (codes "a = "
            ++ filled (seven ∷ quoted_text ∷ []) (codes " AND b = " ∷ codes ";" ∷ codes " " ∷ [])))
unfolding last_param
format-bare_example =
    format-bare no_params (codes "q ") (codes "a = ") (codes " AND b = ")
      (codes ";" ∷ codes " " ∷ []) (seven ∷ quoted_text ∷ []) a_is-Literal rest-Literals
      seven-Appends refl

-- The second parameter by its number, an escaped mark, and the first parameter.
abbrev slots : List (Slot × Bytes)
slots = (numbered 1, codes " ") ∷ (no_slot, codes " ") ∷ (next, []) ∷ []

slots-Ready : SlotsReady slots
unfolding ends_in is_digit
slots-Ready = ground arith

format_loop-slotted_example :
    (l : Loop) × (format_loop no_params []
        (codes "a = " ++ render (marked slots))
        (seven ∷ quoted_text ∷ [])
      ≡ some l)
    × (l.dst ≡ [] ++ (codes "a = " ++ slotted (seven ∷ quoted_text ∷ []) 0 slots))
unfolding last_param
format_loop-slotted_example =
    format_loop-slotted no_params [] (codes "a = ") slots (seven ∷ quoted_text ∷ []) a_is-Literal
      slots-Ready seven-Appends refl

abbrev id_field : Field
id_field = record {
  go_name = codes "Id";
  sql_name = codes "id";
  col_name = codes "\"id\"";
  sql_type = codes "bigserial";
  is_primary_key = true;
  is_foreign_key = false;
  is_not_null = false;
  is_unique = false;
}

abbrev name_field : Field
name_field = record {
  go_name = codes "Name";
  sql_name = codes "name";
  col_name = codes "\"name\"";
  sql_type = codes "text";
  is_primary_key = false;
  is_foreign_key = false;
  is_not_null = false;
  is_unique = false;
}

abbrev users : Table
users = record {
  name = codes "\"users\"";
  alias = codes "\"user\"";
  fields = id_field ∷ name_field ∷ [];
  pks = id_field ∷ [];
  model_name = codes "user";
  fields_map = (codes "id", id_field) ∷ (codes "name", name_field) ∷ [];
  methods = [];
}

-- Every column holds the same text, and the id is set.
abbrev user : Strct
user name = record { is_empty = false; append_to = λ b quote. some (b ++ codes "'x'") }

abbrev user_model : Model
user_model = record {
  table = users;
  strct = user;
  slice_of = none;
  joins = no_join;
  find_join = λ name js. none;
}

abbrev pub of_users : Body
of_users = empty_body none (some user_model)

abbrev pub as_query : Body → Query
as_query d = record { body = d; withs = no_with }

test_select :
    select_query
      (as_query (
        set_limit
          (order
            (where_or (where_and of_users (codes "a = ?") (some (seven ∷ []))) (codes "b") none)
            (codes "name desc" ∷ []))
          (pos 3)))
      []
      []
    ≡ some (
        codes
          "SELECT \"user\".\"id\", \"user\".\"name\" FROM \"users\" AS \"user\" WHERE (a = 7) OR (b) ORDER BY \"name\" desc LIMIT 3")
unfolding select_query set_limit order where_and where_or equal append
test_select = refl

test_insert :
    insert_query (as_query of_users) []
    ≡ built (codes "INSERT INTO \"users\" (\"id\", \"name\") VALUES ('x', 'x')")
unfolding insert_query
test_insert = refl

test_update :
    update_query (as_query of_users) []
    ≡ some (
        built (codes "UPDATE \"users\" AS \"user\" SET \"name\" = 'x' WHERE \"user\".\"id\" = 'x'"))
unfolding update_query
test_update = refl

-- No model: `DELETE FROM "users" WHERE (id = 7)`.
abbrev seventh : Body
seventh = record (empty_body none none) {
  tables = field (codes "users") ∷ [];
  set = expr (codes "name = ?") (some (quoted_text ∷ [])) ∷ [];
  wheres = cond (codes "AND") (codes "id = ?") (some (seven ∷ [])) ∷ [];
}

abbrev deleted : Bytes
deleted = codes "DELETE FROM \"users\" WHERE (id = 7)"

abbrev updated : Bytes
updated = codes "UPDATE \"users\" SET name = 'a?''b' WHERE (id = 7)"

test_underscore : underscore (codes "HTTPServerName") ≡ codes "http_server_name"
unfolding underscore
test_underscore = refl
