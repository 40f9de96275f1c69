-- ===== src/Orm/Select.antt =====
-- orm/select.go: the text of a SELECT, with the queries of its WITH.
use go_pg.Base.{
  ℕ, Bool, true, false, ◌||◌, Option, none, some, List, [], ◌∷◌, ◌++◌, Bytes, codes, equal, length,
  ◌==◌, if◌then◌else◌,
}
use go_pg.Base.Int.{ℤ, pos, negsuc}
use go_pg.Types.Append.{append_int, strip_last}
use go_pg.Types.Field.{append_field}
use go_pg.Orm.Table.{Table, append_sep, comma}
use go_pg.Orm.Joins.{Joins, no_join, Join, append_has_one_columns, append_has_one_join, is_single}
use go_pg.Orm.Query.{Model, Part, Body, Withs, no_with, with_query, Query}
use go_pg.Orm.Clauses.{
  append_part, append_parts, append_tables, append_where, has_tables, is_empty, used_model,
}

-- The joins that `forEachHasOneJoin` visits, each with its parents, the nearest first.
unfoldable pub single_joins : List Join → Joins → List (Join × List Join)
single_joins ps no_join = []
single_joins ps (Joins.join j inner rest) =
    let below = single_joins (j ∷ ps) inner in
    let beside = single_joins ps rest in
    if is_single (j.relation_type) then (j, ps) ∷ (below ++ beside) else beside

unfoldable pub visited : Option Model → List (Join × List Join)
unfolding single_joins
visited none = []
visited (some m) = single_joins [] (m.joins)

abbrev nothing_written : ℕ → Bytes → Bool
nothing_written start b = length b == start

-- The loop over the joins' columns: `start` is a length, after which nothing may have been written.
unfoldable pub append_join_columns : ℕ → Bytes → List (Join × List Join) → Bytes
unfolding append_has_one_columns strip_last
append_join_columns start b [] = b
append_join_columns start b ((j, ps) ∷ js) =
    let sep = if nothing_written start b then b else b ++ comma in
    let start' = if nothing_written start b then start else length sep in
    let next = append_has_one_columns sep j ps in
    append_join_columns start'
      (if nothing_written start' next then strip_last (strip_last next) else next) js

unfoldable pub append_model_columns : Bytes → Table → Bytes
unfolding append_sep
append_model_columns b t =
    append_sep true comma (λ b f. ((b ++ t.alias) ++ b'.' ∷ []) ++ f.col_name) b (t.fields)

abbrev own_columns : Body → Bytes → Bytes
own_columns d b = elim (d.columns) [
  | some ps ↦ append_parts d b ps
  | none ↦ elim (used_model d) [ some m ↦ append_model_columns b (m.table) | none ↦ b ++ b'*' ∷ [] ]
]

unfoldable pub append_columns : Body → Bytes → Bytes
unfolding append_sep append_part append_model_columns append_join_columns visited
append_columns d b = append_join_columns (length b) (own_columns d b) (visited (d.model))

-- The joins of the relations; `none` is a panic.
unfoldable pub append_joins : Bytes → List (Join × List Join) → Option Bytes
unfolding append_has_one_join
append_joins b [] = some b
append_joins b ((j, ps) ∷ js) = elim (append_has_one_join (b ++ b' ' ∷ []) j ps) [
  | none ↦ none
  | some b' ↦ append_joins b' js
]

-- The joins of the query, each behind a space.
unfoldable pub append_own_joins : Body → Bytes → List Part → Bytes
unfolding append_part
append_own_joins d b [] = b
append_own_joins d b (p ∷ ps) = append_own_joins d (append_part d (b ++ b' ' ∷ []) p) ps

abbrev clause : {A : Type 0} → List A → Bytes → Bytes → (Bytes → Bytes) → Bytes
clause [] b word put = b
clause (x ∷ xs) b word put = put (b ++ word)

abbrev pub is_zero_number : ℤ → Bool
is_zero_number (pos n) = n == 0
is_zero_number (negsuc n) = false

abbrev number_clause : ℤ → Bytes → Bytes → Bytes
number_clause n word b = if is_zero_number n then b else append_int (b ++ word) n

-- What stands behind the joins, but not in a count.
unfoldable pub append_order_limit : Body → Bytes → Bytes
unfolding append_sep append_part append_int
append_order_limit d b = number_clause (d.offset) (codes " OFFSET ") (
    number_clause (d.limit) (codes " LIMIT ")
      (clause (d.order) b (codes " ORDER BY ") (λ b. append_parts d b (d.order))))

unfoldable pub append_conditions : Body → Bytes → Bytes
unfolding append_sep append_part append_where
append_conditions d b =
    let b1 = if is_empty (d.wheres) then b else append_where d b in
    let b2 = clause (d.group) b1 (codes " GROUP BY ") (λ b. append_parts d b (d.group)) in
    clause (d.having) b2 (codes " HAVING ") (λ b.
      append_sep true (codes " AND ") (λ b p. append_part d (b ++ b'(' ∷ []) p ++ b')' ∷ []) b
        (d.having))

abbrev counted : Body → Bytes → Bytes → Bytes
counted d count b =
    if is_empty count || equal count (codes "*") then append_columns d b else b ++ count

abbrev from_tables : Body → Bytes → Bytes
from_tables d b = if has_tables d then append_tables d (b ++ codes " FROM ") else b

abbrev behind_joins : Body → Bytes → Bytes → Bytes
behind_joins d count b =
    let b' = append_conditions d (append_own_joins d b (d.joins)) in
    if is_empty count then append_order_limit d b' else b'

-- The text of the select behind its WITH; `count` is empty for a plain select.
unfoldable pub append_select : Body → Bytes → Bytes → Option Bytes
unfolding append_columns has_tables append_tables append_joins visited append_own_joins
    append_conditions append_order_limit
append_select d count b =
    elim (append_joins (from_tables d (counted d count (b ++ codes "SELECT ")))
      (visited (d.model))) [ none ↦ none | some b' ↦ some (behind_joins d count b') ]

-- The count of the queries of a WITH.
abbrev inner_count : Bytes → Bytes
inner_count [] = []
inner_count (c ∷ s) = codes "*"

abbrev close_with : Option Bytes → Bytes → Option Bytes
close_with none s = none
close_with (some b) s = some (b ++ s)

-- `appendWith` without its last space, over the queries that are left: the text of each query is written
-- behind its own WITH. The error of the source is always nil, since no other part of a select has one.
unfoldable pub append_with : Bytes → Bool → Bytes → Withs → Option Bytes
unfolding append_select append_field
append_with count first b no_with = some b
append_with count first b (with_query name d inner rest) =
    let head = append_field (if first then b else b ++ comma) name true ++ codes " AS (" in
    let own =
      close_with (append_with (inner_count count) true (head ++ codes "WITH ") inner) (codes " ") in
    elim (elim inner as (λ w. Option Bytes) [ no_with ↦ some head | with_query n d' i r ↦ own ]) [
      | none ↦ none
      | some b1 ↦ elim (append_select d (inner_count count) b1) [
        | none ↦ none
        | some b2 ↦ append_with count false (b2 ++ b')' ∷ []) rest
      ]
    ]

-- `WITH` and its queries in front of a statement that has any.
unfoldable pub with_front : Bytes → Bytes → Withs → Option Bytes
unfolding append_with
with_front count b no_with = some b
with_front count b (with_query n d inner rest) =
    close_with (append_with count true (b ++ codes "WITH ") (with_query n d inner rest)) (codes " ")

-- `selectQuery.AppendQuery`.
unfoldable pub select_query : Query → Bytes → Bytes → Option Bytes
unfolding with_front append_select
select_query q count b = elim (with_front count b (q.withs)) [
  | none ↦ none
  | some b' ↦ append_select (q.body) count b'
]
