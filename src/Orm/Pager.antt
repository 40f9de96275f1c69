-- ===== src/Orm/Pager.antt =====
-- orm/url_values.go: the values of a URL as conditions, an order and a page of a query. A map of URL
-- values is an association list, in the order in which `range` happens to give it.
use go_pg.Base.{
  ℕ, zero, suc, ◌-◌, ◌*◌, ◌%◌, ◌^◌, Bool, ◌&&◌, ◌||◌, Option, none, some, List, [], ◌∷◌, ◌++◌,
  Bytes, codes, equal, find, ltb, ◌==◌, if◌then◌else◌,
}
use go_pg.Base.Int.{ℤ, pos, negsuc, ltb_ℤ}
use go_pg.Types.Append.{text, append, or_empty}
use go_pg.Types.Result.{atoi}
use go_pg.Orm.Format.{Param, of_value}
use go_pg.Orm.Table.{has_field}
use go_pg.Orm.Query.{Body, where_and, order, set_limit, set_offset, field_param}

abbrev pub UrlValues : Type 0
UrlValues = List (Bytes × List Bytes)

-- The name in front of the first `__` and the operation behind it.
unfoldable pub split_operation : Bytes → Bytes × Bytes
split_operation [] = ([], [])
split_operation (c ∷ []) = (c ∷ [], [])
split_operation (c ∷ d ∷ s) =
    let r = split_operation (d ∷ s) in if c == b'_' && d == b'_' then ([], s) else (c ∷ r.0, r.1)

-- `forEachValue`.
unfoldable pub for_each_value : Body → Bytes → List Bytes → Bytes → Body
unfolding where_and
for_each_value d name [] template = d
for_each_value d name (v ∷ vs) template =
    for_each_value (where_and d template (some (field_param name ∷ of_value (text v) ∷ []))) name vs
      template

-- `types.In` of texts in a query: the elements with commas.
unfoldable pub append_in : Bytes → List Bytes → Bytes
unfolding append
append_in b [] = b
append_in b (v ∷ []) = or_empty (append b (text v) 1)
append_in b (v ∷ w ∷ vs) = append_in (or_empty (append b (text v) 1) ++ b',' ∷ []) (w ∷ vs)

abbrev pub in_param : List Bytes → Param
in_param vs = record { append_to = λ b. append_in b vs; fields = none; model = none }

-- `forAllValues`; `none` is the panic on a name without values.
unfoldable pub for_all_values : Body → Bytes → List Bytes → Bytes → Bytes → Option Body
unfolding where_and append_in
for_all_values d name [] template template_of_many = none
for_all_values d name (v ∷ []) template template_of_many =
    some (where_and d template (some (field_param name ∷ of_value (text v) ∷ [])))
for_all_values d name (v ∷ w ∷ vs) template template_of_many =
    some (where_and d template_of_many (some (field_param name ∷ in_param (v ∷ w ∷ vs) ∷ [])))

-- The template of the operators that take their values one by one.
unfoldable pub template_of : Bytes → Option Bytes
template_of operator =
    if equal operator (codes "gt")
    then some (codes "? > ?")
    else if equal operator (codes "gte")
    then some (codes "? >= ?")
    else if equal operator (codes "lt")
    then some (codes "? < ?")
    else if equal operator (codes "lte")
    then some (codes "? <= ?")
    else if equal operator (codes "ieq")
    then some (codes "? ILIKE ?")
    else if equal operator (codes "match")
    then some (codes "? SIMILAR TO ?")
    else none

-- `addOperator`; an operator that it does not know adds nothing.
unfoldable pub add_operator : Body → Bytes → Bytes → List Bytes → Option Body
unfolding for_each_value for_all_values template_of
add_operator d name operator values = elim (template_of operator) [
  | some t ↦ some (for_each_value d name values t)
  | none ↦
      if equal operator (codes "exclude")
      then for_all_values d name values (codes "? != ?") (codes "? NOT IN (?)")
      else if equal operator [] || equal operator (codes "include")
      then for_all_values d name values (codes "? = ?") (codes "? IN (?)")
      else some d
]

-- One round over the values: the table of the model says which names are columns, and without a model the
-- source panics.
unfoldable pub add_value : Body → Bytes → List Bytes → Option Body
unfolding split_operation add_operator has_field
add_value d key values = elim (d.model) [
  | none ↦ none
  | some m ↦
      let r = split_operation key in
      if has_field (m.table) (r.0) then add_operator d (r.0) (r.1) values else some d
]

unfoldable pub add_values : Body → UrlValues → Option Body
unfolding add_value
add_values d [] = some d
add_values d ((key, values) ∷ rest) = elim (add_value d key values) [
  | none ↦ none
  | some d' ↦ add_values d' rest
]

abbrev key_values : Option (List Bytes) → List Bytes
key_values none = []
key_values (some vs) = vs

-- The loop of `setOrder`.
unfoldable pub order_all : Body → List Bytes → Body
unfolding order
order_all d [] = d
order_all d ([] ∷ ss) = order_all d ss
order_all d ((c ∷ s) ∷ ss) = order_all (order d ((c ∷ s) ∷ [])) ss

unfoldable pub set_order : Body → UrlValues → Body
unfolding order_all find
set_order d values = order_all d (key_values (find values (codes "order")))

unfoldable pub url_values : UrlValues → Body → Option Body
unfolding add_values set_order
url_values values d = elim (add_values d values) [
  | none ↦ none
  | some d' ↦ some (set_order d' values)
]

-- What `intParam` returns; `no_value` is the panic on a name without values.
pub data IntParam : Type 0 where
  value : ℤ → IntParam
  bad_value : Bytes → IntParam
  no_value : IntParam

abbrev first_value : Option (List Bytes) → Option (Option Bytes)
first_value none = none
first_value (some []) = some none
first_value (some (v ∷ vs)) = some (some v)

unfoldable pub int_param : UrlValues → Bytes → IntParam
unfolding find atoi
int_param values name = elim (first_value (find values name)) [
  | none ↦ value (pos 0)
  | some none ↦ no_value
  | some (some v) ↦ elim (atoi v) [ none ↦ bad_value v | some n ↦ value n ]
]

pub data Paged : Type 0 where
  paged : Body → Paged
  bad_param : Bytes → Paged
  limit_too_big : ℤ → Paged
  offset_too_big : ℤ → Paged
  panics : Paged

-- The number that a pattern of 64 bits stands for.
abbrev pub signed64 : ℕ → ℤ
signed64 x = if ltb x (2 ^ 63) then pos x else negsuc (2 ^ 64 - x - 1)

-- `(page - 1) * limit` in 64 bits, for `p` pages in front of the page.
unfoldable pub offset_of : ℕ → ℤ → ℤ
offset_of p (pos l) = signed64 ((p * l) % 2 ^ 64)
offset_of p (negsuc l) = signed64 ((2 ^ 64 - (p * suc l) % 2 ^ 64) % 2 ^ 64)

abbrev positive : ℤ → Bool
positive n = ltb_ℤ (pos 0) n

abbrev pub max_limit : ℕ
max_limit = 1000

abbrev pub max_offset : ℕ
max_offset = 1000000

-- The part of `Pager` behind the limit.
unfoldable pub to_page : IntParam → ℤ → Body → Paged
unfolding offset_of set_offset
to_page no_value limit d = panics
to_page (bad_value v) limit d = bad_param v
to_page (value (pos (suc p))) limit d =
    let offset = offset_of p limit in
    if ltb_ℤ (pos max_offset) offset then offset_too_big offset else paged (set_offset d offset)
to_page (value (pos zero)) limit d = paged d
to_page (value (negsuc n)) limit d = paged d

abbrev pub limited : Body → ℤ → Body
limited d limit = if positive limit then set_limit d limit else d

unfoldable pub to_limit : IntParam → IntParam → ℤ → Body → Paged
unfolding to_page set_limit
to_limit no_value page default_limit d = panics
to_limit (bad_value v) page default_limit d = bad_param v
to_limit (value n) page default_limit d =
    if ltb_ℤ n (pos 1)
    then to_page page default_limit (limited d default_limit)
    else if ltb_ℤ (pos max_limit) n
    then limit_too_big n
    else to_page page n (limited d n)

-- `Pager`.
unfoldable pub pager : UrlValues → ℤ → Body → Paged
unfolding to_limit int_param
pager values default_limit d =
    to_limit (int_param values (codes "limit")) (int_param values (codes "page")) default_limit d
