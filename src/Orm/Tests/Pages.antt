-- ===== src/Orm/Tests/Pages.antt =====
-- Pages and conditions of a URL.
use go_pg.Base.{◌≡◌, refl, none, some, [], ◌∷◌, codes, equal, find}
use go_pg.Base.Int.{pos}
use go_pg.Types.Append.{append}
use go_pg.Types.Field.{append_field}
use go_pg.Orm.Query.{where_and, order, set_limit, set_offset}
use go_pg.Orm.Select.{select_query}
use go_pg.Orm.Pager.{UrlValues, paged, pager, url_values}
use go_pg.Orm.Paging.{Bounded, pager-Bounded}
use go_pg.Orm.Tests.{of_users, as_query}

abbrev third_page : UrlValues
third_page = (codes "limit", codes "10" ∷ []) ∷ (codes "page", codes "3" ∷ []) ∷ []

-- Of the rows in front of this page, as many as the modulus fall away.
abbrev huge_page : UrlValues
huge_page = (codes "limit", codes "8" ∷ []) ∷ (codes "page", codes "2305843009213693953" ∷ []) ∷ []

test_huge_page :
    pager huge_page (pos 10) of_users ≡ paged (set_offset (set_limit of_users (pos 8)) (pos 0))
unfolding pager equal
test_huge_page = refl

third_page-paged :
    pager third_page (pos 50) of_users ≡ paged (set_offset (set_limit of_users (pos 10)) (pos 20))
unfolding pager equal
third_page-paged = refl

pager-Bounded_example : Bounded (set_offset (set_limit of_users (pos 10)) (pos 20))
pager-Bounded_example =
    pager-Bounded third_page (pos 50) of_users (set_offset (set_limit of_users (pos 10)) (pos 20))
      refl (refl, refl) third_page-paged

-- The conditions and the order of a URL.
test_url_values :
    (elim (url_values
      ((codes "id__gt", codes "5" ∷ [])
        ∷ (codes "name", codes "a" ∷ codes "b" ∷ [])
        ∷ (codes "other", codes "1" ∷ [])
        ∷ (codes "order", codes "name ASC" ∷ [])
        ∷ [])
      of_users) [ none ↦ none | some d ↦ select_query (as_query d) [] [] ])
    ≡ some (
        codes
          "SELECT \"user\".\"id\", \"user\".\"name\" FROM \"users\" AS \"user\" WHERE (\"id\" > '5') AND (\"name\" IN ('a','b')) ORDER BY \"name\" ASC")
unfolding select_query url_values append append_field where_and order equal find
test_url_values = refl
