-- ===== src/Orm/Paging.antt =====
-- The bounds of `Pager`, and the page that it gives.
use go_pg.Base.{
  ℕ, zero, suc, ◌*◌, ◌%◌, ◌^◌, ◌<◌, ◌≤◌, ◌≡◌, refl, ap, subst, Bool, true, false, codes, arith,
  if◌then◌else◌,
}
use go_pg.Base.Int.{ℤ, pos, negsuc, ltb_ℤ}
use go_pg.Orm.Query.{Body, set_limit, set_offset}
use go_pg.Orm.Pager.{
  IntParam, value, bad_value, no_value, Paged, paged, limit_too_big, offset_too_big, UrlValues,
  int_param, signed64, offset_of, max_limit, max_offset, to_page, to_limit, limited, pager,
}

-- A number that is at most `n`.
abbrev pub AtMost : ℕ → ℤ → Type 0
AtMost n a = ltb_ℤ (pos n) a ≡ false

abbrev pub Bounded : Body → Type 0
Bounded d = AtMost max_limit (d.limit) × AtMost max_offset (d.offset)

abbrev paged_body : Paged → Body → Body
paged_body (paged d) d' = d
paged_body _ d' = d'

chosen_Bounded :
    (b : Bool) (d' : Body) (x : Paged) (y : Body)
    → (b ≡ false → Bounded y)
    → ((z : Body) → x ≡ paged z → Bounded z)
    → (if b then x else paged y) ≡ paged d'
    → Bounded d'
chosen_Bounded true d' x y h g e = g d' e
chosen_Bounded false d' x y h g e = subst Bounded (ap (λ w. paged_body w y) e) (h refl)

to_page-Bounded :
    (page : IntParam) (limit : ℤ) (d d' : Body)
    → Bounded d
    → to_page page limit d ≡ paged d'
    → Bounded d'
unfolding to_page set_offset
to_page-Bounded no_value limit d d' h e = absurd cc
to_page-Bounded (bad_value v) limit d d' h e = absurd cc
to_page-Bounded (value (pos (suc p))) limit d d' h e =
    chosen_Bounded (ltb_ℤ (pos max_offset) (offset_of p limit)) d'
      (offset_too_big (offset_of p limit)) (set_offset d (offset_of p limit)) (λ g. (h.0, g))
      (λ z g. absurd cc) e
to_page-Bounded (value (pos zero)) limit d d' h e = subst Bounded (ap (λ w. paged_body w d) e) h
to_page-Bounded (value (negsuc n)) limit d d' h e = subst Bounded (ap (λ w. paged_body w d) e) h

if-Bounded : (b : Bool) (x y : Body) → Bounded x → Bounded y → Bounded (if b then x else y)
if-Bounded true x y h g = h
if-Bounded false x y h g = g

limited-Bounded : (d : Body) (n : ℤ) → Bounded d → AtMost max_limit n → Bounded (limited d n)
unfolding set_limit
limited-Bounded d n h g = if-Bounded (ltb_ℤ (pos 0) n) (set_limit d n) d (g, h.1) h

to_limit-Bounded :
    (limit page : IntParam) (n : ℤ) (d d' : Body)
    → AtMost max_limit n
    → Bounded d
    → to_limit limit page n d ≡ paged d'
    → Bounded d'
unfolding to_limit
to_limit-Bounded no_value page n d d' g h e = absurd cc
to_limit-Bounded (bad_value v) page n d d' g h e = absurd cc
to_limit-Bounded (value m) page n d d' g h e =
    value_Bounded (ltb_ℤ m (pos 1)) (ltb_ℤ (pos max_limit) m) refl e
  where
    value_Bounded :
        (b c : Bool)
        → ltb_ℤ (pos max_limit) m ≡ c
        → (if b
            then to_page page n (limited d n)
            else if c
            then limit_too_big m
            else to_page page m (limited d m))
          ≡ paged d'
        → Bounded d'
    value_Bounded true c q e = to_page-Bounded page n (limited d n) d' (limited-Bounded d n h g) e
    value_Bounded false true q e = absurd cc
    value_Bounded false false q e =
        to_page-Bounded page m (limited d m) d' (limited-Bounded d m h q) e

-- With a default limit of at most 1000, a query whose limit is at most 1000 and whose offset is at most
-- 1000000 is still such a query when `Pager` accepts the URL, whatever the URL says.
pub pager-Bounded :
    (values : UrlValues) (n : ℤ) (d d' : Body)
    → AtMost max_limit n
    → Bounded d
    → pager values n d ≡ paged d'
    → Bounded d'
unfolding pager
pager-Bounded values n d d' g h e =
    to_limit-Bounded (int_param values (codes "limit")) (int_param values (codes "page")) n d d' g h
      e

signed64-small : (n : ℕ) → n < 2 ^ 63 → signed64 (n % 2 ^ 64) ≡ pos n
signed64-small n h = ground arith

-- A limit from 1 to 1000 and a page from 1 are taken when the rows in front of the page, counted without
-- overflow, are at most 1000000: the limit is set, and the offset to those rows.
pager-offset_of :
    (values : UrlValues) (n : ℤ) (d : Body) (l p : ℕ)
    → int_param values (codes "limit") ≡ value (pos (suc l))
    → int_param values (codes "page") ≡ value (pos (suc p))
    → suc l ≤ 1000
    → p * suc l ≤ 1000000
    → pager values n d ≡ paged (set_offset (set_limit d (pos (suc l))) (pos (p * suc l)))
unfolding pager to_limit to_page
pager-offset_of values n d l p hl hp b o =
    rw (hl, hp, signed64-small (p * suc l) (omega (arith, o))) (ground (arith, b, o))
