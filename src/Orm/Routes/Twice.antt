-- ===== src/Orm/Routes/Twice.antt =====
-- orm/model_table_struct.go: a relation that is named again is not joined again.
use go_pg.Base.{
  ℕ, suc, ◌+◌, ◌≡◌, refl, ap, sym, ◌∙◌, subst, Bool, true, false, ◌||◌, Option, none, some, List,
  [], ◌∷◌, Bytes, equal, equal_refl, arith, Option-cases, Bool-cases, inl, inr,
}
use go_pg.Orm.Table.{Table}
use go_pg.Orm.Joins.{Join, Joins, no_join}
use go_pg.Orm.Routes.{get_join, add_join, set_join, Deep, here, below, finish_join, join_path}

-- The number of joins in a tree.
abbrev pub size : Joins → ℕ
size no_join = 0
size (Joins.join j inner rest) = suc (size inner + size rest)

-- No join was made.
abbrev pub NotMade : Deep → Type 0
NotMade (here column) = Unit {0}
NotMade (below made) = made ≡ false

-- The join has that name.
abbrev Named : Bytes → Join → Type 0
Named name j = (equal (j.go_name) name || equal (j.field_name) name) ≡ true

get_join-skip :
    (name : Bytes) (x : Join) (y rest : Joins)
    → (equal (x.go_name) name || equal (x.field_name) name) ≡ false
    → get_join name (Joins.join x y rest) ≡ get_join name rest
unfolding get_join
get_join-skip name x y rest t = rw t refl

get_join-hit :
    (name : Bytes) (x : Join) (y rest : Joins)
    → (equal (x.go_name) name || equal (x.field_name) name) ≡ true
    → get_join name (Joins.join x y rest) ≡ some (x, y)
unfolding get_join
get_join-hit name x y rest t = rw t refl

get_join-Named :
    (name : Bytes) (js : Joins) (j : Join) (inner : Joins)
    → get_join name js ≡ some (j, inner)
    → Named name j
unfolding get_join
get_join-Named name no_join j inner e = absurd (cc)
get_join-Named name (Joins.join k deep rest) j inner e =
    elim (Bool-cases (equal (k.go_name) name || equal (k.field_name) name)) [
      | inl t ↦
          subst (Named name)
            (ap (λ o. elim o [ none ↦ k | some r ↦ r.0 ])
              (sym (get_join-hit name k deep rest t) ∙ e))
            t
      | inr t ↦ get_join-Named name rest j inner (sym (get_join-skip name k deep rest t) ∙ e)
    ]

get_join-set_join :
    (name : Bytes) (js : Joins) (j k : Join) (inner deep : Joins)
    → get_join name js ≡ some (j, inner)
    → Named name k
    → get_join name (set_join name js k deep) ≡ some (k, deep)
unfolding get_join set_join
get_join-set_join name no_join j k inner deep e h = absurd (cc)
get_join-set_join name (Joins.join x y rest) j k inner deep e h =
    elim (Bool-cases (equal (x.go_name) name || equal (x.field_name) name)) [
      | inl t ↦ rw (t, h) refl
      | inr t ↦
          rw (t, t)
            (get_join-set_join name rest j k inner deep (sym (get_join-skip name x y rest t) ∙ e) h)
    ]

get_join-add_join :
    (name : Bytes) (js : Joins) (k : Join) (deep : Joins)
    → get_join name js ≡ none
    → Named name k
    → get_join name (add_join js k deep) ≡ some (k, deep)
unfolding get_join add_join
get_join-add_join name no_join k deep e h = rw h refl
get_join-add_join name (Joins.join x y rest) k deep e h =
    elim (Bool-cases (equal (x.go_name) name || equal (x.field_name) name)) [
      | inl t ↦ absurd (cc (get_join-hit name x y rest t))
      | inr t ↦
          rw t (get_join-add_join name rest k deep (sym (get_join-skip name x y rest t) ∙ e) h)
    ]

size-set_join :
    (name : Bytes) (js : Joins) (j k : Join) (inner deep : Joins)
    → get_join name js ≡ some (j, inner)
    → size deep ≡ size inner
    → size (set_join name js k deep) ≡ size js
unfolding get_join set_join
size-set_join name no_join j k inner deep e h = absurd (cc)
size-set_join name (Joins.join x y rest) j k inner deep e h =
    elim (Bool-cases (equal (x.go_name) name || equal (x.field_name) name)) [
      | inl t ↦ rw t (
          omega (
            arith,
            h,
            ap {B = ℕ} (λ o. elim o [ none ↦ 0 | some r ↦ size (r.1) ])
                (sym (get_join-hit name x y rest t) ∙ e),
          ))
      | inr t ↦ rw t (
          omega (
            arith,
            size-set_join name rest j k inner deep (sym (get_join-skip name x y rest t) ∙ e) h,
          ))
    ]

finish-NotMade :
    (col : Bytes) (j : Join) (d : Deep) → NotMade d → NotMade ((finish_join col false j d).1)
finish-NotMade col j (below made) h = h
finish-NotMade col j (here true) h = refl
finish-NotMade col j (here false) h = refl

finish-Named :
    (name col : Bytes) (created : Bool) (j : Join) (d : Deep)
    → Named name j
    → Named name ((finish_join col created j d).0)
finish-Named name col created j (below made) h = h
finish-Named name col created j (here true) h = h
finish-Named name col created j (here false) h = h

module _ (relation : Table → Bytes → Option Join) (col : Bytes) where
  -- What a call did, seen from a second call with the same path.
  abbrev pub Again : Table → Joins → List Bytes → Type 0
  Again t js path =
      NotMade ((join_path relation col t js path).1)
      × (size ((join_path relation col t js path).0) ≡ size js)

  join_path-unknown :
      (t : Table) (js : Joins) (name : Bytes) (path : List Bytes)
      → relation t name ≡ none
      → join_path relation col t js (name ∷ path) ≡ (js, here true)
  unfolding join_path
  join_path-unknown t js name path r = rw (r, join_path) refl

  join_path-found :
      (t : Table) (js : Joins) (name : Bytes) (path : List Bytes) (rel j : Join) (inner : Joins)
      → relation t name ≡ some rel
      → get_join name js ≡ some (j, inner)
      → join_path relation col t js (name ∷ path) ≡ (
        set_join name js
            (finish_join col false j (join_path relation col (rel.join_table) inner path).1).0
            (join_path relation col (rel.join_table) inner path).0,
        (finish_join col false j (join_path relation col (rel.join_table) inner path).1).1,
      )
  unfolding join_path
  join_path-found t js name path rel j inner r g = rw (r, join_path) (rw (g, join_path) refl)

  join_path-missing :
      (t : Table) (js : Joins) (name : Bytes) (path : List Bytes) (rel : Join)
      → relation t name ≡ some rel
      → get_join name js ≡ none
      → join_path relation col t js (name ∷ path) ≡ (
        add_join js
            (finish_join col true rel (join_path relation col (rel.join_table) no_join path).1).0
            (join_path relation col (rel.join_table) no_join path).0,
        (finish_join col true rel (join_path relation col (rel.join_table) no_join path).1).1,
      )
  unfolding join_path
  join_path-missing t js name path rel r g = rw (r, join_path) (rw (g, join_path) refl)

  unknown-Again :
      (t : Table) (js : Joins) (name : Bytes) (path : List Bytes)
      → relation t name ≡ none
      → Again t js (name ∷ path)
  unknown-Again t js name path r =
      subst (λ x. NotMade (x.1) × (size (x.0) ≡ size js)) (sym (join_path-unknown t js name path r))
        (tt, refl)

  found-Again :
      (t : Table) (js : Joins) (name : Bytes) (path : List Bytes) (rel j : Join) (inner : Joins)
      → relation t name ≡ some rel
      → get_join name js ≡ some (j, inner)
      → Again (rel.join_table) inner path
      → Again t js (name ∷ path)
  found-Again t js name path rel j inner r g h =
      subst (λ x. NotMade (x.1) × (size (x.0) ≡ size js))
        (sym (join_path-found t js name path rel j inner r g))
        (finish-NotMade col j _ h.0, size-set_join name js j _ inner _ g h.1)

  -- The relations of a table are listed under their Go names.
  abbrev pub Keyed : Type 0
  Keyed = (t : Table) (name : Bytes) (rel : Join) → relation t name ≡ some rel → rel.go_name ≡ name

  rel-Named : (name : Bytes) (rel : Join) → rel.go_name ≡ name → Named name rel
  rel-Named name rel h = rw (h, equal_refl name) refl

  -- When the relations of every table are listed under their Go names, a path that has been joined is found
  -- by the next call with it: that call makes no join, and the tree keeps its number of joins.
  pub join_path-Again :
      (t : Table) (js : Joins) (path : List Bytes)
      → Keyed
      → Again t ((join_path relation col t js path).0) path
  join_path-Again t js [] keyed = unfold join_path in (tt, refl)
  join_path-Again t js (name ∷ path) keyed = elim (Option-cases (relation t name)) [
    | inl r ↦ unknown-Again t _ name path r
    | inr (rel, r) ↦ elim (Option-cases (get_join name js)) [
      | inl g ↦
          subst (λ x. Again t (x.0) (name ∷ path)) (sym (join_path-missing t js name path rel r g))
            (found-Again t _ name path rel _ _ r
              (get_join-add_join name js _ _ g
                (finish-Named name col true rel _ (rel-Named name rel (keyed t name rel r))))
              (join_path-Again (rel.join_table) no_join path keyed))
      | inr ((j, inner), g) ↦
          subst (λ x. Again t (x.0) (name ∷ path))
            (sym (join_path-found t js name path rel j inner r g))
            (found-Again t _ name path rel _ _ r
              (get_join-set_join name js j _ inner _ g
                (finish-Named name col false j _ (get_join-Named name js j inner g)))
              (join_path-Again (rel.join_table) inner path keyed))
    ]
  ]
