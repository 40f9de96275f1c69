-- ===== src/Orm/Columns/Keyed.antt =====
-- orm/table.go: the fields of a table that has been built, by their names.
use go_pg.Base.{
  ℕ, ◌≡◌, refl, Bool, true, false, Option, none, some, List, [], ◌∷◌, ◌++◌, Bytes, equal, find,
  assign, if◌then◌else◌, ◌==◌, ◌≢◌, equal-eq, equal_refl, subst,
}
use go_pg.Orm.Table.{Field, add_field}
use go_pg.Orm.Columns.{Built}
use go_pg.Orm.Columns.Build.{Registry, update, register, inline, prefixed}
use go_pg.Orm.Columns.Fields.{with_pk, add_listed}

-- A map in which every field stands under its own SQL name.
abbrev pub OwnNames : List (Bytes × Field) → Type 0
OwnNames [] = Unit {0}
OwnNames ((k, f) ∷ m) = (f.sql_name ≡ k) × OwnNames m

-- The listed fields have their names in the map.
abbrev pub Listed : List (Bytes × Field) → List Field → Type 0
Listed m [] = Unit {0}
Listed m (f ∷ fs) = (find m (f.sql_name) ≢ none) × Listed m fs

abbrev pub Flagged : List Field → Type 0
Flagged [] = Unit {0}
Flagged (f ∷ fs) = (f.is_primary_key ≡ true) × Flagged fs

-- What a table keeps at all times.
pub record Keyed (b : Built) : Type 0 where
  pub own_names : OwnNames (b.built.fields_map)
  pub all_listed : Listed (b.built.fields_map) (b.built.fields)
  pub all_flagged : Flagged (b.built.pks)

abbrev pub AllKeyed : Registry → Type 0
AllKeyed r = (t : ℕ) → Keyed (r.objects t)

pub if_case :
    {A : Type 0} {x y : A} (P : A → Type 0) (c : Bool) → P x → P y → P (if c then x else y)
if_case P true p q = p
if_case P false p q = q

assign-OwnNames :
    (m : List (Bytes × Field)) (f : Field) → OwnNames m → OwnNames (assign m (f.sql_name) f)
unfolding assign
assign-OwnNames [] f h = (refl, tt)
assign-OwnNames ((k, g) ∷ m) f h =
    if_case OwnNames (equal k (f.sql_name)) (refl, h.1) (h.0, assign-OwnNames m f h.1)

-- A look-up that finds something still does when another branch is taken.
if_kept :
    (f g : Field) {x y : Option Field} (c : Bool)
    → (x ≢ none → y ≢ none)
    → (if c then some g else x) ≢ none
    → (if c then some f else y) ≢ none
if_kept f g true i h = λ e. absurd (cc)
if_kept f g false i h = i h

find-assign_case :
    (f g : Field) (m m' : List (Bytes × Field)) (k k' n : Bytes) (c : Bool)
    → (c ≡ true → k' ≡ k)
    → (find m n ≢ none → find m' n ≢ none)
    → find ((k', g) ∷ m) n ≢ none
    → find (if c then (k, f) ∷ m else (k', g) ∷ m') n ≢ none
unfolding find
find-assign_case f g m m' k k' n true e i h =
    subst (λ q. find ((q, f) ∷ m) n ≢ none) (e refl) (if_kept f g (equal k' n) (λ x. x) h)
find-assign_case f g m m' k k' n false e i h = if_kept g g (equal k' n) i h

find-assign-kept :
    (m : List (Bytes × Field)) (k n : Bytes) (f : Field)
    → find m n ≢ none
    → find (assign m k f) n ≢ none
unfolding assign
find-assign-kept [] k n f h = absurd (h (unfold find in refl))
find-assign-kept ((k', g) ∷ m) k n f h =
    find-assign_case f g m (assign m k f) k k' n (equal k' k) (equal-eq k' k)
      (find-assign-kept m k n f) h

find-assign-own_case :
    (f g : Field) (m m' : List (Bytes × Field)) (k k' : Bytes) (c : Bool)
    → equal k' k ≡ c
    → find m' k ≡ some f
    → find (if c then (k, f) ∷ m else (k', g) ∷ m') k ≡ some f
unfolding find
find-assign-own_case f g m m' k k' true e h = rw (equal_refl k) refl
find-assign-own_case f g m m' k k' false e h = rw e h

find-assign-own :
    (m : List (Bytes × Field)) (k : Bytes) (f : Field) → find (assign m k f) k ≡ some f
unfolding assign
find-assign-own [] k f = unfold find in rw (equal_refl k) refl
find-assign-own ((k', g) ∷ m) k f =
    find-assign-own_case f g m (assign m k f) k k' (equal k' k) refl (find-assign-own m k f)

assign-Listed :
    (m : List (Bytes × Field)) (k : Bytes) (f : Field) (fs : List Field)
    → Listed m fs
    → Listed (assign m k f) fs
assign-Listed m k f [] h = tt
assign-Listed m k f (g ∷ fs) h =
    (find-assign-kept m k (g.sql_name) f h.0, assign-Listed m k f fs h.1)

pub register-Keyed : (f : Field) (b : Built) → Keyed b → Keyed (register f b)
unfolding register
register-Keyed f b h = record {
  own_names = assign-OwnNames (b.built.fields_map) f (h.own_names);
  all_listed = assign-Listed (b.built.fields_map) (f.sql_name) f (b.built.fields) (h.all_listed);
  all_flagged = h.all_flagged;
}

pub inline-Keyed :
    (f : Field) (m : List (Bytes × Field)) (b : Built) → Keyed b → Keyed (inline f m b)
unfolding inline
inline-Keyed f [] b h = h
inline-Keyed f ((k, g) ∷ m) b h =
    inline-Keyed f m (register (prefixed f g) b) (register-Keyed (prefixed f g) b h)

pub update-AllKeyed :
    (t : ℕ) (g : Built → Built) (r : Registry)
    → ((b : Built) → Keyed b → Keyed (g b))
    → AllKeyed r
    → AllKeyed (update t g r)
unfolding update
update-AllKeyed t g r k h u = if_case Keyed (u == t) (k (r.objects t) (h t)) (h u)

Listed-append :
    (m : List (Bytes × Field)) (f : Field) (fs : List Field)
    → find m (f.sql_name) ≢ none
    → Listed m fs
    → Listed m (fs ++ f ∷ [])
Listed-append m f [] k h = (k, tt)
Listed-append m f (g ∷ fs) k h = (h.0, Listed-append m f fs k h.1)

Flagged-append :
    (f : Field) (fs : List Field) → f.is_primary_key ≡ true → Flagged fs → Flagged (fs ++ f ∷ [])
Flagged-append f [] k h = (k, tt)
Flagged-append f (g ∷ fs) k h = (h.0, Flagged-append f fs k h.1)

pub add_listed-Keyed : (f : Field) (b : Built) → Keyed b → Keyed (add_listed f b)
unfolding add_listed add_field
add_listed-Keyed f b h = record {
  own_names = assign-OwnNames (b.built.fields_map) f (h.own_names);
  all_listed =
      Listed-append (assign (b.built.fields_map) (f.sql_name) f) f (b.built.fields)
        (λ e. absurd (cc (e, find-assign-own (b.built.fields_map) (f.sql_name) f)))
        (assign-Listed (b.built.fields_map) (f.sql_name) f (b.built.fields) (h.all_listed));
  all_flagged = h.all_flagged;
}

with_pk_case :
    (f : Field) (b : Built) (c : Bool)
    → f.is_primary_key ≡ c
    → Keyed b
    → Keyed (if c then record b { built = record (b.built) { pks = b.built.pks ++ f ∷ [] } } else b)
with_pk_case f b true e h = record {
  own_names = h.own_names;
  all_listed = h.all_listed;
  all_flagged = Flagged-append f (b.built.pks) e (h.all_flagged);
}
with_pk_case f b false e h = h

pub with_pk-Keyed : (f : Field) (b : Built) → Keyed b → Keyed (with_pk f b)
unfolding with_pk
with_pk-Keyed f b h = with_pk_case f b (f.is_primary_key) refl h

-- A change of a table that leaves its fields alone.
pub kept :
    (b c : Built)
    → b.built.fields ≡ c.built.fields
    → b.built.fields_map ≡ c.built.fields_map
    → b.built.pks ≡ c.built.pks
    → Keyed b
    → Keyed c
kept b c e m p h = record {
  own_names = subst OwnNames m (h.own_names);
  all_listed =
      subst (λ q. Listed q (c.built.fields)) m
        (subst (Listed (b.built.fields_map)) e (h.all_listed));
  all_flagged = subst Flagged p (h.all_flagged);
}
