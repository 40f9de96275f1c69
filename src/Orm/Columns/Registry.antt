-- ===== src/Orm/Columns/Registry.antt =====
-- orm/table.go and orm/tables.go: the tables of all types, built by calls of newTable.
use go_pg.Base.{
  ℕ, zero, suc, ◌≡◌, refl, Bool, true, false, ◌||◌, List, [], ◌∷◌, Bytes, if◌then◌else◌, ◌==◌, ◌∙◌,
  arith, ap,
}
use go_pg.Orm.Columns.{StructType, add_relation}
use go_pg.Orm.Columns.Build.{
  Key, value_type, pointer_to, same_key, is_key, delete, Registry, update, Call, new_table,
  add_fields, new_field, Answer, register, inline,
}
use go_pg.Orm.Columns.Fields.{
  set_names, with_pk, override, add_listed, empty_table, set_methods, new_table_step, step, run,
  get_table,
}
use go_pg.Orm.Columns.Keyed.{
  AllKeyed, if_case, update-AllKeyed, register-Keyed, inline-Keyed, add_listed-Keyed, with_pk-Keyed,
  kept,
}
use go_pg.Orm.Columns.Keeps.{Closed, Keeps}
use go_pg.Orm.Columns.Keeps.Fields.{new_field_step-Kept, add_each-Kept}

AllKeyed-Closed : Closed AllKeyed
AllKeyed-Closed = record {
  on_register = λ t f r. update-AllKeyed t (register f) r (register-Keyed f);
  on_relation = λ t rel r. update-AllKeyed t (add_relation rel) r (λ b.
      kept b (add_relation rel b) (unfold add_relation in refl) (unfold add_relation in refl)
        (unfold add_relation in refl));
  on_inline = λ t f m r. update-AllKeyed t (inline f m) r (inline-Keyed f m);
  on_listed = λ t f r. update-AllKeyed t (add_listed f) r (add_listed-Keyed f);
  on_pk = λ t f r. update-AllKeyed t (with_pk f) r (with_pk-Keyed f);
  on_names = λ t n opt r. update-AllKeyed t (set_names n opt) r (λ b.
      kept b (set_names n opt b) (unfold set_names in refl) (unfold set_names in refl)
        (unfold set_names in refl));
  on_override = λ t e r. update-AllKeyed t (override e) r (λ b.
      kept b (override e b) (unfold override in refl) (unfold override in refl)
        (unfold override in refl));
  on_halt = λ r h. h;
}

-- No struct type is a key.
abbrev pub OnlyPointers : List Key → Type 0
OnlyPointers ks = (t : ℕ) → is_key (value_type t) ks ≡ false

-- A struct type whose table has been begun, while no struct type is a key of the map `tables`.
abbrev pub Begun : ℕ → Registry → Type 0
Begun t r = (is_key (value_type t) (r.in_flight) ≡ true) × OnlyPointers (r.tables)

Begun-Closed : (t : ℕ) → Closed (Begun t)
unfolding update
Begun-Closed t = record {
  on_register = λ u f r h. h;
  on_relation = λ u rel r h. h;
  on_inline = λ u f m r h. h;
  on_listed = λ u f r h. h;
  on_pk = λ u f r h. h;
  on_names = λ u n opt r h. h;
  on_override = λ u e r h. h;
  on_halt = λ r h. h;
}

or_true : {c : Bool} (b : Bool) → c ≡ true → (b || c) ≡ true
or_true true h = refl
or_true false h = h

is_key-more : (k k' : Key) (ks : List Key) → is_key k ks ≡ true → is_key k (k' ∷ ks) ≡ true
unfolding is_key
is_key-more k k' ks h = or_true (same_key k k') h

is_key-first : (t : ℕ) (ks : List Key) → is_key (value_type t) (value_type t ∷ ks) ≡ true
unfolding is_key same_key
is_key-first t ks = ground arith

-- Taking a pointer type off leaves the struct types.
is_key-delete :
    (t u : ℕ) (ks : List Key)
    → is_key (value_type t) (delete (pointer_to u) ks) ≡ is_key (value_type t) ks
unfolding is_key delete same_key
is_key-delete t u [] = refl
is_key-delete t u (value_type v ∷ ks) = ap (λ z. (t == v) || z) (is_key-delete t u ks)
is_key-delete t u (pointer_to v ∷ ks) =
    if_case (λ q. is_key (value_type t) q ≡ is_key (value_type t) ks) (u == v)
      (is_key-delete t u ks) (is_key-delete t u ks)

module _ (plural : Bytes → Bytes) (types : ℕ → StructType) where
  new_table_step-AllKeyed :
      (call : Call → Registry → Answer) (t : ℕ) (r : Registry)
      → Keeps AllKeyed call
      → AllKeyed r
      → AllKeyed (new_table_step plural types call t r)
  unfolding new_table_step
  new_table_step-AllKeyed call t r keeps h =
      let r1 = record (update t (λ b. empty_table plural types t) r) {
        in_flight = value_type t ∷ r.in_flight;
      } in
      let h1 =
        update-AllKeyed t (λ b. empty_table plural types t) r
          (λ b k.
            unfold empty_table in record { own_names = tt; all_listed = tt; all_flagged = tt })
          h in
      if_case AllKeyed (is_key (value_type t) (r.tables) || is_key (value_type t) (r.in_flight)) h (
        update-AllKeyed t (set_methods plural types t) ((call (add_fields t t false) r1).0)
          (λ b.
            kept b (set_methods plural types t b) (unfold set_methods in refl)
              (unfold set_methods in refl) (unfold set_methods in refl))
          (keeps (add_fields t t false) r1 h1))

  step-AllKeyed :
      (call : Call → Registry → Answer)
      → Keeps AllKeyed call
      → Keeps AllKeyed (step plural types call)
  unfolding step
  step-AllKeyed call keeps (new_table t) r h = new_table_step-AllKeyed call t r keeps h
  step-AllKeyed call keeps (add_fields t u nested) r h =
      add_each-Kept AllKeyed AllKeyed-Closed types call keeps t ((types u).struct_fields) nested r h
  step-AllKeyed call keeps (new_field t f nested) r h =
      new_field_step-Kept AllKeyed AllKeyed-Closed types call keeps t f nested r h

  -- Whatever the struct types are, and wherever the rounds end: a call of newTable, addFields or newField
  -- keeps of all tables that each has every field of its map under the field's own SQL name, finds the
  -- name of each field that it lists, and has the primary key flag on each of its primary keys.
  pub run-AllKeyed :
      (fuel : ℕ) (c : Call) (r : Registry) → AllKeyed r → AllKeyed ((run plural types fuel c r).0)
  unfolding run
  run-AllKeyed zero c r h = h
  run-AllKeyed (suc fuel) c r h = step-AllKeyed (run plural types fuel) (run-AllKeyed fuel) c r h

  -- A table that is new to the registry, built.
  abbrev new_one : (Call → Registry → Answer) → ℕ → Registry → Registry
  new_one call t r =
      let r1 = record (update t (λ b. empty_table plural types t) r) {
        in_flight = value_type t ∷ r.in_flight;
      } in
      let r2 = update t (set_methods plural types t) ((call (add_fields t t false) r1).0) in
      record r2 {
        tables = pointer_to t ∷ r2.tables;
        in_flight = delete (pointer_to t) (r2.in_flight);
      }

  new_one-Begun :
      (call : Call → Registry → Answer) (k t : ℕ) (r : Registry)
      → Keeps (Begun k) call
      → is_key (value_type k) (value_type t ∷ r.in_flight) ≡ true
      → OnlyPointers (r.tables)
      → Begun k (new_one call t r)
  unfolding update is_key same_key
  new_one-Begun call k t r keeps e h =
      let r1 = record (update t (λ b. empty_table plural types t) r) {
        in_flight = value_type t ∷ r.in_flight;
      } in
      let h2 = keeps (add_fields t t false) r1 (e, h) in
      (is_key-delete k t (((call (add_fields t t false) r1).0).in_flight) ∙ h2.0, h2.1)

  new_table_step-Begun :
      (call : Call → Registry → Answer) (k t : ℕ) (r : Registry)
      → Keeps (Begun k) call
      → Begun k r
      → Begun k (new_table_step plural types call t r)
  unfolding new_table_step
  new_table_step-Begun call k t r keeps h =
      if_case (Begun k) (is_key (value_type t) (r.tables) || is_key (value_type t) (r.in_flight)) h
        (new_one-Begun call k t r keeps
          (is_key-more (value_type k) (value_type t) (r.in_flight) h.0) h.1)

  run-Begun : (k fuel : ℕ) → Keeps (Begun k) (run plural types fuel)
  unfolding run step
  run-Begun k zero c r h = h
  run-Begun k (suc fuel) (new_table t) r h =
      new_table_step-Begun (run plural types fuel) k t r (run-Begun k fuel) h
  run-Begun k (suc fuel) (add_fields t u nested) r h =
      add_each-Kept (Begun k) (Begun-Closed k) types (run plural types fuel) (run-Begun k fuel) t
        ((types u).struct_fields) nested r h
  run-Begun k (suc fuel) (new_field t f nested) r h =
      new_field_step-Kept (Begun k) (Begun-Closed k) types (run plural types fuel)
        (run-Begun k fuel) t f nested r h

  own_case :
      (t : ℕ) (r x : Registry) (a b : Bool)
      → a ≡ false
      → is_key (value_type t) (r.in_flight) ≡ b
      → OnlyPointers (r.tables)
      → Begun t x
      → Begun t (if a || b then r else x)
  own_case t r x true b e i h k = absurd (cc)
  own_case t r x false true e i h k = (i, h)
  own_case t r x false false e i h k = k

  get_table-Begun :
      (n t : ℕ) (r : Registry)
      → OnlyPointers (r.tables)
      → Begun t (get_table plural types (suc n) t r)
  unfolding get_table run step new_table_step
  get_table-Begun n t r h = rw (h t) (
      own_case t r (new_one (run plural types n) t r) false (is_key (value_type t) (r.in_flight))
        refl refl h
        (new_one-Begun (run plural types n) t t r (run-Begun t n) (is_key-first t (r.in_flight)) h))

  get_table-known : (m t : ℕ) (r : Registry) → Begun t r → get_table plural types (suc m) t r ≡ r
  unfolding get_table run step new_table_step
  get_table-known m t r h = rw (h.1 t, h.0) refl

  -- As long as no struct type is a key of the map `tables`, as in the beginning, none is a key of it after
  -- Get either, so that Get finds no table there; and a second Get of the same type changes nothing,
  -- whatever the rounds of the two.
  pub get_table-Again :
      (m n t : ℕ) (r : Registry)
      → OnlyPointers (r.tables)
      → OnlyPointers ((get_table plural types (suc n) t r).tables)
        × (get_table plural types (suc m) t (get_table plural types (suc n) t r)
            ≡ get_table plural types (suc n) t r)
  get_table-Again m n t r h =
      let b = get_table-Begun n t r h in
      (b.1, get_table-known m t (get_table plural types (suc n) t r) b)
