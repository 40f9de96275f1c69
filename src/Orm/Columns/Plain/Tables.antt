-- ===== src/Orm/Columns/Plain/Tables.antt =====
-- orm/table.go and orm/tables.go: Get of a struct type whose fields are columns and nothing else.
use go_pg.Base.{
  ℕ, suc, ◌≡◌, refl, sym, Bool, false, ◌||◌, [], ◌∷◌, ◌++◌, Bytes, map, ◌∙◌, ap, subst,
}
use go_pg.Orm.Columns.{StructType, Built}
use go_pg.Orm.Columns.Build.{Registry, update, add_fields, is_key, value_type}
use go_pg.Orm.Columns.Fields.{new_table_step, step, run, get_table, empty_table, set_methods}
use go_pg.Orm.Columns.Plain.{
  column_of, AllPlain, AllApart, Absent, []-Absent, names, update-own, if_off, add_each-Plain,
}

neither : {b c : Bool} → b ≡ false → c ≡ false → (b || c) ≡ false
neither e d = rw (e, d) refl

module _ (plural : Bytes → Bytes) (types : ℕ → StructType) where
  -- What newTable has made of the table of a type and of the rounds.
  abbrev Columns : ℕ → Registry → Registry → Type 0
  Columns t r x =
      (names ((x.objects t).built.fields) ≡ map column_of ((types t).struct_fields))
      × (x.halted ≡ r.halted)

  new_fields-Plain :
      (n t : ℕ) (r : Registry)
      → AllPlain ((types t).struct_fields)
      → AllApart ((types t).struct_fields)
      → (r.objects t).built.fields ≡ []
      → (r.objects t).built.fields_map ≡ []
      → Columns t r ((run plural types (suc (suc n)) (add_fields t t false) r).0)
  unfolding run step
  new_fields-Plain n t r p a f m =
      let rest =
        add_each-Plain types (run plural types (suc n)) (run plural types n) t false (λ f r. refl)
          ((types t).struct_fields) r p a
          (subst (λ q. Absent q ((types t).struct_fields)) (sym m)
            ([]-Absent ((types t).struct_fields))) in
      (rest.0 ∙ ap (λ q. names q ++ map column_of ((types t).struct_fields)) f, rest.1)

  methods-Plain :
      (t : ℕ) (r x : Registry)
      → Columns t r x
      → Columns t r (update t (set_methods plural types t) x)
  unfolding set_methods
  methods-Plain t r x h = (
    ap (λ (b : Built). names (b.built.fields)) (update-own t (set_methods plural types t) x) ∙ h.0,
    (unfold update in h.1),
  )

  new_table_step-Plain :
      (n t : ℕ) (r : Registry)
      → AllPlain ((types t).struct_fields)
      → AllApart ((types t).struct_fields)
      → is_key (value_type t) (r.tables) ≡ false
      → is_key (value_type t) (r.in_flight) ≡ false
      → Columns t r (new_table_step plural types (run plural types (suc (suc n))) t r)
  unfolding new_table_step
  new_table_step-Plain n t r p a e d =
      let r1 = record (update t (λ b. empty_table plural types t) r) {
        in_flight = value_type t ∷ r.in_flight;
      } in
      let own = update-own t (λ b. empty_table plural types t) r in
      let x = (run plural types (suc (suc n)) (add_fields t t false) r1).0 in
      let h = methods-Plain t r x (
        new_fields-Plain n t r1 p a
          (ap (λ (b : Built). b.built.fields) own ∙ (unfold empty_table in refl))
          (ap (λ (b : Built). b.built.fields_map) own ∙ (unfold empty_table in refl))) in
      subst (Columns t r) (sym (if_off _ _ (neither e d))) h

  -- The table of a struct type whose fields are columns, with no SQL name twice, takes Get no more than
  -- three rounds, and lists a field for each of them in their order, under its SQL name.
  pub get_table-Plain :
      (n t : ℕ) (r : Registry)
      → AllPlain ((types t).struct_fields)
      → AllApart ((types t).struct_fields)
      → is_key (value_type t) (r.tables) ≡ false
      → is_key (value_type t) (r.in_flight) ≡ false
      → (names (((get_table plural types (suc (suc (suc n))) t r).objects t).built.fields)
          ≡ map column_of ((types t).struct_fields))
        × ((get_table plural types (suc (suc (suc n))) t r).halted ≡ r.halted)
  unfolding get_table run step
  get_table-Plain n t r p a e d =
      subst (Columns t r) (sym (if_off _ _ e)) (new_table_step-Plain n t r p a e d)
