-- ===== src/Orm/Routes/Back.antt =====
-- orm/join.go and orm/model_table_struct.go: the columns of a joined table come back to its struct.
use go_pg.Base.{
  ℕ, zero, suc, ◌+◌, ◌<◌, ◌≤◌, ◌≡◌, refl, ap, ◌∙◌, true, false, ◌&&◌, Option, none, some, List, [],
  ◌∷◌, ◌++◌, Bytes, codes, equal, find, ◌==◌, length, arith, append_assoc, if◌then◌else◌,
  length-append, append-nil,
}
use go_pg.Types.Field.{append_field, append_field_from}
use go_pg.Orm.Table.{Field, Table}
use go_pg.Orm.Joins.{Join, Joins, is_single, append_alias_parts, append_alias_column}
use go_pg.Orm.Routes.{
  get_join, cut_column, split_column, Routed, to, no_column, no_fuel, own_column, scan_column,
  route_column, by_join, by_split, push_name,
}

-- A name with no `__`, that does not end in `_` either, so that a `__` behind it is the first.
abbrev pub Clean : Bytes → Type 0
Clean [] = ⊥
Clean (c ∷ []) = (c == b'_') ≡ false
Clean (c ∷ d ∷ s) = ((c == b'_' && d == b'_') ≡ false) × Clean (d ∷ s)

-- A name that is written without marks and doubled quotes.
abbrev pub Plain : Bytes → Type 0
Plain [] = Unit {0}
Plain (c ∷ s) = ((c == b'"') ≡ false) × ((c == b'.') ≡ false) × ((c == b'*') ≡ false) × Plain s

cut_column-Clean : (n s : Bytes) → Clean n → cut_column (n ++ b'_' ∷ b'_' ∷ s) ≡ some (n, s)
unfolding cut_column
cut_column-Clean [] s h = absurd h
cut_column-Clean (c ∷ []) s h = ground (arith, h)
cut_column-Clean (c ∷ d ∷ n) s h = rw (h.0, cut_column-Clean (d ∷ n) s h.1) refl

cut_column-none : (n : Bytes) → Clean n → cut_column n ≡ none
unfolding cut_column
cut_column-none [] h = refl
cut_column-none (c ∷ []) h = refl
cut_column-none (c ∷ d ∷ n) h = rw (h.0, cut_column-none (d ∷ n) h.1) refl

append_field-Plain : (b s : Bytes) → Plain s → append_field_from false false b s ≡ b ++ s
unfolding append_field_from
append_field-Plain b [] h = refl
append_field-Plain b (c ∷ []) h = rw (h.0, h.1, h.2) (simp append-nil)
append_field-Plain b (c ∷ d ∷ s) h =
    rw (h.0, h.1, h.2, append-nil b)
      (append_field-Plain (b ++ c ∷ []) (d ∷ s) h.3 ∙ append_assoc b (c ∷ []) (d ∷ s))

-- The joins `ps` lead, the nearest first, from a model to the model of a table with its own joins.
pub data Reached (t : Table) (js : Joins) : List Join → Table → Joins → Type 0 where
  root : Reached t js [] t js
  joined :
      {ps : List Join} {t' : Table} {js' : Joins} (j : Join) (inner : Joins)
      → Reached t js ps t' js'
      → get_join (j.field_name) js' ≡ some (j, inner)
      → Clean (j.field_name)
      → Reached t js (j ∷ ps) (j.join_table) inner

-- The name of a column behind joins, the nearest first.
abbrev pub route_name : List Join → Bytes → Bytes
route_name [] col = col
route_name (j ∷ ps) col = route_name ps (j.field_name ++ b'_' ∷ b'_' ∷ col)

split_column-Clean : (n s : Bytes) → Clean n → split_column (n ++ b'_' ∷ b'_' ∷ s) ≡ (n, s)
unfolding split_column
split_column-Clean n s h = rw (cut_column-Clean n s h, split_column) refl

split_column-none : (n : Bytes) → Clean n → split_column n ≡ ([], n)
unfolding split_column
split_column-none n h = rw (cut_column-none n h, split_column) refl

-- One round of the routing.
scan_step :
    (k : ℕ) (ps : List Join) (t : Table) (js : Joins) (j : Join) (inner : Joins) (n rest : Bytes)
    → get_join n js ≡ some (j, inner)
    → Clean n
    → scan_column (suc k) ps t js (n ++ b'_' ∷ b'_' ∷ rest)
      ≡ scan_column k (j ∷ ps) (j.join_table) inner rest
unfolding scan_column
scan_step k ps t js j inner [] rest e h = absurd h
scan_step k ps t js j inner (c ∷ n) rest e h =
    rw (split_column-Clean (c ∷ n) rest h, scan_column) (rw (e, by_join) refl)

scan_own :
    (k : ℕ) (ps : List Join) (t : Table) (js : Joins) (f : Field) (n : Bytes)
    → Clean n
    → find (t.fields_map) n ≡ some f
    → scan_column (suc k) ps t js n ≡ to ps f
unfolding scan_column
scan_own k ps t js f n h e = rw (split_column-none n h, scan_column) (rw (e, own_column) refl)

scan_route :
    {t : Table} {js : Joins} (k : ℕ) {ps : List Join} {t' : Table} {js' : Joins} (rest : Bytes)
    → Reached t js ps t' js'
    → scan_column (length ps + k) [] t js (route_name ps rest) ≡ scan_column k ps t' js' rest
scan_route {t} {js} k rest root = ap (λ n. scan_column n [] t js rest) (omega arith)
scan_route {t} {js} k rest (joined {ps} {t'} {js'} j inner r e h) =
    ap (λ n. scan_column n [] t js (route_name ps (j.field_name ++ b'_' ∷ b'_' ∷ rest)))
      (omega arith)
    ∙ scan_route (suc k) (j.field_name ++ b'_' ∷ b'_' ∷ rest) r
    ∙ scan_step k ps t' js' j inner (j.field_name) rest e h

-- What is behind a `__` is shorter.
abbrev Shorter : Option (Bytes × Bytes) → ℕ → Type 0
Shorter none n = Unit {0}
Shorter (some (a, r)) n = length r < n

push_name-Shorter :
    (c n : ℕ) (o : Option (Bytes × Bytes)) → Shorter o n → Shorter (push_name c o) (suc n)
push_name-Shorter c n none h = tt
push_name-Shorter c n (some (a, r)) h = omega arith

cut_column-Shorter : (s : Bytes) → Shorter (cut_column s) (length s)
unfolding cut_column
cut_column-Shorter [] = tt
cut_column-Shorter (c ∷ []) = tt
cut_column-Shorter (c ∷ d ∷ s) =
    elim (c == b'_' && d == b'_')
      as (λ t.
        Shorter (if t then some ([], s) else push_name c (cut_column (d ∷ s)))
          (length (c ∷ d ∷ s))) [
            | true ↦ omega arith
            | false ↦ push_name-Shorter c (length (d ∷ s)) _ (cut_column-Shorter (d ∷ s))
          ]

abbrev Cuts : Bytes × Bytes → ℕ → Type 0
Cuts ([], r) n = Unit {0}
Cuts (c ∷ s, r) n = length r < n

cut-Cuts :
    (s : Bytes) (o : Option (Bytes × Bytes))
    → Shorter o (length s)
    → Cuts (elim o [ none ↦ ([], s) | some r ↦ r ]) (length s)
cut-Cuts s none h = tt
cut-Cuts s (some ([], r)) h = tt
cut-Cuts s (some (c ∷ a, r)) h = h

split_column-Cuts : (s : Bytes) → Cuts (split_column s) (length s)
unfolding split_column
split_column-Cuts s = cut-Cuts s (cut_column s) (cut_column-Shorter s)

abbrev Next : Type 0
Next = List Join → Table → Joins → Bytes → Routed

by_join-eq :
    (next next' : Next) (ps : List Join) (t : Table) (js : Joins) (name front rest : Bytes)
    (o : Option (Join × Joins))
    → ((qs : List Join) (u : Table) (ks : Joins) → next qs u ks rest ≡ next' qs u ks rest)
    → by_join next ps t js name front rest o ≡ by_join next' ps t js name front rest o
by_join-eq next next' ps t js name front rest none h =
    ap (λ r. if equal (t.model_name) front then r else own_column ps t name) (h ps t js)
by_join-eq next next' ps t js name front rest (some (j, inner)) h = h (j ∷ ps) (j.join_table) inner

by_split-eq :
    (next next' : Next) (ps : List Join) (t : Table) (js : Joins) (name : Bytes) (r : Bytes × Bytes)
    → Cuts r (length name)
    → ((qs : List Join) (u : Table) (ks : Joins) (n : Bytes)
        → length n < length name
        → next qs u ks n ≡ next' qs u ks n)
    → by_split next ps t js name r ≡ by_split next' ps t js name r
by_split-eq next next' ps t js name ([], rest) c h = refl
by_split-eq next next' ps t js name (x ∷ s, rest) c h =
    by_join-eq next next' ps t js name (x ∷ s) rest (get_join (x ∷ s) js)
      (λ qs u ks. h qs u ks rest c)

-- Rounds beyond the length of the name change nothing.
scan_column-enough :
    (f g : ℕ) (ps : List Join) (t : Table) (js : Joins) (name : Bytes)
    → length name < f
    → length name < g
    → scan_column f ps t js name ≡ scan_column g ps t js name
unfolding scan_column
scan_column-enough zero g ps t js name h k = absurd (omega arith)
scan_column-enough (suc f) zero ps t js name h k = absurd (omega arith)
scan_column-enough (suc f) (suc g) ps t js name h k =
    by_split-eq (scan_column f) (scan_column g) ps t js name (split_column name)
      (split_column-Cuts name)
      (λ qs u ks n l. scan_column-enough f g qs u ks n (omega arith) (omega arith))

abbrev Fueled : Routed → Type 0
Fueled no_fuel = ⊥
Fueled no_column = Unit {0}
Fueled (to ps f) = Unit {0}

own_column-Fueled :
    (ps : List Join) (o : Option Field) → Fueled (elim o [ some f ↦ to ps f | none ↦ no_column ])
own_column-Fueled ps none = tt
own_column-Fueled ps (some f) = tt

by_join-Fueled :
    (next : Next) (ps : List Join) (t : Table) (js : Joins) (name front rest : Bytes)
    (o : Option (Join × Joins))
    → ((qs : List Join) (u : Table) (ks : Joins) → Fueled (next qs u ks rest))
    → Fueled (by_join next ps t js name front rest o)
by_join-Fueled next ps t js name front rest none h =
    elim (equal (t.model_name) front)
      as (λ b. Fueled (if b then next ps t js rest else own_column ps t name)) [
        | true ↦ h ps t js
        | false ↦ own_column-Fueled ps (find (t.fields_map) name)
      ]
by_join-Fueled next ps t js name front rest (some (j, inner)) h = h (j ∷ ps) (j.join_table) inner

by_split-Fueled :
    (next : Next) (ps : List Join) (t : Table) (js : Joins) (name : Bytes) (r : Bytes × Bytes)
    → Cuts r (length name)
    → ((qs : List Join) (u : Table) (ks : Joins) (n : Bytes)
        → length n < length name
        → Fueled (next qs u ks n))
    → Fueled (by_split next ps t js name r)
by_split-Fueled next ps t js name ([], rest) c h = own_column-Fueled ps (find (t.fields_map) name)
by_split-Fueled next ps t js name (x ∷ s, rest) c h =
    by_join-Fueled next ps t js name (x ∷ s) rest (get_join (x ∷ s) js)
      (λ qs u ks. h qs u ks rest c)

-- As many rounds as the name has bytes, and one more, are enough.
scan_column-Fueled :
    (f : ℕ) (ps : List Join) (t : Table) (js : Joins) (name : Bytes)
    → length name < f
    → Fueled (scan_column f ps t js name)
unfolding scan_column
scan_column-Fueled zero ps t js name h = absurd (omega arith)
scan_column-Fueled (suc f) ps t js name h =
    by_split-Fueled (scan_column f) ps t js name (split_column name) (split_column-Cuts name)
      (λ qs u ks n l. scan_column-Fueled f qs u ks n (omega arith))

length-route_name :
    (ps : List Join) (col : Bytes) → length ps + length col ≤ length (route_name ps col)
length-route_name [] col = omega arith
length-route_name (j ∷ ps) col = omega (
  arith,
  length-route_name ps (j.field_name ++ b'_' ∷ b'_' ∷ col),
  length-append {0} (j.field_name) (b'_' ∷ b'_' ∷ col),
)

abbrev pub AllSingle : List Join → Type 0
AllSingle [] = Unit {0}
AllSingle (j ∷ ps) = (is_single (j.relation_type) ≡ true) × AllSingle ps

-- The alias of a join: the names of its parents and its own.
abbrev alias_text : Join → List Join → Bytes
alias_text j [] = j.field_name
alias_text j (p ∷ ps) = alias_text p ps ++ b'_' ∷ b'_' ∷ j.field_name

append_alias_parts-text :
    (b : Bytes) (j : Join) (ps : List Join)
    → AllSingle ps
    → append_alias_parts true b j ps ≡ b ++ alias_text j ps
unfolding append_alias_parts
append_alias_parts-text b j [] h = refl
append_alias_parts-text b j (p ∷ ps) h =
    rw (h.0, append_alias_parts-text b p ps h.1) (simp append_assoc)

alias_text-route_name :
    (j : Join) (ps : List Join) (col : Bytes)
    → alias_text j ps ++ b'_' ∷ b'_' ∷ col ≡ route_name (j ∷ ps) col
alias_text-route_name j [] col = refl
alias_text-route_name j (p ∷ ps) col =
    append_assoc (alias_text p ps) (b'_' ∷ b'_' ∷ j.field_name) (b'_' ∷ b'_' ∷ col)
    ∙ alias_text-route_name p ps (j.field_name ++ b'_' ∷ b'_' ∷ col)

append_alias_column-route :
    (b : Bytes) (j : Join) (ps : List Join) (col : Bytes)
    → AllSingle ps
    → Plain col
    → append_alias_column b j ps col ≡ (b ++ b'"' ∷ []) ++ (route_name (j ∷ ps) col ++ b'"' ∷ [])
unfolding append_alias_column append_field
append_alias_column-route b j ps col h p =
    rw
      (
        append_alias_parts-text (b ++ b'"' ∷ []) j ps h,
        append_field-Plain (((b ++ b'"' ∷ []) ++ alias_text j ps) ++ codes "__") col p,
        ← alias_text-route_name j ps col,
      )
      (simp append_assoc)

-- For a join `j` below has-one and belongs-to joins, all with names that hold no `__` and do not end in `_`:
-- the alias that a SELECT gives to a column of its table, as a text between double quotes, is routed by
-- ScanColumn of the model back over the same joins to the field of that column.
pub route_column-alias :
    {t : Table} {js : Joins} (b : Bytes) (j : Join) (ps : List Join) (inner : Joins) (col : Bytes)
    (f : Field)
    → Reached t js (j ∷ ps) (j.join_table) inner
    → AllSingle ps
    → Clean col
    → Plain col
    → find (j.join_table.fields_map) col ≡ some f
    → (name : Bytes) × (append_alias_column b j ps col ≡ (b ++ b'"' ∷ []) ++ (name ++ b'"' ∷ []))
      × (route_column t js name ≡ to (j ∷ ps) f)
unfolding route_column
route_column-alias {t} {js} b j ps inner col f r h c p e =
    let name = route_name (j ∷ ps) col in
    (
      name,
      append_alias_column-route b j ps col h p,
      scan_column-enough (suc (length name)) (length (j ∷ ps) + suc (length col + length name)) [] t
            js name (omega arith) (omega arith)
          ∙ scan_route (suc (length col + length name)) col r
          ∙ scan_own (length col + length name) (j ∷ ps) (j.join_table) inner f col c e,
    )
