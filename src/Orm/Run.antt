-- ===== src/Orm/Run.antt =====
-- orm/query.go: the methods that run a query, over the database and the hooks of the model. `W` is the
-- state of the world: the database with what the user's values hold.
use go_pg.Base.{
  ℕ, zero, suc, Bool, true, false, ◌||◌, Option, none, some, ◌⊎◌, inl, inr, codes, equal, ltb, ◌==◌,
  if◌then◌else◌,
}
use go_pg.Base.Int.{ℤ, pos, negsuc}
use go_pg.Errors.{Error, pg_error, internal_error, no_rows, field, integrity_violation}
use go_pg.Types.Result.{PgResult}
use go_pg.Orm.Query.{QueryError, Query}

-- A query with the method that runs it.
pub data Statement : Type 0 where
  selecting : Query → Statement
  inserting : Query → Statement
  updating : Query → Statement
  deleting : Query → Statement

pub data Hook : Type 0 where
  after_select before_insert after_insert before_update after_update before_delete after_delete :
      Hook

-- `gave_up` is the error of SelectOrInsert after its rounds, with the last error of an insert.
pub data Failure : Type 0 where
  sticky : QueryError → Failure
  failed : Error → Failure
  gave_up : Option Error → Failure

-- The interface DB on one statement, the hooks of the query's model, and the selects of its has-many joins.
pub record Host (W : Type 0) : Type 0 where
  pub query : Statement → W → (Error ⊎ PgResult) × W
  pub hook : Hook → W → Option Error × W
  pub select_joins : W → Option Error × W

module _ {W : Type 0} (db : Host W) where
  abbrev has_model : Query → Bool
  has_model q = elim (q.body.model) [ none ↦ false | some m ↦ true ]

  -- A hook of the query's model, if it has one.
  abbrev pub hooked : Query → Hook → W → Option Error × W
  hooked q h w = if has_model q then db.hook h w else (none, w)

  abbrev pub after_change : PgResult → Option Error × W → (Failure ⊎ PgResult) × W
  after_change r (none, w) = (inr r, w)
  after_change r (some e, w) = (inl (failed e), w)

  abbrev pub changed : Query → Hook → (Error ⊎ PgResult) × W → (Failure ⊎ PgResult) × W
  changed q after (inl e, w) = (inl (failed e), w)
  changed q after (inr r, w) = after_change r (hooked q after w)

  abbrev pub before_change : Query → Statement → Hook → Option Error × W → (Failure ⊎ PgResult) × W
  before_change q s after (some e, w) = (inl (failed e), w)
  before_change q s after (none, w) = changed q after (db.query s w)

  -- What Insert, Update and Delete share. `values` is the error of `newModel`.
  unfoldable pub change :
      Query → Statement → Hook → Hook → Option Error → W → (Failure ⊎ PgResult) × W
  change q s before after values w = elim (q.body.sticky_err) [
    | some e ↦ (inl (sticky e), w)
    | none ↦ elim values [
      | some e ↦ (inl (failed e), w)
      | none ↦ before_change q s after (hooked q before w)
    ]
  ]

  unfoldable pub insert : Query → Option Error → W → (Failure ⊎ PgResult) × W
  unfolding change
  insert q values w = change q (inserting q) before_insert after_insert values w

  unfoldable pub update : Query → Option Error → W → (Failure ⊎ PgResult) × W
  unfolding change
  update q values w = change q (updating q) before_update after_update values w

  unfoldable pub delete : Query → W → (Failure ⊎ PgResult) × W
  unfolding change
  delete q w = change q (deleting q) before_delete after_delete none w

  abbrev pub as_failure : Option Error × W → Option Failure × W
  as_failure (none, w) = (none, w)
  as_failure (some e, w) = (some (failed e), w)

  abbrev pub after_joins : Option Error × W → Option Failure × W
  after_joins (some e, w) = (some (failed e), w)
  after_joins (none, w) = as_failure (db.hook after_select w)

  abbrev pub selected : Query → (Error ⊎ PgResult) × W → Option Failure × W
  selected q (inl e, w) = (some (failed e), w)
  selected q (inr r, w) =
      if ltb 0 (r.returned)
      then after_joins (if has_model q then db.select_joins w else (none, w))
      else (none, w)

  unfoldable pub select : Query → Option Error → W → Option Failure × W
  select q values w = elim (q.body.sticky_err) [
    | some e ↦ (some (sticky e), w)
    | none ↦ elim values [
      | some e ↦ (some (failed e), w)
      | none ↦ selected q (db.query (selecting q) w)
    ]
  ]

  abbrev pub is_no_rows : Failure → Bool
  is_no_rows (failed (internal_error no_rows)) = true
  is_no_rows f = false

  -- The errors of an insert after which SelectOrInsert goes on, and what it keeps of them.
  abbrev pub conflict : Failure → Option Error
  conflict (failed (pg_error m)) =
      if integrity_violation m || equal (field m b'C') (codes "55000")
      then some (pg_error m)
      else none
  conflict f = none

  abbrev pub is_one : ℤ → Bool
  is_one (pos n) = n == 1
  is_one (negsuc n) = false

  -- One round behind its select, and the rounds behind it.
  abbrev pub inserted :
      (Option Error → W → (Failure ⊎ Bool) × W)
      → Option Error
      → (Failure ⊎ PgResult) × W
      → (Failure ⊎ Bool) × W
  inserted again last (inl f, w) = elim (conflict f) [
    | some e ↦ again (some e) w
    | none ↦ (inl f, w)
  ]
  inserted again last (inr r, w) = if is_one (r.affected) then (inr true, w) else again last w

  abbrev pub found_or : (W → (Failure ⊎ Bool) × W) → Option Failure × W → (Failure ⊎ Bool) × W
  found_or insert_it (none, w) = (inr false, w)
  found_or insert_it (some f, w) = if is_no_rows f then insert_it w else (inl f, w)

  -- The loop of SelectOrInsert with `n` rounds to go, and the last error of an insert. Its pauses are left out.
  unfoldable pub select_or_insert_from :
      ℕ → Query → Option Error → Option Error → W → (Failure ⊎ Bool) × W
  unfolding select insert
  select_or_insert_from zero q values last w = (inl (gave_up last), w)
  select_or_insert_from (suc n) q values last w =
      found_or (λ w'. inserted (select_or_insert_from n q values) last (insert q values w'))
        (select q values w)

  abbrev pub unless_sticky : Option QueryError → W → (Failure ⊎ Bool) × W → (Failure ⊎ Bool) × W
  unless_sticky none w r = r
  unless_sticky (some e) w r = (inl (sticky e), w)

  unfoldable pub select_or_insert : Query → Option Error → W → (Failure ⊎ Bool) × W
  unfolding select_or_insert_from
  select_or_insert q values w =
      unless_sticky (q.body.sticky_err) w (select_or_insert_from 5 q values none w)
