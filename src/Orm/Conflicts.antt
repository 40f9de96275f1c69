-- ===== src/Orm/Conflicts.antt =====
-- SelectOrInsert among others that insert and delete the same row.
use go_pg.Base.{
  ℕ, zero, suc, ◌≡◌, refl, sym, ap, ◌∙◌, Bool, true, false, Option, none, some, ◌⊎◌, inl, inr,
  Bytes, codes, equal,
}
use go_pg.Base.Int.{pos}
use go_pg.Errors.{Error, PgFields, pg_error, field, integrity_violation}
use go_pg.Types.Result.{PgResult}
use go_pg.Orm.Query.{Query}
use go_pg.Orm.Run.{
  Host, Failure, failed, gave_up, select, insert, select_or_insert, select_or_insert_from,
  is_no_rows, conflict, inserted, unless_sticky,
}

-- The SQLSTATE of an insert that came too late: an integrity constraint, or 55000.
pub data LateCode : Bytes → Type 0 where
  constraint : LateCode (codes "23000")
  restricted : LateCode (codes "23001")
  null_given : LateCode (codes "23502")
  foreign_key : LateCode (codes "23503")
  duplicate_key : LateCode (codes "23505")
  check_failed : LateCode (codes "23514")
  excluded : LateCode (codes "23P01")
  not_ready : LateCode (codes "55000")

module _ {W : Type 0} (db : Host W) (q : Query) (values : Option Error) where
  conflict-LateCode :
      (m : PgFields) (s : Bytes)
      → field m b'C' ≡ s
      → LateCode s
      → conflict db (failed (pg_error m)) ≡ some (pg_error m)
  unfolding integrity_violation equal
  conflict-LateCode m s e constraint = rw e refl
  conflict-LateCode m s e restricted = rw e refl
  conflict-LateCode m s e null_given = rw e refl
  conflict-LateCode m s e foreign_key = rw e refl
  conflict-LateCode m s e duplicate_key = rw e refl
  conflict-LateCode m s e check_failed = rw e refl
  conflict-LateCode m s e excluded = rw e refl
  conflict-LateCode m s e not_ready = rw e refl

  -- How rounds end, with `n` of them to go and the last error of an insert: with a row that a select finds, with a row
  -- that an insert adds, or, when all are lost, with that error. A round is lost when its select finds no row and the
  -- server refuses its insert with one of the codes.
  pub data Ends (r : (Failure ⊎ Bool) × W) : ℕ → Option Error → W → Type 0 where
    all_lost : {last : Option Error} {w : W} → r ≡ (inl (gave_up last), w) → Ends r 0 last w
    found_there :
        {n : ℕ} {last : Option Error} {w w1 : W}
        → select db q values w ≡ (none, w1)
        → r ≡ (inr false, w1)
        → Ends r (suc n) last w
    added :
        {n : ℕ} {last : Option Error} {w w1 w2 : W} {f : Failure} {p : PgResult}
        → select db q values w ≡ (some f, w1)
        → is_no_rows db f ≡ true
        → insert db q values w1 ≡ (inr p, w2)
        → p.affected ≡ pos 1
        → r ≡ (inr true, w2)
        → Ends r (suc n) last w
    lost :
        {n : ℕ} {last : Option Error} {w w1 w2 : W} {f : Failure} {m : PgFields} {s : Bytes}
        → select db q values w ≡ (some f, w1)
        → is_no_rows db f ≡ true
        → insert db q values w1 ≡ (inl (failed (pg_error m)), w2)
        → field m b'C' ≡ s
        → LateCode s
        → Ends r n (some (pg_error m)) w2
        → Ends r (suc n) last w

  inserted-conflict :
      (again : Option Error → W → (Failure ⊎ Bool) × W) (last : Option Error) (g : Failure)
      (e : Error) (w : W)
      → conflict db g ≡ some e
      → inserted db again last (inl g, w) ≡ again (some e) w
  inserted-conflict again last g e w c = rw (inserted, c) refl

  lost_round :
      (n : ℕ) (first : Option Error) (w w1 w2 : W) (f g : Failure) (e : Error)
      → select db q values w ≡ (some f, w1)
      → is_no_rows db f ≡ true
      → insert db q values w1 ≡ (inl g, w2)
      → conflict db g ≡ some e
      → select_or_insert_from db (suc n) q values first w
        ≡ select_or_insert_from db n q values (some e) w2
  unfolding select_or_insert_from
  lost_round n first w w1 w2 f g e s i h c =
      rw (select_or_insert_from, s, i, h)
        (inserted-conflict (select_or_insert_from db n q values) first g e w2 c)

  found_round :
      (m : ℕ) (last : Option Error) (w w1 : W)
      → select db q values w ≡ (none, w1)
      → select_or_insert_from db (suc m) q values last w ≡ (inr false, w1)
  unfolding select_or_insert_from
  found_round m last w w1 s = rw (select_or_insert_from, s) refl

  added_round :
      (m : ℕ) (last : Option Error) (w w1 w2 : W) (f : Failure) (p : PgResult)
      → select db q values w ≡ (some f, w1)
      → is_no_rows db f ≡ true
      → insert db q values w1 ≡ (inr p, w2)
      → p.affected ≡ pos 1
      → select_or_insert_from db (suc m) q values last w ≡ (inr true, w2)
  unfolding select_or_insert_from
  added_round m last w w1 w2 f p s i h a = rw (select_or_insert_from, s, i, h, a) refl

  given_up :
      (last : Option Error) (w : W)
      → select_or_insert_from db 0 q values last w ≡ (inl (gave_up last), w)
  unfolding select_or_insert_from
  given_up last w = refl

  rounds-Ends :
      (r : (Failure ⊎ Bool) × W) (n : ℕ) (last : Option Error) (w : W)
      → Ends r n last w
      → select_or_insert_from db n q values last w ≡ r
  rounds-Ends r zero last w (all_lost e) = given_up last w ∙ sym e
  rounds-Ends r (suc n) last w (found_there s e) = found_round n last w _ s ∙ sym e
  rounds-Ends r (suc n) last w (added s i h a e) = added_round n last w _ _ _ _ s i h a ∙ sym e
  rounds-Ends r (suc n) last w (lost {m = m} s i h c l rest) =
      lost_round n last w _ _ _ (failed (pg_error m)) (pg_error m) s i h (conflict-LateCode m _ c l)
      ∙ rounds-Ends r n (some (pg_error m)) _ rest

  from_five :
      (w : W)
      → q.body.sticky_err ≡ none
      → select_or_insert db q values w ≡ select_or_insert_from db 5 q values none w
  unfolding select_or_insert
  from_five w h = ap (λ s. unless_sticky db s w (select_or_insert_from db 5 q values none w)) h

  -- A query without an error of its own, whose rounds lose the insert to an integrity constraint or to 55000
  -- and then end within five: SelectOrInsert returns no error and that nothing was inserted when a select finds
  -- the row, that it was inserted when an insert adds it, and when all five are lost, an error with that of the
  -- last insert.
  pub select_or_insert-Ends :
      (r : (Failure ⊎ Bool) × W) (w : W)
      → q.body.sticky_err ≡ none
      → Ends r 5 none w
      → select_or_insert db q values w ≡ r
  select_or_insert-Ends r w h rounds = from_five w h ∙ rounds-Ends r 5 none w rounds
