-- ===== src/Orm/Tests/Races.antt =====
-- SelectOrInsert that loses its first round.
use go_pg.Base.{
  ℕ, suc, ◌≡◌, refl, false, none, some, ◌⊎◌, inl, inr, [], ◌∷◌, codes, ◌==◌, if◌then◌else◌,
}
use go_pg.Base.Int.{pos}
use go_pg.Errors.{Error, pg_error, internal_error, no_rows}
use go_pg.Types.Result.{PgResult}
use go_pg.Orm.Query.{Query, no_with, empty_body}
use go_pg.Orm.Run.{Host, Statement, selecting, failed, select, insert, select_or_insert}
use go_pg.Orm.Conflicts.{Ends, lost, found_there, duplicate_key, select_or_insert-Ends}

-- The error of a row that is there already.
abbrev duplicate : Error
duplicate = pg_error ((b'C', codes "23505") ∷ [])

-- The state of the world is the number of its queries: the row appears after the second.
abbrev run : Statement → ℕ → (Error ⊎ PgResult) × ℕ
run (selecting q) w =
    if w == 0
    then (inl (internal_error no_rows), suc w)
    else (inr (record { affected = pos 1; returned = 0 }), suc w)
run s w = (inl duplicate, suc w)

abbrev host : Host ℕ
host = record { query = run; hook = λ h w. (none, w); select_joins = λ w. (none, w) }

abbrev plain : Query
plain = record { body = empty_body none none; withs = no_with }

no_row : select host plain none 0 ≡ (some (failed (internal_error no_rows)), 1)
unfolding select
no_row = refl

taken : insert host plain none 1 ≡ (inl (failed duplicate), 2)
unfolding insert
taken = refl

there : select host plain none 2 ≡ (none, 3)
unfolding select
there = refl

one_lost : Ends host plain none (inr false, 3) 5 none 0
unfolding go_pg.Errors.field
one_lost = lost no_row refl taken refl duplicate_key (found_there there refl)

select_or_insert-Ends_example : select_or_insert host plain none 0 ≡ (inr false, 3)
select_or_insert-Ends_example = select_or_insert-Ends host plain none (inr false, 3) 0 refl one_lost
