-- ===== src/Net/Loop.antt =====
-- `for { … }` around a body that reads from the connection. A round that goes on must have consumed
-- a byte, so one more round than there are bytes is enough fuel.
use go_pg.Base.{ℕ, zero, suc, length}
use go_pg.Net.{ok, no_fuel, M, and_then}

-- A round goes on with new variables, or returns.
pub data Step (S R : Type 0) : Type 0 where
  more : S → Step S R
  done : R → Step S R

module _ {S R : Type 0} where
  unfoldable pub rounds : (S → M (Step S R)) → ℕ → S → M R
  rounds body zero s c = no_fuel
  rounds body (suc fuel) s c =
      and_then (body s c) (λ r. elim r [ more s' ↦ rounds body fuel s' | done x ↦ ok x ])

  unfoldable pub for_ever : (S → M (Step S R)) → S → M R
  unfolding rounds
  for_ever body s c = rounds body (suc (length c.rd)) s c
