-- ===== src/Charts.antt =====
-- src/components/charts/series.ts: where a line over samples breaks.
pub mod Runs
pub mod Tests
use headtower.Prelude.{ℕ, zero, suc, ◌-◌, Option, none, some, List, [], ◌∷◌}

-- An element of the answer of `runsOfPresent`.
pub record Run : Type 0 where
  pub from : ℕ
  pub to : ℕ

-- The loop of `runsOfPresent` from the index `i` on, by the start of the open run.
unfoldable pub runs_from {ℓ} : {A : Type ℓ} → ℕ → Option ℕ → List (Option A) → List Run
runs_from i none [] = []
runs_from i (some start) [] = record { from = start; to = i - 1 } ∷ []
runs_from i none (some _ ∷ values) = runs_from (suc i) (some i) values
runs_from i (some start) (some _ ∷ values) = runs_from (suc i) (some start) values
runs_from i none (none ∷ values) = runs_from (suc i) none values
runs_from i (some start) (none ∷ values) =
    record { from = start; to = i - 1 } ∷ runs_from (suc i) none values

-- `runsOfPresent`
unfoldable pub runs_of_present {ℓ} : {A : Type ℓ} → List (Option A) → List Run
unfolding runs_from
runs_of_present values = runs_from 0 none values
