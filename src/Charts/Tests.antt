-- ===== src/Charts/Tests.antt =====
-- src/components/charts/series.ts on a short line.
use headtower.Prelude.{ℕ, ◌≡◌, refl, Option, none, some, List, [], ◌∷◌, any}
use headtower.Charts.{Run, runs_of_present}
use headtower.Charts.Runs.{within, present, Apart, runs_of_present-Apart}

abbrev samples : List (Option ℕ)
samples = none ∷ some 4 ∷ some 5 ∷ none ∷ some 6 ∷ []

abbrev run : ℕ → ℕ → Run
run from to = record { from = from; to = to }

two_runs : runs_of_present samples ≡ run 1 2 ∷ run 4 4 ∷ []
unfolding runs_of_present
two_runs = refl

runs_of_present-Apart_example :
    ((k : ℕ) → any (within k) (runs_of_present samples) ≡ present k samples)
    × Apart 0 (runs_of_present samples)
runs_of_present-Apart_example = runs_of_present-Apart samples
