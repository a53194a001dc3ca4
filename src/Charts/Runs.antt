-- ===== src/Charts/Runs.antt =====
-- `runsOfPresent` of src/components/charts/series.ts against the values that are present.
use headtower.Prelude.{
  ℕ, zero, suc, ◌+◌, ◌-◌, ◌≤◌, ◌<◌, ◌≡◌, refl, arith, Bool, true, false, ◌&&◌, Option, none, some,
  List, [], ◌∷◌, any, leb,
}
use headtower.Charts.{Run, runs_from, runs_of_present}

abbrev pub within : ℕ → Run → Bool
within k run = leb run.from k && leb k run.to

-- Whether there is a value at an index.
abbrev pub present {ℓ} : {A : Type ℓ} → ℕ → List (Option A) → Bool
present k [] = false
present zero (none ∷ values) = false
present zero (some _ ∷ values) = true
present (suc k) (_ ∷ values) = present k values

-- Runs in ascending order, none of them empty, with an index between one and the next.
abbrev pub Apart : ℕ → List Run → Type 0
Apart low [] = Unit
Apart low (run ∷ runs) = (low ≤ run.from) × (run.from ≤ run.to) × Apart (run.to + 2) runs

-- What is known of the start of the open run.
abbrev Begun : ℕ → Option ℕ → Type 0
Begun i none = Unit
Begun i (some start) = start < i

abbrev opened : ℕ → Option ℕ → Bool
opened k none = false
opened k (some start) = leb start k

-- Where the loop stands while every run to come starts at `low` at least.
abbrev After : ℕ → ℕ → Option ℕ → Type 0
After low i none = low ≤ i
After low i (some start) = (low ≤ start) × (start < i)

module _ {ℓ} {A : Type ℓ} where
  -- The indices that the loop has passed belong to the open run or to none that is yet to come.
  runs_from-passed :
      (k i : ℕ) (begun : Option ℕ) (values : List (Option A))
      → k < i
      → Begun i begun
      → any (within k) (runs_from i begun values) ≡ opened k begun
  unfolding runs_from
  runs_from-passed k i none [] h b = refl
  runs_from-passed k i (some start) [] h b = ground arith
  runs_from-passed k i none (some _ ∷ values) h b =
      ground (arith, h, runs_from-passed k (suc i) (some i) values)
  runs_from-passed k i (some start) (some _ ∷ values) h b =
      runs_from-passed k (suc i) (some start) values (omega arith) (omega arith)
  runs_from-passed k i none (none ∷ values) h b =
      runs_from-passed k (suc i) none values (omega arith) tt
  runs_from-passed k i (some start) (none ∷ values) h b =
      rw (runs_from-passed k (suc i) none values (omega arith) tt) (ground arith)

  -- The others are in a run exactly where they have a value.
  runs_from-coming :
      (k d i : ℕ) (begun : Option ℕ) (values : List (Option A))
      → k ≡ d + i
      → Begun i begun
      → any (within k) (runs_from i begun values) ≡ present d values
  unfolding runs_from
  runs_from-coming k d i none [] h b = refl
  runs_from-coming k d i (some start) [] h b = ground arith
  runs_from-coming k zero i none (some _ ∷ values) h b =
      rw (runs_from-passed k (suc i) (some i) values (omega arith) (omega arith)) (ground arith)
  runs_from-coming k zero i (some start) (some _ ∷ values) h b =
      rw (runs_from-passed k (suc i) (some start) values (omega arith) (omega arith)) (ground arith)
  runs_from-coming k zero i none (none ∷ values) h b =
      runs_from-passed k (suc i) none values (omega arith) tt
  runs_from-coming k zero i (some start) (none ∷ values) h b =
      rw (runs_from-passed k (suc i) none values (omega arith) tt) (ground arith)
  runs_from-coming k (suc d) i none (some _ ∷ values) h b =
      runs_from-coming k d (suc i) (some i) values (omega arith) (omega arith)
  runs_from-coming k (suc d) i (some start) (some _ ∷ values) h b =
      runs_from-coming k d (suc i) (some start) values (omega arith) (omega arith)
  runs_from-coming k (suc d) i none (none ∷ values) h b =
      runs_from-coming k d (suc i) none values (omega arith) tt
  runs_from-coming k (suc d) i (some start) (none ∷ values) h b =
      rw (runs_from-coming k d (suc i) none values (omega arith) tt) (ground arith)

  runs_from-Apart :
      (low i : ℕ) (begun : Option ℕ) (values : List (Option A))
      → After low i begun
      → Apart low (runs_from i begun values)
  unfolding runs_from
  runs_from-Apart low i none [] h = tt
  runs_from-Apart low i (some start) [] (h, b) = (h, omega arith, tt)
  runs_from-Apart low i none (some _ ∷ values) h =
      runs_from-Apart low (suc i) (some i) values (h, omega arith)
  runs_from-Apart low i (some start) (some _ ∷ values) (h, b) =
      runs_from-Apart low (suc i) (some start) values (h, omega arith)
  runs_from-Apart low i none (none ∷ values) h =
      runs_from-Apart low (suc i) none values (omega arith)
  runs_from-Apart low i (some start) (none ∷ values) (h, b) =
      (h, omega arith, runs_from-Apart (i - 1 + 2) (suc i) none values (omega arith))

  -- An index lies in a run of runsOfPresent exactly where there is a value at it; the runs
  -- ascend, none is empty, and between one and the next there is an index.
  pub runs_of_present-Apart :
      (values : List (Option A))
      → ((k : ℕ) → any (within k) (runs_of_present values) ≡ present k values)
        × Apart 0 (runs_of_present values)
  unfolding runs_of_present
  runs_of_present-Apart values = (
    λ k. runs_from-coming k k 0 none values (omega arith) tt,
    runs_from-Apart 0 0 none values (omega arith),
  )
