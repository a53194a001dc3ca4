-- ===== src/Policy/Lint/Names.antt =====
-- src/lib/policy/lint.ts: repeated names.
use headtower.Prelude.{
  ℕ, suc, ◌≡◌, ◌↔◌, refl, inl, inr, arith, false, not, none, some, List, [], ◌∷◌, map, Text,
  eq_text_iff, has, Distinct, All, trim, keep, is_empty, Bool-cases, Option-cases,
}
use headtower.Policy.Lint.Sections.{Seen, seen_at, duplicates_from, duplicate_findings}

-- The names that count: trimmed, and not blank.
abbrev pub names_of : List Text → List Text
names_of names = keep (λ key. not (is_empty key)) (map trim names)

abbrev pub firsts : Seen → List Text
firsts seen = map (λ s. s.0) seen

seen_at-has :
    (key : Text) (seen : Seen) → (seen_at key seen ≡ none) ↔ (has key (firsts seen) ≡ false)
unfolding seen_at has
seen_at-has key [] = ground arith
seen_at-has key ((name, i) ∷ seen) = ground (arith, seen_at-has key seen)

repeated :
    (seen : Seen) (key : Text) (first : ℕ)
    → seen_at key seen ≡ some first
    → ¬ (has key (firsts seen) ≡ false)
repeated seen key first old h =
    let fresh : seen_at key seen ≡ none = (seen_at-has key seen).1 h in cc

-- Names that are new and differ from each other.
abbrev New : List Text → List Text → Type 0
New earlier [] = Unit
New earlier (key ∷ keys) = (has key earlier ≡ false) × New (key ∷ earlier) keys

enter :
    (key : Text) (earlier keys : List Text)
    → All (λ k. has k (key ∷ earlier) ≡ false) keys
      ↔ ((has key keys ≡ false) × All (λ k. has k earlier ≡ false) keys)
unfolding has
enter key earlier [] = (λ h. (refl, tt), λ h. tt)
enter key earlier (k ∷ keys) =
    ground (arith, enter key earlier keys, eq_text_iff k key, eq_text_iff key k)

New-Distinct :
    (earlier keys : List Text)
    → New earlier keys ↔ (Distinct keys × All (λ k. has k earlier ≡ false) keys)
New-Distinct earlier [] = (λ h. (tt, tt), λ h. tt)
New-Distinct earlier (key ∷ keys) =
    let rest = New-Distinct (key ∷ earlier) keys in
    let split = enter key earlier keys in ground (arith, rest, split)

none_earlier : (keys : List Text) → All (λ k. has k [] ≡ false) keys
unfolding has
none_earlier [] = tt
none_earlier (key ∷ keys) = (refl, none_earlier keys)

module _ (section label : Text) where
  none_found :
      (i : ℕ) (seen : Seen) (names : List Text)
      → (duplicates_from section label i seen names ≡ []) ↔ New (firsts seen) (names_of names)
  unfolding duplicates_from
  none_found i seen [] = ground arith
  none_found i seen (name ∷ names) = elim (Bool-cases (is_empty (trim name))) [
    | inl blank ↦ rw blank (none_found (suc i) seen names)
    | inr named ↦ elim (Option-cases (seen_at (trim name) seen)) [
      | inl fresh ↦
          let later = none_found (suc i) ((trim name, i) ∷ seen) names in
          let new = (seen_at-has (trim name) seen).0 fresh in
          rw (named, fresh) (λ e. (new, later.0 e), λ h. later.1 h.1)
      | inr (first, old) ↦
          let known : ¬ (has (trim name) (firsts seen) ≡ false) =
            λ h. repeated seen (trim name) first old h in
          rw (named, old) (λ e. cc, λ h. absurd (known h.0))
    ]
  ]

  -- duplicateFindings reports nothing exactly when the names, trimmed and without the blank ones,
  -- are distinct.
  pub duplicate_findings-Distinct :
      (names : List Text)
      → (duplicate_findings section label names ≡ []) ↔ Distinct (names_of names)
  unfolding duplicate_findings
  duplicate_findings-Distinct names =
      let found = none_found 0 [] names in
      let apart = New-Distinct [] (names_of names) in
      (λ e. (apart.0 (found.0 e)).0, λ d. found.1 (apart.1 (d, none_earlier (names_of names))))
