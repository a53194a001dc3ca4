-- ===== src/Policy/Lint/Throws.antt =====
-- src/lib/policy/lint.ts: the policies on which `lintPolicy` throws.
use headtower.Prelude.{
  ◌≡◌, refl, arith, Bool, true, false, not, ◌||◌, Option, none, some, List, [], ◌∷◌, Text, lit,
  eq_text, eq_text_iff, has, is_empty, any, subst, sym, ◌∙◌, if◌then◌else◌,
}
use headtower.Language.{object_prototype}
use headtower.Policy.Model.{PolicyModel}
use headtower.Policy.Lint.{LintFinding, RefSite, SitePosition, reference_part, collect_ref_sites}
use headtower.Policy.Lint.References.{
  Placement, fine, misplaced, broken, Declared, declared, own_placement, placement, placed_findings,
  token_findings, gather, both, place, site_findings, reference_findings,
}
use headtower.Policy.Lint.Report.{lint_policy, reported}

abbrev pub is_none {ℓ} : {A : Type ℓ} → Option A → Bool
is_none none = true
is_none (some a) = false

abbrev is_broken : Placement → Bool
is_broken broken = true
is_broken _ = false

-- An own row of the placement table is no inherited name.
own_lem :
    (token name : Text)
    → has name object_prototype ≡ false
    → eq_text token name ≡ true
    → has token object_prototype ≡ false
own_lem token name h e =
    subst (λ t. has t object_prototype ≡ false) (sym ((eq_text_iff token name).0 e)) h

-- Where the table has an own row, the token is not inherited.
own_placement-inherited :
    (token : Text) → is_none (own_placement token) || not (has token object_prototype) ≡ true
unfolding own_placement has eq_text lit
own_placement-inherited token = ground (
  arith,
  own_lem token (lit "autogroup:internet") refl,
  own_lem token (lit "autogroup:self") refl,
  own_lem token (lit "autogroup:danger-all") refl,
  own_lem token (lit "autogroup:nonroot") refl,
)

is_broken-place :
    (own : Option (SitePosition × Text)) (inherited : Bool) (position : SitePosition)
    → is_none own || not inherited ≡ true
    → is_broken (place own inherited position) ≡ inherited
unfolding place
is_broken-place none true position h = refl
is_broken-place none false position h = refl
is_broken-place (some (allowed, wording)) true position h = cc
is_broken-place (some (allowed, wording)) false position h = ground arith

module _ (lower : Text → Text) (names : Declared) where
  is_none-both :
      (a b : Option (List LintFinding)) → is_none (both lower names a b) ≡ (is_none a || is_none b)
  unfolding both
  is_none-both none b = refl
  is_none-both (some a) none = refl
  is_none-both (some a) (some b) = refl

  is_none-gather :
      {A : Type 0} (f : A → Option (List LintFinding)) (q : A → Bool)
      → ((x : A) → is_none (f x) ≡ q x)
      → (xs : List A) → is_none (gather lower names f xs) ≡ any q xs
  unfolding gather
  is_none-gather f q h [] = refl
  is_none-gather f q h (x ∷ xs) =
      rw (is_none-both (f x) (gather lower names f xs), h x, is_none-gather f q h xs) refl

  is_none-placed :
      (p : Placement) (position : SitePosition) (location token : Text)
      → is_none (placed_findings lower names p position location token) ≡ is_broken p
  unfolding placed_findings
  is_none-placed fine position location token = refl
  is_none-placed (misplaced wording) position location token = refl
  is_none-placed broken position location token = refl

  is_none-named :
      (position : SitePosition) (location token : Text)
      → is_none (
          if is_empty token
          then some []
          else placed_findings lower names (placement token position) position location token)
        ≡ has token object_prototype
  unfolding placement has eq_text lit
  is_none-named position location [] = refl
  is_none-named position location (a ∷ t) =
      is_none-placed (placement (a ∷ t) position) position location (a ∷ t)
      ∙ is_broken-place (own_placement (a ∷ t)) (has (a ∷ t) object_prototype) position
          (own_placement-inherited (a ∷ t))

  is_none-token_findings :
      (position : SitePosition) (location raw : Text)
      → is_none (token_findings lower names position location raw)
        ≡ has (reference_part raw position) object_prototype
  unfolding token_findings
  is_none-token_findings position location raw =
      is_none-named position location (reference_part raw position)

  is_none-reference_findings :
      (sites : List RefSite)
      → is_none (reference_findings lower names sites)
        ≡ any
            (λ s. any (λ raw. has (reference_part raw s.position) object_prototype) s.tokens)
            sites
  unfolding reference_findings site_findings
  is_none-reference_findings sites =
      is_none-gather _ _
        (λ s. is_none-gather _ _ (λ raw. is_none-token_findings s.position s.location raw) s.tokens)
        sites

is_none-reported :
    (lower : Text → Text) (model : PolicyModel) (hosts : List Text) (o : Option (List LintFinding))
    → is_none (reported lower model hosts o) ≡ is_none o
unfolding reported
is_none-reported lower model hosts none = refl
is_none-reported lower model hosts (some found) = refl

-- lintPolicy throws exactly on the models in which some reference, its port spec peeled off where
-- it is a destination, is the name of a property that every object inherits.
pub is_none-lint_policy :
    (lower : Text → Text) (model : PolicyModel) (known : Option (List Text))
    → is_none (lint_policy lower model known)
      ≡ any
          (λ s.
            any
              (λ raw. has (reference_part raw (RefSite.position s)) object_prototype)
              (RefSite.tokens s))
          (collect_ref_sites model)
unfolding lint_policy
is_none-lint_policy lower model known =
    is_none-reported lower model _ _
    ∙ is_none-reference_findings lower (declared lower model known) (collect_ref_sites model)
