-- ===== src/Policy/Lint/Verdicts.antt =====
-- src/lib/policy/lint.ts: when a side of a grant is provably without an attribute.
use headtower.Prelude.{◌≡◌, refl, Bool, not, ◌&&◌, List, [], ◌∷◌, Text, all, is_empty}
use headtower.Policy.Lint.Coverage.{
  Coverage, covered, uncovered, unknown, CoverageContext, target_covers, best, covered_by_any,
  is_uncovered, provably_uncovered,
}

best_uncovered :
    (lower : Text → Text) (ctx : CoverageContext) (c d : Coverage)
    → is_uncovered lower ctx (best lower ctx c d)
      ≡ (is_uncovered lower ctx c && is_uncovered lower ctx d)
unfolding best
best_uncovered lower ctx covered d = refl
best_uncovered lower ctx unknown covered = refl
best_uncovered lower ctx unknown uncovered = refl
best_uncovered lower ctx unknown unknown = refl
best_uncovered lower ctx uncovered d = refl

module _ (lower : Text → Text) (ctx : CoverageContext) where
  covered_by_any-uncovered :
      (token : Text) (targets : List Text)
      → is_uncovered lower ctx (covered_by_any lower ctx token targets)
        ≡ all (λ target. is_uncovered lower ctx (target_covers lower ctx token target)) targets
  unfolding covered_by_any
  covered_by_any-uncovered token [] = refl
  covered_by_any-uncovered token (target ∷ targets) =
      rw
        (
          best_uncovered lower ctx (target_covers lower ctx token target)
              (covered_by_any lower ctx token targets),
          covered_by_any-uncovered token targets,
        )
        refl

  all_same : (p q : Text → Bool) → ((t : Text) → p t ≡ q t) → (ts : List Text) → all p ts ≡ all q ts
  all_same p q h [] = refl
  all_same p q h (t ∷ ts) = rw (h t, all_same p q h ts) refl

  -- A list of selectors is provably uncovered exactly when it is not empty and every target is
  -- known not to cover any of them.
  pub provably_uncovered-all :
      (tokens targets : List Text)
      → provably_uncovered lower ctx tokens targets ≡ (
          not (is_empty tokens)
          && all
              (λ token.
                all
                  (λ target. is_uncovered lower ctx (target_covers lower ctx token target))
                  targets)
              tokens)
  unfolding provably_uncovered
  provably_uncovered-all tokens targets =
      rw (all_same _ _ (λ token. covered_by_any-uncovered token targets) tokens) refl
