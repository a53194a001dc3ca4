-- ===== src/Policy/Lint/Tests.antt =====
-- The linter on small policies.
use headtower.Prelude.{
  List, some, All, ◌≡◌, ◌↔◌, refl, none, [], ◌∷◌, lit, has, eq_text, any, Distinct,
}
use headtower.Language.{object_prototype}
use headtower.Language.Sample.{sample}
use headtower.Policy.Model.{PolicyModel, empty_model}
use headtower.Policy.Lint.References.{Declared, reference_findings}
use headtower.Policy.Lint.Resolve.{Resolves, reference_findings-Resolves}
use headtower.Policy.Lint.{site, src, RefSite, reference_part, collect_ref_sites}
use headtower.Policy.Lint.Coverage.{CoverageContext}
use headtower.Policy.Lint.Sections.{duplicate_findings}
use headtower.Policy.Lint.Report.{lint_policy}
use headtower.Policy.Lint.Throws.{is_none, is_none-lint_policy}
use headtower.Policy.Lint.Names.{names_of, duplicate_findings-Distinct}

-- A model with a group that has a member called like an inherited property.
abbrev named_constructor : PolicyModel
named_constructor = record empty_model {
  groups = record { name = lit "group:a"; values = lit "constructor" ∷ [] } ∷ [];
}

is_none-lint_policy_example :
    is_none (lint_policy (sample.lower) named_constructor none)
    ≡ any
        (λ s.
          any
            (λ raw. has (reference_part raw (RefSite.position s)) object_prototype)
            (RefSite.tokens s))
        (collect_ref_sites named_constructor)
is_none-lint_policy_example = is_none-lint_policy (sample.lower) named_constructor none

throws : lint_policy (sample.lower) named_constructor none ≡ none
unfolding lint_policy lit eq_text has
throws = refl

abbrev context : CoverageContext
context = record { groups = []; host_aliases = [] }

duplicate_findings-Distinct_example :
    (duplicate_findings (lit "groups") (lit "group") (lit "a" ∷ lit " a" ∷ []) ≡ [])
    ↔ Distinct (names_of (lit "a" ∷ lit " a" ∷ []))
duplicate_findings-Distinct_example =
    duplicate_findings-Distinct (lit "groups") (lit "group") (lit "a" ∷ lit " a" ∷ [])

abbrev names : Declared
names = record { groups = lit "group:a" ∷ []; tags = []; hosts = []; users = none }

abbrev sites : List RefSite
sites = site (lit "acls[0].src") (lit "group:a" ∷ lit "*" ∷ []) src ∷ []

reference_findings-Resolves_example :
    (reference_findings (sample.lower) names sites ≡ some [])
    ↔ All (λ s. All (Resolves (sample.lower) names (RefSite.position s)) (RefSite.tokens s)) sites
reference_findings-Resolves_example = reference_findings-Resolves (sample.lower) names sites
