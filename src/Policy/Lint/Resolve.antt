-- ===== src/Policy/Lint/Resolve.antt =====
-- src/lib/policy/lint.ts: when the loop over the references has nothing to report.
use headtower.Prelude.{
  ◌≡◌, ◌↔◌, ◌⊎◌, ap, refl, inl, inr, arith, true, Option, none, some, List, [], ◌∷◌, Text, has,
  is_empty, All, Bool-cases,
}
use headtower.Policy.Tokens.{
  TokenKind, wildcard, group, tag, host, autogroup, cidr, user, literal, classify_token,
}
use headtower.Policy.Lint.{
  LintFinding, RefSite, SitePosition, group_members, reference_part, matches_known_user,
}
use headtower.Policy.Lint.References.{
  Placement, fine, misplaced, broken, Declared, eq_position, placement, user_finding, kind_findings,
  placed_findings, token_findings, both, gather, site_findings, reference_findings,
}

every_iff :
    {A : Type 0} {P Q : A → Type 0} → ((x : A) → P x ↔ Q x) → (xs : List A) → All P xs ↔ All Q xs
every_iff h [] = (λ k. tt, λ k. tt)
every_iff h (x ∷ xs) =
    let here = h x in
    let rest = every_iff h xs in (λ k. (here.0 k.0, rest.0 k.1), λ k. (here.1 k.0, rest.1 k.1))

module _ (lower : Text → Text) (names : Declared) where
  -- A user that is known, where the users are.
  abbrev pub KnownUser : Option (List Text) → Text → Type 0
  KnownUser none token = Unit
  KnownUser (some known) token = matches_known_user lower token known ≡ true

  -- A token of a kind that has to be declared, or known, is.
  abbrev pub Stands : TokenKind → SitePosition → Text → Type 0
  Stands group position token =
      (eq_position position group_members ≡ true) ⊎ (has token names.groups ≡ true)
  Stands tag position token = has token names.tags ≡ true
  Stands user position token = KnownUser names.users token
  Stands _ position token = Unit

  -- A reference at a position: blank, or well placed and standing for something.
  abbrev pub Resolves : SitePosition → Text → Type 0
  Resolves position raw =
      (is_empty (reference_part raw position) ≡ true)
      ⊎ ((placement (reference_part raw position) position ≡ fine)
          × Stands (classify_token (reference_part raw position) names.hosts) position
              (reference_part raw position))

  both_quiet :
      (a b : Option (List LintFinding))
      → (both lower names a b ≡ some []) ↔ ((a ≡ some []) × (b ≡ some []))
  unfolding both
  both_quiet none b = ground arith
  both_quiet (some a) none = ground arith
  both_quiet (some []) (some b) = ground arith
  both_quiet (some (x ∷ a)) (some b) = ground arith

  gather_quiet :
      {A : Type 0} (f : A → Option (List LintFinding)) (xs : List A)
      → (gather lower names f xs ≡ some []) ↔ All (λ x. f x ≡ some []) xs
  unfolding gather
  gather_quiet f [] = (λ e. tt, λ h. refl)
  gather_quiet f (x ∷ xs) =
      let here = both_quiet (f x) (gather lower names f xs) in
      let rest = gather_quiet f xs in
      (λ e. ((here.0 e).0, rest.0 (here.0 e).1), λ h. here.1 (h.0, rest.1 h.1))

  user_quiet :
      (location token : Text) (users : Option (List Text))
      → (user_finding lower names location token users ≡ []) ↔ KnownUser users token
  unfolding user_finding
  user_quiet location token none = (λ e. tt, λ h. refl)
  user_quiet location token (some known) = ground arith

  kind_quiet :
      (kind : TokenKind) (position : SitePosition) (location token : Text)
      → (kind_findings lower names kind position location token ≡ []) ↔ Stands kind position token
  unfolding kind_findings
  kind_quiet group position location token = ground arith
  kind_quiet tag position location token = ground arith
  kind_quiet user position location token = user_quiet location token names.users
  kind_quiet wildcard position location token = (λ e. tt, λ h. refl)
  kind_quiet host position location token = (λ e. tt, λ h. refl)
  kind_quiet autogroup position location token = (λ e. tt, λ h. refl)
  kind_quiet cidr position location token = (λ e. tt, λ h. refl)
  kind_quiet literal position location token = (λ e. tt, λ h. refl)

  placed_quiet :
      (p : Placement) (position : SitePosition) (location token : Text)
      → (placed_findings lower names p position location token ≡ some [])
        ↔ ((p ≡ fine) × Stands (classify_token token names.hosts) position token)
  unfolding placed_findings
  placed_quiet fine position location token =
      let kind = kind_quiet (classify_token token names.hosts) position location token in
      (λ e. (refl, kind.0 (ground (arith, e))), λ h. ap some (kind.1 h.1))
  placed_quiet (misplaced wording) position location token =
      (λ e. ground (arith, e), λ h. let no : misplaced wording ≡ fine = h.0 in cc)
  placed_quiet broken position location token =
      (λ e. ground (arith, e), λ h. let no : broken ≡ fine = h.0 in cc)

  token_quiet :
      (position : SitePosition) (location raw : Text)
      → (token_findings lower names position location raw ≡ some []) ↔ Resolves position raw
  unfolding token_findings
  token_quiet position location raw =
      let token = reference_part raw position in
      let placed = placed_quiet (placement token position) position location token in
      elim (Bool-cases (is_empty (reference_part raw position))) [
        | inl h ↦ rw h (λ e. inl refl, λ r. refl)
        | inr h ↦
            rw h (λ e. inr (placed.0 e), λ r. elim r [ inl blank ↦ cc | inr ok ↦ placed.1 ok ])
      ]

  site_quiet :
      (s : RefSite) → (site_findings lower names s ≡ some []) ↔ All (Resolves s.position) s.tokens
  unfolding site_findings
  site_quiet s =
      let outer = gather_quiet (token_findings lower names s.position s.location) s.tokens in
      let inner = every_iff (λ raw. token_quiet s.position s.location raw) s.tokens in
      (λ e. inner.0 (outer.0 e), λ h. outer.1 (inner.1 h))

  -- The loop over the references reports nothing, and does not throw, exactly when every
  -- reference is blank or well placed and, where it is a group outside a list of members, a tag
  -- or a user to be checked, declared or known.
  pub reference_findings-Resolves :
      (sites : List RefSite)
      → (reference_findings lower names sites ≡ some [])
        ↔ All (λ s. All (Resolves s.position) s.tokens) sites
  unfolding reference_findings
  reference_findings-Resolves sites =
      let outer = gather_quiet (site_findings lower names) sites in
      let inner = every_iff (λ s. site_quiet s) sites in
      (λ e. inner.0 (outer.0 e), λ h. outer.1 (inner.1 h))
