-- ===== src/Policy/Eval/Notes.antt =====
-- src/lib/policy/eval.ts: the notes that an expansion collects never change what it finds.
use headtower.Prelude.{
  ℕ, zero, suc, ◌≡◌, refl, ap, inl, inr, Option, none, some, List, [], ◌∷◌, Text, eq_text, has, add,
  find, is_empty, subst, Bool-cases, Option-cases, lit,
}
use headtower.Language.{Language}
use headtower.Policy.Tokens.{
  TokenKind, wildcard, group, tag, autogroup, host, cidr, user, literal, classify_token,
  parse_ipv4_range,
}
use headtower.Policy.Model.{PolicyModel}
use headtower.Policy.Eval.Expand.{
  Expansion, merge, Trace, Expand, merge_members, cidr_of, one_atom, empty_expansion, expand_group,
  expand_host, expand_cidr, expand_autogroup, expand_kind, expand,
}

-- Two results with one expansion and one set of groups entered.
abbrev pub Same : Option (Expansion × Trace) → Option (Expansion × Trace) → Type 0
Same none none = Unit
Same none (some r) = ⊥
Same (some r) none = ⊥
Same (some (e, t)) (some (e', t')) = (e ≡ e') × (t.seen ≡ t'.seen)

abbrev Agrees : Expand → Type 0
Agrees call = (token : Text) (t t' : Trace) → t.seen ≡ t'.seen → Same (call token t) (call token t')

merge_members-Same :
    (call : Expand) (out : Expansion) (ms : List Text) (t t' : Trace)
    → Agrees call
    → t.seen ≡ t'.seen
    → Same (merge_members call out ms t) (merge_members call out ms t')
unfolding merge_members
merge_members-Same call out [] t t' agrees same = (refl, same)
merge_members-Same call out (m ∷ ms) t t' agrees same =
    go (call m t) (call m t') refl refl (agrees m t t' same)
      (λ out u u' h. merge_members-Same call out ms u u' agrees h)
  where
    go :
        (r r' : Option (Expansion × Trace))
        → call m t ≡ r
        → call m t' ≡ r'
        → Same r r'
        → ((out : Expansion) (u u' : Trace)
            → u.seen ≡ u'.seen
            → Same (merge_members call out ms u) (merge_members call out ms u'))
        → Same (merge_members call out (m ∷ ms) t) (merge_members call out (m ∷ ms) t')
    go none none p q s rest = rw (p, q, merge_members) tt
    go none (some r) p q s rest = absurd s
    go (some r) none p q s rest = absurd s
    go (some (e, u)) (some (e', u')) p q (es, us) rest =
        rw (p, q, merge_members)
          (subst
            (λ x.
              Same (merge_members call (merge out e) ms u) (merge_members call (merge out x) ms u'))
            es (rest (merge out e) u u' us))

module _ (language : Language) (model : PolicyModel) (aliases : List Text) where
  module _ (call : Expand) (agrees : Agrees call) (token : Text) (t t' : Trace)
      (same : t.seen ≡ t'.seen) where
    group_Same :
        Same
          (expand_group language model aliases call token t)
          (expand_group language model aliases call token t')
    unfolding expand_group
    group_Same = elim (Bool-cases (has token t.seen)) [
      | inl old ↦ rw (old, rw same at old) (refl, same)
      | inr new ↦
          rw (new, rw same at new)
            (merge_members-Same call (one_atom token) _ _ _ agrees (ap (add token) same))
    ]

    host_Same :
        Same
          (expand_host language model aliases call token t)
          (expand_host language model aliases call token t')
    unfolding expand_host
    host_Same =
        let target = cidr_of (find (λ h. eq_text h.name token) model.hosts) in
        elim (Bool-cases (is_empty target)) [
          | inl nothing ↦ rw nothing (refl, same)
          | inr given ↦
              rw given (merge_members-Same call empty_expansion (target ∷ []) t t' agrees same)
        ]

    cidr_Same :
        Same
          (some (expand_cidr language model aliases token t))
          (some (expand_cidr language model aliases token t'))
    unfolding expand_cidr
    cidr_Same = elim (Option-cases (parse_ipv4_range token)) [
      | inl bad ↦ rw (bad, expand_cidr) (refl, same)
      | inr (r, good) ↦ rw (good, expand_cidr) (refl, same)
    ]

    autogroup_Same :
        Same
          (some (expand_autogroup language model aliases token t))
          (some (expand_autogroup language model aliases token t'))
    unfolding expand_autogroup
    autogroup_Same = elim (Bool-cases (eq_text token (lit "autogroup:internet"))) [
      | inl internet ↦ rw internet (refl, same)
      | inr other ↦ rw other (refl, same)
    ]

    kind_Same :
        (k : TokenKind)
        → Same
            (expand_kind language model aliases call k token t)
            (expand_kind language model aliases call k token t')
    unfolding expand_kind
    kind_Same wildcard = (refl, same)
    kind_Same group = group_Same
    kind_Same tag = (refl, same)
    kind_Same host = host_Same
    kind_Same cidr = cidr_Same
    kind_Same autogroup = autogroup_Same
    kind_Same user = (refl, same)
    kind_Same literal = (refl, same)

  -- Which notes stand in the trace makes no difference to the expansion of a selector.
  pub expand-Same :
      (depth : ℕ) (token : Text) (t t' : Trace)
      → t.seen ≡ t'.seen
      → Same
          (expand language model aliases depth token t)
          (expand language model aliases depth token t')
  unfolding expand
  expand-Same zero token t t' same = tt
  expand-Same (suc depth) token t t' same = elim (Bool-cases (is_empty token)) [
    | inl nothing ↦ rw nothing (refl, same)
    | inr given ↦ rw given (
        kind_Same (expand language model aliases depth) (expand-Same depth) token t t' same
          (classify_token token aliases))
  ]
