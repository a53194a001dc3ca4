-- ===== src/Policy/Eval/Ranges.antt =====
-- src/lib/policy/eval.ts: the ranges of an expansion are ranges that `parseIpv4Range` read.
use headtower.Prelude.{
  ℕ, zero, suc, ◌≡◌, refl, inl, inr, Option, none, some, List, [], ◌∷◌, Text, has, All, All-append,
  Bool-cases, Option-cases, eq_text, lit, is_empty, find,
}
use headtower.Language.{Language}
use headtower.Policy.Tokens.{
  TokenKind, wildcard, group, tag, autogroup, host, cidr, user, literal, classify_token,
  parse_ipv4_range,
}
use headtower.Policy.Tokens.Ipv4.{IsRange, parse_ipv4_range-IsRange}
use headtower.Policy.Model.{PolicyModel}
use headtower.Policy.Eval.Expand.{
  Expansion, merge, Trace, Expand, merge_members, cidr_of, one_atom, empty_expansion, expand_group,
  expand_host, expand_cidr, expand_autogroup, expand_kind, expand,
}

abbrev pub HasRanges : Option (Expansion × Trace) → Type 0
HasRanges none = Unit
HasRanges (some (e, t)) = All IsRange e.nets

abbrev Ranged : Expand → Type 0
Ranged call = (token : Text) (t : Trace) → HasRanges (call token t)

merge_members-HasRanges :
    (call : Expand) (out : Expansion) (ms : List Text) (t : Trace)
    → Ranged call
    → All IsRange out.nets
    → HasRanges (merge_members call out ms t)
unfolding merge_members merge
merge_members-HasRanges call out [] t ranged h = h
merge_members-HasRanges call out (m ∷ ms) t ranged h =
    go (call m t) refl (ranged m t) (λ out u k. merge_members-HasRanges call out ms u ranged k)
  where
    go :
        (r : Option (Expansion × Trace))
        → call m t ≡ r
        → HasRanges r
        → ((out : Expansion) (u : Trace)
            → All IsRange out.nets
            → HasRanges (merge_members call out ms u))
        → HasRanges (merge_members call out (m ∷ ms) t)
    go none p k rest = rw (p, merge_members) tt
    go (some (e, u)) p k rest =
        rw (p, merge_members) (rest (merge out e) u (All-append IsRange out.nets e.nets h k))

module _ (language : Language) (model : PolicyModel) (aliases : List Text) where
  module _ (call : Expand) (ranged : Ranged call) (token : Text) (t : Trace) where
    group_HasRanges : HasRanges (expand_group language model aliases call token t)
    unfolding expand_group
    group_HasRanges = elim (Bool-cases (has token t.seen)) [
      | inl old ↦ rw old tt
      | inr new ↦ rw new (merge_members-HasRanges call (one_atom token) _ _ ranged tt)
    ]

    host_HasRanges : HasRanges (expand_host language model aliases call token t)
    unfolding expand_host
    host_HasRanges =
        let target = cidr_of (find (λ h. eq_text h.name token) model.hosts) in
        elim (Bool-cases (is_empty target)) [
          | inl nothing ↦ rw nothing tt
          | inr given ↦
              rw given (merge_members-HasRanges call empty_expansion (target ∷ []) t ranged tt)
        ]

    cidr_HasRanges : HasRanges (some (expand_cidr language model aliases token t))
    unfolding expand_cidr
    cidr_HasRanges = elim (Option-cases (parse_ipv4_range token)) [
      | inl bad ↦ rw (bad, expand_cidr) tt
      | inr (r, good) ↦ rw (good, expand_cidr) (parse_ipv4_range-IsRange token r good, tt)
    ]

    autogroup_HasRanges : HasRanges (some (expand_autogroup language model aliases token t))
    unfolding expand_autogroup
    autogroup_HasRanges = elim (Bool-cases (eq_text token (lit "autogroup:internet"))) [
      | inl internet ↦ rw internet tt
      | inr other ↦ rw other tt
    ]

    kind_HasRanges : (k : TokenKind) → HasRanges (expand_kind language model aliases call k token t)
    unfolding expand_kind
    kind_HasRanges wildcard = tt
    kind_HasRanges group = group_HasRanges
    kind_HasRanges tag = tt
    kind_HasRanges host = host_HasRanges
    kind_HasRanges cidr = cidr_HasRanges
    kind_HasRanges autogroup = autogroup_HasRanges
    kind_HasRanges user = tt
    kind_HasRanges literal = tt

  pub expand-HasRanges :
      (depth : ℕ) (token : Text) (t : Trace)
      → HasRanges (expand language model aliases depth token t)
  unfolding expand
  expand-HasRanges zero token t = tt
  expand-HasRanges (suc depth) token t = elim (Bool-cases (is_empty token)) [
    | inl nothing ↦ rw nothing tt
    | inr given ↦ rw given (
        kind_HasRanges (expand language model aliases depth) (expand-HasRanges depth) token t
          (classify_token token aliases))
  ]
