-- ===== src/Policy/Eval/Total.antt =====
-- src/lib/policy/eval.ts: the expansion of a selector ends, whatever the groups refer to, where no
-- host alias stands for another alias.
use headtower.Prelude.{
  ℕ, zero, suc, ◌+◌, ◌*◌, ◌-◌, ◌≤◌, ◌<◌, ◌≡◌, ◌≢◌, refl, ◌⊎◌, inl, inr, true, false, not, Option,
  some, List, [], ◌∷◌, Text, arith, eq_text, eq_text_iff, has, has-add, add, find, keep, is_empty,
  length, length-keep-le, Bool-cases, Option-cases, lit,
}
use mathlib.Core.Bool.{or-true}
use headtower.Language.{Language}
use headtower.Policy.Tokens.{
  TokenKind, wildcard, group, tag, autogroup, host, cidr, user, literal, classify_token,
  parse_ipv4_range,
}
use headtower.Policy.Model.{NamedList, PolicyModel}
use headtower.Policy.Eval.Expand.{
  Expansion, empty_expansion, merge, Trace, Expand, merge_members, values_of, cidr_of, one_atom,
  expand_group, expand_host, expand_cidr, expand_autogroup, expand_kind, expand,
}

-- Declared groups that the walk has not entered.
abbrev pub unseen : List Text → List NamedList → ℕ
unseen seen groups = length (keep (λ g. not (has g.name seen)) groups)

abbrev Grows : List Text → List Text → Type 0
Grows s s' = (x : Text) → has x s ≡ true → has x s' ≡ true

unseen_mono : (s s' : List Text) (gs : List NamedList) → Grows s s' → unseen s' gs ≤ unseen s gs
unseen_mono s s' [] h = omega arith
unseen_mono s s' (g ∷ gs) h = ground (arith, unseen_mono s s' gs h, h g.name)

add-Grows : (token : Text) (s : List Text) → Grows s (add token s)
add-Grows token s x h = rw (has-add x token s, h) (or-true _)

-- Entering a declared group for the first time leaves fewer.
unseen-add :
    (token : Text) (s : List Text) (gs : List NamedList) (g : NamedList)
    → has token s ≡ false
    → find (λ g'. eq_text g'.name token) gs ≡ some g
    → unseen (add token s) gs < unseen s gs
unseen-add token s [] g new e = cc
unseen-add token s (g' ∷ gs) g new e = elim (Bool-cases (eq_text g'.name token)) [
  | inl hit ↦
      let same = (eq_text_iff g'.name token).0 hit in
      ground (arith, has-add g'.name token s, unseen_mono s (add token s) gs (add-Grows token s))
  | inr miss ↦ ground (arith, has-add g'.name token s, unseen-add token s gs g new)
]

-- The walk ends, and enters no group again.
abbrev Ends : Trace → Option (Expansion × Trace) → Type 0
Ends t r = (e : Expansion) × (t' : Trace) × (r ≡ some (e, t')) × Grows t.seen t'.seen

Ends-here : (t : Trace) (e : Expansion) (t' : Trace) → t'.seen ≡ t.seen → Ends t (some (e, t'))
Ends-here t e t' same = (e, t', refl, λ x h. rw same h)

merge_members-Ends :
    (gs : List NamedList) (call : Expand) (u : ℕ) (out : Expansion) (ms : List Text) (t : Trace)
    → unseen t.seen gs ≤ u
    → ((token : Text) (t : Trace) → unseen t.seen gs ≤ u → Ends t (call token t))
    → Ends t (merge_members call out ms t)
unfolding merge_members
merge_members-Ends gs call u out [] t h step = Ends-here t out t refl
merge_members-Ends gs call u out (m ∷ ms) t h step =
    let (e, t', now, grown) = step m t h in
    let less = unseen_mono t.seen t'.seen gs grown in
    let (e', t'', later, more) =
      merge_members-Ends gs call u (merge out e) ms t' (omega arith) step in
    (e', t'', rw (now, merge_members) later, λ x held. more x (grown x held))

module _ (language : Language) (model : PolicyModel) (aliases : List Text) where
  -- What a host alias stands for is no host alias: `b` in `{"a": "b", "b": "10.0.0.1"}` is one.
  abbrev pub HostsResolve : Type 0
  HostsResolve =
      (name : Text)
      → classify_token (cidr_of (find (λ h. eq_text h.name name) model.hosts)) aliases ≢ host

  -- Stack enough for a token with `u` groups not entered: two calls a group, and one more for an
  -- alias.
  abbrev Deep : ℕ → ℕ → Text → Type 0
  Deep depth u token =
      ((classify_token token aliases ≢ host) × (u + u + 1 ≤ depth)) ⊎ (u + u + 2 ≤ depth)

  module _ (call : Expand) (u : ℕ) (token : Text) (t : Trace)
      (few : unseen t.seen model.groups ≤ u) where
    group_Ends :
        ((v : ℕ)
          → v < u
          → (token : Text) (t : Trace) → unseen t.seen model.groups ≤ v
          → Ends t (call token t))
        → Ends t (expand_group language model aliases call token t)
    unfolding expand_group merge_members
    group_Ends step = elim (Bool-cases (has token t.seen)) [
      | inl old ↦ rw old (Ends-here t (one_atom token) t refl)
      | inr new ↦ elim (Option-cases (find (λ g. eq_text g.name token) model.groups)) [
        | inl undeclared ↦
            rw (new, undeclared)
              (one_atom token, record t { seen = add token t.seen }, refl, add-Grows token t.seen)
        | inr (g, declared) ↦
            let inside = record t { seen = add token t.seen } in
            let less = unseen-add token t.seen model.groups g new declared in
            let (e, t', now, grown) =
              merge_members-Ends model.groups call (u - 1) (one_atom token)
                (values_of (find (λ g. eq_text g.name token) model.groups)) inside (omega arith)
                (step (u - 1) (omega arith)) in
            rw new (e, t', now, λ x held. grown x (add-Grows token t.seen x held))
      ]
    ]

    host_Ends :
        ((target : Text)
          → target ≡ cidr_of (find (λ h. eq_text h.name token) model.hosts)
          → Ends t (call target t))
        → Ends t (expand_host language model aliases call token t)
    unfolding expand_host merge_members
    host_Ends step =
        let target = cidr_of (find (λ h. eq_text h.name token) model.hosts) in
        let (e, t', now, grown) = step target refl in
        elim (Bool-cases (is_empty target)) [
          | inl nothing ↦ rw nothing (Ends-here t empty_expansion t refl)
          | inr given ↦ rw (given, now, merge_members) (merge empty_expansion e, t', refl, grown)
        ]

    cidr_Ends : Ends t (some (expand_cidr language model aliases token t))
    unfolding expand_cidr
    cidr_Ends = elim (Option-cases (parse_ipv4_range token)) [
      | inl bad ↦ rw (bad, expand_cidr) (Ends-here t _ _ refl)
      | inr (r, good) ↦ rw (good, expand_cidr) (Ends-here t _ _ refl)
    ]

    autogroup_Ends : Ends t (some (expand_autogroup language model aliases token t))
    unfolding expand_autogroup
    autogroup_Ends = elim (Bool-cases (eq_text token (lit "autogroup:internet"))) [
      | inl internet ↦ rw internet (Ends-here t _ _ refl)
      | inr other ↦ rw other (Ends-here t _ _ refl)
    ]

  kind_Ends :
      (resolve : HostsResolve) (call : Expand) (depth u : ℕ) (token : Text) (t : Trace)
      (k : TokenKind)
      → classify_token token aliases ≡ k
      → unseen t.seen model.groups ≤ u
      → Deep (suc depth) u token
      → ((v : ℕ) (token : Text) (t : Trace)
          → unseen t.seen model.groups ≤ v
          → Deep depth v token
          → Ends t (call token t))
      → Ends t (expand_kind language model aliases call k token t)
  unfolding expand_kind
  kind_Ends resolve call depth u token t wildcard e few deep step = Ends-here t _ t refl
  kind_Ends resolve call depth u token t group e few deep step =
      group_Ends call u token t few
        (λ v less token' t' few'. step v token' t' few' (inr (omega arith)))
  kind_Ends resolve call depth u token t tag e few deep step = Ends-here t _ t refl
  kind_Ends resolve call depth u token t host e few deep step =
      host_Ends call u token t few
        (λ target same. step u target t few (inl (rw same (resolve token), host_room deep)))
    where
      host_room : Deep (suc depth) u token → u + u + 1 ≤ depth
      host_room (inl (other, room)) = absurd (other e)
      host_room (inr room) = omega arith
  kind_Ends resolve call depth u token t cidr e few deep step = cidr_Ends call u token t few
  kind_Ends resolve call depth u token t autogroup e few deep step =
      autogroup_Ends call u token t few
  kind_Ends resolve call depth u token t user e few deep step = Ends-here t _ t refl
  kind_Ends resolve call depth u token t literal e few deep step = Ends-here t _ t refl

  expand-Ends :
      (resolve : HostsResolve) (depth u : ℕ) (token : Text) (t : Trace)
      → unseen t.seen model.groups ≤ u
      → Deep depth u token
      → Ends t (expand language model aliases depth token t)
  unfolding expand
  expand-Ends resolve zero u token t few deep = absurd (omega arith)
  expand-Ends resolve (suc depth) u token t few deep = elim (Bool-cases (is_empty token)) [
    | inl nothing ↦ rw nothing (Ends-here t empty_expansion t refl)
    | inr given ↦ rw given (
        kind_Ends resolve (expand language model aliases depth) depth u token t
          (classify_token token aliases) refl few deep (expand-Ends resolve depth))
  ]

  -- Where no host alias stands for another alias or for itself, expanding a selector ends within
  -- two calls for each declared group and two more, also where groups refer to each other in a
  -- cycle.
  pub expand_total :
      HostsResolve
      → (token : Text) (t : Trace)
      → (e : Expansion) × (t' : Trace) × (expand language model aliases
            (2 * length model.groups + 2)
            token
            t
          ≡ some (e, t'))
  expand_total resolve token t =
      let (e, t', now, grown) =
        expand-Ends resolve (2 * length model.groups + 2) (length model.groups) token t
          (length-keep-le _ model.groups) (inr (omega arith)) in
      (e, t', now)
