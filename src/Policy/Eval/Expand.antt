-- ===== src/Policy/Eval/Expand.antt =====
-- src/lib/policy/eval.ts: the expansion of a selector into atoms and address ranges.
use headtower.Prelude.{
  ℕ, zero, suc, Bool, true, false, ◌||◌, Option, none, some, List, [], ◌∷◌, ◌++◌, Text, lit,
  eq_text, has, add, add_all, if◌then◌else◌, any, find, is_empty,
}
use headtower.Language.{Language}
use headtower.Policy.Tokens.{
  TokenKind, wildcard, group, tag, autogroup, host, cidr, user, literal, classify_token, Ipv4Range,
  parse_ipv4_range, ipv4_ranges_overlap,
}
use headtower.Policy.Model.{NamedList, HostEntry, PolicyModel}

-- `Expansion`
pub record Expansion : Type 0 where
  pub wildcard : Bool
  pub atoms : List Text
  pub nets : List Ipv4Range

abbrev pub empty_expansion : Expansion
empty_expansion = record { wildcard = false; atoms = []; nets = [] }

-- `merge`
unfoldable pub merge : Expansion → Expansion → Expansion
merge into from = record {
  wildcard = from.wildcard || into.wildcard;
  atoms = add_all from.atoms into.atoms;
  nets = into.nets ++ from.nets;
}

-- The two sets that an expansion adds to.
pub record Trace : Type 0 where
  pub notes : List Text
  pub seen : List Text

-- `none` is a call that ran out of stack.
abbrev pub Expand : Type 0
Expand = Text → Trace → Option (Expansion × Trace)

abbrev pub note : Text → Trace → Trace
note text t = record t { notes = add text t.notes }

-- Merging the expansions of the members in turn.
unfoldable pub merge_members : Expand → Expansion → List Text → Trace → Option (Expansion × Trace)
merge_members call out [] t = some (out, t)
merge_members call out (member ∷ members) t = elim (call member t) [
  | none ↦ none
  | some (from, t') ↦ merge_members call (merge out from) members t'
]

abbrev pub values_of : Option NamedList → List Text
values_of none = []
values_of (some g) = g.values

abbrev pub cidr_of : Option HostEntry → Text
cidr_of none = []
cidr_of (some h) = h.cidr

abbrev pub one_atom : Text → Expansion
one_atom atom = record empty_expansion { atoms = atom ∷ [] }

module _ (language : Language) (model : PolicyModel) (host_aliases : List Text) where
  -- `case "group"`
  unfoldable pub expand_group : Expand → Text → Trace → Option (Expansion × Trace)
  expand_group call token t =
      let deeper =
        merge_members call (one_atom token)
          (values_of (find (λ g. eq_text g.name token) model.groups))
          (record t { seen = add token t.seen }) in
      if has token t.seen then some (one_atom token, t) else deeper

  -- `case "host"`
  unfoldable pub expand_host : Expand → Text → Trace → Option (Expansion × Trace)
  expand_host call token t =
      let target = cidr_of (find (λ h. eq_text h.name token) model.hosts) in
      let deeper = merge_members call empty_expansion (target ∷ []) t in
      if is_empty target then some (empty_expansion, t) else deeper

  -- `case "cidr"`
  unfoldable pub expand_cidr : Text → Trace → Expansion × Trace
  expand_cidr token t = elim (parse_ipv4_range token) [
    | some range ↦ (record empty_expansion { nets = range ∷ [] }, t)
    | none ↦ (
      one_atom (lit "lit:" ++ token),
      note (lit "IPv6 range \"" ++ token ++ lit "\" is matched only by exact text.") t,
    )
  ]

  -- `case "autogroup"`
  unfoldable pub expand_autogroup : Text → Trace → Expansion × Trace
  expand_autogroup token t =
      if eq_text token (lit "autogroup:internet")
      then (
        one_atom token,
        note
            (lit
              "autogroup:internet is matched only against autogroup:internet, not against concrete public IPs.")
            t,
      )
      else (empty_expansion, note (token ++ lit " is not evaluated; results may be incomplete.") t)

  unfoldable pub expand_kind : Expand → TokenKind → Text → Trace → Option (Expansion × Trace)
  unfolding expand_group expand_host expand_cidr expand_autogroup
  expand_kind call wildcard token t = some (record empty_expansion { wildcard = true }, t)
  expand_kind call group token t = expand_group call token t
  expand_kind call tag token t = some (one_atom token, t)
  expand_kind call host token t = expand_host call token t
  expand_kind call cidr token t = some (expand_cidr token t)
  expand_kind call autogroup token t = some (expand_autogroup token t)
  expand_kind call user token t = some (one_atom (lit "u:" ++ language.lower token), t)
  expand_kind call literal token t = some (one_atom (lit "lit:" ++ token), t)

  -- `expand`: the fuel is the depth of the call stack.
  unfoldable pub expand : ℕ → Expand
  unfolding expand_kind
  expand zero token t = none
  expand (suc depth) token t =
      let call = expand depth in
      if is_empty token
      then some (empty_expansion, t)
      else expand_kind call (classify_token token host_aliases) token t

-- `covers`
unfoldable pub covers : Expansion → Expansion → Bool
covers query entry =
    (query.wildcard || entry.wildcard)
    || any (λ a. has a entry.atoms) query.atoms
    || any (λ qn. any (ipv4_ranges_overlap qn) entry.nets) query.nets
