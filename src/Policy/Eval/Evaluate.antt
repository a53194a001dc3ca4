-- ===== src/Policy/Eval/Evaluate.antt =====
-- src/lib/policy/eval.ts: the loops over acls and grants.
use headtower.Prelude.{
  ℕ, suc, not, ◌&&◌, ◌||◌, Option, none, some, List, [], ◌∷◌, ◌++◌, map, Text, lit, eq_text,
  if◌then◌else◌, find, keep, is_empty, trim,
}
use headtower.Json.{keys}
use headtower.Language.{Language}
use headtower.Policy.Tokens.{split_dst_ports, port_matches}
use headtower.Policy.Model.{AclRule, GrantEntry, HostEntry, PolicyModel}
use headtower.Policy.Eval.Expand.{Expansion, expand, covers}
use headtower.Policy.Eval.Proto.{
  Proto, normalize_text, normalize_proto, raw_proto, proto_ok, proto_text, split_ip_entry,
  ip_entry_allows,
}
use headtower.Policy.Eval.Query.{
  EvalQuery, acls, grants, EvalMatch, Decision, allow, deny, EvalResult, M, ◌>>=◌, ◌>>◌, pure,
  add_note, note_when, Asked, commas, no_reach, pick_both,
}

module _ (language : Language) (model : PolicyModel) (depth : ℕ) where
  -- `new Set(model.hosts.map((h) => h.name).filter(Boolean))`
  abbrev pub aliases : List Text
  aliases = keep (λ n. not (is_empty n)) (map (λ (h : HostEntry). h.name) model.hosts)

  -- `expand(entry, model, hostAliases, notes, new Set())`
  unfoldable pub expand_fresh : Text → M Expansion
  expand_fresh token notes =
      elim (expand language model aliases depth token (record { notes = notes; seen = [] })) [
        | none ↦ none
        | some (e, t) ↦ some (e, t.notes)
      ]

  -- The loop over `src`, and over the `dst` of a grant.
  unfoldable pub first_covered : Expansion → List Text → M (Option Text)
  first_covered query [] = pure none
  first_covered query (entry ∷ entries) =
      let rest = first_covered query entries in
      expand_fresh entry >>= λ exp. if covers query exp then pure (some entry) else rest

  -- The loop over the `dst` of an acl rule.
  unfoldable pub first_destination : Asked → List Text → M (Option Text)
  first_destination asked [] = pure none
  first_destination asked (entry ∷ entries) =
      let rest = first_destination asked entries in
      let parts = split_dst_ports entry in
      expand_fresh parts.host >>= λ exp.
      if covers asked.dst exp && port_matches language.number parts.ports asked.port
      then pure (some entry)
      else rest

  abbrev pub acl_match : ℕ → AclRule → Text → Text → EvalMatch
  acl_match i rule s d = record {
    section = acls;
    rule_index = i;
    src = rule.src;
    dst = rule.dst;
    matched_src = s;
    matched_dst = d;
    matched_ip = none;
  }

  abbrev pub note_proto : Text → Option Proto → Option Proto → M (Unit {0})
  note_proto prefix none found = elim found [
    | none ↦ pure tt
    | some p ↦ add_note (prefix ++ proto_text language p ++ lit ".")
  ]
  note_proto prefix (some w) found = pure tt

  -- The round of the loop over the acls, behind its loop over `dst`, behind its loop over `src`, and
  -- whole. `none` is `continue`.
  unfoldable pub acl_rest : Asked → ℕ → AclRule → Text → Option Text → M (Option EvalMatch)
  acl_rest asked i rule matched_src none = pure none
  acl_rest asked i rule matched_src (some matched_dst) = do
    note_proto (lit "This rule applies only to proto ") asked.proto
        (normalize_proto language (raw_proto language rule))
    pure (some (acl_match i rule matched_src matched_dst))

  unfoldable pub acl_covered : Asked → ℕ → AclRule → Option Text → M (Option EvalMatch)
  acl_covered asked i rule none = pure none
  acl_covered asked i rule (some matched_src) =
      if not (proto_ok language rule asked.proto)
      then pure none
      else first_destination asked rule.dst >>= acl_rest asked i rule matched_src

  unfoldable pub try_acl : Asked → ℕ → AclRule → M (Option EvalMatch)
  try_acl asked i rule =
      if not (eq_text rule.action (lit "accept"))
      then pure none
      else first_covered asked.src rule.src >>= acl_covered asked i rule

  abbrev pub grant_match : ℕ → GrantEntry → Text → Text → Text → EvalMatch
  grant_match i grant s d entry = record {
    section = grants;
    rule_index = i;
    src = grant.src;
    dst = grant.dst;
    matched_src = s;
    matched_dst = d;
    matched_ip = some entry;
  }

  abbrev pub capabilities : GrantEntry → List Text
  capabilities grant = elim grant.app [ none ↦ [] | some app ↦ keys app ]

  -- The first `ip` entry that admits the question.
  abbrev pub first_ip : Asked → List Text → Option Text
  first_ip asked = find (λ entry. ip_entry_allows language entry asked.port asked.proto)

  abbrev pub note_via : GrantEntry → M (Unit {0})
  note_via grant =
      note_when (not (is_empty grant.via))
        (lit "This grant routes via " ++ commas grant.via ++ lit ".")

  -- The round of the loop over the grants, in the same parts.
  unfoldable pub grant_ip :
      Asked → ℕ → GrantEntry → Text → Text → Option Text → M (Option EvalMatch)
  grant_ip asked i grant matched_src matched_dst none = pure none
  grant_ip asked i grant matched_src matched_dst (some entry) = do
    note_proto (lit "This grant applies only to proto ") asked.proto
        (split_ip_entry language entry).proto
    note_via grant
    pure (some (grant_match i grant matched_src matched_dst entry))

  unfoldable pub grant_rest : Asked → ℕ → GrantEntry → Text → Option Text → M (Option EvalMatch)
  grant_rest asked i grant matched_src none = pure none
  grant_rest asked i grant matched_src (some matched_dst) =
      if is_empty grant.ip
      then (do add_note (no_reach i (capabilities grant)); pure none)
      else grant_ip asked i grant matched_src matched_dst (first_ip asked grant.ip)

  unfoldable pub grant_covered : Asked → ℕ → GrantEntry → Option Text → M (Option EvalMatch)
  grant_covered asked i grant none = pure none
  grant_covered asked i grant (some matched_src) =
      first_covered asked.dst grant.dst >>= grant_rest asked i grant matched_src

  unfoldable pub try_grant : Asked → ℕ → GrantEntry → M (Option EvalMatch)
  try_grant asked i grant = first_covered asked.src grant.src >>= grant_covered asked i grant

  -- A loop that returns at the first match.
  unfoldable pub first_match :
      {R : Type 0} → (ℕ → R → M (Option EvalMatch)) → ℕ → List R → M (Option EvalMatch)
  first_match body i [] = pure none
  first_match body i (rule ∷ rules) =
      let rest = first_match body (suc i) rules in
      body i rule >>= λ found. elim found [ none ↦ rest | some m ↦ pure (some m) ]

  unfoldable pub after_grants : Option EvalMatch → M Decision
  after_grants none = pure deny
  after_grants (some m) = pure (allow m)

  unfoldable pub after_acls : Asked → Option EvalMatch → M Decision
  after_acls asked none = first_match (try_grant asked) 0 model.grants >>= after_grants
  after_acls asked (some m) = pure (allow m)

  unfoldable pub search_rules : Asked → M Decision
  search_rules asked = first_match (try_acl asked) 0 model.acls >>= after_acls asked

  unfoldable pub ask : EvalQuery → M Asked
  ask query = do
    src ← expand_fresh query.src
    dst ← expand_fresh query.dst
    pure (record {
      src = src;
      dst = dst;
      port = query.port;
      proto = normalize_text language query.protocol;
    })

  -- `evaluateReachability`
  unfoldable pub evaluate_reachability : EvalQuery → Option EvalResult
  evaluate_reachability query =
      let run = ask query >>= search_rules in
      if is_empty (trim query.src) || is_empty (trim query.dst)
      then some (record { decision = deny; notes = pick_both })
      else elim (run []) [
        | none ↦ none
        | some (d, notes) ↦ some (record { decision = d; notes = notes })
      ]
