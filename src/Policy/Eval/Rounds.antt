-- ===== src/Policy/Eval/Rounds.antt =====
-- src/lib/policy/eval.ts: what the rounds of its loops return, and the whole.
use headtower.Prelude.{
  ℕ, suc, ◌≡◌, refl, inl, inr, false, not, Option, none, some, List, [], ◌∷◌, Text, find,
  Bool-cases, Option-cases, eq_text, lit, is_empty, add, trim, ◌||◌,
}
use mathlib.Core.Option
use headtower.Language.{Language}
use headtower.Policy.Model.{AclRule, GrantEntry, PolicyModel}
use headtower.Policy.Eval.Proto.{proto_ok}
use headtower.Policy.Eval.Query.{Asked, EvalQuery, EvalMatch, allow, deny, M, pure, no_reach}
use headtower.Policy.Eval.Evaluate.{
  note_proto, note_via, expand_fresh, first_covered, first_destination, acl_match, acl_rest,
  acl_covered, grant_ip, grant_rest, grant_covered, try_acl, grant_match, capabilities, first_ip,
  try_grant, first_match, after_grants, after_acls, search_rules, ask, evaluate_reachability,
}
use headtower.Policy.Eval.Spec.{asked_of}
use headtower.Policy.Eval.Answers.{
  first_answer, grant_decision, decision, Suffices, covered, lands, acl_found, acl_answer,
  grant_reached, grant_found, grant_answer, found_acl, found_grant,
}
use headtower.Policy.Eval.Runs.{
  Runs, Runs-pure, Runs-bind, Runs-note_when, Runs-note_proto, expand_fresh-Runs,
  first_covered-Runs, first_destination-Runs,
}

module _ (language : Language) (model : PolicyModel) (depth : ℕ)
    (deep : Suffices language model depth) where
  acl_rest-Runs :
      (asked : Asked) (i : ℕ) (rule : AclRule) (s : Text) (r : Option Text)
      → Runs
          (acl_rest language model depth asked i rule s r)
          (Option.map (acl_match language model depth i rule s) r)
  unfolding acl_rest
  acl_rest-Runs asked i rule s none = Runs-pure none
  acl_rest-Runs asked i rule s (some d) =
      Runs-bind (note_proto language model depth _ asked.proto _) _
        (Runs-note_proto language model depth _ asked.proto _)
        (Runs-pure (some (acl_match language model depth i rule s d)))

  acl_covered-Runs :
      (asked : Asked) (i : ℕ) (rule : AclRule) (r : Option Text)
      → Runs
          (acl_covered language model depth asked i rule r)
          (acl_found language model depth asked i rule r)
  unfolding acl_covered
  acl_covered-Runs asked i rule none = Runs-pure none
  acl_covered-Runs asked i rule (some s) = elim (Bool-cases (proto_ok language rule asked.proto)) [
    | inr other ↦ rw other (Runs-pure none)
    | inl fits ↦ rw fits (
        Runs-bind (first_destination language model depth asked rule.dst) _
          (first_destination-Runs language model depth deep asked rule.dst)
          (acl_rest-Runs asked i rule s (find (lands language model depth asked) rule.dst)))
  ]

  try_acl-Runs :
      (asked : Asked) (i : ℕ) (rule : AclRule)
      → Runs
          (try_acl language model depth asked i rule)
          (acl_answer language model depth asked i rule)
  unfolding try_acl
  try_acl-Runs asked i rule = elim (Bool-cases (eq_text rule.action (lit "accept"))) [
    | inr other ↦ rw other (Runs-pure none)
    | inl accepts ↦ rw accepts (
        Runs-bind (first_covered language model depth asked.src rule.src) _
          (first_covered-Runs language model depth deep asked.src rule.src)
          (acl_covered-Runs asked i rule (find (covered language model depth asked.src) rule.src)))
  ]

  grant_ip-Runs :
      (asked : Asked) (i : ℕ) (grant : GrantEntry) (s d : Text) (r : Option Text)
      → Runs
          (grant_ip language model depth asked i grant s d r)
          (Option.map (grant_match language model depth i grant s d) r)
  unfolding grant_ip
  grant_ip-Runs asked i grant s d none = Runs-pure none
  grant_ip-Runs asked i grant s d (some entry) =
      Runs-bind (note_proto language model depth _ asked.proto _) _
        (Runs-note_proto language model depth _ asked.proto _)
        (Runs-bind (note_via language model depth grant)
          (λ _. pure (some (grant_match language model depth i grant s d entry)))
          (Runs-note_when (not (is_empty grant.via)) _)
          (Runs-pure (some (grant_match language model depth i grant s d entry))))

  grant_rest-Runs :
      (asked : Asked) (i : ℕ) (grant : GrantEntry) (s : Text) (r : Option Text)
      → Runs
          (grant_rest language model depth asked i grant s r)
          (grant_reached language model depth asked i grant s r)
  unfolding grant_rest
  grant_rest-Runs asked i grant s none = Runs-pure none
  grant_rest-Runs asked i grant s (some d) = elim (Bool-cases (is_empty grant.ip)) [
    | inl nothing ↦
        rw nothing
          (λ notes. (add (no_reach i (capabilities language model depth grant)) notes, refl))
    | inr given ↦
        rw given (grant_ip-Runs asked i grant s d (first_ip language model depth asked grant.ip))
  ]

  grant_covered-Runs :
      (asked : Asked) (i : ℕ) (grant : GrantEntry) (r : Option Text)
      → Runs
          (grant_covered language model depth asked i grant r)
          (grant_found language model depth asked i grant r)
  unfolding grant_covered
  grant_covered-Runs asked i grant none = Runs-pure none
  grant_covered-Runs asked i grant (some s) =
      Runs-bind (first_covered language model depth asked.dst grant.dst) _
        (first_covered-Runs language model depth deep asked.dst grant.dst)
        (grant_rest-Runs asked i grant s (find (covered language model depth asked.dst) grant.dst))

  try_grant-Runs :
      (asked : Asked) (i : ℕ) (grant : GrantEntry)
      → Runs
          (try_grant language model depth asked i grant)
          (grant_answer language model depth asked i grant)
  unfolding try_grant
  try_grant-Runs asked i grant =
      Runs-bind (first_covered language model depth asked.src grant.src) _
        (first_covered-Runs language model depth deep asked.src grant.src)
        (grant_covered-Runs asked i grant (find (covered language model depth asked.src) grant.src))

  first_match-Runs :
      {R : Type 0} (body : ℕ → R → M (Option EvalMatch)) (answer : ℕ → R → Option EvalMatch)
      → ((i : ℕ) (r : R) → Runs (body i r) (answer i r))
      → (i : ℕ) (rules : List R)
      → Runs (first_match language model depth body i rules) (first_answer answer i rules)
  unfolding first_match
  first_match-Runs body answer each i [] = Runs-pure none
  first_match-Runs body answer each i (r ∷ rules) =
      Runs-bind (body i r) _ (each i r) (elim (Option-cases (answer i r)) [
        | inl missed ↦ rw (missed, first_answer) (first_match-Runs body answer each (suc i) rules)
        | inr (m, found) ↦ rw (found, first_answer) (Runs-pure (some m))
      ])

  after_grants-Runs :
      (r : Option EvalMatch) → Runs (after_grants language model depth r) (grant_decision r)
  unfolding after_grants
  after_grants-Runs none = Runs-pure deny
  after_grants-Runs (some m) = Runs-pure (allow m)

  after_acls-Runs :
      (asked : Asked) (r : Option EvalMatch)
      → Runs
          (after_acls language model depth asked r)
          (decision r (found_grant language model depth asked))
  unfolding after_acls
  after_acls-Runs asked (some m) = Runs-pure (allow m)
  after_acls-Runs asked none =
      Runs-bind
        (first_match language model depth (try_grant language model depth asked) 0 model.grants) _
        (first_match-Runs _ (grant_answer language model depth asked) (try_grant-Runs asked) 0
          model.grants)
        (after_grants-Runs (found_grant language model depth asked))

  search_rules-Runs :
      (asked : Asked)
      → Runs
          (search_rules language model depth asked)
          (decision (found_acl language model depth asked) (found_grant language model depth asked))
  unfolding search_rules
  search_rules-Runs asked =
      Runs-bind (first_match language model depth (try_acl language model depth asked) 0 model.acls)
        _
        (first_match-Runs _ (acl_answer language model depth asked) (try_acl-Runs asked) 0
          model.acls)
        (after_acls-Runs asked (found_acl language model depth asked))

  ask-Runs :
      (query : EvalQuery)
      → Runs (ask language model depth query) (asked_of language model depth query)
  unfolding ask
  ask-Runs query =
      Runs-bind (expand_fresh language model depth query.src) _
        (expand_fresh-Runs language model depth deep query.src)
        (Runs-bind (expand_fresh language model depth query.dst) _
          (expand_fresh-Runs language model depth deep query.dst)
          (Runs-pure (asked_of language model depth query)))

  -- The answer to a question that names both sides, up to its notes.
  pub evaluate-decision :
      (query : EvalQuery)
      → (is_empty (trim query.src) || is_empty (trim query.dst)) ≡ false
      → (notes : List Text) × (evaluate_reachability language model depth query
          ≡ some (record {
            decision =
                decision
                  (found_acl language model depth (asked_of language model depth query))
                  (found_grant language model depth (asked_of language model depth query));
            notes = notes;
          }))
  unfolding evaluate_reachability
  evaluate-decision query h =
      let (notes, e) =
        Runs-bind (ask language model depth query) (search_rules language model depth)
          (ask-Runs query) (search_rules-Runs (asked_of language model depth query)) [] in
      (notes, rw (h, e, evaluate_reachability))
