-- ===== src/Policy/Eval/Answers.antt =====
-- src/lib/policy/eval.ts: what its loops answer, without their notes.
use headtower.Prelude.{
  ◌≢◌, AnyOf, Option-cases, ◌≡◌, inl, inr, ℕ, suc, Bool, not, ◌&&◌, Option, none, some, List, [],
  ◌∷◌, Text, find, if◌then◌else◌, eq_text, lit, is_empty,
}
use mathlib.Core.Option
use headtower.Language.{Language}
use headtower.Policy.Tokens.{split_dst_ports, port_matches}
use headtower.Policy.Model.{AclRule, GrantEntry, PolicyModel}
use headtower.Policy.Eval.Expand.{Expansion, Trace, expand, covers}
use headtower.Policy.Eval.Proto.{proto_ok}
use headtower.Policy.Eval.Query.{Asked, EvalMatch, Decision, allow, deny}
use headtower.Policy.Eval.Evaluate.{aliases, acl_match, grant_match, first_ip}
use headtower.Policy.Eval.Spec.{meaning}

-- The first answer of a list of rules, from an index.
abbrev pub first_answer : {R : Type 0} → (ℕ → R → Option EvalMatch) → ℕ → List R → Option EvalMatch
first_answer answer i [] = none
first_answer answer i (r ∷ rules) = elim (answer i r) [
  | none ↦ first_answer answer (suc i) rules
  | some m ↦ some m
]

-- Some rule has an answer exactly when the loop has one.
pub first_answer-some :
    {R : Type 0} {P : R → Type 0} (answer : ℕ → R → Option EvalMatch)
    → ((i : ℕ) (r : R) (m : EvalMatch) → answer i r ≡ some m → P r)
    → (i : ℕ) (rules : List R) (m : EvalMatch) → first_answer answer i rules ≡ some m
    → AnyOf P rules
first_answer-some answer sound i [] m e = cc
first_answer-some answer sound i (r ∷ rules) m e = elim (Option-cases (answer i r)) [
  | inl missed ↦
      inr (first_answer-some answer sound (suc i) rules m (rw (missed, first_answer) at e))
  | inr (m', found) ↦ inl (sound i r m' found)
]

pub first_answer-none :
    {R : Type 0} {P : R → Type 0} (answer : ℕ → R → Option EvalMatch)
    → ((i : ℕ) (r : R) → P r → answer i r ≢ none)
    → (i : ℕ) (rules : List R) → first_answer answer i rules ≡ none
    → ¬ AnyOf P rules
first_answer-none answer complete i [] e h = h
first_answer-none answer complete i (r ∷ rules) e h = elim (Option-cases (answer i r)) [
  | inl missed ↦ elim h [
    | inl here ↦ complete i r here missed
    | inr there ↦
        first_answer-none answer complete (suc i) rules (rw (missed, first_answer) at e) there
  ]
  | inr (m', found) ↦ cc (rw (found, first_answer) at e)
]

-- An acl that matches decides; else the grants do.
abbrev pub grant_decision : Option EvalMatch → Decision
grant_decision none = deny
grant_decision (some m) = allow m

abbrev pub decision : Option EvalMatch → Option EvalMatch → Decision
decision (some m) g = allow m
decision none g = grant_decision g

module _ (language : Language) (model : PolicyModel) (depth : ℕ) where
  -- The stack is deep enough for every selector.
  abbrev pub Suffices : Type 0
  Suffices =
      (token : Text) (t : Trace)
      → (e : Expansion) × (t' : Trace) × (expand language model (aliases language model depth) depth
            token t
          ≡ some (e, t'))

  -- The pure counterparts of the loops: `find` with the meaning of each entry.
  abbrev pub covered : Expansion → Text → Bool
  covered q entry = covers q (meaning language model depth entry)

  abbrev pub lands : Asked → Text → Bool
  lands asked entry =
      covered asked.dst (split_dst_ports entry).host
      && port_matches language.number (split_dst_ports entry).ports asked.port

  -- What one round of each loop finds.
  abbrev pub acl_found : Asked → ℕ → AclRule → Option Text → Option EvalMatch
  acl_found asked i rule none = none
  acl_found asked i rule (some s) =
      if not (proto_ok language rule asked.proto)
      then none
      else Option.map (acl_match language model depth i rule s) (find (lands asked) rule.dst)

  abbrev pub acl_answer : Asked → ℕ → AclRule → Option EvalMatch
  acl_answer asked i rule =
      if not (eq_text rule.action (lit "accept"))
      then none
      else acl_found asked i rule (find (covered asked.src) rule.src)

  abbrev pub grant_reached : Asked → ℕ → GrantEntry → Text → Option Text → Option EvalMatch
  grant_reached asked i grant s none = none
  grant_reached asked i grant s (some d) =
      if is_empty grant.ip
      then none
      else Option.map (grant_match language model depth i grant s d)
          (first_ip language model depth asked grant.ip)

  abbrev pub grant_found : Asked → ℕ → GrantEntry → Option Text → Option EvalMatch
  grant_found asked i grant none = none
  grant_found asked i grant (some s) =
      grant_reached asked i grant s (find (covered asked.dst) grant.dst)

  abbrev pub grant_answer : Asked → ℕ → GrantEntry → Option EvalMatch
  grant_answer asked i grant = grant_found asked i grant (find (covered asked.src) grant.src)

  abbrev pub found_acl : Asked → Option EvalMatch
  found_acl asked = first_answer (acl_answer asked) 0 model.acls

  abbrev pub found_grant : Asked → Option EvalMatch
  found_grant asked = first_answer (grant_answer asked) 0 model.grants
