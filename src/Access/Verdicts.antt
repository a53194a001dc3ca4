-- ===== src/Access/Verdicts.antt =====
-- src/app/(app)/access/actions.ts: what the deltas of a reachability test say.
use headtower.Prelude.{
  ◌≡◌, refl, ◌↔◌, true, false, Option, none, some, Text, eq_text, eq_text_self, Bool-cases, inl,
  inr, is_empty, trim, ◌||◌, ◌⊎◌,
}
use headtower.Json.{Json}
use headtower.Language.{Language}
use headtower.Rbac.{acls_read}
use headtower.Authz.{Session, Gate, unauthenticated, denied, granted, authorize}
use headtower.Policy.Model.{PolicyModel}
use headtower.Policy.Document.{parse_policy}
use headtower.Policy.Eval.Query.{EvalQuery, EvalResult, Decision, allow, deny}
use headtower.Policy.Eval.Evaluate.{aliases}
use headtower.Policy.Eval.Total.{HostsResolve}
use headtower.Policy.Eval.Spec.{Reachable, IsAllow}
use headtower.Policy.Eval.Decide.{evaluate-Reachable}
use headtower.Access.{
  Delta, same, newly_allow, newly_deny, Request, success, delta_of, query_of, call_depth,
  evaluate_at, with_edited, with_parsed, with_saved, with_model, when_gated, test_reachability,
}

-- What a delta says of the two policies.
abbrev pub Says : Delta → Type 0 → Type 0 → Type 0
Says same saved edited = saved ↔ edited
Says newly_allow saved edited = ¬ saved × edited
Says newly_deny saved edited = saved × ¬ edited

delta_of-Says :
    (d e : Decision) (P Q : Type 0) → (IsAllow d ↔ P) → (IsAllow e ↔ Q) → Says (delta_of d e) P Q
unfolding delta_of
delta_of-Says (allow m) (allow n) P Q p q = ((λ h. q.0 tt), λ h. p.0 tt)
delta_of-Says deny deny P Q p q = ((λ h. absurd (p.1 h)), λ h. absurd (q.1 h))
delta_of-Says deny (allow n) P Q p q = (p.1, q.0 tt)
delta_of-Says (allow m) deny P Q p q = (p.0 tt, q.1)

module _ (language : Language) where
  -- The host aliases of a policy end.
  abbrev pub Ends : PolicyModel → Type 0
  Ends model = HostsResolve language model (aliases language model (call_depth model))

  abbrev pub Reaches : PolicyModel → EvalQuery → Type 0
  Reaches model query = Reachable language model (call_depth model) query

-- The answer for one policy.
evaluate_at-Reachable :
    (language : Language) (parse : Text → Text ⊎ Json) (model : PolicyModel)
    → Ends language model
    → (query : EvalQuery)
    → (r : EvalResult) × (evaluate_at language parse model query ≡ some r)
      × (IsAllow r.decision ↔ Reaches language model query)
unfolding evaluate_at
evaluate_at-Reachable language parse model resolve query =
    evaluate-Reachable language model resolve query

-- For a session that may read policies, two named ends and two different documents that both
-- parse, in both of which no host alias stands for an alias, testReachability succeeds with both
-- verdicts, and its delta says which of the two policies lets the question through: newly allowed
-- means the edited one alone does, newly denied the saved one alone, and same both or neither.
pub test_reachability-Says :
    (language : Language) (parse : Text → Text ⊎ Json) (session : Option Session) (who : Session)
    (req : Request)
    → authorize session acls_read ≡ granted who
    → (is_empty (trim req.src) || is_empty (trim req.dst)) ≡ false
    → (parse_policy parse req.saved_document).ok ≡ true
    → (parse_policy parse req.edited_document).ok ≡ true
    → eq_text req.edited_document req.saved_document ≡ false
    → Ends language (parse_policy parse req.saved_document).model
    → Ends language (parse_policy parse req.edited_document).model
    → (saved edited : EvalResult) × (delta : Delta) × (test_reachability language parse session req
        ≡ success saved (some edited) delta)
      × Says delta
          (Reaches language
            (parse_policy parse req.saved_document).model
            (query_of language.number req))
          (Reaches language
            (parse_policy parse req.edited_document).model
            (query_of language.number req))
unfolding test_reachability when_gated with_model with_saved with_parsed with_edited
test_reachability-Says language parse session who req gate named saved_ok edited_ok dirty resolve
      resolve' =
    let query = query_of language.number req in
    let (saved, e, iff) =
      evaluate_at-Reachable language parse (parse_policy parse req.saved_document).model resolve
        query in
    let (edited, e', iff') =
      evaluate_at-Reachable language parse (parse_policy parse req.edited_document).model resolve'
        query in
    (
      saved,
      edited,
      delta_of saved.decision edited.decision,
      rw (gate, named, saved_ok, e, dirty, edited_ok, e') refl,
      delta_of-Says saved.decision edited.decision _ _ iff iff',
    )

-- The two runs of an unread edit meet behind the saved answer.
with_saved-unread :
    (language : Language) (parse : Text → Text ⊎ Json) (req : Request) (query : EvalQuery)
    (saved : Option EvalResult)
    → (parse_policy parse req.edited_document).ok ≡ false
    → with_saved language parse req query saved
      ≡ with_saved language parse (record req { edited_document = req.saved_document }) query saved
unfolding with_saved with_parsed
with_saved-unread language parse req query none unread = refl
with_saved-unread language parse req query (some saved) unread =
    elim (Bool-cases (eq_text req.edited_document req.saved_document)) [
      | inl clean ↦ rw (eq_text_self req.saved_document, clean) refl
      | inr dirty ↦ rw (eq_text_self req.saved_document, dirty, unread) refl
    ]

when_gated-unread :
    (language : Language) (parse : Text → Text ⊎ Json) (req : Request) (gate : Gate)
    → (parse_policy parse req.edited_document).ok ≡ false
    → when_gated language parse req gate
      ≡ when_gated language parse (record req { edited_document = req.saved_document }) gate
unfolding when_gated with_model query_of
when_gated-unread language parse req unauthenticated unread = refl
when_gated-unread language parse req (denied reason) unread = refl
when_gated-unread language parse req (granted who) unread =
    rw (with_saved-unread language parse req _ _ unread) refl

-- For an edited document that does not parse, testReachability answers what it answers when
-- nothing has been edited, whatever the session and the request are.
pub test_reachability-unread :
    (language : Language) (parse : Text → Text ⊎ Json) (session : Option Session) (req : Request)
    → (parse_policy parse req.edited_document).ok ≡ false
    → test_reachability language parse session req
      ≡ test_reachability language parse session
          (record req { edited_document = req.saved_document })
unfolding test_reachability
test_reachability-unread language parse session req unread =
    when_gated-unread language parse req (authorize session acls_read) unread
