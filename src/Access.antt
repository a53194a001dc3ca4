-- ===== src/Access.antt =====
-- src/app/(app)/access/actions.ts: the test of a reachability question against the saved and the
-- edited policy. (The saving action stands with the stored policies.)
pub mod Verdicts
pub mod Tests
use headtower.Prelude.{
  ℕ, ◌+◌, ◌*◌, ◌/◌, ◌%◌, Bool, not, ◌&&◌, ◌||◌, ◌==◌, leb, Option, none, some, Text, lit, eq_text,
  is_empty, trim, Num, nan, infinite, ratio, length, ◌⊎◌, if◌then◌else◌,
}
use headtower.Json.{Json}
use headtower.Language.{Language}
use headtower.Rbac.{acls_read}
use headtower.Authz.{Session, Gate, unauthenticated, denied, granted, authorize}
use headtower.Policy.Model.{PolicyModel}
use headtower.Policy.Document.{ParsedPolicy, parse_policy}
use headtower.Policy.Eval.Query.{EvalQuery, EvalResult, Decision, allow, deny}
use headtower.Policy.Eval.Evaluate.{evaluate_reachability}

-- `ReachabilityDelta`
pub data Delta : Type 0 where
  same newly_allow newly_deny : Delta

-- `ReachabilityRequest`
pub record Request : Type 0 where
  pub saved_document : Text
  pub edited_document : Text
  pub src : Text
  pub dst : Text
  pub port : Option Text
  pub protocol : Option Text

-- `ReachabilityState`, with what is thrown: the error of a missing session, and the one of a stack
-- that is full.
pub data Verdict : Type 0 where
  unsigned overflow : Verdict
  error : Text → Verdict
  success : EvalResult → Option EvalResult → Delta → Verdict

-- A number as a port: `Number.isInteger(n) && n >= 0 && n <= 65535`. The double -0 passes as 0.
unfoldable pub port_number : Num → Option ℕ
port_number nan = none
port_number (infinite negative) = none
port_number (ratio negative n d) =
    if n % d == 0 && (not negative || n == 0) && leb (n / d) 65535 then some (n / d) else none

-- `coercePort`
unfoldable pub coerce_port : (Text → Num) → Option Text → Option ℕ
unfolding port_number
coerce_port number none = none
coerce_port number (some raw) =
    if is_empty (trim raw) then none else port_number (number (trim raw))

-- The verdicts of two answers against each other.
unfoldable pub delta_of : Decision → Decision → Delta
delta_of (allow m) (allow n) = same
delta_of deny deny = same
delta_of deny (allow n) = newly_allow
delta_of (allow m) deny = newly_deny

-- The query of a request.
unfoldable pub query_of : (Text → Num) → Request → EvalQuery
unfolding coerce_port
query_of number req = record {
  src = req.src;
  dst = req.dst;
  port = coerce_port number req.port;
  protocol = req.protocol;
}

-- A call depth that is enough where the host aliases end.
abbrev pub call_depth : PolicyModel → ℕ
call_depth model = 2 * length model.groups + 2

module _ (language : Language) (parse : Text → Text ⊎ Json) where
  unfoldable pub evaluate_at : PolicyModel → EvalQuery → Option EvalResult
  evaluate_at model query = evaluate_reachability language model (call_depth model) query

  -- The rest of `testReachability` behind the answer of the edited policy, behind its parse, behind
  -- the answer of the saved one, behind the parse of that, and behind the gate.
  unfoldable pub with_edited : EvalResult → Option EvalResult → Verdict
  unfolding delta_of
  with_edited saved none = overflow
  with_edited saved (some edited) =
      success saved (some edited) (delta_of saved.decision edited.decision)

  unfoldable pub with_parsed : EvalQuery → EvalResult → ParsedPolicy → Verdict
  unfolding with_edited
  with_parsed query saved edited_model =
      if not edited_model.ok
      then success saved none same
      else with_edited saved (evaluate_at edited_model.model query)

  unfoldable pub with_saved : Request → EvalQuery → Option EvalResult → Verdict
  unfolding with_parsed
  with_saved req query none = overflow
  with_saved req query (some saved) =
      if eq_text req.edited_document req.saved_document
      then success saved none same
      else with_parsed query saved (parse_policy parse req.edited_document)

  unfoldable pub with_model : Request → EvalQuery → ParsedPolicy → Verdict
  unfolding with_saved
  with_model req query saved_model =
      if not saved_model.ok
      then error (lit "The saved policy isn't valid HuJSON.")
      else with_saved req query (evaluate_at saved_model.model query)

  unfoldable pub when_gated : Request → Gate → Verdict
  unfolding with_model query_of
  when_gated req unauthenticated = unsigned
  when_gated req (denied reason) = error reason
  when_gated req (granted session) =
      if is_empty (trim req.src) || is_empty (trim req.dst)
      then error (lit "Pick both a source and a destination.")
      else with_model req (query_of language.number req) (parse_policy parse req.saved_document)

  -- `testReachability`
  unfoldable pub test_reachability : Option Session → Request → Verdict
  unfolding authorize when_gated
  test_reachability session req = when_gated req (authorize session acls_read)
