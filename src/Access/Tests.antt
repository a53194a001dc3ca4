-- ===== src/Access/Tests.antt =====
-- Reachability tests on a blank saved policy and an edit that lets everybody through.
use headtower.Prelude.{
  ◌≡◌, refl, false, true, none, some, [], Text, lit, inl, inr, ◌⊎◌, eq_text, ◌||◌, is_empty, trim,
  is_digits, decimal, ◌≢◌, split_on, starts_with, has, includes,
}
use headtower.Json.{get, Json, arr, cons, nil, obj, end, field, str}
use headtower.Language.Sample.{sample}
use headtower.Rbac.{viewer, acls_read}
use headtower.Authz.{Session, operator_user, granted, authorize}
use headtower.Policy.Tokens.{host, classify_token, looks_like_cidr, parse_ipv4, is_hex_or_colon}
use headtower.Policy.Model.{PolicyModel}
use headtower.Policy.Document.{parse_policy}
use headtower.Policy.Eval.Query.{EvalResult}
use headtower.Access.{Delta, Request, success, query_of, coerce_port, test_reachability}
use headtower.Access.Verdicts.{
  Ends, Reaches, Says, test_reachability-Says, test_reachability-unread,
}

abbrev edit : Text
edit = lit "e"

-- `{"acls": [{"action": "accept", "src": ["*"], "dst": ["*:*"]}]}`
abbrev reader : Text → Text ⊎ Json
reader source = elim (eq_text source edit) [
  | true ↦ inr (
      obj (
        field (lit "acls")
          (arr (
            cons
              (obj (
                field (lit "action") (str (lit "accept")) (
                  field (lit "src") (arr (cons (str (lit "*")) nil))
                    (field (lit "dst") (arr (cons (str (lit "*:*")) nil)) end))))
              nil))
          end))
  | false ↦ inl (lit "bad")
]

abbrev who : Session
who = record { user = operator_user; role = viewer }

abbrev asking : Text → Request
asking document = record {
  saved_document = [];
  edited_document = document;
  src = lit "ann@";
  dst = lit "db";
  port = some (lit " 22 ");
  protocol = none;
}

port_22 : coerce_port sample.number (some (lit " 22 ")) ≡ some 22
unfolding coerce_port sample lit trim is_digits decimal
port_22 = refl

no_port : coerce_port sample.number (some (lit "65536")) ≡ none
unfolding coerce_port sample lit trim is_digits decimal
no_port = refl

gate : authorize (some who) acls_read ≡ granted who
unfolding authorize
gate = refl

unread_edit : (parse_policy reader (lit "{")).ok ≡ false
unfolding parse_policy trim lit eq_text
unread_edit = refl

edited_ok : (parse_policy reader edit).ok ≡ true
unfolding parse_policy trim lit eq_text
edited_ok = refl

no_alias : classify_token [] [] ≢ host
unfolding classify_token looks_like_cidr parse_ipv4 is_hex_or_colon split_on is_digits decimal lit
    eq_text starts_with has includes
no_alias = λ e. cc

hostless : (model : PolicyModel) → model.hosts ≡ [] → Ends sample model
hostless model e name = rw e no_alias

saved_hosts : (parse_policy reader []).model.hosts ≡ []
unfolding parse_policy trim
saved_hosts = refl

edited_hosts : (parse_policy reader edit).model.hosts ≡ []
unfolding parse_policy trim lit eq_text get
edited_hosts = refl

saved_ok : (parse_policy reader []).ok ≡ true
unfolding parse_policy trim
saved_ok = refl

named : (is_empty (trim (lit "ann@")) || is_empty (trim (lit "db"))) ≡ false
unfolding trim lit
named = refl

dirty : eq_text edit [] ≡ false
unfolding eq_text lit
dirty = refl

test_reachability-Says_example :
    (saved edited : EvalResult) × (delta : Delta) × (test_reachability sample reader
        (some who)
        (asking edit)
      ≡ success saved (some edited) delta)
    × Says delta
        (Reaches sample (parse_policy reader []).model (query_of sample.number (asking edit)))
        (Reaches sample (parse_policy reader edit).model (query_of sample.number (asking edit)))
test_reachability-Says_example =
    test_reachability-Says sample reader (some who) who (asking edit) gate named saved_ok edited_ok
      dirty (hostless (parse_policy reader []).model saved_hosts)
      (hostless (parse_policy reader edit).model edited_hosts)

test_reachability-unread_example :
    test_reachability sample reader (some who) (asking (lit "{"))
    ≡ test_reachability sample reader (some who) (asking [])
test_reachability-unread_example =
    test_reachability-unread sample reader (some who) (asking (lit "{")) unread_edit
