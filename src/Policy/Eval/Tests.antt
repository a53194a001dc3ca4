-- ===== src/Policy/Eval/Tests.antt =====
-- The evaluator on a small policy.
use headtower.Prelude.{
  ◌≡◌, ◌≢◌, refl, ◌↔◌, false, some, none, List, [], ◌∷◌, Text, lit, ◌||◌, eq_text, has, add,
  add_all, split_on, is_digits, decimal, trim, index_of, starts_with, includes, last_index_of,
  shl32, and32, and_digits, is_empty, Bool-cases, inl, inr,
}
use headtower.Language.Sample.{sample}
use headtower.Policy.Tokens.{
  host, cidr, classify_token, looks_like_cidr, parse_ipv4, parse_ipv4_range, mask_bits,
  ipv4_ranges_overlap, is_hex_or_colon, split_dst_ports, is_port_spec, port_matches,
}
use headtower.Policy.Model.{PolicyModel, empty_model}
use headtower.Policy.Eval.Expand.{Expansion, Trace, expand, merge_members, merge, covers}
use headtower.Policy.Eval.Proto.{normalize_text, normalize_proto, proto_ok}
use headtower.Policy.Eval.Query.{EvalQuery, EvalResult, Decision, allow, deny}
use headtower.Policy.Eval.Evaluate.{
  aliases, evaluate_reachability, ask, expand_fresh, search_rules, first_match, try_acl,
  acl_covered, acl_rest, first_covered, first_destination, after_acls,
}
use headtower.Policy.Eval.Total.{HostsResolve, expand_total}
use headtower.Policy.Eval.Spec.{Reachable, IsAllow}
use headtower.Policy.Eval.Decide.{evaluate-Reachable}
use headtower.Policy.Eval.Cycle.{StandsForItself, evaluate-none}

-- `group:eng` holds alice and itself; it may reach port 22 of a subnet and of `db`.
abbrev policy : PolicyModel
policy = record empty_model {
  groups = record { name = lit "group:eng"; values = lit "alice@" ∷ lit "group:eng" ∷ [] } ∷ [];
  hosts = record { name = lit "db"; cidr = lit "10.0.0.5" } ∷ [];
  acls =
      record {
        action = lit "accept";
        src = lit "group:eng" ∷ [];
        dst = lit "10.0.0.0/24:22" ∷ [];
        raw = none;
      }
      ∷ [];
}

abbrev to_db : EvalQuery
to_db = record { src = lit "alice@"; dst = lit "db"; port = some 22; protocol = none }

allowed :
    evaluate_reachability sample policy 4 to_db
    ≡ some (record {
      decision = allow (record {
        section = headtower.Policy.Eval.Query.acls;
        rule_index = 0;
        src = lit "group:eng" ∷ [];
        dst = lit "10.0.0.0/24:22" ∷ [];
        matched_src = lit "group:eng";
        matched_dst = lit "10.0.0.0/24:22";
        matched_ip = none;
      });
      notes = [];
    })
unfolding evaluate_reachability ask expand_fresh search_rules first_match try_acl acl_covered
    acl_rest first_covered first_destination after_acls expand merge_members merge covers
    normalize_text normalize_proto proto_ok classify_token looks_like_cidr parse_ipv4
    parse_ipv4_range mask_bits ipv4_ranges_overlap is_hex_or_colon split_dst_ports is_port_spec
    port_matches sample eq_text has add add_all split_on is_digits decimal trim index_of starts_with
    includes last_index_of shl32 and32 and_digits lit
allowed = refl

abbrev names : List Text
names = aliases sample policy 4

db_kind : classify_token (lit "10.0.0.5") names ≡ cidr
unfolding classify_token looks_like_cidr parse_ipv4 is_hex_or_colon split_on is_digits decimal lit
    eq_text starts_with has includes
db_kind = refl

empty_kind : classify_token [] names ≢ host
unfolding classify_token looks_like_cidr parse_ipv4 is_hex_or_colon split_on is_digits decimal lit
    eq_text starts_with has includes
empty_kind = λ e. cc

policy_resolves : HostsResolve sample policy names
policy_resolves name = elim (Bool-cases (eq_text (lit "db") name)) [
  | inl db ↦ rw db (rw db_kind (λ e. cc))
  | inr other ↦ rw other empty_kind
]

evaluate-Reachable_example :
    (r : EvalResult) × (evaluate_reachability sample policy 4 to_db ≡ some r)
    × (IsAllow r.decision ↔ Reachable sample policy 4 to_db)
evaluate-Reachable_example = evaluate-Reachable sample policy policy_resolves to_db

expand_total_example :
    (e : Expansion) × (t : Trace) × (expand sample policy names 4
        (lit "group:eng")
        (record { notes = []; seen = [] })
      ≡ some (e, t))
expand_total_example =
    expand_total sample policy names policy_resolves (lit "group:eng")
      (record { notes = []; seen = [] })

-- `{"hosts": {"a": "a"}}`
abbrev cyclic : PolicyModel
cyclic = record empty_model { hosts = record { name = lit "a"; cidr = lit "a" } ∷ [] }

abbrev from_a : EvalQuery
from_a = record { src = lit "a"; dst = lit "b"; port = none; protocol = none }

a_cycle : StandsForItself sample cyclic (aliases sample cyclic 100) (lit "a")
unfolding classify_token eq_text starts_with has lit
a_cycle = record { alias = refl; given = refl; own = refl }

a_named : (is_empty (trim from_a.src) || is_empty (trim from_a.dst)) ≡ false
unfolding trim lit
a_named = refl

evaluate-none_example : evaluate_reachability sample cyclic 100 from_a ≡ none
evaluate-none_example = evaluate-none sample cyclic 100 from_a a_cycle a_named
