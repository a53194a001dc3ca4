-- ===== src/Policy/Eval/Spec.antt =====
-- src/lib/policy/eval.ts: what the evaluator means to decide, without loops, notes or a stack.
use headtower.Prelude.{
  ℕ, ◌<◌, ◌^◌, ◌≡◌, ◌⊎◌, true, false, none, some, [], Text, lit, has, AnyOf, is_empty, trim, ◌||◌,
}
use headtower.Language.{Language}
use headtower.Policy.Tokens.{split_dst_ports, port_matches}
use headtower.Policy.Tokens.Ipv4.{InRange}
use headtower.Policy.Model.{AclRule, GrantEntry, PolicyModel}
use headtower.Policy.Eval.Expand.{Expansion, empty_expansion, expand}
use headtower.Policy.Eval.Proto.{normalize_text, proto_ok, ip_entry_allows}
use headtower.Policy.Eval.Query.{EvalQuery, Asked, Decision, allow, deny}
use headtower.Policy.Eval.Evaluate.{aliases}

-- Two selectors have something in common.
pub data Overlap (q e : Expansion) : Type 0 where
  query_all : q.wildcard ≡ true → Overlap q e
  entry_all : e.wildcard ≡ true → Overlap q e
  shared_atom : (a : Text) → has a q.atoms ≡ true → has a e.atoms ≡ true → Overlap q e
  shared_address :
      (x : ℕ) → x < 2 ^ 32 → AnyOf (InRange x) q.nets → AnyOf (InRange x) e.nets → Overlap q e

module _ (language : Language) (model : PolicyModel) (depth : ℕ) where
  -- The expansion of a selector on its own.
  unfoldable pub meaning : Text → Expansion
  meaning token =
      elim (expand language model (aliases language model depth) depth token
        (record { notes = []; seen = [] })) [ none ↦ empty_expansion | some (e, t) ↦ e ]

  abbrev pub Meets : Expansion → Text → Type 0
  Meets q entry = Overlap q (meaning entry)

  -- An acl rule lets the question through.
  pub record AclAllows (asked : Asked) (rule : AclRule) : Type 0 where
    pub accepts : rule.action ≡ lit "accept"
    pub source : AnyOf (Meets asked.src) rule.src
    pub protocol : proto_ok language rule asked.proto ≡ true
    pub destination :
        AnyOf
          (λ entry.
            Meets asked.dst (split_dst_ports entry).host
            × (port_matches language.number (split_dst_ports entry).ports asked.port ≡ true))
          rule.dst

  -- A grant does.
  pub record GrantAllows (asked : Asked) (grant : GrantEntry) : Type 0 where
    pub source : AnyOf (Meets asked.src) grant.src
    pub destination : AnyOf (Meets asked.dst) grant.dst
    pub reach :
        AnyOf (λ entry. ip_entry_allows language entry asked.port asked.proto ≡ true) grant.ip

  abbrev pub asked_of : EvalQuery → Asked
  asked_of query = record {
    src = meaning query.src;
    dst = meaning query.dst;
    port = query.port;
    proto = normalize_text language query.protocol;
  }

  -- Both sides are named, and some rule of either section lets the question through.
  pub record Reachable (query : EvalQuery) : Type 0 where
    pub named : (is_empty (trim query.src) || is_empty (trim query.dst)) ≡ false
    pub allowed :
        AnyOf (AclAllows (asked_of query)) model.acls
        ⊎ AnyOf (GrantAllows (asked_of query)) model.grants

abbrev pub IsAllow : Decision → Type 0
IsAllow (allow m) = Unit
IsAllow deny = ⊥
