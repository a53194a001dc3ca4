-- ===== src/Policy/Eval/Cycle.antt =====
-- src/lib/policy/eval.ts: an alias that stands for itself. The guard against cycles is for groups
-- only.
use headtower.Prelude.{
  ℕ, zero, suc, ◌≡◌, refl, false, ◌||◌, none, List, [], Text, find, is_empty, trim, eq_text,
}
use headtower.Language.{Language}
use headtower.Policy.Tokens.{host, classify_token}
use headtower.Policy.Model.{PolicyModel}
use headtower.Policy.Eval.Expand.{Trace, merge_members, cidr_of, expand_host, expand_kind, expand}
use headtower.Policy.Eval.Query.{EvalQuery}
use headtower.Policy.Eval.Evaluate.{aliases, expand_fresh, ask, evaluate_reachability}

module _ (language : Language) (model : PolicyModel) (aliases : List Text) (name : Text) where
  -- An alias, not empty, whose CIDR is its own name.
  pub record StandsForItself : Type 0 where
    pub alias : classify_token name aliases ≡ host
    pub given : is_empty name ≡ false
    pub own : cidr_of (find (λ h. eq_text h.name name) model.hosts) ≡ name

  expand-none :
      StandsForItself → (depth : ℕ) (t : Trace) → expand language model aliases depth name t ≡ none
  unfolding expand expand_kind expand_host merge_members
  expand-none c zero t = refl
  expand-none c (suc depth) t =
      let deeper = expand-none c depth t in
      rw (c.given, c.alias, expand_kind)
        (rw (c.own, expand_host) (rw c.given (rw (deeper, merge_members))))

module _ (language : Language) (model : PolicyModel) (depth : ℕ) (query : EvalQuery) where
  -- About a source that is a host alias whose CIDR is its own name, with neither side of the
  -- query blank, the evaluator has no answer at any call depth: the recursion does not end.
  pub evaluate-none :
      StandsForItself language model (aliases language model depth) query.src
      → (is_empty (trim query.src) || is_empty (trim query.dst)) ≡ false
      → evaluate_reachability language model depth query ≡ none
  unfolding evaluate_reachability ask expand_fresh
  evaluate-none c named =
      let never =
        expand-none language model (aliases language model depth) query.src c depth
          (record { notes = []; seen = [] }) in
      rw (named, never, expand_fresh)
