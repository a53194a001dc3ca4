-- ===== src/Policy/Eval/Decide.antt =====
-- src/lib/policy/eval.ts: the evaluator decides reachability.
use headtower.Prelude.{
  ℕ, ◌≡◌, ◌≢◌, refl, ◌↔◌, ◌⊎◌, inl, inr, true, false, ◌||◌, Option, none, some, List, [], ◌∷◌, Text,
  arith, find, find-AnyOf, find-none, AnyOf, AnyOf-map, All, Bool-cases, Option-cases, eq_text,
  eq_text_iff, lit, is_empty, trim, ◌+◌, ◌*◌, length,
}
use mathlib.Core.Bool.{and-eq-true_iff}
use headtower.Language.{Language}
use headtower.Policy.Tokens.{split_dst_ports, port_matches}
use headtower.Policy.Tokens.Ipv4.{IsRange}
use headtower.Policy.Model.{AclRule, GrantEntry, PolicyModel}
use headtower.Policy.Eval.Expand.{Expansion, Trace, expand}
use headtower.Policy.Eval.Query.{Asked, EvalQuery, EvalMatch, EvalResult, deny, pick_both}
use headtower.Policy.Eval.Evaluate.{aliases, first_ip, evaluate_reachability}
use headtower.Policy.Eval.Total.{HostsResolve, expand_total}
use headtower.Policy.Eval.Ranges.{HasRanges, expand-HasRanges}
use headtower.Policy.Eval.Overlap.{covers_iff}
use headtower.Policy.Eval.Spec.{
  meaning, asked_of, Meets, AclAllows, GrantAllows, Reachable, IsAllow,
}
use headtower.Policy.Eval.Answers.{
  Suffices, covered, lands, acl_answer, grant_answer, first_answer-some, first_answer-none,
  decision, found_acl, found_grant,
}
use headtower.Policy.Eval.Rounds.{evaluate-decision}

AnyOf-given : (P : Text → Type 0) (xs : List Text) → AnyOf P xs → is_empty xs ≡ false
AnyOf-given P [] h = absurd h
AnyOf-given P (x ∷ xs) h = refl

module _ (language : Language) (model : PolicyModel) (depth : ℕ) where
  meaning-ranges : (token : Text) → All IsRange (meaning language model depth token).nets
  unfolding meaning
  meaning-ranges token =
      go
        (expand language model (aliases language model depth) depth token
          (record { notes = []; seen = [] }))
        refl (expand-HasRanges language model (aliases language model depth) depth token _)
    where
      go :
          (r : Option (Expansion × Trace))
          → expand language model
              (aliases language model depth)
              depth
              token
              (record { notes = []; seen = [] })
            ≡ r
          → HasRanges r
          → All IsRange (meaning language model depth token).nets
      go none p h = rw (p, meaning) tt
      go (some (e, t)) p h = rw (p, meaning) h

  module _ (asked : Asked) (hs : All IsRange asked.src.nets) (hd : All IsRange asked.dst.nets) where
    to_Meets :
        (q : Expansion)
        → All IsRange q.nets
        → (entry : Text) → covered language model depth q entry ≡ true
        → Meets language model depth q entry
    to_Meets q hq entry =
        (covers_iff q (meaning language model depth entry) hq (meaning-ranges entry)).0

    of_Meets :
        (q : Expansion)
        → All IsRange q.nets
        → (entry : Text) → Meets language model depth q entry
        → covered language model depth q entry ≡ true
    of_Meets q hq entry =
        (covers_iff q (meaning language model depth entry) hq (meaning-ranges entry)).1

    abbrev Lands : Text → Type 0
    Lands entry =
        Meets language model depth asked.dst (split_dst_ports entry).host
        × (port_matches language.number (split_dst_ports entry).ports asked.port ≡ true)

    to_lands : (entry : Text) → lands language model depth asked entry ≡ true → Lands entry
    to_lands entry h =
        let (near, port) = (and-eq-true_iff _ _).0 h in
        (to_Meets asked.dst hd (split_dst_ports entry).host near, port)

    of_lands : (entry : Text) → Lands entry → lands language model depth asked entry ≡ true
    of_lands entry (near, port) =
        (and-eq-true_iff _ _).1 (of_Meets asked.dst hd (split_dst_ports entry).host near, port)

    acl_sound :
        (i : ℕ) (rule : AclRule) (m : EvalMatch)
        → acl_answer language model depth asked i rule ≡ some m
        → AclAllows language model depth asked rule
    acl_sound i rule m e =
        elim (Option-cases (find (covered language model depth asked.src) rule.src)) [
          | inl missed ↦ ground arith
          | inr (s, from_src) ↦
              elim (Option-cases (find (lands language model depth asked) rule.dst)) [
                | inl missed ↦ ground arith
                | inr (d, from_dst) ↦ record {
                  accepts = (eq_text_iff _ _).0 (ground arith);
                  source =
                      AnyOf-map rule.src (to_Meets asked.src hs) (find-AnyOf _ rule.src s from_src);
                  protocol = ground arith;
                  destination = AnyOf-map rule.dst to_lands (find-AnyOf _ rule.dst d from_dst);
                }
              ]
        ]

    acl_complete :
        (i : ℕ) (rule : AclRule)
        → AclAllows language model depth asked rule
        → acl_answer language model depth asked i rule ≢ none
    acl_complete i rule a e =
        let accepts : eq_text rule.action (lit "accept") ≡ true = (eq_text_iff _ _).1 a.accepts in
        let protocol = a.protocol in
        elim (Option-cases (find (covered language model depth asked.src) rule.src)) [
          | inl missed ↦
              find-none _ rule.src missed (AnyOf-map rule.src (of_Meets asked.src hs) a.source)
          | inr (s, from_src) ↦
              elim (Option-cases (find (lands language model depth asked) rule.dst)) [
                | inl missed ↦
                    find-none _ rule.dst missed (AnyOf-map rule.dst of_lands a.destination)
                | inr (d, from_dst) ↦ ground arith
              ]
        ]

    grant_sound :
        (i : ℕ) (grant : GrantEntry) (m : EvalMatch)
        → grant_answer language model depth asked i grant ≡ some m
        → GrantAllows language model depth asked grant
    grant_sound i grant m e =
        elim (Option-cases (find (covered language model depth asked.src) grant.src)) [
          | inl missed ↦ ground arith
          | inr (s, from_src) ↦
              elim (Option-cases (find (covered language model depth asked.dst) grant.dst)) [
                | inl missed ↦ ground arith
                | inr (d, from_dst) ↦
                    elim (Option-cases (first_ip language model depth asked grant.ip)) [
                      | inl missed ↦ ground arith
                      | inr (entry, from_ip) ↦ record {
                        source =
                            AnyOf-map grant.src (to_Meets asked.src hs)
                              (find-AnyOf _ grant.src s from_src);
                        destination =
                            AnyOf-map grant.dst (to_Meets asked.dst hd)
                              (find-AnyOf _ grant.dst d from_dst);
                        reach = find-AnyOf _ grant.ip entry from_ip;
                      }
                    ]
              ]
        ]

    grant_complete :
        (i : ℕ) (grant : GrantEntry)
        → GrantAllows language model depth asked grant
        → grant_answer language model depth asked i grant ≢ none
    grant_complete i grant a e =
        elim (Option-cases (find (covered language model depth asked.src) grant.src)) [
          | inl missed ↦
              find-none _ grant.src missed (AnyOf-map grant.src (of_Meets asked.src hs) a.source)
          | inr (s, from_src) ↦
              elim (Option-cases (find (covered language model depth asked.dst) grant.dst)) [
                | inl missed ↦
                    find-none _ grant.dst missed
                      (AnyOf-map grant.dst (of_Meets asked.dst hd) a.destination)
                | inr (d, from_dst) ↦
                    elim (Option-cases (first_ip language model depth asked grant.ip)) [
                      | inl missed ↦ find-none _ grant.ip missed a.reach
                      | inr (entry, from_ip) ↦
                          let given : is_empty grant.ip ≡ false = AnyOf-given _ grant.ip a.reach in
                          ground arith
                    ]
              ]
        ]

    abbrev SomeRule : Type 0
    SomeRule =
        AnyOf (AclAllows language model depth asked) model.acls
        ⊎ AnyOf (GrantAllows language model depth asked) model.grants

    decided_sound :
        (a g : Option EvalMatch)
        → found_acl language model depth asked ≡ a
        → found_grant language model depth asked ≡ g
        → IsAllow (decision a g)
        → SomeRule
    decided_sound (some m) g ea eg h = inl (first_answer-some _ acl_sound 0 model.acls m ea)
    decided_sound none (some m) ea eg h = inr (first_answer-some _ grant_sound 0 model.grants m eg)
    decided_sound none none ea eg h = absurd h

    decided_complete :
        (a g : Option EvalMatch)
        → found_acl language model depth asked ≡ a
        → found_grant language model depth asked ≡ g
        → SomeRule
        → IsAllow (decision a g)
    decided_complete (some m) g ea eg h = tt
    decided_complete none (some m) ea eg h = tt
    decided_complete none none ea eg (inl h) =
        absurd (first_answer-none _ acl_complete 0 model.acls ea h)
    decided_complete none none ea eg (inr h) =
        absurd (first_answer-none _ grant_complete 0 model.grants eg h)

  evaluate_deep :
      Suffices language model depth
      → (query : EvalQuery)
      → (r : EvalResult) × (evaluate_reachability language model depth query ≡ some r)
        × (IsAllow r.decision ↔ Reachable language model depth query)
  unfolding evaluate_reachability
  evaluate_deep deep query =
      elim (Bool-cases (is_empty (trim query.src) || is_empty (trim query.dst))) [
        | inl blank ↦ (
          record { decision = deny; notes = pick_both },
          rw blank,
          ((λ h. absurd h), λ reachable. cc (blank, reachable.named)),
        )
        | inr named ↦
            let asked = asked_of language model depth query in
            let (notes, e) = evaluate-decision language model depth deep query named in
            let a = found_acl language model depth asked in
            let g = found_grant language model depth asked in
            let hs = meaning-ranges query.src in
            let hd = meaning-ranges query.dst in
            (
              record { decision = decision a g; notes = notes },
              e,
              (
                (λ h. record {
                  named = named;
                  allowed = decided_sound asked hs hd a g refl refl h;
                }),
                λ reachable. decided_complete asked hs hd a g refl refl reachable.allowed,
              ),
            )
      ]

-- Where no host alias stands for an alias, evaluateReachability answers every question within a
-- stated call depth and allows exactly what some accepting acl or some grant with reach allows.
pub evaluate-Reachable :
    (language : Language) (model : PolicyModel)
    → HostsResolve language model (aliases language model (2 * length model.groups + 2))
    → (query : EvalQuery)
    → (r : EvalResult) × (evaluate_reachability language model (2 * length model.groups + 2) query
        ≡ some r)
      × (IsAllow r.decision ↔ Reachable language model (2 * length model.groups + 2) query)
evaluate-Reachable language model resolve query =
    evaluate_deep language model (2 * length model.groups + 2)
      (expand_total language model (aliases language model (2 * length model.groups + 2)) resolve)
      query
