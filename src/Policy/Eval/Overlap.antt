-- ===== src/Policy/Eval/Overlap.antt =====
-- src/lib/policy/eval.ts: `covers` decides whether two selectors have something in common.
use headtower.Prelude.{
  ℕ, ◌<◌, ◌^◌, ◌≡◌, refl, ◌↔◌, ◌⊎◌, inl, inr, Bool, true, false, ◌||◌, List, [], ◌∷◌, Text, arith,
  has, any, AnyOf, All, Bool-cases, eq_text_iff,
}
use mathlib.Core.Bool.{or-true}
use headtower.Policy.Tokens.{Ipv4Range, ipv4_ranges_overlap}
use headtower.Policy.Tokens.Ipv4.{InRange, IsRange, overlap_iff}
use headtower.Policy.Eval.Expand.{Expansion, covers}
use headtower.Policy.Eval.Spec.{Overlap, query_all, entry_all, shared_atom, shared_address}

abbrev Meeting : List Ipv4Range → List Ipv4Range → Type 0
Meeting qs es = (x : ℕ) × (x < 2 ^ 32) × AnyOf (InRange x) qs × AnyOf (InRange x) es

one_meets :
    (q : Ipv4Range) (es : List Ipv4Range)
    → IsRange q
    → All IsRange es
    → any (ipv4_ranges_overlap q) es ≡ true
    → (x : ℕ) × (x < 2 ^ 32) × InRange x q × AnyOf (InRange x) es
one_meets q [] hq hes h = cc
one_meets q (e ∷ es) hq (he, hes) h = elim (Bool-cases (ipv4_ranges_overlap q e)) [
  | inl here ↦ let (x, l, a, b) = (overlap_iff q e hq he).0 here in (x, l, a, inl b)
  | inr there ↦ let (x, l, a, b) = one_meets q es hq hes (rw there at h) in (x, l, a, inr b)
]

nets_meet :
    (qs es : List Ipv4Range)
    → All IsRange qs
    → All IsRange es
    → any (λ q. any (ipv4_ranges_overlap q) es) qs ≡ true
    → Meeting qs es
nets_meet [] es hqs hes h = cc
nets_meet (q ∷ qs) es (hq, hqs) hes h = elim (Bool-cases (any (ipv4_ranges_overlap q) es)) [
  | inl here ↦ let (x, l, a, b) = one_meets q es hq hes here in (x, l, inl a, b)
  | inr there ↦ let (x, l, a, b) = nets_meet qs es hqs hes (rw there at h) in (x, l, inr a, b)
]

meets_one :
    (q : Ipv4Range) (es : List Ipv4Range) (x : ℕ)
    → IsRange q
    → All IsRange es
    → x < 2 ^ 32
    → InRange x q
    → AnyOf (InRange x) es
    → any (ipv4_ranges_overlap q) es ≡ true
meets_one q [] x hq hes l a b = absurd b
meets_one q (e ∷ es) x hq (he, hes) l a (inl b) = rw ((overlap_iff q e hq he).1 (x, l, a, b))
meets_one q (e ∷ es) x hq (he, hes) l a (inr b) = rw (meets_one q es x hq hes l a b) (or-true _)

meets_nets :
    (qs es : List Ipv4Range) (x : ℕ)
    → All IsRange qs
    → All IsRange es
    → x < 2 ^ 32
    → AnyOf (InRange x) qs
    → AnyOf (InRange x) es
    → any (λ q. any (ipv4_ranges_overlap q) es) qs ≡ true
meets_nets [] es x hqs hes l a b = absurd a
meets_nets (q ∷ qs) es x (hq, hqs) hes l (inl a) b = rw (meets_one q es x hq hes l a b)
meets_nets (q ∷ qs) es x (hq, hqs) hes l (inr a) b =
    rw (meets_nets qs es x hqs hes l a b) (or-true _)

atoms_meet :
    (qs es : List Text)
    → any (λ a. has a es) qs ≡ true
    → (a : Text) × (has a qs ≡ true) × (has a es ≡ true)
unfolding has
atoms_meet [] es h = cc
atoms_meet (q ∷ qs) es h = elim (Bool-cases (has q es)) [
  | inl here ↦ (q, ground (arith, eq_text_iff q q), here)
  | inr there ↦ let (a, x, y) = atoms_meet qs es (rw there at h) in (a, rw x (or-true _), y)
]

meets_atoms :
    (a : Text) (qs es : List Text)
    → has a qs ≡ true
    → has a es ≡ true
    → any (λ b. has b es) qs ≡ true
unfolding has
meets_atoms a [] es x y = cc
meets_atoms a (q ∷ qs) es x y = ground (arith, eq_text_iff a q, meets_atoms a qs es)

or_cases :
    (a b c d : Bool)
    → ((a || b) || c || d) ≡ true
    → (a ≡ true) ⊎ (b ≡ true) ⊎ (c ≡ true) ⊎ (d ≡ true)
or_cases true b c d h = inl refl
or_cases false true c d h = inr (inl refl)
or_cases false false true d h = inr (inr (inl refl))
or_cases false false false d h = inr (inr (inr h))

-- The test on two expansions says whether they overlap: everything, an atom or an address.
pub covers_iff :
    (q e : Expansion) → All IsRange q.nets → All IsRange e.nets → (covers q e ≡ true) ↔ Overlap q e
unfolding covers
covers_iff q e hq he = (to, from)
  where
    to : covers q e ≡ true → Overlap q e
    to h = elim (or_cases _ _ _ _ h) [
      | inl all ↦ query_all all
      | inr (inl all) ↦ entry_all all
      | inr (inr (inl same)) ↦ let (a, x, y) = atoms_meet q.atoms e.atoms same in shared_atom a x y
      | inr (inr (inr near)) ↦
          let (x, l, a, b) = nets_meet q.nets e.nets hq he near in shared_address x l a b
    ]

    from : Overlap q e → covers q e ≡ true
    from (query_all h) = ground arith
    from (entry_all h) = ground arith
    from (shared_atom a x y) = ground (arith, meets_atoms a q.atoms e.atoms x y)
    from (shared_address x l a b) = ground (arith, meets_nets q.nets e.nets x hq he l a b)
