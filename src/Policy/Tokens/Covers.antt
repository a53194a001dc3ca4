-- ===== src/Policy/Tokens/Covers.antt =====
-- src/lib/policy/tokens.ts: what a port spec admits.
use headtower.Prelude.{
  AnyOf, ℕ, ◌≤◌, ◌≡◌, refl, sym, ap, ◌∙◌, ◌↔◌, inl, inr, true, false, some, List, [], ◌∷◌, Text,
  arith, Bool-cases, length, split_on, join_on, join_on-split_on, is_digits, decimal, all, any,
  eq_text, eq_text_iff, lit, Num, ratio, All,
}
use mathlib.Core.Bool.{and-eq-true_iff, or-true}
use headtower.Policy.Tokens.{port_item, is_port_spec, part_matches, port_matches}

-- A port lies in an item of a spec: `*`, that number, or a range with it between the ends.
pub data Covers (p : ℕ) (item : Text) : Type 0 where
  star : item ≡ lit "*" → Covers p item
  exact : split_on b'-' item ≡ item ∷ [] → decimal item ≡ p → Covers p item
  span :
      (lo hi : Text)
      → split_on b'-' item ≡ lo ∷ hi ∷ []
      → decimal lo ≤ p
      → p ≤ decimal hi
      → Covers p item

-- Numbers of at most 15 digits, which a double holds exactly.
abbrev pub IsShort : Text → Type 0
IsShort item = All (λ s. length s ≤ 15) (split_on b'-' item)

-- What the ECMAScript standard says of `Number` on a decimal literal that a double holds.
abbrev pub ReadsDecimals : (Text → Num) → Type 0
ReadsDecimals number =
    (s : Text) → is_digits s ≡ true → length s ≤ 15 → number s ≡ ratio false (decimal s) 1

all_ports : (p : ℕ) (spec : Text) → spec ≡ lit "*" → AnyOf (Covers p) (split_on b',' spec)
unfolding split_on lit
all_ports p spec e = rw e (inl (star refl))

module _ (number : Text → Num) (reads : ReadsDecimals number) (p : ℕ) where
  Covers-of :
      (item : Text) (pieces : List Text)
      → split_on b'-' item ≡ pieces
      → port_item pieces ≡ true
      → All (λ s. length s ≤ 15) pieces
      → part_matches number p item ≡ true
      → Covers p item
  unfolding port_item part_matches join_on
  Covers-of item [] e spec short h = cc
  Covers-of item (lo ∷ []) e spec short h = elim (Bool-cases (eq_text item (lit "*"))) [
    | inl every ↦ star ((eq_text_iff item (lit "*")).0 every)
    | inr numbered ↦
        let same : item ≡ lo = sym (join_on-split_on b'-' item) ∙ ap (join_on b'-') e in
        exact (cc) (ground (arith, reads lo))
  ]
  Covers-of item (lo ∷ hi ∷ []) e spec short h = elim (Bool-cases (eq_text item (lit "*"))) [
    | inl every ↦ star ((eq_text_iff item (lit "*")).0 every)
    | inr numbered ↦
        span lo hi e (ground (arith, reads lo, reads hi)) (ground (arith, reads lo, reads hi))
  ]
  Covers-of item (lo ∷ hi ∷ more ∷ rest) e spec short h = cc

  of_Covers :
      (item : Text) (pieces : List Text)
      → split_on b'-' item ≡ pieces
      → port_item pieces ≡ true
      → All (λ s. length s ≤ 15) pieces
      → Covers p item
      → part_matches number p item ≡ true
  unfolding port_item part_matches join_on
  of_Covers item pieces e spec short (star every) = ground (arith, eq_text_iff item (lit "*"))
  of_Covers item [] e spec short (exact single same) = cc
  of_Covers item (lo ∷ []) e spec short (exact single same) =
      let whole : item ≡ lo = sym (join_on-split_on b'-' item) ∙ ap (join_on b'-') e in
      ground (arith, reads lo)
  of_Covers item (lo ∷ hi ∷ rest) e spec short (exact single same) = cc
  of_Covers item [] e spec short (span l h at ge le) = cc
  of_Covers item (lo ∷ []) e spec short (span l h at ge le) = cc
  of_Covers item (lo ∷ hi ∷ []) e spec short (span l h at ge le) =
      ground (arith, reads lo, reads hi)
  of_Covers item (lo ∷ hi ∷ more ∷ rest) e spec short (span l h at ge le) = cc

  any-Covers :
      (items : List Text)
      → all (λ item. port_item (split_on b'-' item)) items ≡ true
      → All IsShort items
      → (any (part_matches number p) items ≡ true) ↔ AnyOf (Covers p) items
  any-Covers [] spec short = ground arith
  any-Covers (item ∷ items) spec short =
      let (head, later) = (and-eq-true_iff _ _).0 spec in
      let (to, from) = any-Covers items later short.1 in
      (
        λ h. elim (Bool-cases (part_matches number p item)) [
          | inl here ↦ inl (Covers-of item _ refl head short.0 here)
          | inr there ↦ inr (to (rw there at h))
        ],
        λ c. elim c [
          | inl here ↦ rw (of_Covers item _ refl head short.0 here)
          | inr there ↦ rw (from there) (or-true _)
        ],
      )

  -- A text that isPortSpec accepts, in which every number has at most 15 digits, admits a port
  -- exactly when one of its items is a star, that number, or a range around it, where Number
  -- reads such decimal texts as they are written.
  pub port_matches_iff :
      (spec : Text)
      → is_port_spec spec ≡ true
      → All IsShort (split_on b',' spec)
      → (port_matches number (some spec) (some p) ≡ true) ↔ AnyOf (Covers p) (split_on b',' spec)
  unfolding port_matches is_port_spec
  port_matches_iff spec h short = elim (Bool-cases (eq_text spec (lit "*"))) [
    | inl every ↦
        rw (every, port_matches) ((λ _. all_ports p spec ((eq_text_iff _ _).0 every)), λ _. refl)
    | inr listed ↦ rw (listed, port_matches) (any-Covers (split_on b',' spec) h short)
  ]
