-- ===== src/Prelude/Sort.antt =====
-- `Array.prototype.sort` on strings: by code units.

use mathlib.Core.Path.{◌≡◌, refl, ap, subst}
use mathlib.Core.Logic.{inl, inr}
use mathlib.Core.Bool.{Bool, true, false, ◌&&◌, ◌||◌}
use mathlib.Core.List.{List, [], ◌∷◌}
use native.Mathlib.Omega.{arith}
use headtower.Prelude.Tests.{ltb, ◌==◌, if◌then◌else◌, Bool-cases}
use headtower.Prelude.Texts.{Text, eq_text, has}

unfoldable pub before : Text → Text → Bool
before [] t = true
before (a ∷ s) [] = false
before (a ∷ s) (b ∷ t) = ltb a b || (a == b && before s t)

unfoldable pub insert : Text → List Text → List Text
unfolding before
insert s [] = s ∷ []
insert s (t ∷ ts) = if before s t then s ∷ t ∷ ts else t ∷ insert s ts

unfoldable pub sort : List Text → List Text
unfolding insert
sort [] = []
sort (s ∷ ss) = insert s (sort ss)

pub has-insert : (r s : Text) (ts : List Text) → has r (insert s ts) ≡ (eq_text r s || has r ts)
unfolding insert has
has-insert r s [] = refl
has-insert r s (t ∷ ts) = ground (arith, has-insert r s ts)

pub has-sort : (r : Text) (ss : List Text) → has r (sort ss) ≡ has r ss
unfolding sort has
has-sort r [] = refl
has-sort r (s ∷ ss) = ground (arith, has-insert r s (sort ss), has-sort r ss)

before_total : (s t : Text) → before s t ≡ false → before t s ≡ true
unfolding before
before_total [] t e = cc
before_total (a ∷ s) [] e = refl
before_total (a ∷ s) (b ∷ t) e = ground (arith, before_total s t)

-- Every element stands before its successor.
abbrev pub Ordered : List Text → Type 0
Ordered [] = Unit
Ordered (s ∷ []) = Unit
Ordered (s ∷ t ∷ ts) = (before s t ≡ true) × Ordered (t ∷ ts)

insert-Ordered : (s : Text) (ts : List Text) → Ordered ts → Ordered (insert s ts)
unfolding insert
insert-Ordered s [] o = tt
insert-Ordered s (t ∷ []) o = elim (Bool-cases (before s t)) [
  | inl e ↦ rw e (e, tt)
  | inr e ↦ rw e (before_total s t e, tt)
]
insert-Ordered s (t ∷ u ∷ ts) (b, o) = elim (Bool-cases (before s t)) [
  | inl e ↦ rw e (e, (b, o))
  | inr e ↦
      rw e
        let rest : Ordered (insert s (u ∷ ts)) = insert-Ordered s (u ∷ ts) o in
          elim (Bool-cases (before s u)) [
            | inl f ↦ rw f (before_total s t e, (f, o))
            | inr f ↦
                rw f (b, subst Ordered (ap (λ c. if c then s ∷ u ∷ ts else u ∷ insert s ts) f) rest)
          ]
]

pub sort-Ordered : (ss : List Text) → Ordered (sort ss)
unfolding sort
sort-Ordered [] = tt
sort-Ordered (s ∷ ss) = insert-Ordered s (sort ss) (sort-Ordered ss)
