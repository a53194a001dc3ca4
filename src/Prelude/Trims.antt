-- ===== src/Prelude/Trims.antt =====
-- Trimming twice, and building a set twice.
use Prim.Native.Nat.{ℕ, ◌≤◌}
use mathlib.Core.Path.{◌≡◌, refl, sym, ap, ◌∙◌}
use mathlib.Core.Logic.{inl, inr}
use mathlib.Core.Bool.{true, false}
use mathlib.Core.List.{List, [], ◌∷◌, ◌++◌}
use native.Mathlib.Omega.{arith}
use headtower.Prelude.Lists.{length, length-append}
use headtower.Prelude.Tests.{Bool-cases}
use headtower.Prelude.Texts.{Text, has, add, add_all, unique}
use headtower.Prelude.Scan.{is_space, trim_start, trim_end, trim}

-- A text that does not start with a space starts alike when its end is trimmed.
trim_end-cons : (a : ℕ) (s : Text) → is_space a ≡ false → (t : Text) × (trim_end (a ∷ s) ≡ a ∷ t)
unfolding trim_end
trim_end-cons a s solid = go (trim_end s) refl
  where
    go : (t : Text) → trim_end s ≡ t → (u : Text) × (trim_end (a ∷ s) ≡ a ∷ u)
    go [] e = ([], rw (e, solid) refl)
    go (b ∷ t) e = (b ∷ t, rw e refl)

trim_end-grown :
    (a : ℕ) (s : Text) (b : ℕ) (t : Text) → trim_end s ≡ b ∷ t → trim_end (a ∷ s) ≡ a ∷ b ∷ t
unfolding trim_end
trim_end-grown a s b t e = rw e refl

trim_end_end : (s : Text) → trim_end (trim_end s) ≡ trim_end s
unfolding trim_end
trim_end_end [] = refl
trim_end_end (a ∷ s) = go (trim_end s) refl (trim_end_end s)
  where
    go :
        (t : Text)
        → trim_end s ≡ t
        → trim_end (trim_end s) ≡ trim_end s
        → trim_end (trim_end (a ∷ s)) ≡ trim_end (a ∷ s)
    go [] e same = elim (Bool-cases (is_space a)) [
      | inl space ↦ rw (e, space) refl
      | inr solid ↦ rw (e, solid, solid) refl
    ]
    go (b ∷ t) e same = rw (trim_end-grown a s b t e) (trim_end-grown a (b ∷ t) b t (rw e at same))

trim_start-space : (a : ℕ) (s : Text) → is_space a ≡ true → trim_start (a ∷ s) ≡ trim_start s
unfolding trim_start
trim_start-space a s space = rw (space, trim_start) refl

trim_start-solid : (a : ℕ) (s : Text) → is_space a ≡ false → trim_start (a ∷ s) ≡ a ∷ s
unfolding trim_start
trim_start-solid a s solid = rw (solid, trim_start) refl

trim_lem : (s : Text) → trim s ≡ trim_end (trim_start s)
unfolding trim
trim_lem s = refl

trim-space : (a : ℕ) (s : Text) → is_space a ≡ true → trim (a ∷ s) ≡ trim s
trim-space a s space = rw (trim_lem (a ∷ s), trim_lem s, trim_start-space a s space) refl

trim-solid : (a : ℕ) (s : Text) → is_space a ≡ false → trim (a ∷ s) ≡ trim_end (a ∷ s)
trim-solid a s solid = rw (trim_lem (a ∷ s), trim_start-solid a s solid) refl

trim_start-trim-nil : trim_start (trim []) ≡ trim []
unfolding trim trim_start trim_end
trim_start-trim-nil = refl

trim_start-trim : (s : Text) → trim_start (trim s) ≡ trim s
trim_start-trim [] = trim_start-trim-nil
trim_start-trim (a ∷ s) = elim (Bool-cases (is_space a)) [
  | inl space ↦ rw (trim-space a s space) (trim_start-trim s)
  | inr solid ↦
      let (t, e) = trim_end-cons a s solid in
      let whole : trim (a ∷ s) ≡ a ∷ t = trim-solid a s solid ∙ e in
      ap trim_start whole ∙ trim_start-solid a t solid ∙ sym whole
]

pub trim-trim : (s : Text) → trim (trim s) ≡ trim s
unfolding trim
trim-trim s = ap trim_end (trim_start-trim s) ∙ trim_end_end (trim_start s)

pub length-add_all : (ss ts : List Text) → length ts ≤ length (add_all ss ts)
unfolding add_all add
length-add_all [] ts = omega arith
length-add_all (s ∷ ss) ts = elim (Bool-cases (has s ts)) [
  | inl old ↦ rw old (length-add_all ss ts)
  | inr new ↦ rw new (omega (arith, length-append ts (s ∷ []), length-add_all ss (ts ++ s ∷ [])))
]

-- A set that does not grow stays.
pub add_all-full : (ss ts : List Text) → length (add_all ss ts) ≤ length ts → add_all ss ts ≡ ts
unfolding add_all add
add_all-full [] ts h = refl
add_all-full (s ∷ ss) ts h = elim (Bool-cases (has s ts)) [
  | inl old ↦ rw old (add_all-full ss ts (rw old at h))
  | inr new ↦
      absurd
        (omega (arith, rw new at h, length-append ts (s ∷ []), length-add_all ss (ts ++ s ∷ [])))
]

add_all-append :
    (ss : List Text) (s : Text) (ts : List Text) → add_all (ss ++ s ∷ []) ts ≡ add s (add_all ss ts)
unfolding add_all
add_all-append [] s ts = refl
add_all-append (t ∷ ss) s ts = add_all-append ss s (add t ts)

add-settled : (s : Text) (ts : List Text) → unique ts ≡ ts → unique (add s ts) ≡ add s ts
unfolding unique add
add-settled s ts e = elim (Bool-cases (has s ts)) [
  | inl old ↦ rw old e
  | inr new ↦ rw (new, add_all-append ts s [], e, new) refl
]

add_all-settled : (ss ts : List Text) → unique ts ≡ ts → unique (add_all ss ts) ≡ add_all ss ts
unfolding add_all
add_all-settled [] ts e = e
add_all-settled (s ∷ ss) ts e = add_all-settled ss (add s ts) (add-settled s ts e)

-- The members of a set are a set.
pub unique-unique : (ss : List Text) → unique (unique ss) ≡ unique ss
unfolding unique add_all
unique-unique ss = add_all-settled ss [] refl
