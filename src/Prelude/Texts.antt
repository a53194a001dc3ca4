-- ===== src/Prelude/Texts.antt =====
-- JavaScript strings: a text is the list of its UTF-16 code units, and the string methods that the
-- source calls are functions on that list. A `Set` of strings is the list of its members in
-- insertion order.
use Prim.Native.Nat.{ℕ}
use Prim.Native.Char.{code}
use Prim.Native.String.{String}
use mathlib.Core.Path.{◌≡◌, refl, ap}
use mathlib.Core.Logic.{◌↔◌, inl, inr}
use mathlib.Core.Bool.{Bool, true, false, ◌&&◌, ◌||◌}
use mathlib.Core.List.{List, [], ◌∷◌, ◌++◌}
use native.Mathlib.Omega.{arith}
use headtower.Prelude.Lists.{keep}
use headtower.Prelude.Tests.{◌==◌, if◌then◌else◌, Bool-cases}

abbrev pub Text : Type 0
Text = List ℕ

-- A literal of the source. All of them are ASCII, where code points and code units agree.
unfoldable pub lit : String → Text
lit String.[] = []
lit (String.◌∷◌ c s) = code c ∷ lit s

-- `===` on strings
unfoldable pub eq_text : Text → Text → Bool
eq_text [] [] = true
eq_text (a ∷ s) (b ∷ t) = a == b && eq_text s t
eq_text _ _ = false

pub eq_text_iff : (s t : Text) → (eq_text s t ≡ true) ↔ (s ≡ t)
unfolding eq_text
eq_text_iff [] [] = ground arith
eq_text_iff [] (b ∷ t) = ground arith
eq_text_iff (a ∷ s) [] = ground arith
eq_text_iff (a ∷ s) (b ∷ t) = ground (arith, eq_text_iff s t)

pub eq_text_self : (s : Text) → eq_text s s ≡ true
eq_text_self s = (eq_text_iff s s).1 refl

-- `includes` of an array of strings, and `has` of a set
unfoldable pub has : Text → List Text → Bool
has s [] = false
has s (t ∷ ts) = eq_text s t || has s ts

-- `Set.prototype.add`
unfoldable pub add : Text → List Text → List Text
add s ts = if has s ts then ts else ts ++ s ∷ []

unfoldable pub add_all : List Text → List Text → List Text
add_all [] ts = ts
add_all (s ∷ ss) ts = add_all ss (add s ts)

-- `[...new Set(xs)]`
unfoldable pub unique : List Text → List Text
unique ss = add_all ss []

pub has-append : (s : Text) (ts us : List Text) → has s (ts ++ us) ≡ (has s ts || has s us)
unfolding has
has-append s [] us = refl
has-append s (t ∷ ts) us = ground (arith, has-append s ts us)

pub has-add : (s t : Text) (ts : List Text) → has s (add t ts) ≡ (eq_text s t || has s ts)
unfolding add has
has-add s t ts = elim (Bool-cases (has t ts)) [
  | inl old ↦ rw old (ground (arith, old, eq_text_iff s t))
  | inr new ↦ rw (new, has-append s ts (t ∷ [])) (ground arith)
]

pub has-add_all : (s : Text) (ss ts : List Text) → has s (add_all ss ts) ≡ (has s ss || has s ts)
unfolding add_all has
has-add_all s [] ts = refl
has-add_all s (t ∷ ss) ts = ground (arith, has-add_all s ss (add t ts), has-add s t ts)

pub has-unique : (s : Text) (ss : List Text) → has s (unique ss) ≡ has s ss
unfolding unique has
has-unique s ss = ground (arith, has-add_all s ss [])

-- No member twice.
abbrev pub Distinct : List Text → Type 0
Distinct [] = Unit
Distinct (s ∷ ss) = (has s ss ≡ false) × Distinct ss

-- A Boolean property of texts holds of equal ones alike, and a filter keeps the members that have it.
pub has-keep : (p : Text → Bool) (s : Text) (ts : List Text) → has s (keep p ts) ≡ (p s && has s ts)
unfolding has
has-keep p s [] = ground arith
has-keep p s (t ∷ ts) = elim (Bool-cases (eq_text s t)) [
  | inl e ↦
      let same : p s ≡ p t = ap p ((eq_text_iff s t).0 e) in
      ground (arith, same, e, has-keep p s ts)
  | inr e ↦ ground (arith, e, has-keep p s ts)
]
