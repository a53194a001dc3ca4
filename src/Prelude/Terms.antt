-- ===== src/Prelude/Terms.antt =====
-- Looking for a text in another, and the words of a text.
use Prim.Native.Nat.{ℕ}
use mathlib.Core.Path.{◌≡◌, refl}
use mathlib.Core.Logic.{inl, inr}
use mathlib.Core.Bool.{Bool, true, ◌||◌}
use mathlib.Core.List.{List, [], ◌∷◌, ◌++◌}
use headtower.Prelude.Tests.{if◌then◌else◌, Bool-cases}
use headtower.Prelude.Texts.{Text}
use headtower.Prelude.Scan.{starts_with, is_space}

-- `s.includes(t)`
unfoldable pub contains : Text → Text → Bool
unfolding starts_with
contains [] t = starts_with [] t
contains (c ∷ s) t = starts_with (c ∷ s) t || contains s t

abbrev closed : Text → List Text
closed [] = []
closed (c ∷ s) = (c ∷ s) ∷ []

-- `s.split(/\s+/).filter(Boolean)`, behind the start of a word
unfoldable pub terms_from : Text → Text → List Text
terms_from word [] = closed word
terms_from word (c ∷ s) =
    let next = terms_from [] s in
    let more = terms_from (word ++ c ∷ []) s in if is_space c then closed word ++ next else more

unfoldable pub terms : Text → List Text
unfolding terms_from
terms s = terms_from [] s

closed-append :
    (word : Text) (xs ys : List Text) → closed word ++ (xs ++ ys) ≡ (closed word ++ xs) ++ ys
closed-append [] xs ys = refl
closed-append (c ∷ s) xs ys = refl

terms_from-space :
    (word s t : Text) (c : ℕ)
    → is_space c ≡ true
    → terms_from word (s ++ c ∷ t) ≡ terms_from word s ++ terms_from [] t
unfolding terms_from
terms_from-space word [] t c space = rw space refl
terms_from-space word (a ∷ s) t c space = elim (Bool-cases (is_space a)) [
  | inl gap ↦
      rw (gap, terms_from-space [] s t c space)
        (closed-append word (terms_from [] s) (terms_from [] t))
  | inr solid ↦ rw solid (terms_from-space (word ++ a ∷ []) s t c space)
]

-- The words of two texts with a space between them are those of the first, then those of the second.
pub terms-space : (s t : Text) (c : ℕ) → is_space c ≡ true → terms (s ++ c ∷ t) ≡ terms s ++ terms t
unfolding terms
terms-space s t c space = terms_from-space [] s t c space
