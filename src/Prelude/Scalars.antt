-- ===== src/Prelude/Scalars.antt =====
-- Texts whose surrogates are paired, and the conversion of the platform to them.
use Prim.Native.Nat.{ℕ}
use mathlib.Core.Path.{◌≡◌, refl, ap}
use mathlib.Core.Logic.{inl, inr}
use mathlib.Core.Bool.{Bool, true, false, ◌&&◌}
use mathlib.Core.List.{[], ◌∷◌}
use mathlib.Core.Option.{Option, none, some}
use native.Mathlib.Omega.{arith}
use headtower.Prelude.Lists.{is_empty}
use headtower.Prelude.Tests.{if◌then◌else◌, leb, Bool-cases}
use headtower.Prelude.Texts.{Text}

unfoldable pub is_high : ℕ → Bool
is_high c = leb 0xd800 c && leb c 0xdbff

unfoldable pub is_low : ℕ → Bool
is_low c = leb 0xdc00 c && leb c 0xdfff

-- The conversion of a string to a USVString, behind a high surrogate that waits for its low one: a
-- surrogate that stands alone becomes U+FFFD.
unfoldable pub scalars_from : Option ℕ → Text → Text
scalars_from none [] = []
scalars_from (some h) [] = 0xfffd ∷ []
scalars_from none (c ∷ s) =
    let waiting = scalars_from (some c) s in
    let rest = scalars_from none s in
    if is_high c then waiting else if is_low c then 0xfffd ∷ rest else c ∷ rest
scalars_from (some h) (c ∷ s) =
    let waiting = scalars_from (some c) s in
    let rest = scalars_from none s in
    if is_low c then h ∷ c ∷ rest else if is_high c then 0xfffd ∷ waiting else 0xfffd ∷ c ∷ rest

unfoldable pub scalars : Text → Text
unfolding scalars_from
scalars s = scalars_from none s

low_apart : (c : ℕ) → is_low c ≡ true → is_high c ≡ false
unfolding is_low is_high
low_apart c h = ground (arith, h)

-- A text keeps its scalar values behind the replacement, a plain unit and a pair.
scalars-replacement : (t : Text) → scalars_from none (0xfffd ∷ t) ≡ 0xfffd ∷ scalars_from none t
unfolding scalars_from is_high is_low
scalars-replacement t = refl

scalars-plain :
    (c : ℕ) (t : Text)
    → is_high c ≡ false
    → is_low c ≡ false
    → scalars_from none (c ∷ t) ≡ c ∷ scalars_from none t
unfolding scalars_from
scalars-plain c t a b = rw (a, b) refl

scalars-pair :
    (h c : ℕ) (t : Text)
    → is_high h ≡ true
    → is_low c ≡ true
    → scalars_from none (h ∷ c ∷ t) ≡ h ∷ c ∷ scalars_from none t
unfolding scalars_from
scalars-pair h c t a b = rw (a, b) refl

-- The conversion of what a conversion gives, with and without a surrogate that waits
scalars-settles :
    (s : Text)
    → (scalars_from none (scalars_from none s) ≡ scalars_from none s)
      × ((h : ℕ)
          → is_high h ≡ true
          → scalars_from none (scalars_from (some h) s) ≡ scalars_from (some h) s)
unfolding scalars_from
scalars-settles [] = (refl, λ h e. scalars-replacement [])
scalars-settles (c ∷ s) =
    let (rest, waiting) = scalars-settles s in
    elim (Bool-cases (is_low c)) [
      | inl low ↦ (
        rw (low_apart c low, low, scalars-replacement) (ap (◌∷◌ 0xfffd) rest),
        λ h e. rw (low, scalars-pair h c (scalars_from none s) e low) (ap (λ t. h ∷ c ∷ t) rest),
      )
      | inr apart ↦ elim (Bool-cases (is_high c)) [
        | inl high ↦ (
          rw high (waiting c high),
          λ h e. rw (apart, high, scalars-replacement) (ap (◌∷◌ 0xfffd) (waiting c high)),
        )
        | inr plain ↦ (
          rw (plain, apart, scalars-plain c (scalars_from none s) plain apart) (ap (◌∷◌ c) rest),
          λ h e.
              rw
                (
                  apart,
                  plain,
                  scalars-replacement,
                  scalars-plain c (scalars_from none s) plain apart,
                )
                (ap (λ t. 0xfffd ∷ c ∷ t) rest),
        )
      ]
    ]

-- Converting twice is converting once, and only the empty text becomes empty.
pub scalars-scalars : (s : Text) → scalars (scalars s) ≡ scalars s
unfolding scalars
scalars-scalars s = (scalars-settles s).0

is_empty-waiting : (h : ℕ) (s : Text) → is_empty (scalars_from (some h) s) ≡ false
unfolding scalars_from
is_empty-waiting h [] = refl
is_empty-waiting h (c ∷ s) = ground arith

pub is_empty-scalars : (s : Text) → is_empty (scalars s) ≡ is_empty s
unfolding scalars scalars_from
is_empty-scalars [] = refl
is_empty-scalars (c ∷ s) = ground (arith, is_empty-waiting c s)
