-- ===== src/Prelude/Lists.antt =====
-- Lists measured by native numbers under the library's names, and the array methods the source
-- calls: `every`, `some`, `filter` and `find` with Boolean tests.
use Prim.Native.Nat.{ℕ, zero, suc, ◌+◌, ◌≤◌}
use mathlib.Core.Path.{◌≡◌, refl, ap}
use mathlib.Core.Logic.{◌⊎◌, inl, inr, ◌↔◌}
use mathlib.Core.Bool.{Bool, true, false, ◌&&◌, ◌||◌}
use mathlib.Core.List.{List, [], ◌∷◌, ◌++◌}
use mathlib.Core.Option.{Option, none, some}
use native.Mathlib.Omega.{arith}
use native.Mathlib.Nat.{zero-add, suc-add}
use headtower.Prelude.Tests.{if◌then◌else◌}

module _ {ℓ} {A : Type ℓ} where
  abbrev pub length : List A → ℕ
  length [] = 0
  length (x ∷ xs) = suc (length xs)

  abbrev pub take : ℕ → List A → List A
  take zero xs = []
  take (suc n) [] = []
  take (suc n) (x ∷ xs) = x ∷ take n xs

  abbrev pub drop : ℕ → List A → List A
  drop zero xs = xs
  drop (suc n) [] = []
  drop (suc n) (x ∷ xs) = drop n xs

  abbrev pub get_elem? : List A → ℕ → Option A
  get_elem? [] i = none
  get_elem? (x ∷ xs) zero = some x
  get_elem? (x ∷ xs) (suc i) = get_elem? xs i

  -- `Array.prototype.every`
  abbrev pub all : (A → Bool) → List A → Bool
  all p [] = true
  all p (x ∷ xs) = p x && all p xs

  -- `Array.prototype.some`
  abbrev pub any : (A → Bool) → List A → Bool
  any p [] = false
  any p (x ∷ xs) = p x || any p xs

  -- `Array.prototype.filter`
  abbrev pub keep : (A → Bool) → List A → List A
  keep p [] = []
  keep p (x ∷ xs) = if p x then x ∷ keep p xs else keep p xs

  -- `Array.prototype.find`
  abbrev pub find : (A → Bool) → List A → Option A
  find p [] = none
  find p (x ∷ xs) = if p x then some x else find p xs

  abbrev pub is_empty : List A → Bool
  is_empty [] = true
  is_empty (x ∷ xs) = false

  pub length-append : (xs ys : List A) → length (xs ++ ys) ≡ length xs + length ys
  length-append [] ys = omega arith
  length-append (x ∷ xs) ys = omega (arith, length-append xs ys)

  pub length-keep-le : (p : A → Bool) (xs : List A) → length (keep p xs) ≤ length xs
  length-keep-le p [] = omega arith
  length-keep-le p (x ∷ xs) = ground (arith, length-keep-le p xs)

  pub length-take-le : (n : ℕ) (xs : List A) → length (take n xs) ≤ n
  length-take-le zero xs = omega arith
  length-take-le (suc n) [] = omega arith
  length-take-le (suc n) (x ∷ xs) = omega (arith, length-take-le n xs)

  pub take_all : (n : ℕ) (xs : List A) → length xs ≤ n → take n xs ≡ xs
  take_all zero [] h = refl
  take_all zero (x ∷ xs) h = absurd (omega arith)
  take_all (suc n) [] h = refl
  take_all (suc n) (x ∷ xs) h = ap (◌∷◌ x) (take_all n xs (omega arith))

  pub take-append : (n : ℕ) (xs ys : List A) → length xs ≡ n → take n (xs ++ ys) ≡ xs
  take-append zero [] ys e = refl
  take-append zero (x ∷ xs) ys e = absurd (omega arith)
  take-append (suc n) [] ys e = absurd (omega arith)
  take-append (suc n) (x ∷ xs) ys e = ap (◌∷◌ x) (take-append n xs ys (omega arith))

  pub drop-append : (n m : ℕ) (xs ys : List A) → length xs ≡ n → drop (n + m) (xs ++ ys) ≡ drop m ys
  drop-append zero m [] ys e = rw zero-add refl
  drop-append zero m (x ∷ xs) ys e = absurd (omega arith)
  drop-append (suc n) m [] ys e = absurd (omega arith)
  drop-append (suc n) m (x ∷ xs) ys e = rw suc-add (drop-append n m xs ys (omega arith))

-- What holds of every element.
abbrev pub All {κ ℓ} : {S : Type κ} (Q : S → Type ℓ) (members : List S) → Type ℓ
All Q [] = Unit
All Q (first ∷ others) = Q first × All Q others

module _ {ℓ κ} {A : Type ℓ} (P : A → Type κ) where
  pub All-append : (front back : List A) → All P front → All P back → All P (front ++ back)
  All-append [] back h later = later
  All-append (first ∷ others) back (p, h) later = (p, All-append others back h later)

  pub All-keep : (p : A → Bool) (xs : List A) → All P xs → All P (keep p xs)
  All-keep p [] h = tt
  All-keep p (x ∷ xs) (q, h) = ground (arith, All-keep p xs h)

-- What holds of some element.
abbrev pub AnyOf {ℓ} : {A : Type ℓ} → (A → Type 0) → List A → Type 0
AnyOf P [] = ⊥
AnyOf P (x ∷ xs) = P x ⊎ AnyOf P xs

module _ {ℓ} {A : Type ℓ} where
  pub AnyOf-map : {P Q : A → Type 0} (xs : List A) → ((x : A) → P x → Q x) → AnyOf P xs → AnyOf Q xs
  AnyOf-map [] f h = h
  AnyOf-map (x ∷ xs) f (inl p) = inl (f x p)
  AnyOf-map (x ∷ xs) f (inr h) = inr (AnyOf-map xs f h)

  pub any_iff : (p : A → Bool) (xs : List A) → (any p xs ≡ true) ↔ AnyOf (λ x. p x ≡ true) xs
  any_iff p [] = ground arith
  any_iff p (x ∷ xs) = ground (arith, any_iff p xs)

  pub find-AnyOf :
      (p : A → Bool) (xs : List A) (x : A) → find p xs ≡ some x → AnyOf (λ y. p y ≡ true) xs
  find-AnyOf p [] x e = cc
  find-AnyOf p (y ∷ ys) x e = ground (arith, find-AnyOf p ys x)

  pub find-holds : (p : A → Bool) (xs : List A) (x : A) → find p xs ≡ some x → p x ≡ true
  find-holds p [] x e = cc
  find-holds p (y ∷ ys) x e = ground (arith, find-holds p ys x)

  pub find-none : (p : A → Bool) (xs : List A) → find p xs ≡ none → ¬ AnyOf (λ y. p y ≡ true) xs
  find-none p [] e h = h
  find-none p (y ∷ ys) e (inl h) = ground arith
  find-none p (y ∷ ys) e (inr h) = find-none p ys (ground arith) h
