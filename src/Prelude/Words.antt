-- ===== src/Prelude/Words.antt =====
-- The 32-bit operators of JavaScript, read as unsigned: each use in the source ends in `>>> 0`.

use Prim.Native.Nat.{ℕ, zero, suc, ◌+◌, ◌*◌, ◌-◌, ◌/◌, ◌%◌, ◌≤◌, ◌<◌, ◌^◌}
use mathlib.Core.Path.{◌≡◌, refl, sym, ap, ◌∙◌}
use native.Mathlib.Omega.{arith}
use Prim.Native.Nat.add
use native.Mathlib.Nat.{two-pow-succ, div-div-eq-div-mul}

-- The lowest `w` binary digits of the conjunction of two words.
unfoldable pub and_digits : ℕ → ℕ → ℕ → ℕ
and_digits zero a b = 0
and_digits (suc w) a b = (a % 2) * (b % 2) + 2 * and_digits w (a / 2) (b / 2)

-- `(a & b) >>> 0`
unfoldable pub and32 : ℕ → ℕ → ℕ
and32 a b = and_digits 32 a b

-- `(a << k) >>> 0`
unfoldable pub shl32 : ℕ → ℕ → ℕ
shl32 a k = a * 2 ^ (k % 32) % 2 ^ 32

and_digits_zero : (w a : ℕ) → and_digits w a 0 ≡ 0
unfolding and_digits
and_digits_zero zero a = refl
and_digits_zero (suc w) a = omega (arith, and_digits_zero w (a / 2))

pub two_pow_pos : (k : ℕ) → 0 < 2 ^ k
two_pow_pos zero = omega arith
two_pow_pos (suc k) = omega (arith, two_pow_pos k, two-pow-succ k)

two_pow_mono : (k w : ℕ) → k ≤ w → 2 ^ k ≤ 2 ^ w
two_pow_mono zero w h = two_pow_pos w
two_pow_mono (suc k) zero h = absurd (omega arith)
two_pow_mono (suc k) (suc w) h =
    omega (arith, two_pow_mono k w (omega arith), two-pow-succ k, two-pow-succ w)

-- A conjunction with all ones.
and_digits_ones : (w a : ℕ) → a < 2 ^ w → and_digits w a (2 ^ w - 1) ≡ a
unfolding and_digits
and_digits_ones zero a h = omega arith
and_digits_ones (suc w) a h =
    let twice = two-pow-succ w in
    let pos = two_pow_pos w in
    let half : (2 ^ suc w - 1) / 2 ≡ 2 ^ w - 1 = omega arith in
    let odd : (2 ^ suc w - 1) % 2 ≡ 1 = omega arith in
    rw (half, odd) (omega (arith, and_digits_ones w (a / 2) (omega arith)))

-- A conjunction with ones above the lowest `k` digits clears those.
and_digits_mask :
    (w k a : ℕ) → k ≤ w → a < 2 ^ w → and_digits w a (2 ^ w - 2 ^ k) ≡ a / 2 ^ k * 2 ^ k
unfolding and_digits
and_digits_mask w zero a h l = omega (arith, and_digits_ones w a l)
and_digits_mask zero (suc k) a h l = absurd (omega arith)
and_digits_mask (suc w) (suc k) a h l =
    let wide = two-pow-succ w in
    let tall = two-pow-succ k in
    let half : (2 ^ suc w - 2 ^ suc k) / 2 ≡ 2 ^ w - 2 ^ k = omega arith in
    let even : (2 ^ suc w - 2 ^ suc k) % 2 ≡ 0 = omega arith in
    let ih = and_digits_mask w k (a / 2) (omega arith) (omega arith) in
    let quotient : a / 2 / 2 ^ k ≡ a / 2 ^ suc k =
      div-div-eq-div-mul a 2 (2 ^ k) ∙ ap (λ (t : ℕ). a / t) (omega arith) in
    rw (half, even, ih, quotient) (omega (arith, ap (λ (t : ℕ). a / 2 ^ suc k * t) tall))

pub and32_mask : (k a : ℕ) → k ≤ 32 → a < 2 ^ 32 → and32 a (2 ^ 32 - 2 ^ k) ≡ a / 2 ^ k * 2 ^ k
unfolding and32
and32_mask k a h l = and_digits_mask 32 k a h l

pub and32_zero : (a : ℕ) → and32 a 0 ≡ 0
unfolding and32
and32_zero a = and_digits_zero 32 a

two_pow_add : (j k : ℕ) → 2 ^ (j + k) ≡ 2 ^ j * 2 ^ k
two_pow_add zero k = rw add.zero (omega arith)
two_pow_add (suc j) k =
    let ih = ap (λ (t : ℕ). t * 2) (two_pow_add j k) in
    rw add.suc (
      omega
        (arith, two-pow-succ (j + k), two_pow_add j k, ap (λ (t : ℕ). t * 2 ^ k) (two-pow-succ j)))

-- Numbers that agree above `j` binary digits agree above more of them.
pub div-two_pow_mono : (x y j k : ℕ) → j ≤ k → x / 2 ^ j ≡ y / 2 ^ j → x / 2 ^ k ≡ y / 2 ^ k
div-two_pow_mono x y j k h e =
    rw whole (sym (split x) ∙ ap (λ (t : ℕ). t / 2 ^ (k - j)) e ∙ split y)
  where
    whole : 2 ^ k ≡ 2 ^ j * 2 ^ (k - j)
    whole = sym (ap (λ (t : ℕ). 2 ^ t) (omega arith)) ∙ two_pow_add j (k - j)

    split : (z : ℕ) → z / 2 ^ j / 2 ^ (k - j) ≡ z / (2 ^ j * 2 ^ (k - j))
    split z = div-div-eq-div-mul z (2 ^ j) (2 ^ (k - j))
