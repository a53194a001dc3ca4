-- ===== src/Prelude/Numbers.antt =====
-- What `Number(s)` can answer, and the comparisons with a natural number that the source makes.
use headtower.Prelude.Tests.{leb, ◌==◌}
use Prim.Native.Nat.{ℕ, ◌*◌}
use mathlib.Core.Bool.{Bool, true, false, not, ◌&&◌}

-- A double: every finite one is a fraction, `ratio negative numerator denominator`.
pub data Num : Type 0 where
  nan : Num
  infinite : Bool → Num
  ratio : Bool → ℕ → ℕ → Num

-- `Number.isFinite(x)`
abbrev pub is_finite : Num → Bool
is_finite nan = false
is_finite (infinite negative) = false
is_finite (ratio negative n d) = true

-- `p >= x`
abbrev pub at_least : ℕ → Num → Bool
at_least p nan = false
at_least p (infinite negative) = negative
at_least p (ratio true n d) = true
at_least p (ratio false n d) = leb n (p * d)

-- `p <= x`
abbrev pub at_most : ℕ → Num → Bool
at_most p nan = false
at_most p (infinite negative) = not negative
at_most p (ratio true n d) = n == 0 && p == 0
at_most p (ratio false n d) = leb (p * d) n
