-- ===== src/Prelude/Scan.antt =====
-- Looking into a text: prefixes, positions, `split`, `trim`, decimal numbers.
use headtower.Prelude.Tests.{ltb, leb, ◌==◌, if◌then◌else◌, Bool-cases, Option-cases}
use headtower.Prelude.Lists.{take, drop, all, is_empty}
use headtower.Prelude.Texts.{Text}
use Prim.Native.Nat.{ℕ, zero, suc, ◌+◌, ◌*◌, ◌-◌, ◌/◌, ◌%◌}
use mathlib.Core.Path.{◌≡◌, refl, ap, ◌∙◌}
use mathlib.Core.Logic.{inl, inr}
use mathlib.Core.Bool.{Bool, true, false, not, ◌&&◌, ◌||◌}
use mathlib.Core.List.{List, [], ◌∷◌, ◌++◌}
use mathlib.Core.Option.{Option, none, some}
use native.Mathlib.Omega.{arith}

-- `s.startsWith(t)`
unfoldable pub starts_with : Text → Text → Bool
starts_with s [] = true
starts_with [] (b ∷ t) = false
starts_with (a ∷ s) (b ∷ t) = a == b && starts_with s t

-- `s.endsWith(c)` for one code unit
unfoldable pub ends_with : Text → ℕ → Bool
ends_with [] c = false
ends_with (a ∷ []) c = a == c
ends_with (a ∷ b ∷ s) c = ends_with (b ∷ s) c

-- `s.slice(0, -1)`
unfoldable pub drop_last : Text → Text
drop_last [] = []
drop_last (a ∷ []) = []
drop_last (a ∷ b ∷ s) = a ∷ drop_last (b ∷ s)

-- `s.includes(c)` for one code unit
unfoldable pub includes : Text → ℕ → Bool
includes [] c = false
includes (a ∷ s) c = a == c || includes s c

-- `indexOf` and `lastIndexOf` of one code unit; `none` for -1
unfoldable pub index_of : ℕ → Text → Option ℕ
index_of c [] = none
index_of c (a ∷ s) = elim (a == c) [
  | true ↦ some 0
  | false ↦ elim (index_of c s) [ none ↦ none | some i ↦ some (suc i) ]
]

unfoldable pub last_index_of : ℕ → Text → Option ℕ
last_index_of c [] = none
last_index_of c (a ∷ s) = elim (last_index_of c s) [
  | some i ↦ some (suc i)
  | none ↦ if a == c then some 0 else none
]

-- The text is what stands before a position found, the code unit, and what follows it.
pub index_of-split :
    (c : ℕ) (s : Text) (i : ℕ) → index_of c s ≡ some i → take i s ++ c ∷ drop (suc i) s ≡ s
unfolding index_of
index_of-split c [] i e = cc
index_of-split c (a ∷ s) i e = elim (Bool-cases (a == c)) [
  | inl here ↦ ground arith
  | inr there ↦ elim (Option-cases (index_of c s)) [
    | inl missing ↦ ground arith
    | inr (j, found) ↦ ground (arith, index_of-split c s j found)
  ]
]

pub last_index_of-split :
    (c : ℕ) (s : Text) (i : ℕ) → last_index_of c s ≡ some i → take i s ++ c ∷ drop (suc i) s ≡ s
unfolding last_index_of
last_index_of-split c [] i e = cc
last_index_of-split c (a ∷ s) i e = elim (Option-cases (last_index_of c s)) [
  | inl missing ↦ ground arith
  | inr (j, found) ↦ ground (arith, last_index_of-split c s j found)
]

-- `s.split(c)` for one code unit: the pieces between its occurrences, at least one.
unfoldable pub split_on : ℕ → Text → List Text
split_on c [] = [] ∷ []
split_on c (a ∷ s) = elim (split_on c s) [
  | [] ↦ (a ∷ []) ∷ []
  | piece ∷ pieces ↦ if a == c then [] ∷ piece ∷ pieces else (a ∷ piece) ∷ pieces
]

-- `pieces.join(c)` for one code unit
unfoldable pub join_on : ℕ → List Text → Text
join_on c [] = []
join_on c (piece ∷ []) = piece
join_on c (piece ∷ next ∷ rest) = piece ++ c ∷ join_on c (next ∷ rest)

pub split_on-ne-nil : (c : ℕ) (s : Text) → (p : Text) × (ps : List Text) × (split_on c s ≡ p ∷ ps)
unfolding split_on
split_on-ne-nil c [] = ([], [], refl)
split_on-ne-nil c (a ∷ s) =
    let (p, ps, e) = split_on-ne-nil c s in
    elim (Bool-cases (a == c)) [
      | inl hit ↦ ([], p ∷ ps, ground arith)
      | inr miss ↦ (a ∷ p, ps, ground arith)
    ]

join_on-cons :
    (c a : ℕ) (p : Text) (ps : List Text)
    → join_on c (if a == c then [] ∷ p ∷ ps else (a ∷ p) ∷ ps) ≡ a ∷ join_on c (p ∷ ps)
unfolding join_on
join_on-cons c a p [] = ground arith
join_on-cons c a p (q ∷ ps) = ground arith

-- Splitting loses nothing.
pub join_on-split_on : (c : ℕ) (s : Text) → join_on c (split_on c s) ≡ s
unfolding split_on join_on
join_on-split_on c [] = refl
join_on-split_on c (a ∷ s) =
    let (p, ps, e) = split_on-ne-nil c s in
    rw (e, split_on) (join_on-cons c a p ps ∙ ap (◌∷◌ a) (rw e at (join_on-split_on c s)))

-- WhiteSpace and LineTerminator of ECMAScript, which `trim` and `\s` take.
unfoldable pub is_space : ℕ → Bool
is_space c =
    (leb 9 c && leb c 13)
    || c == 32
    || c == 0xa0
    || c == 0x1680
    || (leb 0x2000 c && leb c 0x200a)
    || c == 0x2028
    || c == 0x2029
    || c == 0x202f
    || c == 0x205f
    || c == 0x3000
    || c == 0xfeff

unfoldable pub trim_start : Text → Text
trim_start [] = []
trim_start (a ∷ s) = elim (is_space a) [ true ↦ trim_start s | false ↦ a ∷ s ]

unfoldable pub trim_end : Text → Text
trim_end [] = []
trim_end (a ∷ s) = elim (trim_end s) [ [] ↦ if is_space a then [] else a ∷ [] | b ∷ t ↦ a ∷ b ∷ t ]

-- `s.trim()`
unfoldable pub trim : Text → Text
unfolding trim_start trim_end is_space
trim s = trim_end (trim_start s)

-- `/^\d+$/` and the number that such a text writes
unfoldable pub is_digit : ℕ → Bool
is_digit c = leb b'0' c && leb c b'9'

unfoldable pub is_digits : Text → Bool
unfolding is_digit
is_digits s = not (is_empty s) && all is_digit s

unfoldable pub decimal_from : ℕ → Text → ℕ
decimal_from n [] = n
decimal_from n (a ∷ s) = decimal_from (n * 10 + (a - b'0')) s

unfoldable pub decimal : Text → ℕ
unfolding decimal_from
decimal s = decimal_from 0 s

-- `String(n)` of a natural number, by its digits from the last one.
show_from : ℕ → ℕ → Text → Text
show_from zero n out = out
show_from (suc fuel) n out =
    let rest = show_from fuel (n / 10) ((b'0' + n % 10) ∷ out) in
    if ltb n 10 then (b'0' + n) ∷ out else rest

-- One digit a round, so `n + 1` rounds are enough.
unfoldable pub show : ℕ → Text
unfolding show_from
show n = show_from (suc n) n []
