-- ===== src/Policy/Tokens/Ipv4.antt =====
-- src/lib/policy/tokens.ts: addresses, and what it means that two ranges overlap.
use headtower.Prelude.{
  ℕ, zero, suc, ◌+◌, ◌-◌, ◌*◌, ◌/◌, ◌^◌, ◌≤◌, ◌<◌, min, ◌≡◌, refl, sym, ap, ◌∙◌, ◌↔◌, inl, inr,
  Bool, true, ◌&&◌, Option, none, some, List, [], ◌∷◌, Text, arith, leb, ◌==◌, ==_iff, Bool-cases,
  Option-cases, split_on, decimal, and32, and32_mask, shl32, two_pow_pos, div-two_pow_mono, subst,
}
use mathlib.Core.Option.{some-injective}
use native.Mathlib.Nat.{mul-div_cancel, div-mul-le_self}
use headtower.Policy.Tokens.{
  Ipv4Range, parse_octets, parse_ipv4, mask_bits, range_bits, range_of, parse_ipv4_range,
  ipv4_ranges_overlap, first_piece, second_piece,
}

-- An address lies in a range when it has the range's first `bits` binary digits.
abbrev pub InRange : ℕ → Ipv4Range → Type 0
InRange x r = x / 2 ^ (32 - r.bits) ≡ r.base / 2 ^ (32 - r.bits)

-- The network address is masked.
pub record IsRange (r : Ipv4Range) : Type 0 where
  pub within : r.bits ≤ 32
  pub small : r.base < 2 ^ 32
  pub masked : r.base / 2 ^ (32 - r.bits) * 2 ^ (32 - r.bits) ≡ r.base

-- Every mask, by evaluation.
passes : (ℕ → Bool) → ℕ → Bool
passes test zero = true
passes test (suc bound) = passes test bound && test bound

passes_lem :
    (test : ℕ → Bool) (bound : ℕ) → passes test bound ≡ true → (k : ℕ) → k < bound → test k ≡ true
unfolding passes
passes_lem test zero all k less = absurd (omega arith)
passes_lem test (suc bound) all k less = ground (arith, passes_lem test bound (ground arith) k)

mask_table : passes (λ b. mask_bits b == 2 ^ 32 - 2 ^ (32 - b)) 33 ≡ true
unfolding passes mask_bits shl32
mask_table = refl

pub mask_bits_lem : (b : ℕ) → b ≤ 32 → mask_bits b ≡ 2 ^ 32 - 2 ^ (32 - b)
mask_bits_lem b h = (==_iff _ _).0 (passes_lem _ 33 mask_table b (omega arith))

pub and32-mask_bits :
    (a b : ℕ) → b ≤ 32 → a < 2 ^ 32 → and32 a (mask_bits b) ≡ a / 2 ^ (32 - b) * 2 ^ (32 - b)
and32-mask_bits a b h l = rw (mask_bits_lem b h) (and32_mask (32 - b) a (omega arith) l)

-- The loop keeps the value below 256 to the number of parts read.
parse_octets-some : (v : ℕ) (ps : List Text) (ip : ℕ) → parse_octets v ps ≡ some ip → ip < 2 ^ 32
unfolding parse_octets
parse_octets-some v [] ip e = ground arith
parse_octets-some v (p ∷ ps) ip e = ground (arith, parse_octets-some (v * 256 + decimal p) ps ip)

pub parse_ipv4-lt : (s : Text) (ip : ℕ) → parse_ipv4 s ≡ some ip → ip < 2 ^ 32
unfolding parse_ipv4
parse_ipv4-lt s ip e = ground (arith, parse_octets-some 0 (split_on b'.' s) ip)

range_of-IsRange : (ip bits : ℕ) → ip < 2 ^ 32 → bits ≤ 32 → IsRange (range_of ip bits)
range_of-IsRange ip bits l h =
    let k = 32 - bits in
    let e = and32-mask_bits ip bits h l in
    let below : and32 ip (mask_bits bits) ≤ ip = rw e (div-mul-le_self ip (2 ^ k)) in
    record {
      within = h;
      small = omega arith;
      masked = rw e (rw (mul-div_cancel (ip / 2 ^ k) (two_pow_pos k)));
    }

range_bits-le : (mask : Option Text) (bits : ℕ) → range_bits mask ≡ some bits → bits ≤ 32
unfolding range_bits
range_bits-le none bits e = ground arith
range_bits-le (some mask) bits e = ground arith

-- `parseIpv4Range` masks the network address.
pub parse_ipv4_range-IsRange : (s : Text) (r : Ipv4Range) → parse_ipv4_range s ≡ some r → IsRange r
unfolding parse_ipv4_range
parse_ipv4_range-IsRange s r e = elim (Option-cases (parse_ipv4 (first_piece (split_on b'/' s)))) [
  | inl bad ↦ ground arith
  | inr (ip, good) ↦ elim (Option-cases (range_bits (second_piece (split_on b'/' s)))) [
    | inl bad ↦ ground arith
    | inr (bits, fits) ↦
        let same : range_of ip bits ≡ r =
          some-injective _ _ (rw (good, fits, parse_ipv4_range) at e) in
        subst IsRange same
          (range_of-IsRange ip bits (parse_ipv4-lt _ ip good) (range_bits-le _ bits fits))
  ]
]

module _ (a b : Ipv4Range) (ha : IsRange a) (hb : IsRange b) where
  overlap-div :
      (ipv4_ranges_overlap a b ≡ true)
      ↔ (a.base / 2 ^ (32 - min a.bits b.bits) ≡ b.base / 2 ^ (32 - min a.bits b.bits))
  unfolding ipv4_ranges_overlap
  overlap-div =
      let m = min a.bits b.bits in
      let k = 32 - m in
      let le : m ≤ 32 = omega (arith, ha.within) in
      let ea = and32-mask_bits a.base m le ha.small in
      let eb = and32-mask_bits b.base m le hb.small in
      let half = λ (t : ℕ). t / 2 ^ k in
      rw (ea, eb)
        (
          λ e.
              sym (mul-div_cancel (a.base / 2 ^ k) (two_pow_pos k))
              ∙ ap half ((==_iff _ _).0 e)
              ∙ mul-div_cancel (b.base / 2 ^ k) (two_pow_pos k),
          λ e. (==_iff _ _).1 (ap (λ (t : ℕ). t * 2 ^ k) e),
        )

  abbrev SameAbove : ℕ → Type 0
  SameAbove m = a.base / 2 ^ (32 - m) ≡ b.base / 2 ^ (32 - m)

  -- Two parsed ranges overlap exactly when some address lies in both.
  pub overlap_iff :
      (ipv4_ranges_overlap a b ≡ true) ↔ ((x : ℕ) × (x < 2 ^ 32) × InRange x a × InRange x b)
  overlap_iff = (
    λ e. elim (Bool-cases (leb a.bits b.bits)) [
      | inl wide ↦
          let m : min a.bits b.bits ≡ a.bits = ground arith in
          (b.base, hb.small, sym (subst SameAbove m (overlap-div.0 e)), refl)
      | inr narrow ↦
          let m : min a.bits b.bits ≡ b.bits = ground arith in
          (a.base, ha.small, refl, subst SameAbove m (overlap-div.0 e))
    ],
    λ (x, l, p, q). overlap-div.1 (
        sym (div-two_pow_mono x a.base (32 - a.bits) _ (omega arith) p)
        ∙ div-two_pow_mono x b.base (32 - b.bits) _ (omega arith) q),
  )
