-- ===== src/Policy/Tokens/Roundtrip.antt =====
-- src/lib/policy/tokens.ts: a printed dotted quad is read back.
use headtower.Prelude.{
  ℕ, zero, suc, ◌+◌, ◌*◌, ◌%◌, ◌^◌, ◌<◌, ◌≡◌, refl, ap, ◌∙◌, ◌↔◌, Bool, true, false, not, ◌&&◌,
  some, List, [], ◌∷◌, ◌++◌, Text, arith, leb, ltb, ◌==◌, length, split_on, includes, is_digits,
  decimal, show, split_on-ne-nil,
}
use headtower.Policy.Tokens.{
  parse_octets, parse_ipv4, Ipv4Range, parse_ipv4_range, ipv4_ranges_overlap,
}
use headtower.Policy.Tokens.Ipv4.{InRange, parse_ipv4_range-IsRange, overlap_iff}

-- What is needed of the text of an octet, checked for each of the 256.
octet_ok : ℕ → Bool
octet_ok n =
    is_digits (show n)
    && leb (length (show n)) 3
    && decimal (show n) == n
    && not (includes (show n) b'.')

octets_ok : ℕ → Bool
octets_ok zero = true
octets_ok (suc n) = octet_ok n && octets_ok n

octets_table : octets_ok 256 ≡ true
unfolding octets_ok octet_ok is_digits show decimal includes
octets_table = refl

octets_ok_sound : (n m : ℕ) → octets_ok n ≡ true → m < n → octet_ok m ≡ true
unfolding octets_ok
octets_ok_sound zero m h l = absurd (omega arith)
octets_ok_sound (suc n) m h l = ground (arith, octets_ok_sound n m)

record OctetText (n : ℕ) : Type 0 where
  digits : is_digits (show n) ≡ true
  short : leb (length (show n)) 3 ≡ true
  value : decimal (show n) ≡ n
  plain : includes (show n) b'.' ≡ false

show-OctetText : (n : ℕ) → n < 256 → OctetText n
unfolding octet_ok
show-OctetText n l = let ok = octets_ok_sound 256 n octets_table l in ground arith

split_on-plain : (c : ℕ) (s : Text) → includes s c ≡ false → split_on c s ≡ s ∷ []
unfolding split_on includes
split_on-plain c [] h = refl
split_on-plain c (a ∷ s) h = ground (arith, split_on-plain c s)

split_on-append :
    (c : ℕ) (s t : Text) → includes s c ≡ false → split_on c (s ++ c ∷ t) ≡ s ∷ split_on c t
unfolding split_on includes
split_on-append c [] t h = let (p, ps, e) = split_on-ne-nil c t in ground arith
split_on-append c (a ∷ s) t h = ground (arith, split_on-append c s t)

-- The dotted quad of four octets.
abbrev pub dotted : ℕ → ℕ → ℕ → ℕ → Text
dotted a b c d = show a ++ b'.' ∷ (show b ++ b'.' ∷ (show c ++ b'.' ∷ show d))

parse_octets-show :
    (v n : ℕ) (parts : List Text)
    → n < 256
    → parse_octets v (show n ∷ parts) ≡ parse_octets (v * 256 + n) parts
unfolding parse_octets
parse_octets-show v n parts l =
    let o = show-OctetText n l in
    let small = decimal_small n o.value l in rw (o.digits, o.short, small) (rw o.value)
  where
    decimal_small : (n : ℕ) → decimal (show n) ≡ n → n < 256 → ltb 255 (decimal (show n)) ≡ false
    decimal_small n e l = rw e (ground arith)

-- The dotted quad of four octets is read back as the address they make up.
pub parse_ipv4-dotted :
    (a b c d : ℕ)
    → a < 256
    → b < 256
    → c < 256
    → d < 256
    → parse_ipv4 (dotted a b c d) ≡ some (((a * 256 + b) * 256 + c) * 256 + d)
unfolding parse_ipv4 parse_octets
parse_ipv4-dotted a b c d la lb lc ld =
    let oa = show-OctetText a la in
    let ob = show-OctetText b lb in
    let oc = show-OctetText c lc in
    let od = show-OctetText d ld in
    let ab = a * 256 + b in
    let whole : (((0 * 256 + a) * 256 + b) * 256 + c) * 256 + d < 2 ^ 32 = omega arith in
    let same : ((((0 * 256 + a) * 256 + b) * 256 + c) * 256 + d) % 2 ^ 32
        ≡ (ab * 256 + c) * 256 + d =
      omega arith in
    rw
      (
        split_on-append b'.' (show a) _ oa.plain,
        split_on-append b'.' (show b) _ ob.plain,
        split_on-append b'.' (show c) _ oc.plain,
        split_on-plain b'.' (show d) od.plain,
        parse_ipv4,
      )
      (parse_octets-show 0 a (show b ∷ show c ∷ show d ∷ []) la
        ∙ parse_octets-show (0 * 256 + a) b (show c ∷ show d ∷ []) lb
        ∙ parse_octets-show ((0 * 256 + a) * 256 + b) c (show d ∷ []) lc
        ∙ parse_octets-show (((0 * 256 + a) * 256 + b) * 256 + c) d [] ld
        ∙ ap some same)

-- Two parsed IPv4 ranges overlap exactly when some address lies in both.
pub parsed_overlap_iff :
    (s t : Text) (a b : Ipv4Range)
    → parse_ipv4_range s ≡ some a
    → parse_ipv4_range t ≡ some b
    → (ipv4_ranges_overlap a b ≡ true) ↔ ((x : ℕ) × (x < 2 ^ 32) × InRange x a × InRange x b)
parsed_overlap_iff s t a b e f =
    overlap_iff a b (parse_ipv4_range-IsRange s a e) (parse_ipv4_range-IsRange t b f)
