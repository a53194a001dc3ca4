-- ===== src/Policy/Tokens.antt =====
-- src/lib/policy/tokens.ts: what the reference strings of a policy mean.
pub mod Ipv4
pub mod Ports
pub mod Covers
pub mod Roundtrip
mod Tests
use headtower.Prelude.{
  ℕ, zero, suc, ◌+◌, ◌-◌, ◌*◌, ◌%◌, ◌^◌, min, Bool, true, false, not, ◌&&◌, ◌||◌, Option, none,
  some, List, [], ◌∷◌, Text, lit, eq_text, has, starts_with, includes, last_index_of, split_on,
  is_digit, is_digits, decimal, leb, ltb, ◌==◌, if◌then◌else◌, take, drop, length, all, any,
  is_empty, and32, shl32, Num, is_finite, at_least, at_most,
}

-- `TokenKind`
pub data TokenKind : Type 0 where
  wildcard group tag autogroup host cidr user literal : TokenKind

-- `DstParts`
pub record DstParts : Type 0 where
  pub host : Text
  pub ports : Option Text

-- One alternative of `PORT_SPEC`: `*`, digits, or digits `-` digits.
unfoldable pub port_item : List Text → Bool
port_item [] = false
port_item (lo ∷ []) = eq_text lo (lit "*") || is_digits lo
port_item (lo ∷ hi ∷ []) = is_digits lo && is_digits hi
port_item (lo ∷ hi ∷ more ∷ rest) = false

-- `PORT_SPEC.test(s)`: such items with commas between them.
unfoldable pub is_port_spec : Text → Bool
unfolding port_item
is_port_spec s = all (λ item. port_item (split_on b'-' item)) (split_on b',' s)

unfoldable pub peel : Text → Option ℕ → DstParts
peel token none = record { host = token; ports = none }
peel token (some zero) = record { host = token; ports = none }
peel token (some (suc idx)) =
    let tail = drop (suc (suc idx)) token in
    if is_port_spec tail
    then record { host = take (suc idx) token; ports = some tail }
    else record { host = token; ports = none }

-- `splitDstPorts`: `peel` is its body at the index of the last colon, `none` for -1.
unfoldable pub split_dst_ports : Text → DstParts
unfolding peel
split_dst_ports token = peel token (last_index_of b':' token)

-- `parseIpv4`: the loop over the four parts.
unfoldable pub parse_octets : ℕ → List Text → Option ℕ
parse_octets value [] = some (value % 2 ^ 32)
parse_octets value (part ∷ parts) =
    let rest = parse_octets (value * 256 + decimal part) parts in
    if not (is_digits part && leb (length part) 3)
    then none
    else if ltb 255 (decimal part)
    then none
    else rest

unfoldable pub parse_ipv4 : Text → Option ℕ
unfolding parse_octets
parse_ipv4 addr =
    let parts = split_on b'.' addr in if not (length parts == 4) then none else parse_octets 0 parts

-- `[addr, mask] = token.split("/")`: further pieces are dropped.
abbrev pub first_piece : List Text → Text
first_piece [] = []
first_piece (a ∷ rest) = a

abbrev pub second_piece : List Text → Option Text
second_piece [] = none
second_piece (a ∷ []) = none
second_piece (a ∷ b ∷ rest) = some b

unfoldable pub is_hex_or_colon : ℕ → Bool
unfolding is_digit
is_hex_or_colon c =
    is_digit c || (leb b'a' c && leb c b'f') || (leb b'A' c && leb c b'F') || c == b':'

-- `/^\d{1,3}$/` on a mask that may be missing
unfoldable pub mask_plausible : Option Text → Bool
mask_plausible none = true
mask_plausible (some mask) = is_digits mask && leb (length mask) 3

abbrev pub is_some {ℓ} : {A : Type ℓ} → Option A → Bool
is_some none = false
is_some (some a) = true

-- `looksLikeCidr`
unfoldable pub looks_like_cidr : Text → Bool
unfolding mask_plausible
looks_like_cidr token =
    let pieces = split_on b'/' token in
    let addr = first_piece pieces in
    if not (mask_plausible (second_piece pieces))
    then false
    else if is_some (parse_ipv4 addr)
    then true
    else not (is_empty addr) && all is_hex_or_colon addr && includes addr b':'

-- `classifyToken`
unfoldable pub classify_token : Text → List Text → TokenKind
classify_token token host_aliases =
    if eq_text token (lit "*")
    then wildcard
    else if starts_with token (lit "group:")
    then group
    else if starts_with token (lit "tag:")
    then tag
    else if starts_with token (lit "autogroup:")
    then autogroup
    else if has token host_aliases
    then host
    else if looks_like_cidr token
    then cidr
    else if includes token b'@'
    then user
    else literal

-- `Ipv4Range`
pub record Ipv4Range : Type 0 where
  pub base : ℕ
  pub bits : ℕ

-- `bits === 0 ? 0 : (0xffffffff << (32 - bits)) >>> 0`
unfoldable pub mask_bits : ℕ → ℕ
mask_bits bits = if bits == 0 then 0 else shl32 0xffffffff (32 - bits)

-- The prefix length that `parseIpv4Range` reads; `none` where it returns null.
unfoldable pub range_bits : Option Text → Option ℕ
range_bits none = some 32
range_bits (some mask) =
    if not (is_digits mask && leb (length mask) 2)
    then none
    else if ltb 32 (decimal mask)
    then none
    else some (decimal mask)

abbrev pub range_of : ℕ → ℕ → Ipv4Range
range_of ip bits = record { base = and32 ip (mask_bits bits); bits = bits }

-- `parseIpv4Range`
unfoldable pub parse_ipv4_range : Text → Option Ipv4Range
unfolding range_bits
parse_ipv4_range token =
    let pieces = split_on b'/' token in
    elim (parse_ipv4 (first_piece pieces)) [
      | none ↦ none
      | some ip ↦ elim (range_bits (second_piece pieces)) [
        | none ↦ none
        | some bits ↦ some (range_of ip bits)
      ]
    ]

-- `ipv4RangesOverlap`
unfoldable pub ipv4_ranges_overlap : Ipv4Range → Ipv4Range → Bool
ipv4_ranges_overlap a b =
    let mask = mask_bits (min a.bits b.bits) in and32 a.base mask == and32 b.base mask

-- `Number` is the language's conversion of a text.
module _ (number : Text → Num) where
  -- One part of a port spec: `[lo, hi] = part.split("-")`.
  unfoldable pub part_matches : ℕ → Text → Bool
  part_matches port part =
      let pieces = split_on b'-' part in
      let low = number (first_piece pieces) in
      let high : Num = elim (second_piece pieces) [ none ↦ low | some hi ↦ number hi ] in
      eq_text part (lit "*") || (is_finite low && at_least port low && at_most port high)

  -- `portMatches`
  unfoldable pub port_matches : Option Text → Option ℕ → Bool
  unfolding part_matches
  port_matches spec none = true
  port_matches none (some port) = true
  port_matches (some spec) (some port) =
      eq_text spec (lit "*") || any (part_matches port) (split_on b',' spec)
