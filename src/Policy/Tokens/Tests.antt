-- ===== src/Policy/Tokens/Tests.antt =====
-- Addresses and port specs on concrete tokens.
use headtower.Prelude.{
  ℕ, ◌<◌, ◌^◌, ◌≡◌, refl, ◌↔◌, ◌≢◌, true, some, [], ◌∷◌, lit, AnyOf, arith, is_digits, decimal,
  split_on, shl32, and32, and_digits, starts_with, has, includes, eq_text,
}
use headtower.Language.Sample.{read_number}
use headtower.Policy.Tokens.{
  cidr, user, Ipv4Range, parse_ipv4, parse_ipv4_range, ipv4_ranges_overlap, mask_bits,
  classify_token, looks_like_cidr, is_port_spec, port_matches, is_hex_or_colon,
}
use headtower.Policy.Tokens.Ipv4.{InRange}
use headtower.Policy.Tokens.Covers.{Covers, ReadsDecimals, port_matches_iff}
use headtower.Policy.Tokens.Roundtrip.{parsed_overlap_iff}

abbrev wide : Ipv4Range
wide = record { base = 0x0a000000; bits = 8 }

abbrev narrow : Ipv4Range
narrow = record { base = 0x0a010200; bits = 24 }

parse_wide : parse_ipv4_range (lit "10.0.0.0/8") ≡ some wide
unfolding parse_ipv4_range parse_ipv4 split_on is_digits decimal lit mask_bits shl32 and32
    and_digits
parse_wide = refl

parse_narrow : parse_ipv4_range (lit "10.1.2.3/24") ≡ some narrow
unfolding parse_ipv4_range parse_ipv4 split_on is_digits decimal lit mask_bits shl32 and32
    and_digits
parse_narrow = refl

parsed_overlap_iff_example :
    (ipv4_ranges_overlap wide narrow ≡ true)
    ↔ ((x : ℕ) × (x < 2 ^ 32) × InRange x wide × InRange x narrow)
parsed_overlap_iff_example =
    parsed_overlap_iff (lit "10.0.0.0/8") (lit "10.1.2.3/24") wide narrow parse_wide parse_narrow

spec_ports : is_port_spec (lit "22,8000-8080") ≡ true
unfolding is_port_spec split_on is_digits lit eq_text
spec_ports = refl

spec_items : split_on b',' (lit "22,8000-8080") ≡ lit "22" ∷ lit "8000-8080" ∷ []
unfolding split_on lit
spec_items = refl

tag_given : lit "tag:prod" ≢ []
unfolding lit
tag_given = λ e. cc

reads_decimals : ReadsDecimals read_number
unfolding read_number
reads_decimals s h short = rw h

port_matches_iff_example :
    (port_matches read_number (some (lit "22,8000-8080")) (some 8001) ≡ true)
    ↔ AnyOf (Covers 8001) (split_on b',' (lit "22,8000-8080"))
unfolding split_on lit
port_matches_iff_example =
    port_matches_iff read_number reads_decimals 8001 (lit "22,8000-8080") spec_ports (omega arith)

port_in_range : port_matches read_number (some (lit "22,8000-8080")) (some 8001) ≡ true
unfolding port_matches read_number split_on is_digits decimal lit eq_text
port_in_range = refl

kinds : (classify_token (lit "10.0.0.0/8") [] ≡ cidr) × (classify_token (lit "alice@") [] ≡ user)
unfolding classify_token looks_like_cidr parse_ipv4 is_hex_or_colon split_on is_digits decimal lit
    eq_text starts_with has includes
kinds = (refl, refl)
