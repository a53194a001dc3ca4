-- ===== src/Policy/Tokens/Ports.antt =====
-- src/lib/policy/tokens.ts: destinations with ports, and what a port spec admits.
use headtower.Prelude.{
  ℕ, zero, suc, ◌≡◌, refl, ap, ◌∙◌, ◌⊎◌, inl, inr, ◌≢◌, true, false, Option, none, some, List, [],
  ◌∷◌, ◌++◌, Text, arith, ◌==◌, Bool-cases, length, split_on, split_on-ne-nil, is_digit, is_digits,
  all, any, eq_text, eq_text_iff, lit, last_index_of, last_index_of-split, includes, take, drop,
}
use headtower.Policy.Tokens.{DstParts, port_item, is_port_spec, peel, split_dst_ports}

-- What `splitDstPorts` answers: the whole token, or a reference and a port spec that make it up.
abbrev pub Peels : Text → DstParts → Type 0
Peels token r =
    ((r.host ≡ token) × (r.ports ≡ none))
    ⊎ ((p : Text) × (r.ports ≡ some p)
        × (is_port_spec p ≡ true)
        × (r.host ≢ [])
        × (r.host ++ b':' ∷ p ≡ token))

peel-Peels :
    (token : Text) (at : Option ℕ) → last_index_of b':' token ≡ at → Peels token (peel token at)
unfolding peel last_index_of
peel-Peels token none e = inl (refl, refl)
peel-Peels token (some zero) e = inl (refl, refl)
peel-Peels [] (some (suc idx)) e = cc
peel-Peels (a ∷ token) (some (suc idx)) e =
    elim (Bool-cases (is_port_spec (drop (suc idx) token))) [
      | inl spec ↦ rw spec (
          inr (
            drop (suc idx) token,
            refl,
            spec,
            (λ h. cc),
            last_index_of-split b':' (a ∷ token) (suc idx) e,
          ))
      | inr other ↦ rw other (inl (refl, refl))
    ]

-- splitDstPorts answers the whole token, or a reference and a port spec that make up the token.
pub split_dst_ports-Peels : (token : Text) → Peels token (split_dst_ports token)
unfolding split_dst_ports
split_dst_ports-Peels token = peel-Peels token (last_index_of b':' token) refl

includes-split_on :
    (c d : ℕ) (s : Text) → (c == d) ≡ false → includes s c ≡ any (λ p. includes p c) (split_on d s)
unfolding includes split_on
includes-split_on c d [] h = refl
includes-split_on c d (a ∷ s) h =
    let (p, ps, e) = split_on-ne-nil d s in
    let ih = rw e at (includes-split_on c d s h) in
    rw (e, split_on)
      (elim (Bool-cases (a == d)) [ inl hit ↦ ground arith | inr miss ↦ ground arith ])

digits_no_colon : (s : Text) → all is_digit s ≡ true → includes s b':' ≡ false
unfolding includes is_digit
digits_no_colon [] h = refl
digits_no_colon (a ∷ s) h = ground (arith, digits_no_colon s)

item_no_colon : (s : Text) → is_digits s ≡ true → includes s b':' ≡ false
unfolding is_digits
item_no_colon s h = ground (arith, digits_no_colon s)

star_no_colon : (s : Text) → eq_text s (lit "*") ≡ true → includes s b':' ≡ false
unfolding includes lit
star_no_colon s h = rw ((eq_text_iff s (lit "*")).0 h)

port_item_no_colon : (ps : List Text) → port_item ps ≡ true → any (λ p. includes p b':') ps ≡ false
unfolding port_item
port_item_no_colon [] h = refl
port_item_no_colon (lo ∷ []) h = ground (arith, star_no_colon lo, item_no_colon lo)
port_item_no_colon (lo ∷ hi ∷ []) h = ground (arith, item_no_colon lo, item_no_colon hi)
port_item_no_colon (lo ∷ hi ∷ more ∷ rest) h = cc

items_no_colon :
    (items : List Text)
    → all (λ item. port_item (split_on b'-' item)) items ≡ true
    → any (λ p. includes p b':') items ≡ false
items_no_colon [] h = refl
items_no_colon (item ∷ items) h = ground (
  arith,
  items_no_colon items,
  includes-split_on b':' b'-' item refl,
  port_item_no_colon (split_on b'-' item),
)

port_spec_no_colon : (s : Text) → is_port_spec s ≡ true → includes s b':' ≡ false
unfolding is_port_spec
port_spec_no_colon s h = includes-split_on b':' b',' s refl ∙ items_no_colon (split_on b',' s) h

last_index_of-none : (c : ℕ) (t : Text) → includes t c ≡ false → last_index_of c t ≡ none
unfolding last_index_of includes
last_index_of-none c [] h = refl
last_index_of-none c (a ∷ t) h = ground (arith, last_index_of-none c t)

last_index_of-append :
    (c : ℕ) (s t : Text) → includes t c ≡ false → last_index_of c (s ++ c ∷ t) ≡ some (length s)
unfolding last_index_of
last_index_of-append c [] t h = ground (arith, last_index_of-none c t)
last_index_of-append c (a ∷ s) t h = rw (last_index_of-append c s t h)

take-length {ℓ} : {A : Type ℓ} (s t : List A) → take (length s) (s ++ t) ≡ s
take-length [] t = refl
take-length (a ∷ s) t = ap (◌∷◌ a) (take-length s t)

drop-length {ℓ} :
    {A : Type ℓ} (s : List A) (c : A) (t : List A) → drop (suc (length s)) (s ++ c ∷ t) ≡ t
drop-length [] c t = refl
drop-length (a ∷ s) c t = drop-length s c t

-- A reference with a port spec behind a colon is taken apart into the two.
pub split_dst_ports-append :
    (host p : Text)
    → host ≢ []
    → is_port_spec p ≡ true
    → split_dst_ports (host ++ b':' ∷ p) ≡ record { host = host; ports = some p }
unfolding split_dst_ports peel
split_dst_ports-append [] p h spec = absurd (h refl)
split_dst_ports-append (a ∷ host) p h spec =
    rw (last_index_of-append b':' (a ∷ host) p (port_spec_no_colon p spec), split_dst_ports)
      (rw (drop-length host b':' p) (rw spec (rw (take-length host (b':' ∷ p)))))
