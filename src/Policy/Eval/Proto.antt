-- ===== src/Policy/Eval/Proto.antt =====
-- src/lib/policy/eval.ts: protocols of rules and of the `ip` entries of grants.
use headtower.Prelude.{
  ℕ, suc, Bool, true, false, not, ◌&&◌, ◌||◌, Option, none, some, [], ◌∷◌, Text, lit, eq_text, has,
  if◌then◌else◌, is_empty, trim, drop, take, index_of, is_digit, ◌==◌,
}
use headtower.Json.{Json, null, get}
use headtower.Language.{Language, object_prototype, to_text}
use headtower.Policy.Tokens.{port_matches}
use headtower.Policy.Model.{AclRule}

-- A protocol as compared by `===`: a text, or what `PROTO_ALIASES` inherits under that name.
pub data Proto : Type 0 where
  named inherited : Text → Proto

unfoldable pub eq_proto : Proto → Proto → Bool
eq_proto (named s) (named t) = eq_text s t
eq_proto (inherited s) (inherited t) = eq_text s t
eq_proto _ _ = false

-- The own entries of `PROTO_ALIASES`.
unfoldable pub own_alias : Text → Option Text
own_alias key =
    if eq_text key (lit "tcp") || eq_text key (lit "6")
    then some (lit "6")
    else if eq_text key (lit "udp") || eq_text key (lit "17")
    then some (lit "17")
    else if eq_text key (lit "icmp") || eq_text key (lit "1")
    then some (lit "1")
    else none

-- `PROTO_ALIASES[key]`
unfoldable pub proto_alias : Text → Option Proto
proto_alias key = elim (own_alias key) [
  | some s ↦ some (named s)
  | none ↦ if has key object_prototype then some (inherited key) else none
]

abbrev pub some_or {ℓ} : {A : Type ℓ} → Option A → A → A
some_or none b = b
some_or (some a) b = a

abbrev pub is_some {ℓ} : {A : Type ℓ} → Option A → Bool
is_some none = false
is_some (some a) = true

-- What `splitIpEntry` returns.
pub record IpEntry : Type 0 where
  pub proto : Option Proto
  pub ports : Text

module _ (language : Language) where
  unfoldable pub normalize_key : Text → Option Proto
  normalize_key key =
      if is_empty key || eq_text key (lit "any") || eq_text key (lit "*")
      then none
      else some (some_or (proto_alias key) (named key))

  -- `normalizeProto` of a text, and of any value
  unfoldable pub normalize_text : Option Text → Option Proto
  unfolding normalize_key
  normalize_text none = none
  normalize_text (some s) = normalize_key (language.lower (trim s))

  unfoldable pub normalize_proto : Option Json → Option Proto
  unfolding normalize_key
  normalize_proto none = none
  normalize_proto (some null) = none
  normalize_proto (some v) = normalize_key (language.lower (trim (to_text language v)))

  unfoldable pub proto_text : Proto → Text
  proto_text (named s) = s
  proto_text (inherited name) = language.show_inherited name

  -- `rule.raw?.proto`
  abbrev pub raw_proto : AclRule → Option Json
  raw_proto rule = elim rule.raw [ none ↦ none | some raw ↦ get (lit "proto") raw ]

  unfoldable pub admits : Option Proto → Option Proto → Bool
  admits none wanted = true
  admits (some p) none = true
  admits (some p) (some w) = eq_proto p w

  -- `protoOk`
  unfoldable pub proto_ok : AclRule → Option Proto → Bool
  unfolding admits
  proto_ok rule wanted = admits (normalize_proto (raw_proto rule)) wanted

  abbrev pub starts_port : Text → Bool
  starts_port [] = false
  starts_port (c ∷ s) = is_digit c || c == b'*'

  abbrev pub or_star : Text → Text
  or_star [] = lit "*"
  or_star (c ∷ s) = c ∷ s

  -- `splitIpEntry`
  unfoldable pub split_ip_entry : Text → IpEntry
  split_ip_entry entry =
      let trimmed = trim entry in
      elim (index_of b':' trimmed) [
        | none ↦
            if not (starts_port trimmed) && is_some (proto_alias (language.lower trimmed))
            then record { proto = normalize_text (some trimmed); ports = lit "*" }
            else record { proto = none; ports = trimmed }
        | some idx ↦ record {
          proto = normalize_text (some (take idx trimmed));
          ports = or_star (drop (suc idx) trimmed);
        }
      ]

  -- `ipEntryAllows`, its `ok`
  unfoldable pub ip_entry_allows : Text → Option ℕ → Option Proto → Bool
  unfolding admits
  ip_entry_allows entry port proto =
      let e = split_ip_entry entry in
      if not (port_matches language.number (some e.ports) port) then false else admits e.proto proto
