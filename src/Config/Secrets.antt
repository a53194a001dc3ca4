-- ===== src/Config/Secrets.antt =====
-- `encodeSecret` and `decodeSecret` of src/lib/config/index.ts.
use headtower.Prelude.{
  ℕ, Option, none, some, List, ◌++◌, Text, lit, length, starts_with, take, drop, if◌then◌else◌,
}
use headtower.Config.{Host, read_env}

abbrev pub aes_prefix : Text
aes_prefix = lit "a1:"

abbrev pub plain_prefix : Text
plain_prefix = lit "p1:"

module _ (host : Host) where
  -- `secretKey`
  unfoldable pub secret_key : Option (List ℕ)
  unfolding read_env
  secret_key = elim (read_env host (lit "HEADTOWER_SECRET")) [
    | none ↦ none
    | some secret ↦ some (host.sha256 secret)
  ]

  -- `encodeSecret`, by the twelve random bytes that it draws
  unfoldable pub encode_secret : List ℕ → Text → Text
  unfolding secret_key
  encode_secret iv plaintext = elim secret_key [
    | none ↦ plain_prefix ++ plaintext
    | some key ↦
        let (enc, tag) = host.encrypt key iv (host.utf8 plaintext) in
        aes_prefix ++ host.base64 (iv ++ (tag ++ enc))
  ]

  -- The bytes of an encrypted secret: the initial vector, the tag, the ciphertext.
  unfoldable pub decode_bytes : List ℕ → List ℕ → Option Text
  decode_bytes key raw =
      elim (host.decrypt key (take 12 raw) (take 16 (drop 12 raw)) (drop 28 raw)) [
        | none ↦ none
        | some plain ↦ some (host.from_utf8 plain)
      ]

  -- `decodeSecret`
  unfoldable pub decode_secret : Text → Option Text
  unfolding secret_key decode_bytes
  decode_secret text =
      if starts_with text plain_prefix
      then some (drop (length plain_prefix) text)
      else if starts_with text aes_prefix
      then elim secret_key [
        | none ↦ none
        | some key ↦ decode_bytes key (host.from_base64 (drop (length aes_prefix) text))
      ]
      else some text
