-- ===== src/Config/Lawful.antt =====
-- src/lib/config/index.ts: what the code relies on in Node, and what follows for secrets and URLs.
use headtower.Prelude.{
  subst, ◌||◌, ◌≢◌, ℕ, ◌≡◌, refl, sym, ap, ◌∙◌, inl, inr, arith, true, false, none, some, List, [],
  ◌∷◌, ◌++◌, Text, lit, length, take, drop, take-append, drop-append, is_empty, starts_with,
  Option-cases, eq_text,
}
use headtower.Config.{Host, Url}
use headtower.Config.Secrets.{
  secret_key, encode_secret, decode_bytes, decode_secret, aes_prefix, plain_prefix,
}
use headtower.Config.Urls.{url, strip_slashes, is_web, check_url, normalize_url, try_normalize_url}

-- A URL parser that reads what it wrote, also without the slashes at its end; an authenticated
-- cipher with tags of sixteen bytes; Base64 that is read back.
pub record Lawful (host : Host) : Type 0 where
  pub reparse :
      (raw : Text) (u : Url)
      → host.parse_url raw ≡ some u
      → is_web u ≡ true
      → (v : Url) × (host.parse_url (strip_slashes u.href) ≡ some v)
        × (v.protocol ≡ u.protocol)
        × (strip_slashes v.href ≡ strip_slashes u.href)
  pub parse_empty : host.parse_url [] ≡ none
  pub opens :
      (key iv plain : List ℕ)
      → host.decrypt key iv (host.encrypt key iv plain).1 (host.encrypt key iv plain).0 ≡ some plain
  pub tag_length : (key iv plain : List ℕ) → length (host.encrypt key iv plain).1 ≡ 16
  pub read_base64 : (bytes : List ℕ) → host.from_base64 (host.base64 bytes) ≡ bytes

module _ (host : Host) (lawful : Lawful host) where
  unwrap :
      (key iv tag enc : List ℕ)
      → length iv ≡ 12
      → length tag ≡ 16
      → (take 12 (iv ++ (tag ++ enc)) ≡ iv)
        × (take 16 (drop 12 (iv ++ (tag ++ enc))) ≡ tag)
        × (drop 28 (iv ++ (tag ++ enc)) ≡ enc)
  unwrap key iv tag enc l m = (
    take-append 12 iv (tag ++ enc) l,
    rw (drop-append 12 0 iv (tag ++ enc) l) (take-append 16 tag enc m),
    drop-append 12 16 iv (tag ++ enc) l ∙ drop-append 16 0 tag enc m,
  )

  decode_bytes-encrypt :
      (key iv : List ℕ) (plaintext : Text)
      → length iv ≡ 12
      → host.from_utf8 (host.utf8 plaintext) ≡ plaintext
      → decode_bytes host key (
          iv
          ++ ((host.encrypt key iv (host.utf8 plaintext)).1
              ++ (host.encrypt key iv (host.utf8 plaintext)).0))
        ≡ some plaintext
  unfolding decode_bytes
  decode_bytes-encrypt key iv plaintext l e =
      let bytes = host.utf8 plaintext in
      let (p, q, r) =
        unwrap key iv (host.encrypt key iv bytes).1 (host.encrypt key iv bytes).0 l
          (lawful.tag_length key iv bytes) in
      rw
        (p, decode_bytes, q, decode_bytes, r, decode_bytes, lawful.opens key iv bytes, decode_bytes)
        (ap some e)

  encode-plain :
      (iv : List ℕ) (plaintext : Text)
      → secret_key host ≡ none
      → encode_secret host iv plaintext ≡ plain_prefix ++ plaintext
  unfolding encode_secret
  encode-plain iv plaintext p = rw (p, encode_secret) refl

  encode-encrypt :
      (iv key : List ℕ) (plaintext : Text)
      → secret_key host ≡ some key
      → encode_secret host iv plaintext
        ≡ aes_prefix
          ++ host.base64 (
              iv
              ++ ((host.encrypt key iv (host.utf8 plaintext)).1
                  ++ (host.encrypt key iv (host.utf8 plaintext)).0))
  unfolding encode_secret
  encode-encrypt iv key plaintext p = rw (p, encode_secret) refl

  decode-plain : (s : Text) → decode_secret host (plain_prefix ++ s) ≡ some s
  unfolding decode_secret starts_with lit
  decode-plain s = refl

  decode-aes :
      (key : List ℕ) (s : Text)
      → secret_key host ≡ some key
      → decode_secret host (aes_prefix ++ s) ≡ decode_bytes host key (host.from_base64 s)
  unfolding decode_secret starts_with lit
  decode-aes key s p = rw (p, decode_secret) refl

  -- A secret is read back as it was written, with the environment of the write.
  pub decode-encode :
      (iv : List ℕ) (plaintext : Text)
      → length iv ≡ 12
      → host.from_utf8 (host.utf8 plaintext) ≡ plaintext
      → decode_secret host (encode_secret host iv plaintext) ≡ some plaintext
  decode-encode iv plaintext l e = elim (Option-cases (secret_key host)) [
    | inl p ↦ rw (encode-plain iv plaintext p) (decode-plain plaintext)
    | inr (key, p) ↦
        rw (encode-encrypt iv key plaintext p, decode-aes key _ p, lawful.read_base64)
          (decode_bytes-encrypt key iv plaintext l e)
  ]

  normalize-parsed :
      (label raw : Text) (v : Url)
      → host.parse_url raw ≡ some v
      → normalize_url host label raw ≡ check_url label v
  unfolding normalize_url
  normalize-parsed label raw v p = rw (p, normalize_url) refl

  normalize-refused :
      (label raw u : Text) → host.parse_url raw ≡ none → normalize_url host label raw ≢ url u
  unfolding normalize_url
  normalize-refused label raw u p e = cc (rw (p, normalize_url) at e)

  check-url_web :
      (label u : Text) (v : Url)
      → check_url label v ≡ url u
      → (is_web v ≡ true) × (strip_slashes v.href ≡ u)
  unfolding check_url
  check-url_web label u v e = ground (arith, e)

  web-check :
      (label : Text) (v : Url) → is_web v ≡ true → check_url label v ≡ url (strip_slashes v.href)
  unfolding check_url
  web-check label v w = rw w refl

  try-checked :
      (raw u : Text)
      → normalize_url host (lit "url") raw ≡ url u
      → try_normalize_url host raw ≡ some u
  unfolding try_normalize_url
  try-checked raw u e = rw (e, try_normalize_url) refl

  parsed-given : (raw : Text) (v : Url) → host.parse_url raw ≡ some v → is_empty raw ≡ false
  parsed-given [] v p = cc (lawful.parse_empty)
  parsed-given (c ∷ raw) v p = refl

  try-parsed :
      (raw : Text) (v : Url)
      → host.parse_url raw ≡ some v
      → is_web v ≡ true
      → try_normalize_url host raw ≡ some (strip_slashes v.href)
  try-parsed raw v p w =
      try-checked raw _ (normalize-parsed (lit "url") raw v p ∙ web-check (lit "url") v w)

  -- A normalised address is one, and normalising it again changes nothing.
  pub normalize-again :
      (label raw u : Text)
      → normalize_url host label raw ≡ url u
      → (try_normalize_url host u ≡ some u)
        × (is_empty u ≡ false)
        × (try_normalize_url host raw ≡ some u)
  normalize-again label raw u e = elim (Option-cases (host.parse_url raw)) [
    | inl p ↦ absurd (normalize-refused label raw u p e)
    | inr (v, p) ↦
        let (w, h) = check-url_web label u v (sym (normalize-parsed label raw v p) ∙ e) in
        let (v', p', q, r) = lawful.reparse raw v p w in
        let p'' : host.parse_url u ≡ some v' = rw (sym h) p' in
        let w' : is_web v' ≡ true =
          subst (λ s. (eq_text s (lit "http:") || eq_text s (lit "https:")) ≡ true) (sym q) w in
        (
          try-parsed u v' p'' w' ∙ ap some (r ∙ h),
          parsed-given u v' p'',
          try-parsed raw v p w ∙ ap some h,
        )
  ]
