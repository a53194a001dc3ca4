-- ===== src/Config/Readback.antt =====
-- src/lib/config/index.ts: what `getConfig` reads after a `setConfig` that succeeds.
use headtower.Prelude.{
  ℕ, ◌≡◌, refl, ◌∙◌, sym, ap, inl, inr, arith, false, Option, none, some, List, Text, lit, length,
  is_empty, trim, if◌then◌else◌, Bool-cases,
}
use headtower.Settings.{Setting}
use headtower.Config.{
  Host, SettingKey, headscale_url, headscale_api_key, headscale_login_server_url, Change, untouched,
  cleared, given, HeadscaleInput, HeadscaleConfig, db,
}
use headtower.Config.Keys.{stored, same_key, stored-write, stored-delete, write}
use headtower.Config.Secrets.{encode_secret}
use headtower.Config.Urls.{url, normalize_url, try_normalize_url}
use headtower.Config.Lawful.{Lawful, decode-encode, normalize-again}
use headtower.Config.Read.{
  headscale_config, headscale_source, connection, login_server, filled, read_secret,
}
use headtower.Config.Write.{
  done, ◌>>=◌, put, remove, checked, set_login_server, set_headscale, skip,
}
use headtower.Config.Steps.{Checked-cases, set_headscale-done}
use headtower.Config.Kept.{set_login_server-Keeps}

-- Twelve random bytes for each secret.
abbrev pub Drawn : (SettingKey → List ℕ) → Type 0
Drawn draw = (k : SettingKey) → length (draw k) ≡ 12

module _ (host : Host) where
  -- The address that a text is written as.
  abbrev pub address : Text → Text
  address raw = elim (try_normalize_url host raw) [ none ↦ raw | some u ↦ u ]

  -- The login server after an update, for a connection to `u`.
  abbrev pub login_after : Change Text → List Setting → Text → Text
  login_after untouched rows u =
      login_server host (filled (stored headscale_login_server_url rows)) u
  login_after cleared rows u = u
  login_after (given raw) rows u = if is_empty (trim raw) then u else address (trim raw)

  -- A text that UTF-8 can write.
  abbrev pub Encodable : Text → Type 0
  Encodable s = host.from_utf8 (host.utf8 s) ≡ s

module _ (host : Host) (draw : SettingKey → List ℕ) where
  module _ (lawful : Lawful host) where
    address-eq : (label raw u : Text) → normalize_url host label raw ≡ url u → address host raw ≡ u
    address-eq label raw u p = rw ((normalize-again host lawful label raw u p).2, address) refl

    filled-some : (s : Text) → is_empty s ≡ false → filled (some s) ≡ some s
    filled-some s e = rw e refl

    login_server-some :
        (u v : Text)
        → try_normalize_url host u ≡ some u
        → is_empty u ≡ false
        → login_server host (filled (some u)) v ≡ u
    unfolding login_server
    login_server-some u v p e = rw (e, login_server, p) refl

    login-readback :
        (c : Change Text) (rows rows' : List Setting) (u : Text)
        → set_login_server host draw c rows ≡ (done tt, rows')
        → login_server host (filled (stored headscale_login_server_url rows')) u
          ≡ login_after host c rows u
    unfolding set_login_server login_server put remove skip checked ◌>>=◌
    login-readback untouched rows rows' u e =
        ap (λ r. login_server host (filled (stored headscale_login_server_url r.1)) u) (sym e)
    login-readback cleared rows rows' u e =
        let gone : stored headscale_login_server_url rows' ≡ none =
          sym (ap (λ r. stored headscale_login_server_url r.1) e)
          ∙ stored-delete headscale_login_server_url headscale_login_server_url rows in
        rw gone refl
    login-readback (given raw) rows rows' u e = elim (Bool-cases (is_empty (trim raw))) [
      | inl b ↦
          let gone : stored headscale_login_server_url rows' ≡ none =
            sym (ap (λ r. stored headscale_login_server_url r.1) (rw b at e))
            ∙ stored-delete headscale_login_server_url headscale_login_server_url rows in
          rw (b, gone) refl
      | inr b ↦ elim (Checked-cases (normalize_url host (lit "Login server URL") (trim raw))) [
        | inr (message, p) ↦ absurd (ground (arith, e, p, b))
        | inl (v, p) ↦
            let wrote : write headscale_login_server_url v rows ≡ rows' = ground (arith, e, p, b) in
            let here : stored headscale_login_server_url rows' ≡ some v =
              sym (ap (stored headscale_login_server_url) wrote)
              ∙ stored-write headscale_login_server_url headscale_login_server_url v rows in
            let (again, full, first) =
              normalize-again host lawful (lit "Login server URL") (trim raw) v p in
            rw (b, here, first, address) (login_server-some v u again full)
      ]
    ]

    module _ (drawn : Drawn draw) where
      pub read_secret-encode :
          (k : SettingKey) (s name : Text)
          → Encodable host s
          → read_secret host (some (encode_secret host (draw k) s)) name ≡ some s
      unfolding read_secret
      read_secret-encode k s name ok = decode-encode host lawful (draw k) s (drawn k) ok

      connected :
          (u secret key : Text) (login : Option Text)
          → try_normalize_url host u ≡ some u
          → is_empty u ≡ false
          → ((name : Text) → read_secret host (some secret) name ≡ some key)
          → is_empty key ≡ false
          → headscale_config host (some u) (some secret) login
            ≡ some (record {
              url = u;
              api_key = key;
              login_server_url = login_server host (filled login) u;
            })
      unfolding headscale_config connection
      connected u secret key login again there opened full =
          rw (there, opened (lit "HEADSCALE_API_KEY"), full, connection, again) refl

      login_after-kept :
          (c : Change Text) (rows rows' : List Setting) (u : Text)
          → stored headscale_login_server_url rows' ≡ stored headscale_login_server_url rows
          → login_after host c rows' u ≡ login_after host c rows u
      login_after-kept untouched rows rows' u e = rw e refl
      login_after-kept cleared rows rows' u e = refl
      login_after-kept (given raw) rows rows' u e = refl

      pub headscale-readback :
          (i : HeadscaleInput) (rows rows' : List Setting)
          → Encodable host (trim i.api_key)
          → set_headscale host draw (given i) rows ≡ (done tt, rows')
          → (headscale_config host
                (stored headscale_url rows')
                (stored headscale_api_key rows')
                (stored headscale_login_server_url rows')
              ≡ some (record {
                url = address host i.url;
                api_key = trim i.api_key;
                login_server_url = login_after host i.login_server_url rows (address host i.url);
              }))
            × ((c : HeadscaleConfig)
                → headscale_source host
                    (stored headscale_url rows')
                    (stored headscale_api_key rows')
                    (some c)
                  ≡ db)
      unfolding headscale_source
      headscale-readback i rows rows' ok e =
          let (u, p, full, rest) = set_headscale-done host draw i rows rows' e in
          let secret = encode_secret host (draw headscale_api_key) (trim i.api_key) in
          let (again, there, first) = normalize-again host lawful (lit "Headscale URL") i.url u p in
          let middle = write headscale_api_key secret (write headscale_url u rows) in
          let kept : (k : SettingKey)
              → same_key k headscale_login_server_url ≡ false
              → stored k rows' ≡ stored k middle =
            λ k f.
              sym (ap (λ r. stored k r.1) rest)
              ∙ (set_login_server-Keeps k host draw i.login_server_url f).keeps middle in
          let at_url : stored headscale_url rows' ≡ some u =
            kept headscale_url refl
            ∙ stored-write headscale_url headscale_api_key secret (write headscale_url u rows)
            ∙ stored-write headscale_url headscale_url u rows in
          let at_key : stored headscale_api_key rows' ≡ some secret =
            kept headscale_api_key refl
            ∙ stored-write headscale_api_key headscale_api_key secret
                (write headscale_url u rows) in
          let login : stored headscale_login_server_url middle
              ≡ stored headscale_login_server_url rows =
            stored-write headscale_login_server_url headscale_api_key secret
              (write headscale_url u rows)
            ∙ stored-write headscale_login_server_url headscale_url u rows in
          let after =
            login-readback i.login_server_url middle rows' u rest
            ∙ login_after-kept i.login_server_url rows middle u login in
          let opened =
            λ (name : Text). read_secret-encode headscale_api_key (trim i.api_key) name ok in
          (
            rw
                (
                  at_url,
                  at_key,
                  connected u secret (trim i.api_key) _ again there opened full,
                  after,
                  first,
                  address,
                )
                refl,
            λ c. rw at_url refl,
          )
