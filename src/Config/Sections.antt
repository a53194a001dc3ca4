-- ===== src/Config/Sections.antt =====
-- src/lib/config/index.ts: what `getConfig` reads of the provider and the agent after a `setConfig`
-- that succeeds.
use headtower.Prelude.{
  ℕ, ◌≡◌, refl, ◌∙◌, sym, ap, inl, inr, Bool, true, false, Option, none, some, List, Text, lit,
  eq_text, is_empty, trim, if◌then◌else◌, Bool-cases,
}
use headtower.Settings.{Setting}
use headtower.Config.{
  Host, read_env, SettingKey, oidc_issuer, oidc_client_id, oidc_client_secret, agent_url,
  agent_ssh_secret, agent_enabled, Change, untouched, cleared, given, OidcInput, AgentInput,
  OidcConfig, db,
}
use headtower.Config.Keys.{stored, same_key, stored-write, stored-delete, write}
use headtower.Config.Secrets.{encode_secret}
use headtower.Config.Urls.{try_normalize_url}
use headtower.Config.Lawful.{Lawful, normalize-again}
use headtower.Config.Read.{
  read_secret, oidc_config, oidc_source, provider, agent_config, enabled_or,
}
use headtower.Config.Write.{
  done, put, remove, put_secret, set_oidc, set_ssh_secret, set_enabled, set_agent, skip,
}
use headtower.Config.Steps.{set_oidc-done, set_agent-done}
use headtower.Config.Readback.{address, Drawn, Encodable, read_secret-encode}
use headtower.Config.Kept.{set_ssh_secret-Keeps, set_enabled-Keeps}

module _ (host : Host) where
  -- The secret and the flag of the agent after an update.
  abbrev pub ssh_after : Change Text → List Setting → Option Text
  ssh_after untouched rows =
      read_secret host (stored agent_ssh_secret rows) (lit "HEADTOWER_AGENT_SSH_SECRET")
  ssh_after cleared rows = read_env host (lit "HEADTOWER_AGENT_SSH_SECRET")
  ssh_after (given raw) rows =
      if is_empty (trim raw)
      then read_env host (lit "HEADTOWER_AGENT_SSH_SECRET")
      else some (trim raw)

  abbrev pub flag_after : Option Bool → List Setting → Bool
  flag_after none rows = enabled_or host (stored agent_enabled rows) true
  flag_after (some flag) rows = flag

  pub ssh_after-kept :
      (c : Change Text) (rows rows' : List Setting)
      → stored agent_ssh_secret rows' ≡ stored agent_ssh_secret rows
      → ssh_after c rows' ≡ ssh_after c rows
  ssh_after-kept untouched rows rows' e = rw e refl
  ssh_after-kept cleared rows rows' e = refl
  ssh_after-kept (given raw) rows rows' e = refl

  pub flag_after-kept :
      (c : Option Bool) (rows rows' : List Setting)
      → stored agent_enabled rows' ≡ stored agent_enabled rows
      → flag_after c rows' ≡ flag_after c rows
  flag_after-kept none rows rows' e = rw e refl
  flag_after-kept (some flag) rows rows' e = refl

module _ (host : Host) (draw : SettingKey → List ℕ) where
  module _ (lawful : Lawful host) (drawn : Drawn draw) where
    provided :
        (u id secret key : Text)
        → try_normalize_url host u ≡ some u
        → is_empty u ≡ false
        → ((name : Text) → read_secret host (some secret) name ≡ some key)
        → is_empty id ≡ false
        → is_empty key ≡ false
        → oidc_config host (some u) (some id) (some secret)
          ≡ some (record { issuer = u; client_id = id; client_secret = key })
    unfolding oidc_config provider
    provided u id secret key again there opened named full =
        rw (there, named, opened (lit "HEADTOWER_OIDC_CLIENT_SECRET"), full, provider, again) refl

    pub oidc-readback :
        (i : OidcInput) (rows rows' : List Setting)
        → Encodable host (trim i.client_secret)
        → set_oidc host draw (given i) rows ≡ (done tt, rows')
        → (oidc_config host
              (stored oidc_issuer rows')
              (stored oidc_client_id rows')
              (stored oidc_client_secret rows')
            ≡ some (record {
              issuer = address host i.issuer;
              client_id = trim i.client_id;
              client_secret = trim i.client_secret;
            }))
          × ((c : OidcConfig)
              → oidc_source host
                  (stored oidc_issuer rows')
                  (stored oidc_client_id rows')
                  (stored oidc_client_secret rows')
                  (some c)
                ≡ db)
    unfolding oidc_source
    oidc-readback i rows rows' ok e =
        let (u, p, named, full, wrote) = set_oidc-done host draw i rows rows' e in
        let secret = encode_secret host (draw oidc_client_secret) (trim i.client_secret) in
        let (again, there, first) = normalize-again host lawful (lit "OIDC issuer") i.issuer u p in
        let one = write oidc_issuer u rows in
        let two = write oidc_client_id (trim i.client_id) one in
        let at_issuer : stored oidc_issuer rows' ≡ some u =
          sym (ap (stored oidc_issuer) wrote)
          ∙ stored-write oidc_issuer oidc_client_secret secret two
          ∙ stored-write oidc_issuer oidc_client_id (trim i.client_id) one
          ∙ stored-write oidc_issuer oidc_issuer u rows in
        let at_id : stored oidc_client_id rows' ≡ some (trim i.client_id) =
          sym (ap (stored oidc_client_id) wrote)
          ∙ stored-write oidc_client_id oidc_client_secret secret two
          ∙ stored-write oidc_client_id oidc_client_id (trim i.client_id) one in
        let at_secret : stored oidc_client_secret rows' ≡ some secret =
          sym (ap (stored oidc_client_secret) wrote)
          ∙ stored-write oidc_client_secret oidc_client_secret secret two in
        let opened = λ (name : Text).
          read_secret-encode host draw lawful drawn oidc_client_secret (trim i.client_secret) name
            ok in
        (
          rw
              (
                at_issuer,
                at_id,
                at_secret,
                provided u (trim i.client_id) secret (trim i.client_secret) again there opened named
                    full,
                first,
                address,
              )
              refl,
          λ c. rw at_issuer refl,
        )

    ssh-readback :
        (c : Change Text) (rows : List Setting)
        → ((raw : Text) → c ≡ given raw → Encodable host (trim raw))
        → read_secret host
            (stored agent_ssh_secret (set_ssh_secret host draw c rows).1)
            (lit "HEADTOWER_AGENT_SSH_SECRET")
          ≡ ssh_after host c rows
    unfolding set_ssh_secret put_secret put remove skip read_secret
    ssh-readback untouched rows ok = refl
    ssh-readback cleared rows ok = rw (stored-delete agent_ssh_secret agent_ssh_secret rows) refl
    ssh-readback (given raw) rows ok = elim (Bool-cases (is_empty (trim raw))) [
      | inl b ↦ rw (b, stored-delete agent_ssh_secret agent_ssh_secret rows) refl
      | inr b ↦
          rw (b, stored-write agent_ssh_secret agent_ssh_secret _ rows)
            (read_secret-encode host draw lawful drawn agent_ssh_secret (trim raw)
              (lit "HEADTOWER_AGENT_SSH_SECRET") (ok raw refl))
    ]

    enabled-readback :
        (c : Option Bool) (rows : List Setting)
        → enabled_or host (stored agent_enabled (set_enabled host draw c rows).1) true
          ≡ flag_after host c rows
    unfolding set_enabled put skip eq_text lit
    enabled-readback none rows = refl
    enabled-readback (some true) rows = rw (stored-write agent_enabled agent_enabled _ rows) refl
    enabled-readback (some false) rows = rw (stored-write agent_enabled agent_enabled _ rows) refl

    linked :
        (u : Text) (secret flag : Option Text)
        → try_normalize_url host u ≡ some u
        → is_empty u ≡ false
        → agent_config host (some u) secret flag ≡ record {
          url = some u;
          enabled = enabled_or host flag true;
          ssh_secret = read_secret host secret (lit "HEADTOWER_AGENT_SSH_SECRET");
        }
    unfolding agent_config
    linked u secret flag again there = rw (there, again) refl

    pub agent-readback :
        (i : AgentInput) (rows rows' : List Setting)
        → ((raw : Text) → i.ssh_secret ≡ given raw → Encodable host (trim raw))
        → set_agent host draw (given i) rows ≡ (done tt, rows')
        → agent_config host
            (stored agent_url rows')
            (stored agent_ssh_secret rows')
            (stored agent_enabled rows')
          ≡ record {
            url = some (address host (trim i.url));
            enabled = flag_after host i.enabled rows;
            ssh_secret = ssh_after host i.ssh_secret rows;
          }
    agent-readback i rows rows' ok e =
        let (u, p, rest) = set_agent-done host draw i rows rows' e in
        let (again, there, first) =
          normalize-again host lawful (lit "Agent URL") (trim i.url) u p in
        let one = write agent_url u rows in
        let two = (set_ssh_secret host draw i.ssh_secret one).1 in
        let late : (k : SettingKey)
            → same_key k agent_enabled ≡ false
            → stored k rows' ≡ stored k two =
          λ k f.
            sym (ap (λ r. stored k r.1) rest)
            ∙ (set_enabled-Keeps k host draw i.enabled f).keeps two in
        let early : (k : SettingKey)
            → same_key k agent_ssh_secret ≡ false
            → stored k two ≡ stored k one =
          λ k f. (set_ssh_secret-Keeps k host draw i.ssh_secret f).keeps one in
        let at_url : stored agent_url rows' ≡ some u =
          late agent_url refl ∙ early agent_url refl ∙ stored-write agent_url agent_url u rows in
        let secret =
          ap (λ s. read_secret host s (lit "HEADTOWER_AGENT_SSH_SECRET"))
            (late agent_ssh_secret refl)
          ∙ ssh-readback i.ssh_secret one ok
          ∙ ssh_after-kept host i.ssh_secret rows one
              (stored-write agent_ssh_secret agent_url u rows) in
        let flag =
          ap (λ r. enabled_or host (stored agent_enabled r.1) true) (sym rest)
          ∙ enabled-readback i.enabled two
          ∙ flag_after-kept host i.enabled rows two
              (early agent_enabled refl ∙ stored-write agent_enabled agent_url u rows) in
        rw (at_url, linked u _ _ again there, secret, flag, first, address) refl
