-- ===== src/Config/Done.antt =====
-- src/lib/config/index.ts: each section of an update by itself, and the settings it depends on.
use headtower.Prelude.{
  if◌then◌else◌, arith, ℕ, ◌≡◌, refl, ◌∙◌, sym, ap, Bool, true, ◌||◌, Option, none, List, Text,
  trim, Num,
}
use headtower.Settings.{Setting}
use headtower.Config.{
  Host, SettingKey, headscale_url, headscale_api_key, headscale_login_server_url, oidc_issuer,
  oidc_client_id, oidc_client_secret, agent_url, agent_ssh_secret, agent_enabled,
  snapshot_interval_minutes, Change, untouched, cleared, given, HeadscaleInput, OidcInput,
  AgentInput,
}
use headtower.Config.Keys.{stored, same_key, stored-delete, delete}
use headtower.Config.Lawful.{Lawful}
use headtower.Config.Write.{
  done, ◌>>◌, remove, skip, set_headscale, set_oidc, set_snapshots, set_agent,
}
use headtower.Config.Readback.{Drawn, Encodable, headscale-readback}
use headtower.Config.Minutes.{Readable, interval-readback}
use headtower.Config.Sections.{ssh_after-kept, flag_after-kept, oidc-readback, agent-readback}
use headtower.Config.Overlay.{
  headscale_now, oidc_now, agent_now, interval_now, headscale_after, oidc_after, agent_after,
  interval_after,
}

abbrev pub is_headscale : SettingKey → Bool
is_headscale k =
    same_key k headscale_url
    || same_key k headscale_api_key
    || same_key k headscale_login_server_url

abbrev pub is_oidc : SettingKey → Bool
is_oidc k = same_key k oidc_issuer || same_key k oidc_client_id || same_key k oidc_client_secret

abbrev pub is_agent : SettingKey → Bool
is_agent k = same_key k agent_url || same_key k agent_ssh_secret || same_key k agent_enabled

any_gone :
    (a b c : Bool) (old : Option Text)
    → (a || b || c) ≡ true
    → (if c then none else if b then none else if a then none else old) ≡ none
any_gone a b c old h = ground (arith, h)

three_gone :
    (k a b c : SettingKey) (rows : List Setting)
    → (same_key k a || same_key k b || same_key k c) ≡ true
    → stored k (delete c (delete b (delete a rows))) ≡ none
three_gone k a b c rows h =
    rw
      (
        stored-delete k c (delete b (delete a rows)),
        stored-delete k b (delete a rows),
        stored-delete k a rows,
      )
      (any_gone (same_key k a) (same_key k b) (same_key k c) (stored k rows) h)

module _ (host : Host) (draw : SettingKey → List ℕ) where
  -- A section depends on its settings alone.
  pub headscale_now-kept :
      (rows rows' : List Setting)
      → ((k : SettingKey) → is_headscale k ≡ true → stored k rows' ≡ stored k rows)
      → headscale_now host rows' ≡ headscale_now host rows
  headscale_now-kept rows rows' h =
      rw (h headscale_url refl, h headscale_api_key refl, h headscale_login_server_url refl) refl

  pub oidc_now-kept :
      (rows rows' : List Setting)
      → ((k : SettingKey) → is_oidc k ≡ true → stored k rows' ≡ stored k rows)
      → oidc_now host rows' ≡ oidc_now host rows
  oidc_now-kept rows rows' h =
      rw (h oidc_issuer refl, h oidc_client_id refl, h oidc_client_secret refl) refl

  pub agent_now-kept :
      (rows rows' : List Setting)
      → ((k : SettingKey) → is_agent k ≡ true → stored k rows' ≡ stored k rows)
      → agent_now host rows' ≡ agent_now host rows
  agent_now-kept rows rows' h =
      rw (h agent_url refl, h agent_ssh_secret refl, h agent_enabled refl) refl

  module _ (lawful : Lawful host) (drawn : Drawn draw) where
    pub headscale-done :
        (c : Change HeadscaleInput) (rows rows' : List Setting)
        → ((i : HeadscaleInput) → c ≡ given i → Encodable host (trim i.api_key))
        → set_headscale host draw c rows ≡ (done tt, rows')
        → headscale_now host rows' ≡ headscale_after host c rows
    unfolding set_headscale skip remove ◌>>◌
    headscale-done untouched rows rows' ok e = ap (λ r. headscale_now host r.1) (sym e)
    headscale-done cleared rows rows' ok e =
        ap (λ r. headscale_now host r.1) (sym e)
        ∙ rw
            (
              three_gone headscale_url headscale_url headscale_api_key headscale_login_server_url
                  rows refl,
              three_gone headscale_api_key headscale_url headscale_api_key
                  headscale_login_server_url rows refl,
              three_gone headscale_login_server_url headscale_url headscale_api_key
                  headscale_login_server_url rows refl,
            )
            refl
    headscale-done (given i) rows rows' ok e =
        let (c, s) = headscale-readback host draw lawful drawn i rows rows' (ok i refl) e in
        rw (c, s _) refl

    pub oidc-done :
        (c : Change OidcInput) (rows rows' : List Setting)
        → ((i : OidcInput) → c ≡ given i → Encodable host (trim i.client_secret))
        → set_oidc host draw c rows ≡ (done tt, rows')
        → oidc_now host rows' ≡ oidc_after host c rows
    unfolding set_oidc skip remove ◌>>◌
    oidc-done untouched rows rows' ok e = ap (λ r. oidc_now host r.1) (sym e)
    oidc-done cleared rows rows' ok e =
        ap (λ r. oidc_now host r.1) (sym e)
        ∙ rw
            (
              three_gone oidc_issuer oidc_issuer oidc_client_id oidc_client_secret rows refl,
              three_gone oidc_client_id oidc_issuer oidc_client_id oidc_client_secret rows refl,
              three_gone oidc_client_secret oidc_issuer oidc_client_id oidc_client_secret rows refl,
            )
            refl
    oidc-done (given i) rows rows' ok e =
        let (c, s) = oidc-readback host draw lawful drawn i rows rows' (ok i refl) e in
        rw (c, s _) refl

    pub agent-done :
        (c : Change AgentInput) (rows rows' : List Setting)
        → ((i : AgentInput) (raw : Text)
            → c ≡ given i
            → i.ssh_secret ≡ given raw
            → Encodable host (trim raw))
        → set_agent host draw c rows ≡ (done tt, rows')
        → agent_now host rows' ≡ agent_after host c rows
    unfolding set_agent skip remove ◌>>◌
    agent-done untouched rows rows' ok e = ap (λ r. agent_now host r.1) (sym e)
    agent-done cleared rows rows' ok e =
        ap (λ r. agent_now host r.1) (sym e)
        ∙ rw
            (
              three_gone agent_url agent_url agent_ssh_secret agent_enabled rows refl,
              three_gone agent_ssh_secret agent_url agent_ssh_secret agent_enabled rows refl,
              three_gone agent_enabled agent_url agent_ssh_secret agent_enabled rows refl,
            )
            refl
    agent-done (given i) rows rows' ok e =
        agent-readback host draw lawful drawn i rows rows' (λ raw g. ok i raw refl g) e

    pub interval-done :
        (c : Change Num) (rows rows' : List Setting)
        → ((n : Num) → c ≡ given n → Readable host n)
        → set_snapshots host draw c rows ≡ (done tt, rows')
        → interval_now host rows' ≡ interval_after host c rows
    unfolding set_snapshots skip remove
    interval-done untouched rows rows' ok e = ap (λ r. interval_now host r.1) (sym e)
    interval-done cleared rows rows' ok e =
        ap (λ r. interval_now host r.1) (sym e)
        ∙ rw (stored-delete snapshot_interval_minutes snapshot_interval_minutes rows) refl
    interval-done (given n) rows rows' ok e = interval-readback host draw n rows rows' (ok n refl) e

  -- What a section gives does not depend on the settings of the sections before it.
  pub oidc_after-kept :
      (c : Change OidcInput) (rows rows' : List Setting)
      → ((k : SettingKey) → is_oidc k ≡ true → stored k rows' ≡ stored k rows)
      → oidc_after host c rows' ≡ oidc_after host c rows
  oidc_after-kept untouched rows rows' h = oidc_now-kept rows rows' h
  oidc_after-kept cleared rows rows' h = refl
  oidc_after-kept (given i) rows rows' h = refl

  pub agent_after-kept :
      (c : Change AgentInput) (rows rows' : List Setting)
      → ((k : SettingKey) → is_agent k ≡ true → stored k rows' ≡ stored k rows)
      → agent_after host c rows' ≡ agent_after host c rows
  agent_after-kept untouched rows rows' h = agent_now-kept rows rows' h
  agent_after-kept cleared rows rows' h = refl
  agent_after-kept (given i) rows rows' h =
      rw
        (
          ssh_after-kept host i.ssh_secret rows rows' (h agent_ssh_secret refl),
          flag_after-kept host i.enabled rows rows' (h agent_enabled refl),
        )
        refl

  pub interval_after-kept :
      (c : Change Num) (rows rows' : List Setting)
      → stored snapshot_interval_minutes rows' ≡ stored snapshot_interval_minutes rows
      → interval_after host c rows' ≡ interval_after host c rows
  interval_after-kept untouched rows rows' h = rw h refl
  interval_after-kept cleared rows rows' h = refl
  interval_after-kept (given n) rows rows' h = refl
