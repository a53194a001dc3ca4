-- ===== src/Config/Steps.antt =====
-- src/lib/config/index.ts: the writes of a section of `setConfig` that succeeds.
use headtower.Prelude.{
  ℕ, ◌≡◌, ◌⊎◌, refl, inl, inr, arith, false, List, Text, lit, is_empty, trim, Bool-cases,
}
use headtower.Settings.{Setting}
use headtower.Config.{
  Host, SettingKey, headscale_url, headscale_api_key, oidc_issuer, oidc_client_id,
  oidc_client_secret, agent_url, Change, untouched, cleared, given, HeadscaleInput, OidcInput,
  AgentInput,
}
use headtower.Config.Keys.{write}
use headtower.Config.Secrets.{encode_secret}
use headtower.Config.Urls.{Checked, url, wrong, normalize_url}
use headtower.Config.Write.{
  done, ◌>>=◌, ◌>>◌, put, remove, checked, put_secret, set_login_server, set_headscale, set_oidc,
  set_ssh_secret, set_enabled, set_agent, skip, fail,
}

pub Checked-cases :
    (c : Checked) → ((u : Text) × (c ≡ url u)) ⊎ ((message : Text) × (c ≡ wrong message))
Checked-cases (url u) = inl (u, refl)
Checked-cases (wrong message) = inr (message, refl)

module _ (host : Host) (draw : SettingKey → List ℕ) where
  -- The steps of a section that succeeds.
  pub set_headscale-done :
      (i : HeadscaleInput) (rows rows' : List Setting)
      → set_headscale host draw (given i) rows ≡ (done tt, rows')
      → (u : Text) × (normalize_url host (lit "Headscale URL") i.url ≡ url u)
        × (is_empty (trim i.api_key) ≡ false)
        × (set_login_server host draw i.login_server_url (
              write headscale_api_key
                (encode_secret host (draw headscale_api_key) (trim i.api_key))
                (write headscale_url u rows))
            ≡ (done tt, rows'))
  unfolding set_headscale put put_secret checked ◌>>=◌ ◌>>◌ fail
  set_headscale-done i rows rows' e =
      elim (Checked-cases (normalize_url host (lit "Headscale URL") i.url)) [
        | inl (u, p) ↦ (u, p, ground (arith, e, p), ground (arith, e, p))
        | inr (message, p) ↦ absurd (ground (arith, e, p))
      ]

  -- The steps of the section on the provider.
  pub set_oidc-done :
      (i : OidcInput) (rows rows' : List Setting)
      → set_oidc host draw (given i) rows ≡ (done tt, rows')
      → (u : Text) × (normalize_url host (lit "OIDC issuer") i.issuer ≡ url u)
        × (is_empty (trim i.client_id) ≡ false)
        × (is_empty (trim i.client_secret) ≡ false)
        × (write oidc_client_secret
              (encode_secret host (draw oidc_client_secret) (trim i.client_secret))
              (write oidc_client_id (trim i.client_id) (write oidc_issuer u rows))
            ≡ rows')
  unfolding set_oidc put put_secret checked ◌>>=◌ ◌>>◌ fail
  set_oidc-done i rows rows' e =
      elim (Checked-cases (normalize_url host (lit "OIDC issuer") i.issuer)) [
        | inl (u, p) ↦ (u, p, ground (arith, e, p), ground (arith, e, p), ground (arith, e, p))
        | inr (message, p) ↦ absurd (ground (arith, e, p))
      ]

  set_ssh_secret-done :
      (c : Change Text) (rows : List Setting) → (set_ssh_secret host draw c rows).0 ≡ done tt
  unfolding set_ssh_secret put_secret put remove skip
  set_ssh_secret-done untouched rows = refl
  set_ssh_secret-done cleared rows = refl
  set_ssh_secret-done (given raw) rows = elim (Bool-cases (is_empty (trim raw))) [
    | inl b ↦ rw b refl
    | inr b ↦ rw b refl
  ]

  -- The steps of the section on the agent.
  pub set_agent-done :
      (i : AgentInput) (rows rows' : List Setting)
      → set_agent host draw (given i) rows ≡ (done tt, rows')
      → (u : Text) × (normalize_url host (lit "Agent URL") (trim i.url) ≡ url u)
        × (set_enabled host draw i.enabled
              (set_ssh_secret host draw i.ssh_secret (write agent_url u rows)).1
            ≡ (done tt, rows'))
  unfolding set_agent put checked ◌>>=◌ ◌>>◌ fail
  set_agent-done i rows rows' e =
      elim (Checked-cases (normalize_url host (lit "Agent URL") (trim i.url))) [
        | inl (u, p) ↦
            (u, p, ground (arith, e, p, set_ssh_secret-done i.ssh_secret (write agent_url u rows)))
        | inr (message, p) ↦ absurd (ground (arith, e, p))
      ]
