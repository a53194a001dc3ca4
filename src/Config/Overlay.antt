-- ===== src/Config/Overlay.antt =====
-- src/lib/config/index.ts: what an update of the configuration is meant to give.
use headtower.Prelude.{ℕ, ◌≡◌, Option, none, some, List, Text, trim, Num}
use headtower.Settings.{Setting}
use headtower.Config.{
  Host, headscale_url, headscale_api_key, headscale_login_server_url, oidc_issuer, oidc_client_id,
  oidc_client_secret, agent_url, agent_ssh_secret, agent_enabled, snapshot_interval_minutes, Change,
  untouched, cleared, given, HeadscaleInput, OidcInput, AgentInput, HeadscaleConfig, OidcConfig,
  AgentConfig, HeadtowerConfig, ConfigSource, db,
}
use headtower.Config.Keys.{stored}
use headtower.Config.Read.{
  headscale_config, headscale_source, oidc_config, oidc_source, agent_config, interval_config,
}
use headtower.Config.Write.{ConfigInput}
use headtower.Config.Readback.{address, login_after, Encodable}
use headtower.Config.Minutes.{minutes_of, Readable}
use headtower.Config.Sections.{ssh_after, flag_after}

module _ (host : Host) where
  -- Each section of the configuration that a store gives.
  abbrev pub headscale_now : List Setting → Option HeadscaleConfig × ConfigSource
  headscale_now rows =
      let c =
        headscale_config host (stored headscale_url rows) (stored headscale_api_key rows)
          (stored headscale_login_server_url rows) in
      (c, headscale_source host (stored headscale_url rows) (stored headscale_api_key rows) c)

  abbrev pub oidc_now : List Setting → Option OidcConfig × ConfigSource
  oidc_now rows =
      let c =
        oidc_config host (stored oidc_issuer rows) (stored oidc_client_id rows)
          (stored oidc_client_secret rows) in
      (
        c,
        oidc_source host (stored oidc_issuer rows) (stored oidc_client_id rows)
            (stored oidc_client_secret rows) c,
      )

  abbrev pub agent_now : List Setting → AgentConfig
  agent_now rows =
      agent_config host (stored agent_url rows) (stored agent_ssh_secret rows)
        (stored agent_enabled rows)

  abbrev pub interval_now : List Setting → ℕ
  interval_now rows = interval_config host (stored snapshot_interval_minutes rows)

  -- The sections after an update: as they were, as the environment has them, or as given.
  abbrev pub headscale_after :
      Change HeadscaleInput → List Setting → Option HeadscaleConfig × ConfigSource
  headscale_after untouched rows = headscale_now rows
  headscale_after cleared rows =
      let c = headscale_config host none none none in (c, headscale_source host none none c)
  headscale_after (given i) rows = (
    some (record {
      url = address host i.url;
      api_key = trim i.api_key;
      login_server_url = login_after host i.login_server_url rows (address host i.url);
    }),
    db,
  )

  abbrev pub oidc_after : Change OidcInput → List Setting → Option OidcConfig × ConfigSource
  oidc_after untouched rows = oidc_now rows
  oidc_after cleared rows =
      let c = oidc_config host none none none in (c, oidc_source host none none none c)
  oidc_after (given i) rows = (
    some (record {
      issuer = address host i.issuer;
      client_id = trim i.client_id;
      client_secret = trim i.client_secret;
    }),
    db,
  )

  abbrev pub agent_after : Change AgentInput → List Setting → AgentConfig
  agent_after untouched rows = agent_now rows
  agent_after cleared rows = agent_config host none none none
  agent_after (given i) rows = record {
    url = some (address host (trim i.url));
    enabled = flag_after host i.enabled rows;
    ssh_secret = ssh_after host i.ssh_secret rows;
  }

  abbrev pub interval_after : Change Num → List Setting → ℕ
  interval_after untouched rows = interval_now rows
  interval_after cleared rows = interval_config host none
  interval_after (given n) rows = minutes_of n

  abbrev pub config_after : ConfigInput → List Setting → HeadtowerConfig
  config_after input rows =
      let (headscale, from) = headscale_after input.headscale rows in
      let (oidc, from') = oidc_after input.oidc rows in
      record {
        headscale = headscale;
        headscale_source = from;
        oidc = oidc;
        oidc_source = from';
        agent = agent_after input.agent rows;
        interval_minutes = interval_after input.snapshots rows;
      }

  -- The texts of an update that the store can give back.
  abbrev pub Storable : ConfigInput → Type 0
  Storable input =
      ((i : HeadscaleInput) → input.headscale ≡ given i → Encodable host (trim i.api_key))
      × ((i : OidcInput) → input.oidc ≡ given i → Encodable host (trim i.client_secret))
      × ((i : AgentInput) (raw : Text)
          → input.agent ≡ given i
          → i.ssh_secret ≡ given raw
          → Encodable host (trim raw))
      × ((n : Num) → input.snapshots ≡ given n → Readable host n)
