-- ===== src/Config/Read.antt =====
-- `getConfig` of src/lib/config/index.ts: the store before the environment.
use headtower.Prelude.{
  ℕ, ◌*◌, ◌/◌, min, max, Bool, true, false, ◌||◌, ◌==◌, Option, none, some, List, Text, lit,
  eq_text, is_empty, trim, Num, nan, infinite, ratio, if◌then◌else◌,
}
use headtower.Settings.{Setting}
use headtower.Config.{
  Host, read_env, headscale_url, headscale_api_key, headscale_login_server_url, oidc_issuer,
  oidc_client_id, oidc_client_secret, agent_url, agent_ssh_secret, agent_enabled,
  snapshot_interval_minutes, HeadscaleConfig, OidcConfig, AgentConfig, ConfigSource, db, env,
  absent, HeadtowerConfig,
}
use headtower.Config.Keys.{stored}
use headtower.Config.Secrets.{decode_secret}
use headtower.Config.Urls.{try_normalize_url}

abbrev pub default_snapshot_interval_minutes : ℕ
default_snapshot_interval_minutes = 15

abbrev pub min_snapshot_interval_minutes : ℕ
min_snapshot_interval_minutes = 1

abbrev pub max_snapshot_interval_minutes : ℕ
max_snapshot_interval_minutes = 24 * 60

-- The interval that a number stands for; minus zero is zero.
unfoldable pub clamp_interval : Num → ℕ
clamp_interval nan = default_snapshot_interval_minutes
clamp_interval (infinite negative) = default_snapshot_interval_minutes
clamp_interval (ratio negative n d) =
    if negative || n / d == 0
    then 0
    else min max_snapshot_interval_minutes (max min_snapshot_interval_minutes (n / d))

-- `a ?? b`
abbrev pub or_else {ℓ} : {A : Type ℓ} → Option A → Option A → Option A
or_else none b = b
or_else (some a) b = some a

abbrev pub is_given {ℓ} : {A : Type ℓ} → Option A → Bool
is_given none = false
is_given (some a) = true

-- What is there and not empty, as `if (x)` takes it.
abbrev pub filled : Option Text → Option Text
filled none = none
filled (some s) = if is_empty s then none else some s

abbrev pub source : Bool → ConfigSource
source from_db = if from_db then db else env

module _ (host : Host) where
  -- `normalizeSnapshotInterval`
  unfoldable pub normalize_snapshot_interval : Option Text → ℕ
  unfolding clamp_interval
  normalize_snapshot_interval none = default_snapshot_interval_minutes
  normalize_snapshot_interval (some raw) = clamp_interval (host.language.number (trim raw))

  -- A secret from the store, which may be unreadable, before the one in the environment.
  unfoldable pub read_secret : Option Text → Text → Option Text
  unfolding decode_secret read_env
  read_secret none name = read_env host name
  read_secret (some text) name = decode_secret host text

  unfoldable pub login_server : Option Text → Text → Text
  unfolding try_normalize_url
  login_server none normalized = normalized
  login_server (some raw) normalized = elim (try_normalize_url host raw) [
    | none ↦ normalized
    | some u ↦ u
  ]

  -- The connection, by the stored login server, the URL and the key.
  unfoldable pub connection : Option Text → Option Text → Option Text → Option HeadscaleConfig
  unfolding try_normalize_url login_server
  connection login none key = none
  connection login (some url) none = none
  connection login (some url) (some key) = elim (try_normalize_url host url) [
    | none ↦ none
    | some normalized ↦ some (record {
      url = normalized;
      api_key = key;
      login_server_url = login_server (filled login) normalized;
    })
  ]

  -- The part of `getConfig` on the connection, by what the store has.
  unfoldable pub headscale_config : Option Text → Option Text → Option Text → Option HeadscaleConfig
  unfolding connection read_env read_secret
  headscale_config db_url db_key db_login =
      connection db_login (filled (or_else db_url (read_env host (lit "HEADSCALE_URL"))))
        (filled (read_secret db_key (lit "HEADSCALE_API_KEY")))

  unfoldable pub headscale_source :
      Option Text → Option Text → Option HeadscaleConfig → ConfigSource
  headscale_source db_url db_key none = absent
  headscale_source db_url db_key (some _) = source (is_given db_url || is_given db_key)

  unfoldable pub provider : Option Text → Option Text → Option Text → Option OidcConfig
  unfolding try_normalize_url
  provider (some issuer) (some id) (some secret) = elim (try_normalize_url host issuer) [
    | none ↦ none
    | some normalized ↦
        some (record { issuer = normalized; client_id = id; client_secret = secret })
  ]
  provider _ _ _ = none

  -- The part on the OIDC provider.
  unfoldable pub oidc_config : Option Text → Option Text → Option Text → Option OidcConfig
  unfolding provider read_env read_secret
  oidc_config db_issuer db_id db_secret =
      provider (filled (or_else db_issuer (read_env host (lit "HEADTOWER_OIDC_ISSUER"))))
        (filled (or_else db_id (read_env host (lit "HEADTOWER_OIDC_CLIENT_ID"))))
        (filled (read_secret db_secret (lit "HEADTOWER_OIDC_CLIENT_SECRET")))

  unfoldable pub oidc_source :
      Option Text → Option Text → Option Text → Option OidcConfig → ConfigSource
  oidc_source db_issuer db_id db_secret none = absent
  oidc_source db_issuer db_id db_secret (some _) =
      source (is_given db_issuer || is_given db_id || is_given db_secret)

  abbrev pub maybe_url : Option Text → Option Text
  maybe_url none = none
  maybe_url (some raw) = try_normalize_url host raw

  abbrev pub enabled_or : Option Text → Bool → Bool
  enabled_or none default = default
  enabled_or (some flag) default = eq_text flag (lit "true")

  -- The part on the agent.
  unfoldable pub agent_config : Option Text → Option Text → Option Text → AgentConfig
  unfolding read_env read_secret
  agent_config db_url db_secret db_enabled =
      let url = maybe_url (filled (or_else db_url (read_env host (lit "HEADTOWER_AGENT_URL")))) in
      record {
        url = url;
        enabled = enabled_or db_enabled (is_given url);
        ssh_secret = read_secret db_secret (lit "HEADTOWER_AGENT_SSH_SECRET");
      }

  unfoldable pub interval_config : Option Text → ℕ
  unfolding normalize_snapshot_interval read_env
  interval_config db_interval =
      normalize_snapshot_interval
        (or_else db_interval (read_env host (lit "HEADTOWER_SNAPSHOT_INTERVAL_MINUTES")))

  -- `getConfig`
  unfoldable pub get_config : List Setting → HeadtowerConfig
  unfolding headscale_config headscale_source oidc_config oidc_source agent_config interval_config
      stored
  get_config rows =
      let headscale =
        headscale_config (stored headscale_url rows) (stored headscale_api_key rows)
          (stored headscale_login_server_url rows) in
      let oidc =
        oidc_config (stored oidc_issuer rows) (stored oidc_client_id rows)
          (stored oidc_client_secret rows) in
      record {
        headscale = headscale;
        headscale_source =
            headscale_source (stored headscale_url rows) (stored headscale_api_key rows) headscale;
        oidc = oidc;
        oidc_source =
            oidc_source (stored oidc_issuer rows) (stored oidc_client_id rows)
              (stored oidc_client_secret rows) oidc;
        agent =
            agent_config (stored agent_url rows) (stored agent_ssh_secret rows)
              (stored agent_enabled rows);
        interval_minutes = interval_config (stored snapshot_interval_minutes rows);
      }

  -- `hasHeadscaleConnection`
  unfoldable pub has_headscale_connection : List Setting → Bool
  unfolding get_config
  has_headscale_connection rows = is_given (get_config rows).headscale
