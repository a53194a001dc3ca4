-- ===== src/Config/Write.antt =====
-- `setConfig` of src/lib/config/index.ts: a computation on the store that an error may end, with
-- what has been written until then kept.
use headtower.Prelude.{
  ℕ, ◌/◌, ltb, Bool, not, ◌&&◌, ◌||◌, ◌==◌, Option, none, some, List, ◌++◌, Text, lit, is_empty,
  trim, show, Num, nan, infinite, ratio, if◌then◌else◌,
}
use headtower.Settings.{Setting}
use headtower.Config.{
  Host, SettingKey, headscale_url, headscale_api_key, headscale_login_server_url, oidc_issuer,
  oidc_client_id, oidc_client_secret, agent_url, agent_ssh_secret, agent_enabled,
  snapshot_interval_minutes, Change, untouched, cleared, given, HeadscaleInput, OidcInput,
  AgentInput,
}
use headtower.Config.Keys.{write, delete}
use headtower.Config.Secrets.{encode_secret}
use headtower.Config.Urls.{Checked, url, wrong, normalize_url}
use headtower.Config.Read.{max_snapshot_interval_minutes}

-- How a computation ends: with a value, or with a `ConfigError`.
pub data Ended (A : Type 0) : Type 0 where
  done : A → Ended A
  failed : Text → Ended A

abbrev pub M : Type 0 → Type 0
M A = List Setting → Ended A × List Setting

-- What is written stays where an error ends the rest.
abbrev pub go_on : {A B : Type 0} → (A → M B) → Ended A × List Setting → Ended B × List Setting
go_on f (done a, rows) = f a rows
go_on f (failed message, rows) = (failed message, rows)

infixl 5 ◌>>=◌ ◌>>◌
unfoldable pub ◌>>=◌ : {A B : Type 0} → M A → (A → M B) → M B
◌>>=◌ m f rows = go_on f (m rows)

unfoldable pub ◌>>◌ : {B : Type 0} → M (Unit {0}) → M B → M B
unfolding ◌>>=◌
m >> k = m >>= λ _. k

unfoldable pub skip : M (Unit {0})
skip rows = (done tt, rows)

unfoldable pub fail : {A : Type 0} → Text → M A
fail message rows = (failed message, rows)

unfoldable pub put : SettingKey → Text → M (Unit {0})
put k value rows = (done tt, write k value rows)

unfoldable pub remove : SettingKey → M (Unit {0})
remove k rows = (done tt, delete k rows)

unfoldable pub checked : Checked → M Text
checked (url u) rows = (done u, rows)
checked (wrong message) rows = (failed message, rows)

-- `ConfigInput`
pub record ConfigInput : Type 0 where
  pub headscale : Change HeadscaleInput
  pub oidc : Change OidcInput
  pub agent : Change AgentInput
  pub snapshots : Change Num

module _ (host : Host) (draw : SettingKey → List ℕ) where
  -- A secret, with the random bytes drawn for it.
  unfoldable pub put_secret : SettingKey → Text → M (Unit {0})
  unfolding encode_secret
  put_secret k plaintext = put k (encode_secret host (draw k) plaintext)

  unfoldable pub set_login_server : Change Text → M (Unit {0})
  set_login_server untouched = skip
  set_login_server cleared = remove headscale_login_server_url
  set_login_server (given raw) =
      if is_empty (trim raw) then remove headscale_login_server_url else do
        u ← checked (normalize_url host (lit "Login server URL") (trim raw))
        put headscale_login_server_url u

  -- The section on the connection
  unfoldable pub set_headscale : Change HeadscaleInput → M (Unit {0})
  unfolding put_secret set_login_server
  set_headscale untouched = skip
  set_headscale cleared = do
    remove headscale_url
    remove headscale_api_key
    remove headscale_login_server_url
  set_headscale (given input) =
      if is_empty (trim input.api_key) then fail (lit "A Headscale API key is required.") else do
        u ← checked (normalize_url host (lit "Headscale URL") input.url)
        put headscale_url u
        put_secret headscale_api_key (trim input.api_key)
        set_login_server input.login_server_url

  -- The section on the OIDC provider
  unfoldable pub set_oidc : Change OidcInput → M (Unit {0})
  unfolding normalize_url put_secret
  set_oidc untouched = skip
  set_oidc cleared = do remove oidc_issuer; remove oidc_client_id; remove oidc_client_secret
  set_oidc (given input) =
      if is_empty (trim input.client_id) || is_empty (trim input.client_secret)
      then fail (lit "An OIDC client id and secret are both required.")
      else do
        u ← checked (normalize_url host (lit "OIDC issuer") input.issuer)
        put oidc_issuer u
        put oidc_client_id (trim input.client_id)
        put_secret oidc_client_secret (trim input.client_secret)

  -- The interval as a number of minutes, its fraction cut off; minus zero is written as zero.
  unfoldable pub set_minutes : Num → M (Unit {0})
  set_minutes nan = fail (lit "The sampling interval must be 0 or more minutes.")
  set_minutes (infinite negative) = fail (lit "The sampling interval must be 0 or more minutes.")
  set_minutes (ratio negative n d) =
      if negative && not (n / d == 0)
      then fail (lit "The sampling interval must be 0 or more minutes.")
      else if ltb max_snapshot_interval_minutes (n / d)
      then fail (
          lit "The sampling interval cannot exceed "
          ++ show max_snapshot_interval_minutes
          ++ lit " minutes.")
      else put snapshot_interval_minutes (show (n / d))

  -- The section on the sampling
  unfoldable pub set_snapshots : Change Num → M (Unit {0})
  unfolding set_minutes
  set_snapshots untouched = skip
  set_snapshots cleared = remove snapshot_interval_minutes
  set_snapshots (given minutes) = set_minutes minutes

  unfoldable pub set_ssh_secret : Change Text → M (Unit {0})
  unfolding put_secret
  set_ssh_secret untouched = skip
  set_ssh_secret cleared = remove agent_ssh_secret
  set_ssh_secret (given raw) =
      if is_empty (trim raw)
      then remove agent_ssh_secret
      else put_secret agent_ssh_secret (trim raw)

  unfoldable pub set_enabled : Option Bool → M (Unit {0})
  set_enabled none = skip
  set_enabled (some flag) = put agent_enabled (if flag then lit "true" else lit "false")

  -- The section on the agent
  unfoldable pub set_agent : Change AgentInput → M (Unit {0})
  unfolding normalize_url set_ssh_secret set_enabled
  set_agent untouched = skip
  set_agent cleared = do remove agent_url; remove agent_ssh_secret; remove agent_enabled
  set_agent (given input) =
      if is_empty (trim input.url) then fail (lit "An agent URL is required.") else do
        u ← checked (normalize_url host (lit "Agent URL") (trim input.url))
        put agent_url u
        set_ssh_secret input.ssh_secret
        set_enabled input.enabled

  -- `setConfig`
  unfoldable pub set_config : ConfigInput → M (Unit {0})
  unfolding set_headscale set_oidc set_snapshots set_agent
  set_config input = do
    set_headscale input.headscale
    set_oidc input.oidc
    set_snapshots input.snapshots
    set_agent input.agent
