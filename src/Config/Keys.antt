-- ===== src/Config/Keys.antt =====
-- `SETTING_KEYS` of src/lib/config/index.ts: the rows of the store by the key that the code names.
use headtower.Prelude.{
  ℕ, ◌==◌, ◌≡◌, refl, Bool, Option, none, some, List, Text, lit, eq_text, if◌then◌else◌,
}
use headtower.Settings.{Setting, read_setting, write_setting, delete_setting}
use headtower.Settings.Laws.{read-write, read-delete}
use headtower.Config.{
  SettingKey, headscale_url, headscale_api_key, headscale_login_server_url, oidc_issuer,
  oidc_client_id, oidc_client_secret, agent_url, agent_ssh_secret, agent_enabled,
  snapshot_interval_minutes,
}

-- The values of `SETTING_KEYS`
unfoldable pub key_text : SettingKey → Text
key_text headscale_url = lit "headscale.url"
key_text headscale_api_key = lit "headscale.api_key"
key_text headscale_login_server_url = lit "headscale.login_server_url"
key_text oidc_issuer = lit "oidc.issuer"
key_text oidc_client_id = lit "oidc.client_id"
key_text oidc_client_secret = lit "oidc.client_secret"
key_text agent_url = lit "agent.url"
key_text agent_ssh_secret = lit "agent.ssh_secret"
key_text agent_enabled = lit "agent.enabled"
key_text snapshot_interval_minutes = lit "snapshot.interval_minutes"

-- `stored[SETTING_KEYS.k]`
unfoldable pub stored : SettingKey → List Setting → Option Text
unfolding read_setting key_text
stored k rows = read_setting (key_text k) rows

unfoldable pub write : SettingKey → Text → List Setting → List Setting
unfolding write_setting key_text
write k value rows = write_setting (key_text k) value rows

unfoldable pub delete : SettingKey → List Setting → List Setting
unfolding delete_setting key_text
delete k rows = delete_setting (key_text k) rows

abbrev place : SettingKey → ℕ
place headscale_url = 0
place headscale_api_key = 1
place headscale_login_server_url = 2
place oidc_issuer = 3
place oidc_client_id = 4
place oidc_client_secret = 5
place agent_url = 6
place agent_ssh_secret = 7
place agent_enabled = 8
place snapshot_interval_minutes = 9

abbrev pub same_key : SettingKey → SettingKey → Bool
same_key j k = place j == place k

-- The keys are different texts.
eq_key : (j k : SettingKey) → eq_text (key_text j) (key_text k) ≡ same_key j k
unfolding key_text eq_text lit
eq_key headscale_url headscale_url = refl
eq_key headscale_url _ = refl
eq_key headscale_api_key headscale_url = refl
eq_key headscale_api_key _ = refl
eq_key headscale_login_server_url headscale_url = refl
eq_key headscale_login_server_url _ = refl
eq_key oidc_issuer headscale_url = refl
eq_key oidc_issuer _ = refl
eq_key oidc_client_id headscale_url = refl
eq_key oidc_client_id _ = refl
eq_key oidc_client_secret headscale_url = refl
eq_key oidc_client_secret _ = refl
eq_key agent_url headscale_url = refl
eq_key agent_url _ = refl
eq_key agent_ssh_secret headscale_url = refl
eq_key agent_ssh_secret _ = refl
eq_key agent_enabled headscale_url = refl
eq_key agent_enabled _ = refl
eq_key snapshot_interval_minutes headscale_url = refl
eq_key snapshot_interval_minutes _ = refl

pub stored-write :
    (j k : SettingKey) (value : Text) (rows : List Setting)
    → stored j (write k value rows) ≡ (if same_key j k then some value else stored j rows)
unfolding stored write
stored-write j k value rows = rw (read-write (key_text j) (key_text k) value rows, eq_key j k) refl

pub stored-delete :
    (j k : SettingKey) (rows : List Setting)
    → stored j (delete k rows) ≡ (if same_key j k then none else stored j rows)
unfolding stored delete
stored-delete j k rows = rw (read-delete (key_text j) (key_text k) rows, eq_key j k) refl
