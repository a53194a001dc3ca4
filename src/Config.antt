-- ===== src/Config.antt =====
-- src/lib/config/index.ts and src/lib/config/types.ts: the configuration and what it is made of.
pub mod Keys
pub mod Secrets
pub mod Urls
pub mod Lawful
pub mod Read
pub mod Write
pub mod Actions
pub mod Kept
pub mod Steps
pub mod Readback
pub mod Minutes
pub mod Sections
pub mod Overlay
pub mod Done
pub mod Effect
pub mod Setup
pub mod Tests
use headtower.Prelude.{ℕ, Bool, Option, none, some, List, Text, is_empty, trim, if◌then◌else◌}
use headtower.Language.{Language}

-- `SETTING_KEYS`
pub data SettingKey : Type 0 where
  headscale_url headscale_api_key headscale_login_server_url : SettingKey
  oidc_issuer oidc_client_id oidc_client_secret : SettingKey
  agent_url agent_ssh_secret agent_enabled : SettingKey
  snapshot_interval_minutes : SettingKey

-- What the code reads of a parsed `URL`; `href` is `toString()`.
pub record Url : Type 0 where
  pub protocol : Text
  pub host : Text
  pub href : Text

-- What Node gives: the environment, the URL parser, `JSON.stringify` of a string, SHA-256,
-- AES-256-GCM (the ciphertext and its tag), UTF-8 and Base64. Bytes are numbers.
pub record Host : Type 0 where
  pub language : Language
  pub env : Text → Option Text
  pub parse_url : Text → Option Url
  pub quote : Text → Text
  pub sha256 : Text → List ℕ
  pub encrypt : List ℕ → List ℕ → List ℕ → List ℕ × List ℕ
  pub decrypt : List ℕ → List ℕ → List ℕ → List ℕ → Option (List ℕ)
  pub utf8 : Text → List ℕ
  pub from_utf8 : List ℕ → Text
  pub base64 : List ℕ → Text
  pub from_base64 : Text → List ℕ

-- `readEnv`
unfoldable pub read_env : Host → Text → Option Text
read_env host name = elim (host.env name) [
  | none ↦ none
  | some raw ↦ if is_empty (trim raw) then none else some (trim raw)
]

-- `HeadscaleConfig`
pub record HeadscaleConfig : Type 0 where
  pub url : Text
  pub api_key : Text
  pub login_server_url : Text

-- `OidcConfig`
pub record OidcConfig : Type 0 where
  pub issuer : Text
  pub client_id : Text
  pub client_secret : Text

-- `AgentConfig`
pub record AgentConfig : Type 0 where
  pub url : Option Text
  pub enabled : Bool
  pub ssh_secret : Option Text

-- `ConfigSource`; `absent` is "none"
pub data ConfigSource : Type 0 where
  db env absent : ConfigSource

-- `HeadtowerConfig`, its sources beside the two sections that have one.
pub record HeadtowerConfig : Type 0 where
  pub headscale : Option HeadscaleConfig
  pub headscale_source : ConfigSource
  pub oidc : Option OidcConfig
  pub oidc_source : ConfigSource
  pub agent : AgentConfig
  pub interval_minutes : ℕ

-- A field of an update: `undefined`, `null` or a value.
pub data Change {ℓ} (A : Type ℓ) : Type ℓ where
  untouched : Change A
  cleared : Change A
  given : A → Change A

-- The sections of `ConfigInput`
pub record HeadscaleInput : Type 0 where
  pub url : Text
  pub api_key : Text
  pub login_server_url : Change Text

pub record OidcInput : Type 0 where
  pub issuer : Text
  pub client_id : Text
  pub client_secret : Text

pub record AgentInput : Type 0 where
  pub url : Text
  pub enabled : Option Bool
  pub ssh_secret : Change Text
