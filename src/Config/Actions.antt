-- ===== src/Config/Actions.antt =====
-- The server actions that change the configuration: src/app/setup/actions.ts and, below
-- src/app/(app), settings/connection/actions.ts, settings/agent/actions.ts and setAgentEnabled of
-- dashboard/actions.ts.
use headtower.Prelude.{
  ℕ, ltb, not, Bool, Option, none, some, List, [], ◌∷◌, ◌++◌, Text, lit, length, is_empty, trim,
  show, if◌then◌else◌,
}
use headtower.Json.{Json, obj, str, bool, field, end}
use headtower.Rbac.{settings_write}
use headtower.Authz.{Session, AuditEntry, Gate, unauthenticated, denied, granted, authorize, audit}
use headtower.Settings.{Setting}
use headtower.Config.{
  Host, SettingKey, Change, untouched, cleared, given, HeadscaleConfig, HeadscaleInput, OidcInput,
  AgentInput,
}
use headtower.Config.Urls.{host_of}
use headtower.Config.Read.{get_config, has_headscale_connection, is_given}
use headtower.Config.Write.{Ended, done, failed, ConfigInput, set_config}

-- The tables that the actions touch.
pub record Site : Type 0 where
  pub rows : List Setting
  pub trail : List AuditEntry

-- What an action answers, with the error that a missing session throws and the redirect that ends
-- the setup.
pub data Answer : Type 0 where
  thrown : Answer
  error : Text → Answer
  success : Answer
  redirected : Text → Answer

-- The end of an action: an audit entry where the write succeeds. What a failed write has stored
-- stays.
unfoldable pub conclude :
    Answer → List AuditEntry → Site → Ended (Unit {0}) × List Setting → Answer × Site
conclude answer trail site (done _, rows) = (answer, record { rows = rows; trail = trail })
conclude answer trail site (failed message, rows) = (error message, record site { rows = rows })

unfoldable pub admitted : (Session → Answer × Site) → Site → Gate → Answer × Site
admitted act site unauthenticated = (thrown, site)
admitted act site (denied reason) = (error reason, site)
admitted act site (granted who) = act who

unfoldable pub config_entry : Text → Text → Option Json → Text → AuditEntry
config_entry action name detail actor = record {
  actor = actor;
  action = action;
  target_type = some (lit "config");
  target_id = none;
  target_name = some name;
  detail = detail;
}

-- An update of one section
abbrev pub only_headscale : HeadscaleInput → ConfigInput
only_headscale input = record {
  headscale = given input;
  oidc = untouched;
  agent = untouched;
  snapshots = untouched;
}

abbrev pub only_agent : AgentInput → ConfigInput
only_agent input = record {
  headscale = untouched;
  oidc = untouched;
  agent = given input;
  snapshots = untouched;
}

-- `sessionSecretState`
pub data SessionSecret : Type 0 where
  missing ok : SessionSecret
  short : ℕ → SessionSecret

abbrev pub min_session_secret_length : ℕ
min_session_secret_length = 32

unfoldable pub session_secret_state : Host → SessionSecret
session_secret_state host = elim (host.env (lit "HEADTOWER_SESSION_SECRET")) [
  | none ↦ missing
  | some raw ↦
      if is_empty (trim raw)
      then missing
      else if ltb (length (trim raw)) min_session_secret_length
      then short (length (trim raw))
      else ok
]

-- What the setup says where the secret does not do.
unfoldable pub secret_problem : SessionSecret → Option Text
secret_problem ok = none
secret_problem missing = some (
    lit "Set HEADTOWER_SESSION_SECRET (at least "
    ++ show min_session_secret_length
    ++ lit " characters) before enabling single sign-on, or you will be locked out.")
secret_problem (short n) = some (
    lit "HEADTOWER_SESSION_SECRET is too short ("
    ++ show n
    ++ lit " chars). Use at least "
    ++ show min_session_secret_length
    ++ lit " characters before enabling single sign-on.")

-- The key to store: the new one, or the one in force where the field is blank.
unfoldable pub kept_key : Text → Option HeadscaleConfig → Option Text
kept_key key current =
    if not (is_empty key) then some key else elim current [ none ↦ none | some c ↦ some c.api_key ]

abbrev pub trimmed : Option Text → Change Text
trimmed none = untouched
trimmed (some raw) = given (trim raw)

-- `null` of the page leaves the secret as it is.
abbrev pub flag_entry : Bool → Text
flag_entry enabled = if enabled then lit "agent.enable" else lit "agent.disable"

-- `recorded` says whether the store takes the audit entry.
module _ (host : Host) (draw : SettingKey → List ℕ) (recorded : Bool) where
  unfoldable pub write_connection :
      Session → Text → Bool → Option Text → Site → Option Text → Answer × Site
  unfolding conclude config_entry host_of audit set_config
  write_connection who url rotating login site none =
      (error (lit "Enter an API key. There is no stored key to keep."), site)
  write_connection who url rotating login site (some key) =
      conclude success
        (audit recorded
          (config_entry (lit "config.connection") (host_of host url) (
            some (
              obj (
                field (lit "host") (str (host_of host url))
                  (field (lit "rotatedKey") (bool rotating) end)))))
          who site.trail)
        site
        (set_config host draw
          (only_headscale (record { url = url; api_key = key; login_server_url = trimmed login }))
          site.rows)

  -- `saveConnection`
  unfoldable pub save_connection : Option Session → Text → Text → Option Text → Site → Answer × Site
  unfolding authorize admitted write_connection kept_key get_config
  save_connection session url key login site =
      admitted
        (λ who.
          if is_empty (trim url)
          then (error (lit "Enter the Headscale URL."), site)
          else write_connection who (trim url) (not (is_empty (trim key))) login site
              (kept_key (trim key) (get_config host site.rows).headscale))
        site (authorize session settings_write)

  -- `saveAgent`; `null` for the secret leaves it as it is
  unfoldable pub save_agent : Option Session → Text → Bool → Option Text → Site → Answer × Site
  unfolding authorize admitted conclude config_entry host_of audit set_config
  save_agent session url enabled ssh_secret site =
      admitted
        (λ who.
          if is_empty (trim url)
          then (error (lit "Enter the agent URL."), site)
          else conclude success
              (audit recorded
                (config_entry (lit "config.agent") (host_of host (trim url)) (
                  some (
                    obj (
                      field (lit "host") (str (host_of host (trim url))) (
                        field (lit "enabled") (bool enabled)
                          (field (lit "secretChanged") (bool (is_given ssh_secret)) end))))))
                who site.trail)
              site
              (set_config host draw
                (only_agent (record {
                  url = trim url;
                  enabled = some enabled;
                  ssh_secret = trimmed ssh_secret;
                }))
                site.rows))
        site (authorize session settings_write)

  unfoldable pub flip_agent : Session → Bool → Site → Option Text → Answer × Site
  unfolding conclude config_entry audit set_config
  flip_agent who enabled site none = (error (lit "No agent URL is configured yet."), site)
  flip_agent who enabled site (some url) =
      if is_empty url
      then (error (lit "No agent URL is configured yet."), site)
      else conclude success
          (audit recorded (config_entry (flag_entry enabled) (lit "agent") none) who site.trail)
          site
          (set_config host draw
            (only_agent (record { url = url; enabled = some enabled; ssh_secret = untouched }))
            site.rows)

  -- `setAgentEnabled`
  unfoldable pub set_agent_enabled : Option Session → Bool → Site → Answer × Site
  unfolding authorize admitted flip_agent get_config
  set_agent_enabled session enabled site =
      admitted (λ who. flip_agent who enabled site (get_config host site.rows).agent.url) site
        (authorize session settings_write)

  unfoldable pub setup_entry : HeadscaleInput → Option OidcInput → Text → AuditEntry
  unfolding config_entry host_of
  setup_entry headscale oidc actor =
      config_entry (lit "config.setup") (host_of host headscale.url)
        (some (
          obj (
            field (lit "headscale") (str (host_of host headscale.url)) (
              field (lit "identity")
                (str (if is_given oidc then lit "oidc" else lit "operator-mode")) end))))
        actor

  abbrev pub asked_provider : Option OidcInput → Change OidcInput
  asked_provider none = cleared
  asked_provider (some input) = given input

  unfoldable pub store_setup : HeadscaleInput → Option OidcInput → Site → Answer × Site
  unfolding conclude setup_entry set_config
  store_setup headscale oidc site =
      conclude (redirected (lit "/machines"))
        (if recorded
          then site.trail ++ setup_entry headscale oidc (lit "operator") ∷ []
          else site.trail)
        site
        (set_config host draw
          (record {
            headscale = given headscale;
            oidc = asked_provider oidc;
            agent = untouched;
            snapshots = untouched;
          })
          site.rows)

  -- `completeSetupAction`
  unfoldable pub complete_setup : HeadscaleInput → Option OidcInput → Site → Answer × Site
  unfolding has_headscale_connection session_secret_state secret_problem store_setup
  complete_setup headscale oidc site =
      if has_headscale_connection host site.rows
      then (redirected (lit "/machines"), site)
      else elim (if is_given oidc then secret_problem (session_secret_state host) else none) [
        | some problem ↦ (error problem, site)
        | none ↦ store_setup headscale oidc site
      ]
