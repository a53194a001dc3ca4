-- ===== src/Config/Kept.antt =====
-- `setConfig` of src/lib/config/index.ts: which settings a section leaves alone, however it ends.
use headtower.Prelude.{
  ℕ, ◌≡◌, refl, ◌∙◌, Bool, true, false, ◌&&◌, ◌||◌, not, ◌==◌, ◌/◌, Option, none, some, List, Text,
  is_empty, trim, Num, nan, infinite, ratio, if◌then◌else◌,
}
use headtower.Settings.{Setting}
use headtower.Config.{
  Host, SettingKey, headscale_url, headscale_api_key, headscale_login_server_url, oidc_issuer,
  oidc_client_id, oidc_client_secret, agent_url, agent_ssh_secret, agent_enabled,
  snapshot_interval_minutes, Change, untouched, cleared, given, HeadscaleInput, OidcInput,
  AgentInput,
}
use headtower.Config.Keys.{stored, same_key, stored-write, stored-delete}
use headtower.Config.Urls.{Checked, url, wrong}
use headtower.Config.Write.{
  Ended, done, failed, M, ◌>>=◌, ◌>>◌, go_on, skip, fail, put, remove, checked, put_secret,
  set_login_server, set_headscale, set_oidc, set_minutes, set_snapshots, set_ssh_secret,
  set_enabled, set_agent,
}

module _ (k : SettingKey) where
  -- A computation that leaves the setting alone, whether it fails or not.
  pub record Keeps {A : Type 0} (m : M A) : Type 0 where
    pub keeps : (rows : List Setting) → stored k (m rows).1 ≡ stored k rows

  Keeps-skip : Keeps skip
  unfolding skip
  Keeps-skip = record { keeps = λ rows. refl }

  Keeps-fail : {A : Type 0} (message : Text) → Keeps (fail {A = A} message)
  unfolding fail
  Keeps-fail message = record { keeps = λ rows. refl }

  Keeps-put : (j : SettingKey) (value : Text) → same_key k j ≡ false → Keeps (put j value)
  unfolding put
  Keeps-put j value e = record { keeps = λ rows. stored-write k j value rows ∙ rw e refl }

  Keeps-remove : (j : SettingKey) → same_key k j ≡ false → Keeps (remove j)
  unfolding remove
  Keeps-remove j e = record { keeps = λ rows. stored-delete k j rows ∙ rw e refl }

  Keeps-checked : (c : Checked) → Keeps (checked c)
  unfolding checked
  Keeps-checked (url u) = record { keeps = λ rows. refl }
  Keeps-checked (wrong message) = record { keeps = λ rows. refl }

  go_on-kept :
      {A B : Type 0} (f : A → M B)
      → ((a : A) → Keeps (f a))
      → (r : Ended A × List Setting) → stored k (go_on f r).1 ≡ stored k r.1
  go_on-kept f h (done a, rows) = (h a).keeps rows
  go_on-kept f h (failed message, rows) = refl

  Keeps-bind :
      {A B : Type 0} (m : M A) (f : A → M B) → Keeps m → ((a : A) → Keeps (f a)) → Keeps (m >>= f)
  unfolding ◌>>=◌
  Keeps-bind m f g h = record { keeps = λ rows. go_on-kept f h (m rows) ∙ g.keeps rows }

  Keeps-then : {B : Type 0} (m : M (Unit {0})) (n : M B) → Keeps m → Keeps n → Keeps (m >> n)
  unfolding ◌>>◌
  Keeps-then m n g h = Keeps-bind m (λ _. n) g (λ _. h)

  Keeps-if : {A : Type 0} (b : Bool) (m n : M A) → Keeps m → Keeps n → Keeps (if b then m else n)
  Keeps-if true m n g h = g
  Keeps-if false m n g h = h

  module _ (host : Host) (draw : SettingKey → List ℕ) where
    Keeps-put_secret :
        (j : SettingKey) (s : Text) → same_key k j ≡ false → Keeps (put_secret host draw j s)
    unfolding put_secret
    Keeps-put_secret j s e = Keeps-put j _ e

    pub set_login_server-Keeps :
        (c : Change Text)
        → same_key k headscale_login_server_url ≡ false
        → Keeps (set_login_server host draw c)
    unfolding set_login_server
    set_login_server-Keeps untouched e = Keeps-skip
    set_login_server-Keeps cleared e = Keeps-remove _ e
    set_login_server-Keeps (given raw) e =
        Keeps-if (is_empty (trim raw)) _ _ (Keeps-remove _ e)
          (Keeps-bind _ _ (Keeps-checked _) (λ u. Keeps-put _ u e))

    pub set_headscale-Keeps :
        (c : Change HeadscaleInput)
        → same_key k headscale_url ≡ false
        → same_key k headscale_api_key ≡ false
        → same_key k headscale_login_server_url ≡ false
        → Keeps (set_headscale host draw c)
    unfolding set_headscale
    set_headscale-Keeps untouched d e f = Keeps-skip
    set_headscale-Keeps cleared d e f =
        Keeps-then _ _ (Keeps-remove _ d) (Keeps-then _ _ (Keeps-remove _ e) (Keeps-remove _ f))
    set_headscale-Keeps (given input) d e f =
        Keeps-if (is_empty (trim input.api_key)) _ _ (Keeps-fail _) (
          Keeps-bind _ _ (Keeps-checked _) (λ u. Keeps-then _ _ (Keeps-put _ u d) (
            Keeps-then _ _ (Keeps-put_secret _ _ e)
              (set_login_server-Keeps input.login_server_url f))))

    pub set_oidc-Keeps :
        (c : Change OidcInput)
        → same_key k oidc_issuer ≡ false
        → same_key k oidc_client_id ≡ false
        → same_key k oidc_client_secret ≡ false
        → Keeps (set_oidc host draw c)
    unfolding set_oidc
    set_oidc-Keeps untouched d e f = Keeps-skip
    set_oidc-Keeps cleared d e f =
        Keeps-then _ _ (Keeps-remove _ d) (Keeps-then _ _ (Keeps-remove _ e) (Keeps-remove _ f))
    set_oidc-Keeps (given input) d e f =
        Keeps-if (is_empty (trim input.client_id) || is_empty (trim input.client_secret)) _ _
          (Keeps-fail _)
          (Keeps-bind _ _ (Keeps-checked _) (λ u.
            Keeps-then _ _ (Keeps-put _ u d)
              (Keeps-then _ _ (Keeps-put _ _ e) (Keeps-put_secret _ _ f))))

    set_minutes-Keeps :
        (n : Num) → same_key k snapshot_interval_minutes ≡ false → Keeps (set_minutes host draw n)
    unfolding set_minutes
    set_minutes-Keeps nan e = Keeps-fail _
    set_minutes-Keeps (infinite negative) e = Keeps-fail _
    set_minutes-Keeps (ratio negative n d) e =
        Keeps-if (negative && not (n / d == 0)) _ _ (Keeps-fail _)
          (Keeps-if _ _ _ (Keeps-fail _) (Keeps-put _ _ e))

    pub set_snapshots-Keeps :
        (c : Change Num)
        → same_key k snapshot_interval_minutes ≡ false
        → Keeps (set_snapshots host draw c)
    unfolding set_snapshots
    set_snapshots-Keeps untouched e = Keeps-skip
    set_snapshots-Keeps cleared e = Keeps-remove _ e
    set_snapshots-Keeps (given n) e = set_minutes-Keeps n e

    pub set_ssh_secret-Keeps :
        (c : Change Text) → same_key k agent_ssh_secret ≡ false → Keeps (set_ssh_secret host draw c)
    unfolding set_ssh_secret
    set_ssh_secret-Keeps untouched e = Keeps-skip
    set_ssh_secret-Keeps cleared e = Keeps-remove _ e
    set_ssh_secret-Keeps (given raw) e =
        Keeps-if (is_empty (trim raw)) _ _ (Keeps-remove _ e) (Keeps-put_secret _ _ e)

    pub set_enabled-Keeps :
        (c : Option Bool) → same_key k agent_enabled ≡ false → Keeps (set_enabled host draw c)
    unfolding set_enabled
    set_enabled-Keeps none e = Keeps-skip
    set_enabled-Keeps (some flag) e = Keeps-put _ _ e

    pub set_agent-Keeps :
        (c : Change AgentInput)
        → same_key k agent_url ≡ false
        → same_key k agent_ssh_secret ≡ false
        → same_key k agent_enabled ≡ false
        → Keeps (set_agent host draw c)
    unfolding set_agent
    set_agent-Keeps untouched d e f = Keeps-skip
    set_agent-Keeps cleared d e f =
        Keeps-then _ _ (Keeps-remove _ d) (Keeps-then _ _ (Keeps-remove _ e) (Keeps-remove _ f))
    set_agent-Keeps (given input) d e f = Keeps-if (is_empty (trim input.url)) _ _ (Keeps-fail _) (
        Keeps-bind _ _ (Keeps-checked _) (λ u. Keeps-then _ _ (Keeps-put _ u d) (
          Keeps-then _ _ (set_ssh_secret-Keeps input.ssh_secret e)
            (set_enabled-Keeps input.enabled f))))
