-- ===== src/Config/Tests.antt =====
-- src/lib/config/index.ts on a host with two addresses and a cipher that hides nothing.
use headtower.Prelude.{
  decimal, show, is_digits, ℕ, ◌≡◌, ◌⊎◌, refl, subst, inl, inr, arith, true, false, ◌||◌, Option,
  none, some, List, [], ◌∷◌, ◌++◌, Text, lit, eq_text, is_empty, trim, starts_with, Num, ratio,
  if◌then◌else◌,
}
use headtower.Language.Sample.{sample}
use headtower.Settings.{Setting}
use headtower.Config.{Host, Url, SettingKey, given, cleared, HeadscaleInput, OidcInput}
use headtower.Config.Keys.{delete, write}
use headtower.Config.Urls.{strip_slashes, wrong, normalize_url}
use headtower.Config.Lawful.{Lawful}
use headtower.Config.Read.{get_config, has_headscale_connection}
use headtower.Config.Write.{
  done, ◌>>=◌, ◌>>◌, set_headscale, set_config, put, remove, checked, ConfigInput,
}
use headtower.Config.Actions.{Site, error, redirected, session_secret_state, ok, complete_setup}
use headtower.Config.Overlay.{config_after, oidc_now}
use headtower.Config.Minutes.{Readable}
use headtower.Config.Effect.{get_config-set_config}
use headtower.Config.Setup.{complete_setup-stuck}

abbrev ada : Url
ada = record { protocol = lit "http:"; host = lit "a"; href = lit "http://a/" }

abbrev bee : Url
bee = record { protocol = lit "https:"; host = lit "b"; href = lit "https://b" }

unfoldable parse : Text → Option Url
parse raw =
    if eq_text raw (lit "http://a") || eq_text raw (lit "http://a/")
    then some ada
    else if eq_text raw (lit "https://b")
    then some bee
    else none

unfoldable env : Text → Option Text
env name =
    if eq_text name (lit "HEADTOWER_SECRET")
    then some (lit "key")
    else if eq_text name (lit "HEADTOWER_SESSION_SECRET")
    then some (lit "0123456789abcdef0123456789abcdef")
    else none

abbrev zeros : List ℕ
zeros = 0 ∷ 0 ∷ 0 ∷ 0 ∷ 0 ∷ 0 ∷ 0 ∷ 0 ∷ 0 ∷ 0 ∷ 0 ∷ 0 ∷ []

abbrev tag : List ℕ
tag = zeros ++ (0 ∷ 0 ∷ 0 ∷ 0 ∷ [])

abbrev host : Host
host = record {
  language = sample;
  env = env;
  parse_url = parse;
  quote = λ s. s;
  sha256 = λ s. s;
  encrypt = λ key iv bytes. (bytes, tag);
  decrypt = λ key iv tag enc. some enc;
  utf8 = λ s. s;
  from_utf8 = λ s. s;
  base64 = λ bytes. bytes;
  from_base64 = λ s. s;
}

abbrev draw : SettingKey → List ℕ
draw k = zeros

parsed : (raw : Text) (u : Url) → parse raw ≡ some u → (ada ≡ u) ⊎ (bee ≡ u)
unfolding parse
parsed raw u e = ground (arith, e)

host-Lawful : Lawful host
unfolding parse strip_slashes eq_text lit
host-Lawful = record {
  reparse = λ raw u p w. elim (parsed raw u p) [
    | inl e ↦
        subst
          (λ (u : Url).
            (v : Url) × (parse (strip_slashes u.href) ≡ some v)
            × (v.protocol ≡ u.protocol)
            × (strip_slashes v.href ≡ strip_slashes u.href))
          e (ada, refl, refl, refl)
    | inr e ↦
        subst
          (λ (u : Url).
            (v : Url) × (parse (strip_slashes u.href) ≡ some v)
            × (v.protocol ≡ u.protocol)
            × (strip_slashes v.href ≡ strip_slashes u.href))
          e (bee, refl, refl, refl)
  ];
  parse_empty = refl;
  opens = λ key iv plain. refl;
  tag_length = λ key iv plain. refl;
  read_base64 = λ bytes. refl;
}

abbrev good_connection : HeadscaleInput
good_connection = record {
  url = lit "http://a/";
  api_key = lit " secret ";
  login_server_url = given (lit "https://b");
}

abbrev update : ConfigInput
update = record {
  headscale = given good_connection;
  oidc = cleared;
  agent =
      given (record { url = lit "https://b"; enabled = some false; ssh_secret = given (lit "s") });
  snapshots = given (ratio false 61 2);
}

abbrev updated : List Setting
updated = (set_config host draw update []).1

update_succeeds : set_config host draw update [] ≡ (done tt, updated)
unfolding set_config ◌>>=◌ ◌>>◌ put remove checked trim lit parse eq_text
update_succeeds = refl

readable : (n : Num) → update.snapshots ≡ given n → Readable host n
unfolding trim lit sample is_digits show decimal
readable n e = let same : ratio false 61 2 ≡ n = cc in subst (Readable host) same refl

get_config-set_config_example : get_config host updated ≡ config_after host update []
get_config-set_config_example =
    get_config-set_config host draw update [] updated host-Lawful (λ k. refl)
      ((λ i e. refl), (λ i e. refl), (λ i raw e f. refl), λ n e. readable n e) update_succeeds

-- What that configuration is.
read_back :
    (get_config host updated).headscale
    ≡ some (record {
      url = lit "http://a";
      api_key = lit "secret";
      login_server_url = lit "https://b";
    })
unfolding get_config set_config ◌>>◌ trim lit checked parse eq_text put remove write delete
    starts_with env
read_back = refl

abbrev bad_provider : OidcInput
bad_provider = record { issuer = lit "issuer"; client_id = lit "id"; client_secret = lit "s" }

abbrev empty_site : Site
empty_site = record { rows = []; trail = [] }

abbrev half : List Setting
half = (set_headscale host draw (given good_connection) []).1

half_written : set_headscale host draw (given good_connection) [] ≡ (done tt, half)
unfolding set_headscale trim lit ◌>>=◌ checked normalize_url parse eq_text ◌>>◌ put
half_written = refl

unconfigured : has_headscale_connection host [] ≡ false
unfolding has_headscale_connection env eq_text lit
unconfigured = refl

long_secret : session_secret_state host ≡ ok
unfolding session_secret_state env eq_text lit trim
long_secret = refl

named :
    (is_empty (trim bad_provider.client_id) || is_empty (trim bad_provider.client_secret)) ≡ false
unfolding trim lit
named = refl

no_issuer :
    normalize_url host (lit "OIDC issuer") bad_provider.issuer
    ≡ wrong (lit "OIDC issuer is not a valid URL: issuer.")
unfolding normalize_url parse eq_text lit
no_issuer = refl

abbrev complaint : Text
complaint = lit "OIDC issuer is not a valid URL: issuer."

complete_setup-stuck_example :
    (complete_setup host draw true good_connection (some bad_provider) empty_site
      ≡ (error complaint, record empty_site { rows = half }))
    × (complete_setup host draw true good_connection
          (some bad_provider)
          (record empty_site { rows = half })
        ≡ (redirected (lit "/machines"), record empty_site { rows = half }))
    × (oidc_now host half ≡ oidc_now host [])
complete_setup-stuck_example =
    complete_setup-stuck host draw true good_connection good_connection bad_provider
      (some bad_provider) empty_site half complaint host-Lawful (λ k. refl) refl unconfigured
      long_secret half_written named no_issuer
