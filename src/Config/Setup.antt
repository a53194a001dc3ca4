-- ===== src/Config/Setup.antt =====
-- src/app/setup/actions.ts: a setup whose provider is refused.
use headtower.Prelude.{
  ℕ, subst, ◌≡◌, refl, ap, Bool, true, false, ◌||◌, Option, some, List, Text, lit, is_empty, trim,
}
use headtower.Settings.{Setting}
use headtower.Config.{Host, SettingKey, given, untouched, HeadscaleInput, OidcInput}
use headtower.Config.Urls.{wrong, normalize_url}
use headtower.Config.Lawful.{Lawful}
use headtower.Config.Read.{has_headscale_connection, get_config, is_given}
use headtower.Config.Write.{
  done, failed, ◌>>=◌, ◌>>◌, go_on, checked, set_headscale, set_oidc, set_config,
}
use headtower.Config.Actions.{
  Site, error, redirected, session_secret_state, ok, secret_problem, conclude, store_setup,
  complete_setup,
}
use headtower.Config.Readback.{Drawn, Encodable}
use headtower.Config.Overlay.{oidc_now}
use headtower.Config.Done.{headscale-done}
use headtower.Config.Effect.{set_headscale-oidc}

module _ (host : Host) (draw : SettingKey → List ℕ) (recorded : Bool) where
  -- The provider is refused before anything of it is written.
  set_oidc-refused :
      (i : OidcInput) (rows : List Setting) (message : Text)
      → (is_empty (trim i.client_id) || is_empty (trim i.client_secret)) ≡ false
      → normalize_url host (lit "OIDC issuer") i.issuer ≡ wrong message
      → set_oidc host draw (given i) rows ≡ (failed message, rows)
  unfolding set_oidc ◌>>=◌ ◌>>◌ checked
  set_oidc-refused i rows message f p = rw (f, p, checked) refl

  set_config-refused :
      (h : HeadscaleInput) (i : OidcInput) (rows rows' : List Setting) (message : Text)
      → set_headscale host draw (given h) rows ≡ (done tt, rows')
      → set_oidc host draw (given i) rows' ≡ (failed message, rows')
      → set_config host draw
          (record { headscale = given h; oidc = given i; agent = untouched; snapshots = untouched })
          rows
        ≡ (failed message, rows')
  unfolding set_config ◌>>=◌ ◌>>◌
  set_config-refused h i rows rows' message e f = rw (e, go_on, f, go_on) refl

  connected-now :
      (h : HeadscaleInput) (rows rows' : List Setting)
      → Lawful host
      → Drawn draw
      → Encodable host (trim h.api_key)
      → set_headscale host draw (given h) rows ≡ (done tt, rows')
      → has_headscale_connection host rows' ≡ true
  unfolding has_headscale_connection get_config
  connected-now h rows rows' lawful drawn fits e =
      ap (λ p. is_given p.0)
        (headscale-done host draw lawful drawn (given h) rows rows'
          (λ i q.
            let same : h ≡ i = cc in
            subst (λ (x : HeadscaleInput). Encodable host (trim x.api_key)) same fits)
          e)

  complete_setup-again :
      (h : HeadscaleInput) (o : Option OidcInput) (site : Site)
      → has_headscale_connection host site.rows ≡ true
      → complete_setup host draw recorded h o site ≡ (redirected (lit "/machines"), site)
  unfolding complete_setup
  complete_setup-again h o site c = rw c refl

  complete_setup-refused :
      (h : HeadscaleInput) (i : OidcInput) (site : Site) (rows : List Setting) (message : Text)
      → has_headscale_connection host site.rows ≡ false
      → session_secret_state host ≡ ok
      → set_config host draw
          (record { headscale = given h; oidc = given i; agent = untouched; snapshots = untouched })
          site.rows
        ≡ (failed message, rows)
      → complete_setup host draw recorded h (some i) site
        ≡ (error message, record site { rows = rows })
  unfolding complete_setup secret_problem store_setup conclude
  complete_setup-refused h i site rows message c s e = rw (c, s, secret_problem, e, conclude) refl

  -- A setup with a good connection and a provider with a bad issuer fails with the message about
  -- the issuer, leaves the connection stored and writes no audit entry; after that every setup,
  -- also one with a good provider, answers the redirect and changes nothing, and no provider has
  -- come in. This is for a console without a connection, with a session secret that is long
  -- enough, under the laws of the URL parser and the cipher.
  pub complete_setup-stuck :
      (h h' : HeadscaleInput) (i : OidcInput) (o : Option OidcInput) (site : Site)
      (rows : List Setting) (message : Text)
      → Lawful host
      → Drawn draw
      → Encodable host (trim h.api_key)
      → has_headscale_connection host site.rows ≡ false
      → session_secret_state host ≡ ok
      → set_headscale host draw (given h) site.rows ≡ (done tt, rows)
      → (is_empty (trim i.client_id) || is_empty (trim i.client_secret)) ≡ false
      → normalize_url host (lit "OIDC issuer") i.issuer ≡ wrong message
      → (complete_setup host draw recorded h (some i) site
          ≡ (error message, record site { rows = rows }))
        × (complete_setup host draw recorded h' o (record site { rows = rows })
            ≡ (redirected (lit "/machines"), record site { rows = rows }))
        × (oidc_now host rows ≡ oidc_now host site.rows)
  complete_setup-stuck h h' i o site rows message lawful drawn fits c s e f p = (
    complete_setup-refused h i site rows message c s
        (set_config-refused h i site.rows rows message e (set_oidc-refused i rows message f p)),
    complete_setup-again h' o (record site { rows = rows })
        (connected-now h site.rows rows lawful drawn fits e),
    set_headscale-oidc host draw (given h) site.rows rows e,
  )
