-- ===== src/Config/Effect.antt =====
-- src/lib/config/index.ts: `setConfig` lays its sections over the configuration.
use headtower.Prelude.{arith, ℕ, ◌≡◌, refl, ◌∙◌, sym, ap, false, Option, List}
use headtower.Settings.{Setting}
use headtower.Config.{
  Host, SettingKey, snapshot_interval_minutes, Change, HeadscaleInput, HeadscaleConfig, OidcConfig,
  AgentConfig, HeadtowerConfig, ConfigSource,
}
use headtower.Config.Keys.{stored, same_key}
use headtower.Config.Lawful.{Lawful}
use headtower.Config.Read.{get_config, interval_config}
use headtower.Config.Write.{
  Ended, done, failed, M, ◌>>◌, go_on, set_headscale, set_oidc, set_snapshots, set_agent,
  ConfigInput, set_config,
}
use headtower.Config.Kept.{
  Keeps, set_headscale-Keeps, set_oidc-Keeps, set_snapshots-Keeps, set_agent-Keeps,
}
use headtower.Config.Readback.{Drawn}
use headtower.Config.Overlay.{
  headscale_now, oidc_now, agent_now, interval_now, headscale_after, oidc_after, agent_after,
  interval_after, config_after, Storable,
}
use headtower.Config.Done.{
  is_headscale, is_oidc, is_agent, headscale_now-kept, oidc_now-kept, headscale-done, oidc-done,
  agent-done, interval-done, oidc_after-kept, agent_after-kept, interval_after-kept,
}

then-done :
    (m n : M (Unit {0})) (rows rows' : List Setting)
    → (m >> n) rows ≡ (done tt, rows')
    → (middle : List Setting) × (m rows ≡ (done tt, middle)) × (n middle ≡ (done tt, rows'))
unfolding ◌>>◌
then-done m n rows rows' e = go (m rows) refl e
  where
    go :
        (r : Ended (Unit {0}) × List Setting)
        → m rows ≡ r
        → go_on (λ _. n) r ≡ (done tt, rows')
        → (middle : List Setting) × (m rows ≡ (done tt, middle)) × (n middle ≡ (done tt, rows'))
    go (done tt, middle) p e = (middle, p, e)
    go (failed message, middle) p e = absurd (cc)

-- The configuration of its sections.
abbrev assemble :
    Option HeadscaleConfig × ConfigSource
    → Option OidcConfig × ConfigSource
    → AgentConfig
    → ℕ
    → HeadtowerConfig
assemble (headscale, from) (oidc, from') agent interval = record {
  headscale = headscale;
  headscale_source = from;
  oidc = oidc;
  oidc_source = from';
  agent = agent;
  interval_minutes = interval;
}

assemble-eq :
    {h h' : Option HeadscaleConfig × ConfigSource} {o o' : Option OidcConfig × ConfigSource}
    {a a' : AgentConfig} {n n' : ℕ}
    → h ≡ h'
    → o ≡ o'
    → a ≡ a'
    → n ≡ n'
    → assemble h o a n ≡ assemble h' o' a' n'
assemble-eq p q r s = λ i. assemble (p i) (q i) (r i) (s i)

module _ (host : Host) (draw : SettingKey → List ℕ) where
  -- A computation that ends well, and a setting that it keeps.
  kept :
      (k : SettingKey) (m : M (Unit {0})) (rows rows' : List Setting)
      → Keeps k m
      → m rows ≡ (done tt, rows')
      → stored k rows' ≡ stored k rows
  kept k m rows rows' h e = ap (λ r. stored k r.1) (sym e) ∙ h.keeps rows

  -- The connection is apart from the provider.
  pub set_headscale-oidc :
      (c : Change HeadscaleInput) (rows rows' : List Setting)
      → set_headscale host draw c rows ≡ (done tt, rows')
      → oidc_now host rows' ≡ oidc_now host rows
  set_headscale-oidc c rows rows' e = oidc_now-kept host draw rows rows' (λ k h.
      kept k (set_headscale host draw c) rows rows'
        (set_headscale-Keeps k host draw c (ground (arith, h)) (ground (arith, h))
          (ground (arith, h)))
        e)

  -- Where setConfig succeeds, getConfig then reads, for each section: what it read before where
  -- the section is left alone, what the environment gives where it is cleared, and otherwise the
  -- trimmed values of the update with normalised addresses, each optional field by the same rule,
  -- with the secrets decoded. This is under the stated laws of the URL parser, the cipher and
  -- Base64, for random bytes of the right length and for texts and numbers that UTF-8 and the
  -- digits give back.
  pub get_config-set_config :
      (input : ConfigInput) (rows rows' : List Setting)
      → Lawful host
      → Drawn draw
      → Storable host input
      → set_config host draw input rows ≡ (done tt, rows')
      → get_config host rows' ≡ config_after host input rows
  unfolding set_config get_config
  get_config-set_config input rows rows' lawful drawn (ok1, ok2, ok3, ok4) e =
      let (r1, e1, f1) = then-done (set_headscale host draw input.headscale) _ rows rows' e in
      let (r2, e2, f2) = then-done (set_oidc host draw input.oidc) _ r1 rows' f1 in
      let (r3, e3, e4) =
        then-done (set_snapshots host draw input.snapshots) (set_agent host draw input.agent) r2
          rows' f2 in
      let by1 = λ (k : SettingKey) (h : is_headscale k ≡ false).
        kept k (set_headscale host draw input.headscale) rows r1
          (set_headscale-Keeps k host draw input.headscale (ground (arith, h)) (ground (arith, h))
            (ground (arith, h)))
          e1 in
      let by2 = λ (k : SettingKey) (h : is_oidc k ≡ false).
        kept k (set_oidc host draw input.oidc) r1 r2
          (set_oidc-Keeps k host draw input.oidc (ground (arith, h)) (ground (arith, h))
            (ground (arith, h)))
          e2 in
      let by3 = λ (k : SettingKey) (h : same_key k snapshot_interval_minutes ≡ false).
        kept k (set_snapshots host draw input.snapshots) r2 r3
          (set_snapshots-Keeps k host draw input.snapshots h) e3 in
      let by4 = λ (k : SettingKey) (h : is_agent k ≡ false).
        kept k (set_agent host draw input.agent) r3 rows'
          (set_agent-Keeps k host draw input.agent (ground (arith, h)) (ground (arith, h))
            (ground (arith, h)))
          e4 in
      let headscale : headscale_now host rows' ≡ headscale_after host input.headscale rows =
        headscale_now-kept host draw r1 rows'
          (λ k h. by4 k (ground (arith, h)) ∙ by3 k (ground (arith, h)) ∙ by2 k (ground (arith, h)))
        ∙ headscale-done host draw lawful drawn input.headscale rows r1 ok1 e1 in
      let oidc : oidc_now host rows' ≡ oidc_after host input.oidc rows =
        oidc_now-kept host draw r2 rows'
          (λ k h. by4 k (ground (arith, h)) ∙ by3 k (ground (arith, h)))
        ∙ oidc-done host draw lawful drawn input.oidc r1 r2 ok2 e2
        ∙ oidc_after-kept host draw input.oidc rows r1 (λ k h. by1 k (ground (arith, h))) in
      let interval : interval_now host rows' ≡ interval_after host input.snapshots rows =
        ap (interval_config host) (by4 snapshot_interval_minutes refl)
        ∙ interval-done host draw lawful drawn input.snapshots r2 r3 ok4 e3
        ∙ interval_after-kept host draw input.snapshots rows r2
            (by2 snapshot_interval_minutes refl ∙ by1 snapshot_interval_minutes refl) in
      let agent : agent_now host rows' ≡ agent_after host input.agent rows =
        agent-done host draw lawful drawn input.agent r3 rows' ok3 e4
        ∙ agent_after-kept host draw input.agent rows r3 (λ k h.
          by3 k (ground (arith, h)) ∙ by2 k (ground (arith, h)) ∙ by1 k (ground (arith, h))) in
      assemble-eq headscale oidc agent interval
