-- ===== src/Config/Minutes.antt =====
-- src/lib/config/index.ts: what `getConfig` reads of the interval after a `setConfig` that succeeds.
use headtower.Prelude.{
  ℕ, ◌/◌, ◌≡◌, ◌∙◌, sym, ap, inl, inr, arith, false, ◌&&◌, ◌==◌, not, ltb, some, List, trim, Num,
  ratio, nan, infinite, show, Bool-cases,
}
use headtower.Settings.{Setting}
use headtower.Config.{Host, SettingKey, snapshot_interval_minutes}
use headtower.Config.Keys.{stored, stored-write, write}
use headtower.Config.Read.{
  interval_config, normalize_snapshot_interval, clamp_interval, max_snapshot_interval_minutes,
}
use headtower.Config.Write.{done, put, set_minutes, fail}

-- The interval after an update; the numbers without an answer never succeed.
abbrev pub minutes_of : Num → ℕ
minutes_of nan = 0
minutes_of (infinite negative) = 0
minutes_of (ratio negative n d) = n / d

module _ (host : Host) where
  -- A number of minutes is read back from its digits.
  abbrev pub Readable : Num → Type 0
  Readable n = host.language.number (trim (show (minutes_of n))) ≡ ratio false (minutes_of n) 1

module _ (host : Host) (draw : SettingKey → List ℕ) where
  clamp_interval-small :
      (m : ℕ) → ltb max_snapshot_interval_minutes m ≡ false → clamp_interval (ratio false m 1) ≡ m
  unfolding clamp_interval
  clamp_interval-small m h = ground arith

  interval-shown :
      (n : Num)
      → Readable host n
      → ltb max_snapshot_interval_minutes (minutes_of n) ≡ false
      → interval_config host (some (show (minutes_of n))) ≡ minutes_of n
  unfolding interval_config normalize_snapshot_interval
  interval-shown n r h = rw r (clamp_interval-small (minutes_of n) h)

  pub interval-readback :
      (n : Num) (rows rows' : List Setting)
      → Readable host n
      → set_minutes host draw n rows ≡ (done tt, rows')
      → interval_config host (stored snapshot_interval_minutes rows') ≡ minutes_of n
  unfolding set_minutes fail put
  interval-readback nan rows rows' r e = absurd (ground (arith, e))
  interval-readback (infinite negative) rows rows' r e = absurd (ground (arith, e))
  interval-readback (ratio negative n d) rows rows' r e =
      elim (Bool-cases (negative && not (n / d == 0))) [
        | inl b ↦ absurd (ground (arith, e, b))
        | inr b ↦ elim (Bool-cases (ltb max_snapshot_interval_minutes (n / d))) [
          | inl c ↦ absurd (ground (arith, e, b, c))
          | inr c ↦
              let wrote : write snapshot_interval_minutes (show (n / d)) rows ≡ rows' =
                ground (arith, e, b, c) in
              let here =
                sym (ap (stored snapshot_interval_minutes) wrote)
                ∙ stored-write snapshot_interval_minutes snapshot_interval_minutes (show (n / d))
                    rows in
              ap (interval_config host) here ∙ interval-shown (ratio negative n d) r c
        ]
      ]
