-- ===== src/Machines/Times.antt =====
-- src/lib/machines.ts: the amounts of `relativeTime`.
use headtower.Prelude.{ℕ, ◌*◌, ◌≤◌, ◌<◌, ◌≡◌, ◌↔◌, arith}
use headtower.Machines.{Distance, just_now, away, distance}

abbrev pub amount : Distance → ℕ
amount just_now = 1
amount (away n span) = n

-- The amount that relativeTime shows is zero exactly from 360 days on and before 365 days; just
-- now counts as one here.
pub distance-zero_iff :
    (ms : ℕ) → (amount (distance ms) ≡ 0) ↔ ((360 * 86400000 ≤ ms) × (ms < 365 * 86400000))
unfolding distance
distance-zero_iff ms = ground arith
