-- ===== src/Machines/Tests.antt =====
-- The times and routes of a machine on small inputs.
use headtower.Prelude.{includes, show, ◌*◌, ◌≤◌, ◌<◌, ◌≡◌, ◌↔◌, refl, [], ◌∷◌, lit, false, some}
use headtower.Machines.{distance, stamp, split_addresses}
use headtower.Machines.Times.{amount, distance-zero_iff}

distance-zero_iff_example :
    (amount (distance 31200000000) ≡ 0)
    ↔ ((360 * 86400000 ≤ 31200000000) × (31200000000 < 365 * 86400000))
distance-zero_iff_example = distance-zero_iff 31200000000

-- What is shown 361 days later.
zero_years : stamp false (distance 31190400000) ≡ lit "0y ago"
unfolding stamp lit distance show
zero_years = refl

addresses :
    split_addresses (lit "fd7a::1" ∷ lit "100.64.0.1" ∷ [])
    ≡ record { ipv4 = some (lit "100.64.0.1"); ipv6 = some (lit "fd7a::1") }
unfolding split_addresses includes lit
addresses = refl
