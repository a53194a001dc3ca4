-- ===== src/Machines.antt =====
-- src/lib/machines.ts: tags, addresses, routes and relative times of a machine.
pub mod Times
pub mod View
pub mod Status
pub mod Issues
pub mod Filter
pub mod Url
pub mod Search
pub mod Examples
pub mod RouteLists
pub mod Tests
use headtower.Prelude.{
  ℕ, ◌+◌, ◌-◌, ◌/◌, Bool, true, false, not, ◌&&◌, Option, none, some, List, [], ◌∷◌, ◌++◌, Text,
  lit, has, unique, sort, keep, includes, is_empty, ltb, leb, show, if◌then◌else◌,
}
use headtower.Routes.{is_default_route}

-- `dedupe`
unfoldable pub dedupe : List Text → List Text
dedupe values = sort (unique (keep (λ v. not (is_empty v)) values))

-- `nodeTags`, by `tags`, `validTags` and `forcedTags`
unfoldable pub node_tags : Option (List Text) → Option (List Text) → Option (List Text) → List Text
unfolding dedupe
node_tags (some (tag ∷ tags)) valid forced = dedupe (tag ∷ tags)
node_tags _ none none = dedupe []
node_tags _ none (some forced) = dedupe forced
node_tags _ (some valid) none = dedupe (valid ++ [])
node_tags _ (some valid) (some forced) = dedupe (valid ++ forced)

-- `splitAddresses`: the first address with a colon and the first without one
pub record Addresses : Type 0 where
  pub ipv4 : Option Text
  pub ipv6 : Option Text

abbrev pub or_else : Option Text → Text → Option Text
or_else none addr = some addr
or_else (some first) addr = some first

unfoldable pub split_from : Addresses → List Text → Addresses
split_from found [] = found
split_from found (addr ∷ addrs) =
    let six = split_from (record { ipv4 = found.ipv4; ipv6 = or_else found.ipv6 addr }) addrs in
    let four = split_from (record { ipv4 = or_else found.ipv4 addr; ipv6 = found.ipv6 }) addrs in
    if includes addr b':' then six else four

unfoldable pub split_addresses : List Text → Addresses
unfolding split_from
split_addresses addrs = split_from (record { ipv4 = none; ipv6 = none }) addrs

-- The units of `relativeTime`, and what it says of a distance in milliseconds.
pub data Span : Type 0 where
  seconds minutes hours days months years : Span

pub data Distance : Type 0 where
  just_now : Distance
  away : ℕ → Span → Distance

unfoldable pub distance : ℕ → Distance
distance ms =
    let s = ms / 1000 in
    let m = s / 60 in
    let h = m / 60 in
    let d = h / 24 in
    let mo = d / 30 in
    if ltb s 10
    then just_now
    else if ltb s 60
    then away s seconds
    else if ltb m 60
    then away m minutes
    else if ltb h 24
    then away h hours
    else if ltb d 30
    then away d days
    else if ltb mo 12
    then away mo months
    else away (d / 365) years

unfoldable pub span_name : Span → Text
span_name seconds = lit "s"
span_name minutes = lit "m"
span_name hours = lit "h"
span_name days = lit "d"
span_name months = lit "mo"
span_name years = lit "y"

-- `stamp`
unfoldable pub stamp : Bool → Distance → Text
unfolding span_name
stamp future just_now = lit "just now"
stamp true (away n span) = lit "in " ++ show n ++ span_name span
stamp false (away n span) = show n ++ span_name span ++ lit " ago"

-- A time against the request's, both in milliseconds from the epoch: the distance, and whether it
-- lies in the future. `Date.parse` gives a sign and an amount, or nothing.
unfoldable pub apart : ℕ → Bool × ℕ → Bool × ℕ
apart now (true, before) = (false, now + before)
apart now (false, t) = if ltb now t then (true, t - now) else (false, now - t)

unfoldable pub stamp_at : ℕ → Option (Bool × ℕ) → Text
unfolding apart stamp distance
stamp_at now none = 8212 ∷ []
stamp_at now (some t) = let gap = apart now t in stamp gap.0 (distance gap.1)

-- `relativeTime`; the text for an unreadable time is a dash, code unit 8212
unfoldable pub relative_time : (Text → Option (Bool × ℕ)) → Option Text → ℕ → Text
unfolding stamp_at
relative_time parse none now = lit "never"
relative_time parse (some iso) now = if is_empty iso then lit "never" else stamp_at now (parse iso)

-- The three lists of routes of `toNodeView`.
unfoldable pub enabled_routes : List Text → List Text → List Text
unfolding is_default_route
enabled_routes available approved =
    sort (keep (λ r. has r approved && not (is_default_route r)) available)

unfoldable pub stale_approvals : List Text → List Text → List Text
unfolding is_default_route
stale_approvals available approved =
    sort (keep (λ r. not (has r available) && not (is_default_route r)) approved)

unfoldable pub pending_routes : List Text → List Text → List Text
unfolding is_default_route
pending_routes available approved =
    sort (keep (λ r. not (has r approved) && not (is_default_route r)) available)
