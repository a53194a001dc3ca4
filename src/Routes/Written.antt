-- ===== src/Routes/Written.antt =====
-- src/app/(app)/routes/actions.ts: the sets of routes that the actions write.
use headtower.Prelude.{
  ◌≡◌, refl, arith, Bool, true, false, not, ◌&&◌, ◌||◌, List, [], ◌∷◌, ◌++◌, Text, eq_text, has,
  unique, sort, keep, has-keep, has-append, has-unique, has-sort, eq_text_iff,
}
use headtower.Routes.{NodeRoutes, is_default_route, carried}
use headtower.Routes.Batch.{ApproveAllEntry}
use headtower.Routes.Actions.{route_next, exit_next, batch_next}

-- Whether a node advertises a route or has it approved.
abbrev pub carries : NodeRoutes → Text → Bool
carries state r = has r state.approved || has r state.available

pub has-carried : (state : NodeRoutes) (r : Text) → has r (carried state) ≡ carries state r
unfolding carried
has-carried state r =
    rw
      (
        has-unique r (state.approved ++ state.available),
        has-append r state.approved state.available,
      )
      refl

base_has :
    (state : NodeRoutes) (r : Text) (snapshot : List Text)
    → has r (keep (λ route. has route (carried state)) snapshot)
      ≡ (carries state r && has r snapshot)
base_has state r snapshot =
    rw (has-keep (λ route. has route (carried state)) r snapshot, has-carried state r) refl

has_all : (xs ys : List Text) (r : Text) → has r (sort (unique (xs ++ ys))) ≡ (has r xs || has r ys)
has_all xs ys r =
    rw (has-sort r (unique (xs ++ ys)), has-unique r (xs ++ ys), has-append r xs ys) refl

-- What an approval of one route writes.
pub has-route_next :
    (state : NodeRoutes) (cidr : Text) (snapshot : List Text) (r : Text)
    → has r (route_next state cidr true snapshot)
      ≡ (carries state r && has r snapshot || eq_text r cidr)
unfolding route_next has
has-route_next state cidr snapshot r =
    rw
      (
        has_all (keep (λ route. has route (carried state)) snapshot) (cidr ∷ []) r,
        base_has state r snapshot,
      )
      (ground arith)

pub has-route_next_revoked :
    (state : NodeRoutes) (cidr : Text) (snapshot : List Text) (r : Text)
    → has r (route_next state cidr false snapshot)
      ≡ (not (eq_text r cidr) && (carries state r && has r snapshot))
unfolding route_next
has-route_next_revoked state cidr snapshot r =
    rw
      (
        has-keep (λ route. not (eq_text route cidr)) r
            (keep (λ route. has route (carried state)) snapshot),
        base_has state r snapshot,
      )
      refl

pub has-exit_next :
    (state : NodeRoutes) (r : Text)
    → has r (exit_next state true)
      ≡ (has r state.approved || is_default_route r && has r state.available)
unfolding exit_next
has-exit_next state r =
    rw
      (
        has-unique r (state.approved ++ keep is_default_route state.available),
        has-append r state.approved (keep is_default_route state.available),
        has-keep is_default_route r state.available,
      )
      refl

pub has-batch_next :
    (state : NodeRoutes) (entry : ApproveAllEntry) (r : Text)
    → has r (batch_next state entry) ≡ (
        carries state r && has r entry.approved_routes
        || has r state.available && has r entry.cidrs)
unfolding batch_next
has-batch_next state entry r =
    rw
      (
        has_all (keep (λ route. has route (carried state)) entry.approved_routes)
            (keep (λ cidr. has cidr state.available) entry.cidrs) r,
        base_has state r entry.approved_routes,
        has-keep (λ cidr. has cidr state.available) r entry.cidrs,
      )
      refl

-- Every route of each of these sets is one that the node carries.
pub route_next-carried :
    (state : NodeRoutes) (cidr : Text) (approve : Bool) (snapshot : List Text)
    → approve && not (has cidr state.available) ≡ false
    → (r : Text) → has r (route_next state cidr approve snapshot) ≡ true
    → carries state r ≡ true
route_next-carried state cidr true snapshot h r e =
    ground (arith, has-route_next state cidr snapshot r, eq_text_iff r cidr)
route_next-carried state cidr false snapshot h r e =
    ground (arith, has-route_next_revoked state cidr snapshot r)

pub exit_next-carried :
    (state : NodeRoutes) (approve : Bool) (r : Text)
    → has r (exit_next state approve) ≡ true
    → carries state r ≡ true
unfolding exit_next
exit_next-carried state true r e = ground (arith, has-exit_next state r)
exit_next-carried state false r e =
    ground (arith, has-keep (λ route. not (is_default_route route)) r state.approved)

pub batch_next-carried :
    (state : NodeRoutes) (entry : ApproveAllEntry) (r : Text)
    → has r (batch_next state entry) ≡ true
    → carries state r ≡ true
batch_next-carried state entry r e = ground (arith, has-batch_next state entry r)
