-- ===== src/Routes/Groups.antt =====
-- src/lib/routes.ts and src/app/(app)/routes/route-batch.ts: what a rendered group says of a node.
use headtower.Prelude.{
  ◌≡◌, ◌∙◌, ap, refl, inl, inr, arith, Bool, true, false, not, ◌&&◌, Option, none, some, List, [],
  ◌∷◌, ◌++◌, map, Text, has, has-append, has-keep, has-sort, sort, keep, any, if◌then◌else◌,
  Bool-cases,
}
use headtower.Routes.{
  NodeRoutes, RouteState, SubnetRoute, classify, classify_exit, state_of, is_default_route, carried,
  subnet_rows, exit_of, exit_status, to_route_group, is_pending, is_approved_state,
}
use headtower.Routes.Batch.{approved_cidrs_of, pending_cidrs_of}
use headtower.Routes.Written.{carries, has-carried}

-- The rows for some routes of a node.
abbrev row : NodeRoutes → Text → SubnetRoute
unfolding classify
row node cidr = record { cidr = cidr; state = classify cidr node.approved node.available }

is_approved_state-state_of : (a b : Bool) → is_approved_state (some (state_of a b)) ≡ a
unfolding is_approved_state state_of
is_approved_state-state_of true true = refl
is_approved_state-state_of true false = refl
is_approved_state-state_of false b = refl

pub is_pending-state_of : (a b : Bool) → is_pending (some (state_of a b)) ≡ not a
unfolding is_pending state_of
is_pending-state_of true true = refl
is_pending-state_of true false = refl
is_pending-state_of false b = refl

module _ (node : NodeRoutes) (q : Option RouteState → Bool) where
  abbrev pub chosen : List SubnetRoute → List Text
  chosen rows = map SubnetRoute.cidr (keep (λ r. q (some (SubnetRoute.state r))) rows)

  abbrev pub wanted : Text → Bool
  wanted c = q (some (classify c node.approved node.available))

  -- A filter of rows by their states, read as a list of routes.
  chosen-row : (cs : List Text) → chosen (map (row node) cs) ≡ keep wanted cs
  unfolding row
  chosen-row [] = refl
  chosen-row (c ∷ cs) = elim (Bool-cases (wanted c)) [
    | inl e ↦ rw e (ap (◌∷◌ c) (chosen-row cs))
    | inr e ↦ rw e (chosen-row cs)
  ]

  pub has-chosen-subnet_rows :
      (r : Text)
      → has r (chosen (subnet_rows node))
        ≡ (wanted r && (not (is_default_route r) && carries node r))
  unfolding subnet_rows
  has-chosen-subnet_rows r =
      rw
        (
          chosen-row (sort (keep (λ c. not (is_default_route c)) (carried node))),
          has-keep wanted r (sort (keep (λ c. not (is_default_route c)) (carried node))),
          has-sort r (keep (λ c. not (is_default_route c)) (carried node)),
          has-keep (λ c. not (is_default_route c)) r (carried node),
          has-carried node r,
        )
        refl

  has-exit_of :
      (st : RouteState) (r : Text) (cs : List Text)
      → q none ≡ false
      → has r (if q (exit_of st cs).state then (exit_of st cs).cidrs else [])
        ≡ (q (some st) && has r cs)
  unfolding exit_of has
  has-exit_of st r [] h = rw h (ground arith)
  has-exit_of st r (c ∷ cs) h = elim (Bool-cases (q (some st))) [
    | inl e ↦ rw e refl
    | inr e ↦ rw e refl
  ]

  -- The default routes of the group, where its state is one that is asked for.
  has-exit_status :
      (r : Text)
      → q none ≡ false
      → has r (if q (exit_status node).state then (exit_status node).cidrs else [])
        ≡ (q (some (classify_exit node)) && (is_default_route r && carries node r))
  unfolding exit_status
  has-exit_status r h =
      rw
        (
          has-exit_of (classify_exit node) r (sort (keep is_default_route (carried node))) h,
          has-sort r (keep is_default_route (carried node)),
          has-keep is_default_route r (carried node),
          has-carried node r,
        )
        refl

  listed : List Text
  listed =
      chosen (subnet_rows node)
      ++ (if q (exit_status node).state then (exit_status node).cidrs else [])

  has-listed :
      (r : Text)
      → q none ≡ false
      → has r listed ≡ (
          if is_default_route r
          then q (some (classify_exit node)) && carries node r
          else wanted r && carries node r)
  unfolding listed
  has-listed r h =
      rw
        (
          has-append r (chosen (subnet_rows node))
              (if q (exit_status node).state then (exit_status node).cidrs else []),
          has-chosen-subnet_rows r,
          has-exit_status r h,
        )
        (ground arith)

-- The approved routes of a board are the approved subnet routes of the node and, once some
-- default route is approved, every default route that the node advertises or has approved.
pub has-approved_cidrs_of :
    (node : NodeRoutes) (r : Text)
    → has r (approved_cidrs_of (to_route_group node)) ≡ (
        if is_default_route r
        then any is_default_route node.approved && carries node r
        else has r node.approved)
unfolding approved_cidrs_of to_route_group listed classify classify_exit is_approved_state
has-approved_cidrs_of node r =
    has-listed node is_approved_state r refl
    ∙ ground (
      arith,
      is_approved_state-state_of (any is_default_route node.approved)
          (any is_default_route node.available),
      is_approved_state-state_of (has r node.approved) (has r node.available),
    )

pub has-pending_cidrs_of :
    (node : NodeRoutes) (r : Text)
    → has r (pending_cidrs_of (to_route_group node)) ≡ (
        if is_default_route r
        then not (any is_default_route node.approved) && carries node r
        else not (has r node.approved) && has r node.available)
unfolding pending_cidrs_of to_route_group listed classify classify_exit is_pending
has-pending_cidrs_of node r =
    has-listed node is_pending r refl
    ∙ ground (
      arith,
      is_pending-state_of (any is_default_route node.approved)
          (any is_default_route node.available),
      is_pending-state_of (has r node.approved) (has r node.available),
    )
