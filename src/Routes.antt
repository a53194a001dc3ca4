-- ===== src/Routes.antt =====
-- src/lib/routes.ts and src/lib/headscale/routes.ts: the routes of a node and their states.
pub mod Batch
pub mod Actions
pub mod Groups
pub mod Boards
pub mod Written
pub mod Plane
pub mod Gate
pub mod Tests
use headtower.Prelude.{
  ℕ, ◌+◌, Bool, true, false, not, ◌&&◌, ◌||◌, Option, none, some, List, [], ◌∷◌, ◌++◌, map, Text,
  lit, eq_text, has, unique, sort, any, keep, length, is_empty, ltb, if◌then◌else◌,
}

-- The fields of a node that the routes client reads.
pub record Node : Type 0 where
  pub id : Text
  pub given_name : Text
  pub name : Text
  pub available_routes : Option (List Text)
  pub approved_routes : Option (List Text)
  pub subnet_routes : Option (List Text)

-- `NodeRoutes`
pub record NodeRoutes : Type 0 where
  pub node_id : Text
  pub node_name : Text
  pub available : List Text
  pub approved : List Text
  pub subnet : List Text

-- `?? []`
unfoldable pub or_empty : Option (List Text) → List Text
or_empty none = []
or_empty (some routes) = routes

-- `project`
unfoldable pub project : Node → NodeRoutes
unfolding or_empty
project node = record {
  node_id = node.id;
  node_name = if is_empty node.given_name then node.name else node.given_name;
  available = or_empty node.available_routes;
  approved = or_empty node.approved_routes;
  subnet = or_empty node.subnet_routes;
}

-- `uniqueSorted`
unfoldable pub unique_sorted : List Text → List Text
unique_sorted values = sort (unique values)

-- The set that `routes.approve` writes, and that `routes.revoke` writes.
unfoldable pub approve_next : Text → List Text → List Text
unfolding unique_sorted
approve_next route approved = unique_sorted (approved ++ route ∷ [])

unfoldable pub revoke_next : Text → List Text → List Text
revoke_next route approved = keep (λ r. not (eq_text r route)) approved

-- `DEFAULT_ROUTES`
abbrev pub default_routes : List Text
default_routes = lit "0.0.0.0/0" ∷ lit "::/0" ∷ []

-- `isDefaultRoute`
unfoldable pub is_default_route : Text → Bool
is_default_route cidr = has cidr default_routes

-- `RouteState`
pub data RouteState : Type 0 where
  active approved pending : RouteState

-- `SubnetRoute`
pub record SubnetRoute : Type 0 where
  pub cidr : Text
  pub state : RouteState

-- `ExitStatus`
pub record ExitStatus : Type 0 where
  pub state : Option RouteState
  pub cidrs : List Text

-- `RouteGroup`
pub record RouteGroup : Type 0 where
  pub node_id : Text
  pub node_name : Text
  pub subnet : List SubnetRoute
  pub exit : ExitStatus
  pub pending_count : ℕ
  pub approved_count : ℕ

-- The three answers that `classify` and `classifyExit` share.
unfoldable pub state_of : Bool → Bool → RouteState
state_of is_approved is_advertised =
    if is_approved && is_advertised then active else if is_approved then approved else pending

-- `classify`
unfoldable pub classify : Text → List Text → List Text → RouteState
unfolding state_of
classify cidr granted advertised = state_of (has cidr granted) (has cidr advertised)

-- `classifyExit`
unfoldable pub classify_exit : NodeRoutes → RouteState
unfolding state_of is_default_route
classify_exit node =
    state_of (any is_default_route node.approved) (any is_default_route node.available)

-- `s === "pending"` and `s === "active" || s === "approved"` on a state or `null`.
unfoldable pub is_pending : Option RouteState → Bool
is_pending (some pending) = true
is_pending _ = false

unfoldable pub is_approved_state : Option RouteState → Bool
is_approved_state (some active) = true
is_approved_state (some approved) = true
is_approved_state _ = false

-- The routes that a node carries: `union` of `toRouteGroup`.
unfoldable pub carried : NodeRoutes → List Text
carried node = unique (node.approved ++ node.available)

-- `subnet` of `toRouteGroup`
unfoldable pub subnet_rows : NodeRoutes → List SubnetRoute
unfolding carried is_default_route classify
subnet_rows node =
    map (λ cidr. record { cidr = cidr; state = classify cidr node.approved node.available })
      (sort (keep (λ cidr. not (is_default_route cidr)) (carried node)))

-- `exit` of `toRouteGroup`, by the default routes that the node carries.
unfoldable pub exit_of : RouteState → List Text → ExitStatus
exit_of state [] = record { state = none; cidrs = [] }
exit_of state (cidr ∷ cidrs) = record { state = some state; cidrs = cidr ∷ cidrs }

unfoldable pub exit_status : NodeRoutes → ExitStatus
unfolding carried is_default_route classify_exit exit_of
exit_status node = exit_of (classify_exit node) (sort (keep is_default_route (carried node)))

-- `states` of `toRouteGroup`
unfoldable pub states : NodeRoutes → List (Option RouteState)
unfolding subnet_rows exit_status
states node =
    map (λ row. some (SubnetRoute.state row)) (subnet_rows node) ++ (exit_status node).state ∷ []

-- `toRouteGroup`
unfoldable pub to_route_group : NodeRoutes → RouteGroup
unfolding subnet_rows exit_status states is_pending is_approved_state
to_route_group node = record {
  node_id = node.node_id;
  node_name = node.node_name;
  subnet = subnet_rows node;
  exit = exit_status node;
  pending_count = length (keep is_pending (states node));
  approved_count = length (keep is_approved_state (states node));
}

-- `groupHasRoutes`
unfoldable pub group_has_routes : RouteGroup → Bool
group_has_routes group =
    ltb 0 (length group.subnet) || elim group.exit.state [ none ↦ false | some _ ↦ true ]
