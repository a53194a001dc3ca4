-- ===== src/Machines/RouteLists.antt =====
-- src/lib/machines.ts and src/lib/routes.ts: the routes of a machine on its own page and on the
-- board.
use headtower.Prelude.{
  ◌≡◌, sym, ap, ◌∙◌, refl, ℕ, true, false, Option, some, map, Bool, arith, not, ◌&&◌, List, Text,
  has, keep, has-keep, has-sort,
}
use headtower.Routes.{
  is_default_route, NodeRoutes, RouteState, active, approved, pending, SubnetRoute, RouteGroup,
  state_of, classify, is_pending, subnet_rows, or_empty, to_route_group, project,
}
use headtower.Routes.Written.{carries}
use headtower.Routes.Groups.{has-chosen-subnet_rows, is_pending-state_of}
use headtower.Machines.View.{Node, AgentInfo, to_node_view}
use headtower.Machines.{enabled_routes, stale_approvals, pending_routes}

-- The three lists, read at a route
has-route_lists :
    (available granted : List Text) (r : Text)
    → (has r (enabled_routes available granted)
        ≡ (not (is_default_route r) && (has r available && has r granted)))
      × ((has r (stale_approvals available granted)
            ≡ (not (is_default_route r) && (not (has r available) && has r granted)))
          × (has r (pending_routes available granted)
              ≡ (not (is_default_route r) && (has r available && not (has r granted)))))
unfolding enabled_routes stale_approvals pending_routes
has-route_lists available granted r = (
  rw
      (
        has-sort r (keep (λ r. has r granted && not (is_default_route r)) available),
        has-keep (λ r. has r granted && not (is_default_route r)) r available,
      )
      (ground arith),
  (
    rw
        (
          has-sort r (keep (λ r. not (has r available) && not (is_default_route r)) granted),
          has-keep (λ r. not (has r available) && not (is_default_route r)) r granted,
        )
        (ground arith),
    rw
        (
          has-sort r (keep (λ r. not (has r granted) && not (is_default_route r)) available),
          has-keep (λ r. not (has r granted) && not (is_default_route r)) r available,
        )
        (ground arith),
  ),
)

-- The states of the rows that the three lists stand for
abbrev pub is_active : Option RouteState → Bool
is_active (some active) = true
is_active _ = false

abbrev pub is_stale : Option RouteState → Bool
is_stale (some approved) = true
is_stale _ = false

is_active-state_of : (a b : Bool) → is_active (some (state_of a b)) ≡ (a && b)
unfolding state_of
is_active-state_of true true = refl
is_active-state_of true false = refl
is_active-state_of false b = refl

is_stale-state_of : (a b : Bool) → is_stale (some (state_of a b)) ≡ (a && not b)
unfolding state_of
is_stale-state_of true true = refl
is_stale-state_of true false = refl
is_stale-state_of false b = refl

-- The same node for the board
abbrev pub board_node : Node → headtower.Routes.Node
board_node node = record {
  id = node.id;
  given_name = node.given_name;
  name = node.name;
  available_routes = node.available_routes;
  approved_routes = node.approved_routes;
  subnet_routes = node.subnet_routes;
}

abbrev pub on_board : Node → RouteGroup
unfolding to_route_group
on_board node = to_route_group (project (board_node node))

-- The routes of the rows in a state
abbrev pub rows_in : (Option RouteState → Bool) → RouteGroup → List Text
rows_in q group = map SubnetRoute.cidr (keep (λ row. q (some (SubnetRoute.state row))) group.subnet)

rows-state :
    (node : NodeRoutes) (q : Option RouteState → Bool) (meant : Bool → Bool → Bool)
    → ((a b : Bool) → q (some (state_of a b)) ≡ meant a b)
    → (r : Text)
    → has r (rows_in q (to_route_group node)) ≡ (
        meant (has r node.approved) (has r node.available)
        && (not (is_default_route r) && carries node r))
unfolding to_route_group classify
rows-state node q meant e r =
    has-chosen-subnet_rows node q r
    ∙ ap (λ w. w && (not (is_default_route r) && carries node r))
        (e (has r node.approved) (has r node.available))

-- The lists of a machine and the rows of the board, for one projection of a node
rows-lists :
    (node : NodeRoutes) (r : Text)
    → (has r (enabled_routes node.available node.approved)
        ≡ has r (rows_in is_active (to_route_group node)))
      × (has r (stale_approvals node.available node.approved)
          ≡ has r (rows_in is_stale (to_route_group node)))
      × (has r (pending_routes node.available node.approved)
          ≡ has r (rows_in is_pending (to_route_group node)))
rows-lists node r =
    let (enabled, (stale, waiting)) = has-route_lists node.available node.approved r in
    (
      enabled
          ∙ (ground arith)
          ∙ sym (rows-state node is_active (λ a b. a && b) is_active-state_of r),
      stale
          ∙ (ground arith)
          ∙ sym (rows-state node is_stale (λ a b. a && not b) is_stale-state_of r),
      waiting
          ∙ (ground arith)
          ∙ sym (rows-state node is_pending (λ a b. not a) is_pending-state_of r),
    )

module _ (parse : Text → Option (Bool × ℕ)) (node : Node) (now : ℕ) (agent : Option AgentInfo)
    (r : Text) where
  -- The view of a machine and the board of routes agree on a node: a route is in the enabled, the
  -- stale or the pending list of the view exactly when the board has a row for it that is active,
  -- approved or pending, respectively.
  pub has-on_board :
      (has r (to_node_view parse node now agent).enabled_routes
        ≡ has r (rows_in is_active (on_board node)))
      × (has r (to_node_view parse node now agent).stale_approvals
          ≡ has r (rows_in is_stale (on_board node)))
      × (has r (to_node_view parse node now agent).pending_routes
          ≡ has r (rows_in is_pending (on_board node)))
  unfolding to_node_view to_route_group project or_empty
  has-on_board = rows-lists (project (board_node node)) r
