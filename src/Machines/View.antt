-- ===== src/Machines/View.antt =====
-- src/lib/machines.ts: the view of a machine.
use headtower.Prelude.{
  ℕ, ◌-◌, ◌*◌, Bool, true, false, not, ◌&&◌, ◌||◌, leb, Option, none, some, List, [], Text, lit,
  eq_text, ◌∷◌, ◌++◌, sort, any, keep, is_empty, if◌then◌else◌,
}
use headtower.Routes.{is_default_route}
use headtower.Machines.{
  dedupe, node_tags, Addresses, split_addresses, relative_time, enabled_routes, stale_approvals,
  pending_routes,
}

-- `User`, as far as the view takes it, and `Node`. `none` is null or undefined.
pub record Owner : Type 0 where
  pub name : Text
  pub display_name : Text
  pub email : Text

pub record Node : Type 0 where
  pub id : Text
  pub ip_addresses : Option (List Text)
  pub name : Text
  pub user : Option Owner
  pub last_seen : Option Text
  pub expiry : Option Text
  pub created_at : Text
  pub register_method : Text
  pub forced_tags : Option (List Text)
  pub invalid_tags : Option (List Text)
  pub valid_tags : Option (List Text)
  pub tags : Option (List Text)
  pub given_name : Text
  pub online : Bool
  pub approved_routes : Option (List Text)
  pub available_routes : Option (List Text)
  pub subnet_routes : Option (List Text)

-- `NodeAgentInfo`
pub record AgentInfo : Type 0 where
  pub os : Option Text
  pub os_version : Option Text
  pub client_version : Option Text
  pub endpoints : List Text

-- `agentOsLabel`
unfoldable pub agent_os_label : Option AgentInfo → Option Text
agent_os_label none = none
agent_os_label (some agent) = elim agent.os [
  | none ↦ none
  | some os ↦ if is_empty os then none else elim agent.os_version [
    | none ↦ some os
    | some version ↦ if is_empty version then some os else some (os ++ b' ' ∷ version)
  ]
]

-- `NodeView`
pub record NodeView : Type 0 where
  pub id : Text
  pub name : Text
  pub hostname : Text
  pub user : Owner
  pub ipv4 : Option Text
  pub ipv6 : Option Text
  pub addresses : List Text
  pub tags : List Text
  pub invalid_tags : List Text
  pub online : Bool
  pub expired : Bool
  pub expires_soon : Bool
  pub register_method : Text
  pub created_at : Text
  pub last_seen : Option Text
  pub expiry : Option Text
  pub last_seen_label : Text
  pub is_exit_node : Bool
  pub advertises_exit : Bool
  pub subnet_routes : List Text
  pub enabled_routes : List Text
  pub stale_approvals : List Text
  pub pending_routes : List Text
  pub agent : Option AgentInfo

-- `EXPIRY_WARN_MS`
abbrev pub expiry_warn_ms : ℕ
expiry_warn_ms = 14 * 24 * 60 * 60 * 1000

-- `registerMethodLabel` on the four methods of the interface; `none` is any other text (the names of
-- properties that every object inherits are not sent as methods).
pub data Method : Type 0 where
  auth_key cli oidc unspecified : Method

unfoldable pub method_of : Text → Option Method
method_of method =
    if eq_text method (lit "REGISTER_METHOD_AUTH_KEY")
    then some auth_key
    else if eq_text method (lit "REGISTER_METHOD_CLI")
    then some cli
    else if eq_text method (lit "REGISTER_METHOD_OIDC")
    then some oidc
    else if eq_text method (lit "REGISTER_METHOD_UNSPECIFIED")
    then some unspecified
    else none

unfoldable pub register_method_label : Text → Text
unfolding method_of
register_method_label method = elim (method_of method) [
  | none ↦ lit "Unknown"
  | some auth_key ↦ lit "Auth key"
  | some cli ↦ lit "CLI"
  | some oidc ↦ lit "OIDC"
  | some unspecified ↦ lit "Unspecified"
]

-- The value or the empty list
abbrev pub list_of : Option (List Text) → List Text
list_of none = []
list_of (some values) = values

abbrev pub nobody : Owner
nobody = record { name = []; display_name = []; email = [] }

-- `Date.parse`: the sign and the amount of milliseconds, or nothing.
module _ (parse : Text → Option (Bool × ℕ)) where
  -- `expiryMs`; none is NaN.
  unfoldable pub expiry_ms : Option Text → Option (Bool × ℕ)
  expiry_ms none = none
  expiry_ms (some iso) = if is_empty iso then none else parse iso

  -- `hasExpiry && expiryMs <= nowMs`
  unfoldable pub is_expired : ℕ → Option (Bool × ℕ) → Bool
  is_expired now none = false
  is_expired now (some (true, before)) = true
  is_expired now (some (false, t)) = leb t now

  -- `hasExpiry && !expired && expiryMs - nowMs <= EXPIRY_WARN_MS`
  unfoldable pub is_expiring : ℕ → Option (Bool × ℕ) → Bool
  unfolding is_expired
  is_expiring now none = false
  is_expiring now (some (true, before)) = false
  is_expiring now (some (false, t)) =
      not (is_expired now (some (false, t))) && leb (t - now) expiry_warn_ms

  -- `isExitNode`, and `advertisesExit`
  unfoldable pub serves_exit : Node → Bool
  serves_exit node =
      any is_default_route (list_of node.subnet_routes)
      || (any is_default_route (list_of node.available_routes)
          && any is_default_route (list_of node.approved_routes))

  -- `toNodeView`
  unfoldable pub to_node_view : Node → ℕ → Option AgentInfo → NodeView
  to_node_view node now agent =
      let addresses = split_addresses (list_of node.ip_addresses) in
      let expiry = expiry_ms node.expiry in
      let approved = list_of node.approved_routes in
      let available = list_of node.available_routes in
      record {
        id = node.id;
        name = if is_empty node.given_name then node.name else node.given_name;
        hostname = node.name;
        user = elim node.user [ none ↦ nobody | some user ↦ user ];
        ipv4 = addresses.ipv4;
        ipv6 = addresses.ipv6;
        addresses = list_of node.ip_addresses;
        tags = node_tags node.tags node.valid_tags node.forced_tags;
        invalid_tags = dedupe (list_of node.invalid_tags);
        online = node.online;
        expired = is_expired now expiry;
        expires_soon = is_expiring now expiry;
        register_method = register_method_label node.register_method;
        created_at = node.created_at;
        last_seen = node.last_seen;
        expiry = node.expiry;
        last_seen_label =
            if node.online then lit "connected" else relative_time parse node.last_seen now;
        is_exit_node = serves_exit node;
        advertises_exit =
            not (serves_exit node) && any is_default_route (list_of node.available_routes);
        subnet_routes = sort (keep (λ r. not (is_default_route r)) (list_of node.subnet_routes));
        enabled_routes = headtower.Machines.enabled_routes available approved;
        stale_approvals = headtower.Machines.stale_approvals available approved;
        pending_routes = headtower.Machines.pending_routes available approved;
        agent = agent;
      }
