-- ===== src/Routes/Actions.antt =====
-- src/app/(app)/routes/actions.ts: the approval of routes.
use headtower.Prelude.{
  ◌||◌, ◌⊎◌, inl, inr, Bool, true, not, ◌&&◌, Option, none, some, List, [], ◌∷◌, ◌++◌, map, Text,
  lit, eq_text, has, unique, sort, keep, is_empty, if◌then◌else◌,
}
use headtower.Json.{Json, Fields, obj, arr, str, bool, field, end, texts, of_items}
use headtower.Rbac.{routes_write}
use headtower.Authz.{Session, AuditEntry, Gate, unauthenticated, denied, granted, authorize, audit}
use headtower.Routes.{Node, NodeRoutes, project, is_default_route, carried}
use headtower.Routes.Batch.{ApproveAllEntry}

-- What a call of Headscale gives: a node, or the error that the call throws, as
-- `describeHeadscaleError` words it.
pub data Reply : Type 0 where
  failed : Text → Reply
  node : Node → Reply

-- The control plane in a state `S`: reading a node, and replacing its approved routes.
pub record Headscale (S : Type 0) : Type 0 where
  pub get_node : S → Text → Reply
  pub approve_routes : S → Text → List Text → Reply × S

-- `RouteActionState`, with the error that a missing session throws.
pub data Answer : Type 0 where
  thrown : Answer
  success : Answer
  error : Text → Answer

-- The set that `setRouteApproval` writes for a node in a state.
unfoldable pub route_next : NodeRoutes → Text → Bool → List Text → List Text
unfolding carried
route_next state cidr approve snapshot =
    let base = keep (λ route. has route (carried state)) snapshot in
    if approve
    then sort (unique (base ++ cidr ∷ []))
    else keep (λ route. not (eq_text route cidr)) base

-- The set that `setExitApproval` writes.
unfoldable pub exit_next : NodeRoutes → Bool → List Text
unfolding is_default_route
exit_next state approve =
    if approve
    then unique (state.approved ++ keep is_default_route state.available)
    else keep (λ route. not (is_default_route route)) state.approved

-- The set that `approveAllPending` writes for one entry.
unfoldable pub batch_next : NodeRoutes → ApproveAllEntry → List Text
unfolding carried
batch_next state entry =
    let base = keep (λ route. has route (carried state)) entry.approved_routes in
    let to_approve = keep (λ cidr. has cidr state.available) entry.cidrs in
    sort (unique (base ++ to_approve))

unfoldable pub route_entry : Bool → Text → Fields → Text → AuditEntry
route_entry approve node_id detail actor = record {
  actor = actor;
  action = if approve then lit "routes.approve" else lit "routes.revoke";
  target_type = some (lit "node");
  target_id = some node_id;
  target_name = none;
  detail = some (obj detail);
}

-- The trail after a written approval: the entry names the set that Headscale answered with.
unfoldable pub route_trail :
    Bool → Bool → Text → Text → Session → List AuditEntry → NodeRoutes → List AuditEntry
unfolding route_entry audit
route_trail recorded approve node_id cidr who trail after =
    let detail =
      field (lit "cidr") (str cidr) (field (lit "approved") (arr (texts after.approved)) end) in
    audit recorded (route_entry approve node_id detail) who trail

unfoldable pub exit_trail :
    Bool → Bool → Text → Session → List AuditEntry → NodeRoutes → List AuditEntry
unfolding route_entry audit
exit_trail recorded approve node_id who trail after =
    audit recorded (route_entry approve node_id (field (lit "exit") (bool true) end)) who trail

-- What the action of a batch knows of one written node.
pub record Written : Type 0 where
  pub node_id : Text
  pub node_name : Text
  pub approved : List Text

unfoldable pub written_json : Written → Json
written_json w = obj (
    field (lit "nodeId") (str w.node_id) (
      field (lit "nodeName") (str w.node_name)
        (field (lit "approved") (arr (texts w.approved)) end)))

-- `single` of `approveAllPending`: a batch of one node has a target.
unfoldable pub single : List ApproveAllEntry → Option ApproveAllEntry
single (entry ∷ []) = some entry
single _ = none

unfoldable pub batch_entry : List ApproveAllEntry → List Written → Text → AuditEntry
unfolding single written_json
batch_entry entries written actor = record {
  actor = actor;
  action = lit "routes.approve";
  target_type = some (lit "node");
  target_id = elim (single entries) [ none ↦ none | some entry ↦ some entry.node_id ];
  target_name = elim (single entries) [ none ↦ none | some entry ↦ some entry.node_name ];
  detail = some (obj (field (lit "nodes") (arr (of_items (map written_json written))) end));
}

-- The control plane and the audit trail, which the actions change.
pub record World (S : Type 0) : Type 0 where
  pub plane : S
  pub trail : List AuditEntry

module _ {S : Type 0} (headscale : Headscale S) where
  -- What an action does with the gate.
  unfoldable pub gated : (Session → Answer × World S) → World S → Gate → Answer × World S
  gated act world unauthenticated = (thrown, world)
  gated act world (denied reason) = (error reason, world)
  gated act world (granted who) = act who

  -- The end of the `try`: the reply of the write, and the audit entry for the set that it reports.
  unfoldable pub written : (NodeRoutes → List AuditEntry) → World S → Reply × S → Answer × World S
  unfolding project
  written record_it world (failed reason, after) =
      (error reason, record { plane = after; trail = world.trail })
  written record_it world (node n, after) =
      (success, record { plane = after; trail = record_it (project n) })

  -- `setRouteApproval`, for the node as `routes.forNode` answers.
  unfoldable pub approve_on :
      Bool → Text → Text → Bool → List Text → World S → Session → Reply → Answer × World S
  unfolding project route_next written route_trail
  approve_on recorded node_id cidr approve snapshot world who (failed reason) =
      (error reason, world)
  approve_on recorded node_id cidr approve snapshot world who (node n) =
      if approve && not (has cidr (project n).available)
      then (error (lit "This node is not advertising that route."), world)
      else written (route_trail recorded approve node_id cidr who world.trail) world (
          headscale.approve_routes world.plane node_id
            (route_next (project n) cidr approve snapshot))

  -- `setRouteApproval`
  unfoldable pub set_route_approval :
      Bool → Option Session → Text → Text → Bool → List Text → World S → Answer × World S
  unfolding authorize gated approve_on
  set_route_approval recorded session node_id cidr approve snapshot world =
      if is_empty node_id || is_empty cidr
      then (error (lit "Missing node or route."), world)
      else gated
          (λ who.
            approve_on recorded node_id cidr approve snapshot world who
              (headscale.get_node world.plane node_id))
          world (authorize session routes_write)

  unfoldable pub approve_exit_on : Bool → Text → Bool → World S → Session → Reply → Answer × World S
  unfolding project exit_next written exit_trail
  approve_exit_on recorded node_id approve world who (failed reason) = (error reason, world)
  approve_exit_on recorded node_id approve world who (node n) =
      written (exit_trail recorded approve node_id who world.trail) world
        (headscale.approve_routes world.plane node_id (exit_next (project n) approve))

  -- `setExitApproval`
  unfoldable pub set_exit_approval :
      Bool → Option Session → Text → Bool → World S → Answer × World S
  unfolding authorize gated approve_exit_on
  set_exit_approval recorded session node_id approve world =
      if is_empty node_id
      then (error (lit "Missing node."), world)
      else gated
          (λ who.
            approve_exit_on recorded node_id approve world who
              (headscale.get_node world.plane node_id))
          world (authorize session routes_write)

  -- The loop of `approveAllPending`: what it has written, or the error that ends it, and the plane.
  unfoldable pub batch_written : ApproveAllEntry → Reply × S → (Text ⊎ Written) × S
  unfolding project
  batch_written entry (failed reason, after) = (inl reason, after)
  batch_written entry (node n, after) = (
    inr record {
      node_id = entry.node_id;
      node_name = entry.node_name;
      approved = (project n).approved;
    },
    after,
  )

  unfoldable pub batch_on : S → ApproveAllEntry → Reply → (Text ⊎ Written) × S
  unfolding project batch_next batch_written
  batch_on plane entry (failed reason) = (inl reason, plane)
  batch_on plane entry (node n) =
      batch_written entry
        (headscale.approve_routes plane entry.node_id (batch_next (project n) entry))

  unfoldable pub batch_then :
      (Written → S → (Text ⊎ List Written) × S) → (Text ⊎ Written) × S → (Text ⊎ List Written) × S
  batch_then rest (inl reason, after) = (inl reason, after)
  batch_then rest (inr w, after) = rest w after

  unfoldable pub batch_loop : List Written → List ApproveAllEntry → S → (Text ⊎ List Written) × S
  unfolding batch_on batch_then
  batch_loop done [] plane = (inr done, plane)
  batch_loop done (entry ∷ entries) plane =
      batch_then (λ w after. batch_loop (done ++ w ∷ []) entries after)
        (batch_on plane entry (headscale.get_node plane entry.node_id))

  -- The end of `approveAllPending`.
  unfoldable pub batch_end :
      Bool → List ApproveAllEntry → World S → Session → (Text ⊎ List Written) × S → Answer × World S
  unfolding batch_entry audit
  batch_end recorded entries world who (inl reason, after) =
      (error reason, record { plane = after; trail = world.trail })
  batch_end recorded entries world who (inr done, after) = (
    success,
    record { plane = after; trail = audit recorded (batch_entry entries done) who world.trail },
  )

  -- `approveAllPending`
  unfoldable pub approve_all_pending :
      Bool → Option Session → List ApproveAllEntry → World S → Answer × World S
  unfolding authorize gated batch_loop batch_end
  approve_all_pending recorded session entries world =
      if is_empty entries
      then (error (lit "Nothing to approve."), world)
      else gated (λ who. batch_end recorded entries world who (batch_loop [] entries world.plane))
          world (authorize session routes_write)
