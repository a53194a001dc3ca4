-- ===== src/Routes/Batch.antt =====
-- src/app/(app)/routes/route-batch.ts: the batch entries of a rendered group.
use headtower.Prelude.{
  Option, none, some, List, [], ◌∷◌, ◌++◌, map, Text, unique, keep, is_empty, if◌then◌else◌,
}
use headtower.Routes.{RouteGroup, SubnetRoute, is_approved_state, is_pending}

-- `ApproveAllEntry`
pub record ApproveAllEntry : Type 0 where
  pub node_id : Text
  pub node_name : Text
  pub cidrs : List Text
  pub approved_routes : List Text

-- `approvedCidrsOf`
unfoldable pub approved_cidrs_of : RouteGroup → List Text
unfolding is_approved_state
approved_cidrs_of group =
    map SubnetRoute.cidr
      (keep (λ row. is_approved_state (some (SubnetRoute.state row))) group.subnet)
    ++ (if is_approved_state group.exit.state then group.exit.cidrs else [])

-- `pendingCidrsOf`
unfoldable pub pending_cidrs_of : RouteGroup → List Text
unfolding is_pending
pending_cidrs_of group =
    map SubnetRoute.cidr (keep (λ row. is_pending (some (SubnetRoute.state row))) group.subnet)
    ++ (if is_pending group.exit.state then group.exit.cidrs else [])

-- `buildApproveAllEntry`
unfoldable pub build_approve_all_entry : RouteGroup → Option ApproveAllEntry
unfolding approved_cidrs_of pending_cidrs_of
build_approve_all_entry group =
    let awaiting = pending_cidrs_of group in
    if is_empty awaiting
    then none
    else some record {
      node_id = group.node_id;
      node_name = group.node_name;
      cidrs = awaiting;
      approved_routes = unique (approved_cidrs_of group ++ awaiting);
    }

-- `buildApproveAllEntries`
unfoldable pub build_approve_all_entries : List RouteGroup → List ApproveAllEntry
unfolding build_approve_all_entry
build_approve_all_entries [] = []
build_approve_all_entries (group ∷ groups) = elim (build_approve_all_entry group) [
  | none ↦ build_approve_all_entries groups
  | some entry ↦ entry ∷ build_approve_all_entries groups
]
