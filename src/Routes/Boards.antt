-- ===== src/Routes/Boards.antt =====
-- src/app/(app)/routes/route-batch.ts with src/lib/routes.ts and src/app/(app)/routes/actions.ts: a
-- board's rows, its counts and its batch for a node.
use headtower.Prelude.{
  ◌+◌, ◌≡◌, arith, Bool, true, false, ◌||◌, Option, none, some, List, [], ◌∷◌, ◌++◌, map, Text, has,
  has-append, has-unique, unique, keep, length, if◌then◌else◌,
}
use headtower.Routes.{
  NodeRoutes, RouteState, active, approved, pending, SubnetRoute, states, exit_status, subnet_rows,
  to_route_group, is_pending, is_approved_state,
}
use headtower.Routes.Batch.{
  ApproveAllEntry, approved_cidrs_of, pending_cidrs_of, build_approve_all_entry,
}
use headtower.Routes.Actions.{batch_next}
use headtower.Routes.Written.{carries, has-batch_next}
use headtower.Routes.Groups.{has-approved_cidrs_of, has-pending_cidrs_of}

-- The approved and the pending routes of a board are the routes that the node carries.
pub has-board :
    (node : NodeRoutes) (r : Text)
    → (has r (approved_cidrs_of (to_route_group node))
        || has r (pending_cidrs_of (to_route_group node)))
      ≡ carries node r
has-board node r = rw (has-approved_cidrs_of node r, has-pending_cidrs_of node r) (ground arith)

batch_fields :
    (node : NodeRoutes) (entry : ApproveAllEntry)
    → build_approve_all_entry (to_route_group node) ≡ some entry
    → (entry.cidrs ≡ pending_cidrs_of (to_route_group node))
      × (entry.approved_routes
          ≡ unique
              (approved_cidrs_of (to_route_group node) ++ pending_cidrs_of (to_route_group node)))
unfolding build_approve_all_entry
batch_fields node entry e = ground (arith, e)

-- The batch entry that is built from the board of a node makes approveAllPending write, for the
-- node unchanged, exactly the routes that the node advertises or has approved.
pub batch_next-build :
    (node : NodeRoutes) (entry : ApproveAllEntry) (r : Text)
    → build_approve_all_entry (to_route_group node) ≡ some entry
    → has r (batch_next node entry) ≡ carries node r
batch_next-build node entry r e =
    let (cidrs, base) = batch_fields node entry e in
    let waiting = pending_cidrs_of (to_route_group node) in
    let done = approved_cidrs_of (to_route_group node) in
    rw
      (
        has-batch_next node entry r,
        cidrs,
        base,
        has-unique r (done ++ waiting),
        has-append r done waiting,
        has-board node r,
      )
      (ground (arith, has-board node r))

abbrev pub present : Option RouteState → Bool
present none = false
present (some st) = true

counted :
    (xs : List (Option RouteState))
    → length (keep is_pending xs) + length (keep is_approved_state xs) ≡ length (keep present xs)
unfolding is_pending is_approved_state
counted [] = omega arith
counted (none ∷ xs) = counted xs
counted (some active ∷ xs) = omega (arith, counted xs)
counted (some approved ∷ xs) = omega (arith, counted xs)
counted (some pending ∷ xs) = omega (arith, counted xs)

present_rows :
    (rows : List SubnetRoute) (last : Option RouteState)
    → length (keep present (map (λ row. some (SubnetRoute.state row)) rows ++ last ∷ []))
      ≡ length rows + (if present last then 1 else 0)
present_rows [] none = omega arith
present_rows [] (some st) = omega arith
present_rows (row ∷ rows) last = omega (arith, present_rows rows last)

-- The pending and the approved count of a group add up to its subnet rows and its exit row.
pub to_route_group-counts :
    (node : NodeRoutes)
    → (to_route_group node).pending_count + (to_route_group node).approved_count
      ≡ length (to_route_group node).subnet
        + (if present (to_route_group node).exit.state then 1 else 0)
unfolding to_route_group states
to_route_group-counts node =
    rw (counted (states node)) (present_rows (subnet_rows node) (exit_status node).state)
