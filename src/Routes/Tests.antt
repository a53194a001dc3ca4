-- ===== src/Routes/Tests.antt =====
-- The routes of a small node, and a control plane that keeps one.
use headtower.Prelude.{
  any, add, add_all, unique, sort, ◌≡◌, refl, true, false, Option, none, some, [], ◌∷◌, Text, lit,
  eq_text, has, if◌then◌else◌, ◌&&◌, ◌||◌,
}
use headtower.Rbac.{owner, viewer, routes_write}
use headtower.Authz.{Session, oidc, session_can}
use headtower.Routes.{is_default_route, Node, project, to_route_group}
use headtower.Routes.Batch.{ApproveAllEntry, build_approve_all_entry, approved_cidrs_of}
use headtower.Routes.Actions.{
  Headscale, failed, node, World, batch_next, set_route_approval, set_exit_approval,
  approve_all_pending, route_next,
}
use headtower.Routes.Written.{carries, has-route_next}
use headtower.Routes.Plane.{Writes, set_route_approval-Writes, approve_all_pending-Writes}
use headtower.Routes.Gate.{ungranted_kept}
use headtower.Routes.Groups.{has-approved_cidrs_of}
use headtower.Routes.Boards.{batch_next-build}

abbrev lan : Text
lan = lit "10.0.0.0/24"

abbrev v4 : Text
v4 = lit "0.0.0.0/0"

abbrev v6 : Text
v6 = lit "::/0"

-- A node that advertises a subnet and both default routes, one of which is approved.
abbrev gateway : Node
gateway = record {
  id = lit "1";
  given_name = [];
  name = lit "gw";
  available_routes = some (lan ∷ v4 ∷ v6 ∷ []);
  approved_routes = some (v4 ∷ []);
  subnet_routes = none;
}

-- A control plane whose state is the node that it keeps.
abbrev plane : Headscale Node
plane = record {
  get_node = λ s id. if eq_text id s.id then node s else failed (lit "no such node");
  approve_routes = λ s id next.
      if eq_text id s.id
      then (
        node (record s { approved_routes = some next }),
        record s { approved_routes = some next },
      )
      else (failed (lit "no such node"), s);
}

abbrev world : World Node
world = record { plane = gateway; trail = [] }

abbrev session : Option Session
session = some record {
  user = record { id = lit "a"; name = lit "a"; method = oidc; email = none; picture = none };
  role = owner;
}

abbrev reader : Option Session
reader = some record {
  user = record { id = lit "v"; name = lit "v"; method = oidc; email = none; picture = none };
  role = viewer;
}

set_route_approval-Writes_example :
    Writes plane gateway
      (set_route_approval plane true session (lit "1") lan true (v4 ∷ []) world).1.plane
set_route_approval-Writes_example =
    set_route_approval-Writes plane true session (lit "1") lan true (v4 ∷ []) world

abbrev entry : ApproveAllEntry
entry = record {
  node_id = lit "1";
  node_name = lit "gw";
  cidrs = lan ∷ [];
  approved_routes = v4 ∷ [];
}

approve_all_pending-Writes_example :
    Writes plane gateway (approve_all_pending plane true session (entry ∷ []) world).1.plane
approve_all_pending-Writes_example =
    approve_all_pending-Writes plane true session (entry ∷ []) world

reader_cannot : session_can reader routes_write ≡ false
unfolding session_can
reader_cannot = refl

ungranted_kept_example :
    ((set_route_approval plane true reader (lit "1") lan true [] world).1 ≡ world)
    × ((set_exit_approval plane true reader (lit "1") true world).1 ≡ world)
    × ((approve_all_pending plane true reader (entry ∷ []) world).1 ≡ world)
ungranted_kept_example =
    ungranted_kept plane true reader (lit "1") lan true [] (entry ∷ []) world reader_cannot

has-route_next_example :
    has v4 (route_next (project gateway) lan true (v4 ∷ []))
    ≡ (carries (project gateway) v4 && has v4 (v4 ∷ []) || eq_text v4 lan)
has-route_next_example = has-route_next (project gateway) lan (v4 ∷ []) v4

abbrev batch : ApproveAllEntry
batch = record {
  node_id = lit "1";
  node_name = lit "gw";
  cidrs = lan ∷ [];
  approved_routes = v4 ∷ v6 ∷ lan ∷ [];
}

batch_built : build_approve_all_entry (to_route_group (project gateway)) ≡ some batch
unfolding build_approve_all_entry to_route_group sort unique add_all project add has eq_text lit
batch_built = refl

batch_next-build_example :
    has v6 (batch_next (project gateway) batch) ≡ carries (project gateway) v6
batch_next-build_example = batch_next-build (project gateway) batch v6 batch_built

-- The default route that no one approved counts as approved on the board.
approved_v6 : has v6 (approved_cidrs_of (to_route_group (project gateway))) ≡ true
unfolding approved_cidrs_of has to_route_group sort unique add_all project add eq_text lit
approved_v6 = refl

has-approved_cidrs_of_example : has v6 (approved_cidrs_of (to_route_group (project gateway))) ≡ (
    if is_default_route v6
    then any is_default_route (project gateway).approved && carries (project gateway) v6
    else has v6 (project gateway).approved)
has-approved_cidrs_of_example = has-approved_cidrs_of (project gateway) v6
