-- ===== src/Machines/Examples.antt =====
-- The list of machines on small inputs.
use headtower.Prelude.{
  zero, suc, drop, scalars, sym, ◌∙◌, ℕ, ◌≡◌, refl, ap, not, Bool, true, false, ◌&&◌, ◌||◌, any,
  Option, none, some, [], ◌∷◌, ◌++◌, map, Text, lit, has, is_empty, if◌then◌else◌,
}
use mathlib.Core.List.{append-nil, append_assoc}
use headtower.Language.Sample.{sample, lower_unit}
use headtower.Routes.{is_default_route, is_pending}
use headtower.Machines.RouteLists.{is_active, is_stale, on_board, rows_in, has-on_board}
use headtower.Metadata.{prod}
use headtower.Machines.View.{is_expired, Node, Owner, NodeView, expiry_ms, to_node_view}
use headtower.Machines.Status.{online, has_issue, matches_status}
use headtower.Machines.Issues.{within, has_issue-node}
use headtower.Machines.Filter.{Params, commit_url, state_at, FilterState, matches_query}
use headtower.Machines.Url.{Returns, state_at-commit_url}
use headtower.Machines.Search.{LowersWords, matches_query-both}

abbrev ann : Owner
ann = record { name = lit "ann"; display_name = []; email = [] }

-- It expires at 5, and offers a default route that is not approved.
abbrev node : Node
node = record {
  id = lit "1";
  ip_addresses = some (lit "100.64.0.1" ∷ []);
  name = lit "web";
  user = some ann;
  last_seen = none;
  expiry = some (lit "t");
  created_at = [];
  register_method = lit "REGISTER_METHOD_CLI";
  forced_tags = none;
  invalid_tags = some ([] ∷ []);
  valid_tags = none;
  tags = some (lit "tag:web" ∷ []);
  given_name = [];
  online = true;
  approved_routes = none;
  available_routes = some (lit "::/0" ∷ lit "10.0.0.0/8" ∷ []);
  subnet_routes = none;
}

abbrev reader : Text → Option (Bool × ℕ)
reader iso = some (false, 5)

abbrev view : NodeView
view = to_node_view reader node 3 none

has_issue-node_example : has_issue view ≡ (
    within 3 (expiry_ms reader node.expiry)
    || any (λ (tag : Text). not (is_empty tag)) ([] ∷ [])
    || (any is_default_route (lit "::/0" ∷ lit "10.0.0.0/8" ∷ [])
        && not (any is_default_route [])
        && not (any is_default_route []))
    || any (λ r. not (has r []) && not (is_default_route r)) (lit "::/0" ∷ lit "10.0.0.0/8" ∷ []))
has_issue-node_example = has_issue-node reader node 3 none

abbrev lan : Text
lan = lit "10.0.0.0/8"

has-on_board_example :
    (has lan view.enabled_routes ≡ has lan (rows_in is_active (on_board node)))
    × (has lan view.stale_approvals ≡ has lan (rows_in is_stale (on_board node)))
    × (has lan view.pending_routes ≡ has lan (rows_in is_pending (on_board node)))
has-on_board_example = has-on_board reader node 3 none lan

seen_online : matches_status view online ≡ true
unfolding matches_status to_node_view is_expired expiry_ms lit
seen_online = refl

abbrev slice : FilterState
slice = record { query = lit "web"; status = online; user = some []; tag = none; env = some prod }

-- A query for the examples: each code unit is moved by two, a zero ends a name and a one a value.
moved : Text → Text
moved [] = []
moved (c ∷ s) = suc (suc c) ∷ moved s

written : Params → Text
unfolding moved
written [] = []
written ((k, v) ∷ params) = moved k ++ 0 ∷ (moved v ++ 1 ∷ written params)

unmoved : Text → Text → Text → Params
unmoved key text [] = []
unmoved key text (zero ∷ s) = unmoved text [] s
unmoved key text (suc zero ∷ s) = (key, text) ∷ unmoved [] [] s
unmoved key text (suc (suc c) ∷ s) = unmoved key (text ++ c ∷ []) s

unmoved-moved : (key text t s : Text) → unmoved key text (moved t ++ s) ≡ unmoved key (text ++ t) s
unfolding unmoved moved
unmoved-moved key text [] s = ap (λ w. unmoved key w s) (sym (append-nil text))
unmoved-moved key text (c ∷ t) s =
    unmoved-moved key (text ++ c ∷ []) t s
    ∙ ap (λ w. unmoved key w s) (append_assoc text (c ∷ []) t)

unmoved-written : (params : Params) → unmoved [] [] (written params) ≡ params
unfolding written unmoved
unmoved-written [] = refl
unmoved-written ((k, v) ∷ params) =
    unmoved-moved [] [] k (0 ∷ (moved v ++ 1 ∷ written params))
    ∙ unmoved-moved k [] v (1 ∷ written params)
    ∙ ap (◌∷◌ (k, v)) (unmoved-written params)

search_of : Text → Params
unfolding unmoved
search_of url = unmoved [] [] (drop 3 url)

sample-Returns : Returns written search_of (lit "/m")
unfolding search_of lit
sample-Returns params h = go (written params) refl (unmoved-written params)
  where
    go :
        (w : Text)
        → written params ≡ w
        → unmoved [] [] (written params) ≡ params
        → search_of
            (if is_empty (written params) then lit "/m" else lit "/m" ++ b'?' ∷ written params)
          ≡ params
    go [] e back = rw e (rw e at back)
    go (c ∷ w) e back = rw e (rw e at back)

state_at-commit_url_example :
    state_at search_of (commit_url written (lit "/m") slice)
    ≡ record slice { query = scalars (lit "web"); user = none; tag = none }
state_at-commit_url_example = state_at-commit_url written search_of (lit "/m") sample-Returns slice

map-lower :
    (s t : Text) → map lower_unit (s ++ b' ' ∷ t) ≡ map lower_unit s ++ b' ' ∷ map lower_unit t
unfolding lower_unit
map-lower [] t = refl
map-lower (c ∷ s) t = ap (◌∷◌ (lower_unit c)) (map-lower s t)

sample_lowers : LowersWords sample
unfolding sample
sample_lowers = record { nothing = refl; across = map-lower }

matches_query-both_example :
    matches_query sample view (lit "web" ++ b' ' ∷ lit "ann") none
    ≡ (matches_query sample view (lit "web") none && matches_query sample view (lit "ann") none)
matches_query-both_example =
    matches_query-both sample sample_lowers view (lit "web") (lit "ann") none
