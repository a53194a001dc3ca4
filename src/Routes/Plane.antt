-- ===== src/Routes/Plane.antt =====
-- src/app/(app)/routes/actions.ts: what the actions do to the control plane and to the trail.
use headtower.Prelude.{
  ◌≡◌, ◌⊎◌, inl, inr, refl, Bool, true, not, ◌&&◌, ◌||◌, Option, List, [], ◌∷◌, ◌++◌, Text, has,
  is_empty, Bool-cases,
}
use headtower.Rbac.{routes_write}
use headtower.Authz.{Session, AuditEntry, Gate, unauthenticated, denied, granted, authorize}
use headtower.Routes.{Node, NodeRoutes, project}
use headtower.Routes.Batch.{ApproveAllEntry}
use headtower.Routes.Actions.{
  Reply, failed, node, Headscale, Answer, Written, World, batch_next, gated, written, approve_on,
  set_route_approval, approve_exit_on, set_exit_approval, batch_written, batch_on, batch_loop,
  batch_then, route_trail, exit_trail, batch_end, approve_all_pending,
}
use headtower.Routes.Written.{carries, route_next-carried, exit_next-carried, batch_next-carried}

module _ {S : Type 0} (headscale : Headscale S) where
  -- The plane after some writes, each of which reads the node first and writes no route that the
  -- node does not carry.
  pub data Writes : S → S → Type 0 where
    none_more : {s : S} → Writes s s
    write :
        {s t : S} (id : Text) (n : Node) (next : List Text)
        → headscale.get_node s id ≡ node n
        → ((r : Text) → has r next ≡ true → carries (project n) r ≡ true)
        → Writes (headscale.approve_routes s id next).1 t
        → Writes s t

  gated-Writes :
      (act : Session → Answer × World S) (world : World S) (gate : Gate)
      → ((who : Session) → Writes world.plane (act who).1.plane)
      → Writes world.plane (gated headscale act world gate).1.plane
  unfolding gated
  gated-Writes act world unauthenticated h = none_more
  gated-Writes act world (denied reason) h = none_more
  gated-Writes act world (granted who) h = h who

  written_plane :
      (record_it : NodeRoutes → List AuditEntry) (world : World S) (sent : Reply × S)
      → (written headscale record_it world sent).1.plane ≡ sent.1
  unfolding written
  written_plane record_it world (failed reason, after) = refl
  written_plane record_it world (node n, after) = refl

  -- One write after a read is a run of the plane.
  written-Writes :
      (record_it : NodeRoutes → List AuditEntry) (world : World S) (id : Text) (n : Node)
      (next : List Text)
      → headscale.get_node world.plane id ≡ node n
      → ((r : Text) → has r next ≡ true → carries (project n) r ≡ true)
      → Writes world.plane
          (written headscale record_it world (headscale.approve_routes world.plane id next)).1.plane
  written-Writes record_it world id n next e h =
      rw (written_plane record_it world (headscale.approve_routes world.plane id next))
        (write id n next e h none_more)

  approve_on-Writes :
      (recorded : Bool) (id cidr : Text) (approve : Bool) (snapshot : List Text) (world : World S)
      (who : Session) (reply : Reply)
      → headscale.get_node world.plane id ≡ reply
      → Writes world.plane
          (approve_on headscale recorded id cidr approve snapshot world who reply).1.plane
  unfolding approve_on
  approve_on-Writes recorded id cidr approve snapshot world who (failed reason) e = none_more
  approve_on-Writes recorded id cidr approve snapshot world who (node n) e =
      elim (Bool-cases (approve && not (has cidr (project n).available))) [
        | inl h ↦ rw h none_more
        | inr h ↦ rw h (
            written-Writes (route_trail recorded approve id cidr who world.trail) world id n _ e
              (route_next-carried (project n) cidr approve snapshot h))
      ]

  -- Whatever the request and the session, setRouteApproval moves the control plane only by writes
  -- that each follow a read of the node and hold no route that the node neither advertises nor
  -- has approved.
  pub set_route_approval-Writes :
      (recorded : Bool) (session : Option Session) (id cidr : Text) (approve : Bool)
      (snapshot : List Text) (world : World S)
      → Writes world.plane
          (set_route_approval headscale recorded session id cidr approve snapshot world).1.plane
  unfolding set_route_approval
  set_route_approval-Writes recorded session id cidr approve snapshot world =
      elim (Bool-cases (is_empty id || is_empty cidr)) [
        | inl h ↦ rw h none_more
        | inr h ↦ rw h (
            gated-Writes _ world (authorize session routes_write)
              (λ who. approve_on-Writes recorded id cidr approve snapshot world who _ refl))
      ]

  approve_exit_on-Writes :
      (recorded : Bool) (id : Text) (approve : Bool) (world : World S) (who : Session)
      (reply : Reply)
      → headscale.get_node world.plane id ≡ reply
      → Writes world.plane (approve_exit_on headscale recorded id approve world who reply).1.plane
  unfolding approve_exit_on
  approve_exit_on-Writes recorded id approve world who (failed reason) e = none_more
  approve_exit_on-Writes recorded id approve world who (node n) e =
      written-Writes (exit_trail recorded approve id who world.trail) world id n _ e
        (exit_next-carried (project n) approve)

  pub set_exit_approval-Writes :
      (recorded : Bool) (session : Option Session) (id : Text) (approve : Bool) (world : World S)
      → Writes world.plane (set_exit_approval headscale recorded session id approve world).1.plane
  unfolding set_exit_approval
  set_exit_approval-Writes recorded session id approve world = elim (Bool-cases (is_empty id)) [
    | inl h ↦ rw h none_more
    | inr h ↦ rw h (
        gated-Writes _ world (authorize session routes_write)
          (λ who. approve_exit_on-Writes recorded id approve world who _ refl))
  ]

  Writes-trans : {s t u : S} → Writes s t → Writes t u → Writes s u
  Writes-trans none_more k = k
  Writes-trans (write id n next e h rest) k = write id n next e h (Writes-trans rest k)

  batch_written_plane :
      (entry : ApproveAllEntry) (sent : Reply × S) → (batch_written headscale entry sent).1 ≡ sent.1
  unfolding batch_written
  batch_written_plane entry (failed reason, after) = refl
  batch_written_plane entry (node n, after) = refl

  batch_on-Writes :
      (plane : S) (entry : ApproveAllEntry) (reply : Reply)
      → headscale.get_node plane entry.node_id ≡ reply
      → Writes plane (batch_on headscale plane entry reply).1
  unfolding batch_on
  batch_on-Writes plane entry (failed reason) e = none_more
  batch_on-Writes plane entry (node n) e =
      rw
        (batch_written_plane entry
          (headscale.approve_routes plane entry.node_id (batch_next (project n) entry)))
        (write entry.node_id n _ e (batch_next-carried (project n) entry) none_more)

  batch_then-Writes :
      {s : S} (rest : Written → S → (Text ⊎ List Written) × S) (result : (Text ⊎ Written) × S)
      → Writes s result.1
      → ((w : Written) (after : S) → Writes after (rest w after).1)
      → Writes s (batch_then headscale rest result).1
  unfolding batch_then
  batch_then-Writes rest (inl reason, after) w h = w
  batch_then-Writes rest (inr done, after) w h = Writes-trans w (h done after)

  batch_loop-Writes :
      (done : List Written) (entries : List ApproveAllEntry) (plane : S)
      → Writes plane (batch_loop headscale done entries plane).1
  unfolding batch_loop
  batch_loop-Writes done [] plane = none_more
  batch_loop-Writes done (entry ∷ entries) plane =
      batch_then-Writes _ _ (batch_on-Writes plane entry _ refl)
        (λ w after. batch_loop-Writes (done ++ w ∷ []) entries after)

  batch_end_plane :
      (recorded : Bool) (entries : List ApproveAllEntry) (world : World S) (who : Session)
      (result : (Text ⊎ List Written) × S)
      → (batch_end headscale recorded entries world who result).1.plane ≡ result.1
  unfolding batch_end
  batch_end_plane recorded entries world who (inl reason, after) = refl
  batch_end_plane recorded entries world who (inr done, after) = refl

  -- Whatever the request and the session, approveAllPending moves the control plane only by
  -- writes that each follow a read of the node and hold no route that the node neither advertises
  -- nor has approved, also where it ends in an error.
  pub approve_all_pending-Writes :
      (recorded : Bool) (session : Option Session) (entries : List ApproveAllEntry)
      (world : World S)
      → Writes world.plane (approve_all_pending headscale recorded session entries world).1.plane
  unfolding approve_all_pending
  approve_all_pending-Writes recorded session entries world = elim (Bool-cases (is_empty entries)) [
    | inl h ↦ rw h none_more
    | inr h ↦ rw h (
        gated-Writes _ world (authorize session routes_write) (λ who.
          rw
            (batch_end_plane recorded entries world who
              (batch_loop headscale [] entries world.plane))
            (batch_loop-Writes [] entries world.plane)))
  ]
