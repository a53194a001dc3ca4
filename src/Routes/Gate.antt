-- ===== src/Routes/Gate.antt =====
-- src/app/(app)/routes/actions.ts: the gate of the three actions.
use headtower.Prelude.{
  ◌≡◌, refl, arith, Bool, true, false, ◌||◌, Option, none, some, List, Text, is_empty,
  if◌then◌else◌,
}
use headtower.Rbac.{routes_write}
use headtower.Authz.{Session, Gate, unauthenticated, denied, granted, authorize, session_can}
use headtower.Routes.Batch.{ApproveAllEntry}
use headtower.Routes.Actions.{
  Headscale, Answer, World, gated, set_route_approval, set_exit_approval, approve_all_pending,
}

refusing :
    (session : Option Session) (who : Session)
    → session_can session routes_write ≡ false
    → ¬ (authorize session routes_write ≡ granted who)
unfolding session_can authorize
refusing none who e g = cc
refusing (some s) who e g = ground (arith, e, g)

module _ {S : Type 0} (headscale : Headscale S) where
  gated_kept :
      (act : Session → Answer × World S) (world : World S) (gate : Gate)
      → ((who : Session) → ¬ (gate ≡ granted who))
      → (gated headscale act world gate).1 ≡ world
  unfolding gated
  gated_kept act world unauthenticated h = refl
  gated_kept act world (denied reason) h = refl
  gated_kept act world (granted who) h = absurd (h who refl)

  guarded :
      (b : Bool) (answer : Answer) (act : Session → Answer × World S) (world : World S)
      (session : Option Session)
      → session_can session routes_write ≡ false
      → (if b
          then (answer, world)
          else gated headscale act world (authorize session routes_write)).1
        ≡ world
  guarded true answer act world session e = refl
  guarded false answer act world session e =
      gated_kept act world (authorize session routes_write) (λ who. refusing session who e)

  -- In a session that may not write routes, or in none, no route action touches the control plane
  -- or the trail.
  pub ungranted_kept :
      (recorded : Bool) (session : Option Session) (id cidr : Text) (approve : Bool)
      (snapshot : List Text) (entries : List ApproveAllEntry) (world : World S)
      → session_can session routes_write ≡ false
      → ((set_route_approval headscale recorded session id cidr approve snapshot world).1 ≡ world)
        × ((set_exit_approval headscale recorded session id approve world).1 ≡ world)
        × ((approve_all_pending headscale recorded session entries world).1 ≡ world)
  unfolding set_route_approval set_exit_approval approve_all_pending
  ungranted_kept recorded session id cidr approve snapshot entries world e = (
    guarded (is_empty id || is_empty cidr) _ _ world session e,
    guarded (is_empty id) _ _ world session e,
    guarded (is_empty entries) _ _ world session e,
  )
