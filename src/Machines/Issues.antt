-- ===== src/Machines/Issues.antt =====
-- src/lib/machines.ts: which machines need attention, said of the machine rather than of its view.
use headtower.Prelude.{
  ℕ, ◌+◌, ◌≡◌, refl, arith, Bool, true, false, not, ◌&&◌, ◌||◌, leb, Option, none, some, List, [],
  ◌∷◌, Text, has, add, add_all, unique, insert, sort, any, keep, is_empty,
}
use headtower.Routes.{is_default_route}
use headtower.Machines.{dedupe, pending_routes}
use headtower.Machines.View.{
  Node, AgentInfo, expiry_warn_ms, list_of, expiry_ms, is_expired, is_expiring, serves_exit,
  to_node_view,
}
use headtower.Machines.Status.{has_issue}

is_empty-insert : (s : Text) (ts : List Text) → is_empty (insert s ts) ≡ false
unfolding insert
is_empty-insert s [] = refl
is_empty-insert s (t ∷ ts) = ground arith

is_empty-sort : (ss : List Text) → is_empty (sort ss) ≡ is_empty ss
unfolding sort
is_empty-sort [] = refl
is_empty-sort (s ∷ ss) = is_empty-insert s (sort ss)

is_empty-keep : (p : Text → Bool) (ss : List Text) → not (is_empty (keep p ss)) ≡ any p ss
is_empty-keep p [] = refl
is_empty-keep p (s ∷ ss) = ground (arith, is_empty-keep p ss)

is_empty-add : (s : Text) (ts : List Text) → is_empty (add s ts) ≡ false
unfolding add has
is_empty-add s [] = refl
is_empty-add s (t ∷ ts) = ground arith

is_empty-add_all : (ss ts : List Text) → is_empty (add_all ss ts) ≡ (is_empty ss && is_empty ts)
unfolding add_all
is_empty-add_all [] ts = refl
is_empty-add_all (s ∷ ss) ts = ground (arith, is_empty-add_all ss (add s ts), is_empty-add s ts)

is_empty-dedupe : (ss : List Text) → not (is_empty (dedupe ss)) ≡ any (λ s. not (is_empty s)) ss
unfolding dedupe unique
is_empty-dedupe ss =
    rw
      (
        is_empty-sort (unique (keep (λ s. not (is_empty s)) ss)),
        is_empty-add_all (keep (λ s. not (is_empty s)) ss) [],
      )
      (ground (arith, is_empty-keep (λ s. not (is_empty s)) ss))

-- A time that is not beyond the window of the warning
abbrev pub within : ℕ → Option (Bool × ℕ) → Bool
within now none = false
within now (some (true, before)) = true
within now (some (false, t)) = leb t (now + expiry_warn_ms)

expiry_within :
    (parse : Text → Option (Bool × ℕ)) (now : ℕ) (t : Option (Bool × ℕ))
    → (is_expired parse now t || is_expiring parse now t) ≡ within now t
unfolding is_expired is_expiring
expiry_within parse now none = refl
expiry_within parse now (some (true, before)) = refl
expiry_within parse now (some (false, t)) = ground arith

-- The view of a machine needs attention exactly when the key of the machine expires within the
-- window of the warning or has expired, it asked for a tag that was refused and is not blank, it
-- offers a default route while none is approved or served, or it offers another route that is not
-- approved.
pub has_issue-node :
    (parse : Text → Option (Bool × ℕ)) (node : Node) (now : ℕ) (agent : Option AgentInfo)
    → has_issue (to_node_view parse node now agent) ≡ (
        within now (expiry_ms parse node.expiry)
        || any (λ tag. not (is_empty tag)) (list_of node.invalid_tags)
        || (any is_default_route (list_of node.available_routes)
            && not (any is_default_route (list_of node.approved_routes))
            && not (any is_default_route (list_of node.subnet_routes)))
        || any
            (λ r. not (has r (list_of node.approved_routes)) && not (is_default_route r))
            (list_of node.available_routes))
unfolding has_issue to_node_view serves_exit pending_routes
has_issue-node parse node now agent =
    let fresh : Text → Bool =
      λ r. not (has r (list_of node.approved_routes)) && not (is_default_route r) in
    ground (
      arith,
      expiry_within parse now (expiry_ms parse node.expiry),
      is_empty-dedupe (list_of node.invalid_tags),
      is_empty-sort (keep fresh (list_of node.available_routes)),
      is_empty-keep fresh (list_of node.available_routes),
    )
