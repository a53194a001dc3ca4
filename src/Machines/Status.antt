-- ===== src/Machines/Status.antt =====
-- src/lib/machines.ts: the dot, the owner and the segment of a machine.
use headtower.Prelude.{Bool, true, not, ◌&&◌, ◌||◌, [], Text, lit, ◌∷◌, is_empty, if◌then◌else◌}
use headtower.Machines.{}
use headtower.Machines.View.{Owner, NodeView}

-- `DotStatus` and the labels of `nodeDot`
pub data Dot : Type 0 where
  online warn critical idle : Dot

unfoldable pub node_dot : NodeView → Dot × Text
node_dot view =
    if view.expired
    then (critical, lit "Expired")
    else if view.online
    then (online, lit "Online")
    else (idle, lit "Offline")

-- `ownerLabel`; the label of an owner without a name is a dash, code unit 8212
unfoldable pub owner_label : Owner → Text
owner_label user =
    if not (is_empty user.display_name)
    then user.display_name
    else if not (is_empty user.name)
    then user.name
    else if not (is_empty user.email)
    then user.email
    else 8212 ∷ []

-- `hasIssue`
unfoldable pub has_issue : NodeView → Bool
has_issue node =
    node.expired
    || node.expires_soon
    || not (is_empty node.invalid_tags)
    || node.advertises_exit
    || not (is_empty node.pending_routes)

-- `StatusFilter` and `matchesStatus`
pub data StatusFilter : Type 0 where
  all online offline issues : StatusFilter

unfoldable pub matches_status : NodeView → StatusFilter → Bool
unfolding has_issue
matches_status node all = true
matches_status node online = node.online && not node.expired
matches_status node offline = not node.online && not node.expired
matches_status node issues = has_issue node
