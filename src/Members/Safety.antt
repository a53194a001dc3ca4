-- ===== src/Members/Safety.antt =====
-- src/app/(app)/settings/members/actions.ts and `upsertOidcUser` of src/lib/auth/session.ts: the
-- actions on the whole console.
use headtower.Prelude.{
  ◌≡◌, ◌≢◌, ◌⊎◌, refl, inl, inr, Bool, false, Option, none, some, List, Text, eq_text, find, arith,
  Bool-cases,
}
use headtower.Rbac.{Role, owner, members_manage, role_of}
use headtower.Rbac.Order.{members_manage_iff}
use headtower.Authz.{
  Session, Account, Gate, unauthenticated, denied, granted, authorize, audit, AuditEntry,
}
use headtower.Members.{
  thrown, refused, gated, with_role, with_target, commit, role_change_entry, removal_entry, Console,
  Outcome, success, has_id, write_role, write_removal, update_member_role, remove_member,
}
use headtower.Members.Owners.{Safe, write_role-Safe, write_removal-Safe}

-- What the stages of an action keep: a property of outcomes that every refusal has.
module _ (P : Outcome × Console → Type 0) (console : Console) where
  abbrev Refusals : Type 0
  Refusals = P (thrown, console) × ((reason : Text) → P (refused reason, console))

  gated_lem :
      (act : Session → Outcome × Console)
      → Refusals
      → (gate : Gate) → ((who : Session) → gate ≡ granted who → P (act who))
      → P (gated act console gate)
  unfolding gated
  gated_lem act r unauthenticated h = r.0
  gated_lem act r (denied reason) h = r.1 reason
  gated_lem act r (granted who) h = h who refl

  with_role_lem :
      (act : Outcome × Console)
      → Refusals
      → (known : Option Role) → P act
      → P (with_role act console known)
  unfolding with_role
  with_role_lem act r none h = r.1 _
  with_role_lem act r (some role) h = h

  with_target_lem :
      (act : Account → Outcome × Console)
      → Refusals
      → (found : Option Account) → ((target : Account) → found ≡ some target → P (act target))
      → P (with_target act console found)
  unfolding with_target
  with_target_lem act r none h = r.1 _
  with_target_lem act r (some target) h = h target refl

  commit_lem :
      (reason : Text) (trail : List AuditEntry)
      → Refusals
      → (w : Option (List Account))
      → ((ys : List Account) → w ≡ some ys → P (success, record { accounts = ys; trail = trail }))
      → P (commit reason trail console w)
  unfolding commit
  commit_lem reason trail r none h = r.1 reason
  commit_lem reason trail r (some ys) h = h ys refl

  -- What every successful write has, the action has.
  update_lem :
      (recorded : Bool) (session : Option Session) (id role : Text)
      → Refusals
      → ((who : Session) (target : Account) (ys : List Account)
          → authorize session members_manage ≡ granted who
          → find (has_id id) console.accounts ≡ some target
          → write_role target id role console.accounts ≡ some ys
          → P (
            success,
            record {
              accounts = ys;
              trail = audit recorded (role_change_entry target id role) who console.trail;
            },
          ))
      → P (update_member_role recorded session id role console)
  unfolding update_member_role
  update_lem recorded session id role r h =
      gated_lem _ r (authorize session members_manage) (λ who g. with_role_lem _ r (role_of role) (
        with_target_lem _ r (find (has_id id) console.accounts) (λ target f.
          commit_lem _ _ r (write_role target id role console.accounts)
            (λ ys e. h who target ys g f e))))

  removal_lem :
      (recorded : Bool) (session : Option Session) (id : Text)
      → Refusals
      → ((who : Session) (target : Account) (ys : List Account)
          → authorize session members_manage ≡ granted who
          → find (has_id id) console.accounts ≡ some target
          → eq_text id who.user.id ≡ false
          → write_removal target id console.accounts ≡ some ys
          → P (
            success,
            record {
              accounts = ys;
              trail = audit recorded (removal_entry target id) who console.trail;
            },
          ))
      → P (remove_member recorded session id console)
  unfolding remove_member
  removal_lem recorded session id r h = gated_lem _ r (authorize session members_manage) (λ who g.
      with_target_lem _ r (find (has_id id) console.accounts) (λ target f.
        elim (Bool-cases (eq_text id who.user.id)) [
          | inl own ↦ rw own (r.1 _)
          | inr other ↦ rw other (
              commit_lem _ _ r (write_removal target id console.accounts)
                (λ ys e. h who target ys g f other e))
        ]))

-- Whatever the request and the session, updateMemberRole keeps unique ids and at least one owner
-- in the table, where the table had both.
pub update_member_role-Safe :
    (recorded : Bool) (session : Option Session) (id role : Text) (console : Console)
    → Safe console.accounts
    → Safe (update_member_role recorded session id role console).1.accounts
update_member_role-Safe recorded session id role console s =
    update_lem (λ o. Safe o.1.accounts) console recorded session id role (s, λ reason. s)
      (λ who target ys g f e. write_role-Safe target id role console.accounts ys f s e)

-- Whatever the request and the session, removeMember keeps unique ids and at least one owner in
-- the table, where the table had both.
pub remove_member-Safe :
    (recorded : Bool) (session : Option Session) (id : Text) (console : Console)
    → Safe console.accounts
    → Safe (remove_member recorded session id console).1.accounts
remove_member-Safe recorded session id console s =
    removal_lem (λ o. Safe o.1.accounts) console recorded session id (s, λ reason. s)
      (λ who target ys g f n e. write_removal-Safe target id console.accounts ys f s e)

authorize-granted :
    (session : Option Session) (who : Session)
    → authorize session members_manage ≡ granted who
    → (session ≡ some who) × (who.role ≡ owner)
unfolding authorize
authorize-granted none who e = cc
authorize-granted (some s) who e = ground (arith, e, members_manage_iff s.role)

-- How an action may end: without a change, or with success for a signed-in owner.
abbrev pub Answers : Option Session → Console → Outcome × Console → Type 0
Answers session console o =
    ((o.0 ≢ success) × (o.1 ≡ console))
    ⊎ ((o.0 ≡ success) × ((who : Session) × ((session ≡ some who) × (who.role ≡ owner))))

refusals :
    (session : Option Session) (console : Console) → Refusals (Answers session console) console
refusals session console = (inl ((λ e. cc), refl), λ reason. inl ((λ e. cc), refl))

-- updateMemberRole either fails and changes nothing, neither the accounts nor the trail, or it
-- succeeds for a signed-in owner.
pub update_member_role-Answers :
    (recorded : Bool) (session : Option Session) (id role : Text) (console : Console)
    → Answers session console (update_member_role recorded session id role console)
update_member_role-Answers recorded session id role console =
    update_lem (Answers session console) console recorded session id role (refusals session console)
      (λ who target ys g f e. inr (refl, (who, authorize-granted session who g)))

-- removeMember either fails and changes nothing, neither the accounts nor the trail, or it
-- succeeds for a signed-in owner.
pub remove_member-Answers :
    (recorded : Bool) (session : Option Session) (id : Text) (console : Console)
    → Answers session console (remove_member recorded session id console)
remove_member-Answers recorded session id console =
    removal_lem (Answers session console) console recorded session id (refusals session console)
      (λ who target ys g f n e. inr (refl, (who, authorize-granted session who g)))
