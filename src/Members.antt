-- ===== src/Members.antt =====
-- src/app/(app)/settings/members/actions.ts and `upsertOidcUser` of src/lib/auth/session.ts: the
-- accounts and their roles.
pub mod Bootstrap
pub mod Owners
pub mod Safety
pub mod Interleavings
pub mod Tests
use headtower.Prelude.{
  ℕ, zero, suc, Bool, true, false, not, ◌&&◌, ◌||◌, Option, none, some, List, [], ◌∷◌, ◌++◌, map,
  Text, lit, eq_text, find, any, keep, ltb, if◌then◌else◌,
}
use headtower.Json.{Json, obj, str, field, end}
use headtower.Rbac.{Role, role_of, role_name, default_role, members_manage}
use headtower.Authz.{
  Session, Account, AuditEntry, Gate, unauthenticated, denied, granted, authorize, audit,
}

abbrev pub is_owner : Account → Bool
is_owner account = eq_text (account.role) (lit "owner")

abbrev pub has_id : Text → Account → Bool
has_id id account = eq_text id (account.id)

-- `SELECT count(*) FROM app_user WHERE role = 'owner'`
unfoldable pub owners : List Account → ℕ
owners [] = 0
owners (a ∷ rest) = if is_owner a then suc (owners rest) else owners rest

-- `UPDATE app_user SET role = ? WHERE …`
unfoldable pub set_role : (Account → Bool) → Text → List Account → List Account
set_role chosen role [] = []
set_role chosen role (a ∷ rest) =
    let others = set_role chosen role rest in
    if chosen a then record a { role = role } ∷ others else a ∷ others

-- The console's tables that these actions touch.
pub record Console : Type 0 where
  pub accounts : List Account
  pub trail : List AuditEntry

-- `UpdateRoleState`, with the error that a missing session throws.
pub data Outcome : Type 0 where
  thrown : Outcome
  refused : Text → Outcome
  success : Outcome

-- The write of `updateMemberRole`, for the account as it was read: `none` when the guard of the
-- single statement leaves it without a change.
unfoldable pub write_role : Account → Text → Text → List Account → Option (List Account)
unfolding owners set_role
write_role target id role accounts =
    if is_owner target && not (eq_text role (lit "owner"))
    then if any (λ a. has_id id a && is_owner a) accounts && ltb 1 (owners accounts)
      then some (set_role (λ a. has_id id a && is_owner a) role accounts)
      else none
    else some (set_role (has_id id) role accounts)

-- The write of `removeMember`, likewise.
unfoldable pub write_removal : Account → Text → List Account → Option (List Account)
unfolding owners
write_removal target id accounts =
    if is_owner target
    then if any (λ a. has_id id a && is_owner a) accounts && ltb 1 (owners accounts)
      then some (keep (λ a. not (has_id id a && is_owner a)) accounts)
      else none
    else some (keep (λ a. not (has_id id a)) accounts)

unfoldable pub role_change_entry : Account → Text → Text → Text → AuditEntry
role_change_entry target id role actor = record {
  actor = actor;
  action = lit "member.role_change";
  target_type = some (lit "user");
  target_id = some id;
  target_name = some (target.name);
  detail = some (obj (field (lit "from") (str (target.role)) (field (lit "to") (str role) end)));
}

unfoldable pub removal_entry : Account → Text → Text → AuditEntry
removal_entry target id actor = record {
  actor = actor;
  action = lit "member.remove";
  target_type = some (lit "user");
  target_id = some id;
  target_name = some (target.name);
  detail = none;
}

-- What both actions do with the gate, with the account that they look up and with their write.
unfoldable pub gated : (Session → Outcome × Console) → Console → Gate → Outcome × Console
gated act console unauthenticated = (thrown, console)
gated act console (denied reason) = (refused reason, console)
gated act console (granted who) = act who

unfoldable pub with_role : Outcome × Console → Console → Option Role → Outcome × Console
with_role act console none = (refused (lit "Unknown role."), console)
with_role act console (some _) = act

unfoldable pub with_target :
    (Account → Outcome × Console) → Console → Option Account → Outcome × Console
with_target act console none = (refused (lit "That account no longer exists."), console)
with_target act console (some target) = act target

unfoldable pub commit : Text → List AuditEntry → Console → Option (List Account) → Outcome × Console
commit reason trail console none = (refused reason, console)
commit reason trail console (some accounts) =
    (success, record { accounts = accounts; trail = trail })

-- `updateMemberRole`, with nothing between its read and its write.
unfoldable pub update_member_role :
    Bool → Option Session → Text → Text → Console → Outcome × Console
unfolding authorize audit write_role role_change_entry gated with_role with_target commit
update_member_role recorded session id role console =
    let act : Session → Outcome × Console = λ who.
      with_target
        (λ target.
          commit (lit "Can't demote the only owner - promote someone else first.")
            (audit recorded (role_change_entry target id role) who console.trail) console
            (write_role target id role console.accounts))
        console (find (has_id id) console.accounts) in
    gated (λ who. with_role (act who) console (role_of role)) console
      (authorize session members_manage)

-- `removeMember`, likewise.
unfoldable pub remove_member : Bool → Option Session → Text → Console → Outcome × Console
unfolding authorize audit write_removal removal_entry gated with_target commit
remove_member recorded session id console =
    gated
      (λ who.
        with_target
          (λ target.
            if eq_text id who.user.id
            then (refused (lit "Can't remove your own account here."), console)
            else commit (lit "Can't remove the only owner.")
                (audit recorded (removal_entry target id) who console.trail) console
                (write_removal target id console.accounts))
          console (find (has_id id) console.accounts))
      console (authorize session members_manage)

-- `OidcIdentity`
pub record Identity : Type 0 where
  pub sub : Text
  pub name : Text
  pub email : Option Text
  pub picture : Option Text

-- What a returning account becomes.
unfoldable pub refresh : ℕ → Identity → Bool → Account → Account
refresh now identity promote a =
    let shown = record a {
      name = identity.name;
      email = identity.email;
      picture = identity.picture;
      last_login_at = some now;
    } in
    if promote then record shown { role = lit "owner" } else shown

-- The two writes of a sign-in, by whether an owner exists and the account that the subject has.
unfoldable pub save : ℕ → Text → Identity → Bool → List Account → Option Account → List Account
unfolding refresh
save now minted identity owner_exists accounts (some existing) =
    let promote = not owner_exists && not (is_owner existing) in
    map (λ a. if has_id existing.id a then refresh now identity promote a else a) accounts
save now minted identity owner_exists accounts none =
    accounts
    ++ record {
      id = minted;
      sub = identity.sub;
      name = identity.name;
      email = identity.email;
      picture = identity.picture;
      last_login_at = some now;
      role = if owner_exists then role_name default_role else lit "owner";
    }
      ∷ []

-- `upsertOidcUser`, by the time and the id that the store mints for a new account.
unfoldable pub upsert_oidc_user : ℕ → Text → Identity → List Account → List Account
unfolding save
upsert_oidc_user now minted identity accounts =
    save now minted identity (any is_owner accounts) accounts
      (find (λ a. eq_text identity.sub a.sub) accounts)
