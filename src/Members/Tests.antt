-- ===== src/Members/Tests.antt =====
-- src/app/(app)/settings/members/actions.ts on small tables.
use headtower.Prelude.{
  eq_text, has, ◌≡◌, ◌≤◌, refl, arith, true, Option, none, some, List, [], ◌∷◌, Text, lit,
}
use headtower.Rbac.{role_of, owner}
use headtower.Authz.{Session, Account, oidc}
use headtower.Members.{
  Console, Identity, owners, write_role, update_member_role, remove_member, upsert_oidc_user,
}
use headtower.Members.Owners.{Safe, write_role-guarded}
use headtower.Members.Safety.{
  Answers, update_member_role-Safe, remove_member-Safe, update_member_role-Answers,
}
use headtower.Members.Bootstrap.{upsert_oidc_user-owner}
use headtower.Members.Interleavings.{demote, sign_in, stop, step, Steps-Safe}

abbrev account : Text → Text → Account
account id role = record {
  id = id;
  sub = id;
  name = id;
  email = none;
  picture = none;
  role = role;
  last_login_at = none;
}

abbrev ann : Account
ann = account (lit "a") (lit "owner")

abbrev bob : Account
bob = account (lit "b") (lit "operator")

abbrev two_owners : List Account
two_owners = ann ∷ account (lit "b") (lit "owner") ∷ []

abbrev table : List Account
table = ann ∷ bob ∷ []

abbrev console : Console
console = record { accounts = table; trail = [] }

abbrev session : Option Session
session = some record {
  user = record { id = lit "a"; name = lit "a"; method = oidc; email = none; picture = none };
  role = owner;
}

table-Safe : Safe table
unfolding owners has eq_text lit
table-Safe = ((refl, (refl, tt)), omega arith)

two_owners-Safe : Safe two_owners
unfolding owners has eq_text lit
two_owners-Safe = ((refl, (refl, tt)), omega arith)

demoted :
    write_role ann (lit "a") (lit "admin") two_owners
    ≡ some (account (lit "a") (lit "admin") ∷ account (lit "b") (lit "owner") ∷ [])
unfolding write_role eq_text lit
demoted = refl

write_role-guarded_example :
    Safe (account (lit "a") (lit "admin") ∷ account (lit "b") (lit "owner") ∷ [])
unfolding eq_text lit
write_role-guarded_example =
    write_role-guarded ann (lit "a") (lit "admin") two_owners _ refl refl two_owners-Safe demoted

update_member_role-Safe_example :
    Safe (update_member_role true session (lit "b") (lit "admin") console).1.accounts
update_member_role-Safe_example =
    update_member_role-Safe true session (lit "b") (lit "admin") console table-Safe

remove_member-Safe_example : Safe (remove_member true session (lit "b") console).1.accounts
remove_member-Safe_example = remove_member-Safe true session (lit "b") console table-Safe

update_member_role-Answers_example :
    Answers session console (update_member_role true session (lit "b") (lit "admin") console)
update_member_role-Answers_example =
    update_member_role-Answers true session (lit "b") (lit "admin") console

abbrev cid : Identity
cid = record { sub = lit "c"; name = lit "Cid"; email = none; picture = none }

upsert_oidc_user-owner_example : 1 ≤ owners (upsert_oidc_user 7 (lit "1") cid [])
upsert_oidc_user-owner_example = upsert_oidc_user-owner 7 (lit "1") cid []

-- The last owner is not demoted.
last_owner : (update_member_role true session (lit "a") (lit "viewer") console).1 ≡ console
unfolding update_member_role role_of eq_text lit
last_owner = refl

-- A write for an account that was read as an operator, and that was made the only owner since.
stale_demotion :
    write_role bob
      (lit "b")
      (lit "viewer")
      (account (lit "a") (lit "admin") ∷ account (lit "b") (lit "owner") ∷ [])
    ≡ some (account (lit "a") (lit "admin") ∷ account (lit "b") (lit "viewer") ∷ [])
unfolding write_role eq_text lit
stale_demotion = refl

-- Somebody signs in for the first time while one of two owners is demoted.
abbrev after_both : List Account
after_both =
    upsert_oidc_user 7 (lit "1") cid
      (account (lit "a") (lit "admin") ∷ account (lit "b") (lit "owner") ∷ [])

Steps-Safe_example : Safe after_both
unfolding owners has eq_text lit
Steps-Safe_example =
    Steps-Safe
      (step (demote ann (lit "a") (lit "admin") refl refl demoted)
        (step (sign_in 7 (lit "1") cid refl) stop))
      two_owners-Safe
