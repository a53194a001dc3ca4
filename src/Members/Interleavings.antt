-- ===== src/Members/Interleavings.antt =====
-- src/app/(app)/settings/members/actions.ts and `upsertOidcUser` of src/lib/auth/session.ts: the
-- statements of concurrent requests, in any order.
use headtower.Prelude.{
  ℕ, ◌≡◌, sym, subst, refl, arith, Bool, true, false, not, ◌||◌, Option, none, some, List, [], ◌∷◌,
  ◌++◌, map, Text, lit, eq_text, eq_text_iff, has, Distinct, any, keep,
}
use headtower.Authz.{Account}
use headtower.Members.{
  Identity, is_owner, has_id, set_role, write_role, write_removal, refresh, save, upsert_oidc_user,
}
use headtower.Members.Owners.{
  Safe, ids, owners_in, owner_with, Safe-set_role, Safe-promote, Safe-keep, write_role-guarded,
  write_removal-guarded,
}
use headtower.Members.Bootstrap.{saved, upsert_oidc_user-owner}

-- One statement on the table. The account `target` is what its request read, at any time before:
-- only the steps of an account read as no owner say how its row is now.
pub data Step : List Account → List Account → Type 0 where
  demote :
      {xs ys : List Account} (target : Account) (id role : Text)
      → is_owner target ≡ true
      → eq_text role (lit "owner") ≡ false
      → write_role target id role xs ≡ some ys
      → Step xs ys
  promote :
      {xs ys : List Account} (target : Account) (id role : Text)
      → eq_text role (lit "owner") ≡ true
      → write_role target id role xs ≡ some ys
      → Step xs ys
  change :
      {xs ys : List Account} (target : Account) (id role : Text)
      → is_owner target ≡ false
      → any (owner_with id) xs ≡ false
      → write_role target id role xs ≡ some ys
      → Step xs ys
  remove_owner :
      {xs ys : List Account} (target : Account) (id : Text)
      → is_owner target ≡ true
      → write_removal target id xs ≡ some ys
      → Step xs ys
  remove :
      {xs ys : List Account} (target : Account) (id : Text)
      → is_owner target ≡ false
      → any (owner_with id) xs ≡ false
      → write_removal target id xs ≡ some ys
      → Step xs ys
  sign_in :
      {xs : List Account} (now : ℕ) (minted : Text) (identity : Identity)
      → has minted (ids xs) ≡ false
      → Step xs (upsert_oidc_user now minted identity xs)

pub data Steps : List Account → List Account → Type 0 where
  stop : {xs : List Account} → Steps xs xs
  step : {xs ys zs : List Account} → Step xs ys → Steps ys zs → Steps xs zs

owners_in-none :
    (id : Text) (xs : List Account) → any (owner_with id) xs ≡ false → owners_in (has_id id) xs ≡ 0
owners_in-none id [] e = refl
owners_in-none id (a ∷ rest) e = ground (arith, owners_in-none id rest)

write_role-promote :
    (target : Account) (id role : Text) (xs ys : List Account)
    → eq_text role (lit "owner") ≡ true
    → Safe xs
    → write_role target id role xs ≡ some ys
    → Safe ys
unfolding write_role
write_role-promote target id role xs ys r (d, n) e =
    let done : set_role (has_id id) role xs ≡ ys = ground (arith, e, r) in
    subst Safe done (Safe-promote (has_id id) xs d role r n)

write_role-change :
    (target : Account) (id role : Text) (xs ys : List Account)
    → is_owner target ≡ false
    → any (owner_with id) xs ≡ false
    → Safe xs
    → write_role target id role xs ≡ some ys
    → Safe ys
unfolding write_role
write_role-change target id role xs ys o now (d, n) e =
    let done : set_role (has_id id) role xs ≡ ys = ground (arith, e, o) in
    subst Safe done (Safe-set_role (has_id id) xs d role (omega (arith, owners_in-none id xs now)))

write_removal-other :
    (target : Account) (id : Text) (xs ys : List Account)
    → is_owner target ≡ false
    → any (owner_with id) xs ≡ false
    → Safe xs
    → write_removal target id xs ≡ some ys
    → Safe ys
unfolding write_removal
write_removal-other target id xs ys o now (d, n) e =
    let done : keep (λ a. not (has_id id a)) xs ≡ ys = ground (arith, e, o) in
    subst Safe done (Safe-keep (has_id id) xs d (omega (arith, owners_in-none id xs now)))

has-append_one :
    (s : Text) (xs ys : List Account) → has s (ids (xs ++ ys)) ≡ (has s (ids xs) || has s (ids ys))
unfolding has
has-append_one s [] ys = refl
has-append_one s (a ∷ xs) ys = ground (arith, has-append_one s xs ys)

Distinct-append_one :
    (xs : List Account) (a : Account)
    → Distinct (ids xs)
    → has a.id (ids xs) ≡ false
    → Distinct (ids (xs ++ a ∷ []))
unfolding has
Distinct-append_one [] a d e = (refl, tt)
Distinct-append_one (x ∷ xs) a (new, d) e = (
  rw (has-append_one x.id xs (a ∷ []))
      (ground (arith, new, e, eq_text_iff x.id a.id, eq_text_iff a.id x.id)),
  Distinct-append_one xs a d (ground (arith, e)),
)

ids-saved :
    (now : ℕ) (identity : Identity) (id : Text) (b : Bool) (xs : List Account)
    → ids (map (saved now identity id b) xs) ≡ ids xs
unfolding refresh
ids-saved now identity id b [] = refl
ids-saved now identity id b (a ∷ xs) = ground (arith, ids-saved now identity id b xs)

save-Distinct :
    (now : ℕ) (minted : Text) (identity : Identity) (b : Bool) (xs : List Account)
    (found : Option Account)
    → has minted (ids xs) ≡ false
    → Distinct (ids xs)
    → Distinct (ids (save now minted identity b xs found))
unfolding save
save-Distinct now minted identity b xs (some x) e d =
    subst (λ names. Distinct names) (sym (ids-saved now identity x.id _ xs)) d
save-Distinct now minted identity b xs none e d = Distinct-append_one xs _ d e

upsert_oidc_user-Distinct :
    (now : ℕ) (minted : Text) (identity : Identity) (xs : List Account)
    → has minted (ids xs) ≡ false
    → Distinct (ids xs)
    → Distinct (ids (upsert_oidc_user now minted identity xs))
unfolding upsert_oidc_user
upsert_oidc_user-Distinct now minted identity xs = save-Distinct now minted identity _ xs _

Step-Safe : {xs ys : List Account} → Step xs ys → Safe xs → Safe ys
Step-Safe (demote target id role o r e) s = write_role-guarded target id role _ _ o r s e
Step-Safe (promote target id role r e) s = write_role-promote target id role _ _ r s e
Step-Safe (change target id role o now e) s = write_role-change target id role _ _ o now s e
Step-Safe (remove_owner target id o e) s = write_removal-guarded target id _ _ o s e
Step-Safe (remove target id o now e) s = write_removal-other target id _ _ o now s e
Step-Safe {xs} (sign_in now minted identity new) (d, n) = (
  upsert_oidc_user-Distinct now minted identity xs new d,
  upsert_oidc_user-owner now minted identity xs,
)

-- Any sequence of the guarded or plain writes of updateMemberRole and removeMember and of whole
-- sign-ins, each write for an account that its request may have read before any of the earlier
-- ones, keeps unique ids and at least one owner, provided that an id that the store mints is new
-- and that an account that was read as no owner, and is to be removed or to get another role, is
-- no owner when its statement runs.
pub Steps-Safe : {xs ys : List Account} → Steps xs ys → Safe xs → Safe ys
Steps-Safe stop s = s
Steps-Safe (step first rest) s = Steps-Safe rest (Step-Safe first s)
