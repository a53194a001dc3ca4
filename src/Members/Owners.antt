-- ===== src/Members/Owners.antt =====
-- src/app/(app)/settings/members/actions.ts: somebody can always manage the members.
use headtower.Prelude.{
  ℕ, suc, ◌+◌, ◌≤◌, ◌<◌, subst, ◌≡◌, refl, inl, inr, Bool, true, false, not, ◌&&◌, some, List, [],
  ◌∷◌, map, Text, lit, eq_text, eq_text_iff, has, Distinct, find, keep, arith, Bool-cases,
  if◌then◌else◌,
}
use headtower.Authz.{Account}
use headtower.Members.{is_owner, has_id, owners, set_role, write_role, write_removal}

-- The ids, which the store keeps unique.
abbrev pub ids : List Account → List Text
ids accounts = map (λ a. a.id) accounts

-- The owners among the chosen rows.
abbrev pub owners_in : (Account → Bool) → List Account → ℕ
owners_in chosen [] = 0
owners_in chosen (a ∷ rest) =
    if chosen a && is_owner a then suc (owners_in chosen rest) else owners_in chosen rest

module _ (chosen : Account → Bool) where
  set_role-ids : (role : Text) (xs : List Account) → ids (set_role chosen role xs) ≡ ids xs
  unfolding set_role
  set_role-ids role [] = refl
  set_role-ids role (a ∷ rest) = ground (arith, set_role-ids role rest)

  -- A change of the chosen rows takes the owners among them at most.
  owners-set_role-le :
      (role : Text) (xs : List Account)
      → owners xs ≤ owners (set_role chosen role xs) + owners_in chosen xs
  unfolding owners set_role
  owners-set_role-le role [] = omega arith
  owners-set_role-le role (a ∷ rest) = elim (Bool-cases (chosen a)) [
    | inl e ↦ rw e (ground (arith, owners-set_role-le role rest))
    | inr e ↦ rw e (ground (arith, owners-set_role-le role rest))
  ]

  owners-keep-le :
      (xs : List Account) → owners xs ≤ owners (keep (λ a. not (chosen a)) xs) + owners_in chosen xs
  unfolding owners
  owners-keep-le [] = omega arith
  owners-keep-le (a ∷ rest) = elim (Bool-cases (chosen a)) [
    | inl e ↦ rw e (ground (arith, owners-keep-le rest))
    | inr e ↦ rw e (ground (arith, owners-keep-le rest))
  ]

  -- Making the chosen rows owners loses none.
  owners-promote-le :
      (role : Text) (xs : List Account)
      → eq_text role (lit "owner") ≡ true
      → owners xs ≤ owners (set_role chosen role xs)
  unfolding owners set_role
  owners-promote-le role [] h = omega arith
  owners-promote-le role (a ∷ rest) h = elim (Bool-cases (chosen a)) [
    | inl e ↦ rw e (ground (arith, owners-promote-le role rest))
    | inr e ↦ rw e (ground (arith, owners-promote-le role rest))
  ]

  owners_in-owner :
      (xs : List Account) → owners_in (λ a. chosen a && is_owner a) xs ≡ owners_in chosen xs
  owners_in-owner [] = refl
  owners_in-owner (a ∷ rest) = ground (arith, owners_in-owner rest)

  has-keep :
      (id : Text) (xs : List Account)
      → has id (ids xs) ≡ false
      → has id (ids (keep chosen xs)) ≡ false
  unfolding has
  has-keep id [] e = refl
  has-keep id (a ∷ rest) h = elim (Bool-cases (chosen a)) [
    | inl e ↦ rw e (ground (arith, has-keep id rest))
    | inr e ↦ rw e (ground (arith, has-keep id rest))
  ]

  Distinct-keep : (xs : List Account) → Distinct (ids xs) → Distinct (ids (keep chosen xs))
  Distinct-keep [] d = tt
  Distinct-keep (a ∷ rest) (new, d) = elim (Bool-cases (chosen a)) [
    | inl e ↦ rw e (has-keep a.id rest new, Distinct-keep rest d)
    | inr e ↦ rw e (Distinct-keep rest d)
  ]

-- Ids are unique, so that one row has an id at most.
module _ (id : Text) where
  owners_in-unseen : (xs : List Account) → has id (ids xs) ≡ false → owners_in (has_id id) xs ≡ 0
  unfolding has
  owners_in-unseen [] e = refl
  owners_in-unseen (a ∷ rest) e = ground (arith, owners_in-unseen rest)

  owners_in-le-one : (xs : List Account) → Distinct (ids xs) → owners_in (has_id id) xs ≤ 1
  owners_in-le-one [] d = omega arith
  owners_in-le-one (a ∷ rest) (new, d) =
      ground (arith, owners_in-le-one rest d, owners_in-unseen rest, eq_text_iff id a.id, new)

  owners_in-found :
      (xs : List Account) (target : Account)
      → Distinct (ids xs)
      → find (has_id id) xs ≡ some target
      → is_owner target ≡ false
      → owners_in (has_id id) xs ≡ 0
  owners_in-found [] target d e n = refl
  owners_in-found (a ∷ rest) target (new, d) e n = elim (Bool-cases (has_id id a)) [
    | inl f ↦
        let same : some a ≡ some target = rw f at e in
        let mine : is_owner a ≡ false = cc in
        ground (arith, mine, owners_in-unseen rest, eq_text_iff id a.id, new)
    | inr f ↦
        let later : find (has_id id) rest ≡ some target = rw f at e in
        ground (arith, f, owners_in-found rest target d later n)
  ]

-- What the console may never lose: unique ids, and an owner.
abbrev pub Safe : List Account → Type 0
Safe xs = Distinct (ids xs) × (1 ≤ owners xs)

module _ (chosen : Account → Bool) (xs : List Account) (d : Distinct (ids xs)) where
  pub Safe-set_role :
      (role : Text) → 1 + owners_in chosen xs ≤ owners xs → Safe (set_role chosen role xs)
  Safe-set_role role h =
      (rw (set_role-ids chosen role xs) d, omega (arith, owners-set_role-le chosen role xs))

  pub Safe-promote :
      (role : Text)
      → eq_text role (lit "owner") ≡ true
      → 1 ≤ owners xs
      → Safe (set_role chosen role xs)
  Safe-promote role e h =
      (rw (set_role-ids chosen role xs) d, omega (arith, owners-promote-le chosen role xs e))

  pub Safe-keep : 1 + owners_in chosen xs ≤ owners xs → Safe (keep (λ a. not (chosen a)) xs)
  Safe-keep h = (Distinct-keep (λ a. not (chosen a)) xs d, omega (arith, owners-keep-le chosen xs))

-- The row that the guarded statements choose.
abbrev pub owner_with : Text → Account → Bool
owner_with id a = has_id id a && is_owner a

one_owner : (id : Text) (xs : List Account) → Distinct (ids xs) → owners_in (owner_with id) xs ≤ 1
one_owner id xs d = omega (arith, owners_in-owner (has_id id) xs, owners_in-le-one id xs d)

-- A demotion of an account that was read as an owner keeps unique ids and an owner, whatever has
-- changed in the table since the read, as long as the table has both when the statement runs.
pub write_role-guarded :
    (target : Account) (id role : Text) (xs ys : List Account)
    → is_owner target ≡ true
    → eq_text role (lit "owner") ≡ false
    → Safe xs
    → write_role target id role xs ≡ some ys
    → Safe ys
unfolding write_role
write_role-guarded target id role xs ys o r (d, n) e =
    let done : (1 < owners xs) × (set_role (owner_with id) role xs ≡ ys) =
      ground (arith, e, o, r) in
    subst Safe done.1
      (Safe-set_role (owner_with id) xs d role (omega (arith, done.0, one_owner id xs d)))

pub write_role-Safe :
    (target : Account) (id role : Text) (xs ys : List Account)
    → find (has_id id) xs ≡ some target
    → Safe xs
    → write_role target id role xs ≡ some ys
    → Safe ys
unfolding write_role
write_role-Safe target id role xs ys f (d, n) e = elim (Bool-cases (eq_text role (lit "owner"))) [
  | inl r ↦
      let done : set_role (has_id id) role xs ≡ ys = ground (arith, e, r) in
      subst Safe done (Safe-promote (has_id id) xs d role r n)
  | inr r ↦ elim (Bool-cases (is_owner target)) [
    | inl o ↦ write_role-guarded target id role xs ys o r (d, n) e
    | inr o ↦
        let done : set_role (has_id id) role xs ≡ ys = ground (arith, e, o) in
        let spare = owners_in-found id xs target d f o in
        subst Safe done (Safe-set_role (has_id id) xs d role (omega (arith, spare)))
  ]
]

pub write_removal-guarded :
    (target : Account) (id : Text) (xs ys : List Account)
    → is_owner target ≡ true
    → Safe xs
    → write_removal target id xs ≡ some ys
    → Safe ys
unfolding write_removal
write_removal-guarded target id xs ys o (d, n) e =
    let done : (1 < owners xs) × (keep (λ a. not (owner_with id a)) xs ≡ ys) =
      ground (arith, e, o) in
    subst Safe done.1 (Safe-keep (owner_with id) xs d (omega (arith, done.0, one_owner id xs d)))

pub write_removal-Safe :
    (target : Account) (id : Text) (xs ys : List Account)
    → find (has_id id) xs ≡ some target
    → Safe xs
    → write_removal target id xs ≡ some ys
    → Safe ys
unfolding write_removal
write_removal-Safe target id xs ys f (d, n) e = elim (Bool-cases (is_owner target)) [
  | inl o ↦ write_removal-guarded target id xs ys o (d, n) e
  | inr o ↦
      let done : keep (λ a. not (has_id id a)) xs ≡ ys = ground (arith, e, o) in
      let spare = owners_in-found id xs target d f o in
      subst Safe done (Safe-keep (has_id id) xs d (omega (arith, spare)))
]
