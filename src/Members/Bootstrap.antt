-- ===== src/Members/Bootstrap.antt =====
-- `upsertOidcUser` of src/lib/auth/session.ts: after a sign-in somebody owns the deployment.
use headtower.Prelude.{
  ℕ, ◌≤◌, ◌+◌, ◌≡◌, refl, inl, inr, Bool, true, false, Option, none, some, List, [], ◌∷◌, ◌++◌, map,
  Text, lit, eq_text, eq_text_self, find, any, arith, Bool-cases, if◌then◌else◌,
}
use headtower.Authz.{Account}
use headtower.Members.{Identity, is_owner, has_id, owners, upsert_oidc_user, refresh, save}

any-owners : (xs : List Account) → any is_owner xs ≡ true → 1 ≤ owners xs
unfolding owners
any-owners [] e = cc
any-owners (a ∷ rest) e = ground (arith, any-owners rest)

owners-append : (xs ys : List Account) → owners (xs ++ ys) ≡ owners xs + owners ys
unfolding owners
owners-append [] ys = omega arith
owners-append (a ∷ rest) ys = ground (arith, owners-append rest ys)

owners-single : (a : Account) → is_owner a ≡ true → owners (a ∷ []) ≡ 1
unfolding owners
owners-single a e = ground arith

module _ (now : ℕ) (identity : Identity) (id : Text) where
  abbrev pub saved : Bool → Account → Account
  unfolding refresh
  saved promote a = if has_id id a then refresh now identity promote a else a

  -- Refreshing alone changes no role.
  owners-saved : (xs : List Account) → owners (map (saved false) xs) ≡ owners xs
  unfolding owners refresh
  owners-saved [] = refl
  owners-saved (a ∷ rest) = elim (Bool-cases (has_id id a)) [
    | inl e ↦ rw e (ground (arith, owners-saved rest))
    | inr e ↦ rw e (ground (arith, owners-saved rest))
  ]

  -- The account that signs in is promoted where it is found.
  owners-promoted :
      (xs : List Account) → any (has_id id) xs ≡ true → 1 ≤ owners (map (saved true) xs)
  unfolding owners refresh
  owners-promoted [] h = cc
  owners-promoted (a ∷ rest) h = elim (Bool-cases (has_id id a)) [
    | inl e ↦ rw (e, eq_text_self (lit "owner")) (ground arith)
    | inr e ↦ rw e (ground (arith, owners-promoted rest))
  ]

-- A sign-in finds the account among the rows, and the account is no owner where none is.
find-any :
    (p : Account → Bool) (xs : List Account) (x : Account)
    → find p xs ≡ some x
    → (any (has_id x.id) xs ≡ true) × (any is_owner xs ≡ false → is_owner x ≡ false)
find-any p [] x e = cc
find-any p (a ∷ rest) x e = elim (Bool-cases (p a)) [
  | inl h ↦
      let first : some a ≡ some x = rw h at e in
      let same : has_id x.id a ≡ true = ground (arith, first, eq_text_self x.id) in
      let role : is_owner a ≡ is_owner x = ground (arith, first) in
      (ground (arith, same), λ n. ground (arith, n, role))
  | inr h ↦
      let later : find p rest ≡ some x = rw h at e in
      let (seen, roles) = find-any p rest x later in
      (ground (arith, seen), λ n. roles (ground (arith, n)))
]

save-owner :
    (now : ℕ) (minted : Text) (identity : Identity) (xs : List Account) (found : Option Account)
    → ((x : Account)
        → found ≡ some x
        → (any (has_id x.id) xs ≡ true) × (any is_owner xs ≡ false → is_owner x ≡ false))
    → 1 ≤ owners (save now minted identity (any is_owner xs) xs found)
unfolding save
save-owner now minted identity xs none h = elim (Bool-cases (any is_owner xs)) [
  | inl e ↦ rw e (omega (arith, owners-append xs _, any-owners xs e))
  | inr e ↦ rw (e, owners-append) (omega (arith, owners-single _ (eq_text_self (lit "owner"))))
]
save-owner now minted identity xs (some x) h = elim (Bool-cases (any is_owner xs)) [
  | inl e ↦ rw e (omega (arith, owners-saved now identity x.id xs, any-owners xs e))
  | inr e ↦ rw (e, (h x refl).1 e) (owners-promoted now identity x.id xs (h x refl).0)
]

-- After any sign-in the table has an owner.
pub upsert_oidc_user-owner :
    (now : ℕ) (minted : Text) (identity : Identity) (xs : List Account)
    → 1 ≤ owners (upsert_oidc_user now minted identity xs)
unfolding upsert_oidc_user
upsert_oidc_user-owner now minted identity xs =
    save-owner now minted identity xs _ (find-any (λ a. eq_text identity.sub a.sub) xs)
