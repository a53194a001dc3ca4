-- ===== src/Sessions/Lifetime.antt =====
-- src/lib/auth/session.ts: when a session loads.
use headtower.Prelude.{
  ℕ, ◌+◌, ◌*◌, ◌<◌, ◌≡◌, ap, ◌∙◌, refl, inl, inr, arith, Bool, true, false, Option, none, some,
  List, [], ◌∷◌, ◌++◌, Text, eq_text, eq_text_iff, eq_text_self, find, find-holds, subst, leb,
  is_empty, Bool-cases, Option-cases,
}
use headtower.Json.{Json, str}
use headtower.Authz.{Account, loaded_role}
use headtower.Sessions.{
  Row, Payload, LoadedSession, session_ttl_seconds, named, delete_row, create_session,
  cookie_payload, verify_session_token, payload_of, with_account, with_row, with_payload,
  load_session, end_session,
}

find-append : (p : Row → Bool) (xs ys : List Row) → find p xs ≡ none → find p (xs ++ ys) ≡ find p ys
find-append p [] ys e = refl
find-append p (x ∷ xs) ys e = elim (Bool-cases (p x)) [
  | inl h ↦ let found : some x ≡ none = rw h at e in cc
  | inr h ↦ let later : find p xs ≡ none = rw h at e in rw h (find-append p xs ys later)
]

find-delete_row : (id : Text) (rows : List Row) → find (named id) (delete_row id rows) ≡ none
unfolding delete_row
find-delete_row id [] = refl
find-delete_row id (row ∷ rows) = elim (Bool-cases (named id row)) [
  | inl h ↦ rw h (find-delete_row id rows)
  | inr h ↦ rw (h, h) (find-delete_row id rows)
]

module _ (sign : ℕ → Payload → Text)
    (jwt_verify : ℕ → Text → Option (Option Json × Option Json)) where
  -- After endSession with a cookie that names a session, loadSession answers nothing for any
  -- cookie that names the same session, at any time, and keeps the rows.
  pub load_session-end :
      (now later : ℕ) (cookie again : Option Text) (payload : Payload) (other : Payload)
      (accounts : List Account) (rows : List Row)
      → cookie_payload sign jwt_verify now cookie ≡ some payload
      → cookie_payload sign jwt_verify later again ≡ some other
      → eq_text other.sid payload.sid ≡ true
      → load_session sign jwt_verify later again accounts
          (end_session sign jwt_verify now cookie rows)
        ≡ (none, end_session sign jwt_verify now cookie rows)
  unfolding load_session end_session with_payload with_row
  load_session-end now later cookie again payload other accounts rows c d e =
      rw
        (
          end_session,
          c,
          d,
          (eq_text_iff other.sid payload.sid).0 e,
          find-delete_row payload.sid rows,
        )
        refl

  find_opened :
      (now : ℕ) (minted user_id : Text) (rows : List Row)
      → find (named minted) rows ≡ none
      → find (named minted) (create_session sign jwt_verify now minted user_id rows).1
        ≡ some
            record { id = minted; user_id = user_id; expires_at = now + session_ttl_seconds * 1000 }
  unfolding create_session
  find_opened now minted user_id rows fresh =
      find-append (named minted) rows _ fresh ∙ rw (eq_text_self minted) refl

  cookie_opened :
      (now later : ℕ) (payload : Payload)
      → is_empty (sign now payload) ≡ false
      → jwt_verify later (sign now payload) ≡ some (some (str payload.sub), some (str payload.sid))
      → cookie_payload sign jwt_verify later (some (sign now payload)) ≡ some payload
  unfolding cookie_payload verify_session_token payload_of
  cookie_opened now later payload e v = rw (e, verify_session_token, v) refl

  live : (later end : ℕ) → later < end → leb end later ≡ false
  live later end h = ground arith

  -- After createSession under a new id for an account that is there, loadSession with the token
  -- answers that account and keeps the rows, at any time before the expiry at which the token is
  -- not empty and verifies to its own payload.
  pub load_session-create :
      (now later : ℕ) (minted user_id : Text) (user : Account) (accounts : List Account)
      (rows : List Row)
      → find (named minted) rows ≡ none
      → find (λ a. eq_text user_id a.id) accounts ≡ some user
      → later < now + session_ttl_seconds * 1000
      → is_empty (sign now (record { sub = user_id; sid = minted })) ≡ false
      → jwt_verify later (sign now (record { sub = user_id; sid = minted }))
        ≡ some (some (str user_id), some (str minted))
      → load_session sign jwt_verify later
          (some (create_session sign jwt_verify now minted user_id rows).0)
          accounts
          (create_session sign jwt_verify now minted user_id rows).1
        ≡ (
          some record { user = user; role = loaded_role user; session_id = minted },
          (create_session sign jwt_verify now minted user_id rows).1,
        )
  unfolding load_session with_payload with_row with_account create_session
  load_session-create now later minted user_id user accounts rows fresh known soon written valid =
      rw
        (
          cookie_opened now later (record { sub = user_id; sid = minted }) written valid,
          find_opened now minted user_id rows fresh,
          live later (now + session_ttl_seconds * 1000) soon,
          known,
        )
        refl

  -- What a loaded session rests on.
  abbrev pub Rests : ℕ → List Account → List Row → LoadedSession → Type 0
  Rests now accounts rows loaded =
      (row : Row) × ((find (named loaded.session_id) rows ≡ some row)
        × ((now < row.expires_at)
            × (find (λ a. eq_text row.user_id a.id) accounts ≡ some loaded.user)))

  Rests-with_row :
      (now : ℕ) (sid : Text) (accounts : List Account) (rows : List Row) (found : Option Row)
      (loaded : LoadedSession)
      → find (named sid) rows ≡ found
      → (with_row sign jwt_verify now accounts rows found).0 ≡ some loaded
      → Rests now accounts rows loaded
  unfolding with_row with_account
  Rests-with_row now sid accounts rows none loaded f e = cc
  Rests-with_row now sid accounts rows (some row) loaded f e =
      elim (Bool-cases (leb row.expires_at now)) [
        | inl h ↦ let gone : none ≡ some loaded = rw h at e in cc
        | inr h ↦
            let held : with_account sign jwt_verify row
                  (find (λ a. eq_text row.user_id a.id) accounts)
                ≡ some loaded =
              rw h at e in
            elim (Option-cases (find (λ a. eq_text row.user_id a.id) accounts)) [
              | inl a ↦ let gone : none ≡ some loaded = rw a at held in cc
              | inr (user, a) ↦
                  let same : some
                        (record { user = user; role = loaded_role user; session_id = row.id })
                      ≡ some loaded =
                    rw a at held in
                  let id : row.id ≡ loaded.session_id = ground (arith, same) in
                  let who : user ≡ loaded.user = ground (arith, same) in
                  let mine = (eq_text_iff sid row.id).0 (find-holds (named sid) rows row f) in
                  (
                    row,
                    (
                      subst (λ i. find (named i) rows ≡ some row) (mine ∙ id) f,
                      (ground (arith, h), a ∙ ap some who),
                    ),
                  )
            ]
      ]

  -- A session that loadSession answers rests on a row that its id names, that has not expired,
  -- and whose account is the one answered.
  pub load_session-Rests :
      (now : ℕ) (cookie : Option Text) (accounts : List Account) (rows : List Row)
      (loaded : LoadedSession)
      → (load_session sign jwt_verify now cookie accounts rows).0 ≡ some loaded
      → Rests now accounts rows loaded
  unfolding load_session with_payload
  load_session-Rests now cookie accounts rows loaded e =
      elim (Option-cases (cookie_payload sign jwt_verify now cookie)) [
        | inl c ↦ let gone : none ≡ some loaded = rw c at e in cc
        | inr (payload, c) ↦
            Rests-with_row now payload.sid accounts rows (find (named payload.sid) rows) loaded refl
              (rw c at e)
      ]
