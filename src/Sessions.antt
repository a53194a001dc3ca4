-- ===== src/Sessions.antt =====
-- src/lib/auth/session.ts and src/lib/auth/session-token.ts: the sessions of OIDC sign-in.
pub mod Lifetime
pub mod Tests
use headtower.Prelude.{
  ℕ, ◌+◌, ◌*◌, Bool, true, false, not, Option, none, some, List, [], ◌∷◌, ◌++◌, Text, eq_text, find,
  keep, leb, is_empty, if◌then◌else◌,
}
use headtower.Json.{Json, str}
use headtower.Rbac.{Role}
use headtower.Authz.{Account, loaded_role}

-- A row of `session` without its creation time; times are milliseconds.
pub record Row : Type 0 where
  pub id : Text
  pub user_id : Text
  pub expires_at : ℕ

-- `SESSION_TTL_SECONDS`
abbrev pub session_ttl_seconds : ℕ
session_ttl_seconds = 604800

-- `SessionTokenPayload`
pub record Payload : Type 0 where
  pub sub : Text
  pub sid : Text

-- The two claims of a verified token, where both are strings.
unfoldable pub payload_of : Option Json → Option Json → Option Payload
payload_of (some (str sub)) (some (str sid)) = some record { sub = sub; sid = sid }
payload_of _ _ = none

-- `LoadedSession`
pub record LoadedSession : Type 0 where
  pub user : Account
  pub role : Role
  pub session_id : Text

abbrev pub named : Text → Row → Bool
named id row = eq_text id row.id

-- `db.delete(session).where(eq(session.id, id))`
unfoldable pub delete_row : Text → List Row → List Row
delete_row id rows = keep (λ row. not (named id row)) rows

-- `purgeExpiredSessions`
unfoldable pub purge_expired_sessions : ℕ → List Row → List Row
purge_expired_sessions now rows = keep (λ row. not (leb row.expires_at now)) rows

-- `signSessionToken` and `jwtVerify` belong to a library: the token for a payload at a time, and the
-- claims of a token that it accepts at a time.
module _ (sign : ℕ → Payload → Text)
    (jwt_verify : ℕ → Text → Option (Option Json × Option Json)) where
  -- `verifySessionToken`
  unfoldable pub verify_session_token : ℕ → Text → Option Payload
  unfolding payload_of
  verify_session_token now token = elim (jwt_verify now token) [
    | none ↦ none
    | some (sub, sid) ↦ payload_of sub sid
  ]

  -- `createSession`, by the id that the store mints
  unfoldable pub create_session : ℕ → Text → Text → List Row → Text × List Row
  create_session now minted user_id rows = (
    sign now (record { sub = user_id; sid = minted }),
    rows
        ++ record { id = minted; user_id = user_id; expires_at = now + session_ttl_seconds * 1000 }
          ∷ [],
  )

  -- The payload of the cookie: `none` where it is missing, empty or refused.
  unfoldable pub cookie_payload : ℕ → Option Text → Option Payload
  unfolding verify_session_token
  cookie_payload now none = none
  cookie_payload now (some token) = if is_empty token then none else verify_session_token now token

  unfoldable pub with_account : Row → Option Account → Option LoadedSession
  unfolding loaded_role
  with_account row none = none
  with_account row (some user) =
      some record { user = user; role = loaded_role user; session_id = row.id }

  unfoldable pub with_row :
      ℕ → List Account → List Row → Option Row → Option LoadedSession × List Row
  unfolding delete_row with_account
  with_row now accounts rows none = (none, rows)
  with_row now accounts rows (some row) =
      if leb row.expires_at now
      then (none, delete_row row.id rows)
      else (with_account row (find (λ a. eq_text row.user_id a.id) accounts), rows)

  unfoldable pub with_payload :
      ℕ → List Account → List Row → Option Payload → Option LoadedSession × List Row
  unfolding with_row
  with_payload now accounts rows none = (none, rows)
  with_payload now accounts rows (some payload) =
      with_row now accounts rows (find (named payload.sid) rows)

  -- `loadSession`: what it answers, and the rows that it leaves
  unfoldable pub load_session :
      ℕ → Option Text → List Account → List Row → Option LoadedSession × List Row
  unfolding cookie_payload with_payload
  load_session now cookie accounts rows = with_payload now accounts rows (cookie_payload now cookie)

  -- `endSession` on the rows; it deletes the cookie too
  unfoldable pub end_session : ℕ → Option Text → List Row → List Row
  unfolding cookie_payload delete_row
  end_session now cookie rows = elim (cookie_payload now cookie) [
    | none ↦ rows
    | some payload ↦ delete_row payload.sid rows
  ]
