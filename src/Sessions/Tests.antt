-- ===== src/Sessions/Tests.antt =====
-- A session of one account, with tokens that are the session's id in the open.
use headtower.Prelude.{
  ℕ, ◌≡◌, refl, arith, true, false, Option, none, some, [], ◌∷◌, Text, lit, eq_text, find, is_empty,
}
use headtower.Json.{Json, str}
use headtower.Authz.{Account, loaded_role}
use headtower.Sessions.{
  Row, Payload, LoadedSession, create_session, cookie_payload, load_session, end_session,
}
use headtower.Sessions.Lifetime.{Rests, load_session-end, load_session-create, load_session-Rests}

abbrev sign : ℕ → Payload → Text
sign now payload = payload.sid

abbrev jwt_verify : ℕ → Text → Option (Option Json × Option Json)
jwt_verify now token = some (some (str (lit "u")), some (str token))

abbrev ann : Account
ann = record {
  id = lit "u";
  sub = lit "s";
  name = lit "Ann";
  email = none;
  picture = none;
  role = lit "viewer";
  last_login_at = none;
}

abbrev payload : Payload
payload = record { sub = lit "u"; sid = lit "1" }

abbrev row : Row
row = record { id = lit "1"; user_id = lit "u"; expires_at = 9 }

cookie_read : cookie_payload sign jwt_verify 5 (some (lit "1")) ≡ some payload
unfolding cookie_payload lit
cookie_read = refl

same_id : eq_text (payload.sid) (payload.sid) ≡ true
unfolding eq_text lit
same_id = refl

load_session-end_example :
    load_session sign jwt_verify 5
      (some (lit "1"))
      (ann ∷ [])
      (end_session sign jwt_verify 5 (some (lit "1")) (row ∷ []))
    ≡ (none, end_session sign jwt_verify 5 (some (lit "1")) (row ∷ []))
load_session-end_example =
    load_session-end sign jwt_verify 5 5 (some (lit "1")) (some (lit "1")) payload payload
      (ann ∷ []) (row ∷ []) cookie_read cookie_read same_id

ann_found : find (λ a. eq_text (lit "u") (Account.id a)) (ann ∷ []) ≡ some ann
unfolding eq_text lit
ann_found = refl

id_written : is_empty (lit "1") ≡ false
unfolding lit
id_written = refl

load_session-create_example :
    load_session sign jwt_verify 5
      (some (create_session sign jwt_verify 4 (lit "1") (lit "u") []).0)
      (ann ∷ [])
      (create_session sign jwt_verify 4 (lit "1") (lit "u") []).1
    ≡ (
      some record { user = ann; role = loaded_role ann; session_id = lit "1" },
      (create_session sign jwt_verify 4 (lit "1") (lit "u") []).1,
    )
load_session-create_example =
    load_session-create sign jwt_verify 4 5 (lit "1") (lit "u") ann (ann ∷ []) [] refl ann_found
      (omega arith) id_written refl

abbrev loaded : LoadedSession
loaded = record { user = ann; role = loaded_role ann; session_id = lit "1" }

loaded_now : (load_session sign jwt_verify 5 (some (lit "1")) (ann ∷ []) (row ∷ [])).0 ≡ some loaded
unfolding load_session lit eq_text
loaded_now = refl

load_session-Rests_example : Rests sign jwt_verify 5 (ann ∷ []) (row ∷ []) loaded
load_session-Rests_example =
    load_session-Rests sign jwt_verify 5 (some (lit "1")) (ann ∷ []) (row ∷ []) loaded loaded_now
