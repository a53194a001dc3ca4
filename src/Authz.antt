-- ===== src/Authz.antt =====
-- src/lib/auth/index.ts (the session), src/lib/authz/index.ts (the gate and the audit glue) and the
-- writing side of src/lib/audit/index.ts.
use headtower.Prelude.{
  ℕ, Bool, false, not, Option, none, some, List, [], ◌∷◌, ◌++◌, Text, lit, if◌then◌else◌, map,
}
use headtower.Json.{Json}
use headtower.Rbac.{Role, owner, Capability, can, role_label, role_of, default_role, capabilities}

-- `AuthMethod`
pub data AuthMethod : Type 0 where
  api_key oidc : AuthMethod

-- `SessionUser`
pub record SessionUser : Type 0 where
  pub id : Text
  pub name : Text
  pub method : AuthMethod
  pub email : Option Text
  pub picture : Option Text

-- `Session`
pub record Session : Type 0 where
  pub user : SessionUser
  pub role : Role

-- A row of `app_user` without its creation time; `role` is free text on disk.
pub record Account : Type 0 where
  pub id : Text
  pub sub : Text
  pub name : Text
  pub email : Option Text
  pub picture : Option Text
  pub role : Text
  pub last_login_at : Option ℕ

-- `OPERATOR`
abbrev pub operator_user : SessionUser
operator_user = record {
  id = lit "operator";
  name = lit "Operator";
  method = api_key;
  email = none;
  picture = none;
}

-- The role that `loadSession` gives an account.
unfoldable pub loaded_role : Account → Role
loaded_role account = elim (role_of (account.role)) [ none ↦ default_role | some role ↦ role ]

-- `getSession`, by whether the configuration is valid, whether a provider is enabled, and the
-- account that the cookie leads to.
unfoldable pub get_session : Bool → Bool → Option Account → Option Session
unfolding loaded_role
get_session config_valid oidc_enabled loaded =
    if not config_valid
    then none
    else if oidc_enabled
    then elim loaded [
      | none ↦ none
      | some account ↦ some record {
        user = record {
          id = account.id;
          name = account.name;
          method = oidc;
          email = account.email;
          picture = account.picture;
        };
        role = loaded_role account;
      }
    ]
    else some record { user = operator_user; role = owner }

-- `AuthzResult`, with the `UnauthorizedError` that `requireSession` throws.
pub data Gate : Type 0 where
  unauthenticated : Gate
  denied : Text → Gate
  granted : Session → Gate

-- `authorize`
unfoldable pub authorize : Option Session → Capability → Gate
unfolding can role_label
authorize none capability = unauthenticated
authorize (some session) capability =
    if not (can (session.role) capability)
    then denied
        (lit "Your role (" ++ role_label (session.role) ++ lit ") isn't allowed to do this.")
    else granted session

-- `RecordAuditInput`
pub record AuditEntry : Type 0 where
  pub actor : Text
  pub action : Text
  pub target_type : Option Text
  pub target_id : Option Text
  pub target_name : Option Text
  pub detail : Option Json

-- `actorLabel`
unfoldable pub actor_label : Session → Text
actor_label session = session.user.id

-- `audit` on the trail, by whether the store takes the row: a failed write is swallowed.
unfoldable pub audit : Bool → (Text → AuditEntry) → Session → List AuditEntry → List AuditEntry
unfolding actor_label
audit recorded entry session trail =
    if recorded then trail ++ entry (actor_label session) ∷ [] else trail

-- `sessionCan`
unfoldable pub session_can : Option Session → Capability → Bool
unfolding can
session_can none capability = false
session_can (some session) capability = can (session.role) capability

-- `sessionCapabilities`
unfoldable pub session_capabilities : Option Session → List (Capability × Bool)
unfolding session_can
session_capabilities session = map (λ c. (c, session_can session c)) capabilities
