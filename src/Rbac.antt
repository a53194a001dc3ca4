-- ===== src/Rbac.antt =====
-- src/lib/rbac/index.ts: roles and what they may do.
pub mod Order
use headtower.Prelude.{
  ℕ, ◌==◌, Bool, true, false, not, Option, none, some, List, [], ◌∷◌, ◌++◌, Text, lit, eq_text,
  keep, any, if◌then◌else◌,
}

-- `Role`, most privileged first.
pub data Role : Type 0 where
  owner admin operator viewer : Role

-- `ROLES` by their names, and `isRole`: the role that a text names.
unfoldable pub role_of : Text → Option Role
role_of s =
    if eq_text s (lit "owner")
    then some owner
    else if eq_text s (lit "admin")
    then some admin
    else if eq_text s (lit "operator")
    then some operator
    else if eq_text s (lit "viewer")
    then some viewer
    else none

unfoldable pub role_name : Role → Text
role_name owner = lit "owner"
role_name admin = lit "admin"
role_name operator = lit "operator"
role_name viewer = lit "viewer"

-- `DEFAULT_ROLE`
abbrev pub default_role : Role
default_role = operator

-- `ROLE_LABELS`
unfoldable pub role_label : Role → Text
role_label owner = lit "Owner"
role_label admin = lit "Admin"
role_label operator = lit "Operator"
role_label viewer = lit "Viewer"

-- `Capability`
pub data Capability : Type 0 where
  machines_read machines_write users_read users_write routes_read routes_write : Capability
  acls_read acls_write dns_read dns_write keys_read keys_write settings_read : Capability
  settings_write audit_read members_manage ssh_connect : Capability

-- The place of a capability in the order of its declaration.
abbrev pub place : Capability → ℕ
place machines_read = 0
place machines_write = 1
place users_read = 2
place users_write = 3
place routes_read = 4
place routes_write = 5
place acls_read = 6
place acls_write = 7
place dns_read = 8
place dns_write = 9
place keys_read = 10
place keys_write = 11
place settings_read = 12
place settings_write = 13
place audit_read = 14
place members_manage = 15
place ssh_connect = 16

abbrev pub eq_capability : Capability → Capability → Bool
eq_capability a b = place a == place b

-- `Set.has`
unfoldable pub holds : Capability → List Capability → Bool
holds c cs = any (eq_capability c) cs

-- `CAPABILITIES`
abbrev pub capabilities : List Capability
capabilities =
    machines_read ∷ machines_write ∷ users_read ∷ users_write ∷ routes_read ∷ routes_write
    ∷ acls_read ∷ acls_write ∷ dns_read ∷ dns_write ∷ keys_read ∷ keys_write ∷ settings_read
    ∷ settings_write ∷ audit_read ∷ members_manage ∷ ssh_connect ∷ []

-- `READ_ONLY`
abbrev pub read_only : List Capability
read_only =
    machines_read ∷ users_read ∷ routes_read ∷ acls_read ∷ dns_read ∷ keys_read ∷ settings_read ∷ []

-- `CAPABILITY_MAP`
unfoldable pub capability_map : Role → List Capability
capability_map owner = capabilities
capability_map admin = keep (λ c. not (eq_capability c members_manage)) capabilities
capability_map operator =
    read_only ++ audit_read ∷ machines_write ∷ routes_write ∷ keys_write ∷ ssh_connect ∷ []
capability_map viewer = read_only

-- `can`
unfoldable pub can : Role → Capability → Bool
unfolding capability_map holds
can role capability = holds capability (capability_map role)

-- `capabilitiesFor`
unfoldable pub capabilities_for : Role → List Capability
unfolding capability_map holds
capabilities_for role = keep (λ c. holds c (capability_map role)) capabilities
