-- ===== src/Permissions.antt =====
-- `mqttctl/mqttctl-api/src/lib/server/permissions/index.ts`: which role may do what.
pub mod Grants
mod Examples
use mqttctl.Prelude.{
  ℕ, Text, codes, ◌==◌, Bool, true, false, Option, none, some, List, [], ◌∷◌, map, any, or_else,
  if◌then◌else◌,
}

pub data PrincipalRole : Type 0 where
  viewer : PrincipalRole
  operator : PrincipalRole
  security_admin : PrincipalRole
  broker_admin : PrincipalRole
  super_admin : PrincipalRole
  mcp : PrincipalRole

pub data Capability : Type 0 where
  read : Capability
  operate : Capability
  manage_broker : Capability
  manage_security : Capability
  manage_users : Capability
  view_audit : Capability
  manage_snapshots : Capability
  manage_mcp : Capability

-- The string that stands for a capability.
abbrev pub capability_name : Capability → Text
capability_name read = codes "read"
capability_name operate = codes "operate"
capability_name manage_broker = codes "manage_broker"
capability_name manage_security = codes "manage_security"
capability_name manage_users = codes "manage_users"
capability_name view_audit = codes "view_audit"
capability_name manage_snapshots = codes "manage_snapshots"
capability_name manage_mcp = codes "manage_mcp"

abbrev pub default_mcp_capabilities : List Capability
default_mcp_capabilities =
    read ∷ operate ∷ manage_broker ∷ manage_security ∷ manage_users ∷ view_audit ∷ manage_snapshots
    ∷ []

abbrev pub role_capabilities : PrincipalRole → List Capability
role_capabilities viewer = read ∷ []
role_capabilities operator = read ∷ operate ∷ view_audit ∷ manage_snapshots ∷ []
role_capabilities security_admin = read ∷ manage_security ∷ view_audit ∷ manage_snapshots ∷ []
role_capabilities broker_admin = read ∷ operate ∷ manage_broker ∷ view_audit ∷ manage_snapshots ∷ []
role_capabilities super_admin =
    read ∷ operate ∷ manage_broker ∷ manage_security ∷ manage_users ∷ view_audit ∷ manage_snapshots
    ∷ manage_mcp ∷ []
role_capabilities mcp = default_mcp_capabilities

-- How an account signs in.
pub data AuthMethod : Type 0 where
  local : AuthMethod
  oidc : AuthMethod
  header : AuthMethod
  mcp_access : AuthMethod

pub record AuthenticatedUser : Type 0 where
  pub id : Text
  pub username : Text
  pub email : Option Text
  pub role : PrincipalRole
  pub auth_source : AuthMethod
  pub capabilities : Option (List Text)

-- `list.includes(capability)` on the capabilities' strings
unfoldable pub includes_capability : List Text → Capability → Bool
includes_capability names capability = any (λ name. name == capability_name capability) names

abbrev pub is_mcp_role : PrincipalRole → Bool
is_mcp_role mcp = true
is_mcp_role _ = false

abbrev pub is_manage_mcp : Capability → Bool
is_manage_mcp manage_mcp = true
is_manage_mcp _ = false

unfoldable pub has_capability : Option AuthenticatedUser → Capability → Bool
has_capability none capability = false
has_capability (some user) capability =
    if is_mcp_role user.role
    then (if is_manage_mcp capability
        then false
        else includes_capability
            (or_else user.capabilities (map capability_name default_mcp_capabilities)) capability)
    else includes_capability (map capability_name (role_capabilities user.role)) capability

-- An error of the application, by its key and its HTTP status.
pub record AppError : Type 0 where
  pub error_key : Text
  pub status : ℕ

-- No error, or the one that is thrown.
unfoldable pub require_capability : Option AuthenticatedUser → Capability → Option AppError
require_capability user capability = elim (has_capability user capability) [
  | true ↦ none
  | false ↦ elim user [
    | some u ↦ some (record { error_key = codes "PERMISSION_DENIED"; status = 403 })
    | none ↦ some (record { error_key = codes "AUTH_UNAUTHENTICATED"; status = 401 })
  ]
]
