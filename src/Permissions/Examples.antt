-- ===== src/Permissions/Examples.antt =====
-- The table of roles at concrete users.
use mqttctl.Prelude.{◌≡◌, ◌↔◌, Text, codes, true, none, some, List, Option}
use mqttctl.Permissions.{
  operator, super_admin, PrincipalRole, manage_mcp, local, AuthenticatedUser, has_capability,
}
use mqttctl.Permissions.Grants.{manage_mcp-of_super_admin}

abbrev user_of : PrincipalRole → Option (List Text) → AuthenticatedUser
user_of role names = record {
  id = codes "u";
  username = codes "u";
  email = none;
  role = role;
  auth_source = local;
  capabilities = names;
}

manage_mcp-of_super_admin_example :
    (has_capability (some (user_of operator none)) manage_mcp ≡ true) ↔ (operator ≡ super_admin)
manage_mcp-of_super_admin_example = manage_mcp-of_super_admin (user_of operator none)
