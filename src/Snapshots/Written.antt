-- ===== src/Snapshots/Written.antt =====
-- The broker's state and the accounts as they are written into a snapshot: `JSON.stringify` of
-- `DynsecState` and of the accounts without their password hashes.
use mqttctl.Prelude.{ℕ, Text, codes, Option, none, some, List, [], ◌∷◌}
use mqttctl.Prelude.Int.{ℤ, pos}
use mqttctl.Prelude.Json.{
  Json, Items, null, boolean, number, string, array, object, nil, item, end, entry,
}
use mqttctl.Permissions.{
  PrincipalRole, viewer, operator, security_admin, broker_admin, super_admin, mcp, AuthMethod,
  local, oidc, header, mcp_access,
}
use mqttctl.Auth.{StoredUser}
use mqttctl.Dynsec.{DynsecRoleRef, DynsecAcl, DynsecClient, DynsecGroup, DynsecRole, DynsecState}

abbrev pub text_or_null : Option Text → Json
text_or_null none = null
text_or_null (some text) = string text

unfoldable pub array_of : {A : Type 0} → (A → Json) → List A → Items
array_of f [] = nil
array_of f (a ∷ list) = item (f a) (array_of f list)

abbrev ref_json : Text → Text → ℤ → Json
ref_json key name priority =
    object (entry key (string name) (entry (codes "priority") (number priority) end))

abbrev role_refs_json : List DynsecRoleRef → Json
role_refs_json roles =
    array (array_of (λ r. ref_json (codes "rolename") r.rolename r.priority) roles)

unfoldable pub acl_json : DynsecAcl → Json
acl_json acl = object (
    entry (codes "acltype") (string acl.acltype) (
      entry (codes "topic") (string acl.topic) (
        entry (codes "priority") (number acl.priority) (
          entry (codes "allow") (boolean acl.allow)
            (entry (codes "name") acl.name (entry (codes "description") acl.description end))))))

unfoldable pub client_json : DynsecClient → Json
unfolding array_of
client_json client = object (
    entry (codes "username") (string client.username) (
      entry (codes "clientid") client.clientid (
        entry (codes "textname") client.textname (
          entry (codes "textdescription") client.textdescription (
            entry (codes "disabled") (boolean client.disabled) (
              entry (codes "roles") (role_refs_json client.roles) (
                entry (codes "groups")
                  (array (
                    array_of (λ r. ref_json (codes "groupname") r.groupname r.priority)
                      client.groups))
                  end)))))))

unfoldable pub group_json : DynsecGroup → Json
unfolding array_of
group_json group = object (
    entry (codes "groupname") (string group.groupname) (
      entry (codes "textname") group.textname (
        entry (codes "textdescription") group.textdescription (
          entry (codes "roles") (role_refs_json group.roles) (
            entry (codes "clients")
              (array
                (array_of (λ r. ref_json (codes "username") r.username r.priority) group.clients))
              end)))))

unfoldable pub role_json : DynsecRole → Json
unfolding array_of acl_json
role_json role = object (
    entry (codes "rolename") (string role.rolename) (
      entry (codes "textname") role.textname (
        entry (codes "textdescription") role.textdescription
          (entry (codes "acls") (array (array_of acl_json role.acls)) end))))

unfoldable pub state_json : DynsecState → Json
unfolding array_of client_json group_json role_json
state_json state = object (
    entry (codes "clients") (array (array_of client_json state.clients)) (
      entry (codes "groups") (array (array_of group_json state.groups)) (
        entry (codes "roles") (array (array_of role_json state.roles)) (
          entry (codes "anonymousGroup") (text_or_null state.anonymous_group) (
            entry (codes "defaultAcls") state.default_acls (
              entry (codes "raw") state.raw
                (entry (codes "loadedAt") (string state.loaded_at) end)))))))

abbrev pub role_name : PrincipalRole → Text
role_name viewer = codes "viewer"
role_name operator = codes "operator"
role_name security_admin = codes "security_admin"
role_name broker_admin = codes "broker_admin"
role_name super_admin = codes "super_admin"
role_name mcp = codes "mcp"

abbrev pub auth_method_name : AuthMethod → Text
auth_method_name local = codes "local"
auth_method_name oidc = codes "oidc"
auth_method_name header = codes "header"
auth_method_name mcp_access = codes "mcp"

-- `({ passwordHash: _passwordHash, ...user }) => user`; `iso` is the text of a time.
module _ (iso : ℕ → Text) where
  unfoldable pub user_json : StoredUser → Json
  user_json user = object (
      entry (codes "id") (string user.id) (
        entry (codes "username") (string user.username) (
          entry (codes "email") (text_or_null user.email) (
            entry (codes "role") (string (role_name user.role)) (
              entry (codes "authSource") (string (auth_method_name user.auth_source)) (
                entry (codes "externalSubject") (text_or_null user.external_subject) (
                  entry (codes "protectedFromAutoLink") (boolean user.protected_from_auto_link) (
                    entry (codes "disabled") (boolean user.disabled) (
                      entry (codes "sessionVersion") (number (pos user.session_version)) (
                        entry (codes "createdAt") (string (iso user.created_at))
                          (entry (codes "updatedAt") (string (iso user.updated_at)) end)))))))))))
