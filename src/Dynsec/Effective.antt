-- ===== src/Dynsec/Effective.antt =====
-- `getEffectivePermissions` of `mqttctl/mqttctl-api/src/lib/server/dynsec/service.ts`.
use mqttctl.Prelude.{
  Text, codes, ◌==◌, ◌++◌, includes, Bool, false, not, ◌&&◌, ◌||◌, Option, none, some, List, [],
  ◌∷◌, map, any, find, or_else, if◌then◌else◌,
}
use mqttctl.Prelude.Dict
use mqttctl.Prelude.Dict.{Dict}
use mqttctl.Prelude.Json.{Json}
use mqttctl.Dynsec.{DynsecAcl, DynsecClient, DynsecGroup, DynsecRole, DynsecState, DynsecRoleRef}
use mqttctl.Dynsec.Acls.{acl_key, resolve_effective_acls}
use mqttctl.Dynsec.Credentials.{sanitize_dynsec_credential_fields}
use mqttctl.Dynsec.Task.{app_error, Task, pure, raise, ◌>>=◌, Env, dynsec_operation_failed}
use mqttctl.Dynsec.Operations.{read_state}

pub record InheritedGroup : Type 0 where
  pub group : DynsecGroup
  pub roles : List DynsecRole

pub record EffectivePermissionView : Type 0 where
  pub client : DynsecClient
  pub direct_roles : List DynsecRole
  pub inherited_groups : List InheritedGroup
  pub merged_acls : List DynsecAcl
  pub warnings : List Text
  pub raw : Json

-- `new Map(items.map((item) => [item.name, item]))`
unfoldable pub lookup_of : {A : Type 0} → (A → Text) → List A → Dict A → Dict A
lookup_of name [] m = m
lookup_of name (a ∷ items) m = lookup_of name items (Dict.set (name a) a m)

-- `references.map((reference) => lookup.get(reference)).filter(Boolean)`
unfoldable pub found_in : {A : Type 0} → Dict A → List Text → List A
found_in m [] = []
found_in m (name ∷ names) = elim (Dict.get name m) [
  | none ↦ found_in m names
  | some a ↦ a ∷ found_in m names
]

abbrev pub role_names : List DynsecRoleRef → List Text
role_names references = map (λ r. r.rolename) references

-- `roles.flatMap((role) => role.acls)`
unfoldable pub acls_of_roles : List DynsecRole → List DynsecAcl
acls_of_roles [] = []
acls_of_roles (role ∷ roles) = role.acls ++ acls_of_roles roles

unfoldable pub acls_of_groups : List InheritedGroup → List DynsecAcl
unfolding acls_of_roles
acls_of_groups [] = []
acls_of_groups (entry ∷ entries) = acls_of_roles entry.roles ++ acls_of_groups entries

-- The effects seen for a key: whether one allowed and whether one denied.
abbrev Effects : Type 0
Effects = Bool × Bool

unfoldable see_effect : DynsecAcl → Dict Effects → Effects
unfolding acl_key
see_effect acl seen =
    let (allowed, denied) = or_else (Dict.get (acl_key acl) seen) (false, false) in
    (allowed || acl.allow, denied || not acl.allow)

-- The loop over `conflictEffects`: whether some ACL brings the second effect of its key.
unfoldable pub has_conflict : List DynsecAcl → Dict (Bool × Bool) → Bool
unfolding see_effect acl_key
has_conflict [] seen = false
has_conflict (acl ∷ acls) seen =
    let effects = see_effect acl seen in
    (effects.0 && effects.1) || has_conflict acls (Dict.set (acl_key acl) effects seen)

abbrev warn_if : Bool → Text → List Text
warn_if b text = if b then text ∷ [] else []

module _ (to_lower : Text → Text) where
  unfoldable pub permission_warnings : List DynsecAcl → List Text
  unfolding includes has_conflict
  permission_warnings acls =
      warn_if
        (any
          (λ acl.
            acl.allow && acl.acltype == codes "publishClientSend" && includes (codes "#") acl.topic)
          acls)
        (codes "Broad write access includes wildcard publish permission.")
      ++ warn_if (has_conflict acls []) (
          codes
            "Conflicting allow/deny ACL overlap detected. Equal-priority conflicts resolve to deny.")
      ++ warn_if
          (any
            (λ acl.
              includes (codes "$SYS") acl.topic
              || includes (codes "$CONTROL") acl.topic
              || includes (codes "secret") (to_lower acl.topic))
            acls)
          (codes "Sensitive topic access detected.")

module _ (state : DynsecState) (client : DynsecClient) where
  unfoldable pub direct_roles_of : List DynsecRole
  unfolding found_in lookup_of
  direct_roles_of = found_in (lookup_of (λ r. r.rolename) state.roles []) (role_names client.roles)

  unfoldable pub inherited_groups_of : List InheritedGroup
  unfolding found_in lookup_of
  inherited_groups_of =
      let roles = lookup_of (λ r. r.rolename) state.roles [] in
      let groups = lookup_of (λ g. g.groupname) state.groups [] in
      map (λ g. record { group = g; roles = found_in roles (role_names g.roles) })
        (found_in groups (map (λ r. r.groupname) client.groups))

  -- Every ACL that the client has, its own roles' first.
  unfoldable pub merged_acls_of : List DynsecAcl
  unfolding direct_roles_of inherited_groups_of acls_of_roles acls_of_groups
  merged_acls_of = acls_of_roles direct_roles_of ++ acls_of_groups inherited_groups_of

module _ (env : Env) (locale_le : Text → Text → Bool) (to_lower : Text → Text) where
  abbrev client_missing : {A : Type 0} → Task A
  client_missing =
      raise (app_error (codes "Client not found in dynsec state.") dynsec_operation_failed 404 none)

  unfoldable pub view_of : DynsecState → Option DynsecClient → Task EffectivePermissionView
  unfolding direct_roles_of inherited_groups_of merged_acls_of permission_warnings
      resolve_effective_acls sanitize_dynsec_credential_fields
  view_of state none = client_missing
  view_of state (some client) =
      let merged = merged_acls_of state client in
      pure (record {
        client = client;
        direct_roles = direct_roles_of state client;
        inherited_groups = inherited_groups_of state client;
        merged_acls = resolve_effective_acls locale_le merged;
        warnings = permission_warnings to_lower merged;
        raw = sanitize_dynsec_credential_fields state.raw;
      })

  unfoldable pub get_effective_permissions : Text → Task EffectivePermissionView
  unfolding read_state view_of
  get_effective_permissions username = do
    state ← read_state env
    view_of state (find (λ entry. entry.username == username) state.clients)
