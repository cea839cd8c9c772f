-- ===== src/Dynsec/Operations.antt =====
-- The methods of `DynsecService` in `mqttctl/mqttctl-api/src/lib/server/dynsec/service.ts` for clients,
-- groups, roles and ACLs, each a command for the broker.
use mqttctl.Prelude.{
  Text, codes, ◌==◌, ◌++◌, trim, is_empty, Bool, not, ◌&&◌, Option, none, some, List, [], ◌∷◌, any,
  or_else, if◌then◌else◌,
}
use mqttctl.Prelude.Int.{ℤ}
use mqttctl.Prelude.Dict
use mqttctl.Prelude.Json.{Json, null, string, number, object, entry, end}
use mqttctl.Dynsec.{DynsecState, DynsecClientDefaults, dynsec_bootstrap_default_role_name}
use mqttctl.Dynsec.Acls.{normalize_acl_type_selection}
use mqttctl.Dynsec.Parse.{Host, field, integer_value, is_object}
use mqttctl.Dynsec.State.{normalize_state}
use mqttctl.Dynsec.Task.{
  Failure, app_error, caused_error, other_error, Service, Result, ok, err, Task, pure, raise, gets,
  modify, ◌>>=◌, ◌>>◌, CommandResult, Env, run_dynsec_command,
}

abbrev pub client_defaults_key : Text
client_defaults_key = codes "clientDefaults"

abbrev pub bootstrap_default_role_initialized_key : Text
bootstrap_default_role_initialized_key = codes "bootstrapDefaultRoleInitialized"

-- `typeof name === 'string' && name.trim() ? name.trim() : null`
unfoldable pub trimmed_name : Option Json → Option Text
trimmed_name (some (string name)) = if is_empty (trim name) then none else some (trim name)
trimmed_name _ = none

unfoldable pub normalize_client_defaults : Host → Json → DynsecClientDefaults
unfolding trimmed_name field integer_value
normalize_client_defaults host value = record {
  default_role_name = trimmed_name (field (codes "defaultRoleName") value);
  default_role_priority = integer_value host (field (codes "defaultRolePriority") value);
}

abbrev name_json : Option Text → Json
name_json none = null
name_json (some name) = string name

-- The defaults as the object that they are in the source.
abbrev pub client_defaults_json : DynsecClientDefaults → Json
client_defaults_json defaults = object (
    entry (codes "defaultRoleName") (name_json defaults.default_role_name)
      (entry (codes "defaultRolePriority") (number defaults.default_role_priority) end))

unfoldable pub get_setting : Text → Service → Json
get_setting key w = or_else (Dict.get key w.settings) null

unfoldable pub set_setting : Text → Json → Task (Unit {0})
set_setting key value = modify (λ w. record w { settings = Dict.set key value w.settings })

module _ (env : Env) where
  abbrev read_failed : Text
  read_failed =
      if env.agent_configured
      then codes "Failed reading dynamic security state through broker agent."
      else codes "Failed reading dynamic security state file."

  unfoldable state_failure : Failure → Failure
  state_failure cause = caused_error read_failed (codes "DYNSEC_STATE_READ_FAILED") 500 none cause

  -- Through the agent the value has to be an object.
  unfoldable pub state_of : Result Json → Result DynsecState
  unfolding state_failure
  state_of (err cause) = err (state_failure cause)
  state_of (ok raw) =
      if env.agent_configured && not (is_object raw)
      then err (
          state_failure
            (other_error (codes "Broker agent dynsec state response must be an object.")))
      else elim (normalize_state env.host env.now_text raw) [
        | none ↦ err (state_failure (other_error env.host.property_of_null))
        | some state ↦ ok state
      ]

  unfoldable pub read_state : Task DynsecState
  unfolding state_of
  read_state w = (state_of (env.state w.sent), w)

  unfoldable pub get_client_defaults : Task DynsecClientDefaults
  unfolding get_setting
  get_client_defaults =
      gets (λ w. normalize_client_defaults env.host (get_setting client_defaults_key w))

  unfoldable pub set_client_defaults : DynsecClientDefaults → Task DynsecClientDefaults
  unfolding set_setting
  set_client_defaults value =
      let normalized = normalize_client_defaults env.host (client_defaults_json value) in
      do set_setting client_defaults_key (client_defaults_json normalized); pure normalized

unfoldable pub role_exists_in_state : Text → DynsecState → Bool
role_exists_in_state rolename state = any (λ role. role.rolename == rolename) state.roles

unfoldable pub group_exists_in_state : Text → DynsecState → Bool
group_exists_in_state groupname state = any (λ group. group.groupname == groupname) state.groups

abbrev exists_already : Text → Text → Failure
exists_already kind name =
    app_error (kind ++ name ++ codes " already exists.") (codes "INPUT_INVALID") 409 none

unfoldable pub clear_bootstrap_default_role_provisioned : Task (Unit {0})
clear_bootstrap_default_role_provisioned = modify (λ w. record w { provisioned_at = none })

module _ (env : Env) where
  unfoldable pub assert_group_name_available : Text → Task Text
  unfolding read_state
  assert_group_name_available groupname = do
    let normalized_groupname = trim groupname
    state ← read_state env
    if group_exists_in_state normalized_groupname state
        then raise (exists_already (codes "Group ") normalized_groupname)
        else pure normalized_groupname

  unfoldable pub assert_role_name_available : Text → Task Text
  unfolding read_state
  assert_role_name_available rolename = do
    let normalized_rolename = trim rolename
    state ← read_state env
    if role_exists_in_state normalized_rolename state
        then raise (exists_already (codes "Role ") normalized_rolename)
        else pure normalized_rolename

  -- A command whose result is not used.
  unfoldable pub send : Text → List Text → Task (Unit {0})
  unfolding run_dynsec_command
  send command args = do run_dynsec_command env command args; pure tt

  abbrev text_of : ℤ → Text
  text_of n = env.host.text_of_number n

  unfoldable pub delete_client : Text → Task (Unit {0})
  unfolding send
  delete_client username = send (codes "deleteClient") (username ∷ [])

  unfoldable pub set_client_password : Text → Text → Task (Unit {0})
  unfolding send
  set_client_password username password =
      send (codes "setClientPassword") (username ∷ password ∷ [])

  unfoldable pub set_client_enabled : Text → Bool → Task (Unit {0})
  unfolding send
  set_client_enabled username enabled =
      send (if enabled then codes "enableClient" else codes "disableClient") (username ∷ [])

  unfoldable pub assign_client_role : Text → Text → ℤ → Task (Unit {0})
  unfolding send
  assign_client_role username rolename priority =
      send (codes "addClientRole") (username ∷ rolename ∷ text_of priority ∷ [])

  unfoldable pub remove_client_role : Text → Text → Task (Unit {0})
  unfolding send
  remove_client_role username rolename = send (codes "removeClientRole") (username ∷ rolename ∷ [])

  unfoldable pub create_group : Text → Task (Unit {0})
  unfolding send assert_group_name_available
  create_group groupname = do
    normalized_groupname ← assert_group_name_available groupname
    send (codes "createGroup") (normalized_groupname ∷ [])

  unfoldable pub delete_group : Text → Task (Unit {0})
  unfolding send
  delete_group groupname = send (codes "deleteGroup") (groupname ∷ [])

  unfoldable pub add_group_client : Text → Text → ℤ → Task (Unit {0})
  unfolding send
  add_group_client groupname username priority =
      send (codes "addGroupClient") (groupname ∷ username ∷ text_of priority ∷ [])

  unfoldable pub remove_group_client : Text → Text → Task (Unit {0})
  unfolding send
  remove_group_client groupname username =
      send (codes "removeGroupClient") (groupname ∷ username ∷ [])

  unfoldable pub add_group_role : Text → Text → ℤ → Task (Unit {0})
  unfolding send
  add_group_role groupname rolename priority =
      send (codes "addGroupRole") (groupname ∷ rolename ∷ text_of priority ∷ [])

  unfoldable pub remove_group_role : Text → Text → Task (Unit {0})
  unfolding send
  remove_group_role groupname rolename = send (codes "removeGroupRole") (groupname ∷ rolename ∷ [])

  unfoldable pub create_role : Text → Task (Unit {0})
  unfolding send assert_role_name_available
  create_role rolename = do
    normalized_rolename ← assert_role_name_available rolename
    send (codes "createRole") (normalized_rolename ∷ [])

  unfoldable pub delete_role : Text → Task (Unit {0})
  unfolding send clear_bootstrap_default_role_provisioned
  delete_role rolename = do
    send (codes "deleteRole") (rolename ∷ [])
    if rolename == dynsec_bootstrap_default_role_name
        then clear_bootstrap_default_role_provisioned
        else pure tt

  unfoldable pub add_role_acl : Text → Text → Text → Bool → ℤ → Task (Unit {0})
  unfolding send
  add_role_acl rolename acltype topic allow priority = send (codes "addRoleACL") (
      rolename
      ∷ acltype
      ∷ topic
      ∷ (if allow then codes "allow" else codes "deny")
      ∷ text_of priority
      ∷ [])

  unfoldable pub add_each_acl : Text → List Text → Text → Bool → ℤ → Task (Unit {0})
  unfolding add_role_acl
  add_each_acl rolename [] topic allow priority = pure tt
  add_each_acl rolename (acltype ∷ acltypes) topic allow priority = do
    add_role_acl rolename acltype topic allow priority
    add_each_acl rolename acltypes topic allow priority

  unfoldable pub add_role_acls : Text → List Text → Text → Bool → ℤ → Task (List Text)
  unfolding add_each_acl
  add_role_acls rolename acltypes topic allow priority = do
    let normalized_acl_types = normalize_acl_type_selection acltypes
    add_each_acl rolename normalized_acl_types topic allow priority
    pure normalized_acl_types

  unfoldable pub remove_role_acl : Text → Text → Text → Task (Unit {0})
  unfolding send
  remove_role_acl rolename acltype topic =
      send (codes "removeRoleACL") (rolename ∷ acltype ∷ topic ∷ [])

  unfoldable pub dynsec_health_check : Task CommandResult
  unfolding run_dynsec_command
  dynsec_health_check = run_dynsec_command env (codes "listClients") []
