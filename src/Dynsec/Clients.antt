-- ===== src/Dynsec/Clients.antt =====
-- `isConfiguredDefaultRoleMissing` and `createClient` of
-- `mqttctl/mqttctl-api/src/lib/server/dynsec/service.ts`.
pub mod Creation
pub mod Rollback
pub mod Grace
use mqttctl.Prelude.{
  ℕ, ◌+◌, ◌≡◌, Text, codes, ◌==◌, ◌++◌, is_empty, Bool, true, false, not, ◌&&◌, Option, none, some,
  List, [], ◌∷◌, ltb, if◌then◌else◌,
}
use mqttctl.Prelude.Int.{ℤ, pos, ltb_ℤ}
use mqttctl.Dynsec.{DynsecState, DynsecClientDefaults, dynsec_bootstrap_default_role_name}
use mqttctl.Dynsec.Task.{
  Failure, app_error, caused_error, message, Service, Result, ok, err, Task, pure, raise, gets,
  modify, attempt, ◌>>=◌, ◌>>◌, Env, run_dynsec_command, dynsec_operation_failed,
}
use mqttctl.Dynsec.Operations.{
  get_client_defaults, read_state, role_exists_in_state, clear_bootstrap_default_role_provisioned,
  send, assign_client_role, delete_client, set_client_password,
}

abbrev pub state_sync_grace_ms : ℕ
state_sync_grace_ms = 10000

-- `Date.now() - provisionedAt < grace`; the clock may have gone back, and then the difference is
-- negative.
abbrev pub sync_pending : ℕ → ℕ → Bool
sync_pending now provisioned_at = ltb now (provisioned_at + state_sync_grace_ms)

-- A default role that the state does not have.
unfoldable pub absent_default_role : ℕ → Text → Option ℕ → Task Bool
unfolding clear_bootstrap_default_role_provisioned
absent_default_role now rolename provisioned_at =
    if not (rolename == dynsec_bootstrap_default_role_name)
    then pure true
    else elim provisioned_at [
      | none ↦ pure true
      | some provisioned ↦
          if sync_pending now provisioned
          then pure false
          else clear_bootstrap_default_role_provisioned >> pure true
    ]

-- `if (text)`: a string that is there and not empty.
abbrev pub present : Option Text → Option Text
present none = none
present (some text) = if is_empty text then none else some text

module _ (env : Env) where
  unfoldable pub is_configured_default_role_missing : Option Text → DynsecState → Task Bool
  unfolding absent_default_role role_exists_in_state clear_bootstrap_default_role_provisioned
  is_configured_default_role_missing none state = pure false
  is_configured_default_role_missing (some rolename) state =
      if is_empty rolename
      then pure false
      else if role_exists_in_state rolename state
      then (if rolename == dynsec_bootstrap_default_role_name
          then clear_bootstrap_default_role_provisioned >> pure false
          else pure false)
      else gets (λ w. w.provisioned_at) >>= absent_default_role env.now rolename

  -- What `createClient` answers: whether the default role was given, and the defaults.
  abbrev pub Created : Type 0
  Created = Bool × DynsecClientDefaults

  abbrev pub default_role_gone : Failure
  default_role_gone =
      app_error (codes "Configured default dynsec role no longer exists.") dynsec_operation_failed
        409 none

  abbrev pub rolled_back : Failure → Failure
  rolled_back cause =
      caused_error
        (codes
          "Client creation was rolled back because assigning the configured default role failed.")
        dynsec_operation_failed 409 none cause

  abbrev pub not_rolled_back : Failure → Failure → Failure
  not_rolled_back rollback cause =
      caused_error
        (codes
          "Assigning the configured default role failed after client creation, and rollback did not complete cleanly.")
        dynsec_operation_failed 409 (some (message rollback)) cause

  -- The check before anything is sent.
  unfoldable pub check_default_role : Option Text → Task (Unit {0})
  unfolding read_state is_configured_default_role_missing
  check_default_role none = pure tt
  check_default_role (some rolename) = do
    state ← read_state env
    missing ← is_configured_default_role_missing (some rolename) state
    if missing then raise default_role_gone else pure tt

  abbrev pub after_rollback : Failure → Result (Unit {0}) → Task Bool
  after_rollback cause (ok deleted) = raise (rolled_back cause)
  after_rollback cause (err rollback) = raise (not_rolled_back rollback cause)

  -- The `catch` of the assignment: the client is deleted again.
  unfoldable pub roll_back : Text → Text → Failure → Task Bool
  unfolding delete_client clear_bootstrap_default_role_provisioned
  roll_back username rolename cause = do
    if rolename == dynsec_bootstrap_default_role_name
        then clear_bootstrap_default_role_provisioned
        else pure tt
    deleted ← attempt (delete_client env username)
    after_rollback cause deleted

  unfoldable pub after_assignment : Text → Text → Result (Unit {0}) → Task Bool
  unfolding roll_back
  after_assignment username rolename (ok assigned) = pure true
  after_assignment username rolename (err cause) = roll_back username rolename cause

  unfoldable pub apply_default_role : Text → DynsecClientDefaults → Option Text → Task Bool
  unfolding after_assignment assign_client_role
  apply_default_role username defaults none = pure false
  apply_default_role username defaults (some rolename) = do
    assigned ← attempt (assign_client_role env username rolename defaults.default_role_priority)
    after_assignment username rolename assigned

  -- `if (password)`
  unfoldable pub set_password_if_given : Text → Option Text → Task (Unit {0})
  unfolding send
  set_password_if_given username none = pure tt
  set_password_if_given username (some password) =
      send env (codes "setClientPassword") (username ∷ password ∷ [])

  abbrev pub create_args : Text → Option Text → List Text
  create_args username client_id = elim (present client_id) [
    | none ↦ username ∷ []
    | some id ↦ username ∷ codes "-i" ∷ id ∷ []
  ]

  -- What `createClient` does before the default role is given.
  unfoldable pub create_account :
      Text → Option Text → Option Text → DynsecClientDefaults → Task (Unit {0})
  unfolding check_default_role set_password_if_given send
  create_account username password client_id defaults = do
    check_default_role (present defaults.default_role_name)
    send env (codes "createClient") (create_args username client_id)
    set_password_if_given username (present password)

  unfoldable pub create_client : Text → Option Text → Option Text → Bool → Task Created
  unfolding get_client_defaults create_account apply_default_role send
  create_client username password client_id disabled = do
    defaults ← get_client_defaults env
    create_account username password client_id defaults
    default_role_applied ← apply_default_role username defaults (present defaults.default_role_name)
    if disabled then send env (codes "disableClient") (username ∷ []) else pure tt
    pure (default_role_applied, defaults)
