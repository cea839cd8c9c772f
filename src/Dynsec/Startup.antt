-- ===== src/Dynsec/Startup.antt =====
-- `ensureBootstrapDefaultRole` of `mqttctl/mqttctl-api/src/lib/server/dynsec/service.ts`, which the
-- application calls as it starts.
pub mod Sealed
pub mod Quiet
use mqttctl.Prelude.{
  ◌≡◌, Text, codes, ◌==◌, Bool, true, false, not, ◌&&◌, ◌||◌, Option, none, some, List, [], ◌∷◌,
  any, is_some, same_text, if◌then◌else◌,
}
use mqttctl.Prelude.Json.{Json, boolean}
use mqttctl.Dynsec.{
  DynsecState, dynsec_bootstrap_default_role_name, dynsec_legacy_bootstrap_role_name,
}
use mqttctl.Dynsec.Task.{
  Failure, Result, ok, err, Task, pure, raise, gets, attempt, ◌>>=◌, ◌>>◌, Env,
}
use mqttctl.Dynsec.Operations.{
  get_setting, set_setting, get_client_defaults, read_state, role_exists_in_state,
  bootstrap_default_role_initialized_key,
}
use mqttctl.Dynsec.Bootstrap.{
  dynsec_bootstrap_reserved_roles, ensure_managed_bootstrap_roles,
  clear_bootstrap_default_role_error, set_bootstrap_default_role_error,
}

-- `stored === true`
abbrev pub is_true : Json → Bool
is_true (boolean b) = b
is_true _ = false

unfoldable pub has_initialized_bootstrap_default_role : Task Bool
unfolding get_setting
has_initialized_bootstrap_default_role =
    gets (λ w. is_true (get_setting bootstrap_default_role_initialized_key w))

unfoldable pub mark_bootstrap_default_role_initialized : Task (Unit {0})
unfolding set_setting
mark_bootstrap_default_role_initialized =
    set_setting bootstrap_default_role_initialized_key (boolean true)

-- What `ensureBootstrapDefaultRole` does, by what it has read.
pub data Plan : Type 0 where
  leave : Plan
  mark : Plan
  migrate : Bool → Plan
  manage : Plan

-- The tests of `ensureBootstrapDefaultRole`, in their order.
unfoldable pub bootstrap_plan : Bool → Option Text → Bool → Bool → Plan
bootstrap_plan initialized default_role has_legacy has_custom =
    let stores_bootstrap = same_text default_role (some dynsec_bootstrap_default_role_name) in
    let stores_legacy = same_text default_role (some dynsec_legacy_bootstrap_role_name) in
    if initialized && not stores_bootstrap && not stores_legacy && not has_legacy
    then leave
    else if is_some default_role && not stores_bootstrap && not stores_legacy && not has_legacy
    then mark
    else if initialized && not (is_some default_role) && not has_legacy
    then leave
    else if stores_legacy || has_legacy
    then migrate (stores_legacy || (not (is_some default_role) && not has_custom))
    else if stores_bootstrap
    then manage
    else if has_custom
    then mark
    else manage

unfoldable pub has_custom_roles : DynsecState → Bool
has_custom_roles state =
    any (λ role. not (any (λ reserved. reserved == role.rolename) dynsec_bootstrap_reserved_roles))
      state.roles

-- `a ?? b`
abbrev pub first_name : Option Text → Option Text → Option Text
first_name none b = b
first_name (some a) b = some a

module _ (env : Env) where
  unfoldable pub carry_out : Option Text → DynsecState → Plan → Task (Bool × Option Text)
  unfolding ensure_managed_bootstrap_roles mark_bootstrap_default_role_initialized
  carry_out default_role state leave = pure (false, default_role)
  carry_out default_role state mark = do
    mark_bootstrap_default_role_initialized
    pure (false, default_role)
  carry_out default_role state (migrate set_as_default) = do
    migrated ← ensure_managed_bootstrap_roles env set_as_default state
    mark_bootstrap_default_role_initialized
    pure (migrated.0, first_name migrated.1 default_role)
  carry_out default_role state manage = do
    result ← ensure_managed_bootstrap_roles env true state
    mark_bootstrap_default_role_initialized
    pure result

  unfoldable pub bootstrap_default_role : Task (Bool × Option Text)
  unfolding has_initialized_bootstrap_default_role get_client_defaults read_state bootstrap_plan
      role_exists_in_state has_custom_roles carry_out
  bootstrap_default_role = do
    initialized ← has_initialized_bootstrap_default_role
    defaults ← get_client_defaults env
    state ← read_state env
    let has_legacy = role_exists_in_state dynsec_legacy_bootstrap_role_name state
    carry_out defaults.default_role_name state
        (bootstrap_plan initialized defaults.default_role_name has_legacy (has_custom_roles state))

  -- The `catch`: the error is kept and thrown on.
  unfoldable pub conclude : Result (Bool × Option Text) → Task (Bool × Option Text)
  unfolding set_bootstrap_default_role_error
  conclude (ok value) = pure value
  conclude (err error) = do set_bootstrap_default_role_error error; raise error

  unfoldable pub ensure_bootstrap_default_role : Task (Bool × Option Text)
  unfolding clear_bootstrap_default_role_error bootstrap_default_role conclude
  ensure_bootstrap_default_role = do
    clear_bootstrap_default_role_error
    result ← attempt bootstrap_default_role
    conclude result
