-- ===== src/Dynsec/Startup/Quiet.antt =====
-- When `ensureBootstrapDefaultRole` has nothing to do.
use mqttctl.Prelude.{
  ◌≡◌, refl, Text, ◌==◌, Bool, true, false, not, Option, none, some, List, [], ◌∷◌, filter, find,
  All,
}
use mqttctl.Dynsec.{
  DynsecState, DynsecRole, dynsec_bootstrap_default_role_name,
  dynsec_bootstrap_read_write_role_name, dynsec_legacy_bootstrap_role_name,
}
use mqttctl.Dynsec.Task.{Service, ok, Task, pure, attempt, gets, modify, ◌>>=◌, Env}
use mqttctl.Dynsec.Operations.{
  get_setting, set_setting, client_defaults_key, get_client_defaults, normalize_client_defaults,
  set_client_defaults, read_state, state_of, role_exists_in_state,
}
use mqttctl.Dynsec.Bootstrap.{
  BootstrapAcl, dynsec_bootstrap_default_role_acls, dynsec_bootstrap_read_write_role_acls,
  bootstrap_role_acl_exists, ensure_bootstrap_role_acls, ensure_bootstrap_role, ensure_role,
  add_bootstrap_acls, migrate_legacy_bootstrap_role, ensure_managed_bootstrap_roles,
  mark_bootstrap_default_role_provisioned, clear_bootstrap_default_role_error,
}
use mqttctl.Dynsec.Startup.{
  Plan, leave, mark, migrate, manage, bootstrap_plan, has_custom_roles, is_true, first_name,
  has_initialized_bootstrap_default_role, mark_bootstrap_default_role_initialized, carry_out,
  bootstrap_default_role, conclude, ensure_bootstrap_default_role,
}
use mqttctl.Dynsec.Startup.Sealed.{initialized}

-- The state has the role, with these ACLs.
abbrev pub Provides : DynsecState → Text → List BootstrapAcl → Type 0
Provides state name acls =
    (role : DynsecRole) × (find (λ role. role.rolename == name) state.roles ≡ some role)
    × All (λ acl. bootstrap_role_acl_exists role acl ≡ true) acls

-- The broker has both managed roles with their ACLs, and not the legacy one.
pub record InShape (state : DynsecState) : Type 0 where
  pub read_all :
      Provides state dynsec_bootstrap_default_role_name dynsec_bootstrap_default_role_acls
  pub read_write_all :
      Provides state dynsec_bootstrap_read_write_role_name dynsec_bootstrap_read_write_role_acls
  pub no_legacy : role_exists_in_state dynsec_legacy_bootstrap_role_name state ≡ false

filter-none :
    {A : Type 0} (test : A → Bool) (xs : List A)
    → All (λ x. test x ≡ true) xs
    → filter (λ x. not (test x)) xs ≡ []
unfolding filter
filter-none test [] h = refl
filter-none test (x ∷ xs) h = rw (h.0, filter-none test xs h.1) refl

module _ (env : Env) (state : DynsecState) where
  ensure_role-provided :
      (name : Text) (acls : List BootstrapAcl) (w : Service)
      → Provides state name acls
      → ensure_bootstrap_role env name acls state w ≡ (ok (false, 0), w)
  unfolding ensure_bootstrap_role ensure_role ensure_bootstrap_role_acls add_bootstrap_acls pure
      ◌>>=◌
  ensure_role-provided name acls w (role, found, has) =
      rw
        (
          found,
          ensure_role,
          ensure_bootstrap_role_acls,
          filter-none (bootstrap_role_acl_exists role) acls has,
        )
        refl

  migrate-absent :
      (w : Service)
      → role_exists_in_state dynsec_legacy_bootstrap_role_name state ≡ false
      → migrate_legacy_bootstrap_role env state w ≡ (ok false, w)
  unfolding migrate_legacy_bootstrap_role pure
  migrate-absent w h = rw h refl

-- A task that sends nothing and reports that nothing was bootstrapped.
record IsQuiet (m : Task (Bool × Option Text)) : Type 0 where
  pub unsent : (w : Service) → (m w).1.sent ≡ w.sent
  pub reports : (w : Service) → (d : Option Text) × ((m w).0 ≡ ok (false, d))

module _ (env : Env) (state : DynsecState) (shape : InShape state) where
  -- The managed roles need nothing: what is left is to set the default role.
  managed-set :
      (w : Service)
      → (ensure_managed_bootstrap_roles env true state w).0
        ≡ ok (false, some dynsec_bootstrap_default_role_name)
  unfolding ensure_managed_bootstrap_roles ◌>>=◌ pure modify set_client_defaults set_setting
      mark_bootstrap_default_role_provisioned
  managed-set w =
      rw
        (
          ensure_role-provided env state _ _ w shape.read_all,
          ensure_role-provided env state _ _ w shape.read_write_all,
          migrate-absent env state w shape.no_legacy,
        )
        refl

  managed-unsent :
      (b : Bool) (w : Service) → (ensure_managed_bootstrap_roles env b state w).1.sent ≡ w.sent
  unfolding ensure_managed_bootstrap_roles ◌>>=◌ pure modify set_client_defaults set_setting
      mark_bootstrap_default_role_provisioned
  managed-unsent true w =
      rw
        (
          ensure_role-provided env state _ _ w shape.read_all,
          ensure_role-provided env state _ _ w shape.read_write_all,
          migrate-absent env state w shape.no_legacy,
        )
        refl
  managed-unsent false w =
      rw
        (
          ensure_role-provided env state _ _ w shape.read_all,
          ensure_role-provided env state _ _ w shape.read_write_all,
          migrate-absent env state w shape.no_legacy,
        )
        refl

  managed-unset :
      (w : Service) → (ensure_managed_bootstrap_roles env false state w).0 ≡ ok (false, none)
  unfolding ensure_managed_bootstrap_roles ◌>>=◌ pure
  managed-unset w =
      rw
        (
          ensure_role-provided env state _ _ w shape.read_all,
          ensure_role-provided env state _ _ w shape.read_write_all,
          migrate-absent env state w shape.no_legacy,
        )
        refl

  managed-IsQuiet :
      (set_as_default : Bool) → IsQuiet (ensure_managed_bootstrap_roles env set_as_default state)
  managed-IsQuiet true = record {
    unsent = managed-unsent true;
    reports = λ w. (some dynsec_bootstrap_default_role_name, managed-set w);
  }
  managed-IsQuiet false = record {
    unsent = managed-unsent false;
    reports = λ w. (none, managed-unset w);
  }

  carry_out-IsQuiet :
      (default_role : Option Text) (plan : Plan) → IsQuiet (carry_out env default_role state plan)
  unfolding carry_out pure ◌>>=◌ mark_bootstrap_default_role_initialized set_setting modify
  carry_out-IsQuiet d leave = record { unsent = λ w. refl; reports = λ w. (d, refl) }
  carry_out-IsQuiet d mark = record { unsent = λ w. refl; reports = λ w. (d, refl) }
  carry_out-IsQuiet d (migrate b) =
      let quiet = managed-IsQuiet b in
      record {
        unsent = λ w. let (r, e) = quiet.reports w in rw e (quiet.unsent w);
        reports = λ w. let (r, e) = quiet.reports w in (first_name r d, rw e refl);
      }
  carry_out-IsQuiet d manage =
      let quiet = managed-IsQuiet true in
      record {
        unsent = λ w. let (r, e) = quiet.reports w in rw e (quiet.unsent w);
        reports = λ w. let (r, e) = quiet.reports w in (r, rw e refl);
      }

-- Where the state that is read has both managed roles with their ACLs and no legacy role, a call
-- sends the broker nothing, whatever the settings are, and returns that nothing was bootstrapped.
pub ensure_bootstrap_default_role-quiet :
    (env : Env) (w : Service) (state : DynsecState)
    → state_of env (env.state w.sent) ≡ ok state
    → InShape state
    → ((ensure_bootstrap_default_role env w).1.sent ≡ w.sent)
      × (d : Option Text) × ((ensure_bootstrap_default_role env w).0 ≡ ok (false, d))
unfolding ensure_bootstrap_default_role bootstrap_default_role
    has_initialized_bootstrap_default_role get_client_defaults read_state
    clear_bootstrap_default_role_error attempt gets modify ◌>>=◌ pure conclude
ensure_bootstrap_default_role-quiet env w state read shape =
    let cleared = record w { error = none } in
    let defaults = normalize_client_defaults env.host (get_setting client_defaults_key cleared) in
    let plan =
      bootstrap_plan (is_true (initialized cleared)) defaults.default_role_name
        (role_exists_in_state dynsec_legacy_bootstrap_role_name state) (has_custom_roles state) in
    let quiet = carry_out-IsQuiet env state shape defaults.default_role_name plan in
    let (d, e) = quiet.reports cleared in
    (rw (read, e) (quiet.unsent cleared), d, rw (read, e) refl)
