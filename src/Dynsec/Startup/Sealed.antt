-- ===== src/Dynsec/Startup/Sealed.antt =====
-- When `ensureBootstrapDefaultRole` records that the bootstrap has been done.
use mqttctl.Prelude.{
  ℕ, ◌≡◌, ◌∙◌, refl, sym, ap, Text, ◌==◌, Bool, true, false, Option, none, some, or_else, arith,
}
use mqttctl.Prelude.Dict.{set, get-set, get-set_self}
use mqttctl.Prelude.Json.{Json, boolean, null}
use mqttctl.Dynsec.{DynsecState, DynsecClientDefaults, dynsec_legacy_bootstrap_role_name}
use mqttctl.Dynsec.Task.{
  Failure, Service, Result, ok, err, Task, pure, raise, attempt, gets, modify, ◌>>=◌, Env,
  run_dynsec_command, derive_bootstrap_default_role_error_reason,
}
use mqttctl.Dynsec.Task.Keeps.{Keeps, Keeps-bind, Keeps-modify, Keeps-pure, task_rules, IsStable}
use mqttctl.Dynsec.Operations.{
  get_setting, set_setting, client_defaults_key, bootstrap_default_role_initialized_key,
  get_client_defaults, normalize_client_defaults, set_client_defaults, read_state, state_of,
  role_exists_in_state,
}
use mqttctl.Dynsec.Bootstrap.{
  ensure_managed_bootstrap_roles, mark_bootstrap_default_role_provisioned, error_key_of,
  dynsec_bootstrap_default_role_acls, dynsec_bootstrap_read_write_role_acls,
  clear_bootstrap_default_role_error, set_bootstrap_default_role_error,
}
use mqttctl.Dynsec.Startup.{
  Plan, leave, mark, migrate, manage, bootstrap_plan, has_custom_roles, is_true,
  has_initialized_bootstrap_default_role, mark_bootstrap_default_role_initialized, carry_out,
  bootstrap_default_role, conclude, ensure_bootstrap_default_role,
}
use mqttctl.Dynsec.Stable.{ensure_bootstrap_role-Keeps, migrate-Keeps}

-- The record of the bootstrap in the settings.
abbrev pub initialized : Service → Json
initialized w = get_setting bootstrap_default_role_initialized_key w

unfoldable IsAt : Json → Service → Type 0
IsAt v w = initialized w ≡ v

initialized-other :
    (value : Json) (w : Service)
    → initialized (record w { settings = set client_defaults_key value w.settings }) ≡ initialized w
unfolding get_setting ◌==◌
initialized-other value w =
    ap (λ (o : Option Json). or_else o null)
      (get-set client_defaults_key bootstrap_default_role_initialized_key value w.settings)

initialized-set :
    (value : Json) (w : Service)
    → initialized
        (record w { settings = set bootstrap_default_role_initialized_key value w.settings })
      ≡ value
unfolding get_setting
initialized-set value w =
    ap (λ (o : Option Json). or_else o null)
      (get-set_self bootstrap_default_role_initialized_key value w.settings)

module _ (env : Env) (v : Json) where
  IsAt-IsStable : IsStable env (IsAt v)
  unfolding IsAt get_setting run_dynsec_command
  IsAt-IsStable = record { at_run = λ command args w h. h; at_provisioned = λ t w h. h }

  set_client_defaults-Keeps :
      (defaults : DynsecClientDefaults) → Keeps (IsAt v) (set_client_defaults env defaults)
  unfolding set_client_defaults set_setting modify pure ◌>>=◌ IsAt get_setting
  set_client_defaults-Keeps defaults = record { after = λ w h. initialized-other _ w ∙ h }

  mark_provisioned-Keeps : (now : ℕ) → Keeps (IsAt v) (mark_bootstrap_default_role_provisioned now)
  unfolding mark_bootstrap_default_role_provisioned IsAt get_setting
  mark_provisioned-Keeps now = Keeps-modify _ (λ w h. h)

  managed-Keeps :
      (set_as_default : Bool) (state : DynsecState)
      → Keeps (IsAt v) (ensure_managed_bootstrap_roles env set_as_default state)
  unfolding ensure_managed_bootstrap_roles
  managed-Keeps set_as_default state =
      Keeps-bind _ _
        (ensure_bootstrap_role-Keeps env IsAt-IsStable _ dynsec_bootstrap_default_role_acls state)
        λ read_all.
          Keeps-bind _ _
            (ensure_bootstrap_role-Keeps env IsAt-IsStable _ dynsec_bootstrap_read_write_role_acls
              state)
            λ read_write.
              Keeps-bind _ _ (migrate-Keeps env IsAt-IsStable state)
                λ migrated. search (task_rules, set_client_defaults-Keeps, mark_provisioned-Keeps)

-- The record is made where `m` returns, and stays at `v` where it throws.
record Seals {A : Type 0} (v : Json) (m : Task A) : Type 0 where
  pub on_ok :
      (w : Service) (a : A) → IsAt v w → (m w).0 ≡ ok a → is_true (initialized (m w).1) ≡ true
  pub on_err : (w : Service) (e : Failure) → IsAt v w → (m w).0 ≡ err e → IsAt v (m w).1

module _ {A B : Type 0} (v : Json) (f : A → B) where
  mark_last : Task A → Task B
  mark_last m = m >>= λ a. mark_bootstrap_default_role_initialized >>= λ _. pure (f a)

  Seals-result : (r : Result A) → Seals v (mark_last (λ w. (r, w)))
  unfolding mark_last ◌>>=◌ mark_bootstrap_default_role_initialized set_setting modify IsAt
      get_setting pure
  Seals-result (ok a) = record {
    on_ok = λ w b h e. ap is_true (initialized-set (boolean true) w);
    on_err = λ w e h k. cc;
  }
  Seals-result (err x) = record { on_ok = λ w b h e. cc; on_err = λ w e h k. h }

  Seals-mark_last : (m : Task A) → Keeps (IsAt v) m → Seals v (mark_last m)
  unfolding mark_last ◌>>=◌
  Seals-mark_last m k = record {
    on_ok = λ w b h e. (Seals-result (m w).0).on_ok (m w).1 b (k.after w h) e;
    on_err = λ w e h p. (Seals-result (m w).0).on_err (m w).1 e (k.after w h) p;
  }

plan-leave : (i : Bool) (d : Option Text) (l c : Bool) → bootstrap_plan i d l c ≡ leave → i ≡ true
unfolding bootstrap_plan
plan-leave i d l c h = ground arith

module _ (env : Env) (v : Json) (state : DynsecState) (default_role : Option Text) where
  -- What is carried out seals the record, where nothing is done only if it was made before.
  carry_out-Seals :
      (plan : Plan)
      → (plan ≡ leave → is_true v ≡ true)
      → Seals v (carry_out env default_role state plan)
  unfolding carry_out pure mark_last ◌>>=◌ IsAt
  carry_out-Seals leave made = record {
    on_ok = λ w a h e. ap is_true h ∙ made refl;
    on_err = λ w e h k. h;
  }
  carry_out-Seals mark made =
      Seals-mark_last v (λ (u : Unit {0}). (false, default_role)) (pure tt) (Keeps-pure tt)
  carry_out-Seals (migrate b) made =
      Seals-mark_last v _ (ensure_managed_bootstrap_roles env b state) (managed-Keeps env v b state)
  carry_out-Seals manage made =
      Seals-mark_last v _ (ensure_managed_bootstrap_roles env true state)
        (managed-Keeps env v true state)

module _ (env : Env) (v : Json) (defaults : DynsecClientDefaults) where
  -- What follows the reading of the state.
  abbrev planned : DynsecState → Task (Bool × Option Text)
  planned state =
      let has_legacy = role_exists_in_state dynsec_legacy_bootstrap_role_name state in
      carry_out env defaults.default_role_name state
        (bootstrap_plan (is_true v) defaults.default_role_name has_legacy (has_custom_roles state))

  planned-Seals : (read : Result DynsecState) → Seals v ((λ w. (read, w)) >>= planned)
  unfolding ◌>>=◌
  planned-Seals (err e) = record { on_ok = λ w a h k. cc; on_err = λ w e h k. h }
  planned-Seals (ok state) =
      let sealed = carry_out-Seals env v state defaults.default_role_name _ (plan-leave _ _ _ _) in
      record { on_ok = sealed.on_ok; on_err = sealed.on_err }

module _ (env : Env) where
  abbrev defaults_of : Service → DynsecClientDefaults
  defaults_of w = normalize_client_defaults env.host (get_setting client_defaults_key w)

  bootstrap-planned :
      (w : Service)
      → bootstrap_default_role env w
        ≡ ((λ w'. (state_of env (env.state w.sent), w'))
              >>= planned env (initialized w) (defaults_of w))
            w
  unfolding bootstrap_default_role has_initialized_bootstrap_default_role get_client_defaults
      read_state gets ◌>>=◌
  bootstrap-planned w = refl

  bootstrap-marks :
      (w : Service) (a : Bool × Option Text)
      → (bootstrap_default_role env w).0 ≡ ok a
      → is_true (initialized (bootstrap_default_role env w).1) ≡ true
  unfolding IsAt
  bootstrap-marks w a e =
      let sealed =
        planned-Seals env (initialized w) (defaults_of w) (state_of env (env.state w.sent)) in
      ap (λ (o : Result (Bool × Option Text) × Service). is_true (initialized o.1))
        (bootstrap-planned w)
      ∙ sealed.on_ok w a refl (ap (λ o. o.0) (sym (bootstrap-planned w)) ∙ e)

  bootstrap-unmarked :
      (w : Service) (e : Failure)
      → (bootstrap_default_role env w).0 ≡ err e
      → initialized (bootstrap_default_role env w).1 ≡ initialized w
  unfolding IsAt
  bootstrap-unmarked w e h =
      let sealed =
        planned-Seals env (initialized w) (defaults_of w) (state_of env (env.state w.sent)) in
      ap (λ (o : Result (Bool × Option Text) × Service). initialized o.1) (bootstrap-planned w)
      ∙ sealed.on_err w e refl (ap (λ o. o.0) (sym (bootstrap-planned w)) ∙ h)

-- What a call leaves: where it returns, the settings record that the bootstrap was done; where it
-- throws, that record is as it was, and the service shows the error by the reason derived from it.
abbrev pub IsSettled : Service → Result (Bool × Option Text) → Service → Type 0
IsSettled before (ok a) after = is_true (initialized after) ≡ true
IsSettled before (err e) after =
    (initialized after ≡ initialized before)
    × (after.error
        ≡ some (record {
          reason = derive_bootstrap_default_role_error_reason e;
          error_key = error_key_of e;
        }))

module _ (env : Env) where
  conclude-IsSettled :
      (before w : Service) (r : Result (Bool × Option Text))
      → ((a : Bool × Option Text) → r ≡ ok a → is_true (initialized w) ≡ true)
      → ((e : Failure) → r ≡ err e → initialized w ≡ initialized before)
      → IsSettled before (conclude env r w).0 (conclude env r w).1
  unfolding conclude set_bootstrap_default_role_error modify raise pure ◌>>=◌ get_setting
  conclude-IsSettled before w (ok a) h k = h a refl
  conclude-IsSettled before w (err e) h k = (k e refl, refl)

  -- Where `ensureBootstrapDefaultRole` returns, the settings record that the bootstrap was done.
  -- Where it throws, that record is as it was before, and the service shows the error by its key and
  -- the reason that is derived from it.
  pub ensure_bootstrap_default_role-IsSettled :
      (w : Service)
      → IsSettled w (ensure_bootstrap_default_role env w).0 (ensure_bootstrap_default_role env w).1
  unfolding ensure_bootstrap_default_role clear_bootstrap_default_role_error modify attempt ◌>>=◌
      get_setting
  ensure_bootstrap_default_role-IsSettled w =
      let cleared = record w { error = none } in
      conclude-IsSettled w (bootstrap_default_role env cleared).1
        (bootstrap_default_role env cleared).0 (bootstrap-marks env cleared)
        (bootstrap-unmarked env cleared)
