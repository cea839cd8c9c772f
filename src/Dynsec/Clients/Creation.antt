-- ===== src/Dynsec/Clients/Creation.antt =====
-- What `createClient` sends to the broker, where it returns and where it throws.
use mqttctl.Prelude.{
  ◌≡◌, ◌≢◌, ◌∙◌, refl, sym, ap, Text, codes, ◌==◌, Bool, false, Option, none, some, List, [], ◌∷◌,
  ◌++◌, inl, inr, Bool-cases, if◌then◌else◌,
}
use mqttctl.Dynsec.{DynsecClientDefaults, dynsec_bootstrap_default_role_name}
use mqttctl.Dynsec.Task.{
  Failure, Service, Command, Result, ok, err, pure, raise, gets, modify, attempt, ◌>>=◌, Env,
}
use mqttctl.Dynsec.Task.Sends.{
  Sends, Sends-nothing, Sends-pure, Sends-pure_last, Sends-if, Sends-bind, Sends-run,
}
use mqttctl.Dynsec.Operations.{
  get_setting, client_defaults_key, normalize_client_defaults, get_client_defaults, send,
  assign_client_role, delete_client, clear_bootstrap_default_role_provisioned,
}
use mqttctl.Dynsec.Stable.{check_default_role-Keeps}
use mqttctl.Dynsec.Clients.{
  present, check_default_role, create_account, set_password_if_given, create_args,
  apply_default_role, roll_back, after_rollback, after_assignment, create_client,
}

abbrev pub sent_command : Text → List Text → Command
sent_command name args = record { command = name; args = args }

abbrev pub set_password_commands : Text → Option Text → List Command
set_password_commands username none = []
set_password_commands username (some password) =
    sent_command (codes "setClientPassword") (username ∷ password ∷ []) ∷ []

abbrev pub assign_commands : Env → Text → DynsecClientDefaults → Option Text → List Command
assign_commands env username defaults none = []
assign_commands env username defaults (some rolename) =
    sent_command (codes "addClientRole")
      (username ∷ rolename ∷ env.host.text_of_number defaults.default_role_priority ∷ [])
    ∷ []

-- The commands of a client's creation, under the defaults: the client, its password, its role and
-- that it is disabled, each of the last three where it is asked for.
abbrev pub creation :
    Env → DynsecClientDefaults → Text → Option Text → Option Text → Bool → List Command
creation env defaults username password client_id disabled =
    (sent_command (codes "createClient") (create_args env username client_id)
      ∷ set_password_commands username (present password))
    ++ (assign_commands env username defaults (present defaults.default_role_name)
        ++ (if disabled then sent_command (codes "disableClient") (username ∷ []) ∷ [] else []))

module _ (env : Env) where
  send-Sends :
      (name : Text) (args : List Text) → Sends (send env name args) (sent_command name args ∷ [])
  unfolding send
  send-Sends name args = Sends-bind _ _ _ [] (Sends-run env name args) (λ _. Sends-pure tt)

  set_password-Sends :
      (username : Text) (password : Option Text)
      → Sends
          (set_password_if_given env username password)
          (set_password_commands username password)
  unfolding set_password_if_given
  set_password-Sends username none = Sends-pure tt
  set_password-Sends username (some password) = send-Sends _ _

  check-Sends : (rolename : Option Text) → Sends (check_default_role env rolename) []
  check-Sends rolename = Sends-nothing (check_default_role env rolename) λ w.
      (check_default_role-Keeps env {P = λ v. v.sent ≡ w.sent} (λ t v h. h) rolename).after w refl

  create_account-Sends :
      (username : Text) (password client_id : Option Text) (defaults : DynsecClientDefaults)
      → Sends (create_account env username password client_id defaults) (
          sent_command (codes "createClient") (create_args env username client_id)
          ∷ set_password_commands username (present password))
  unfolding create_account
  create_account-Sends username password client_id defaults =
      Sends-bind _ _ [] _ (check-Sends (present defaults.default_role_name))
        λ _. Sends-bind _ _ _ _ (send-Sends _ _) λ _. set_password-Sends username (present password)

  abbrev pub forgotten : Text → Service → Service
  forgotten rolename w =
      if rolename == dynsec_bootstrap_default_role_name
      then record w { provisioned_at = none }
      else w

  pub roll_back-deletes :
      (username rolename : Text) (cause : Failure) (w : Service)
      → let (r, w') = delete_client env username (forgotten rolename w) in
        roll_back env username rolename cause w ≡ after_rollback env cause r w'
  unfolding roll_back ◌>>=◌ attempt clear_bootstrap_default_role_provisioned modify pure
  roll_back-deletes username rolename cause w =
      elim (Bool-cases (rolename == dynsec_bootstrap_default_role_name)) [
        | inl e ↦ rw e refl
        | inr e ↦ rw e refl
      ]

  after_rollback-throws :
      (cause : Failure) (r : Result Unit) (w : Service) (b : Bool)
      → (after_rollback env cause r w).0 ≢ ok b
  unfolding raise
  after_rollback-throws cause (ok u) w b h = cc
  after_rollback-throws cause (err e) w b h = cc

  assigned :
      (username rolename : Text) (r : Result Unit) (w : Service) (b : Bool)
      → (after_assignment env username rolename r w).0 ≡ ok b
      → ((after_assignment env username rolename r w).1 ≡ w) × (r ≡ ok tt)
  unfolding after_assignment pure
  assigned username rolename (ok tt) w b h = (refl, refl)
  assigned username rolename (err cause) w b h = absurd (
      after_rollback-throws cause _ _ b (
        ap (λ (o : Result Bool × Service). o.0) (sym (roll_back-deletes username rolename cause w))
        ∙ h))

  apply_default_role-Sends :
      (username : Text) (defaults : DynsecClientDefaults) (rolename : Option Text)
      → Sends
          (apply_default_role env username defaults rolename)
          (assign_commands env username defaults rolename)
  unfolding apply_default_role ◌>>=◌
  apply_default_role-Sends username defaults none = Sends-pure false
  apply_default_role-Sends username defaults (some rolename) = record {
    sent = λ w b h.
        let priority = defaults.default_role_priority in
        let (r, w') = assign_client_role env username rolename priority w in
        let (same, good) = assigned username rolename r w' b h in
        ap (λ (v : Service). v.sent) same ∙ (send-Sends _ _).sent w tt good;
  }

-- The defaults that a call reads.
abbrev pub defaults_of : Env → Service → DynsecClientDefaults
defaults_of env w = normalize_client_defaults env.host (get_setting client_defaults_key w)

module _ (env : Env) (username : Text) (password client_id : Option Text) (disabled : Bool) where
  disable-Sends :
      (defaults : DynsecClientDefaults) (applied : Bool)
      → Sends {A = Bool × DynsecClientDefaults}
          ((if disabled then send env (codes "disableClient") (username ∷ []) else pure tt) >>= λ _.
            pure (applied, defaults))
          (if disabled then sent_command (codes "disableClient") (username ∷ []) ∷ [] else [])
  disable-Sends defaults applied =
      Sends-pure_last _ (applied, defaults) _
        (Sends-if disabled _ _ _ _ (send-Sends env _ _) (Sends-pure tt))

  -- Where `createClient` returns, it has sent the broker exactly these commands, in this order: the
  -- client, its password if one is given, the default role if one is configured, and that the client
  -- is disabled if that is asked for.
  pub create_client-creation :
      (w : Service) (r : Bool × DynsecClientDefaults)
      → (create_client env username password client_id disabled w).0 ≡ ok r
      → (create_client env username password client_id disabled w).1.sent
        ≡ w.sent ++ creation env (defaults_of env w) username password client_id disabled
  unfolding create_client get_client_defaults gets ◌>>=◌
  create_client-creation w r h =
      let defaults = defaults_of env w in
      (Sends-bind _ _ _ _ (create_account-Sends env username password client_id defaults) λ _.
          Sends-bind _ _ _ _
            (apply_default_role-Sends env username defaults (present defaults.default_role_name))
            (disable-Sends defaults)).sent
        w r h
