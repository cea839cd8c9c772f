-- ===== src/Dynsec/Task/Logged.antt =====
-- What does not depend on a password: the log, and all that the service does but the command that carries
-- the password.
use mathlib.Core.List.{map-append}
use mqttctl.Prelude.Dict
use mqttctl.Prelude.{or_else, ◌≡◌, ◌∙◌, refl, sym, ap, ap₂, Text, List, [], ◌∷◌, ◌++◌}
use mqttctl.Prelude.Dict.{Dict}
use mqttctl.Prelude.Json.{null}
use mqttctl.Dynsec.Credentials.{redact_command_args}
use mqttctl.Dynsec.Task.{
  Command, CommandResult, LogEntry, Result, ok, err, gets, modify, Env, run_dynsec_command,
  log_command, answer,
}
use mqttctl.Dynsec.Operations.{
  send, read_state, get_client_defaults, get_setting, clear_bootstrap_default_role_provisioned,
  state_of, normalize_client_defaults, client_defaults_key,
}
use mqttctl.Dynsec.Task.Alike.{without_password, IgnoresPasswords, Alike, alike_rules}

module _ (env : Env) (blind : IgnoresPasswords env) where
  logged-alike :
      (command : Text) (args args' : List Text) (r : Result CommandResult) (logged : List LogEntry)
      → redact_command_args command args ≡ redact_command_args command args'
      → log_command env.agent_configured command args r logged
        ≡ log_command env.agent_configured command args' r logged
  unfolding log_command
  logged-alike command args args' (err e) logged same = refl
  logged-alike command args args' (ok result) logged same = rw (same, log_command) refl

  run-Alike :
      (command : Text) (args args' : List Text)
      → let c : Command = record { command = command; args = args } in
        let c' : Command = record { command = command; args = args' } in
        without_password c ≡ without_password c'
        → redact_command_args command args ≡ redact_command_args command args'
        → Alike (run_dynsec_command env command args) (run_dynsec_command env command args')
  unfolding run_dynsec_command
  run-Alike command args args' same shown = record {
    after = λ w v h.
        let c : Command = record { command = command; args = args } in
        let c' : Command = record { command = command; args = args' } in
        let ran = blind.runs w.sent v.sent c c' h.sent same in
        (
          ap (answer command) ran,
          record {
            provisioned_at = h.provisioned_at;
            error = h.error;
            status = h.status;
            settings = h.settings;
            sent =
                map-append without_password w.sent (c ∷ [])
                ∙ ap₂ (λ before last. before ++ last ∷ []) h.sent same
                ∙ sym (map-append without_password v.sent (c' ∷ []));
            logged =
                ap₂ (λ r logged. log_command env.agent_configured command args r logged) ran
                  h.logged
                ∙ logged-alike command args args' _ v.logged shown;
          },
        );
  }

  send-Alike :
      (command : Text) (args : List Text) → Alike (send env command args) (send env command args)
  unfolding send
  send-Alike command args = search (alike_rules, run-Alike command args args refl refl)

  cleared-Alike :
      Alike clear_bootstrap_default_role_provisioned clear_bootstrap_default_role_provisioned
  unfolding clear_bootstrap_default_role_provisioned modify
  cleared-Alike = record {
    after = λ w v h. (
      refl,
      record {
        provisioned_at = refl;
        error = h.error;
        status = h.status;
        settings = h.settings;
        sent = h.sent;
        logged = h.logged;
      },
    );
  }

  provisioned-Alike : Alike (gets (λ w. w.provisioned_at)) (gets (λ w. w.provisioned_at))
  unfolding gets
  provisioned-Alike = record { after = λ w v h. (ap ok h.provisioned_at, h) }

  read_state-Alike : Alike (read_state env) (read_state env)
  unfolding read_state
  read_state-Alike = record {
    after = λ w v h. (ap (state_of env) (blind.states w.sent v.sent h.sent), h);
  }

  get_client_defaults-Alike : Alike (get_client_defaults env) (get_client_defaults env)
  unfolding get_client_defaults gets get_setting
  get_client_defaults-Alike = record {
    after = λ w v h. (
      ap
          (λ settings. ok (
            normalize_client_defaults env.host
              (or_else (Dict.get client_defaults_key settings) null)))
          h.settings,
      h,
    );
  }

  ruleset method_rules = (
    alike_rules, cleared-Alike, provisioned-Alike, read_state-Alike, get_client_defaults-Alike,
    send-Alike,
  )
