-- ===== src/Dynsec/Clients/Rollback.antt =====
-- What `createClient` leaves on the broker where a command of it fails.
use mqttctl.Prelude.{
  ◌≡◌, ◌∙◌, refl, ap, Text, codes, ◌==◌, Bool, Option, some, List, [], ◌∷◌, ◌++◌, inl, inr,
  Bool-cases,
}
use mqttctl.Dynsec.{DynsecClientDefaults, dynsec_bootstrap_default_role_name}
use mqttctl.Dynsec.Task.{
  Failure, Service, Command, Result, ok, err, pure, raise, gets, attempt, ◌>>=◌, Env, answer,
  CommandResult, run_dynsec_command,
}
use mqttctl.Dynsec.Operations.{get_client_defaults, send, assign_client_role, delete_client}
use mqttctl.Dynsec.Clients.{
  present, create_account, set_password_if_given, apply_default_role, roll_back, after_rollback,
  after_assignment, rolled_back, not_rolled_back, create_client, create_args, check_default_role,
}
use mqttctl.Dynsec.Clients.Creation.{sent_command, defaults_of, roll_back-deletes, forgotten}

-- The error of a creation whose role was not given, by the broker's answer to the deletion.
abbrev pub rollback_error : Env → Failure → Result CommandResult → Failure
rollback_error env cause (ok result) = rolled_back env cause
rollback_error env cause (err e) = not_rolled_back env e cause

module _ (env : Env) where
  after-send :
      (cause : Failure) (r : Result CommandResult) (w : Service)
      → let (o, w') = ((λ v. (r, v)) >>= λ _. pure tt) w in
        after_rollback env cause o w' ≡ (err (rollback_error env cause r), w)
  unfolding ◌>>=◌ raise pure
  after-send cause (ok result) w = refl
  after-send cause (err e) w = refl

  -- The answer to the deletion of a client, after these commands.
  abbrev pub deletion : Text → List Command → Result CommandResult
  deletion username before =
      answer (codes "deleteClient") (env.run before (codes "deleteClient") (username ∷ []))

  sent-forgotten : (rolename : Text) (w : Service) → (forgotten env rolename w).sent ≡ w.sent
  sent-forgotten rolename w = elim (Bool-cases (rolename == dynsec_bootstrap_default_role_name)) [
    | inl e ↦ rw e refl
    | inr e ↦ rw e refl
  ]

  roll_back-outcome :
      (username rolename : Text) (cause : Failure) (w : Service)
      → ((roll_back env username rolename cause w).0
          ≡ err (rollback_error env cause (deletion username w.sent)))
        × ((roll_back env username rolename cause w).1.sent
            ≡ w.sent ++ sent_command (codes "deleteClient") (username ∷ []) ∷ [])
  unfolding delete_client send run_dynsec_command ◌>>=◌
  roll_back-outcome username rolename cause w =
      let v = forgotten env rolename w in
      let same = sent-forgotten rolename w in
      let (m, v') = run_dynsec_command env (codes "deleteClient") (username ∷ []) v in
      let done = roll_back-deletes env username rolename cause w ∙ after-send cause m v' in
      (
        ap (λ (o : Result Bool × Service). o.0) done
            ∙ ap (λ before. err (rollback_error env cause (deletion username before))) same,
        ap (λ (o : Result Bool × Service). o.1.sent) done
            ∙ ap (λ before. before ++ sent_command (codes "deleteClient") (username ∷ []) ∷ [])
                same,
      )

  abbrev pub assign_args : Text → DynsecClientDefaults → Text → List Text
  assign_args username defaults rolename =
      username ∷ rolename ∷ env.host.text_of_number defaults.default_role_priority ∷ []

  apply-fails :
      (username rolename : Text) (defaults : DynsecClientDefaults) (cause : Failure) (w : Service)
      → answer
          (codes "addClientRole")
          (env.run w.sent (codes "addClientRole") (assign_args username defaults rolename))
        ≡ err cause
      → (v : Service) × (v.sent
          ≡ w.sent
            ++ sent_command (codes "addClientRole") (assign_args username defaults rolename) ∷ [])
        × (apply_default_role env username defaults (some rolename) w
            ≡ roll_back env username rolename cause v)
  unfolding apply_default_role assign_client_role send run_dynsec_command attempt after_assignment
      ◌>>=◌
  apply-fails username rolename defaults cause w e =
      let (r, v) =
        run_dynsec_command env (codes "addClientRole") (assign_args username defaults rolename) w in
      (v, refl, rw e refl)

module _ (env : Env) (username : Text) (password client_id : Option Text) (disabled : Bool) where
  -- Where the broker refuses the default role to a client that was just created, the last command
  -- that is sent deletes the client again, and the error tells whether that was done.
  pub create_client-rolls_back :
      (w v : Service) (rolename : Text) (cause : Failure)
      → present (defaults_of env w).default_role_name ≡ some rolename
      → create_account env username password client_id (defaults_of env w) w ≡ (ok tt, v)
      → answer (codes "addClientRole") (
          env.run v.sent
            (codes "addClientRole")
            (assign_args env username (defaults_of env w) rolename))
        ≡ err cause
      → let add =
          sent_command
            (codes "addClientRole")
            (assign_args env username (defaults_of env w) rolename) in
        ((create_client env username password client_id disabled w).1.sent
          ≡ v.sent ++ add ∷ [] ++ sent_command (codes "deleteClient") (username ∷ []) ∷ [])
        × ((create_client env username password client_id disabled w).0
            ≡ err (rollback_error env cause (deletion env username (v.sent ++ add ∷ []))))
  unfolding create_client get_client_defaults gets ◌>>=◌
  create_client-rolls_back w v rolename cause named created e =
      let defaults = defaults_of env w in
      let (u, sent, applied) = apply-fails env username rolename defaults cause v e in
      let (failed, deleted) = roll_back-outcome env username rolename cause u in
      (
        rw (created, named, applied, failed)
            (deleted
              ∙ ap (λ before. before ++ sent_command (codes "deleteClient") (username ∷ []) ∷ [])
                  sent),
        rw (created, named, applied, failed)
            (ap (λ before. err (rollback_error env cause (deletion env username before))) sent),
      )

  password-refused :
      (secret : Text) (cause : Failure) (v : Service)
      → answer
          (codes "setClientPassword")
          (env.run v.sent (codes "setClientPassword") (username ∷ secret ∷ []))
        ≡ err cause
      → ((set_password_if_given env username (some secret) v).0 ≡ err cause)
        × ((set_password_if_given env username (some secret) v).1.sent
            ≡ v.sent ++ sent_command (codes "setClientPassword") (username ∷ secret ∷ []) ∷ [])
  unfolding set_password_if_given send run_dynsec_command ◌>>=◌
  password-refused secret cause v e = (rw e refl, rw e refl)

  -- Where the broker refuses the password of a client that was just created, its error is thrown as it
  -- is and nothing more is sent: the client stays, without its password.
  pub create_client-strands :
      (w u v : Service) (secret : Text) (cause : Failure)
      → check_default_role env (present (defaults_of env w).default_role_name) w ≡ (ok tt, u)
      → send env (codes "createClient") (create_args env username client_id) u ≡ (ok tt, v)
      → present password ≡ some secret
      → answer
          (codes "setClientPassword")
          (env.run v.sent (codes "setClientPassword") (username ∷ secret ∷ []))
        ≡ err cause
      → ((create_client env username password client_id disabled w).0 ≡ err cause)
        × ((create_client env username password client_id disabled w).1.sent
            ≡ v.sent ++ sent_command (codes "setClientPassword") (username ∷ secret ∷ []) ∷ [])
  unfolding create_client create_account get_client_defaults gets ◌>>=◌
  create_client-strands w u v secret cause checked created given e =
      let (failed, sent) = password-refused secret cause v e in
      (rw (checked, created, given, failed) refl, rw (checked, created, given, failed) sent)
