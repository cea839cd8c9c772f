-- ===== src/Dynsec/Stable.antt =====
-- Every method of `DynsecService` preserves what its commands and its own fields preserve.
use mqttctl.Prelude.{ℕ, Text, filter, Bool, true, Option, none, some, List, [], ◌∷◌}
use mqttctl.Prelude.Int.{ℤ}
use mqttctl.Dynsec.{
  DynsecState, DynsecClientDefaults, DynsecClient, DynsecGroup, DynsecRoleRef, DynsecRole,
}
use mqttctl.Dynsec.Task.{Failure, Service, Result, ok, err, Task, gets, Env, run_dynsec_command}
use mqttctl.Dynsec.Task.Keeps.{
  Keeps, Keeps-modify, Keeps-pure, Keeps-raise, Keeps-bind, task_rules, IsStable,
}
use mqttctl.Dynsec.Operations.{
  read_state, get_client_defaults, clear_bootstrap_default_role_provisioned, send, delete_client,
  assign_client_role, remove_client_role, create_group, add_group_role, remove_group_role,
  create_role, delete_role, add_role_acl, add_each_acl, assert_group_name_available,
  assert_role_name_available,
}
use mqttctl.Dynsec.Clients.{
  absent_default_role, is_configured_default_role_missing, check_default_role, roll_back,
  apply_default_role, create_account, create_client, after_rollback, after_assignment,
  set_password_if_given, rolled_back, not_rolled_back,
}
use mqttctl.Dynsec.Bootstrap.{
  BootstrapAcl, add_bootstrap_acls, ensure_bootstrap_role_acls, ensure_bootstrap_role, ensure_role,
  remove_each, names_legacy, migrate_legacy_refs, migrate_refs, migrate_clients, migrate_groups,
  migrate_legacy_bootstrap_role,
}

module _ (env : Env) {P : Service → Type 0}
    (kept : (t : Option ℕ) (w : Service) → P w → P (record w { provisioned_at = t })) where
  clear-Keeps : Keeps P clear_bootstrap_default_role_provisioned
  unfolding clear_bootstrap_default_role_provisioned
  clear-Keeps = Keeps-modify _ (kept none)

  read_state-Keeps : Keeps P (read_state env)
  unfolding read_state
  read_state-Keeps = record { after = λ w h. h }

  get_client_defaults-Keeps : Keeps P (get_client_defaults env)
  unfolding get_client_defaults gets
  get_client_defaults-Keeps = record { after = λ w h. h }

  ruleset check_rules = (task_rules, clear-Keeps, read_state-Keeps, get_client_defaults-Keeps)

  absent_default_role-Keeps :
      (now : ℕ) (rolename : Text) (at : Option ℕ) → Keeps P (absent_default_role now rolename at)
  unfolding absent_default_role
  absent_default_role-Keeps now rolename none = search check_rules
  absent_default_role-Keeps now rolename (some t) = search check_rules

  missing-Keeps :
      (rolename : Option Text) (state : DynsecState)
      → Keeps P (is_configured_default_role_missing env rolename state)
  unfolding is_configured_default_role_missing
  missing-Keeps none state = search check_rules
  missing-Keeps (some rolename) state = search (check_rules, absent_default_role-Keeps)

  pub check_default_role-Keeps :
      (rolename : Option Text) → Keeps P (check_default_role env rolename)
  unfolding check_default_role
  check_default_role-Keeps none = search check_rules
  check_default_role-Keeps (some rolename) = search (check_rules, missing-Keeps)

module _ (env : Env) {P : Service → Type 0} (stable : IsStable env P) where
  cleared-Keeps : Keeps P clear_bootstrap_default_role_provisioned
  cleared-Keeps = clear-Keeps env stable.at_provisioned

  state-Keeps : Keeps P (read_state env)
  state-Keeps = read_state-Keeps env stable.at_provisioned

  checked-Keeps : (rolename : Option Text) → Keeps P (check_default_role env rolename)
  checked-Keeps = check_default_role-Keeps env stable.at_provisioned

  run-Keeps : (command : Text) (args : List Text) → Keeps P (run_dynsec_command env command args)
  run-Keeps command args = record { after = stable.at_run command args }

  pub send-Keeps : (command : Text) (args : List Text) → Keeps P (send env command args)
  unfolding send
  send-Keeps command args = search (task_rules, run-Keeps)

  ruleset command_rules =
      (task_rules, cleared-Keeps, state-Keeps, checked-Keeps, run-Keeps, send-Keeps)

  delete_role-Keeps : (rolename : Text) → Keeps P (delete_role env rolename)
  unfolding delete_role
  delete_role-Keeps rolename = search command_rules

  create_role-Keeps : (rolename : Text) → Keeps P (create_role env rolename)
  unfolding create_role assert_role_name_available
  create_role-Keeps rolename = search command_rules

  create_group-Keeps : (groupname : Text) → Keeps P (create_group env groupname)
  unfolding create_group assert_group_name_available
  create_group-Keeps groupname = search command_rules

  add_each_acl-Keeps :
      (rolename : Text) (acltypes : List Text) (topic : Text) (allow : Bool) (priority : ℤ)
      → Keeps P (add_each_acl env rolename acltypes topic allow priority)
  unfolding add_each_acl add_role_acl
  add_each_acl-Keeps rolename [] topic allow priority = search command_rules
  add_each_acl-Keeps rolename (acltype ∷ acltypes) topic allow priority =
      Keeps-bind _ _ (send-Keeps _ _) λ _. add_each_acl-Keeps rolename acltypes topic allow priority

  after_rollback-Keeps : (cause : Failure) (r : Result Unit) → Keeps P (after_rollback env cause r)
  after_rollback-Keeps cause (ok u) = Keeps-raise (rolled_back env cause)
  after_rollback-Keeps cause (err e) = Keeps-raise (not_rolled_back env e cause)

  roll_back-Keeps :
      (username rolename : Text) (cause : Failure) → Keeps P (roll_back env username rolename cause)
  unfolding roll_back delete_client
  roll_back-Keeps username rolename cause = search (command_rules, after_rollback-Keeps)

  after_assignment-Keeps :
      (username rolename : Text) (r : Result Unit)
      → Keeps P (after_assignment env username rolename r)
  unfolding after_assignment
  after_assignment-Keeps username rolename (ok u) = Keeps-pure true
  after_assignment-Keeps username rolename (err cause) = roll_back-Keeps username rolename cause

  apply_default_role-Keeps :
      (username : Text) (defaults : DynsecClientDefaults) (rolename : Option Text)
      → Keeps P (apply_default_role env username defaults rolename)
  unfolding apply_default_role assign_client_role
  apply_default_role-Keeps username defaults none = search command_rules
  apply_default_role-Keeps username defaults (some rolename) =
      search (command_rules, after_assignment-Keeps)

  set_password-Keeps :
      (username : Text) (password : Option Text)
      → Keeps P (set_password_if_given env username password)
  unfolding set_password_if_given
  set_password-Keeps username none = search command_rules
  set_password-Keeps username (some password) = search command_rules

  create_account-Keeps :
      (username : Text) (password client_id : Option Text) (defaults : DynsecClientDefaults)
      → Keeps P (create_account env username password client_id defaults)
  unfolding create_account
  create_account-Keeps username password client_id defaults =
      search (command_rules, set_password-Keeps)

  pub create_client-Keeps :
      (username : Text) (password client_id : Option Text) (disabled : Bool)
      → Keeps P (create_client env username password client_id disabled)
  unfolding create_client
  create_client-Keeps username password client_id disabled =
      Keeps-bind _ _ (get_client_defaults-Keeps env stable.at_provisioned) λ defaults.
        Keeps-bind _ _ (create_account-Keeps username password client_id defaults) λ _.
          Keeps-bind _ _ (apply_default_role-Keeps username defaults _)
            λ applied. search command_rules

  remove_each-Keeps :
      (assign : ℤ → Task Unit) (remove : Text → Task Unit) (roles : List DynsecRoleRef)
      → ((name : Text) → Keeps P (remove name))
      → Keeps P (remove_each assign remove roles)
  unfolding remove_each
  remove_each-Keeps assign remove [] l = Keeps-pure tt
  remove_each-Keeps assign remove (r ∷ rs) l =
      Keeps-bind _ _ (l r.rolename) λ _. remove_each-Keeps assign remove rs l

  migrate_legacy_refs-Keeps :
      (assign : ℤ → Task Unit) (remove : Text → Task Unit) (roles legacy : List DynsecRoleRef)
      → ((p : ℤ) → Keeps P (assign p))
      → ((name : Text) → Keeps P (remove name))
      → Keeps P (migrate_legacy_refs assign remove roles legacy)
  unfolding migrate_legacy_refs
  migrate_legacy_refs-Keeps assign remove roles [] k l = Keeps-pure tt
  migrate_legacy_refs-Keeps assign remove roles (first ∷ rest) k l =
      search (task_rules, k, remove_each-Keeps)

  migrate_refs-Keeps :
      (assign : ℤ → Task Unit) (remove : Text → Task Unit) (roles : List DynsecRoleRef)
      → ((p : ℤ) → Keeps P (assign p))
      → ((name : Text) → Keeps P (remove name))
      → Keeps P (migrate_refs assign remove roles)
  unfolding migrate_refs
  migrate_refs-Keeps assign remove roles k l =
      migrate_legacy_refs-Keeps assign remove roles (filter names_legacy roles) k l

  add_bootstrap_acls-Keeps :
      (rolename : Text) (acls : List BootstrapAcl) → Keeps P (add_bootstrap_acls env rolename acls)
  unfolding add_bootstrap_acls add_role_acl
  add_bootstrap_acls-Keeps rolename [] = Keeps-pure tt
  add_bootstrap_acls-Keeps rolename (acl ∷ acls) =
      Keeps-bind _ _ (send-Keeps _ _) λ _. add_bootstrap_acls-Keeps rolename acls

  migrate_clients-Keeps : (clients : List DynsecClient) → Keeps P (migrate_clients env clients)
  unfolding migrate_clients assign_client_role remove_client_role
  migrate_clients-Keeps [] = Keeps-pure tt
  migrate_clients-Keeps (client ∷ clients) =
      Keeps-bind _ _
        (migrate_refs-Keeps _ _ client.roles (λ p. send-Keeps _ _) (λ name. send-Keeps _ _))
        λ _. migrate_clients-Keeps clients

  migrate_groups-Keeps : (groups : List DynsecGroup) → Keeps P (migrate_groups env groups)
  unfolding migrate_groups add_group_role remove_group_role
  migrate_groups-Keeps [] = Keeps-pure tt
  migrate_groups-Keeps (group ∷ groups) =
      Keeps-bind _ _
        (migrate_refs-Keeps _ _ group.roles (λ p. send-Keeps _ _) (λ name. send-Keeps _ _))
        λ _. migrate_groups-Keeps groups

  pub migrate-Keeps : (state : DynsecState) → Keeps P (migrate_legacy_bootstrap_role env state)
  unfolding migrate_legacy_bootstrap_role
  migrate-Keeps state =
      search (command_rules, migrate_clients-Keeps, migrate_groups-Keeps, delete_role-Keeps)

  ensure_role-Keeps :
      (name : Text) (acls : List BootstrapAcl) (found : Option DynsecRole)
      → Keeps P (ensure_role env name acls found)
  unfolding ensure_role ensure_bootstrap_role_acls
  ensure_role-Keeps name acls (some existing) = search (command_rules, add_bootstrap_acls-Keeps)
  ensure_role-Keeps name acls none =
      search (command_rules, create_role-Keeps, add_bootstrap_acls-Keeps)

  pub ensure_bootstrap_role-Keeps :
      (name : Text) (acls : List BootstrapAcl) (state : DynsecState)
      → Keeps P (ensure_bootstrap_role env name acls state)
  unfolding ensure_bootstrap_role
  ensure_bootstrap_role-Keeps name acls state = ensure_role-Keeps name acls _
