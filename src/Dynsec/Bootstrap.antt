-- ===== src/Dynsec/Bootstrap.antt =====
-- The bootstrap roles of `mqttctl/mqttctl-api/src/lib/server/dynsec/service.ts`: the service's own
-- state and status, `ensureBootstrapRole`, `migrateLegacyBootstrapRole` and
-- `ensureBootstrapDefaultRole`.
use mqttctl.Prelude.{
  ℕ, Text, codes, ◌==◌, Bool, true, false, not, ◌&&◌, ◌||◌, Option, none, some, List, [], ◌∷◌, ◌++◌,
  filter, any, find, length, if◌then◌else◌,
}
use mqttctl.Prelude.Int.{ℤ, pos, eq_ℤ}
use mqttctl.Dynsec.{
  DynsecState, DynsecRole, DynsecClient, DynsecGroup, DynsecRoleRef,
  dynsec_bootstrap_default_role_name, dynsec_bootstrap_read_write_role_name,
  dynsec_legacy_bootstrap_role_name,
}
use mqttctl.Dynsec.Task.{
  Failure, app_error, caused_error, other_error, idle, running, failed, Task, pure, modify, ◌>>=◌,
  ◌>>◌, Env, derive_bootstrap_default_role_error_reason,
}
use mqttctl.Dynsec.Operations.{
  set_client_defaults, role_exists_in_state, assign_client_role, remove_client_role, add_group_role,
  remove_group_role, create_role, delete_role, add_role_acl,
}

-- `Pick<DynsecAcl, 'acltype' | 'topic' | 'allow' | 'priority'>`
pub record BootstrapAcl : Type 0 where
  pub acltype : Text
  pub topic : Text
  pub allow : Bool
  pub priority : ℤ

abbrev on_all_topics : Text → BootstrapAcl
on_all_topics acltype = record {
  acltype = acltype;
  topic = codes "#";
  allow = true;
  priority = pos 0;
}

abbrev pub dynsec_bootstrap_default_role_acls : List BootstrapAcl
dynsec_bootstrap_default_role_acls =
    on_all_topics (codes "publishClientReceive")
    ∷ on_all_topics (codes "subscribePattern")
    ∷ on_all_topics (codes "unsubscribePattern")
    ∷ []

abbrev pub dynsec_bootstrap_read_write_role_acls : List BootstrapAcl
dynsec_bootstrap_read_write_role_acls =
    dynsec_bootstrap_default_role_acls ++ on_all_topics (codes "publishClientSend") ∷ []

abbrev pub dynsec_bootstrap_reserved_roles : List Text
dynsec_bootstrap_reserved_roles =
    codes "admin"
    ∷ codes "broker-admin"
    ∷ codes "client"
    ∷ codes "dynsec-admin"
    ∷ codes "super-admin"
    ∷ codes "sys-notify"
    ∷ codes "sys-observe"
    ∷ codes "topic-observe"
    ∷ dynsec_bootstrap_default_role_name
    ∷ dynsec_bootstrap_read_write_role_name
    ∷ dynsec_legacy_bootstrap_role_name
    ∷ []

unfoldable pub mark_bootstrap_default_role_provisioned : ℕ → Task (Unit {0})
mark_bootstrap_default_role_provisioned now = modify (λ w. record w { provisioned_at = some now })

unfoldable pub clear_bootstrap_default_role_error : Task (Unit {0})
clear_bootstrap_default_role_error = modify (λ w. record w { error = none })

unfoldable pub mark_bootstrap_default_role_pending : Text → Text → Task (Unit {0})
mark_bootstrap_default_role_pending now_text message =
    modify (λ w. record w { status = running now_text message })

unfoldable pub clear_bootstrap_default_role_pending : Task (Unit {0})
clear_bootstrap_default_role_pending = modify (λ w. record w { status = idle })

unfoldable pub mark_bootstrap_default_role_failed : Text → Text → Task (Unit {0})
mark_bootstrap_default_role_failed now_text message =
    modify (λ w. record w { status = failed now_text message })

abbrev pub error_key_of : Failure → Option Text
error_key_of (app_error reason key status rollback) = some key
error_key_of (caused_error reason key status rollback cause) = some key
error_key_of (other_error reason) = none

unfoldable pub set_bootstrap_default_role_error : Failure → Task (Unit {0})
unfolding derive_bootstrap_default_role_error_reason
set_bootstrap_default_role_error error = modify (λ w. record w {
  error = some (record {
    reason = derive_bootstrap_default_role_error_reason error;
    error_key = error_key_of error;
  });
})

unfoldable pub bootstrap_role_acl_exists : DynsecRole → BootstrapAcl → Bool
bootstrap_role_acl_exists role acl =
    any
      (λ entry.
        entry.acltype == acl.acltype
        && entry.topic == acl.topic
        && ((entry.allow && acl.allow) || (not entry.allow && not acl.allow))
        && eq_ℤ entry.priority acl.priority)
      role.acls

module _ (env : Env) where
  unfoldable pub add_bootstrap_acls : Text → List BootstrapAcl → Task (Unit {0})
  unfolding add_role_acl
  add_bootstrap_acls rolename [] = pure tt
  add_bootstrap_acls rolename (acl ∷ acls) = do
    add_role_acl env rolename acl.acltype acl.topic acl.allow acl.priority
    add_bootstrap_acls rolename acls

  unfoldable pub ensure_bootstrap_role_acls : DynsecRole → List BootstrapAcl → Task ℕ
  unfolding add_bootstrap_acls bootstrap_role_acl_exists
  ensure_bootstrap_role_acls role acls = do
    let missing_acls = filter (λ acl. not (bootstrap_role_acl_exists role acl)) acls
    add_bootstrap_acls role.rolename missing_acls
    pure (length missing_acls)

  -- Whether the role was created, and how many ACLs were added.
  unfoldable pub ensure_role : Text → List BootstrapAcl → Option DynsecRole → Task (Bool × ℕ)
  unfolding ensure_bootstrap_role_acls create_role
  ensure_role role_name acls (some existing) = do
    added ← ensure_bootstrap_role_acls existing acls
    pure (false, added)
  ensure_role role_name acls none = do
    create_role env role_name
    add_bootstrap_acls role_name acls
    pure (true, length acls)

  unfoldable pub ensure_bootstrap_role : Text → List BootstrapAcl → DynsecState → Task (Bool × ℕ)
  unfolding ensure_role
  ensure_bootstrap_role role_name acls state =
      ensure_role role_name acls (find (λ role. role.rolename == role_name) state.roles)

abbrev pub names_legacy : DynsecRoleRef → Bool
names_legacy reference = reference.rolename == dynsec_legacy_bootstrap_role_name

abbrev has_read_write : List DynsecRoleRef → Bool
has_read_write roles = any (λ r. r.rolename == dynsec_bootstrap_read_write_role_name) roles

module _ (assign : ℤ → Task (Unit {0})) (remove : Text → Task (Unit {0})) where
  unfoldable pub remove_each : List DynsecRoleRef → Task (Unit {0})
  remove_each [] = pure tt
  remove_each (reference ∷ references) = do remove reference.rolename; remove_each references

  -- What the migration does to a client or a group with these roles and legacy ones among them: the
  -- read-write role, at the priority of the first legacy one, if it is not there, and then each
  -- legacy one is removed.
  unfoldable pub migrate_legacy_refs : List DynsecRoleRef → List DynsecRoleRef → Task (Unit {0})
  unfolding remove_each
  migrate_legacy_refs roles [] = pure tt
  migrate_legacy_refs roles (first ∷ rest) = do
    if has_read_write roles then pure tt else assign first.priority
    remove_each (first ∷ rest)

  unfoldable pub migrate_refs : List DynsecRoleRef → Task (Unit {0})
  unfolding migrate_legacy_refs
  migrate_refs roles = migrate_legacy_refs roles (filter names_legacy roles)

module _ (env : Env) where
  unfoldable pub migrate_clients : List DynsecClient → Task (Unit {0})
  unfolding migrate_refs assign_client_role remove_client_role
  migrate_clients [] = pure tt
  migrate_clients (client ∷ clients) = do
    migrate_refs (assign_client_role env client.username dynsec_bootstrap_read_write_role_name)
        (remove_client_role env client.username) client.roles
    migrate_clients clients

  unfoldable pub migrate_groups : List DynsecGroup → Task (Unit {0})
  unfolding migrate_refs add_group_role remove_group_role
  migrate_groups [] = pure tt
  migrate_groups (group ∷ groups) = do
    migrate_refs (add_group_role env group.groupname dynsec_bootstrap_read_write_role_name)
        (remove_group_role env group.groupname) group.roles
    migrate_groups groups

  unfoldable pub migrate_legacy_bootstrap_role : DynsecState → Task Bool
  unfolding role_exists_in_state migrate_clients migrate_groups delete_role
  migrate_legacy_bootstrap_role state =
      if not (role_exists_in_state dynsec_legacy_bootstrap_role_name state)
      then pure false
      else (migrate_clients state.clients
          >> migrate_groups state.groups
          >> delete_role env dynsec_legacy_bootstrap_role_name
          >> pure true)

  -- The answer: whether anything was bootstrapped, and the default role that was set.
  unfoldable pub ensure_managed_bootstrap_roles : Bool → DynsecState → Task (Bool × Option Text)
  unfolding ensure_bootstrap_role migrate_legacy_bootstrap_role set_client_defaults
      mark_bootstrap_default_role_provisioned
  ensure_managed_bootstrap_roles set_as_default state = do
    read_all ←
        ensure_bootstrap_role env dynsec_bootstrap_default_role_name
          dynsec_bootstrap_default_role_acls state
    read_write_all ←
        ensure_bootstrap_role env dynsec_bootstrap_read_write_role_name
          dynsec_bootstrap_read_write_role_acls state
    migrated ← migrate_legacy_bootstrap_role state
    if set_as_default
        then set_client_defaults env (record {
          default_role_name = some dynsec_bootstrap_default_role_name;
          default_role_priority = pos 0;
        })
          >> mark_bootstrap_default_role_provisioned env.now
        else pure tt
    pure (
      read_all.0 || read_write_all.0 || migrated,
      if set_as_default then some dynsec_bootstrap_default_role_name else none,
    )
