-- ===== src/Dynsec/Examples/Creations.antt =====
-- Creating clients and starting up, with a broker that answers as it is told.
use mqttctl.Prelude.{
  ℕ, ◌+◌, is_empty, ◌≡◌, refl, Text, codes, ◌==◌, Bool, true, false, not, Option, none, some, List,
  [], ◌∷◌, ◌++◌, if◌then◌else◌,
}
use mqttctl.Prelude.Int.{pos}
use mqttctl.Prelude.Json.{
  Json, Items, null, boolean, number, string, array, object, nil, item, end, entry,
}
use mqttctl.Dynsec.{DynsecAcl, DynsecRole, DynsecState, DynsecClientDefaults}
use mqttctl.Dynsec.Task.{
  Failure, app_error, Service, Command, CommandResult, Result, ok, err, Env, idle, answer,
  dynsec_operation_failed, derive_bootstrap_default_role_error_reason,
}
use mqttctl.Dynsec.Operations.{state_of, send}
use mqttctl.Dynsec.Clients.{create_client, create_account, check_default_role}
use mqttctl.Dynsec.Clients.Creation.{sent_command, creation, defaults_of, create_client-creation}
use mqttctl.Dynsec.Clients.Rollback.{
  rollback_error, deletion, assign_args, create_client-rolls_back, create_client-strands,
}
use mqttctl.Dynsec.Startup.{ensure_bootstrap_default_role}
use mqttctl.Dynsec.Startup.Sealed.{IsSettled, ensure_bootstrap_default_role-IsSettled}
use mqttctl.Dynsec.Startup.Quiet.{InShape, ensure_bootstrap_default_role-quiet}
use mqttctl.Dynsec.Examples.{host, role_json}

-- A broker that refuses one command and has these roles.
abbrev env_of : Text → Items → Env
env_of refused roles = record {
  host = host;
  agent_configured = true;
  run = λ before command args.
      ok (record { exit_code = if command == refused then 1 else 0; stderr = [] });
  state = λ before. ok (object (entry (codes "roles") (array roles) end));
  now = 50000;
  now_text = codes "now";
}

abbrev viewers : Items
viewers = item (role_json (codes "viewers") nil) nil

-- The settings give each new client the role of viewers.
abbrev service : Service
service = record {
  provisioned_at = none;
  error = none;
  status = idle;
  settings =
      (
        codes "clientDefaults",
        object (entry (codes "defaultRoleName") (string (codes "viewers")) end),
      )
      ∷ [];
  sent = [];
  logged = [];
}

abbrev accepting : Env
accepting = env_of [] viewers

abbrev viewer_defaults : DynsecClientDefaults
viewer_defaults = record {
  default_role_name = some (codes "viewers");
  default_role_priority = pos 0;
}

create_client-creation_example :
    (create_client accepting (codes "c") (some (codes "pw")) none true service).1.sent
    ≡ []
      ++ creation accepting
          (defaults_of accepting service)
          (codes "c")
          (some (codes "pw"))
          none
          true
unfolding create_client mqttctl.Dynsec.Task.◌>>=◌
    mqttctl.Dynsec.Operations.normalize_client_defaults mqttctl.Prelude.Dict.get ◌==◌
    mqttctl.Prelude.is_empty mqttctl.Prelude.trim mqttctl.Dynsec.State.normalize_state
    mqttctl.Prelude.any mqttctl.Prelude.filter
create_client-creation_example =
    create_client-creation accepting (codes "c") (some (codes "pw")) none true service
      (true, viewer_defaults) refl

abbrev role_refusing : Env
role_refusing = env_of (codes "addClientRole") viewers

abbrev created : Service
created = record service {
  sent = sent_command (codes "createClient") (codes "c" ∷ []) ∷ [];
  logged =
      (record {
        command = codes "createClient";
        exit_code = 0;
        args = codes "c" ∷ [];
        stderr = none;
        via_agent = true;
      })
      ∷ [];
}

abbrev refusal : Text → Failure
refusal command =
    app_error (codes "mosquitto_ctrl dynsec " ++ command ++ codes " failed.")
      dynsec_operation_failed 500 none

abbrev add_viewers : Command
add_viewers =
    sent_command (codes "addClientRole")
      (assign_args role_refusing (codes "c") (defaults_of role_refusing service) (codes "viewers"))

create_client-rolls_back_example :
    ((create_client role_refusing (codes "c") none none false service).1.sent
      ≡ created.sent
        ++ add_viewers ∷ []
        ++ sent_command (codes "deleteClient") (codes "c" ∷ []) ∷ [])
    × ((create_client role_refusing (codes "c") none none false service).0
        ≡ err (
            rollback_error role_refusing
              (refusal (codes "addClientRole"))
              (deletion role_refusing (codes "c") (created.sent ++ add_viewers ∷ []))))
unfolding mqttctl.Dynsec.Operations.normalize_client_defaults mqttctl.Dynsec.Operations.get_setting
    mqttctl.Prelude.Dict.get ◌==◌ mqttctl.Prelude.is_empty mqttctl.Prelude.trim create_account
    mqttctl.Dynsec.Task.◌>>=◌ mqttctl.Dynsec.State.normalize_state mqttctl.Prelude.any
    mqttctl.Prelude.filter mqttctl.Dynsec.Credentials.redact_command_args
create_client-rolls_back_example =
    create_client-rolls_back role_refusing (codes "c") none none false service created
      (codes "viewers") (refusal (codes "addClientRole")) refl refl refl

abbrev password_refusing : Env
password_refusing = env_of (codes "setClientPassword") viewers

create_client-strands_example :
    ((create_client password_refusing (codes "c") (some (codes "pw")) none true service).0
      ≡ err (refusal (codes "setClientPassword")))
    × ((create_client password_refusing (codes "c") (some (codes "pw")) none true service).1.sent
        ≡ created.sent
          ++ sent_command (codes "setClientPassword") (codes "c" ∷ codes "pw" ∷ []) ∷ [])
unfolding check_default_role mqttctl.Dynsec.Operations.normalize_client_defaults
    mqttctl.Dynsec.Operations.get_setting mqttctl.Prelude.Dict.get ◌==◌ mqttctl.Prelude.is_empty
    mqttctl.Prelude.trim mqttctl.Dynsec.Task.◌>>=◌ mqttctl.Dynsec.State.normalize_state
    mqttctl.Prelude.any mqttctl.Prelude.filter send mqttctl.Dynsec.Credentials.redact_command_args
create_client-strands_example =
    create_client-strands password_refusing (codes "c") (some (codes "pw")) none true service
      service created (codes "pw") (refusal (codes "setClientPassword")) refl refl refl refl

abbrev no_roles : DynsecState
no_roles = record {
  clients = [];
  groups = [];
  roles = [];
  anonymous_group = none;
  default_acls = object end;
  raw = object end;
  loaded_at = codes "now";
}

abbrev at_time : ℕ → Env
at_time now = record accepting { now = now }

ensure_bootstrap_default_role-IsSettled_example :
    IsSettled service
      (ensure_bootstrap_default_role role_refusing service).0
      (ensure_bootstrap_default_role role_refusing service).1
ensure_bootstrap_default_role-IsSettled_example =
    ensure_bootstrap_default_role-IsSettled role_refusing service

abbrev acl_json : Text → Json
acl_json acltype = object (
    entry (codes "acltype") (string acltype) (
      entry (codes "topic") (string (codes "#"))
        (entry (codes "allow") (boolean true) (entry (codes "priority") (number (pos 0)) end))))

abbrev read_acls : Items → Items
read_acls rest =
    item (acl_json (codes "publishClientReceive")) (
      item (acl_json (codes "subscribePattern"))
        (item (acl_json (codes "unsubscribePattern")) rest))

abbrev shaped : Env
shaped = env_of [] (
    item (role_json (codes "read-all") (read_acls nil)) (
      item
        (role_json (codes "read-write-all")
          (read_acls (item (acl_json (codes "publishClientSend")) nil)))
        nil))

abbrev acl_in : Text → DynsecAcl
acl_in acltype = record {
  acltype = acltype;
  topic = codes "#";
  priority = pos 0;
  allow = true;
  name = null;
  description = null;
}

abbrev role_in : Text → List DynsecAcl → DynsecRole
role_in name acls = record { rolename = name; textname = null; textdescription = null; acls = acls }

abbrev read_acls_in : List DynsecAcl
read_acls_in =
    acl_in (codes "publishClientReceive")
    ∷ acl_in (codes "subscribePattern")
    ∷ acl_in (codes "unsubscribePattern")
    ∷ []

abbrev read_all : DynsecRole
read_all = role_in (codes "read-all") read_acls_in

abbrev read_write_all : DynsecRole
read_write_all =
    role_in (codes "read-write-all") (read_acls_in ++ acl_in (codes "publishClientSend") ∷ [])

abbrev shaped_state : DynsecState
shaped_state = record no_roles {
  roles = read_all ∷ read_write_all ∷ [];
  raw = object (
      entry (codes "roles")
        (array (
          item (role_json (codes "read-all") (read_acls nil)) (
            item
              (role_json (codes "read-write-all")
                (read_acls (item (acl_json (codes "publishClientSend")) nil)))
              nil)))
        end);
}

shaped_state-InShape : InShape shaped_state
unfolding mqttctl.Prelude.find mqttctl.Dynsec.Bootstrap.bootstrap_role_acl_exists ◌==◌
    mqttctl.Dynsec.Operations.role_exists_in_state mqttctl.Prelude.any
shaped_state-InShape = record {
  read_all = (read_all, refl, (refl, (refl, (refl, tt))));
  read_write_all = (read_write_all, refl, (refl, (refl, (refl, (refl, tt)))));
  no_legacy = refl;
}

shaped_reads : state_of shaped (shaped.state []) ≡ ok shaped_state
unfolding state_of mqttctl.Dynsec.State.normalize_state ◌==◌ mqttctl.Prelude.filter
    mqttctl.Prelude.is_empty mqttctl.Prelude.sort mqttctl.Prelude.insert_sorted
shaped_reads = refl

ensure_bootstrap_default_role-quiet_example :
    ((ensure_bootstrap_default_role shaped service).1.sent ≡ [])
    × (d : Option Text) × ((ensure_bootstrap_default_role shaped service).0 ≡ ok (false, d))
ensure_bootstrap_default_role-quiet_example =
    ensure_bootstrap_default_role-quiet shaped service shaped_state shaped_reads
      shaped_state-InShape
