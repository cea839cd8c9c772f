-- ===== src/Dynsec.antt =====
-- The broker's dynamic security: the data of `mqttctl/mqttctl-api/src/lib/types/index.ts` that
-- `mqttctl/mqttctl-api/src/lib/server/dynsec/service.ts` works on. A priority is a whole number, and
-- a field that the source casts without a check is the JSON value that stood there.
pub mod Acls
pub mod Credentials
pub mod Parse
pub mod State
pub mod Task
pub mod Operations
pub mod Clients
pub mod Bootstrap
pub mod Startup
pub mod Stable
pub mod Effective
mod Examples
use mqttctl.Prelude.{Text, codes, Bool, Option, List, [], ◌∷◌}
use mqttctl.Prelude.Int.{ℤ}
use mqttctl.Prelude.Json.{Json}

pub record DynsecRoleRef : Type 0 where
  pub rolename : Text
  pub priority : ℤ

pub record DynsecGroupRef : Type 0 where
  pub groupname : Text
  pub priority : ℤ

pub record DynsecClientRef : Type 0 where
  pub username : Text
  pub priority : ℤ

pub record DynsecAcl : Type 0 where
  pub acltype : Text
  pub topic : Text
  pub priority : ℤ
  pub allow : Bool
  pub name : Json
  pub description : Json

pub record DynsecClient : Type 0 where
  pub username : Text
  pub clientid : Json
  pub textname : Json
  pub textdescription : Json
  pub disabled : Bool
  pub roles : List DynsecRoleRef
  pub groups : List DynsecGroupRef

pub record DynsecGroup : Type 0 where
  pub groupname : Text
  pub textname : Json
  pub textdescription : Json
  pub roles : List DynsecRoleRef
  pub clients : List DynsecClientRef

pub record DynsecRole : Type 0 where
  pub rolename : Text
  pub textname : Json
  pub textdescription : Json
  pub acls : List DynsecAcl

pub record DynsecState : Type 0 where
  pub clients : List DynsecClient
  pub groups : List DynsecGroup
  pub roles : List DynsecRole
  pub anonymous_group : Option Text
  pub default_acls : Json
  pub raw : Json
  pub loaded_at : Text

pub record DynsecClientDefaults : Type 0 where
  pub default_role_name : Option Text
  pub default_role_priority : ℤ

abbrev pub dynsec_acl_types : List Text
dynsec_acl_types =
    codes "publishClientSend"
    ∷ codes "publishClientReceive"
    ∷ codes "subscribeLiteral"
    ∷ codes "subscribePattern"
    ∷ codes "unsubscribeLiteral"
    ∷ codes "unsubscribePattern"
    ∷ []

abbrev pub dynsec_bootstrap_default_role_name : Text
dynsec_bootstrap_default_role_name = codes "read-all"

abbrev pub dynsec_bootstrap_read_write_role_name : Text
dynsec_bootstrap_read_write_role_name = codes "read-write-all"

abbrev pub dynsec_legacy_bootstrap_role_name : Text
dynsec_legacy_bootstrap_role_name = codes "mqttctl-default"
