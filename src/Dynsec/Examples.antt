-- ===== src/Dynsec/Examples.antt =====
-- The dynamic security of a small broker.
mod Creations
use mathlib.Core.List.{Memᴰ}
use mathlib.Core.List.Memᴰ
use mqttctl.Prelude.{
  ◌≡◌, refl, Text, codes, ◌==◌, Bool, true, false, not, Option, none, some, List, [], ◌∷◌, ◌++◌,
  arith,
}
use mqttctl.Prelude.Int.{ℤ, pos, negsuc}
use mqttctl.Prelude.Json.{
  Json, Items, Entries, null, boolean, number, string, array, object, nil, item, end, entry,
}
use mqttctl.Prelude.Keyed.{IsDistinct}
use mqttctl.Dynsec.{
  DynsecAcl, DynsecClient, DynsecGroup, DynsecRole, DynsecState, DynsecClientDefaults,
  dynsec_bootstrap_default_role_name,
}
use mqttctl.Dynsec.Acls.{acl_key, resolve_effective_acls}
use mqttctl.Dynsec.Acls.Effective.{outranks}
use mqttctl.Dynsec.Acls.Resolved.{
  effect, resolve_effective_acls-prevails, resolve_effective_acls-order,
}
use mqttctl.Dynsec.Credentials.{summarize_credential_value, sanitize_dynsec_credential_fields}
use mqttctl.Dynsec.Credentials.Hidden.{IsSanitized, sanitize_dynsec_credential_fields-IsSanitized}
use mqttctl.Dynsec.Parse.{Host}
use mqttctl.Dynsec.State.{normalize_state}
use mqttctl.Dynsec.State.Memberships.{lists_group, lists_client, normalize_state-agrees}

abbrev acl_of : Bool → DynsecAcl
acl_of allow = record {
  acltype = codes "subscribePattern";
  topic = codes "#";
  priority = pos 1;
  allow = allow;
  name = null;
  description = null;
}

abbrev both : List DynsecAcl
both = acl_of true ∷ acl_of false ∷ []

abbrev any_order : Text → Text → Bool
any_order a b = true

denied_first : Memᴰ (acl_of false) (resolve_effective_acls any_order both)
unfolding resolve_effective_acls outranks mqttctl.Prelude.sort mqttctl.Prelude.Dict.get
    mqttctl.Prelude.Dict.set ◌==◌ mqttctl.Prelude.insert_sorted
denied_first = Memᴰ.head refl

resolve_effective_acls-prevails_example :
    Memᴰ (acl_of false) both × (outranks (acl_of false) (acl_of true) ≡ true)
unfolding acl_key
resolve_effective_acls-prevails_example =
    resolve_effective_acls-prevails any_order both (acl_of false) (acl_of true) denied_first
      (Memᴰ.head refl) refl

swap :
    (b : Bool) (a : DynsecAcl)
    → Memᴰ a (acl_of b ∷ acl_of (not b) ∷ [])
    → Memᴰ a (acl_of (not b) ∷ acl_of b ∷ [])
swap b a (Memᴰ.head e) = Memᴰ.tail (Memᴰ.head e)
swap b a (Memᴰ.tail (Memᴰ.head e)) = Memᴰ.head e
swap b a (Memᴰ.tail (Memᴰ.tail m)) = absurd (Memᴰ.not-nil m)

resolve_effective_acls-order_example :
    effect (acl_key (acl_of true)) (resolve_effective_acls any_order both)
    ≡ effect
        (acl_key (acl_of true))
        (resolve_effective_acls any_order (acl_of false ∷ acl_of true ∷ []))
resolve_effective_acls-order_example =
    resolve_effective_acls-order any_order both (acl_of false ∷ acl_of true ∷ [])
      (acl_key (acl_of true)) (swap true) (swap false)

abbrev credentials : Json
credentials = object (
    entry (codes "username") (string (codes "c"))
      (entry (codes "password") (string (codes "correct horse battery")) end))

sanitize_dynsec_credential_fields-IsSanitized_example :
    IsSanitized credentials (sanitize_dynsec_credential_fields credentials)
    × (sanitize_dynsec_credential_fields (sanitize_dynsec_credential_fields credentials)
        ≡ sanitize_dynsec_credential_fields credentials)
sanitize_dynsec_credential_fields-IsSanitized_example =
    sanitize_dynsec_credential_fields-IsSanitized credentials

abbrev host : Host
host = record {
  number_of_text = λ s. none;
  text_of_number = λ n. codes "0";
  property_of_null = codes "null";
}

abbrev one : Json → Json
one value = array (item value nil)

abbrev role_json : Text → Items → Json
role_json name acls =
    object (entry (codes "rolename") (string name) (entry (codes "acls") (array acls) end))

-- A client that lists a group, the group, and no roles.
abbrev raw : Json
raw = object (
    entry (codes "clients")
      (one (
        object (
          entry (codes "username") (string (codes "c"))
            (entry (codes "groups") (one (string (codes "g"))) end))))
      (entry (codes "groups") (one (object (entry (codes "groupname") (string (codes "g")) end)))
        end))

abbrev client : DynsecClient
client = record {
  username = codes "c";
  clientid = null;
  textname = null;
  textdescription = null;
  disabled = false;
  roles = [];
  groups = (record { groupname = codes "g"; priority = negsuc 0 }) ∷ [];
}

abbrev group : DynsecGroup
group = record {
  groupname = codes "g";
  textname = null;
  textdescription = null;
  roles = [];
  clients = (record { username = codes "c"; priority = negsuc 0 }) ∷ [];
}

abbrev state : DynsecState
state = record {
  clients = client ∷ [];
  groups = group ∷ [];
  roles = [];
  anonymous_group = none;
  default_acls = object end;
  raw = raw;
  loaded_at = codes "now";
}

normalized_state : normalize_state host (codes "now") raw ≡ some state
unfolding normalize_state ◌==◌ mqttctl.Prelude.filter mqttctl.Prelude.is_empty
    mqttctl.Dynsec.State.merge_client mqttctl.Dynsec.State.merge_group mqttctl.Prelude.sort
    mqttctl.Prelude.Dict.get mqttctl.Dynsec.State.group_memberships_by_client
    mqttctl.Dynsec.State.client_memberships_by_group mqttctl.Prelude.insert_sorted
    mqttctl.Prelude.Dict.set
normalized_state = refl

normalize_state-agrees_example :
    lists_group client group.groupname ≡ lists_client group client.username
unfolding mqttctl.Prelude.Keyed.find_key
normalize_state-agrees_example =
    normalize_state-agrees host (codes "now") raw state client group normalized_state (refl, tt)
      (refl, tt) (Memᴰ.head refl) (Memᴰ.head refl)
