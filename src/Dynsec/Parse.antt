-- ===== src/Dynsec/Parse.antt =====
-- How `mqttctl/mqttctl-api/src/lib/server/dynsec/service.ts` reads the broker's JSON: `numericValue`,
-- `integerValue`, `parseRoleRefs`, `parseGroupRefs`, `parseClientRefs`, `parseAcls`. A property that
-- is missing is `undefined`, here `none`.
use mqttctl.Prelude.{
  zero, Text, codes, ◌==◌, ◌++◌, is_empty, Bool, true, false, not, ◌||◌, Option, none, some, List,
  [], ◌∷◌, map, or_else, if◌then◌else◌,
}
use mqttctl.Prelude.Int.{ℤ, pos, negsuc}
use mqttctl.Prelude.Json.{
  Json, Items, Entries, null, boolean, number, string, array, object, nil, item, end, entry,
}
use mqttctl.Dynsec.{DynsecRoleRef, DynsecGroupRef, DynsecClientRef, DynsecAcl}

-- The conversions of the language's strings and whole numbers: `Number(s)`, `none` where it is not a
-- whole number, and `String(n)`; and the message of the exception for a property of null.
pub record Host : Type 0 where
  pub number_of_text : Text → Option ℤ
  pub text_of_number : ℤ → Text
  pub property_of_null : Text

unfoldable pub lookup_entry : Text → Entries → Option Json
lookup_entry key end = none
lookup_entry key (entry k value entries) = if k == key then some value else lookup_entry key entries

-- `(value as Record<string, unknown>)[key]`, of a value that is not null.
unfoldable pub field : Text → Json → Option Json
unfolding lookup_entry
field key (object entries) = lookup_entry key entries
field key _ = none

-- `a ?? b`
unfoldable pub coalesce : Option Json → Option Json → Option Json
coalesce none b = b
coalesce (some null) b = b
coalesce (some a) b = some a

-- `Boolean(value)`
unfoldable pub truthy : Json → Bool
truthy null = false
truthy (boolean b) = b
truthy (number (pos zero)) = false
truthy (number _) = true
truthy (string s) = not (is_empty s)
truthy (array items) = true
truthy (object entries) = true

-- `typeof value === 'object'` of a value that is not null.
abbrev pub is_object : Json → Bool
is_object (array items) = true
is_object (object entries) = true
is_object _ = false

-- `value === 'allow'`
abbrev is_allow : Option Json → Bool
is_allow (some (string s)) = s == codes "allow"
is_allow _ = false

module _ (host : Host) where
  -- `String(value)`; an array is its items with commas between, and null is empty there.
  unfoldable mutual
    pub to_text : Json → Text
    to_text null = codes "null"
    to_text (boolean true) = codes "true"
    to_text (boolean false) = codes "false"
    to_text (number n) = host.text_of_number n
    to_text (string s) = s
    to_text (array items) = join_items items
    to_text (object entries) = codes "[object Object]"

    join_items : Items → Text
    join_items nil = []
    join_items (item value nil) = to_item_text value
    join_items (item value (item other items)) =
        to_item_text value ++ codes "," ++ join_items (item other items)

    to_item_text : Json → Text
    to_item_text null = []
    to_item_text (boolean true) = codes "true"
    to_item_text (boolean false) = codes "false"
    to_item_text (number n) = host.text_of_number n
    to_item_text (string s) = s
    to_item_text (array items) = join_items items
    to_item_text (object entries) = codes "[object Object]"

  -- `Number(value)`, where it is a whole number.
  unfoldable pub to_number : Option Json → Option ℤ
  unfolding to_text
  to_number none = none
  to_number (some null) = some (pos 0)
  to_number (some (boolean true)) = some (pos 1)
  to_number (some (boolean false)) = some (pos 0)
  to_number (some (number n)) = some n
  to_number (some (string s)) = host.number_of_text s
  to_number (some (array items)) = host.number_of_text (to_text (array items))
  to_number (some (object entries)) = none

  unfoldable pub numeric_value : Option Json → ℤ
  unfolding to_number
  numeric_value value = or_else (to_number value) (negsuc 0)

  unfoldable pub integer_value : Option Json → ℤ
  unfolding to_number
  integer_value value = or_else (to_number value) (pos 0)

  -- `String(record[key] ?? record.name ?? '')`
  unfoldable pub name_of : Text → Json → Text
  unfolding to_text field coalesce
  name_of key record_ = to_text (
      or_else (coalesce (field key record_) (coalesce (field (codes "name") record_) none))
        (string []))

  -- One entry of a list of references: a name, or an object with a name and a priority.
  unfoldable pub parse_ref : Text → Json → Option (Text × ℤ)
  unfolding name_of numeric_value field
  parse_ref key (string s) = some (s, negsuc 0)
  parse_ref key (array items) = none
  parse_ref key (object entries) =
      let name = name_of key (object entries) in
      if is_empty name
      then none
      else some (name, numeric_value (field (codes "priority") (object entries)))
  parse_ref key _ = none

  unfoldable pub parse_ref_items : Text → Items → List (Text × ℤ)
  unfolding parse_ref
  parse_ref_items key nil = []
  parse_ref_items key (item value items) =
      let rest = parse_ref_items key items in
      elim (parse_ref key value) [ none ↦ rest | some ref ↦ ref ∷ rest ]

  unfoldable pub parse_refs : Text → Option Json → List (Text × ℤ)
  unfolding parse_ref_items
  parse_refs key (some (array items)) = parse_ref_items key items
  parse_refs key _ = []

  unfoldable pub parse_role_refs : Option Json → List DynsecRoleRef
  unfolding parse_refs
  parse_role_refs value =
      map (λ r. record { rolename = r.0; priority = r.1 }) (parse_refs (codes "rolename") value)

  unfoldable pub parse_group_refs : Option Json → List DynsecGroupRef
  unfolding parse_refs
  parse_group_refs value =
      map (λ r. record { groupname = r.0; priority = r.1 }) (parse_refs (codes "groupname") value)

  unfoldable pub parse_client_refs : Option Json → List DynsecClientRef
  unfolding parse_refs
  parse_client_refs value =
      map (λ r. record { username = r.0; priority = r.1 }) (parse_refs (codes "username") value)

  -- An ACL of a type and topic that are known to be there.
  unfoldable pub parse_acl : Text → Text → Json → DynsecAcl
  unfolding numeric_value field coalesce truthy
  parse_acl acltype topic acl_record = record {
    acltype = acltype;
    topic = topic;
    priority = numeric_value (field (codes "priority") acl_record);
    allow = truthy (
        or_else (coalesce (field (codes "allow") acl_record) none)
          (boolean (is_allow (field (codes "effect") acl_record))));
    name = or_else (coalesce (field (codes "name") acl_record) none) null;
    description = or_else (coalesce (field (codes "description") acl_record) none) null;
  }

  -- `String(record[key] ?? '')`
  unfoldable pub text_field : Text → Json → Text
  unfolding to_text field coalesce
  text_field key value = to_text (or_else (coalesce (field key value) none) (string []))

  unfoldable pub parse_listed_acls : Items → List DynsecAcl
  unfolding text_field parse_acl
  parse_listed_acls nil = []
  parse_listed_acls (item value items) =
      let rest = parse_listed_acls items in
      let acltype = text_field (codes "acltype") value in
      let topic = text_field (codes "topic") value in
      if not (is_object value) || is_empty acltype || is_empty topic
      then rest
      else parse_acl acltype topic value ∷ rest

  unfoldable pub parse_grouped_acls : Text → Items → List DynsecAcl
  unfolding text_field parse_acl
  parse_grouped_acls acltype nil = []
  parse_grouped_acls acltype (item value items) =
      let rest = parse_grouped_acls acltype items in
      let topic = text_field (codes "topic") value in
      if not (is_object value) || is_empty topic then rest else parse_acl acltype topic value ∷ rest

  unfoldable pub parse_acl_groups : Entries → List DynsecAcl
  unfolding parse_grouped_acls
  parse_acl_groups end = []
  parse_acl_groups (entry acltype (array items) entries) =
      parse_grouped_acls acltype items ++ parse_acl_groups entries
  parse_acl_groups (entry acltype _ entries) = parse_acl_groups entries

  unfoldable pub parse_acls : Option Json → List DynsecAcl
  unfolding parse_listed_acls parse_acl_groups
  parse_acls (some (array items)) = parse_listed_acls items
  parse_acls (some (object entries)) = parse_acl_groups entries
  parse_acls _ = []
