-- ===== src/Dynsec/State.antt =====
-- `normalizeState` of `mqttctl/mqttctl-api/src/lib/server/dynsec/service.ts`: the broker's state with
-- each membership on both sides. `none` is an exception.
pub mod Index
pub mod Memberships
use mqttctl.Prelude.{
  ◌≡◌, Text, codes, ◌==◌, is_empty, Bool, true, false, not, ◌&&◌, Option, none, some, List, [], ◌∷◌,
  map, filter, any, or_else, if◌then◌else◌,
}
use mqttctl.Prelude.Int.{ℤ}
use mqttctl.Prelude.Dict
use mqttctl.Prelude.Dict.{Dict}
use mqttctl.Prelude.Json.{Json, Items, null, array, string, object, end, nil, item}
use mqttctl.Dynsec.{
  DynsecRoleRef, DynsecGroupRef, DynsecClientRef, DynsecAcl, DynsecClient, DynsecGroup, DynsecRole,
  DynsecState,
}
use mqttctl.Dynsec.Acls.{sort_by_priority_desc, merge_priority}
use mqttctl.Dynsec.Parse.{
  Host, field, coalesce, truthy, name_of, parse_role_refs, parse_group_refs, parse_client_refs,
  parse_acls,
}

-- `(record[key] as string | null) ?? null`
unfoldable pub text_or_null : Text → Json → Json
unfolding field coalesce
text_or_null key value = or_else (coalesce (field key value) none) null

module _ (host : Host) where
  unfoldable pub parse_client : Json → Option DynsecClient
  unfolding name_of text_or_null field truthy sort_by_priority_desc parse_role_refs parse_group_refs
  parse_client null = none
  parse_client client = some (record {
    username = name_of host (codes "username") client;
    clientid = text_or_null (codes "clientid") client;
    textname = text_or_null (codes "textname") client;
    textdescription = text_or_null (codes "textdescription") client;
    disabled = truthy (or_else (field (codes "disabled") client) null);
    roles =
        sort_by_priority_desc (λ r. r.priority)
          (parse_role_refs host (field (codes "roles") client));
    groups =
        sort_by_priority_desc (λ r. r.priority)
          (parse_group_refs host (field (codes "groups") client));
  })

  unfoldable pub parse_group : Json → Option DynsecGroup
  unfolding name_of text_or_null field sort_by_priority_desc parse_role_refs parse_client_refs
  parse_group null = none
  parse_group group = some (record {
    groupname = name_of host (codes "groupname") group;
    textname = text_or_null (codes "textname") group;
    textdescription = text_or_null (codes "textdescription") group;
    roles =
        sort_by_priority_desc (λ r. r.priority)
          (parse_role_refs host (field (codes "roles") group));
    clients =
        sort_by_priority_desc (λ r. r.priority)
          (parse_client_refs host (field (codes "clients") group));
  })

  unfoldable pub parse_role : Json → Option DynsecRole
  unfolding name_of text_or_null field sort_by_priority_desc parse_acls
  parse_role null = none
  parse_role role = some (record {
    rolename = name_of host (codes "rolename") role;
    textname = text_or_null (codes "textname") role;
    textdescription = text_or_null (codes "textdescription") role;
    acls = sort_by_priority_desc (λ a. a.priority) (parse_acls host (field (codes "acls") role));
  })

module _ {A : Type 0} (parse : Json → Option A) (name : A → Text) where
  parse_items : Items → Option (List A)
  parse_items nil = some []
  parse_items (item value items) = elim (parse value) [
    | none ↦ none
    | some parsed ↦ elim (parse_items items) [ none ↦ none | some rest ↦ some (parsed ∷ rest) ]
  ]

  -- `Array.isArray(list) ? list.map(parse).filter((entry) => entry.name) : []`
  unfoldable pub parse_named : Option Json → Option (List A)
  unfolding parse_items
  parse_named (some (array items)) = elim (parse_items items) [
    | none ↦ none
    | some parsed ↦ some (filter (λ entry. not (is_empty (name entry))) parsed)
  ]
  parse_named _ = some []

-- `mergePriority({ left: map.get(key) ?? Number.NEGATIVE_INFINITY, right })`
unfoldable pub merge_entry : Text → ℤ → Dict ℤ → Dict ℤ
merge_entry key right memberships =
    Dict.set key
      (elim (Dict.get key memberships) [ none ↦ right | some left ↦ merge_priority left right ])
      memberships

-- The inner loop of the two indexes: `inner` is the entry whose references are read.
unfoldable pub index_refs : Text → List (Text × ℤ) → Dict (Dict ℤ) → Dict (Dict ℤ)
unfolding merge_entry
index_refs inner [] index = index
index_refs inner ((outer, priority) ∷ refs) index =
    index_refs inner refs
      (Dict.set outer (merge_entry inner priority (or_else (Dict.get outer index) [])) index)

unfoldable pub index_memberships : Dict (List (Text × ℤ)) → Dict (Dict ℤ) → Dict (Dict ℤ)
unfolding index_refs
index_memberships [] index = index
index_memberships ((inner, refs) ∷ entries) index =
    index_memberships entries (index_refs inner refs index)

abbrev pub group_refs : DynsecClient → List (Text × ℤ)
group_refs client = map (λ r. (r.groupname, r.priority)) client.groups

abbrev pub client_refs : DynsecGroup → List (Text × ℤ)
client_refs group = map (λ r. (r.username, r.priority)) group.clients

unfoldable pub group_memberships_by_client : List DynsecGroup → Dict (Dict ℤ)
unfolding index_memberships
group_memberships_by_client groups =
    index_memberships (map (λ g. (g.groupname, client_refs g)) groups) []

unfoldable pub client_memberships_by_group : List DynsecClient → Dict (Dict ℤ)
unfolding index_memberships
client_memberships_by_group clients =
    index_memberships (map (λ c. (c.username, group_refs c)) clients) []

-- `new Map(references)`
unfoldable pub map_of_refs : List (Text × ℤ) → Dict ℤ → Dict ℤ
map_of_refs [] merged = merged
map_of_refs ((key, priority) ∷ refs) merged = map_of_refs refs (Dict.set key priority merged)

unfoldable pub merge_memberships : Dict ℤ → Dict ℤ → Dict ℤ
unfolding merge_entry
merge_memberships [] merged = merged
merge_memberships ((key, priority) ∷ memberships) merged =
    merge_memberships memberships (merge_entry key priority merged)

unfoldable pub merge_client : Dict (Dict ℤ) → DynsecClient → DynsecClient
unfolding merge_memberships map_of_refs sort_by_priority_desc
merge_client index client = record client {
  groups =
      sort_by_priority_desc (λ r. r.priority)
        (map (λ e. record { groupname = e.0; priority = e.1 })
          (merge_memberships (or_else (Dict.get client.username index) [])
            (map_of_refs (group_refs client) [])));
}

unfoldable pub merge_group : Dict (Dict ℤ) → DynsecGroup → DynsecGroup
unfolding merge_memberships map_of_refs sort_by_priority_desc
merge_group index group = record group {
  clients =
      sort_by_priority_desc (λ r. r.priority)
        (map (λ e. record { username = e.0; priority = e.1 })
          (merge_memberships (or_else (Dict.get group.groupname index) [])
            (map_of_refs (client_refs group) [])));
}

-- `typeof raw.anonymousGroup === 'string' ? raw.anonymousGroup : null`
abbrev string_or_none : Option Json → Option Text
string_or_none (some (string s)) = some s
string_or_none _ = none

abbrev pub assemble :
    Json → Text → List DynsecClient → List DynsecGroup → List DynsecRole → DynsecState
assemble raw now parsed_clients parsed_groups roles = record {
  clients = map (merge_client (group_memberships_by_client parsed_groups)) parsed_clients;
  groups = map (merge_group (client_memberships_by_group parsed_clients)) parsed_groups;
  roles = roles;
  anonymous_group = string_or_none (field (codes "anonymousGroup") raw);
  default_acls = or_else (coalesce (field (codes "defaultACLAccess") raw) none) (object end);
  raw = raw;
  loaded_at = now;
}

-- The state from the three parsed lists.
abbrev pub normalized :
    Json
    → Text
    → Option (List DynsecClient)
    → Option (List DynsecGroup)
    → Option (List DynsecRole)
    → Option DynsecState
normalized raw now none groups roles = none
normalized raw now (some clients) none roles = none
normalized raw now (some clients) (some groups) none = none
normalized raw now (some clients) (some groups) (some roles) =
    some (assemble raw now clients groups roles)

module _ (host : Host) where
  unfoldable pub parsed_clients : Json → Option (List DynsecClient)
  unfolding field parse_named parse_client
  parsed_clients raw =
      parse_named (parse_client host) (λ c. c.username) (field (codes "clients") raw)

  unfoldable pub parsed_groups : Json → Option (List DynsecGroup)
  unfolding field parse_named parse_group
  parsed_groups raw = parse_named (parse_group host) (λ g. g.groupname) (field (codes "groups") raw)

  unfoldable pub parsed_roles : Json → Option (List DynsecRole)
  unfolding field parse_named parse_role
  parsed_roles raw = parse_named (parse_role host) (λ r. r.rolename) (field (codes "roles") raw)

  unfoldable pub normalize_state : Text → Json → Option DynsecState
  unfolding parsed_clients parsed_groups parsed_roles
  normalize_state now null = none
  normalize_state now raw =
      normalized raw now (parsed_clients raw) (parsed_groups raw) (parsed_roles raw)
