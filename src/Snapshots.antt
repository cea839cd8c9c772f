-- ===== src/Snapshots.antt =====
-- Snapshots: `mqttctl/mqttctl-api/src/lib/server/snapshots/service.ts` and its table in
-- `mqttctl/mqttctl-api/src/lib/server/db/index.ts`.
mod Written
mod Examples
pub mod Import
pub mod Disclosure
use mqttctl.Snapshots.Written.{text_or_null, state_json, user_json, array_of}
use mqttctl.Prelude.{
  ℕ, Text, codes, ◌==◌, ◌++◌, trim, is_empty, Bool, true, false, not, ◌&&◌, ◌||◌, Option, none,
  some, List, [], ◌∷◌, map, find, sort, take, any, is_empty, or_else, same_text, if◌then◌else◌,
}
use mqttctl.Prelude.Int.{ℤ, pos, negsuc}
use mqttctl.Prelude.Json.{
  Json, Items, Entries, null, boolean, number, string, array, object, nil, item, end, entry,
}
use mqttctl.Permissions.{
  PrincipalRole, viewer, operator, security_admin, broker_admin, super_admin, mcp, AuthMethod,
  local, oidc, header, mcp_access,
}
use mqttctl.Auth.{StoredUser}
use mqttctl.Dynsec.{
  DynsecRoleRef, DynsecGroupRef, DynsecClientRef, DynsecAcl, DynsecClient, DynsecGroup, DynsecRole,
  DynsecState,
}
use mqttctl.Dynsec.Parse.{field, truthy}

pub data SnapshotKind : Type 0 where
  dynsec : SnapshotKind
  broker_config : SnapshotKind
  combined : SnapshotKind

abbrev pub kind_name : SnapshotKind → Text
kind_name dynsec = codes "dynsec"
kind_name broker_config = codes "broker-config"
kind_name combined = codes "combined"

-- `snapshotKinds.has(kind)`, with the kind that is meant.
unfoldable pub kind_of : Option Json → Option SnapshotKind
kind_of (some (string name)) =
    if name == codes "dynsec"
    then some dynsec
    else if name == codes "broker-config"
    then some broker_config
    else if name == codes "combined"
    then some combined
    else none
kind_of _ = none

-- The title and the type are the same in all; `contents` is `data`.
pub record SnapshotExport : Type 0 where
  pub export_time : Text
  pub build : Text
  pub id : Text
  pub kind : SnapshotKind
  pub note : Option Text
  pub contents : Entries

-- The envelope as JSON.
unfoldable pub snapshot_json : SnapshotExport → Json
snapshot_json e = object (
    entry (codes "title") (string (codes "MQTTCTL")) (
      entry (codes "type") (string (codes "snapshot")) (
        entry (codes "exportTime") (string e.export_time) (
          entry (codes "build") (string e.build) (
            entry (codes "snapshot")
              (object (
                entry (codes "id") (string e.id) (
                  entry (codes "kind") (string (kind_name e.kind))
                    (entry (codes "note") (text_or_null e.note) end))))
              (entry (codes "data") (object e.contents) end))))))

-- A row of the table.
pub record SnapshotRow : Type 0 where
  pub id : Text
  pub kind : SnapshotKind
  pub created_at : Text
  pub actor_username : Option Text
  pub note : Option Text
  pub payload_json : Text

-- The INSERT, which the primary key guards.
unfoldable pub create_snapshot : SnapshotRow → List SnapshotRow → Option (List SnapshotRow)
create_snapshot row rows = if any (λ r. r.id == row.id) rows then none else some (rows ++ row ∷ [])

-- A row without its payload.
pub record SnapshotRecord : Type 0 where
  pub id : Text
  pub kind : SnapshotKind
  pub created_at : Text
  pub actor_username : Option Text
  pub note : Option Text

abbrev record_of_row : SnapshotRow → SnapshotRecord
record_of_row row = record {
  id = row.id;
  kind = row.kind;
  created_at = row.created_at;
  actor_username = row.actor_username;
  note = row.note;
}

-- `not_after a b` is the database's order of texts.
unfoldable pub list_snapshots : (Text → Text → Bool) → ℕ → List SnapshotRow → List SnapshotRecord
list_snapshots not_after limit rows =
    map record_of_row (take limit (sort (λ l r. not_after r.created_at l.created_at) rows))

-- `parseJsonSafe` with null as its fallback; `parse` is `JSON.parse`, none where it throws.
unfoldable pub parse_json_safe : (Text → Option Json) → Text → Option Json
parse_json_safe parse text = if is_empty text then none else parse text

unfoldable pub get_snapshot_payload : (Text → Option Json) → Text → List SnapshotRow → Option Json
unfolding parse_json_safe
get_snapshot_payload parse id rows = elim (find (λ row. row.id == id) rows) [
  | none ↦ none
  | some row ↦ parse_json_safe parse row.payload_json
]

-- What is thrown: the refusal of an import by its reason, or an exception of a service.
pub data SnapshotError : Type 0 where
  import_invalid : Text → SnapshotError
  service_failed : SnapshotError

pub data Result (A : Type 0) : Type 0 where
  ok : A → Result A
  err : SnapshotError → Result A

-- What an export reads: the answers of `readState` and `readCurrentBrokerConfig`, and `listUsers`.
pub record Sources : Type 0 where
  pub state : Result DynsecState
  pub config : Result Text
  pub users : List StoredUser

abbrev reads_dynsec : SnapshotKind → Bool
reads_dynsec broker_config = false
reads_dynsec _ = true

abbrev reads_config : SnapshotKind → Bool
reads_config dynsec = false
reads_config _ = true

-- What an export is given besides: a fresh token, the time, the build's label.
pub record Drawn : Type 0 where
  pub id : Text
  pub export_time : Text
  pub build : Text

module _ (iso : ℕ → Text) where
  abbrev users_entry : SnapshotKind → Sources → Entries
  users_entry combined sources =
      entry (codes "users") (array (array_of (user_json iso) sources.users)) end
  users_entry _ sources = end

  unfoldable pub config_entry : SnapshotKind → Sources → Result Entries
  config_entry kind sources =
      if reads_config kind
      then elim sources.config [
        | err e ↦ err e
        | ok text ↦ ok (
            entry (codes "brokerConfig") (object (entry (codes "current") (string text) end))
              (users_entry kind sources))
      ]
      else ok (users_entry kind sources)

  -- `data`, or the first exception.
  unfoldable pub export_data : SnapshotKind → Sources → Result Entries
  unfolding config_entry
  export_data kind sources =
      if reads_dynsec kind
      then elim sources.state [
        | err e ↦ err e
        | ok state ↦ elim (config_entry kind sources) [
          | err e ↦ err e
          | ok rest ↦ ok (entry (codes "dynsec") (state_json state) rest)
        ]
      ]
      else config_entry kind sources

-- What is answered once the row is inserted, or could not be.
abbrev pub kept_in :
    SnapshotExport
    → List SnapshotRow
    → Option (List SnapshotRow)
    → Result SnapshotExport × List SnapshotRow
kept_in snapshot rows none = (err service_failed, rows)
kept_in snapshot rows (some kept) = (ok snapshot, kept)

abbrev pub snapshot_of : Drawn → SnapshotKind → Option Text → Entries → SnapshotExport
snapshot_of drawn kind remark contents = record {
  export_time = drawn.export_time;
  build = drawn.build;
  id = drawn.id;
  kind = kind;
  note = remark;
  contents = contents;
}

-- `print` is `JSON.stringify`.
module _ (print : Json → Text) where
  abbrev pub row_of :
      Drawn → SnapshotKind → Option Text → Option Text → SnapshotExport → SnapshotRow
  row_of drawn kind actor_username remark snapshot = record {
    id = drawn.id;
    kind = kind;
    created_at = drawn.export_time;
    actor_username = actor_username;
    note = remark;
    payload_json = print (snapshot_json snapshot);
  }

  -- The snapshot and the row that keeps it, or the exception before anything is kept.
  unfoldable pub keep_export :
      Drawn
      → SnapshotKind
      → Option Text
      → Option Text
      → Result Entries
      → List SnapshotRow
      → Result SnapshotExport × List SnapshotRow
  unfolding snapshot_json create_snapshot
  keep_export drawn kind actor_username remark (err e) rows = (err e, rows)
  keep_export drawn kind actor_username remark (ok contents) rows =
      let snapshot = snapshot_of drawn kind remark contents in
      kept_in snapshot rows
        (create_snapshot (row_of drawn kind actor_username remark snapshot) rows)

module _ (iso : ℕ → Text) (print : Json → Text) where
  unfoldable pub export_snapshot :
      Drawn
      → SnapshotKind
      → Option Text
      → Option Text
      → Sources
      → List SnapshotRow
      → Result SnapshotExport × List SnapshotRow
  unfolding export_data keep_export
  export_snapshot drawn kind actor_username remark sources rows =
      keep_export print drawn kind actor_username remark (export_data iso kind sources) rows
