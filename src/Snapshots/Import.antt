-- ===== src/Snapshots/Import.antt =====
-- `parseSnapshotExport`, `previewImport` and `applyImport` of
-- `mqttctl/mqttctl-api/src/lib/server/snapshots/service.ts`.
pub mod RoundTrip
use mqttctl.Prelude.{
  Text, codes, ◌==◌, ◌++◌, trim, is_empty, Bool, true, false, not, ◌&&◌, ◌||◌, Option, none, some,
  List, [], ◌∷◌, if◌then◌else◌,
}
use mqttctl.Prelude.Json.{
  Json, Items, Entries, null, boolean, number, string, array, object, nil, item, end, entry,
}
use mqttctl.Dynsec.Parse.{field, lookup_entry, truthy}
use mqttctl.Snapshots.{
  SnapshotKind, kind_of, kind_name, SnapshotExport, SnapshotError, import_invalid, service_failed,
  Result, ok, err,
}

-- `isRecord(value)`, with its entries.
abbrev pub record_of : Option Json → Option Entries
record_of (some (object entries)) = some entries
record_of _ = none

-- `typeof value === 'string' && value.trim()`
abbrev pub filled : Option Json → Option Text
filled (some (string text)) = if is_empty (trim text) then none else some text
filled _ = none

-- `value === text`
abbrev pub is_text : Text → Option Json → Bool
is_text text (some (string s)) = s == text
is_text text _ = false

-- A note, `none` where it is neither null nor missing nor a string.
abbrev pub note_of : Option Json → Option (Option Text)
note_of none = some none
note_of (some null) = some none
note_of (some (string text)) = some (some text)
note_of _ = none

-- `a`, or the refusal with this reason.
abbrev pub required : {A : Type 0} → Text → Option A → Result A
required reason none = err (import_invalid reason)
required reason (some a) = ok a

infixl 10 ◌>>=◌
abbrev pub ◌>>=◌ : {A B : Type 0} → Result A → (A → Result B) → Result B
ok a >>= f = f a
err e >>= f = err e

abbrev pub envelope : Entries → Option Entries
envelope payload =
    if is_text (codes "MQTTCTL") (lookup_entry (codes "title") payload)
      && is_text (codes "snapshot") (lookup_entry (codes "type") payload)
    then some payload
    else none

unfoldable pub parse_snapshot_export : Json → Result SnapshotExport
unfolding lookup_entry kind_of
parse_snapshot_export value = do
  payload ← required (codes "Snapshot payload must be an object.") (record_of (some value))
  checked ←
      required (codes "Snapshot payload must include the MQTTCTL snapshot export envelope.")
        (envelope payload)
  export_time ←
      required (codes "Snapshot export must include a non-empty export timestamp.")
        (filled (lookup_entry (codes "exportTime") payload))
  build ←
      required (codes "Snapshot export must include a non-empty build label.")
        (filled (lookup_entry (codes "build") payload))
  snapshot ←
      required (codes "Snapshot export must include snapshot metadata.")
        (record_of (lookup_entry (codes "snapshot") payload))
  id ←
      required (codes "Snapshot export must include a non-empty snapshot id.")
        (filled (lookup_entry (codes "id") snapshot))
  kind ←
      required (codes "Snapshot export must include a valid snapshot kind.")
        (kind_of (lookup_entry (codes "kind") snapshot))
  contents ←
      required (codes "Snapshot export must include a data object.")
        (record_of (lookup_entry (codes "data") payload))
  remark ←
      required (codes "Snapshot export note must be null or a string.")
        (note_of (lookup_entry (codes "note") snapshot))
  ok (record {
    export_time = export_time;
    build = build;
    id = id;
    kind = kind;
    note = remark;
    contents = contents;
  })

abbrev pub keys : Entries → List Text
keys end = []
keys (entry key value entries) = key ∷ keys entries

pub record Preview : Type 0 where
  pub metadata : SnapshotExport
  pub data_keys : List Text
  pub has_dynsec : Bool

-- Whether `data.dynsec` is there and truthy.
abbrev pub holds_dynsec : Option Json → Bool
holds_dynsec none = false
holds_dynsec (some value) = truthy value

unfoldable pub preview_import : Json → Result Preview
unfolding parse_snapshot_export truthy
preview_import payload = do
  snapshot ← parse_snapshot_export payload
  ok (record {
    metadata = snapshot;
    data_keys = keys snapshot.contents;
    has_dynsec = holds_dynsec (lookup_entry (codes "dynsec") snapshot.contents);
  })

-- The text of `data.brokerConfig?.current` where it is one.
unfoldable pub config_text : Entries → Option Text
unfolding field lookup_entry
config_text contents = elim (lookup_entry (codes "brokerConfig") contents) [
  | none ↦ none
  | some value ↦ elim (field (codes "current") value) [ some (string text) ↦ some text | _ ↦ none ]
]

-- What an import comes to: its preview, and whether a config was pushed.
pub record Imported : Type 0 where
  pub preview : Preview
  pub pushed : Bool

-- `push` is `pushBrokerConfig`'s answer, false where it throws; the texts that were pushed are added
-- at the end.
module _ (push : Text → Bool) where
  unfoldable pub push_config : Option Text → List Text → Result Bool × List Text
  push_config none pushes = (ok false, pushes)
  push_config (some text) pushes =
      (if push text then ok true else err service_failed, pushes ++ text ∷ [])

  unfoldable pub apply_import : Json → List Text → Result Imported × List Text
  unfolding preview_import parse_snapshot_export config_text push_config
  apply_import payload pushes = elim (preview_import payload) [
    | err e ↦ (err e, pushes)
    | ok preview ↦ elim (parse_snapshot_export payload) [
      | err e ↦ (err e, pushes)
      | ok snapshot ↦
          let (pushed, pushes') = push_config (config_text snapshot.contents) pushes in
          (pushed >>= (λ b. ok (record { preview = preview; pushed = b })), pushes')
    ]
  ]
