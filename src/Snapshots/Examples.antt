-- ===== src/Snapshots/Examples.antt =====
-- A combined snapshot of a small broker.
use mqttctl.Prelude.{
  if◌then◌else◌, any, false, ℕ, ◌≡◌, refl, Text, codes, ◌==◌, is_empty, trim, Bool, true, false,
  Option, none, some, List, [], ◌∷◌, map,
}
use mqttctl.Prelude.Json.{Json, null, string, array, object, nil, item, end, entry}
use mqttctl.Permissions.{operator, local}
use mqttctl.Auth.{StoredUser}
use mqttctl.Dynsec.{DynsecClient, DynsecState}
use mqttctl.Dynsec.Parse.{Host}
use mqttctl.Dynsec.State.{normalize_state, assemble}
use mqttctl.Snapshots.{
  SnapshotKind, dynsec, combined, SnapshotExport, SnapshotRow, Sources, Drawn, Result, ok, err,
  export_snapshot, keep_export, export_data, snapshot_json, get_snapshot_payload,
}
use mqttctl.Snapshots.Disclosure.{
  raw_of, without_passwords, export_snapshot-without_passwords, export_snapshot-raw,
}
use mqttctl.Snapshots.Import.{parse_snapshot_export, apply_import}
use mqttctl.Snapshots.Import.RoundTrip.{
  apply_import-export, IsFilled, ReadsBack, imported, preview_of,
}

abbrev host : Host
host = record {
  number_of_text = λ s. none;
  text_of_number = λ n. codes "0";
  property_of_null = codes "null";
}

-- A client with a password hash, as the broker stores it.
abbrev raw : Json
raw = object (
    entry (codes "clients")
      (array (
        item
          (object (
            entry (codes "username") (string (codes "c"))
              (entry (codes "password") (string (codes "c2FsdGVkIGhhc2g=")) end)))
          nil))
      end)

abbrev client : DynsecClient
client = record {
  username = codes "c";
  clientid = null;
  textname = null;
  textdescription = null;
  disabled = false;
  roles = [];
  groups = [];
}

abbrev state : DynsecState
state = assemble raw (codes "2026-01-01") (client ∷ []) [] []

state_read : normalize_state host (codes "2026-01-01") raw ≡ some state
unfolding normalize_state ◌==◌ mqttctl.Prelude.filter is_empty mqttctl.Prelude.sort
state_read = refl

abbrev user : StoredUser
user = record {
  id = codes "u";
  username = codes "ann";
  email = none;
  role = operator;
  auth_source = local;
  external_subject = none;
  password_hash = some (codes "hash");
  protected_from_auto_link = false;
  disabled = false;
  session_version = 1;
  created_at = 1;
  updated_at = 2;
}

abbrev sources : Sources
sources = record { state = ok state; config = ok (codes "listener 1883"); users = user ∷ [] }

abbrev drawn : Drawn
drawn = record { id = codes "s1"; export_time = codes "2026-01-01"; build = codes "b" }

abbrev no_text : ℕ → Text
no_text n = []

abbrev taken : Text → Bool
taken text = true

-- The text of the one value that is written, and its value.
abbrev printed : Json → Text
printed value = codes "{}"

abbrev outcome : SnapshotKind → Result SnapshotExport × List SnapshotRow
outcome kind = export_snapshot no_text printed drawn kind none (some (codes "weekly")) sources []

abbrev snapshot : SnapshotExport
snapshot = elim (export_data no_text combined sources) [
  | err e ↦ record {
    export_time = [];
    build = [];
    id = [];
    kind = combined;
    note = none;
    contents = end;
  }
  | ok contents ↦ record {
    export_time = codes "2026-01-01";
    build = codes "b";
    id = codes "s1";
    kind = combined;
    note = some (codes "weekly");
    contents = contents;
  }
]

abbrev parsed : Text → Option Json
parsed text = if text == codes "{}" then some (snapshot_json snapshot) else none

id-IsFilled : IsFilled (codes "s1")
unfolding is_empty trim
id-IsFilled = refl

time-IsFilled : IsFilled (codes "2026-01-01")
unfolding is_empty trim
time-IsFilled = refl

build-IsFilled : IsFilled (codes "b")
unfolding is_empty trim
build-IsFilled = refl

read_back : ReadsBack printed parsed (snapshot_json snapshot)
unfolding is_empty ◌==◌
read_back = (refl, refl)

exported : (outcome combined).0 ≡ ok snapshot
unfolding export_snapshot keep_export export_data mqttctl.Prelude.any
exported = refl

apply_import-export_example :
    (get_snapshot_payload parsed (codes "s1") (outcome combined).1 ≡ some (snapshot_json snapshot))
    × (parse_snapshot_export (snapshot_json snapshot) ≡ ok snapshot)
    × (apply_import taken (snapshot_json snapshot) []
        ≡ imported taken (preview_of snapshot combined) (some (codes "listener 1883")) [])
apply_import-export_example =
    apply_import-export no_text printed parsed drawn combined none (some (codes "weekly")) sources
      [] taken [] snapshot id-IsFilled time-IsFilled build-IsFilled read_back exported

export_snapshot-without_passwords_example :
    export_snapshot no_text printed drawn combined none none (without_passwords sources) []
    ≡ export_snapshot no_text printed drawn combined none none sources []
export_snapshot-without_passwords_example =
    export_snapshot-without_passwords no_text printed drawn combined none none sources []

no_row : any (λ (r : SnapshotRow). r.id == codes "s1") [] ≡ false
unfolding any
no_row = refl

export_snapshot-raw_example : raw_of (outcome dynsec).0 ≡ some raw
export_snapshot-raw_example =
    export_snapshot-raw host (codes "2026-01-01") no_text printed drawn none (some (codes "weekly"))
      sources [] raw state state_read refl no_row
