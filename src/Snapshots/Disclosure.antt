-- ===== src/Snapshots/Disclosure.antt =====
-- What an export holds of passwords.
use mqttctl.Prelude.{
  any, false, ℕ, ◌≡◌, refl, ap, Text, codes, ◌==◌, Option, none, some, List, [], ◌∷◌, map,
}
use mqttctl.Prelude.Json.{Json, Entries, string, array, item, end, entry, object}
use mqttctl.Auth.{StoredUser}
use mqttctl.Dynsec.{DynsecState}
use mqttctl.Dynsec.Parse.{Host, field, lookup_entry}
use mqttctl.Dynsec.State.{normalize_state}
use mqttctl.Dynsec.State.Memberships.{normalize_state-IsAssembled}
use mqttctl.Snapshots.Written.{state_json, user_json, array_of}
use mqttctl.Snapshots.{
  SnapshotKind, dynsec, broker_config, combined, SnapshotExport, SnapshotRow, Sources, Drawn,
  Result, ok, err, export_data, config_entry, export_snapshot, keep_export, create_snapshot,
}

abbrev pub without_password : StoredUser → StoredUser
without_password user = record user { password_hash = none }

abbrev pub without_passwords : Sources → Sources
without_passwords sources = record sources { users = map without_password sources.users }

module _ (iso : ℕ → Text) where
  array_of-without_password :
      (users : List StoredUser)
      → array_of (user_json iso) (map without_password users) ≡ array_of (user_json iso) users
  unfolding array_of user_json
  array_of-without_password [] = refl
  array_of-without_password (user ∷ users) =
      ap (item (user_json iso user)) (array_of-without_password users)

  config_entry-without_passwords :
      (kind : SnapshotKind) (state : Result DynsecState) (config : Result Text)
      (users : List StoredUser)
      → let sources : Sources = record { state = state; config = config; users = users } in
        config_entry iso kind (without_passwords sources) ≡ config_entry iso kind sources
  unfolding config_entry
  config_entry-without_passwords dynsec state config users = refl
  config_entry-without_passwords broker_config state (ok text) users = refl
  config_entry-without_passwords broker_config state (err e) users = refl
  config_entry-without_passwords combined state (err e) users = refl
  config_entry-without_passwords combined state (ok text) users =
      ap
        (λ items. ok (
          entry (codes "brokerConfig") (object (entry (codes "current") (string text) end))
            (entry (codes "users") (array items) end)))
        (array_of-without_password users)

  abbrev with_state : DynsecState → Result Entries → Result Entries
  with_state state (err e) = err e
  with_state state (ok rest) = ok (entry (codes "dynsec") (state_json state) rest)

  export_data-without_passwords :
      (kind : SnapshotKind) (state : Result DynsecState) (config : Result Text)
      (users : List StoredUser)
      → let sources : Sources = record { state = state; config = config; users = users } in
        export_data iso kind (without_passwords sources) ≡ export_data iso kind sources
  unfolding export_data config_entry
  export_data-without_passwords dynsec (ok s) config users = refl
  export_data-without_passwords dynsec (err e) config users = refl
  export_data-without_passwords broker_config state config users =
      config_entry-without_passwords broker_config state config users
  export_data-without_passwords combined (err e) config users = refl
  export_data-without_passwords combined (ok s) (err e) users = refl
  export_data-without_passwords combined (ok s) (ok text) users =
      ap (with_state s) (config_entry-without_passwords combined (ok s) (ok text) users)

-- An export, what it answers and what it keeps, is the same whatever the password hashes of the accounts
-- are.
pub export_snapshot-without_passwords :
    (iso : ℕ → Text) (print : Json → Text) (drawn : Drawn) (kind : SnapshotKind)
    (actor_username note : Option Text) (sources : Sources) (rows : List SnapshotRow)
    → export_snapshot iso print drawn kind actor_username note (without_passwords sources) rows
      ≡ export_snapshot iso print drawn kind actor_username note sources rows
unfolding export_snapshot
export_snapshot-without_passwords iso print drawn kind actor remark sources rows =
    ap (λ read. keep_export print drawn kind actor remark read rows)
      (export_data-without_passwords iso kind sources.state sources.config sources.users)

-- What an export holds under `dynsec.raw`.
abbrev pub raw_of : Result SnapshotExport → Option Json
raw_of (err e) = none
raw_of (ok e) = elim (lookup_entry (codes "dynsec") e.contents) [
  | none ↦ none
  | some state ↦ field (codes "raw") state
]

raw-of_state :
    (host : Host) (now : Text) (raw : Json) (s : DynsecState)
    → normalize_state host now raw ≡ some s
    → s.raw ≡ raw
unfolding normalize_state
raw-of_state host now raw s h =
    let (clients, groups, roles, e) = normalize_state-IsAssembled host now raw s h in
    ap (λ s. s.raw) e

-- An export of the kind dynsec whose id is new holds the broker's state as it is read, with all fields of
-- its clients.
pub export_snapshot-raw :
    (host : Host) (now : Text) (iso : ℕ → Text) (print : Json → Text) (drawn : Drawn)
    (actor_username note : Option Text) (sources : Sources) (rows : List SnapshotRow) (raw : Json)
    (s : DynsecState)
    → normalize_state host now raw ≡ some s
    → sources.state ≡ ok s
    → any (λ r. r.id == drawn.id) rows ≡ false
    → raw_of (export_snapshot iso print drawn dynsec actor_username note sources rows).0 ≡ some raw
unfolding export_snapshot keep_export create_snapshot export_data config_entry state_json field
    lookup_entry ◌==◌
export_snapshot-raw host now iso print drawn actor remark sources rows raw s h e free =
    rw (e, free, raw-of_state host now raw s h) refl
