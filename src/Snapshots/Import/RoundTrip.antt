-- ===== src/Snapshots/Import/RoundTrip.antt =====
-- What the history and an import read back of an export.
use mqttctl.Prelude.{
  ℕ, ◌≡◌, refl, sym, ap, subst, Text, codes, ◌==◌, eq_iff, ◌++◌, trim, is_empty, Bool, true, false,
  Option, none, some, List, [], ◌∷◌, find, any, inl, inr, Bool-cases, if◌then◌else◌,
}
use mqttctl.Prelude.Json.{Json, Entries, string}
use mqttctl.Auth.{StoredUser}
use mqttctl.Dynsec.{DynsecState}
use mqttctl.Dynsec.Parse.{lookup_entry, truthy}
use mqttctl.Snapshots.Written.{state_json}
use mqttctl.Snapshots.{
  SnapshotKind, dynsec, broker_config, combined, kind_of, kind_name, SnapshotExport, SnapshotRow,
  Sources, Drawn, Result, ok, err, service_failed, snapshot_json, export_data, config_entry,
  export_snapshot, keep_export, snapshot_of, row_of, create_snapshot, get_snapshot_payload,
}
use mqttctl.Snapshots.Import.{
  parse_snapshot_export, preview_import, Preview, keys, holds_dynsec, config_text, push_config,
  apply_import, Imported,
}

-- A label that an import accepts.
abbrev pub IsFilled : Text → Type 0
IsFilled text = is_empty (trim text) ≡ false

kind_of-kind_name : (kind : SnapshotKind) → kind_of (some (string (kind_name kind))) ≡ some kind
unfolding kind_of ◌==◌
kind_of-kind_name dynsec = refl
kind_of-kind_name broker_config = refl
kind_of-kind_name combined = refl

parse-with_note :
    (time build id : Text) (kind : SnapshotKind) (note : Option Text) (contents : Entries)
    → IsFilled time
    → IsFilled build
    → IsFilled id
    → let e : SnapshotExport = record {
      export_time = time;
      build = build;
      id = id;
      kind = kind;
      note = note;
      contents = contents;
    } in
      parse_snapshot_export (snapshot_json e) ≡ ok e
unfolding parse_snapshot_export snapshot_json lookup_entry ◌==◌
parse-with_note time build id kind none contents t b i = rw (t, b, i, kind_of-kind_name kind) refl
parse-with_note time build id kind (some remark) contents t b i =
    rw (t, b, i, kind_of-kind_name kind) refl

-- The config that an export of this kind has read.
abbrev pub config_read : SnapshotKind → Result Text → Option Text
config_read dynsec config = none
config_read _ (ok text) = some text
config_read _ (err e) = none

-- What an export of this kind holds.
abbrev pub parts_of : SnapshotKind → List Text
parts_of dynsec = codes "dynsec" ∷ []
parts_of broker_config = codes "brokerConfig" ∷ []
parts_of combined = codes "dynsec" ∷ codes "brokerConfig" ∷ codes "users" ∷ []

abbrev pub preview_of : SnapshotExport → SnapshotKind → Preview
preview_of e kind = record {
  metadata = e;
  data_keys = parts_of kind;
  has_dynsec = any (λ part. part == codes "dynsec") (parts_of kind);
}

-- An import that shows the preview and pushes the text, where there is one.
abbrev pub imported :
    (Text → Bool) → Preview → Option Text → List Text → Result Imported × List Text
imported push preview none pushes = (ok (record { preview = preview; pushed = false }), pushes)
imported push preview (some text) pushes = (
  if push text then ok (record { preview = preview; pushed = true }) else err service_failed,
  pushes ++ text ∷ [],
)

abbrev texts_of : Result Entries → Option Text
texts_of (ok contents) = config_text contents
texts_of (err e) = none

abbrev keys_of : Result Entries → List Text
keys_of (ok contents) = keys contents
keys_of (err e) = []

abbrev has_state : Result Entries → Bool
has_state (ok contents) = holds_dynsec (lookup_entry (codes "dynsec") contents)
has_state (err e) = false

-- The contents of an export of this kind that has read this config.
record IsExport (kind : SnapshotKind) (text : Option Text) (contents : Entries) : Type 0 where
  pub config : config_text contents ≡ text
  pub parts : keys contents ≡ parts_of kind
  pub state :
      holds_dynsec (lookup_entry (codes "dynsec") contents)
      ≡ any (λ part. part == codes "dynsec") (parts_of kind)

module _ (iso : ℕ → Text) where
  export_data-IsExport :
      (kind : SnapshotKind) (state : Result DynsecState) (config : Result Text)
      (users : List StoredUser) (contents : Entries)
      → export_data iso kind (record { state = state; config = config; users = users })
        ≡ ok contents
      → IsExport kind (config_read kind config) contents
  unfolding export_data config_entry config_text lookup_entry truthy state_json any ◌==◌
  export_data-IsExport dynsec (ok s) c u contents h = record {
    config = ap texts_of (sym h);
    parts = ap keys_of (sym h);
    state = ap has_state (sym h);
  }
  export_data-IsExport dynsec (err e) c u contents h = cc
  export_data-IsExport broker_config s (ok text) u contents h = record {
    config = ap texts_of (sym h);
    parts = ap keys_of (sym h);
    state = ap has_state (sym h);
  }
  export_data-IsExport broker_config s (err e) u contents h = cc
  export_data-IsExport combined (ok s) (ok text) u contents h = record {
    config = ap texts_of (sym h);
    parts = ap keys_of (sym h);
    state = ap has_state (sym h);
  }
  export_data-IsExport combined (ok s) (err e) u contents h = cc
  export_data-IsExport combined (err e) c u contents h = cc

find-last :
    (id : Text) (rows : List SnapshotRow) (row : SnapshotRow)
    → row.id ≡ id
    → any (λ r. r.id == id) rows ≡ false
    → find (λ r. r.id == id) (rows ++ row ∷ []) ≡ some row
unfolding find any
find-last id [] row e h = rw ((eq_iff row.id id).1 e, find) refl
find-last id (r ∷ rows) row e h = elim (Bool-cases (r.id == id)) [
  | inl hit ↦ cc (rw (hit, any) at h)
  | inr miss ↦ rw (miss, find) (find-last id rows row e (rw (miss, any) at h))
]

apply-parsed :
    (push : Text → Bool) (payload : Json) (snapshot : SnapshotExport) (kind : SnapshotKind)
    (text : Option Text) (pushes : List Text)
    → parse_snapshot_export payload ≡ ok snapshot
    → IsExport kind text snapshot.contents
    → apply_import push payload pushes ≡ imported push (preview_of snapshot kind) text pushes
unfolding apply_import preview_import push_config
apply-parsed push payload snapshot kind none pushes e x =
    rw (e, apply_import, preview_import, e, x.config, x.parts, x.state) refl
apply-parsed push payload snapshot kind (some text) pushes e x =
    rw (e, apply_import, preview_import, e, x.config, x.parts, x.state)
      (elim (Bool-cases (push text)) [ inl t ↦ rw t refl | inr f ↦ rw f refl ])

-- `JSON.parse` reads back what `JSON.stringify` has written of this value, which is not empty.
abbrev pub ReadsBack : (Json → Text) → (Text → Option Json) → Json → Type 0
ReadsBack print parse value = (is_empty (print value) ≡ false) × (parse (print value) ≡ some value)

-- What holds of an export that was kept in `rows`.
abbrev IsBack :
    (Text → Option Json)
    → Text
    → (Text → Bool)
    → List Text
    → SnapshotKind
    → Option Text
    → SnapshotExport
    → List SnapshotRow
    → Type 0
IsBack parse id push pushes kind text e rows =
    (get_snapshot_payload parse id rows ≡ some (snapshot_json e))
    × (parse_snapshot_export (snapshot_json e) ≡ ok e)
    × (apply_import push (snapshot_json e) pushes ≡ imported push (preview_of e kind) text pushes)

module _ (print : Json → Text) (parse : Text → Option Json) (drawn : Drawn) (kind : SnapshotKind)
    (actor_username remark : Option Text) (rows : List SnapshotRow) (push : Text → Bool)
    (pushes : List Text) (text : Option Text) (i : IsFilled drawn.id)
    (t : IsFilled drawn.export_time) (b : IsFilled drawn.build) where
  abbrev AllBack : Result SnapshotExport × List SnapshotRow → Type 0
  AllBack (err e, rows) = Unit
  AllBack (ok e, rows) =
      ReadsBack print parse (snapshot_json e) → IsBack parse drawn.id push pushes kind text e rows

  keep_export-AllBack :
      (read : Result Entries)
      → ((contents : Entries) → read ≡ ok contents → IsExport kind text contents)
      → AllBack (keep_export print drawn kind actor_username remark read rows)
  unfolding keep_export create_snapshot get_snapshot_payload
  keep_export-AllBack (err e) same = tt
  keep_export-AllBack (ok contents) same =
      let snapshot = snapshot_of drawn kind remark contents in
      elim (Bool-cases (any (λ r. r.id == drawn.id) rows)) [
        | inl taken ↦ rw (taken, keep_export, create_snapshot) tt
        | inr free ↦
            rw (free, keep_export, create_snapshot)
              (λ back.
                let parsed =
                  parse-with_note drawn.export_time drawn.build drawn.id kind remark contents t b
                    i in
                (
                  rw
                      (
                        find-last drawn.id rows
                            (row_of print drawn kind actor_username remark snapshot) refl free,
                        get_snapshot_payload,
                        back.0,
                      )
                      back.1,
                  parsed,
                  apply-parsed push (snapshot_json snapshot) snapshot kind text pushes parsed
                      (same contents refl),
                ))
      ]

-- An export that returns is read back from the history and is accepted as an import. Its preview names
-- the parts that were read, and applying it pushes the broker config that the export has read, once, if
-- it has read one, and nothing else.
pub apply_import-export :
    (iso : ℕ → Text) (print : Json → Text) (parse : Text → Option Json) (drawn : Drawn)
    (kind : SnapshotKind) (actor_username note : Option Text) (sources : Sources)
    (rows : List SnapshotRow) (push : Text → Bool) (pushes : List Text) (e : SnapshotExport)
    → IsFilled drawn.id
    → IsFilled drawn.export_time
    → IsFilled drawn.build
    → ReadsBack print parse (snapshot_json e)
    → (export_snapshot iso print drawn kind actor_username note sources rows).0 ≡ ok e
    → (get_snapshot_payload parse drawn.id
          (export_snapshot iso print drawn kind actor_username note sources rows).1
        ≡ some (snapshot_json e))
      × (parse_snapshot_export (snapshot_json e) ≡ ok e)
      × (apply_import push (snapshot_json e) pushes
          ≡ imported push (preview_of e kind) (config_read kind sources.config) pushes)
unfolding export_snapshot
apply_import-export iso print parse drawn kind actor remark sources rows push pushes e i t b back
      h =
    let text = config_read kind sources.config in
    let kept = keep_export print drawn kind actor remark (export_data iso kind sources) rows in
    let all =
      keep_export-AllBack print parse drawn kind actor remark rows push pushes text i t b
        (export_data iso kind sources)
        (export_data-IsExport iso kind sources.state sources.config sources.users) in
    subst (λ r. AllBack print parse drawn kind actor remark rows push pushes text i t b (r, kept.1))
      h all back
