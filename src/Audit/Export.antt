-- ===== src/Audit/Export.antt =====
-- Pages and exports of the audit log: `listAuditEntries` and `mapAuditEntryRow` of
-- mqttctl/mqttctl-api/src/lib/server/db/index.ts, `listEntries` and `toAuditExportEntry` of
-- mqttctl/mqttctl-api/src/lib/server/audit/service.ts.
use mathlib.Core.List.{reverse, append-nil, map-append, map-map, reverse-reverse}
use mqttctl.Prelude.{
  ℕ, ◌+◌, ◌≡◌, refl, sym, ◌∙◌, ap, Text, codes, is_empty, same_text_iff, Bool, true, false, Option,
  none, some, List, [], ◌∷◌, ◌++◌, map, length, length-map, length-append, length-reverse,
  length-sort, take, drop, map-reverse, sort, take-append-drop, ltb, or_else, arith, if◌then◌else◌,
}
use mqttctl.Prelude.Int.{ℤ, pos, negsuc}
use mqttctl.Prelude.Json.{Json}
use mqttctl.Audit.{
  Engine, AuditRow, HashPayload, to_audit_sequence_number, parse_audit_summary_json,
  build_audit_hash_payload, compute_audit_entry_hash, ascending, links, verify_rows,
  verify_audit_integrity,
}

pub record AuditEntry : Type 0 where
  pub id : Text
  pub sequence_number : ℤ
  pub timestamp : Text
  pub actor_username : Option Text
  pub actor_user_id : Option Text
  pub auth_mode : Option Text
  pub source_ip : Option Text
  pub correlation_id : Text
  pub action : Text
  pub target_type : Text
  pub target_id : Option Text
  pub before_summary : Json
  pub after_summary : Json
  pub command_result : Json
  pub previous_entry_hash : Option Text
  pub entry_hash : Text
  pub success : Bool

-- The values of the selector for the length of a page.
pub data AuditEntryLimitValue : Type 0 where
  ten twenty fifty hundred all : AuditEntryLimitValue

unfoldable pub resolve_audit_entry_limit : AuditEntryLimitValue → Option ℕ
resolve_audit_entry_limit ten = some 10
resolve_audit_entry_limit twenty = some 20
resolve_audit_entry_limit fifty = some 50
resolve_audit_entry_limit hundred = some 100
resolve_audit_entry_limit all = none

unfoldable pub build_audit_index_filter : AuditEntryLimitValue → ℤ × ℤ
unfolding resolve_audit_entry_limit
build_audit_index_filter value =
    (pos 0, elim (resolve_audit_entry_limit value) [ none ↦ negsuc 0 | some n ↦ pos n ])

pub record AuditEntriesPage : Type 0 where
  pub limit_value : AuditEntryLimitValue
  pub total_entries : ℕ
  pub has_more : Bool
  pub indexes : ℤ × ℤ
  pub entries : List AuditEntry

-- `LIMIT ?`, or no such clause.
unfoldable pub limited : Option ℕ → List AuditRow → List AuditRow
limited none rows = rows
limited (some n) rows = take n rows

module _ (e : Engine) where
  unfoldable pub map_audit_entry_row : AuditRow → AuditEntry
  unfolding to_audit_sequence_number parse_audit_summary_json
  map_audit_entry_row row = record {
    id = row.id;
    sequence_number = to_audit_sequence_number (some row.sequence_number) (negsuc 0);
    timestamp = row.timestamp;
    actor_username = row.actor_username;
    actor_user_id = row.actor_user_id;
    auth_mode = row.auth_mode;
    source_ip = row.source_ip;
    correlation_id = row.correlation_id;
    action = row.action;
    target_type = row.target_type;
    target_id = row.target_id;
    before_summary = parse_audit_summary_json e row.before_summary;
    after_summary = parse_audit_summary_json e row.after_summary;
    command_result = parse_audit_summary_json e row.command_result;
    previous_entry_hash = row.previous_entry_hash;
    entry_hash = or_else row.entry_hash [];
    success = row.success;
  }

  -- `ORDER BY sequence_number DESC, timestamp DESC, id DESC` is the ascending order reversed.
  unfoldable pub list_audit_entries : Option ℕ → List AuditRow → List AuditEntry
  unfolding ascending limited map_audit_entry_row
  list_audit_entries limit rows =
      map map_audit_entry_row (limited limit (reverse (ascending e rows)))

  unfoldable pub list_entries : AuditEntryLimitValue → List AuditRow → AuditEntriesPage
  unfolding list_audit_entries resolve_audit_entry_limit build_audit_index_filter
  list_entries value rows =
      let limit = resolve_audit_entry_limit value in
      let entries = list_audit_entries limit rows in
      record {
        limit_value = value;
        total_entries = length rows;
        has_more = elim limit [ none ↦ false | some n ↦ ltb (length entries) (length rows) ];
        indexes = build_audit_index_filter value;
        entries = entries;
      }

-- The keys of an exported entry are those of the hashed object, in the same order.
unfoldable pub to_audit_export_entry : AuditEntry → HashPayload
to_audit_export_entry entry = record {
  time = entry.timestamp;
  author = or_else entry.actor_username (codes "System");
  author_user_id = entry.actor_user_id;
  auth = or_else entry.auth_mode (codes "N/A");
  ip = or_else entry.source_ip (codes "N/A");
  action = entry.action;
  target_type = entry.target_type;
  target_id = entry.target_id;
  target = elim entry.target_id [
    | none ↦ entry.target_type
    | some t ↦ if is_empty t then entry.target_type else entry.target_type ++ codes ": " ++ t
  ];
  result = if entry.success then codes "success" else codes "failed";
  correlation = entry.correlation_id;
  before = entry.before_summary;
  after = entry.after_summary;
  command_result = entry.command_result;
  previous_hash = entry.previous_entry_hash;
}

module _ (e : Engine) where
  -- The check that a reader of an export can make alone: each entry names the digest of the one
  -- before it, and `latest` is the digest of the last.
  abbrev pub ExportChecks : Option Text → List HashPayload → Option Text → Type 0
  ExportChecks previous [] latest = previous ≡ latest
  ExportChecks previous (p ∷ ps) latest =
      (p.previous_hash ≡ previous) × ExportChecks (some (e.digest p)) ps latest

  abbrev pub exported : AuditRow → HashPayload
  exported row = to_audit_export_entry (map_audit_entry_row e row)

  -- What is exported of a row is the very object that was hashed.
  exported_lem :
      (row : AuditRow)
      → exported row ≡ build_audit_hash_payload e row.fields row.previous_entry_hash
  unfolding to_audit_export_entry map_audit_entry_row build_audit_hash_payload
  exported_lem row = ground arith

  exported_previous : (row : AuditRow) → (exported row).previous_hash ≡ row.previous_entry_hash
  unfolding to_audit_export_entry map_audit_entry_row
  exported_previous row = refl

  exported_row :
      (i : ℕ) (previous : Option Text) (row : AuditRow) (rows : List AuditRow)
      → (verify_rows e i previous (row ∷ rows)).verified ≡ true
      → ((exported row).previous_hash ≡ previous)
        × (e.digest (exported row) ≡ compute_audit_entry_hash e row.fields previous)
        × (verify_rows e i previous (row ∷ rows)
            ≡ verify_rows e (i + 1) (some (compute_audit_entry_hash e row.fields previous)) rows)
  unfolding verify_rows links compute_audit_entry_hash
  exported_row i previous row rows h =
      let claimed : row.previous_entry_hash ≡ previous =
        ground (arith, same_text_iff row.previous_entry_hash previous) in
      (
        exported_previous row ∙ claimed,
        ap e.digest (exported_lem row)
            ∙ ap (λ p. e.digest (build_audit_hash_payload e row.fields p)) claimed,
        ground arith,
      )

  export_of_verified :
      (i : ℕ) (previous : Option Text) (rows : List AuditRow)
      → (verify_rows e i previous rows).verified ≡ true
      → ExportChecks previous (map exported rows) (verify_rows e i previous rows).latest_hash
  unfolding verify_rows
  export_of_verified i previous [] h = refl
  export_of_verified i previous (row ∷ rows) h =
      let (named, digested, rest) = exported_row i previous row rows h in
      let hash = some (compute_audit_entry_hash e row.fields previous) in
      let tail = export_of_verified (i + 1) hash rows (rw rest at h) in
      (named, rw (digested, rest) tail)

  map-reverse-map {ℓ} :
      {A B C : Type ℓ} (g : B → C) (f : A → B) (xs : List A)
      → reverse (map g (map f (reverse xs))) ≡ map (λ x. g (f x)) xs
  map-reverse-map g f xs =
      ap reverse (map-map g f (reverse xs) ∙ map-reverse (λ x. g (f x)) xs)
      ∙ reverse-reverse (map (λ x. g (f x)) xs)

  length_of_listed :
      (rows : List AuditRow)
      → length (map (map_audit_entry_row e) (reverse (ascending e rows))) ≡ length rows
  unfolding ascending
  length_of_listed rows =
      length-map (map_audit_entry_row e) (reverse (sort e.by_sequence rows))
      ∙ length-reverse (sort e.by_sequence rows)
      ∙ length-sort e.by_sequence rows

  -- A reader of a complete export of a log that the check accepts can check it alone: each entry,
  -- from the oldest on, names the digest of the one before it, the first names none, and the digest
  -- of the last is the hash that the check reports.
  pub export_checks :
      (rows : List AuditRow)
      → (verify_audit_integrity e rows).verified ≡ true
      → ExportChecks none
          (reverse (map to_audit_export_entry (list_entries e all rows).entries))
          (verify_audit_integrity e rows).latest_hash
  unfolding verify_audit_integrity list_entries list_audit_entries limited
  export_checks rows h =
      rw (map-reverse-map to_audit_export_entry (map_audit_entry_row e) (ascending e rows))
        (export_of_verified 0 none (ascending e rows) h)

  -- What a page leaves out.
  abbrev pub left_out : AuditEntryLimitValue → List AuditRow → List AuditEntry
  left_out value rows = elim (resolve_audit_entry_limit value) [
    | none ↦ []
    | some n ↦ map (map_audit_entry_row e) (drop n (reverse (ascending e rows)))
  ]

  abbrev page_of : ℕ → List AuditRow → List AuditEntry
  page_of n rows = map (map_audit_entry_row e) (take n (reverse (ascending e rows)))

  abbrev rest_of : ℕ → List AuditRow → List AuditEntry
  rest_of n rows = map (map_audit_entry_row e) (drop n (reverse (ascending e rows)))

  page_and_rest :
      (n : ℕ) (rows : List AuditRow)
      → page_of n rows ++ rest_of n rows ≡ map (map_audit_entry_row e) (reverse (ascending e rows))
  page_and_rest n rows =
      let newest = reverse (ascending e rows) in
      sym (map-append (map_audit_entry_row e) (take n newest) (drop n newest))
      ∙ ap (map (map_audit_entry_row e)) (take-append-drop n newest)

  limited_page :
      (n : ℕ) (rows : List AuditRow)
      → (page_of n rows ++ rest_of n rows
          ≡ map (map_audit_entry_row e) (reverse (ascending e rows)))
        × (ltb (length (page_of n rows)) (length rows) ≡ ltb 0 (length (rest_of n rows)))
        × (length rows ≡ length (page_of n rows) + length (rest_of n rows))
  limited_page n rows =
      let joined = page_and_rest n rows in
      let parts = length-append (page_of n rows) (rest_of n rows) in
      let total : length rows ≡ length (page_of n rows) + length (rest_of n rows) =
        omega (arith, parts, ap length joined, length_of_listed rows) in
      (joined, rw total (ground arith), total)

  -- A page is a front part of the log, newest entry first; it is as long as the limit unless
  -- nothing is left out; and it says that there is more exactly when something is left out.
  pub list_entries_page :
      (value : AuditEntryLimitValue) (rows : List AuditRow)
      → let page = list_entries e value rows in
        (page.entries ++ left_out value rows
          ≡ map (map_audit_entry_row e) (reverse (ascending e rows)))
        × (page.has_more ≡ ltb 0 (length (left_out value rows)))
        × (page.total_entries ≡ length page.entries + length (left_out value rows))
  unfolding list_entries list_audit_entries limited resolve_audit_entry_limit
  list_entries_page all rows = (append-nil _, refl, omega (arith, length_of_listed rows))
  list_entries_page ten rows = limited_page 10 rows
  list_entries_page twenty rows = limited_page 20 rows
  list_entries_page fifty rows = limited_page 50 rows
  list_entries_page hundred rows = limited_page 100 rows
