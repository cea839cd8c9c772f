-- ===== src/Audit.antt =====
-- The audit log: the table `audit_log` and its hash chain in
-- mqttctl/mqttctl-api/src/lib/server/db/index.ts, and the queue of writes in
-- mqttctl/mqttctl-api/src/lib/server/audit/service.ts.
pub mod Chain
pub mod Tamper
pub mod Rechain
pub mod Redaction
pub mod Export
mod Examples
use mqttctl.Prelude.{
  ℕ, ◌+◌, Text, codes, ◌==◌, same_text, is_empty, Bool, true, false, ◌&&◌, Option, none, some, List,
  [], ◌∷◌, ◌++◌, map, any, get_last?, or_else, sort, if◌then◌else◌,
}
use mqttctl.Prelude.Int.{ℤ, pos, negsuc, eq_ℤ, suc_ℤ}
use mqttctl.Prelude.Json.{Json, null}

-- The fields of an entry that its hash covers. The summaries are JSON texts, or `null`.
pub record AuditFields : Type 0 where
  pub timestamp : Text
  pub actor_username : Option Text
  pub actor_user_id : Option Text
  pub auth_mode : Option Text
  pub source_ip : Option Text
  pub correlation_id : Text
  pub action : Text
  pub target_type : Text
  pub target_id : Option Text
  pub before_summary : Option Text
  pub after_summary : Option Text
  pub command_result : Option Text
  pub success : Bool

-- A row of `audit_log`. The last three columns but one may be NULL in rows older than the chain.
pub record AuditRow : Type 0 where
  pub id : Text
  pub sequence_number : Option ℤ
  pub fields : AuditFields
  pub open fields use *
  pub previous_entry_hash : Option Text
  pub entry_hash : Option Text

-- The object whose JSON text is hashed.
pub record HashPayload : Type 0 where
  pub time : Text
  pub author : Text
  pub author_user_id : Option Text
  pub auth : Text
  pub ip : Text
  pub action : Text
  pub target_type : Text
  pub target_id : Option Text
  pub target : Text
  pub result : Text
  pub correlation : Text
  pub before : Json
  pub after : Json
  pub command_result : Json
  pub previous_hash : Option Text

-- What the log takes from outside: SHA-256 over `JSON.stringify`, `JSON.parse`, and the database's
-- collation: `by_sequence a b` where `ORDER BY sequence_number, timestamp, id` may put `a` before
-- `b`, and `by_time` the same for `ORDER BY timestamp, id`.
pub record Engine : Type 0 where
  pub digest : HashPayload → Text
  pub parse_json : Text → Option Json
  pub by_sequence : AuditRow → AuditRow → Bool
  pub by_time : AuditRow → AuditRow → Bool

-- `Number(value)` of a column: `undefined` (no row) gives the fallback, NULL gives 0.
unfoldable pub to_audit_sequence_number : Option (Option ℤ) → ℤ → ℤ
to_audit_sequence_number none fallback = fallback
to_audit_sequence_number (some none) fallback = pos 0
to_audit_sequence_number (some (some n)) fallback = n

module _ (e : Engine) where
  -- `parseJsonSafe({ value, fallback: null })`
  unfoldable pub parse_audit_summary_json : Option Text → Json
  parse_audit_summary_json none = null
  parse_audit_summary_json (some value) =
      if is_empty value then null else or_else (e.parse_json value) null

  unfoldable pub build_audit_hash_payload : AuditFields → Option Text → HashPayload
  build_audit_hash_payload f previous = record {
    time = f.timestamp;
    author = or_else f.actor_username (codes "System");
    author_user_id = f.actor_user_id;
    auth = or_else f.auth_mode (codes "N/A");
    ip = or_else f.source_ip (codes "N/A");
    action = f.action;
    target_type = f.target_type;
    target_id = f.target_id;
    target = elim f.target_id [
      | none ↦ f.target_type
      | some t ↦ if is_empty t then f.target_type else f.target_type ++ codes ": " ++ t
    ];
    result = if f.success then codes "success" else codes "failed";
    correlation = f.correlation_id;
    before = parse_audit_summary_json f.before_summary;
    after = parse_audit_summary_json f.after_summary;
    command_result = parse_audit_summary_json f.command_result;
    previous_hash = previous;
  }

  unfoldable pub compute_audit_entry_hash : AuditFields → Option Text → Text
  compute_audit_entry_hash f previous = e.digest (build_audit_hash_payload f previous)

  -- `ORDER BY sequence_number ASC, timestamp ASC, id ASC`
  unfoldable pub ascending : List AuditRow → List AuditRow
  ascending = sort e.by_sequence

  -- The next number and the hash to chain to. The newest row is the last in ascending order.
  unfoldable pub next_link : Option AuditRow → ℤ × Option Text
  unfolding to_audit_sequence_number
  next_link none = (suc_ℤ (to_audit_sequence_number none (negsuc 0)), none)
  next_link (some latest) =
      (suc_ℤ (to_audit_sequence_number (some latest.sequence_number) (negsuc 0)), latest.entry_hash)

  unfoldable pub audit_row : Text → AuditFields → ℤ × Option Text → AuditRow
  audit_row id f (n, previous) = record {
    id = id;
    sequence_number = some n;
    fields = f;
    previous_entry_hash = previous;
    entry_hash = some (compute_audit_entry_hash f previous);
  }

  -- The INSERT fails, and nothing is written, if the primary key is taken.
  unfoldable pub append_audit : Text → AuditFields → List AuditRow → Option (List AuditRow)
  unfolding ascending next_link audit_row
  append_audit id f rows =
      if any (λ row. row.id == id) rows
      then none
      else some (rows ++ audit_row id f (next_link (get_last? (ascending rows))) ∷ [])

  -- `AuditService.record` queues its writes: they run one after another, and one that fails does
  -- not stop the next.
  unfoldable pub run_writes : List (Text × AuditFields) → List AuditRow → List AuditRow
  run_writes [] rows = rows
  run_writes ((id, f) ∷ rest) rows = run_writes rest (or_else (append_audit id f rows) rows)

-- The result of a check. `algorithm` and `hashInput` are constants of the source.
pub record IntegrityStatus : Type 0 where
  pub verified : Bool
  pub total_entries_verified : ℕ
  pub latest_hash : Option Text

module _ (e : Engine) where
  unfoldable pub links : ℕ → Option Text → AuditRow → Bool
  unfolding to_audit_sequence_number
  links index previous row =
      eq_ℤ (to_audit_sequence_number (some row.sequence_number) (negsuc 0)) (pos index)
      && same_text row.previous_entry_hash previous
      && same_text row.entry_hash (some (compute_audit_entry_hash e row.fields previous))

  unfoldable pub verify_rows : ℕ → Option Text → List AuditRow → IntegrityStatus
  verify_rows index previous [] = record {
    verified = true;
    total_entries_verified = index;
    latest_hash = previous;
  }
  verify_rows index previous (row ∷ rows) =
      let rest =
        verify_rows (index + 1) (some (compute_audit_entry_hash e row.fields previous)) rows in
      if links index previous row
      then rest
      else record { verified = false; total_entries_verified = index; latest_hash = previous }

  unfoldable pub verify_audit_integrity : List AuditRow → IntegrityStatus
  verify_audit_integrity rows = verify_rows 0 none (ascending e rows)

  -- `UPDATE audit_log SET … WHERE id = ?`
  unfoldable pub update_link : Text → ℕ → Option Text → Text → List AuditRow → List AuditRow
  update_link id index previous hash = map λ row.
      if row.id == id
      then record row {
        sequence_number = some (pos index);
        previous_entry_hash = previous;
        entry_hash = some hash;
      }
      else row

  -- A row is written only if its number or one of its hashes differs from what it should be.
  unfoldable pub backfill_loop : ℕ → Option Text → List AuditRow → List AuditRow → List AuditRow
  backfill_loop index previous [] table = table
  backfill_loop index previous (row ∷ rows) table =
      let hash = compute_audit_entry_hash e row.fields previous in
      backfill_loop (index + 1) (some hash) rows
        (if links index previous row then table else update_link row.id index previous hash table)

  -- It runs in `initialize`, at every start.
  unfoldable pub backfill_audit_log_chain : List AuditRow → List AuditRow
  backfill_audit_log_chain table = backfill_loop 0 none (sort e.by_time table) table
