-- ===== src/Audit/Examples.antt =====
-- Runs of the audit log, and its theorems at concrete logs.
use mqttctl.Prelude.{
  ℕ, ◌+◌, ◌≡◌, ◌↔◌, refl, Text, codes, ◌==◌, Bool, true, false, ◌&&◌, if◌then◌else◌, Option, none,
  some, List, [], ◌∷◌, ◌++◌, map, length, ltb, leb, or_else, arith, sort, filter, any, eqb,
  is_empty,
}
use mathlib.Core.List.{reverse}
use mqttctl.Prelude.Int.{ℤ, pos, leb_ℤ}
use mqttctl.Prelude.Json.{Json, string, object, entry, end, null}
use mqttctl.Audit.{
  Engine, AuditFields, AuditRow, run_writes, verify_audit_integrity, backfill_audit_log_chain,
  ascending, links, build_audit_hash_payload, compute_audit_entry_hash, append_audit, verify_rows,
}
use mqttctl.Audit.Chain.{OrdersByNumber, last_hash, verify-run_writes}
use mqttctl.Audit.Tamper.{payloads, verify_detects_changes}
use mqttctl.Audit.Rechain.{relinked, verify-backfill}
use mqttctl.Audit.Redaction.{
  IsRedacted, redacted, redact_audit_secrets, is_sensitive_audit_key,
  redact_audit_secrets-IsRedacted,
}
use mqttctl.Audit.Export.{
  ten, all, ExportChecks, to_audit_export_entry, list_entries, left_out, export_checks,
  list_entries_page, map_audit_entry_row,
}

abbrev number_order : Option ℤ → Option ℤ → Bool
number_order none b = true
number_order (some m) none = false
number_order (some m) (some n) = leb_ℤ m n

-- A digest that spells out the action and the hash before it.
abbrev engine : Engine
engine = record {
  digest = λ p. p.action ++ or_else p.previous_hash [];
  parse_json = λ t. some (string t);
  by_sequence = λ a b. number_order a.sequence_number b.sequence_number;
  by_time = λ a b. leb (length a.timestamp) (length b.timestamp);
}

rising_numbers :
    (a b : AuditRow) (m n : ℕ)
    → a.sequence_number ≡ some (pos m)
    → b.sequence_number ≡ some (pos n)
    → leb n m ≡ false
    → (engine.by_sequence a b ≡ true) × (engine.by_sequence b a ≡ false)
rising_numbers a b m n p q less = rw (p, q) (ground arith, ground arith)

engine_orders : OrdersByNumber engine
engine_orders = record { rising = λ a b m n p q less. rising_numbers a b m n p q (ground arith) }

abbrev login : AuditFields
login = record {
  timestamp = codes "1";
  actor_username = some (codes "admin");
  actor_user_id = none;
  auth_mode = some (codes "local");
  source_ip = none;
  correlation_id = codes "c1";
  action = codes "a";
  target_type = codes "t";
  target_id = none;
  before_summary = none;
  after_summary = some (codes "{}");
  command_result = none;
  success = true;
}

-- The third write fails: its id is taken.
abbrev writes : List (Text × AuditFields)
writes =
    (codes "x", login) ∷ (codes "y", record login { action = codes "b" }) ∷ (codes "x", login) ∷ []

abbrev log : List AuditRow
log = run_writes engine writes []

two_rows : length log ≡ 2
unfolding run_writes append_audit sort any ◌==◌
two_rows = refl

verify-run_writes_example : verify_audit_integrity engine log ≡ record {
  verified = true;
  total_entries_verified = length log;
  latest_hash = last_hash engine none log;
}
verify-run_writes_example = verify-run_writes engine engine_orders writes

abbrev first_row : AuditRow
first_row = record {
  id = codes "x";
  sequence_number = some (pos 0);
  fields = login;
  previous_entry_hash = none;
  entry_hash = some (codes "a");
}

abbrev second_row : AuditRow
second_row = record {
  id = codes "y";
  sequence_number = some (pos 1);
  fields = record login { action = codes "b" };
  previous_entry_hash = some (codes "a");
  entry_hash = some (codes "ba");
}

abbrev rows : List AuditRow
rows = first_row ∷ second_row ∷ []

-- The same entries under other keys, which the hash does not cover.
abbrev rekeyed : List AuditRow
rekeyed = record first_row { id = codes "z" } ∷ second_row ∷ []

log-rows : log ≡ rows
unfolding run_writes append_audit sort any ◌==◌ mqttctl.Prelude.get_last? compute_audit_entry_hash
    build_audit_hash_payload mqttctl.Prelude.insert_sorted
log-rows = refl

verified : (verify_audit_integrity engine rows).verified ≡ true
unfolding verify_audit_integrity sort verify_rows ◌==◌ build_audit_hash_payload
    compute_audit_entry_hash links ascending mqttctl.Prelude.insert_sorted
verified = refl

verify_detects_changes_example :
    payloads engine (ascending engine rows) ≡ payloads engine (ascending engine rekeyed)
unfolding ascending sort build_audit_hash_payload verify_audit_integrity verify_rows ◌==◌
    compute_audit_entry_hash links mqttctl.Prelude.insert_sorted
verify_detects_changes_example =
    verify_detects_changes engine rows rekeyed
      (((λ _. refl), ((λ q. ground arith), tt)), (((λ q. ground arith), ((λ _. refl), tt)), tt))
      verified refl

-- Someone has altered the second entry and dropped the number of the first.
abbrev altered : List AuditRow
altered =
    record second_row { fields = record login { action = codes "c" } }
    ∷ record first_row { sequence_number = none; entry_hash = none }
    ∷ []

altered_unverified : (verify_audit_integrity engine altered).verified ≡ false
unfolding verify_audit_integrity sort verify_rows ◌==◌ build_audit_hash_payload
    compute_audit_entry_hash links ascending mqttctl.Prelude.insert_sorted
altered_unverified = refl

verify-backfill_example :
    (verify_audit_integrity engine (backfill_audit_log_chain engine altered) ≡ record {
      verified = true;
      total_entries_verified = length (relinked engine 0 none (sort engine.by_time altered));
      latest_hash = last_hash engine none (relinked engine 0 none (sort engine.by_time altered));
    })
    × (ascending engine (backfill_audit_log_chain engine altered)
        ≡ relinked engine 0 none (sort engine.by_time altered))
verify-backfill_example =
    verify-backfill engine engine_orders altered (((λ q. ground arith), tt), (tt, tt))
      ((λ p. cc), ((λ p. refl), tt))

abbrev summary : Json
summary = object (entry (codes "Api_Key") (string (codes "k")) (entry (codes "ok") null end))

-- Lower case, of ASCII letters.
abbrev lower : Text → Text
lower = map (λ c. if leb 65 c && leb c 90 then c + 32 else c)

redact_audit_secrets-IsRedacted_example :
    IsRedacted lower (redact_audit_secrets lower summary)
    × ((redact_audit_secrets lower summary ≡ summary) ↔ IsRedacted lower summary)
redact_audit_secrets-IsRedacted_example = redact_audit_secrets-IsRedacted lower summary

hides_a_key :
    redact_audit_secrets lower (object (entry (codes "api_key") (string (codes "k")) end))
    ≡ object (entry (codes "api_key") redacted end)
unfolding redact_audit_secrets is_sensitive_audit_key filter any ◌==◌
hides_a_key = refl

export_checks_example :
    ExportChecks engine none
      (reverse (map to_audit_export_entry (list_entries engine all rows).entries))
      (verify_audit_integrity engine rows).latest_hash
export_checks_example = export_checks engine rows verified

list_entries_page_example :
    let page = list_entries engine ten rows in
    (page.entries ++ left_out engine ten rows
      ≡ map (map_audit_entry_row engine) (reverse (ascending engine rows)))
    × (page.has_more ≡ ltb 0 (length (left_out engine ten rows)))
    × (page.total_entries ≡ length page.entries + length (left_out engine ten rows))
list_entries_page_example = list_entries_page engine ten rows
