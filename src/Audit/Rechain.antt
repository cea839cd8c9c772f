-- ===== src/Audit/Rechain.antt =====
-- The backfill that runs at every start leaves a log that the check accepts.
use mathlib.Core.List.{Perm, perm_middle, append-nil}
use mathlib.Core.List.Perm
use mqttctl.Prelude.{
  ℕ, ◌+◌, ◌<◌, ◌≡◌, ◌≢◌, refl, sym, ◌∙◌, subst, Text, ◌==◌, eq_iff, eq_refl, same_text_iff, true,
  false, Option, none, some, List, [], ◌∷◌, ◌++◌, map, All, length, sort, All-between, All-sort,
  All-insert_sorted, insert_sorted, sort-perm, arith, inl, inr, Bool-cases, Option-cases,
  if◌then◌else◌,
}
use mqttctl.Prelude.Int.{pos}
use mqttctl.Prelude.Unique.{IsRising, sort-eq_of_perm}
use mqttctl.Audit.{
  Engine, AuditRow, compute_audit_entry_hash, ascending, links, verify_audit_integrity, update_link,
  backfill_loop, backfill_audit_log_chain,
}
use mqttctl.Audit.Chain.{OrdersByNumber, IsChained, last_hash, verify_rows_of_IsChained}

-- The primary key: no two rows have the same id.
abbrev pub HasKeys : List AuditRow → Type 0
HasKeys [] = Unit
HasKeys (row ∷ rows) = All (λ other. row.id ≢ other.id) rows × HasKeys rows

-- The number and the hash of a row are written together.
abbrev pub IsComplete : AuditRow → Type 0
IsComplete row = row.sequence_number ≡ none → row.entry_hash ≡ none

module _ (e : Engine) where
  -- The row as the loop leaves it.
  abbrev relink : ℕ → Option Text → AuditRow → AuditRow
  relink index previous row = record row {
    sequence_number = some (pos index);
    previous_entry_hash = previous;
    entry_hash = some (compute_audit_entry_hash e row.fields previous);
  }

  abbrev pub relinked : ℕ → Option Text → List AuditRow → List AuditRow
  relinked index previous [] = []
  relinked index previous (row ∷ rows) =
      relink index previous row
      ∷ relinked (index + 1) (some (compute_audit_entry_hash e row.fields previous)) rows

  relinked-IsChained :
      (i : ℕ) (previous : Option Text) (rows : List AuditRow)
      → IsChained e i previous (relinked i previous rows)
  relinked-IsChained i previous [] = tt
  relinked-IsChained i previous (row ∷ rows) = (refl, refl, refl, relinked-IsChained (i + 1) _ rows)

  -- A row that the loop leaves alone is what it would have written.
  relink_of_links :
      (i : ℕ) (previous : Option Text) (row : AuditRow)
      → IsComplete row
      → links e i previous row ≡ true
      → relink i previous row ≡ row
  unfolding links
  relink_of_links i previous row complete h = elim (Option-cases row.sequence_number) [
    | inl missing ↦ ground (arith, complete missing)
    | inr (n, numbered) ↦ ground (
      arith,
      same_text_iff row.previous_entry_hash previous,
      same_text_iff row.entry_hash (some (compute_audit_entry_hash e row.fields previous)),
    )
  ]

  abbrev write : Text → ℕ → Option Text → Text → AuditRow → AuditRow
  write id index previous hash row =
      if row.id == id
      then record row {
        sequence_number = some (pos index);
        previous_entry_hash = previous;
        entry_hash = some hash;
      }
      else row

  update_elsewhere :
      (id : Text) (index : ℕ) (previous : Option Text) (hash : Text) (rows : List AuditRow)
      → All (λ row. id ≢ row.id) rows
      → map (write id index previous hash) rows ≡ rows
  update_elsewhere id index previous hash [] h = refl
  update_elsewhere id index previous hash (row ∷ rows) h =
      ground (arith, eq_iff row.id id, update_elsewhere id index previous hash rows h.1)

  module _ (i : ℕ) (previous : Option Text) (row : AuditRow) where
    abbrev after : List AuditRow → List AuditRow
    after table =
        if links e i previous row
        then table
        else update_link e row.id i previous (compute_audit_entry_hash e row.fields previous) table

    after-perm :
        (others table : List AuditRow)
        → IsComplete row
        → All (λ other. row.id ≢ other.id) others
        → Perm table (row ∷ others)
        → Perm (after table) (relink i previous row ∷ others)
    unfolding update_link
    after-perm others table complete apart p = elim (Bool-cases (links e i previous row)) [
      | inl linked ↦ rw (linked, relink_of_links i previous row complete linked) p
      | inr unlinked ↦
          rw unlinked (subst (Perm _) written (Perm.map (write row.id i previous hash) p))
    ]
      where
        hash : Text
        hash = compute_audit_entry_hash e row.fields previous

        written : map (write row.id i previous hash) (row ∷ others) ≡ relink i previous row ∷ others
        written =
            ground (arith, eq_refl row.id, update_elsewhere row.id i previous hash others apart)

  HasKeys-move :
      (row moved : AuditRow) (rows done : List AuditRow)
      → moved.id ≡ row.id
      → HasKeys (row ∷ rows ++ done)
      → HasKeys (rows ++ moved ∷ done)
  HasKeys-move row moved [] done same h = (rw same h.0, h.1)
  HasKeys-move row moved (z ∷ rows) done same h = (
    All-between (λ o. z.id ≢ o.id) moved rows done (λ p. h.0.0 (sym same ∙ sym p)) h.1.0,
    HasKeys-move row moved rows done same (h.0.1, h.1.1),
  )

  backfill_loop-perm :
      (i : ℕ) (previous : Option Text) (rows done table : List AuditRow)
      → All IsComplete rows
      → HasKeys (rows ++ done)
      → Perm table (rows ++ done)
      → Perm (backfill_loop e i previous rows table) (relinked i previous rows ++ done)
  unfolding backfill_loop
  backfill_loop-perm i previous [] done table complete keys p = p
  backfill_loop-perm i previous (row ∷ rows) done table complete keys p =
      let next = compute_audit_entry_hash e row.fields previous in
      let moved = relink i previous row in
      let step = after-perm i previous row (rows ++ done) table complete.0 keys.0 p in
      Perm.trans
        (backfill_loop-perm (i + 1) (some next) rows (moved ∷ done) (after i previous row table)
          complete.1 (HasKeys-move row moved rows done refl keys)
          (Perm.trans step (Perm.symm (perm_middle rows done))))
        (perm_middle (relinked (i + 1) (some next) rows) done)

  insert_sorted-HasKeys :
      (row : AuditRow) (rows : List AuditRow)
      → HasKeys (row ∷ rows)
      → HasKeys (insert_sorted e.by_time row rows)
  unfolding insert_sorted
  insert_sorted-HasKeys row [] h = h
  insert_sorted-HasKeys row (z ∷ rows) h = elim (Bool-cases (e.by_time row z)) [
    | inl earlier ↦ rw earlier h
    | inr later ↦ rw later (
      All-insert_sorted e.by_time (λ o. z.id ≢ o.id) row rows (λ p. h.0.0 (sym p)) h.1.0,
      insert_sorted-HasKeys row rows (h.0.1, h.1.1),
    )
  ]

  sort-HasKeys : (rows : List AuditRow) → HasKeys rows → HasKeys (sort e.by_time rows)
  unfolding sort
  sort-HasKeys [] h = tt
  sort-HasKeys (row ∷ rows) h =
      insert_sorted-HasKeys row (sort e.by_time rows)
        (All-sort e.by_time (λ o. row.id ≢ o.id) rows h.0, sort-HasKeys rows h.1)

  module _ (orders : OrdersByNumber e) where
    above :
        (row : AuditRow) (m i : ℕ) (previous : Option Text) (rows : List AuditRow)
        → row.sequence_number ≡ some (pos m)
        → m < i
        → IsChained e i previous rows
        → All (λ y. (e.by_sequence row y ≡ true) × (e.by_sequence y row ≡ false)) rows
    above row m i previous [] number less h = tt
    above row m i previous (y ∷ rows) number less h = (
      orders.rising row y m i number h.0 less,
      above row m (i + 1) y.entry_hash rows number (omega arith) h.3,
    )

    IsChained-IsRising :
        (i : ℕ) (previous : Option Text) (rows : List AuditRow)
        → IsChained e i previous rows
        → IsRising e.by_sequence rows
    IsChained-IsRising i previous [] h = tt
    IsChained-IsRising i previous (row ∷ rows) h = (
      above row i (i + 1) row.entry_hash rows h.0 (omega arith) h.3,
      IsChained-IsRising (i + 1) row.entry_hash rows h.3,
    )

    rows_set : IsSet (List AuditRow)
    rows_set = hlevel

    -- After a start the check accepts the log, whatever its rows held before: entries that were
    -- altered or dropped are chained anew. The result is the chain of the rows in the order of their
    -- times, and no row is lost. The ids are distinct, and a row with no number has no hash.
    pub verify-backfill :
        (table : List AuditRow)
        → HasKeys table
        → All IsComplete table
        → (verify_audit_integrity e (backfill_audit_log_chain e table) ≡ record {
          verified = true;
          total_entries_verified = length (relinked 0 none (sort e.by_time table));
          latest_hash = last_hash e none (relinked 0 none (sort e.by_time table));
        })
          × (ascending e (backfill_audit_log_chain e table)
              ≡ relinked 0 none (sort e.by_time table))
    unfolding verify_audit_integrity ascending backfill_audit_log_chain
    verify-backfill table keys complete =
        let sorted = sort e.by_time table in
        let chain = relinked-IsChained 0 none sorted in
        let perm =
          backfill_loop-perm 0 none sorted [] table (All-sort e.by_time IsComplete table complete)
            (rw append-nil (sort-HasKeys table keys))
            (rw append-nil (Perm.symm (sort-perm e.by_time table))) in
        let same =
          sort-eq_of_perm e.by_sequence rows_set _ (relinked 0 none sorted)
            (IsChained-IsRising 0 none (relinked 0 none sorted) chain) (rw append-nil at perm) in
        (rw same (verify_rows_of_IsChained e 0 none _ chain ∙ ground arith), same)
