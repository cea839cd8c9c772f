-- ===== src/Audit/Chain.antt =====
-- A log that was written by `append_audit` alone is a chain, and the check accepts it.
use mqttctl.Prelude.{
  ℕ, ◌+◌, ◌<◌, ◌≡◌, refl, ◌∙◌, ap, Text, ◌==◌, same_text_iff, true, false, Option, none, some, List,
  [], ◌∷◌, ◌++◌, All, length, get_last?, or_else, sort, sort-snoc, any, arith, inl, inr, Bool-cases,
}
use mqttctl.Prelude.Int.{pos}
use mqttctl.Audit.{
  Engine, AuditFields, AuditRow, compute_audit_entry_hash, ascending, next_link, audit_row,
  append_audit, run_writes, links, verify_rows, verify_audit_integrity,
}

-- `ORDER BY sequence_number` puts a row with a smaller number before one with a larger one.
pub record OrdersByNumber (e : Engine) : Type 0 where
  pub rising :
      (a b : AuditRow) (m n : ℕ)
      → a.sequence_number ≡ some (pos m)
      → b.sequence_number ≡ some (pos n)
      → m < n
      → (e.by_sequence a b ≡ true) × (e.by_sequence b a ≡ false)

module _ (e : Engine) where
  -- The rows are numbered from `i` on, and each is chained to the one before.
  abbrev pub IsChained : ℕ → Option Text → List AuditRow → Type 0
  IsChained i previous [] = Unit
  IsChained i previous (row ∷ rows) =
      (row.sequence_number ≡ some (pos i))
      × (row.previous_entry_hash ≡ previous)
      × (row.entry_hash ≡ some (compute_audit_entry_hash e row.fields previous))
      × IsChained (i + 1) row.entry_hash rows

  -- The hash of the last row, or the one to start from.
  abbrev pub last_hash : Option Text → List AuditRow → Option Text
  last_hash previous [] = previous
  last_hash previous (row ∷ rows) = last_hash row.entry_hash rows

  links_of_fields :
      (i : ℕ) (previous : Option Text) (row : AuditRow)
      → row.sequence_number ≡ some (pos i)
      → row.previous_entry_hash ≡ previous
      → row.entry_hash ≡ some (compute_audit_entry_hash e row.fields previous)
      → links e i previous row ≡ true
  unfolding links
  links_of_fields i previous row number chained hashed = ground (
    arith,
    same_text_iff row.previous_entry_hash previous,
    same_text_iff row.entry_hash (some (compute_audit_entry_hash e row.fields previous)),
  )

  -- The check accepts a chain, and reports its length and its last hash.
  pub verify_rows_of_IsChained :
      (i : ℕ) (previous : Option Text) (rows : List AuditRow)
      → IsChained i previous rows
      → verify_rows e i previous rows ≡ record {
        verified = true;
        total_entries_verified = i + length rows;
        latest_hash = last_hash previous rows;
      }
  unfolding verify_rows
  verify_rows_of_IsChained i previous [] h = ground arith
  verify_rows_of_IsChained i previous (row ∷ rows) h = ground (
    arith,
    links_of_fields i previous row h.0 h.1 h.2,
    verify_rows_of_IsChained (i + 1) row.entry_hash rows h.3,
  )

  next_link-IsChained :
      (i : ℕ) (previous : Option Text) (row : AuditRow) (rows : List AuditRow)
      → IsChained i previous (row ∷ rows)
      → next_link e (get_last? (row ∷ rows))
        ≡ (pos (i + length (row ∷ rows)), last_hash previous (row ∷ rows))
  unfolding next_link get_last?
  next_link-IsChained i previous row [] h = ground arith
  next_link-IsChained i previous row (row' ∷ rows) h =
      ground (arith, next_link-IsChained (i + 1) row.entry_hash row' rows h.3)

  next_link_of_chain :
      (rows : List AuditRow)
      → IsChained 0 none rows
      → next_link e (get_last? rows) ≡ (pos (length rows), last_hash none rows)
  unfolding next_link get_last?
  next_link_of_chain [] h = refl
  next_link_of_chain (row ∷ rows) h = ground (arith, next_link-IsChained 0 none row rows h)

  IsChained-snoc :
      (i n : ℕ) (previous : Option Text) (rows : List AuditRow) (id : Text) (f : AuditFields)
      → n ≡ i + length rows
      → IsChained i previous rows
      → IsChained i previous (rows ++ audit_row e id f (pos n, last_hash previous rows) ∷ [])
  unfolding audit_row
  IsChained-snoc i n previous [] id f number h = (ground arith, refl, refl, tt)
  IsChained-snoc i n previous (row ∷ rows) id f number h =
      (h.0, h.1, h.2, IsChained-snoc (i + 1) n row.entry_hash rows id f (omega arith) h.3)

  module _ (orders : OrdersByNumber e) where
    before_new :
        (i : ℕ) (previous : Option Text) (rows : List AuditRow) (new : AuditRow)
        → IsChained i previous rows
        → new.sequence_number ≡ some (pos (i + length rows))
        → All (λ x. e.by_sequence x new ≡ true) rows
    before_new i previous [] new h number = tt
    before_new i previous (row ∷ rows) new h number = (
      (orders.rising row new i (i + length (row ∷ rows)) h.0 number (omega arith)).0,
      before_new (i + 1) row.entry_hash rows new h.3 (ground arith),
    )

    -- The table holds a chain, in the order in which it was written.
    pub record IsLog (rows : List AuditRow) : Type 0 where
      pub in_order : ascending e rows ≡ rows
      pub chained : IsChained 0 none rows

    extended-IsLog :
        (rows : List AuditRow) (id : Text) (f : AuditFields)
        → IsLog rows
        → IsLog (rows ++ audit_row e id f (pos (length rows), last_hash none rows) ∷ [])
    unfolding ascending audit_row
    extended-IsLog rows id f h = record {
      in_order =
          sort-snoc e.by_sequence new rows (before_new 0 none rows new h.chained (ground arith))
          ∙ ap (λ (sorted : List AuditRow). sorted ++ new ∷ []) h.in_order;
      chained = IsChained-snoc 0 (length rows) none rows id f (omega arith) h.chained;
    }
      where
        new : AuditRow
        new = audit_row e id f (pos (length rows), last_hash none rows)

    append_audit-IsLog :
        (id : Text) (f : AuditFields) (rows : List AuditRow)
        → IsLog rows
        → IsLog (or_else (append_audit e id f rows) rows)
    unfolding append_audit
    append_audit-IsLog id f rows h = elim (Bool-cases (any (λ row. row.id == id) rows)) [
      | inl taken ↦ rw taken h
      | inr free ↦
          rw (free, h.in_order, next_link_of_chain rows h.chained) (extended-IsLog rows id f h)
    ]

    run_writes-IsLog :
        (ws : List (Text × AuditFields)) (rows : List AuditRow)
        → IsLog rows
        → IsLog (run_writes e ws rows)
    unfolding run_writes
    run_writes-IsLog [] rows h = h
    run_writes-IsLog ((id, f) ∷ ws) rows h = run_writes-IsLog ws _ (append_audit-IsLog id f rows h)

    -- Whatever is written, and whichever of the writes fail, the check of a log that began empty
    -- accepts it, counts all its rows and reports the hash of the last.
    pub verify-run_writes :
        (ws : List (Text × AuditFields))
        → let rows = run_writes e ws [] in
          verify_audit_integrity e rows ≡ record {
            verified = true;
            total_entries_verified = length rows;
            latest_hash = last_hash none rows;
          }
    unfolding verify_audit_integrity ascending sort
    verify-run_writes ws =
        let log = run_writes-IsLog ws [] (record { in_order = refl; chained = tt }) in
        rw log.in_order (verify_rows_of_IsChained 0 none _ log.chained ∙ ground arith)
