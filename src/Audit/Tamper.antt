-- ===== src/Audit/Tamper.antt =====
-- What the check of the audit log detects: two logs with the same result hold the same entries.
use mqttctl.Prelude.{
  ℕ, ◌+◌, ◌≡◌, refl, sym, ◌∙◌, ap, Text, same_text_iff, true, Option, none, some, List, [], ◌∷◌,
  map, All, length, arith,
}
use mqttctl.Audit.{
  Engine, AuditRow, HashPayload, IntegrityStatus, build_audit_hash_payload,
  compute_audit_entry_hash, ascending, links, verify_rows, verify_audit_integrity,
}

module _ (e : Engine) where
  abbrev pub payload : AuditRow → HashPayload
  payload row = build_audit_hash_payload e row.fields row.previous_entry_hash

  -- What the log says, oldest entry first, with the chain that the rows claim.
  abbrev pub payloads : List AuditRow → List HashPayload
  payloads rows = map payload rows

  -- No entry of one log collides under SHA-256 with a different entry of the other.
  abbrev pub NoCollision : List HashPayload → List HashPayload → Type 0
  NoCollision ps qs = All (λ p. All (λ q. e.digest p ≡ e.digest q → p ≡ q) qs) ps

  total_of_verified :
      (i : ℕ) (previous : Option Text) (rows : List AuditRow)
      → (verify_rows e i previous rows).verified ≡ true
      → (verify_rows e i previous rows).total_entries_verified ≡ i + length rows
  unfolding verify_rows
  total_of_verified i previous [] h = omega arith
  total_of_verified i previous (row ∷ rows) h = ground (
    arith,
    total_of_verified (i + 1) (some (compute_audit_entry_hash e row.fields previous)) rows,
  )

  -- An accepted row claims the hash before it, and the rows behind it are accepted too.
  abbrev Accepts : ℕ → Option Text → AuditRow → List AuditRow → Type 0
  Accepts i previous row rows =
      (row.previous_entry_hash ≡ previous)
      × (verify_rows e i previous (row ∷ rows)
          ≡ verify_rows e (i + 1) (some (compute_audit_entry_hash e row.fields previous)) rows)

  accepts :
      (i : ℕ) (previous : Option Text) (row : AuditRow) (rows : List AuditRow)
      → (verify_rows e i previous (row ∷ rows)).verified ≡ true
      → Accepts i previous row rows
  unfolding verify_rows links
  accepts i previous row rows h =
      (ground (arith, same_text_iff row.previous_entry_hash previous), ground arith)

  NoCollision-tail :
      (ps qs : List HashPayload) (q : HashPayload) → NoCollision ps (q ∷ qs) → NoCollision ps qs
  NoCollision-tail [] qs q h = tt
  NoCollision-tail (p ∷ ps) qs q h = (h.0.1, NoCollision-tail ps qs q h.1)

  hash_of_payload :
      (row : AuditRow) (previous : Option Text)
      → row.previous_entry_hash ≡ previous
      → compute_audit_entry_hash e row.fields previous ≡ e.digest (payload row)
  unfolding compute_audit_entry_hash
  hash_of_payload row previous h = rw h

  same_previous :
      (x y : AuditRow) → payload x ≡ payload y → x.previous_entry_hash ≡ y.previous_entry_hash
  unfolding build_audit_hash_payload
  same_previous x y h = ap (λ (p : HashPayload). p.previous_hash) h

  same_rows :
      (i : ℕ) (p q : Option Text) (xs ys : List AuditRow)
      → NoCollision (payloads xs) (payloads ys)
      → (verify_rows e i p xs).verified ≡ true
      → verify_rows e i p xs ≡ verify_rows e i q ys
      → (p ≡ q) × (payloads xs ≡ payloads ys)
  same_rows i p q [] [] free h same =
      unfold verify_rows in (ap (λ (s : IntegrityStatus). s.latest_hash) same, refl)
  same_rows i p q [] (y ∷ ys) free h same = absurd (
      omega (
        arith,
        total_of_verified i p [] h,
        total_of_verified i q (y ∷ ys) (rw same at h),
        ap (λ (s : IntegrityStatus). s.total_entries_verified) same,
      ))
  same_rows i p q (x ∷ xs) [] free h same = absurd (
      omega (
        arith,
        total_of_verified i p (x ∷ xs) h,
        total_of_verified i q [] (rw same at h),
        ap (λ (s : IntegrityStatus). s.total_entries_verified) same,
      ))
  same_rows i p q (x ∷ xs) (y ∷ ys) free h same =
      let (px, rx) = accepts i p x xs h in
      let (py, ry) = accepts i q y ys (rw same at h) in
      let (hashes, rest) =
        same_rows (i + 1) (some (compute_audit_entry_hash e x.fields p))
          (some (compute_audit_entry_hash e y.fields q)) xs ys
          (NoCollision-tail (payloads xs) (payloads ys) (payload y) free.1) (rw rx at h)
          (sym rx ∙ same ∙ ry) in
      let head = free.0.0 (cc (hashes, hash_of_payload x p px, hash_of_payload y q py)) in
      (sym px ∙ same_previous x y head ∙ py, cc)

  -- Two logs that the check accepts with the same count and the same last hash hold the same
  -- entries in the same order, as far as the hash covers them, unless two entries collide under
  -- SHA-256: an entry that was altered, dropped, added or moved shows.
  pub verify_detects_changes :
      (rows rows' : List AuditRow)
      → NoCollision (payloads (ascending e rows)) (payloads (ascending e rows'))
      → (verify_audit_integrity e rows).verified ≡ true
      → verify_audit_integrity e rows ≡ verify_audit_integrity e rows'
      → payloads (ascending e rows) ≡ payloads (ascending e rows')
  unfolding verify_audit_integrity
  verify_detects_changes rows rows' free h same =
      (same_rows 0 none none (ascending e rows) (ascending e rows') free h same).1
