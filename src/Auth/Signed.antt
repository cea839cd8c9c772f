-- ===== src/Auth/Signed.antt =====
-- What `extractSessionId` accepts.
use mqttctl.Prelude.{
  ◌≡◌, ◌∙◌, refl, sym, ap, ap₂, ℕ, Text, ◌==◌, eq_iff, eqb, length, is_empty, ◌++◌, ◌||◌, false,
  Option, none, some, List, [], ◌∷◌, arith, inl, inr, Bool-cases,
}
use mqttctl.Auth.{done}
use mqttctl.Auth.Accounts.{Crypto}
use mqttctl.Auth.Login.{split_dots, timing_safe_equal, check_signature, extract_session_id}

-- `parts.join('.')`
unfoldable pub join_dots : List Text → Text
join_dots [] = []
join_dots (part ∷ []) = part
join_dots (part ∷ next ∷ parts) = part ++ b'.' ∷ join_dots (next ∷ parts)

-- The cookie carries the id, a dot and the signature that the server makes for the id, byte by byte.
pub record IsSigned (crypto : Crypto) (cookie : Option Text) (session_id : Text) : Type 0 where
  pub signature : Text
  pub rest : List Text
  pub carried : cookie ≡ some (join_dots (session_id ∷ signature ∷ rest))
  pub genuine : crypto.buffer signature ≡ crypto.buffer (crypto.sign_session_id session_id)

split_dots-cons :
    (c : ℕ) (s : Text) (parts : List Text)
    → split_dots s ≡ parts
    → join_dots parts ≡ s
    → (s ≡ [] → split_dots s ≡ [] ∷ [])
    → join_dots (split_dots (c ∷ s)) ≡ c ∷ s
unfolding split_dots join_dots
split_dots-cons c s [] e h empty = cc (empty (sym h))
split_dots-cons c s (p ∷ []) e h empty = elim (Bool-cases (eqb c b'.')) [
  | inl dot ↦ rw (e, split_dots, dot) (ap₂ (λ d t. d ∷ t) (sym (ground (arith, dot))) h)
  | inr other ↦ rw (e, split_dots, other) (ap (λ t. c ∷ t) h)
]
split_dots-cons c s (p ∷ q ∷ ps) e h empty = elim (Bool-cases (eqb c b'.')) [
  | inl dot ↦ rw (e, split_dots, dot) (ap₂ (λ d t. d ∷ t) (sym (ground (arith, dot))) h)
  | inr other ↦ rw (e, split_dots, other) (ap (λ t. c ∷ t) h)
]

join_dots-split_dots : (s : Text) → join_dots (split_dots s) ≡ s
unfolding split_dots join_dots
join_dots-split_dots [] = refl
join_dots-split_dots (c ∷ s) =
    split_dots-cons c s (split_dots s) refl (join_dots-split_dots s) (λ e. rw e refl)

module _ (crypto : Crypto) where
  check_signature-genuine :
      (id sid signature : Text)
      → check_signature crypto id signature ≡ done (some sid)
      → (id ≡ sid) × (crypto.buffer signature ≡ crypto.buffer (crypto.sign_session_id id))
  unfolding check_signature timing_safe_equal
  check_signature-genuine id sid signature h =
      elim (Bool-cases (eqb (length signature) (length (crypto.sign_session_id id)))) [
        | inr uneven ↦ cc (rw (uneven, check_signature) at h)
        | inl even ↦
            let a = crypto.buffer signature in
            let b = crypto.buffer (crypto.sign_session_id id) in
            elim (Bool-cases (eqb (length a) (length b))) [
              | inr torn ↦ cc (rw (even, check_signature, timing_safe_equal, torn) at h)
              | inl fits ↦ elim (Bool-cases (a == b)) [
                | inr other ↦ cc (rw (even, check_signature, timing_safe_equal, fits, other) at h)
                | inl same ↦
                    let told = rw (even, check_signature, timing_safe_equal, fits, same) at h in
                    (cc told, (eq_iff a b).0 same)
              ]
            ]
      ]

  taken_parts :
      (cookie : Text) (parts : List Text) (sid : Text)
      → split_dots cookie ≡ parts
      → is_empty cookie ≡ false
      → extract_session_id crypto (some cookie) ≡ done (some sid)
      → IsSigned crypto (some cookie) sid
  unfolding extract_session_id
  taken_parts cookie [] sid e full h = cc (rw (full, e) at h)
  taken_parts cookie (id ∷ []) sid e full h = cc (rw (full, e) at h)
  taken_parts cookie (id ∷ signature ∷ rest) sid e full h =
      elim (Bool-cases (is_empty id || is_empty signature)) [
        | inl blank ↦ cc (rw (full, e, blank) at h)
        | inr both ↦
            let (same, genuine) =
              check_signature-genuine id sid signature (rw (full, e, both) at h) in
            record {
              signature = signature;
              rest = rest;
              carried =
                  ap some (sym (join_dots-split_dots cookie) ∙ ap join_dots e)
                  ∙ ap (λ i. some (join_dots (i ∷ signature ∷ rest))) same;
              genuine = genuine ∙ ap (λ i. crypto.buffer (crypto.sign_session_id i)) same;
            }
      ]

  parts-IsSigned :
      (cookie : Text) (parts : List Text) (sid : Text)
      → split_dots cookie ≡ parts
      → extract_session_id crypto (some cookie) ≡ done (some sid)
      → IsSigned crypto (some cookie) sid
  unfolding extract_session_id
  parts-IsSigned cookie parts sid e h = elim (Bool-cases (is_empty cookie)) [
    | inl blank ↦ cc (rw (blank, extract_session_id) at h)
    | inr full ↦ taken_parts cookie parts sid e full h
  ]

  pub extract_session_id-IsSigned :
      (cookie : Option Text) (sid : Text)
      → extract_session_id crypto cookie ≡ done (some sid)
      → IsSigned crypto cookie sid
  unfolding extract_session_id
  extract_session_id-IsSigned none sid h = cc
  extract_session_id-IsSigned (some cookie) sid h =
      parts-IsSigned cookie (split_dots cookie) sid refl h
