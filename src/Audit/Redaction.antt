-- ===== src/Audit/Redaction.antt =====
-- `isSensitiveAuditKey` and `redactAuditSecrets` of
-- mqttctl/mqttctl-api/src/lib/server/audit/service.ts: what `record` does to its summaries.
use mqttctl.Prelude.{
  ◌≡◌, ◌↔◌, refl, sym, subst, ap, ap₂, Text, codes, ◌==◌, Bool, true, not, ◌||◌, List, [], ◌∷◌,
  filter, any, eqb, inl, inr, Bool-cases, if◌then◌else◌,
}
use mqttctl.Prelude.Json.{
  Json, Items, Entries, null, boolean, number, string, array, object, nil, item, end, entry,
}

abbrev pub sensitive_audit_key_set : List Text
sensitive_audit_key_set =
    codes "password"
    ∷ codes "passwordhash"
    ∷ codes "secret"
    ∷ codes "sessionsecret"
    ∷ codes "clientsecret"
    ∷ codes "apikey"
    ∷ codes "token"
    ∷ codes "accesstoken"
    ∷ codes "refreshtoken"
    ∷ codes "codeverifier"
    ∷ codes "authorization"
    ∷ []

abbrev pub redacted : Json
redacted = string (codes "<redacted>")

-- `to_lower` is `String.prototype.toLowerCase`, over the tables of Unicode.
module _ (to_lower : Text → Text) where
  unfoldable pub is_sensitive_audit_key : Text → Bool
  is_sensitive_audit_key key =
      let bare = to_lower (filter (λ c. not (eqb c b'_' || eqb c b'-')) key) in
      any (λ sensitive. sensitive == bare) sensitive_audit_key_set

  unfoldable mutual
    pub redact_audit_secrets : Json → Json
    redact_audit_secrets null = null
    redact_audit_secrets (boolean b) = boolean b
    redact_audit_secrets (number n) = number n
    redact_audit_secrets (string s) = string s
    redact_audit_secrets (array items) = array (redact_items items)
    redact_audit_secrets (object entries) = object (redact_entries entries)

    pub redact_items : Items → Items
    redact_items nil = nil
    redact_items (item value items) = item (redact_audit_secrets value) (redact_items items)

    pub redact_entries : Entries → Entries
    redact_entries end = end
    redact_entries (entry key value entries) =
        let inside = redact_audit_secrets value in
        entry key (if is_sensitive_audit_key key then redacted else inside) (redact_entries entries)

  -- Under a sensitive key, at any depth, stands nothing but the mark.
  abbrev mutual
    pub IsRedacted : Json → Type 0
    IsRedacted null = Unit
    IsRedacted (boolean b) = Unit
    IsRedacted (number n) = Unit
    IsRedacted (string s) = Unit
    IsRedacted (array items) = ItemsRedacted items
    IsRedacted (object entries) = EntriesRedacted entries

    pub ItemsRedacted : Items → Type 0
    ItemsRedacted nil = Unit
    ItemsRedacted (item value items) = IsRedacted value × ItemsRedacted items

    pub EntriesRedacted : Entries → Type 0
    EntriesRedacted end = Unit
    EntriesRedacted (entry key value entries) =
        (is_sensitive_audit_key key ≡ true → value ≡ redacted)
        × IsRedacted value
        × EntriesRedacted entries

  mutual
    unfolding redact_audit_secrets

    redact-redacts : (value : Json) → IsRedacted (redact_audit_secrets value)
    redact-redacts null = tt
    redact-redacts (boolean b) = tt
    redact-redacts (number n) = tt
    redact-redacts (string s) = tt
    redact-redacts (array items) = redact_items-redacts items
    redact-redacts (object entries) = redact_entries-redacts entries

    redact_items-redacts : (items : Items) → ItemsRedacted (redact_items items)
    redact_items-redacts nil = tt
    redact_items-redacts (item value items) = (redact-redacts value, redact_items-redacts items)

    redact_entries-redacts : (entries : Entries) → EntriesRedacted (redact_entries entries)
    redact_entries-redacts end = tt
    redact_entries-redacts (entry key value entries) =
        let rest = redact_entries-redacts entries in
        let inside = redact-redacts value in
        elim (Bool-cases (is_sensitive_audit_key key)) [
          | inl hidden ↦ rw hidden ((λ _. refl), tt, rest)
          | inr shown ↦ rw shown ((λ p. cc), inside, rest)
        ]

  -- A value that shows no secret is left as it is.
  mutual
    unfolding redact_audit_secrets

    redact_of_redacted : (value : Json) → IsRedacted value → redact_audit_secrets value ≡ value
    redact_of_redacted null h = refl
    redact_of_redacted (boolean b) h = refl
    redact_of_redacted (number n) h = refl
    redact_of_redacted (string s) h = refl
    redact_of_redacted (array items) h = ap array (redact_items_of_redacted items h)
    redact_of_redacted (object entries) h = ap object (redact_entries_of_redacted entries h)

    redact_items_of_redacted : (items : Items) → ItemsRedacted items → redact_items items ≡ items
    redact_items_of_redacted nil h = refl
    redact_items_of_redacted (item value items) h =
        ap₂ item (redact_of_redacted value h.0) (redact_items_of_redacted items h.1)

    redact_entries_of_redacted :
        (entries : Entries) → EntriesRedacted entries → redact_entries entries ≡ entries
    redact_entries_of_redacted end h = refl
    redact_entries_of_redacted (entry key value entries) h =
        let rest = redact_entries_of_redacted entries h.2 in
        let inside = redact_of_redacted value h.1 in
        elim (Bool-cases (is_sensitive_audit_key key)) [
          | inl hidden ↦ rw hidden (ap₂ (entry key) (sym (h.0 hidden)) rest)
          | inr shown ↦ rw shown (ap₂ (entry key) inside rest)
        ]

  -- What `record` stores under a key like `password` or `api-key`, at any depth of a summary, is the
  -- mark and nothing else; and a summary is left unchanged exactly when it shows no secret.
  pub redact_audit_secrets-IsRedacted :
      (value : Json)
      → IsRedacted (redact_audit_secrets value)
        × ((redact_audit_secrets value ≡ value) ↔ IsRedacted value)
  redact_audit_secrets-IsRedacted value =
      let redacts = redact-redacts value in
      (redacts, (λ same. subst IsRedacted same redacts, redact_of_redacted value))
