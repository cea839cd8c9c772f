-- ===== src/Dynsec/Credentials.antt =====
-- `summarizeCredentialValue`, `sanitizeDynsecCredentialFields` and `redactCommandArgs` of
-- `mqttctl/mqttctl-api/src/lib/server/dynsec/service.ts`: what of a credential is shown.
pub mod Hidden
use mqttctl.Prelude.{
  ℕ, suc, ◌+◌, ◌-◌, ◌≤◌, ◌<◌, ◌≡◌, refl, ap, ap₂, Text, codes, ◌==◌, ◌++◌, Bool, true, false, ◌&&◌,
  ◌||◌, List, [], ◌∷◌, length, take, drop, leb, arith, inl, inr, Bool-cases, if◌then◌else◌,
}
use mqttctl.Prelude.Json.{
  Json, Items, Entries, null, boolean, number, string, array, object, nil, item, end, entry,
}

abbrev pub redacted_token : Text
redacted_token = codes "<redacted>"

abbrev slice_from_end : ℕ → Text → Text
slice_from_end n s = drop (length s - n) s

unfoldable pub summarize_credential_value : Json → Text
unfolding take drop
summarize_credential_value (string value) =
    if leb (length value) 12
    then redacted_token
    else take 6 value ++ codes "..." ++ slice_from_end 6 value
summarize_credential_value _ = redacted_token

unfoldable pub is_credential_field : Text → Bool
is_credential_field key = key == codes "password" || key == codes "salt"

unfoldable mutual
  unfolding summarize_credential_value is_credential_field

  pub sanitize_dynsec_credential_fields : Json → Json
  sanitize_dynsec_credential_fields (array items) = array (sanitize_items items)
  sanitize_dynsec_credential_fields (object entries) = object (sanitize_entries entries)
  sanitize_dynsec_credential_fields null = null
  sanitize_dynsec_credential_fields (boolean b) = boolean b
  sanitize_dynsec_credential_fields (number n) = number n
  sanitize_dynsec_credential_fields (string s) = string s

  pub sanitize_items : Items → Items
  sanitize_items nil = nil
  sanitize_items (item value items) =
      item (sanitize_dynsec_credential_fields value) (sanitize_items items)

  pub sanitize_entries : Entries → Entries
  sanitize_entries end = end
  sanitize_entries (entry key value entries) =
      let inside = sanitize_dynsec_credential_fields value in
      entry key
        (if is_credential_field key then string (summarize_credential_value value) else inside)
        (sanitize_entries entries)

-- `command === 'setClientPassword' && args.length >= 2`
unfoldable pub redact_command_args : Text → List Text → List Text
redact_command_args command [] = []
redact_command_args command (a ∷ []) = a ∷ []
redact_command_args command (a ∷ b ∷ args) =
    if command == codes "setClientPassword" then a ∷ redacted_token ∷ args else a ∷ b ∷ args
