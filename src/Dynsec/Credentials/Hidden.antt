-- ===== src/Dynsec/Credentials/Hidden.antt =====
-- What a sanitised credential tells of the one that it stands for.
use mathlib.Core.List.{append_assoc}
use mqttctl.Prelude.{
  ◌==◌, ◌||◌, Bool, if◌then◌else◌, ◌+◌, ◌-◌, ◌<◌, ◌≡◌, ◌⊎◌, ◌∙◌, refl, sym, ap, ap₂, Text, codes,
  ◌++◌, true, false, length, length-append, take, drop, take-append-drop, leb, arith, inl, inr,
  Bool-cases,
}
use mqttctl.Prelude.Json.{
  Json, Items, Entries, null, boolean, number, string, array, object, nil, item, end, entry,
}
use mqttctl.Prelude.Slices.{length-take, length-drop, take-append, drop-append}
use mqttctl.Dynsec.Credentials.{
  redacted_token, summarize_credential_value, is_credential_field,
  sanitize_dynsec_credential_fields, sanitize_items, sanitize_entries,
}

abbrev summary : Text → Text → Text
summary first last = first ++ codes "..." ++ last

-- The summary of a long value, from its parts.
summarize-parts :
    (first middle last : Text)
    → length first ≡ 6
    → length last ≡ 6
    → 0 < length middle
    → summarize_credential_value (string (first ++ middle ++ last)) ≡ summary first last
unfolding summarize_credential_value
summarize-parts first middle last f l m =
    let whole : length (first ++ middle ++ last) ≡ 6 + length middle + 6 =
      length-append (first ++ middle) last
      ∙ ap₂ (λ a b. a + b) (length-append first middle ∙ ap (λ a. a + length middle) f) l in
    let long : leb (length (first ++ middle ++ last)) 12 ≡ false = ground (arith, whole) in
    let front : take 6 (first ++ middle ++ last) ≡ first =
      ap (take 6) (append_assoc first middle last) ∙ take-append 6 first (middle ++ last) f in
    let back : drop (length (first ++ middle ++ last) - 6) (first ++ middle ++ last) ≡ last =
      drop-append (length (first ++ middle ++ last) - 6) (first ++ middle) last
        (omega (arith, whole, l, length-append (first ++ middle) last)) in
    rw (long, front, back) refl

-- A long value has such parts.
long-parts :
    (value : Text)
    → leb (length value) 12 ≡ false
    → (first middle last : Text) × (value ≡ first ++ middle ++ last)
      × (length first ≡ 6)
      × (length last ≡ 6)
      × (0 < length middle)
long-parts value h =
    let rest = drop 6 value in
    let more = length-drop 6 value in
    let few = length rest - 6 in
    (
      take 6 value,
      take few rest,
      drop few rest,
      sym (take-append-drop 6 value)
          ∙ ap (λ r. take 6 value ++ r) (sym (take-append-drop few rest))
          ∙ sym (append_assoc (take 6 value) (take few rest) (drop few rest)),
      length-take 6 value (ground (arith, h)),
      ground (arith, h, more, length-drop few rest),
      ground (arith, h, more, length-take few rest),
    )

-- What may be shown of a credential: the mark, or the first and the last six code units of more than
-- twelve.
abbrev pub IsSummaryOf : Json → Text → Type 0
IsSummaryOf value shown =
    (shown ≡ redacted_token)
    ⊎ ((first middle last : Text) × (value ≡ string (first ++ middle ++ last))
        × (length first ≡ 6)
        × (length last ≡ 6)
        × (0 < length middle)
        × (shown ≡ summary first last))

summarize-IsSummaryOf : (value : Json) → IsSummaryOf value (summarize_credential_value value)
unfolding summarize_credential_value
summarize-IsSummaryOf (string value) = elim (Bool-cases (leb (length value) 12)) [
  | inl short ↦ rw short (inl refl)
  | inr long ↦
      let (first, middle, last, whole, f, l, m) = long-parts value long in
      inr (
        first,
        middle,
        last,
        ap string whole,
        f,
        l,
        m,
        ap (λ v. summarize_credential_value (string v)) whole
            ∙ summarize-parts first middle last f l m,
      )
]
summarize-IsSummaryOf null = inl refl
summarize-IsSummaryOf (boolean b) = inl refl
summarize-IsSummaryOf (number n) = inl refl
summarize-IsSummaryOf (array items) = inl refl
summarize-IsSummaryOf (object entries) = inl refl

-- A summary is its own summary.
summarize-fixed :
    (value : Json) (shown : Text)
    → IsSummaryOf value shown
    → summarize_credential_value (string shown) ≡ shown
unfolding summarize_credential_value
summarize-fixed value shown (inl e) = rw e refl
summarize-fixed value shown (inr (first, middle, last, w, f, l, m, e)) =
    rw e (summarize-parts first (codes "...") last f l (omega arith))

-- A field that is hidden is a summary, another is `kept`.
abbrev pub FieldSanitized : Bool → Type 0 → Json → Json → Type 0
FieldSanitized true kept value shown =
    (text : Text) × (shown ≡ string text) × IsSummaryOf value text
FieldSanitized false kept value shown = kept

-- The second value is the first, but for the credential fields at any depth, which are summaries.
abbrev mutual
  pub IsSanitized : Json → Json → Type 0
  IsSanitized (array items) (array shown) = ItemsSanitized items shown
  IsSanitized (object entries) (object shown) = EntriesSanitized entries shown
  IsSanitized value shown = value ≡ shown

  pub ItemsSanitized : Items → Items → Type 0
  ItemsSanitized nil nil = Unit
  ItemsSanitized (item value items) (item shown others) =
      IsSanitized value shown × ItemsSanitized items others
  ItemsSanitized _ _ = ⊥

  pub EntriesSanitized : Entries → Entries → Type 0
  EntriesSanitized end end = Unit
  EntriesSanitized (entry key value entries) (entry name shown others) =
      (key ≡ name)
      × FieldSanitized (key == codes "password" || key == codes "salt") (IsSanitized value shown)
          value shown
      × EntriesSanitized entries others
  EntriesSanitized _ _ = ⊥

field-Sanitized :
    (hides : Bool) (value inside : Json)
    → IsSanitized value inside
    → let shown = if hides then string (summarize_credential_value value) else inside in
      FieldSanitized hides (IsSanitized value shown) value shown
field-Sanitized true value inside h =
    (summarize_credential_value value, refl, summarize-IsSummaryOf value)
field-Sanitized false value inside h = h

named-Sanitized :
    (key : Text) (value inside : Json)
    → IsSanitized value inside
    → let shown =
        if is_credential_field key then string (summarize_credential_value value) else inside in
      FieldSanitized
        (key == codes "password" || key == codes "salt")
        (IsSanitized value shown)
        value
        shown
unfolding is_credential_field
named-Sanitized key value inside h =
    field-Sanitized (key == codes "password" || key == codes "salt") value inside h

mutual
  unfolding sanitize_dynsec_credential_fields

  sanitize-IsSanitized :
      (value : Json) → IsSanitized value (sanitize_dynsec_credential_fields value)
  sanitize-IsSanitized null = refl
  sanitize-IsSanitized (boolean b) = refl
  sanitize-IsSanitized (number n) = refl
  sanitize-IsSanitized (string s) = refl
  sanitize-IsSanitized (array items) = sanitize_items-Sanitized items
  sanitize-IsSanitized (object entries) = sanitize_entries-Sanitized entries

  sanitize_items-Sanitized : (items : Items) → ItemsSanitized items (sanitize_items items)
  sanitize_items-Sanitized nil = tt
  sanitize_items-Sanitized (item value items) =
      (sanitize-IsSanitized value, sanitize_items-Sanitized items)

  sanitize_entries-Sanitized :
      (entries : Entries) → EntriesSanitized entries (sanitize_entries entries)
  sanitize_entries-Sanitized end = tt
  sanitize_entries-Sanitized (entry key value entries) = (
    refl,
    named-Sanitized key value (sanitize_dynsec_credential_fields value)
        (sanitize-IsSanitized value),
    sanitize_entries-Sanitized entries,
  )

mutual
  unfolding sanitize_dynsec_credential_fields

  sanitize-sanitize :
      (value : Json)
      → sanitize_dynsec_credential_fields (sanitize_dynsec_credential_fields value)
        ≡ sanitize_dynsec_credential_fields value
  sanitize-sanitize null = refl
  sanitize-sanitize (boolean b) = refl
  sanitize-sanitize (number n) = refl
  sanitize-sanitize (string s) = refl
  sanitize-sanitize (array items) = ap array (sanitize_items-sanitize items)
  sanitize-sanitize (object entries) = ap object (sanitize_entries-sanitize entries)

  sanitize_items-sanitize :
      (items : Items) → sanitize_items (sanitize_items items) ≡ sanitize_items items
  sanitize_items-sanitize nil = refl
  sanitize_items-sanitize (item value items) =
      ap₂ item (sanitize-sanitize value) (sanitize_items-sanitize items)

  sanitize_entries-sanitize :
      (entries : Entries) → sanitize_entries (sanitize_entries entries) ≡ sanitize_entries entries
  sanitize_entries-sanitize end = refl
  sanitize_entries-sanitize (entry key value entries) =
      let rest = sanitize_entries-sanitize entries in
      let inside = sanitize-sanitize value in
      let shown = summarize_credential_value value in
      elim (Bool-cases (is_credential_field key)) [
        | inl e ↦ rw e (
            ap₂ (entry key) (ap string (summarize-fixed value shown (summarize-IsSummaryOf value)))
              rest)
        | inr e ↦ rw e (ap₂ (entry key) inside rest)
      ]

-- What is shown of the broker's state is that state, but for the fields `password` and `salt` at any
-- depth. Of such a field it shows a fixed mark, or the first six and the last six code units of a
-- string of more than twelve. Sanitising it a second time changes nothing.
pub sanitize_dynsec_credential_fields-IsSanitized :
    (value : Json)
    → IsSanitized value (sanitize_dynsec_credential_fields value)
      × (sanitize_dynsec_credential_fields (sanitize_dynsec_credential_fields value)
          ≡ sanitize_dynsec_credential_fields value)
sanitize_dynsec_credential_fields-IsSanitized value =
    (sanitize-IsSanitized value, sanitize-sanitize value)
