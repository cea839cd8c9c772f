-- ===== src/Explorer/Effects.antt =====
-- How messages are counted and shown.
use mqttctl.Prelude.{
  ℕ, ◌+◌, ◌≡◌, ◌↔◌, refl, sym, subst, ap, Text, codes, ◌==◌, eq_iff, trim, is_empty, starts_with,
  not, ◌&&◌, ◌||◌, Bool, true, false, Option, none, some, List, [], ◌∷◌, is_some, or_else, arith,
  inl, inr, ◌⊎◌, Bool-cases, Option-cases, if◌then◌else◌,
}
use mqttctl.Prelude.Dict.{Dict, IsMap, get, set, get-set}
use mqttctl.Explorer.{base64, MqttSubscription}
use mqttctl.Explorer.Topic.{topic_matches_filter}
use mqttctl.Explorer.Messages.{Codec, detect_payload_format, count_matches}

-- The subscription of a filter after a message on a topic.
pub counted : Text → Text → Option MqttSubscription → Option MqttSubscription
counted topic filter none = none
counted topic filter (some s) = some (
    if topic_matches_filter filter topic
    then record s { matched_message_count = s.matched_message_count + 1 }
    else s)

-- The loop at some point: `rest` is still to be visited, and what it holds stands unchanged.
count_loop :
    (topic f : Text) (rest subscriptions : Dict MqttSubscription)
    → IsMap rest
    → get f (count_matches topic rest subscriptions) ≡ (
        if is_some (get f rest) && topic_matches_filter f topic
        then counted topic f (get f rest)
        else get f subscriptions)
unfolding count_matches get counted
count_loop topic f [] subscriptions u = refl
count_loop topic f ((g, s) ∷ rest) subscriptions (d, u) =
    let bumped = record s { matched_message_count = s.matched_message_count + 1 } in
    let hit_case = count_loop topic f rest (set g bumped subscriptions) u in
    let miss_case = count_loop topic f rest subscriptions u in
    elim (Bool-cases (g == f)) [
      | inl same ↦
          let e = (eq_iff g f).0 same in
          let gone = subst (λ (k : Text). get k rest ≡ none) e d in
          elim (Bool-cases (topic_matches_filter g topic)) [
            | inl hit ↦
                rw
                  (
                    hit,
                    hit_case,
                    get-set g f bumped subscriptions,
                    same,
                    gone,
                    subst (λ (k : Text). topic_matches_filter k topic ≡ true) e hit,
                  )
                  refl
            | inr miss ↦
                rw
                  (
                    miss,
                    miss_case,
                    same,
                    gone,
                    subst (λ (k : Text). topic_matches_filter k topic ≡ false) e miss,
                  )
                  refl
          ]
      | inr other ↦ elim (Bool-cases (topic_matches_filter g topic)) [
        | inl hit ↦ rw (hit, hit_case, get-set g f bumped subscriptions, other) refl
        | inr miss ↦ rw (miss, miss_case, other) refl
      ]
    ]

-- A message on a topic raises the count of every subscription whose filter takes the topic by one,
-- and leaves each other subscription as it was; the map has one entry for a filter.
pub count_matches_lem :
    (topic f : Text) (subscriptions : Dict MqttSubscription)
    → IsMap subscriptions
    → get f (count_matches topic subscriptions subscriptions)
      ≡ counted topic f (get f subscriptions)
unfolding counted
count_matches_lem topic f subscriptions u = elim (Option-cases (get f subscriptions)) [
  | inl n ↦ rw (count_loop topic f subscriptions subscriptions u, n) refl
  | inr (s, e) ↦ elim (Bool-cases (topic_matches_filter f topic)) [
    | inl hit ↦ rw (count_loop topic f subscriptions subscriptions u, e, hit) refl
    | inr miss ↦ rw (count_loop topic f subscriptions subscriptions u, e, miss) refl
  ]
]

-- The text begins, after blanks, with a brace or a bracket.
abbrev pub bracketed : Text → Bool
bracketed s = starts_with (codes "{") (trim s) || starts_with (codes "[") (trim s)

bracket_full :
    (t : Text)
    → (starts_with (codes "{") t || starts_with (codes "[") t) ≡ true
    → is_empty t ≡ false
unfolding starts_with is_empty
bracket_full [] h = cc
bracket_full (x ∷ t) h = refl

-- A payload is shown in base64 exactly if it is no UTF-8 text, or it is a text that begins with a brace
-- or a bracket and that `JSON.parse` refuses.
pub base64_iff :
    (codec : Codec) (payload : List ℕ)
    → ((detect_payload_format codec payload).1 ≡ base64) ↔ (
        (codec.decode payload ≡ none)
        ⊎ ((s : Text) × (codec.decode payload ≡ some s)
            × (bracketed s ≡ true)
            × (codec.parses (trim s) ≡ false)))
unfolding detect_payload_format
base64_iff codec payload = elim (Option-cases (codec.decode payload)) [
  | inl n ↦ rw (n, detect_payload_format) (λ h. inl refl, λ h. refl)
  | inr (s, e) ↦ elim (Bool-cases (not (is_empty (trim s)) && bracketed s)) [
    | inl b ↦ elim (Bool-cases (codec.parses (trim s))) [
      | inl p ↦
          rw (e, detect_payload_format, b, p)
            (λ h. cc, λ h. elim h [ inl q ↦ cc | inr (x, q, c, r) ↦ cc ])
      | inr p ↦
          rw (e, detect_payload_format, b, p) (λ h. inr (s, refl, ground (arith, b), p), λ h. refl)
    ]
    | inr b ↦
        rw (e, detect_payload_format, b)
          (
            λ h. cc,
            λ h. elim h [
              | inl q ↦ cc
              | inr (x, q, c, r) ↦
                  let same = ap (λ (o : Option Text). or_else o x) q in
                  ground
                    (arith, b, subst (λ y. bracketed y ≡ true) (sym same) c, bracket_full (trim s))
            ],
          )
  ]
]
