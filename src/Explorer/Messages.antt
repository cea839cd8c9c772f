-- ===== src/Explorer/Messages.antt =====
-- The `message` event of a client: `detectPayloadFormat`, `buildPreview` and the handler in
-- `bindClientEvents`.
use mqttctl.Prelude.{
  ℕ, ◌+◌, Text, codes, trim, is_empty, starts_with, not, Bool, false, ◌&&◌, ◌||◌, Option, none,
  some, List, [], ◌∷◌, ◌++◌, map, length, take, ltb, eqb, if◌then◌else◌,
}
use mqttctl.Prelude.Dict
use mqttctl.Prelude.Dict.{Dict, get, set, get-set, IsMap}
use mqttctl.Explorer.{
  Env, MqttQos, PayloadFormat, text, json, base64, MqttLatestMessage, MqttSubscription,
  SessionRecord, Service, message_call, store, schedule_emit,
}
use mqttctl.Explorer.Topic.{topic_matches_filter}
use mqttctl.Explorer.Trim.{trim_tracked_messages}

-- From outside: a strict UTF-8 decoder, which fails on bytes that are no text, whether `JSON.parse`
-- accepts a text, and base64.
pub record Codec : Type 0 where
  pub decode : List ℕ → Option Text
  pub parses : Text → Bool
  pub to_base64 : List ℕ → Text

-- A packet as the client library hands it to the handler.
pub record Packet : Type 0 where
  pub topic : Text
  pub payload : List ℕ
  pub qos : MqttQos
  pub retain : Bool

module _ (codec : Codec) where
  -- Both the decoder and `JSON.parse` stand in the `try` block.
  unfoldable pub detect_payload_format : List ℕ → Text × PayloadFormat
  detect_payload_format payload = elim (codec.decode payload) [
    | none ↦ (codec.to_base64 payload, base64)
    | some decoded ↦
        let trimmed = trim decoded in
        if not (is_empty trimmed)
          && (starts_with (codes "{") trimmed || starts_with (codes "[") trimmed)
        then (if codec.parses trimmed then (decoded, json) else (codec.to_base64 payload, base64))
        else (decoded, text)
  ]

unfoldable pub build_preview : Text → Text
build_preview value = if ltb 160 (length value) then take 157 value ++ codes "..." else value

unfoldable pub next_message : Codec → Packet → Text → MqttLatestMessage
unfolding detect_payload_format build_preview
next_message codec packet now =
    let (payload, format) = detect_payload_format codec packet.payload in
    record {
      topic = packet.topic;
      payload = payload;
      payload_format = format;
      qos = packet.qos;
      retain = packet.retain;
      received_at = now;
      byte_length = length packet.payload;
      preview = build_preview payload;
    }

-- The loop over the subscriptions: each `set` is on a key that is there.
unfoldable pub count_matches :
    Text → Dict MqttSubscription → Dict MqttSubscription → Dict MqttSubscription
count_matches topic [] subscriptions = subscriptions
count_matches topic ((filter, subscription) ∷ rest) subscriptions = count_matches topic rest (
    if topic_matches_filter filter topic
    then set filter
        (record subscription { matched_message_count = subscription.matched_message_count + 1 })
        subscriptions
    else subscriptions)

-- The handler does nothing unless its client is the one that the key's session now has.
unfoldable pub is_current : Text → ℕ → Service → Option ℕ
is_current key client w = elim (Dict.get key w.sessions) [
  | none ↦ none
  | some id ↦ elim (w.objects id).client [
    | none ↦ none
    | some active ↦ if eqb active client then some id else none
  ]
]

module _ (env : Env) (codec : Codec) where
  unfoldable pub record_message : Packet → Text → SessionRecord → SessionRecord
  unfolding next_message count_matches trim_tracked_messages
  record_message packet now session = trim_tracked_messages env (record session {
    total_messages = session.total_messages + 1;
    messages = set packet.topic (next_message codec packet now) session.messages;
    subscriptions = count_matches packet.topic session.subscriptions session.subscriptions;
  })

  unfoldable pub on_message : Text → ℕ → Packet → Text → Service → Service
  unfolding is_current store
  on_message key client packet now w = elim (is_current key client w) [
    | none ↦ w
    | some id ↦
        let message = next_message codec packet now in
        let notified = record w {
          calls =
              w.calls
              ++ map (λ listener. message_call listener message) (w.objects id).message_listeners;
        } in
        schedule_emit env key false (store id (record_message packet now (w.objects id)) notified)
  ]
