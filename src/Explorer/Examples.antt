-- ===== src/Explorer/Examples.antt =====
-- The explorer at concrete values.
use Prim.Native.Nat.{min}
use mqttctl.Prelude.{
  ℕ, ◌≡◌, ◌↔◌, ◌⊎◌, refl, Text, codes, ◌==◌, starts_with, ◌&&◌, ◌||◌, Bool, true, false, Option,
  none, some, List, [], ◌∷◌, length, inl, inr, IsOrder, trim, any, arith,
}
use mqttctl.Prelude.Dict.{Dict, get}
use mqttctl.Explorer.{
  Env, at_most_once, configured_admin, base64, text, MqttSubscription, MqttLatestMessage,
  SessionRecord, Service, created_session,
}
use mqttctl.Explorer.Topic.{
  topic_matches_filter, split_levels, first_is_wildcard, Matches, topic_matches_filter_iff,
}
use mqttctl.Explorer.Trim.{effective_limit, trim_tracked_messages}
use mqttctl.Explorer.Trim.Eviction.{trim_tracked_messages_lem}
use mqttctl.Explorer.Messages.{Codec, Packet, detect_payload_format, count_matches, on_message}
use mqttctl.Explorer.Operations.{connect_failed}
use mqttctl.Explorer.Watch.{watch_session, close_timer, close_finish}
use mqttctl.Explorer.Soundness.{AllSound}
use mqttctl.Explorer.Steps.{
  Event, run, initial, watches, begins_ask, ends_subscribe, begins_connect, reads,
}
use mqttctl.Explorer.Steps.Reachable.{run-AllSound}
use mqttctl.Explorer.Effects.{counted, count_matches_lem, bracketed, base64_iff}
use mqttctl.Explorer.Superseded.{connect_failed-deafens}
use mqttctl.Explorer.Closing.{watch-close}

-- All times are alike.
abbrev env : Env
env = record {
  defaults = record {
    host = codes "localhost";
    port = 1883;
    tls = false;
    auth_mode = configured_admin;
    configured_username = codes "admin";
    configured_client_id = codes "mqttctl";
  };
  not_after = λ a b. true;
}

env-IsOrder : IsOrder env.not_after
env-IsOrder = record { total = λ a b h. refl; transitive = λ a b c p q. refl }

-- Only the text `[]` parses.
abbrev codec : Codec
codec = record { decode = some; parses = λ s. s == codes "[]"; to_base64 = λ bytes. codes "base64" }

abbrev subscription : Text → MqttSubscription
subscription filter = record {
  filter = filter;
  qos = at_most_once;
  subscribed_at = codes "t";
  matched_message_count = 2;
}

abbrev two_filters : Dict MqttSubscription
two_filters = (codes "a/+", subscription (codes "a/+")) ∷ (codes "b", subscription (codes "b")) ∷ []

abbrev message : Text → MqttLatestMessage
message topic = record {
  topic = topic;
  payload = codes "p";
  payload_format = text;
  qos = at_most_once;
  retain = false;
  received_at = codes "t";
  byte_length = 1;
  preview = codes "p";
}

abbrev two_topics : SessionRecord
two_topics = record created_session {
  messages = (codes "a", message (codes "a")) ∷ (codes "b", message (codes "b")) ∷ [];
  tracked_topics_limit = some 1;
}

abbrev connected_session : Service
connected_session = record initial {
  objects = λ i. record created_session { client = some 7 };
  next = 1;
  sessions = (codes "k", 0) ∷ [];
}

abbrev packet : Packet
packet = record { topic = codes "a/b"; payload = codes "x"; qos = at_most_once; retain = false }

abbrev events : List Event
events =
    watches (codes "k") 1 none
    ∷ begins_connect (codes "k")
    ∷ begins_ask (codes "k")
    ∷ ends_subscribe 0 (codes "k") (codes "#") at_most_once true (codes "t")
    ∷ reads (codes "k")
    ∷ []

topic_matches_filter_iff_example : (topic_matches_filter (codes "a/+") (codes "a/b") ≡ true) ↔ (
    ((starts_with (codes "$") (codes "a/b") && first_is_wildcard (split_levels (codes "a/+")))
      ≡ false)
    × Matches (split_levels (codes "a/+")) (split_levels (codes "a/b")))
topic_matches_filter_iff_example = topic_matches_filter_iff (codes "a/+") (codes "a/b")

trim_tracked_messages_lem_example :
    let kept = (trim_tracked_messages env two_topics).messages in
    (length kept
      ≡ min (length two_topics.messages) (effective_limit two_topics.tracked_topics_limit))
    × ((s : Text) (w : MqttLatestMessage)
        → get s kept ≡ some w
        → get s two_topics.messages ≡ some w)
    × ((t s : Text) (v w : MqttLatestMessage)
        → get t two_topics.messages ≡ some v
        → get t kept ≡ none
        → get s kept ≡ some w
        → env.not_after v.received_at w.received_at ≡ true)
unfolding get ◌==◌
trim_tracked_messages_lem_example =
    trim_tracked_messages_lem env two_topics env-IsOrder (refl, (refl, tt)) (refl, (refl, tt))

run-AllSound_example : AllSound (run env codec events initial)
run-AllSound_example = run-AllSound env codec events

count_matches_lem_example :
    get (codes "a/+") (count_matches (codes "a/b") two_filters two_filters)
    ≡ counted (codes "a/b") (codes "a/+") (get (codes "a/+") two_filters)
unfolding get ◌==◌
count_matches_lem_example =
    count_matches_lem (codes "a/b") (codes "a/+") two_filters (refl, (refl, tt))

base64_iff_example : ((detect_payload_format codec (codes "[INFO] up")).1 ≡ base64) ↔ (
    (codec.decode (codes "[INFO] up") ≡ none)
    ⊎ ((s : Text) × (codec.decode (codes "[INFO] up") ≡ some s)
        × (bracketed s ≡ true)
        × (codec.parses (trim s) ≡ false)))
base64_iff_example = base64_iff codec (codes "[INFO] up")

connect_failed-deafens_example :
    on_message env codec
      (codes "k")
      7
      packet
      (codes "t2")
      (connect_failed env 0 (codes "k") (codes "Timeout") (codes "t1") connected_session).1
    ≡ (connect_failed env 0 (codes "k") (codes "Timeout") (codes "t1") connected_session).1
unfolding get ◌==◌
connect_failed-deafens_example =
    connect_failed-deafens env codec 0 (codes "k") (codes "Timeout") (codes "t1") (codes "t2") 7
      packet connected_session refl

watch-close_example :
    let (id, w') = watch_session env (codes "k") 1 none connected_session in
    ((close_timer env id (codes "k") w').0 ≡ false)
    × (get (codes "k") (close_finish env id (codes "k") (codes "t") w').sessions ≡ some id)
watch-close_example = watch-close env (codes "k") (codes "t") 1 none connected_session

-- A plain line of a log that begins with a bracket is shown in base64.
log_line_is_base64 : (detect_payload_format codec (codes "[INFO] up")).1 ≡ base64
unfolding detect_payload_format mqttctl.Prelude.is_empty trim starts_with ◌==◌
log_line_is_base64 = refl
