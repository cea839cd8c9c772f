-- ===== src/Explorer.antt =====
-- The MQTT explorer, mqttctl/mqttctl-api/src/lib/server/mqtt/service.ts: its data, its sessions as
-- shared objects, and the notification of listeners.
pub mod Topic
pub mod Trim
pub mod Messages
pub mod Operations
pub mod Requests
pub mod Watch
pub mod Soundness
pub mod Steps
pub mod Kept
pub mod Effects
pub mod Superseded
pub mod Closing
mod Examples
use mqttctl.Prelude.{
  ℕ, ◌+◌, Text, codes, ◌++◌, Bool, true, false, Option, none, some, List, [], ◌∷◌, map, length,
  is_some, eqb, sort, if◌then◌else◌,
}
use mqttctl.Prelude.Dict
use mqttctl.Prelude.Dict.{Dict, values}

pub data MqttQos : Type 0 where
  at_most_once at_least_once exactly_once : MqttQos

pub data MqttAuthMode : Type 0 where
  configured_admin dynsec_client custom : MqttAuthMode

pub data MqttConnectionState : Type 0 where
  disconnected connecting connected error : MqttConnectionState

pub data PayloadFormat : Type 0 where
  text json base64 : PayloadFormat

pub record MqttConnectionDefaults : Type 0 where
  pub host : Text
  pub port : ℕ
  pub tls : Bool
  pub auth_mode : MqttAuthMode
  pub configured_username : Text
  pub configured_client_id : Text

pub record MqttConnectionStatus : Type 0 where
  pub state : MqttConnectionState
  pub connected : Bool
  pub host : Option Text
  pub port : Option ℕ
  pub tls : Bool
  pub auth_mode : Option MqttAuthMode
  pub username : Option Text
  pub client_id : Option Text
  pub message : Option Text
  pub connected_at : Option Text
  pub updated_at : Option Text

abbrev pub default_connection_status : MqttConnectionStatus
default_connection_status = record {
  state = disconnected;
  connected = false;
  host = none;
  port = none;
  tls = false;
  auth_mode = none;
  username = none;
  client_id = none;
  message = none;
  connected_at = none;
  updated_at = none;
}

pub record MqttSubscription : Type 0 where
  pub filter : Text
  pub qos : MqttQos
  pub subscribed_at : Text
  pub matched_message_count : ℕ

pub record MqttLatestMessage : Type 0 where
  pub topic : Text
  pub payload : Text
  pub payload_format : PayloadFormat
  pub qos : MqttQos
  pub retain : Bool
  pub received_at : Text
  pub byte_length : ℕ
  pub preview : Text

-- A client, a listener and a session object are known by the number that they got when they were
-- made: `===` on them compares the numbers. A timer is known by whether it is pending.
pub record SessionRecord : Type 0 where
  pub client : Option ℕ
  pub revision : ℕ
  pub connection : MqttConnectionStatus
  pub subscriptions : Dict MqttSubscription
  pub messages : Dict MqttLatestMessage
  pub total_messages : ℕ
  pub tracked_topics_limit : Option ℕ
  pub listeners : List ℕ
  pub message_listeners : List ℕ
  pub pending_emit_timer : Bool
  pub pending_session_close_timer : Bool

abbrev pub created_session : SessionRecord
created_session = record {
  client = none;
  revision = 0;
  connection = default_connection_status;
  subscriptions = [];
  messages = [];
  total_messages = 0;
  tracked_topics_limit = none;
  listeners = [];
  message_listeners = [];
  pending_emit_timer = false;
  pending_session_close_timer = false;
}

pub record MqttExplorerState : Type 0 where
  pub revision : ℕ
  pub defaults : MqttConnectionDefaults
  pub connection : MqttConnectionStatus
  pub subscriptions : List MqttSubscription
  pub messages : List MqttLatestMessage
  pub total_messages : ℕ
  pub tracked_topics : ℕ
  pub tracked_topics_limit : Option ℕ

-- What a listener was called with.
pub data Call : Type 0 where
  state_call : ℕ → MqttExplorerState → Call
  message_call : ℕ → MqttLatestMessage → Call

-- The service. `sessions` maps a key to a session object, which operations under way hold on to
-- after the map has let go of it; so the objects have a store of their own, `next` the first number
-- that is free. `calls` are the calls of listeners so far, oldest first.
pub record Service : Type 0 where
  pub objects : ℕ → SessionRecord
  pub next : ℕ
  pub sessions : Dict ℕ
  pub calls : List Call

-- From outside: the configured defaults, and `a.localeCompare(b) <= 0`.
pub record Env : Type 0 where
  pub defaults : MqttConnectionDefaults
  pub not_after : Text → Text → Bool

-- `Object.assign` on one session object.
unfoldable pub store : ℕ → SessionRecord → Service → Service
store id session w = record w { objects = λ i. if eqb i id then session else w.objects i }

unfoldable pub get_or_create_session : Text → Service → ℕ × Service
get_or_create_session key w = elim (Dict.get key w.sessions) [
  | some id ↦ (id, w)
  | none ↦ (
    w.next,
    record w {
      objects = λ i. if eqb i w.next then created_session else w.objects i;
      next = w.next + 1;
      sessions = Dict.set key w.next w.sessions;
    },
  )
]

module _ (env : Env) where
  unfoldable pub snapshot : SessionRecord → MqttExplorerState
  snapshot session = record {
    revision = session.revision;
    defaults = env.defaults;
    connection = session.connection;
    subscriptions = sort (λ l r. env.not_after l.filter r.filter) (values session.subscriptions);
    messages = sort (λ l r. env.not_after r.received_at l.received_at) (values session.messages);
    total_messages = session.total_messages;
    tracked_topics = length session.messages;
    tracked_topics_limit = session.tracked_topics_limit;
  }

  -- With no listener the loop over the listeners makes no call.
  unfoldable pub emit_now : Text → Service → Service
  unfolding snapshot
  emit_now key w = elim (Dict.get key w.sessions) [
    | none ↦ w
    | some id ↦
        let session = w.objects id in
        record w {
          calls =
              w.calls ++ map (λ listener. state_call listener (snapshot session)) session.listeners;
        }
  ]

  unfoldable pub schedule_emit : Text → Bool → Service → Service
  unfolding store
  schedule_emit key immediate w = elim (Dict.get key w.sessions) [
    | none ↦ w
    | some id ↦
        let session = w.objects id in
        let revised = record session { revision = session.revision + 1 } in
        if immediate
        then emit_now key (store id (record revised { pending_emit_timer = false }) w)
        else store id (record revised { pending_emit_timer = true }) w
  ]

  -- The timer of `scheduleEmit` runs out.
  unfoldable pub emit_timer : ℕ → Text → Service → Service
  unfolding store
  emit_timer id key w =
      if (w.objects id).pending_emit_timer
      then emit_now key (store id (record (w.objects id) { pending_emit_timer = false }) w)
      else w

unfoldable pub set_connection_status : ℕ → MqttConnectionStatus → Text → Service → Service
unfolding store
set_connection_status id patched now w =
    store id (record (w.objects id) { connection = record patched { updated_at = some now } }) w
