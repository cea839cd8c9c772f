-- ===== src/Explorer/Steps.antt =====
-- Every interleaving of the explorer's operations, of the parts of those that wait, of the events of
-- its clients and of its timers, as a list of events.
pub mod Preserve
pub mod Requests
pub mod Reachable
use mqttctl.Prelude.{ℕ, Text, Bool, Option, List, [], ◌∷◌}
use mqttctl.Explorer.{Env, MqttQos, Service, created_session, emit_timer}
use mqttctl.Explorer.Messages.{Codec, Packet, on_message}
use mqttctl.Explorer.Operations.{
  ConnectInput, BrokerSecrets, release_client, on_connect, on_reconnect, on_offline, on_close,
  on_error, connect_begin, connect_open, connect_ready, connect_failed,
}
use mqttctl.Explorer.Requests.{
  get_explorer_state, disconnect_begin, disconnect_end, ask_begin, subscribe_end, unsubscribe_begin,
  unsubscribe_end, publish_end, clear_messages, set_tracked_topics_limit,
}
use mqttctl.Explorer.Watch.{watch_session, unwatch, close_timer, close_finish}

-- A part after a wait names the object that the method holds on to, and may come at any time.
pub data Event : Type 0 where
  begins_connect : Text → Event
  opens_connect : ℕ → Text → BrokerSecrets → ConnectInput → Text → ℕ → Text → Event
  ends_connect : ℕ → Text → ConnectInput → Text → Text → Event
  fails_connect : ℕ → Text → Text → Text → Event
  releases : ℕ → Event
  begins_disconnect : Text → Event
  ends_disconnect : ℕ → Text → Text → Text → Event
  reads : Text → Event
  begins_ask : Text → Event
  ends_subscribe : ℕ → Text → Text → MqttQos → Bool → Text → Event
  begins_unsubscribe : Text → Text → Event
  ends_unsubscribe : ℕ → Text → Text → Bool → Event
  ends_publish : ℕ → Text → Bool → Event
  clears : Text → Event
  limits : Text → Option ℕ → Event
  client_connect : Text → ℕ → Text → Text → Event
  client_reconnect : Text → ℕ → Text → Event
  client_offline : Text → ℕ → Text → Event
  client_close : Text → ℕ → Text → Event
  client_error : Text → ℕ → Text → Text → Event
  client_message : Text → ℕ → Packet → Text → Event
  watches : Text → ℕ → Option ℕ → Event
  unwatches : Text → ℕ → Option ℕ → Event
  close_timer_fires : ℕ → Text → Event
  close_ends : ℕ → Text → Text → Event
  emit_timer_fires : ℕ → Text → Event

abbrev pub initial : Service
initial = record { objects = λ id. created_session; next = 0; sessions = []; calls = [] }

module _ (env : Env) (codec : Codec) where
  unfoldable pub step : Event → Service → Service
  step (begins_connect key) w = (connect_begin env key w).1
  step (opens_connect id key broker input port client now) w =
      connect_open env id key broker input port client now w
  step (ends_connect id key input port now) w = (connect_ready env id key input port now w).1
  step (fails_connect id key message now) w = (connect_failed env id key message now w).1
  step (releases id) w = release_client env id w
  step (begins_disconnect key) w = (disconnect_begin env key w).1
  step (ends_disconnect id key reason now) w = (disconnect_end env id key reason now w).1
  step (reads key) w = (get_explorer_state env key w).1
  step (begins_ask key) w = (ask_begin env key w).1
  step (ends_subscribe id key filter qos accepted now) w =
      (subscribe_end env id key filter qos accepted now w).1
  step (begins_unsubscribe key filter) w = (unsubscribe_begin env key filter w).1
  step (ends_unsubscribe id key filter accepted) w =
      (unsubscribe_end env id key filter accepted w).1
  step (ends_publish id topic accepted) w = (publish_end env id topic accepted w).1
  step (clears key) w = (clear_messages env key w).1
  step (limits key limit) w = (set_tracked_topics_limit env key limit w).1
  step (client_connect key client port now) w = on_connect env key client port now w
  step (client_reconnect key client now) w = on_reconnect env key client now w
  step (client_offline key client now) w = on_offline env key client now w
  step (client_close key client now) w = on_close env key client now w
  step (client_error key client message now) w = on_error env key client message now w
  step (client_message key client packet now) w = on_message env codec key client packet now w
  step (watches key listener message_listener) w =
      (watch_session env key listener message_listener w).1
  step (unwatches key listener message_listener) w = unwatch key listener message_listener w
  step (close_timer_fires id key) w = (close_timer env id key w).1
  step (close_ends id key now) w = close_finish env id key now w
  step (emit_timer_fires id key) w = emit_timer env id key w

  unfoldable pub run : List Event → Service → Service
  unfolding step
  run [] w = w
  run (e ∷ es) w = run es (step e w)
