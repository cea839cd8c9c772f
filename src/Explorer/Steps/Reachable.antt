-- ===== src/Explorer/Steps/Reachable.antt =====
-- What every run of the explorer's events keeps, from the start of the server.
use mqttctl.Prelude.{refl, List, [], ◌∷◌}
use mqttctl.Explorer.{Env, Service}
use mqttctl.Explorer.Messages.{Codec}
use mqttctl.Explorer.Operations.{
  connect_begin, on_connect, on_reconnect, on_offline, on_close, on_error,
}
use mqttctl.Explorer.Requests.{disconnect_begin, disconnect_end, get_explorer_state, ask_begin}
use mqttctl.Explorer.Soundness.{AllSound, created-IsSound, create-AllSound, emit_timer-AllSound}
use mqttctl.Explorer.Steps.{
  Event, step, run, initial, begins_connect, opens_connect, ends_connect, fails_connect, releases,
  begins_disconnect, ends_disconnect, reads, begins_ask, ends_subscribe, begins_unsubscribe,
  ends_unsubscribe, ends_publish, clears, limits, client_connect, client_reconnect, client_offline,
  client_close, client_error, client_message, watches, unwatches, close_timer_fires, close_ends,
  emit_timer_fires,
}
use mqttctl.Explorer.Steps.Preserve.{
  on_message-AllSound, on_status-AllSound, release_client-AllSound, disconnect_done-AllSound,
  connect_open-AllSound, connect_ready-AllSound, connect_failed-AllSound,
}
use mqttctl.Explorer.Steps.Requests.{
  subscribe_end-AllSound, unsubscribe_begin-AllSound, unsubscribe_end-AllSound,
  publish_end-AllSound, clear_messages-AllSound, set_tracked_topics_limit-AllSound,
  watch_session-AllSound, close_timer-AllSound, close_finish-AllSound, unwatch-AllSound,
}

module _ (env : Env) (codec : Codec) where
  step-AllSound : (e : Event) (w : Service) → AllSound w → AllSound (step env codec e w)
  unfolding step connect_begin disconnect_begin disconnect_end ask_begin get_explorer_state
      on_connect on_reconnect on_offline on_close on_error
  step-AllSound (begins_connect key) w h = release_client-AllSound env _ _ (create-AllSound key w h)
  step-AllSound (opens_connect id key broker input port client now) w h =
      connect_open-AllSound env id key broker input port client now w h
  step-AllSound (ends_connect id key input port now) w h =
      connect_ready-AllSound env id key input port now w h
  step-AllSound (fails_connect id key message now) w h =
      connect_failed-AllSound env id key message now w h
  step-AllSound (releases id) w h = release_client-AllSound env id w h
  step-AllSound (ends_disconnect id key reason now) w h =
      disconnect_done-AllSound env id key reason now w h
  step-AllSound (begins_disconnect key) w h =
      release_client-AllSound env _ _ (create-AllSound key w h)
  step-AllSound (reads key) w h = create-AllSound key w h
  step-AllSound (begins_ask key) w h = create-AllSound key w h
  step-AllSound (ends_subscribe id key filter qos accepted now) w h =
      subscribe_end-AllSound env id key filter qos accepted now w h
  step-AllSound (begins_unsubscribe key filter) w h = unsubscribe_begin-AllSound env key filter w h
  step-AllSound (ends_unsubscribe id key filter accepted) w h =
      unsubscribe_end-AllSound env id key filter accepted w h
  step-AllSound (ends_publish id topic accepted) w h =
      publish_end-AllSound env id topic accepted w h
  step-AllSound (clears key) w h = clear_messages-AllSound env key w h
  step-AllSound (limits key limit) w h = set_tracked_topics_limit-AllSound env key limit w h
  step-AllSound (client_connect key client port now) w h =
      on_status-AllSound env key client _ now w (λ c p. refl) h
  step-AllSound (client_reconnect key client now) w h =
      on_status-AllSound env key client _ now w (λ c p. cc) h
  step-AllSound (client_offline key client now) w h =
      on_status-AllSound env key client _ now w (λ c p. cc) h
  step-AllSound (client_close key client now) w h =
      on_status-AllSound env key client _ now w (λ c p. cc) h
  step-AllSound (client_error key client message now) w h =
      on_status-AllSound env key client _ now w (λ c p. cc) h
  step-AllSound (client_message key client packet now) w h =
      on_message-AllSound env codec key client packet now w h
  step-AllSound (watches key listener message_listener) w h =
      watch_session-AllSound env key listener message_listener w h
  step-AllSound (unwatches key listener message_listener) w h =
      unwatch-AllSound key listener message_listener w h
  step-AllSound (close_timer_fires id key) w h = close_timer-AllSound env id key w h
  step-AllSound (close_ends id key now) w h = close_finish-AllSound env id key now w h
  step-AllSound (emit_timer_fires id key) w h = emit_timer-AllSound env id key w h

  kept-AllSound : (es : List Event) (w : Service) → AllSound w → AllSound (run env codec es w)
  unfolding run
  kept-AllSound [] w h = h
  kept-AllSound (e ∷ es) w h = kept-AllSound es (step env codec e w) (step-AllSound e w h)

-- From the empty service, whatever list of events is run, each session object has one entry for a
-- filter and for a topic, each message stands under its topic, there are no more messages than the
-- session's limit on tracked topics, and a status that says "connected" is in the connected state.
pub run-AllSound :
    (env : Env) (codec : Codec) (es : List Event) → AllSound (run env codec es initial)
run-AllSound env codec es =
    kept-AllSound env codec es initial (record { at = λ id. created-IsSound })
