-- ===== src/Explorer/Steps/Requests.antt =====
-- The requests of a browser keep every session object sound.
use mqttctl.Prelude.{
  ℕ, Text, codes, trim, not, ◌&&◌, Bool, true, false, Option, is_some, inl, inr, Bool-cases,
  Option-cases,
}
use mqttctl.Prelude.Dict.{get, set-IsMap, delete-IsMap}
use mqttctl.Explorer.{Env, MqttQos, Service, store, get_or_create_session}
use mqttctl.Explorer.Operations.{disconnect_done}
use mqttctl.Explorer.Requests.{
  subscribe_end, unsubscribe_begin, unsubscribe_end, publish_end, clear_messages,
  set_tracked_topics_limit,
}
use mqttctl.Explorer.Watch.{
  watch_session, unwatch, close_timer, close_finish, has_listeners, is_live, add_listener,
  delete_listener, with_option,
}
use mqttctl.Explorer.Soundness.{
  AllSound, store-AllSound, create-AllSound, emptied-IsSound, subscriptions-IsSound,
  channels-IsSound, trimmed-IsSound, schedule_emit-AllSound,
}
use mqttctl.Explorer.Steps.Preserve.{
  reset_counts-IsMap, release_client-AllSound, disconnect_done-AllSound,
}

module _ (env : Env) where
  pub subscribe_end-AllSound :
      (id : ℕ) (key filter : Text) (qos : MqttQos) (accepted : Bool) (now : Text) (w : Service)
      → AllSound w
      → AllSound (subscribe_end env id key filter qos accepted now w).1
  unfolding subscribe_end
  subscribe_end-AllSound id key filter qos false now w h = h
  subscribe_end-AllSound id key filter qos true now w h = schedule_emit-AllSound env key true _ (
      store-AllSound id _ w
        (subscriptions-IsSound (h.at id) _
          (set-IsMap (trim filter) _ (w.objects id).subscriptions (h.at id).subscribed))
        h)

  pub unsubscribe_end-AllSound :
      (id : ℕ) (key filter : Text) (accepted : Bool) (w : Service)
      → AllSound w
      → AllSound (unsubscribe_end env id key filter accepted w).1
  unfolding unsubscribe_end
  unsubscribe_end-AllSound id key filter false w h = h
  unsubscribe_end-AllSound id key filter true w h = schedule_emit-AllSound env key true _ (
      store-AllSound id _ w
        (subscriptions-IsSound (h.at id) _
          (delete-IsMap (trim filter) (w.objects id).subscriptions (h.at id).subscribed))
        h)

  pub unsubscribe_begin-AllSound :
      (key filter : Text) (w : Service)
      → AllSound w
      → AllSound (unsubscribe_begin env key filter w).1
  unfolding unsubscribe_begin
  unsubscribe_begin-AllSound key filter w h =
      let (id, w') = get_or_create_session key w in
      let created = create-AllSound key w h in
      let session = w'.objects id in
      elim (Bool-cases (
        is_some (get (trim filter) session.subscriptions)
        && is_some session.client
        && session.connection.connected)) [
          | inl q ↦ rw q created
          | inr q ↦ rw q (unsubscribe_end-AllSound id key filter true w' created)
        ]

  pub publish_end-AllSound :
      (id : ℕ) (topic : Text) (accepted : Bool) (w : Service)
      → AllSound w
      → AllSound (publish_end env id topic accepted w).1
  unfolding publish_end
  publish_end-AllSound id topic false w h = h
  publish_end-AllSound id topic true w h = h

  pub clear_messages-AllSound :
      (key : Text) (w : Service) → AllSound w → AllSound (clear_messages env key w).1
  unfolding clear_messages
  clear_messages-AllSound key w h =
      let (id, w') = get_or_create_session key w in
      let created = create-AllSound key w h in
      let subscriptions = (w'.objects id).subscriptions in
      schedule_emit-AllSound env key true _ (
        store-AllSound id _ w'
          (emptied-IsSound (created.at id) _ 0
            (reset_counts-IsMap subscriptions subscriptions (created.at id).subscribed))
          created)

  pub set_tracked_topics_limit-AllSound :
      (key : Text) (limit : Option ℕ) (w : Service)
      → AllSound w
      → AllSound (set_tracked_topics_limit env key limit w).1
  unfolding set_tracked_topics_limit
  set_tracked_topics_limit-AllSound key limit w h =
      let (id, w') = get_or_create_session key w in
      let created = create-AllSound key w h in
      let s = created.at id in
      schedule_emit-AllSound env key true _ (
        store-AllSound id _ w' (trimmed-IsSound env _ s.subscribed s.tracked s.keyed s.online)
          created)

  pub watch_session-AllSound :
      (key : Text) (listener : ℕ) (message_listener : Option ℕ) (w : Service)
      → AllSound w
      → AllSound (watch_session env key listener message_listener w).1
  unfolding watch_session
  watch_session-AllSound key listener message_listener w h =
      let (id, w') = get_or_create_session key w in
      let created = create-AllSound key w h in
      let stored =
        store-AllSound id _ w'
          (channels-IsSound (created.at id) (add_listener listener (w'.objects id).listeners)
            (with_option add_listener message_listener (w'.objects id).message_listeners)
            (w'.objects id).pending_emit_timer false)
          created in
      record { at = stored.at }

  pub close_timer-AllSound :
      (id : ℕ) (key : Text) (w : Service) → AllSound w → AllSound (close_timer env id key w).1
  unfolding close_timer
  close_timer-AllSound id key w h =
      let s = w.objects id in
      let fired = store id (record s { pending_session_close_timer = false }) w in
      let f =
        store-AllSound id _ w
          (channels-IsSound (h.at id) s.listeners s.message_listeners s.pending_emit_timer false)
          h in
      elim (Bool-cases s.pending_session_close_timer) [
        | inl due ↦
            elim (Bool-cases (is_live key id fired && not (has_listeners (fired.objects id)))) [
              | inl q ↦ rw (due, q) (release_client-AllSound env id fired f)
              | inr q ↦ rw (due, q) f
            ]
        | inr idle ↦ rw idle h
      ]

  pub close_finish-AllSound :
      (id : ℕ) (key now : Text) (w : Service)
      → AllSound w
      → AllSound (close_finish env id key now w)
  unfolding close_finish
  close_finish-AllSound id key now w h =
      let w' = disconnect_done env id key (codes "Browser live channel closed.") now w in
      let done =
        disconnect_done-AllSound env id key (codes "Browser live channel closed.") now w h in
      elim (Bool-cases (is_live key id w' && not (has_listeners (w'.objects id)))) [
        | inl q ↦ rw q (record { at = done.at })
        | inr q ↦ rw q done
      ]

pub unwatch-AllSound :
    (key : Text) (listener : ℕ) (message_listener : Option ℕ) (w : Service)
    → AllSound w
    → AllSound (unwatch key listener message_listener w)
unfolding unwatch
unwatch-AllSound key listener message_listener w h = elim (Option-cases (get key w.sessions)) [
  | inl e ↦ rw (e, unwatch) h
  | inr (id, e) ↦
      let s = w.objects id in
      let ls = delete_listener listener s.listeners in
      let ms = with_option delete_listener message_listener s.message_listeners in
      elim (Bool-cases (has_listeners (record s { listeners = ls; message_listeners = ms }))) [
        | inl some_left ↦
            rw (e, unwatch, some_left)
              (store-AllSound id _ w
                (channels-IsSound (h.at id) ls ms s.pending_emit_timer
                  s.pending_session_close_timer)
                h)
        | inr none_left ↦
            rw (e, unwatch, none_left)
              (store-AllSound id _ w (channels-IsSound (h.at id) ls ms false true) h)
      ]
]
