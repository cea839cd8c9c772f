-- ===== src/Explorer/Requests.antt =====
-- The other methods of `MqttExplorerService` that a browser's request calls, those that ask the broker cut
-- where they wait for it.
use mqttctl.Prelude.{
  ℕ, Text, codes, ◌++◌, trim, Bool, true, ◌&&◌, Option, none, some, [], ◌∷◌, filter, is_some,
  if◌then◌else◌,
}
use mqttctl.Prelude.Dict
use mqttctl.Prelude.Dict.{Dict}
use mqttctl.Explorer.{
  Env, MqttQos, MqttSubscription, MqttExplorerState, SessionRecord, Service, store,
  get_or_create_session, snapshot, schedule_emit,
}
use mqttctl.Explorer.Trim.{trim_tracked_messages}
use mqttctl.Explorer.Operations.{
  Result, ok, err, not_connected, operation_failed, Reply, release_client, disconnect_done,
}

module _ (env : Env) where
  unfoldable pub get_explorer_state : Text → Service → MqttExplorerState × Service
  get_explorer_state key w =
      let (id, w') = get_or_create_session key w in (snapshot env (w'.objects id), w')

  -- `disconnect` up to the end of the client, and from there.
  unfoldable pub disconnect_begin : Text → Service → ℕ × Service
  disconnect_begin key w =
      let (id, w') = get_or_create_session key w in (id, release_client env id w')

  unfoldable pub disconnect_end : ℕ → Text → Text → Text → Service → Reply
  disconnect_end id key reason now w =
      let w' = disconnect_done env id key reason now w in (ok (snapshot env (w'.objects id)), w')

  -- `ensureConnected`: the client to use.
  unfoldable pub ensure_connected : SessionRecord → Result ℕ
  ensure_connected session = elim session.client [
    | none ↦ err not_connected
    | some client ↦ if session.connection.connected then ok client else err not_connected
  ]

  -- `subscribe` and `publish` up to their wait for the broker: the session's object, and the client that
  -- is asked or the error that ends the call.
  unfoldable pub ask_begin : Text → Service → (ℕ × Result ℕ) × Service
  unfolding ensure_connected
  ask_begin key w =
      let (id, w') = get_or_create_session key w in ((id, ensure_connected (w'.objects id)), w')

  -- What follows the wait, on the object that the call holds on to; `accepted` is the broker's answer.
  unfoldable pub subscribe_end : ℕ → Text → Text → MqttQos → Bool → Text → Service → Reply
  subscribe_end id key filter qos accepted now w =
      let normalized = trim filter in
      if accepted
      then (let session = w.objects id in
          let w' = schedule_emit env key true (
            store id
              (record session {
                subscriptions =
                    Dict.set normalized
                      (record {
                        filter = normalized;
                        qos = qos;
                        subscribed_at = now;
                        matched_message_count = 0;
                      })
                      session.subscriptions;
              })
              w) in
          (ok (snapshot env (w'.objects id)), w'))
      else (err (operation_failed (codes "Failed subscribing to " ++ normalized ++ codes ".")), w)

  unfoldable pub publish_end : ℕ → Text → Bool → Service → Reply
  publish_end id topic accepted w =
      if accepted
      then (ok (snapshot env (w.objects id)), w)
      else (err (operation_failed (codes "Failed publishing to " ++ topic ++ codes ".")), w)

  unfoldable pub unsubscribe_end : ℕ → Text → Text → Bool → Service → Reply
  unsubscribe_end id key filter accepted w =
      let normalized = trim filter in
      if accepted
      then (let session = w.objects id in
          let w' = schedule_emit env key true (
            store id
              (record session { subscriptions = Dict.delete normalized session.subscriptions })
              w) in
          (ok (snapshot env (w'.objects id)), w'))
      else (
        err (operation_failed (codes "Failed unsubscribing from " ++ normalized ++ codes ".")),
        w,
      )

  -- `unsubscribe` up to its wait, or to its end where the broker need not be asked.
  unfoldable pub unsubscribe_begin :
      Text → Text → Service → (ℕ × Option (Result MqttExplorerState)) × Service
  unfolding unsubscribe_end
  unsubscribe_begin key filter w =
      let (id, w') = get_or_create_session key w in
      let session = w'.objects id in
      if is_some (Dict.get (trim filter) session.subscriptions)
        && is_some session.client
        && session.connection.connected
      then ((id, none), w')
      else let (r, w'') = unsubscribe_end id key filter true w' in ((id, some r), w'')

-- `subscriptions.set(filter, { ...subscription, matchedMessageCount: 0 })` for each entry.
unfoldable pub reset_counts : Dict MqttSubscription → Dict MqttSubscription → Dict MqttSubscription
reset_counts [] subscriptions = subscriptions
reset_counts ((filter, subscription) ∷ rest) subscriptions =
    reset_counts rest
      (Dict.set filter (record subscription { matched_message_count = 0 }) subscriptions)

module _ (env : Env) where
  unfoldable pub clear_messages : Text → Service → Reply
  clear_messages key w =
      let (id, w') = get_or_create_session key w in
      let session = w'.objects id in
      let w'' = schedule_emit env key true (
        store id
          (record session {
            messages = [];
            total_messages = 0;
            subscriptions = reset_counts session.subscriptions session.subscriptions;
          })
          w') in
      (ok (snapshot env (w''.objects id)), w'')

  unfoldable pub set_tracked_topics_limit : Text → Option ℕ → Service → Reply
  set_tracked_topics_limit key limit w =
      let (id, w') = get_or_create_session key w in
      let w'' = schedule_emit env key true (
        store id
          (trim_tracked_messages env (record (w'.objects id) { tracked_topics_limit = limit }))
          w') in
      (ok (snapshot env (w''.objects id)), w'')
