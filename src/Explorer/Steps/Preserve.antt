-- ===== src/Explorer/Steps/Preserve.antt =====
-- Every event keeps every session object sound.
use mqttctl.Prelude.{
  ℕ, ◌≡◌, refl, Text, codes, true, false, none, some, [], ◌∷◌, eq_iff, arith, inl, inr, Bool-cases,
  Option-cases,
}
use mqttctl.Prelude.Dict.{Dict, IsMap, set, set-IsMap}
use mqttctl.Explorer.{
  Env, MqttConnectionStatus, MqttLatestMessage, MqttSubscription, SessionRecord, Service, connected,
}
use mqttctl.Explorer.Trim.{IsKeyed}
use mqttctl.Explorer.Messages.{
  Codec, Packet, next_message, count_matches, record_message, is_current, on_message,
}
use mqttctl.Explorer.Topic.{topic_matches_filter}
use mqttctl.Explorer.Operations.{
  ConnectInput, BrokerSecrets, release_client, disconnect_done, on_status, connect_open,
  connect_ready, connect_failed,
}
use mqttctl.Explorer.Requests.{reset_counts}
use mqttctl.Explorer.Soundness.{
  IsSound, AllSound, store-AllSound, client-IsSound, emptied-IsSound, trimmed-IsSound,
  schedule_emit-AllSound, set_status-AllSound,
}

pub count_matches-IsMap :
    (topic : Text) (rest subscriptions : Dict MqttSubscription)
    → IsMap subscriptions
    → IsMap (count_matches topic rest subscriptions)
unfolding count_matches
count_matches-IsMap topic [] subscriptions u = u
count_matches-IsMap topic ((f, s) ∷ rest) subscriptions u =
    elim (Bool-cases (topic_matches_filter f topic)) [
      | inl hit ↦ rw hit (count_matches-IsMap topic rest _ (set-IsMap f _ subscriptions u))
      | inr miss ↦ rw miss (count_matches-IsMap topic rest subscriptions u)
    ]

pub reset_counts-IsMap :
    (rest subscriptions : Dict MqttSubscription)
    → IsMap subscriptions
    → IsMap (reset_counts rest subscriptions)
unfolding reset_counts
reset_counts-IsMap [] subscriptions u = u
reset_counts-IsMap ((f, s) ∷ rest) subscriptions u =
    reset_counts-IsMap rest _ (set-IsMap f _ subscriptions u)

pub set-IsKeyed :
    (v : MqttLatestMessage) (m : Dict MqttLatestMessage) → IsKeyed m → IsKeyed (set v.topic v m)
unfolding set
set-IsKeyed v [] k = (refl, tt)
set-IsKeyed v ((j, w) ∷ m) k = ground (arith, set-IsKeyed v m k.1, eq_iff j v.topic)

module _ (env : Env) (codec : Codec) where
  pub record_message-IsSound :
      (packet : Packet) (now : Text) (s : SessionRecord)
      → IsSound s
      → IsSound (record_message env codec packet now s)
  unfolding record_message
  record_message-IsSound packet now s h =
      trimmed-IsSound env _
        (count_matches-IsMap packet.topic s.subscriptions s.subscriptions h.subscribed)
        (set-IsMap packet.topic (next_message codec packet now) s.messages h.tracked)
        (unfold next_message in set-IsKeyed (next_message codec packet now) s.messages h.keyed)
        h.online

  pub on_message-AllSound :
      (key : Text) (client : ℕ) (packet : Packet) (now : Text) (w : Service)
      → AllSound w
      → AllSound (on_message env codec key client packet now w)
  unfolding on_message
  on_message-AllSound key client packet now w h = elim (Option-cases (is_current key client w)) [
    | inl e ↦ rw (e, on_message) h
    | inr (id, e) ↦
        rw (e, on_message)
          (schedule_emit-AllSound env key false _ (
            store-AllSound id _ _ (record_message-IsSound packet now (w.objects id) (h.at id))
              (record { at = h.at })))
  ]

module _ (env : Env) where
  -- A change of status that says "connected" only in the connected state.
  pub on_status-AllSound :
      (key : Text) (client : ℕ) (patch : MqttConnectionStatus → MqttConnectionStatus) (now : Text)
      (w : Service)
      → ((c : MqttConnectionStatus) → (patch c).connected ≡ true → (patch c).state ≡ connected)
      → AllSound w
      → AllSound (on_status env key client patch now w)
  unfolding on_status
  on_status-AllSound key client patch now w honest h =
      elim (Option-cases (is_current key client w)) [
        | inl e ↦ rw (e, on_status) h
        | inr (id, e) ↦
            rw (e, on_status)
              (schedule_emit-AllSound env key true _
                (set_status-AllSound env id _ now w (honest (w.objects id).connection) h))
      ]

  pub release_client-AllSound :
      (id : ℕ) (w : Service) → AllSound w → AllSound (release_client env id w)
  unfolding release_client
  release_client-AllSound id w h = store-AllSound id _ w (client-IsSound (h.at id) none) h

  pub disconnect_done-AllSound :
      (id : ℕ) (key reason now : Text) (w : Service)
      → AllSound w
      → AllSound (disconnect_done env id key reason now w)
  unfolding disconnect_done
  disconnect_done-AllSound id key reason now w h =
      schedule_emit-AllSound env key true _ (set_status-AllSound env id _ now w (λ p. cc) h)

  pub connect_open-AllSound :
      (id : ℕ) (key : Text) (broker : BrokerSecrets) (input : ConnectInput) (port : Text)
      (client : ℕ) (now : Text) (w : Service)
      → AllSound w
      → AllSound (connect_open env id key broker input port client now w)
  unfolding connect_open
  connect_open-AllSound id key broker input port client now w h =
      let h1 = disconnect_done-AllSound id key (codes "Preparing new MQTT connection.") now w h in
      let h2 = store-AllSound id _ _ (emptied-IsSound (h1.at id) [] 0 tt) h1 in
      let h3 =
        schedule_emit-AllSound env key true _ (set_status-AllSound env id _ now _ (λ p. cc) h2) in
      store-AllSound id _ _ (client-IsSound (h3.at id) (some client)) h3

  pub connect_ready-AllSound :
      (id : ℕ) (key : Text) (input : ConnectInput) (port now : Text) (w : Service)
      → AllSound w
      → AllSound (connect_ready env id key input port now w).1
  unfolding connect_ready
  connect_ready-AllSound id key input port now w h =
      schedule_emit-AllSound env key true _ (set_status-AllSound env id _ now w (λ p. refl) h)

  pub connect_failed-AllSound :
      (id : ℕ) (key message now : Text) (w : Service)
      → AllSound w
      → AllSound (connect_failed env id key message now w).1
  unfolding connect_failed
  connect_failed-AllSound id key message now w h = schedule_emit-AllSound env key true _ (
      set_status-AllSound env id _ now _ (λ p. cc)
        (store-AllSound id _ w (client-IsSound (h.at id) none) h))
