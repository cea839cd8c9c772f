-- ===== src/Explorer/Soundness.antt =====
-- What holds of every session object, at every moment.
use mqttctl.Prelude.{
  ℕ, ◌+◌, ◌≤◌, ◌≡◌, Text, Bool, true, false, Option, some, List, [], length, eqb, arith, inl, inr,
  Bool-cases, Option-cases,
}
use mqttctl.Prelude.Dict.{Dict, IsMap, get}
use mqttctl.Explorer.{
  Env, MqttConnectionStatus, MqttSubscription, SessionRecord, Service, connected, created_session,
  store, get_or_create_session, emit_now, schedule_emit, emit_timer, set_connection_status,
}
use mqttctl.Explorer.Trim.{
  effective_limit, trim_tracked_messages, IsKeyed, length-trim_loop, trim_loop-IsMap,
  trim_loop-IsKeyed,
}

pub record IsSound (session : SessionRecord) : Type 0 where
  pub subscribed : IsMap session.subscriptions
  pub tracked : IsMap session.messages
  pub keyed : IsKeyed session.messages
  pub bounded : length session.messages ≤ effective_limit session.tracked_topics_limit
  pub online : session.connection.connected ≡ true → session.connection.state ≡ connected

pub record AllSound (w : Service) : Type 0 where
  pub at : (id : ℕ) → IsSound (w.objects id)

pub created-IsSound : IsSound created_session
unfolding effective_limit
created-IsSound = record {
  subscribed = tt;
  tracked = tt;
  keyed = tt;
  bounded = omega arith;
  online = λ p. cc;
}

pub store-AllSound :
    (id : ℕ) (session : SessionRecord) (w : Service)
    → IsSound session
    → AllSound w
    → AllSound (store id session w)
unfolding store
store-AllSound id session w s h = record {
  at = λ i. elim (Bool-cases (eqb i id)) [ inl e ↦ rw e s | inr e ↦ rw e (h.at i) ];
}

pub create-AllSound :
    (key : Text) (w : Service) → AllSound w → AllSound (get_or_create_session key w).1
unfolding get_or_create_session
create-AllSound key w h = elim (Option-cases (get key w.sessions)) [
  | inl e ↦
      rw (e, get_or_create_session)
        (record {
          at = λ i. elim (Bool-cases (eqb i w.next)) [
            | inl p ↦ rw p created-IsSound
            | inr p ↦ rw p (h.at i)
          ];
        })
  | inr (id, e) ↦ rw (e, get_or_create_session) h
]

-- Changes outside of what `IsSound` speaks of.
module _ {s : SessionRecord} (h : IsSound s) where
  open h use {subscribed, tracked, keyed, bounded, online}

  revised-IsSound :
      (n : ℕ) (timer : Bool) → IsSound (record s { revision = n; pending_emit_timer = timer })
  revised-IsSound n timer = record {
    subscribed = subscribed;
    tracked = tracked;
    keyed = keyed;
    bounded = bounded;
    online = online;
  }

  pub client-IsSound : (client : Option ℕ) → IsSound (record s { client = client })
  client-IsSound client = record {
    subscribed = subscribed;
    tracked = tracked;
    keyed = keyed;
    bounded = bounded;
    online = online;
  }

  pub status-IsSound :
      (c : MqttConnectionStatus)
      → (c.connected ≡ true → c.state ≡ connected)
      → IsSound (record s { connection = c })
  status-IsSound c honest = record {
    subscribed = subscribed;
    tracked = tracked;
    keyed = keyed;
    bounded = bounded;
    online = honest;
  }

  pub emptied-IsSound :
      (subscriptions : Dict MqttSubscription) (n : ℕ)
      → IsMap subscriptions
      → IsSound (record s { messages = []; total_messages = n; subscriptions = subscriptions })
  emptied-IsSound subscriptions n u = record {
    subscribed = u;
    tracked = tt;
    keyed = tt;
    bounded = omega arith;
    online = online;
  }

  pub subscriptions-IsSound :
      (subscriptions : Dict MqttSubscription)
      → IsMap subscriptions
      → IsSound (record s { subscriptions = subscriptions })
  subscriptions-IsSound subscriptions u = record {
    subscribed = u;
    tracked = tracked;
    keyed = keyed;
    bounded = bounded;
    online = online;
  }

  pub channels-IsSound :
      (ls ms : List ℕ) (emit close : Bool)
      → IsSound (record s {
        listeners = ls;
        message_listeners = ms;
        pending_emit_timer = emit;
        pending_session_close_timer = close;
      })
  channels-IsSound ls ms emit close = record {
    subscribed = subscribed;
    tracked = tracked;
    keyed = keyed;
    bounded = bounded;
    online = online;
  }

-- A session that is trimmed need not have been within its limit.
pub trimmed-IsSound :
    (env : Env) (s : SessionRecord)
    → IsMap s.subscriptions
    → IsMap s.messages
    → IsKeyed s.messages
    → (s.connection.connected ≡ true → s.connection.state ≡ connected)
    → IsSound (trim_tracked_messages env s)
unfolding trim_tracked_messages
trimmed-IsSound env s u m k online =
    let limit = effective_limit s.tracked_topics_limit in
    let n = length s.messages in
    record {
      subscribed = u;
      tracked = trim_loop-IsMap env n limit s.messages m;
      keyed = trim_loop-IsKeyed env n limit s.messages k;
      bounded = omega (arith, length-trim_loop env n limit s.messages k (omega arith));
      online = online;
    }

module _ (env : Env) where
  pub emit_now-AllSound : (key : Text) (w : Service) → AllSound w → AllSound (emit_now env key w)
  unfolding emit_now
  emit_now-AllSound key w h = elim (Option-cases (get key w.sessions)) [
    | inl e ↦ rw (e, emit_now) h
    | inr (id, e) ↦ rw (e, emit_now) (record { at = h.at })
  ]

  pub schedule_emit-AllSound :
      (key : Text) (immediate : Bool) (w : Service)
      → AllSound w
      → AllSound (schedule_emit env key immediate w)
  unfolding schedule_emit
  schedule_emit-AllSound key immediate w h = elim (Option-cases (get key w.sessions)) [
    | inl e ↦ rw (e, schedule_emit) h
    | inr (id, e) ↦
        let s = w.objects id in
        let keeps = λ (timer : Bool).
          store-AllSound id (record s { revision = s.revision + 1; pending_emit_timer = timer }) w
            (revised-IsSound (h.at id) (s.revision + 1) timer) h in
        elim (Bool-cases immediate) [
          | inl now ↦ rw (e, now, schedule_emit) (emit_now-AllSound key _ (keeps false))
          | inr later ↦ rw (e, later, schedule_emit) (keeps true)
        ]
  ]

  pub emit_timer-AllSound :
      (id : ℕ) (key : Text) (w : Service) → AllSound w → AllSound (emit_timer env id key w)
  unfolding emit_timer
  emit_timer-AllSound id key w h = elim (Bool-cases (w.objects id).pending_emit_timer) [
    | inl due ↦ rw due (
        emit_now-AllSound key _
          (store-AllSound id _ w (revised-IsSound (h.at id) (w.objects id).revision false) h))
    | inr idle ↦ rw idle h
  ]

  pub set_status-AllSound :
      (id : ℕ) (c : MqttConnectionStatus) (now : Text) (w : Service)
      → (c.connected ≡ true → c.state ≡ connected)
      → AllSound w
      → AllSound (set_connection_status id c now w)
  unfolding set_connection_status
  set_status-AllSound id c now w honest h =
      store-AllSound id _ w (status-IsSound (h.at id) (record c { updated_at = some now }) honest) h
