-- ===== src/Explorer/Kept.antt =====
-- What an emission to the listeners leaves as it is.
use mqttctl.Prelude.{
  ℕ, ◌+◌, ◌≡◌, refl, ◌∙◌, Text, Bool, true, false, eqb, eqb_iff, inl, inr, Bool-cases, Option-cases,
}
use mqttctl.Prelude.Dict.{get}
use mqttctl.Explorer.{
  Env, MqttConnectionStatus, SessionRecord, Service, store, emit_now, schedule_emit,
  set_connection_status,
}

pub record IsKept (w w' : Service) : Type 0 where
  pub sessions : w'.sessions ≡ w.sessions
  pub client : (i : ℕ) → (w'.objects i).client ≡ (w.objects i).client
  pub listeners : (i : ℕ) → (w'.objects i).listeners ≡ (w.objects i).listeners

IsKept-trans : (u v w : Service) → IsKept u v → IsKept v w → IsKept u w
IsKept-trans u v w a b = record {
  sessions = b.sessions ∙ a.sessions;
  client = λ i. b.client i ∙ a.client i;
  listeners = λ i. b.listeners i ∙ a.listeners i;
}

store-IsKept :
    (id : ℕ) (s : SessionRecord) (w : Service)
    → s.client ≡ (w.objects id).client
    → s.listeners ≡ (w.objects id).listeners
    → IsKept w (store id s w)
unfolding store
store-IsKept id s w c l = record {
  sessions = refl;
  client = λ i. elim (Bool-cases (eqb i id)) [
    | inl e ↦ rw (e, (eqb_iff i id).0 e) c
    | inr e ↦ rw e refl
  ];
  listeners = λ i. elim (Bool-cases (eqb i id)) [
    | inl e ↦ rw (e, (eqb_iff i id).0 e) l
    | inr e ↦ rw e refl
  ];
}

module _ (env : Env) where
  emit_now-IsKept : (key : Text) (w : Service) → IsKept w (emit_now env key w)
  unfolding emit_now
  emit_now-IsKept key w = elim (Option-cases (get key w.sessions)) [
    | inl e ↦
        rw (e, emit_now) (record { sessions = refl; client = λ i. refl; listeners = λ i. refl })
    | inr (id, e) ↦
        rw (e, emit_now) (record { sessions = refl; client = λ i. refl; listeners = λ i. refl })
  ]

  pub schedule_emit-IsKept :
      (key : Text) (immediate : Bool) (w : Service) → IsKept w (schedule_emit env key immediate w)
  unfolding schedule_emit
  schedule_emit-IsKept key immediate w = elim (Option-cases (get key w.sessions)) [
    | inl e ↦
        rw (e, schedule_emit)
          (record { sessions = refl; client = λ i. refl; listeners = λ i. refl })
    | inr (id, e) ↦ elim (Bool-cases immediate) [
      | inl now ↦
          rw (e, now, schedule_emit)
            (IsKept-trans w _ _
              (store-IsKept id
                (record (w.objects id) {
                  revision = (w.objects id).revision + 1;
                  pending_emit_timer = false;
                })
                w refl refl)
              (emit_now-IsKept key _))
      | inr later ↦
          rw (e, later, schedule_emit)
            (store-IsKept id
              (record (w.objects id) {
                revision = (w.objects id).revision + 1;
                pending_emit_timer = true;
              })
              w refl refl)
    ]
  ]

  pub status_emit-IsKept :
      (key : Text) (id : ℕ) (status : MqttConnectionStatus) (now : Text) (w : Service)
      → IsKept w (schedule_emit env key true (set_connection_status id status now w))
  unfolding set_connection_status
  status_emit-IsKept key id status now w =
      IsKept-trans w _ _ (store-IsKept id _ w refl refl) (schedule_emit-IsKept key true _)
