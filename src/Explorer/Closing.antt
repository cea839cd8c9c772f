-- ===== src/Explorer/Closing.antt =====
-- The closing of a session that a browser watches again.
use mqttctl.Prelude.{
  ℕ, ◌≡◌, refl, ◌∙◌, ap, Text, codes, not, ◌&&◌, true, false, Option, some, List, [], ◌∷◌, eqb,
  eqb_iff, any, arith, inl, inr, Bool-cases, Option-cases,
}
use mqttctl.Prelude.Dict.{get, get-set_self}
use mqttctl.Explorer.{Env, SessionRecord, Service, store, get_or_create_session}
use mqttctl.Explorer.Operations.{disconnect_done}
use mqttctl.Explorer.Kept.{status_emit-IsKept}
use mqttctl.Explorer.Watch.{
  watch_session, close_timer, close_finish, is_live, has_listeners, add_listener,
}

created_live :
    (key : Text) (w : Service)
    → get key (get_or_create_session key w).1.sessions ≡ some (get_or_create_session key w).0
unfolding get_or_create_session
created_live key w = elim (Option-cases (get key w.sessions)) [
  | inl e ↦ rw (e, get_or_create_session) (get-set_self key w.next w.sessions)
  | inr (id, e) ↦ rw (e, get_or_create_session) e
]

same_listeners :
    (s t : SessionRecord) → s.listeners ≡ t.listeners → has_listeners s ≡ has_listeners t
same_listeners s t e = rw e refl

added_listener :
    (l : ℕ) (ls : List ℕ) (s : SessionRecord)
    → s.listeners ≡ add_listener l ls
    → has_listeners s ≡ true
unfolding add_listener any
added_listener l [] s e = rw e refl
added_listener l (x ∷ ls) s e = elim (Bool-cases (any (λ y. eqb y l) (x ∷ ls))) [
  | inl a ↦ rw (e, add_listener, a) refl
  | inr a ↦ rw (e, add_listener, a) refl
]

module _ (env : Env) (key : Text) (listener : ℕ) (message_listener : Option ℕ) (w : Service) where
  abbrev watched_id : ℕ
  watched_id = (watch_session env key listener message_listener w).0

  abbrev watched : Service
  watched = (watch_session env key listener message_listener w).1

  watched_live : get key watched.sessions ≡ some watched_id
  unfolding watch_session store
  watched_live = created_live key w

  watched_pending : (watched.objects watched_id).pending_session_close_timer ≡ false
  unfolding watch_session store
  watched_pending =
      rw ((eqb_iff (get_or_create_session key w).0 (get_or_create_session key w).0).1 refl) refl

  watched_listeners : has_listeners (watched.objects watched_id) ≡ true
  unfolding watch_session store
  watched_listeners =
      let (id, w1) = get_or_create_session key w in
      added_listener listener (w1.objects id).listeners (watched.objects watched_id)
        (rw ((eqb_iff id id).1 refl) refl)

module _ (env : Env) (id : ℕ) (key : Text) where
  not_due :
      (w : Service)
      → (w.objects id).pending_session_close_timer ≡ false
      → (close_timer env id key w).0 ≡ false
  unfolding close_timer
  not_due w h = rw (h, close_timer) refl

  stays :
      (now : Text) (w : Service)
      → get key w.sessions ≡ some id
      → has_listeners (w.objects id) ≡ true
      → get key (close_finish env id key now w).sessions ≡ some id
  unfolding close_finish disconnect_done
  stays now w live heard =
      let w' = disconnect_done env id key (codes "Browser live channel closed.") now w in
      let kept = status_emit-IsKept env key id _ now w in
      elim (Bool-cases (is_live key id w' && not (has_listeners (w'.objects id)))) [
        | inl q ↦
            ground
              (arith, q, heard, same_listeners (w'.objects id) (w.objects id) (kept.listeners id))
        | inr q ↦ rw q (ap (get key) kept.sessions ∙ live)
      ]

-- A browser that watches a session cancels its pending close, and a close that is under way by then
-- leaves the session in place.
pub watch-close :
    (env : Env) (key now : Text) (listener : ℕ) (message_listener : Option ℕ) (w : Service)
    → let (id, w') = watch_session env key listener message_listener w in
      ((close_timer env id key w').0 ≡ false)
      × (get key (close_finish env id key now w').sessions ≡ some id)
watch-close env key now listener message_listener w =
    let (id, w') = watch_session env key listener message_listener w in
    (
      not_due env id key w' (watched_pending env key listener message_listener w),
      stays env id key now w' (watched_live env key listener message_listener w)
          (watched_listeners env key listener message_listener w),
    )
