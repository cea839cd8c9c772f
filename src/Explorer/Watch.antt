-- ===== src/Explorer/Watch.antt =====
-- `watchSession`: the live channels of browsers, and the closing of a session that has none.
use mqttctl.Prelude.{
  ℕ, Text, codes, ◌++◌, Bool, true, false, not, ◌&&◌, Option, none, some, List, [], ◌∷◌, filter,
  any, eqb, if◌then◌else◌,
}
use mqttctl.Prelude.Dict
use mqttctl.Explorer.{
  Env, SessionRecord, Service, state_call, store, get_or_create_session, snapshot,
}
use mqttctl.Explorer.Operations.{release_client, disconnect_done}

-- `Set.add` and `Set.delete` on listeners.
unfoldable pub add_listener : ℕ → List ℕ → List ℕ
add_listener l ls = if any (λ x. eqb x l) ls then ls else ls ++ l ∷ []

unfoldable pub delete_listener : ℕ → List ℕ → List ℕ
delete_listener l ls = filter (λ x. not (eqb x l)) ls

abbrev pub has_listeners : SessionRecord → Bool
has_listeners session = elim session.listeners [ [] ↦ false | l ∷ ls ↦ true ]

-- `if (messageListener) …`
abbrev pub with_option : (ℕ → List ℕ → List ℕ) → Option ℕ → List ℕ → List ℕ
with_option f none ls = ls
with_option f (some l) ls = f l ls

-- `sessions.get(key) === session`
unfoldable pub is_live : Text → ℕ → Service → Bool
is_live key id w = elim (Dict.get key w.sessions) [ none ↦ false | some active ↦ eqb active id ]

module _ (env : Env) where
  unfoldable pub watch_session : Text → ℕ → Option ℕ → Service → ℕ × Service
  watch_session key listener message_listener w =
      let (id, w1) = get_or_create_session key w in
      let session = w1.objects id in
      let w2 =
        store id
          (record session {
            pending_session_close_timer = false;
            listeners = add_listener listener session.listeners;
            message_listeners = with_option add_listener message_listener session.message_listeners;
          })
          w1 in
      (
        id,
        record w2 { calls = w2.calls ++ state_call listener (snapshot env (w2.objects id)) ∷ [] },
      )

-- The function that `watchSession` returns.
unfoldable pub unwatch : Text → ℕ → Option ℕ → Service → Service
unwatch key listener message_listener w = elim (Dict.get key w.sessions) [
  | none ↦ w
  | some id ↦
      let session = w.objects id in
      let left = record session {
        listeners = delete_listener listener session.listeners;
        message_listeners = with_option delete_listener message_listener session.message_listeners;
      } in
      store id
        (if has_listeners left
          then left
          else record left { pending_emit_timer = false; pending_session_close_timer = true })
        w
]

module _ (env : Env) where
  -- The timer of the grace period runs out: the session's client is let go of, unless the session
  -- is no longer the key's or has got a listener. The answer says whether a close is under way.
  unfoldable pub close_timer : ℕ → Text → Service → Bool × Service
  close_timer id key w =
      let fired = store id (record (w.objects id) { pending_session_close_timer = false }) w in
      if (w.objects id).pending_session_close_timer
      then (if is_live key id fired && not (has_listeners (fired.objects id))
          then (true, release_client env id fired)
          else (false, fired))
      else (false, w)

  -- The client has ended: `disconnectClient` goes on, and then its `finally` drops the session,
  -- unless it is no longer the key's or a listener has come meanwhile.
  unfoldable pub close_finish : ℕ → Text → Text → Service → Service
  close_finish id key now w =
      let w' = disconnect_done env id key (codes "Browser live channel closed.") now w in
      if is_live key id w' && not (has_listeners (w'.objects id))
      then record w' { sessions = Dict.delete key w'.sessions }
      else w'
