-- ===== src/Explorer/Superseded.antt =====
-- What the end of a failed attempt to connect leaves of the session's client.
use mqttctl.Prelude.{ℕ, ◌≡◌, refl, ◌∙◌, ap, Text, none, some, eqb_iff}
use mqttctl.Prelude.Dict.{get}
use mqttctl.Explorer.{Env, Service, store}
use mqttctl.Explorer.Messages.{Codec, Packet, is_current, on_message}
use mqttctl.Explorer.Operations.{connect_failed}
use mqttctl.Explorer.Kept.{status_emit-IsKept}

ignored :
    (key : Text) (id client : ℕ) (w : Service)
    → get key w.sessions ≡ some id
    → (w.objects id).client ≡ none
    → is_current key client w ≡ none
unfolding is_current
ignored key id client w h n = rw (h, is_current, n) refl

module _ (env : Env) (id : ℕ) (key message now : Text) (w : Service) where
  failed_sessions :
      get key w.sessions ≡ some id
      → get key (connect_failed env id key message now w).1.sessions ≡ some id
  unfolding connect_failed store
  failed_sessions h = ap (get key) (status_emit-IsKept env key id _ now _).sessions ∙ h

  failed_client : ((connect_failed env id key message now w).1.objects id).client ≡ none
  unfolding connect_failed store
  failed_client =
      (status_emit-IsKept env key id _ now _).client id ∙ rw ((eqb_iff id id).1 refl) refl

-- Right after an attempt to connect has failed, messages of every client of the key's session are ignored,
-- also of one that a later attempt has connected meanwhile.
pub connect_failed-deafens :
    (env : Env) (codec : Codec) (id : ℕ) (key message now later : Text) (client : ℕ)
    (packet : Packet) (w : Service)
    → get key w.sessions ≡ some id
    → on_message env codec key client packet later (connect_failed env id key message now w).1
      ≡ (connect_failed env id key message now w).1
unfolding on_message
connect_failed-deafens env codec id key message now later client packet w h =
    let w' = (connect_failed env id key message now w).1 in
    rw
      (
        ignored key id client w' (failed_sessions env id key message now w h)
            (failed_client env id key message now w),
        on_message,
      )
      refl
