-- ===== src/Explorer/Trim.antt =====
-- `trimTrackedMessages`: the table of latest messages stays within its limit.
pub mod Eviction
use Prim.Native.Nat.{min}
use mathlib.Core.Option.{some-injective}
use mqttctl.Prelude.{
  ℕ, zero, suc, ◌+◌, ◌≤◌, ◌<◌, ◌≡◌, refl, ap, sym, ◌∙◌, subst, Text, ◌==◌, eq_iff, eq_refl, Bool,
  true, false, Option, none, some, List, [], ◌∷◌, map, All, All-sort, length, length-sort,
  length-map, head?, leb, is_some, sort, arith, inl, inr, Bool-cases, Option-cases, if◌then◌else◌,
}
use mqttctl.Prelude.Dict.{
  Dict, get, set, delete, values, IsMap, get-delete, delete-IsMap, length-delete,
}
use mqttctl.Explorer.{Env, MqttLatestMessage, SessionRecord}

abbrev pub absolute_max_tracked_topics : ℕ
absolute_max_tracked_topics = 500

unfoldable pub effective_limit : Option ℕ → ℕ
effective_limit none = absolute_max_tracked_topics
effective_limit (some limit) = min limit absolute_max_tracked_topics

module _ (env : Env) where
  unfoldable pub oldest : Dict MqttLatestMessage → Option MqttLatestMessage
  oldest messages =
      head? (sort (λ l r. env.not_after l.received_at r.received_at) (values messages))

  -- The `while` loop, with fuel.
  unfoldable pub trim_loop : ℕ → ℕ → Dict MqttLatestMessage → Dict MqttLatestMessage
  unfolding oldest
  trim_loop zero limit messages = messages
  trim_loop (suc fuel) limit messages =
      if leb (length messages) limit then messages else elim (oldest messages) [
        | none ↦ messages
        | some message ↦ trim_loop fuel limit (delete message.topic messages)
      ]

  -- Each round drops a message, so the number of messages is fuel enough.
  unfoldable pub trim_tracked_messages : SessionRecord → SessionRecord
  unfolding trim_loop effective_limit
  trim_tracked_messages session = record session {
    messages =
        trim_loop (length session.messages) (effective_limit session.tracked_topics_limit)
          session.messages;
  }

-- Each message stands under its own topic.
abbrev pub IsKeyed : Dict MqttLatestMessage → Type 0
IsKeyed messages = All (λ e. e.0 ≡ e.1.topic) messages

delete-All {ℓ κ} :
    {V : Type ℓ} (P : Text × V → Type κ) (k : Text) (m : Dict V) → All P m → All P (delete k m)
unfolding delete
delete-All P k [] h = tt
delete-All P k (e ∷ m) h = elim (Bool-cases (e.0 == k)) [
  | inl hit ↦ rw hit h.1
  | inr miss ↦ rw miss (h.0, delete-All P k m h.1)
]

abbrev Held : Dict MqttLatestMessage → MqttLatestMessage → Type 0
Held m v = is_some (get v.topic m) ≡ true

Held-longer :
    (k : Text) (w : MqttLatestMessage) (m : Dict MqttLatestMessage) (vs : List MqttLatestMessage)
    → All (Held m) vs
    → All (Held ((k, w) ∷ m)) vs
unfolding get
Held-longer k w m [] h = tt
Held-longer k w m (v ∷ vs) h = (ground (arith, h.0), Held-longer k w m vs h.1)

All-Held : (m : Dict MqttLatestMessage) → IsKeyed m → All (Held m) (values m)
All-Held [] h = tt
All-Held ((k, v) ∷ m) h =
    (unfold get in ground (arith, eq_iff k v.topic), Held-longer k v m (values m) (All-Held m h.1))

head_of_All {ℓ κ} :
    {A : Type ℓ} (P : A → Type κ) (xs : List A) {x : A} → All P xs → head? xs ≡ some x → P x
head_of_All P [] h e = cc
head_of_All P (y ∷ ys) h e = subst P (some-injective _ _ e) h.0

head_there {ℓ} : {A : Type ℓ} (xs : List A) → 0 < length xs → is_some (head? xs) ≡ true
head_there [] h = elim h [ ]
head_there (x ∷ xs) h = refl

module _ (env : Env) where
  oldest-Held :
      (m : Dict MqttLatestMessage) (v : MqttLatestMessage)
      → IsKeyed m
      → oldest env m ≡ some v
      → Held m v
  unfolding oldest
  oldest-Held m v h e = head_of_All (Held m) _ (All-sort _ (Held m) (values m) (All-Held m h)) e

  oldest_there : (m : Dict MqttLatestMessage) → 0 < length m → is_some (oldest env m) ≡ true
  unfolding oldest
  oldest_there m h = head_there _ (rw (length-sort _ (values m), length-map (λ e. e.1) m) h)

  -- The loop drops as many messages as there are over the limit, and no more.
  pub length-trim_loop :
      (fuel limit : ℕ) (m : Dict MqttLatestMessage)
      → IsKeyed m
      → length m ≤ fuel + limit
      → length (trim_loop env fuel limit m) ≡ min (length m) limit
  unfolding trim_loop
  length-trim_loop zero limit m h enough = omega arith
  length-trim_loop (suc fuel) limit m h enough = elim (Bool-cases (leb (length m) limit)) [
    | inl fits ↦ rw fits (ground arith)
    | inr over ↦ elim (Option-cases (oldest env m)) [
      | inl empty ↦ absurd (ground (arith, oldest_there m))
      | inr (v, found) ↦ elim (Option-cases (get v.topic m)) [
        | inl missing ↦ absurd (ground (arith, oldest-Held m v h found))
        | inr (w, there) ↦
            let shorter = length-delete v.topic w m there in
            let rest =
              length-trim_loop fuel limit (delete v.topic m)
                (delete-All (λ e. e.0 ≡ e.1.topic) v.topic m h) (omega (arith, shorter)) in
            rw (over, found) (ground (arith, rest, shorter))
      ]
    ]
  ]

  pub trim_loop-IsMap :
      (fuel limit : ℕ) (m : Dict MqttLatestMessage) → IsMap m → IsMap (trim_loop env fuel limit m)
  unfolding trim_loop
  trim_loop-IsMap zero limit m u = u
  trim_loop-IsMap (suc fuel) limit m u = elim (Bool-cases (leb (length m) limit)) [
    | inl fits ↦ rw fits u
    | inr over ↦ elim (Option-cases (oldest env m)) [
      | inl empty ↦ rw (over, empty) u
      | inr (v, found) ↦
          rw (over, found)
            (trim_loop-IsMap fuel limit (delete v.topic m) (delete-IsMap v.topic m u))
    ]
  ]

  pub trim_loop-IsKeyed :
      (fuel limit : ℕ) (m : Dict MqttLatestMessage)
      → IsKeyed m
      → IsKeyed (trim_loop env fuel limit m)
  unfolding trim_loop
  trim_loop-IsKeyed zero limit m k = k
  trim_loop-IsKeyed (suc fuel) limit m k = elim (Bool-cases (leb (length m) limit)) [
    | inl fits ↦ rw fits k
    | inr over ↦ elim (Option-cases (oldest env m)) [
      | inl empty ↦ rw (over, empty) k
      | inr (v, found) ↦
          rw (over, found)
            (trim_loop-IsKeyed fuel limit (delete v.topic m)
              (delete-All (λ e. e.0 ≡ e.1.topic) v.topic m k))
    ]
  ]
