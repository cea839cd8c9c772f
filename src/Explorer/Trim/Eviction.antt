-- ===== src/Explorer/Trim/Eviction.antt =====
-- Which messages `trimTrackedMessages` drops: the oldest ones.
use Prim.Native.Nat.{min}
use mathlib.Core.Option.{some-injective}
use mqttctl.Prelude.{
  subst, ℕ, zero, suc, ◌≡◌, Text, ◌==◌, eq_iff, Bool, true, none, some, List, [], ◌∷◌, All,
  All-sort, All-of_sort, IsOrder, IsSorted, sort-IsSorted, length, head?, leb, sort, arith, inl,
  inr, Bool-cases, Option-cases,
}
use mqttctl.Prelude.Dict.{Dict, get, delete, values, IsMap, get-delete, delete-IsMap}
use mqttctl.Explorer.{Env, MqttLatestMessage, SessionRecord}
use mqttctl.Explorer.Trim.{
  effective_limit, oldest, trim_loop, trim_tracked_messages, IsKeyed, delete-All, head_of_All,
  length-trim_loop,
}

abbrev Stored : Dict MqttLatestMessage → MqttLatestMessage → Type 0
Stored m v = get v.topic m ≡ some v

Stored-longer :
    (k : Text) (w : MqttLatestMessage) (m : Dict MqttLatestMessage) (vs : List MqttLatestMessage)
    → get k m ≡ none
    → All (Stored m) vs
    → All (Stored ((k, w) ∷ m)) vs
unfolding get
Stored-longer k w m [] free h = tt
Stored-longer k w m (v ∷ vs) free h =
    (ground (arith, h.0, eq_iff k v.topic), Stored-longer k w m vs free h.1)

All-Stored : (m : Dict MqttLatestMessage) → IsMap m → IsKeyed m → All (Stored m) (values m)
All-Stored [] u h = tt
All-Stored ((k, v) ∷ m) u h = (
  unfold get in ground (arith, eq_iff k v.topic),
  Stored-longer k v m (values m) u.0 (All-Stored m u.1 h.1),
)

All-lookup {ℓ κ} :
    {V : Type ℓ} (P : V → Type κ) (k : Text) (m : Dict V) {v : V}
    → All P (values m)
    → get k m ≡ some v
    → P v
unfolding get
All-lookup P k [] h e = cc
All-lookup P k ((j, w) ∷ m) h e = elim (Bool-cases (j == k)) [
  | inl hit ↦ subst P (some-injective w _ (rw hit at e)) h.0
  | inr miss ↦ All-lookup P k m h.1 (rw miss at e)
]

first_of_sorted {ℓ} :
    {A : Type ℓ} (before : A → A → Bool) (xs : List A) {x : A}
    → ((y : A) → before y y ≡ true)
    → IsSorted before xs
    → head? xs ≡ some x
    → All (λ y. before x y ≡ true) xs
first_of_sorted before [] self h e = cc
first_of_sorted before (z ∷ zs) self h e =
    subst (λ x. All (λ y. before x y ≡ true) (z ∷ zs)) (some-injective z _ e) (self z, h.0)

module _ (env : Env) where
  abbrev received_order : MqttLatestMessage → MqttLatestMessage → Bool
  received_order l r = env.not_after l.received_at r.received_at

  trim_loop_keeps :
      (fuel limit : ℕ) (m : Dict MqttLatestMessage) (s : Text) (v : MqttLatestMessage)
      → IsMap m
      → get s (trim_loop env fuel limit m) ≡ some v
      → get s m ≡ some v
  unfolding trim_loop
  trim_loop_keeps zero limit m s v u h = h
  trim_loop_keeps (suc fuel) limit m s v u h = elim (Bool-cases (leb (length m) limit)) [
    | inl fits ↦ ground arith
    | inr over ↦ elim (Option-cases (oldest env m)) [
      | inl empty ↦ ground arith
      | inr (first, found) ↦
          let rest =
            trim_loop_keeps fuel limit (delete first.topic m) s v (delete-IsMap first.topic m u) in
          ground (arith, rest, get-delete first.topic s m u)
    ]
  ]

  module _ (order : IsOrder env.not_after) where
    received_IsOrder : IsOrder received_order
    received_IsOrder = record {
      total = λ x y. order.total x.received_at y.received_at;
      transitive = λ x y z. order.transitive x.received_at y.received_at z.received_at;
    }

    oldest_first :
        (m : Dict MqttLatestMessage) (v : MqttLatestMessage)
        → oldest env m ≡ some v
        → All (λ y. received_order v y ≡ true) (values m)
    unfolding oldest
    oldest_first m v e =
        All-of_sort received_order (λ y. received_order v y ≡ true) (values m)
          (first_of_sorted received_order (sort received_order (values m))
            (λ y. reflexive y.received_at)
            (sort-IsSorted received_order received_IsOrder (values m)) e)
      where
        reflexive : (t : Text) → env.not_after t t ≡ true
        reflexive t = elim (Bool-cases (env.not_after t t)) [
          | inl h ↦ h
          | inr h ↦ order.total t t h
        ]

    -- The text at which a message was dropped and the text of one that was kept.
    trim_loop_evicts :
        (fuel limit : ℕ) (m : Dict MqttLatestMessage) (t s : Text) (v w : MqttLatestMessage)
        → IsMap m
        → IsKeyed m
        → get t m ≡ some v
        → get t (trim_loop env fuel limit m) ≡ none
        → get s (trim_loop env fuel limit m) ≡ some w
        → received_order v w ≡ true
    unfolding trim_loop
    trim_loop_evicts zero limit m t s v w u h held dropped kept = cc
    trim_loop_evicts (suc fuel) limit m t s v w u h held dropped kept =
        elim (Bool-cases (leb (length m) limit)) [
          | inl fits ↦ ground arith
          | inr over ↦ elim (Option-cases (oldest env m)) [
            | inl empty ↦ ground arith
            | inr (first, found) ↦
                let fewer = delete first.topic m in
                let later : get s (trim_loop env fuel limit fewer) ≡ some w = ground arith in
                let still : get s fewer ≡ some w =
                  trim_loop_keeps fuel limit fewer s w (delete-IsMap first.topic m u) later in
                elim (Bool-cases (first.topic == t)) [
                  | inl hit ↦
                      let stored =
                        head_of_All (Stored m) _
                          (All-sort received_order (Stored m) (values m) (All-Stored m u h))
                          (unfold oldest in found) in
                      let same : first ≡ v = ground (arith, eq_iff first.topic t) in
                      subst (λ x. received_order x w ≡ true) same
                        (All-lookup (λ y. received_order first y ≡ true) s m {v = w}
                          (oldest_first m first found)
                          (ground (arith, get-delete first.topic s m u)))
                  | inr miss ↦
                      trim_loop_evicts fuel limit fewer t s v w (delete-IsMap first.topic m u)
                        (delete-All (λ e. e.0 ≡ e.1.topic) first.topic m h)
                        (ground (arith, get-delete first.topic t m u)) (ground arith) later
                ]
          ]
        ]

  -- Trimming leaves as many messages as the limit allows and drops no more than it must; what is
  -- left is unchanged; and no dropped message was received after one that is kept. The messages
  -- stand under their topics, once each, and times are totally preordered.
  pub trim_tracked_messages_lem :
      (session : SessionRecord)
      → IsOrder env.not_after
      → IsMap session.messages
      → IsKeyed session.messages
      → let kept = (trim_tracked_messages env session).messages in
        (length kept ≡ min (length session.messages) (effective_limit session.tracked_topics_limit))
        × ((s : Text) (w : MqttLatestMessage)
            → get s kept ≡ some w
            → get s session.messages ≡ some w)
        × ((t s : Text) (v w : MqttLatestMessage)
            → get t session.messages ≡ some v
            → get t kept ≡ none
            → get s kept ≡ some w
            → env.not_after v.received_at w.received_at ≡ true)
  unfolding trim_tracked_messages
  trim_tracked_messages_lem session order u h =
      let m = session.messages in
      let limit = effective_limit session.tracked_topics_limit in
      (
        length-trim_loop env (length m) limit m h (omega arith),
        (λ s w. trim_loop_keeps (length m) limit m s w u),
        (λ t s v w. trim_loop_evicts order (length m) limit m t s v w u h),
      )
