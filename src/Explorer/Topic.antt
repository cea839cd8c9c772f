-- ===== src/Explorer/Topic.antt =====
-- `topicMatchesFilter` decides whether a topic matches a subscription's filter, as MQTT defines it.
use mqttctl.Prelude.{
  ◌≡◌, ◌≢◌, ◌↔◌, refl, Text, codes, ◌==◌, eq_iff, starts_with, eqb, Bool, true, false, ◌&&◌, ◌||◌,
  List, [], ◌∷◌, arith, inl, inr, Bool-cases, if◌then◌else◌,
}

-- `s.split('/')`: never empty.
unfoldable pub split_levels : Text → List Text
split_levels [] = [] ∷ []
split_levels (c ∷ s) = elim (split_levels s) [
  | [] ↦ [] ∷ []
  | level ∷ levels ↦ if eqb c b'/' then [] ∷ level ∷ levels else (c ∷ level) ∷ levels
]

unfoldable pub multi_level : Text
multi_level = codes "#"

unfoldable pub single_level : Text
single_level = codes "+"

-- The loop over the levels of the filter, with what is left of the topic's levels.
unfoldable pub match_levels : List Text → List Text → Bool
match_levels [] [] = true
match_levels [] (t ∷ ts) = false
match_levels (f ∷ []) [] = f == multi_level
match_levels (f ∷ g ∷ fs) [] = false
match_levels (f ∷ fs) (t ∷ ts) =
    let rest = match_levels fs ts in
    if f == multi_level
    then (elim fs [ [] ↦ true | g ∷ gs ↦ false ])
    else if f == single_level
    then rest
    else if f == t
    then rest
    else false

abbrev pub first_is_wildcard : List Text → Bool
first_is_wildcard [] = false
first_is_wildcard (f ∷ fs) = f == multi_level || f == single_level

unfoldable pub topic_matches_filter : Text → Text → Bool
topic_matches_filter filter topic =
    if starts_with (codes "$") topic && first_is_wildcard (split_levels filter)
    then false
    else match_levels (split_levels filter) (split_levels topic)

-- The matching of levels as the MQTT standard has it: `+` stands for one level, a final `#` for any
-- number of levels, also none, and any other level for itself. A `#` that is not final matches
-- nothing.
pub data Matches : List Text → List Text → Type 0 where
  done : Matches [] []
  multi : {f : Text} {ts : List Text} → f ≡ multi_level → Matches (f ∷ []) ts
  single :
      {f t : Text} {fs ts : List Text}
      → f ≡ single_level
      → Matches fs ts
      → Matches (f ∷ fs) (t ∷ ts)
  same :
      {f t : Text} {fs ts : List Text}
      → f ≢ multi_level
      → f ≡ t
      → Matches fs ts
      → Matches (f ∷ fs) (t ∷ ts)

single_not_multi : single_level ≢ multi_level
unfolding single_level multi_level
single_not_multi h = ground arith

final_multi :
    (f t : Text) (fs ts : List Text)
    → (f == multi_level) ≡ true
    → match_levels (f ∷ fs) (t ∷ ts) ≡ true
    → Matches (f ∷ fs) (t ∷ ts)
unfolding match_levels
final_multi f t [] ts e h = multi ((eq_iff f multi_level).0 e)
final_multi f t (g ∷ fs) ts e h = absurd (ground arith)

match_levels→Matches : (fs ts : List Text) → match_levels fs ts ≡ true → Matches fs ts
unfolding match_levels
match_levels→Matches [] [] h = done
match_levels→Matches [] (t ∷ ts) h = cc
match_levels→Matches (f ∷ []) [] h = multi ((eq_iff f multi_level).0 h)
match_levels→Matches (f ∷ g ∷ fs) [] h = cc
match_levels→Matches (f ∷ fs) (t ∷ ts) h =
    let rest = match_levels→Matches fs ts in
    elim (Bool-cases (f == multi_level)) [
      | inl e ↦ final_multi f t fs ts e h
      | inr e ↦ elim (Bool-cases (f == single_level)) [
        | inl p ↦ single ((eq_iff f single_level).0 p) (rest (ground arith))
        | inr p ↦
            same (λ q. ground (arith, eq_iff f multi_level)) ((eq_iff f t).0 (ground arith))
              (rest (ground arith))
      ]
    ]

Matches→match_levels : {fs ts : List Text} → Matches fs ts → match_levels fs ts ≡ true
unfolding match_levels
Matches→match_levels done = refl
Matches→match_levels (multi {f = f} {ts = []} e) = (eq_iff f multi_level).1 e
Matches→match_levels (multi {f = f} {ts = t ∷ ts} e) = rw ((eq_iff f multi_level).1 e)
Matches→match_levels (single {f = f} {t = t} e m) =
    ground
      (arith, Matches→match_levels m, eq_iff f multi_level, eq_iff f single_level, single_not_multi)
Matches→match_levels (same {f = f} {t = t} e q m) =
    ground (arith, Matches→match_levels m, eq_iff f multi_level, eq_iff f single_level, eq_iff f t)

-- A filter takes a topic exactly when their levels match, and a filter that begins with a wildcard
-- takes no topic that begins with `$`.
pub topic_matches_filter_iff :
    (filter topic : Text)
    → (topic_matches_filter filter topic ≡ true) ↔ (
        ((starts_with (codes "$") topic && first_is_wildcard (split_levels filter)) ≡ false)
        × Matches (split_levels filter) (split_levels topic))
unfolding topic_matches_filter
topic_matches_filter_iff filter topic = (
  (λ h. (ground arith, match_levels→Matches _ _ (ground arith))),
  (λ (visible, m). ground (arith, Matches→match_levels m)),
)
