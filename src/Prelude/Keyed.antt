-- ===== src/Prelude/Keyed.antt =====
-- Lists of items told apart by a key: what a search by the key finds, sorted or not.
use mathlib.Core.Path.{◌≡◌, refl, ap, sym, ◌∙◌}
use mathlib.Core.Logic.{inl, inr}
use mathlib.Core.Bool.{Bool}
use mathlib.Core.List.{List, [], ◌∷◌, Memᴰ}
use mathlib.Core.List.Memᴰ
use mathlib.Core.Option.{Option, none, some}
use native.Mathlib.Omega.{arith}
use mqttctl.Prelude.Tests.{Bool-cases, same_of_some, if◌then◌else◌}
use mqttctl.Prelude.Lists.{All}
use mqttctl.Prelude.Sort.{sort, insert_sorted}
use mqttctl.Prelude.Strings.{Text, ◌==◌, eq_iff, eq_refl}
use mqttctl.Prelude.Dict.{Dict, get, values, IsMap}

module _ {A : Type 0} (key : A → Text) where
  unfoldable pub find_key : Text → List A → Option A
  find_key k [] = none
  find_key k (x ∷ xs) = if key x == k then some x else find_key k xs

  -- No two items have the same key.
  abbrev pub IsDistinct : List A → Type 0
  IsDistinct [] = Unit
  IsDistinct (x ∷ xs) = (find_key (key x) xs ≡ none) × IsDistinct xs

  -- Each item stands under its own key.
  abbrev pub IsKeyed : Dict A → Type 0
  IsKeyed m = All (λ e. e.0 ≡ key e.1) m

  pub find_key-values : (k : Text) (m : Dict A) → IsKeyed m → find_key k (values m) ≡ get k m
  unfolding find_key get
  find_key-values k [] h = refl
  find_key-values k ((j, v) ∷ m) h = ground (arith, find_key-values k m h.1)

  pub mem_of_find_key :
      (k : Text) (xs : List A) (x : A) → find_key k xs ≡ some x → Memᴰ x xs × (key x ≡ k)
  unfolding find_key
  mem_of_find_key k [] x h = cc
  mem_of_find_key k (y ∷ ys) x h = elim (Bool-cases (key y == k)) [
    | inl e ↦
        let same : y ≡ x = same_of_some (rw e at h) in
        (Memᴰ.head (sym same), ap key (sym same) ∙ (eq_iff (key y) k).0 e)
    | inr e ↦ let (m, same) = mem_of_find_key k ys x (rw e at h) in (Memᴰ.tail m, same)
  ]

  pub find_key-of_mem :
      (xs : List A) (x : A) → IsDistinct xs → Memᴰ x xs → find_key (key x) xs ≡ some x
  unfolding find_key
  find_key-of_mem [] x d m = absurd (Memᴰ.not-nil m)
  find_key-of_mem (y ∷ ys) x d m = elim (Memᴰ.cases_cons m) [
    | inl p ↦ rw (p, eq_refl (key y)) refl
    | inr n ↦
        let later = find_key-of_mem ys x d.1 n in
        elim (Bool-cases (key y == key x)) [
          | inl e ↦ cc (later, d.0, (eq_iff (key y) (key x)).0 e)
          | inr e ↦ rw e later
        ]
  ]

  pub values-IsDistinct : (m : Dict A) → IsMap m → IsKeyed m → IsDistinct (values m)
  values-IsDistinct [] h k = tt
  values-IsDistinct ((j, v) ∷ m) h k =
      (ground (arith, find_key-values (key v) m k.1), values-IsDistinct m h.1 k.1)

  module _ (before : A → A → Bool) where
    find_key-insert_sorted :
        (k : Text) (x : A) (ys : List A)
        → find_key (key x) ys ≡ none
        → find_key k (insert_sorted before x ys) ≡ (if key x == k then some x else find_key k ys)
    unfolding find_key insert_sorted
    find_key-insert_sorted k x [] h = refl
    find_key-insert_sorted k x (y ∷ ys) h = ground (
      arith,
      find_key-insert_sorted k x ys,
      eq_iff (key y) (key x),
      eq_iff (key x) k,
      eq_iff (key y) k,
    )

    insert_sorted-IsDistinct :
        (x : A) (ys : List A)
        → find_key (key x) ys ≡ none
        → IsDistinct ys
        → IsDistinct (insert_sorted before x ys)
    unfolding find_key insert_sorted
    insert_sorted-IsDistinct x [] h d = (refl, tt)
    insert_sorted-IsDistinct x (y ∷ ys) h d = ground (
      arith,
      find_key-insert_sorted (key y) x ys,
      insert_sorted-IsDistinct x ys,
      eq_iff (key y) (key x),
      eq_iff (key x) (key y),
    )

    -- Sorting changes nothing for a search by the key.
    pub find_key-sort :
        (k : Text) (xs : List A) → IsDistinct xs → find_key k (sort before xs) ≡ find_key k xs
    unfolding find_key sort
    find_key-sort k [] d = refl
    find_key-sort k (x ∷ xs) d =
        find_key-insert_sorted k x (sort before xs) (find_key-sort (key x) xs d.1 ∙ d.0)
        ∙ ap (λ rest. if key x == k then some x else rest) (find_key-sort k xs d.1)

    pub sort-IsDistinct : (xs : List A) → IsDistinct xs → IsDistinct (sort before xs)
    unfolding sort
    sort-IsDistinct [] d = tt
    sort-IsDistinct (x ∷ xs) d =
        insert_sorted-IsDistinct x (sort before xs) (find_key-sort (key x) xs d.1 ∙ d.0)
          (sort-IsDistinct xs d.1)
