-- ===== src/Prelude/Sort.antt =====
-- `Array.prototype.sort` and SQL's `ORDER BY`: a stable sort by a test `before a b`, true where `a`
-- may stand before `b` (the comparator's result is at most 0).
use Prim.Native.Nat.{suc}
use mathlib.Core.Path.{◌≡◌, refl, ap, ◌∙◌}
use mathlib.Core.Bool.{Bool, true, false}
use mathlib.Core.List.{List, [], ◌∷◌, ◌++◌, Perm}
use mathlib.Core.List.Perm
use native.Mathlib.Omega.{arith}
use mqttctl.Prelude.Tests.{if◌then◌else◌, Bool-cases}
use mqttctl.Prelude.Lists.{All, length}
use mathlib.Core.Logic.{inl, inr}

module _ {ℓ} {A : Type ℓ} (before : A → A → Bool) where
  unfoldable pub insert_sorted : A → List A → List A
  insert_sorted x [] = x ∷ []
  insert_sorted x (y ∷ ys) = if before x y then x ∷ y ∷ ys else y ∷ insert_sorted x ys

  unfoldable pub sort : List A → List A
  sort [] = []
  sort (x ∷ xs) = insert_sorted x (sort xs)

module _ {ℓ} {A : Type ℓ} (before : A → A → Bool) where
  insert_sorted-perm : (x : A) (ys : List A) → Perm (insert_sorted before x ys) (x ∷ ys)
  unfolding insert_sorted
  insert_sorted-perm x [] = Perm.refl (x ∷ [])
  insert_sorted-perm x (y ∷ ys) = elim (Bool-cases (before x y)) [
    | inl e ↦ rw e (Perm.refl (x ∷ y ∷ ys))
    | inr e ↦ rw e (Perm.trans (Perm.cons y (insert_sorted-perm x ys)) (Perm.swap x y ys))
  ]

  -- Sorting rearranges: no item is lost, made up or doubled.
  pub sort-perm : (xs : List A) → Perm (sort before xs) xs
  unfolding sort
  sort-perm [] = Perm.refl []
  sort-perm (x ∷ xs) =
      Perm.trans (insert_sorted-perm x (sort before xs)) (Perm.cons x (sort-perm xs))

  insert_sorted-snoc :
      (x z : A) (ys : List A)
      → before x z ≡ true
      → insert_sorted before x (ys ++ z ∷ []) ≡ insert_sorted before x ys ++ z ∷ []
  unfolding insert_sorted
  insert_sorted-snoc x z [] h = rw h
  insert_sorted-snoc x z (y ∷ ys) h = ground (arith, insert_sorted-snoc x z ys h)

  -- An item that everything else stands before is sorted to the end.
  pub sort-snoc :
      (z : A) (xs : List A)
      → All (λ x. before x z ≡ true) xs
      → sort before (xs ++ z ∷ []) ≡ sort before xs ++ z ∷ []
  unfolding sort insert_sorted
  sort-snoc z [] h = refl
  sort-snoc z (x ∷ xs) h = rw (sort-snoc z xs h.1) (insert_sorted-snoc x z (sort before xs) h.0)

module _ {ℓ κ} {A : Type ℓ} (before : A → A → Bool) (P : A → Type κ) where
  pub All-insert_sorted : (x : A) (ys : List A) → P x → All P ys → All P (insert_sorted before x ys)
  unfolding insert_sorted
  All-insert_sorted x [] p h = (p, tt)
  All-insert_sorted x (y ∷ ys) p h = elim (Bool-cases (before x y)) [
    | inl e ↦ rw e (p, h)
    | inr e ↦ rw e (h.0, All-insert_sorted x ys p h.1)
  ]

  pub All-sort : (xs : List A) → All P xs → All P (sort before xs)
  unfolding sort
  All-sort [] h = tt
  All-sort (x ∷ xs) h = All-insert_sorted x (sort before xs) h.0 (All-sort xs h.1)

module _ {ℓ} {A : Type ℓ} (before : A → A → Bool) where
  length-insert_sorted :
      (x : A) (ys : List A) → length (insert_sorted before x ys) ≡ suc (length ys)
  unfolding insert_sorted
  length-insert_sorted x [] = refl
  length-insert_sorted x (y ∷ ys) = ground (arith, length-insert_sorted x ys)

  pub length-sort : (xs : List A) → length (sort before xs) ≡ length xs
  unfolding sort
  length-sort [] = refl
  length-sort (x ∷ xs) = length-insert_sorted x (sort before xs) ∙ ap suc (length-sort xs)

module _ {ℓ κ} {A : Type ℓ} (before : A → A → Bool) (P : A → Type κ) where
  All-of_insert_sorted : (x : A) (ys : List A) → All P (insert_sorted before x ys) → P x × All P ys
  unfolding insert_sorted
  All-of_insert_sorted x [] h = h
  All-of_insert_sorted x (y ∷ ys) h = elim (Bool-cases (before x y)) [
    | inl e ↦ (rw e at h)
    | inr e ↦
        let split : P y × All P (insert_sorted before x ys) = rw e at h in
        let (here, rest) = All-of_insert_sorted x ys split.1 in (here, (split.0, rest))
  ]

  pub All-of_sort : (xs : List A) → All P (sort before xs) → All P xs
  unfolding sort
  All-of_sort [] h = tt
  All-of_sort (x ∷ xs) h =
      let (here, rest) = All-of_insert_sorted x (sort before xs) h in (here, All-of_sort xs rest)

-- `before` is a total preorder, as a comparator has to be.
pub record IsOrder {ℓ} {A : Type ℓ} (before : A → A → Bool) : Type ℓ where
  pub total : (x y : A) → before x y ≡ false → before y x ≡ true
  pub transitive : (x y z : A) → before x y ≡ true → before y z ≡ true → before x z ≡ true

module _ {ℓ} {A : Type ℓ} (before : A → A → Bool) where
  abbrev pub IsSorted : List A → Type ℓ
  IsSorted [] = Unit
  IsSorted (x ∷ xs) = All (λ y. before x y ≡ true) xs × IsSorted xs

  module _ (order : IsOrder before) where
    below-All :
        (x y : A) (ys : List A)
        → before x y ≡ true
        → All (λ z. before y z ≡ true) ys
        → All (λ z. before x z ≡ true) ys
    below-All x y [] h k = tt
    below-All x y (z ∷ ys) h k = (order.transitive x y z h k.0, below-All x y ys h k.1)

    insert_sorted-IsSorted :
        (x : A) (ys : List A) → IsSorted ys → IsSorted (insert_sorted before x ys)
    unfolding insert_sorted
    insert_sorted-IsSorted x [] h = (tt, tt)
    insert_sorted-IsSorted x (y ∷ ys) h = elim (Bool-cases (before x y)) [
      | inl e ↦ rw e ((e, below-All x y ys e h.0), h)
      | inr e ↦ rw e (
        All-insert_sorted before (λ z. before y z ≡ true) x ys (order.total x y e) h.0,
        insert_sorted-IsSorted x ys h.1,
      )
    ]

    pub sort-IsSorted : (xs : List A) → IsSorted (sort before xs)
    unfolding sort
    sort-IsSorted [] = tt
    sort-IsSorted (x ∷ xs) = insert_sorted-IsSorted x (sort before xs) (sort-IsSorted xs)
