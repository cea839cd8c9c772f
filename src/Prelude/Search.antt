-- ===== src/Prelude/Search.antt =====
-- What a search by a Boolean test finds.
use mathlib.Core.Path.{◌≡◌, refl}
use mathlib.Core.Logic.{inl, inr}
use mathlib.Core.Bool.{Bool, true, false}
use mathlib.Core.List.{List, [], ◌∷◌, ◌++◌}
use mathlib.Core.Option.{none, some}
use native.Mathlib.Omega.{arith}
use mqttctl.Prelude.Tests.{Bool-cases}
use mqttctl.Prelude.Lists.{filter, any, find}

module _ {A : Type 0} where
  pub find-holds : (test : A → Bool) (xs : List A) (x : A) → find test xs ≡ some x → test x ≡ true
  unfolding find
  find-holds test [] x = λ h. cc
  find-holds test (y ∷ ys) x = elim (Bool-cases (test y)) [
    | inl e ↦ rw e (λ h. ground (arith, e))
    | inr e ↦ rw e (find-holds test ys x)
  ]

  -- What is found in a filtered list has passed the filter.
  pub find-filter :
      (test keep : A → Bool) (xs : List A) (x : A)
      → find test (filter keep xs) ≡ some x
      → keep x ≡ true
  unfolding find filter
  find-filter test keep [] x = λ h. cc
  find-filter test keep (y ∷ ys) x = elim (Bool-cases (keep y)) [
    | inl k ↦ elim (Bool-cases (test y)) [
      | inl e ↦ rw (k, filter, e) (λ h. ground (arith, k))
      | inr e ↦ rw (k, filter, e) (find-filter test keep ys x)
    ]
    | inr k ↦ rw (k, filter) (find-filter test keep ys x)
  ]

  pub find-of_any : (test : A → Bool) (xs : List A) → any test xs ≡ false → find test xs ≡ none
  unfolding find any
  find-of_any test [] = λ h. refl
  find-of_any test (y ∷ ys) = elim (Bool-cases (test y)) [
    | inl e ↦ rw e (λ h. cc)
    | inr e ↦ rw e (find-of_any test ys)
  ]

  pub find-snoc :
      (test : A → Bool) (xs : List A) (x : A)
      → any test xs ≡ false
      → test x ≡ true
      → find test (xs ++ x ∷ []) ≡ some x
  unfolding find any
  find-snoc test [] x h t = rw t refl
  find-snoc test (y ∷ ys) x h t = elim (Bool-cases (test y)) [
    | inl e ↦ ground (arith, h, e)
    | inr e ↦ rw e (find-snoc test ys x (ground (arith, h, e)) t)
  ]
