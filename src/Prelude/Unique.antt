-- ===== src/Prelude/Unique.antt =====
-- A sort by a strict order has one possible result: any arrangement of a strictly rising list sorts
-- to that list.
use mathlib.Core.List.{Perm, perm_middle, append_of_mem, mem-cons_self}
use mathlib.Core.List.Perm
use mathlib.Core.Logic.{∥∥₁_elim}
use mqttctl.Prelude.Lists.{All}
use mqttctl.Prelude.Sort.{sort, insert_sorted}
use mathlib.Core.Path.{◌≡◌, refl, sym, ◌∙◌, ap, subst}
use mathlib.Core.Bool.{Bool, true, false}
use mathlib.Core.List.{List, [], ◌∷◌, ◌++◌}
use native.Mathlib.Omega.{arith}

module _ {ℓ} {A : Type ℓ} (before : A → A → Bool) where
  -- Each item has to stand before all that follow it.
  abbrev pub IsRising : List A → Type ℓ
  IsRising [] = Unit
  IsRising (x ∷ xs) = All (λ y. (before x y ≡ true) × (before y x ≡ false)) xs × IsRising xs

  insert-front :
      (x : A) (bs : List A)
      → All (λ y. (before x y ≡ true) × (before y x ≡ false)) bs
      → insert_sorted before x bs ≡ x ∷ bs
  unfolding insert_sorted
  insert-front x [] h = refl
  insert-front x (b ∷ bs) h = ground arith

  insert-behind :
      (x y : A) (ys : List A)
      → before x y ≡ false
      → insert_sorted before x (y ∷ ys) ≡ y ∷ insert_sorted before x ys
  unfolding insert_sorted
  insert-behind x y ys h = rw h

  All-middle {κ} :
      (P : A → Type κ) (x : A) (xs ys : List A) → All P (xs ++ x ∷ ys) → P x × All P (xs ++ ys)
  All-middle P x [] ys h = h
  All-middle P x (z ∷ xs) ys h = let (here, rest) = All-middle P x xs ys h.1 in (here, (h.0, rest))

  insert-middle :
      (x : A) (xs ys : List A)
      → IsRising (xs ++ x ∷ ys)
      → (insert_sorted before x (xs ++ ys) ≡ xs ++ x ∷ ys) × IsRising (xs ++ ys)
  insert-middle x [] ys h = (insert-front x ys h.0, h.1)
  insert-middle x (z ∷ xs) ys h =
      let (above, others) =
        All-middle (λ y. (before z y ≡ true) × (before y z ≡ false)) x xs ys h.0 in
      let (placed, rising) = insert-middle x xs ys h.1 in
      (insert-behind x z (xs ++ ys) above.1 ∙ ap (◌∷◌ z) placed, (others, rising))

  module _ (set : IsSet (List A)) where
    -- The sort of any arrangement of a strictly rising list is that list.
    pub sort-eq_of_perm : (ys xs : List A) → IsRising xs → Perm ys xs → sort before ys ≡ xs
    unfolding sort
    sort-eq_of_perm [] xs h p = Perm.nil-eq p
    sort-eq_of_perm (y ∷ ys) xs h p =
        ∥∥₁_elim (append_of_mem ((Perm.mem_iff p).0 mem-cons_self)) (set _ _) λ (l, r, e).
          let (placed, rising) = insert-middle y l r (subst IsRising e h) in
          let fewer = Perm.cons_inv (Perm.trans (subst (Perm (y ∷ ys)) e p) (perm_middle l r)) in
          ap (insert_sorted before y) (sort-eq_of_perm ys (l ++ r) rising fewer) ∙ placed ∙ sym e
