-- ===== src/Dynsec/State/Index.antt =====
-- Which keys the indexes of `normalizeState` hold.
use mathlib.Core.List.{Memᴰ}
use mathlib.Core.List.Memᴰ
use mqttctl.Prelude.{
  ◌≡◌, ◌∙◌, refl, sym, ap, subst, Text, ◌==◌, eq_iff, eq_refl, Bool, true, false, ◌&&◌, ◌||◌,
  Option, none, some, List, [], ◌∷◌, map, any, sort, insert_sorted, or_else, arith, inl, inr,
  Bool-cases, if◌then◌else◌,
}
use mqttctl.Prelude.Int.{ℤ}
use mqttctl.Prelude.Dict.{Dict, get, set, get-set}
use mqttctl.Prelude.Keyed.{find_key, find_key-of_mem, IsDistinct}
use mqttctl.Dynsec.State.{
  merge_entry, index_refs, index_memberships, map_of_refs, merge_memberships,
}

or_false : (b : Bool) → b || false ≡ b
or_false true = refl
or_false false = refl

-- Whether `k` is a key.
abbrev pub holds : {V : Type 0} → Text → List (Text × V) → Bool
holds k m = any (λ e. e.0 == k) m

module _ {V : Type 0} where
  holds-set : (k j : Text) (v : V) (m : Dict V) → holds j (set k v m) ≡ (k == j) || holds j m
  unfolding set any
  holds-set k j v [] = refl
  holds-set k j v ((i, w) ∷ m) =
      ground (arith, holds-set k j v m, eq_iff i k, eq_iff i j, eq_iff k j)

holds-merge_entry :
    (k j : Text) (p : ℤ) (m : Dict ℤ) → holds j (merge_entry k p m) ≡ (k == j) || holds j m
unfolding merge_entry
holds-merge_entry k j p m = holds-set k j _ m

pub holds-map_of_refs :
    (j : Text) (refs : List (Text × ℤ)) (m : Dict ℤ)
    → holds j (map_of_refs refs m) ≡ holds j refs || holds j m
unfolding map_of_refs any
holds-map_of_refs j [] m = refl
holds-map_of_refs j ((k, p) ∷ refs) m =
    ground (arith, holds-map_of_refs j refs (set k p m), holds-set k j p m)

pub holds-merge_memberships :
    (j : Text) (ms m : Dict ℤ) → holds j (merge_memberships ms m) ≡ holds j ms || holds j m
unfolding merge_memberships any
holds-merge_memberships j [] m = refl
holds-merge_memberships j ((k, p) ∷ ms) m =
    ground (arith, holds-merge_memberships j ms (merge_entry k p m), holds-merge_entry k j p m)

-- Whether the index has `inner` under `outer`.
abbrev pub indexed : Text → Text → Dict (Dict ℤ) → Bool
indexed outer inner index = holds inner (or_else (get outer index) [])

holds-if :
    (y : Text) (b : Bool) (m : Dict ℤ) (d : Option (Dict ℤ))
    → holds y (or_else (if b then some m else d) [])
      ≡ (if b then holds y m else holds y (or_else d []))
holds-if y true m d = refl
holds-if y false m d = refl

indexed-set :
    (o x y : Text) (m : Dict ℤ) (index : Dict (Dict ℤ))
    → indexed x y (set o m index) ≡ (if o == x then holds y m else indexed x y index)
indexed-set o x y m index =
    ap (λ found. holds y (or_else found [])) (get-set o x m index)
    ∙ holds-if y (o == x) m (get x index)

indexed-index_refs :
    (x y i : Text) (refs : List (Text × ℤ)) (index : Dict (Dict ℤ))
    → indexed x y (index_refs i refs index) ≡ (i == y && holds x refs) || indexed x y index
unfolding index_refs any
indexed-index_refs x y i [] index = ground arith
indexed-index_refs x y i ((o, p) ∷ refs) index =
    let found = or_else (get o index) [] in
    let index' = set o (merge_entry i p found) index in
    ground (
      arith,
      indexed-index_refs x y i refs index',
      indexed-set o x y (merge_entry i p found) index,
      holds-merge_entry i y p found,
      eq_iff o x,
    )

indexed-index_memberships :
    (x y : Text) (es : Dict (List (Text × ℤ))) (index : Dict (Dict ℤ))
    → indexed x y (index_memberships es index)
      ≡ any (λ e. e.0 == y && holds x e.1) es || indexed x y index
unfolding index_memberships any
indexed-index_memberships x y [] index = refl
indexed-index_memberships x y ((i, refs) ∷ es) index = ground (
  arith,
  indexed-index_memberships x y es (index_refs i refs index),
  indexed-index_refs x y i refs index,
)

module _ {A : Type 0} (test : A → Bool) where
  any-insert_sorted :
      (before : A → A → Bool) (x : A) (ys : List A)
      → any test (insert_sorted before x ys) ≡ test x || any test ys
  unfolding any insert_sorted
  any-insert_sorted before x [] = refl
  any-insert_sorted before x (y ∷ ys) = ground (arith, any-insert_sorted before x ys)

  pub any-sort : (before : A → A → Bool) (xs : List A) → any test (sort before xs) ≡ any test xs
  unfolding any sort
  any-sort before [] = refl
  any-sort before (x ∷ xs) =
      any-insert_sorted before x (sort before xs) ∙ ap (λ b. test x || b) (any-sort before xs)

  pub any-map :
      {B : Type 0} (f : B → A) (xs : List B) → any test (map f xs) ≡ any (λ x. test (f x)) xs
  unfolding any
  any-map f [] = refl
  any-map f (x ∷ xs) = ap (λ b. test (f x) || b) (any-map f xs)

module _ {A : Type 0} (name : A → Text) (refs : A → List (Text × ℤ)) where
  abbrev pub told : Text → Text → List A → Bool
  told x y xs = any (λ (a : A). name a == y && holds x (refs a)) xs

  told-absent : (x y : Text) (xs : List A) → find_key name y xs ≡ none → told x y xs ≡ false
  unfolding any find_key
  told-absent x y [] h = refl
  told-absent x y (a ∷ xs) h = ground (arith, told-absent x y xs)

  not_same :
      (b a : A) (xs : List A)
      → find_key name (name b) xs ≡ none
      → find_key name (name a) xs ≡ some a
      → (name b == name a) ≡ false
  not_same b a xs h k = elim (Bool-cases (name b == name a)) [
    | inl e ↦ cc (h, k, ap (λ y. find_key name y xs) ((eq_iff (name b) (name a)).0 e))
    | inr e ↦ e
  ]

  told-head :
      (x : Text) (b : A) (xs : List A)
      → find_key name (name b) xs ≡ none
      → told x (name b) (b ∷ xs) ≡ holds x (refs b)
  unfolding any
  told-head x b xs h = ground (arith, told-absent x (name b) xs h, eq_refl (name b))

  pub indexed-told :
      (x y : Text) (xs : List A)
      → indexed x y (index_memberships (map (λ a. (name a, refs a)) xs) []) ≡ told x y xs
  unfolding any get
  indexed-told x y xs =
      indexed-index_memberships x y (map (λ a. (name a, refs a)) xs) []
      ∙ or_false (any (λ e. e.0 == y && holds x e.1) (map (λ a. (name a, refs a)) xs))
      ∙ any-map (λ e. e.0 == y && holds x e.1) (λ (a : A). (name a, refs a)) xs

  -- What the one entry of a name tells.
  pub told-sole :
      (x : Text) (a : A) (xs : List A)
      → IsDistinct name xs
      → Memᴰ a xs
      → told x (name a) xs ≡ holds x (refs a)
  unfolding any
  told-sole x a [] d m = absurd (Memᴰ.not-nil m)
  told-sole x a (b ∷ xs) d m = elim (Memᴰ.cases_cons m) [
    | inl p ↦
        subst (λ a. told x (name a) (b ∷ xs) ≡ holds x (refs a)) (sym p) (told-head x b xs d.0)
    | inr n ↦
        let apart : (name b == name a) ≡ false =
          not_same b a xs d.0 (find_key-of_mem name xs a d.1 n) in
        rw apart (told-sole x a xs d.1 n)
  ]
