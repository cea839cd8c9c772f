-- ===== src/Dynsec/Acls/Resolved.antt =====
-- `resolveEffectiveAcls` as a whole: its list against the list that it was given.
use mathlib.Core.List.{Memᴰ}
use mqttctl.Prelude.{
  ◌≡◌, ◌∙◌, refl, sym, ap, ap₂, Text, ◌==◌, eq_iff, Bool, true, Option, none, some, List, [], ◌∷◌,
  IsOrder, IsSorted, sort-IsSorted, arith, inl, inr, Bool-cases, Option-cases,
}
use mqttctl.Prelude.Int.{ℤ}
use mqttctl.Prelude.Keyed.{
  find_key, IsDistinct, IsKeyed, find_key-values, values-IsDistinct, find_key-sort, sort-IsDistinct,
  find_key-of_mem,
}
use mqttctl.Prelude.Dict.{Dict, get, set, values, IsMap, set-IsMap}
use mqttctl.Dynsec.{DynsecAcl}
use mqttctl.Dynsec.Acls.{
  acl_key, acl_before, consider, collect_effective, resolve_effective_acls,
  sort_acls_by_priority_and_effect,
}
use mqttctl.Dynsec.Acls.Effective.{
  outranks, decide, decide-Stands, decide-none, get-collect_effective,
}

set-IsKeyed :
    (acl : DynsecAcl) (m : Dict DynsecAcl)
    → IsKeyed acl_key m
    → IsKeyed acl_key (set (acl_key acl) acl m)
unfolding set
set-IsKeyed acl [] h = (refl, tt)
set-IsKeyed acl ((j, v) ∷ m) h = elim (Bool-cases (j == acl_key acl)) [
  | inl e ↦ rw e ((eq_iff j (acl_key acl)).0 e, h.1)
  | inr e ↦ rw e (h.0, set-IsKeyed acl m h.1)
]

IsIndex : Dict DynsecAcl → Type 0
IsIndex m = IsMap m × IsKeyed acl_key m

consider-IsIndex : (m : Dict DynsecAcl) (acl : DynsecAcl) → IsIndex m → IsIndex (consider m acl)
unfolding consider IsIndex
consider-IsIndex m acl h = ground (arith, set-IsMap (acl_key acl) acl m h.0, set-IsKeyed acl m h.1)

collect_effective-IsIndex :
    (acls : List DynsecAcl) (m : Dict DynsecAcl) → IsIndex m → IsIndex (collect_effective acls m)
unfolding collect_effective
collect_effective-IsIndex [] m h = h
collect_effective-IsIndex (acl ∷ acls) m h =
    collect_effective-IsIndex acls (consider m acl) (consider-IsIndex m acl h)

module _ (locale_le : Text → Text → Bool) (acls : List DynsecAcl) where
  index : IsIndex (collect_effective acls [])
  unfolding IsIndex
  index = collect_effective-IsIndex acls [] (tt, tt)

  kept-IsDistinct : IsDistinct acl_key (values (collect_effective acls []))
  unfolding IsIndex
  kept-IsDistinct = values-IsDistinct acl_key (collect_effective acls []) index.0 index.1

  resolve-IsDistinct : IsDistinct acl_key (resolve_effective_acls locale_le acls)
  unfolding resolve_effective_acls sort_acls_by_priority_and_effect
  resolve-IsDistinct =
      sort-IsDistinct acl_key (acl_before locale_le) (values (collect_effective acls []))
        kept-IsDistinct

  find_key-resolve :
      (key : Text)
      → find_key acl_key key (resolve_effective_acls locale_le acls) ≡ decide key none acls
  unfolding resolve_effective_acls sort_acls_by_priority_and_effect IsIndex get
  find_key-resolve key =
      find_key-sort acl_key (acl_before locale_le) key (values (collect_effective acls []))
        kept-IsDistinct
      ∙ find_key-values acl_key key (collect_effective acls []) index.1
      ∙ get-collect_effective key acls []

  -- An ACL of the result is one of the list, and no ACL of the list with its type and topic has a
  -- higher priority, or the same priority and denies what it allows.
  pub resolve_effective_acls-prevails :
      (w b : DynsecAcl)
      → Memᴰ w (resolve_effective_acls locale_le acls)
      → Memᴰ b acls
      → acl_key b ≡ acl_key w
      → Memᴰ w acls × (outranks w b ≡ true)
  resolve_effective_acls-prevails w b m n same =
      let found =
        sym (find_key-resolve (acl_key w))
        ∙ find_key-of_mem acl_key (resolve_effective_acls locale_le acls) w resolve-IsDistinct m in
      let s = decide-Stands (acl_key w) none acls w found in
      (elim s.from [ inl e ↦ cc | inr k ↦ k.0 ], s.over_acls b n same)

-- What a list of ACLs decides for a type and topic: its first ACL's priority and effect.
abbrev shown : Option DynsecAcl → Option (ℤ × Bool)
shown none = none
shown (some acl) = some (acl.priority, acl.allow)

unfoldable pub effect : Text → List DynsecAcl → Option (ℤ × Bool)
effect key acls = shown (find_key acl_key key acls)

outranks_antisymm :
    (a b : DynsecAcl)
    → outranks a b ≡ true
    → outranks b a ≡ true
    → (a.priority ≡ b.priority) × (a.allow ≡ b.allow)
unfolding outranks
outranks_antisymm a b h k = ground arith

module _ (locale_le : Text → Text → Bool) (xs : List DynsecAcl) where
  decided-effect :
      (key : Text) (d : Option DynsecAcl)
      → decide key none xs ≡ d
      → effect key (resolve_effective_acls locale_le xs) ≡ shown d
  unfolding effect
  decided-effect key d e = ap shown (find_key-resolve locale_le xs key ∙ e)

module _ (xs ys : List DynsecAcl) (there : (a : DynsecAcl) → Memᴰ a xs → Memᴰ a ys) where
  decide-none_of : (key : Text) → decide key none ys ≡ none → decide key none xs ≡ none
  decide-none_of key e = elim (Option-cases (decide key none xs)) [
    | inl n ↦ n
    | inr f ↦
        let s = decide-Stands key none xs f.0 f.1 in
        elim s.from [
          | inl k ↦ cc
          | inr k ↦
              cc (decide-none key none ys e f.0 (there f.0 k.0), (eq_iff (acl_key f.0) key).1 k.1)
        ]
  ]

  decide-over :
      (key : Text) (a b : DynsecAcl)
      → decide key none xs ≡ some a
      → decide key none ys ≡ some b
      → outranks b a ≡ true
  decide-over key a b e f =
      let s = decide-Stands key none xs a e in
      elim s.from [
        | inl k ↦ cc
        | inr k ↦ (decide-Stands key none ys b f).over_acls a (there a k.0) k.1
      ]

-- Two lists with the same ACLs, in any order and however often, come to the same priority and
-- effect for every type and topic.
pub resolve_effective_acls-order :
    (locale_le : Text → Text → Bool) (xs ys : List DynsecAcl) (key : Text)
    → ((a : DynsecAcl) → Memᴰ a xs → Memᴰ a ys)
    → ((a : DynsecAcl) → Memᴰ a ys → Memᴰ a xs)
    → effect key (resolve_effective_acls locale_le xs)
      ≡ effect key (resolve_effective_acls locale_le ys)
resolve_effective_acls-order locale_le xs ys key there back =
    elim (Option-cases (decide key none xs)) [
      | inl e ↦
          decided-effect locale_le xs key none e
          ∙ sym (decided-effect locale_le ys key none (decide-none_of ys xs back key e))
      | inr f ↦ elim (Option-cases (decide key none ys)) [
        | inl e ↦ cc (decide-none_of xs ys there key e, f.1)
        | inr g ↦
            let (p, q) =
              outranks_antisymm f.0 g.0 (decide-over ys xs back key g.0 f.0 g.1 f.1)
                (decide-over xs ys there key f.0 g.0 f.1 g.1) in
            decided-effect locale_le xs key (some f.0) f.1
            ∙ ap₂ (λ p a. some (p, a)) p q
            ∙ sym (decided-effect locale_le ys key (some g.0) g.1)
      ]
    ]

acl_before-IsOrder :
    (locale_le : Text → Text → Bool) → IsOrder locale_le → IsOrder (acl_before locale_le)
unfolding acl_before
acl_before-IsOrder locale_le order = record {
  total = λ x y h. ground (arith, order.total (acl_key x) (acl_key y));
  transitive = λ x y z h k. ground (arith, order.transitive (acl_key x) (acl_key y) (acl_key z));
}

-- Where `localeCompare` is a total preorder of strings, the result stands in the order of its
-- comparator: by falling priority, then what denies before what allows, then by type and topic.
pub resolve_effective_acls-IsSorted :
    (locale_le : Text → Text → Bool) (acls : List DynsecAcl)
    → IsOrder locale_le
    → IsSorted (acl_before locale_le) (resolve_effective_acls locale_le acls)
unfolding resolve_effective_acls sort_acls_by_priority_and_effect
resolve_effective_acls-IsSorted locale_le acls order =
    sort-IsSorted (acl_before locale_le) (acl_before-IsOrder locale_le order)
      (values (collect_effective acls []))
