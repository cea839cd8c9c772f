-- ===== src/Auth/Rows.antt =====
-- The rows of `app_users` that a change by id leaves as they are.
use mqttctl.Prelude.{
  ◌≡◌, refl, ap, subst, sym, or_else, Text, ◌==◌, eq_iff, Bool, true, false, not, Option, some,
  List, [], ◌∷◌, ◌++◌, filter, any, find, All, arith, inl, inr, Bool-cases,
}
use mqttctl.Auth.{StoredUser, set_where}

-- No two rows have one id: the primary key.
abbrev pub HasUniqueIds : List StoredUser → Type 0
HasUniqueIds [] = Unit
HasUniqueIds (u ∷ us) = (any (λ v. v.id == u.id) us ≡ false) × HasUniqueIds us

-- A row that has the id is not kept, neither as it is nor as it is changed.
abbrev pub Passes : (StoredUser → Bool) → (StoredUser → StoredUser) → Text → StoredUser → Type 0
Passes keep change user_id u =
    (u.id == user_id) ≡ true → (keep u ≡ false) × (keep (change u) ≡ false)

pub filter-set_where :
    (keep : StoredUser → Bool) (change : StoredUser → StoredUser) (user_id : Text)
    (us : List StoredUser)
    → All (Passes keep change user_id) us
    → filter keep (set_where user_id change us) ≡ filter keep us
unfolding filter set_where
filter-set_where keep change user_id [] h = refl
filter-set_where keep change user_id (u ∷ us) (p, h) =
    let rest = filter-set_where keep change user_id us h in
    elim (Bool-cases (u.id == user_id)) [
      | inl e ↦ rw (e, (p e).0, (p e).1, rest) refl
      | inr e ↦ rw (e, rest) refl
    ]

pub filter-remove :
    (keep : StoredUser → Bool) (user_id : Text) (us : List StoredUser)
    → All (λ u. (u.id == user_id) ≡ true → keep u ≡ false) us
    → filter keep (filter (λ u. not (u.id == user_id)) us) ≡ filter keep us
unfolding filter
filter-remove keep user_id [] h = refl
filter-remove keep user_id (u ∷ us) (p, h) =
    let rest = filter-remove keep user_id us h in
    elim (Bool-cases (u.id == user_id)) [
      | inl e ↦ rw (e, p e, rest) refl
      | inr e ↦ rw (e, filter, rest) refl
    ]

pub filter-snoc :
    (keep : StoredUser → Bool) (us : List StoredUser) (row : StoredUser)
    → keep row ≡ false
    → filter keep (us ++ row ∷ []) ≡ filter keep us
unfolding filter
filter-snoc keep [] row h = rw h refl
filter-snoc keep (u ∷ us) row h = rw (filter-snoc keep us row h) refl

absent-All :
    (x : StoredUser) (us : List StoredUser)
    → any (λ v. v.id == x.id) us ≡ false
    → All (λ u. (u.id == x.id) ≡ true → u ≡ x) us
unfolding any
absent-All x [] h = tt
absent-All x (u ∷ us) h = (λ e. ground (arith, h, e), absent-All x us (ground (arith, h)))

found-any :
    (test : StoredUser → Bool) (us : List StoredUser) (x : StoredUser) (i : Text)
    → x.id ≡ i
    → find test us ≡ some x
    → any (λ v. v.id == i) us ≡ true
unfolding find any
found-any test [] x i e = λ h. cc
found-any test (u ∷ us) x i e = elim (Bool-cases (test u)) [
  | inl t ↦
      rw t (λ h. ground (arith, eq_iff u.id i, ap (λ (o : Option StoredUser). or_else o x) h, e))
  | inr t ↦ rw t (λ h. ground (arith, found-any test us x i e h))
]

-- What a search finds in a table is the only row of its id.
pub find_unique :
    (test : StoredUser → Bool) (us : List StoredUser) (x : StoredUser)
    → HasUniqueIds us
    → find test us ≡ some x
    → All (λ u. (u.id == x.id) ≡ true → u ≡ x) us
unfolding find any
find_unique test [] x d = λ h. tt
find_unique test (u ∷ us) x (d, ds) = elim (Bool-cases (test u)) [
  | inl e ↦ rw e (λ h.
      let same = ap (λ (o : Option StoredUser). or_else o x) h in
      (
        λ q. same,
        absent-All x us (subst (λ (v : StoredUser). any (λ w. w.id == v.id) us ≡ false) same d),
      ))
  | inr e ↦ rw e (λ h. (
    λ q. ground (arith, d, found-any test us x u.id (sym ((eq_iff u.id x.id).0 q)) h),
    find_unique test us x ds h,
  ))
]
