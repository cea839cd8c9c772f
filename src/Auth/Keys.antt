-- ===== src/Auth/Keys.antt =====
-- The primary key of `app_users` through every operation that writes the table.
use mqttctl.Prelude.{
  ◌≡◌, refl, ◌∙◌, Text, ◌==◌, eq_iff, eqb, Bool, false, not, ◌||◌, ◌&&◌, Option, List, [], ◌∷◌,
  ◌++◌, filter, any, arith, inl, inr, Bool-cases, Option-cases,
}
use mqttctl.Permissions.{AuthenticatedUser}
use mqttctl.Auth.{
  StoredUser, AppDatabase, set_where, patched, update_user_row, delete_user_row,
  delete_sessions_for_user, get_user_by_id, is_mcp_source, is_super_admin, is_local,
}
use mqttctl.Auth.Accounts.{
  Crypto, Drawn, CreateUserInput, UpdateUserInput, create_user, created_row, update_user,
  user_patch, delete_user, acts_as_mcp, is_given,
}
use mqttctl.Auth.Created.{create_user-cases}
use mqttctl.Auth.Rows.{HasUniqueIds}

any-set_where :
    (i user_id : Text) (change : StoredUser → StoredUser) (us : List StoredUser)
    → ((u : StoredUser) → (change u).id ≡ u.id)
    → any (λ v. v.id == i) (set_where user_id change us) ≡ any (λ v. v.id == i) us
unfolding any set_where
any-set_where i user_id change [] same = refl
any-set_where i user_id change (u ∷ us) same = elim (Bool-cases (u.id == user_id)) [
  | inl e ↦ rw (e, same u, any-set_where i user_id change us same) refl
  | inr e ↦ rw (e, any-set_where i user_id change us same) refl
]

pub set_where-HasUniqueIds :
    (user_id : Text) (change : StoredUser → StoredUser) (us : List StoredUser)
    → ((u : StoredUser) → (change u).id ≡ u.id)
    → HasUniqueIds us
    → HasUniqueIds (set_where user_id change us)
unfolding set_where
set_where-HasUniqueIds user_id change [] same h = tt
set_where-HasUniqueIds user_id change (u ∷ us) same (d, ds) =
    let rest = set_where-HasUniqueIds user_id change us same ds in
    elim (Bool-cases (u.id == user_id)) [
      | inl e ↦ rw e (rw (same u) (any-set_where u.id user_id change us same ∙ d), rest)
      | inr e ↦ rw e (any-set_where u.id user_id change us same ∙ d, rest)
    ]

any-filter :
    (i : Text) (keep : StoredUser → Bool) (us : List StoredUser)
    → any (λ v. v.id == i) us ≡ false
    → any (λ v. v.id == i) (filter keep us) ≡ false
unfolding any filter
any-filter i keep [] h = refl
any-filter i keep (u ∷ us) h = elim (Bool-cases (keep u)) [
  | inl k ↦ rw k (ground (arith, h, any-filter i keep us))
  | inr k ↦ rw k (any-filter i keep us (ground (arith, h)))
]

filter-HasUniqueIds :
    (keep : StoredUser → Bool) (us : List StoredUser)
    → HasUniqueIds us
    → HasUniqueIds (filter keep us)
unfolding filter
filter-HasUniqueIds keep [] h = tt
filter-HasUniqueIds keep (u ∷ us) (d, ds) = elim (Bool-cases (keep u)) [
  | inl k ↦ rw k (any-filter u.id keep us d, filter-HasUniqueIds keep us ds)
  | inr k ↦ rw k (filter-HasUniqueIds keep us ds)
]

any-snoc :
    (i : Text) (us : List StoredUser) (row : StoredUser)
    → any (λ v. v.id == i) us ≡ false
    → (row.id == i) ≡ false
    → any (λ v. v.id == i) (us ++ row ∷ []) ≡ false
unfolding any
any-snoc i [] row h r = rw r refl
any-snoc i (u ∷ us) row h r = ground (arith, h, any-snoc i us row, r)

snoc-HasUniqueIds :
    (us : List StoredUser) (row : StoredUser)
    → any (λ v. v.id == row.id) us ≡ false
    → HasUniqueIds us
    → HasUniqueIds (us ++ row ∷ [])
unfolding any
snoc-HasUniqueIds [] row h d = (refl, tt)
snoc-HasUniqueIds (u ∷ us) row h (d, ds) = (
  any-snoc u.id us row d (ground (arith, h, eq_iff u.id row.id, eq_iff row.id u.id)),
  snoc-HasUniqueIds us row (ground (arith, h)) ds,
)

module _ (crypto : Crypto) (db : AppDatabase) (d : HasUniqueIds db.users) where
  pub create_user-HasUniqueIds :
      (input : CreateUserInput) (actor : Option AuthenticatedUser) (drawn : Drawn)
      → HasUniqueIds (create_user crypto input actor drawn db).1.users
  unfolding created_row
  create_user-HasUniqueIds input actor drawn =
      elim (create_user-cases crypto input actor drawn db) [
        | inl u ↦ rw u.1 d
        | inr c ↦
            rw c.result (snoc-HasUniqueIds db.users (created_row crypto input drawn) c.fresh_id d)
      ]

  pub update_user-HasUniqueIds :
      (input : UpdateUserInput) (actor : Option AuthenticatedUser) (drawn : Drawn)
      → HasUniqueIds (update_user crypto input actor drawn db).1.users
  unfolding update_user update_user_row delete_sessions_for_user
  update_user-HasUniqueIds input actor drawn =
      elim (Option-cases (get_user_by_id input.user_id db)) [
        | inl e ↦ rw (e, update_user) d
        | inr (x, e) ↦
            let after =
              set_where-HasUniqueIds input.user_id (patched (user_patch crypto x input drawn))
                db.users (λ u. refl) d in
            elim (Bool-cases (is_mcp_source x.auth_source)) [
              | inl t ↦ rw (e, update_user, t) d
              | inr a ↦
                  elim (Bool-cases
                    (acts_as_mcp actor && (is_super_admin x.role || is_super_admin input.role))) [
                      | inl t ↦ rw (e, update_user, a, t) d
                      | inr b ↦ elim (Bool-cases (not (is_local x.auth_source) && input.disabled)) [
                        | inl t ↦ rw (e, update_user, a, b, t) d
                        | inr c ↦
                            elim (Bool-cases
                              (not (is_local x.auth_source) && is_given input.password)) [
                                | inl t ↦ rw (e, update_user, a, b, c, t) d
                                | inr f ↦
                                    elim (Bool-cases (
                                      eqb (user_patch crypto x input drawn).session_version
                                        x.session_version)) [
                                          | inl v ↦ rw (e, update_user, a, b, c, f, v) after
                                          | inr v ↦ rw (e, update_user, a, b, c, f, v) after
                                        ]
                              ]
                      ]
                    ]
            ]
      ]

  pub delete_user-HasUniqueIds :
      (user_id : Text) (actor : Option AuthenticatedUser)
      → HasUniqueIds (delete_user user_id actor db).1.users
  unfolding delete_user delete_user_row
  delete_user-HasUniqueIds user_id actor = elim (Option-cases (get_user_by_id user_id db)) [
    | inl e ↦ rw (e, delete_user) d
    | inr (x, e) ↦ elim (Bool-cases (is_mcp_source x.auth_source)) [
      | inl t ↦ rw (e, delete_user, t) d
      | inr a ↦ elim (Bool-cases (acts_as_mcp actor && is_super_admin x.role)) [
        | inl t ↦ rw (e, delete_user, a, t) d
        | inr b ↦
            rw (e, delete_user, a, b) (filter-HasUniqueIds (λ u. not (u.id == user_id)) db.users d)
      ]
    ]
  ]
