-- ===== src/Auth/Guards.antt =====
-- What no request may change.
use mqttctl.Prelude.{
  ◌≡◌, refl, ap, ◌∙◌, Text, ◌==◌, eq_iff, eqb, Bool, true, false, not, ◌||◌, ◌&&◌, some, List, [],
  ◌∷◌, filter, All, arith, inl, inr, Bool-cases, Option-cases,
}
use mqttctl.Prelude.Search.{find-holds}
use mqttctl.Permissions.{AuthenticatedUser}
use mqttctl.Auth.{
  StoredUser, AppDatabase, is_local, is_mcp_source, is_super_admin, get_user_by_id, patched,
  update_user_row, delete_user_row, delete_sessions_for_user,
}
use mqttctl.Auth.Accounts.{
  Crypto, Drawn, CreateUserInput, UpdateUserInput, created_row, create_user, update_user,
  delete_user, acts_as_mcp, is_given, user_patch,
}
use mqttctl.Auth.Created.{create_user-cases}
use mqttctl.Auth.Rows.{
  HasUniqueIds, Passes, filter-set_where, filter-remove, filter-snoc, find_unique,
}

-- A search by id that finds a row whose changes are not kept.
pub Passes-All :
    (keep : StoredUser → Bool) (change : StoredUser → StoredUser) (user_id : Text)
    (us : List StoredUser) (x : StoredUser)
    → All (λ u. (u.id == x.id) ≡ true → u ≡ x) us
    → x.id ≡ user_id
    → keep x ≡ false
    → keep (change x) ≡ false
    → All (Passes keep change user_id) us
Passes-All keep change user_id [] x a e k c = tt
Passes-All keep change user_id (u ∷ us) x a e k c = (
  λ q. let same = a.0 (rw e q) in (ap keep same ∙ k, ap (λ v. keep (change v)) same ∙ c),
  Passes-All keep change user_id us x a.1 e k c,
)

-- The rows of the superadmins.
pub super_admins : AppDatabase → List StoredUser
super_admins db = filter (λ u. is_super_admin u.role) db.users

pub lone_unkept :
    (keep : StoredUser → Bool) (user_id : Text) (us : List StoredUser) (x : StoredUser)
    → All (λ u. (u.id == x.id) ≡ true → u ≡ x) us
    → x.id ≡ user_id
    → keep x ≡ false
    → All (λ u. (u.id == user_id) ≡ true → keep u ≡ false) us
lone_unkept keep user_id [] x a e k = tt
lone_unkept keep user_id (u ∷ us) x a e k =
    (λ q. ap keep (a.0 (rw e q)) ∙ k, lone_unkept keep user_id us x a.1 e k)

module _ (user_id : Text) (db : AppDatabase) (x : StoredUser) where
  pub found_only :
      HasUniqueIds db.users
      → get_user_by_id user_id db ≡ some x
      → All (λ u. (u.id == x.id) ≡ true → u ≡ x) db.users
  unfolding get_user_by_id
  found_only d e = find_unique (λ u. u.id == user_id) db.users x d e

  pub found_id : get_user_by_id user_id db ≡ some x → x.id ≡ user_id
  unfolding get_user_by_id
  found_id e = (eq_iff x.id user_id).0 (find-holds (λ u. u.id == user_id) db.users x e)

module _ (crypto : Crypto) (actor : AuthenticatedUser) where
  create_user-super_admins :
      (input : CreateUserInput) (drawn : Drawn) (db : AppDatabase)
      → acts_as_mcp (some actor) ≡ true
      → super_admins (create_user crypto input (some actor) drawn db).1 ≡ super_admins db
  unfolding super_admins created_row
  create_user-super_admins input drawn db m =
      elim (create_user-cases crypto input (some actor) drawn db) [
        | inl u ↦ rw u.1 refl
        | inr c ↦
            rw c.result
              (filter-snoc (λ u. is_super_admin u.role) db.users _ (ground (arith, c.allowed, m)))
      ]

  update_user-super_admins :
      (input : UpdateUserInput) (drawn : Drawn) (db : AppDatabase)
      → HasUniqueIds db.users
      → acts_as_mcp (some actor) ≡ true
      → super_admins (update_user crypto input (some actor) drawn db).1 ≡ super_admins db
  unfolding update_user update_user_row delete_sessions_for_user super_admins user_patch
  update_user-super_admins input drawn db d m =
      elim (Option-cases (get_user_by_id input.user_id db)) [
        | inl e ↦ rw (e, update_user) refl
        | inr (x, e) ↦ elim (Bool-cases (is_mcp_source x.auth_source)) [
          | inl t ↦ rw (e, update_user, t) refl
          | inr a ↦
              elim (Bool-cases (
                acts_as_mcp (some actor) && (is_super_admin x.role || is_super_admin input.role))) [
                  | inl t ↦ rw (e, update_user, a, t) refl
                  | inr b ↦ elim (Bool-cases (not (is_local x.auth_source) && input.disabled)) [
                    | inl t ↦ rw (e, update_user, a, b, t) refl
                    | inr c ↦
                        elim (Bool-cases
                          (not (is_local x.auth_source) && is_given input.password)) [
                            | inl t ↦ rw (e, update_user, a, b, c, t) refl
                            | inr f ↦
                                let kept =
                                  filter-set_where (λ u. is_super_admin u.role)
                                    (patched (user_patch crypto x input drawn)) input.user_id
                                    db.users
                                    (Passes-All (λ u. is_super_admin u.role)
                                      (patched (user_patch crypto x input drawn)) input.user_id
                                      db.users x (found_only input.user_id db x d e)
                                      (found_id input.user_id db x e) (ground (arith, b, m))
                                      (ground (arith, b, m))) in
                                elim (Bool-cases (
                                  eqb (user_patch crypto x input drawn).session_version
                                    x.session_version)) [
                                      | inl v ↦ rw (e, update_user, a, b, c, f, v) kept
                                      | inr v ↦ rw (e, update_user, a, b, c, f, v) kept
                                    ]
                          ]
                  ]
                ]
        ]
      ]

delete_user-super_admins :
    (user_id : Text) (actor : AuthenticatedUser) (db : AppDatabase)
    → HasUniqueIds db.users
    → acts_as_mcp (some actor) ≡ true
    → super_admins (delete_user user_id (some actor) db).1 ≡ super_admins db
unfolding delete_user delete_user_row super_admins
delete_user-super_admins user_id actor db d m = elim (Option-cases (get_user_by_id user_id db)) [
  | inl e ↦ rw (e, delete_user) refl
  | inr (x, e) ↦ elim (Bool-cases (is_mcp_source x.auth_source)) [
    | inl t ↦ rw (e, delete_user, t) refl
    | inr a ↦ elim (Bool-cases (acts_as_mcp (some actor) && is_super_admin x.role)) [
      | inl t ↦ rw (e, delete_user, a, t) refl
      | inr b ↦
          rw (e, delete_user, a, b)
            (filter-remove (λ u. is_super_admin u.role) user_id db.users
              (lone_unkept (λ u. is_super_admin u.role) user_id db.users x
                (found_only user_id db x d e) (found_id user_id db x e) (ground (arith, b, m))))
    ]
  ]
]

-- Where the actor is the MCP user, no account of a superadmin is made, changed or deleted, whatever is
-- asked: creating, updating and deleting an account leave the list of the superadmins' rows as it was.
-- The ids of the rows must differ for the last two, as the primary key has it.
pub mcp_actor-super_admins :
    (crypto : Crypto) (actor : AuthenticatedUser) (db : AppDatabase) (input : CreateUserInput)
    (update : UpdateUserInput) (user_id : Text) (drawn : Drawn)
    → acts_as_mcp (some actor) ≡ true
    → HasUniqueIds db.users
    → (super_admins (create_user crypto input (some actor) drawn db).1 ≡ super_admins db)
      × (super_admins (update_user crypto update (some actor) drawn db).1 ≡ super_admins db)
      × (super_admins (delete_user user_id (some actor) db).1 ≡ super_admins db)
mcp_actor-super_admins crypto actor db input update user_id drawn m d = (
  create_user-super_admins crypto actor input drawn db m,
  update_user-super_admins crypto actor update drawn db d m,
  delete_user-super_admins user_id actor db d m,
)
