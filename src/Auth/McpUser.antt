-- ===== src/Auth/McpUser.antt =====
-- The rows of the MCP system user through everything that writes accounts.
use mqttctl.Prelude.{
  ◌≡◌, refl, ap, ◌∙◌, subst, Text, eqb, Bool, true, false, not, ◌||◌, ◌&&◌, Option, none, some,
  List, [], ◌∷◌, filter, find, All, same_of_some, inl, inr, Bool-cases, Option-cases,
}
use mqttctl.Permissions.{AuthMethod, AuthenticatedUser}
use mqttctl.Auth.{
  StoredUser, AppDatabase, is_local, is_mcp_source, is_super_admin, get_user_by_id, patched,
  update_user_row, delete_user_row, delete_sessions_for_user,
}
use mqttctl.Auth.Accounts.{
  Crypto, Drawn, CreateUserInput, UpdateUserInput, created_row, create_user, update_user,
  delete_user, acts_as_mcp, is_given, user_patch,
}
use mqttctl.Auth.Created.{create_user-cases}
use mqttctl.Auth.External.{sync_external_account, linked_version}
use mqttctl.Auth.Rows.{HasUniqueIds, filter-set_where, filter-remove, filter-snoc, find_unique}
use mqttctl.Auth.Guards.{Passes-All, lone_unkept, found_only, found_id}
use mqttctl.Auth.Linked.{ExternalOutcome, Links}
use mqttctl.Auth.Linking.{linked-protected}

-- The rows whose accounts sign in for the MCP server.
abbrev pub mcp_rows : AppDatabase → List StoredUser
mcp_rows db = filter (λ u. is_mcp_source u.auth_source) db.users

-- Such a row as it is made at the start: protected, and without a subject.
abbrev pub IsLocked : StoredUser → Type 0
IsLocked u = (u.protected_from_auto_link ≡ true) × (u.external_subject ≡ none)

find-IsLocked :
    (test keep : StoredUser → Bool) (us : List StoredUser) (x : StoredUser)
    → find test us ≡ some x
    → keep x ≡ true
    → All IsLocked (filter keep us)
    → IsLocked x
unfolding find filter
find-IsLocked test keep [] x f k h = cc
find-IsLocked test keep (u ∷ us) x f k h = elim (Bool-cases (test u)) [
  | inl e ↦
      let same = same_of_some (rw (e, find) at f) in
      subst IsLocked same (rw (ap keep same ∙ k, filter) at h).0
  | inr e ↦ elim (Bool-cases (keep u)) [
    | inl kept ↦ find-IsLocked test keep us x (rw (e, find) at f) k (rw (kept, filter) at h).1
    | inr out ↦ find-IsLocked test keep us x (rw (e, find) at f) k (rw (out, filter) at h)
  ]
]

module _ (crypto : Crypto) (db : AppDatabase) (d : HasUniqueIds db.users) where
  pub create_user-mcp_rows :
      (input : CreateUserInput) (actor : Option AuthenticatedUser) (drawn : Drawn)
      → mcp_rows (create_user crypto input actor drawn db).1 ≡ mcp_rows db
  unfolding created_row
  create_user-mcp_rows input actor drawn = elim (create_user-cases crypto input actor drawn db) [
    | inl u ↦ rw u.1 refl
    | inr c ↦ rw c.result (filter-snoc (λ u. is_mcp_source u.auth_source) db.users _ c.human)
  ]

  pub update_user-mcp_rows :
      (input : UpdateUserInput) (actor : Option AuthenticatedUser) (drawn : Drawn)
      → mcp_rows (update_user crypto input actor drawn db).1 ≡ mcp_rows db
  unfolding update_user update_user_row delete_sessions_for_user user_patch
  update_user-mcp_rows input actor drawn = elim (Option-cases (get_user_by_id input.user_id db)) [
    | inl e ↦ rw (e, update_user) refl
    | inr (x, e) ↦ elim (Bool-cases (is_mcp_source x.auth_source)) [
      | inl t ↦ rw (e, update_user, t) refl
      | inr a ↦
          let kept =
            filter-set_where (λ u. is_mcp_source u.auth_source)
              (patched (user_patch crypto x input drawn)) input.user_id db.users
              (Passes-All (λ u. is_mcp_source u.auth_source)
                (patched (user_patch crypto x input drawn)) input.user_id db.users x
                (found_only input.user_id db x d e) (found_id input.user_id db x e) a a) in
          elim (Bool-cases
            (acts_as_mcp actor && (is_super_admin x.role || is_super_admin input.role))) [
              | inl t ↦ rw (e, update_user, a, t) refl
              | inr b ↦ elim (Bool-cases (not (is_local x.auth_source) && input.disabled)) [
                | inl t ↦ rw (e, update_user, a, b, t) refl
                | inr c ↦
                    elim (Bool-cases (not (is_local x.auth_source) && is_given input.password)) [
                      | inl t ↦ rw (e, update_user, a, b, c, t) refl
                      | inr f ↦
                          elim (Bool-cases (
                            eqb (user_patch crypto x input drawn).session_version
                              x.session_version)) [
                                | inl v ↦ rw (e, update_user, a, b, c, f, v) kept
                                | inr v ↦ rw (e, update_user, a, b, c, f, v) kept
                              ]
                    ]
              ]
            ]
    ]
  ]

  pub delete_user-mcp_rows :
      (user_id : Text) (actor : Option AuthenticatedUser)
      → mcp_rows (delete_user user_id actor db).1 ≡ mcp_rows db
  unfolding delete_user delete_user_row
  delete_user-mcp_rows user_id actor = elim (Option-cases (get_user_by_id user_id db)) [
    | inl e ↦ rw (e, delete_user) refl
    | inr (x, e) ↦ elim (Bool-cases (is_mcp_source x.auth_source)) [
      | inl t ↦ rw (e, delete_user, t) refl
      | inr a ↦ elim (Bool-cases (acts_as_mcp actor && is_super_admin x.role)) [
        | inl t ↦ rw (e, delete_user, a, t) refl
        | inr b ↦
            rw (e, delete_user, a, b)
              (filter-remove (λ u. is_mcp_source u.auth_source) user_id db.users
                (lone_unkept (λ u. is_mcp_source u.auth_source) user_id db.users x
                  (found_only user_id db x d e) (found_id user_id db x e) a))
      ]
    ]
  ]

  linked-human :
      (source : AuthMethod) (db' : AppDatabase) (l : Links source db db')
      → All IsLocked (mcp_rows db)
      → is_mcp_source l.user.auth_source ≡ false
  linked-human source db' l locked = elim (Bool-cases (is_mcp_source l.user.auth_source)) [
    | inr human ↦ human
    | inl machine ↦
        let lock =
          find-IsLocked l.test (λ u. is_mcp_source u.auth_source) db.users l.user l.found machine
            locked in
        elim l.allowed [
          | inl free ↦ cc (linked-protected crypto source l.user free, lock.0)
          | inr (subject, carried) ↦ cc (lock.1, carried)
        ]
  ]

  sync-mcp_rows :
      (source : AuthMethod) (db' : AppDatabase) (l : Links source db db')
      → is_mcp_source source ≡ false
      → is_mcp_source l.user.auth_source ≡ false
      → mcp_rows (sync_external_account l.user source l.subject l.email l.now db).1 ≡ mcp_rows db
  unfolding sync_external_account update_user_row delete_sessions_for_user
  sync-mcp_rows source db' l outside human =
      let x = l.user in
      let only = find_unique l.test db.users x d l.found in
      let kept =
        λ (change : StoredUser → StoredUser) (c : is_mcp_source (change x).auth_source ≡ false).
          filter-set_where (λ u. is_mcp_source u.auth_source) change x.id db.users
            (Passes-All (λ u. is_mcp_source u.auth_source) change x.id db.users x only refl human
              c) in
      elim (Bool-cases (eqb (linked_version x source l.subject) x.session_version)) [
        | inl v ↦ rw (v, sync_external_account) (kept _ outside)
        | inr v ↦ rw (v, sync_external_account) (kept _ outside)
      ]

  pub outcome-mcp_rows :
      (source : AuthMethod) (db' : AppDatabase)
      → is_mcp_source source ≡ false
      → All IsLocked (mcp_rows db)
      → ExternalOutcome crypto source db db'
      → mcp_rows db' ≡ mcp_rows db
  outcome-mcp_rows source db' outside locked (inl same) = ap mcp_rows same
  outcome-mcp_rows source db' outside locked (inr (inl made)) =
      ap mcp_rows made.result ∙ create_user-mcp_rows made.input none made.drawn
  outcome-mcp_rows source db' outside locked (inr (inr l)) =
      ap mcp_rows l.result ∙ sync-mcp_rows source db' l outside (linked-human source db' l locked)
