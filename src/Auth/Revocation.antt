-- ===== src/Auth/Revocation.antt =====
-- When a change of an account ends its sessions.
use mqttctl.Prelude.{
  ℕ, ◌≡◌, ◌≢◌, refl, subst, Text, ◌==◌, eq_iff, same_text, same_text_iff, is_empty, eqb, Bool, true,
  false, not, ◌||◌, ◌&&◌, Option, some, List, filter, find, arith, inl, inr, ◌⊎◌, Bool-cases,
  Option-cases,
}
use mqttctl.Prelude.Search.{find-holds, find-filter}
use mqttctl.Permissions.{AuthenticatedUser}
use mqttctl.Auth.{
  StoredUser, SessionRecord, AppDatabase, done, is_local, is_mcp_source, is_super_admin,
  get_user_by_id, get_session, delete_user_row, update_user_row, delete_sessions_for_user,
}
use mqttctl.Auth.Accounts.{
  Crypto, Drawn, UpdateUserInput, update_user, delete_user, acts_as_mcp, user_patch, same_flag,
}
use mqttctl.Auth.Login.{sanitize_user, get_user_from_cookie}
use mqttctl.Auth.Vouched.{get_user_from_cookie-Vouches}

-- No cookie stands for the user of an id, at any time.
pub HasNoSession : Crypto → Text → AppDatabase → Type 0
HasNoSession crypto user_id db =
    (cookie : Option Text) (now : ℕ) (u : AuthenticatedUser)
    → (get_user_from_cookie crypto cookie now db).0 ≡ done (some u)
    → u.id ≢ user_id

module _ (crypto : Crypto) (user_id : Text) (sessions : List SessionRecord) (db : AppDatabase) where
  purged-HasNoSession :
      db.sessions ≡ filter (λ s. not (s.user_id == user_id)) sessions
      → HasNoSession crypto user_id db
  unfolding HasNoSession get_session get_user_by_id sanitize_user
  purged-HasNoSession p cookie now u h same =
      let v = get_user_from_cookie-Vouches crypto cookie now db u h in
      let owned = find-holds (λ w. w.id == v.session.user_id) db.users v.user v.owner in
      let kept =
        find-filter (λ s. s.id == v.session_id) (λ s. not (s.user_id == user_id)) sessions v.session
          (subst (λ xs. find (λ s. s.id == v.session_id) xs ≡ some v.session) p v.stored) in
      ground (
        arith,
        eq_iff v.user.id v.session.user_id,
        eq_iff v.session.user_id user_id,
        same,
        v.shown,
        owned,
        kept,
      )

-- After an account is deleted, no cookie stands for it.
pub delete_user-HasNoSession :
    (crypto : Crypto) (user_id : Text) (actor : Option AuthenticatedUser) (db : AppDatabase)
    → (delete_user user_id actor db).0 ≡ done tt
    → HasNoSession crypto user_id (delete_user user_id actor db).1
unfolding delete_user delete_user_row
delete_user-HasNoSession crypto user_id actor db = elim (Option-cases (get_user_by_id user_id db)) [
  | inl e ↦ rw (e, delete_user) (λ h. cc)
  | inr (existing, e) ↦ elim (Bool-cases (is_mcp_source existing.auth_source)) [
    | inl m ↦ rw (e, delete_user, m) (λ h. cc)
    | inr m ↦ elim (Bool-cases (acts_as_mcp actor && is_super_admin existing.role)) [
      | inl a ↦ rw (e, delete_user, m, a) (λ h. cc)
      | inr a ↦
          rw (e, delete_user, m, a) (λ h. purged-HasNoSession crypto user_id db.sessions _ refl)
    ]
  ]
]

-- What is asked of a local account either changes whether it is disabled or sets another hash.
abbrev pub ChangesAccess : Crypto → StoredUser → UpdateUserInput → Drawn → Type 0
ChangesAccess crypto existing input drawn =
    (input.disabled ≢ existing.disabled)
    ⊎ ((p : Text) × (input.password ≡ some p)
        × (is_empty p ≡ false)
        × (some (crypto.hash drawn.salt p) ≢ existing.password_hash))

same_flag_iff : (a b : Bool) → (same_flag a b ≡ true) → (a ≡ b)
same_flag_iff true true h = refl
same_flag_iff true false h = cc
same_flag_iff false true h = cc
same_flag_iff false false h = refl

version_grows :
    (crypto : Crypto) (existing : StoredUser) (input : UpdateUserInput) (drawn : Drawn)
    → is_local existing.auth_source ≡ true
    → ChangesAccess crypto existing input drawn
    → eqb (user_patch crypto existing input drawn).session_version existing.session_version ≡ false
unfolding user_patch
version_grows crypto existing input drawn l (inl d) =
    elim (Bool-cases (same_flag input.disabled existing.disabled)) [
      | inl q ↦ absurd (d (same_flag_iff input.disabled existing.disabled q))
      | inr q ↦ rw (l, q) (ground arith)
    ]
version_grows crypto existing input drawn l (inr (p, e, n, c)) =
    elim (Bool-cases (same_text (some (crypto.hash drawn.salt p)) existing.password_hash)) [
      | inl q ↦
          absurd (c ((same_text_iff (some (crypto.hash drawn.salt p)) existing.password_hash).0 q))
      | inr q ↦ rw (l, e, n, q) (ground arith)
    ]

-- After an update of a local account is accepted that disables or enables it or stores another hash for
-- its password, no cookie stands for it.
pub update_user-HasNoSession :
    (crypto : Crypto) (input : UpdateUserInput) (actor : Option AuthenticatedUser) (drawn : Drawn)
    (db : AppDatabase) (existing : StoredUser)
    → get_user_by_id input.user_id db ≡ some existing
    → is_local existing.auth_source ≡ true
    → ChangesAccess crypto existing input drawn
    → (update_user crypto input actor drawn db).0 ≡ done tt
    → HasNoSession crypto input.user_id (update_user crypto input actor drawn db).1
unfolding update_user update_user_row delete_sessions_for_user
update_user-HasNoSession crypto input actor drawn db existing e l c =
    elim (Bool-cases (is_mcp_source existing.auth_source)) [
      | inl m ↦ rw (e, update_user, m) (λ h. cc)
      | inr m ↦
          elim (Bool-cases
            (acts_as_mcp actor && (is_super_admin existing.role || is_super_admin input.role))) [
              | inl a ↦ rw (e, update_user, m, a) (λ h. cc)
              | inr a ↦
                  rw (e, update_user, m, a, l, version_grows crypto existing input drawn l c)
                    (λ h. purged-HasNoSession crypto input.user_id db.sessions _ refl)
            ]
    ]
