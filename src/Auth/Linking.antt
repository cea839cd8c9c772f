-- ===== src/Auth/Linking.antt =====
-- Accounts that are protected from being linked to an outside login.
use mqttctl.Prelude.{
  ℕ, ◌≡◌, refl, Text, ◌==◌, is_empty, same_text, eqb, Bool, false, not, ◌||◌, Option, none, some,
  List, [], filter, any, find, arith, inl, inr, Bool-cases, Option-cases, or_else,
}
use mqttctl.Permissions.{AuthMethod, oidc, header}
use mqttctl.Auth.{
  StoredUser, AppDatabase, get_user_by_username, get_user_by_external_subject, update_user_row,
  delete_sessions_for_user,
}
use mqttctl.Auth.Accounts.{
  Crypto, Drawn, CreateUserInput, created_row, create_user, normalize_username,
}
use mqttctl.Auth.Created.{create_user-cases}
use mqttctl.Auth.External.{
  ExternalConfig, reconcile_external_user, authenticate_trusted_headers,
  ensure_account_can_auto_link, sync_external_account, header_given, linked_version,
}
use mqttctl.Auth.Rows.{HasUniqueIds, filter-set_where, filter-snoc, find_unique}
use mqttctl.Auth.Guards.{Passes-All}

-- The rows of the protected accounts.
pub protected_rows : AppDatabase → List StoredUser
protected_rows db = filter (λ u. u.protected_from_auto_link) db.users

module _ (test : StoredUser → Bool) (db : AppDatabase) (x : StoredUser)
    (d : HasUniqueIds db.users) where
  sync-protected :
      (source : AuthMethod) (subject email : Option Text) (now : ℕ)
      → find test db.users ≡ some x
      → x.protected_from_auto_link ≡ false
      → protected_rows (sync_external_account x source subject email now db).1 ≡ protected_rows db
  unfolding sync_external_account update_user_row delete_sessions_for_user protected_rows
  sync-protected source subject email now e p =
      let only = find_unique test db.users x d e in
      let kept =
        λ (change : StoredUser → StoredUser) (c : (change x).protected_from_auto_link ≡ false).
          filter-set_where (λ u. u.protected_from_auto_link) change x.id db.users
            (Passes-All (λ u. u.protected_from_auto_link) change x.id db.users x only refl p c) in
      elim (Bool-cases (eqb (linked_version x source subject) x.session_version)) [
        | inl v ↦ rw (v, sync_external_account) (kept _ p)
        | inr v ↦ rw (v, sync_external_account) (kept _ p)
      ]

module _ (crypto : Crypto) where
  create-protected :
      (input : CreateUserInput) (drawn : Drawn) (db : AppDatabase)
      → protected_rows (create_user crypto input none drawn db).1 ≡ protected_rows db
  unfolding protected_rows created_row
  create-protected input drawn db = elim (create_user-cases crypto input none drawn db) [
    | inl u ↦ rw u.1 refl
    | inr c ↦ rw c.result (filter-snoc (λ u. u.protected_from_auto_link) db.users _ refl)
  ]

  pub linked-protected :
      (source : AuthMethod) (x : StoredUser)
      → ensure_account_can_auto_link x source ≡ none
      → x.protected_from_auto_link ≡ false
  unfolding ensure_account_can_auto_link
  linked-protected source x h = elim (Bool-cases x.protected_from_auto_link) [
    | inl p ↦ ground (arith, h, p)
    | inr p ↦ p
  ]

-- No login by the headers of a proxy changes, adds or removes a protected account, where the rows have
-- distinct ids.
pub authenticate_trusted_headers-protected_rows :
    (crypto : Crypto) (config : ExternalConfig) (source_ip : Option Text)
    (headers : Text → Option Text) (drawn : Drawn) (db : AppDatabase)
    → HasUniqueIds db.users
    → protected_rows (authenticate_trusted_headers crypto config source_ip headers drawn db).1
      ≡ protected_rows db
unfolding authenticate_trusted_headers get_user_by_username
authenticate_trusted_headers-protected_rows crypto config source_ip headers drawn db d =
    let name = normalize_username crypto (or_else (headers config.username_header) []) in
    elim (Bool-cases (not config.header_enabled)) [
      | inl t ↦ rw (t, authenticate_trusted_headers) refl
      | inr a ↦
          elim (Bool-cases
            (is_empty (or_else source_ip []) || not (config.trusted (or_else source_ip [])))) [
              | inl t ↦ rw (a, authenticate_trusted_headers, t) refl
              | inr b ↦
                  elim (Bool-cases
                    (any (λ h. not (header_given headers h)) config.required_headers)) [
                      | inl t ↦ rw (a, authenticate_trusted_headers, b, t) refl
                      | inr c ↦
                          elim (Bool-cases (not (header_given headers config.username_header))) [
                            | inl t ↦ rw (a, authenticate_trusted_headers, b, c, t) refl
                            | inr e ↦ elim (Option-cases (get_user_by_username name db)) [
                              | inl n ↦
                                  rw (a, authenticate_trusted_headers, b, c, e, n)
                                    (create-protected crypto _ drawn db)
                              | inr (x, f) ↦
                                  elim (Option-cases (ensure_account_can_auto_link x header)) [
                                    | inr (err, g) ↦
                                        rw (a, authenticate_trusted_headers, b, c, e, f, g) refl
                                    | inl g ↦
                                        rw (a, authenticate_trusted_headers, b, c, e, f, g)
                                          (sync-protected (λ u. u.username == name) db x d header
                                            none x.email drawn.now f
                                            (linked-protected crypto header x g))
                                  ]
                            ]
                          ]
                    ]
            ]
    ]

-- No OIDC login changes, adds or removes a protected account, where the rows have distinct ids and the
-- account that is found by the subject, if there is one, is not protected.
pub reconcile_external_user-protected_rows :
    (crypto : Crypto) (config : ExternalConfig) (subject username : Text) (email : Option Text)
    (drawn : Drawn) (db : AppDatabase)
    → HasUniqueIds db.users
    → ((x : StoredUser)
        → get_user_by_external_subject subject db ≡ some x
        → x.protected_from_auto_link ≡ false)
    → protected_rows (reconcile_external_user crypto config subject username email drawn db).1
      ≡ protected_rows db
unfolding reconcile_external_user get_user_by_username get_user_by_external_subject
reconcile_external_user-protected_rows crypto config subject username email drawn db d p =
    let name = normalize_username crypto username in
    elim (Option-cases (get_user_by_external_subject subject db)) [
      | inr (x, f) ↦
          rw (f, reconcile_external_user)
            (sync-protected (λ u. same_text u.external_subject (some subject)) db x d oidc
              (some subject) email drawn.now f (p x f))
      | inl a ↦ elim (Option-cases (get_user_by_username name db)) [
        | inl n ↦ rw (a, reconcile_external_user, n) (create-protected crypto _ drawn db)
        | inr (x, f) ↦ elim (Option-cases (ensure_account_can_auto_link x oidc)) [
          | inr (err, g) ↦ rw (a, reconcile_external_user, f, g) refl
          | inl g ↦
              rw (a, reconcile_external_user, f, g)
                (sync-protected (λ u. u.username == name) db x d oidc (some subject) email drawn.now
                  f (linked-protected crypto oidc x g))
        ]
      ]
    ]
