-- ===== src/Auth/External.antt =====
-- Logins that another party vouches for: OIDC, and the headers of a trusted proxy. What OIDC's
-- endpoints answer is an argument, as is the list of trusted addresses.
use mqttctl.Prelude.{
  ℕ, ◌+◌, ◌-◌, ◌*◌, eqb, Text, codes, same_text, is_empty, Bool, false, not, ◌||◌, Option, none,
  some, List, [], any, is_some, or_else, if◌then◌else◌,
}
use mqttctl.Permissions.{
  PrincipalRole, viewer, super_admin, AuthMethod, oidc, header, AppError, AuthenticatedUser,
}
use mqttctl.Auth.{
  StoredUser, AppDatabase, Reply, done, refused, thrown, same_method, get_user_by_username,
  get_user_by_external_subject, update_user_row, delete_sessions_for_user, purge_expired_sessions,
  purge_old_auth_requests,
}
use mqttctl.Auth.Accounts.{
  Crypto, Drawn, CreateUserInput, app_error, normalize_username, create_user,
}
use mqttctl.Auth.Login.{sanitize_user}

unfoldable pub ensure_account_can_auto_link : StoredUser → AuthMethod → Option AppError
ensure_account_can_auto_link user auth_method =
    if user.protected_from_auto_link
    then some (
        app_error
          (if same_method auth_method header
            then codes "AUTH_HEADER_INVALID"
            else codes "AUTH_OIDC_CALLBACK_FAILED")
          403)
    else none

-- The version of the sessions after an account is linked.
unfoldable pub linked_version : StoredUser → AuthMethod → Option Text → ℕ
linked_version user auth_source external_subject =
    if not (same_method user.auth_source auth_source)
      || not (same_text user.external_subject external_subject)
      || is_some user.password_hash
      || user.disabled
    then user.session_version + 1
    else user.session_version

unfoldable pub sync_external_account :
    StoredUser → AuthMethod → Option Text → Option Text → ℕ → AppDatabase → StoredUser × AppDatabase
sync_external_account user auth_source external_subject email now db =
    let version = linked_version user auth_source external_subject in
    let db' =
      update_user_row user.id
        (record {
          email = email;
          role = user.role;
          auth_source = auth_source;
          external_subject = external_subject;
          password_hash = none;
          disabled = false;
          session_version = version;
          updated_at = now;
        })
        db in
    (
      record user {
        email = email;
        auth_source = auth_source;
        external_subject = external_subject;
        password_hash = none;
        disabled = false;
        session_version = version;
        updated_at = now;
      },
      if eqb version user.session_version then db' else delete_sessions_for_user user.id db',
    )

-- `auth.oidc.bootstrapAdminSubject` and `auth.header` of the configuration.
pub record ExternalConfig : Type 0 where
  pub oidc_enabled : Bool
  pub bootstrap_admin_subject : Option Text
  pub header_enabled : Bool
  pub trusted : Text → Bool
  pub required_headers : List Text
  pub username_header : Text
  pub default_role : PrincipalRole

-- A header that is absent or empty counts as missing.
abbrev pub header_given : (Text → Option Text) → Text → Bool
header_given headers name = not (is_empty (or_else (headers name) []))

module _ (crypto : Crypto) where
  -- The account of the name after it is created, if it is.
  abbrev pub created_account :
      CreateUserInput → Drawn → AppDatabase → Reply (Option StoredUser) × AppDatabase
  created_account input drawn db =
      let (answer, db') = create_user crypto input none drawn db in
      (
        elim answer [
          | done u ↦ done (get_user_by_username input.username db')
          | refused e ↦ refused e
          | thrown ↦ thrown
        ],
        db',
      )

  unfoldable pub reconcile_external_user :
      ExternalConfig
      → Text
      → Text
      → Option Text
      → Drawn
      → AppDatabase
      → Reply StoredUser × AppDatabase
  reconcile_external_user config subject username email drawn db =
      let name = normalize_username crypto username in
      elim (get_user_by_external_subject subject db) [
        | some by_subject ↦
            let (user, db') =
              sync_external_account by_subject oidc (some subject) email drawn.now db in
            (done user, db')
        | none ↦ elim (get_user_by_username name db) [
          | some by_username ↦ elim (ensure_account_can_auto_link by_username oidc) [
            | some e ↦ (refused e, db)
            | none ↦
                let (user, db') =
                  sync_external_account by_username oidc (some subject) email drawn.now db in
                (done user, db')
          ]
          | none ↦
              let (answer, db') =
                created_account
                  (record {
                    username = name;
                    email = email;
                    password = none;
                    role =
                        if same_text config.bootstrap_admin_subject (some subject)
                        then super_admin
                        else viewer;
                    auth_source = oidc;
                    external_subject = some subject;
                  })
                  drawn db in
              (
                elim answer [
                  | done created ↦ elim created [
                    | some user ↦ done user
                    | none ↦ refused (app_error (codes "USER_CREATE_FAILED") 500)
                  ]
                  | refused e ↦ refused e
                  | thrown ↦ thrown
                ],
                db',
              )
        ]
      ]

  unfoldable pub authenticate_trusted_headers :
      ExternalConfig
      → Option Text
      → (Text → Option Text)
      → Drawn
      → AppDatabase
      → Reply (Option AuthenticatedUser) × AppDatabase
  authenticate_trusted_headers config source_ip headers drawn db =
      if not config.header_enabled
      then (done none, db)
      else if is_empty (or_else source_ip []) || not (config.trusted (or_else source_ip []))
      then (done none, db)
      else if any (λ name. not (header_given headers name)) config.required_headers
      then (refused (app_error (codes "AUTH_HEADER_INVALID") 401), db)
      else if not (header_given headers config.username_header)
      then (done none, db)
      else let name = normalize_username crypto (or_else (headers config.username_header) []) in
        elim (get_user_by_username name db) [
          | some existing ↦ elim (ensure_account_can_auto_link existing header) [
            | some e ↦ (refused e, db)
            | none ↦
                let (user, db') =
                  sync_external_account existing header none existing.email drawn.now db in
                (done (some (sanitize_user user)), db')
          ]
          | none ↦
              let (answer, db') =
                created_account
                  (record {
                    username = name;
                    email = none;
                    password = none;
                    role = config.default_role;
                    auth_source = header;
                    external_subject = none;
                  })
                  drawn db in
              (
                elim answer [
                  | done created ↦ elim created [
                    | some user ↦ done (some (sanitize_user user))
                    | none ↦ done none
                  ]
                  | refused e ↦ refused e
                  | thrown ↦ thrown
                ],
                db',
              )
        ]

-- `now` less the fifteen minutes that an OIDC login may take.
unfoldable pub run_maintenance : ℕ → AppDatabase → AppDatabase
run_maintenance now db = purge_old_auth_requests (now - 15 * 60000) (purge_expired_sessions now db)
