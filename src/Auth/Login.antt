-- ===== src/Auth/Login.antt =====
-- The cookie of a session, local logins, and who a cookie stands for.
use mqttctl.Prelude.{
  ℕ, ◌+◌, ◌*◌, Text, codes, ◌++◌, ◌==◌, is_empty, eqb, leb, Bool, true, false, not, ◌||◌, Option,
  none, some, List, [], ◌∷◌, length, or_else, if◌then◌else◌,
}
use mqttctl.Permissions.{AuthMethod, local, AuthenticatedUser, is_mcp_role}
use mqttctl.Auth.{
  StoredUser, LoginAudit, AppDatabase, Reply, done, refused, thrown, is_mcp_source, get_user_by_id,
  get_user_by_username, create_session, get_session, delete_session,
}
use mqttctl.Auth.Accounts.{Crypto, Drawn, app_error, normalize_username}

-- `s.split('.')`: never empty.
unfoldable pub split_dots : Text → List Text
split_dots [] = [] ∷ []
split_dots (c ∷ s) = elim (split_dots s) [
  | [] ↦ [] ∷ []
  | part ∷ parts ↦ if eqb c b'.' then [] ∷ part ∷ parts else (c ∷ part) ∷ parts
]

-- `timingSafeEqual`, which throws on buffers of two lengths.
unfoldable pub timing_safe_equal : List ℕ → List ℕ → Reply Bool
timing_safe_equal a b = if eqb (length a) (length b) then done (a == b) else thrown

unfoldable pub sanitize_user : StoredUser → AuthenticatedUser
sanitize_user user = record {
  id = user.id;
  username = user.username;
  email = user.email;
  role = user.role;
  auth_source = user.auth_source;
  capabilities = none;
}

-- The parts of the configuration and of the request that a login uses. The session's time to live
-- is in minutes.
pub record LoginConfig : Type 0 where
  pub local_enabled : Bool
  pub session_ttl_minutes : ℕ

pub record Request : Type 0 where
  pub source_ip : Option Text
  pub user_agent : Option Text

pub record LoginResult : Type 0 where
  pub user : AuthenticatedUser
  pub session_id : Text
  pub cookie_value : Text
  pub expires_at : ℕ

unfoldable pub record_login_audit : LoginAudit → AppDatabase → AppDatabase
record_login_audit entry db = record db { login_audits = db.login_audits ++ entry ∷ [] }

module _ (crypto : Crypto) where
  unfoldable pub build_session_cookie_value : Text → Text
  build_session_cookie_value session_id =
      session_id ++ codes "." ++ crypto.sign_session_id session_id

  unfoldable pub check_signature : Text → Text → Reply (Option Text)
  check_signature session_id signature =
      let expected = crypto.sign_session_id session_id in
      if eqb (length signature) (length expected)
      then (elim (timing_safe_equal (crypto.buffer signature) (crypto.buffer expected)) [
        | done valid ↦ done (if valid then some session_id else none)
        | refused e ↦ refused e
        | thrown ↦ thrown
      ])
      else done none

  unfoldable pub extract_session_id : Option Text → Reply (Option Text)
  extract_session_id none = done none
  extract_session_id (some cookie_value) =
      if is_empty cookie_value then done none else elim (split_dots cookie_value) [
        | [] ↦ done none
        | session_id ∷ rest ↦ elim rest [
          | [] ↦ done none
          | signature ∷ _ ↦
              if is_empty session_id || is_empty signature
              then done none
              else check_signature session_id signature
        ]
      ]

  unfoldable pub create_session_for_user :
      LoginConfig
      → StoredUser
      → AuthMethod
      → Request
      → Drawn
      → AppDatabase
      → Reply LoginResult × AppDatabase
  create_session_for_user config user auth_method request drawn db =
      if is_mcp_source user.auth_source || is_mcp_role user.role || is_mcp_source auth_method
      then (refused (app_error (codes "MCP_AUTH_SYSTEM_USER_PROTECTED") 403), db)
      else let expires_at = drawn.now + config.session_ttl_minutes * 60000 in
        elim (create_session
          (record {
            id = drawn.token;
            user_id = user.id;
            auth_method = auth_method;
            expires_at = expires_at;
            session_version = user.session_version;
            source_ip = request.source_ip;
            user_agent = request.user_agent;
            created_at = drawn.now;
            updated_at = drawn.now;
          })
          db) [
            | none ↦ (thrown, db)
            | some db' ↦ (
              done (record {
                user = sanitize_user user;
                session_id = drawn.token;
                cookie_value = build_session_cookie_value drawn.token;
                expires_at = expires_at;
              }),
              record_login_audit
                  (record {
                    auth_method = auth_method;
                    actor = some user.username;
                    source_ip = request.source_ip;
                    target_id = some user.username;
                    failure_reason = none;
                    error_key = none;
                    success = true;
                  })
                  db',
            )
          ]

  -- The audit entry of a local login that fails.
  abbrev pub failed_login : Text → Request → Text → Text → LoginAudit
  failed_login username request failure_reason error_key = record {
    auth_method = local;
    actor = none;
    source_ip = request.source_ip;
    target_id = if is_empty username then none else some username;
    failure_reason = some failure_reason;
    error_key = some error_key;
    success = false;
  }

  abbrev pub fail_login :
      Text → Request → Text → Text → ℕ → AppDatabase → Reply LoginResult × AppDatabase
  fail_login username request failure_reason error_key status db = (
    refused (app_error error_key status),
    record_login_audit (failed_login username request failure_reason error_key) db,
  )

  unfoldable pub login_local :
      LoginConfig → Text → Text → Request → Drawn → AppDatabase → Reply LoginResult × AppDatabase
  login_local config username password request drawn db =
      let name = normalize_username crypto username in
      let reject =
        λ (reason : Text). fail_login name request reason (codes "AUTH_PASSWORD_INVALID") 401 db in
      if not config.local_enabled
      then fail_login name request (codes "local_auth_disabled") (codes "AUTH_LOGIN_FAILED") 403 db
      else elim (get_user_by_username name db) [
        | none ↦ reject (codes "user_not_found")
        | some user ↦
            if user.disabled
            then reject (codes "user_disabled")
            else if is_empty (or_else user.password_hash [])
            then reject (codes "password_hash_missing")
            else if crypto.verify (or_else user.password_hash []) password
            then create_session_for_user config user local request drawn db
            else reject (codes "password_mismatch")
      ]

  unfoldable pub get_user_from_cookie :
      Option Text → ℕ → AppDatabase → Reply (Option AuthenticatedUser) × AppDatabase
  get_user_from_cookie cookie_value now db = elim (extract_session_id cookie_value) [
    | thrown ↦ (thrown, db)
    | refused e ↦ (refused e, db)
    | done extracted ↦ elim extracted [
      | none ↦ (done none, db)
      | some session_id ↦ elim (get_session session_id db) [
        | none ↦ (done none, db)
        | some session ↦
            if leb session.expires_at now
            then (done none, delete_session session_id db)
            else elim (get_user_by_id session.user_id db) [
              | none ↦ (done none, delete_session session_id db)
              | some user ↦
                  if user.disabled
                    || is_mcp_source user.auth_source
                    || is_mcp_role user.role
                    || not (eqb user.session_version session.session_version)
                  then (done none, delete_session session_id db)
                  else (done (some (sanitize_user user)), db)
            ]
      ]
    ]
  ]

  unfoldable pub logout : Option Text → AppDatabase → Reply Unit × AppDatabase
  logout cookie_value db = elim (extract_session_id cookie_value) [
    | thrown ↦ (thrown, db)
    | refused e ↦ (refused e, db)
    | done extracted ↦ elim extracted [
      | none ↦ (done tt, db)
      | some session_id ↦ (done tt, delete_session session_id db)
    ]
  ]
