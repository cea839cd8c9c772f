-- ===== src/Auth/LocalLogin.antt =====
-- The outcomes of `loginLocal`.
use mqttctl.Prelude.{
  ℕ, ◌≡◌, ◌≢◌, refl, Text, is_empty, ◌++◌, true, false, not, ◌||◌, some, [], ◌∷◌, or_else, inl, inr,
  ◌⊎◌, Bool-cases, arith, Option-cases, any, is_some, ◌==◌,
}
use mqttctl.Permissions.{AppError, local, is_mcp_role}
use mqttctl.Auth.{
  StoredUser, SessionRecord, LoginAudit, AppDatabase, Reply, done, refused, is_mcp_source,
  create_session, get_user_by_id, get_user_by_username,
}
use mqttctl.Auth.Accounts.{Crypto, Drawn, app_error, normalize_username}
use mqttctl.Auth.Login.{
  LoginConfig, Request, LoginResult, sanitize_user, login_local, create_session_for_user,
  record_login_audit, fail_login, failed_login,
}

-- The login has opened a session: on what grounds, and what has been written.
pub record Opens (crypto : Crypto) (config : LoginConfig) (username password : Text)
    (db db' : AppDatabase) (r : LoginResult) : Type 0 where
  pub user : StoredUser
  pub session : SessionRecord
  pub audit : LoginAudit
  pub switched_on : config.local_enabled ≡ true
  pub named : get_user_by_username (normalize_username crypto username) db ≡ some user
  pub enabled : user.disabled ≡ false
  pub hashed : is_empty (or_else user.password_hash []) ≡ false
  pub verified : crypto.verify (or_else user.password_hash []) password ≡ true
  pub human : (is_mcp_source user.auth_source || is_mcp_role user.role) ≡ false
  pub shown : r.user ≡ sanitize_user user
  pub sessions : db'.sessions ≡ db.sessions ++ session ∷ []
  pub owned : session.user_id ≡ user.id
  pub audits : db'.login_audits ≡ db.login_audits ++ audit ∷ []
  pub succeeded : audit.success ≡ true

-- The password was refused: the audit of the attempt carries the key of the error that is answered and
-- a reason.
pub record IsAudited (answer : Reply LoginResult) (db db' : AppDatabase) : Type 0 where
  pub error : AppError
  pub audit : LoginAudit
  pub reason : Text
  pub answered : answer ≡ refused error
  pub audits : db'.login_audits ≡ db.login_audits ++ audit ∷ []
  pub failed : audit.success ≡ false
  pub by_password : audit.auth_method ≡ local
  pub keyed : audit.error_key ≡ some error.error_key
  pub reasoned : audit.failure_reason ≡ some reason

-- The password was right and yet no session could be opened; nothing is audited.
pub record IsBarred (crypto : Crypto) (config : LoginConfig) (username password : Text)
    (db db' : AppDatabase) : Type 0 where
  pub user : StoredUser
  pub switched_on : config.local_enabled ≡ true
  pub named : get_user_by_username (normalize_username crypto username) db ≡ some user
  pub enabled : user.disabled ≡ false
  pub verified : crypto.verify (or_else user.password_hash []) password ≡ true
  pub unchanged : db' ≡ db

pub record Rejects (crypto : Crypto) (config : LoginConfig) (username password : Text)
    (answer : Reply LoginResult) (db db' : AppDatabase) : Type 0 where
  pub unopened : (r : LoginResult) → answer ≢ done r
  pub sessions : db'.sessions ≡ db.sessions
  pub audited : IsAudited answer db db' ⊎ IsBarred crypto config username password db db'

-- A local login either opens a session or is rejected.
pub LoginOutcome :
    Crypto → LoginConfig → Text → Text → AppDatabase → Reply LoginResult × AppDatabase → Type 0
LoginOutcome crypto config username password db (answer, db') =
    ((r : LoginResult) × (answer ≡ done r) × Opens crypto config username password db db' r)
    ⊎ Rejects crypto config username password answer db db'

rejected :
    (crypto : Crypto) (config : LoginConfig) (username password : Text) (request : Request)
    (reason key : Text) (status : ℕ) (db : AppDatabase)
    → LoginOutcome crypto config username password db
        (fail_login crypto (normalize_username crypto username) request reason key status db)
unfolding record_login_audit LoginOutcome
rejected crypto config username password request reason key status db = inr (record {
  unopened = λ r h. cc;
  sessions = refl;
  audited = inl (record {
    error = app_error key status;
    audit = failed_login crypto (normalize_username crypto username) request reason key;
    reason = reason;
    answered = refl;
    audits = refl;
    failed = refl;
    by_password = refl;
    keyed = refl;
    reasoned = refl;
  });
})

module _ (crypto : Crypto) (config : LoginConfig) (username password : Text) (request : Request)
    (drawn : Drawn) (db : AppDatabase) where
  session_outcome :
      (user : StoredUser)
      → config.local_enabled ≡ true
      → get_user_by_username (normalize_username crypto username) db ≡ some user
      → user.disabled ≡ false
      → is_empty (or_else user.password_hash []) ≡ false
      → crypto.verify (or_else user.password_hash []) password ≡ true
      → LoginOutcome crypto config username password db
          (create_session_for_user crypto config user local request drawn db)
  unfolding LoginOutcome create_session_for_user create_session record_login_audit
  session_outcome user on n b e v =
      elim (Bool-cases (is_mcp_source user.auth_source || is_mcp_role user.role)) [
        | inl m ↦ inr (
            rw (m, create_session_for_user)
              (record {
                unopened = λ r h. cc;
                sessions = refl;
                audited = inr (record {
                  user = user;
                  switched_on = on;
                  named = n;
                  enabled = b;
                  verified = v;
                  unchanged = refl;
                });
              }))
        | inr m ↦
            elim (Bool-cases (
              any (λ s. s.id == drawn.token) db.sessions
              || not (is_some (get_user_by_id user.id db)))) [
                | inl t ↦ inr (
                    rw (m, create_session_for_user, t)
                      (record {
                        unopened = λ r h. cc;
                        sessions = refl;
                        audited = inr (record {
                          user = user;
                          switched_on = on;
                          named = n;
                          enabled = b;
                          verified = v;
                          unchanged = refl;
                        });
                      }))
                | inr t ↦ inl (
                    rw (m, create_session_for_user, t)
                      (
                        _,
                        refl,
                        record {
                          user = user;
                          session = _;
                          audit = _;
                          switched_on = on;
                          named = n;
                          enabled = b;
                          hashed = e;
                          verified = v;
                          human = m;
                          shown = refl;
                          sessions = refl;
                          owned = refl;
                          audits = refl;
                          succeeded = refl;
                        },
                      ))
              ]
      ]

  -- A local login either opens one session of the named account, which is enabled, is not the MCP
  -- user's and has a hash that accepts the password, and writes one audit of success; or it opens no
  -- session and writes one audit of failure with the key of the error it answers, unless the password
  -- was right for an enabled account, when it changes nothing.
  pub login_local_lem :
      LoginOutcome crypto config username password db
        (login_local crypto config username password request drawn db)
  unfolding login_local create_session_for_user
  login_local_lem = elim (Bool-cases (not config.local_enabled)) [
    | inl off ↦ rw (off, login_local) (rejected crypto config username password request _ _ _ db)
    | inr on ↦ elim (Option-cases (get_user_by_username (normalize_username crypto username) db)) [
      | inl n ↦ rw (on, login_local, n) (rejected crypto config username password request _ _ _ db)
      | inr (user, n) ↦ elim (Bool-cases user.disabled) [
        | inl b ↦
            rw (on, login_local, n, b) (rejected crypto config username password request _ _ _ db)
        | inr b ↦ elim (Bool-cases (is_empty (or_else user.password_hash []))) [
          | inl e ↦
              rw (on, login_local, n, b, e)
                (rejected crypto config username password request _ _ _ db)
          | inr e ↦ elim (Bool-cases (crypto.verify (or_else user.password_hash []) password)) [
            | inr v ↦
                rw (on, login_local, n, b, e, v)
                  (rejected crypto config username password request _ _ _ db)
            | inl v ↦
                rw (on, login_local, n, b, e, v) (session_outcome user (ground (arith, on)) n b e v)
          ]
        ]
      ]
    ]
  ]
