-- ===== src/Auth/Accounts.antt =====
-- `createUser`, `updateUser`, `deleteUser` and the bootstrap of the first administrator. What runs
-- between two waits of one method is taken to be one step.
use mqttctl.Prelude.{
  ℕ, ◌+◌, Text, codes, same_text, trim, is_empty, eqb, Bool, true, false, not, ◌||◌, ◌&&◌, Option,
  none, some, List, [], ◌∷◌, filter, is_some, or_else, if◌then◌else◌,
}
use mqttctl.Permissions.{PrincipalRole, AuthMethod, local, AppError, AuthenticatedUser, is_mcp_role}
use mqttctl.Auth.{
  StoredUser, AppDatabase, Reply, done, refused, thrown, is_local, is_mcp_source, is_super_admin,
  count_users, get_user_by_id, get_user_by_username, insert_user, UserPatch, update_user_row,
  delete_user_row, set_user_protected_from_auto_link, delete_sessions_for_user,
}

-- What the methods call: argon2 with the salt it draws, the HMAC of a session's id under the
-- server's secret, `toLowerCase`, and the bytes of a `Buffer` made of a string.
pub record Crypto : Type 0 where
  pub hash : ℕ → Text → Text
  pub verify : Text → Text → Bool
  pub sign_session_id : Text → Text
  pub to_lower_case : Text → Text
  pub buffer : Text → List ℕ

-- What one call draws: an opaque token, a salt and the time.
pub record Drawn : Type 0 where
  pub token : Text
  pub salt : ℕ
  pub now : ℕ

pub record CreateUserInput : Type 0 where
  pub username : Text
  pub email : Option Text
  pub password : Option Text
  pub role : PrincipalRole
  pub auth_source : AuthMethod
  pub external_subject : Option Text

pub record UpdateUserInput : Type 0 where
  pub user_id : Text
  pub email : Option Text
  pub role : PrincipalRole
  pub disabled : Bool
  pub password : Option Text

abbrev pub app_error : Text → ℕ → AppError
app_error key status = record { error_key = key; status = status }

-- `Boolean(password)`: neither absent nor empty.
abbrev pub is_given : Option Text → Bool
is_given none = false
is_given (some p) = not (is_empty p)

-- `actor?.role === 'mcp'`
abbrev pub acts_as_mcp : Option AuthenticatedUser → Bool
acts_as_mcp none = false
acts_as_mcp (some actor) = is_mcp_role actor.role

-- `===` on Booleans
abbrev pub same_flag : Bool → Bool → Bool
same_flag true b = b
same_flag false b = not b

module _ (crypto : Crypto) where
  unfoldable pub normalize_username : Text → Text
  normalize_username username = crypto.to_lower_case (trim username)

  -- The hash of a given password, else the other value.
  abbrev pub hash_or : ℕ → Option Text → Option Text → Option Text
  hash_or salt none other = other
  hash_or salt (some p) other = if is_empty p then other else some (crypto.hash salt p)

  -- The row that `createUser` inserts.
  unfoldable pub created_row : CreateUserInput → Drawn → StoredUser
  created_row input drawn = record {
    id = drawn.token;
    username = normalize_username input.username;
    email = input.email;
    role = input.role;
    auth_source = input.auth_source;
    external_subject = input.external_subject;
    password_hash =
        if is_local input.auth_source then hash_or drawn.salt input.password none else none;
    protected_from_auto_link = false;
    disabled = false;
    session_version = 0;
    created_at = drawn.now;
    updated_at = drawn.now;
  }

  unfoldable pub create_user :
      CreateUserInput → Option AuthenticatedUser → Drawn → AppDatabase → Reply Unit × AppDatabase
  create_user input actor drawn db =
      let username = normalize_username input.username in
      if is_some (get_user_by_username username db)
      then (refused (app_error (codes "USER_CREATE_FAILED") 409), db)
      else if is_mcp_source input.auth_source
      then (refused (app_error (codes "MCP_AUTH_SYSTEM_USER_PROTECTED") 403), db)
      else if acts_as_mcp actor && is_super_admin input.role
      then (refused (app_error (codes "MCP_AUTH_SUPERADMIN_MUTATION_DENIED") 403), db)
      else if is_local input.auth_source && not (is_given input.password)
      then (refused (app_error (codes "INPUT_INVALID") 400), db)
      else if not (is_local input.auth_source) && is_given input.password
      then (refused (app_error (codes "INPUT_INVALID") 400), db)
      else elim (insert_user (created_row input drawn) db) [
        | none ↦ (thrown, db)
        | some db' ↦ (done tt, db')
      ]

  -- The values that `updateUser` writes, of what stands and what is asked.
  unfoldable pub user_patch : StoredUser → UpdateUserInput → Drawn → UserPatch
  user_patch existing input drawn =
      let hash =
        if is_local existing.auth_source
        then hash_or drawn.salt input.password existing.password_hash
        else none in
      let disabled = if is_local existing.auth_source then input.disabled else false in
      record {
        email = input.email;
        role = input.role;
        auth_source = existing.auth_source;
        external_subject = existing.external_subject;
        password_hash = hash;
        disabled = disabled;
        session_version =
            if not (same_text hash existing.password_hash)
              || not (same_flag disabled existing.disabled)
            then existing.session_version + 1
            else existing.session_version;
        updated_at = drawn.now;
      }

  unfoldable pub update_user :
      UpdateUserInput → Option AuthenticatedUser → Drawn → AppDatabase → Reply Unit × AppDatabase
  update_user input actor drawn db = elim (get_user_by_id input.user_id db) [
    | none ↦ (refused (app_error (codes "USER_UPDATE_FAILED") 404), db)
    | some existing ↦
        if is_mcp_source existing.auth_source
        then (refused (app_error (codes "MCP_AUTH_SYSTEM_USER_PROTECTED") 403), db)
        else if acts_as_mcp actor && (is_super_admin existing.role || is_super_admin input.role)
        then (refused (app_error (codes "MCP_AUTH_SUPERADMIN_MUTATION_DENIED") 403), db)
        else if not (is_local existing.auth_source) && input.disabled
        then (refused (app_error (codes "INPUT_INVALID") 400), db)
        else if not (is_local existing.auth_source) && is_given input.password
        then (refused (app_error (codes "INPUT_INVALID") 400), db)
        else let patch = user_patch existing input drawn in
          let db' = update_user_row input.user_id patch db in
          (
            done tt,
            if eqb patch.session_version existing.session_version
                then db'
                else delete_sessions_for_user input.user_id db',
          )
  ]

unfoldable pub delete_user :
    Text → Option AuthenticatedUser → AppDatabase → Reply Unit × AppDatabase
delete_user user_id actor db = elim (get_user_by_id user_id db) [
  | none ↦ (refused (app_error (codes "USER_DELETE_FAILED") 404), db)
  | some existing ↦
      if is_mcp_source existing.auth_source
      then (refused (app_error (codes "MCP_AUTH_SYSTEM_USER_PROTECTED") 403), db)
      else if acts_as_mcp actor && is_super_admin existing.role
      then (refused (app_error (codes "MCP_AUTH_SUPERADMIN_MUTATION_DENIED") 403), db)
      else (done tt, delete_user_row user_id db)
]

-- The account to protect, if there is exactly one that can be meant.
abbrev pub protection_candidates : Text → AppDatabase → List StoredUser
protection_candidates bootstrap_username db = elim (get_user_by_username bootstrap_username db) [
  | some user ↦ user ∷ []
  | none ↦ filter (λ u. is_local u.auth_source && is_super_admin u.role) db.users
]

unfoldable pub ensure_bootstrap_admin_protection : Text → ℕ → AppDatabase → AppDatabase
ensure_bootstrap_admin_protection bootstrap_username now db =
    elim (protection_candidates bootstrap_username db) [
      | [] ↦ db
      | user ∷ others ↦ elim others [
        | [] ↦
            if user.protected_from_auto_link
              || not (is_local user.auth_source)
              || not (is_super_admin user.role)
            then db
            else set_user_protected_from_auto_link user.id true now db
        | _ ∷ _ ↦ db
      ]
    ]

-- `secrets.bootstrapAdmin`, of which each part may be absent.
pub record BootstrapAdmin : Type 0 where
  pub username : Option Text
  pub email : Option Text
  pub password : Option Text

-- `generated` is the password of `createBootstrapPassword`.
unfoldable pub bootstrap_initial_admin :
    Crypto → BootstrapAdmin → Text → Drawn → AppDatabase → Reply Unit × AppDatabase
bootstrap_initial_admin crypto admin generated drawn db =
    let username = normalize_username crypto (or_else admin.username (codes "admin")) in
    if eqb (count_users db) 0
    then (elim (insert_user
        (record {
          id = drawn.token;
          username = username;
          email = admin.email;
          role = PrincipalRole.super_admin;
          auth_source = local;
          external_subject = none;
          password_hash = some (crypto.hash drawn.salt (or_else admin.password generated));
          protected_from_auto_link = true;
          disabled = false;
          session_version = 0;
          created_at = drawn.now;
          updated_at = drawn.now;
        })
        db) [
          | none ↦ (refused (app_error (codes "USER_BOOTSTRAP_FAILED") 500), db)
          | some db' ↦ (done tt, db')
        ])
    else (done tt, ensure_bootstrap_admin_protection username drawn.now db)
