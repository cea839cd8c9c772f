-- ===== src/Auth.antt =====
-- The accounts and the logins: the tables of `mqttctl/mqttctl-api/src/lib/server/db/index.ts` that
-- `mqttctl/mqttctl-api/src/lib/server/auth/service.ts` works on. A time stands for its ISO text.
pub mod Accounts
pub mod Login
pub mod External
pub mod Signed
pub mod Vouched
pub mod Revocation
pub mod Rows
pub mod Created
pub mod Guards
pub mod RoundTrip
pub mod FirstLogin
pub mod LocalLogin
mod Examples
pub mod Linked
pub mod McpUser
pub mod Linking
pub mod Keys
pub mod History
use mqttctl.Prelude.{
  ℕ, ◌+◌, Text, ◌==◌, same_text, ltb, Bool, true, false, not, ◌||◌, ◌&&◌, Option, none, some, List,
  [], ◌∷◌, ◌++◌, map, filter, any, find, length, is_some, if◌then◌else◌,
}
use mqttctl.Permissions.{PrincipalRole, AuthMethod, local, oidc, header, mcp_access, AppError}

pub record StoredUser : Type 0 where
  pub id : Text
  pub username : Text
  pub email : Option Text
  pub role : PrincipalRole
  pub auth_source : AuthMethod
  pub external_subject : Option Text
  pub password_hash : Option Text
  pub protected_from_auto_link : Bool
  pub disabled : Bool
  pub session_version : ℕ
  pub created_at : ℕ
  pub updated_at : ℕ

pub record SessionRecord : Type 0 where
  pub id : Text
  pub user_id : Text
  pub auth_method : AuthMethod
  pub expires_at : ℕ
  pub session_version : ℕ
  pub source_ip : Option Text
  pub user_agent : Option Text
  pub created_at : ℕ
  pub updated_at : ℕ

pub record AuthRequestRecord : Type 0 where
  pub state : Text
  pub code_verifier : Text
  pub redirect_to : Option Text
  pub created_at : ℕ

-- What `recordLoginAudit` hands to the audit log.
pub record LoginAudit : Type 0 where
  pub auth_method : AuthMethod
  pub actor : Option Text
  pub source_ip : Option Text
  pub target_id : Option Text
  pub failure_reason : Option Text
  pub error_key : Option Text
  pub success : Bool

pub record AppDatabase : Type 0 where
  pub users : List StoredUser
  pub sessions : List SessionRecord
  pub auth_requests : List AuthRequestRecord
  pub login_audits : List LoginAudit

-- What a method gives its caller: a value, an error of the application, or an exception of what it
-- calls.
pub data Reply (A : Type 0) : Type 0 where
  done : A → Reply A
  refused : AppError → Reply A
  thrown : Reply A

abbrev pub is_local : AuthMethod → Bool
is_local local = true
is_local _ = false

abbrev pub is_mcp_source : AuthMethod → Bool
is_mcp_source mcp_access = true
is_mcp_source _ = false

abbrev pub same_method : AuthMethod → AuthMethod → Bool
same_method local local = true
same_method oidc oidc = true
same_method header header = true
same_method mcp_access mcp_access = true
same_method _ _ = false

abbrev pub is_super_admin : PrincipalRole → Bool
is_super_admin PrincipalRole.super_admin = true
is_super_admin _ = false

unfoldable pub count_users : AppDatabase → ℕ
count_users db = length (filter (λ u. not (is_mcp_source u.auth_source)) db.users)

unfoldable pub get_user_by_id : Text → AppDatabase → Option StoredUser
get_user_by_id user_id db = find (λ u. u.id == user_id) db.users

unfoldable pub get_user_by_username : Text → AppDatabase → Option StoredUser
get_user_by_username username db = find (λ u. u.username == username) db.users

unfoldable pub get_user_by_external_subject : Text → AppDatabase → Option StoredUser
get_user_by_external_subject subject db =
    find (λ u. same_text u.external_subject (some subject)) db.users

-- The INSERT of `createUser`, which the primary key and the UNIQUE username guard.
unfoldable pub insert_user : StoredUser → AppDatabase → Option AppDatabase
insert_user row db =
    if any (λ u. u.id == row.id) db.users || any (λ u. u.username == row.username) db.users
    then none
    else some (record db { users = db.users ++ row ∷ [] })

-- `UPDATE app_users … WHERE id = ?`
unfoldable pub set_where : Text → (StoredUser → StoredUser) → List StoredUser → List StoredUser
set_where user_id change [] = []
set_where user_id change (u ∷ us) =
    (if u.id == user_id then change u else u) ∷ set_where user_id change us

-- What `updateUser` of the database sets.
pub record UserPatch : Type 0 where
  pub email : Option Text
  pub role : PrincipalRole
  pub auth_source : AuthMethod
  pub external_subject : Option Text
  pub password_hash : Option Text
  pub disabled : Bool
  pub session_version : ℕ
  pub updated_at : ℕ

abbrev pub patched : UserPatch → StoredUser → StoredUser
patched p u = record u {
  email = p.email;
  role = p.role;
  auth_source = p.auth_source;
  external_subject = p.external_subject;
  password_hash = p.password_hash;
  disabled = p.disabled;
  session_version = p.session_version;
  updated_at = p.updated_at;
}

unfoldable pub update_user_row : Text → UserPatch → AppDatabase → AppDatabase
update_user_row user_id patch db = record db { users = set_where user_id (patched patch) db.users }

-- The user's sessions go with the row: `ON DELETE CASCADE`.
unfoldable pub delete_user_row : Text → AppDatabase → AppDatabase
delete_user_row user_id db = record db {
  users = filter (λ u. not (u.id == user_id)) db.users;
  sessions = filter (λ s. not (s.user_id == user_id)) db.sessions;
}

unfoldable pub set_user_protected_from_auto_link : Text → Bool → ℕ → AppDatabase → AppDatabase
set_user_protected_from_auto_link user_id protected now db = record db {
  users =
      set_where user_id (λ u. record u { protected_from_auto_link = protected; updated_at = now })
        db.users;
}

-- The INSERT of `createSession`, which the primary key and the reference to the user guard.
unfoldable pub create_session : SessionRecord → AppDatabase → Option AppDatabase
create_session row db =
    if any (λ s. s.id == row.id) db.sessions || not (is_some (get_user_by_id row.user_id db))
    then none
    else some (record db { sessions = db.sessions ++ row ∷ [] })

unfoldable pub get_session : Text → AppDatabase → Option SessionRecord
get_session session_id db = find (λ s. s.id == session_id) db.sessions

unfoldable pub delete_session : Text → AppDatabase → AppDatabase
delete_session session_id db = record db {
  sessions = filter (λ s. not (s.id == session_id)) db.sessions;
}

unfoldable pub delete_sessions_for_user : Text → AppDatabase → AppDatabase
delete_sessions_for_user user_id db = record db {
  sessions = filter (λ s. not (s.user_id == user_id)) db.sessions;
}

unfoldable pub purge_expired_sessions : ℕ → AppDatabase → AppDatabase
purge_expired_sessions now db = record db {
  sessions = filter (λ s. not (ltb s.expires_at now)) db.sessions;
}

unfoldable pub get_auth_request : Text → AppDatabase → Option AuthRequestRecord
get_auth_request state db = find (λ r. r.state == state) db.auth_requests

-- A row with the state takes the new values in its place, else it is added.
unfoldable pub upsert_auth_request : AuthRequestRecord → AppDatabase → AppDatabase
upsert_auth_request row db = record db {
  auth_requests =
      if is_some (get_auth_request row.state db)
      then map (λ r. if r.state == row.state then row else r) db.auth_requests
      else db.auth_requests ++ row ∷ [];
}

unfoldable pub delete_auth_request : Text → AppDatabase → AppDatabase
delete_auth_request state db = record db {
  auth_requests = filter (λ r. not (r.state == state)) db.auth_requests;
}

unfoldable pub purge_old_auth_requests : ℕ → AppDatabase → AppDatabase
purge_old_auth_requests older_than db = record db {
  auth_requests = filter (λ r. not (ltb r.created_at older_than)) db.auth_requests;
}
