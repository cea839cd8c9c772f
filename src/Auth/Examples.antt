-- ===== src/Auth/Examples.antt =====
-- The accounts and the logins at concrete values.
use mqttctl.Prelude.{
  ◌++◌, All, filter, List, ℕ, ◌+◌, ◌≡◌, refl, Text, codes, ◌==◌, eq_refl, any, find, is_empty, trim,
  Bool, true, false, ◌&&◌, leb, none, some, [], ◌∷◌, map, inl, arith, if◌then◌else◌,
}
use mqttctl.Permissions.{operator, viewer, super_admin, mcp, local, mcp_access, AuthenticatedUser}
use mqttctl.Auth.{
  get_user_by_username, insert_user, get_user_by_external_subject, get_user_by_id, get_session,
  StoredUser, SessionRecord, AppDatabase, done,
}
use mqttctl.Auth.Accounts.{
  normalize_username, Crypto, Drawn, CreateUserInput, UpdateUserInput, create_user, update_user,
  delete_user, created_row,
}
use mqttctl.Auth.Login.{
  extract_session_id, split_dots, check_signature, timing_safe_equal, LoginConfig, Request,
  LoginResult, login_local, get_user_from_cookie, sanitize_user,
}
use mqttctl.Auth.External.{ExternalConfig, authenticate_trusted_headers, reconcile_external_user}
use mqttctl.Auth.Vouched.{Vouches, get_user_from_cookie-Vouches}
use mqttctl.Auth.Revocation.{HasNoSession, delete_user-HasNoSession, update_user-HasNoSession}
use mqttctl.Auth.Rows.{HasUniqueIds}
use mqttctl.Auth.History.{
  AccountEvent, creates, updates, deletes, logs_in_by_headers, account_run, account_run-mcp_rows,
}
use mqttctl.Auth.McpUser.{mcp_rows, IsLocked}
use mqttctl.Auth.LocalLogin.{LoginOutcome, login_local_lem}
use mqttctl.Auth.Guards.{super_admins, mcp_actor-super_admins}
use mqttctl.Auth.Linking.{
  protected_rows, authenticate_trusted_headers-protected_rows,
  reconcile_external_user-protected_rows,
}
use mqttctl.Auth.RoundTrip.{CryptoWorks}
use mqttctl.Auth.FirstLogin.{create-login-cookie}

abbrev lower_unit : ℕ → ℕ
lower_unit c = if leb 65 c && leb c 90 then c + 32 else c

-- A hash is the salt and the password.
abbrev plain_verify : Text → Text → Bool
plain_verify [] p = false
plain_verify (salt ∷ hash) p = hash == p

abbrev plain : Crypto
plain = record {
  hash = λ salt p. salt ∷ p;
  verify = plain_verify;
  sign_session_id = λ s. codes "sig";
  to_lower_case = map lower_unit;
  buffer = λ s. s;
}

plain_works : CryptoWorks plain
unfolding is_empty any
plain_works = record {
  accepts = λ salt p. eq_refl p;
  hashes = λ salt p. refl;
  signs = λ s. record { full = refl; dotless = refl };
}

abbrev admin_row : StoredUser
admin_row = record {
  id = codes "u1";
  username = codes "admin";
  email = none;
  role = super_admin;
  auth_source = local;
  external_subject = none;
  password_hash = some (codes "1pw");
  protected_from_auto_link = true;
  disabled = false;
  session_version = 0;
  created_at = 1;
  updated_at = 1;
}

abbrev bob_row : StoredUser
bob_row = record {
  id = codes "u2";
  username = codes "bob";
  email = none;
  role = operator;
  auth_source = local;
  external_subject = none;
  password_hash = some (codes "2secret");
  protected_from_auto_link = false;
  disabled = false;
  session_version = 4;
  created_at = 2;
  updated_at = 2;
}

abbrev bob_session : SessionRecord
bob_session = record {
  id = codes "s1";
  user_id = codes "u2";
  auth_method = local;
  expires_at = 900;
  session_version = 4;
  source_ip = none;
  user_agent = none;
  created_at = 3;
  updated_at = 3;
}

abbrev two_users : AppDatabase
two_users = record {
  users = admin_row ∷ bob_row ∷ [];
  sessions = bob_session ∷ [];
  auth_requests = [];
  login_audits = [];
}

unique_ids : HasUniqueIds two_users.users
unfolding any ◌==◌
unique_ids = (refl, (refl, tt))

abbrev draws : Text → Drawn
draws token = record { token = token; salt = 50; now = 10 }

abbrev carol_input : CreateUserInput
carol_input = record {
  username = codes " Carol ";
  email = none;
  password = some (codes "pw");
  role = viewer;
  auth_source = local;
  external_subject = none;
}

abbrev disable_bob : UpdateUserInput
disable_bob = record {
  user_id = codes "u2";
  email = none;
  role = operator;
  disabled = true;
  password = none;
}

abbrev logins : LoginConfig
logins = record { local_enabled = true; session_ttl_minutes = 1 }

abbrev from_nowhere : Request
from_nowhere = record { source_ip = none; user_agent = none }

abbrev mcp_actor : AuthenticatedUser
mcp_actor = record {
  id = codes "m";
  username = codes "mcp";
  email = none;
  role = mcp;
  auth_source = mcp_access;
  capabilities = none;
}

abbrev proxied : ExternalConfig
proxied = record {
  oidc_enabled = true;
  bootstrap_admin_subject = none;
  header_enabled = true;
  trusted = λ ip. true;
  required_headers = [];
  username_header = codes "x-user";
  default_role = viewer;
}

get_user_from_cookie-Vouches_example :
    Vouches plain (some (codes "s1.sig")) 100 two_users (sanitize_user bob_row)
unfolding get_user_from_cookie extract_session_id is_empty split_dots check_signature
    timing_safe_equal ◌==◌ get_session find get_user_by_id
get_user_from_cookie-Vouches_example =
    get_user_from_cookie-Vouches plain (some (codes "s1.sig")) 100 two_users (sanitize_user bob_row)
      refl

delete_user-HasNoSession_example :
    HasNoSession plain (codes "u2") (delete_user (codes "u2") none two_users).1
unfolding delete_user get_user_by_id find ◌==◌
delete_user-HasNoSession_example = delete_user-HasNoSession plain (codes "u2") none two_users refl

update_user-HasNoSession_example :
    HasNoSession plain
      (codes "u2")
      (update_user plain disable_bob none (draws (codes "t")) two_users).1
unfolding get_user_by_id find ◌==◌ update_user
update_user-HasNoSession_example =
    update_user-HasNoSession plain disable_bob none (draws (codes "t")) two_users bob_row refl refl
      (inl (λ p. cc)) refl

mcp_actor-super_admins_example :
    (super_admins (create_user plain carol_input (some mcp_actor) (draws (codes "t")) two_users).1
      ≡ super_admins two_users)
    × (super_admins (update_user plain disable_bob (some mcp_actor) (draws (codes "t")) two_users).1
        ≡ super_admins two_users)
    × (super_admins (delete_user (codes "u1") (some mcp_actor) two_users).1
        ≡ super_admins two_users)
mcp_actor-super_admins_example =
    mcp_actor-super_admins plain mcp_actor two_users carol_input disable_bob (codes "u1")
      (draws (codes "t")) refl unique_ids

authenticate_trusted_headers-protected_rows_example :
    protected_rows
      (authenticate_trusted_headers plain proxied
        (some (codes "::1"))
        (λ h. some (codes "Admin"))
        (draws (codes "t"))
        two_users).1
    ≡ protected_rows two_users
authenticate_trusted_headers-protected_rows_example =
    authenticate_trusted_headers-protected_rows plain proxied (some (codes "::1"))
      (λ h. some (codes "Admin")) (draws (codes "t")) two_users unique_ids

reconcile_external_user-protected_rows_example :
    protected_rows
      (reconcile_external_user plain proxied
        (codes "sub")
        (codes "Bob")
        none
        (draws (codes "t"))
        two_users).1
    ≡ protected_rows two_users
unfolding get_user_by_external_subject find ◌==◌
reconcile_external_user-protected_rows_example =
    reconcile_external_user-protected_rows plain proxied (codes "sub") (codes "Bob") none
      (draws (codes "t")) two_users unique_ids (λ x h. cc)

create-login-cookie_example :
    let db1 = (create_user plain carol_input none (draws (codes "u3")) two_users).1 in
    let (answer, db2) =
      login_local plain logins (codes "CAROL") (codes "pw") from_nowhere (draws (codes "s2")) db1 in
    (r : LoginResult) × (answer ≡ done r)
    × ((get_user_from_cookie plain (some r.cookie_value) 500 db2).0
        ≡ done (some (sanitize_user (created_row plain carol_input (draws (codes "u3"))))))
unfolding create_user get_user_by_username find ◌==◌ normalize_username trim is_empty insert_user
    any created_row
create-login-cookie_example =
    create-login-cookie plain plain_works carol_input none (draws (codes "u3")) two_users logins
      (codes "CAROL") (codes "pw") from_nowhere (draws (codes "s2")) 500 refl refl refl refl refl
      refl (record { full = refl; dotless = refl }) refl (omega arith)

abbrev account_events : List AccountEvent
account_events =
    creates carol_input none (draws (codes "u3"))
    ∷ updates disable_bob none (draws (codes "t"))
    ∷ deletes (codes "u1") none
    ∷ logs_in_by_headers proxied (some (codes "::1")) (λ h. some (codes "dave"))
        (draws (codes "u4"))
    ∷ []

abbrev with_mcp : AppDatabase
with_mcp = record two_users {
  users =
      two_users.users
      ++ (record bob_row {
        id = codes "system:mcp";
        username = codes "mcp";
        role = mcp;
        auth_source = mcp_access;
        protected_from_auto_link = true;
        external_subject = none;
      })
        ∷ [];
}

with_mcp-HasUniqueIds : HasUniqueIds with_mcp.users
unfolding any ◌==◌
with_mcp-HasUniqueIds = (refl, (refl, (refl, tt)))

mcp-IsLocked : All IsLocked (mcp_rows with_mcp)
unfolding filter
mcp-IsLocked = ((refl, refl), tt)

account_run-mcp_rows_example :
    mcp_rows (account_run plain account_events with_mcp) ≡ mcp_rows with_mcp
account_run-mcp_rows_example =
    account_run-mcp_rows plain account_events with_mcp with_mcp-HasUniqueIds mcp-IsLocked

login_local_lem_example : LoginOutcome plain logins (codes "Bob") (codes "secret") two_users (
    login_local plain logins
      (codes "Bob")
      (codes "secret")
      from_nowhere
      (draws (codes "s2"))
      two_users)
login_local_lem_example =
    login_local_lem plain logins (codes "Bob") (codes "secret") from_nowhere (draws (codes "s2"))
      two_users
