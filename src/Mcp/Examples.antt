-- ===== src/Mcp/Examples.antt =====
-- A proof that is sent three times.
use mqttctl.Prelude.{
  ◌↔◌, ℕ, ◌≡◌, ◌≢◌, refl, Text, codes, ◌==◌, Bool, true, false, Option, none, some, List, [], ◌∷◌,
  map, if◌then◌else◌,
}
use mqttctl.Prelude.Int.{pos}
use mqttctl.Prelude.Json.{Json, Entries, number, string, object, end, entry}
use mqttctl.Permissions.{
  has_capability, view_audit, manage_mcp, capability_name, default_mcp_capabilities, mcp,
  mcp_access, AuthenticatedUser,
}
use mqttctl.Auth.{StoredUser, AppDatabase, Reply, done}
use mqttctl.Mcp.{Host, McpConfig, Request, McpAuthService, McpDelegatedIdentity, mcp_system_user_id}
use mqttctl.Mcp.Requests.{authenticate_request}
use mqttctl.Mcp.Grants.{IsAllowed, has_capability-authenticate_request}
use mqttctl.Mcp.Replay.{authenticate_request-once, after_requests}

abbrev text_entry : Text → Text → Entries → Entries
text_entry key value rest = entry key (string value) rest

abbrev header : Json
header = object (
    text_entry (codes "alg") (codes "EdDSA") (
      text_entry (codes "typ") (codes "mqttctl-mcp+jwt")
        (text_entry (codes "kid") (codes "k") end)))

abbrev claims : Json
claims = object (
    text_entry (codes "iss") (codes "mqttctl-mcp") (
      text_entry (codes "aud") (codes "api") (
        text_entry (codes "sub") (codes "bot") (
          text_entry (codes "access") (codes "read") (
            text_entry (codes "jti") (codes "j") (
              text_entry (codes "htm") (codes "GET") (
                text_entry (codes "htu") (codes "/api/state?full") (
                  text_entry (codes "body_sha256") [] (
                    entry (codes "iat") (number (pos 100))
                      (entry (codes "exp") (number (pos 130)) end))))))))))

-- The part `h` is the header, all others are the claims; every signature is good.
abbrev host : Host
host = record {
  parse_json_part = λ part. some (if part == codes "h" then header else claims);
  verify_signature = λ key message signature. true;
  body_digest = λ body. body;
  to_upper_case = λ text. text;
}

abbrev config : McpConfig
config = record {
  enabled = true;
  key_id = codes "k";
  audience = codes "api";
  clock_skew_seconds = 5;
  max_proof_age_seconds = 60;
  replay_cache_max_entries = 2;
}

abbrev request : Request
request = record {
  authorization = some (codes "mqttctl-Mcp  h.c.s");
  method = codes "GET";
  path = codes "/api/state";
  search = codes "?full";
  body = some [];
}

abbrev system_user : StoredUser
system_user = record {
  id = mcp_system_user_id;
  username = codes "mcp";
  email = none;
  role = mcp;
  auth_source = mcp_access;
  external_subject = none;
  password_hash = none;
  protected_from_auto_link = true;
  disabled = false;
  session_version = 0;
  created_at = 0;
  updated_at = 0;
}

abbrev service : McpAuthService
service = record {
  public_key = some (codes "key");
  replay_cache = [];
  db = record { users = system_user ∷ []; sessions = []; auth_requests = []; login_audits = [] };
  stored_capabilities = none;
}

abbrev user : AuthenticatedUser × McpDelegatedIdentity
user = (
  record {
    id = mcp_system_user_id;
    username = codes "mcp";
    email = none;
    role = mcp;
    auth_source = mcp_access;
    capabilities = some (map capability_name default_mcp_capabilities);
  },
  record { client_name = codes "bot"; access = codes "read" },
)

accepted : (authenticate_request host config (pos 110) request service).0 ≡ done (some user)
unfolding authenticate_request ◌==◌ mqttctl.Prelude.find mqttctl.Prelude.any
    mqttctl.Prelude.is_space mqttctl.Prelude.trim_start mqttctl.Prelude.is_empty
    mqttctl.Prelude.filter mqttctl.Prelude.Dict.get mqttctl.Prelude.Dict.set
    mqttctl.Auth.get_user_by_id
accepted = refl

authenticate_request-once_example :
    (authenticate_request host config (pos 136) request (
      after_requests host config
        ((pos 111, request) ∷ [])
        (authenticate_request host config (pos 110) request service).1)).0
    ≢ done (some user)
authenticate_request-once_example =
    authenticate_request-once host config (pos 110) (pos 136) request request
      ((pos 111, request) ∷ []) service user user refl accepted (refl, refl)

has_capability-authenticate_request_example : (has_capability (some user.0) view_audit ≡ true) ↔ (
    (view_audit ≢ manage_mcp) × IsAllowed service.stored_capabilities (capability_name view_audit))
has_capability-authenticate_request_example =
    has_capability-authenticate_request host config (pos 110) request service user view_audit
      accepted
