-- ===== src/Mcp.antt =====
-- `McpAuthService` of `mqttctl/mqttctl-api/src/lib/server/auth/mcp.ts`: how a request of the MCP server
-- is authenticated by a signed proof.
pub mod Requests
pub mod Replay
pub mod Grants
mod Examples
use mqttctl.Prelude.{
  ℕ, suc, ◌+◌, ◌-◌, Text, codes, ◌==◌, ◌++◌, is_empty, Bool, true, false, not, ◌&&◌, ◌||◌, Option,
  none, some, List, [], ◌∷◌, map, any, filter, length, ltb, leb, is_some, if◌then◌else◌,
}
use mqttctl.Prelude.Int.{ℤ, pos, negsuc, ltb_ℤ, leb_ℤ}
use mqttctl.Prelude.Dict
use mqttctl.Prelude.Dict.{Dict}
use mqttctl.Prelude.Json.{
  Json, Items, Entries, null, boolean, number, string, array, object, nil, item, end, entry,
}
use mqttctl.Permissions.{
  Capability, capability_name, manage_mcp, default_mcp_capabilities, role_capabilities, super_admin,
  PrincipalRole, mcp, AuthMethod, mcp_access, AuthenticatedUser, AppError, is_mcp_role,
}
use mqttctl.Auth.{
  StoredUser, AppDatabase, Reply, done, refused, thrown, is_mcp_source, get_user_by_id,
}
use mqttctl.Dynsec.Parse.{field, truthy}

abbrev pub mcp_system_user_id : Text
mcp_system_user_id = codes "system:mcp"

abbrev pub mcp_service_subject : Text
mcp_service_subject = codes "_service"

abbrev heartbeat_key : Text
heartbeat_key = codes "POST /api/mcp/heartbeat"

abbrev safe_read_methods : List Text
safe_read_methods = codes "GET" ∷ codes "HEAD" ∷ []

abbrev transient_read_paths : List Text
transient_read_paths =
    heartbeat_key
    ∷ codes "POST /api/mqtt/connect"
    ∷ codes "POST /api/mqtt/disconnect"
    ∷ codes "POST /api/mqtt/messages"
    ∷ codes "POST /api/mqtt/subscribe"
    ∷ codes "POST /api/mqtt/unsubscribe"
    ∷ []

-- What is called: `JSON.parse` of a base64url part, the signature's check with a key on the first two
-- parts and the third, the digest of a body, and `toUpperCase`.
pub record Host : Type 0 where
  pub parse_json_part : Text → Option Json
  pub verify_signature : Text → Text → Text → Bool
  pub body_digest : Text → Text
  pub to_upper_case : Text → Text

-- `auth.mcp` of the configuration.
pub record McpConfig : Type 0 where
  pub enabled : Bool
  pub key_id : Text
  pub audience : Text
  pub clock_skew_seconds : ℕ
  pub max_proof_age_seconds : ℕ
  pub replay_cache_max_entries : ℕ

-- A request; `body` is none where it cannot be read.
pub record Request : Type 0 where
  pub authorization : Option Text
  pub method : Text
  pub path : Text
  pub search : Text
  pub body : Option Text

pub record McpProofClaims : Type 0 where
  pub iss : Text
  pub aud : Text
  pub sub : Text
  pub access : Text
  pub iat : ℤ
  pub exp : ℤ
  pub jti : Text
  pub htm : Text
  pub htu : Text
  pub body_sha256 : Text

-- The key, the replay cache, and what it reads of the database: the accounts, and the setting of the
-- allowed capabilities.
pub record McpAuthService : Type 0 where
  pub public_key : Option Text
  pub replay_cache : Dict ℤ
  pub db : AppDatabase
  pub stored_capabilities : Option Json

pub record McpDelegatedIdentity : Type 0 where
  pub client_name : Text
  pub access : Text

abbrev pub proof_error : Text → ℕ → AppError
proof_error key status = record { error_key = key; status = status }

abbrev pub proof_invalid : AppError
proof_invalid = proof_error (codes "MCP_AUTH_PROOF_INVALID") 401

-- `a + k` on signed numbers.
abbrev pub add_seconds : ℤ → ℕ → ℤ
add_seconds (pos a) k = pos (a + k)
add_seconds (negsuc n) k = if ltb n k then pos (k - suc n) else negsuc (n - k)

-- A claim that is a string, or that is a whole number.
abbrev string_claim : Option Json → Option Text
string_claim (some (string s)) = some s
string_claim _ = none

abbrev number_claim : Option Json → Option ℤ
number_claim (some (number n)) = some n
number_claim _ = none

infixl 10 ◌>>=◌
abbrev ◌>>=◌ : {A B : Type 0} → Option A → (A → Option B) → Option B
some a >>= f = f a
none >>= f = none

-- The claims, where all are there and have their types.
unfoldable pub required_claims : Json → Option McpProofClaims
unfolding field
required_claims claims = do
  iss ← string_claim (field (codes "iss") claims)
  aud ← string_claim (field (codes "aud") claims)
  sub ← string_claim (field (codes "sub") claims)
  access ← string_claim (field (codes "access") claims)
  jti ← string_claim (field (codes "jti") claims)
  htm ← string_claim (field (codes "htm") claims)
  htu ← string_claim (field (codes "htu") claims)
  body_sha256 ← string_claim (field (codes "body_sha256") claims)
  iat ← number_claim (field (codes "iat") claims)
  exp ← number_claim (field (codes "exp") claims)
  some (record {
    iss = iss;
    aud = aud;
    sub = sub;
    access = access;
    iat = iat;
    exp = exp;
    jti = jti;
    htm = htm;
    htu = htu;
    body_sha256 = body_sha256;
  })

abbrev is_alphanumeric : ℕ → Bool
is_alphanumeric c = (leb 48 c && leb c 57) || (leb 65 c && leb c 90) || (leb 97 c && leb c 122)

-- A unit of a client's name after the first: also `.`, `_` and `-`.
abbrev is_name_unit : ℕ → Bool
is_name_unit c = is_alphanumeric c || (leb c 46 && leb 45 c) || (leb c 95 && leb 95 c)

-- `clientNamePattern.test(name)`
unfoldable pub is_client_name : Text → Bool
is_client_name [] = false
is_client_name (c ∷ name) =
    is_alphanumeric c && not (any (λ u. not (is_name_unit u)) name) && leb (length name) 127

abbrev one_of : List Text → Text → Bool
one_of names name = any (λ n. n == name) names

module _ (host : Host) (config : McpConfig) where
  -- The time window of a proof at `now`, in seconds.
  unfoldable pub is_out_of_window : ℤ → McpProofClaims → Bool
  is_out_of_window now claims =
      ltb_ℤ (add_seconds now config.clock_skew_seconds) claims.iat
      || ltb_ℤ (add_seconds claims.exp config.clock_skew_seconds) now
      || leb_ℤ claims.exp claims.iat
      || ltb_ℤ (add_seconds claims.iat config.max_proof_age_seconds) claims.exp

  abbrev pub is_bound : Request → Text → McpProofClaims → Bool
  is_bound request digest claims =
      claims.htm == host.to_upper_case request.method
      && claims.htu == request.path ++ request.search
      && claims.body_sha256 == digest

  abbrev pub request_key : Request → Text
  request_key request = host.to_upper_case request.method ++ codes " " ++ request.path

  abbrev pub is_read_only : Request → Bool
  is_read_only request =
      one_of safe_read_methods (host.to_upper_case request.method)
      || one_of transient_read_paths (request_key request)

  -- The error of the first test that fails, up to the replay cache.
  unfoldable pub rejection : ℤ → Request → Text → McpProofClaims → Option AppError
  unfolding is_out_of_window is_client_name
  rejection now request digest claims =
      if not (claims.iss == codes "mqttctl-mcp") || not (claims.aud == config.audience)
      then some proof_invalid
      else if not (claims.access == codes "read") && not (claims.access == codes "readwrite")
      then some proof_invalid
      else if not (claims.sub == mcp_service_subject) && not (is_client_name claims.sub)
      then some proof_invalid
      else if is_out_of_window now claims
      then some proof_invalid
      else if not (is_bound request digest claims)
      then some proof_invalid
      else if claims.access == codes "read" && not (is_read_only request)
      then some (proof_error (codes "MCP_AUTH_READ_ONLY_METHOD_DENIED") 403)
      else if claims.sub == mcp_service_subject && not (request_key request == heartbeat_key)
      then some (proof_error (codes "MCP_AUTH_SERVICE_SUBJECT_DENIED") 403)
      else none

unfoldable pub purge_replay_cache : ℤ → Dict ℤ → Dict ℤ
purge_replay_cache now [] = []
purge_replay_cache now ((jti, expires_at) ∷ cache) =
    let rest = purge_replay_cache now cache in
    if ltb_ℤ expires_at now then rest else (jti, expires_at) ∷ rest

-- An entry for the id, after the entries that are over are gone, or the error; the cache is left as it
-- is by then.
module _ (max_entries : ℕ) where
  unfoldable pub remember_purged : Text → ℤ → Dict ℤ → Option AppError × Dict ℤ
  remember_purged jti expires_at cache =
      if is_some (Dict.get jti cache)
      then (some (proof_error (codes "MCP_AUTH_PROOF_REPLAYED") 401), cache)
      else if leb max_entries (length cache)
      then (some (proof_error (codes "MCP_AUTH_REPLAY_CACHE_FULL") 503), cache)
      else (none, Dict.set jti expires_at cache)

  unfoldable pub remember_jti : Text → ℤ → ℤ → Dict ℤ → Option AppError × Dict ℤ
  unfolding purge_replay_cache remember_purged
  remember_jti jti expires_at now cache =
      remember_purged jti expires_at (purge_replay_cache now cache)
