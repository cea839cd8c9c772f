-- ===== src/Mcp/Requests.antt =====
-- `authenticateRequest` of `mqttctl/mqttctl-api/src/lib/server/auth/mcp.ts`, and what it calls.
use mqttctl.Prelude.{
  ℕ, ◌+◌, Text, codes, ◌==◌, ◌++◌, is_empty, is_space, trim_start, Bool, false, not, ◌&&◌, ◌||◌,
  Option, none, some, List, [], ◌∷◌, map, any, filter, leb, eqb, if◌then◌else◌,
}
use mqttctl.Prelude.Int.{ℤ}
use mqttctl.Prelude.Dict.{Dict}
use mqttctl.Prelude.Json.{Json, Items, string, array, nil, item}
use mqttctl.Permissions.{
  capability_name, manage_mcp, default_mcp_capabilities, role_capabilities, super_admin, mcp,
  mcp_access, AuthenticatedUser, AppError, is_mcp_role,
}
use mqttctl.Auth.{StoredUser, Reply, done, refused, thrown, is_mcp_source, get_user_by_id}
use mqttctl.Auth.Login.{split_dots}
use mqttctl.Dynsec.Parse.{field, truthy}
use mqttctl.Mcp.{
  mcp_system_user_id, Host, McpConfig, Request, McpProofClaims, McpAuthService,
  McpDelegatedIdentity, proof_error, proof_invalid, add_seconds, required_claims, rejection,
  remember_jti,
}

-- `capabilities`, all of them by name.
abbrev pub capability_names : List Text
capability_names = map capability_name (role_capabilities super_admin)

-- The strings of an array.
abbrev pub strings_of : Items → List Text
strings_of nil = []
strings_of (item (string s) items) = s ∷ strings_of items
strings_of (item _ items) = strings_of items

-- The first of each, as `new Set` keeps them.
unfoldable pub distinct : List Text → List Text
distinct [] = []
distinct (name ∷ names) = name ∷ filter (λ n. not (n == name)) (distinct names)

unfoldable pub normalize_capabilities : Option Json → List Text
unfolding distinct
normalize_capabilities (some (array items)) = distinct (
    filter (λ n. not (n == capability_name manage_mcp))
      (filter (λ n. any (λ c. c == n) capability_names) (strings_of items)))
normalize_capabilities _ = map capability_name default_mcp_capabilities

-- What stands after the scheme, whose letters match in any case, and after white space; it is not empty
-- and holds no white space.
abbrev lower_unit : ℕ → ℕ
lower_unit c = if leb 65 c && leb c 90 then c + 32 else c

unfoldable after_scheme : Text → Text → Option Text
after_scheme [] header = some header
after_scheme (c ∷ scheme) [] = none
after_scheme (c ∷ scheme) (d ∷ header) =
    let rest = after_scheme scheme header in if eqb c (lower_unit d) then rest else none

abbrev proof_after_space : Option Text → Option Text
proof_after_space none = none
proof_after_space (some []) = none
proof_after_space (some (c ∷ rest)) =
    let proof = trim_start rest in
    if is_space c && not (is_empty proof) && not (any is_space proof) then some proof else none

unfoldable pub compact_jws : Option Text → Option Text
unfolding after_scheme
compact_jws none = none
compact_jws (some header) = proof_after_space (after_scheme (codes "mqttctl-mcp") header)

abbrev is_text : Text → Option Json → Bool
is_text text (some (string s)) = s == text
is_text text _ = false

-- A part that is parsed to something truthy.
abbrev parsed_part : Option Json → Option Json
parsed_part none = none
parsed_part (some value) = if truthy value then some value else none

module _ (host : Host) (config : McpConfig) where
  abbrev is_proof_header : Json → Bool
  is_proof_header header =
      is_text (codes "EdDSA") (field (codes "alg") header)
      && is_text (codes "mqttctl-mcp+jwt") (field (codes "typ") header)
      && is_text config.key_id (field (codes "kid") header)

  abbrev checked_parts : Text → Text → Text → Text → Option Json → Option Json → Option Json
  checked_parts key protected payload signature (some header) (some claims) =
      if is_proof_header header
        && host.verify_signature key (protected ++ codes "." ++ payload) signature
      then some claims
      else none
  checked_parts key protected payload signature _ _ = none

  -- The claims of a proof that the key has signed; every error is the same.
  abbrev claims_of_parts : Text → List Text → Option Json
  claims_of_parts key (protected ∷ payload ∷ signature ∷ []) =
      checked_parts key protected payload signature (parsed_part (host.parse_json_part protected))
        (parsed_part (host.parse_json_part payload))
  claims_of_parts key _ = none

  unfoldable pub signed_claims : Text → Text → Option Json
  unfolding split_dots field truthy
  signed_claims key jws = claims_of_parts key (split_dots jws)

  abbrev pub remembered : McpProofClaims → Option AppError × Dict ℤ → Reply McpProofClaims × Dict ℤ
  remembered claims (none, cache) = (done claims, cache)
  remembered claims (some e, cache) = (refused e, cache)

  abbrev pub admit : ℤ → McpProofClaims → Dict ℤ → Option AppError → Reply McpProofClaims × Dict ℤ
  admit now claims cache (some e) = (refused e, cache)
  admit now claims cache none = remembered claims (
      remember_jti config.replay_cache_max_entries claims.jti
        (add_seconds claims.exp config.clock_skew_seconds) now cache)

  abbrev pub validate_required :
      ℤ → Request → Text → Option McpProofClaims → Dict ℤ → Reply McpProofClaims × Dict ℤ
  validate_required now request digest none cache = (refused proof_invalid, cache)
  validate_required now request digest (some claims) cache =
      admit now claims cache (rejection host config now request digest claims)

  unfoldable pub validate_claims :
      ℤ → Request → Text → Json → Dict ℤ → Reply McpProofClaims × Dict ℤ
  unfolding required_claims rejection remember_jti
  validate_claims now request digest claims cache =
      validate_required now request digest (required_claims claims) cache

-- What the caller is given for a proof that was accepted.
unfoldable pub principal :
    Option StoredUser
    → Option Json
    → McpProofClaims
    → Reply (Option (AuthenticatedUser × McpDelegatedIdentity))
unfolding normalize_capabilities
principal none stored claims = refused (proof_error (codes "MCP_AUTH_SYSTEM_USER_UNAVAILABLE") 503)
principal (some user) stored claims =
    if not (is_mcp_source user.auth_source) || not (is_mcp_role user.role)
    then refused (proof_error (codes "MCP_AUTH_SYSTEM_USER_UNAVAILABLE") 503)
    else if user.disabled
    then refused (proof_error (codes "MCP_AUTH_USER_DISABLED") 403)
    else done (
        some (
          record {
            id = user.id;
            username = user.username;
            email = none;
            role = mcp;
            auth_source = mcp_access;
            capabilities = some (normalize_capabilities stored);
          },
          record { client_name = claims.sub; access = claims.access },
        ))

module _ (host : Host) (config : McpConfig) where
  abbrev pub answered :
      McpAuthService
      → Reply McpProofClaims × Dict ℤ
      → Reply (Option (AuthenticatedUser × McpDelegatedIdentity)) × McpAuthService
  answered service (done claims, cache) = (
    principal (get_user_by_id mcp_system_user_id service.db) service.stored_capabilities claims,
    record service { replay_cache = cache },
  )
  answered service (refused e, cache) = (refused e, record service { replay_cache = cache })
  answered service (thrown, cache) = (thrown, record service { replay_cache = cache })

  -- The claims that are signed, then the body, then what the claims say.
  abbrev pub authenticate_claims :
      ℤ
      → Request
      → McpAuthService
      → Option Json
      → Option Text
      → Reply (Option (AuthenticatedUser × McpDelegatedIdentity)) × McpAuthService
  authenticate_claims now request service none body = (refused proof_invalid, service)
  authenticate_claims now request service (some claims) none = (refused proof_invalid, service)
  authenticate_claims now request service (some claims) (some body) =
      answered service (
        validate_claims host config now request (host.body_digest body) claims service.replay_cache)

  abbrev pub authenticate_jws :
      ℤ
      → Request
      → McpAuthService
      → Option Text
      → Option Text
      → Reply (Option (AuthenticatedUser × McpDelegatedIdentity)) × McpAuthService
  authenticate_jws now request service none key = (done none, service)
  authenticate_jws now request service (some jws) none =
      (refused (proof_error (codes "MCP_AUTH_PROOF_INVALID") 503), service)
  authenticate_jws now request service (some jws) (some key) =
      authenticate_claims now request service (signed_claims host config key jws) request.body

  -- `now` is in seconds.
  unfoldable pub authenticate_request :
      ℤ
      → Request
      → McpAuthService
      → Reply (Option (AuthenticatedUser × McpDelegatedIdentity)) × McpAuthService
  unfolding compact_jws signed_claims validate_claims principal
  authenticate_request now request service =
      if config.enabled
      then authenticate_jws now request service (compact_jws request.authorization)
          service.public_key
      else (done none, service)
