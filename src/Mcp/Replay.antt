-- ===== src/Mcp/Replay.antt =====
-- A proof is accepted once.
use mqttctl.Prelude.{
  ℕ, ◌≡◌, ◌≢◌, ◌∙◌, refl, sym, ap, subst, Text, ◌==◌, eq_iff, Bool, true, false, not, Option, none,
  some, List, [], ◌∷◌, Bool-cases, inl, inr, ◌⊎◌, length, leb, is_some, arith, if◌then◌else◌,
  same_of_some,
}
use mqttctl.Prelude.Int.{ℤ, ltb_ℤ, leb_ℤ}
use mqttctl.Prelude.Dict
use mqttctl.Prelude.Dict.{Dict}
use mqttctl.Prelude.Json.{Json}
use mqttctl.Permissions.{AuthenticatedUser, AppError}
use mqttctl.Auth.{Reply, done, refused, thrown}
use mqttctl.Mcp.{
  Host, McpConfig, Request, McpProofClaims, McpAuthService, McpDelegatedIdentity, add_seconds,
  rejection, is_out_of_window, purge_replay_cache, remember_purged, remember_jti, required_claims,
}
use mqttctl.Mcp.Requests.{
  compact_jws, signed_claims, validate_required, validate_claims, admit, remembered, answered,
  authenticate_claims, authenticate_jws, authenticate_request,
}

get-purge :
    (jti : Text) (expires_at now : ℤ) (cache : Dict ℤ)
    → Dict.get jti cache ≡ some expires_at
    → ltb_ℤ expires_at now ≡ false
    → Dict.get jti (purge_replay_cache now cache) ≡ some expires_at
unfolding purge_replay_cache mqttctl.Prelude.Dict.get
get-purge jti e now [] h k = cc
get-purge jti e now ((j, w) ∷ cache) h k = ground (arith, get-purge jti e now cache)

ltb-later : (e now later : ℤ) → ltb_ℤ e now ≡ true → leb_ℤ now later ≡ true → ltb_ℤ e later ≡ true
ltb-later e now later h k = ground arith

module _ (max_entries : ℕ) where
  get-remember_purged :
      (j jti : Text) (e expires_at : ℤ) (cache : Dict ℤ)
      → Dict.get jti cache ≡ some e
      → Dict.get jti (remember_purged max_entries j expires_at cache).1 ≡ some e
  unfolding remember_purged
  get-remember_purged j jti e x cache h = ground (arith, Dict.get-set j jti x cache, eq_iff j jti)

  remember_purged-own :
      (jti : Text) (e : ℤ) (cache : Dict ℤ)
      → (remember_purged max_entries jti e cache).0 ≡ none
      → Dict.get jti (remember_purged max_entries jti e cache).1 ≡ some e
  unfolding remember_purged
  remember_purged-own jti e cache h = ground (arith, Dict.get-set_self jti e cache)

  remember_purged-again :
      (jti : Text) (e x : ℤ) (cache : Dict ℤ)
      → Dict.get jti cache ≡ some e
      → (remember_purged max_entries jti x cache).0 ≢ none
  unfolding remember_purged
  remember_purged-again jti e x cache h k = ground arith

module _ (host : Host) (config : McpConfig) where
  -- When the entry of a proof is over.
  abbrev over : McpProofClaims → ℤ
  over claims = add_seconds claims.exp config.clock_skew_seconds

  rejection-in_window :
      (now : ℤ) (request : Request) (digest : Text) (claims : McpProofClaims)
      → rejection host config now request digest claims ≡ none
      → ltb_ℤ (over claims) now ≡ false
  unfolding rejection is_out_of_window
  rejection-in_window now request digest claims h = ground arith

  -- The proof of these claims is in the cache, or is too old.
  abbrev IsSpent : McpProofClaims → ℤ → Dict ℤ → Type 0
  IsSpent claims now cache =
      (Dict.get claims.jti cache ≡ some (over claims)) ⊎ (ltb_ℤ (over claims) now ≡ true)

  IsSpent-later :
      (claims : McpProofClaims) (now later : ℤ) (cache : Dict ℤ)
      → IsSpent claims now cache
      → leb_ℤ now later ≡ true
      → IsSpent claims later cache
  IsSpent-later claims now later cache (inl h) k = inl h
  IsSpent-later claims now later cache (inr h) k = inr (ltb-later (over claims) now later h k)

  remember_jti-IsSpent :
      (claims : McpProofClaims) (now : ℤ) (jti : Text) (e : ℤ) (cache : Dict ℤ)
      → IsSpent claims now cache
      → IsSpent claims now (remember_jti config.replay_cache_max_entries jti e now cache).1
  unfolding remember_jti
  remember_jti-IsSpent claims now jti e cache (inr h) = inr h
  remember_jti-IsSpent claims now jti e cache (inl h) =
      elim (Bool-cases (ltb_ℤ (over claims) now)) [
        | inl k ↦ inr k
        | inr k ↦ inl (
            get-remember_purged config.replay_cache_max_entries jti claims.jti (over claims) e _
              (get-purge claims.jti (over claims) now cache h k))
      ]

  remembered-cache :
      (claims : McpProofClaims) (p : Option AppError × Dict ℤ)
      → (remembered host config claims p).1 ≡ p.1
  remembered-cache claims (none, cache) = refl
  remembered-cache claims (some e, cache) = refl

  admit-IsSpent :
      (claims other : McpProofClaims) (now : ℤ) (cache : Dict ℤ) (refusal : Option AppError)
      → IsSpent claims now cache
      → IsSpent claims now (admit host config now other cache refusal).1
  admit-IsSpent claims other now cache (some e) h = h
  admit-IsSpent claims other now cache none h =
      subst (IsSpent claims now) (sym (remembered-cache other _))
        (remember_jti-IsSpent claims now other.jti (over other) cache h)

  answered-cache :
      (service : McpAuthService) (p : Reply McpProofClaims × Dict ℤ)
      → (answered host config service p).1.replay_cache ≡ p.1
  answered-cache service (done claims, cache) = refl
  answered-cache service (refused e, cache) = refl
  answered-cache service (thrown, cache) = refl

  validate_required-IsSpent :
      (claims : McpProofClaims) (now : ℤ) (request : Request) (digest : Text)
      (other : Option McpProofClaims) (cache : Dict ℤ)
      → IsSpent claims now cache
      → IsSpent claims now (validate_required host config now request digest other cache).1
  validate_required-IsSpent claims now request digest none cache h = h
  validate_required-IsSpent claims now request digest (some other) cache h =
      admit-IsSpent claims other now cache (rejection host config now request digest other) h

  authenticate_claims-IsSpent :
      (claims : McpProofClaims) (now : ℤ) (request : Request) (service : McpAuthService)
      (signed : Option Json) (body : Option Text)
      → IsSpent claims now service.replay_cache
      → IsSpent claims now
          (authenticate_claims host config now request service signed body).1.replay_cache
  unfolding validate_claims
  authenticate_claims-IsSpent claims now request service none body h = h
  authenticate_claims-IsSpent claims now request service (some json) none h = h
  authenticate_claims-IsSpent claims now request service (some json) (some body) h =
      subst (IsSpent claims now) (sym (answered-cache service _)) (
        validate_required-IsSpent claims now request (host.body_digest body) (required_claims json)
          service.replay_cache h)

  authenticate_jws-IsSpent :
      (claims : McpProofClaims) (now : ℤ) (request : Request) (service : McpAuthService)
      (jws key : Option Text)
      → IsSpent claims now service.replay_cache
      → IsSpent claims now (authenticate_jws host config now request service jws key).1.replay_cache
  authenticate_jws-IsSpent claims now request service none key h = h
  authenticate_jws-IsSpent claims now request service (some jws) none h = h
  authenticate_jws-IsSpent claims now request service (some jws) (some key) h =
      authenticate_claims-IsSpent claims now request service (signed_claims host config key jws)
        request.body h

  authenticate_request-IsSpent :
      (claims : McpProofClaims) (now : ℤ) (request : Request) (service : McpAuthService)
      → IsSpent claims now service.replay_cache
      → IsSpent claims now (authenticate_request host config now request service).1.replay_cache
  unfolding authenticate_request
  authenticate_request-IsSpent claims now request service h = elim (Bool-cases config.enabled) [
    | inl e ↦
        rw (e, authenticate_request)
          (authenticate_jws-IsSpent claims now request service (compact_jws request.authorization)
            service.public_key h)
    | inr e ↦ rw (e, authenticate_request) h
  ]

  -- The claims that a proof shows.
  abbrev required_of : Option Json → Option McpProofClaims
  required_of none = none
  required_of (some json) = required_claims json

  abbrev shown_claims : Option Text → Option Text → Option McpProofClaims
  shown_claims (some jws) (some key) = required_of (signed_claims host config key jws)
  shown_claims _ _ = none

  -- An accepted proof shows claims whose entry is then in the cache.
  abbrev Accepts : Option McpProofClaims → Dict ℤ → Type 0
  Accepts shown cache =
      (claims : McpProofClaims) × (shown ≡ some claims)
      × (Dict.get claims.jti cache ≡ some (over claims))

  remembered-accepts :
      (claims c : McpProofClaims) (p : Option AppError × Dict ℤ)
      → (remembered host config claims p).0 ≡ done c
      → p.0 ≡ none
  remembered-accepts claims c (none, cache) h = refl
  remembered-accepts claims c (some e, cache) h = cc

  admit-accepts :
      (claims c : McpProofClaims) (now : ℤ) (cache : Dict ℤ) (refusal : Option AppError)
      → (admit host config now claims cache refusal).0 ≡ done c
      → Dict.get claims.jti (admit host config now claims cache refusal).1 ≡ some (over claims)
  unfolding remember_jti
  admit-accepts claims c now cache (some e) h = cc
  admit-accepts claims c now cache none h =
      subst (λ m. Dict.get claims.jti m ≡ some (over claims)) (sym (remembered-cache claims _))
        (remember_purged-own config.replay_cache_max_entries claims.jti (over claims) _
          (remembered-accepts claims c _ h))

  validate_required-Accepts :
      (now : ℤ) (request : Request) (digest : Text) (shown : Option McpProofClaims) (cache : Dict ℤ)
      (c : McpProofClaims)
      → (validate_required host config now request digest shown cache).0 ≡ done c
      → Accepts shown (validate_required host config now request digest shown cache).1
  validate_required-Accepts now request digest none cache c h = cc
  validate_required-Accepts now request digest (some claims) cache c h = (
    claims,
    refl,
    admit-accepts claims c now cache (rejection host config now request digest claims) h,
  )

  answered-accepts :
      (service : McpAuthService) (p : Reply McpProofClaims × Dict ℤ)
      (x : AuthenticatedUser × McpDelegatedIdentity)
      → (answered host config service p).0 ≡ done (some x)
      → (c : McpProofClaims) × (p.0 ≡ done c)
  answered-accepts service (done c, cache) x h = (c, refl)
  answered-accepts service (refused e, cache) x h = cc
  answered-accepts service (thrown, cache) x h = cc

  authenticate_claims-Accepts :
      (now : ℤ) (request : Request) (service : McpAuthService) (signed : Option Json)
      (body : Option Text) (x : AuthenticatedUser × McpDelegatedIdentity)
      → (authenticate_claims host config now request service signed body).0 ≡ done (some x)
      → Accepts
          (required_of signed)
          (authenticate_claims host config now request service signed body).1.replay_cache
  unfolding validate_claims
  authenticate_claims-Accepts now request service none body x h = cc
  authenticate_claims-Accepts now request service (some json) none x h = cc
  authenticate_claims-Accepts now request service (some json) (some body) x h =
      let (c, e) = answered-accepts service _ x h in
      subst (Accepts (required_claims json)) (sym (answered-cache service _)) (
        validate_required-Accepts now request (host.body_digest body) (required_claims json)
          service.replay_cache c e)

  authenticate_jws-Accepts :
      (now : ℤ) (request : Request) (service : McpAuthService) (jws key : Option Text)
      (x : AuthenticatedUser × McpDelegatedIdentity)
      → (authenticate_jws host config now request service jws key).0 ≡ done (some x)
      → Accepts
          (shown_claims jws key)
          (authenticate_jws host config now request service jws key).1.replay_cache
  authenticate_jws-Accepts now request service none key x h = cc
  authenticate_jws-Accepts now request service (some jws) none x h = cc
  authenticate_jws-Accepts now request service (some jws) (some key) x h =
      authenticate_claims-Accepts now request service (signed_claims host config key jws)
        request.body x h

  authenticate_request-Accepts :
      (now : ℤ) (request : Request) (service : McpAuthService)
      (x : AuthenticatedUser × McpDelegatedIdentity)
      → (authenticate_request host config now request service).0 ≡ done (some x)
      → Accepts
          (shown_claims (compact_jws request.authorization) service.public_key)
          (authenticate_request host config now request service).1.replay_cache
  unfolding authenticate_request
  authenticate_request-Accepts now request service x h = elim (Bool-cases config.enabled) [
    | inl e ↦
        rw (e, authenticate_request)
          (authenticate_jws-Accepts now request service (compact_jws request.authorization)
            service.public_key x (rw (e, authenticate_request) at h))
    | inr e ↦ cc (rw (e, authenticate_request) at h)
  ]

  -- What a spent proof is answered.
  admit-refuses :
      (claims c : McpProofClaims) (now : ℤ) (cache : Dict ℤ) (refusal : Option AppError)
      → IsSpent claims now cache
      → (refusal ≡ none → ltb_ℤ (over claims) now ≡ false)
      → (admit host config now claims cache refusal).0 ≢ done c
  unfolding remember_jti
  admit-refuses claims c now cache (some e) s fresh h = cc
  admit-refuses claims c now cache none (inr old) fresh h = cc (fresh refl)
  admit-refuses claims c now cache none (inl there) fresh h =
      remember_purged-again config.replay_cache_max_entries claims.jti (over claims) (over claims) _
        (get-purge claims.jti (over claims) now cache there (fresh refl))
        (remembered-accepts claims c _ h)

  authenticate_claims-refuses :
      (claims : McpProofClaims) (now : ℤ) (request : Request) (service : McpAuthService)
      (signed : Option Json) (body : Option Text) (x : AuthenticatedUser × McpDelegatedIdentity)
      → required_of signed ≡ some claims
      → IsSpent claims now service.replay_cache
      → (authenticate_claims host config now request service signed body).0 ≢ done (some x)
  unfolding validate_claims
  authenticate_claims-refuses claims now request service none body x shown s h = cc
  authenticate_claims-refuses claims now request service (some json) none x shown s h = cc
  authenticate_claims-refuses claims now request service (some json) (some body) x shown s h =
      let (c, e) = answered-accepts service _ x h in
      admit-refuses claims c now service.replay_cache
        (rejection host config now request (host.body_digest body) claims) s
        (rejection-in_window now request (host.body_digest body) claims) (rw shown at e)

  authenticate_jws-refuses :
      (claims : McpProofClaims) (now : ℤ) (request : Request) (service : McpAuthService)
      (jws key : Option Text) (x : AuthenticatedUser × McpDelegatedIdentity)
      → shown_claims jws key ≡ some claims
      → IsSpent claims now service.replay_cache
      → (authenticate_jws host config now request service jws key).0 ≢ done (some x)
  authenticate_jws-refuses claims now request service none key x shown s h = cc
  authenticate_jws-refuses claims now request service (some jws) none x shown s h = cc
  authenticate_jws-refuses claims now request service (some jws) (some key) x shown s h =
      authenticate_claims-refuses claims now request service (signed_claims host config key jws)
        request.body x shown s h

  authenticate_request-refuses :
      (claims : McpProofClaims) (now : ℤ) (request : Request) (service : McpAuthService)
      (x : AuthenticatedUser × McpDelegatedIdentity)
      → shown_claims (compact_jws request.authorization) service.public_key ≡ some claims
      → IsSpent claims now service.replay_cache
      → (authenticate_request host config now request service).0 ≢ done (some x)
  unfolding authenticate_request
  authenticate_request-refuses claims now request service x shown s h =
      elim (Bool-cases config.enabled) [
        | inl e ↦
            authenticate_jws-refuses claims now request service (compact_jws request.authorization)
              service.public_key x shown s (rw (e, authenticate_request) at h)
        | inr e ↦ cc (rw (e, authenticate_request) at h)
      ]

  authenticate_request-public_key :
      (now : ℤ) (request : Request) (service : McpAuthService)
      → (authenticate_request host config now request service).1.public_key ≡ service.public_key
  unfolding authenticate_request
  authenticate_request-public_key now request service = elim (Bool-cases config.enabled) [
    | inl e ↦
        rw (e, authenticate_request)
          (jws_key (compact_jws request.authorization) service.public_key)
    | inr e ↦ rw (e, authenticate_request) refl
  ]
    where
      answered_key :
          (p : Reply McpProofClaims × Dict ℤ)
          → (answered host config service p).1.public_key ≡ service.public_key
      answered_key (done claims, cache) = refl
      answered_key (refused e, cache) = refl
      answered_key (thrown, cache) = refl

      claims_key :
          (signed : Option Json) (body : Option Text)
          → (authenticate_claims host config now request service signed body).1.public_key
            ≡ service.public_key
      claims_key none body = refl
      claims_key (some json) none = refl
      claims_key (some json) (some body) = answered_key _

      jws_key :
          (jws key : Option Text)
          → (authenticate_jws host config now request service jws key).1.public_key
            ≡ service.public_key
      jws_key none key = refl
      jws_key (some jws) none = refl
      jws_key (some jws) (some key) = claims_key (signed_claims host config key jws) request.body

  -- The service after requests at their times.
  unfoldable pub after_requests : List (ℤ × Request) → McpAuthService → McpAuthService
  unfolding authenticate_request
  after_requests [] service = service
  after_requests ((now, request) ∷ requests) service =
      after_requests requests (authenticate_request host config now request service).1

-- No request comes before the one that stands before it; `last` is the time after them.
abbrev pub IsAscending : ℤ → List (ℤ × Request) → ℤ → Type 0
IsAscending now [] last = leb_ℤ now last ≡ true
IsAscending now ((later, request) ∷ requests) last =
    (leb_ℤ now later ≡ true) × IsAscending later requests last

module _ (host : Host) (config : McpConfig) where
  after_requests-IsSpent :
      (claims : McpProofClaims) (now last : ℤ) (requests : List (ℤ × Request))
      (service : McpAuthService)
      → IsSpent host config claims now service.replay_cache
      → IsAscending now requests last
      → IsSpent host config claims last (after_requests host config requests service).replay_cache
  unfolding after_requests
  after_requests-IsSpent claims now last [] service s up =
      IsSpent-later host config claims now last service.replay_cache s up
  after_requests-IsSpent claims now last ((later, request) ∷ requests) service s up =
      after_requests-IsSpent claims later last requests _
        (authenticate_request-IsSpent host config claims later request service
          (IsSpent-later host config claims now later service.replay_cache s up.0))
        up.1

  after_requests-public_key :
      (requests : List (ℤ × Request)) (service : McpAuthService)
      → (after_requests host config requests service).public_key ≡ service.public_key
  unfolding after_requests
  after_requests-public_key [] service = refl
  after_requests-public_key ((now, request) ∷ requests) service =
      after_requests-public_key requests _
      ∙ authenticate_request-public_key host config now request service

-- Once a request with some proof has been accepted, no later request with that proof is, whatever its
-- other parts are and whatever requests come in between, as long as the clock does not run backwards:
-- the cache forgets a proof only when it is too old to be accepted.
pub authenticate_request-once :
    (host : Host) (config : McpConfig) (first last : ℤ) (request again : Request)
    (between : List (ℤ × Request)) (service : McpAuthService)
    (x y : AuthenticatedUser × McpDelegatedIdentity)
    → again.authorization ≡ request.authorization
    → (authenticate_request host config first request service).0 ≡ done (some x)
    → IsAscending first between last
    → (authenticate_request host config last again (
        after_requests host config between
          (authenticate_request host config first request service).1)).0
      ≢ done (some y)
authenticate_request-once host config first last request again between service x y same accepted
      up =
    let (claims, shown, kept) =
      authenticate_request-Accepts host config first request service x accepted in
    let once = (authenticate_request host config first request service).1 in
    authenticate_request-refuses host config claims last again
      (after_requests host config between once) y
      (ap
          (λ a.
            shown_claims host config (compact_jws a)
              (after_requests host config between once).public_key)
          same
        ∙ ap (shown_claims host config (compact_jws request.authorization)) (
            after_requests-public_key host config between once
            ∙ authenticate_request-public_key host config first request service)
        ∙ shown)
      (after_requests-IsSpent host config claims first last between once (inl kept) up)
