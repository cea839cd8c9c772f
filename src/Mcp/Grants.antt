-- ===== src/Mcp/Grants.antt =====
-- What a request that a proof has authenticated may do.
use mqttctl.Prelude.{
  ◌≡◌, ◌≢◌, ◌↔◌, ◌⊎◌, ◌∙◌, refl, sym, ap, subst, Text, ◌==◌, eq_iff, Bool, true, not, ◌||◌, Option,
  none, some, List, [], ◌∷◌, map, any, filter, same_of_some, inl, inr, Bool-cases, arith,
}
use mqttctl.Prelude.Int.{ℤ}
use mqttctl.Prelude.Dict.{Dict}
use mqttctl.Prelude.Json.{Json, Items, null, boolean, number, string, array, object, nil, item}
use mqttctl.Permissions.{
  Capability, read, operate, manage_broker, manage_security, manage_users, view_audit,
  manage_snapshots, manage_mcp, mcp, AuthenticatedUser, capability_name, has_capability,
  includes_capability, default_mcp_capabilities, is_mcp_role,
}
use mqttctl.Permissions.Grants.{has_capability-of_mcp}
use mqttctl.Auth.{StoredUser, Reply, done, refused, thrown, is_mcp_source, get_user_by_id}
use mqttctl.Mcp.{
  Host, McpConfig, Request, McpProofClaims, McpAuthService, McpDelegatedIdentity,
  mcp_system_user_id,
}
use mqttctl.Mcp.Requests.{
  capability_names, strings_of, distinct, normalize_capabilities, principal, compact_jws,
  signed_claims, answered, authenticate_claims, authenticate_jws, authenticate_request,
}

-- The text stands among the items.
abbrev pub Holds : Items → Text → Type 0
Holds nil text = ⊥
Holds (item value items) text = (value ≡ string text) ⊎ Holds items text

-- The stored setting allows a capability: it lists its name, or is no list.
abbrev pub IsAllowed : Option Json → Text → Type 0
IsAllowed (some (array items)) name = Holds items name
IsAllowed _ name = Unit

any-filter :
    (q : Text → Bool) (t : Text) (xs : List Text)
    → q t ≡ true
    → any (λ n. n == t) (filter q xs) ≡ any (λ n. n == t) xs
unfolding any filter
any-filter q t [] h = refl
any-filter q t (x ∷ xs) h = elim (Bool-cases (x == t)) [
  | inl e ↦ let kept : q x ≡ true = ap q ((eq_iff x t).0 e) ∙ h in rw (kept, e, any, filter) refl
  | inr e ↦ elim (Bool-cases (q x)) [
    | inl kept ↦ rw (kept, e, any, filter) (any-filter q t xs h)
    | inr out ↦ rw (out, e, any, filter) (any-filter q t xs h)
  ]
]

any-distinct : (t : Text) (xs : List Text) → any (λ n. n == t) (distinct xs) ≡ any (λ n. n == t) xs
unfolding any distinct
any-distinct t [] = refl
any-distinct t (x ∷ xs) = elim (Bool-cases (x == t)) [
  | inl e ↦ rw (e, any, distinct) refl
  | inr e ↦
      let other : not (t == x) ≡ true = ground (arith, eq_iff x t, eq_iff t x, e) in
      rw (e, any, distinct)
        (any-filter (λ n. not (n == x)) t (distinct xs) other ∙ any-distinct t xs)
]

strings_of-Holds :
    (t : Text) (items : Items) → any (λ n. n == t) (strings_of items) ≡ true → Holds items t
unfolding any
strings_of-Holds t nil h = cc
strings_of-Holds t (item (string s) items) h = elim (Bool-cases (s == t)) [
  | inl e ↦ inl (ap string ((eq_iff s t).0 e))
  | inr e ↦ inr (strings_of-Holds t items (rw (e, any) at h))
]
strings_of-Holds t (item null items) h = inr (strings_of-Holds t items h)
strings_of-Holds t (item (boolean b) items) h = inr (strings_of-Holds t items h)
strings_of-Holds t (item (number n) items) h = inr (strings_of-Holds t items h)
strings_of-Holds t (item (array l) items) h = inr (strings_of-Holds t items h)
strings_of-Holds t (item (object l) items) h = inr (strings_of-Holds t items h)

json_text : Json → Text → Text
json_text (string s) other = s
json_text _ other = other

Holds-strings_of :
    (t : Text) (items : Items) → Holds items t → any (λ n. n == t) (strings_of items) ≡ true
unfolding any json_text
Holds-strings_of t nil h = absurd h
Holds-strings_of t (item (string s) items) (inl e) =
    rw ((eq_iff s t).1 (ap (λ v. json_text v s) e), any) refl
Holds-strings_of t (item (string s) items) (inr h) = ground (arith, Holds-strings_of t items h)
Holds-strings_of t (item null items) (inl e) = cc
Holds-strings_of t (item null items) (inr h) = Holds-strings_of t items h
Holds-strings_of t (item (boolean b) items) (inl e) = cc
Holds-strings_of t (item (boolean b) items) (inr h) = Holds-strings_of t items h
Holds-strings_of t (item (number n) items) (inl e) = cc
Holds-strings_of t (item (number n) items) (inr h) = Holds-strings_of t items h
Holds-strings_of t (item (array l) items) (inl e) = cc
Holds-strings_of t (item (array l) items) (inr h) = Holds-strings_of t items h
Holds-strings_of t (item (object l) items) (inl e) = cc
Holds-strings_of t (item (object l) items) (inr h) = Holds-strings_of t items h

is_known : (c : Capability) → any (λ n. n == capability_name c) capability_names ≡ true
unfolding any ◌==◌
is_known read = refl
is_known operate = refl
is_known manage_broker = refl
is_known manage_security = refl
is_known manage_users = refl
is_known view_audit = refl
is_known manage_snapshots = refl
is_known manage_mcp = refl

is_other :
    (c : Capability) → c ≢ manage_mcp → not (capability_name c == capability_name manage_mcp) ≡ true
unfolding ◌==◌
is_other read h = refl
is_other operate h = refl
is_other manage_broker h = refl
is_other manage_security h = refl
is_other manage_users h = refl
is_other view_audit h = refl
is_other manage_snapshots h = refl
is_other manage_mcp h = absurd (h refl)

default-holds :
    (c : Capability)
    → c ≢ manage_mcp
    → includes_capability (map capability_name default_mcp_capabilities) c ≡ true
unfolding includes_capability any ◌==◌
default-holds read h = refl
default-holds operate h = refl
default-holds manage_broker h = refl
default-holds manage_security h = refl
default-holds manage_users h = refl
default-holds view_audit h = refl
default-holds manage_snapshots h = refl
default-holds manage_mcp h = absurd (h refl)

-- What the setting comes to, for another capability than the management of MCP access.
includes-IsAllowed :
    (stored : Option Json) (c : Capability)
    → c ≢ manage_mcp
    → (includes_capability (normalize_capabilities stored) c ≡ true)
      ↔ IsAllowed stored (capability_name c)
unfolding includes_capability normalize_capabilities
includes-IsAllowed none c other = (λ h. tt, λ h. default-holds c other)
includes-IsAllowed (some null) c other = (λ h. tt, λ h. default-holds c other)
includes-IsAllowed (some (boolean b)) c other = (λ h. tt, λ h. default-holds c other)
includes-IsAllowed (some (number n)) c other = (λ h. tt, λ h. default-holds c other)
includes-IsAllowed (some (string s)) c other = (λ h. tt, λ h. default-holds c other)
includes-IsAllowed (some (object l)) c other = (λ h. tt, λ h. default-holds c other)
includes-IsAllowed (some (array items)) c other =
    let known = filter (λ n. any (λ k. k == n) capability_names) (strings_of items) in
    let same =
      any-distinct (capability_name c) (filter (λ n. not (n == capability_name manage_mcp)) known)
      ∙ any-filter (λ n. not (n == capability_name manage_mcp)) (capability_name c) known
          (is_other c other)
      ∙ any-filter (λ n. any (λ k. k == n) capability_names) (capability_name c) (strings_of items)
          (is_known c) in
    (
      λ h. strings_of-Holds (capability_name c) items (sym same ∙ h),
      λ h. same ∙ Holds-strings_of (capability_name c) items h,
    )

abbrev Grants : Option Json → AuthenticatedUser → Capability → Type 0
Grants stored user c =
    (has_capability (some user) c ≡ true)
    ↔ ((c ≢ manage_mcp) × IsAllowed stored (capability_name c))

mcp_user-Grants :
    (stored : Option Json) (user : AuthenticatedUser) (c : Capability)
    → user.role ≡ mcp
    → user.capabilities ≡ some (normalize_capabilities stored)
    → Grants stored user c
mcp_user-Grants stored user c role listed =
    let held = has_capability-of_mcp user c role in
    (
      λ h.
          let (other, from) = held.0 h in
          (
            other,
            elim from [
              | inl e ↦ cc
              | inr (names, e, i) ↦
                  (includes-IsAllowed stored c other).0
                    (subst (λ l. includes_capability l c ≡ true) (same_of_some (sym e ∙ listed)) i)
            ],
          ),
      λ (other, allowed). held.1 (
        other,
        inr (normalize_capabilities stored, listed, (includes-IsAllowed stored c other).1 allowed),
      ),
    )

abbrev user_of :
    Reply (Option (AuthenticatedUser × McpDelegatedIdentity))
    → AuthenticatedUser
    → AuthenticatedUser
user_of (done (some x)) other = x.0
user_of _ other = other

principal-Grants :
    (account : Option StoredUser) (stored : Option Json) (claims : McpProofClaims)
    (x : AuthenticatedUser × McpDelegatedIdentity) (c : Capability)
    → principal account stored claims ≡ done (some x)
    → Grants stored x.0 c
unfolding principal
principal-Grants none stored claims x c h = cc
principal-Grants (some user) stored claims x c h =
    elim (Bool-cases (not (is_mcp_source user.auth_source) || not (is_mcp_role user.role))) [
      | inl bad ↦ cc (rw bad at h)
      | inr good ↦ elim (Bool-cases user.disabled) [
        | inl off ↦ cc (rw (good, off) at h)
        | inr on ↦
            let e = ap (λ r. user_of r x.0) (rw (good, on) at h) in
            mcp_user-Grants stored x.0 c (sym (ap (λ u. u.role) e))
              (sym (ap (λ u. u.capabilities) e))
      ]
    ]

module _ (host : Host) (config : McpConfig) (service : McpAuthService)
    (x : AuthenticatedUser × McpDelegatedIdentity) (c : Capability) where
  answered-Grants :
      (p : Reply McpProofClaims × Dict ℤ)
      → (answered host config service p).0 ≡ done (some x)
      → Grants service.stored_capabilities x.0 c
  answered-Grants (done claims, cache) h =
      principal-Grants (get_user_by_id mcp_system_user_id service.db) service.stored_capabilities
        claims x c h
  answered-Grants (refused e, cache) h = cc
  answered-Grants (thrown, cache) h = cc

  claims-Grants :
      (now : ℤ) (request : Request) (signed : Option Json) (body : Option Text)
      → (authenticate_claims host config now request service signed body).0 ≡ done (some x)
      → Grants service.stored_capabilities x.0 c
  claims-Grants now request none body h = cc
  claims-Grants now request (some json) none h = cc
  claims-Grants now request (some json) (some body) h = answered-Grants _ h

  jws-Grants :
      (now : ℤ) (request : Request) (jws key : Option Text)
      → (authenticate_jws host config now request service jws key).0 ≡ done (some x)
      → Grants service.stored_capabilities x.0 c
  jws-Grants now request none key h = cc
  jws-Grants now request (some jws) none h = cc
  jws-Grants now request (some jws) (some key) h =
      claims-Grants now request (signed_claims host config key jws) request.body h

-- A request that a proof authenticates may use a capability exactly if it is another than the management
-- of MCP access and the stored setting of the allowed capabilities lists its name, or is no list.
pub has_capability-authenticate_request :
    (host : Host) (config : McpConfig) (now : ℤ) (request : Request) (service : McpAuthService)
    (x : AuthenticatedUser × McpDelegatedIdentity) (c : Capability)
    → (authenticate_request host config now request service).0 ≡ done (some x)
    → (has_capability (some x.0) c ≡ true)
      ↔ ((c ≢ manage_mcp) × IsAllowed service.stored_capabilities (capability_name c))
unfolding authenticate_request
has_capability-authenticate_request host config now request service x c h =
    elim (Bool-cases config.enabled) [
      | inl e ↦
          jws-Grants host config service x c now request (compact_jws request.authorization)
            service.public_key (rw (e, authenticate_request) at h)
      | inr e ↦ cc (rw (e, authenticate_request) at h)
    ]
