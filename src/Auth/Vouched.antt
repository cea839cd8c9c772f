-- ===== src/Auth/Vouched.antt =====
-- Whom a cookie stands for, and for whom it stops standing.
use mqttctl.Prelude.{
  ℕ, ◌<◌, ◌≡◌, refl, Text, eqb, leb, false, not, ◌||◌, Option, some, arith, inl, inr, ◌⊎◌,
  Bool-cases, Option-cases,
}
use mqttctl.Permissions.{AppError, AuthenticatedUser, is_mcp_role}
use mqttctl.Auth.{
  StoredUser, SessionRecord, AppDatabase, Reply, done, refused, thrown, is_mcp_source,
  get_user_by_id, get_session,
}
use mqttctl.Auth.Accounts.{Crypto}
use mqttctl.Auth.Signed.{IsSigned, extract_session_id-IsSigned}
use mqttctl.Auth.Login.{extract_session_id, sanitize_user, get_user_from_cookie}

pub Reply-cases :
    {A : Type 0} (r : Reply A)
    → ((a : A) × (r ≡ done a)) ⊎ (((e : AppError) × (r ≡ refused e)) ⊎ (r ≡ thrown))
Reply-cases (done a) = inl (a, refl)
Reply-cases (refused e) = inr (inl (e, refl))
Reply-cases thrown = inr (inr refl)

-- The grounds on which a cookie stands for a user.
pub record Vouches (crypto : Crypto) (cookie : Option Text) (now : ℕ) (db : AppDatabase)
    (u : AuthenticatedUser) : Type 0 where
  pub session_id : Text
  pub session : SessionRecord
  pub user : StoredUser
  pub signed : IsSigned crypto cookie session_id
  pub stored : get_session session_id db ≡ some session
  pub owner : get_user_by_id session.user_id db ≡ some user
  pub unexpired : now < session.expires_at
  pub enabled : user.disabled ≡ false
  pub human_source : is_mcp_source user.auth_source ≡ false
  pub human_role : is_mcp_role user.role ≡ false
  pub current : user.session_version ≡ session.session_version
  pub shown : u ≡ sanitize_user user

module _ (crypto : Crypto) (cookie : Option Text) (now : ℕ) (db : AppDatabase)
    (u : AuthenticatedUser) where
  vouched_by_user :
      (sid : Text) (session : SessionRecord) (user : StoredUser)
      → extract_session_id crypto cookie ≡ done (some sid)
      → get_session sid db ≡ some session
      → leb session.expires_at now ≡ false
      → get_user_by_id session.user_id db ≡ some user
      → (get_user_from_cookie crypto cookie now db).0 ≡ done (some u)
      → Vouches crypto cookie now db u
  unfolding get_user_from_cookie
  vouched_by_user sid session user x s l o =
      elim (Bool-cases (
        user.disabled
        || is_mcp_source user.auth_source
        || is_mcp_role user.role
        || not (eqb user.session_version session.session_version))) [
          | inl bad ↦ rw (x, get_user_from_cookie, s, l, o, bad) (λ h. cc)
          | inr good ↦
              rw (x, get_user_from_cookie, s, l, o, good)
                (λ h. record {
                  session_id = sid;
                  session = session;
                  user = user;
                  signed = extract_session_id-IsSigned crypto cookie sid x;
                  stored = s;
                  owner = o;
                  unexpired = ground arith;
                  enabled = ground arith;
                  human_source = ground arith;
                  human_role = ground arith;
                  current = ground arith;
                  shown = cc;
                })
        ]

  -- Where a cookie is taken for a user, it carries the id of a stored session together with the
  -- signature that the server makes for it. The session has not expired and its version is its owner's,
  -- and the owner is neither disabled nor the MCP user.
  pub get_user_from_cookie-Vouches :
      (get_user_from_cookie crypto cookie now db).0 ≡ done (some u) → Vouches crypto cookie now db u
  unfolding get_user_from_cookie
  get_user_from_cookie-Vouches = elim (Reply-cases (extract_session_id crypto cookie)) [
    | inr (inl (e, x)) ↦ rw (x, get_user_from_cookie) (λ h. cc)
    | inr (inr x) ↦ rw (x, get_user_from_cookie) (λ h. cc)
    | inl (extracted, x) ↦ elim (Option-cases extracted) [
      | inl n ↦ rw (x, n, get_user_from_cookie) (λ h. cc)
      | inr (sid, n) ↦ elim (Option-cases (get_session sid db)) [
        | inl s ↦ rw (x, n, get_user_from_cookie, s) (λ h. cc)
        | inr (session, s) ↦ elim (Bool-cases (leb session.expires_at now)) [
          | inl l ↦ rw (x, n, get_user_from_cookie, s, l) (λ h. cc)
          | inr l ↦ elim (Option-cases (get_user_by_id session.user_id db)) [
            | inl o ↦ rw (x, n, get_user_from_cookie, s, l, o) (λ h. cc)
            | inr (user, o) ↦ vouched_by_user sid session user (rw (x, n) refl) s l o
          ]
        ]
      ]
    ]
  ]
