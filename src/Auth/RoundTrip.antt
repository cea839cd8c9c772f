-- ===== src/Auth/RoundTrip.antt =====
-- An account that is made can log in, and the cookie it gets stands for it.
use mqttctl.Prelude.{
  ℕ, ◌+◌, ◌*◌, ◌<◌, ◌≡◌, refl, ◌∙◌, Text, codes, ◌==◌, eq_refl, is_empty, eqb, eqb_iff, leb, true,
  false, some, [], ◌∷◌, ◌++◌, length, any, arith, inl, inr, Bool-cases,
}
use mqttctl.Prelude.Search.{find-snoc}
use mqttctl.Permissions.{local, is_mcp_role}
use mqttctl.Auth.{
  StoredUser, SessionRecord, AppDatabase, done, is_mcp_source, get_user_by_id, create_session,
  get_session,
}
use mqttctl.Auth.Accounts.{Crypto, Drawn}
use mqttctl.Auth.Login.{
  split_dots, timing_safe_equal, LoginConfig, Request, sanitize_user, record_login_audit,
  build_session_cookie_value, check_signature, extract_session_id, create_session_for_user,
  get_user_from_cookie,
}

-- A part of a cookie: not empty and without a dot.
pub record IsPart (s : Text) : Type 0 where
  pub full : is_empty s ≡ false
  pub dotless : any (λ c. eqb c b'.') s ≡ false

-- What the code relies on: argon2 accepts the password of a hash, which is never empty, and the
-- signature is in base64url.
pub record CryptoWorks (crypto : Crypto) : Type 0 where
  pub accepts : (salt : ℕ) (p : Text) → crypto.verify (crypto.hash salt p) p ≡ true
  pub hashes : (salt : ℕ) (p : Text) → is_empty (crypto.hash salt p) ≡ false
  pub signs : (s : Text) → IsPart (crypto.sign_session_id s)

split-whole : (s : Text) → any (λ c. eqb c b'.') s ≡ false → split_dots s ≡ s ∷ []
unfolding split_dots any
split-whole [] h = refl
split-whole (c ∷ s) h = elim (Bool-cases (eqb c b'.')) [
  | inl e ↦ ground (arith, e, h)
  | inr e ↦ rw (split-whole s (ground (arith, h)), e) refl
]

split-pair :
    (a b : Text)
    → any (λ c. eqb c b'.') a ≡ false
    → any (λ c. eqb c b'.') b ≡ false
    → split_dots (a ++ codes "." ++ b) ≡ a ∷ b ∷ []
unfolding split_dots any
split-pair [] b h k = rw (split-whole b k) refl
split-pair (c ∷ a) b h k = elim (Bool-cases (eqb c b'.')) [
  | inl e ↦ ground (arith, e, h)
  | inr e ↦ rw (split-pair a b (ground (arith, h)) k, e) refl
]

append_full : (a b : Text) → is_empty a ≡ false → is_empty (a ++ b) ≡ false
unfolding is_empty
append_full [] b h = cc
append_full (x ∷ a) b h = refl

not_expired : (now e : ℕ) → now < e → leb e now ≡ false
not_expired now e h = ground arith

module _ (crypto : Crypto) where
  extract_parts :
      (cookie a b : Text)
      → is_empty cookie ≡ false
      → split_dots cookie ≡ a ∷ b ∷ []
      → is_empty a ≡ false
      → is_empty b ≡ false
      → extract_session_id crypto (some cookie) ≡ check_signature crypto a b
  unfolding extract_session_id
  extract_parts cookie a b c p e f = rw (c, p, e, f) refl

  check_own :
      (sid : Text) → check_signature crypto sid (crypto.sign_session_id sid) ≡ done (some sid)
  unfolding check_signature timing_safe_equal
  check_own sid =
      rw
        (
          (eqb_iff (length (crypto.sign_session_id sid)) (length (crypto.sign_session_id sid))).1
              refl,
          (eqb_iff (length (crypto.buffer (crypto.sign_session_id sid)))
                (length (crypto.buffer (crypto.sign_session_id sid)))).1
              refl,
          eq_refl (crypto.buffer (crypto.sign_session_id sid)),
        )
        refl

module _ (crypto : Crypto) (w : CryptoWorks crypto) where
  -- The server reads its own cookie.
  pub extract-build :
      (sid : Text)
      → IsPart sid
      → extract_session_id crypto (some (build_session_cookie_value crypto sid)) ≡ done (some sid)
  unfolding build_session_cookie_value
  extract-build sid p =
      let s = w.signs sid in
      extract_parts crypto _ sid (crypto.sign_session_id sid)
        (append_full (sid ++ codes ".") (crypto.sign_session_id sid)
          (append_full sid (codes ".") p.full))
        (split-pair sid (crypto.sign_session_id sid) p.dotless s.dotless) p.full s.full
      ∙ check_own crypto sid

  -- The session that a login makes for an account that stands in the table.
  abbrev made_session : LoginConfig → StoredUser → Request → Drawn → SessionRecord
  made_session config user request drawn = record {
    id = drawn.token;
    user_id = user.id;
    auth_method = local;
    expires_at = drawn.now + config.session_ttl_minutes * 60000;
    session_version = user.session_version;
    source_ip = request.source_ip;
    user_agent = request.user_agent;
    created_at = drawn.now;
    updated_at = drawn.now;
  }

  module _ (config : LoginConfig) (user : StoredUser) (request : Request) (drawn : Drawn)
      (db : AppDatabase) (stored : get_user_by_id user.id db ≡ some user)
      (human_source : is_mcp_source user.auth_source ≡ false)
      (human_role : is_mcp_role user.role ≡ false)
      (fresh : any (λ s. s.id == drawn.token) db.sessions ≡ false) where
    pub session_made :
        (create_session_for_user crypto config user local request drawn db).0
        ≡ done (record {
          user = sanitize_user user;
          session_id = drawn.token;
          cookie_value = build_session_cookie_value crypto drawn.token;
          expires_at = drawn.now + config.session_ttl_minutes * 60000;
        })
    unfolding create_session_for_user create_session
    session_made = rw (human_source, create_session_for_user, human_role, fresh, stored) refl

    session_kept :
        (create_session_for_user crypto config user local request drawn db).1.sessions
        ≡ db.sessions ++ made_session config user request drawn ∷ []
    unfolding create_session_for_user create_session record_login_audit
    session_kept = rw (human_source, create_session_for_user, human_role, fresh, stored) refl

    users_kept :
        (create_session_for_user crypto config user local request drawn db).1.users ≡ db.users
    unfolding create_session_for_user create_session record_login_audit
    users_kept = rw (human_source, create_session_for_user, human_role, fresh, stored) refl

    -- The cookie of the new session, read back before the session ends.
    pub cookie_reads_back :
        (now : ℕ)
        → IsPart drawn.token
        → user.disabled ≡ false
        → now < drawn.now + config.session_ttl_minutes * 60000
        → (get_user_from_cookie crypto
            (some (build_session_cookie_value crypto drawn.token))
            now
            (create_session_for_user crypto config user local request drawn db).1).0
          ≡ done (some (sanitize_user user))
    unfolding get_user_from_cookie get_session get_user_by_id
    cookie_reads_back now part enabled early =
        let found =
          find-snoc (λ s. s.id == drawn.token) db.sessions (made_session config user request drawn)
            fresh (eq_refl drawn.token) in
        rw
          (
            extract-build drawn.token part,
            get_user_from_cookie,
            session_kept,
            found,
            not_expired now (drawn.now + config.session_ttl_minutes * 60000) early,
            users_kept,
            stored,
            enabled,
            human_source,
            human_role,
            (eqb_iff user.session_version user.session_version).1 refl,
          )
          refl
