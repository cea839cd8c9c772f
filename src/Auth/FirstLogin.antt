-- ===== src/Auth/FirstLogin.antt =====
-- From a new account to the user that its cookie stands for, and what a login proves.
use mqttctl.Prelude.{
  ℕ, ◌+◌, ◌*◌, ◌<◌, ◌≡◌, refl, Text, ◌==◌, eq_refl, is_empty, true, false, Option, none, some, [],
  ◌∷◌, ◌++◌, any, arith, inl, inr,
}
use mqttctl.Prelude.Search.{find-snoc}
use mqttctl.Permissions.{local, AuthenticatedUser, is_mcp_role}
use mqttctl.Auth.{AppDatabase, done, get_user_by_id, get_user_by_username}
use mqttctl.Auth.Accounts.{
  Crypto, Drawn, CreateUserInput, created_row, create_user, is_given, normalize_username,
}
use mqttctl.Auth.Login.{
  LoginConfig, Request, LoginResult, sanitize_user, create_session_for_user, login_local,
  get_user_from_cookie,
}
use mqttctl.Auth.Created.{Creates, create_user-cases}
use mqttctl.Auth.RoundTrip.{CryptoWorks, IsPart, session_made, cookie_reads_back}

given_full : (o : Option Text) (p : Text) → o ≡ some p → is_given o ≡ true → is_empty p ≡ false
given_full none p e g = cc
given_full (some q) p e g = ground (arith, e, g)

module _ (crypto : Crypto) (works : CryptoWorks crypto) (input : CreateUserInput)
    (actor : Option AuthenticatedUser) (drawn : Drawn) (db : AppDatabase)
    (c : Creates crypto input actor drawn db) where
  abbrev after : AppDatabase
  after = record db { users = db.users ++ created_row crypto input drawn ∷ [] }

  row_by_id : get_user_by_id drawn.token after ≡ some (created_row crypto input drawn)
  unfolding get_user_by_id created_row
  row_by_id =
      find-snoc (λ u. u.id == drawn.token) db.users (created_row crypto input drawn) c.fresh_id
        (eq_refl drawn.token)

  row_by_name :
      get_user_by_username (normalize_username crypto input.username) after
      ≡ some (created_row crypto input drawn)
  unfolding get_user_by_username created_row
  row_by_name =
      find-snoc (λ u. u.username == normalize_username crypto input.username) db.users
        (created_row crypto input drawn) c.fresh_name
        (eq_refl (normalize_username crypto input.username))

  -- The new account's password is taken, and a session is made.
  login_opens :
      (config : LoginConfig) (username p : Text) (request : Request) (drawn' : Drawn)
      → input.auth_source ≡ local
      → input.password ≡ some p
      → config.local_enabled ≡ true
      → normalize_username crypto username ≡ normalize_username crypto input.username
      → login_local crypto config username p request drawn' after
        ≡ create_session_for_user crypto config
            (created_row crypto input drawn)
            local
            request
            drawn'
            after
  unfolding login_local created_row create_session_for_user
  login_opens config username p request drawn' l q on name =
      let full = given_full input.password p q (c.with_password (rw l refl)) in
      rw
        (
          on,
          login_local,
          name,
          row_by_name,
          l,
          q,
          full,
          works.hashes drawn.salt p,
          works.accepts drawn.salt p,
        )
        refl

-- After `createUser` has made a local account that is not the MCP user's, its password and its name, in
-- any spelling that is normalized alike, log it in, and until the session's time is over the
-- cookie of that login stands for the account. The drawn token must be a part of a cookie and no
-- session's id, local logins must be on, and argon2 and the signature must work as they promise.
pub create-login-cookie :
    (crypto : Crypto) (works : CryptoWorks crypto) (input : CreateUserInput)
    (actor : Option AuthenticatedUser) (drawn : Drawn) (db : AppDatabase) (config : LoginConfig)
    (username p : Text) (request : Request) (drawn' : Drawn) (now : ℕ)
    → (create_user crypto input actor drawn db).0 ≡ done tt
    → input.auth_source ≡ local
    → input.password ≡ some p
    → is_mcp_role input.role ≡ false
    → config.local_enabled ≡ true
    → normalize_username crypto username ≡ normalize_username crypto input.username
    → IsPart drawn'.token
    → any (λ s. s.id == drawn'.token) db.sessions ≡ false
    → now < drawn'.now + config.session_ttl_minutes * 60000
    → let db1 = (create_user crypto input actor drawn db).1 in
      let (answer, db2) = login_local crypto config username p request drawn' db1 in
      (r : LoginResult) × (answer ≡ done r)
      × ((get_user_from_cookie crypto (some r.cookie_value) now db2).0
          ≡ done (some (sanitize_user (created_row crypto input drawn))))
unfolding created_row
create-login-cookie crypto works input actor drawn db config username p request drawn' now made l q
      role on name part fresh early =
    elim (create_user-cases crypto input actor drawn db) [
      | inl u ↦ absurd (u.0 made)
      | inr c ↦
          rw
            (
              c.result,
              login_opens crypto works input actor drawn db c config username p request drawn' l q
                  on name,
            )
            (let user = created_row crypto input drawn in
              let db1 = after crypto works input actor drawn db c in
              let stored = row_by_id crypto works input actor drawn db c in
              (
                _,
                session_made crypto works config user request drawn' db1 stored c.human role fresh,
                cookie_reads_back crypto works config user request drawn' db1 stored c.human role
                    fresh now part refl early,
              ))
    ]
