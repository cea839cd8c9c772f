-- ===== src/Auth/Linked.antt =====
-- The outcomes of a login by headers or by OIDC for the table of accounts.
use mqttctl.Prelude.{
  ℕ, ◌≡◌, refl, Text, ◌==◌, is_empty, same_text, same_text_iff, Bool, not, ◌||◌, ◌⊎◌, Option, none,
  some, [], any, find, inl, inr, Bool-cases, Option-cases, or_else,
}
use mqttctl.Prelude.Search.{find-holds}
use mqttctl.Permissions.{AuthMethod, oidc, header}
use mqttctl.Auth.{StoredUser, AppDatabase, get_user_by_username, get_user_by_external_subject}
use mqttctl.Auth.Accounts.{Crypto, Drawn, CreateUserInput, create_user, normalize_username}
use mqttctl.Auth.External.{
  ExternalConfig, reconcile_external_user, authenticate_trusted_headers,
  ensure_account_can_auto_link, sync_external_account, header_given,
}

-- An account that stood there is linked: it is not protected, or it carries the subject already.
pub record Links (source : AuthMethod) (db db' : AppDatabase) : Type 0 where
  pub user : StoredUser
  pub test : StoredUser → Bool
  pub subject : Option Text
  pub email : Option Text
  pub now : ℕ
  pub found : find test db.users ≡ some user
  pub allowed :
      (ensure_account_can_auto_link user source ≡ none)
      ⊎ ((carried : Text) × (user.external_subject ≡ some carried))
  pub result : db' ≡ (sync_external_account user source subject email now db).1

pub record Makes (crypto : Crypto) (db db' : AppDatabase) : Type 0 where
  pub input : CreateUserInput
  pub drawn : Drawn
  pub result : db' ≡ (create_user crypto input none drawn db).1

abbrev pub ExternalOutcome : Crypto → AuthMethod → AppDatabase → AppDatabase → Type 0
ExternalOutcome crypto source db db' = (db' ≡ db) ⊎ (Makes crypto db db' ⊎ Links source db db')

pub headers_outcome :
    (crypto : Crypto) (config : ExternalConfig) (source_ip : Option Text)
    (headers : Text → Option Text) (drawn : Drawn) (db : AppDatabase)
    → ExternalOutcome crypto header db
        (authenticate_trusted_headers crypto config source_ip headers drawn db).1
unfolding authenticate_trusted_headers get_user_by_username
headers_outcome crypto config source_ip headers drawn db =
    let name = normalize_username crypto (or_else (headers config.username_header) []) in
    elim (Bool-cases (not config.header_enabled)) [
      | inl t ↦ rw (t, authenticate_trusted_headers) (inl refl)
      | inr a ↦
          elim (Bool-cases
            (is_empty (or_else source_ip []) || not (config.trusted (or_else source_ip [])))) [
              | inl t ↦ rw (a, authenticate_trusted_headers, t) (inl refl)
              | inr b ↦
                  elim (Bool-cases
                    (any (λ h. not (header_given headers h)) config.required_headers)) [
                      | inl t ↦ rw (a, authenticate_trusted_headers, b, t) (inl refl)
                      | inr c ↦
                          elim (Bool-cases (not (header_given headers config.username_header))) [
                            | inl t ↦ rw (a, authenticate_trusted_headers, b, c, t) (inl refl)
                            | inr e ↦ elim (Option-cases (get_user_by_username name db)) [
                              | inl n ↦
                                  rw (a, authenticate_trusted_headers, b, c, e, n)
                                    (inr (inl (record { input = _; drawn = drawn; result = refl })))
                              | inr (x, f) ↦
                                  elim (Option-cases (ensure_account_can_auto_link x header)) [
                                    | inr (err, g) ↦
                                        rw (a, authenticate_trusted_headers, b, c, e, f, g)
                                          (inl refl)
                                    | inl g ↦
                                        rw (a, authenticate_trusted_headers, b, c, e, f, g)
                                          (inr (
                                            inr (record {
                                              user = x;
                                              test = λ u. u.username == name;
                                              subject = none;
                                              email = x.email;
                                              now = drawn.now;
                                              found = f;
                                              allowed = inl g;
                                              result = refl;
                                            })))
                                  ]
                            ]
                          ]
                    ]
            ]
    ]

pub oidc_outcome :
    (crypto : Crypto) (config : ExternalConfig) (subject username : Text) (email : Option Text)
    (drawn : Drawn) (db : AppDatabase)
    → ExternalOutcome crypto oidc db
        (reconcile_external_user crypto config subject username email drawn db).1
unfolding reconcile_external_user get_user_by_username get_user_by_external_subject
oidc_outcome crypto config subject username email drawn db =
    let name = normalize_username crypto username in
    elim (Option-cases (get_user_by_external_subject subject db)) [
      | inr (x, f) ↦
          rw (f, reconcile_external_user)
            (inr (
              inr (record {
                user = x;
                test = λ u. same_text u.external_subject (some subject);
                subject = some subject;
                email = email;
                now = drawn.now;
                found = f;
                allowed = inr (
                  subject,
                  (same_text_iff x.external_subject (some subject)).0
                      (find-holds (λ u. same_text u.external_subject (some subject)) db.users x f),
                );
                result = refl;
              })))
      | inl a ↦ elim (Option-cases (get_user_by_username name db)) [
        | inl n ↦
            rw (a, reconcile_external_user, n)
              (inr (inl (record { input = _; drawn = drawn; result = refl })))
        | inr (x, f) ↦ elim (Option-cases (ensure_account_can_auto_link x oidc)) [
          | inr (err, g) ↦ rw (a, reconcile_external_user, f, g) (inl refl)
          | inl g ↦
              rw (a, reconcile_external_user, f, g)
                (inr (
                  inr (record {
                    user = x;
                    test = λ u. u.username == name;
                    subject = some subject;
                    email = email;
                    now = drawn.now;
                    found = f;
                    allowed = inl g;
                    result = refl;
                  })))
        ]
      ]
    ]
