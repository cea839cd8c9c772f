-- ===== src/Auth/Created.antt =====
-- The two outcomes of `createUser`.
use mqttctl.Prelude.{
  ◌≡◌, ◌≢◌, refl, ◌==◌, true, false, not, ◌||◌, ◌&&◌, Option, [], ◌∷◌, ◌++◌, any, arith, inl, inr,
  ◌⊎◌, Bool-cases, is_some,
}
use mqttctl.Permissions.{AuthenticatedUser}
use mqttctl.Auth.{
  AppDatabase, done, is_local, is_mcp_source, is_super_admin, get_user_by_username, insert_user,
}
use mqttctl.Auth.Accounts.{
  Crypto, Drawn, CreateUserInput, created_row, create_user, acts_as_mcp, is_given,
  normalize_username,
}

-- The account has been made: its row stands at the end, and every guard was passed.
pub record Creates (crypto : Crypto) (input : CreateUserInput) (actor : Option AuthenticatedUser)
    (drawn : Drawn) (db : AppDatabase) : Type 0 where
  pub result :
      create_user crypto input actor drawn db
      ≡ (done tt, record db { users = db.users ++ created_row crypto input drawn ∷ [] })
  pub fresh_id : any (λ u. u.id == drawn.token) db.users ≡ false
  pub fresh_name :
      any (λ u. u.username == normalize_username crypto input.username) db.users ≡ false
  pub human : is_mcp_source input.auth_source ≡ false
  pub allowed : (acts_as_mcp actor && is_super_admin input.role) ≡ false
  pub with_password : is_local input.auth_source ≡ true → is_given input.password ≡ true

module _ (crypto : Crypto) (input : CreateUserInput) (actor : Option AuthenticatedUser)
    (drawn : Drawn) (db : AppDatabase) where
  abbrev Unmade : Type 0
  Unmade =
      ((create_user crypto input actor drawn db).0 ≢ done tt)
      × ((create_user crypto input actor drawn db).1 ≡ db)

  pub create_user-cases : Unmade ⊎ Creates crypto input actor drawn db
  unfolding create_user insert_user created_row
  create_user-cases =
      elim (Bool-cases
        (is_some (get_user_by_username (normalize_username crypto input.username) db))) [
          | inl t ↦ inl (rw (t, create_user) (λ h. cc, refl))
          | inr a ↦ elim (Bool-cases (is_mcp_source input.auth_source)) [
            | inl t ↦ inl (rw (a, create_user, t) (λ h. cc, refl))
            | inr b ↦ elim (Bool-cases (acts_as_mcp actor && is_super_admin input.role)) [
              | inl t ↦ inl (rw (a, create_user, b, t) (λ h. cc, refl))
              | inr c ↦
                  elim (Bool-cases (is_local input.auth_source && not (is_given input.password))) [
                    | inl t ↦ inl (rw (a, create_user, b, c, t) (λ h. cc, refl))
                    | inr d ↦
                        elim (Bool-cases
                          (not (is_local input.auth_source) && is_given input.password)) [
                            | inl t ↦ inl (rw (a, create_user, b, c, d, t) (λ h. cc, refl))
                            | inr e ↦
                                elim (Bool-cases (
                                  any (λ u. u.id == drawn.token) db.users
                                  || any
                                      (λ u. u.username == normalize_username crypto input.username)
                                      db.users)) [
                                        | inl t ↦
                                            inl (rw (a, create_user, b, c, d, e, t) (λ h. cc, refl))
                                        | inr f ↦ inr (record {
                                          result = rw (a, create_user, b, c, d, e, f) refl;
                                          fresh_id = ground (arith, f);
                                          fresh_name = ground (arith, f);
                                          human = b;
                                          allowed = c;
                                          with_password = λ l. ground (arith, d, l);
                                        })
                                      ]
                          ]
                  ]
            ]
          ]
        ]
