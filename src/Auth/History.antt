-- ===== src/Auth/History.antt =====
-- Runs of the operations that write accounts, in any order.
use mqttctl.Prelude.{
  ◌≡◌, sym, subst, ◌∙◌, All, ℕ, refl, Text, eqb, Option, none, List, [], ◌∷◌, inl, inr, Bool-cases,
}
use mqttctl.Permissions.{AuthMethod, oidc, header, AuthenticatedUser}
use mqttctl.Auth.{StoredUser, AppDatabase, update_user_row, delete_sessions_for_user}
use mqttctl.Auth.Accounts.{
  Crypto, Drawn, CreateUserInput, UpdateUserInput, create_user, update_user, delete_user,
}
use mqttctl.Auth.External.{
  ExternalConfig, sync_external_account, linked_version, reconcile_external_user,
  authenticate_trusted_headers,
}
use mqttctl.Auth.Rows.{HasUniqueIds}
use mqttctl.Auth.Linked.{ExternalOutcome, headers_outcome, oidc_outcome}
use mqttctl.Auth.McpUser.{
  mcp_rows, IsLocked, create_user-mcp_rows, update_user-mcp_rows, delete_user-mcp_rows,
  outcome-mcp_rows,
}
use mqttctl.Auth.Keys.{
  set_where-HasUniqueIds, create_user-HasUniqueIds, update_user-HasUniqueIds,
  delete_user-HasUniqueIds,
}

module _ (crypto : Crypto) (db : AppDatabase) (d : HasUniqueIds db.users) where
  sync-HasUniqueIds :
      (x : StoredUser) (source : AuthMethod) (subject email : Option Text) (now : ℕ)
      → HasUniqueIds (sync_external_account x source subject email now db).1.users
  unfolding sync_external_account update_user_row delete_sessions_for_user
  sync-HasUniqueIds x source subject email now =
      elim (Bool-cases (eqb (linked_version x source subject) x.session_version)) [
        | inl v ↦
            rw (v, sync_external_account) (set_where-HasUniqueIds x.id _ db.users (λ u. refl) d)
        | inr v ↦
            rw (v, sync_external_account) (set_where-HasUniqueIds x.id _ db.users (λ u. refl) d)
      ]

  outcome-HasUniqueIds :
      (source : AuthMethod) (db' : AppDatabase)
      → ExternalOutcome crypto source db db'
      → HasUniqueIds db'.users
  outcome-HasUniqueIds source db' (inl same) = subst (λ w. HasUniqueIds w.users) (sym same) d
  outcome-HasUniqueIds source db' (inr (inl made)) =
      subst (λ w. HasUniqueIds w.users) (sym made.result)
        (create_user-HasUniqueIds crypto db d made.input none made.drawn)
  outcome-HasUniqueIds source db' (inr (inr l)) =
      subst (λ w. HasUniqueIds w.users) (sym l.result)
        (sync-HasUniqueIds l.user source l.subject l.email l.now)

pub data AccountEvent : Type 0 where
  creates : CreateUserInput → Option AuthenticatedUser → Drawn → AccountEvent
  updates : UpdateUserInput → Option AuthenticatedUser → Drawn → AccountEvent
  deletes : Text → Option AuthenticatedUser → AccountEvent
  logs_in_by_headers : ExternalConfig → Option Text → (Text → Option Text) → Drawn → AccountEvent
  logs_in_by_oidc : ExternalConfig → Text → Text → Option Text → Drawn → AccountEvent

unfoldable pub account_step : Crypto → AccountEvent → AppDatabase → AppDatabase
account_step crypto (creates input actor drawn) db = (create_user crypto input actor drawn db).1
account_step crypto (updates input actor drawn) db = (update_user crypto input actor drawn db).1
account_step crypto (deletes user_id actor) db = (delete_user user_id actor db).1
account_step crypto (logs_in_by_headers config source_ip headers drawn) db =
    (authenticate_trusted_headers crypto config source_ip headers drawn db).1
account_step crypto (logs_in_by_oidc config subject username email drawn) db =
    (reconcile_external_user crypto config subject username email drawn db).1

unfoldable pub account_run : Crypto → List AccountEvent → AppDatabase → AppDatabase
account_run crypto [] db = db
account_run crypto (e ∷ es) db = account_run crypto es (account_step crypto e db)

account_step-HasUniqueIds :
    (crypto : Crypto) (e : AccountEvent) (db : AppDatabase)
    → HasUniqueIds db.users
    → HasUniqueIds (account_step crypto e db).users
unfolding account_step
account_step-HasUniqueIds crypto (creates input actor drawn) db d =
    create_user-HasUniqueIds crypto db d input actor drawn
account_step-HasUniqueIds crypto (updates input actor drawn) db d =
    update_user-HasUniqueIds crypto db d input actor drawn
account_step-HasUniqueIds crypto (deletes user_id actor) db d =
    delete_user-HasUniqueIds crypto db d user_id actor
account_step-HasUniqueIds crypto (logs_in_by_headers config source_ip headers drawn) db d =
    outcome-HasUniqueIds crypto db d header _
      (headers_outcome crypto config source_ip headers drawn db)
account_step-HasUniqueIds crypto (logs_in_by_oidc config subject username email drawn) db d =
    outcome-HasUniqueIds crypto db d oidc _
      (oidc_outcome crypto config subject username email drawn db)

account_step-mcp_rows :
    (crypto : Crypto) (e : AccountEvent) (db : AppDatabase)
    → HasUniqueIds db.users
    → All IsLocked (mcp_rows db)
    → mcp_rows (account_step crypto e db) ≡ mcp_rows db
unfolding account_step
account_step-mcp_rows crypto (creates input actor drawn) db d locked =
    create_user-mcp_rows crypto db d input actor drawn
account_step-mcp_rows crypto (updates input actor drawn) db d locked =
    update_user-mcp_rows crypto db d input actor drawn
account_step-mcp_rows crypto (deletes user_id actor) db d locked =
    delete_user-mcp_rows crypto db d user_id actor
account_step-mcp_rows crypto (logs_in_by_headers config source_ip headers drawn) db d locked =
    outcome-mcp_rows crypto db d header _ refl locked
      (headers_outcome crypto config source_ip headers drawn db)
account_step-mcp_rows crypto (logs_in_by_oidc config subject username email drawn) db d locked =
    outcome-mcp_rows crypto db d oidc _ refl locked
      (oidc_outcome crypto config subject username email drawn db)

-- Where the rows have distinct ids and those of the MCP system user are protected and carry no subject,
-- no run of account operations, by whomever, and of logins by headers or OIDC adds, changes or deletes
-- such a row.
pub account_run-mcp_rows :
    (crypto : Crypto) (es : List AccountEvent) (db : AppDatabase)
    → HasUniqueIds db.users
    → All IsLocked (mcp_rows db)
    → mcp_rows (account_run crypto es db) ≡ mcp_rows db
unfolding account_run
account_run-mcp_rows crypto [] db d locked = refl
account_run-mcp_rows crypto (e ∷ es) db d locked =
    let same = account_step-mcp_rows crypto e db d locked in
    account_run-mcp_rows crypto es (account_step crypto e db)
      (account_step-HasUniqueIds crypto e db d) (subst (All IsLocked) (sym same) locked)
    ∙ same
