-- ===== src/Auth/Operations/Settings.antt =====
-- A person's own account: `changePassword`, `assertRecentlyAuthenticated`, the connected accounts.
use veervrat_app.Base.{
  ℕ, ◌-◌, ◌*◌, Bool, true, false, ◌&&◌, ◌||◌, not, Option, none, some, List, map, ◌==◌, is_some,
  some_of, find_in, count_of, ltb,
}
use veervrat_app.Model.{
  AuthProvider, is_email, provider_eq, AuthAccount, Text, Db, Service, throw, return, or_throw,
  require, modify, ◌>>=◌, ◌>>◌, no_password_set, password_incorrect, reauthentication_required,
  entity_not_found, entity_in_use, login_method, Prisma,
}
use veervrat_app.Invitations.Operations.{truthy}
use veervrat_app.Auth.{
  Env, Draw, find_email_account_by_user_id, update_password_hash, delete_all_user_sessions,
  consume_session_reauthentication, list_auth_accounts, delete_auth_account,
}
use veervrat_app.Auth.Operations.Access.{create_session, verify_password}

abbrev pub reauth_window_minutes : ℕ
reauth_window_minutes = 10

-- it can sign its user in
abbrev pub is_login_method : AuthAccount → Bool
is_login_method a = not (is_email a.provider) || is_some (truthy a.password_hash)

pub record ConnectedAccounts : Type 0 where
  pub accounts : List AuthProvider
  pub has_password : Bool

unfoldable pub list_connected_accounts : ℕ → Db → ConnectedAccounts
list_connected_accounts user_id db =
    let accounts = list_auth_accounts user_id db in
    record {
      accounts = map (λ a. a.provider) accounts;
      has_password =
          some_of (λ a. is_email a.provider && is_some (truthy a.password_hash)) accounts;
    }

abbrev pub disconnect_target : List AuthAccount → AuthAccount → Service (Unit {0})
disconnect_target accounts target =
    require (ltb 0 (count_of (λ a. not (a.id == target.id) && is_login_method a) accounts))
      entity_in_use
    >> delete_auth_account target.id

-- the text of the exception, which names the provider, is left out
abbrev pub disconnect_from : ℕ → AuthProvider → List AuthAccount → Service (Unit {0})
disconnect_from user_id provider accounts =
    or_throw (entity_not_found login_method 0)
      (find_in (λ a. provider_eq a.provider provider) accounts)
    >>= disconnect_target accounts

unfoldable pub disconnect_account : ℕ → AuthProvider → Service (Unit {0})
disconnect_account user_id provider db =
    disconnect_from user_id provider (list_auth_accounts user_id db) db

module _ (prisma : Prisma) (env : Env) where
  abbrev pub replace_password : Draw → ℕ → (new_password : Text) → AuthAccount → Service ℕ
  replace_password draw user_id new_password a = do
    update_password_hash a.id (env.hash draw.salt new_password)
    modify (delete_all_user_sessions user_id)
    create_session env draw user_id

  abbrev pub change_hash :
      Draw → ℕ → (current_password new_password : Text) → AuthAccount → Option Text → Service ℕ
  change_hash draw user_id current_password new_password a none = throw no_password_set
  change_hash draw user_id current_password new_password a (some hashed) =
      require (env.compare current_password hashed) password_incorrect
      >> replace_password draw user_id new_password a

  abbrev pub change_account :
      Draw → ℕ → (current_password new_password : Text) → Option AuthAccount → Service ℕ
  change_account draw user_id current_password new_password none = throw no_password_set
  change_account draw user_id current_password new_password (some a) =
      change_hash draw user_id current_password new_password a (truthy a.password_hash)

  -- It answers with the token of a new session.
  unfoldable pub change_password : Draw → ℕ → (current_password new_password : Text) → Service ℕ
  change_password draw user_id current_password new_password db =
      change_account draw user_id current_password new_password
        (find_email_account_by_user_id prisma user_id db) db

  -- `password && (await this.verifyPassword(userId, password))`
  abbrev pub is_proved : ℕ → Option Text → Db → Bool
  is_proved user_id none db = false
  is_proved user_id (some password) db = verify_password prisma env user_id password db

  abbrev pub proof_missing : Option Text → Service (Unit {0})
  proof_missing none = throw reauthentication_required
  proof_missing (some password) = throw password_incorrect

  abbrev pub use_google_proof : (now session_id : ℕ) → Option Text → Service (Unit {0})
  use_google_proof now session_id password =
      consume_session_reauthentication session_id (now - reauth_window_minutes * 60000) >>= λ spent.
      elim spent [ true ↦ return tt | false ↦ proof_missing password ]

  abbrev pub assert_with : (now user_id session_id : ℕ) → Option Text → Service (Unit {0})
  assert_with now user_id session_id password db = elim (is_proved user_id password db) [
    | true ↦ return tt db
    | false ↦ use_google_proof now session_id password db
  ]

  unfoldable pub assert_recently_authenticated :
      (now user_id session_id : ℕ) → (password : Option Text) → Service (Unit {0})
  assert_recently_authenticated now user_id session_id password =
      assert_with now user_id session_id (truthy password)
