-- ===== src/Auth/Operations/Login.antt =====
-- Signing in with a password, and the sessions: `login`, `logout`, `forceLogout`, `validateSession`.
use veervrat_app.Base.{ℕ, ◌+◌, Bool, true, false, ◌||◌, not, Option, none, some, ltb, is_some}
use veervrat_app.Model.{
  User, SessionUser, Session, Text, Service, throw, return, query, require, modify, ◌>>=◌, ◌>>◌,
  invalid_credentials, email_not_verified, account_suspended, account_locked, Prisma,
}
use veervrat_app.Auth.{
  Env, Draw, days, normalised, user_of, to_session_user, find_user_by_email,
  find_email_account_by_user_id, find_session_by_token, delete_session, delete_all_user_sessions,
  update_session_activity, LockState, check_lockout, clear_lockout, record_failed_login,
}
use veervrat_app.Auth.Operations.Access.{AuthResult, create_session, hash_of}

module _ (prisma : Prisma) (env : Env) where
  abbrev pub fail_login : Draw → Text → Service AuthResult
  fail_login draw address =
      modify (record_failed_login draw.now address) >> throw invalid_credentials

  abbrev pub enter : Draw → Text → User → Service AuthResult
  enter draw address u = do
    modify (clear_lockout address)
    session_token ← create_session env draw u.id
    user ← query (to_session_user u)
    return (record { user = user; session_token = session_token })

  -- the password was right
  abbrev pub admit : Draw → Text → User → Service AuthResult
  admit draw address u =
      require (is_some u.email_verified_at) email_not_verified
      >> (require (not (is_some u.suspended_at)) account_suspended >> enter draw address u)

  abbrev pub compare_hash :
      Draw → (address password : Text) → User → Option Text → Service AuthResult
  compare_hash draw address password u none = fail_login draw address
  compare_hash draw address password u (some hashed) = elim (env.compare password hashed) [
    | true ↦ admit draw address u
    | false ↦ fail_login draw address
  ]

  abbrev pub login_as : Draw → (address password : Text) → Option User → Service AuthResult
  login_as draw address password none db = fail_login draw address db
  login_as draw address password (some u) db =
      compare_hash draw address password u (hash_of (find_email_account_by_user_id prisma u.id db))
        db

  abbrev pub login_unless : Draw → (address password : Text) → LockState → Service AuthResult
  login_unless draw address password lock db = elim lock.locked [
    | true ↦ throw (account_locked lock.seconds_remaining) db
    | false ↦ login_as draw address password (find_user_by_email prisma address db) db
  ]

  unfoldable pub login : Draw → (raw_email password : Text) → Service AuthResult
  login draw raw_email password db =
      let address = normalised env raw_email in
      login_unless draw address password (check_lockout draw.now address db) db

unfoldable pub logout : (session_token : ℕ) → Service (Unit {0})
logout session_token = modify (delete_session session_token)

unfoldable pub force_logout : (user_id : ℕ) → Service (Unit {0})
force_logout user_id = modify (delete_all_user_sessions user_id)

-- Who a session's token stands for.
pub record ValidSession : Type 0 where
  pub user : SessionUser
  pub session_id : ℕ

abbrev pub is_barred : User → Bool
is_barred u = is_some u.deleted_at || is_some u.suspended_at

abbrev pub drop_session : (token : ℕ) → Service (Option ValidSession)
drop_session token = modify (delete_session token) >> return none

abbrev pub keep_session : Env → (now : ℕ) → Session → User → Service (Option ValidSession)
keep_session env now s u = do
  update_session_activity now s.id (now + days env.session_ttl_days)
  user ← query (to_session_user u)
  return (some (record { user = user; session_id = s.id }))

abbrev pub validate_user :
    Env → (now token : ℕ) → Session → Option User → Service (Option ValidSession)
validate_user env now token s none = drop_session token
validate_user env now token s (some u) = elim (is_barred u) [
  | true ↦ drop_session token
  | false ↦ keep_session env now s u
]

abbrev pub validate_found : Env → (now token : ℕ) → Option Session → Service (Option ValidSession)
validate_found env now token none db = return none db
validate_found env now token (some s) db = elim (ltb s.expires_at now) [
  | true ↦ drop_session token db
  | false ↦ validate_user env now token s (user_of s.user_id db) db
]

unfoldable pub validate_session : Env → (now token : ℕ) → Service (Option ValidSession)
validate_session env now token db = validate_found env now token (find_session_by_token token db) db
