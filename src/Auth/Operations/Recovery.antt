-- ===== src/Auth/Operations/Recovery.antt =====
-- The mails' tokens: `verifyEmail`, `resendVerification`, `forgotPassword`, `resetPassword`.
use veervrat_app.Base.{ℕ, ◌+◌, Option, none, some}
use veervrat_app.Model.{
  User, SessionUser, AuthAccount, email_verification, password_reset, no_metadata, VerificationType,
  VerificationToken, Text, Db, Service, throw, return, query, or_throw, modify, ◌>>=◌, ◌>>◌,
  entity_not_found, Prisma,
}
use veervrat_app.Model
use veervrat_app.Auth.{
  Env, Draw, hours, normalised, find_user_by_id, find_user_by_email, find_email_account_by_user_id,
  to_session_user, update_password_hash, create_email_account_with_password,
  delete_all_user_sessions, create_verification_token, invalidate_tokens_by_user_and_type,
  mark_token_used, mark_email_verified,
}
use veervrat_app.Auth.Operations.Access.{hash_of, usable_token}

pub data ForgotPasswordOutcome : Type 0 where
  no_account reset_sent set_password_sent : ForgotPasswordOutcome

module _ (prisma : Prisma) (env : Env) where
  abbrev pub verify_token : (now : ℕ) → VerificationToken → Service SessionUser
  verify_token now t = do
    mark_token_used now t.id
    u ← mark_email_verified now t.user_id
    query (to_session_user u)

  unfoldable pub verify_email : (now token : ℕ) → Service SessionUser
  verify_email now token = usable_token prisma now token email_verification >>= verify_token now

  -- the older tokens of this kind are used up, and a new one is made
  abbrev pub renew : Draw → ℕ → VerificationType → (life : ℕ) → Service VerificationToken
  renew draw user_id type life =
      modify (invalidate_tokens_by_user_and_type draw.now user_id type)
      >> create_verification_token draw.token_id user_id draw.token type (draw.now + life)
          no_metadata

  abbrev pub resend_account : Draw → User → Option AuthAccount → Service (Unit {0})
  resend_account draw u none = return tt
  resend_account draw u (some a) = renew draw u.id email_verification (hours 24) >>= λ t. return tt

  abbrev pub resend_unverified : Draw → User → Option ℕ → Service (Unit {0})
  resend_unverified draw u (some t) db = return tt db
  resend_unverified draw u none db =
      resend_account draw u (find_email_account_by_user_id prisma u.id db) db

  abbrev pub resend_to : Draw → Option User → Service (Unit {0})
  resend_to draw none = return tt
  resend_to draw (some u) = resend_unverified draw u u.email_verified_at

  -- The answer is always 'sent'.
  unfoldable pub resend_verification : Draw → (raw_email : Text) → Service (Unit {0})
  resend_verification draw raw_email db =
      resend_to draw (find_user_by_email prisma (normalised env raw_email) db) db

  abbrev pub outcome_of : Option Text → ForgotPasswordOutcome
  outcome_of none = set_password_sent
  outcome_of (some hashed) = reset_sent

  abbrev pub forgot_by : Draw → Option User → Service ForgotPasswordOutcome
  forgot_by draw none db = return no_account db
  forgot_by draw (some u) db =
      let outcome = outcome_of (hash_of (find_email_account_by_user_id prisma u.id db)) in
      (renew draw u.id password_reset (hours 1) >>= λ t. return outcome) db

  unfoldable pub forgot_password : Draw → (raw_email : Text) → Service ForgotPasswordOutcome
  forgot_password draw raw_email db =
      forgot_by draw (find_user_by_email prisma (normalised env raw_email) db) db

  -- a first password makes the account that has it
  abbrev pub set_password : Draw → ℕ → Text → Option AuthAccount → Service AuthAccount
  set_password draw user_id hashed (some a) db = update_password_hash a.id hashed db
  set_password draw user_id hashed none db =
      (or_throw (entity_not_found Model.user user_id) (find_user_by_id user_id db) >>= λ owner.
      create_email_account_with_password draw.account_id user_id owner.email hashed)
        db

  abbrev pub reset_with : Draw → (new_password : Text) → VerificationToken → Service (Unit {0})
  reset_with draw new_password t = do
    account ← query (find_email_account_by_user_id prisma t.user_id)
    set_password draw t.user_id (env.hash draw.salt new_password) account
    mark_token_used draw.now t.id
    mark_email_verified draw.now t.user_id
    modify (delete_all_user_sessions t.user_id)

  unfoldable pub reset_password : Draw → (token : ℕ) → (new_password : Text) → Service (Unit {0})
  reset_password draw token new_password =
      usable_token prisma draw.now token password_reset >>= reset_with draw new_password
