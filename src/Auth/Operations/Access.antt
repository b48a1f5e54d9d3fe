-- ===== src/Auth/Operations/Access.antt =====
-- What the requests of auth.service.ts share: a new session, the check of a token, a password.
use veervrat_app.Base.{ℕ, ◌+◌, Bool, false, not, Option, none, some, ltb}
use veervrat_app.Model.{
  SessionUser, AuthAccount, Session, VerificationType, VerificationToken, Text, Db, Service, return,
  or_throw, require, ◌>>=◌, ◌>>◌, token_invalid, token_expired, Prisma,
}
use veervrat_app.Invitations.Operations.{truthy}
use veervrat_app.Auth.{
  Env, Draw, days, insert_session, find_verification_token, find_email_account_by_user_id,
}

pub record AuthResult : Type 0 where
  pub user : SessionUser
  pub session_token : ℕ

abbrev pub new_session : Env → Draw → ℕ → Session
new_session env draw user_id = record {
  id = draw.session_id;
  user_id = user_id;
  token = draw.session_token;
  expires_at = draw.now + days env.session_ttl_days;
  last_active_at = draw.now;
  reauthenticated_at = none;
}

-- the private `createSession`
unfoldable pub create_session : Env → Draw → ℕ → Service ℕ
create_session env draw user_id =
    insert_session (new_session env draw user_id) >>= λ s. return s.token

-- `!!account?.passwordHash`: the hash, if there is one and it is not empty
abbrev pub hash_of : Option AuthAccount → Option Text
hash_of none = none
hash_of (some a) = truthy a.password_hash

-- whether this is the password of the account
abbrev pub passes : Env → Text → Option Text → Bool
passes env password none = false
passes env password (some hashed) = env.compare password hashed

module _ (prisma : Prisma) where
  abbrev pub unexpired : (now : ℕ) → VerificationToken → Service VerificationToken
  unexpired now t = require (not (ltb t.expires_at now)) token_expired >> return t

  -- the token, if it was not used and has not run out
  abbrev pub usable_token : (now token : ℕ) → VerificationType → Service VerificationToken
  usable_token now token type db =
      (or_throw token_invalid (find_verification_token prisma token type db) >>= unexpired now) db

  unfoldable pub verify_password : Env → ℕ → Text → Db → Bool
  verify_password env user_id password db =
      passes env password (hash_of (find_email_account_by_user_id prisma user_id db))
