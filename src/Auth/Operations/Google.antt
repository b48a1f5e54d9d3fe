-- ===== src/Auth/Operations/Google.antt =====
-- Signing in with Google: `handleGoogleLogin`, `linkGoogleAccount`, `reauthenticateWithGoogle`.
use veervrat_app.Base.{ℕ, ◌+◌, Bool, true, false, not, Option, none, some, [], ◌∷◌, ◌==◌, is_some}
use veervrat_app.Model.{
  User, AuthProvider, AuthAccount, google_link, TokenMetadata, link_to, VerificationToken,
  PendingSignup, Text, Service, throw, return, query, or_throw, require, modify, ◌>>=◌, ◌>>◌,
  token_invalid, invalid_credentials, account_suspended, account_deleted, signup_required, underage,
  record_not_found, Prisma,
}
use veervrat_app.Auth.{
  Env, Draw, minutes, normalised, meets_minimum_age, user_of, to_session_user, find_user_by_email,
  find_auth_account, find_email_account_by_user_id, release_identity_claims, add_auth_account,
  create_user_with_oauth_account, create_verification_token, invalidate_tokens_by_user_and_type,
  mark_token_used, mark_email_verified, consume_pending_signup, mark_session_reauthenticated,
}
use veervrat_app.Auth.Operations.Access.{AuthResult, create_session, hash_of, passes, usable_token}
use veervrat_app.Auth.Operations.Signup.{claim_username}

pub record GoogleProfile : Type 0 where
  pub google_id : Text
  pub email : Text
  pub email_verified : Bool

pub data GoogleAnswer : Type 0 where
  logged_in : AuthResult → GoogleAnswer
  link_pending : (token : ℕ) → GoogleAnswer

-- a field that a rebuilt token has to have: a Google id that is not empty
abbrev pub linked_id : TokenMetadata → Option (Text × Bool)
linked_id (link_to [] verified) = none
linked_id (link_to (c ∷ t) verified) = some (c ∷ t, verified)
linked_id _ = none

module _ (prisma : Prisma) (env : Env) where
  abbrev pub session_for : Draw → User → Service AuthResult
  session_for draw u = do
    session_token ← create_session env draw u.id
    user ← query (to_session_user u)
    return (record { user = user; session_token = session_token })

  abbrev pub log_in : Draw → User → Service GoogleAnswer
  log_in draw u = session_for draw u >>= λ a. return (logged_in a)

  -- the branch that creates a user
  abbrev pub sign_up :
      Draw
      → (hex : Text) → GoogleProfile
      → (address : Text) → Option PendingSignup
      → Service GoogleAnswer
  sign_up draw hex profile address none = throw signup_required
  sign_up draw hex profile address (some p) = do
    require (meets_minimum_age env p.dob draw.now) underage
    name ← query (claim_username prisma env hex p.username)
    u ←
        create_user_with_oauth_account draw.user_id draw.account_id draw.now address name
          AuthProvider.google profile.google_id p.dob p.consents
    log_in draw u

  abbrev pub consume_given : (now : ℕ) → Option ℕ → Service (Option PendingSignup)
  consume_given now none = return none
  consume_given now (some id) = consume_pending_signup now id

  -- an account with a password may be linked, once the password was given
  abbrev pub ask_to_link : Draw → GoogleProfile → User → Service GoogleAnswer
  ask_to_link draw profile u = do
    modify (invalidate_tokens_by_user_and_type draw.now u.id google_link)
    create_verification_token draw.token_id u.id draw.token google_link (draw.now + minutes 15)
        (link_to profile.google_id profile.email_verified)
    return (link_pending draw.token)

  abbrev pub unknown_google :
      Draw
      → (hex : Text) → GoogleProfile
      → (address : Text) → (pending_id : Option ℕ) → Option User
      → Service GoogleAnswer
  unknown_google draw hex profile address pending_id (some u) = ask_to_link draw profile u
  unknown_google draw hex profile address pending_id none =
      consume_given draw.now pending_id >>= sign_up draw hex profile address

  abbrev pub without_account :
      Draw → (hex : Text) → GoogleProfile → (pending_id : Option ℕ) → Service GoogleAnswer
  without_account draw hex profile pending_id db =
      let address = normalised env profile.email in
      unknown_google draw hex profile address pending_id (find_user_by_email prisma address db) db

  abbrev pub deleted_account :
      Draw
      → (hex : Text) → GoogleProfile
      → (pending_id : Option ℕ) → (user_id deleted_at : ℕ) → Service GoogleAnswer
  deleted_account draw hex profile none user_id deleted_at = throw (account_deleted deleted_at)
  deleted_account draw hex profile (some id) user_id deleted_at =
      modify (release_identity_claims user_id) >> without_account draw hex profile (some id)

  abbrev pub live_account : Draw → User → Service GoogleAnswer
  live_account draw u = require (not (is_some u.suspended_at)) account_suspended >> log_in draw u

  abbrev pub with_account :
      Draw
      → (hex : Text) → GoogleProfile
      → (pending_id : Option ℕ) → User
      → Option ℕ
      → Service GoogleAnswer
  with_account draw hex profile pending_id u none = live_account draw u
  with_account draw hex profile pending_id u (some deleted_at) =
      deleted_account draw hex profile pending_id u.id deleted_at

  abbrev pub google_user :
      Draw
      → (hex : Text) → GoogleProfile
      → (pending_id : Option ℕ) → Option User
      → Service GoogleAnswer
  google_user draw hex profile pending_id none = throw record_not_found
  google_user draw hex profile pending_id (some u) =
      with_account draw hex profile pending_id u u.deleted_at

  abbrev pub google_account :
      Draw
      → (hex : Text) → GoogleProfile
      → (pending_id : Option ℕ) → Option AuthAccount
      → Service GoogleAnswer
  google_account draw hex profile pending_id none db =
      without_account draw hex profile pending_id db
  google_account draw hex profile pending_id (some a) db =
      google_user draw hex profile pending_id (user_of a.user_id db) db

  unfoldable pub handle_google_login :
      Draw → (hex : Text) → GoogleProfile → (pending_id : Option ℕ) → Service GoogleAnswer
  handle_google_login draw hex profile pending_id db =
      google_account draw hex profile pending_id
        (find_auth_account AuthProvider.google profile.google_id db) db

  abbrev pub verify_if : (now user_id : ℕ) → Bool → Service (Unit {0})
  verify_if now user_id true = mark_email_verified now user_id >>= λ u. return tt
  verify_if now user_id false = return tt

  abbrev pub link_as : Draw → VerificationToken → Text × Bool → Service AuthResult
  link_as draw t (google_id, email_verified) = do
    add_auth_account draw.account_id t.user_id AuthProvider.google google_id
    mark_token_used draw.now t.id
    verify_if draw.now t.user_id email_verified
    u ← query (user_of t.user_id)
    owner ← or_throw record_not_found u
    session_for draw owner

  abbrev pub link_with : Draw → (password : Text) → VerificationToken → Service AuthResult
  link_with draw password t = do
    account ← query (find_email_account_by_user_id prisma t.user_id)
    require (passes env password (hash_of account)) invalid_credentials
    id ← or_throw token_invalid (linked_id t.metadata)
    link_as draw t id

  unfoldable pub link_google_account : Draw → (token : ℕ) → (password : Text) → Service AuthResult
  link_google_account draw token password =
      usable_token prisma draw.now token google_link >>= link_with draw password

abbrev pub reauthenticate_account : (now user_id session_id : ℕ) → Option AuthAccount → Service Bool
reauthenticate_account now user_id session_id none = return false
reauthenticate_account now user_id session_id (some a) = elim (a.user_id == user_id) [
  | true ↦ mark_session_reauthenticated now session_id >>= λ s. return true
  | false ↦ return false
]

unfoldable pub reauthenticate_with_google :
    (now user_id session_id : ℕ) → (google_id : Text) → Service Bool
reauthenticate_with_google now user_id session_id google_id db =
    reauthenticate_account now user_id session_id
      (find_auth_account AuthProvider.google google_id db) db
