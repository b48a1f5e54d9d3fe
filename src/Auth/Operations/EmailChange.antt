-- ===== src/Auth/Operations/EmailChange.antt =====
-- A new address for an account: `requestEmailChange` and `confirmEmailChange`.
use veervrat_app.Base.{
  ℕ, ◌+◌, Bool, true, false, ◌&&◌, not, Option, none, some, ◌==◌, if◌then◌else◌,
}
use veervrat_app.Model.{
  User, SessionUser, AuthAccount, email_change, TokenMetadata, no_metadata, link_to, change_to,
  VerificationToken, Text, text_eq, Db, Service, throw, return, query, or_throw, require, modify,
  ◌>>=◌, ◌>>◌, entity_not_found, duplicate_entity, token_invalid, Prisma,
}
use veervrat_app.Model
use veervrat_app.Invitations.Operations.{truthy}
use veervrat_app.Auth.{
  Env, Draw, hours, normalised, user_of, find_user_by_id, to_session_user, email_in_use,
  find_email_account_by_address, release_identity_claims, set_pending_email, get_pending_email,
  apply_email_change, create_verification_token, invalidate_tokens_by_user_and_type,
  mark_token_used,
}
use veervrat_app.Auth.Operations.Access.{usable_token}
use veervrat_app.Auth.Operations.Signup.{is_deleted}
use veervrat_app.Auth.Operations.Settings.{assert_recently_authenticated}

-- an account of somebody else who is not deleted holds the address
abbrev pub is_live_claim : ℕ → Option AuthAccount → Db → Bool
is_live_claim user_id none db = false
is_live_claim user_id (some a) db =
    not (a.user_id == user_id) && not (is_deleted (user_of a.user_id db))

abbrev pub new_email_of : TokenMetadata → Option Text
new_email_of (change_to address) = truthy (some address)
new_email_of _ = none

module _ (prisma : Prisma) (env : Env) where
  abbrev pub request_checked : Draw → ℕ → (address : Text) → Service (Unit {0})
  request_checked draw user_id address = do
    taken ← query (email_in_use prisma address)
    require (not taken) duplicate_entity
    claimed ← query (λ db. is_live_claim user_id (find_email_account_by_address address db) db)
    require (not claimed) duplicate_entity
    set_pending_email user_id (some address)
    modify (invalidate_tokens_by_user_and_type draw.now user_id email_change)
    create_verification_token draw.token_id user_id draw.token email_change (draw.now + hours 1)
        (change_to address)
    return tt

  abbrev pub request_by :
      Draw
      → (session_id : ℕ) → (address : Text) → (password : Option Text) → User
      → Service (Unit {0})
  request_by draw session_id address password u = do
    assert_recently_authenticated prisma env draw.now u.id session_id password
    require (not (text_eq address (env.lower u.email))) duplicate_entity
    request_checked draw u.id address

  unfoldable pub request_email_change :
      Draw
      → (user_id session_id : ℕ) → (new_email : Text) → (password : Option Text)
      → Service (Unit {0})
  request_email_change draw user_id session_id new_email password db =
      (or_throw (entity_not_found Model.user user_id) (find_user_by_id user_id db)
          >>= request_by draw session_id (normalised env new_email) password)
        db

  -- the pending address, if the token was made for it
  abbrev pub intended : Option Text → Option Text → Option Text
  intended (some pending) (some address) =
      if text_eq (env.lower pending) (env.lower address) then some pending else none
  intended _ _ = none

  abbrev pub settle_claim : ℕ → Option AuthAccount → Service (Unit {0})
  settle_claim user_id none db = return tt db
  settle_claim user_id (some a) db = elim (a.user_id == user_id) [
    | true ↦ return tt db
    | false ↦ elim (is_deleted (user_of a.user_id db)) [
      | true ↦ modify (release_identity_claims a.user_id) db
      | false ↦ throw duplicate_entity db
    ]
  ]

  abbrev pub confirm_as : (now : ℕ) → VerificationToken → (address : Text) → Service SessionUser
  confirm_as now t address = do
    taken ← query (email_in_use prisma address)
    require (not taken) duplicate_entity
    claim ← query (find_email_account_by_address address)
    settle_claim t.user_id claim
    u ← apply_email_change t.user_id address
    mark_token_used now t.id
    query (to_session_user u)

  abbrev pub confirm_token : (now : ℕ) → VerificationToken → Service SessionUser
  confirm_token now t = do
    pending ← query (get_pending_email t.user_id)
    address ← or_throw token_invalid (intended (truthy pending) (new_email_of t.metadata))
    confirm_as now t address

  unfoldable pub confirm_email_change : (now token : ℕ) → Service SessionUser
  confirm_email_change now token = usable_token prisma now token email_change >>= confirm_token now
