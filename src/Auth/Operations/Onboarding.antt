-- ===== src/Auth/Operations/Onboarding.antt =====
-- The first steps of an account and its consents: `completeOnboarding`, `completeFramework`,
-- `checkUsernameAvailability`, `getCurrentUser`, `outstandingConsents`, `acceptOutstandingConsents`.
use veervrat_app.Base.{
  ℕ, Bool, true, false, ◌&&◌, ◌||◌, not, Option, none, some, List, [], ◌∷◌, ◌==◌, leb, is_some,
  length, if◌then◌else◌,
}
use veervrat_app.Model.{
  User, SessionUser, PolicyVersion, Text, Db, Service, return, query, or_throw, require, modify,
  ◌>>=◌, ◌>>◌, duplicate_entity, entity_not_found, Prisma,
}
use veervrat_app.Model
use veervrat_app.Invitations.Operations.{truthy}
use veervrat_app.Auth.{
  Env, find_user_by_id, to_session_user, mark_account_setup_complete, mark_onboarding_complete,
  current_policy_versions, find_consents, record_consent, outstanding_consents,
}
use veervrat_app.Auth.Operations.Signup.{find_user_by_username}

-- `/^[a-z0-9_]{3,30}$/`
abbrev pub is_name_char : ℕ → Bool
is_name_char c = leb 97 c && leb c 122 || leb 48 c && leb c 57 || c == 95

abbrev pub are_name_chars : Text → Bool
are_name_chars [] = true
are_name_chars (c ∷ t) = is_name_char c && are_name_chars t

abbrev pub is_username : Text → Bool
is_username t = are_name_chars t && leb 3 (length t) && leb (length t) 30

pub data Availability : Type 0 where
  available invalid taken : Availability

module _ (prisma : Prisma) (env : Env) where
  -- `existing && existing.id !== userId`
  abbrev pub is_others : ℕ → Option User → Bool
  is_others user_id none = false
  is_others user_id (some u) = not (u.id == user_id)

  abbrev pub is_name_taken : ℕ → Option Text → Db → Bool
  is_name_taken user_id none db = false
  is_name_taken user_id (some name) db =
      is_others user_id (find_user_by_username prisma env name db)

  unfoldable pub complete_onboarding :
      (now user_id : ℕ) → (name : Option Text) → Service SessionUser
  complete_onboarding now user_id name = do
    clash ← query (is_name_taken user_id (truthy name))
    require (not clash) duplicate_entity
    u ← mark_account_setup_complete now user_id (truthy name)
    query (to_session_user u)

  unfoldable pub check_username_availability : Text → Db → Availability
  check_username_availability name db =
      if is_username name
      then if is_some (find_user_by_username prisma env name db) then taken else available
      else invalid

unfoldable pub complete_framework : (now user_id : ℕ) → Service SessionUser
complete_framework now user_id =
    mark_onboarding_complete now user_id >>= λ u. query (to_session_user u)

unfoldable pub get_current_user : ℕ → Service SessionUser
get_current_user user_id db =
    (or_throw (entity_not_found Model.user user_id) (find_user_by_id user_id db) >>= λ u.
    query (to_session_user u))
      db

unfoldable pub record_all : ℕ → List PolicyVersion → Db → Db
record_all user_id [] db = db
record_all user_id (p ∷ ps) db =
    record_all user_id ps (record_consent user_id p.document_key p.version db)

-- `keys` are the required documents, POLICY_KEYS.
module _ (env : Env) (keys : List Text) where
  unfoldable pub outstanding_of : ℕ → Db → List PolicyVersion
  outstanding_of user_id db =
      outstanding_consents env.locale_le (find_consents user_id db)
        (current_policy_versions keys db)

  unfoldable pub accept_outstanding_consents : ℕ → Service (List PolicyVersion)
  accept_outstanding_consents user_id db =
      let outstanding = outstanding_of user_id db in
      return outstanding (record_all user_id outstanding db)
