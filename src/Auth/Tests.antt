-- ===== src/Auth/Tests.antt =====
-- Accounts, logins and tokens on a small database.
use veervrat_app.Base.{
  ◌≡◌, ◌≤◌, ◌≢◌, ◌⊎◌, refl, true, false, none, some, List, [], ◌∷◌, some_of, filter_by, find_in,
  count_of, update_where, update_one, delete_one, length, arith,
}
use veervrat_app.Model.{
  User, Text, text_eq, text_eq_refl, AuthProvider, AuthAccount, Session, PolicyVersion,
  password_reset, no_metadata, VerificationToken, Db, ok, err, in_order, reauthentication_required,
}
use veervrat_app.Tiptap.PlainText.{trim_end, trim_start, is_space}
use veervrat_app.Journeys.Tests.{base}
use veervrat_app.Follows.Tests.{guide}
use veervrat_app.Auth.{
  Env, Draw, find_lockout, is_usable, check_lockout, record_failed_login, clear_lockout,
  to_session_user, insert_session, find_session_by_token, list_auth_accounts, delete_auth_account,
  outstanding_consents, sort_keys, current_policy_versions, highest, find_consents,
  find_user_by_email, find_email_account_by_user_id, find_verification_token,
  consume_session_reauthentication, create_verification_token, insert_token,
  invalidate_tokens_by_user_and_type, find_auth_account, meets_minimum_age, release_identity_claims,
  unlocked,
}
use veervrat_app.Auth.Operations.Access.{create_session, verify_password}
use veervrat_app.Auth.Operations.Login.{login, validate_session}
use veervrat_app.Auth.Operations.Signup.{
  register, claim_username, is_free, find_user_by_username, try_variants,
}
use veervrat_app.Auth.Operations.Google.{GoogleProfile, handle_google_login}
use veervrat_app.Auth.Operations.Recovery.{forgot_password, reset_password, reset_sent}
use veervrat_app.Auth.Operations.Settings.{
  is_login_method, disconnect_account, assert_recently_authenticated,
}
use veervrat_app.Auth.Operations.Onboarding.{outstanding_of, accept_outstanding_consents}
use veervrat_app.Auth.Methods.{
  disconnect_account-is_login_method, assert_recently_authenticated-once,
}
use veervrat_app.Auth.Consenting.{accept_outstanding_consents-outstanding_of}
use veervrat_app.Auth.Renewal.{forgot_password-count}
use veervrat_app.Auth.Names.{claim_username-is_free}
use veervrat_app.Auth.Sessions.{IsOpen, validate_session-IsOpen, login-validate_session}
use veervrat_app.Auth.Reset.{IsResettable, reset_password-verify_password}
use veervrat_app.Auth.Attempts.{attempt_all, AreRefused, ten_failures-login}
use veervrat_app.Auth.Gate.{Gated, register-Gated}

service : Unit {0}
unfolding some_of find_in filter_by count_of update_where update_one delete_one text_eq find_lockout
    check_lockout record_failed_login clear_lockout insert_session find_session_by_token
    list_auth_accounts delete_auth_account find_user_by_email find_email_account_by_user_id
    find_verification_token consume_session_reauthentication create_verification_token insert_token
    invalidate_tokens_by_user_and_type find_auth_account meets_minimum_age release_identity_claims
    create_session verify_password login validate_session register claim_username
    find_user_by_username try_variants handle_google_login forgot_password disconnect_account
    assert_recently_authenticated outstanding_of accept_outstanding_consents trim_end trim_start
    is_space outstanding_consents sort_keys current_policy_versions highest find_consents
service = tt

marked : (password : Text) → 1 ∷ password ≢ []
marked password e = absurd (ground (arith, e))

-- a hash that only puts a mark before the password, and dates that are years
abbrev env : Env
env = record {
  hash = λ salt password. 1 ∷ password;
  compare = λ password hashed. text_eq (1 ∷ password) hashed;
  compare-hash = λ salt password. text_eq_refl (1 ∷ password);
  hash-nonempty = λ salt password. marked password;
  lower = λ t. t;
  locale_le = λ s t. true;
  utc_full_year = λ t. t;
  utc_month = λ t. 0;
  utc_date = λ t. 0;
  utc = λ year month day. year;
  session_ttl_days = 30;
}

abbrev draw : Draw
draw = record {
  now = 2025;
  user_id = 70;
  account_id = 71;
  token_id = 72;
  token = 73;
  session_id = 74;
  session_token = 75;
  salt = 76;
}

abbrev address : Text
address = 97 ∷ []

abbrev owner : User
owner = record guide { email_verified_at = some 2020 }

abbrev with_password : AuthAccount
with_password = record {
  id = 60;
  user_id = 2;
  provider = AuthProvider.email;
  provider_account_id = address;
  password_hash = some (1 ∷ 50 ∷ []);
}

abbrev with_google : AuthAccount
with_google = record {
  id = 61;
  user_id = 2;
  provider = AuthProvider.google;
  provider_account_id = 103 ∷ [];
  password_hash = none;
}

abbrev mailed : VerificationToken
mailed = record {
  id = 62;
  user_id = 2;
  token = 63;
  type = password_reset;
  expires_at = 3000;
  used_at = none;
  metadata = no_metadata;
}

abbrev open_session : Session
open_session = record {
  id = 64;
  user_id = 2;
  token = 65;
  expires_at = 3000;
  last_active_at = 2020;
  reauthenticated_at = some 2020;
}

abbrev terms : PolicyVersion
terms = record { document_key = 116 ∷ []; version = 2 }

abbrev db : Db
db = record base {
  users = owner ∷ [];
  auth_accounts = with_password ∷ with_google ∷ [];
  verification_tokens = mailed ∷ [];
  sessions = open_session ∷ [];
  cms_pages = terms ∷ [];
}

service_tests :
    ((login in_order env draw address (50 ∷ []) db).0
      ≡ ok (record { user = record { id = 2; roles = [] }; session_token = 75 }))
    × (is_free in_order env (98 ∷ []) db ≡ false)
    × (claim_username in_order env [] (98 ∷ []) db ≡ 98 ∷ 95 ∷ 50 ∷ [])
    × (outstanding_of env ((116 ∷ []) ∷ []) 2 db ≡ terms ∷ [])
unfolding service
service_tests = (refl, refl, refl, refl)

disconnect_account-is_login_method_example :
    some_of is_login_method (list_auth_accounts 2 (disconnect_account 2 AuthProvider.google db).1)
    ≡ true
unfolding service
disconnect_account-is_login_method_example =
    disconnect_account-is_login_method 2 AuthProvider.google db refl

assert_recently_authenticated-once_example :
    (assert_recently_authenticated in_order env 2026 2 64 none
      (assert_recently_authenticated in_order env 2025 2 64 none db).1).0
    ≡ err reauthentication_required
unfolding service
assert_recently_authenticated-once_example =
    assert_recently_authenticated-once in_order env 2025 2026 2 2 64 db (omega arith) refl

accept_outstanding_consents-outstanding_of_example :
    outstanding_of env
      ((116 ∷ []) ∷ [])
      2
      (accept_outstanding_consents env ((116 ∷ []) ∷ []) 2 db).1
    ≡ []
accept_outstanding_consents-outstanding_of_example =
    accept_outstanding_consents-outstanding_of env ((116 ∷ []) ∷ []) 2 db

forgot_password-count_example :
    count_of
      (is_usable 2 password_reset)
      (forgot_password in_order env draw address db).1.verification_tokens
    ≡ 1
unfolding service
forgot_password-count_example =
    forgot_password-count in_order env draw address owner reset_sent db refl refl

claim_username-is_free_example :
    length (claim_username in_order env (48 ∷ 48 ∷ 48 ∷ 48 ∷ 48 ∷ 48 ∷ []) (98 ∷ []) db) ≤ 30
claim_username-is_free_example =
    (claim_username-is_free in_order env (98 ∷ []) db (48 ∷ 48 ∷ 48 ∷ 48 ∷ 48 ∷ 48 ∷ [])
      (ground arith) (ground arith)).0

validate_session-IsOpen_example :
    ((s : Session) × (u : User) × IsOpen 2025 65 db s u
      × ((validate_session env 2025 65 db).0
          ≡ ok (some (record { user = to_session_user u db; session_id = s.id }))))
    ⊎ (((validate_session env 2025 65 db).0 ≡ ok none)
        × (find_session_by_token 65 (validate_session env 2025 65 db).1 ≡ none))
validate_session-IsOpen_example = validate_session-IsOpen env 2025 65 db

login-validate_session_example :
    (validate_session env 2026 75 (login in_order env draw address (50 ∷ []) db).1).0
    ≡ ok (some (record { user = record { id = 2; roles = [] }; session_id = 74 }))
unfolding service
login-validate_session_example =
    (login-validate_session in_order env draw address (50 ∷ []) db
      (record { user = record { id = 2; roles = [] }; session_token = 75 }) 2026 (tt, tt)
      (omega arith) refl).1

resettable : IsResettable in_order 2025 63 db mailed owner with_password
unfolding service
resettable = record {
  found = refl;
  unexpired = omega arith;
  user = refl;
  account = refl;
  only = ((λ _. refl), ((λ e. absurd (ground (arith, e))), tt));
  tokens = ((λ _. refl), tt);
  accounts_keyed = ((ground arith, tt), (tt, tt));
  tokens_keyed = (tt, tt);
}

reset_password-verify_password_example :
    verify_password in_order env 2 (51 ∷ []) (reset_password in_order env draw 63 (51 ∷ []) db).1
    ≡ true
reset_password-verify_password_example =
    (reset_password-verify_password in_order env draw 63 (51 ∷ []) db mailed owner with_password
      resettable).1

-- a wrong password, again and again at the same time
abbrev wrong : Draw × Text
wrong = (draw, 49 ∷ [])

abbrev nine_more : List (Draw × Text)
nine_more = wrong ∷ wrong ∷ wrong ∷ wrong ∷ wrong ∷ wrong ∷ wrong ∷ wrong ∷ wrong ∷ []

nine_more-AreRefused : AreRefused in_order env address (wrong ∷ nine_more) db
unfolding service
nine_more-AreRefused =
    (refl, (refl, (refl, (refl, (refl, (refl, (refl, (refl, (refl, (refl, tt))))))))))

ten_failures-login_example :
    check_lockout 902025 address (attempt_all in_order env address (wrong ∷ nine_more) db)
    ≡ unlocked
unfolding service
ten_failures-login_example =
    (ten_failures-login in_order env draw (49 ∷ []) nine_more address db (ground arith)
        (ground arith) nine_more-AreRefused refl).1
      902025 (omega arith)

abbrev profile : GoogleProfile
profile = record { google_id = 120 ∷ []; email = 121 ∷ []; email_verified = true }

register-Gated_example :
    Gated env 2025 db (register in_order env draw (121 ∷ []) (50 ∷ []) (122 ∷ []) 2000 [] db).1
    × Gated env 2025 db (handle_google_login in_order env draw [] profile none db).1
register-Gated_example =
    register-Gated in_order env draw (121 ∷ []) (50 ∷ []) (122 ∷ []) [] 2000 [] profile none db
