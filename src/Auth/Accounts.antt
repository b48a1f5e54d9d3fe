-- ===== src/Auth/Accounts.antt =====
-- The users and their ways to sign in: auth.repository.ts.
use veervrat_app.Base.{
  ℕ, Bool, ◌&&◌, ◌||◌, not, Option, none, some, List, ◌∷◌, ◌++◌, map, ◌==◌, is_some, some_of,
  filter_by, find_in, update_one, update_where, delete_one, if◌then◌else◌,
}
use veervrat_app.Model.{
  Role, vratarthi, User, UserRole, SessionUser, AuthProvider, provider_eq, AuthAccount,
  PolicyVersion, UserConsent, Text, text_eq, Db, Service, throw, return, record_not_found,
  unique_violation, Prisma,
}
use veervrat_app.Invitations.{link_pending_invitations}

abbrev pub role_of : UserRole → Role
role_of r = r.role

-- `toSessionUser`, without the profile
abbrev pub to_session_user : User → Db → SessionUser
to_session_user u db = record {
  id = u.id;
  roles = map role_of (filter_by (λ r. r.user_id == u.id) db.user_roles);
}

unfoldable pub find_user_by_id : ℕ → Db → Option User
find_user_by_id id db = find_in (λ u. u.id == id && not (is_some u.deleted_at)) db.users

-- the relation `user` of a row
abbrev pub user_of : ℕ → Db → Option User
user_of id db = find_in (λ u. u.id == id) db.users

-- `update({ where: { id }, data })`, where `data` is a change of the row
abbrev pub save_user_found : ℕ → (User → User) → Option User → Service User
save_user_found id change none db = throw record_not_found db
save_user_found id change (some u) db =
    return (change u) (record db { users = update_one (λ x. x.id == id) change db.users })

unfoldable pub save_user : ℕ → (User → User) → Service User
save_user id change db = save_user_found id change (user_of id db) db

-- The accounts of a user.
abbrev pub is_of : ℕ → AuthProvider → AuthAccount → Bool
is_of user_id provider a = a.user_id == user_id && provider_eq a.provider provider

abbrev pub is_claim : AuthProvider → Text → AuthAccount → Bool
is_claim provider name a = provider_eq a.provider provider && text_eq a.provider_account_id name

unfoldable pub find_auth_account : AuthProvider → Text → Db → Option AuthAccount
find_auth_account provider name db = find_in (is_claim provider name) db.auth_accounts

unfoldable pub find_email_account_by_address : Text → Db → Option AuthAccount
find_email_account_by_address address = find_auth_account AuthProvider.email address

-- The pair of provider and name is unique.
unfoldable pub insert_account : AuthAccount → Service AuthAccount
insert_account row db =
    if some_of (is_claim row.provider row.provider_account_id) db.auth_accounts
    then throw unique_violation db
    else return row (record db { auth_accounts = row ∷ db.auth_accounts })

abbrev pub new_account :
    (fresh user_id : ℕ) → AuthProvider → Text → (password_hash : Option Text) → AuthAccount
new_account fresh user_id provider name password_hash = record {
  id = fresh;
  user_id = user_id;
  provider = provider;
  provider_account_id = name;
  password_hash = password_hash;
}

unfoldable pub create_email_account_with_password :
    (fresh user_id : ℕ) → Text → Text → Service AuthAccount
create_email_account_with_password fresh user_id address password_hash =
    insert_account (new_account fresh user_id AuthProvider.email address (some password_hash))

unfoldable pub add_auth_account : (fresh user_id : ℕ) → AuthProvider → Text → Service AuthAccount
add_auth_account fresh user_id provider name =
    insert_account (new_account fresh user_id provider name none)

abbrev pub with_hash : Text → AuthAccount → AuthAccount
with_hash password_hash a = record a { password_hash = some password_hash }

abbrev pub save_hash_found : (id : ℕ) → Text → Option AuthAccount → Service AuthAccount
save_hash_found id password_hash none db = throw record_not_found db
save_hash_found id password_hash (some a) db = return (with_hash password_hash a) (record db {
  auth_accounts = update_one (λ x. x.id == id) (with_hash password_hash) db.auth_accounts;
})

unfoldable pub update_password_hash : (id : ℕ) → Text → Service AuthAccount
update_password_hash id password_hash db =
    save_hash_found id password_hash (find_in (λ x. x.id == id) db.auth_accounts) db

unfoldable pub release_identity_claims : ℕ → Db → Db
release_identity_claims user_id db = record db {
  auth_accounts = filter_by (λ a. not (a.user_id == user_id)) db.auth_accounts;
}

unfoldable pub list_auth_accounts : ℕ → Db → List AuthAccount
list_auth_accounts user_id db = filter_by (λ a. a.user_id == user_id) db.auth_accounts

abbrev pub delete_account_found : (id : ℕ) → Option AuthAccount → Service (Unit {0})
delete_account_found id none db = throw record_not_found db
delete_account_found id (some a) db =
    return tt (record db { auth_accounts = delete_one (λ x. x.id == id) db.auth_accounts })

unfoldable pub delete_auth_account : (id : ℕ) → Service (Unit {0})
delete_auth_account id db = delete_account_found id (find_in (λ x. x.id == id) db.auth_accounts) db

-- The creation of a user with one account, consents and the role, in one statement, and then the
-- link of the open invitations.
abbrev pub consent_row : ℕ → PolicyVersion → UserConsent
consent_row user_id c = record {
  user_id = user_id;
  document_key = c.document_key;
  version = c.version;
}

abbrev pub clashes : User → AuthAccount → Db → Bool
clashes u a db =
    some_of (λ x. text_eq x.email u.email || text_eq x.username u.username) db.users
    || some_of (is_claim a.provider a.provider_account_id) db.auth_accounts

unfoldable pub create_user : User → AuthAccount → List PolicyVersion → Service User
create_user u a consents db =
    if clashes u a db
    then throw unique_violation db
    else return u (
        link_pending_invitations u.id u.email (record db {
          users = u ∷ db.users;
          auth_accounts = a ∷ db.auth_accounts;
          user_consents = map (consent_row u.id) consents ++ db.user_consents;
          user_roles = record { user_id = u.id; role = vratarthi } ∷ db.user_roles;
        }))

abbrev pub new_user : (fresh now : ℕ) → Text → Text → ℕ → Option ℕ → User
new_user fresh now address name dob verified_at = record {
  id = fresh;
  email = address;
  username = name;
  created_at = now;
  deleted_at = none;
  email_verified_at = verified_at;
  suspended_at = none;
  pending_email = none;
  dob = some dob;
  account_setup_completed_at = none;
  onboarding_completed_at = none;
}

unfoldable pub create_user_with_email_account :
    (fresh account_id now : ℕ)
    → (address name password_hash : Text) → (dob : ℕ) → List PolicyVersion
    → Service User
create_user_with_email_account fresh account_id now address name password_hash dob =
    create_user (new_user fresh now address name dob none)
      (new_account account_id fresh AuthProvider.email address (some password_hash))

unfoldable pub create_user_with_oauth_account :
    (fresh account_id now : ℕ)
    → (address name : Text) → AuthProvider
    → (provider_account_id : Text) → (dob : ℕ) → List PolicyVersion
    → Service User
create_user_with_oauth_account fresh account_id now address name provider provider_account_id dob =
    create_user (new_user fresh now address name dob (some now))
      (new_account account_id fresh provider provider_account_id none)

abbrev pub verified : ℕ → User → User
verified now u = record u { email_verified_at = some now }

unfoldable pub mark_email_verified : (now user_id : ℕ) → Service User
mark_email_verified now user_id = save_user user_id (verified now)

unfoldable pub set_pending_email : ℕ → Option Text → Service User
set_pending_email user_id address = save_user user_id (λ u. record u { pending_email = address })

abbrev pub pending_email_of : Option User → Option Text
pending_email_of none = none
pending_email_of (some u) = u.pending_email

unfoldable pub get_pending_email : ℕ → Db → Option Text
get_pending_email user_id db = pending_email_of (user_of user_id db)

-- One transaction of two updates; the address is unique in both tables.
abbrev pub moved_user : Text → User → User
moved_user address u = record u { email = address; pending_email = none }

abbrev pub moved_account : Text → AuthAccount → AuthAccount
moved_account address a = record a { provider_account_id = address }

-- another row has the address
abbrev pub is_taken : ℕ → Text → Db → Bool
is_taken user_id address db =
    some_of (λ x. text_eq x.email address && not (x.id == user_id)) db.users
    || some_of (is_of user_id AuthProvider.email) db.auth_accounts
      && some_of (λ a. is_claim AuthProvider.email address a && not (a.user_id == user_id))
          db.auth_accounts

abbrev pub apply_found : ℕ → Text → Option User → Service User
apply_found user_id address none db = throw record_not_found db
apply_found user_id address (some u) db =
    if is_taken user_id address db
    then throw unique_violation db
    else return (moved_user address u) (record db {
      users = update_one (λ x. x.id == user_id) (moved_user address) db.users;
      auth_accounts =
          update_where (is_of user_id AuthProvider.email) (moved_account address) db.auth_accounts;
    })

unfoldable pub apply_email_change : ℕ → Text → Service User
apply_email_change user_id address db = apply_found user_id address (user_of user_id db) db

unfoldable pub mark_account_setup_complete : (now user_id : ℕ) → (name : Option Text) → Service User
mark_account_setup_complete now user_id none =
    save_user user_id (λ u. record u { account_setup_completed_at = some now })
mark_account_setup_complete now user_id (some name) =
    save_user user_id (λ u. record u { account_setup_completed_at = some now; username = name })

unfoldable pub mark_onboarding_complete : (now user_id : ℕ) → Service User
mark_onboarding_complete now user_id =
    save_user user_id (λ u. record u { onboarding_completed_at = some now })

module _ (prisma : Prisma) where
  unfoldable pub find_user_by_email : Text → Db → Option User
  find_user_by_email address db =
      prisma.find_first (λ u. text_eq u.email address && not (is_some u.deleted_at)) db.users

  abbrev pub find_user_named : Text → Db → Option User
  find_user_named name db =
      prisma.find_first (λ u. text_eq u.username name && not (is_some u.deleted_at)) db.users

  unfoldable pub find_email_account_by_user_id : ℕ → Db → Option AuthAccount
  find_email_account_by_user_id user_id db =
      prisma.find_first (is_of user_id AuthProvider.email) db.auth_accounts

  unfoldable pub email_in_use : Text → Db → Bool
  email_in_use address db = is_some (prisma.find_first (λ u. text_eq u.email address) db.users)
