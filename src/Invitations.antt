-- ===== src/Invitations.antt =====
-- apps/api/src/modules/invitations. This file is invitations.repository.ts, the lookups of
-- apps/api/src/modules/users/users.repository.ts that it needs, and the link of open invitations to a
-- new account of apps/api/src/modules/auth/auth.repository.ts; `Operations` is
-- invitations.service.ts.
pub mod Operations
pub mod Moves
pub mod Steps
pub mod Requests
pub mod Grants
pub mod Roles
pub mod Tests
use veervrat_app.Base.{
  ℕ, ◌+◌, ◌*◌, Bool, true, false, ◌&&◌, ◌||◌, not, Option, none, some, List, [], ◌∷◌, ◌==◌, is_id,
  is_some, some_of, filter_by, find_in, update_where, update_one, order_by, if◌then◌else◌,
}
use veervrat_app.Model.{
  Role, vratmitra, role_eq, InvitationType, platform, vm_global, vm_journey, is_vm_global,
  InvitationStatus, pending, is_pending, User, UserRole, Invitation, Text, text_eq, Db, Service,
  throw, return, modify, unique_violation, record_not_found, Prisma,
}

abbrev pub days_ms : ℕ → ℕ
days_ms days = days * 24 * 60 * 60 * 1000

abbrev pub expiry_days_for : InvitationType → ℕ
expiry_days_for platform = 30
expiry_days_for _ = 7

abbrev pub new_invitation :
    (fresh token now inviter_id : ℕ)
    → (invitee_email : Text) → (invitee_id : Option ℕ) → InvitationType
    → (scope_id : Option ℕ) → Invitation
new_invitation fresh token now inviter_id invitee_email invitee_id type scope_id = record {
  id = fresh;
  inviter_id = inviter_id;
  invitee_email = invitee_email;
  invitee_id = invitee_id;
  type = type;
  scope_id = scope_id;
  token = token;
  status = pending;
  expires_at = now + days_ms (expiry_days_for type);
  accepted_at = none;
  reminder_sent_at = none;
  created_at = now;
}

-- The column `token` is unique.
unfoldable pub create_invitation : Invitation → Service Invitation
create_invitation row db =
    if some_of (λ i. i.token == row.token) db.invitations
    then throw unique_violation db
    else return row (record db { invitations = row ∷ db.invitations })

-- `createMany` with `skipDuplicates`
abbrev pub holds : ℕ → Role → UserRole → Bool
holds user_id role r = r.user_id == user_id && role_eq r.role role

unfoldable pub grant_vratmitra_role : ℕ → Db → Db
grant_vratmitra_role user_id db =
    if some_of (holds user_id vratmitra) db.user_roles
    then db
    else record db { user_roles = record { user_id = user_id; role = vratmitra } ∷ db.user_roles }

unfoldable pub find_by_token : ℕ → Db → Option Invitation
find_by_token token db = find_in (λ i. i.token == token) db.invitations

unfoldable pub find_invitation : ℕ → Db → Option Invitation
find_invitation id db = find_in (λ i. i.id == id) db.invitations

-- `update({ where: { id }, data })`, where `data` is a change of the row
abbrev pub save_found : ℕ → (Invitation → Invitation) → Option Invitation → Service Invitation
save_found id change none db = throw record_not_found db
save_found id change (some row) db =
    return (change row)
      (record db { invitations = update_one (λ i. i.id == id) change db.invitations })

unfoldable pub save_invitation : ℕ → (Invitation → Invitation) → Service Invitation
save_invitation id change db = save_found id change (find_in (λ i. i.id == id) db.invitations) db

-- `updateStatus`; `acceptedAt` is given at an acceptance only
abbrev pub answered : InvitationStatus → Invitation → Invitation
answered status i = record i { status = status }

abbrev pub accepted_row : ℕ → Invitation → Invitation
accepted_row now i = record i { status = InvitationStatus.accepted; accepted_at = some now }

unfoldable pub update_invitation_status : ℕ → InvitationStatus → Service Invitation
update_invitation_status id status = save_invitation id (answered status)

unfoldable pub mark_accepted : (now id : ℕ) → Service Invitation
mark_accepted now id = save_invitation id (accepted_row now)

abbrev pub reminded_row : ℕ → Invitation → Invitation
reminded_row now i = record i { reminder_sent_at = some now }

unfoldable pub mark_reminder_sent : (now id : ℕ) → Service Invitation
mark_reminder_sent now id = save_invitation id (reminded_row now)

abbrev pub is_open_global : ℕ → Invitation → Bool
is_open_global inviter_id i =
    i.inviter_id == inviter_id && is_vm_global i.type && is_pending i.status

-- the newest first
abbrev pub newest : List Invitation → List Invitation
newest rows = from_last (order_by (λ i. i.created_at) rows) []
  where
    from_last : List Invitation → List Invitation → List Invitation
    from_last [] read = read
    from_last (i ∷ rows) read = from_last rows (i ∷ read)

unfoldable pub list_by_inviter : ℕ → Db → List Invitation
list_by_inviter inviter_id db = newest (filter_by (λ i. i.inviter_id == inviter_id) db.invitations)

-- `linkPendingInvitations` of auth.repository.ts
abbrev pub awaits : Text → Invitation → Bool
awaits email i = text_eq i.invitee_email email && not (is_some i.invitee_id) && is_pending i.status

unfoldable pub link_pending_invitations : ℕ → Text → Db → Db
link_pending_invitations user_id email db = record db {
  invitations =
      update_where (awaits email) (λ i. record i { invitee_id = some user_id }) db.invitations;
}

module _ (prisma : Prisma) where
  unfoldable pub find_pending_global_vm_by_inviter : ℕ → Db → Option Invitation
  find_pending_global_vm_by_inviter inviter_id db =
      prisma.find_first (is_open_global inviter_id) db.invitations

  -- `findByEmail` and `findByUsernameWithEmail` of users.repository.ts
  unfoldable pub find_by_email : Text → Db → Option User
  find_by_email email db =
      prisma.find_first (λ u. text_eq u.email email && not (is_some u.deleted_at)) db.users

  unfoldable pub find_by_username : Text → Db → Option User
  find_by_username username db =
      prisma.find_first (λ u. text_eq u.username username && not (is_some u.deleted_at)) db.users
