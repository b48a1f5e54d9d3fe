-- ===== src/Invitations/Operations.antt =====
-- apps/api/src/modules/invitations/invitations.service.ts, without its mails and its two reads for
-- the invited person. `now` is the clock of
-- the call, `fresh` the id of a new row, `token` the random token; `lower` is `toLowerCase`.
use veervrat_app.Base.{
  ℕ, Bool, false, ◌&&◌, ◌||◌, not, Option, none, some, List, [], ◌∷◌, ◌==◌, is_some, ltb,
  if◌then◌else◌,
}
use veervrat_app.Model.{
  InvitationType, platform, vm_global, vm_journey, is_platform, InvitationStatus, declined,
  cancelled, is_pending, vm_invitation_received, vm_invitation_accepted, vm_invitation_declined,
  NotificationEventType, User, Invitation, VmRelationship, JourneyVmAssignment, SessionUser, Text,
  Db, Service, throw, return, query, or_throw, require, modify, ◌>>=◌, ◌>>◌, AppError,
  entity_not_found, access_denied, validation, invitation_expired, invitation_not_pending,
  invitation_not_cancellable, invitation_reminder_already_sent, pending_global_vm_invite, Prisma,
}
use veervrat_app.Model
use veervrat_app.Permissions.{
  PermissionAction, PermissionResource, vm_invitation_send, vm_invitation_accept,
  vm_invitation_cancel, vm_invitation_decline,
}
use veervrat_app.Permissions
use veervrat_app.Permissions.Check.{has_permission}
use veervrat_app.Journeys.{JourneyDetail, find_by_id}
use veervrat_app.Journeys.Operations.{notify}
use veervrat_app.VmRelationships.Operations.{create_from_global_invite, create_from_journey_invite}
use veervrat_app.Invitations.{
  new_invitation, create_invitation, grant_vratmitra_role, find_by_token, find_invitation,
  update_invitation_status, mark_accepted, mark_reminder_sent, list_by_inviter,
  find_pending_global_vm_by_inviter, find_by_email, find_by_username,
}

pub record SendInvitationDto : Type 0 where
  pub type : InvitationType
  pub invitee_email : Option Text
  pub invitee_username : Option Text
  pub scope_id : Option ℕ

-- a text that is given and not empty, as a condition takes it
abbrev pub truthy : Option Text → Option Text
truthy none = none
truthy (some []) = none
truthy (some (c ∷ t)) = some (c ∷ t)

abbrev pub id_of : Option User → Option ℕ
id_of none = none
id_of (some u) = some u.id

abbrev pub scope_of : SendInvitationDto → Option ℕ
scope_of dto = if is_platform dto.type then none else dto.scope_id

-- the invited account is told, unless the invitation is to the platform
abbrev pub tell_invitee : Option User → SessionUser → InvitationType → ℕ → Db → Db
tell_invitee none user type id db = db
tell_invitee (some u) user platform id db = db
tell_invitee (some u) user _ id db = notify u.id (some user.id) vm_invitation_received id db

module _ (prisma : Prisma) (lower : Text → Text) where
  -- the exception's text, which names the username, is left out
  abbrev pub email_of : Option User → Service Text
  email_of none = throw (entity_not_found Model.user 0)
  email_of (some u) = return u.email

  abbrev pub given_email : Option Text → Service Text
  given_email none = throw access_denied
  given_email (some email) = return (lower email)

  abbrev pub resolve_from : Option Text → Option Text → Service Text
  resolve_from (some username) email db = email_of (find_by_username prisma (lower username) db) db
  resolve_from none email db = given_email email db

  unfoldable pub resolve_invitee_email : SendInvitationDto → Service Text
  resolve_invitee_email dto = resolve_from (truthy dto.invitee_username) (truthy dto.invitee_email)

  -- `if (!journey || journey.vratarthiId !== user.id) throw`
  abbrev pub owned : SessionUser → Option JourneyDetail → Bool
  owned user none = false
  owned user (some d) = d.row.vratarthi_id == user.id

  abbrev pub owns_scope : SessionUser → Option ℕ → Db → Bool
  owns_scope user none db = false
  owns_scope user (some id) db = owned user (find_by_id prisma id db)

  -- the conditions on a type of invitation
  abbrev pub check_scope : SessionUser → SendInvitationDto → InvitationType → Service (Unit {0})
  check_scope user dto platform db = return tt db
  check_scope user dto vm_global db =
      require (not (is_some (find_pending_global_vm_by_inviter prisma user.id db)))
        pending_global_vm_invite db
  check_scope user dto vm_journey db = require (owns_scope user dto.scope_id db) access_denied db

  abbrev pub create_for :
      (fresh token now : ℕ)
      → SessionUser
      → SendInvitationDto
      → Text
      → Option User
      → Service Invitation
  create_for fresh token now user dto email invitee = do
    invitation ←
        create_invitation
          (new_invitation fresh token now user.id email (id_of invitee) dto.type (scope_of dto))
    modify (tell_invitee invitee user dto.type fresh)
    return invitation

  abbrev pub send_to :
      (fresh token now : ℕ) → SessionUser → SendInvitationDto → Text → Service Invitation
  send_to fresh token now user dto email = do
    check_scope user dto dto.type
    invitee ← query (find_by_email prisma email)
    create_for fresh token now user dto email invitee

  unfoldable pub send_vm_invitation :
      (fresh token now : ℕ) → SessionUser → SendInvitationDto → Service Invitation
  send_vm_invitation fresh token now user dto = do
    require
        (is_platform dto.type
          || has_permission user (Permissions.PermissionResource.platform none none)
              vm_invitation_send)
        access_denied
    require (not (is_platform dto.type && is_some (truthy dto.invitee_username))) validation
    email ← resolve_invitee_email dto
    send_to fresh token now user dto email

-- `findById` or `findByToken`, and the exception without a row
abbrev pub invitation_or_throw : ℕ → Option Invitation → Service Invitation
invitation_or_throw id o = or_throw (entity_not_found Model.invitation id) o

abbrev pub remind_found : (now : ℕ) → SessionUser → ℕ → Invitation → Service Invitation
remind_found now user id i = do
  require (i.inviter_id == user.id) access_denied
  require (is_pending i.status) invitation_not_pending
  require (not (is_some i.reminder_sent_at)) invitation_reminder_already_sent
  mark_reminder_sent now id

unfoldable pub send_reminder : (now : ℕ) → SessionUser → ℕ → Service Invitation
send_reminder now user id db =
    (invitation_or_throw id (find_invitation id db) >>= remind_found now user id) db

abbrev pub may_answer : SessionUser → Invitation → PermissionAction → Bool
may_answer user i action =
    has_permission user
      (Permissions.PermissionResource.invitation
        (record { inviter_id = i.inviter_id; invitee_id = i.invitee_id }))
      action

-- The relationship that an accepted invitation makes, and the role after it.
abbrev pub relate_journey : (fresh now : ℕ) → SessionUser → Option ℕ → Service (Unit {0})
relate_journey fresh now user none = return tt
relate_journey fresh now user (some journey_id) = do
  create_from_journey_invite fresh journey_id user.id now
  return tt

abbrev pub relate : (fresh now : ℕ) → SessionUser → Invitation → InvitationType → Service (Unit {0})
relate fresh now user i platform = return tt
relate fresh now user i vm_global = do
  create_from_global_invite fresh i.inviter_id user.id now
  modify (grant_vratmitra_role user.id)
relate fresh now user i vm_journey = do
  relate_journey fresh now user i.scope_id
  modify (grant_vratmitra_role user.id)

abbrev pub accept_now : (fresh now : ℕ) → SessionUser → Invitation → Service Invitation
accept_now fresh now user i = do
  accepted ← mark_accepted now i.id
  relate fresh now user i i.type
  modify (notify i.inviter_id (some user.id) vm_invitation_accepted i.id)
  return accepted

abbrev pub accept_found : (fresh now : ℕ) → SessionUser → Invitation → Service Invitation
accept_found fresh now user i = do
  require (may_answer user i vm_invitation_accept) access_denied
  require (not (ltb i.expires_at now)) invitation_expired
  require (is_pending i.status) invitation_not_pending
  accept_now fresh now user i

unfoldable pub accept_invitation : (fresh now : ℕ) → SessionUser → (token : ℕ) → Service Invitation
accept_invitation fresh now user token db =
    (invitation_or_throw token (find_by_token token db) >>= accept_found fresh now user) db

abbrev pub decline_now : SessionUser → Invitation → Service Invitation
decline_now user i = do
  updated ← update_invitation_status i.id declined
  modify (notify i.inviter_id (some user.id) vm_invitation_declined i.id)
  return updated

abbrev pub decline_found : SessionUser → Invitation → Service Invitation
decline_found user i = do
  require (may_answer user i vm_invitation_decline) access_denied
  require (is_pending i.status) invitation_not_pending
  decline_now user i

unfoldable pub decline_invitation : SessionUser → (token : ℕ) → Service Invitation
decline_invitation user token db =
    (invitation_or_throw token (find_by_token token db) >>= decline_found user) db

abbrev pub cancel_found : SessionUser → Invitation → Service Invitation
cancel_found user i = do
  require (may_answer user i vm_invitation_cancel) access_denied
  require (is_pending i.status) invitation_not_cancellable
  update_invitation_status i.id cancelled

unfoldable pub cancel_invitation : SessionUser → ℕ → Service Invitation
cancel_invitation user id db =
    (invitation_or_throw id (find_invitation id db) >>= cancel_found user) db

unfoldable pub list_invitations : SessionUser → Service (List Invitation)
list_invitations user = query (list_by_inviter user.id)
