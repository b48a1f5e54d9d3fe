-- ===== src/Invitations/Steps.antt =====
-- Each request of invitations.service.ts as a step of the table of invitations.
use veervrat_app.Base.{
  ℕ, ◌≡◌, refl, sym, ◌∙◌, subst, inl, inr, Bool, ◌&&◌, ◌||◌, not, Option, none, some, ◌==◌, ltb,
  is_some, some_of, find_in, arith, Bool-cases, TableStep, unchanged, moved, added, IsKeyed,
  find-key,
}
use veervrat_app.Model.{
  InvitationType, platform, vm_global, vm_journey, is_platform, declined, cancelled, is_pending,
  vm_invitation_accepted, vm_invitation_declined, User, Journey, JourneyVmAssignment, Invitation,
  SessionUser, Text, Db, Service, Result, ok, err, throw, return, query, or_throw, require, modify,
  ◌>>=◌, ◌>>◌, AppError, entity_not_found, access_denied, validation, invitation_expired,
  invitation_not_pending, invitation_not_cancellable, invitation_reminder_already_sent,
  pending_global_vm_invite, Prisma, Outcome, guard-Outcome, found-Outcome, then-Outcome,
}
use veervrat_app.Model
use veervrat_app.Permissions.{
  vm_invitation_send, vm_invitation_accept, vm_invitation_cancel, vm_invitation_decline,
}
use veervrat_app.Permissions
use veervrat_app.Permissions.Check.{has_permission}
use veervrat_app.Journeys.Operations.{notify}
use veervrat_app.VmRelationships.{
  create_global_relationship, create_journey_assignment, assign_to, new_assignment, owner_of,
}
use veervrat_app.VmRelationships.Operations.{create_from_global_invite, create_from_journey_invite}
use veervrat_app.Invitations.{
  new_invitation, create_invitation, grant_vratmitra_role, find_by_token, find_invitation,
  save_invitation, answered, accepted_row, reminded_row, update_invitation_status, mark_accepted,
  mark_reminder_sent, find_pending_global_vm_by_inviter, find_by_email, find_by_username,
}
use veervrat_app.Invitations.Moves.{InvitationMove, IsNewInvitation}
use veervrat_app.Invitations.Operations.{
  SendInvitationDto, truthy, id_of, scope_of, email_of, tell_invitee, resolve_from,
  resolve_invitee_email, owns_scope, check_scope, create_for, send_to, send_vm_invitation,
  remind_found, send_reminder, may_answer, relate, relate_journey, accept_now, accept_found,
  accept_invitation, decline_now, decline_found, decline_invitation, cancel_found,
  cancel_invitation,
}

-- `IsNew` says what rows a request may add.
module _ (user : SessionUser) (IsNew : Invitation → Type 0) where
  abbrev pub Kept : Db → Db → Type 0
  Kept db db' = TableStep (InvitationMove user.id) IsNew db.invitations db'.invitations

  pub Kept_refl : (db : Db) → Kept db db
  Kept_refl db = unchanged refl

  -- a later write that leaves the invitations alone
  Kept-same : (db db' db'' : Db) → db''.invitations ≡ db'.invitations → Kept db db' → Kept db db''
  Kept-same db db' db'' same h =
      subst (TableStep (InvitationMove user.id) IsNew db.invitations) (sym same) h

  -- the call's outcome
  abbrev pub Steps : {B : Type 0} → Db → Result B × Db → Type 0
  Steps db = Outcome Kept Kept_refl db

  module _ (db : Db) (keyed : IsKeyed (λ (i : Invitation). i.id) db.invitations) where
    save-Steps :
        (p : Invitation → Bool) (i : Invitation) (change : Invitation → Invitation)
        → find_in p db.invitations ≡ some i
        → InvitationMove user.id i (change i)
        → Steps db (save_invitation i.id change db)
    unfolding save_invitation
    save-Steps p i change f m =
        let g = find-key (λ (i : Invitation). i.id) p db.invitations i keyed f in
        rw g (moved (λ x. x.id == i.id) i change g m refl)

    grant-same : (db' : Db) → (grant_vratmitra_role user.id db').invitations ≡ db'.invitations
    unfolding grant_vratmitra_role
    grant-same db' = ground arith

    -- what follows the mark of an acceptance
    abbrev finish : (fresh now : ℕ) → Invitation → InvitationType → Invitation → Service Invitation
    finish fresh now i type a =
        relate fresh now user i type
        >> (modify (notify i.inviter_id (some user.id) vm_invitation_accepted i.id) >> return a)

    abbrev Same : Db → Db → Type 0
    Same d d' = d'.invitations ≡ d.invitations

    assign_to-Same :
        (row : JourneyVmAssignment) (o : Option Journey) (db' : Db)
        → Same db' (assign_to row o db').1
    assign_to-Same row none db' = refl
    assign_to-Same row (some j) db' = refl

    relate_journey-Same :
        (fresh now : ℕ) (scope : Option ℕ) (db' : Db)
        → Same db' (relate_journey fresh now user scope db').1
    unfolding create_from_journey_invite create_journey_assignment
    relate_journey-Same fresh now none db' = refl
    relate_journey-Same fresh now (some id) db' =
        then-Outcome Same (λ d. refl) db' (create_from_journey_invite fresh id user.id now)
          (λ a. return tt) (λ a d h. h)
          (assign_to-Same (new_assignment fresh now id user.id) (owner_of id db'.journeys) db')

    relate-Same :
        (fresh now : ℕ) (i : Invitation) (type : InvitationType) (db' : Db)
        → Same db' (relate fresh now user i type db').1
    unfolding create_from_global_invite create_global_relationship
    relate-Same fresh now i platform db' = refl
    relate-Same fresh now i vm_global db' = grant-same _
    relate-Same fresh now i vm_journey db' =
        then-Outcome Same (λ d. refl) db' (relate_journey fresh now user i.scope_id)
          (λ a. modify (grant_vratmitra_role user.id)) (λ a d h. grant-same d ∙ h)
          (relate_journey-Same fresh now i.scope_id db')

    finish-Same :
        (fresh now : ℕ) (i : Invitation) (type : InvitationType) (a : Invitation) (db' : Db)
        → Same db' (finish fresh now i type a db').1
    finish-Same fresh now i type a db' =
        then-Outcome Same (λ d. refl) db' (relate fresh now user i type)
          (λ x. modify (notify i.inviter_id (some user.id) vm_invitation_accepted i.id) >> return a)
          (λ x d h. h) (relate-Same fresh now i type db')

    pub accept_invitation-Steps :
        (fresh now token : ℕ) → Steps db (accept_invitation fresh now user token db)
    unfolding accept_invitation find_by_token mark_accepted has_permission
    accept_invitation-Steps fresh now token =
        found-Outcome Kept Kept_refl db (entity_not_found Model.invitation token)
          (find_in (λ i. i.token == token) db.invitations) (accept_found fresh now user)
          (λ i f.
            guard-Outcome Kept Kept_refl db (may_answer user i vm_invitation_accept) access_denied
              (require (not (ltb i.expires_at now)) invitation_expired
                >> (require (is_pending i.status) invitation_not_pending
                    >> accept_now fresh now user i))
              (λ invited.
                guard-Outcome Kept Kept_refl db (not (ltb i.expires_at now)) invitation_expired
                  (require (is_pending i.status) invitation_not_pending
                    >> accept_now fresh now user i)
                  (λ in_time.
                    guard-Outcome Kept Kept_refl db (is_pending i.status) invitation_not_pending
                      (accept_now fresh now user i)
                      (λ unanswered.
                        then-Outcome Kept Kept_refl db (mark_accepted now i.id)
                          (finish fresh now i i.type)
                          (λ a db' h.
                            Kept-same db db' (finish fresh now i i.type a db').1
                              (finish-Same fresh now i i.type a db') h)
                          (save-Steps (λ i. i.token == token) i (accepted_row now) f
                            (InvitationMove.accept now (ground arith) (ground arith) (ground arith)
                              refl))))))

    pub decline_invitation-Steps : (token : ℕ) → Steps db (decline_invitation user token db)
    unfolding decline_invitation find_by_token update_invitation_status has_permission
    decline_invitation-Steps token =
        found-Outcome Kept Kept_refl db (entity_not_found Model.invitation token)
          (find_in (λ i. i.token == token) db.invitations) (decline_found user)
          (λ i f.
            guard-Outcome Kept Kept_refl db (may_answer user i vm_invitation_decline) access_denied
              (require (is_pending i.status) invitation_not_pending >> decline_now user i)
              (λ invited.
                guard-Outcome Kept Kept_refl db (is_pending i.status) invitation_not_pending
                  (decline_now user i)
                  (λ unanswered.
                    then-Outcome Kept Kept_refl db (update_invitation_status i.id declined)
                      (λ a.
                        modify (notify i.inviter_id (some user.id) vm_invitation_declined i.id)
                        >> return a)
                      (λ a db' h. h)
                      (save-Steps (λ i. i.token == token) i (answered declined) f
                        (InvitationMove.decline (ground arith) (ground arith) refl)))))

    pub cancel_invitation-Steps : (id : ℕ) → Steps db (cancel_invitation user id db)
    unfolding cancel_invitation find_invitation update_invitation_status has_permission
    cancel_invitation-Steps id =
        found-Outcome Kept Kept_refl db (entity_not_found Model.invitation id)
          (find_in (λ i. i.id == id) db.invitations) (cancel_found user)
          (λ i f.
            guard-Outcome Kept Kept_refl db (may_answer user i vm_invitation_cancel) access_denied
              (require (is_pending i.status) invitation_not_cancellable
                >> update_invitation_status i.id cancelled)
              (λ own.
                guard-Outcome Kept Kept_refl db (is_pending i.status) invitation_not_cancellable
                  (update_invitation_status i.id cancelled)
                  (λ unanswered.
                    save-Steps (λ i. i.id == id) i (answered cancelled) f
                      (InvitationMove.cancel (ground arith) (ground arith) refl))))

    pub send_reminder-Steps : (now id : ℕ) → Steps db (send_reminder now user id db)
    unfolding send_reminder find_invitation mark_reminder_sent save_invitation
    send_reminder-Steps now id =
        found-Outcome Kept Kept_refl db (entity_not_found Model.invitation id)
          (find_in (λ i. i.id == id) db.invitations) (remind_found now user id)
          (λ i f.
            guard-Outcome Kept Kept_refl db (i.inviter_id == user.id) access_denied
              (require (is_pending i.status) invitation_not_pending
                >> (require (not (is_some i.reminder_sent_at)) invitation_reminder_already_sent
                    >> mark_reminder_sent now id))
              (λ own.
                guard-Outcome Kept Kept_refl db (is_pending i.status) invitation_not_pending
                  (require (not (is_some i.reminder_sent_at)) invitation_reminder_already_sent
                    >> mark_reminder_sent now id)
                  (λ unanswered.
                    guard-Outcome Kept Kept_refl db (not (is_some i.reminder_sent_at))
                      invitation_reminder_already_sent (mark_reminder_sent now id)
                      (λ first. rw f (
                        moved (λ x. x.id == id) i (reminded_row now) f
                          (InvitationMove.remind now (ground arith) (ground arith) (ground arith)
                            refl)
                          refl)))))

  module _ (prisma : Prisma) (lower : Text → Text) (db : Db) where
    tell_invitee-same :
        (o : Option User) (type : InvitationType) (id : ℕ) (db' : Db)
        → (tell_invitee o user type id db').invitations ≡ db'.invitations
    tell_invitee-same none type id db' = refl
    tell_invitee-same (some u) platform id db' = refl
    tell_invitee-same (some u) vm_global id db' = refl
    tell_invitee-same (some u) vm_journey id db' = refl

    user-Steps :
        {B : Type 0} (o : Option User) (k : Text → Service B)
        → ((email : Text) → Steps db (k email db))
        → Steps db ((email_of prisma lower o >>= k) db)
    user-Steps none k h = unchanged refl
    user-Steps (some u) k h = h u.email

    email-Steps :
        {B : Type 0} (username email : Option Text) (k : Text → Service B)
        → ((email : Text) → Steps db (k email db))
        → Steps db ((resolve_from prisma lower username email >>= k) db)
    email-Steps none none k h = unchanged refl
    email-Steps none (some email) k h = h (lower email)
    email-Steps (some username) email k h =
        user-Steps (find_by_username prisma (lower username) db) k h

    scope-Steps :
        {B : Type 0} (dto : SendInvitationDto) (type : InvitationType) (k : Service B)
        → Steps db (k db)
        → Steps db ((check_scope prisma lower user dto type >> k) db)
    scope-Steps dto platform k h = h
    scope-Steps dto vm_global k h =
        guard-Outcome Kept Kept_refl db
          (not (is_some (find_pending_global_vm_by_inviter prisma user.id db)))
          pending_global_vm_invite k (λ none_open. h)
    scope-Steps dto vm_journey k h =
        guard-Outcome Kept Kept_refl db (owns_scope prisma lower user dto.scope_id db) access_denied
          k (λ own. h)

    module _ (fresh token now : ℕ) (dto : SendInvitationDto)
        (new : (i : Invitation) → IsNewInvitation user.id fresh i → IsNew i) where
      abbrev row_for : Text → Invitation
      row_for email =
          new_invitation fresh token now user.id email (id_of (find_by_email prisma email db))
            dto.type (scope_of dto)

      create_for-Steps :
          (email : Text)
          → Steps db (
              create_for prisma lower fresh token now user dto email
                (find_by_email prisma email db)
                db)
      unfolding create_invitation
      create_for-Steps email =
          then-Outcome Kept Kept_refl db (create_invitation (row_for email))
            (λ a.
              modify (tell_invitee (find_by_email prisma email db) user dto.type fresh) >> return a)
            (λ a db' h.
              Kept-same db db'
                (tell_invitee (find_by_email prisma email db) user dto.type fresh db')
                (tell_invitee-same (find_by_email prisma email db) dto.type fresh db') h)
            (elim (Bool-cases (some_of (λ i. i.token == token) db.invitations)) [
              | inl e ↦ rw e (unchanged refl)
              | inr e ↦ rw e (
                  added (row_for email)
                    (new (row_for email) (record {
                      id = refl;
                      inviter = refl;
                      status = refl;
                      accepted_at = refl;
                      reminder_sent_at = refl;
                    }))
                    refl)
            ])

      pub send_vm_invitation-Steps :
          Steps db (send_vm_invitation prisma lower fresh token now user dto db)
      unfolding send_vm_invitation resolve_invitee_email
      send_vm_invitation-Steps =
          let rest = λ (email : Text). send_to prisma lower fresh token now user dto email in
          guard-Outcome Kept Kept_refl db
            (is_platform dto.type
              || has_permission user (Permissions.PermissionResource.platform none none)
                  vm_invitation_send)
            access_denied
            (require (not (is_platform dto.type && is_some (truthy dto.invitee_username)))
                validation
              >> (resolve_invitee_email prisma lower dto >>= rest))
            (λ sender.
              guard-Outcome Kept Kept_refl db
                (not (is_platform dto.type && is_some (truthy dto.invitee_username))) validation
                (resolve_invitee_email prisma lower dto >>= rest)
                (λ sensible.
                  email-Steps (truthy dto.invitee_username) (truthy dto.invitee_email) rest
                    (λ email.
                      scope-Steps dto dto.type
                        (query (find_by_email prisma email)
                          >>= create_for prisma lower fresh token now user dto email)
                        (create_for-Steps email))))
