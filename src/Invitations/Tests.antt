-- ===== src/Invitations/Tests.antt =====
-- The invitations and the relationships on a small database.
use veervrat_app.Base.{
  ◌+◌, ◌≡◌, refl, inl, true, none, some, List, [], ◌∷◌, find_in, filter_by, some_of, update_where,
  update_one, length, count_of, arith,
}
use veervrat_app.Model.{
  vm_global, pending, Invitation, Db, err, in_order, invitation_expired, access_denied,
}
use veervrat_app.Permissions.{has_role}
use veervrat_app.Permissions.Check.{has_permission}
use veervrat_app.Journeys.{active_global_vm}
use veervrat_app.Journeys.Tests.{base, owner, mentor}
use veervrat_app.VmRelationships.{
  new_relationship, create_global_relationship, create_journey_assignment,
  has_active_relationship_between, end_global_vm, end_journey_assignments_for_vm,
  find_active_journey_assignments_for_vm,
}
use veervrat_app.VmRelationships.Operations.{
  create_from_global_invite, create_from_journey_invite, remove_global_vm, unassign,
}
use veervrat_app.VmRelationships.Effects.{is_global_of, remove_global_vm-effect}
use veervrat_app.Invitations.{
  find_by_token, mark_accepted, save_invitation, grant_vratmitra_role, create_invitation,
  find_pending_global_vm_by_inviter, find_by_email, find_by_username,
}
use veervrat_app.Invitations.Operations.{
  SendInvitationDto, send_vm_invitation, accept_invitation, resolve_invitee_email,
}
use veervrat_app.Invitations.Requests.{
  InvitationCall, send, accept, serve_all, IsTidy, serve_calls-IsTidy,
}
use veervrat_app.Invitations.Grants.{
  IsAcceptable, accept_invitation-count, accept_invitation-has_active_relationship_between,
}
use veervrat_app.Invitations.Roles.{AreVratmitras, accept_invitation-AreVratmitras}

service : Unit {0}
unfolding has_role accept_invitation send_vm_invitation remove_global_vm find_by_token mark_accepted
    save_invitation grant_vratmitra_role create_invitation find_pending_global_vm_by_inviter
    find_by_email find_by_username resolve_invitee_email create_from_global_invite
    create_from_journey_invite create_global_relationship create_journey_assignment
    has_active_relationship_between end_global_vm end_journey_assignments_for_vm
    find_active_journey_assignments_for_vm has_permission find_in filter_by some_of update_where
    update_one count_of active_global_vm
service = tt

abbrev invited : Invitation
invited = record {
  id = 50;
  inviter_id = 1;
  invitee_email = 97 ∷ [];
  invitee_id = some 2;
  type = vm_global;
  scope_id = none;
  token = 77;
  status = pending;
  expires_at = 100;
  accepted_at = none;
  reminder_sent_at = none;
  created_at = 0;
}

abbrev before : Db
before = record base { invitations = invited ∷ []; assignments = [] }

abbrev joined : Db
joined = record base { relationships = new_relationship 60 3 1 2 ∷ [] }

abbrev ask : SendInvitationDto
ask = record {
  type = vm_global;
  invitee_email = some (98 ∷ []);
  invitee_username = none;
  scope_id = none;
}

abbrev two_calls : List InvitationCall
two_calls = (9, mentor, accept 70 77) ∷ (10, owner, send 51 78 ask) ∷ []

acceptable : IsAcceptable 9 mentor 77 before invited
unfolding service
acceptable = record {
  keyed = (tt, tt);
  found = refl;
  invitee = refl;
  status = refl;
  in_time = ground arith;
}

service_tests :
    ((accept_invitation 70 101 mentor 77 before).0 ≡ err invitation_expired)
    × ((accept_invitation 70 9 owner 77 before).0 ≡ err access_denied)
    × (length (serve_all in_order (λ t. t) two_calls before).invitations ≡ 2)
    × (has_active_relationship_between 2 1 (accept_invitation 70 9 mentor 77 before).1 ≡ true)
unfolding service
service_tests = (refl, refl, refl, refl)

-- The inviter has the global vratmitra 3 already.
abbrev guided : Db
guided = record before { relationships = new_relationship 60 3 1 3 ∷ [] }

accept_invitation-count_example :
    count_of (is_global_of 1) (accept_invitation 70 9 mentor 77 guided).1.relationships ≡ 2
unfolding service
accept_invitation-count_example =
    (accept_invitation-count 70 9 77 mentor guided invited (new_relationship 60 3 1 3)
      (record {
        keyed = acceptable.keyed;
        found = acceptable.found;
        invitee = refl;
        status = refl;
        in_time = ground arith;
      })
      refl (inl refl)).3

accept_invitation-has_active_relationship_between_example :
    has_active_relationship_between 1 2 (accept_invitation 70 9 mentor 77 before).1 ≡ true
accept_invitation-has_active_relationship_between_example =
    (accept_invitation-has_active_relationship_between 70 9 77 mentor before invited acceptable
      (inl refl)).1

accept_invitation-AreVratmitras_example : AreVratmitras (accept_invitation 70 9 mentor 77 before).1
accept_invitation-AreVratmitras_example =
    accept_invitation-AreVratmitras 70 9 77 mentor before (record { globals = tt; assigned = tt })

serve_calls-IsTidy_example : IsTidy (serve_all in_order (λ t. t) two_calls before)
unfolding service
serve_calls-IsTidy_example =
    serve_calls-IsTidy in_order (λ t. t) two_calls before (tt, (((λ e. ground arith), tt), tt))
      ((tt, tt), (record { dated = λ h. ground arith; undated = λ h. refl }, tt))

remove_global_vm-effect_example :
    count_of (is_global_of 1) (remove_global_vm in_order 9 owner unassign joined).1.relationships
      + 1
    ≡ count_of (is_global_of 1) joined.relationships
unfolding service
remove_global_vm-effect_example =
    (remove_global_vm-effect in_order 9 owner joined unassign (new_relationship 60 3 1 2) (tt, tt)
      refl refl).1
