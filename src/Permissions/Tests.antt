-- ===== src/Permissions/Tests.antt =====
-- The permission function at concrete users and resources.
use veervrat_app.Base.{◌≡◌, refl, ◌⊎◌, ◌↔◌, true, false, some_of, none, some, [], ◌∷◌}
use veervrat_app.Model.{
  vratarthi, vratmitra, admin, VmRelationshipState, ErcStatus, friends, SessionUser,
}
use veervrat_app.Permissions.{
  journey, erc, experience_log, platform, room, blog, granted, off, JourneySlim, ErcSlim,
  ExperienceLogSlim, journey_view, journey_pause, erc_suggest, erc_approve_closure, erc_select,
  custom_erc_edit, experience_log_view, chat_view, chat_send, admin_view_any_journey, has_role,
}
use veervrat_app.Permissions
use veervrat_app.Permissions.Check.{has_permission}
use veervrat_app.Permissions.Stake.{
  HasStake, HoldsAssignment, HasNoActiveVm, journey_needs_stake, approve_closure_iff,
}
use veervrat_app.Permissions.Roles.{with_role, has_permission_mono, vratmitra_role_alone}
use veervrat_app.Permissions.Features.{IsAdmitted, log_view_iff}

permissions : Unit {0}
unfolding has_permission has_role Permissions.is_active_journey_vm
    Permissions.is_global_vm_for_journey Permissions.has_active_journey_vm
    Permissions.is_room_participant some_of
permissions = tt

-- The owner is 1, the journey's vratmitra 2, the global one 3; 9 is an admin.
abbrev owner : SessionUser
owner = record { id = 1; roles = vratarthi ∷ [] }

abbrev mentor : SessionUser
mentor = record { id = 2; roles = vratarthi ∷ vratmitra ∷ [] }

abbrev guide : SessionUser
guide = record { id = 3; roles = vratmitra ∷ [] }

abbrev root : SessionUser
root = record { id = 9; roles = admin ∷ [] }

abbrev path : JourneySlim
path = record {
  id = 10;
  vratarthi_id = 1;
  vm_assignments =
      record { vm_id = 4; state = VmRelationshipState.ended }
      ∷ record { vm_id = 2; state = VmRelationshipState.active }
      ∷ [];
  global_vm_relationship =
      some (record { vm_id = 3; vratarthi_id = 1; state = VmRelationshipState.active });
}

abbrev item : ErcSlim
item = record { journey_id = 10; created_by_id = some 1; status = some ErcStatus.submitted }

abbrev draft : ExperienceLogSlim
draft = record { author_id = 1; journey_id = some 10; visibility = friends; is_draft = false }

abbrev fresh_item : ErcSlim
fresh_item = record item { status = some ErcStatus.in_progress }

journey_tests :
    (has_permission owner (journey path) journey_pause ≡ true)
    × (has_permission guide (journey path) journey_view ≡ true)
    × (has_permission root (journey path) journey_view ≡ false)
    × (has_permission root (journey path) admin_view_any_journey ≡ true)
    × (has_permission owner (erc path item) erc_approve_closure ≡ false)
    × (has_permission mentor (erc path item) erc_approve_closure ≡ true)
    × (has_permission guide (erc path item) erc_approve_closure ≡ false)
    × (has_permission owner (erc path fresh_item) custom_erc_edit ≡ true)
    × (has_permission owner (room (0 ∷ 1 ∷ 2 ∷ []) false) chat_send ≡ false)
unfolding permissions
journey_tests = (refl, refl, refl, refl, refl, refl, refl, refl, refl)

journey_needs_stake_example : HasStake guide path
unfolding permissions
journey_needs_stake_example = journey_needs_stake guide path journey_view refl refl

approve_closure_iff_example : (has_permission mentor (erc path item) erc_approve_closure ≡ true) ↔ (
    (Permissions.is_va mentor ≡ true) × (path.vratarthi_id ≡ 2) × HasNoActiveVm path
    ⊎ (Permissions.is_vm mentor ≡ true) × HoldsAssignment mentor path)
approve_closure_iff_example = approve_closure_iff mentor path item

has_permission_mono_example :
    has_permission (with_role admin owner) (journey path) journey_pause ≡ true
unfolding permissions
has_permission_mono_example = has_permission_mono admin owner (journey path) journey_pause refl

-- 7 is a vratarthi who has nothing to do with the journey.
abbrev stranger : SessionUser
stranger = record { id = 7; roles = vratarthi ∷ [] }

vratmitra_role_alone_example :
    has_permission (with_role vratmitra stranger) (journey path) journey_view
    ≡ has_permission stranger (journey path) journey_view
unfolding permissions
vratmitra_role_alone_example =
    vratmitra_role_alone stranger (journey path) journey_view refl (refl, refl)

log_view_iff_example :
    (has_permission guide (experience_log (some path) draft none) experience_log_view ≡ true)
    ↔ ((draft.author_id ≡ 3) ⊎ (draft.is_draft ≡ false) × IsAdmitted guide (some path) draft none)
log_view_iff_example = log_view_iff guide (some path) draft none
