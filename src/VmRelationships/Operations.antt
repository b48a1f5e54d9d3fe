-- ===== src/VmRelationships/Operations.antt =====
-- apps/api/src/modules/vm-relationships/vm-relationships.service.ts. A notification that the
-- service does not wait for (`void`) is written before the answer.
use veervrat_app.Base.{ℕ, some, List}
use veervrat_app.Model.{
  JourneyVmAssignment, VmRelationship, vm_withdrew, SessionUser, Service, return, query, or_throw,
  require, modify, ◌>>=◌, ◌>>◌, entity_not_found, global_relationship, access_denied, Prisma,
}
use veervrat_app.Permissions.{is_va, vm_relationship, vm_relationship_withdraw}
use veervrat_app.Permissions.Check.{has_permission}
use veervrat_app.Journeys.{JourneyDetail, active_global_vm}
use veervrat_app.Journeys.Operations.{find_or_throw, notify}
use veervrat_app.VmRelationships.{
  create_global_relationship, create_journey_assignment, end_global_vm, end_journey_assignment,
  AffectedJourney, find_active_journey_assignments_for_vm, end_journey_assignments_for_vm,
  find_active_journey_assignment,
}

pub data GlobalVmCascade : Type 0 where
  keep unassign : GlobalVmCascade

pub record Removal : Type 0 where
  pub removed_vm_id : ℕ
  pub affected_journeys : List AffectedJourney
  pub cascade : GlobalVmCascade

-- `if (cascade === 'unassign')`
abbrev pub cascade_to : GlobalVmCascade → (now vm_id vratarthi_id : ℕ) → Service ℕ
cascade_to keep now vm_id vratarthi_id = return 0
cascade_to unassign now vm_id vratarthi_id = end_journey_assignments_for_vm now vm_id vratarthi_id

module _ (prisma : Prisma) where
  abbrev pub remove_found :
      (now : ℕ) → SessionUser → GlobalVmCascade → VmRelationship → Service Removal
  remove_found now user cascade relationship = do
    affected ← query (find_active_journey_assignments_for_vm relationship.vm_id user.id)
    end_global_vm now relationship.id
    cascade_to cascade now relationship.vm_id user.id
    modify (notify relationship.vm_id (some user.id) vm_withdrew user.id)
    return (record {
      removed_vm_id = relationship.vm_id;
      affected_journeys = affected;
      cascade = cascade;
    })

  abbrev pub remove_checked : (now : ℕ) → SessionUser → GlobalVmCascade → Service Removal
  remove_checked now user cascade db =
      (or_throw (entity_not_found global_relationship user.id) (active_global_vm prisma user.id db)
          >>= remove_found now user cascade)
        db

  unfoldable pub remove_global_vm : (now : ℕ) → SessionUser → GlobalVmCascade → Service Removal
  remove_global_vm now user cascade =
      require (is_va user) access_denied >> remove_checked now user cascade

  abbrev pub withdraw_found :
      (now : ℕ) → SessionUser → ℕ → JourneyDetail → JourneyVmAssignment → Service (ℕ × ℕ)
  withdraw_found now user journey_id d a = do
    require
        (has_permission user
          (vm_relationship (record { vm_id = a.vm_id; vratarthi_id = d.row.vratarthi_id }))
          vm_relationship_withdraw)
        access_denied
    end_journey_assignment now a.id
    modify (notify d.row.vratarthi_id (some user.id) vm_withdrew journey_id)
    return (journey_id, user.id)

  abbrev pub withdraw_from : (now : ℕ) → SessionUser → ℕ → JourneyDetail → Service (ℕ × ℕ)
  withdraw_from now user journey_id d db =
      (or_throw access_denied (find_active_journey_assignment prisma journey_id user.id db)
          >>= withdraw_found now user journey_id d)
        db

  unfoldable pub withdraw_journey_vm : (now : ℕ) → SessionUser → ℕ → Service (ℕ × ℕ)
  withdraw_journey_vm now user journey_id =
      find_or_throw prisma journey_id >>= withdraw_from now user journey_id

unfoldable pub create_from_global_invite :
    (fresh vratarthi_id vm_id accepted_at : ℕ) → Service VmRelationship
create_from_global_invite fresh vratarthi_id vm_id accepted_at =
    create_global_relationship fresh accepted_at vratarthi_id vm_id

unfoldable pub create_from_journey_invite :
    (fresh journey_id vm_id accepted_at : ℕ) → Service JourneyVmAssignment
create_from_journey_invite fresh journey_id vm_id accepted_at =
    create_journey_assignment fresh accepted_at journey_id vm_id
