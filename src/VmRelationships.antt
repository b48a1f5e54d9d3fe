-- ===== src/VmRelationships.antt =====
-- apps/api/src/modules/vm-relationships. This file is vm-relationships.repository.ts, but for its
-- two lists of people; `Operations` is vm-relationships.service.ts. A row of the
-- relationships is a vratmitra of all of a person's journeys, a row of the assignments one of a
-- single journey.
pub mod Operations
pub mod Effects
use veervrat_app.Base.{
  ℕ, ◌+◌, Bool, true, false, ◌&&◌, ◌||◌, not, Option, none, some, List, [], ◌∷◌, map, ◌==◌, ltb,
  is_some, some_of, filter_by, find_in, update_where, update_one, count_of, if◌then◌else◌,
}
use veervrat_app.Model.{
  VmRelationshipState, is_active, Journey, JourneyVmAssignment, VmRelationship, Text, Db, Service,
  throw, return, record_not_found, foreign_key_violation, Prisma,
}
use veervrat_app.Permissions.{JourneyVmAssignmentSlim, VmRelationshipSlim}
use veervrat_app.Journeys.{active_global_vm, to_assignment_slim, to_relationship_slim}

abbrev pub new_relationship : (fresh accepted_at vratarthi_id vm_id : ℕ) → VmRelationship
new_relationship fresh accepted_at vratarthi_id vm_id = record {
  id = fresh;
  vratarthi_id = vratarthi_id;
  vm_id = vm_id;
  state = VmRelationshipState.active;
  accepted_at = some accepted_at;
  ended_at = none;
}

unfoldable pub create_global_relationship :
    (fresh accepted_at vratarthi_id vm_id : ℕ) → Service VmRelationship
create_global_relationship fresh accepted_at vratarthi_id vm_id db =
    let row = new_relationship fresh accepted_at vratarthi_id vm_id in
    return row (record db { relationships = row ∷ db.relationships })

abbrev pub new_assignment : (fresh accepted_at journey_id vm_id : ℕ) → JourneyVmAssignment
new_assignment fresh accepted_at journey_id vm_id = record {
  id = fresh;
  journey_id = journey_id;
  vm_id = vm_id;
  state = VmRelationshipState.active;
  accepted_at = some accepted_at;
  ended_at = none;
}

-- the relation `journey: { vratarthiId }` of an assignment: its journey
abbrev pub owner_of : ℕ → List Journey → Option Journey
owner_of journey_id journeys = find_in (λ j. j.id == journey_id) journeys

-- The foreign key on the journey: the scope of an invitation has none.
abbrev pub assign_to : JourneyVmAssignment → Option Journey → Service JourneyVmAssignment
assign_to row none db = throw foreign_key_violation db
assign_to row (some j) db = return row (record db { assignments = row ∷ db.assignments })

unfoldable pub create_journey_assignment :
    (fresh accepted_at journey_id vm_id : ℕ) → Service JourneyVmAssignment
create_journey_assignment fresh accepted_at journey_id vm_id db =
    assign_to (new_assignment fresh accepted_at journey_id vm_id) (owner_of journey_id db.journeys)
      db

abbrev pub ended_relationship : ℕ → VmRelationship → VmRelationship
ended_relationship now r = record r { state = VmRelationshipState.ended; ended_at = some now }

abbrev pub ended_assignment : ℕ → JourneyVmAssignment → JourneyVmAssignment
ended_assignment now a = record a { state = VmRelationshipState.ended; ended_at = some now }

abbrev pub end_found : (now id : ℕ) → Option VmRelationship → Service VmRelationship
end_found now id none db = throw record_not_found db
end_found now id (some row) db = return (ended_relationship now row) (record db {
  relationships = update_one (λ r. r.id == id) (ended_relationship now) db.relationships;
})

unfoldable pub end_global_vm : (now id : ℕ) → Service VmRelationship
end_global_vm now id db = end_found now id (find_in (λ r. r.id == id) db.relationships) db

abbrev pub end_assignment_found :
    (now id : ℕ) → Option JourneyVmAssignment → Service JourneyVmAssignment
end_assignment_found now id none db = throw record_not_found db
end_assignment_found now id (some row) db =
    return (ended_assignment now row) (record db {
      assignments = update_one (λ a. a.id == id) (ended_assignment now) db.assignments;
    })

unfoldable pub end_journey_assignment : (now id : ℕ) → Service JourneyVmAssignment
end_journey_assignment now id db =
    end_assignment_found now id (find_in (λ a. a.id == id) db.assignments) db

abbrev pub is_owned_by : ℕ → Option Journey → Bool
is_owned_by vratarthi_id none = false
is_owned_by vratarthi_id (some j) = j.vratarthi_id == vratarthi_id

-- an active assignment to a journey of this person
abbrev pub is_on_journey_of : Db → ℕ → JourneyVmAssignment → Bool
is_on_journey_of db vratarthi_id a =
    is_active a.state && is_owned_by vratarthi_id (owner_of a.journey_id db.journeys)

abbrev pub is_held_on : Db → (vm_id vratarthi_id : ℕ) → JourneyVmAssignment → Bool
is_held_on db vm_id vratarthi_id a = a.vm_id == vm_id && is_on_journey_of db vratarthi_id a

pub record AffectedJourney : Type 0 where
  pub journey_id : ℕ
  pub journey_title : Text

abbrev pub title_of : Option Journey → Text
title_of none = []
title_of (some j) = j.title

unfoldable pub find_active_journey_assignments_for_vm :
    (vm_id vratarthi_id : ℕ) → Db → List AffectedJourney
find_active_journey_assignments_for_vm vm_id vratarthi_id db =
    map
      (λ a. record {
        journey_id = a.journey_id;
        journey_title = title_of (owner_of a.journey_id db.journeys);
      })
      (filter_by (is_held_on db vm_id vratarthi_id) db.assignments)

unfoldable pub end_journey_assignments_for_vm : (now vm_id vratarthi_id : ℕ) → Service ℕ
end_journey_assignments_for_vm now vm_id vratarthi_id db =
    let held = is_held_on db vm_id vratarthi_id in
    return (count_of held db.assignments)
      (record db { assignments = update_where held (ended_assignment now) db.assignments })

-- `distinct: ['vmId']`, which keeps the first row of each
abbrev pub distinct_vms : List JourneyVmAssignment → List JourneyVmAssignment
distinct_vms [] = []
distinct_vms (a ∷ rows) = a ∷ filter_by (λ b. not (b.vm_id == a.vm_id)) (distinct_vms rows)

module _ (prisma : Prisma) where
  unfoldable pub find_active_journey_assignment :
      (journey_id vm_id : ℕ) → Db → Option JourneyVmAssignment
  find_active_journey_assignment journey_id vm_id db =
      prisma.find_first (λ a. a.journey_id == journey_id && a.vm_id == vm_id && is_active a.state)
        db.assignments

  unfoldable pub get_vratarthi_vm_context :
      ℕ → Db → Option VmRelationshipSlim × List JourneyVmAssignmentSlim
  get_vratarthi_vm_context vratarthi_id db = (
    to_relationship_slim (active_global_vm prisma vratarthi_id db),
    map to_assignment_slim
        (distinct_vms (filter_by (is_on_journey_of db vratarthi_id) db.assignments)),
  )

-- the assignment is on a journey that is not deleted
abbrev pub is_undeleted : Option Journey → Bool
is_undeleted none = false
is_undeleted (some j) = not (is_some j.deleted_at)

abbrev pub owner_id : Option Journey → ℕ
owner_id none = 0
owner_id (some j) = j.vratarthi_id

unfoldable pub get_vm_assigned_journeys : ℕ → Db → List (ℕ × ℕ)
get_vm_assigned_journeys vm_id db =
    map (λ a. (a.journey_id, owner_id (owner_of a.journey_id db.journeys)))
      (filter_by
        (λ a.
          a.vm_id == vm_id && is_active a.state && is_undeleted (owner_of a.journey_id db.journeys))
        db.assignments)

abbrev pub mentors : ℕ → VmRelationship → Bool
mentors vm_id r = r.vm_id == vm_id && is_active r.state

abbrev pub mentors_on : ℕ → JourneyVmAssignment → Bool
mentors_on vm_id a = a.vm_id == vm_id && is_active a.state

unfoldable pub has_any_vm_assignment : ℕ → Db → Bool
has_any_vm_assignment vm_id db =
    ltb 0 (count_of (mentors_on vm_id) db.assignments + count_of (mentors vm_id) db.relationships)

-- a global relationship between the two, either of them being the vratmitra
abbrev pub relates : (user_a user_b : ℕ) → VmRelationship → Bool
relates user_a user_b r =
    is_active r.state
    && (r.vratarthi_id == user_a && r.vm_id == user_b
        || r.vratarthi_id == user_b && r.vm_id == user_a)

abbrev pub relates_on : Db → (user_a user_b : ℕ) → JourneyVmAssignment → Bool
relates_on db user_a user_b a =
    is_active a.state
    && (a.vm_id == user_a && is_owned_by user_b (owner_of a.journey_id db.journeys)
        || a.vm_id == user_b && is_owned_by user_a (owner_of a.journey_id db.journeys))

unfoldable pub has_active_relationship_between : (user_a user_b : ℕ) → Db → Bool
has_active_relationship_between user_a user_b db =
    if ltb 0 (count_of (relates user_a user_b) db.relationships)
    then true
    else ltb 0 (count_of (relates_on db user_a user_b) db.assignments)
