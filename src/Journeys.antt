-- ===== src/Journeys.antt =====
-- apps/api/src/modules/journeys. This file is the repository (journeys.repository.ts) over the
-- table `journeys` with its partial unique index; `Operations` is journeys.service.ts.
pub mod Operations
pub mod Live
pub mod Moves
pub mod Refines
pub mod Creation
pub mod Dormancy
pub mod Requests
pub mod Override
pub mod Counting
pub mod Tests
use veervrat_app.Base.{
  ℕ, ◌+◌, Bool, true, false, ◌&&◌, ◌||◌, not, Option, none, some, List, [], ◌∷◌, ◌++◌, map, ◌==◌,
  is_id, is_some, ltb, some_of, filter_by, find_in, update_where, if◌then◌else◌,
}
use veervrat_app.Model.{
  JourneyState, paused, dormant, completed, VmRelationshipState, is_active, ErcStatus, in_progress,
  erc_status_eq, ErcType, exposure, resolution, challenge, erc_type_eq, journey_state_eq, Journey,
  JourneyVmAssignment, VmRelationship, JourneyErcItem, Text, Db, Service, throw, return, modify,
  ◌>>=◌, ◌>>◌, unique_violation, foreign_key_violation, record_not_found, Prisma,
}
use veervrat_app.Permissions.{JourneySlim, JourneyVmAssignmentSlim, VmRelationshipSlim}

-- The partial unique index `journeys_vratarthi_sentence_live_key`: on (vratarthi_id, sentence_id)
-- where deleted_at is null and state <> 'completed'.
abbrev pub is_live_row : Journey → Bool
is_live_row j = not (is_some j.deleted_at) && not (journey_state_eq j.state completed)

unfoldable pub rivals : Journey → Journey → Bool
rivals j k =
    is_live_row j
    && is_live_row k
    && j.vratarthi_id == k.vratarthi_id
    && j.sentence_id == k.sentence_id

-- a write of `row` would break the index
abbrev pub breaks_index : Journey → List Journey → Bool
breaks_index row rows = some_of (λ k. not (k.id == row.id) && rivals row k) rows

-- The foreign keys of a new journey on its sentence and on its weaknesses.
abbrev pub has_weaknesses : List ℕ → Db → Bool
has_weaknesses [] db = true
has_weaknesses (w ∷ ws) db = some_of (λ x. x == w) db.weaknesses && has_weaknesses ws db

abbrev pub has_references : Journey → Db → Bool
has_references row db =
    some_of (λ s. s.id == row.sentence_id) db.sentences && has_weaknesses row.weakness_ids db

-- `prisma.journey.create`
unfoldable pub insert_journey : Journey → Service Journey
insert_journey row db =
    if breaks_index row db.journeys
    then throw unique_violation db
    else if has_references row db
    then return row (record db { journeys = row ∷ db.journeys })
    else throw foreign_key_violation db

-- `prisma.journey.update({ where: { id }, data })`, where `data` is a change of the row
abbrev pub save_row : (Journey → Journey) → ℕ → Journey → Service Journey
save_row change id row db =
    if breaks_index (change row) db.journeys
    then throw unique_violation db
    else return (change row)
        (record db { journeys = update_where (λ j. j.id == id) change db.journeys })

abbrev pub save_found : (Journey → Journey) → ℕ → Option Journey → Service Journey
save_found change id none = throw record_not_found
save_found change id (some row) = save_row change id row

unfoldable pub save_journey : ℕ → (Journey → Journey) → Service Journey
save_journey id change db = save_found change id (find_in (λ j. j.id == id) db.journeys) db

abbrev pub blocks : JourneyState → Bool
blocks JourneyState.active = true
blocks paused = true
blocks dormant = true
blocks JourneyState.not_started = true
blocks completed = false

abbrev pub is_active_for : ℕ → ℕ → Journey → Bool
is_active_for user_id sentence_id j =
    j.vratarthi_id == user_id
    && j.sentence_id == sentence_id
    && blocks j.state
    && not (is_some j.deleted_at)

module _ (prisma : Prisma) where
  unfoldable pub find_active_for_sentence : ℕ → ℕ → Db → Option Journey
  find_active_for_sentence user_id sentence_id db =
      prisma.find_first (is_active_for user_id sentence_id) db.journeys

abbrev pub new_journey : (id now vratarthi_id sentence_id weakness_id : ℕ) → Text → Journey
new_journey id now vratarthi_id sentence_id weakness_id title = record {
  id = id;
  vratarthi_id = vratarthi_id;
  sentence_id = sentence_id;
  title = title;
  state = JourneyState.active;
  weakness_ids = weakness_id ∷ [];
  started_at = some now;
  completion_submitted_at = none;
  completed_at = none;
  dormant_since = none;
  paused_at = none;
  deleted_at = none;
  updated_at = now;
}

-- the groups of `groupBy({ by: ['status'], _count })`
abbrev pub Groups : Type 0
Groups = List (ErcStatus × ℕ)

abbrev pub add_to : ErcStatus → Groups → Groups
add_to s [] = (s, 1) ∷ []
add_to s ((t, n) ∷ groups) =
    if erc_status_eq t s then (t, n + 1) ∷ groups else (t, n) ∷ add_to s groups

unfoldable pub group_by_status : List JourneyErcItem → Groups
group_by_status [] = []
group_by_status (i ∷ items) = add_to i.status (group_by_status items)

pub record Counts : Type 0 where
  pub total : ℕ
  pub active : ℕ
  pub approved : ℕ

abbrev pub sum_groups : Groups → ℕ
sum_groups [] = 0
sum_groups ((s, n) ∷ groups) = n + sum_groups groups

abbrev pub count_in : ErcStatus → Groups → ℕ
count_in s [] = 0
count_in s ((t, n) ∷ groups) = if erc_status_eq t s then n else count_in s groups

unfoldable pub count_by_status : Groups → Counts
count_by_status groups = record {
  total = sum_groups groups;
  active = count_in in_progress groups;
  approved = count_in ErcStatus.approved groups;
}

pub record ErcCounts : Type 0 where
  pub exposures : Counts
  pub resolutions : Counts
  pub challenges : Counts

-- what `findById` returns
pub record JourneyDetail : Type 0 where
  pub row : Journey
  pub vm_assignments : List JourneyVmAssignmentSlim
  pub global_vm_relationship : Option VmRelationshipSlim
  pub erc_counts : ErcCounts

abbrev pub to_assignment_slim : JourneyVmAssignment → JourneyVmAssignmentSlim
to_assignment_slim a = record { vm_id = a.vm_id; state = a.state }

abbrev pub to_relationship_slim : Option VmRelationship → Option VmRelationshipSlim
to_relationship_slim none = none
to_relationship_slim (some r) =
    some (record { vm_id = r.vm_id; vratarthi_id = r.vratarthi_id; state = r.state })

abbrev pub items_of : ErcType → ℕ → Db → List JourneyErcItem
items_of kind journey_id db =
    filter_by (λ i. erc_type_eq i.kind kind && i.journey_id == journey_id) db.items

abbrev counts_of : ErcType → ℕ → Db → Counts
counts_of kind journey_id db = count_by_status (group_by_status (items_of kind journey_id db))

unfoldable pub active_assignments : ℕ → Db → List JourneyVmAssignmentSlim
active_assignments journey_id db =
    map to_assignment_slim
      (filter_by (λ a. a.journey_id == journey_id && is_active a.state) db.assignments)

unfoldable pub live_journey : ℕ → Db → Option Journey
live_journey id db = find_in (λ j. j.id == id && not (is_some j.deleted_at)) db.journeys

module _ (prisma : Prisma) where
  unfoldable pub active_global_vm : ℕ → Db → Option VmRelationship
  active_global_vm vratarthi_id db =
      prisma.find_first (λ r. r.vratarthi_id == vratarthi_id && is_active r.state) db.relationships

  abbrev pub detail : Option Journey → Db → Option JourneyDetail
  detail none db = none
  detail (some j) db = some (record {
    row = j;
    vm_assignments = active_assignments j.id db;
    global_vm_relationship = to_relationship_slim (active_global_vm j.vratarthi_id db);
    erc_counts = record {
      exposures = counts_of exposure j.id db;
      resolutions = counts_of resolution j.id db;
      challenges = counts_of challenge j.id db;
    };
  })

  unfoldable pub find_by_id : ℕ → Db → Option JourneyDetail
  find_by_id id db = detail (live_journey id db) db

unfoldable pub build_journey_slim : JourneyDetail → JourneySlim
build_journey_slim d = record {
  id = d.row.id;
  vratarthi_id = d.row.vratarthi_id;
  vm_assignments = d.vm_assignments;
  global_vm_relationship = d.global_vm_relationship;
}

-- The writes of the repository. `updated_at` is set by Prisma at every update.
abbrev pub completed_row : ℕ → Journey → Journey
completed_row now j = record j {
  state = completed;
  completed_at = some now;
  completion_submitted_at = none;
  updated_at = now;
}

unfoldable pub set_completed : (now id : ℕ) → Service Journey
set_completed now id = save_journey id (completed_row now)

abbrev pub submitted_row : ℕ → Journey → Journey
submitted_row now j = record j { completion_submitted_at = some now; updated_at = now }

unfoldable pub mark_completion_submitted : (now id : ℕ) → Service Journey
mark_completion_submitted now id = save_journey id (submitted_row now)

abbrev pub state_row : ℕ → JourneyState → Journey → Journey
state_row now paused j = record j { state = paused; paused_at = some now; updated_at = now }
state_row now JourneyState.active j = record j {
  state = JourneyState.active;
  paused_at = none;
  dormant_since = none;
  updated_at = now;
}
state_row now state j = record j { state = state; updated_at = now }

unfoldable pub update_state : (now id : ℕ) → JourneyState → Service Journey
update_state now id state = save_journey id (state_row now state)

unfoldable pub update_title : (now id : ℕ) → Text → Service Journey
update_title now id title = save_journey id (λ j. record j { title = title; updated_at = now })

pub record StaleJourney : Type 0 where
  pub id : ℕ
  pub vratarthi_id : ℕ
  pub vm_ids : List ℕ

abbrev pub is_stale : ℕ → Journey → Bool
is_stale cutoff j =
    journey_state_eq j.state JourneyState.active
    && not (is_some j.deleted_at)
    && ltb j.updated_at cutoff

abbrev pub to_stale : Db → Journey → StaleJourney
to_stale db j = record {
  id = j.id;
  vratarthi_id = j.vratarthi_id;
  vm_ids = map (λ a. a.vm_id) (active_assignments j.id db);
}

unfoldable pub find_stale_active_journeys : (cutoff : ℕ) → Db → List StaleJourney
find_stale_active_journeys cutoff db = map (to_stale db) (filter_by (is_stale cutoff) db.journeys)

abbrev pub dormant_row : ℕ → Journey → Journey
dormant_row now j = record j { state = dormant; dormant_since = some now; updated_at = now }

unfoldable pub mark_dormant : (now id : ℕ) → Service Journey
mark_dormant now id = save_journey id (dormant_row now)
