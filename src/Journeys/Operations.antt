-- ===== src/Journeys/Operations.antt =====
-- apps/api/src/modules/journeys/journeys.service.ts and dormant-journeys.cron.ts. `now` is the
-- clock of the call, and `fresh` the id that the database gives a new row.
use veervrat_app.Base.{
  ℕ, ◌-◌, ◌*◌, Bool, ◌&&◌, ◌||◌, Option, none, some, List, [], ◌∷◌, ◌==◌, find_in, take,
}
use veervrat_app.Model.{
  JourneyState, paused, dormant, completed, journey_state_eq, is_active, NotificationEventType,
  journey_dormant, journey_completion_submitted, journey_completion_approved, Journey, Sentence,
  SessionUser, Notification, Text, Db, Service, Result, ok, err, throw, return, query, or_throw,
  require, modify, ◌>>=◌, ◌>>◌, AppError, JourneyVerb, pause, resume, complete, journey_conflict,
  entity_not_found, access_denied, invalid_state_transition, unique_violation, Prisma,
}
use veervrat_app.Model
use veervrat_app.Permissions.{
  PermissionAction, journey, JourneyVmAssignmentSlim, is_va, is_vm, journey_view, journey_pause,
  journey_resume, journey_complete,
}
use veervrat_app.Permissions.Check.{has_permission}
use veervrat_app.Journeys.{
  insert_journey, find_active_for_sentence, new_journey, JourneyDetail, find_by_id,
  build_journey_slim, set_completed, mark_completion_submitted, update_state, update_title,
  StaleJourney, find_stale_active_journeys, mark_dormant,
}

pub record CreateJourneyDto : Type 0 where
  pub sentence_id : ℕ
  pub weakness_id : ℕ
  pub title : Option Text

-- `notificationsRepository.create`
abbrev pub notify : (recipient : ℕ) (actor : Option ℕ) → NotificationEventType → ℕ → Db → Db
notify recipient actor event resource db = record db {
  notifications =
      record {
        recipient_id = recipient;
        actor_id = actor;
        event_type = event;
        resource_id = resource;
      }
      ∷ db.notifications;
}

-- the code units of "My Journey"
abbrev my_journey : Text
my_journey = 77 ∷ 121 ∷ 32 ∷ 74 ∷ 111 ∷ 117 ∷ 114 ∷ 110 ∷ 101 ∷ 121 ∷ []

abbrev text_of : Option Sentence → Text
text_of none = my_journey
text_of (some s) = s.text_en

-- `if (!title)` takes the default for an empty title too
unfoldable pub title_for : CreateJourneyDto → Option Text → Db → Text
title_for dto none db = take 100 (text_of (find_in (λ s. s.id == dto.sentence_id) db.sentences))
title_for dto (some []) db =
    take 100 (text_of (find_in (λ s. s.id == dto.sentence_id) db.sentences))
title_for dto (some (c ∷ title)) db = c ∷ title

-- what `submitCompletion` returns: the completed journey, or `pending_vm_approval`
pub data Submission : Type 0 where
  done : Journey → Submission
  pending_vm_approval : Submission

abbrev pub conflict_of : Option Journey → AppError → AppError
conflict_of none e = e
conflict_of (some j) e = journey_conflict j.id j.state

-- `catch (err)`: a unique violation becomes the conflict with the journey that won, if there is one
-- by then; any other error is thrown on
abbrev pub resolve_conflict :
    (Db → Option Journey) → (afterwards : Db → Db) → Result Journey × Db → Result Journey × Db
resolve_conflict find_winner afterwards (ok j, db) = (ok j, db)
resolve_conflict find_winner afterwards (err unique_violation, db) =
    (err (conflict_of (find_winner (afterwards db)) unique_violation), afterwards db)
resolve_conflict find_winner afterwards (err e, db) = (err e, db)

abbrev pub unless_found : Option Journey → Service Journey → Service Journey
unless_found none rest = rest
unless_found (some j) rest = throw (journey_conflict j.id j.state)

module _ (prisma : Prisma) where
  -- `meanwhile` is what other requests do to the database between the check and the insert,
  -- `afterwards` what they do between an insert that failed and the lookup of the winner.
  unfoldable pub create_journey :
      (meanwhile afterwards : Db → Db) (fresh now : ℕ)
      → SessionUser
      → CreateJourneyDto
      → Service Journey
  create_journey meanwhile afterwards fresh now user dto db =
      unless_found (find_active_for_sentence prisma user.id dto.sentence_id db)
        (λ checked.
          let there = meanwhile checked in
          resolve_conflict (find_active_for_sentence prisma user.id dto.sentence_id) afterwards (
            insert_journey
              (new_journey fresh now user.id dto.sentence_id dto.weakness_id
                (title_for dto dto.title checked))
              there))
        db

  abbrev pub find_or_throw : ℕ → Service JourneyDetail
  find_or_throw id = do
    or_throw (entity_not_found Model.journey id) (← query (find_by_id prisma id))

  abbrev pub allows : SessionUser → JourneyDetail → PermissionAction → Bool
  allows user d action = has_permission user (journey (build_journey_slim d)) action

  unfoldable pub get_journey : SessionUser → ℕ → Service JourneyDetail
  get_journey user id = do
    d ← find_or_throw id
    require (allows user d journey_view) access_denied
    return d

  abbrev pub perm_action : JourneyVerb → PermissionAction
  perm_action pause = journey_pause
  perm_action _ = journey_resume

  -- the states from which `pause` and `resume` are allowed
  abbrev pub may_change : JourneyVerb → JourneyState → Bool
  may_change pause state = journey_state_eq state JourneyState.active
  may_change _ state = journey_state_eq state paused || journey_state_eq state dormant

  abbrev pub target : JourneyVerb → JourneyState
  target pause = paused
  target _ = JourneyState.active

  abbrev pub change_found :
      (now : ℕ) → SessionUser → ℕ → JourneyVerb → JourneyDetail → Service Journey
  change_found now user id verb d = do
    require (allows user d (perm_action verb)) access_denied
    require (may_change verb d.row.state) (invalid_state_transition d.row.state verb)
    update_state now id (target verb)

  unfoldable pub change_state : (now : ℕ) → SessionUser → ℕ → JourneyVerb → Service Journey
  change_state now user id verb = find_or_throw id >>= change_found now user id verb

  unfoldable pub admin_override_state :
      (now : ℕ) → ℕ → JourneyState → Service (JourneyState × JourneyState)
  admin_override_state now id new_state = do
    d ← find_or_throw id
    update_state now id new_state
    return (d.row.state, new_state)

  abbrev pub submit_to :
      (now : ℕ) → SessionUser → ℕ → Option JourneyVmAssignmentSlim → Service Submission
  submit_to now user id none = do return (done (← set_completed now id))
  submit_to now user id (some a) = do
    mark_completion_submitted now id
    modify (notify a.vm_id (some user.id) journey_completion_submitted id)
    return pending_vm_approval

  abbrev pub submit_found : (now : ℕ) → SessionUser → ℕ → JourneyDetail → Service Submission
  submit_found now user id d = do
    require (is_va user && allows user d journey_complete) access_denied
    require (journey_state_eq d.row.state JourneyState.active)
        (invalid_state_transition d.row.state complete)
    submit_to now user id (find_in (λ a. is_active a.state) d.vm_assignments)

  unfoldable pub submit_completion : (now : ℕ) → SessionUser → ℕ → Service Submission
  submit_completion now user id = find_or_throw id >>= submit_found now user id

  abbrev pub complete_and_notify : (now : ℕ) → SessionUser → ℕ → JourneyDetail → Service Journey
  complete_and_notify now user id d = do
    updated ← set_completed now id
    modify (notify d.row.vratarthi_id (some user.id) journey_completion_approved id)
    return updated

  abbrev pub approve_found : (now : ℕ) → SessionUser → ℕ → JourneyDetail → Service Journey
  approve_found now user id d = do
    require (is_vm user && allows user d journey_complete) access_denied
    require (journey_state_eq d.row.state JourneyState.active)
        (invalid_state_transition d.row.state complete)
    complete_and_notify now user id d

  unfoldable pub approve_completion : (now : ℕ) → SessionUser → ℕ → Service Journey
  approve_completion now user id = find_or_throw id >>= approve_found now user id

  abbrev pub retitle_found : (now : ℕ) → SessionUser → ℕ → Text → JourneyDetail → Service Journey
  retitle_found now user id title d = do
    require (allows user d journey_view) access_denied
    require (d.row.vratarthi_id == user.id) access_denied
    update_title now id title

  unfoldable pub change_title : (now : ℕ) → SessionUser → ℕ → Text → Service Journey
  change_title now user id title = find_or_throw id >>= retitle_found now user id title

abbrev thirty_days_ms : ℕ
thirty_days_ms = 30 * 24 * 60 * 60 * 1000

-- the notifications of one dormant journey, to its owner and each of its active vratmitras
abbrev pub nudge : ℕ → List ℕ → Db → Db
nudge id [] db = db
nudge id (r ∷ recipients) db = nudge id recipients (notify r none journey_dormant id db)

unfoldable pub mark_all_dormant : (now : ℕ) → List StaleJourney → Service (Unit {0})
mark_all_dormant now [] = return tt
mark_all_dormant now (j ∷ stale) =
    let rest = mark_all_dormant now stale in
    mark_dormant now j.id >>= λ _. modify (nudge j.id (j.vratarthi_id ∷ j.vm_ids)) >> rest

-- The daily job. A clock before 1970-01-31 is left out, so that `now - 30 days` is not negative.
unfoldable pub detect_dormant : (now : ℕ) → Service (Unit {0})
detect_dormant now = do
  stale ← query (find_stale_active_journeys (now - thirty_days_ms))
  mark_all_dormant now stale
