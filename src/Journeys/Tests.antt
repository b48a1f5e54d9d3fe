-- ===== src/Journeys/Tests.antt =====
-- The journey requests on a small database.
use veervrat_app.Base.{
  ◌≡◌, refl, ◌⊎◌, inl, inr, false, none, some, List, [], ◌∷◌, Some, find_in, filter_by, some_of,
  update_where, count_of, arith,
}
use veervrat_app.Model.{
  JourneyState, completed, vratarthi, vratmitra, VmRelationshipState, Journey, SessionUser, Db, ok,
  err, exposure, in_progress, JourneyErcItem, journey_conflict, invalid_state_transition, pause,
  resume, in_order,
}
use veervrat_app.Permissions.{has_role, is_active_journey_vm, is_global_vm_for_journey}
use veervrat_app.Permissions.Check.{has_permission}
use veervrat_app.Journeys.{
  find_active_for_sentence, find_by_id, live_journey, active_assignments, active_global_vm,
  build_journey_slim, save_journey, insert_journey, update_state, set_completed,
  mark_completion_submitted, mark_dormant, find_stale_active_journeys, rivals, group_by_status,
  count_by_status, state_row,
}
use veervrat_app.Journeys.Live.{has_id}
use veervrat_app.Journeys.Moves.{IsTidy, IsStamped, WasCompleted}
use veervrat_app.Journeys.Operations.{
  CreateJourneyDto, create_journey, change_state, submit_completion, approve_completion,
  pending_vm_approval, admin_override_state, title_for, mark_all_dormant, detect_dormant,
}
use veervrat_app.Journeys.Creation.{Added, ToldOfWinner, WinnerLeft, Dangled, create_journey_race}
use veervrat_app.Journeys.Requests.{
  Call, create, change, submit, approve, daily_job, serve_all, serve_all-IsTidy,
  serve_all-WasCompleted,
}
use veervrat_app.Journeys.Override.{admin_override_state-unstamped}

service : Unit {0}
unfolding has_permission has_role is_active_journey_vm is_global_vm_for_journey some_of filter_by
    find_in update_where find_active_for_sentence find_by_id live_journey active_assignments
    active_global_vm build_journey_slim save_journey insert_journey update_state set_completed
    mark_completion_submitted mark_dormant find_stale_active_journeys rivals group_by_status
    count_by_status create_journey change_state submit_completion approve_completion
    admin_override_state title_for mark_all_dormant detect_dormant count_of
service = tt

abbrev pub owner : SessionUser
owner = record { id = 1; roles = vratarthi ∷ [] }

abbrev pub mentor : SessionUser
mentor = record { id = 2; roles = vratmitra ∷ [] }

abbrev pub walk : Journey
walk = record {
  id = 10;
  vratarthi_id = 1;
  sentence_id = 5;
  title = 65 ∷ [];
  state = JourneyState.active;
  weakness_ids = 3 ∷ [];
  started_at = some 0;
  completion_submitted_at = none;
  completed_at = none;
  dormant_since = none;
  paused_at = none;
  deleted_at = none;
  updated_at = 0;
}

abbrev finished : Journey
finished = record walk { id = 11; sentence_id = 6; state = completed; completed_at = some 4 }

abbrev pub base : Db
base = record {
  users = [];
  sentences = record { id = 5; text_en = 72 ∷ 105 ∷ [] } ∷ record { id = 6; text_en = [] } ∷ [];
  weaknesses = 3 ∷ [];
  journeys = walk ∷ finished ∷ [];
  assignments =
      record {
        id = 20;
        journey_id = 10;
        vm_id = 2;
        state = VmRelationshipState.active;
        accepted_at = some 0;
        ended_at = none;
      }
      ∷ [];
  relationships = [];
  invitations = [];
  user_roles = [];
  pool = [];
  items = [];
  sidenotes = [];
  reviews = [];
  checkins = [];
  notifications = [];
  follows = [];
  auth_accounts = [];
  sessions = [];
  verification_tokens = [];
  pending_signups = [];
  user_consents = [];
  cms_pages = [];
  lockouts = [];
}

abbrev dto : CreateJourneyDto
dto = record { sentence_id = 6; weakness_id = 3; title = none }

abbrev again : CreateJourneyDto
again = record dto { sentence_id = 5 }

service_tests :
    ((create_journey in_order (λ d. d) (λ d. d) 12 9 owner again base).0
      ≡ err (journey_conflict 10 JourneyState.active))
    × ((change_state in_order 9 owner 10 resume base).0
        ≡ err (invalid_state_transition JourneyState.active resume))
    × ((submit_completion in_order 9 owner 10 base).0 ≡ ok pending_vm_approval)
unfolding service
service_tests = (refl, refl, refl)

abbrev calls : List Call
calls =
    (9, owner, create 12 dto)
    ∷ (10, owner, change 10 pause)
    ∷ (11, owner, change 10 resume)
    ∷ (12, owner, submit 10)
    ∷ (13, mentor, approve 10)
    ∷ (9999999999, owner, daily_job)
    ∷ []

base-IsTidy : IsTidy base.journeys
unfolding rivals
base-IsTidy = record { indexed = ground arith; stamped = ground arith }

serve_all-IsTidy_example : IsTidy (serve_all in_order calls base).journeys
unfolding service
serve_all-IsTidy_example = serve_all-IsTidy in_order calls base (omega arith) base-IsTidy

serve_all-WasCompleted_example : Some (WasCompleted 11 4) (serve_all in_order calls base).journeys
unfolding service
serve_all-WasCompleted_example =
    serve_all-WasCompleted in_order 11 4 calls base (omega arith) base-IsTidy
      (inr (inl (refl, refl, refl)))

-- Another request makes the same journey between the check and the insert.
abbrev overtake : Db → Db
overtake db = record db { journeys = record walk { id = 13; sentence_id = 6 } ∷ db.journeys }

create_journey_race_example :
    Added in_order overtake (λ d. d) 12 9 owner dto base
    ⊎ ToldOfWinner in_order overtake (λ d. d) 12 9 owner dto base
    ⊎ WinnerLeft in_order overtake (λ d. d) 12 9 owner dto base
    ⊎ Dangled in_order overtake (λ d. d) 12 9 owner dto base
unfolding service
create_journey_race_example =
    create_journey_race in_order overtake (λ d. d) 12 9 owner dto base refl

admin_override_state-unstamped_example :
    let (r, db') = admin_override_state in_order 9 10 completed base in
    (r ≡ ok (JourneyState.active, completed))
    × (find_in (has_id 10) db'.journeys ≡ some (state_row 9 completed walk))
    × ¬ IsStamped (state_row 9 completed walk)
unfolding service
admin_override_state-unstamped_example =
    admin_override_state-unstamped in_order 9 10 walk base base-IsTidy.indexed refl refl refl

abbrev pub item : JourneyErcItem
item = record {
  kind = exposure;
  id = 30;
  journey_id = 10;
  status = in_progress;
  is_deactivated = false;
  is_custom = false;
  title_en = [];
  content = record {
    title_mr = none;
    description_en = none;
    description_mr = none;
    tier = none;
    duration_weeks = none;
    frequency_per_week = none;
    frequency_label = none;
    duration_days = none;
  };
  started_at = some 1;
  submitted_at = none;
  approved_at = none;
  created_by_id = none;
  review_status = none;
  pool_id = some 40;
  created_at = 1;
}
