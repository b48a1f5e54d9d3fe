-- ===== src/Journeys/Refines.antt =====
-- journeys.service.ts refines the step relation of `Moves`: every request, however it ends, makes
-- one of its steps. Only the admin override does not.
use veervrat_app.Base.{
  ℕ, ◌≡◌, ◌≢◌, refl, sym, subst, inl, inr, Bool, true, false, ◌&&◌, not, Option, none, some, List,
  [], ◌∷◌, ◌==◌, is_some, find_in, arith, Bool-cases, Option-cases, find_in-eq-some, All-In,
}
use veervrat_app.Model.{
  JourneyState, paused, dormant, completed, is_active, Journey, SessionUser, Text, Db, JourneyVerb,
  pause, resume, Prisma, complete, modify, return, journey_completion_submitted,
  journey_completion_approved, AppError, entity_not_found, access_denied, invalid_state_transition,
  Result, ok, err, Service, require, or_throw, throw, journey_state_eq, ◌>>=◌, ◌>>◌,
}
use veervrat_app.Model
use veervrat_app.Permissions.{JourneyVmAssignmentSlim, is_va, is_vm, journey_complete, journey_view}
use veervrat_app.Journeys.{
  detail, breaks_index, save_journey, state_row, completed_row, submitted_row, live_journey,
  find_by_id, JourneyDetail, set_completed, mark_completion_submitted, update_state, update_title,
}
use veervrat_app.Journeys.Live.{IsIndexed, has_id, absent_of_beside}
use veervrat_app.Journeys.Moves.{Move, TableStep, unchanged, moved}
use veervrat_app.Journeys.Operations.{
  find_or_throw, change_found, submit_found, approve_found, retitle_found, complete_and_notify,
  done, pending_vm_approval, notify, allows, perm_action, may_change, target, submit_to,
  change_state, submit_completion, approve_completion, change_title,
}

abbrev pub is_live_of : ℕ → Journey → Bool
is_live_of id j = j.id == id && not (is_some j.deleted_at)

-- An undeleted row found by its id is the row that an update by this id changes.
pub find_live-find :
    (id : ℕ) (rows : List Journey) (row : Journey)
    → IsIndexed rows
    → find_in (is_live_of id) rows ≡ some row
    → find_in (has_id id) rows ≡ some row
unfolding find_in
find_live-find id [] row i f = cc
find_live-find id (x ∷ rows) row i f = elim (Bool-cases (has_id id x)) [
  | inl e ↦ elim (Bool-cases (is_some x.deleted_at)) [
    | inl gone ↦
        let (member, test) = find_in-eq-some (is_live_of id) rows row (ground arith) in
        let absent = absent_of_beside id x rows (ground arith) i.0 in
        absurd (All-In (λ y. y.id ≢ id) rows row absent member (ground arith))
    | inr live ↦ ground arith
  ]
  | inr e ↦ rw e (find_live-find id rows row i.1 (ground arith))
]

-- A saved change is a step, if the row that it changes allows the move.
save_journey-TableStep :
    (id : ℕ) (change : Journey → Journey) (db : Db)
    → ((row : Journey) → find_in (has_id id) db.journeys ≡ some row → Move row (change row))
    → TableStep db.journeys (save_journey id change db).1.journeys
unfolding save_journey
save_journey-TableStep id change db m = elim (Option-cases (find_in (has_id id) db.journeys)) [
  | inl e ↦ rw e (unchanged refl)
  | inr (row, e) ↦ elim (Bool-cases (breaks_index (change row) db.journeys)) [
    | inl broken ↦ rw (e, broken) (unchanged refl)
    | inr fits ↦ rw (e, fits) (moved id row change e (m row e) fits refl)
  ]
]

-- The call, however it ended, made a step of the table.
abbrev pub Steps : {B : Type 0} → Db → Result B × Db → Type 0
Steps db (r, db') = TableStep db.journeys db'.journeys

-- Every request checks the caller and then the state.
guarded-Steps :
    {B : Type 0} (db : Db) (caller state : Bool) (e e' : AppError) (k : Service B)
    → (caller ≡ true → state ≡ true → Steps db (k db))
    → Steps db ((require caller e >> (require state e' >> k)) db)
guarded-Steps db true true e e' k h = h refl refl
guarded-Steps db true false e e' k h = unchanged refl
guarded-Steps db false state e e' k h = unchanged refl

-- What follows a write that succeeded leaves the table alone.
saved-Steps :
    {A B : Type 0} (db : Db) (m : Service A) (k : A → Service B)
    → ((a : A) (db' : Db) → (k a db').1.journeys ≡ db'.journeys)
    → Steps db (m db)
    → Steps db ((m >>= k) db)
saved-Steps {A} {B} db m k same h = result-Steps (m db).0 (m db).1 h
  where
    result-Steps :
        (r : Result A) (db' : Db)
        → TableStep db.journeys db'.journeys
        → Steps {B = B} db (elim r [ ok a ↦ k a db' | err e ↦ throw e db' ])
    result-Steps (ok a) db' h = subst (TableStep db.journeys) (sym (same a db')) h
    result-Steps (err e) db' h = h

module _ (prisma : Prisma) (db : Db) (indexed : IsIndexed db.journeys) where
  found-Steps :
      {B : Type 0} (e : AppError) (o : Option Journey) (k : JourneyDetail → Service B)
      → ((d : JourneyDetail) → o ≡ some d.row → Steps db (k d db))
      → Steps db ((or_throw e (detail prisma o db) >>= k) db)
  found-Steps e none k h = unchanged refl
  found-Steps e (some row) k h = h _ refl

  -- After the lookup that every request begins with, the row that an update by this id changes is
  -- the row of the detail.
  find-Steps :
      {B : Type 0} (id : ℕ) (k : JourneyDetail → Service B)
      → ((d : JourneyDetail) → find_in (has_id id) db.journeys ≡ some d.row → Steps db (k d db))
      → Steps db ((find_or_throw prisma id >>= k) db)
  unfolding find_by_id live_journey
  find-Steps id k h =
      found-Steps (entity_not_found Model.journey id) (find_in (is_live_of id) db.journeys) k
        (λ d f. h d (find_live-find id db.journeys d.row indexed f))

  save-Steps :
      (id : ℕ) (change : Journey → Journey) (row : Journey)
      → find_in (has_id id) db.journeys ≡ some row
      → Move row (change row)
      → Steps db (save_journey id change db)
  save-Steps id change row f m =
      save_journey-TableStep id change db
        (λ other g. let same : row ≡ other = cc in subst (λ r. Move r (change r)) same m)

  change-Move :
      (now : ℕ) (verb : JourneyVerb) (row : Journey)
      → may_change prisma verb row.state ≡ true
      → Move row (state_row now (target prisma verb) row)
  change-Move now pause row h = Move.pause now (ground arith) refl
  change-Move now resume row h = Move.resume now (ground arith) refl
  change-Move now complete row h = Move.resume now (ground arith) refl

  -- Pausing and resuming.
  pub change_state-refines :
      (now : ℕ) (user : SessionUser) (id : ℕ) (verb : JourneyVerb)
      → Steps db (change_state prisma now user id verb db)
  unfolding change_state update_state
  change_state-refines now user id verb =
      find-Steps id (change_found prisma now user id verb) (λ d f.
        guarded-Steps db (allows prisma user d (perm_action prisma verb))
          (may_change prisma verb d.row.state) access_denied
          (invalid_state_transition d.row.state verb) (update_state now id (target prisma verb))
          (λ allowed fits.
            save-Steps id (state_row now (target prisma verb)) d.row f
              (change-Move now verb d.row fits)))

  submit_to-Steps :
      (now : ℕ) (user : SessionUser) (id : ℕ) (row : Journey) (vm : Option JourneyVmAssignmentSlim)
      → find_in (has_id id) db.journeys ≡ some row
      → row.state ≡ JourneyState.active
      → Steps db (submit_to prisma now user id vm db)
  unfolding set_completed mark_completion_submitted
  submit_to-Steps now user id row none f s =
      saved-Steps db (set_completed now id) (λ j. return (done j)) (λ j db'. refl)
        (save-Steps id (completed_row now) row f (Move.complete now s refl))
  submit_to-Steps now user id row (some a) f s =
      saved-Steps db (mark_completion_submitted now id)
        (λ j.
          modify (notify a.vm_id (some user.id) journey_completion_submitted id)
          >> return pending_vm_approval)
        (λ j db'. refl) (save-Steps id (submitted_row now) row f (Move.submit now s refl))

  -- The owner's submission of a journey's completion.
  pub submit_completion-refines :
      (now : ℕ) (user : SessionUser) (id : ℕ) → Steps db (submit_completion prisma now user id db)
  unfolding submit_completion
  submit_completion-refines now user id = find-Steps id (submit_found prisma now user id) (λ d f.
      guarded-Steps db (is_va user && allows prisma user d journey_complete)
        (journey_state_eq d.row.state JourneyState.active) access_denied
        (invalid_state_transition d.row.state complete)
        (submit_to prisma now user id (find_in (λ a. is_active a.state) d.vm_assignments))
        (λ allowed fits.
          submit_to-Steps now user id d.row (find_in (λ a. is_active a.state) d.vm_assignments) f
            (ground arith)))

  -- The vratmitra's approval of it.
  pub approve_completion-refines :
      (now : ℕ) (user : SessionUser) (id : ℕ) → Steps db (approve_completion prisma now user id db)
  unfolding approve_completion set_completed
  approve_completion-refines now user id = find-Steps id (approve_found prisma now user id) (λ d f.
      guarded-Steps db (is_vm user && allows prisma user d journey_complete)
        (journey_state_eq d.row.state JourneyState.active) access_denied
        (invalid_state_transition d.row.state complete) (complete_and_notify prisma now user id d)
        (λ allowed fits.
          saved-Steps db (set_completed now id)
            (λ j.
              modify (notify d.row.vratarthi_id (some user.id) journey_completion_approved id)
              >> return j)
            (λ j db'. refl)
            (save-Steps id (completed_row now) d.row f (Move.complete now (ground arith) refl))))

  -- A change of the title.
  pub change_title-refines :
      (now : ℕ) (user : SessionUser) (id : ℕ) (title : Text)
      → Steps db (change_title prisma now user id title db)
  unfolding change_title update_title
  change_title-refines now user id title =
      find-Steps id (retitle_found prisma now user id title) (λ d f.
        guarded-Steps db (allows prisma user d journey_view) (d.row.vratarthi_id == user.id)
          access_denied access_denied (update_title now id title)
          (λ allowed owned.
            save-Steps id (λ j. record j { title = title; updated_at = now }) d.row f
              (Move.retitle now title refl)))
