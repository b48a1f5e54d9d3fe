-- ===== src/Journeys/Override.antt =====
-- `adminOverrideState` of journeys.service.ts, which writes any state and no date of completion.
use veervrat_app.Base.{ℕ, ◌≡◌, refl, false, none, some, find_in, arith}
use veervrat_app.Model.{completed, Journey, Db, ok, Prisma}
use veervrat_app.Journeys.{
  breaks_index, state_row, live_journey, find_by_id, save_journey, update_state,
}
use veervrat_app.Journeys.Live.{IsIndexed, has_id}
use veervrat_app.Journeys.Moves.{IsStamped}
use veervrat_app.Journeys.Refines.{find_live-find}
use veervrat_app.Journeys.Dormancy.{find-update_self}
use veervrat_app.Journeys.Operations.{admin_override_state}

-- The override makes a journey completed that has no date of completion, which no user's request
-- can do.
pub admin_override_state-unstamped :
    (prisma : Prisma) (now id : ℕ) (row : Journey) (db : Db)
    → IsIndexed db.journeys
    → live_journey id db ≡ some row
    → row.completed_at ≡ none
    → breaks_index (state_row now completed row) db.journeys ≡ false
    → let (r, db') = admin_override_state prisma now id completed db in
      (r ≡ ok (row.state, completed))
      × (find_in (has_id id) db'.journeys ≡ some (state_row now completed row))
      × ¬ IsStamped (state_row now completed row)
unfolding admin_override_state update_state save_journey find_by_id live_journey
admin_override_state-unstamped prisma now id row db i f none_yet fits =
    let g = find_live-find id db.journeys row i f in
    (
      ground (arith, f, g, fits),
      ground (
        arith,
        f,
        g,
        fits,
        find-update_self id (state_row now completed) row db.journeys (λ j. refl) g,
      ),
      λ s. ground (arith, s.when_completed refl),
    )
