-- ===== src/Erc/Checkins.antt =====
-- apps/api/src/modules/erc/resolution-checkins.service.ts, and the streak of
-- resolution-checkins.repository.ts.
use veervrat_app.Base.{
  ℕ, ◌≡◌, refl, inl, inr, Bool, true, ◌&&◌, not, Option, List, [], ◌∷◌, ◌+◌, ◌==◌, length, find_in,
  if◌then◌else◌, arith, Bool-cases,
}
use veervrat_app.Model.{
  in_progress, erc_status_eq, resolution, CheckinStatus, is_done, JourneyErcItem, ResolutionCheckin,
  SessionUser, Text, Db, Service, return, query, or_throw, require, ◌>>=◌, ◌>>◌, entity_not_found,
  resolution_row, invalid_checkin_state, Prisma,
}
use veervrat_app.Permissions.{journey_view, erc_select}
use veervrat_app.Erc.{
  is_item, create_checkin, count_streak, from_last, with_streak, CheckinsWithStreak,
  list_with_streak,
}
use veervrat_app.Erc.Operations.{get_journey_and_check_permission}

unfoldable pub find_resolution_by_id : ℕ → Db → Option JourneyErcItem
find_resolution_by_id id db = find_in (is_item resolution id) db.items

abbrev pub of_this_journey : (id journey_id : ℕ) → JourneyErcItem → Service JourneyErcItem
of_this_journey id journey_id r = do
  require (r.journey_id == journey_id) (entity_not_found resolution_row id)
  return r

unfoldable pub resolve_resolution : (id journey_id : ℕ) → Service JourneyErcItem
resolve_resolution id journey_id db =
    (or_throw (entity_not_found resolution_row id) (find_resolution_by_id id db)
        >>= of_this_journey id journey_id)
      db

abbrev pub is_running : JourneyErcItem → Bool
is_running r = not r.is_deactivated && erc_status_eq r.status in_progress

module _ (prisma : Prisma) where
  -- `resolveJourney` and the check after it are those of the item requests
  unfoldable pub log_checkin :
      (fresh now : ℕ)
      → SessionUser
      → (journey_id resolution_id : ℕ) → CheckinStatus
      → Option Text
      → Service ResolutionCheckin
  log_checkin fresh now user journey_id resolution_id status note =
      get_journey_and_check_permission prisma user journey_id erc_select >>= λ d.
      resolve_resolution resolution_id journey_id >>= λ r.
      require (is_running r) invalid_checkin_state
      >> create_checkin fresh now resolution_id status note

  unfoldable pub list_checkins :
      SessionUser → (journey_id resolution_id : ℕ) → Service CheckinsWithStreak
  list_checkins user journey_id resolution_id =
      get_journey_and_check_permission prisma user journey_id journey_view >>= λ d.
      resolve_resolution resolution_id journey_id >>= λ r. query (list_with_streak resolution_id)

abbrev pub all_done : List ResolutionCheckin → Bool
all_done [] = true
all_done (c ∷ checkins) = is_done c.status && all_done checkins

-- how many of the ends of the list, the empty one left out, are done throughout
abbrev pub done_ends : List ResolutionCheckin → ℕ
done_ends [] = 0
done_ends (c ∷ checkins) = (if all_done (c ∷ checkins) then 1 else 0) + done_ends checkins

done_ends-all : (xs : List ResolutionCheckin) → all_done xs ≡ true → done_ends xs ≡ length xs
done_ends-all [] h = refl
done_ends-all (c ∷ xs) h = ground (arith, done_ends-all xs)

count_streak-from_last :
    (k : ℕ) (xs read : List ResolutionCheckin)
    → count_streak k (from_last xs read)
      ≡ (if all_done xs then count_streak (k + length xs) read else k + done_ends xs)
count_streak-from_last k [] read = ground arith
count_streak-from_last k (x ∷ xs) read = elim (Bool-cases (all_done xs)) [
  | inl e ↦ ground (arith, e, count_streak-from_last k xs (x ∷ read), done_ends-all xs e)
  | inr e ↦ ground (arith, e, count_streak-from_last k xs (x ∷ read))
]

-- The streak is the number of ends of the list of check-ins, oldest first, that are done
-- throughout, the empty end left out: the length of the unbroken run up to the last one.
pub with_streak-done_ends :
    (checkins : List ResolutionCheckin) → (with_streak checkins).streak ≡ done_ends checkins
with_streak-done_ends checkins = elim (Bool-cases (all_done checkins)) [
  | inl e ↦ ground (arith, e, count_streak-from_last 0 checkins [], done_ends-all checkins e)
  | inr e ↦ ground (arith, e, count_streak-from_last 0 checkins [])
]
