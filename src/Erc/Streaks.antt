-- ===== src/Erc/Streaks.antt =====
-- apps/api/src/modules/erc/resolution-checkins.repository.ts.
use veervrat_app.Base.{ℕ, ◌+◌, Option, List, [], ◌∷◌, ◌==◌, filter_by, order_by, if◌then◌else◌}
use veervrat_app.Model.{ResolutionCheckin, CheckinStatus, is_done, Text, Db, Service, return}

-- resolution-checkins.repository.ts
unfoldable pub create_checkin :
    (fresh now resolution_id : ℕ) → CheckinStatus → Option Text → Service ResolutionCheckin
create_checkin fresh now resolution_id status note db =
    let checkin : ResolutionCheckin = record {
      id = fresh;
      journey_resolution_id = resolution_id;
      status = status;
      note = note;
      checked_in_at = now;
    } in
    return checkin (record db { checkins = checkin ∷ db.checkins })

-- `for (let i = checkins.length - 1; i >= 0; i--)`, over the check-ins read from the last, with
-- the count so far
abbrev pub count_streak : ℕ → List ResolutionCheckin → ℕ
count_streak streak [] = streak
count_streak streak (c ∷ earlier) =
    let longer = count_streak (streak + 1) earlier in if is_done c.status then longer else streak

abbrev pub from_last {ℓ} : {A : Type ℓ} → List A → List A → List A
from_last [] read = read
from_last (x ∷ xs) read = from_last xs (x ∷ read)

pub record CheckinsWithStreak : Type 0 where
  pub checkins : List ResolutionCheckin
  pub streak : ℕ

abbrev pub with_streak : List ResolutionCheckin → CheckinsWithStreak
with_streak checkins = record {
  checkins = checkins;
  streak = count_streak 0 (from_last checkins []);
}

unfoldable pub list_with_streak : ℕ → Db → CheckinsWithStreak
list_with_streak resolution_id db = with_streak (
    order_by (λ c. c.checked_in_at)
      (filter_by (λ c. c.journey_resolution_id == resolution_id) db.checkins))
