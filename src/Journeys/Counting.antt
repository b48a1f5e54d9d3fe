-- ===== src/Journeys/Counting.antt =====
-- `countByStatus` of journeys.repository.ts: the counts of a journey's items.
use veervrat_app.Base.{◌+◌, ◌≡◌, refl, true, List, [], ◌∷◌, length, count_of, arith, if◌then◌else◌}
use veervrat_app.Model.{ErcStatus, in_progress, erc_status_eq, JourneyErcItem}
use veervrat_app.Journeys.{Groups, add_to, sum_groups, count_in, group_by_status, count_by_status}

erc_status_eq_of : (s t : ErcStatus) → erc_status_eq s t ≡ true → s ≡ t
erc_status_eq_of s t h = ground arith

sum_groups-add_to : (s : ErcStatus) (gs : Groups) → sum_groups (add_to s gs) ≡ sum_groups gs + 1
sum_groups-add_to s [] = omega arith
sum_groups-add_to s ((t, n) ∷ gs) = ground (arith, sum_groups-add_to s gs)

count_in-add_to :
    (s t : ErcStatus) (gs : Groups)
    → count_in t (add_to s gs) ≡ (if erc_status_eq s t then 1 else 0) + count_in t gs
count_in-add_to s t [] = ground arith
count_in-add_to s t ((u, n) ∷ gs) = ground (
  arith,
  count_in-add_to s t gs,
  erc_status_eq_of u s,
  erc_status_eq_of u t,
  erc_status_eq_of s t,
)

sum_groups-group_by_status :
    (items : List JourneyErcItem) → sum_groups (group_by_status items) ≡ length items
unfolding group_by_status
sum_groups-group_by_status [] = refl
sum_groups-group_by_status (i ∷ items) =
    omega
      (arith, sum_groups-add_to i.status (group_by_status items), sum_groups-group_by_status items)

count_in-group_by_status :
    (t : ErcStatus) (items : List JourneyErcItem)
    → count_in t (group_by_status items) ≡ count_of (λ i. erc_status_eq i.status t) items
unfolding group_by_status count_of
count_in-group_by_status t [] = refl
count_in-group_by_status t (i ∷ items) =
    ground
      (arith, count_in-add_to i.status t (group_by_status items), count_in-group_by_status t items)

-- The counts that a journey's page shows are those of its items: all of them, those in progress,
-- and those approved.
pub count_by_status_lem :
    (items : List JourneyErcItem)
    → let counts = count_by_status (group_by_status items) in
      (counts.total ≡ length items)
      × (counts.active ≡ count_of (λ i. erc_status_eq i.status in_progress) items)
      × (counts.approved ≡ count_of (λ i. erc_status_eq i.status ErcStatus.approved) items)
unfolding count_by_status
count_by_status_lem items = (
  sum_groups-group_by_status items,
  count_in-group_by_status in_progress items,
  count_in-group_by_status ErcStatus.approved items,
)
