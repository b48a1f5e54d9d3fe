-- ===== src/Notifications/Tests.antt =====
-- The list of notifications on a small table.
use veervrat_app.Base.{
  ◌≡◌, refl, none, List, [], ◌∷◌, filter_by, find_in, count_of, update_where, arith, ℕ,
}
use veervrat_app.Model.{err, access_denied}
use veervrat_app.Notifications.{
  NotificationRow, list_for_user, count_unread, mark_read, mark_all_read, archive_old,
}
use veervrat_app.Notifications.Reading.{read_pages, read_pages-AreNewest}
use veervrat_app.Notifications.Pages.{AreNewest}

service : Unit {0}
unfolding filter_by find_in count_of update_where list_for_user count_unread mark_read mark_all_read
    archive_old
service = tt

abbrev told : (id created_at : ℕ) → NotificationRow
told id created_at = record {
  id = id;
  recipient_id = 1;
  read_at = none;
  archived_at = none;
  created_at = created_at;
}

abbrev rows : List NotificationRow
rows = told 7 100 ∷ told 9 200 ∷ record (told 4 150) { recipient_id = 2 } ∷ told 8 200 ∷ []

service_tests :
    (read_pages 3 1 2 rows none ≡ told 9 200 ∷ told 8 200 ∷ told 7 100 ∷ [])
    × (count_unread 1 (mark_read 300 1 9 rows).1 ≡ 2)
    × ((mark_read 300 1 4 rows).0 ≡ err access_denied)
    × ((mark_all_read 300 1 rows).0 ≡ 3)
    × ((archive_old 7776000150 rows).0 ≡ 1)
unfolding service
service_tests = (refl, refl, refl, refl, refl)

read_pages-AreNewest_example : AreNewest (read_pages 5 1 2 rows none)
read_pages-AreNewest_example =
    (read_pages-AreNewest 1 2 5 rows (ground arith) (ground arith) (
      (ground arith, (ground arith, (ground arith, tt))),
      ((ground arith, (ground arith, tt)), ((ground arith, tt), (tt, tt))),
    )).0
