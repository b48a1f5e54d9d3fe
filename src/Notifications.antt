-- ===== src/Notifications.antt =====
-- The list of notifications of apps/api/src/modules/notifications, the repository and the service,
-- and its daily archiving. The rows are a table of their own here: what other parts write is only
-- who is told what.
use veervrat_app.Base.{
  ℕ, ◌+◌, ◌-◌, ◌*◌, Bool, true, false, ◌&&◌, ◌||◌, not, Option, none, some, List, [], ◌∷◌, ◌==◌,
  ltb, leb, is_some, length, take, filter_by, find_in, count_of, update_where, if◌then◌else◌,
}
use Prim.Native.Nat.{zero, suc}
use veervrat_app.Model.{Result, ok, err, AppError, access_denied, entity_not_found}
use veervrat_app.Model
pub mod Pages
pub mod Reading
pub mod Tests

pub record NotificationRow : Type 0 where
  pub id : ℕ
  pub recipient_id : ℕ
  pub read_at : Option ℕ
  pub archived_at : Option ℕ
  pub created_at : ℕ

-- What `buildCursor` writes and `parseCursor` reads back: a date and an id.
pub record Cursor : Type 0 where
  pub created_at : ℕ
  pub id : ℕ

abbrev pub build_cursor : NotificationRow → Cursor
build_cursor n = record { created_at = n.created_at; id = n.id }

pub record NotificationPage : Type 0 where
  pub items : List NotificationRow
  pub next_cursor : Option Cursor

-- older than the cursor, or as old with a smaller id
abbrev pub is_below : Cursor → NotificationRow → Bool
is_below c n = ltb n.created_at c.created_at || n.created_at == c.created_at && ltb n.id c.id

abbrev pub is_within : Option Cursor → NotificationRow → Bool
is_within none n = true
is_within (some c) n = is_below c n

abbrev pub is_listed : ℕ → Option Cursor → NotificationRow → Bool
is_listed user_id cursor n =
    (n.recipient_id == user_id && not (is_some n.archived_at)) && is_within cursor n

abbrev pub insert_newest : NotificationRow → List NotificationRow → List NotificationRow
insert_newest n [] = n ∷ []
insert_newest n (m ∷ rows) =
    let rest = insert_newest n rows in
    if is_below (build_cursor m) n then m ∷ rest else n ∷ m ∷ rows

-- `orderBy: [{ createdAt: 'desc' }, { id: 'desc' }]`
abbrev pub newest_first : List NotificationRow → List NotificationRow
newest_first [] = []
newest_first (n ∷ rows) = insert_newest n (newest_first rows)

abbrev pub last_item : List NotificationRow → Option NotificationRow
last_item [] = none
last_item (n ∷ []) = some n
last_item (n ∷ m ∷ rows) = last_item (m ∷ rows)

-- the page before more rows; with no item the code fails
abbrev pub page_before_more :
    List NotificationRow → Option NotificationRow → Option NotificationPage
page_before_more items none = none
page_before_more items (some n) =
    some (record { items = items; next_cursor = some (build_cursor n) })

-- the page, where one row more than fits was asked for
abbrev pub page_of : (limit : ℕ) → List NotificationRow → Option NotificationPage
page_of limit rows =
    let items = take limit rows in
    if ltb limit (length rows)
    then page_before_more items (last_item items)
    else some (record { items = rows; next_cursor = none })

-- `Math.min(pageSize, 100)`
abbrev pub limit_of : ℕ → ℕ
limit_of page_size = if ltb page_size 100 then page_size else 100

unfoldable pub list_for_user :
    (user_id : ℕ) → Option Cursor → (page_size : ℕ) → List NotificationRow → Option NotificationPage
list_for_user user_id cursor page_size rows =
    page_of (limit_of page_size)
      (take (limit_of page_size + 1) (filter_by (is_listed user_id cursor) (newest_first rows)))

unfoldable pub count_unread : ℕ → List NotificationRow → ℕ
count_unread user_id rows =
    count_of
      (λ n. n.recipient_id == user_id && not (is_some n.read_at) && not (is_some n.archived_at))
      rows

abbrev pub read : (now : ℕ) → NotificationRow → NotificationRow
read now n = record n { read_at = some now }

abbrev pub is_unread_of : ℕ → NotificationRow → Bool
is_unread_of user_id n = n.recipient_id == user_id && not (is_some n.read_at)

-- the number of rows written, and the rows
unfoldable pub mark_all_read : (now user_id : ℕ) → List NotificationRow → ℕ × List NotificationRow
mark_all_read now user_id rows =
    (count_of (is_unread_of user_id) rows, update_where (is_unread_of user_id) (read now) rows)

abbrev pub mark_found :
    (now caller_id id : ℕ)
    → Option NotificationRow
    → List NotificationRow
    → Result (Unit {0}) × List NotificationRow
mark_found now caller_id id none rows = (err (entity_not_found Model.notification id), rows)
mark_found now caller_id id (some n) rows =
    if n.recipient_id == caller_id
    then (ok tt, update_where (λ x. x.id == id && not (is_some x.read_at)) (read now) rows)
    else (err access_denied, rows)

unfoldable pub mark_read :
    (now caller_id id : ℕ) → List NotificationRow → Result (Unit {0}) × List NotificationRow
mark_read now caller_id id rows = mark_found now caller_id id (find_in (λ x. x.id == id) rows) rows

abbrev pub is_old : (cutoff : ℕ) → NotificationRow → Bool
is_old cutoff n = ltb n.created_at cutoff && not (is_some n.archived_at)

abbrev pub ninety_days : ℕ
ninety_days = 90 * 24 * 60 * 60 * 1000

-- `archiveOlderThan`, ninety days before the clock
unfoldable pub archive_old : (now : ℕ) → List NotificationRow → ℕ × List NotificationRow
archive_old now rows = (
  count_of (is_old (now - ninety_days)) rows,
  update_where (is_old (now - ninety_days)) (λ n. record n { archived_at = some now }) rows,
)
