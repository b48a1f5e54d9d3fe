-- ===== src/Erc/Items.antt =====
-- The items of apps/api/src/modules/erc/erc.repository.ts: queries, selection from the pool, status,
-- activity and deletion.
use veervrat_app.Base.{
  ℕ, Bool, false, ◌&&◌, not, Option, none, some, List, ◌∷◌, map, ◌==◌, is_id, filter_by, find_in,
  update_one, delete_one, order_by, if◌then◌else◌,
}
use veervrat_app.Model.{
  ErcStatus, in_progress, submitted, ErcType, resolution, erc_type_eq, ErcContent, PoolItem,
  JourneyErcItem, VmSidenote, CustomErcReview, ResolutionCheckin, Text, Db, Service, throw, return,
  entity_not_found, pool_item, record_not_found, Prisma,
}
use veervrat_app.Erc.Notes.{names_item, active_sidenote}

-- the item with this primary key in the table of its kind
abbrev pub is_item : ErcType → ℕ → JourneyErcItem → Bool
is_item kind id i = erc_type_eq i.kind kind && i.id == id

-- The items. `findById` selects the item with its active sidenote.
pub record ItemDetail : Type 0 where
  pub item : JourneyErcItem
  pub vm_sidenote : Option VmSidenote

abbrev pub to_detail : Db → JourneyErcItem → ItemDetail
to_detail db i = record { item = i; vm_sidenote = active_sidenote i.kind i.id db }

unfoldable pub list_journey_items : ℕ → ErcType → Db → List ItemDetail
list_journey_items journey_id kind db = map (to_detail db) (
    order_by (λ i. i.created_at)
      (filter_by (λ i. erc_type_eq i.kind kind && i.journey_id == journey_id) db.items))

abbrev pub detail_of : Db → Option JourneyErcItem → Option ItemDetail
detail_of db none = none
detail_of db (some i) = some (to_detail db i)

unfoldable pub find_item : ℕ → ErcType → Db → Option ItemDetail
find_item id kind db = detail_of db (find_in (is_item kind id) db.items)

abbrev pub is_copy_of : ErcType → (journey_id pool_id : ℕ) → JourneyErcItem → Bool
is_copy_of kind journey_id pool_id i =
    erc_type_eq i.kind kind && i.journey_id == journey_id && is_id i.pool_id pool_id

module _ (prisma : Prisma) where
  unfoldable pub find_by_pool_item_id :
      (journey_id pool_id : ℕ) → ErcType → Db → Option JourneyErcItem
  find_by_pool_item_id journey_id pool_id kind db =
      prisma.find_first (is_copy_of kind journey_id pool_id) db.items

-- `create`, whose new row has the id `fresh`
unfoldable pub insert_item : JourneyErcItem → Service JourneyErcItem
insert_item row db = return row (record db { items = row ∷ db.items })

-- `update({ where: { id }, data })`, where `data` is a change of the row
abbrev pub save_found :
    ErcType → ℕ → (JourneyErcItem → JourneyErcItem) → Option JourneyErcItem → Service JourneyErcItem
save_found kind id change none db = throw record_not_found db
save_found kind id change (some row) db =
    return (change row) (record db { items = update_one (is_item kind id) change db.items })

unfoldable pub save_item : ErcType → ℕ → (JourneyErcItem → JourneyErcItem) → Service JourneyErcItem
save_item kind id change db = save_found kind id change (find_in (is_item kind id) db.items) db

-- the columns of the schema's defaults, under the ones that a create gives
abbrev pub new_item : ErcType → (fresh now journey_id : ℕ) → Text → ErcContent → JourneyErcItem
new_item kind fresh now journey_id title content = record {
  kind = kind;
  id = fresh;
  journey_id = journey_id;
  status = ErcStatus.not_started;
  is_deactivated = false;
  is_custom = false;
  title_en = title;
  content = content;
  started_at = none;
  submitted_at = none;
  approved_at = none;
  created_by_id = none;
  review_status = none;
  pool_id = none;
  created_at = now;
}

abbrev pub is_pool_item : ErcType → ℕ → PoolItem → Bool
is_pool_item kind id p = erc_type_eq p.kind kind && p.id == id

abbrev pub copy_of : (fresh now journey_id : ℕ) → PoolItem → JourneyErcItem
copy_of fresh now journey_id p =
    record (new_item p.kind fresh now journey_id p.title_en p.content) { pool_id = some p.id }

abbrev pub select_found :
    (fresh now journey_id pool_id : ℕ) → Option PoolItem → Service JourneyErcItem
select_found fresh now journey_id pool_id none = throw (entity_not_found pool_item pool_id)
select_found fresh now journey_id pool_id (some p) = insert_item (copy_of fresh now journey_id p)

unfoldable pub select_pool_item :
    (fresh now journey_id pool_id : ℕ) → ErcType → Service JourneyErcItem
select_pool_item fresh now journey_id pool_id kind db =
    select_found fresh now journey_id pool_id (find_in (is_pool_item kind pool_id) db.pool) db

-- `updateStatus` of the repository, with the date that belongs to the new status
abbrev pub status_row : ℕ → ErcStatus → JourneyErcItem → JourneyErcItem
status_row now in_progress i = record i { status = in_progress; started_at = some now }
status_row now submitted i = record i { status = submitted; submitted_at = some now }
status_row now ErcStatus.approved i = record i {
  status = ErcStatus.approved;
  approved_at = some now;
}
status_row now status i = record i { status = status }

unfoldable pub set_status : (now id : ℕ) → ErcStatus → ErcType → Service JourneyErcItem
set_status now id status kind = save_item kind id (status_row now status)

abbrev pub activity_row : Bool → JourneyErcItem → JourneyErcItem
activity_row is_deactivated i = record i { is_deactivated = is_deactivated }

unfoldable pub set_deactivated : (id : ℕ) → Bool → ErcType → Service JourneyErcItem
set_deactivated id is_deactivated kind = save_item kind id (activity_row is_deactivated)

-- A deleted item takes its check-ins with it; a sidenote and a review lose their reference.
abbrev pub orphan_note : ErcType → ℕ → VmSidenote → VmSidenote
orphan_note kind id s = if names_item kind id s then record s { item_id = none } else s

abbrev pub orphan_review : ErcType → ℕ → CustomErcReview → CustomErcReview
orphan_review kind id r =
    if erc_type_eq r.entity_type kind && is_id r.item_id id then record r { item_id = none } else r

abbrev pub left_checkins : ErcType → ℕ → List ResolutionCheckin → List ResolutionCheckin
left_checkins resolution id checkins = filter_by (λ c. not (c.journey_resolution_id == id)) checkins
left_checkins _ id checkins = checkins

abbrev pub remove_found : ErcType → ℕ → Option JourneyErcItem → Service (Unit {0})
remove_found kind id none db = throw record_not_found db
remove_found kind id (some row) db = return tt (record db {
  items = delete_one (is_item kind id) db.items;
  sidenotes = map (orphan_note kind id) db.sidenotes;
  reviews = map (orphan_review kind id) db.reviews;
  checkins = left_checkins kind id db.checkins;
})

unfoldable pub remove_item : ℕ → ErcType → Service (Unit {0})
remove_item id kind db = remove_found kind id (find_in (is_item kind id) db.items) db
