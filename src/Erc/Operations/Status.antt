-- ===== src/Erc/Operations/Status.antt =====
-- apps/api/src/modules/erc/erc.service.ts: the choice of an item from the pool, its status,
-- activity and deletion.
use veervrat_app.Base.{ℕ, Bool, true, false, ◌&&◌, not, Option, none, some, List}
use veervrat_app.Model.{
  ErcStatus, submitted, approved, revisit, erc_status_eq, ErcType, NotificationEventType,
  erc_closure_approved, erc_returned_for_revisit, JourneyErcItem, PoolItem, SessionUser, Service,
  throw, return, query, require, modify, ◌>>=◌, ◌>>◌, access_denied, erc_already_selected,
  invalid_erc_status_transition, Prisma,
}
use veervrat_app.Permissions.{
  erc, JourneySlim, journey_view, erc_select, erc_approve_closure, erc_revisit, erc_deactivate,
  erc_remove,
}
use veervrat_app.Permissions.Check.{has_permission}
use veervrat_app.Journeys.{JourneyDetail, build_journey_slim}
use veervrat_app.Journeys.Operations.{notify}
use veervrat_app.Erc.{
  ItemDetail, get_pool, list_journey_items, find_by_pool_item_id, select_pool_item, set_status,
  set_deactivated, remove_item,
}
use veervrat_app.Erc.Operations.Access.{
  valid_transitions, includes, announce, get_journey_and_check_permission, on_item,
}

module _ (prisma : Prisma) where
  unfoldable pub view_pool : SessionUser → ℕ → ErcType → Service (List PoolItem)
  view_pool user journey_id kind = do
    get_journey_and_check_permission prisma user journey_id journey_view
    query (get_pool journey_id kind)

  abbrev pub unless_selected :
      Option JourneyErcItem → Service JourneyErcItem → Service JourneyErcItem
  unless_selected none rest = rest
  unless_selected (some i) rest = throw erc_already_selected

  unfoldable pub select_item :
      (fresh now : ℕ) → SessionUser → (journey_id pool_id : ℕ) → ErcType → Service JourneyErcItem
  select_item fresh now user journey_id pool_id kind =
      get_journey_and_check_permission prisma user journey_id erc_select >>= λ d.
      query (find_by_pool_item_id prisma journey_id pool_id kind) >>= λ existing.
      unless_selected existing (select_pool_item fresh now journey_id pool_id kind)

  unfoldable pub list_items : SessionUser → ℕ → ErcType → Service (List ItemDetail)
  list_items user journey_id kind = do
    get_journey_and_check_permission prisma user journey_id journey_view
    query (list_journey_items journey_id kind)

  -- the owner's own approval, if no vratmitra is active
  abbrev pub may_set : SessionUser → ℕ → JourneySlim → JourneyErcItem → ErcStatus → Bool
  may_set user journey_id slim item approved =
      has_permission user
        (erc slim (record {
          journey_id = journey_id;
          created_by_id = some user.id;
          status = some item.status;
        }))
        erc_approve_closure
  may_set user journey_id slim item revisit = false
  may_set user journey_id slim item _ = true

  abbrev pub may_move : JourneyErcItem → ErcStatus → Bool
  may_move item target = not item.is_deactivated && includes (valid_transitions item.status) target

  abbrev pub save_and_announce :
      (now : ℕ) → SessionUser → ℕ → ErcStatus → ErcType → JourneyDetail → Service JourneyErcItem
  save_and_announce now user id target kind d = do
    updated ← set_status now id target kind
    modify (announce user (build_journey_slim d) id target)
    return updated

  abbrev pub update_found :
      (now : ℕ)
      → SessionUser
      → (journey_id id : ℕ) → ErcStatus
      → ErcType
      → JourneyDetail
      → JourneyErcItem
      → Service JourneyErcItem
  update_found now user journey_id id target kind d item = do
    require (may_move item target) (invalid_erc_status_transition item.status target)
    require (may_set user journey_id (build_journey_slim d) item target) access_denied
    save_and_announce now user id target kind d

  unfoldable pub update_status :
      (now : ℕ) → SessionUser → (journey_id id : ℕ) → ErcStatus → ErcType → Service JourneyErcItem
  update_status now user journey_id id target kind =
      on_item prisma user journey_id id kind erc_select
        (update_found now user journey_id id target kind)

  -- the vratmitra's answer to a submission
  abbrev pub is_submitted : JourneyErcItem → Bool
  is_submitted item = not item.is_deactivated && erc_status_eq item.status submitted

  abbrev pub save_and_answer :
      (now : ℕ)
      → SessionUser
      → ℕ
      → ErcStatus
      → NotificationEventType
      → ErcType
      → JourneyDetail
      → Service JourneyErcItem
  save_and_answer now user id answer event kind d = do
    updated ← set_status now id answer kind
    modify (notify d.row.vratarthi_id (some user.id) event id)
    return updated

  abbrev pub answer_found :
      (now : ℕ)
      → SessionUser
      → ℕ
      → ErcStatus
      → NotificationEventType
      → ErcType
      → JourneyDetail
      → JourneyErcItem
      → Service JourneyErcItem
  answer_found now user id answer event kind d item = do
    require (is_submitted item) (invalid_erc_status_transition item.status answer)
    save_and_answer now user id answer event kind d

  unfoldable pub approve_item :
      (now : ℕ) → SessionUser → (journey_id id : ℕ) → ErcType → Service JourneyErcItem
  approve_item now user journey_id id kind =
      on_item prisma user journey_id id kind erc_approve_closure
        (answer_found now user id approved erc_closure_approved kind)

  unfoldable pub revisit_item :
      (now : ℕ) → SessionUser → (journey_id id : ℕ) → ErcType → Service JourneyErcItem
  revisit_item now user journey_id id kind =
      on_item prisma user journey_id id kind erc_revisit
        (answer_found now user id revisit erc_returned_for_revisit kind)

  unfoldable pub deactivate : SessionUser → (journey_id id : ℕ) → ErcType → Service JourneyErcItem
  deactivate user journey_id id kind =
      on_item prisma user journey_id id kind erc_deactivate (λ d item. set_deactivated id true kind)

  unfoldable pub reactivate : SessionUser → (journey_id id : ℕ) → ErcType → Service JourneyErcItem
  reactivate user journey_id id kind =
      on_item prisma user journey_id id kind erc_deactivate
        (λ d item. set_deactivated id false kind)

  unfoldable pub remove : SessionUser → (journey_id id : ℕ) → ErcType → Service (Unit {0})
  remove user journey_id id kind =
      on_item prisma user journey_id id kind erc_remove (λ d item. remove_item id kind)
