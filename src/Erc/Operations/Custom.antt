-- ===== src/Erc/Operations/Custom.antt =====
-- apps/api/src/modules/erc/erc.service.ts: the items that a vratarthi makes.
use veervrat_app.Base.{ℕ, Bool, not, Option, some, is_some}
use veervrat_app.Model.{
  ErcType, pending, custom_erc_review_requested, JourneyErcItem, SessionUser, Text, Service, return,
  require, modify, ◌>>=◌, ◌>>◌, access_denied, custom_erc_already_pending, Prisma,
}
use veervrat_app.Permissions.{erc, custom_erc_create, custom_erc_submit_for_review, custom_erc_edit}
use veervrat_app.Permissions.Check.{has_permission}
use veervrat_app.Journeys.{JourneyDetail, build_journey_slim}
use veervrat_app.Journeys.Operations.{find_or_throw, notify}
use veervrat_app.Erc.{
  CustomErcData, create_custom_item, update_custom_item, set_review_status, create_review,
}
use veervrat_app.Erc.Operations.Access.{get_journey_and_check_permission, get_item, on_item}

module _ (prisma : Prisma) where
  unfoldable pub create_custom :
      (fresh now : ℕ) → SessionUser → ℕ → Text → CustomErcData → ErcType → Service JourneyErcItem
  create_custom fresh now user journey_id title dto kind =
      get_journey_and_check_permission prisma user journey_id custom_erc_create >>= λ d.
      create_custom_item fresh now journey_id user.id title dto kind

  -- `editCustomItem` looks up the journey and the item before it asks who may edit.
  abbrev pub may_edit : SessionUser → ℕ → JourneyDetail → JourneyErcItem → Bool
  may_edit user journey_id d item =
      has_permission user
        (erc (build_journey_slim d) (record {
          journey_id = journey_id;
          created_by_id = item.created_by_id;
          status = some item.status;
        }))
        custom_erc_edit

  abbrev pub edit_allowed :
      SessionUser
      → (journey_id id : ℕ) → Option Text
      → CustomErcData
      → ErcType
      → JourneyDetail
      → JourneyErcItem
      → Service JourneyErcItem
  edit_allowed user journey_id id title dto kind d item = do
    require (may_edit user journey_id d item) access_denied
    update_custom_item id title dto kind

  abbrev pub edit_found :
      SessionUser
      → (journey_id id : ℕ) → Option Text
      → CustomErcData
      → ErcType
      → JourneyDetail
      → JourneyErcItem
      → Service JourneyErcItem
  edit_found user journey_id id title dto kind d item = do
    require item.is_custom access_denied
    require (not (is_some item.review_status)) custom_erc_already_pending
    edit_allowed user journey_id id title dto kind d item

  unfoldable pub edit_custom :
      SessionUser
      → (journey_id id : ℕ) → Option Text
      → CustomErcData
      → ErcType
      → Service JourneyErcItem
  edit_custom user journey_id id title dto kind = find_or_throw prisma journey_id >>= λ d.
      get_item prisma journey_id id kind >>= edit_found user journey_id id title dto kind d

  abbrev pub ask_for_review :
      (fresh : ℕ) → SessionUser → ℕ → ErcType → JourneyDetail → Service JourneyErcItem
  ask_for_review fresh user id kind d = do
    create_review fresh user.id id kind
    updated ← set_review_status id pending kind
    modify (notify d.row.vratarthi_id (some user.id) custom_erc_review_requested id)
    return updated

  abbrev pub review_found :
      (fresh : ℕ)
      → SessionUser
      → ℕ
      → ErcType
      → JourneyDetail
      → JourneyErcItem
      → Service JourneyErcItem
  review_found fresh user id kind d item = do
    require item.is_custom access_denied
    require (not (is_some item.review_status)) custom_erc_already_pending
    ask_for_review fresh user id kind d

  unfoldable pub submit_for_review :
      (fresh : ℕ) → SessionUser → (journey_id id : ℕ) → ErcType → Service JourneyErcItem
  submit_for_review fresh user journey_id id kind =
      on_item prisma user journey_id id kind custom_erc_submit_for_review
        (review_found fresh user id kind)
