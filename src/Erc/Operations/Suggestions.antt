-- ===== src/Erc/Operations/Suggestions.antt =====
-- apps/api/src/modules/erc/erc.service.ts: the sidenote of a vratmitra on an item.
use veervrat_app.Base.{ℕ, Option, some}
use veervrat_app.Model.{
  ErcType, vm_suggestion_new, vm_suggestion_dismissed, JourneyErcItem, VmSidenote, SessionUser,
  Text, Service, return, or_throw, modify, ◌>>=◌, ◌>>◌, entity_not_found, sidenote, Prisma,
}
use veervrat_app.Permissions.{erc_select, erc_suggest}
use veervrat_app.Journeys.{JourneyDetail}
use veervrat_app.Journeys.Operations.{notify}
use veervrat_app.Erc.{upsert_sidenote, revoke_sidenote, acknowledge_sidenote}
use veervrat_app.Erc.Operations.Access.{on_item}

module _ (prisma : Prisma) where
  abbrev pub suggest_found :
      (fresh : ℕ)
      → SessionUser
      → ℕ
      → Text
      → ErcType
      → JourneyDetail
      → JourneyErcItem
      → Service VmSidenote
  suggest_found fresh user id text kind d item = do
    written ← upsert_sidenote fresh id user.id text kind
    modify (notify d.row.vratarthi_id (some user.id) vm_suggestion_new id)
    return written

  unfoldable pub suggest_item :
      (fresh : ℕ) → SessionUser → (journey_id id : ℕ) → Text → ErcType → Service VmSidenote
  suggest_item fresh user journey_id id text kind =
      on_item prisma user journey_id id kind erc_suggest (suggest_found fresh user id text kind)

  abbrev pub tell_dismissed :
      SessionUser → ℕ → JourneyDetail → Option VmSidenote → Service (Unit {0})
  tell_dismissed user id d revoked = do
    or_throw (entity_not_found sidenote id) revoked
    modify (notify d.row.vratarthi_id (some user.id) vm_suggestion_dismissed id)

  abbrev pub unsuggest_found :
      (now : ℕ) → SessionUser → ℕ → ErcType → JourneyDetail → JourneyErcItem → Service (Unit {0})
  unsuggest_found now user id kind d item = revoke_sidenote now id kind >>= tell_dismissed user id d

  unfoldable pub unsuggest_item :
      (now : ℕ) → SessionUser → (journey_id id : ℕ) → ErcType → Service (Unit {0})
  unsuggest_item now user journey_id id kind =
      on_item prisma user journey_id id kind erc_suggest (unsuggest_found now user id kind)

  unfoldable pub acknowledge_sidenote_item :
      (now : ℕ) → SessionUser → (journey_id id : ℕ) → ErcType → Service VmSidenote
  acknowledge_sidenote_item now user journey_id id kind =
      on_item prisma user journey_id id kind erc_select
        (λ d item. acknowledge_sidenote now id kind >>= or_throw (entity_not_found sidenote id))
