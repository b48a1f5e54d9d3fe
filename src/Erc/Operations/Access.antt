-- ===== src/Erc/Operations/Access.antt =====
-- apps/api/src/modules/erc/erc.service.ts: what requests share, the lookups with their
-- checks, the transitions and the recipients of a notification.
use veervrat_app.Base.{
  ℕ, Bool, ◌&&◌, not, Option, none, some, List, [], ◌∷◌, ◌==◌, some_of, if◌then◌else◌,
}
use veervrat_app.Model.{
  is_active, ErcStatus, in_progress, submitted, approved, revisit, erc_status_eq, ErcType,
  NotificationEventType, erc_closure_submitted, JourneyErcItem, SessionUser, Db, Service, return,
  or_throw, require, ◌>>=◌, ◌>>◌, entity_not_found, erc_item, access_denied, Prisma,
}
use veervrat_app.Permissions.{
  PermissionAction, PermissionResource, journey, erc, JourneySlim, JourneyVmAssignmentSlim,
  VmRelationshipSlim, journey_view,
}
use veervrat_app.Permissions.Check.{has_permission}
use veervrat_app.Journeys.{JourneyDetail, build_journey_slim}
use veervrat_app.Journeys.Operations.{find_or_throw, notify}
use veervrat_app.Erc.{ItemDetail, find_item}

-- `VALID_TRANSITIONS`
unfoldable pub valid_transitions : ErcStatus → List ErcStatus
valid_transitions ErcStatus.not_started = in_progress ∷ []
valid_transitions in_progress = submitted ∷ []
valid_transitions submitted = approved ∷ revisit ∷ []
valid_transitions _ = []

abbrev pub includes : List ErcStatus → ErcStatus → Bool
includes allowed s = some_of (λ t. erc_status_eq t s) allowed

-- the resource that a request on `journey_id` is checked against
abbrev pub resource_for : SessionUser → ℕ → JourneySlim → PermissionAction → PermissionResource
resource_for user journey_id slim journey_view = journey slim
resource_for user journey_id slim _ = erc slim (record {
  journey_id = journey_id;
  created_by_id = some user.id;
  status = some ErcStatus.not_started;
})

-- The recipients of `notifyJourneyVms`, each of them once.
abbrev pub add_once : ℕ → List ℕ → List ℕ
add_once id ids = if some_of (λ x. x == id) ids then ids else id ∷ ids

abbrev pub add_active : (actor_id : ℕ) → List JourneyVmAssignmentSlim → List ℕ → List ℕ
add_active actor_id [] ids = ids
add_active actor_id (a ∷ assignments) ids =
    let rest = add_active actor_id assignments in
    rest (if is_active a.state && not (a.vm_id == actor_id) then add_once a.vm_id ids else ids)

abbrev pub add_global : (actor_id : ℕ) → Option VmRelationshipSlim → List ℕ → List ℕ
add_global actor_id none ids = ids
add_global actor_id (some g) ids =
    if is_active g.state && not (g.vm_id == actor_id) then add_once g.vm_id ids else ids

unfoldable pub recipients : (actor_id : ℕ) → JourneySlim → List ℕ
recipients actor_id slim =
    add_global actor_id slim.global_vm_relationship (add_active actor_id slim.vm_assignments [])

abbrev pub notify_all : List ℕ → (actor_id : ℕ) → NotificationEventType → ℕ → Db → Db
notify_all [] actor_id event id db = db
notify_all (r ∷ others) actor_id event id db =
    notify_all others actor_id event id (notify r (some actor_id) event id db)

-- After a submission the vratmitras are told.
abbrev pub announce : SessionUser → JourneySlim → ℕ → ErcStatus → Db → Db
announce user slim id submitted db =
    notify_all (recipients user.id slim) user.id erc_closure_submitted id db
announce user slim id _ db = db

module _ (prisma : Prisma) where
  abbrev pub checked : SessionUser → ℕ → PermissionAction → JourneyDetail → Service JourneyDetail
  checked user journey_id action d = do
    require
        (has_permission user (resource_for user journey_id (build_journey_slim d) action) action)
        access_denied
    return d

  unfoldable pub get_journey_and_check_permission :
      SessionUser → ℕ → PermissionAction → Service JourneyDetail
  get_journey_and_check_permission user journey_id action =
      find_or_throw prisma journey_id >>= checked user journey_id action

  -- `if (!item || item.journeyId !== journeyId) throw`
  abbrev pub of_journey : (journey_id id : ℕ) → ItemDetail → Service JourneyErcItem
  of_journey journey_id id d = do
    require (d.item.journey_id == journey_id) (entity_not_found erc_item id)
    return d.item

  unfoldable pub get_item : (journey_id id : ℕ) → ErcType → Service JourneyErcItem
  get_item journey_id id kind db =
      (or_throw (entity_not_found erc_item id) (find_item id kind db) >>= of_journey journey_id id)
        db

  -- The permission, the item, and then what `rest` does with them.
  abbrev pub on_item :
      {A : Type 0}
      → SessionUser
      → (journey_id id : ℕ) → ErcType
      → PermissionAction
      → (JourneyDetail → JourneyErcItem → Service A)
      → Service A
  on_item user journey_id id kind action rest =
      get_journey_and_check_permission user journey_id action >>= λ d.
      get_item journey_id id kind >>= rest d
