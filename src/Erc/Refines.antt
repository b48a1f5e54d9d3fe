-- ===== src/Erc/Refines.antt =====
-- erc.service.ts refines the steps of `Moves`: every request, however it ends, makes one of them.
use veervrat_app.Base.{
  ℕ, ◌≡◌, refl, sym, subst, Bool, true, false, Option, none, some, ◌==◌, find_in, arith,
}
use veervrat_app.Model.{
  ErcStatus, in_progress, submitted, approved, revisit, ErcType, NotificationEventType,
  JourneyErcItem, VmSidenote, SessionUser, Text, Db, Service, Result, ok, err, throw, return, query,
  or_throw, require, modify, ◌>>=◌, ◌>>◌, AppError, entity_not_found, erc_item, access_denied,
  invalid_erc_status_transition, custom_erc_already_pending, Prisma,
}
use veervrat_app.Model
use veervrat_app.Permissions.{PermissionAction, erc, ErcSlim, erc_approve_closure, erc_revisit}
use veervrat_app.Permissions.Check.{has_permission}
use veervrat_app.Journeys.{JourneyDetail, find_by_id, build_journey_slim}
use veervrat_app.Journeys.Operations.{find_or_throw}
use veervrat_app.Erc.{is_item, detail_of, find_item, save_item}
use veervrat_app.Erc.Moves.{ItemMove, TableStep, unchanged, moved}
use veervrat_app.Erc.Operations.{
  resource_for, get_journey_and_check_permission, of_journey, get_item, on_item,
}

module _ (prisma : Prisma) (user : SessionUser) (db : Db) where
  -- The caller may take the action on some item of the journey.
  abbrev pub May : PermissionAction → ℕ → Type 0
  May action journey_id =
      (d : JourneyDetail) × ((e : ErcSlim) × (find_by_id prisma journey_id db ≡ some d)
        × (has_permission user (erc (build_journey_slim d) e) action ≡ true))

  -- The call, however it ended, made a step of the table.
  abbrev pub Steps : {B : Type 0} → Result B × Db → Type 0
  Steps (r, db') = TableStep (May erc_approve_closure) (May erc_revisit) db.items db'.items

  pub guard-Steps :
      {B : Type 0} (test : Bool) (e : AppError) (k : Service B)
      → (test ≡ true → Steps (k db))
      → Steps ((require test e >> k) db)
  guard-Steps true e k h = h refl
  guard-Steps false e k h = unchanged refl

  -- What follows a write that succeeded leaves the table alone.
  pub saved-Steps :
      {A B : Type 0} (m : Service A) (k : A → Service B)
      → ((a : A) (db' : Db) → (k a db').1.items ≡ db'.items)
      → Steps (m db)
      → Steps ((m >>= k) db)
  saved-Steps {A} {B} m k same h = result-Steps (m db).0 (m db).1 h
    where
      result-Steps :
          (r : Result A) (db' : Db)
          → Steps (r, db')
          → Steps {B = B} (elim r [ ok a ↦ k a db' | err e ↦ throw e db' ])
      result-Steps (ok a) db' h =
          subst (TableStep (May erc_approve_closure) (May erc_revisit) db.items) (sym (same a db'))
            h
      result-Steps (err e) db' h = h

  journey-Steps :
      {B : Type 0} (e : AppError) (o : Option JourneyDetail) (k : JourneyDetail → Service B)
      → ((d : JourneyDetail) → o ≡ some d → Steps (k d db))
      → Steps ((or_throw e o >>= k) db)
  journey-Steps e none k h = unchanged refl
  journey-Steps e (some d) k h = h d refl

  pub find-Steps :
      {B : Type 0} (journey_id : ℕ) (k : JourneyDetail → Service B)
      → ((d : JourneyDetail) → find_by_id prisma journey_id db ≡ some d → Steps (k d db))
      → Steps ((find_or_throw prisma journey_id >>= k) db)
  find-Steps journey_id k h =
      journey-Steps (entity_not_found Model.journey journey_id) (find_by_id prisma journey_id db) k
        h

  checked-Steps :
      {B : Type 0} (test : Bool) (d : JourneyDetail) (k : JourneyDetail → Service B)
      → (test ≡ true → Steps (k d db))
      → Steps (((require test access_denied >> return d) >>= k) db)
  checked-Steps true d k h = h refl
  checked-Steps false d k h = unchanged refl

  found-Steps :
      {B : Type 0} (e : AppError) (o : Option JourneyDetail) (test : JourneyDetail → Bool)
      (k : JourneyDetail → Service B)
      → ((d : JourneyDetail) → o ≡ some d → test d ≡ true → Steps (k d db))
      → Steps (((or_throw e o >>= λ d. require (test d) access_denied >> return d) >>= k) db)
  found-Steps e none test k h = unchanged refl
  found-Steps e (some d) test k h = checked-Steps (test d) d k (h d refl)

  -- After the lookup and the check of a permission.
  pub allowed-Steps :
      {B : Type 0} (journey_id : ℕ) (action : PermissionAction) (k : JourneyDetail → Service B)
      → ((d : JourneyDetail)
          → find_by_id prisma journey_id db ≡ some d
          → has_permission user (resource_for user journey_id (build_journey_slim d) action) action
            ≡ true
          → Steps (k d db))
      → Steps ((get_journey_and_check_permission prisma user journey_id action >>= k) db)
  unfolding get_journey_and_check_permission
  allowed-Steps journey_id action k h =
      found-Steps (entity_not_found Model.journey journey_id) (find_by_id prisma journey_id db)
        (λ d.
          has_permission user (resource_for user journey_id (build_journey_slim d) action) action)
        k h

  place-Steps :
      {B : Type 0} (test : Bool) (e : AppError) (i : JourneyErcItem)
      (k : JourneyErcItem → Service B)
      → (test ≡ true → Steps (k i db))
      → Steps (((require test e >> return i) >>= k) db)
  place-Steps true e i k h = h refl
  place-Steps false e i k h = unchanged refl

  row-Steps :
      {B : Type 0} (journey_id id : ℕ) (o : Option JourneyErcItem) (k : JourneyErcItem → Service B)
      → ((i : JourneyErcItem) → o ≡ some i → i.journey_id ≡ journey_id → Steps (k i db))
      → Steps (
          ((or_throw (entity_not_found erc_item id) (detail_of db o)
                >>= of_journey prisma journey_id id)
              >>= k)
            db)
  row-Steps journey_id id none k h = unchanged refl
  row-Steps journey_id id (some i) k h =
      place-Steps (i.journey_id == journey_id) (entity_not_found erc_item id) i k
        (λ e. h i refl (ground arith))

  -- After the lookup of the item, which is one of this journey.
  pub item-Steps :
      {B : Type 0} (journey_id id : ℕ) (kind : ErcType) (k : JourneyErcItem → Service B)
      → ((i : JourneyErcItem)
          → find_in (is_item kind id) db.items ≡ some i
          → i.journey_id ≡ journey_id
          → Steps (k i db))
      → Steps ((get_item prisma journey_id id kind >>= k) db)
  unfolding get_item find_item
  item-Steps journey_id id kind k h =
      row-Steps journey_id id (find_in (is_item kind id) db.items) k h

  -- After both, the way most requests begin.
  pub on_item-Steps :
      {B : Type 0} (journey_id id : ℕ) (kind : ErcType) (action : PermissionAction)
      (k : JourneyDetail → JourneyErcItem → Service B)
      → ((d : JourneyDetail) (i : JourneyErcItem)
          → find_by_id prisma journey_id db ≡ some d
          → has_permission user (resource_for user journey_id (build_journey_slim d) action) action
            ≡ true
          → find_in (is_item kind id) db.items ≡ some i
          → i.journey_id ≡ journey_id
          → Steps (k d i db))
      → Steps (on_item prisma user journey_id id kind action k db)
  on_item-Steps journey_id id kind action k h =
      allowed-Steps journey_id action (λ d. get_item prisma journey_id id kind >>= k d)
        (λ d f p. item-Steps journey_id id kind (k d) (λ i g e. h d i f p g e))

  -- A saved change is a step, if the row allows the move.
  pub save-Steps :
      (kind : ErcType) (id : ℕ) (change : JourneyErcItem → JourneyErcItem) (row : JourneyErcItem)
      → find_in (is_item kind id) db.items ≡ some row
      → ItemMove (May erc_approve_closure) (May erc_revisit) row (change row)
      → Steps (save_item kind id change db)
  unfolding save_item
  save-Steps kind id change row f m = rw f (moved kind id row change f m refl)
