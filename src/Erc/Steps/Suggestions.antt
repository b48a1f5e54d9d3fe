-- ===== src/Erc/Steps/Suggestions.antt =====
-- The requests about sidenotes as steps of the table of items.
use veervrat_app.Base.{ℕ, ◌≡◌, refl, Option, none, some, find_in}
use veervrat_app.Model.{
  ErcType, vm_suggestion_new, VmSidenote, SessionUser, Text, Db, return, or_throw, modify, ◌>>=◌,
  ◌>>◌, entity_not_found, sidenote, Prisma,
}
use veervrat_app.Permissions.{erc_select, erc_suggest}
use veervrat_app.Journeys.{JourneyDetail}
use veervrat_app.Journeys.Operations.{notify}
use veervrat_app.Erc.{
  upsert_sidenote, revoke_sidenote, acknowledge_sidenote, upsert_found, names_item, active_sidenote,
  change_sidenote, revoked_row, acknowledged_row,
}
use veervrat_app.Erc.Moves.{unchanged}
use veervrat_app.Erc.Refines.{Steps, saved-Steps, on_item-Steps}
use veervrat_app.Erc.Operations.{
  suggest_item, suggest_found, unsuggest_item, unsuggest_found, tell_dismissed,
  acknowledge_sidenote_item,
}

module _ (prisma : Prisma) (user : SessionUser) (db : Db) (journey_id id : ℕ) (kind : ErcType) where
  upsert_found-Steps :
      (fresh : ℕ) (text : Text) (o : Option VmSidenote)
      → Steps prisma user db (upsert_found fresh id user.id text kind o db)
  upsert_found-Steps fresh text none = unchanged refl
  upsert_found-Steps fresh text (some s) = unchanged refl

  change_sidenote-Steps :
      (change : VmSidenote → VmSidenote) (o : Option VmSidenote)
      → Steps prisma user db (change_sidenote change o db)
  change_sidenote-Steps change none = unchanged refl
  change_sidenote-Steps change (some s) = unchanged refl

  pub suggest_item-Steps :
      (fresh : ℕ) (text : Text)
      → Steps prisma user db (suggest_item prisma fresh user journey_id id text kind db)
  unfolding suggest_item upsert_sidenote
  suggest_item-Steps fresh text =
      on_item-Steps prisma user db journey_id id kind erc_suggest
        (suggest_found prisma fresh user id text kind)
        (λ d i f p g e.
          saved-Steps prisma user db (upsert_sidenote fresh id user.id text kind)
            (λ s.
              modify (notify d.row.vratarthi_id (some user.id) vm_suggestion_new id) >> return s)
            (λ s db'. refl)
            (upsert_found-Steps fresh text (find_in (names_item kind id) db.sidenotes)))

  pub unsuggest_item-Steps :
      (now : ℕ) → Steps prisma user db (unsuggest_item prisma now user journey_id id kind db)
  unfolding unsuggest_item revoke_sidenote
  unsuggest_item-Steps now =
      on_item-Steps prisma user db journey_id id kind erc_suggest
        (unsuggest_found prisma now user id kind)
        (λ d i f p g e.
          saved-Steps prisma user db (revoke_sidenote now id kind) (tell_dismissed prisma user id d)
            (λ o db'. told d o db')
            (change_sidenote-Steps (revoked_row now) (active_sidenote kind id db)))
    where
      told :
          (d : JourneyDetail) (o : Option VmSidenote) (db' : Db)
          → (tell_dismissed prisma user id d o db').1.items ≡ db'.items
      told d none db' = refl
      told d (some s) db' = refl

  pub acknowledge_sidenote_item-Steps :
      (now : ℕ)
      → Steps prisma user db (acknowledge_sidenote_item prisma now user journey_id id kind db)
  unfolding acknowledge_sidenote_item acknowledge_sidenote
  acknowledge_sidenote_item-Steps now =
      on_item-Steps prisma user db journey_id id kind erc_select
        (λ d i. acknowledge_sidenote now id kind >>= or_throw (entity_not_found sidenote id))
        (λ d i f p g e.
          saved-Steps prisma user db (acknowledge_sidenote now id kind)
            (or_throw (entity_not_found sidenote id)) (λ o db'. answered o db')
            (change_sidenote-Steps (acknowledged_row now) (active_sidenote kind id db)))
    where
      answered :
          (o : Option VmSidenote) (db' : Db)
          → (or_throw (entity_not_found sidenote id) o db').1.items ≡ db'.items
      answered none db' = refl
      answered (some s) db' = refl
