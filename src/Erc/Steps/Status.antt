-- ===== src/Erc/Steps/Status.antt =====
-- The changes of an item's status, activity and existence as steps of the table of items.
use veervrat_app.Base.{
  ℕ, ◌≡◌, refl, inl, inr, true, false, some, List, [], ◌∷◌, find_in, arith, Option-cases, some_of,
}
use veervrat_app.Model.{
  ErcStatus, in_progress, submitted, approved, revisit, ErcType, NotificationEventType,
  erc_closure_approved, erc_returned_for_revisit, JourneyErcItem, SessionUser, Db, return, query,
  require, modify, ◌>>=◌, ◌>>◌, access_denied, invalid_erc_status_transition, Prisma,
}
use veervrat_app.Permissions.{
  PermissionAction, erc_select, erc_approve_closure, erc_revisit, erc_deactivate, erc_remove,
}
use veervrat_app.Journeys.{JourneyDetail, find_by_id, build_journey_slim}
use veervrat_app.Journeys.Operations.{notify}
use veervrat_app.Erc.{
  is_item, is_pool_item, is_copy_of, status_row, activity_row, set_status, set_deactivated,
  remove_item, select_pool_item, insert_item, find_by_pool_item_id, copy_of,
}
use veervrat_app.Erc.Moves.{ItemMove, unchanged, added, removed}
use veervrat_app.Erc.Refines.{
  May, Steps, guard-Steps, saved-Steps, allowed-Steps, on_item-Steps, save-Steps,
}
use veervrat_app.Erc.Operations.{
  valid_transitions, may_set, may_move, is_submitted, announce, recipients, notify_all,
  update_found, answer_found, save_and_announce, save_and_answer, update_status, approve_item,
  revisit_item, deactivate, reactivate, remove, select_item, unless_selected,
}

notify_all-items :
    (others : List ℕ) (actor id : ℕ) (event : NotificationEventType) (db : Db)
    → (notify_all others actor event id db).items ≡ db.items
notify_all-items [] actor id event db = refl
notify_all-items (r ∷ others) actor id event db =
    notify_all-items others actor id event (notify r (some actor) event id db)

module _ (prisma : Prisma) (user : SessionUser) (db : Db) (journey_id id : ℕ) (kind : ErcType) where
  pub update_status-Steps :
      (now : ℕ) (target : ErcStatus)
      → Steps prisma user db (update_status prisma now user journey_id id target kind db)
  unfolding update_status set_status valid_transitions some_of
  update_status-Steps now target =
      on_item-Steps prisma user db journey_id id kind erc_select
        (update_found prisma now user journey_id id target kind)
        (λ d i f p g e.
          guard-Steps prisma user db (may_move prisma i target)
            (invalid_erc_status_transition i.status target)
            (require (may_set prisma user journey_id (build_journey_slim d) i target) access_denied
              >> save_and_announce prisma now user id target kind d)
            (λ fits.
              guard-Steps prisma user db
                (may_set prisma user journey_id (build_journey_slim d) i target) access_denied
                (save_and_announce prisma now user id target kind d)
                (λ allowed.
                  saved-Steps prisma user db (set_status now id target kind)
                    (λ j. modify (announce user (build_journey_slim d) id target) >> return j)
                    (λ j db'. announce-items d target db')
                    (save-Steps prisma user db kind id (status_row now target) i g
                      (target-Move d i f e target fits allowed)))))
    where
      announce-items :
          (d : JourneyDetail) (target : ErcStatus) (db' : Db)
          → (announce user (build_journey_slim d) id target db').items ≡ db'.items
      announce-items d submitted db' =
          notify_all-items (recipients user.id (build_journey_slim d)) user.id id _ db'
      announce-items d ErcStatus.not_started db' = refl
      announce-items d in_progress db' = refl
      announce-items d approved db' = refl
      announce-items d revisit db' = refl

      target-Move :
          (d : JourneyDetail) (i : JourneyErcItem)
          → find_by_id prisma journey_id db ≡ some d
          → i.journey_id ≡ journey_id
          → (target : ErcStatus) → may_move prisma i target ≡ true
          → may_set prisma user journey_id (build_journey_slim d) i target ≡ true
          → ItemMove
              (May prisma user db erc_approve_closure)
              (May prisma user db erc_revisit)
              i
              (status_row now target i)
      target-Move d i f e ErcStatus.not_started m s = absurd (ground arith)
      target-Move d i f e in_progress m s = ItemMove.begin now (ground arith) refl
      target-Move d i f e submitted m s = ItemMove.submit now (ground arith) refl
      target-Move d i f e approved m s =
          ItemMove.approve now (ground arith) (d, (_, rw e f, s)) refl
      target-Move d i f e revisit m s = absurd (ground arith)

  answer-Steps :
      (now : ℕ) (action : PermissionAction) (answer : ErcStatus) (event : NotificationEventType)
      (d : JourneyDetail) (i : JourneyErcItem)
      → find_in (is_item kind id) db.items ≡ some i
      → (i.status ≡ submitted
          → ItemMove
              (May prisma user db erc_approve_closure)
              (May prisma user db erc_revisit)
              i
              (status_row now answer i))
      → Steps prisma user db (answer_found prisma now user id answer event kind d i db)
  unfolding set_status
  answer-Steps now action answer event d i g m =
      guard-Steps prisma user db (is_submitted prisma i)
        (invalid_erc_status_transition i.status answer)
        (save_and_answer prisma now user id answer event kind d)
        (λ sent.
          saved-Steps prisma user db (set_status now id answer kind)
            (λ j. modify (notify d.row.vratarthi_id (some user.id) event id) >> return j)
            (λ j db'. refl)
            (save-Steps prisma user db kind id (status_row now answer) i g (m (ground arith))))

  pub approve_item-Steps :
      (now : ℕ) → Steps prisma user db (approve_item prisma now user journey_id id kind db)
  unfolding approve_item
  approve_item-Steps now =
      on_item-Steps prisma user db journey_id id kind erc_approve_closure
        (answer_found prisma now user id approved erc_closure_approved kind)
        (λ d i f p g e.
          answer-Steps now erc_approve_closure approved erc_closure_approved d i g
            (λ sent. ItemMove.approve now sent (d, (_, rw e f, p)) refl))

  pub revisit_item-Steps :
      (now : ℕ) → Steps prisma user db (revisit_item prisma now user journey_id id kind db)
  unfolding revisit_item
  revisit_item-Steps now =
      on_item-Steps prisma user db journey_id id kind erc_revisit
        (answer_found prisma now user id revisit erc_returned_for_revisit kind)
        (λ d i f p g e.
          answer-Steps now erc_revisit revisit erc_returned_for_revisit d i g
            (λ sent. ItemMove.give_back now sent (d, (_, rw e f, p)) refl))

  pub deactivate-Steps : Steps prisma user db (deactivate prisma user journey_id id kind db)
  unfolding deactivate set_deactivated
  deactivate-Steps =
      on_item-Steps prisma user db journey_id id kind erc_deactivate
        (λ d i. set_deactivated id true kind)
        (λ d i f p g e.
          save-Steps prisma user db kind id (activity_row true) i g (ItemMove.switch true refl))

  pub reactivate-Steps : Steps prisma user db (reactivate prisma user journey_id id kind db)
  unfolding reactivate set_deactivated
  reactivate-Steps =
      on_item-Steps prisma user db journey_id id kind erc_deactivate
        (λ d i. set_deactivated id false kind)
        (λ d i f p g e.
          save-Steps prisma user db kind id (activity_row false) i g (ItemMove.switch false refl))

  pub remove-Steps : Steps prisma user db (remove prisma user journey_id id kind db)
  unfolding remove remove_item
  remove-Steps =
      on_item-Steps prisma user db journey_id id kind erc_remove (λ d i. remove_item id kind)
        (λ d i f p g e. rw g (removed kind id refl))

module _ (prisma : Prisma) (user : SessionUser) (db : Db) (fresh now journey_id : ℕ)
    (kind : ErcType) where
  pub select_item-Steps :
      (pool_id : ℕ)
      → Steps prisma user db (select_item prisma fresh now user journey_id pool_id kind db)
  unfolding select_item select_pool_item insert_item find_by_pool_item_id
  select_item-Steps pool_id =
      allowed-Steps prisma user db journey_id erc_select
        (λ d. query (find_by_pool_item_id prisma journey_id pool_id kind) >>= λ existing.
          unless_selected prisma existing (select_pool_item fresh now journey_id pool_id kind))
        (λ d f p.
          elim (Option-cases (prisma.find_first (is_copy_of kind journey_id pool_id) db.items)) [
            | inr (i, a) ↦ rw a (unchanged refl)
            | inl a ↦ elim (Option-cases (find_in (is_pool_item kind pool_id) db.pool)) [
              | inl b ↦ rw (a, b) (unchanged refl)
              | inr (q, b) ↦
                  rw (a, b)
                    (added (copy_of fresh now journey_id q)
                      (record {
                        status = refl;
                        started_at = refl;
                        submitted_at = refl;
                        approved_at = refl;
                        review_status = refl;
                      })
                      refl)
            ]
          ])
