-- ===== src/Erc/Steps/Custom.antt =====
-- The requests about a vratarthi's own items as steps of the table of items.
use veervrat_app.Base.{ℕ, refl, inl, inr, not, Option, some, is_some, arith, Bool-cases}
use veervrat_app.Model.{
  ErcType, pending, custom_erc_review_requested, SessionUser, Text, Db, return, require, modify,
  ◌>>=◌, ◌>>◌, access_denied, custom_erc_already_pending, Prisma,
}
use veervrat_app.Permissions.{custom_erc_create, custom_erc_submit_for_review}
use veervrat_app.Journeys.Operations.{notify}
use veervrat_app.Erc.{
  CustomErcData, edited_row, review_row, save_item, create_custom_item, update_custom_item,
  set_review_status, create_review, insert_item, lacks_column, custom_item,
}
use veervrat_app.Erc.Moves.{ItemMove, unchanged, moved, added}
use veervrat_app.Erc.Refines.{
  Steps, guard-Steps, saved-Steps, find-Steps, allowed-Steps, item-Steps, on_item-Steps, save-Steps,
}
use veervrat_app.Erc.Operations.{
  edit_allowed, ask_for_review, get_item, create_custom, may_edit, edit_found, edit_custom,
  review_found, submit_for_review,
}

module _ (prisma : Prisma) (user : SessionUser) (db : Db) (journey_id id : ℕ) (kind : ErcType) where
  pub submit_for_review-Steps :
      (fresh : ℕ) → Steps prisma user db (submit_for_review prisma fresh user journey_id id kind db)
  unfolding submit_for_review create_review set_review_status save_item
  submit_for_review-Steps fresh =
      on_item-Steps prisma user db journey_id id kind custom_erc_submit_for_review
        (review_found prisma fresh user id kind)
        (λ d i f p g e.
          guard-Steps prisma user db i.is_custom access_denied
            (require (not (is_some i.review_status)) custom_erc_already_pending
              >> ask_for_review prisma fresh user id kind d)
            (λ own.
              guard-Steps prisma user db (not (is_some i.review_status)) custom_erc_already_pending
                (ask_for_review prisma fresh user id kind d)
                (λ unsent.
                  saved-Steps prisma user db
                    (λ b.
                      set_review_status id pending kind (create_review fresh user.id id kind b).1)
                    (λ j.
                      modify
                        (notify d.row.vratarthi_id (some user.id) custom_erc_review_requested id)
                      >> return j)
                    (λ j db'. refl)
                    (rw g (
                      moved kind id i (review_row pending) g
                        (ItemMove.ask_review own (ground arith) refl) refl)))))

  pub edit_custom-Steps :
      (title : Option Text) (dto : CustomErcData)
      → Steps prisma user db (edit_custom prisma user journey_id id title dto kind db)
  unfolding edit_custom update_custom_item
  edit_custom-Steps title dto =
      find-Steps prisma user db journey_id
        (λ d.
          get_item prisma journey_id id kind
          >>= edit_found prisma user journey_id id title dto kind d)
        (λ d f.
          item-Steps prisma user db journey_id id kind
            (edit_found prisma user journey_id id title dto kind d)
            (λ i g e.
              guard-Steps prisma user db i.is_custom access_denied
                (require (not (is_some i.review_status)) custom_erc_already_pending
                  >> edit_allowed prisma user journey_id id title dto kind d i)
                (λ own.
                  guard-Steps prisma user db (not (is_some i.review_status))
                    custom_erc_already_pending
                    (edit_allowed prisma user journey_id id title dto kind d i)
                    (λ unsent.
                      guard-Steps prisma user db (may_edit prisma user journey_id d i) access_denied
                        (update_custom_item id title dto kind)
                        (λ allowed.
                          save-Steps prisma user db kind id (edited_row kind title dto) i g
                            (ItemMove.edit kind title dto own (ground arith) refl))))))

module _ (prisma : Prisma) (user : SessionUser) (db : Db) (fresh now journey_id : ℕ)
    (kind : ErcType) where
  pub create_custom-Steps :
      (title : Text) (dto : CustomErcData)
      → Steps prisma user db (create_custom prisma fresh now user journey_id title dto kind db)
  unfolding create_custom create_custom_item insert_item
  create_custom-Steps title dto =
      allowed-Steps prisma user db journey_id custom_erc_create
        (λ d. create_custom_item fresh now journey_id user.id title dto kind)
        (λ d f p. elim (Bool-cases (lacks_column kind dto)) [
          | inl a ↦ rw a (unchanged refl)
          | inr a ↦ rw a (
              added (custom_item kind fresh now journey_id user.id title dto)
                (record {
                  status = refl;
                  started_at = refl;
                  submitted_at = refl;
                  approved_at = refl;
                  review_status = refl;
                })
                refl)
        ])
