-- ===== src/Moderation/Decisions.antt =====
-- What a decision of a moderator changes.
use veervrat_app.Base.{
  ℕ, ◌≡◌, ◌≢◌, refl, sym, subst, ◌⊎◌, inl, inr, Bool, true, Option, none, some, List, ◌==◌, find_in,
  ==_iff, find_in-eq-some, update_one, arith,
}
use veervrat_app.Model.{
  pending, ReviewStatus, CustomErcReview, SessionUser, Text, Db, require, ◌>>=◌, ◌>>◌,
  access_denied, bad_request, conflict, entity_not_found, review, missing_argument, guard-Outcome,
  found-Outcome,
}
use veervrat_app.Erc.{update_custom_item, save_item, set_review_status, find_item}
use veervrat_app.Moderation.{
  is_pending_review, find_review_by_id, approve_and_promote, set_rejected, approved_review,
  rejected_review,
}
use veervrat_app.Moderation.Operations.{
  CustomErcEdits, apply_edits, may_moderate, reviewed_item, approve_with_item, approve_found,
  approve_checked, approve_review, trim, is_nonempty, reject_item_of, reject_found_review,
  reject_checked, reject_review,
}

-- What a moderator `by` may do with a review: decide it, once.
pub data ReviewMove (by now : ℕ) (r r' : CustomErcReview) : Type 0 where
  approve :
      r.status ≡ pending → r.item_id ≢ none → r' ≡ approved_review now by r → ReviewMove by now r r'
  reject :
      (reason : Text)
      → r.status ≡ pending
      → is_nonempty reason ≡ true
      → r' ≡ rejected_review now by reason r
      → ReviewMove by now r r'

-- What a call of a moderator may do to the table of reviews: nothing, or one such move. It adds
-- and deletes no review.
pub data ReviewStep (by now : ℕ) (rows rows' : List CustomErcReview) : Type 0 where
  same : rows' ≡ rows → ReviewStep by now rows rows'
  decided :
      (p : CustomErcReview → Bool) (r : CustomErcReview)
      (change : CustomErcReview → CustomErcReview)
      → find_in p rows ≡ some r
      → ReviewMove by now r (change r)
      → rows' ≡ update_one p change rows
      → ReviewStep by now rows rows'

module _ (fresh now : ℕ) (user : SessionUser) where
  abbrev pub Kept : Db → Db → Type 0
  Kept db db' = ReviewStep user.id now db.reviews db'.reviews

  Kept_refl : (db : Db) → Kept db db
  Kept_refl db = same refl

  edits-reviews :
      (edits : Option CustomErcEdits) (r : CustomErcReview) (id : ℕ) (db : Db)
      → (apply_edits edits id r.entity_type db).1.reviews ≡ db.reviews
  unfolding update_custom_item save_item
  edits-reviews none r id db = refl
  edits-reviews (some e) r id db = ground arith

  promote-reviews :
      (r : CustomErcReview) (item_id journey_id : ℕ) (db : Db)
      → let db' =
          (approve_and_promote fresh now r.id user.id item_id journey_id r.entity_type db).1 in
        (db'.reviews ≡ db.reviews)
        ⊎ (db'.reviews ≡ update_one (λ x. x.id == r.id) (approved_review now user.id) db.reviews)
  unfolding approve_and_promote find_review_by_id
  promote-reviews r item_id journey_id db = ground arith

  status-reviews :
      (status : ReviewStatus) (r : CustomErcReview) (id : ℕ) (db : Db)
      → (set_review_status id status r.entity_type db).1.reviews ≡ db.reviews
  unfolding set_review_status save_item
  status-reviews status r id db = ground arith

  reject-reviews :
      (reason : Text) (r : CustomErcReview) (db : Db)
      → let db' = (reject_item_of now user reason r db).1 in
        (db'.reviews ≡ db.reviews)
        ⊎ (db'.reviews
            ≡ update_one (λ x. x.id == r.id) (rejected_review now user.id (trim reason)) db.reviews)
  unfolding set_rejected find_review_by_id set_review_status save_item
  reject-reviews reason r db = ground arith

  approve-reviews :
      (edits : Option CustomErcEdits) (r : CustomErcReview) (item_id : ℕ) (db : Db)
      → let db' = (approve_with_item fresh now user r edits item_id db).1 in
        (db'.reviews ≡ db.reviews)
        ⊎ (db'.reviews ≡ update_one (λ x. x.id == r.id) (approved_review now user.id) db.reviews)
  unfolding find_item approve_and_promote find_review_by_id update_custom_item save_item
      set_review_status
  approve-reviews edits r item_id db = ground arith

  module _ (id : ℕ) (db : Db) where
    found-id :
        (r : CustomErcReview)
        → find_review_by_id id db ≡ some r
        → find_in (λ x. x.id == r.id) db.reviews ≡ some r
    unfolding find_review_by_id
    found-id r f =
        subst (λ k. find_in (λ x. x.id == k) db.reviews ≡ some r)
          (sym ((==_iff r.id id).0 (find_in-eq-some (λ x. x.id == id) db.reviews r f).1)) f

    written :
        (r : CustomErcReview) (change : CustomErcReview → CustomErcReview)
        (rows' : List CustomErcReview)
        → find_review_by_id id db ≡ some r
        → ReviewMove user.id now r (change r)
        → (rows' ≡ db.reviews) ⊎ (rows' ≡ update_one (λ x. x.id == r.id) change db.reviews)
        → ReviewStep user.id now db.reviews rows'
    written r change rows' f m (inl e) = same e
    written r change rows' f m (inr e) = decided (λ x. x.id == r.id) r change (found-id r f) m e

    pub approve_review-Kept :
        (edits : Option CustomErcEdits) → Kept db (approve_review fresh now user id edits db).1
    unfolding approve_review
    approve_review-Kept edits =
        guard-Outcome Kept Kept_refl db (may_moderate user) access_denied
          (approve_checked fresh now user id edits)
          (λ _.
            found-Outcome Kept Kept_refl db (entity_not_found review id) (find_review_by_id id db)
              (approve_found fresh now user edits)
              (λ r f.
                guard-Outcome Kept Kept_refl db (is_pending_review r.status) conflict
                  (reviewed_item r >>= approve_with_item fresh now user r edits)
                  (λ p.
                    found-Outcome Kept Kept_refl db missing_argument r.item_id
                      (approve_with_item fresh now user r edits)
                      (λ item_id e.
                        written r (approved_review now user.id) _ f
                          (ReviewMove.approve (ground arith) (λ h. ground (arith, e, h)) refl)
                          (approve-reviews edits r item_id db)))))

    pub reject_review-Kept : (reason : Text) → Kept db (reject_review now user id reason db).1
    unfolding reject_review
    reject_review-Kept reason =
        guard-Outcome Kept Kept_refl db (may_moderate user) access_denied
          (require (is_nonempty (trim reason)) bad_request >> reject_checked now user id reason)
          (λ _.
            guard-Outcome Kept Kept_refl db (is_nonempty (trim reason)) bad_request
              (reject_checked now user id reason)
              (λ s.
                found-Outcome Kept Kept_refl db (entity_not_found review id)
                  (find_review_by_id id db) (reject_found_review now user reason)
                  (λ r f.
                    guard-Outcome Kept Kept_refl db (is_pending_review r.status) conflict
                      (reject_item_of now user reason r)
                      (λ p.
                        written r (rejected_review now user.id (trim reason)) _ f
                          (ReviewMove.reject (trim reason) (ground arith) s refl)
                          (reject-reviews reason r db)))))
