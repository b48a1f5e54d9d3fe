-- ===== src/Moderation.antt =====
-- apps/api/src/modules/moderation: the review of the custom items that their authors submit. This
-- file is moderation.repository.ts, without the queue and the page of a review; `Operations` is
-- moderation.service.ts.
pub mod Operations
pub mod Decisions
pub mod Requests
pub mod Promotion
pub mod Tests
use veervrat_app.Base.{
  ℕ, Bool, true, false, Option, none, some, List, [], ◌∷◌, ◌==◌, find_in, update_one,
}
use veervrat_app.Model.{
  ReviewStatus, pending, approved, rejected, ErcType, exposure, resolution, challenge, ErcContent,
  Journey, JourneyErcItem, PoolItem, CustomErcReview, Text, Db, Service, throw, return,
  record_not_found,
}
use veervrat_app.Erc.{is_item, weaknesses_of}

abbrev pub is_pending_review : ReviewStatus → Bool
is_pending_review pending = true
is_pending_review _ = false

unfoldable pub find_review_by_id : ℕ → Db → Option CustomErcReview
find_review_by_id id db = find_in (λ r. r.id == id) db.reviews

-- the columns of an item of this kind that the pool's table has
abbrev pub promoted_content : ErcType → ErcContent → ErcContent
promoted_content exposure c = record c {
  duration_weeks = none;
  frequency_per_week = none;
  frequency_label = none;
  duration_days = none;
}
promoted_content resolution c = record c { tier = none; duration_days = none }
promoted_content challenge c = record c {
  tier = none;
  duration_weeks = none;
  frequency_per_week = none;
  frequency_label = none;
}

-- The item of the pool that a custom item becomes, about its journey's sentence, for the
-- weaknesses `weakness_ids`.
abbrev pub promoted : ErcType → (fresh now sentence_id : ℕ) → List ℕ → JourneyErcItem → PoolItem
promoted kind fresh now sentence_id weakness_ids i = record {
  kind = kind;
  id = fresh;
  sentence_id = sentence_id;
  title_en = i.title_en;
  content = promoted_content kind i.content;
  weakness_ids = weakness_ids;
  sort_order = 0;
  created_at = now;
}

abbrev pub approved_review : (now reviewer_id : ℕ) → CustomErcReview → CustomErcReview
approved_review now reviewer_id r = record r {
  status = approved;
  reviewed_by_id = some reviewer_id;
  reviewed_at = some now;
}

-- The transaction's writes: with a row missing none of them stays.
abbrev pub promote_reviewed :
    (now review_id reviewer_id : ℕ) → PoolItem → Option CustomErcReview → Service ℕ
promote_reviewed now review_id reviewer_id p none db = throw record_not_found db
promote_reviewed now review_id reviewer_id p (some r) db = return p.id (record db {
  pool = p ∷ db.pool;
  reviews = update_one (λ x. x.id == review_id) (approved_review now reviewer_id) db.reviews;
})

abbrev pub promote_for :
    (fresh now review_id reviewer_id journey_id : ℕ)
    → ErcType
    → JourneyErcItem
    → Option Journey
    → Service ℕ
promote_for fresh now review_id reviewer_id journey_id kind i none db = throw record_not_found db
promote_for fresh now review_id reviewer_id journey_id kind i (some j) db =
    promote_reviewed now review_id reviewer_id
      (promoted kind fresh now j.sentence_id (weaknesses_of journey_id db.journeys) i)
      (find_review_by_id review_id db) db

abbrev pub promote_item :
    (fresh now review_id reviewer_id journey_id : ℕ) → ErcType → Option JourneyErcItem → Service ℕ
promote_item fresh now review_id reviewer_id journey_id kind none db = throw record_not_found db
promote_item fresh now review_id reviewer_id journey_id kind (some i) db =
    promote_for fresh now review_id reviewer_id journey_id kind i
      (find_in (λ j. j.id == i.journey_id) db.journeys) db

-- `fresh` is the id of the new row of the pool.
unfoldable pub approve_and_promote :
    (fresh now review_id reviewer_id item_id journey_id : ℕ) → ErcType → Service ℕ
approve_and_promote fresh now review_id reviewer_id item_id journey_id kind db =
    promote_item fresh now review_id reviewer_id journey_id kind
      (find_in (is_item kind item_id) db.items) db

abbrev pub rejected_review : (now reviewer_id : ℕ) → Text → CustomErcReview → CustomErcReview
rejected_review now reviewer_id reason r = record r {
  status = rejected;
  reviewed_by_id = some reviewer_id;
  reviewed_at = some now;
  review_note = some reason;
}

abbrev pub reject_found :
    (now review_id reviewer_id : ℕ) → Text → Option CustomErcReview → Service (Unit {0})
reject_found now review_id reviewer_id reason none db = throw record_not_found db
reject_found now review_id reviewer_id reason (some r) db = return tt (record db {
  reviews = update_one (λ x. x.id == review_id) (rejected_review now reviewer_id reason) db.reviews;
})

unfoldable pub set_rejected : (now review_id reviewer_id : ℕ) → Text → Service (Unit {0})
set_rejected now review_id reviewer_id reason db =
    reject_found now review_id reviewer_id reason (find_review_by_id review_id db) db
