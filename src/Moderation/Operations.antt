-- ===== src/Moderation/Operations.antt =====
-- The decisions of apps/api/src/modules/moderation/moderation.service.ts. A review whose item was
-- deleted names none, and a lookup by a null id is answered by Prisma's error on an argument.
use veervrat_app.Base.{ℕ, Bool, true, false, ◌||◌, Option, none, some, [], ◌∷◌, is_some}
use veervrat_app.Model.{
  approved, rejected, ErcType, CustomErcReview, custom_erc_approved, custom_erc_rejected,
  SessionUser, Text, Service, return, or_throw, require, modify, ◌>>=◌, ◌>>◌, access_denied,
  entity_not_found, erc_item, review, conflict, bad_request, missing_argument,
}
use veervrat_app.Permissions.{platform, moderator_review_custom_erc}
use veervrat_app.Permissions.Check.{has_permission}
use veervrat_app.Journeys.Operations.{notify}
use veervrat_app.Erc.{CustomErcData, ItemDetail, find_item, update_custom_item, set_review_status}
use veervrat_app.Tiptap.PlainText.{trim_start, trim_end}
use veervrat_app.Moderation.{
  is_pending_review, find_review_by_id, approve_and_promote, set_rejected,
}

-- a moderator's changes of the item, each of them if it is given
pub record CustomErcEdits : Type 0 where
  pub title_en : Option Text
  pub description_en : Option Text
  pub duration_weeks : Option ℕ
  pub frequency_per_week : Option ℕ
  pub frequency_label : Option Text
  pub duration_days : Option ℕ

abbrev pub edits_data : CustomErcEdits → CustomErcData
edits_data e = record {
  description_en = e.description_en;
  tier = none;
  duration_weeks = e.duration_weeks;
  frequency_per_week = e.frequency_per_week;
  frequency_label = e.frequency_label;
  duration_days = e.duration_days;
}

-- `Object.keys(dto.edits).length > 0`
abbrev pub has_keys : CustomErcEdits → Bool
has_keys e =
    is_some e.title_en
    || is_some e.description_en
    || is_some e.duration_weeks
    || is_some e.frequency_per_week
    || is_some e.frequency_label
    || is_some e.duration_days

abbrev pub may_moderate : SessionUser → Bool
may_moderate user = has_permission user (platform none none) moderator_review_custom_erc

abbrev pub apply_edits : Option CustomErcEdits → ℕ → ErcType → Service (Unit {0})
apply_edits none id kind = return tt
apply_edits (some e) id kind = elim (has_keys e) [
  | true ↦ update_custom_item id e.title_en (edits_data e) kind >>= λ i. return tt
  | false ↦ return tt
]

-- the item that the review is about, as `findById` of erc.repository.ts takes it
abbrev pub reviewed_item : CustomErcReview → Service ℕ
reviewed_item r = or_throw missing_argument r.item_id

abbrev pub approve_item_of :
    (fresh now : ℕ)
    → SessionUser
    → CustomErcReview
    → (item_id : ℕ) → Option CustomErcEdits
    → ItemDetail
    → Service ℕ
approve_item_of fresh now user r item_id edits d =
    apply_edits edits item_id r.entity_type
    >> (approve_and_promote fresh now r.id user.id item_id d.item.journey_id r.entity_type
        >>= λ pool_id.
            set_review_status item_id approved r.entity_type
            >> (modify (notify r.submitted_by_id (some user.id) custom_erc_approved item_id)
                >> return pool_id))

abbrev pub approve_with_item :
    (fresh now : ℕ)
    → SessionUser
    → CustomErcReview
    → Option CustomErcEdits
    → (item_id : ℕ) → Service ℕ
approve_with_item fresh now user r edits item_id db =
    (or_throw (entity_not_found erc_item item_id) (find_item item_id r.entity_type db)
        >>= approve_item_of fresh now user r item_id edits)
      db

abbrev pub approve_found :
    (fresh now : ℕ) → SessionUser → Option CustomErcEdits → CustomErcReview → Service ℕ
approve_found fresh now user edits r =
    require (is_pending_review r.status) conflict
    >> (reviewed_item r >>= approve_with_item fresh now user r edits)

abbrev pub approve_checked :
    (fresh now : ℕ) → SessionUser → (id : ℕ) → Option CustomErcEdits → Service ℕ
approve_checked fresh now user id edits db =
    (or_throw (entity_not_found review id) (find_review_by_id id db)
        >>= approve_found fresh now user edits)
      db

-- It answers with the id of the new item of the pool.
unfoldable pub approve_review :
    (fresh now : ℕ) → SessionUser → (id : ℕ) → Option CustomErcEdits → Service ℕ
approve_review fresh now user id edits =
    require (may_moderate user) access_denied >> approve_checked fresh now user id edits

-- `reason.trim()`
abbrev pub trim : Text → Text
trim t = trim_end (trim_start t)

abbrev pub is_nonempty : Text → Bool
is_nonempty [] = false
is_nonempty (c ∷ t) = true

abbrev pub reject_item_of : (now : ℕ) → SessionUser → Text → CustomErcReview → Service (Unit {0})
reject_item_of now user reason r =
    set_rejected now r.id user.id (trim reason)
    >> (reviewed_item r >>= λ item_id.
        set_review_status item_id rejected r.entity_type
        >> modify (notify r.submitted_by_id (some user.id) custom_erc_rejected item_id))

abbrev pub reject_found_review :
    (now : ℕ) → SessionUser → Text → CustomErcReview → Service (Unit {0})
reject_found_review now user reason r =
    require (is_pending_review r.status) conflict >> reject_item_of now user reason r

abbrev pub reject_checked : (now : ℕ) → SessionUser → (id : ℕ) → Text → Service (Unit {0})
reject_checked now user id reason db =
    (or_throw (entity_not_found review id) (find_review_by_id id db)
        >>= reject_found_review now user reason)
      db

unfoldable pub reject_review : (now : ℕ) → SessionUser → (id : ℕ) → Text → Service (Unit {0})
reject_review now user id reason =
    require (may_moderate user) access_denied
    >> (require (is_nonempty (trim reason)) bad_request >> reject_checked now user id reason)
