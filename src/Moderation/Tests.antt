-- ===== src/Moderation/Tests.antt =====
-- The decisions on a small database.
use veervrat_app.Base.{
  In, ◌≡◌, refl, inl, true, false, none, some, List, [], ◌∷◌, All, Some, find_in, some_of,
  update_one, length, arith,
}
use veervrat_app.Model.{
  PoolItem, moderator, pending, challenge, ErcStatus, CustomErcReview, JourneyErcItem, SessionUser,
  Text, Db, ok, err, conflict, access_denied, missing_argument,
}
use veervrat_app.Permissions.{has_role}
use veervrat_app.Permissions.Check.{has_permission}
use veervrat_app.Journeys.Tests.{base, owner, walk}
use veervrat_app.Erc.{find_item, update_custom_item, save_item, set_review_status}
use veervrat_app.Tiptap.PlainText.{is_space, trim_start, trim_end}
use veervrat_app.Moderation.{find_review_by_id, approve_and_promote, set_rejected, approved_review}
use veervrat_app.Moderation.Operations.{CustomErcEdits, approve_review, reject_review}
use veervrat_app.Moderation.Requests.{
  ModerationCall, approve, reject, serve_all, IsSigned, serve_decisions-IsSigned,
  serve_decisions_final,
}
use veervrat_app.Moderation.Promotion.{
  IsPromotion, IsDecidable, approve_review-promoted, reject_review-deleted,
}

service : Unit {0}
unfolding has_role has_permission some_of find_in update_one find_item update_custom_item save_item
    set_review_status is_space trim_start trim_end find_review_by_id approve_and_promote
    set_rejected approve_review reject_review
service = tt

abbrev judge : SessionUser
judge = record { id = 8; roles = moderator ∷ [] }

abbrev own_item : JourneyErcItem
own_item = record {
  kind = challenge;
  id = 30;
  journey_id = 10;
  status = ErcStatus.not_started;
  is_deactivated = false;
  is_custom = true;
  title_en = 65 ∷ [];
  content = record {
    title_mr = none;
    description_en = none;
    description_mr = none;
    tier = none;
    duration_weeks = none;
    frequency_per_week = none;
    frequency_label = none;
    duration_days = some 3;
  };
  started_at = none;
  submitted_at = none;
  approved_at = none;
  created_by_id = some 1;
  review_status = some pending;
  pool_id = none;
  created_at = 0;
}

abbrev asked : CustomErcReview
asked = record {
  id = 40;
  entity_type = challenge;
  item_id = some 30;
  submitted_by_id = 1;
  status = pending;
  reviewed_by_id = none;
  reviewed_at = none;
  review_note = none;
}

-- a review whose item was deleted
abbrev orphan : CustomErcReview
orphan = record asked { id = 41; item_id = none }

abbrev db : Db
db = record base { items = own_item ∷ []; reviews = asked ∷ orphan ∷ [] }

abbrev edits : CustomErcEdits
edits = record {
  title_en = some (66 ∷ []);
  description_en = none;
  duration_weeks = none;
  frequency_per_week = none;
  frequency_label = none;
  duration_days = some 5;
}

abbrev why : Text
why = 32 ∷ 67 ∷ []

abbrev calls : List ModerationCall
calls = (9, judge, approve 90 40 (some edits)) ∷ (10, judge, reject 40 why) ∷ []

service_tests :
    ((approve_review 90 9 owner 40 none db).0 ≡ err access_denied)
    × ((approve_review 90 9 judge 40 (some edits) db).0 ≡ ok 90)
    × ((approve_review 90 9 judge 41 none db).0 ≡ err missing_argument)
    × ((reject_review 10 judge 40 why (approve_review 90 9 judge 40 none db).1).0 ≡ err conflict)
    × (length (serve_all calls db).pool ≡ 1)
unfolding service
service_tests = (refl, refl, refl, refl, refl)

asked-IsDecidable : IsDecidable judge 40 db asked
unfolding service
asked-IsDecidable = record { moderator = refl; found = refl; status = refl }

orphan-IsDecidable : IsDecidable judge 41 db orphan
unfolding service
orphan-IsDecidable = record { moderator = refl; found = refl; status = refl }

pending-IsSigned :
    (r : CustomErcReview)
    → r.status ≡ pending
    → r.reviewed_by_id ≡ none
    → r.reviewed_at ≡ none
    → IsSigned r
pending-IsSigned r s b t = record {
  unsigned = λ _. (b, t);
  signed = λ h. absurd (h s);
  reasoned = λ h. absurd (ground (arith, s, h));
}

approve_review-promoted_example :
    (p : PoolItem) × In p (approve_review 90 9 judge 40 (some edits) db).1.pool
    × ((approve_review 90 9 judge 40 (some edits) db).0 ≡ ok p.id)
    × IsPromotion challenge (some edits) own_item walk p
unfolding service
approve_review-promoted_example =
    (approve_review-promoted 9 judge 40 db asked 90 30 (some edits) own_item walk asked-IsDecidable
      refl refl refl).0

reject_review-deleted_example : (reject_review 9 judge 41 why db).0 ≡ err missing_argument
unfolding service
reject_review-deleted_example =
    (reject_review-deleted 9 judge 41 db orphan why orphan-IsDecidable refl refl).0

serve_decisions-IsSigned_example : All IsSigned (serve_all calls db).reviews
serve_decisions-IsSigned_example =
    serve_decisions-IsSigned calls db
      (pending-IsSigned asked refl refl refl, (pending-IsSigned orphan refl refl refl, tt))

abbrev decided_before : CustomErcReview
decided_before = approved_review 5 8 asked

abbrev after : Db
after = record base { reviews = decided_before ∷ [] }

serve_decisions_final_example : Some (λ x. x ≡ decided_before) (serve_all calls after).reviews
serve_decisions_final_example =
    serve_decisions_final decided_before calls after (ground arith) (inl refl)
