-- ===== src/Erc/Custom.antt =====
-- The custom items of apps/api/src/modules/erc/erc.repository.ts.
use veervrat_app.Base.{ℕ, Bool, true, false, not, Option, none, some, is_some, if◌then◌else◌}
use veervrat_app.Model.{
  ErcType, exposure, resolution, challenge, ExposureTier, ErcContent, JourneyErcItem, ReviewStatus,
  Text, Service, throw, missing_argument,
}
use veervrat_app.Erc.Items.{new_item, insert_item, save_item}

-- What the author of a custom item gives, beside its title. Prisma leaves a column as it is where
-- the update gives `undefined`, and takes null for it in a create.
pub record CustomErcData : Type 0 where
  pub description_en : Option Text
  pub tier : Option ExposureTier
  pub duration_weeks : Option ℕ
  pub frequency_per_week : Option ℕ
  pub frequency_label : Option Text
  pub duration_days : Option ℕ

abbrev custom_content : ErcType → CustomErcData → ErcContent
custom_content kind dto = record {
  title_mr = none;
  description_en = dto.description_en;
  description_mr = none;
  tier = elim kind [ exposure ↦ dto.tier | _ ↦ none ];
  duration_weeks = elim kind [ resolution ↦ dto.duration_weeks | _ ↦ none ];
  frequency_per_week = elim kind [ resolution ↦ dto.frequency_per_week | _ ↦ none ];
  frequency_label = elim kind [ resolution ↦ dto.frequency_label | _ ↦ none ];
  duration_days = elim kind [ challenge ↦ dto.duration_days | _ ↦ none ];
}

abbrev pub custom_item :
    ErcType → (fresh now journey_id created_by_id : ℕ) → Text → CustomErcData → JourneyErcItem
custom_item kind fresh now journey_id created_by_id title dto =
    record (new_item kind fresh now journey_id title (custom_content kind dto)) {
      is_custom = true;
      created_by_id = some created_by_id;
    }

-- an exposure has to have a tier
abbrev pub lacks_column : ErcType → CustomErcData → Bool
lacks_column exposure dto = not (is_some dto.tier)
lacks_column _ dto = false

unfoldable pub create_custom_item :
    (fresh now journey_id created_by_id : ℕ)
    → Text
    → CustomErcData
    → ErcType
    → Service JourneyErcItem
create_custom_item fresh now journey_id created_by_id title dto kind db =
    if lacks_column kind dto
    then throw missing_argument db
    else insert_item (custom_item kind fresh now journey_id created_by_id title dto) db

-- `data.x ?? undefined`, the column as it was where nothing is given
abbrev pub given {ℓ} : {A : Type ℓ} → Option A → A → A
given none old = old
given (some new) old = new

abbrev pub given_or {ℓ} : {A : Type ℓ} → Option A → Option A → Option A
given_or none old = old
given_or (some new) old = some new

abbrev pub edited_content : ErcType → CustomErcData → ErcContent → ErcContent
edited_content exposure dto c = record c {
  description_en = given_or dto.description_en c.description_en;
  tier = given_or dto.tier c.tier;
}
edited_content resolution dto c = record c {
  description_en = given_or dto.description_en c.description_en;
  duration_weeks = given_or dto.duration_weeks c.duration_weeks;
  frequency_per_week = given_or dto.frequency_per_week c.frequency_per_week;
  frequency_label = given_or dto.frequency_label c.frequency_label;
}
edited_content challenge dto c = record c {
  description_en = given_or dto.description_en c.description_en;
  duration_days = given_or dto.duration_days c.duration_days;
}

abbrev pub edited_row : ErcType → Option Text → CustomErcData → JourneyErcItem → JourneyErcItem
edited_row kind title dto i = record i {
  title_en = given title i.title_en;
  content = edited_content kind dto i.content;
}

unfoldable pub update_custom_item :
    (id : ℕ) → Option Text → CustomErcData → ErcType → Service JourneyErcItem
update_custom_item id title dto kind = save_item kind id (edited_row kind title dto)

abbrev pub review_row : ReviewStatus → JourneyErcItem → JourneyErcItem
review_row status i = record i { review_status = some status }

unfoldable pub set_review_status : (id : ℕ) → ReviewStatus → ErcType → Service JourneyErcItem
set_review_status id status kind = save_item kind id (review_row status)
