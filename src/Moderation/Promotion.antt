-- ===== src/Moderation/Promotion.antt =====
-- What an approval makes of a custom item, and a rejection of one that was deleted.
use veervrat_app.Base.{
  ℕ, refl, inl, In, List, [], ◌≡◌, true, Option, none, some, ◌∷◌, ◌==◌, find_in, find_in-update_one,
  find_in-eq-some, ==_iff, update_one, arith, if◌then◌else◌,
}
use veervrat_app.Model.{
  pending, approved, CustomErcReview, ErcType, exposure, resolution, challenge, PoolItem,
  JourneyErcItem, Journey, SessionUser, Text, Db, ok, err, missing_argument,
}
use veervrat_app.Erc.{
  update_custom_item, save_item, set_review_status, is_item, find_item, edited_row, review_row,
  weaknesses_of,
}
use veervrat_app.Moderation.{
  find_review_by_id, approve_and_promote, set_rejected, approved_review, rejected_review, promoted,
}
use veervrat_app.Moderation.Operations.{
  CustomErcEdits, has_keys, edits_data, may_moderate, approve_review, trim, is_nonempty,
  reject_review,
}

-- The review may be decided by this user.
pub record IsDecidable (user : SessionUser) (id : ℕ) (db : Db) (r : CustomErcReview) : Type 0 where
  pub moderator : may_moderate user ≡ true
  pub found : find_review_by_id id db ≡ some r
  pub status : r.status ≡ pending

-- the item with the moderator's changes
abbrev pub edited : Option CustomErcEdits → ErcType → JourneyErcItem → JourneyErcItem
edited none kind i = i
edited (some e) kind i = if has_keys e then edited_row kind e.title_en (edits_data e) i else i

-- a field after the moderator's changes: the change where it is given
abbrev pub changed :
    {A : Type 0} → (CustomErcEdits → Option A) → Option CustomErcEdits → Option A → Option A
changed field none old = old
changed field (some e) old = elim (field e) [ none ↦ old | some new ↦ some new ]

-- The item of the pool says what the custom item says after the changes, about the sentence and for
-- the weaknesses of its journey.
pub record IsPromotion (kind : ErcType) (edits : Option CustomErcEdits) (i : JourneyErcItem)
    (j : Journey) (p : PoolItem) : Type 0 where
  pub same_kind : p.kind ≡ kind
  pub sentence : p.sentence_id ≡ j.sentence_id
  pub weaknesses : p.weakness_ids ≡ j.weakness_ids
  pub title : some p.title_en ≡ changed (λ e. e.title_en) edits (some i.title_en)
  pub title_mr : p.content.title_mr ≡ i.content.title_mr
  pub description :
      p.content.description_en ≡ changed (λ e. e.description_en) edits i.content.description_en
  pub description_mr : p.content.description_mr ≡ i.content.description_mr
  pub tier : kind ≡ exposure → p.content.tier ≡ i.content.tier
  pub weeks :
      kind ≡ resolution
      → p.content.duration_weeks ≡ changed (λ e. e.duration_weeks) edits i.content.duration_weeks
  pub frequency :
      kind ≡ resolution
      → p.content.frequency_per_week
        ≡ changed (λ e. e.frequency_per_week) edits i.content.frequency_per_week
  pub label :
      kind ≡ resolution
      → p.content.frequency_label ≡ changed (λ e. e.frequency_label) edits i.content.frequency_label
  pub days :
      kind ≡ challenge
      → p.content.duration_days ≡ changed (λ e. e.duration_days) edits i.content.duration_days

weaknesses_of-find :
    (id : ℕ) (rows : List Journey) (j : Journey)
    → find_in (λ x. x.id == id) rows ≡ some j
    → weaknesses_of id rows ≡ j.weakness_ids
unfolding find_in
weaknesses_of-find id [] j f = absurd (ground (arith, f))
weaknesses_of-find id (x ∷ rows) j f = ground (arith, f, weaknesses_of-find id rows j)

promoted-IsPromotion :
    (kind : ErcType) (fresh now : ℕ) (edits : Option CustomErcEdits) (i : JourneyErcItem)
    (j : Journey)
    → IsPromotion kind edits i j
        (promoted kind fresh now j.sentence_id j.weakness_ids (edited edits kind i))
promoted-IsPromotion exposure fresh now none i j = record {
  same_kind = refl;
  sentence = refl;
  weaknesses = refl;
  title = ground arith;
  title_mr = ground arith;
  description = ground arith;
  description_mr = ground arith;
  tier = λ k. ground (arith, k);
  weeks = λ k. ground (arith, k);
  frequency = λ k. ground (arith, k);
  label = λ k. ground (arith, k);
  days = λ k. ground (arith, k);
}
promoted-IsPromotion exposure fresh now (some e) i j = record {
  same_kind = refl;
  sentence = refl;
  weaknesses = refl;
  title = ground arith;
  title_mr = ground arith;
  description = ground arith;
  description_mr = ground arith;
  tier = λ k. ground (arith, k);
  weeks = λ k. ground (arith, k);
  frequency = λ k. ground (arith, k);
  label = λ k. ground (arith, k);
  days = λ k. ground (arith, k);
}
promoted-IsPromotion resolution fresh now none i j = record {
  same_kind = refl;
  sentence = refl;
  weaknesses = refl;
  title = ground arith;
  title_mr = ground arith;
  description = ground arith;
  description_mr = ground arith;
  tier = λ k. ground (arith, k);
  weeks = λ k. ground (arith, k);
  frequency = λ k. ground (arith, k);
  label = λ k. ground (arith, k);
  days = λ k. ground (arith, k);
}
promoted-IsPromotion resolution fresh now (some e) i j = record {
  same_kind = refl;
  sentence = refl;
  weaknesses = refl;
  title = ground arith;
  title_mr = ground arith;
  description = ground arith;
  description_mr = ground arith;
  tier = λ k. ground (arith, k);
  weeks = λ k. ground (arith, k);
  frequency = λ k. ground (arith, k);
  label = λ k. ground (arith, k);
  days = λ k. ground (arith, k);
}
promoted-IsPromotion challenge fresh now none i j = record {
  same_kind = refl;
  sentence = refl;
  weaknesses = refl;
  title = ground arith;
  title_mr = ground arith;
  description = ground arith;
  description_mr = ground arith;
  tier = λ k. ground (arith, k);
  weeks = λ k. ground (arith, k);
  frequency = λ k. ground (arith, k);
  label = λ k. ground (arith, k);
  days = λ k. ground (arith, k);
}
promoted-IsPromotion challenge fresh now (some e) i j = record {
  same_kind = refl;
  sentence = refl;
  weaknesses = refl;
  title = ground arith;
  title_mr = ground arith;
  description = ground arith;
  description_mr = ground arith;
  tier = λ k. ground (arith, k);
  weeks = λ k. ground (arith, k);
  frequency = λ k. ground (arith, k);
  label = λ k. ground (arith, k);
  days = λ k. ground (arith, k);
}

module _ (now : ℕ) (user : SessionUser) (id : ℕ) (db : Db) (r : CustomErcReview) where
  same_id : find_review_by_id id db ≡ some r → r.id ≡ id
  unfolding find_review_by_id
  same_id f = (==_iff r.id id).0 (find_in-eq-some (λ x. x.id == id) db.reviews r f).1

  -- A moderator who rejects, with a reason, a pending review whose item was deleted is answered
  -- with an error, after the review was written as rejected.
  pub reject_review-deleted :
      (reason : Text)
      → IsDecidable user id db r
      → r.item_id ≡ none
      → is_nonempty (trim reason) ≡ true
      → let (answer, db') = reject_review now user id reason db in
        (answer ≡ err missing_argument)
        × (db'.reviews
            ≡ update_one (λ x. x.id == id) (rejected_review now user.id (trim reason)) db.reviews)
  unfolding reject_review set_rejected
  reject_review-deleted reason d n s =
      let k = same_id d.found in
      (
        ground (arith, d.moderator, d.found, d.status),
        ground (arith, d.moderator, d.found, d.status),
      )

  -- what the approval answers and leaves, row by row
  abbrev Promotes : (fresh k : ℕ) → JourneyErcItem → Journey → Option CustomErcEdits → Type 0
  Promotes fresh k i j edits =
      let (answer, db') = approve_review fresh now user id edits db in
      (answer ≡ ok fresh)
      × (db'.pool
          ≡ promoted r.entity_type fresh now j.sentence_id (weaknesses_of i.journey_id db.journeys)
              (edited edits r.entity_type i)
            ∷ db.pool)
      × (find_in (is_item r.entity_type k) db'.items
          ≡ some (review_row approved (edited edits r.entity_type i)))
      × (find_review_by_id id db' ≡ some (approved_review now user.id r))

  unedited-promoted :
      (fresh k : ℕ) (i : JourneyErcItem) (j : Journey)
      → IsDecidable user id db r
      → r.item_id ≡ some k
      → find_in (is_item r.entity_type k) db.items ≡ some i
      → find_in (λ x. x.id == i.journey_id) db.journeys ≡ some j
      → Promotes fresh k i j none
  unfolding approve_review find_item approve_and_promote find_review_by_id update_custom_item
      save_item set_review_status
  unedited-promoted fresh k i j d n f g =
      let same = same_id d.found in
      let is = find_in-eq-some (is_item r.entity_type k) db.items i f in
      let item =
        find_in-update_one (is_item r.entity_type k) (review_row approved) db.items i f is.1 in
      let reviewed =
        find_in-update_one (λ x. x.id == id) (approved_review now user.id) db.reviews r d.found
          (ground (arith, same)) in
      (
        ground (arith, d.moderator, d.found, d.status),
        ground (arith, d.moderator, d.found, d.status),
        ground (arith, d.moderator, d.found, d.status),
        ground (arith, d.moderator, d.found, d.status),
      )

  edited-promoted :
      (fresh k : ℕ) (e : CustomErcEdits) (i : JourneyErcItem) (j : Journey)
      → IsDecidable user id db r
      → r.item_id ≡ some k
      → find_in (is_item r.entity_type k) db.items ≡ some i
      → find_in (λ x. x.id == i.journey_id) db.journeys ≡ some j
      → Promotes fresh k i j (some e)
  unfolding approve_review find_item approve_and_promote find_review_by_id update_custom_item
      save_item set_review_status
  edited-promoted fresh k e i j d n f g =
      let same = same_id d.found in
      let is = find_in-eq-some (is_item r.entity_type k) db.items i f in
      let edit = edited_row r.entity_type e.title_en (edits_data e) in
      let item =
        find_in-update_one (is_item r.entity_type k) (review_row approved) db.items i f is.1 in
      let changed = find_in-update_one (is_item r.entity_type k) edit db.items i f is.1 in
      let both =
        find_in-update_one (is_item r.entity_type k) (review_row approved)
          (update_one (is_item r.entity_type k) edit db.items) (edit i) changed is.1 in
      let reviewed =
        find_in-update_one (λ x. x.id == id) (approved_review now user.id) db.reviews r d.found
          (ground (arith, same)) in
      (
        ground (arith, d.moderator, d.found, d.status),
        ground (arith, d.moderator, d.found, d.status),
        ground (arith, d.moderator, d.found, d.status),
        ground (arith, d.moderator, d.found, d.status),
      )

  approve-Promotes :
      (fresh k : ℕ) (edits : Option CustomErcEdits) (i : JourneyErcItem) (j : Journey)
      → IsDecidable user id db r
      → r.item_id ≡ some k
      → find_in (is_item r.entity_type k) db.items ≡ some i
      → find_in (λ x. x.id == i.journey_id) db.journeys ≡ some j
      → Promotes fresh k i j edits
  approve-Promotes fresh k none i j d n f g = unedited-promoted fresh k i j d n f g
  approve-Promotes fresh k (some e) i j d n f g = edited-promoted fresh k e i j d n f g

  -- A moderator approves a pending review of an item that exists, on a journey that exists. The
  -- answer is the id of an item of the pool that is then there, about the journey's sentence, for
  -- the journey's weaknesses, with the texts of the item after the moderator's changes and the
  -- measures that items of its kind have; the item is then marked as approved, and the review as
  -- approved by this moderator now.
  pub approve_review-promoted :
      (fresh k : ℕ) (edits : Option CustomErcEdits) (i : JourneyErcItem) (j : Journey)
      → IsDecidable user id db r
      → r.item_id ≡ some k
      → find_in (is_item r.entity_type k) db.items ≡ some i
      → find_in (λ x. x.id == i.journey_id) db.journeys ≡ some j
      → let (answer, db') = approve_review fresh now user id edits db in
        ((p : PoolItem) × In p db'.pool
          × (answer ≡ ok p.id)
          × IsPromotion r.entity_type edits i j p)
        × ((i' : JourneyErcItem) × (find_in (is_item r.entity_type k) db'.items ≡ some i')
            × (i'.review_status ≡ some approved))
        × ((r' : CustomErcReview) × (find_review_by_id id db' ≡ some r')
            × (r'.status ≡ approved)
            × (r'.reviewed_by_id ≡ some user.id)
            × (r'.reviewed_at ≡ some now))
  approve_review-promoted fresh k edits i j d n f g =
      let (a, pool, item, review) = approve-Promotes fresh k edits i j d n f g in
      let same = weaknesses_of-find i.journey_id db.journeys j g in
      (
        (
          promoted r.entity_type fresh now j.sentence_id j.weakness_ids
              (edited edits r.entity_type i),
          rw (pool, same) (inl refl),
          a,
          promoted-IsPromotion r.entity_type fresh now edits i j,
        ),
        (review_row approved (edited edits r.entity_type i), item, refl),
        (approved_review now user.id r, review, refl, refl, refl),
      )
