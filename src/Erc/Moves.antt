-- ===== src/Erc/Moves.antt =====
-- What may happen to the items of the journeys: the moves of one item as a relation on its row,
-- and the steps of the table.
use veervrat_app.Base.{
  ℕ, ◌≡◌, ◌≢◌, refl, sym, subst, ◌⊎◌, inl, inr, Bool, true, Option, none, some, List, [], ◌∷◌, ◌≤◌,
  is_some, find_in, update_one, delete_one, count_of, All, Some, arith, All-update_one,
  All-delete_one, All-find, Some-update_one, ◌∙◌, find_in-eq-some, find_in-update_one,
}
use veervrat_app.Model.{
  ErcStatus, in_progress, submitted, approved, revisit, erc_status_eq, ErcType, pending,
  JourneyErcItem, Text,
}
use veervrat_app.Erc.{is_item, status_row, activity_row, edited_row, review_row, CustomErcData}

-- One item. `Closes` and `Returns` say of a journey that the caller may approve its items, and
-- return them.
pub data ItemMove (Closes Returns : ℕ → Type 0) (i i' : JourneyErcItem) : Type 0 where
  begin :
      (now : ℕ)
      → i.status ≡ ErcStatus.not_started
      → i' ≡ status_row now in_progress i
      → ItemMove Closes Returns i i'
  submit :
      (now : ℕ)
      → i.status ≡ in_progress
      → i' ≡ status_row now submitted i
      → ItemMove Closes Returns i i'
  approve :
      (now : ℕ)
      → i.status ≡ submitted
      → Closes i.journey_id
      → i' ≡ status_row now approved i
      → ItemMove Closes Returns i i'
  give_back :
      (now : ℕ)
      → i.status ≡ submitted
      → Returns i.journey_id
      → i' ≡ status_row now revisit i
      → ItemMove Closes Returns i i'
  switch : (b : Bool) → i' ≡ activity_row b i → ItemMove Closes Returns i i'
  edit :
      (kind : ErcType) (title : Option Text) (dto : CustomErcData)
      → i.is_custom ≡ true
      → i.review_status ≡ none
      → i' ≡ edited_row kind title dto i
      → ItemMove Closes Returns i i'
  ask_review :
      i.is_custom ≡ true
      → i.review_status ≡ none
      → i' ≡ review_row pending i
      → ItemMove Closes Returns i i'

-- a new item
pub record IsNew (i : JourneyErcItem) : Type 0 where
  pub status : i.status ≡ ErcStatus.not_started
  pub started_at : i.started_at ≡ none
  pub submitted_at : i.submitted_at ≡ none
  pub approved_at : i.approved_at ≡ none
  pub review_status : i.review_status ≡ none

pub data TableStep (Closes Returns : ℕ → Type 0) (rows rows' : List JourneyErcItem) : Type 0 where
  unchanged : rows' ≡ rows → TableStep Closes Returns rows rows'
  moved :
      (kind : ErcType) (id : ℕ) (row : JourneyErcItem) (change : JourneyErcItem → JourneyErcItem)
      → find_in (is_item kind id) rows ≡ some row
      → ItemMove Closes Returns row (change row)
      → rows' ≡ update_one (is_item kind id) change rows
      → TableStep Closes Returns rows rows'
  added : (i : JourneyErcItem) → IsNew i → rows' ≡ i ∷ rows → TableStep Closes Returns rows rows'
  removed :
      (kind : ErcType) (id : ℕ)
      → rows' ≡ delete_one (is_item kind id) rows
      → TableStep Closes Returns rows rows'

-- The dates of an item are those of the statuses that it went through.
pub record IsDated (i : JourneyErcItem) : Type 0 where
  pub fresh : i.status ≡ ErcStatus.not_started → i.started_at ≡ none
  pub begun : i.status ≢ ErcStatus.not_started → is_some i.started_at ≡ true
  pub unsent : (i.status ≡ ErcStatus.not_started) ⊎ (i.status ≡ in_progress) → i.submitted_at ≡ none
  pub sent :
      i.status ≢ ErcStatus.not_started → i.status ≢ in_progress → is_some i.submitted_at ≡ true
  pub closed : i.status ≡ approved → is_some i.approved_at ≡ true
  pub unclosed : i.status ≢ approved → i.approved_at ≡ none

IsDated-of_new : (i : JourneyErcItem) → IsNew i → IsDated i
IsDated-of_new i n = record {
  fresh = λ h. n.started_at;
  begun = λ h. absurd (h n.status);
  unsent = λ h. n.submitted_at;
  sent = λ h k. absurd (h n.status);
  closed = λ h. ground (arith, n.status);
  unclosed = λ h. n.approved_at;
}

abbrev pub is_approved : JourneyErcItem → Bool
is_approved i = erc_status_eq i.status approved

abbrev pub HasEnded : ErcType → ℕ → ErcStatus → JourneyErcItem → Type 0
HasEnded kind id s i = (is_item kind id i ≡ true) × (i.status ≡ s)

abbrev pub WasRemoved : List JourneyErcItem → List JourneyErcItem → Type 0
WasRemoved rows rows' = (kind : ErcType) × ((id : ℕ) × (rows' ≡ delete_one (is_item kind id) rows))

module _ (p : JourneyErcItem → Bool) where
  count_of-delete_one :
      (rows : List JourneyErcItem)
      → count_of is_approved (delete_one p rows) ≤ count_of is_approved rows
  unfolding count_of delete_one
  count_of-delete_one [] = ground arith
  count_of-delete_one (x ∷ rows) = ground (arith, count_of-delete_one rows)

  count_of-update_one :
      (change : JourneyErcItem → JourneyErcItem) (rows : List JourneyErcItem) (row : JourneyErcItem)
      → find_in p rows ≡ some row
      → (is_approved (change row) ≡ true → is_approved row ≡ true)
      → count_of is_approved (update_one p change rows) ≤ count_of is_approved rows
  unfolding count_of update_one find_in
  count_of-update_one change [] row f h = ground arith
  count_of-update_one change (x ∷ rows) row f h =
      ground (arith, count_of-update_one change rows row)

-- a submitted item, whose closure the journey allows, that is approved afterwards
abbrev pub Closed : (Closes : ℕ → Type 0) → (i i' : JourneyErcItem) → Type 0
Closed Closes i i' = (i.status ≡ submitted) × (i'.status ≡ approved) × Closes i.journey_id

-- such an item is in the table
abbrev pub HasClosed : (Closes : ℕ → Type 0) → (rows rows' : List JourneyErcItem) → Type 0
HasClosed Closes rows rows' =
    (kind : ErcType) × ((id : ℕ) × ((i : JourneyErcItem) × ((i' : JourneyErcItem) × ((find_in
                (is_item kind id) rows
              ≡ some i)
            × ((find_in (is_item kind id) rows' ≡ some i') × Closed Closes i i')))))

module _ {Closes Returns : ℕ → Type 0} where
  move-IsDated : (i i' : JourneyErcItem) → ItemMove Closes Returns i i' → IsDated i → IsDated i'
  move-IsDated i i' (begin now s e) d = rw e (record {
    fresh = λ h. ground arith;
    begun = λ h. refl;
    unsent = λ h. d.unsent (inl s);
    sent = λ h k. ground arith;
    closed = λ h. ground arith;
    unclosed = λ h. d.unclosed (ground arith);
  })
  move-IsDated i i' (submit now s e) d = rw e (record {
    fresh = λ h. ground arith;
    begun = λ h. d.begun (ground arith);
    unsent = λ h. ground arith;
    sent = λ h k. refl;
    closed = λ h. ground arith;
    unclosed = λ h. d.unclosed (ground arith);
  })
  move-IsDated i i' (approve now s c e) d = rw e (record {
    fresh = λ h. ground arith;
    begun = λ h. d.begun (ground arith);
    unsent = λ h. ground arith;
    sent = λ h k. d.sent (ground arith) (ground arith);
    closed = λ h. refl;
    unclosed = λ h. ground arith;
  })
  move-IsDated i i' (give_back now s c e) d = rw e (record {
    fresh = λ h. ground arith;
    begun = λ h. d.begun (ground arith);
    unsent = λ h. ground arith;
    sent = λ h k. d.sent (ground arith) (ground arith);
    closed = λ h. ground arith;
    unclosed = λ h. d.unclosed (ground arith);
  })
  move-IsDated i i' (switch b e) d = rw e (record {
    fresh = d.fresh;
    begun = d.begun;
    unsent = d.unsent;
    sent = d.sent;
    closed = d.closed;
    unclosed = d.unclosed;
  })
  move-IsDated i i' (edit kind title dto c r e) d = rw e (record {
    fresh = d.fresh;
    begun = d.begun;
    unsent = d.unsent;
    sent = d.sent;
    closed = d.closed;
    unclosed = d.unclosed;
  })
  move-IsDated i i' (ask_review c r e) d = rw e (record {
    fresh = d.fresh;
    begun = d.begun;
    unsent = d.unsent;
    sent = d.sent;
    closed = d.closed;
    unclosed = d.unclosed;
  })

  -- Every step of the table keeps the dates of all items.
  pub step-IsDated :
      (rows rows' : List JourneyErcItem)
      → TableStep Closes Returns rows rows'
      → All IsDated rows
      → All IsDated rows'
  step-IsDated rows rows' (unchanged e) h = subst (All IsDated) (sym e) h
  step-IsDated rows rows' (moved kind id row change f m e) h =
      let d = All-find IsDated (is_item kind id) rows row f h in
      rw e (
        All-update_one IsDated (is_item kind id) change rows row f h
          (move-IsDated row (change row) m d))
  step-IsDated rows rows' (added i n e) h = rw e (IsDated-of_new i n, h)
  step-IsDated rows rows' (removed kind id e) h =
      rw e (All-delete_one IsDated (is_item kind id) rows h)

  -- An approved or returned item keeps its status.
  move-status :
      (i i' : JourneyErcItem)
      → ItemMove Closes Returns i i'
      → (i.status ≡ approved) ⊎ (i.status ≡ revisit)
      → i'.status ≡ i.status
  move-status i i' (begin now s e) h = ground arith
  move-status i i' (submit now s e) h = ground arith
  move-status i i' (approve now s c e) h = ground arith
  move-status i i' (give_back now s c e) h = ground arith
  move-status i i' (switch b e) h = ground (arith, e)
  move-status i i' (edit kind title dto c r e) h = ground (arith, e)
  move-status i i' (ask_review c r e) h = ground (arith, e)

  move-place :
      (kind : ErcType) (id : ℕ) (i i' : JourneyErcItem)
      → ItemMove Closes Returns i i'
      → is_item kind id i ≡ true
      → is_item kind id i' ≡ true
  move-place kind id i i' (begin now s e) h = ground (arith, e)
  move-place kind id i i' (submit now s e) h = ground (arith, e)
  move-place kind id i i' (approve now s c e) h = ground (arith, e)
  move-place kind id i i' (give_back now s c e) h = ground (arith, e)
  move-place kind id i i' (switch b e) h = ground (arith, e)
  move-place kind id i i' (edit k title dto c r e) h = ground (arith, e)
  move-place kind id i i' (ask_review c r e) h = ground (arith, e)

  closes-cases :
      (i i' : JourneyErcItem)
      → ItemMove Closes Returns i i'
      → (is_approved i' ≡ true → is_approved i ≡ true) ⊎ Closed Closes i i'
  closes-cases i i' (begin now s e) = inl (ground (arith, e))
  closes-cases i i' (submit now s e) = inl (ground (arith, e))
  closes-cases i i' (approve now s c e) = inr (s, ground (arith, e), c)
  closes-cases i i' (give_back now s c e) = inl (ground (arith, e))
  closes-cases i i' (switch b e) = inl (ground (arith, e))
  closes-cases i i' (edit kind title dto c r e) = inl (ground (arith, e))
  closes-cases i i' (ask_review c r e) = inl (ground (arith, e))

  -- The item of this kind and id has ended with this status.
  pub step-HasEnded :
      (kind : ErcType) (id : ℕ) (s : ErcStatus) (rows rows' : List JourneyErcItem)
      → (s ≡ approved) ⊎ (s ≡ revisit)
      → TableStep Closes Returns rows rows'
      → Some (HasEnded kind id s) rows
      → Some (HasEnded kind id s) rows' ⊎ WasRemoved rows rows'
  step-HasEnded kind id s rows rows' t (unchanged e) h = inl (subst (Some _) (sym e) h)
  step-HasEnded kind id s rows rows' t (moved k n row change f m e) h = rw e (
      inl (
        Some-update_one (HasEnded kind id s) (is_item k n) change rows row f
          (λ q. (
            move-place kind id row (change row) m q.0,
            move-status row (change row) m (ground (arith, q.1)) ∙ q.1,
          ))
          h))
  step-HasEnded kind id s rows rows' t (added i n e) h = rw e (inl (inr h))
  step-HasEnded kind id s rows rows' t (removed k n e) h = inr (k, (n, e))

  -- A step that leaves more items approved has closed one, by a caller who may.
  pub step-closes :
      (rows rows' : List JourneyErcItem)
      → TableStep Closes Returns rows rows'
      → (count_of is_approved rows' ≤ count_of is_approved rows) ⊎ HasClosed Closes rows rows'
  unfolding count_of
  step-closes rows rows' (unchanged e) = inl (ground (arith, e))
  step-closes rows rows' (added i n e) = inl (ground (arith, e, n.status))
  step-closes rows rows' (removed kind id e) =
      inl (rw e (count_of-delete_one (is_item kind id) rows))
  step-closes rows rows' (moved kind id row change f m e) = elim (closes-cases row (change row) m) [
    | inl same ↦ inl (rw e (count_of-update_one (is_item kind id) change rows row f same))
    | inr c ↦
        let place = find_in-eq-some (is_item kind id) rows row f in
        let there =
          find_in-update_one (is_item kind id) change rows row f
            (move-place kind id row (change row) m place.1) in
        inr (kind, (id, (row, (change row, (f, (rw e there, c))))))
  ]
