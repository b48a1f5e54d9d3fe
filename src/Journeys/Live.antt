-- ===== src/Journeys/Live.antt =====
-- The partial unique index on `journeys`, kept by every write: no two live journeys of one person
-- are about one sentence.
use veervrat_app.Base.{
  ℕ, ◌≡◌, ◌≢◌, refl, sym, subst, ◌∙◌, inl, inr, Bool, false, some, List, [], ◌∷◌, ◌==◌, All, Some,
  some_of, find_in, update_where, arith, Bool-cases,
}
use veervrat_app.Model.{Journey}
use veervrat_app.Journeys.{rivals, breaks_index}

-- The row differs from `x` in its id, and is no second live journey beside it.
abbrev pub StandsBeside : Journey → Journey → Type 0
StandsBeside x y = (x.id ≢ y.id) × (rivals x y ≡ false)

abbrev pub IsIndexed : List Journey → Type 0
IsIndexed [] = Unit
IsIndexed (x ∷ xs) = All (StandsBeside x) xs × IsIndexed xs

rivals_comm : (x y : Journey) → rivals x y ≡ rivals y x
unfolding rivals
rivals_comm x y = ground arith

module _ (id : ℕ) where
  abbrev pub has_id : Journey → Bool
  has_id j = j.id == id

  -- A row is written beside the others if the index allows it.
  abbrev pub IsClear : Journey → List Journey → Type 0
  IsClear row rows = All (λ k. k.id ≢ id → rivals row k ≡ false) rows

  update_where_absent :
      (change : Journey → Journey) (rows : List Journey)
      → All (λ y. y.id ≢ id) rows
      → update_where has_id change rows ≡ rows
  unfolding update_where
  update_where_absent change [] h = refl
  update_where_absent change (y ∷ rows) h = ground (arith, update_where_absent change rows h.1)

  pub absent_of_beside :
      (y : Journey) (rows : List Journey)
      → y.id ≡ id
      → All (StandsBeside y) rows
      → All (λ z. z.id ≢ id) rows
  absent_of_beside y [] e h = tt
  absent_of_beside y (z ∷ rows) e h = (λ same. h.0.0 (e ∙ sym same), absent_of_beside y rows e h.1)

  pub IsClear-of_test :
      (row : Journey) (rows : List Journey)
      → row.id ≡ id
      → breaks_index row rows ≡ false
      → IsClear row rows
  unfolding some_of
  IsClear-of_test row [] e h = tt
  IsClear-of_test row (k ∷ rows) e h =
      (λ n. ground arith, IsClear-of_test row rows e (ground arith))

  beside_of_clear :
      (y z : Journey) (rows : List Journey)
      → y.id ≡ id
      → z.id ≡ id
      → All (StandsBeside y) rows
      → IsClear z rows
      → All (StandsBeside z) rows
  beside_of_clear y z [] e f h c = tt
  beside_of_clear y z (k ∷ rows) e f h c =
      let other : k.id ≢ id = λ same. h.0.0 (e ∙ sym same) in
      ((λ same. other (sym same ∙ f), c.0 other), beside_of_clear y z rows e f h.1 c.1)

  module _ (change : Journey → Journey) (row : Journey) where
    -- What holds of every row and of the changed one holds after the update.
    pub All-update :
        (P : Journey → Type 0) (rows : List Journey)
        → IsIndexed rows
        → find_in has_id rows ≡ some row
        → All P rows
        → P (change row)
        → All P (update_where has_id change rows)
    unfolding update_where find_in
    All-update P [] i f h p = tt
    All-update P (y ∷ rows) i f h p = elim (Bool-cases (has_id y)) [
      | inl e ↦
          let absent = absent_of_beside y rows (ground arith) i.0 in
          ground (arith, update_where_absent change rows absent)
      | inr e ↦ rw e (h.0, All-update P rows i.1 (rw e at f) h.1 p)
    ]

    -- A row that holds before the update holds after it, if the change keeps what is claimed.
    pub Some-update :
        (P : Journey → Type 0) (rows : List Journey)
        → IsIndexed rows
        → find_in has_id rows ≡ some row
        → (P row → P (change row))
        → Some P rows
        → Some P (update_where has_id change rows)
    unfolding update_where find_in
    Some-update P (y ∷ rows) i f keep (inl h) = elim (Bool-cases (has_id y)) [
      | inl e ↦ let same : y ≡ row = ground arith in rw (e, same) (inl (keep (subst P same h)))
      | inr e ↦ rw e (inl h)
    ]
    Some-update P (y ∷ rows) i f keep (inr h) = elim (Bool-cases (has_id y)) [
      | inl e ↦
          let absent = absent_of_beside y rows (ground arith) i.0 in
          rw (update_where_absent change rows absent) (inr h)
      | inr e ↦ inr (Some-update P rows i.1 (rw e at f) keep h)
    ]
    Some-update P [] i f keep h = absurd h

    pub update-IsIndexed :
        (rows : List Journey)
        → find_in has_id rows ≡ some row
        → (change row).id ≡ id
        → IsClear (change row) rows
        → IsIndexed rows
        → IsIndexed (update_where has_id change rows)
    unfolding update_where find_in
    update-IsIndexed [] f s c i = tt
    update-IsIndexed (y ∷ rows) f s c i = elim (Bool-cases (has_id y)) [
      | inl e ↦
          let same : y.id ≡ id = ground arith in
          let absent = absent_of_beside y rows same i.0 in
          ground
            (arith, update_where_absent change rows absent, beside_of_clear y (change y) rows same)
      | inr e ↦
          let other : y.id ≢ id = ground arith in
          rw e (
            All-update (StandsBeside y) rows i.1 (rw e at f) i.0
                (ground (arith, s), rivals_comm y (change row) ∙ c.0 other),
            update-IsIndexed rows (rw e at f) s c.1 i.1,
          )
    ]

pub insert-IsIndexed :
    (row : Journey) (rows : List Journey)
    → All (λ k. row.id ≢ k.id) rows
    → breaks_index row rows ≡ false
    → All (StandsBeside row) rows
unfolding some_of
insert-IsIndexed row [] n h = tt
insert-IsIndexed row (k ∷ rows) n h =
    ((n.0, ground (arith, n.0)), insert-IsIndexed row rows n.1 (ground arith))
