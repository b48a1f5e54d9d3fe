-- ===== src/Journeys/Moves.antt =====
-- What the requests of ordinary users may do to the table `journeys`, as a step relation, and what
-- every sequence of such steps keeps. `Refines` shows that the operations make such steps.
use veervrat_app.Base.{
  ℕ, ◌≡◌, ◌≢◌, sym, subst, ap, ◌∙◌, ◌⊎◌, inr, true, false, none, some, List, ◌∷◌, is_some, All,
  Some, find_in, update_where, arith, All-In, find_in-eq-some, ==_iff,
}
use veervrat_app.Model.{JourneyState, paused, dormant, completed, Journey, Text}
use veervrat_app.Journeys.{breaks_index, state_row, completed_row, submitted_row, dormant_row}
use veervrat_app.Journeys.Live.{
  IsIndexed, has_id, IsClear-of_test, All-update, Some-update, update-IsIndexed, insert-IsIndexed,
}

-- The changes of a row, each from the states that allow it.
pub data Move (j j' : Journey) : Type 0 where
  pause : (now : ℕ) → j.state ≡ JourneyState.active → j' ≡ state_row now paused j → Move j j'
  resume :
      (now : ℕ)
      → (j.state ≡ paused) ⊎ (j.state ≡ dormant)
      → j' ≡ state_row now JourneyState.active j
      → Move j j'
  submit : (now : ℕ) → j.state ≡ JourneyState.active → j' ≡ submitted_row now j → Move j j'
  complete : (now : ℕ) → j.state ≡ JourneyState.active → j' ≡ completed_row now j → Move j j'
  fall_asleep : (now : ℕ) → j.state ≡ JourneyState.active → j' ≡ dormant_row now j → Move j j'
  retitle : (now : ℕ) (title : Text) → j' ≡ record j { title = title; updated_at = now } → Move j j'

-- A row that a new journey starts with.
pub record IsNew (j : Journey) : Type 0 where
  pub state : j.state ≡ JourneyState.active
  pub completed_at : j.completed_at ≡ none
  pub deleted_at : j.deleted_at ≡ none

pub data TableStep (rows rows' : List Journey) : Type 0 where
  unchanged : rows' ≡ rows → TableStep rows rows'
  inserted :
      (row : Journey)
      → IsNew row
      → All (λ k. row.id ≢ k.id) rows
      → breaks_index row rows ≡ false
      → rows' ≡ row ∷ rows
      → TableStep rows rows'
  moved :
      (id : ℕ) (row : Journey) (change : Journey → Journey)
      → find_in (has_id id) rows ≡ some row
      → Move row (change row)
      → breaks_index (change row) rows ≡ false
      → rows' ≡ update_where (has_id id) change rows
      → TableStep rows rows'

pub data History (rows : List Journey) : List Journey → Type 0 where
  here : History rows rows
  next : {mid last : List Journey} → History rows mid → TableStep mid last → History rows last

-- The dates that go with a state. A journey has a completion date exactly when it is completed.
pub record IsStamped (j : Journey) : Type 0 where
  pub when_completed : j.state ≡ completed → is_some j.completed_at ≡ true
  pub when_stamped : is_some j.completed_at ≡ true → j.state ≡ completed
  pub when_paused : j.state ≡ paused → is_some j.paused_at ≡ true
  pub when_dormant : j.state ≡ dormant → is_some j.dormant_since ≡ true

Move-IsStamped : (j j' : Journey) → Move j j' → IsStamped j → IsStamped j'
Move-IsStamped j j' (pause now s e) h = ground arith
Move-IsStamped j j' (resume now s e) h = ground arith
Move-IsStamped j j' (submit now s e) h = ground arith
Move-IsStamped j j' (complete now s e) h = ground arith
Move-IsStamped j j' (fall_asleep now s e) h = ground arith
Move-IsStamped j j' (retitle now t e) h = ground arith

Move-id : (j j' : Journey) → Move j j' → j'.id ≡ j.id
Move-id j j' (pause now s e) = ap (λ (k : Journey). k.id) e
Move-id j j' (resume now s e) = ap (λ (k : Journey). k.id) e
Move-id j j' (submit now s e) = ap (λ (k : Journey). k.id) e
Move-id j j' (complete now s e) = ap (λ (k : Journey). k.id) e
Move-id j j' (fall_asleep now s e) = ap (λ (k : Journey). k.id) e
Move-id j j' (retitle now t e) = ap (λ (k : Journey). k.id) e

-- The journey of this id was completed at this time.
abbrev pub WasCompleted : (id when : ℕ) → Journey → Type 0
WasCompleted id when j = (j.id ≡ id) × (j.state ≡ completed) × (j.completed_at ≡ some when)

Move-WasCompleted :
    (id when : ℕ) (j j' : Journey) → Move j j' → WasCompleted id when j → WasCompleted id when j'
Move-WasCompleted id when j j' (pause now s e) h = ground arith
Move-WasCompleted id when j j' (resume now s e) h = ground arith
Move-WasCompleted id when j j' (submit now s e) h = ground arith
Move-WasCompleted id when j j' (complete now s e) h = ground arith
Move-WasCompleted id when j j' (fall_asleep now s e) h = ground arith
Move-WasCompleted id when j j' (retitle now t e) h = ground arith

-- A table of journeys in good order: indexed, with dates that fit the states.
pub record IsTidy (rows : List Journey) : Type 0 where
  pub indexed : IsIndexed rows
  pub stamped : All IsStamped rows

IsNew-IsStamped : (j : Journey) → IsNew j → IsStamped j
IsNew-IsStamped j n = ground arith

changed_id :
    (id : ℕ) (row row' : Journey) (rows : List Journey)
    → find_in (has_id id) rows ≡ some row
    → Move row row'
    → row'.id ≡ id
changed_id id row row' rows f m =
    Move-id row row' m ∙ (==_iff row.id id).0 (find_in-eq-some (has_id id) rows row f).1

TableStep-IsTidy : {rows rows' : List Journey} → TableStep rows rows' → IsTidy rows → IsTidy rows'
TableStep-IsTidy (unchanged e) t = subst IsTidy (sym e) t
TableStep-IsTidy {rows} (inserted row n fresh fits e) t = subst IsTidy (sym e) (record {
  indexed = (insert-IsIndexed row rows fresh fits, t.indexed);
  stamped = (IsNew-IsStamped row n, t.stamped);
})
TableStep-IsTidy {rows} (moved id row change f m fits e) t =
    let same = changed_id id row (change row) rows f m in
    subst IsTidy (sym e) (record {
      indexed =
          update-IsIndexed id change row rows f same
            (IsClear-of_test id (change row) rows same fits) t.indexed;
      stamped = All-update id change row IsStamped rows t.indexed f t.stamped (
          Move-IsStamped row (change row) m
            (All-In IsStamped rows row t.stamped (find_in-eq-some (has_id id) rows row f).0));
    })

-- No sequence of users' requests makes two live journeys of one person about one sentence, or
-- leaves a completed, paused or dormant journey without its date.
pub History-IsTidy : {rows rows' : List Journey} → History rows rows' → IsTidy rows → IsTidy rows'
History-IsTidy here t = t
History-IsTidy (next h s) t = TableStep-IsTidy s (History-IsTidy h t)

TableStep-WasCompleted :
    (id when : ℕ) {rows rows' : List Journey}
    → TableStep rows rows'
    → IsTidy rows
    → Some (WasCompleted id when) rows
    → Some (WasCompleted id when) rows'
TableStep-WasCompleted id when (unchanged e) t h = subst (Some (WasCompleted id when)) (sym e) h
TableStep-WasCompleted id when (inserted row n fresh fits e) t h =
    subst (Some (WasCompleted id when)) (sym e) (inr h)
TableStep-WasCompleted id when {rows} (moved k row change f m fits e) t h =
    subst (Some (WasCompleted id when)) (sym e) (
      Some-update k change row (WasCompleted id when) rows t.indexed f
        (Move-WasCompleted id when row (change row) m) h)

-- A completed journey stays completed, with its date, whatever users request afterwards.
pub History-WasCompleted :
    (id when : ℕ) {rows rows' : List Journey}
    → History rows rows'
    → IsTidy rows
    → Some (WasCompleted id when) rows
    → Some (WasCompleted id when) rows'
History-WasCompleted id when here t h = h
History-WasCompleted id when (next past s) t h =
    TableStep-WasCompleted id when s (History-IsTidy past t) (History-WasCompleted id when past t h)
