-- ===== src/Journeys/Dormancy.antt =====
-- dormant-journeys.cron.ts: the daily job as a sequence of steps of the table.
use veervrat_app.Base.{
  ℕ, ◌≡◌, ◌≢◌, refl, sym, subst, ◌∙◌, inl, inr, false, some, List, [], ◌∷◌, map, ◌⊎◌, All, All-In,
  In, find_in, filter_by, update_where, arith, Bool-cases,
}
use veervrat_app.Model.{
  JourneyState, Journey, Db, Result, ok, err, bind-ok, bind-err, unique_violation, completed,
  Service, modify, ◌>>◌,
}
use veervrat_app.Journeys.{
  breaks_index, save_journey, mark_dormant, dormant_row, StaleJourney, is_stale, to_stale,
  find_stale_active_journeys,
}
use veervrat_app.Journeys.Live.{IsIndexed, StandsBeside, has_id}
use veervrat_app.Journeys.Moves.{Move, moved, History, here, next}
use veervrat_app.Journeys.Operations.{mark_all_dormant, detect_dormant, nudge}

-- The journey of this id is in the table, and active.
abbrev IsAwake : List Journey → StaleJourney → Type 0
IsAwake rows s =
    (row : Journey) × (find_in (has_id s.id) rows ≡ some row) × (row.state ≡ JourneyState.active)

abbrev AreApart : List StaleJourney → Type 0
AreApart [] = Unit
AreApart (s ∷ stale) = All (λ t. t.id ≢ s.id) stale × AreApart stale

find-update_ne :
    (id id' : ℕ) (change : Journey → Journey) (rows : List Journey)
    → id' ≢ id
    → ((j : Journey) → (change j).id ≡ j.id)
    → find_in (has_id id') (update_where (has_id id) change rows) ≡ find_in (has_id id') rows
unfolding find_in update_where
find-update_ne id id' change [] n keeps = refl
find-update_ne id id' change (y ∷ rows) n keeps =
    ground (arith, keeps y, find-update_ne id id' change rows n keeps)

pub find-update_self :
    (id : ℕ) (change : Journey → Journey) (row : Journey) (rows : List Journey)
    → ((j : Journey) → (change j).id ≡ j.id)
    → find_in (has_id id) rows ≡ some row
    → find_in (has_id id) (update_where (has_id id) change rows) ≡ some (change row)
unfolding find_in update_where
find-update_self id change row [] keeps f = cc
find-update_self id change row (y ∷ rows) keeps f =
    ground (arith, keeps y, find-update_self id change row rows keeps)

nudge-journeys :
    (id : ℕ) (recipients : List ℕ) (db : Db) → (nudge id recipients db).journeys ≡ db.journeys
nudge-journeys id [] db = refl
nudge-journeys id (r ∷ recipients) db = nudge-journeys id recipients _

stay-IsAwake :
    (now : ℕ) (s : StaleJourney) (rows : List Journey) (stale : List StaleJourney)
    → All (λ t. t.id ≢ s.id) stale
    → All (IsAwake rows) stale
    → All (IsAwake (update_where (has_id s.id) (dormant_row now) rows)) stale
stay-IsAwake now s rows [] n h = tt
stay-IsAwake now s rows (t ∷ stale) n ((row, f, a), h) = (
  (row, find-update_ne s.id t.id (dormant_row now) rows n.0 (λ j. refl) ∙ f, a),
  stay-IsAwake now s rows stale n.1 h,
)

pub History-append : {a b c : List Journey} → History a b → History b c → History a c
History-append h here = h
History-append h (next t s) = next (History-append h t) s

-- Marking a journey that is there writes it, or is refused by the index and writes nothing.
mark_dormant_cases :
    (now id : ℕ) (row : Journey) (db : Db)
    → find_in (has_id id) db.journeys ≡ some row
    → (mark_dormant now id db ≡ (err unique_violation, db))
      ⊎ (breaks_index (dormant_row now row) db.journeys ≡ false)
        × (mark_dormant now id db ≡ (
          ok (dormant_row now row),
          record db { journeys = update_where (has_id id) (dormant_row now) db.journeys },
        ))
unfolding mark_dormant save_journey
mark_dormant_cases now id row db f =
    elim (Bool-cases (breaks_index (dormant_row now row) db.journeys)) [
      | inl broken ↦ inl (rw (f, broken) refl)
      | inr fits ↦ inr (fits, rw (f, fits) refl)
    ]

marks-History :
    (now : ℕ) (stale : List StaleJourney) (db : Db)
    → AreApart stale
    → All (IsAwake db.journeys) stale
    → History db.journeys (mark_all_dormant now stale db).1.journeys
unfolding mark_all_dormant
marks-History now [] db a h = here
marks-History now (s ∷ stale) db a ((row, f, active), h) =
    let marked = update_where (has_id s.id) (dormant_row now) db.journeys in
    let after : Db = nudge s.id (s.vratarthi_id ∷ s.vm_ids) (record db { journeys = marked }) in
    let same : after.journeys ≡ marked = nudge-journeys s.id (s.vratarthi_id ∷ s.vm_ids) _ in
    let awake = stay-IsAwake now s db.journeys stale a.0 h in
    let rest : Journey → Service (Unit {0}) =
      λ _. modify (nudge s.id (s.vratarthi_id ∷ s.vm_ids)) >> mark_all_dormant now stale in
    let Reached : Result (Unit {0}) × Db → Type 0 = λ p. History db.journeys p.1.journeys in
    let later =
      marks-History now stale after a.1
        (subst (λ rows. All (IsAwake rows) stale) (sym same) awake) in
    elim (mark_dormant_cases now s.id row db f) [
      | inl refused ↦ subst Reached (sym (bind-err (mark_dormant now s.id) rest refused)) here
      | inr (fits, written) ↦ subst Reached (sym (bind-ok (mark_dormant now s.id) rest written)) (
          History-append
            (next here
              (moved s.id row (dormant_row now) f (Move.fall_asleep now active refl) fits same))
            later)
    ]

find-of_In :
    (rows : List Journey) (row : Journey)
    → IsIndexed rows
    → In row rows
    → find_in (has_id row.id) rows ≡ some row
unfolding find_in
find-of_In [] row i m = absurd m
find-of_In (y ∷ rows) row i (inl e) = ground arith
find-of_In (y ∷ rows) row i (inr m) =
    let apart = All-In (StandsBeside y) rows row i.0 m in ground (arith, find-of_In rows row i.1 m)

-- The stale journeys that the job reads are in the table, active, and listed once.
stale-IsAwake :
    (cutoff : ℕ) (db : Db) (all rows : List Journey)
    → IsIndexed all
    → ((row : Journey) → In row rows → In row all)
    → All (IsAwake all) (map (to_stale db) (filter_by (is_stale cutoff) rows))
unfolding filter_by
stale-IsAwake cutoff db all [] i sub = tt
stale-IsAwake cutoff db all (y ∷ rows) i sub = elim (Bool-cases (is_stale cutoff y)) [
  | inl e ↦ rw e (
    (y, find-of_In all y i (sub y (inl refl)), ground arith),
    stale-IsAwake cutoff db all rows i (λ row m. sub row (inr m)),
  )
  | inr e ↦ rw e (stale-IsAwake cutoff db all rows i (λ row m. sub row (inr m)))
]

stale_beside :
    (cutoff : ℕ) (db : Db) (y : Journey) (rows : List Journey)
    → All (StandsBeside y) rows
    → All (λ t. t.id ≢ y.id) (map (to_stale db) (filter_by (is_stale cutoff) rows))
unfolding filter_by
stale_beside cutoff db y [] h = tt
stale_beside cutoff db y (z ∷ rows) h = elim (Bool-cases (is_stale cutoff z)) [
  | inl e ↦ rw e ((λ same. h.0.0 (sym same)), stale_beside cutoff db y rows h.1)
  | inr e ↦ rw e (stale_beside cutoff db y rows h.1)
]

stale-AreApart :
    (cutoff : ℕ) (db : Db) (rows : List Journey)
    → IsIndexed rows
    → AreApart (map (to_stale db) (filter_by (is_stale cutoff) rows))
unfolding filter_by
stale-AreApart cutoff db [] i = tt
stale-AreApart cutoff db (y ∷ rows) i = elim (Bool-cases (is_stale cutoff y)) [
  | inl e ↦ rw e (stale_beside cutoff db y rows i.0, stale-AreApart cutoff db rows i.1)
  | inr e ↦ rw e (stale-AreApart cutoff db rows i.1)
]

-- The daily job is a sequence of steps: with no request in between, it puts only active journeys
-- to sleep.
pub detect_dormant-refines :
    (now : ℕ) (db : Db)
    → IsIndexed db.journeys
    → History db.journeys (detect_dormant now db).1.journeys
unfolding detect_dormant find_stale_active_journeys
detect_dormant-refines now db i =
    marks-History now _ db (stale-AreApart _ db db.journeys i)
      (stale-IsAwake _ db db.journeys db.journeys i (λ row m. m))

-- A mark that comes after another request has changed the journey overwrites that change: a
-- journey that was completed since the job read it is no longer completed.
pub mark_dormant_overwrites :
    (now id : ℕ) (row : Journey) (db : Db)
    → find_in (has_id id) db.journeys ≡ some row
    → row.state ≡ completed
    → breaks_index (dormant_row now row) db.journeys ≡ false
    → find_in (has_id id) (mark_dormant now id db).1.journeys ≡ some (dormant_row now row)
unfolding mark_dormant save_journey
mark_dormant_overwrites now id row db f s fits =
    rw (f, fits) (find-update_self id (dormant_row now) row db.journeys (λ j. refl) f)
