-- ===== src/Journeys/Creation.antt =====
-- `createJourney` of journeys.service.ts: its race between check and insert, and its conflicts.
use veervrat_app.Base.{
  ℕ, ◌≡◌, ◌≢◌, refl, ◌⊎◌, inl, inr, true, false, Option, none, some, List, [], ◌∷◌, All, In,
  some_of, length, length-take-le, arith, ◌≤◌, ◌==◌, Some, Bool-cases, Option-cases,
}
use veervrat_app.Model.{
  Journey, Sentence, unique_violation, foreign_key_violation, SessionUser, Text, Db, Result, ok,
  err, journey_conflict, Prisma,
}
use veervrat_app.Journeys.{
  rivals, breaks_index, has_references, insert_journey, new_journey, is_active_for,
  find_active_for_sentence,
}
use veervrat_app.Journeys.Moves.{TableStep, unchanged, inserted}
use veervrat_app.Journeys.Operations.{CreateJourneyDto, create_journey, title_for}

-- The journey is live, this person's, and about this sentence: the rows that block a new one.
blocking_of_rival :
    (row k : Journey)
    → rivals row k ≡ true
    → is_active_for row.vratarthi_id row.sentence_id k ≡ true
unfolding rivals
blocking_of_rival row k h = ground arith

-- If no row blocks a new one, an insert breaks no index.
fits_of_none :
    (row : Journey) (rows : List Journey)
    → All (λ k. is_active_for row.vratarthi_id row.sentence_id k ≡ false) rows
    → breaks_index row rows ≡ false
unfolding some_of
fits_of_none row [] h = refl
fits_of_none row (k ∷ rows) h = ground (arith, blocking_of_rival row k, fits_of_none row rows h.1)

-- A broken index tells of a blocking row.
Some-of_broken :
    (row : Journey) (rows : List Journey)
    → breaks_index row rows ≡ true
    → Some (λ k. is_active_for row.vratarthi_id row.sentence_id k ≡ true) rows
unfolding some_of
Some-of_broken row [] h = absurd (ground (arith, h))
Some-of_broken row (k ∷ rows) h = elim (Bool-cases (rivals row k)) [
  | inl e ↦ inl (blocking_of_rival row k e)
  | inr e ↦ inr (Some-of_broken row rows (ground (arith, h, e)))
]

no_sentence :
    (id : ℕ) (rows : List Sentence)
    → some_of (λ s. s.id == id) rows ≡ false
    → All (λ (s : Sentence). s.id ≢ id) rows
unfolding some_of
no_sentence id [] h = tt
no_sentence id (s ∷ rows) h = (ground (arith, h), no_sentence id rows (ground (arith, h)))

no_weakness :
    (id : ℕ) (rows : List ℕ) → some_of (λ x. x == id) rows ≡ false → All (λ x. x ≢ id) rows
unfolding some_of
no_weakness id [] h = tt
no_weakness id (x ∷ rows) h = (ground (arith, h), no_weakness id rows (ground (arith, h)))

module _ (prisma : Prisma) (meanwhile afterwards : Db → Db) (fresh now : ℕ) (user : SessionUser)
    (dto : CreateJourneyDto) (db : Db) where
  abbrev pub row : Journey
  row = new_journey fresh now user.id dto.sentence_id dto.weakness_id (title_for dto dto.title db)

  abbrev pub created : Result Journey × Db
  created = create_journey prisma meanwhile afterwards fresh now user dto db

  -- What blocks this person's journey about this sentence, as the check reads it.
  abbrev pub blocker : Db → Option Journey
  blocker = find_active_for_sentence prisma user.id dto.sentence_id

  -- The sentence or the weakness that was asked for is in no row.
  abbrev pub IsDangling : Db → Type 0
  IsDangling there =
      All (λ (s : Sentence). s.id ≢ dto.sentence_id) there.sentences
      ⊎ All (λ w. w ≢ dto.weakness_id) there.weaknesses

  IsDangling-of_missing : (there : Db) → has_references row there ≡ false → IsDangling there
  IsDangling-of_missing there h =
      elim (Bool-cases (some_of (λ s. s.id == dto.sentence_id) there.sentences)) [
        | inr e ↦ inl (no_sentence dto.sentence_id there.sentences e)
        | inl e ↦ inr (no_weakness dto.weakness_id there.weaknesses (ground (arith, h, e)))
      ]

  -- The four ways in which the request may end, when the check lets it through.
  abbrev pub Added : Type 0
  Added = created ≡ (ok row, record (meanwhile db) { journeys = row ∷ (meanwhile db).journeys })

  abbrev pub ToldOfWinner : Type 0
  ToldOfWinner =
      (winner : Journey) × In winner (afterwards (meanwhile db)).journeys
      × (is_active_for user.id dto.sentence_id winner ≡ true)
      × (created ≡ (err (journey_conflict winner.id winner.state), afterwards (meanwhile db)))

  abbrev pub WinnerLeft : Type 0
  WinnerLeft =
      Some (λ k. is_active_for user.id dto.sentence_id k ≡ true) (meanwhile db).journeys
      × All (λ k. is_active_for user.id dto.sentence_id k ≡ false)
          (afterwards (meanwhile db)).journeys
      × (created ≡ (err unique_violation, afterwards (meanwhile db)))

  abbrev pub Dangled : Type 0
  Dangled = IsDangling (meanwhile db) × (created ≡ (err foreign_key_violation, meanwhile db))

  -- A request that the check lets through, whatever other requests do before the insert and after
  -- it failed, adds the journey, or is told of a live journey of that person about that sentence.
  -- An error of the database comes out in two cases only, and nothing is written: the index was
  -- broken by a live journey that is none any more when the winner is looked up, or the sentence or
  -- the weakness does not exist.
  pub create_journey_race : blocker db ≡ none → Added ⊎ ToldOfWinner ⊎ WinnerLeft ⊎ Dangled
  unfolding create_journey insert_journey find_active_for_sentence
  create_journey_race unblocked = elim (Bool-cases (breaks_index row (meanwhile db).journeys)) [
    | inr fits ↦ elim (Bool-cases (has_references row (meanwhile db))) [
      | inl known ↦ inl (rw (unblocked, fits, known) refl)
      | inr missing ↦ inr (
          inr (
            inr (IsDangling-of_missing (meanwhile db) missing, rw (unblocked, fits, missing) refl)))
    ]
    | inl broken ↦ elim (Option-cases (blocker (afterwards (meanwhile db)))) [
      | inl e ↦ inr (
          inr (
            inl (
              Some-of_broken row (meanwhile db).journeys broken,
              prisma.find_first-eq-none (is_active_for user.id dto.sentence_id)
                  (afterwards (meanwhile db)).journeys e,
              rw (unblocked, broken, e) refl,
            )))
      | inr (winner, e) ↦
          let (member, test) =
            prisma.find_first-eq-some (is_active_for user.id dto.sentence_id)
              (afterwards (meanwhile db)).journeys winner e in
          inr (inl (winner, member, test, rw (unblocked, broken, e) refl))
    ]
  ]

  -- With no interference a person who has a live journey about the sentence is told of it and
  -- nothing is written, and anyone else gets the new journey, if its sentence and weakness exist.
  pub create_journey_sequential :
      meanwhile db ≡ db
      → ((old : Journey) × In old db.journeys
          × (is_active_for user.id dto.sentence_id old ≡ true)
          × (created ≡ (err (journey_conflict old.id old.state), db)))
        ⊎ (All (λ k. is_active_for user.id dto.sentence_id k ≡ false) db.journeys
            × ((created ≡ (ok row, record db { journeys = row ∷ db.journeys }))
                ⊎ IsDangling db × (created ≡ (err foreign_key_violation, db))))
  unfolding create_journey insert_journey find_active_for_sentence
  create_journey_sequential alone = elim (Option-cases (blocker db)) [
    | inr (old, e) ↦
        let (member, test) =
          prisma.find_first-eq-some (is_active_for user.id dto.sentence_id) db.journeys old e in
        inl (old, member, test, rw e refl)
    | inl e ↦
        let none_blocks =
          prisma.find_first-eq-none (is_active_for user.id dto.sentence_id) db.journeys e in
        let fits = fits_of_none row db.journeys none_blocks in
        inr (
          none_blocks,
          elim (Bool-cases (has_references row db)) [
            | inl known ↦ inl (rw (e, alone, fits, known) refl)
            | inr missing ↦
                inr (IsDangling-of_missing db missing, rw (e, alone, fits, missing) refl)
          ],
        )
  ]

  -- The request is a step of the table as it stood when the insert ran.
  pub create_journey-refines :
      afterwards (meanwhile db) ≡ meanwhile db
      → All (λ k. fresh ≢ k.id) (meanwhile db).journeys
      → TableStep (meanwhile db).journeys created.1.journeys ⊎ (created.1 ≡ db)
  unfolding create_journey insert_journey
  create_journey-refines quiet f = elim (Option-cases (blocker db)) [
    | inr (old, e) ↦ inr (rw e refl)
    | inl e ↦ elim (Bool-cases (breaks_index row (meanwhile db).journeys)) [
      | inl broken ↦ inl (rw (e, broken, quiet) (unchanged refl))
      | inr fits ↦ elim (Bool-cases (has_references row (meanwhile db))) [
        | inr missing ↦ inl (rw (e, fits, missing) (unchanged refl))
        | inl known ↦ inl (
            rw (e, fits, known)
              (inserted row (record { state = refl; completed_at = refl; deleted_at = refl }) f fits
                refl))
      ]
    ]
  ]

-- A title that the caller leaves out or leaves empty is at most a hundred units of the sentence.
pub length-title_for-le :
    (dto : CreateJourneyDto) (title : Option Text) (db : Db)
    → (title ≡ none) ⊎ (title ≡ some [])
    → length (title_for dto title db) ≤ 100
unfolding title_for
length-title_for-le dto none db h = length-take-le 100 _
length-title_for-le dto (some []) db h = length-take-le 100 _
length-title_for-le dto (some (c ∷ t)) db h = ground arith
