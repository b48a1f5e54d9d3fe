-- ===== src/Journeys/Requests.antt =====
-- A server that serves the journey requests one after the other: what every run of it keeps.
use veervrat_app.Base.{refl, ℕ, ◌≢◌, sym, subst, inl, inr, List, [], ◌∷◌, All, Some}
use veervrat_app.Model.{Journey, SessionUser, Text, Db, JourneyVerb, Prisma}
use veervrat_app.Journeys.Live.{IsIndexed}
use veervrat_app.Journeys.Moves.{
  History, here, next, IsTidy, History-IsTidy, WasCompleted, History-WasCompleted,
}
use veervrat_app.Journeys.Operations.{
  CreateJourneyDto, create_journey, change_state, submit_completion, approve_completion,
  change_title, detect_dormant,
}
use veervrat_app.Journeys.Refines.{
  change_state-refines, submit_completion-refines, approve_completion-refines, change_title-refines,
}
use veervrat_app.Journeys.Creation.{create_journey-refines}
use veervrat_app.Journeys.Dormancy.{History-append, detect_dormant-refines}

pub data Request : Type 0 where
  create : (fresh : ℕ) → CreateJourneyDto → Request
  change : ℕ → JourneyVerb → Request
  submit approve : ℕ → Request
  retitle : ℕ → Text → Request
  daily_job : Request

-- The database after one request of `user`, whether it was answered or refused.
abbrev pub serve : Prisma → ℕ → SessionUser → Request → Db → Db
serve prisma now user (create fresh dto) db =
    (create_journey prisma (λ d. d) (λ d. d) fresh now user dto db).1
serve prisma now user (change id verb) db = (change_state prisma now user id verb db).1
serve prisma now user (submit id) db = (submit_completion prisma now user id db).1
serve prisma now user (approve id) db = (approve_completion prisma now user id db).1
serve prisma now user (retitle id title) db = (change_title prisma now user id title db).1
serve prisma now user daily_job db = (detect_dormant now db).1

abbrev pub Call : Type 0
Call = ℕ × SessionUser × Request

abbrev pub serve_all : Prisma → List Call → Db → Db
serve_all prisma [] db = db
serve_all prisma ((now, user, r) ∷ calls) db = serve_all prisma calls (serve prisma now user r db)

-- The id of a new row is in no row yet.
abbrev pub IsFresh : Request → Db → Type 0
IsFresh (create fresh dto) db = All (λ (k : Journey). fresh ≢ k.id) db.journeys
IsFresh _ db = Unit

abbrev pub AreFresh : Prisma → List Call → Db → Type 0
AreFresh prisma [] db = Unit
AreFresh prisma ((now, user, r) ∷ calls) db =
    IsFresh r db × AreFresh prisma calls (serve prisma now user r db)

serve-History :
    (prisma : Prisma) (now : ℕ) (user : SessionUser) (r : Request) (db : Db)
    → IsFresh r db
    → IsIndexed db.journeys
    → History db.journeys (serve prisma now user r db).journeys
serve-History prisma now user (create fresh dto) db f i =
    elim (create_journey-refines prisma (λ d. d) (λ d. d) fresh now user dto db refl f) [
      | inl s ↦ next here s
      | inr same ↦ subst (λ (d : Db). History db.journeys d.journeys) (sym same) here
    ]
serve-History prisma now user (change id verb) db f i =
    next here (change_state-refines prisma db i now user id verb)
serve-History prisma now user (submit id) db f i =
    next here (submit_completion-refines prisma db i now user id)
serve-History prisma now user (approve id) db f i =
    next here (approve_completion-refines prisma db i now user id)
serve-History prisma now user (retitle id title) db f i =
    next here (change_title-refines prisma db i now user id title)
serve-History prisma now user daily_job db f i = detect_dormant-refines now db i

serve_all-History :
    (prisma : Prisma) (calls : List Call) (db : Db)
    → AreFresh prisma calls db
    → IsTidy db.journeys
    → History db.journeys (serve_all prisma calls db).journeys
serve_all-History prisma [] db f t = here
serve_all-History prisma ((now, user, r) ∷ calls) db f t =
    let first = serve-History prisma now user r db f.0 t.indexed in
    History-append first
      (serve_all-History prisma calls (serve prisma now user r db) f.1 (History-IsTidy first t))

-- After any run of requests and daily jobs, by any users, answered or refused, no person has two
-- live journeys about one sentence, and every completed, paused or dormant journey has its date,
-- a completion date exactly if it is completed.
pub serve_all-IsTidy :
    (prisma : Prisma) (calls : List Call) (db : Db)
    → AreFresh prisma calls db
    → IsTidy db.journeys
    → IsTidy (serve_all prisma calls db).journeys
serve_all-IsTidy prisma calls db f t = History-IsTidy (serve_all-History prisma calls db f t) t

-- A journey that is completed stays so, with its date of completion, through any such run.
pub serve_all-WasCompleted :
    (prisma : Prisma) (id when : ℕ) (calls : List Call) (db : Db)
    → AreFresh prisma calls db
    → IsTidy db.journeys
    → Some (WasCompleted id when) db.journeys
    → Some (WasCompleted id when) (serve_all prisma calls db).journeys
serve_all-WasCompleted prisma id when calls db f t h =
    History-WasCompleted id when (serve_all-History prisma calls db f t) t h
