-- ===== src/Erc/Requests.antt =====
-- A server that serves the item requests one after the other: what every run of it keeps.
use veervrat_app.Base.{
  ℕ, ◌≡◌, ◌≤◌, ◌⊎◌, inl, inr, List, [], ◌∷◌, Option, All, Some, some, count_of, true,
}
use veervrat_app.Model.{ErcStatus, approved, revisit, ErcType, SessionUser, Text, Db, Prisma}
use veervrat_app.Permissions.{is_va, is_vm, erc_approve_closure, erc_revisit}
use veervrat_app.Permissions.Stake.{HasNoActiveVm, HoldsAssignment, approve_closure_iff}
use veervrat_app.Journeys.{JourneyDetail, find_by_id, build_journey_slim}
use veervrat_app.Erc.{CustomErcData}
use veervrat_app.Erc.Moves.{
  TableStep, IsDated, step-IsDated, HasEnded, is_approved, step-HasEnded, WasRemoved, HasClosed,
  step-closes,
}
use veervrat_app.Erc.Refines.{May}
use veervrat_app.Erc.Steps.{
  update_status-Steps, approve_item-Steps, revisit_item-Steps, deactivate-Steps, reactivate-Steps,
  remove-Steps, submit_for_review-Steps, edit_custom-Steps, suggest_item-Steps,
  unsuggest_item-Steps, acknowledge_sidenote_item-Steps, create_custom-Steps, select_item-Steps,
}
use veervrat_app.Erc.Operations.{
  update_status, approve_item, revisit_item, deactivate, reactivate, remove, suggest_item,
  unsuggest_item, acknowledge_sidenote_item, create_custom, edit_custom, submit_for_review,
  select_item,
}

-- what is asked of an item
pub data ItemRequest : Type 0 where
  update : ErcStatus → ItemRequest
  approve return_it switch_off switch_on unsuggest acknowledge delete : ItemRequest
  suggest : (fresh : ℕ) → Text → ItemRequest
  rewrite : Option Text → CustomErcData → ItemRequest
  ask_review : (fresh : ℕ) → ItemRequest

pub data ErcRequest : Type 0 where
  select : (fresh pool_id : ℕ) → ErcRequest
  create_own : (fresh : ℕ) → Text → CustomErcData → ErcRequest
  on : (id : ℕ) → ItemRequest → ErcRequest

module _ (prisma : Prisma) (now : ℕ) (user : SessionUser) (journey_id : ℕ) (kind : ErcType) where
  abbrev pub serve_on : ℕ → ItemRequest → Db → Db
  serve_on id (update target) db = (update_status prisma now user journey_id id target kind db).1
  serve_on id approve db = (approve_item prisma now user journey_id id kind db).1
  serve_on id return_it db = (revisit_item prisma now user journey_id id kind db).1
  serve_on id switch_off db = (deactivate prisma user journey_id id kind db).1
  serve_on id switch_on db = (reactivate prisma user journey_id id kind db).1
  serve_on id unsuggest db = (unsuggest_item prisma now user journey_id id kind db).1
  serve_on id acknowledge db = (acknowledge_sidenote_item prisma now user journey_id id kind db).1
  serve_on id delete db = (remove prisma user journey_id id kind db).1
  serve_on id (suggest fresh text) db =
      (suggest_item prisma fresh user journey_id id text kind db).1
  serve_on id (rewrite title dto) db = (edit_custom prisma user journey_id id title dto kind db).1
  serve_on id (ask_review fresh) db = (submit_for_review prisma fresh user journey_id id kind db).1

  -- The database after one request of `user`, whether it was answered or refused.
  abbrev pub serve : ErcRequest → Db → Db
  serve (select fresh pool_id) db = (select_item prisma fresh now user journey_id pool_id kind db).1
  serve (create_own fresh title dto) db =
      (create_custom prisma fresh now user journey_id title dto kind db).1
  serve (on id r) db = serve_on id r db

  abbrev Stepped : Db → Db → Type 0
  Stepped db db' =
      TableStep (May prisma user db erc_approve_closure) (May prisma user db erc_revisit) db.items
        db'.items

  serve_on-refines : (id : ℕ) (r : ItemRequest) (db : Db) → Stepped db (serve_on id r db)
  serve_on-refines id (update target) db =
      update_status-Steps prisma user db journey_id id kind now target
  serve_on-refines id approve db = approve_item-Steps prisma user db journey_id id kind now
  serve_on-refines id return_it db = revisit_item-Steps prisma user db journey_id id kind now
  serve_on-refines id switch_off db = deactivate-Steps prisma user db journey_id id kind
  serve_on-refines id switch_on db = reactivate-Steps prisma user db journey_id id kind
  serve_on-refines id unsuggest db = unsuggest_item-Steps prisma user db journey_id id kind now
  serve_on-refines id acknowledge db =
      acknowledge_sidenote_item-Steps prisma user db journey_id id kind now
  serve_on-refines id delete db = remove-Steps prisma user db journey_id id kind
  serve_on-refines id (suggest fresh text) db =
      suggest_item-Steps prisma user db journey_id id kind fresh text
  serve_on-refines id (rewrite title dto) db =
      edit_custom-Steps prisma user db journey_id id kind title dto
  serve_on-refines id (ask_review fresh) db =
      submit_for_review-Steps prisma user db journey_id id kind fresh

  serve-refines : (r : ErcRequest) (db : Db) → Stepped db (serve r db)
  serve-refines (select fresh pool_id) db =
      select_item-Steps prisma user db fresh now journey_id kind pool_id
  serve-refines (create_own fresh title dto) db =
      create_custom-Steps prisma user db fresh now journey_id kind title dto
  serve-refines (on id r) db = serve_on-refines id r db

pub record ErcCall : Type 0 where
  pub now : ℕ
  pub user : SessionUser
  pub journey_id : ℕ
  pub kind : ErcType
  pub request : ErcRequest

abbrev pub serve_all : Prisma → List ErcCall → Db → Db
serve_all prisma [] db = db
serve_all prisma (c ∷ calls) db =
    serve_all prisma calls (serve prisma c.now c.user c.journey_id c.kind c.request db)

-- After any run of item requests, by any users, answered or refused, from a table in which it
-- held, every item has exactly the dates of the statuses that it went through.
pub serve_all-IsDated :
    (prisma : Prisma) (calls : List ErcCall) (db : Db)
    → All IsDated db.items
    → All IsDated (serve_all prisma calls db).items
serve_all-IsDated prisma [] db h = h
serve_all-IsDated prisma (c ∷ calls) db h =
    serve_all-IsDated prisma calls _ (
      step-IsDated db.items _ (serve-refines prisma c.now c.user c.journey_id c.kind c.request db)
        h)

-- An item that was approved, or returned, keeps this status through any one request, unless the
-- request deletes an item.
pub serve-HasEnded :
    (prisma : Prisma) (c : ErcCall) (kind : ErcType) (id : ℕ) (s : ErcStatus) (db : Db)
    → (s ≡ approved) ⊎ (s ≡ revisit)
    → Some (HasEnded kind id s) db.items
    → let db' = serve prisma c.now c.user c.journey_id c.kind c.request db in
      Some (HasEnded kind id s) db'.items ⊎ WasRemoved db.items db'.items
serve-HasEnded prisma c kind id s db e h =
    step-HasEnded kind id s db.items _ e
      (serve-refines prisma c.now c.user c.journey_id c.kind c.request db) h

-- The journey is undeleted, and either is owned by the user, a vratarthi by role, and has no active
-- vratmitra, or has an active assignment of the user, a vratmitra by role.
abbrev pub MayCloseOn : Prisma → SessionUser → Db → (journey_id : ℕ) → Type 0
MayCloseOn prisma user db journey_id =
    (d : JourneyDetail) × (find_by_id prisma journey_id db ≡ some d)
    × ((is_va user ≡ true) × (d.row.vratarthi_id ≡ user.id) × HasNoActiveVm (build_journey_slim d)
        ⊎ (is_vm user ≡ true) × HoldsAssignment user (build_journey_slim d))

-- If an item request leaves more items approved than there were, then an item was submitted before
-- and is approved now, and the journey of this very item is undeleted and either is owned by the
-- caller as a vratarthi and has no active vratmitra, or has an active assignment of the caller, a
-- vratmitra by role.
pub serve-closes :
    (prisma : Prisma) (c : ErcCall) (db : Db)
    → let db' = serve prisma c.now c.user c.journey_id c.kind c.request db in
      (count_of is_approved db'.items ≤ count_of is_approved db.items)
      ⊎ HasClosed (MayCloseOn prisma c.user db) db.items db'.items
unfolding build_journey_slim
serve-closes prisma c db =
    elim (step-closes db.items _
      (serve-refines prisma c.now c.user c.journey_id c.kind c.request db)) [
        | inl same ↦ inl same
        | inr (kind, (id, (i, (i', (f, (g, (s, t, (d, (e, found, p))))))))) ↦ inr (
          kind,
          (
            id,
            (
              i,
              (
                i',
                (
                  f,
                  (
                    g,
                    (s, t, (d, found, (approve_closure_iff c.user (build_journey_slim d) e).0 p)),
                  ),
                ),
              ),
            ),
          ),
        )
      ]
