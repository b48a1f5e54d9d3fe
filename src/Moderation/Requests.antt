-- ===== src/Moderation/Requests.antt =====
-- A server that serves the moderators' requests one after the other: what every run keeps.
use veervrat_app.Base.{
  ℕ, ◌≡◌, ◌≢◌, refl, sym, subst, true, none, some, Option, List, [], ◌∷◌, All, Some, All-update_one,
  Some-update_one, arith,
}
use veervrat_app.Model.{pending, rejected, CustomErcReview, SessionUser, Text, Db}
use veervrat_app.Moderation.Operations.{CustomErcEdits, approve_review, reject_review, is_nonempty}
use veervrat_app.Moderation.Decisions.{
  ReviewMove, ReviewStep, same, decided, approve_review-Kept, reject_review-Kept,
}

pub data ModerationRequest : Type 0 where
  approve : (fresh id : ℕ) → Option CustomErcEdits → ModerationRequest
  reject : (id : ℕ) → Text → ModerationRequest

abbrev pub ModerationCall : Type 0
ModerationCall = ℕ × SessionUser × ModerationRequest

-- The database after one request of `user`, whether it was answered or refused.
abbrev pub serve : ℕ → SessionUser → ModerationRequest → Db → Db
serve now user (approve fresh id edits) db = (approve_review fresh now user id edits db).1
serve now user (reject id reason) db = (reject_review now user id reason db).1

abbrev pub serve_all : List ModerationCall → Db → Db
serve_all [] db = db
serve_all ((now, user, r) ∷ calls) db = serve_all calls (serve now user r db)

-- A pending review names no moderator, a decided one names the moderator and the date, a rejected
-- one also a reason that is not blank.
pub record IsSigned (r : CustomErcReview) : Type 0 where
  pub unsigned : r.status ≡ pending → (r.reviewed_by_id ≡ none) × (r.reviewed_at ≡ none)
  pub signed : r.status ≢ pending → (r.reviewed_by_id ≢ none) × (r.reviewed_at ≢ none)
  pub reasoned :
      r.status ≡ rejected → (t : Text) × (r.review_note ≡ some t) × (is_nonempty t ≡ true)

-- what a decision leaves
move-IsSigned : (by now : ℕ) (r r' : CustomErcReview) → ReviewMove by now r r' → IsSigned r'
move-IsSigned by now r r' (ReviewMove.approve p i e) = rw e (record {
  unsigned = λ h. ground arith;
  signed = λ h. (ground arith, ground arith);
  reasoned = λ h. absurd (ground arith);
})
move-IsSigned by now r r' (ReviewMove.reject reason p n e) = rw e (record {
  unsigned = λ h. ground arith;
  signed = λ h. (ground arith, ground arith);
  reasoned = λ h. (reason, refl, n);
})

step-IsSigned :
    (by now : ℕ) (rows rows' : List CustomErcReview)
    → ReviewStep by now rows rows'
    → All IsSigned rows
    → All IsSigned rows'
step-IsSigned by now rows rows' (same e) h = subst (All IsSigned) (sym e) h
step-IsSigned by now rows rows' (decided p r change f m e) h =
    rw e (All-update_one IsSigned p change rows r f h (move-IsSigned by now r (change r) m))

move-pending : (by now : ℕ) (r r' : CustomErcReview) → ReviewMove by now r r' → r.status ≡ pending
move-pending by now r r' (ReviewMove.approve p i e) = p
move-pending by now r r' (ReviewMove.reject reason p n e) = p

step-final :
    (by now : ℕ) (rows rows' : List CustomErcReview) (r : CustomErcReview)
    → ReviewStep by now rows rows'
    → r.status ≢ pending
    → Some (λ x. x ≡ r) rows
    → Some (λ x. x ≡ r) rows'
step-final by now rows rows' r (same e) d h = subst (Some (λ x. x ≡ r)) (sym e) h
step-final by now rows rows' r (decided p x change f m e) d h = rw e (
    Some-update_one (λ y. y ≡ r) p change rows x f
      (λ q. absurd (d (subst (λ y. y.status ≡ pending) q (move-pending by now x (change x) m)))) h)

serve-Step :
    (now : ℕ) (user : SessionUser) (r : ModerationRequest) (db : Db)
    → ReviewStep user.id now db.reviews (serve now user r db).reviews
serve-Step now user (approve fresh id edits) db = approve_review-Kept fresh now user id db edits
serve-Step now user (reject id reason) db = reject_review-Kept 0 now user id db reason

-- After any run of moderators' requests, by any users, answered or refused, from a table in which
-- it held, every pending review is unsigned, every decided one names its moderator and date, and
-- every rejected one has a reason that is not blank.
pub serve_decisions-IsSigned :
    (calls : List ModerationCall) (db : Db)
    → All IsSigned db.reviews
    → All IsSigned (serve_all calls db).reviews
serve_decisions-IsSigned [] db h = h
serve_decisions-IsSigned ((now, user, r) ∷ calls) db h =
    serve_decisions-IsSigned calls (serve now user r db)
      (step-IsSigned user.id now db.reviews _ (serve-Step now user r db) h)

-- A decided review stays in the table as it is through any run of moderators' requests, by any
-- users, answered or refused.
pub serve_decisions_final :
    (r : CustomErcReview) (calls : List ModerationCall) (db : Db)
    → r.status ≢ pending
    → Some (λ x. x ≡ r) db.reviews
    → Some (λ x. x ≡ r) (serve_all calls db).reviews
serve_decisions_final r [] db d h = h
serve_decisions_final r ((now, user, q) ∷ calls) db d h =
    serve_decisions_final r calls (serve now user q db) d
      (step-final user.id now db.reviews _ r (serve-Step now user q db) d h)
