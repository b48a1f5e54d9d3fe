-- ===== src/Invitations/Moves.antt =====
-- The life of an invitation as a relation on its row, and what it keeps.
use veervrat_app.Base.{ℕ, ◌≤◌, ◌≡◌, ◌≢◌, refl, none, some, List, arith, All, TableStep, step-All}
use veervrat_app.Model.{pending, accepted, declined, cancelled, Invitation}
use veervrat_app.Invitations.{answered, accepted_row, reminded_row}

-- What the person `caller` may do with an invitation: nothing once it was answered.
pub data InvitationMove (caller : ℕ) (i i' : Invitation) : Type 0 where
  accept :
      (now : ℕ)
      → i.status ≡ pending
      → i.invitee_id ≡ some caller
      → now ≤ i.expires_at
      → i' ≡ accepted_row now i
      → InvitationMove caller i i'
  decline :
      i.status ≡ pending
      → i.invitee_id ≡ some caller
      → i' ≡ answered declined i
      → InvitationMove caller i i'
  cancel :
      i.status ≡ pending
      → i.inviter_id ≡ caller
      → i' ≡ answered cancelled i
      → InvitationMove caller i i'
  remind :
      (now : ℕ)
      → i.status ≡ pending
      → i.inviter_id ≡ caller
      → i.reminder_sent_at ≡ none
      → i' ≡ reminded_row now i
      → InvitationMove caller i i'

pub record IsNewInvitation (caller fresh : ℕ) (i : Invitation) : Type 0 where
  pub id : i.id ≡ fresh
  pub inviter : i.inviter_id ≡ caller
  pub status : i.status ≡ pending
  pub accepted_at : i.accepted_at ≡ none
  pub reminder_sent_at : i.reminder_sent_at ≡ none

-- It has a date of acceptance exactly if it was accepted, and that date is not after its expiry.
pub record IsRecorded (i : Invitation) : Type 0 where
  pub dated : i.status ≡ accepted → (t : ℕ) × (i.accepted_at ≡ some t) × (t ≤ i.expires_at)
  pub undated : i.status ≢ accepted → i.accepted_at ≡ none

move-IsRecorded :
    (caller : ℕ) (i i' : Invitation) → InvitationMove caller i i' → IsRecorded i → IsRecorded i'
move-IsRecorded caller i i' (accept now s u t e) r =
    rw e (record { dated = λ h. (now, refl, t); undated = λ h. absurd (h refl) })
move-IsRecorded caller i i' (decline s u e) r =
    rw e (record { dated = λ h. ground arith; undated = λ h. r.undated (ground arith) })
move-IsRecorded caller i i' (cancel s u e) r =
    rw e (record { dated = λ h. ground arith; undated = λ h. r.undated (ground arith) })
move-IsRecorded caller i i' (remind now s u n e) r =
    rw e (record { dated = r.dated; undated = r.undated })

new-IsRecorded : (caller fresh : ℕ) (i : Invitation) → IsNewInvitation caller fresh i → IsRecorded i
new-IsRecorded caller fresh i n = record {
  dated = λ h. ground (arith, n.status);
  undated = λ h. n.accepted_at;
}

-- Every step of the table keeps the dates of acceptance in order.
pub step-IsRecorded :
    (caller : ℕ) (IsNew : Invitation → Type 0) (rows rows' : List Invitation)
    → ((i : Invitation) → IsNew i → (fresh : ℕ) × IsNewInvitation caller fresh i)
    → TableStep (InvitationMove caller) IsNew rows rows'
    → All IsRecorded rows
    → All IsRecorded rows'
step-IsRecorded caller IsNew rows rows' new =
    step-All (InvitationMove caller) IsNew IsRecorded (move-IsRecorded caller)
      (λ i n. new-IsRecorded caller (new i n).0 i (new i n).1) rows rows'

pub move-id : (caller : ℕ) (i i' : Invitation) → InvitationMove caller i i' → i'.id ≡ i.id
move-id caller i i' (accept now s u t e) = ground (arith, e)
move-id caller i i' (decline s u e) = ground (arith, e)
move-id caller i i' (cancel s u e) = ground (arith, e)
move-id caller i i' (remind now s u n e) = ground (arith, e)

-- An answered invitation stays the same row.
pub move-answered :
    (caller : ℕ) (i i' : Invitation) → InvitationMove caller i i' → i.status ≡ pending
move-answered caller i i' (accept now s u t e) = s
move-answered caller i i' (decline s u e) = s
move-answered caller i i' (cancel s u e) = s
move-answered caller i i' (remind now s u n e) = s
