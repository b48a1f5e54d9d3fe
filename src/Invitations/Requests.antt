-- ===== src/Invitations/Requests.antt =====
-- A server that serves the requests about invitations one after the other: what every run keeps.
use veervrat_app.Base.{ℕ, ◌≢◌, sym, subst, List, [], ◌∷◌, All, IsKeyed, TableStep, step-IsKeyed}
use veervrat_app.Model.{Invitation, SessionUser, Text, Db, Prisma}
use veervrat_app.Invitations.Moves.{
  InvitationMove, IsNewInvitation, IsRecorded, step-IsRecorded, move-id,
}
use veervrat_app.Invitations.Operations.{
  SendInvitationDto, send_vm_invitation, send_reminder, accept_invitation, decline_invitation,
  cancel_invitation,
}
use veervrat_app.Invitations.Steps.{
  send_vm_invitation-Steps, send_reminder-Steps, accept_invitation-Steps, decline_invitation-Steps,
  cancel_invitation-Steps,
}

pub data InvitationRequest : Type 0 where
  send : (fresh token : ℕ) → SendInvitationDto → InvitationRequest
  remind cancel : (id : ℕ) → InvitationRequest
  accept : (fresh token : ℕ) → InvitationRequest
  decline : (token : ℕ) → InvitationRequest

abbrev pub InvitationCall : Type 0
InvitationCall = ℕ × SessionUser × InvitationRequest

abbrev pub IsTidy : Db → Type 0
IsTidy db = IsKeyed (λ (i : Invitation). i.id) db.invitations × All IsRecorded db.invitations

module _ (prisma : Prisma) (lower : Text → Text) where
  -- The database after one request of `user`, whether it was answered or refused.
  abbrev pub serve : ℕ → SessionUser → InvitationRequest → Db → Db
  serve now user (send fresh token dto) db =
      (send_vm_invitation prisma lower fresh token now user dto db).1
  serve now user (remind id) db = (send_reminder now user id db).1
  serve now user (cancel id) db = (cancel_invitation user id db).1
  serve now user (accept fresh token) db = (accept_invitation fresh now user token db).1
  serve now user (decline token) db = (decline_invitation user token db).1

  abbrev pub serve_all : List InvitationCall → Db → Db
  serve_all [] db = db
  serve_all ((now, user, r) ∷ calls) db = serve_all calls (serve now user r db)

  -- The id of a new row is in no row yet.
  abbrev pub IsFresh : InvitationRequest → Db → Type 0
  IsFresh (send fresh token dto) db = All (λ (i : Invitation). i.id ≢ fresh) db.invitations
  IsFresh _ db = Unit

  abbrev pub AreFresh : List InvitationCall → Db → Type 0
  AreFresh [] db = Unit
  AreFresh ((now, user, r) ∷ calls) db = IsFresh r db × AreFresh calls (serve now user r db)

  abbrev NewOf : SessionUser → InvitationRequest → Invitation → Type 0
  NewOf user (send fresh token dto) i = IsNewInvitation user.id fresh i
  NewOf user _ i = ⊥

  serve-Step :
      (now : ℕ) (user : SessionUser) (r : InvitationRequest) (db : Db)
      → IsKeyed (λ (i : Invitation). i.id) db.invitations
      → TableStep
          (InvitationMove user.id)
          (NewOf user r)
          db.invitations
          (serve now user r db).invitations
  serve-Step now user (send fresh token dto) db k =
      send_vm_invitation-Steps user (IsNewInvitation user.id fresh) prisma lower db fresh token now
        dto (λ i n. n)
  serve-Step now user (remind id) db k = send_reminder-Steps user (λ i. ⊥) db k now id
  serve-Step now user (cancel id) db k = cancel_invitation-Steps user (λ i. ⊥) db k id
  serve-Step now user (accept fresh token) db k =
      accept_invitation-Steps user (λ i. ⊥) db k fresh now token
  serve-Step now user (decline token) db k = decline_invitation-Steps user (λ i. ⊥) db k token

  new-own :
      (user : SessionUser) (r : InvitationRequest) (db : Db)
      → IsFresh r db
      → (i : Invitation) → NewOf user r i
      → All (λ (y : Invitation). y.id ≢ i.id) db.invitations
  new-own user (send fresh token dto) db f i n =
      subst (λ id. All (λ (y : Invitation). y.id ≢ id) db.invitations) (sym n.id) f
  new-own user (remind id) db f i n = absurd n
  new-own user (cancel id) db f i n = absurd n
  new-own user (accept fresh token) db f i n = absurd n
  new-own user (decline token) db f i n = absurd n

  new-by :
      (user : SessionUser) (r : InvitationRequest) (i : Invitation)
      → NewOf user r i
      → (fresh : ℕ) × IsNewInvitation user.id fresh i
  new-by user (send fresh token dto) i n = (fresh, n)
  new-by user (remind id) i n = absurd n
  new-by user (cancel id) i n = absurd n
  new-by user (accept fresh token) i n = absurd n
  new-by user (decline token) i n = absurd n

  serve-IsTidy :
      (now : ℕ) (user : SessionUser) (r : InvitationRequest) (db : Db)
      → IsFresh r db
      → IsTidy db
      → IsTidy (serve now user r db)
  serve-IsTidy now user r db f t =
      let step = serve-Step now user r db t.0 in
      (
        step-IsKeyed (λ (i : Invitation). i.id) (InvitationMove user.id) (NewOf user r)
            db.invitations _ (move-id user.id) (new-own user r db f) step t.0,
        step-IsRecorded user.id (NewOf user r) db.invitations _ (new-by user r) step t.1,
      )

  -- After any run of requests about invitations, by any users, answered or refused, from a table
  -- in which it held, with unused ids for new rows, the ids are distinct, and an invitation has a
  -- date of acceptance exactly if it was accepted, which is not after its expiry.
  pub serve_calls-IsTidy :
      (calls : List InvitationCall) (db : Db)
      → AreFresh calls db
      → IsTidy db
      → IsTidy (serve_all calls db)
  serve_calls-IsTidy [] db f t = t
  serve_calls-IsTidy ((now, user, r) ∷ calls) db f t =
      serve_calls-IsTidy calls (serve now user r db) f.1 (serve-IsTidy now user r db f.0 t)
