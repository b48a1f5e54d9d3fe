-- ===== src/Invitations/Roles.antt =====
-- The role that a relationship needs: an acceptance gives it to the new vratmitra.
use veervrat_app.Base.{
  ℕ, ◌≡◌, refl, sym, subst, inl, inr, true, not, Option, none, some, List, [], ◌∷◌, ◌==◌, ltb,
  some_of, find_in, arith, Bool-cases, Option-cases, All,
}
use veervrat_app.Model.{
  vratmitra, role_eq, InvitationType, platform, vm_global, vm_journey, is_pending,
  vm_invitation_accepted, Journey, Invitation, VmRelationship, JourneyVmAssignment, UserRole,
  SessionUser, Db, Service, require, modify, return, ◌>>=◌, ◌>>◌, entity_not_found, access_denied,
  invitation_expired, invitation_not_pending, Outcome, guard-Outcome, found-Outcome, then-Outcome,
}
use veervrat_app.Model
use veervrat_app.Permissions.{vm_invitation_accept}
use veervrat_app.Journeys.Operations.{notify}
use veervrat_app.VmRelationships.{
  create_global_relationship, create_journey_assignment, assign_to, new_assignment, owner_of,
}
use veervrat_app.VmRelationships.Operations.{create_from_global_invite, create_from_journey_invite}
use veervrat_app.Invitations.{
  find_by_token, mark_accepted, save_invitation, grant_vratmitra_role, holds,
}
use veervrat_app.Invitations.Operations.{
  accept_invitation, accept_found, accept_now, may_answer, relate,
}

-- The person has the vratmitra's role.
abbrev pub IsVratmitra : List UserRole → ℕ → Type 0
IsVratmitra roles id = some_of (holds id vratmitra) roles ≡ true

-- Whoever is or was a vratmitra of someone, or of a journey, has the role.
pub record AreVratmitras (db : Db) : Type 0 where
  pub globals : All (λ (r : VmRelationship). IsVratmitra db.user_roles r.vm_id) db.relationships
  pub assigned : All (λ (a : JourneyVmAssignment). IsVratmitra db.user_roles a.vm_id) db.assignments

abbrev Kept : Db → Db → Type 0
Kept db db' = AreVratmitras db → AreVratmitras db'

Kept_refl : (db : Db) → Kept db db
Kept_refl db h = h

grant-IsVratmitra : (id : ℕ) (db : Db) → IsVratmitra (grant_vratmitra_role id db).user_roles id
unfolding grant_vratmitra_role some_of
grant-IsVratmitra id db = elim (Bool-cases (some_of (holds id vratmitra) db.user_roles)) [
  | inl e ↦ ground (arith, e)
  | inr e ↦ ground (arith, e)
]

grant-monotone :
    (id other : ℕ) (db : Db)
    → IsVratmitra db.user_roles other
    → IsVratmitra (grant_vratmitra_role id db).user_roles other
unfolding grant_vratmitra_role some_of
grant-monotone id other db h = ground (arith, h)

All-weaken :
    {A : Type 0} (P Q : A → Type 0) (xs : List A) → ((a : A) → P a → Q a) → All P xs → All Q xs
All-weaken P Q [] f h = tt
All-weaken P Q (x ∷ xs) f h = (f x h.0, All-weaken P Q xs f h.1)

grant-relationships :
    (id : ℕ) (db : Db) → (grant_vratmitra_role id db).relationships ≡ db.relationships
unfolding grant_vratmitra_role
grant-relationships id db = ground arith

grant-assignments : (id : ℕ) (db : Db) → (grant_vratmitra_role id db).assignments ≡ db.assignments
unfolding grant_vratmitra_role
grant-assignments id db = ground arith

grant-AreVratmitras :
    (id : ℕ) (db : Db)
    → All
        (λ (r : VmRelationship). IsVratmitra (grant_vratmitra_role id db).user_roles r.vm_id)
        db.relationships
    → All
        (λ (a : JourneyVmAssignment). IsVratmitra (grant_vratmitra_role id db).user_roles a.vm_id)
        db.assignments
    → AreVratmitras (grant_vratmitra_role id db)
grant-AreVratmitras id db g a = record {
  globals =
      subst (All (λ r. IsVratmitra (grant_vratmitra_role id db).user_roles r.vm_id))
        (sym (grant-relationships id db)) g;
  assigned =
      subst (All (λ r. IsVratmitra (grant_vratmitra_role id db).user_roles r.vm_id))
        (sym (grant-assignments id db)) a;
}

related :
    (id : ℕ) (db db' : Db)
    → db'.user_roles ≡ db.user_roles
    → AreVratmitras db
    → All
        (λ (r : VmRelationship). IsVratmitra (grant_vratmitra_role id db').user_roles r.vm_id)
        db.relationships
      × All
          (λ (a : JourneyVmAssignment).
            IsVratmitra (grant_vratmitra_role id db').user_roles a.vm_id)
          db.assignments
related id db db' same h = (
  All-weaken _ _ db.relationships
      (λ r t.
        grant-monotone id r.vm_id db' (subst (λ roles. IsVratmitra roles r.vm_id) (sym same) t))
      h.globals,
  All-weaken _ _ db.assignments
      (λ a t.
        grant-monotone id a.vm_id db' (subst (λ roles. IsVratmitra roles a.vm_id) (sym same) t))
      h.assigned,
)

assigned-Kept :
    (fresh now id : ℕ) (user : SessionUser) (o : Option Journey) (db : Db)
    → Kept db
        (((assign_to (new_assignment fresh now id user.id) o >>= λ a. return tt)
            >> modify (grant_vratmitra_role user.id))
          db).1
assigned-Kept fresh now id user none db h = h
assigned-Kept fresh now id user (some j) db h =
    let there = record db { assignments = new_assignment fresh now id user.id ∷ db.assignments } in
    let r = related user.id db there refl h in
    grant-AreVratmitras user.id _ r.0 (grant-IsVratmitra user.id _, r.1)

relate-Kept :
    (fresh now : ℕ) (user : SessionUser) (i : Invitation) (type : InvitationType) (db : Db)
    → Kept db (relate fresh now user i type db).1
unfolding create_from_global_invite create_global_relationship create_from_journey_invite
    create_journey_assignment
relate-Kept fresh now user i platform db h = h
relate-Kept fresh now user i vm_global db h =
    let r =
      related user.id db (create_global_relationship fresh now i.inviter_id user.id db).1 refl h in
    grant-AreVratmitras user.id _ (grant-IsVratmitra user.id _, r.0) r.1
relate-Kept fresh now user i vm_journey db h = elim (Option-cases i.scope_id) [
  | inl e ↦ rw e (let r = related user.id db db refl h in grant-AreVratmitras user.id _ r.0 r.1)
  | inr (id, e) ↦ rw e (assigned-Kept fresh now id user (owner_of id db.journeys) db h)
]

mark-Kept : (now id : ℕ) (db : Db) → Kept db (mark_accepted now id db).1
unfolding mark_accepted save_invitation
mark-Kept now id db h = elim (Option-cases (find_in (λ i. i.id == id) db.invitations)) [
  | inl e ↦ rw e h
  | inr (i, e) ↦ rw e (record { globals = h.globals; assigned = h.assigned })
]

finish :
    (fresh now : ℕ) (user : SessionUser) (i a : Invitation) (db : Db)
    → Kept db
        ((relate fresh now user i i.type
            >> (modify (notify i.inviter_id (some user.id) vm_invitation_accepted i.id)
                >> return a))
          db).1
finish fresh now user i a db =
    then-Outcome Kept Kept_refl db (relate fresh now user i i.type)
      (λ _. modify (notify i.inviter_id (some user.id) vm_invitation_accepted i.id) >> return a)
      (λ _ db' h k. let m = h k in record { globals = m.globals; assigned = m.assigned })
      (relate-Kept fresh now user i i.type db)

-- After an acceptance, answered or refused, whoever is or was a vratmitra has that role, if it was
-- so before.
pub accept_invitation-AreVratmitras :
    (fresh now token : ℕ) (user : SessionUser) (db : Db)
    → AreVratmitras db
    → AreVratmitras (accept_invitation fresh now user token db).1
unfolding accept_invitation
accept_invitation-AreVratmitras fresh now token user db =
    found-Outcome Kept Kept_refl db (entity_not_found Model.invitation token)
      (find_by_token token db) (accept_found fresh now user)
      (λ i f.
        guard-Outcome Kept Kept_refl db (may_answer user i vm_invitation_accept) access_denied
          (require (not (ltb i.expires_at now)) invitation_expired
            >> (require (is_pending i.status) invitation_not_pending
                >> accept_now fresh now user i))
          (λ _.
            guard-Outcome Kept Kept_refl db (not (ltb i.expires_at now)) invitation_expired
              (require (is_pending i.status) invitation_not_pending >> accept_now fresh now user i)
              (λ _.
                guard-Outcome Kept Kept_refl db (is_pending i.status) invitation_not_pending
                  (accept_now fresh now user i)
                  (λ _.
                    then-Outcome Kept Kept_refl db (mark_accepted now i.id)
                      (λ a.
                        relate fresh now user i i.type
                        >> (modify (notify i.inviter_id (some user.id) vm_invitation_accepted i.id)
                            >> return a))
                      (λ a db' h k. finish fresh now user i a db' (h k)) (mark-Kept now i.id db)))))
