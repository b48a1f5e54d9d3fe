-- ===== src/VmRelationships/Effects.antt =====
-- What the operations on relationships do to who is related to whom.
use veervrat_app.Base.{
  ℕ, ◌+◌, ◌≡◌, refl, sym, subst, Bool, true, false, ◌&&◌, some, List, [], ◌∷◌, ◌==◌, find_in,
  update_one, update_where, keyed-find, count_of, filter_by, arith, IsKeyed,
}
use veervrat_app.Model.{
  is_active, JourneyVmAssignment, VmRelationship, Db, SessionUser, Prisma, ok, vm_withdrew,
}
use veervrat_app.Permissions.{is_va}
use veervrat_app.Journeys.{active_global_vm}
use veervrat_app.VmRelationships.{
  relates, relates_on, has_active_relationship_between, is_held_on, end_global_vm,
  end_journey_assignments_for_vm, ended_assignment, ended_relationship,
  find_active_journey_assignments_for_vm,
}
use veervrat_app.VmRelationships.Operations.{
  GlobalVmCascade, keep, unassign, remove_global_vm, remove_found,
}
use veervrat_app.Journeys.Operations.{notify}

module _ {A : Type 0} where
  count-same :
      (p q : A → Bool) (xs : List A) → ((a : A) → p a ≡ q a) → count_of p xs ≡ count_of q xs
  unfolding count_of
  count-same p q [] e = refl
  count-same p q (x ∷ xs) e = ground (arith, e x, count-same p q xs e)

  count-update_where :
      (p : A → Bool) (f : A → A) (xs : List A)
      → ((a : A) → p (f a) ≡ false)
      → count_of p (update_where p f xs) ≡ 0
  unfolding count_of update_where
  count-update_where p f [] e = refl
  count-update_where p f (x ∷ xs) e = ground (arith, e x, count-update_where p f xs e)

  count-update_one :
      (p q : A → Bool) (f : A → A) (xs : List A) (x : A)
      → find_in p xs ≡ some x
      → q x ≡ true
      → q (f x) ≡ false
      → count_of q (update_one p f xs) + 1 ≡ count_of q xs
  unfolding count_of update_one find_in
  count-update_one p q f [] x e t u = absurd (cc e)
  count-update_one p q f (y ∷ xs) x e t u = ground (arith, count-update_one p q f xs x)

  filter_by-count : (p : A → Bool) (xs : List A) → count_of p xs ≡ 0 → filter_by p xs ≡ []
  unfolding count_of filter_by
  filter_by-count p [] e = refl
  filter_by-count p (x ∷ xs) e = ground (arith, filter_by-count p xs)

relates_comm : (a b : ℕ) (r : VmRelationship) → relates a b r ≡ relates b a r
relates_comm a b r = ground arith

relates_on_comm :
    (db : Db) (a b : ℕ) (r : JourneyVmAssignment) → relates_on db a b r ≡ relates_on db b a r
relates_on_comm db a b r = ground arith

-- Two people have an active relationship exactly if they have it the other way round.
pub has_active_relationship_between_comm :
    (a b : ℕ) (db : Db)
    → has_active_relationship_between a b db ≡ has_active_relationship_between b a db
unfolding has_active_relationship_between
has_active_relationship_between_comm a b db =
    rw
      (
        count-same (relates a b) (relates b a) db.relationships (relates_comm a b),
        count-same (relates_on db a b) (relates_on db b a) db.assignments (relates_on_comm db a b),
      )
      refl

-- whether this is an active global relationship of this person
abbrev pub is_global_of : ℕ → VmRelationship → Bool
is_global_of vratarthi_id r = r.vratarthi_id == vratarthi_id && is_active r.state

module _ (prisma : Prisma) (now : ℕ) (user : SessionUser) (db : Db) where
  -- what the removal of a global vratmitra leaves
  abbrev left : GlobalVmCascade → VmRelationship → Db
  left keep r = record db {
    relationships = update_one (λ x. x.id == r.id) (ended_relationship now) db.relationships;
  }
  left unassign r = record db {
    relationships = update_one (λ x. x.id == r.id) (ended_relationship now) db.relationships;
    assignments =
        update_where (is_held_on db r.vm_id user.id) (ended_assignment now) db.assignments;
  }

  abbrev told : GlobalVmCascade → VmRelationship → Db
  told cascade r = notify r.vm_id (some user.id) vm_withdrew user.id (left cascade r)

  remove_found-eq :
      (cascade : GlobalVmCascade) (r : VmRelationship)
      → find_in (λ x. x.id == r.id) db.relationships ≡ some r
      → remove_found prisma now user cascade r db ≡ (
        ok (record {
          removed_vm_id = r.vm_id;
          affected_journeys = find_active_journey_assignments_for_vm r.vm_id user.id db;
          cascade = cascade;
        }),
        told cascade r,
      )
  unfolding end_global_vm end_journey_assignments_for_vm
  remove_found-eq keep r f = ground (arith, f)
  remove_found-eq unassign r f = ground (arith, f)

  remove_global_vm-eq :
      (cascade : GlobalVmCascade) (r : VmRelationship)
      → active_global_vm prisma user.id db ≡ some r
      → is_va user ≡ true
      → remove_global_vm prisma now user cascade db ≡ remove_found prisma now user cascade r db
  unfolding remove_global_vm
  remove_global_vm-eq cascade r f va = rw (va, f) refl

  left-relationships :
      (cascade : GlobalVmCascade) (r : VmRelationship)
      → (told cascade r).relationships
        ≡ update_one (λ x. x.id == r.id) (ended_relationship now) db.relationships
  left-relationships keep r = refl
  left-relationships unassign r = refl

  -- A person who is a vratarthi and has a global vratmitra `r` gives the vratmitra up. The answer
  -- names that person and the journeys on which the vratmitra also has an active assignment, one
  -- active global relationship fewer is left, and these assignments stay as they are with `keep`
  -- and are all ended with `unassign`.
  pub remove_global_vm-effect :
      (cascade : GlobalVmCascade) (r : VmRelationship)
      → IsKeyed (λ (r : VmRelationship). r.id) db.relationships
      → active_global_vm prisma user.id db ≡ some r
      → is_va user ≡ true
      → let (answer, db') = remove_global_vm prisma now user cascade db in
        (answer
          ≡ ok (record {
            removed_vm_id = r.vm_id;
            affected_journeys = find_active_journey_assignments_for_vm r.vm_id user.id db;
            cascade = cascade;
          }))
        × (count_of (is_global_of user.id) db'.relationships + 1
            ≡ count_of (is_global_of user.id) db.relationships)
        × (cascade ≡ keep → db'.assignments ≡ db.assignments)
        × (cascade ≡ unassign → find_active_journey_assignments_for_vm r.vm_id user.id db' ≡ [])
  unfolding active_global_vm find_active_journey_assignments_for_vm
  remove_global_vm-effect cascade r k f va =
      let is = prisma.find_first-eq-some _ db.relationships r f in
      let found = keyed-find (λ (r : VmRelationship). r.id) db.relationships r k is.0 in
      rw (remove_global_vm-eq cascade r f va, remove_found-eq cascade r found)
        (
          refl,
          subst
              (λ rows.
                count_of (is_global_of user.id) rows + 1
                ≡ count_of (is_global_of user.id) db.relationships)
              (sym (left-relationships cascade r))
              (count-update_one (λ x. x.id == r.id) (is_global_of user.id) (ended_relationship now)
                db.relationships r found is.1 (ground arith)),
          (λ e. rw e refl),
          (λ e. rw e (
              rw
                (filter_by-count (is_held_on db r.vm_id user.id)
                  (update_where (is_held_on db r.vm_id user.id) (ended_assignment now)
                    db.assignments)
                  (count-update_where (is_held_on db r.vm_id user.id) (ended_assignment now)
                    db.assignments (λ a. ground arith)))
                refl)),
        )
