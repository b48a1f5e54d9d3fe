-- ===== src/Invitations/Grants.antt =====
-- What an acceptance makes: a relationship, and the role that it needs.
use veervrat_app.Base.{
  ℕ, refl, In, none, ◌≤◌, ◌≡◌, ◌⊎◌, inl, inr, true, some, ◌==◌, find_in, arith, count_of, IsKeyed,
  find-key, ◌+◌,
}
use veervrat_app.Model.{
  VmRelationshipState, VmRelationship, accepted, vm_global, vm_journey, pending, Invitation,
  Journey, SessionUser, Db, ok,
}
use veervrat_app.Permissions.Check.{has_permission}
use veervrat_app.VmRelationships.{
  create_global_relationship, create_journey_assignment, has_active_relationship_between, owner_of,
  new_relationship,
}
use veervrat_app.VmRelationships.Effects.{is_global_of}
use veervrat_app.VmRelationships.Operations.{create_from_global_invite, create_from_journey_invite}
use veervrat_app.Invitations.{
  find_by_token, mark_accepted, save_invitation, accepted_row, grant_vratmitra_role,
}
use veervrat_app.Invitations.Operations.{accept_invitation}

-- The invitation with this token may be accepted now by this user.
pub record IsAcceptable (now : ℕ) (user : SessionUser) (token : ℕ) (db : Db) (i : Invitation)
    : Type 0 where
  pub keyed : IsKeyed (λ (j : Invitation). j.id) db.invitations
  pub found : find_by_token token db ≡ some i
  pub invitee : i.invitee_id ≡ some user.id
  pub status : i.status ≡ pending
  pub in_time : now ≤ i.expires_at

module _ (fresh now token : ℕ) (user : SessionUser) (db : Db) (i : Invitation) where
  found_by_id :
      IsAcceptable now user token db i → find_in (λ j. j.id == i.id) db.invitations ≡ some i
  unfolding find_by_token
  found_by_id a =
      find-key (λ (j : Invitation). j.id) (λ j. j.token == token) db.invitations i a.keyed a.found

  -- this user is an active global vratmitra of the inviter, from now on and with no end
  abbrev pub IsNewVm : VmRelationship → Type 0
  IsNewVm v =
      (v.vratarthi_id ≡ i.inviter_id)
      × (v.vm_id ≡ user.id)
      × (v.state ≡ VmRelationshipState.active)
      × (v.accepted_at ≡ some now)
      × (v.ended_at ≡ none)

  -- An acceptable global invitation of a person who has a relationship already is accepted all the
  -- same: the user is then an active global vratmitra of the inviter, with no end, the earlier
  -- relationship stands as it was, active if it was, and the inviter has one active global
  -- vratmitra more.
  pub accept_invitation-count :
      (old : VmRelationship)
      → IsAcceptable now user token db i
      → i.type ≡ vm_global
      → In old db.relationships
      → let (r, db') = accept_invitation fresh now user token db in
        ((a : Invitation) × (r ≡ ok a) × (a.status ≡ accepted))
        × ((v : VmRelationship) × In v db'.relationships × IsNewVm v)
        × In old db'.relationships
        × (count_of (is_global_of i.inviter_id) db'.relationships
            ≡ count_of (is_global_of i.inviter_id) db.relationships + 1)
  unfolding accept_invitation mark_accepted save_invitation has_permission create_from_global_invite
      create_global_relationship grant_vratmitra_role count_of
  accept_invitation-count old a g m =
      let by_id = found_by_id a in
      (
        (
          accepted_row now i,
          ground (arith, a.found, by_id, a.invitee, a.status, a.in_time, g),
          refl,
        ),
        (
          new_relationship fresh now i.inviter_id user.id,
          ground (arith, a.found, by_id, a.invitee, a.status, a.in_time, g),
          (refl, refl, refl, refl, refl),
        ),
        ground (arith, a.found, by_id, a.invitee, a.status, a.in_time, g, m),
        ground (arith, a.found, by_id, a.invitee, a.status, a.in_time, g),
      )

  -- what an accepted invitation is to, if it makes a relationship
  abbrev pub Connects : Type 0
  Connects =
      (i.type ≡ vm_global)
      ⊎ ((i.type ≡ vm_journey)
          × (j : Journey) × (i.scope_id ≡ some j.id)
          × (owner_of j.id db.journeys ≡ some j)
          × (j.vratarthi_id ≡ i.inviter_id))

  -- An acceptable invitation to all journeys, or to one of the inviter, is accepted, and from then
  -- on there is an active relationship between the inviter and the user.
  pub accept_invitation-has_active_relationship_between :
      IsAcceptable now user token db i
      → Connects
      → let (r, db') = accept_invitation fresh now user token db in
        (r ≡ ok (accepted_row now i))
        × (has_active_relationship_between i.inviter_id user.id db' ≡ true)
  unfolding accept_invitation mark_accepted save_invitation has_permission create_from_global_invite
      create_global_relationship create_from_journey_invite create_journey_assignment
      grant_vratmitra_role has_active_relationship_between count_of
  accept_invitation-has_active_relationship_between a (inl g) =
      let by_id = found_by_id a in
      (
        ground (arith, a.found, by_id, a.invitee, a.status, a.in_time, g),
        ground (arith, a.found, by_id, a.invitee, a.status, a.in_time, g),
      )
  accept_invitation-has_active_relationship_between a (inr (g, j, s, f, o)) =
      let by_id = found_by_id a in
      (
        ground (arith, a.found, by_id, a.invitee, a.status, a.in_time, g, s),
        ground (arith, a.found, by_id, a.invitee, a.status, a.in_time, g, s, f, o),
      )
