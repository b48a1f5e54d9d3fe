-- ===== src/Permissions/Stake.antt =====
-- has-permission.ts: what an allowed action on a journey or on one of its items says of the
-- user, and the separation of duties in the closure of an item.
use veervrat_app.Base.{
  ◌≡◌, ◌≢◌, refl, ◌⊎◌, inl, inr, ◌↔◌, Bool, true, false, ◌&&◌, some, List, [], ◌∷◌, Some, All,
  some_of, ◌==◌, arith, Option-cases,
}
use veervrat_app.Model.{ErcStatus, VmRelationshipState, is_active, SessionUser}
use veervrat_app.Permissions.{
  PermissionAction, journey, erc, JourneySlim, JourneyVmAssignmentSlim, ErcSlim, VmRelationshipSlim,
  is_va, is_vm, is_active_journey_vm, is_global_vm_for_journey, has_active_journey_vm,
  erc_approve_closure, journey_create, test_take, blog_create, comment_create, comment_report,
  follow_create, follow_remove, vm_invitation_send, content_suggestion_triage, feedback_manage,
  admin_view_any_journey, admin_view_any_user, admin_view_any_test_result,
  admin_override_journey_state, admin_manage_content, admin_manage_users, admin_view_platform_stats,
  admin_manage_taxonomy, admin_manage_pothi, admin_manage_shlokas, admin_manage_resources,
  moderator_review_custom_erc, moderator_manage_display_content, comment_moderate, custom_erc_edit,
  custom_erc_delete,
}
use veervrat_app.Permissions.Check.{has_permission}

-- The assignment is active and names this user.
abbrev pub Names : SessionUser → JourneyVmAssignmentSlim → Type 0
Names u a = (a.vm_id ≡ u.id) × (a.state ≡ VmRelationshipState.active)

abbrev pub HoldsAssignment : SessionUser → JourneySlim → Type 0
HoldsAssignment u j = Some (Names u) j.vm_assignments

abbrev pub HoldsGlobal : SessionUser → JourneySlim → Type 0
HoldsGlobal u j =
    (rel : VmRelationshipSlim) × (j.global_vm_relationship ≡ some rel)
    × (rel.vm_id ≡ u.id)
    × (rel.vratarthi_id ≡ j.vratarthi_id)
    × (rel.state ≡ VmRelationshipState.active)

-- The user is a part of the journey, as its owner or as a vratmitra, and has the role for it.
abbrev pub HasStake : SessionUser → JourneySlim → Type 0
HasStake u j =
    ((is_va u ≡ true) × (j.vratarthi_id ≡ u.id))
    ⊎ ((is_vm u ≡ true) × (HoldsAssignment u j ⊎ HoldsGlobal u j))

-- The actions whose answer does not depend on the resource at hand: those that need a role only,
-- and the platform's.
abbrev pub ignores_resource : PermissionAction → Bool
ignores_resource journey_create = true
ignores_resource test_take = true
ignores_resource blog_create = true
ignores_resource comment_create = true
ignores_resource comment_report = true
ignores_resource follow_create = true
ignores_resource follow_remove = true
ignores_resource vm_invitation_send = true
ignores_resource content_suggestion_triage = true
ignores_resource feedback_manage = true
ignores_resource admin_view_any_journey = true
ignores_resource admin_view_any_user = true
ignores_resource admin_view_any_test_result = true
ignores_resource admin_override_journey_state = true
ignores_resource admin_manage_content = true
ignores_resource admin_manage_users = true
ignores_resource admin_view_platform_stats = true
ignores_resource admin_manage_taxonomy = true
ignores_resource admin_manage_pothi = true
ignores_resource admin_manage_shlokas = true
ignores_resource admin_manage_resources = true
ignores_resource moderator_review_custom_erc = true
ignores_resource moderator_manage_display_content = true
ignores_resource comment_moderate = true
ignores_resource _ = false

Names-of_test :
    (u : SessionUser) (xs : List JourneyVmAssignmentSlim)
    → some_of (λ a. a.vm_id == u.id && is_active a.state) xs ≡ true
    → Some (Names u) xs
unfolding some_of
Names-of_test u [] h = cc
Names-of_test u (x ∷ xs) h = ground (arith, Names-of_test u xs)

test-of_Names :
    (u : SessionUser) (xs : List JourneyVmAssignmentSlim)
    → Some (Names u) xs
    → some_of (λ a. a.vm_id == u.id && is_active a.state) xs ≡ true
unfolding some_of
test-of_Names u (x ∷ xs) h = ground (arith, test-of_Names u xs)
test-of_Names u [] h = absurd h

pub is_active_journey_vm_iff :
    (u : SessionUser) (j : JourneySlim) → (is_active_journey_vm u j ≡ true) ↔ HoldsAssignment u j
unfolding is_active_journey_vm
is_active_journey_vm_iff u j = (Names-of_test u j.vm_assignments, test-of_Names u j.vm_assignments)

HoldsGlobal-of_test :
    (u : SessionUser) (j : JourneySlim) → is_global_vm_for_journey u j ≡ true → HoldsGlobal u j
unfolding is_global_vm_for_journey
HoldsGlobal-of_test u j h = elim (Option-cases j.global_vm_relationship) [
  | inl e ↦ ground (arith, e)
  | inr (rel, e) ↦ (rel, e, ground (arith, e), ground (arith, e), ground (arith, e))
]

test-of_HoldsGlobal :
    (u : SessionUser) (j : JourneySlim) → HoldsGlobal u j → is_global_vm_for_journey u j ≡ true
unfolding is_global_vm_for_journey
test-of_HoldsGlobal u j (rel, e, v, o, s) = ground (arith, e, v, o, s)

pub is_global_vm_for_journey_iff :
    (u : SessionUser) (j : JourneySlim) → (is_global_vm_for_journey u j ≡ true) ↔ HoldsGlobal u j
is_global_vm_for_journey_iff u j = (HoldsGlobal-of_test u j, test-of_HoldsGlobal u j)

module _ (u : SessionUser) (j : JourneySlim) where
  -- Whoever may act on a journey is its owner with the vratarthi role, or a vratmitra by role who
  -- holds an active assignment to it or the active global relationship with its owner.
  pub journey_needs_stake :
      (a : PermissionAction)
      → ignores_resource a ≡ false
      → has_permission u (journey j) a ≡ true
      → HasStake u j
  unfolding has_permission
  journey_needs_stake a s h =
      ground (arith, (is_active_journey_vm_iff u j).0, HoldsGlobal-of_test u j)

  -- The same of an item of the journey, but for editing and deleting a custom item, which belong
  -- to its author until it is submitted.
  pub erc_needs_stake :
      (e : ErcSlim) (a : PermissionAction)
      → ignores_resource a ≡ false
      → has_permission u (erc j e) a ≡ true
      → HasStake u j
        ⊎ ((a ≡ custom_erc_edit) ⊎ (a ≡ custom_erc_delete))
          × (e.created_by_id ≡ some u.id)
          × ((e.status ≡ some ErcStatus.not_started) ⊎ (e.status ≡ some ErcStatus.in_progress))
  unfolding has_permission
  erc_needs_stake e a s h =
      ground (arith, (is_active_journey_vm_iff u j).0, HoldsGlobal-of_test u j)

-- No assignment of the journey is active.
abbrev pub HasNoActiveVm : JourneySlim → Type 0
HasNoActiveVm j = All (λ a. a.state ≢ VmRelationshipState.active) j.vm_assignments

HasNoActiveVm-of_test :
    (xs : List JourneyVmAssignmentSlim)
    → some_of (λ a. is_active a.state) xs ≡ false
    → All (λ a. a.state ≢ VmRelationshipState.active) xs
unfolding some_of
HasNoActiveVm-of_test [] h = tt
HasNoActiveVm-of_test (x ∷ xs) h = (ground arith, HasNoActiveVm-of_test xs (ground arith))

test-of_HasNoActiveVm :
    (xs : List JourneyVmAssignmentSlim)
    → All (λ a. a.state ≢ VmRelationshipState.active) xs
    → some_of (λ a. is_active a.state) xs ≡ false
unfolding some_of
test-of_HasNoActiveVm [] h = refl
test-of_HasNoActiveVm (x ∷ xs) h = ground (arith, test-of_HasNoActiveVm xs h.1)

-- An item's closure is approved by the owner, if the journey has no active vratmitra, or by a
-- vratmitra with an active assignment to it, and by nobody else: neither the global vratmitra
-- nor an admin may.
pub approve_closure_iff :
    (u : SessionUser) (j : JourneySlim) (e : ErcSlim)
    → (has_permission u (erc j e) erc_approve_closure ≡ true) ↔ (
        (is_va u ≡ true) × (j.vratarthi_id ≡ u.id) × HasNoActiveVm j
        ⊎ (is_vm u ≡ true) × HoldsAssignment u j)
unfolding has_permission has_active_journey_vm
approve_closure_iff u j e = (
  λ h. ground (arith, (is_active_journey_vm_iff u j).0, HasNoActiveVm-of_test j.vm_assignments),
  λ h. ground (arith, (is_active_journey_vm_iff u j).1, test-of_HasNoActiveVm j.vm_assignments),
)
