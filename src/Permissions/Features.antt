-- ===== src/Permissions/Features.antt =====
-- has-permission.ts: the gated features, the visibility of experience logs, and chat rooms.
use veervrat_app.Base.{
  ℕ, ◌≡◌, refl, ◌⊎◌, ◌↔◌, Bool, true, false, Option, none, some, List, [], ◌∷◌, In, some_of, arith,
}
use veervrat_app.Model.{
  Capability, capability_eq, feedback_widget, content_suggest, friends, everyone, SessionUser,
}
use veervrat_app.Permissions.{
  PermissionAction, PermissionResource, platform, experience_log, room, FeatureMode, off, granted,
  JourneySlim, ExperienceLogSlim, is_vm, is_room_participant, experience_log_view, chat_view,
  chat_send, feedback_create, feedback_read, feedback_upvote, content_edit, product_docs_view,
  content_suggestion_create, content_suggestion_read_own,
}
use veervrat_app.Permissions.Check.{has_permission, allowed_by_feature}
use veervrat_app.Permissions.Stake.{
  HoldsAssignment, HoldsGlobal, is_active_journey_vm_iff, is_global_vm_for_journey_iff,
}

-- The capability that an action of a gated feature asks for.
abbrev pub gate : PermissionAction → Option Capability
gate feedback_create = some feedback_widget
gate feedback_read = some feedback_widget
gate feedback_upvote = some feedback_widget
gate content_edit = some Capability.content_edit
gate product_docs_view = some Capability.product_docs_view
gate content_suggestion_create = some content_suggest
gate content_suggestion_read_own = some content_suggest
gate _ = none

-- The feature is on in the environment, and the capability is among the grants.
abbrev pub IsGranted : PermissionResource → Capability → Type 0
IsGranted r capability =
    (grants : List Capability) × (r ≡ platform (some grants) (some granted)) × In capability grants

In-of_test :
    (c : Capability) (xs : List Capability) → some_of (λ g. capability_eq g c) xs ≡ true → In c xs
unfolding some_of
In-of_test c [] h = cc
In-of_test c (x ∷ xs) h = ground (arith, In-of_test c xs)

test-of_In :
    (c : Capability) (xs : List Capability) → In c xs → some_of (λ g. capability_eq g c) xs ≡ true
unfolding some_of
test-of_In c [] h = absurd h
test-of_In c (x ∷ xs) h = ground (arith, test-of_In c xs)

IsGranted-of_test :
    (grants : Option (List Capability)) (mode : Option FeatureMode) (c : Capability)
    → allowed_by_feature mode grants c ≡ true
    → IsGranted (platform grants mode) c
unfolding allowed_by_feature
IsGranted-of_test (some grants) (some granted) c h = (grants, refl, In-of_test c grants h)
IsGranted-of_test none (some granted) c h = cc
IsGranted-of_test grants (some off) c h = cc
IsGranted-of_test grants none c h = cc

test-of_IsGranted :
    (r : PermissionResource) (c : Capability) (u : SessionUser) (a : PermissionAction)
    → gate a ≡ some c
    → IsGranted r c
    → has_permission u r a ≡ true
unfolding has_permission allowed_by_feature
test-of_IsGranted r c u a e (grants, same, member) =
    rw same (ground (arith, test-of_In c grants member))

-- An action of a gated feature is allowed exactly when the environment has the feature and the
-- user was granted its capability, whatever roles the user has.
pub gated_iff :
    (u : SessionUser) (r : PermissionResource) (a : PermissionAction) (c : Capability)
    → gate a ≡ some c
    → (has_permission u r a ≡ true) ↔ IsGranted r c
unfolding has_permission
gated_iff u (platform grants mode) a c e = (
  λ h. IsGranted-of_test grants mode c (ground arith),
  test-of_IsGranted (platform grants mode) c u a e,
)
gated_iff u r a c e = (λ h. ground arith, test-of_IsGranted r c u a e)

-- The user is a vratmitra by role, with an active assignment to the log's journey or the active
-- global relationship with its owner.
abbrev pub IsVmOfLog : SessionUser → Option JourneySlim → Type 0
IsVmOfLog u none = ⊥
IsVmOfLog u (some j) = (is_vm u ≡ true) × (HoldsAssignment u j ⊎ HoldsGlobal u j)

-- Whom a log's tier admits, apart from its author: anyone, the vratmitra of the log's journey, or
-- a mutual follower.
abbrev pub IsAdmitted : SessionUser → Option JourneySlim → ExperienceLogSlim → Option Bool → Type 0
IsAdmitted u j log is_friend =
    (log.visibility ≡ everyone)
    ⊎ IsVmOfLog u j
    ⊎ (log.visibility ≡ friends) × (is_friend ≡ some true)

-- A log is visible to its author, and to those whom its tier admits once it is no draft; to
-- nobody else, an admin included.
pub log_view_iff :
    (u : SessionUser) (j : Option JourneySlim) (log : ExperienceLogSlim) (f : Option Bool)
    → (has_permission u (experience_log j log f) experience_log_view ≡ true)
      ↔ ((log.author_id ≡ u.id) ⊎ (log.is_draft ≡ false) × IsAdmitted u j log f)
unfolding has_permission
log_view_iff u none log f = (λ h. ground arith, λ h. ground arith)
log_view_iff u (some k) log f =
    let held = is_active_journey_vm_iff u k in
    let global = is_global_vm_for_journey_iff u k in
    (λ h. ground (arith, h, held, global), λ h. ground (arith, h, held, global))

-- A chat room is open to exactly the two people that its id names, once the relationship between
-- them was verified, and whoever may read it may send.
pub room_iff :
    (u : SessionUser) (kind first second : ℕ) (verified : Bool)
    → let r = room (kind ∷ first ∷ second ∷ []) verified in
      (has_permission u r chat_view ≡ has_permission u r chat_send)
      × ((has_permission u r chat_send ≡ true)
          ↔ (verified ≡ true) × ((first ≡ u.id) ⊎ (second ≡ u.id)))
unfolding has_permission is_room_participant
room_iff u kind first second verified = (refl, (λ h. ground arith, λ h. ground arith))
