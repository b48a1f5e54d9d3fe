-- ===== src/Permissions.antt =====
-- apps/api/src/common/permissions: the two-layer permission function. This file is types.ts, the
-- actions, the resources and the helpers; `Check` is has-permission.ts.
pub mod Check
pub mod Stake
pub mod Roles
pub mod Features
pub mod Tests
use veervrat_app.Base.{
  ℕ, suc, Bool, true, false, ◌&&◌, ◌||◌, Option, none, some, List, ◌==◌, is_id, some_of, get_elem?,
  if◌then◌else◌,
}
use veervrat_app.Model.{
  Role, vratarthi, vratmitra, moderator, admin, role_eq, Capability, VmRelationshipState, is_active,
  ErcStatus, ExperienceVisibility, SessionUser,
}

pub data PermissionAction : Type 0 where
  journey_create journey_view journey_pause journey_resume journey_complete : PermissionAction
  erc_select erc_suggest erc_approve_closure erc_revisit : PermissionAction
  erc_deactivate erc_remove : PermissionAction
  custom_erc_create custom_erc_submit_for_review : PermissionAction
  custom_erc_edit custom_erc_delete : PermissionAction
  test_take test_view_results : PermissionAction
  chat_view chat_send : PermissionAction
  experience_log_create experience_log_view : PermissionAction
  experience_log_edit experience_log_delete : PermissionAction
  blog_create blog_edit blog_delete : PermissionAction
  comment_create comment_delete comment_hide comment_report : PermissionAction
  follow_create follow_remove : PermissionAction
  vm_invitation_send vm_invitation_accept : PermissionAction
  vm_invitation_cancel vm_invitation_decline : PermissionAction
  vm_relationship_withdraw : PermissionAction
  weakness_attach challenge_configure_threshold : PermissionAction
  global_vm_view_va_guidance : PermissionAction
  feedback_create feedback_read feedback_upvote feedback_manage : PermissionAction
  content_edit : PermissionAction
  product_docs_view : PermissionAction
  content_suggestion_create content_suggestion_read_own : PermissionAction
  content_suggestion_triage : PermissionAction
  admin_view_any_journey admin_view_any_user admin_view_any_test_result : PermissionAction
  admin_override_journey_state admin_manage_content admin_manage_users : PermissionAction
  admin_view_platform_stats admin_manage_taxonomy admin_manage_pothi : PermissionAction
  admin_manage_shlokas admin_manage_resources : PermissionAction
  moderator_review_custom_erc moderator_manage_display_content : PermissionAction
  comment_moderate : PermissionAction

pub record JourneyVmAssignmentSlim : Type 0 where
  pub vm_id : ℕ
  pub state : VmRelationshipState

pub record VmRelationshipSlim : Type 0 where
  pub vm_id : ℕ
  pub vratarthi_id : ℕ
  pub state : VmRelationshipState

pub record JourneySlim : Type 0 where
  pub id : ℕ
  pub vratarthi_id : ℕ
  pub vm_assignments : List JourneyVmAssignmentSlim
  pub global_vm_relationship : Option VmRelationshipSlim

pub record ErcSlim : Type 0 where
  pub journey_id : ℕ
  pub created_by_id : Option ℕ
  pub status : Option ErcStatus

pub record ExperienceLogSlim : Type 0 where
  pub author_id : ℕ
  pub journey_id : Option ℕ
  pub visibility : ExperienceVisibility
  pub is_draft : Bool

pub record BlogSlim : Type 0 where
  pub author_id : ℕ

pub record BlogCommentSlim : Type 0 where
  pub blog_id : ℕ
  pub author_id : ℕ

pub record TestAttemptSlim : Type 0 where
  pub user_id : ℕ
  pub weakness_id : ℕ

pub record InvitationSlim : Type 0 where
  pub inviter_id : ℕ
  pub invitee_id : Option ℕ

pub record VmRelationshipResourceSlim : Type 0 where
  pub vm_id : ℕ
  pub vratarthi_id : ℕ

pub data FeatureMode : Type 0 where
  off granted : FeatureMode

-- The union of resources. A room's id `chat:<id>:<id>` is the list of its parts between colons,
-- the word `chat` and other words numbered like the ids.
pub data PermissionResource : Type 0 where
  platform : (grants : Option (List Capability)) (mode : Option FeatureMode) → PermissionResource
  journey : JourneySlim → PermissionResource
  erc : JourneySlim → ErcSlim → PermissionResource
  experience_log :
      Option JourneySlim → ExperienceLogSlim → (viewer_is_friend : Option Bool) → PermissionResource
  blog : BlogSlim → PermissionResource
  blog_comment : BlogSlim → BlogCommentSlim → PermissionResource
  test_attempt : TestAttemptSlim → Option JourneySlim → PermissionResource
  invitation : InvitationSlim → PermissionResource
  vm_relationship : VmRelationshipResourceSlim → PermissionResource
  room : (id : List ℕ) (relationship_verified : Bool) → PermissionResource

unfoldable pub has_role : SessionUser → Role → Bool
has_role user role = some_of (λ r. role_eq r role) user.roles

abbrev pub is_va : SessionUser → Bool
is_va user = has_role user vratarthi

abbrev pub is_vm : SessionUser → Bool
is_vm user = has_role user vratmitra

abbrev pub is_admin : SessionUser → Bool
is_admin user = has_role user admin

abbrev pub is_moderator : SessionUser → Bool
is_moderator user = has_role user moderator

abbrev pub is_admin_or_moderator : SessionUser → Bool
is_admin_or_moderator user = is_admin user || is_moderator user

abbrev pub is_journey_owner : SessionUser → JourneySlim → Bool
is_journey_owner user j = j.vratarthi_id == user.id

unfoldable pub is_active_journey_vm : SessionUser → JourneySlim → Bool
is_active_journey_vm user j =
    some_of (λ a. a.vm_id == user.id && is_active a.state) j.vm_assignments

abbrev is_global_vm : ℕ → ℕ → Option VmRelationshipSlim → Bool
is_global_vm user_id vratarthi_id none = false
is_global_vm user_id vratarthi_id (some rel) =
    rel.vm_id == user_id && rel.vratarthi_id == vratarthi_id && is_active rel.state

unfoldable pub is_global_vm_for_journey : SessionUser → JourneySlim → Bool
is_global_vm_for_journey user j = is_global_vm user.id j.vratarthi_id j.global_vm_relationship

unfoldable pub has_active_journey_vm : JourneySlim → Bool
has_active_journey_vm j = some_of (λ a. is_active a.state) j.vm_assignments

-- `const [, userId1, userId2] = roomId.split(':')`; a part that is missing equals no id
unfoldable pub is_room_participant : SessionUser → List ℕ → Bool → Bool
is_room_participant user room_id relationship_verified =
    if relationship_verified
    then is_id (get_elem? room_id 1) user.id || is_id (get_elem? room_id 2) user.id
    else false
