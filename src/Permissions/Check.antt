-- ===== src/Permissions/Check.antt =====
-- has-permission.ts. `if (resource.type !== …) return false` is the guard `on_…` of each action,
-- and a chain of `if (c) return true` that ends in `return false` is a disjunction.
use veervrat_app.Base.{
  Bool, true, false, ◌&&◌, ◌||◌, not, Option, none, some, List, ◌==◌, is_id, some_of, if◌then◌else◌,
}
use veervrat_app.Model.{
  Capability, capability_eq, feedback_widget, content_suggest, ErcStatus, SessionUser,
  ExperienceVisibility, friends, everyone,
}
use veervrat_app.Permissions.{
  PermissionAction, PermissionResource, platform, journey, erc, experience_log, blog, blog_comment,
  test_attempt, invitation, vm_relationship, room, FeatureMode, off, granted, JourneySlim, ErcSlim,
  ExperienceLogSlim, BlogSlim, BlogCommentSlim, InvitationSlim, is_va, is_vm, is_admin,
  is_admin_or_moderator, is_journey_owner, is_active_journey_vm, is_global_vm_for_journey,
  has_active_journey_vm, is_room_participant, journey_create, journey_view, journey_pause,
  journey_resume, journey_complete, erc_select, erc_suggest, erc_approve_closure, erc_revisit,
  erc_deactivate, erc_remove, custom_erc_create, custom_erc_submit_for_review, custom_erc_edit,
  custom_erc_delete, test_take, test_view_results, chat_view, chat_send, experience_log_create,
  experience_log_view, experience_log_edit, experience_log_delete, blog_create, blog_edit,
  blog_delete, comment_create, comment_delete, comment_hide, comment_report, follow_create,
  follow_remove, vm_invitation_send, vm_invitation_accept, vm_invitation_cancel,
  vm_invitation_decline, vm_relationship_withdraw, weakness_attach, challenge_configure_threshold,
  global_vm_view_va_guidance, feedback_create, feedback_read, feedback_upvote, feedback_manage,
  content_edit, product_docs_view, content_suggestion_create, content_suggestion_read_own,
  content_suggestion_triage, admin_view_any_journey, admin_view_any_user,
  admin_view_any_test_result, admin_override_journey_state, admin_manage_content,
  admin_manage_users, admin_view_platform_stats, admin_manage_taxonomy, admin_manage_pothi,
  admin_manage_shlokas, admin_manage_resources, moderator_review_custom_erc,
  moderator_manage_display_content, comment_moderate,
}

unfoldable pub allowed_by_feature :
    Option FeatureMode → Option (List Capability) → Capability → Bool
allowed_by_feature (some granted) (some grants) capability =
    some_of (λ g. capability_eq g capability) grants
allowed_by_feature (some granted) none capability = false
allowed_by_feature (some off) grants capability = false
allowed_by_feature none grants capability = false

abbrev on_journey : PermissionResource → (JourneySlim → Bool) → Bool
on_journey (journey j) f = f j
on_journey _ f = false

abbrev on_erc : PermissionResource → (JourneySlim → ErcSlim → Bool) → Bool
on_erc (erc j e) f = f j e
on_erc _ f = false

abbrev on_blog : PermissionResource → (BlogSlim → Bool) → Bool
on_blog (blog b) f = f b
on_blog _ f = false

abbrev on_blog_comment : PermissionResource → (BlogSlim → BlogCommentSlim → Bool) → Bool
on_blog_comment (blog_comment b c) f = f b c
on_blog_comment _ f = false

abbrev on_invitation : PermissionResource → (InvitationSlim → Bool) → Bool
on_invitation (invitation i) f = f i
on_invitation _ f = false

abbrev on_log :
    PermissionResource → (Option JourneySlim → ExperienceLogSlim → Option Bool → Bool) → Bool
on_log (experience_log j l f) k = k j l f
on_log _ k = false

-- `journey !== null && f(journey)`
abbrev on_some : Option JourneySlim → (JourneySlim → Bool) → Bool
on_some none f = false
on_some (some j) f = f j

abbrev on_feature : PermissionResource → Capability → Bool
on_feature (platform grants mode) capability = allowed_by_feature mode grants capability
on_feature _ capability = false

abbrev is_friends : ExperienceVisibility → Bool
is_friends friends = true
is_friends _ = false

abbrev is_public : ExperienceVisibility → Bool
is_public everyone = true
is_public _ = false

abbrev is_true : Option Bool → Bool
is_true none = false
is_true (some b) = b

-- a status that is `NOT_STARTED` or `IN_PROGRESS`
abbrev pre_submission : Option ErcStatus → Bool
pre_submission (some ErcStatus.not_started) = true
pre_submission (some ErcStatus.in_progress) = true
pre_submission _ = false

module _ (user : SessionUser) where
  abbrev owner_va : JourneySlim → Bool
  owner_va j = is_va user && is_journey_owner user j

  abbrev journey_vm : JourneySlim → Bool
  journey_vm j = is_vm user && is_active_journey_vm user j

  abbrev global_vm : JourneySlim → Bool
  global_vm j = is_vm user && is_global_vm_for_journey user j

  abbrev author_before_submission : ErcSlim → Bool
  author_before_submission e = is_id e.created_by_id user.id && pre_submission e.status

  abbrev may_view_results : PermissionResource → Bool
  may_view_results (test_attempt attempt j) =
      attempt.user_id == user.id || on_some j global_vm || on_some j journey_vm
  may_view_results _ = false

  abbrev may_chat : PermissionResource → Bool
  may_chat (room id verified) = is_room_participant user id verified
  may_chat (journey j) = owner_va j || journey_vm j || global_vm j
  may_chat _ = false

  abbrev may_create_log : Option JourneySlim → Bool
  may_create_log none = is_va user
  may_create_log (some j) = owner_va j

  abbrev may_view_log : Option JourneySlim → ExperienceLogSlim → Option Bool → Bool
  may_view_log j log viewer_is_friend =
      if log.author_id == user.id
      then true
      else if log.is_draft
      then false
      else if is_public log.visibility
      then true
      else on_some j journey_vm
        || on_some j global_vm
        || (is_friends log.visibility && is_true viewer_is_friend)

  abbrev may_withdraw : PermissionResource → Bool
  may_withdraw (vm_relationship rel) = is_vm user && rel.vm_id == user.id
  may_withdraw _ = false

  unfoldable pub check_layer_one : PermissionResource → PermissionAction → Bool
  check_layer_one r journey_create = is_va user
  check_layer_one r journey_view = on_journey r (λ j. owner_va j || journey_vm j || global_vm j)
  check_layer_one r journey_pause = on_journey r owner_va
  check_layer_one r journey_resume = on_journey r owner_va
  check_layer_one r journey_complete = on_journey r (λ j. owner_va j || journey_vm j)
  check_layer_one r erc_select = on_erc r (λ j e. owner_va j)
  check_layer_one r erc_suggest = on_erc r (λ j e. journey_vm j)
  check_layer_one r erc_approve_closure =
      on_erc r (λ j e. (owner_va j && not (has_active_journey_vm j)) || journey_vm j)
  check_layer_one r erc_revisit = on_erc r (λ j e. journey_vm j)
  check_layer_one r erc_deactivate = on_erc r (λ j e. owner_va j)
  check_layer_one r erc_remove = on_erc r (λ j e. owner_va j)
  check_layer_one r custom_erc_create = on_erc r (λ j e. owner_va j || journey_vm j)
  check_layer_one r custom_erc_submit_for_review = on_erc r (λ j e. owner_va j || journey_vm j)
  check_layer_one r custom_erc_edit = on_erc r (λ j e. author_before_submission e)
  check_layer_one r custom_erc_delete = on_erc r (λ j e. author_before_submission e)
  check_layer_one r test_take = is_va user
  check_layer_one r test_view_results = may_view_results r
  check_layer_one r chat_view = may_chat r
  check_layer_one r chat_send = may_chat r
  check_layer_one r experience_log_create = on_log r (λ j log f. may_create_log j)
  check_layer_one r experience_log_view = on_log r may_view_log
  check_layer_one r experience_log_edit = on_log r (λ j log f. log.author_id == user.id)
  check_layer_one r experience_log_delete = on_log r (λ j log f. log.author_id == user.id)
  check_layer_one r blog_create = is_va user || is_vm user
  check_layer_one r blog_edit = on_blog r (λ b. b.author_id == user.id)
  check_layer_one r blog_delete = on_blog r (λ b. b.author_id == user.id)
  check_layer_one r comment_create = is_va user || is_vm user
  check_layer_one r comment_delete =
      on_blog_comment r
        (λ b c. c.author_id == user.id || b.author_id == user.id || is_admin_or_moderator user)
  check_layer_one r comment_hide =
      on_blog_comment r (λ b c. b.author_id == user.id || is_admin_or_moderator user)
  check_layer_one r comment_report = is_va user || is_vm user
  check_layer_one r follow_create = is_va user || is_vm user
  check_layer_one r follow_remove = is_va user || is_vm user
  check_layer_one r vm_invitation_send = is_va user
  check_layer_one r vm_invitation_accept = on_invitation r (λ i. is_id i.invitee_id user.id)
  check_layer_one r vm_invitation_cancel =
      on_invitation r (λ i. is_va user && i.inviter_id == user.id)
  check_layer_one r vm_invitation_decline = on_invitation r (λ i. is_id i.invitee_id user.id)
  check_layer_one r vm_relationship_withdraw = may_withdraw r
  check_layer_one r weakness_attach = on_journey r owner_va
  check_layer_one r challenge_configure_threshold = on_journey r (λ j. owner_va j || journey_vm j)
  check_layer_one r global_vm_view_va_guidance = on_journey r global_vm
  check_layer_one r feedback_create = on_feature r feedback_widget
  check_layer_one r feedback_read = on_feature r feedback_widget
  check_layer_one r feedback_upvote = on_feature r feedback_widget
  check_layer_one r content_edit = on_feature r Capability.content_edit
  check_layer_one r product_docs_view = on_feature r Capability.product_docs_view
  check_layer_one r content_suggestion_create = on_feature r content_suggest
  check_layer_one r content_suggestion_read_own = on_feature r content_suggest
  check_layer_one r content_suggestion_triage = is_admin user
  check_layer_one r _ = false

  unfoldable pub check_layer_two : PermissionAction → Bool
  check_layer_two admin_view_any_journey = is_admin user
  check_layer_two admin_view_any_user = is_admin user
  check_layer_two admin_view_any_test_result = is_admin user
  check_layer_two admin_override_journey_state = is_admin user
  check_layer_two admin_manage_content = is_admin user
  check_layer_two admin_manage_users = is_admin user
  check_layer_two admin_view_platform_stats = is_admin user
  check_layer_two admin_manage_taxonomy = is_admin user
  check_layer_two admin_manage_pothi = is_admin user
  check_layer_two admin_manage_shlokas = is_admin user
  check_layer_two admin_manage_resources = is_admin user
  check_layer_two moderator_review_custom_erc = is_admin_or_moderator user
  check_layer_two moderator_manage_display_content = is_admin_or_moderator user
  check_layer_two comment_moderate = is_admin_or_moderator user
  check_layer_two feedback_manage = is_admin user
  check_layer_two _ = false

unfoldable pub has_permission : SessionUser → PermissionResource → PermissionAction → Bool
unfolding check_layer_one check_layer_two
has_permission user r a = check_layer_one user r a || check_layer_two user a
