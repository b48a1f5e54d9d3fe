-- ===== src/Model/Enums.antt =====
-- The enumerations of apps/api/prisma/schema.prisma, with the comparisons that the code makes.
use veervrat_app.Base.{Bool, true, false}

pub data Role : Type 0 where
  vratarthi vratmitra moderator admin : Role

pub data Capability : Type 0 where
  feedback_widget content_edit content_suggest product_docs_view : Capability

pub data JourneyState : Type 0 where
  not_started active paused dormant completed : JourneyState

pub data ErcStatus : Type 0 where
  not_started in_progress submitted approved revisit : ErcStatus

pub data VmRelationshipState : Type 0 where
  pending active ended : VmRelationshipState

pub data ExperienceVisibility : Type 0 where
  only_me friends everyone : ExperienceVisibility

pub data InvitationType : Type 0 where
  platform vm_global vm_journey : InvitationType

pub data InvitationStatus : Type 0 where
  pending accepted declined expired cancelled : InvitationStatus

-- the values of the text column `review_status`
pub data ReviewStatus : Type 0 where
  pending approved rejected : ReviewStatus

pub data CheckinStatus : Type 0 where
  done partial missed : CheckinStatus

-- `ErcType` of erc.repository.ts, and `ErcEntityType` of the schema
pub data ErcType : Type 0 where
  exposure resolution challenge : ErcType

pub data ExposureTier : Type 0 where
  local national international : ExposureTier

-- the events that the modelled services raise
pub data NotificationEventType : Type 0 where
  vm_invitation_received vm_invitation_accepted vm_invitation_declined : NotificationEventType
  journey_dormant erc_closure_submitted erc_closure_approved : NotificationEventType
  erc_returned_for_revisit journey_completion_submitted : NotificationEventType
  journey_completion_approved custom_erc_review_requested : NotificationEventType
  custom_erc_approved custom_erc_rejected new_follower : NotificationEventType
  vm_suggestion_new vm_suggestion_dismissed vm_withdrew : NotificationEventType

abbrev pub role_eq : Role → Role → Bool
role_eq vratarthi vratarthi = true
role_eq vratmitra vratmitra = true
role_eq moderator moderator = true
role_eq admin admin = true
role_eq _ _ = false

abbrev pub capability_eq : Capability → Capability → Bool
capability_eq feedback_widget feedback_widget = true
capability_eq content_edit content_edit = true
capability_eq content_suggest content_suggest = true
capability_eq product_docs_view product_docs_view = true
capability_eq _ _ = false

abbrev pub journey_state_eq : JourneyState → JourneyState → Bool
journey_state_eq JourneyState.not_started JourneyState.not_started = true
journey_state_eq JourneyState.active JourneyState.active = true
journey_state_eq paused paused = true
journey_state_eq dormant dormant = true
journey_state_eq completed completed = true
journey_state_eq _ _ = false

abbrev pub erc_status_eq : ErcStatus → ErcStatus → Bool
erc_status_eq ErcStatus.not_started ErcStatus.not_started = true
erc_status_eq in_progress in_progress = true
erc_status_eq submitted submitted = true
erc_status_eq ErcStatus.approved ErcStatus.approved = true
erc_status_eq revisit revisit = true
erc_status_eq _ _ = false

abbrev pub erc_type_eq : ErcType → ErcType → Bool
erc_type_eq exposure exposure = true
erc_type_eq resolution resolution = true
erc_type_eq challenge challenge = true
erc_type_eq _ _ = false

-- `state === VmRelationshipState.ACTIVE`
abbrev pub is_active : VmRelationshipState → Bool
is_active VmRelationshipState.active = true
is_active _ = false

-- `status === InvitationStatus.PENDING`
abbrev pub is_pending : InvitationStatus → Bool
is_pending InvitationStatus.pending = true
is_pending _ = false

abbrev pub is_platform : InvitationType → Bool
is_platform platform = true
is_platform _ = false

abbrev pub is_vm_global : InvitationType → Bool
is_vm_global vm_global = true
is_vm_global _ = false

-- `status === CheckinStatus.DONE`
abbrev pub is_done : CheckinStatus → Bool
is_done done = true
is_done _ = false
