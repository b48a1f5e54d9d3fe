-- ===== src/Model/Rows.antt =====
-- The rows of the tables that the services read and write, and the database as a record of
-- tables. Ids are numbers: the code only compares them. A date is its number of milliseconds.
use veervrat_app.Base.{ℕ, Bool, Option, List}
use veervrat_app.Model.Texts.{Text}
use veervrat_app.Model.Logins.{
  AuthAccount, Session, VerificationToken, PendingSignup, UserConsent, PolicyVersion, Lockout,
}
use veervrat_app.Model.Enums.{
  Role, JourneyState, ErcStatus, VmRelationshipState, InvitationType, InvitationStatus,
  ReviewStatus, CheckinStatus, ErcType, ExposureTier, NotificationEventType,
}

-- `SessionUser`, as far as the services read it
pub record SessionUser : Type 0 where
  pub id : ℕ
  pub roles : List Role

pub record Journey : Type 0 where
  pub id : ℕ
  pub vratarthi_id : ℕ
  pub sentence_id : ℕ
  pub title : Text
  pub state : JourneyState
  pub weakness_ids : List ℕ
  pub started_at : Option ℕ
  pub completion_submitted_at : Option ℕ
  pub completed_at : Option ℕ
  pub dormant_since : Option ℕ
  pub paused_at : Option ℕ
  pub deleted_at : Option ℕ
  pub updated_at : ℕ

-- a person's account; the columns of the profile are left out
pub record User : Type 0 where
  pub id : ℕ
  pub email : Text
  pub username : Text
  pub created_at : ℕ
  pub deleted_at : Option ℕ
  pub email_verified_at : Option ℕ
  pub suspended_at : Option ℕ
  pub pending_email : Option Text
  pub dob : Option ℕ
  pub account_setup_completed_at : Option ℕ
  pub onboarding_completed_at : Option ℕ

-- the virtue sentence that a journey is about
pub record Sentence : Type 0 where
  pub id : ℕ
  pub text_en : Text

pub record JourneyVmAssignment : Type 0 where
  pub id : ℕ
  pub journey_id : ℕ
  pub vm_id : ℕ
  pub state : VmRelationshipState
  pub accepted_at : Option ℕ
  pub ended_at : Option ℕ

pub record VmRelationship : Type 0 where
  pub id : ℕ
  pub vratarthi_id : ℕ
  pub vm_id : ℕ
  pub state : VmRelationshipState
  pub accepted_at : Option ℕ
  pub ended_at : Option ℕ

pub record Invitation : Type 0 where
  pub id : ℕ
  pub inviter_id : ℕ
  pub invitee_email : Text
  pub invitee_id : Option ℕ
  pub type : InvitationType
  pub scope_id : Option ℕ
  pub token : ℕ
  pub status : InvitationStatus
  pub expires_at : ℕ
  pub accepted_at : Option ℕ
  pub reminder_sent_at : Option ℕ
  pub created_at : ℕ

-- What an item of the pool and an item of a journey say, beside the English title. A column that
-- the item's kind does not have is null.
pub record ErcContent : Type 0 where
  pub title_mr : Option Text
  pub description_en : Option Text
  pub description_mr : Option Text
  pub tier : Option ExposureTier
  pub duration_weeks : Option ℕ
  pub frequency_per_week : Option ℕ
  pub frequency_label : Option Text
  pub duration_days : Option ℕ

-- a row of `exposures`, `resolutions` or `challenges`, with its weakness tags
pub record PoolItem : Type 0 where
  pub kind : ErcType
  pub id : ℕ
  pub sentence_id : ℕ
  pub title_en : Text
  pub content : ErcContent
  pub weakness_ids : List ℕ
  pub sort_order : ℕ
  pub created_at : ℕ

-- a row of `journey_exposures`, `journey_resolutions` or `journey_challenges`, by its `kind`;
-- `pool_id` is `poolExposureId`, `poolResolutionId` or `poolChallengeId`
pub record JourneyErcItem : Type 0 where
  pub kind : ErcType
  pub id : ℕ
  pub journey_id : ℕ
  pub status : ErcStatus
  pub is_deactivated : Bool
  pub is_custom : Bool
  pub title_en : Text
  pub content : ErcContent
  pub started_at : Option ℕ
  pub submitted_at : Option ℕ
  pub approved_at : Option ℕ
  pub created_by_id : Option ℕ
  pub review_status : Option ReviewStatus
  pub pool_id : Option ℕ
  pub created_at : ℕ

-- The item is named by `kind` and `item_id`, one of the three foreign keys, which becomes null
-- when the item is deleted.
pub record VmSidenote : Type 0 where
  pub id : ℕ
  pub kind : ErcType
  pub item_id : Option ℕ
  pub vm_id : ℕ
  pub text : Text
  pub acknowledged_at : Option ℕ
  pub revoked_at : Option ℕ

pub record CustomErcReview : Type 0 where
  pub id : ℕ
  pub entity_type : ErcType
  pub item_id : Option ℕ
  pub submitted_by_id : ℕ
  pub status : ReviewStatus
  pub reviewed_by_id : Option ℕ
  pub reviewed_at : Option ℕ
  pub review_note : Option Text

pub record ResolutionCheckin : Type 0 where
  pub id : ℕ
  pub journey_resolution_id : ℕ
  pub status : CheckinStatus
  pub note : Option Text
  pub checked_in_at : ℕ

pub record UserRole : Type 0 where
  pub user_id : ℕ
  pub role : Role

pub record Notification : Type 0 where
  pub recipient_id : ℕ
  pub actor_id : Option ℕ
  pub event_type : NotificationEventType
  pub resource_id : ℕ

-- the primary key is the pair
pub record UserFollow : Type 0 where
  pub follower_id : ℕ
  pub followee_id : ℕ

pub record Db : Type 0 where
  pub users : List User
  pub sentences : List Sentence
  -- the ids of the weaknesses
  pub weaknesses : List ℕ
  pub journeys : List Journey
  pub assignments : List JourneyVmAssignment
  pub relationships : List VmRelationship
  pub invitations : List Invitation
  pub user_roles : List UserRole
  pub pool : List PoolItem
  pub items : List JourneyErcItem
  pub sidenotes : List VmSidenote
  pub reviews : List CustomErcReview
  pub checkins : List ResolutionCheckin
  pub notifications : List Notification
  pub follows : List UserFollow
  pub auth_accounts : List AuthAccount
  pub sessions : List Session
  pub verification_tokens : List VerificationToken
  pub pending_signups : List PendingSignup
  pub user_consents : List UserConsent
  pub cms_pages : List PolicyVersion
  pub lockouts : List Lockout
