-- ===== src/Model/Errors.antt =====
-- The exceptions that the services throw: apps/api/src/common/exceptions/app.exceptions.ts, with
-- the arguments that the code branches on, and Prisma's errors: a unique
-- violation (code P2002) an update of a row that is not there (P2025),
-- and a create that leaves out a required column.
use veervrat_app.Base.{ℕ}
use veervrat_app.Model.Enums.{JourneyState, ErcStatus}

pub data Entity : Type 0 where
  journey erc_item sidenote resolution_row global_relationship invitation user pool_item review
        login_method notification :
      Entity

pub data JourneyVerb : Type 0 where
  pause resume complete : JourneyVerb

pub data AppError : Type 0 where
  entity_not_found : Entity → ℕ → AppError
  access_denied : AppError
  validation : AppError
  journey_conflict : ℕ → JourneyState → AppError
  invalid_state_transition : JourneyState → JourneyVerb → AppError
  erc_already_selected : AppError
  invalid_erc_status_transition : ErcStatus → ErcStatus → AppError
  custom_erc_already_pending : AppError
  invalid_checkin_state : AppError
  conflict bad_request : AppError
  invitation_expired invitation_not_pending invitation_not_cancellable : AppError
  invitation_reminder_already_sent pending_global_vm_invite : AppError
  unique_violation foreign_key_violation record_not_found missing_argument : AppError
  underage signup_required duplicate_entity invalid_credentials email_not_verified : AppError
  account_suspended token_expired token_invalid entity_in_use no_password_set : AppError
  reauthentication_required password_incorrect : AppError
  account_locked : (seconds_remaining : ℕ) → AppError
  account_deleted : (deleted_at : ℕ) → AppError
