-- ===== src/Actions/Models.antt =====
-- ActionOutcome, the return type of the three calls. An f-string of a message is a constructor that
-- holds what it prints.
use parcelpilot_ops_copilot.Prelude.{String, Bool, true, false, Option, none, some}
use parcelpilot_ops_copilot.Models.{ActionRecord, ActionStatus, Severity, TicketStatus}
use parcelpilot_ops_copilot.Result.{Error}

pub data ErrorCode : Type 0 where
  not_authorized not_found invalid_target_state cannot_determine_eligibility : ErrorCode
  not_escalation_eligible wrong_state expired_code wrong_user payload_mismatch : ErrorCode
  target_invalid target_state_changed : ErrorCode

pub data Verb : Type 0 where
  to_confirm to_execute : Verb

pub data Message : Type 0 where
  text_of_error : Error → Message
  ticket_not_open : String → TicketStatus → Message
  severity_undetermined : String → Message
  below_escalation_bar : String → Severity → Message
  no_action : String → Message
  not_pending : String → ActionStatus → Message
  expired_before_confirmation only_preparer_confirms payload_differs : Message
  ticket_status_changed : String → Message
  changed_concurrently : String → ActionStatus → Verb → Message
  not_confirmed : String → ActionStatus → Message

pub record ActionOutcome : Type 0 where
  pub success : Bool
  pub outcome_record : Option ActionRecord
  pub error_code : Option ErrorCode
  pub error_message : Option Message

abbrev pub failure : Option ActionRecord → ErrorCode → Message → ActionOutcome
failure row code message = record {
  success = false;
  outcome_record = row;
  error_code = some code;
  error_message = some message;
}

abbrev pub success_with : ActionRecord → ActionOutcome
success_with row = record {
  success = true;
  outcome_record = some row;
  error_code = none;
  error_message = none;
}
