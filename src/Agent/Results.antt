-- ===== src/Agent/Results.antt =====
-- app/agent/tool_result.py and the outputs that it holds. `none` stands for a field that is None.
use parcelpilot_ops_copilot.Prelude.{ℕ, String, Bool, true, false, eqb, Option, none, some}
use parcelpilot_ops_copilot.Result.{Error}
use parcelpilot_ops_copilot.Agent.Tools.{
  SearchDocumentsResponse, LookupStructuredDataResponse, CalculateSupportOutcomeResponse,
  DetectIssuesResponse,
}

pub data ToolErrorType : Type 0 where
  not_found not_authorized invalid_arguments timeout internal : ToolErrorType

abbrev error_type_index : ToolErrorType → ℕ
error_type_index not_found = 0
error_type_index not_authorized = 1
error_type_index invalid_arguments = 2
error_type_index timeout = 3
error_type_index internal = 4

abbrev pub same_error_type : ToolErrorType → ToolErrorType → Bool
same_error_type a b = eqb (error_type_index a) (error_type_index b)

pub data ToolOutput : Type 0 where
  documents_output : SearchDocumentsResponse → ToolOutput
  records_output : LookupStructuredDataResponse → ToolOutput
  outcome_output : CalculateSupportOutcomeResponse → ToolOutput
  issues_output : DetectIssuesResponse → ToolOutput

-- `safe_message`: the text of an exception that is safe to show, or a text of the registry's own.
pub data SafeMessage : Type 0 where
  unknown_tool refused_arguments exceeded_timeout : String → SafeMessage
  message_of : Error → SafeMessage
  an_internal_error_occurred : SafeMessage

-- `latency` is in microseconds.
pub record ToolResult : Type 0 where
  pub tool_name : String
  pub success : Bool
  pub output : Option ToolOutput
  pub error_type : Option ToolErrorType
  pub retryable : Bool
  pub safe_message : Option SafeMessage
  pub latency : ℕ
  pub attempts : ℕ

-- ToolResult.ok
abbrev pub tool_ok : String → ToolOutput → ℕ → ℕ → ToolResult
tool_ok name output latency attempts = record {
  tool_name = name;
  success = true;
  output = some output;
  error_type = none;
  retryable = false;
  safe_message = none;
  latency = latency;
  attempts = attempts;
}

-- ToolResult.fail
abbrev pub tool_fail : String → ToolErrorType → SafeMessage → ℕ → Bool → ℕ → ToolResult
tool_fail name error_type safe_message latency retryable attempts = record {
  tool_name = name;
  success = false;
  output = none;
  error_type = some error_type;
  retryable = retryable;
  safe_message = some safe_message;
  latency = latency;
  attempts = attempts;
}
