-- ===== src/Agent/Registry.antt =====
-- app/agent/registry.py: TOOL_REGISTRY and execute_tool. A timeout is in microseconds. `latency n`
-- is how long the n-th attempt of a call takes by the clock.
pub mod Safe
pub mod Normalized
use parcelpilot_ops_copilot.Prelude.{
  ℕ, ◌+◌, zero, suc, String, Bool, true, false, not, ◌||◌, ltb, Option, none, some, List, [], ◌∷◌,
  lookup, if◌then◌else◌,
}
use parcelpilot_ops_copilot.Models.{AuthContext, Database, Instant}
use parcelpilot_ops_copilot.Result.{Result, ok, raise, Error, ◌>>=◌}
use parcelpilot_ops_copilot.Agent.Requests.{
  Args, ToolRequest, search_request, lookup_request, calculation_request, detection_request,
  search_model, lookup_model, calculation_model, detection_model,
}
use parcelpilot_ops_copilot.Agent.Tools.{
  Services, search_documents_tool, lookup_structured_data_tool, calculate_support_outcome_tool,
  detect_issues_tool,
}
use parcelpilot_ops_copilot.Agent.Results.{
  ToolResult, ToolErrorType, not_found, not_authorized, invalid_arguments, timeout, internal,
  same_error_type, ToolOutput, documents_output, records_output, outcome_output, issues_output,
  SafeMessage, unknown_tool, refused_arguments, exceeded_timeout, message_of,
  an_internal_error_occurred, tool_ok, tool_fail,
}

-- Of a spec, the fields that the code reads; the names and descriptions are for a planner.
pub record ToolSpec : Type 0 where
  pub input_model : Args → Option ToolRequest
  pub timeout_limit : ℕ
  pub retryable : Bool
  pub max_retries : ℕ

abbrev pub spec : (Args → Option ToolRequest) → ℕ → ToolSpec
spec input_model timeout_limit = record {
  input_model = input_model;
  timeout_limit = timeout_limit;
  retryable = false;
  max_retries = 2;
}

abbrev pub tool_registry : List (String × ToolSpec)
tool_registry =
    ("search_documents", spec search_model 5000000)
    ∷ ("lookup_structured_data", spec lookup_model 5000000)
    ∷ ("calculate_support_outcome", spec calculation_model 10000000)
    ∷ ("detect_issues", spec detection_model 10000000)
    ∷ []

-- _classify, by _ERROR_MAP
unfoldable pub classify : Error → ToolErrorType
classify (Error.not_authorized denial) = not_authorized
classify (Error.unknown_entity kind id) = not_found
classify Error.invalid_filter = invalid_arguments
classify (Error.value_error text) = invalid_arguments
classify (Error.no_default_no_agreement topic account_id) = invalid_arguments
classify (Error.inactive_no_default source_id date topic) = invalid_arguments
classify _ = internal

-- `isinstance(exc, (ParcelPilotError, ValueError, ValidationError))`
unfoldable pub is_safe : Error → Bool
is_safe (Error.key_error key) = false
is_safe Error.assertion_error = false
is_safe Error.type_error = false
is_safe Error.integrity_error = false
is_safe _ = true

-- `error_type in _TRANSIENT_ERROR_TYPES`
abbrev pub is_transient : Option ToolErrorType → Bool
is_transient none = false
is_transient (some error_type) = same_error_type error_type timeout

module _ (services : Services) (conn : Database) (auth : AuthContext) (now : Instant) where
  -- _dispatch, by the request that the tool's own model made
  unfoldable pub dispatch : ToolRequest → Result ToolOutput
  dispatch (search_request request) = do
    response ← search_documents_tool services conn auth now request
    ok (documents_output response)
  dispatch (lookup_request request) = do
    response ← lookup_structured_data_tool services conn auth now request
    ok (records_output response)
  dispatch (calculation_request request) = do
    response ← calculate_support_outcome_tool services conn auth now request
    ok (outcome_output response)
  dispatch (detection_request request) = do
    response ← detect_issues_tool services conn auth now request
    ok (issues_output response)

module _ (name : String) (limit : ℕ) (call : ℕ → Result ToolOutput) (latency : ℕ → ℕ) where
  -- The result of one attempt.
  abbrev pub attempt_result : ℕ → Result ToolOutput → ToolResult
  attempt_result attempt (raise exc) =
      let error_type : ToolErrorType = classify exc in
      tool_fail name error_type (if is_safe exc then message_of exc else an_internal_error_occurred)
        (latency attempt) (is_transient (some error_type)) attempt
  attempt_result attempt (ok output) =
      if ltb limit (latency attempt)
      then tool_fail name timeout (exceeded_timeout name) (latency attempt) true attempt
      else tool_ok name output (latency attempt) attempt

  -- The loop from an attempt on, with the number of attempts that are left after it. A success ends
  -- it, for its error type is None.
  unfoldable pub attempts_from : ℕ → ℕ → ToolResult
  attempts_from zero attempt = attempt_result attempt (call attempt)
  attempts_from (suc left) attempt =
      let rest = attempts_from left (attempt + 1) in
      let result : ToolResult = attempt_result attempt (call attempt) in
      if not (is_transient result.error_type) then result else rest

-- `max_attempts - 1`
abbrev pub retries_of : ToolSpec → ℕ
retries_of s = if s.retryable then s.max_retries else 0

module _ (services : Services) (latency : ℕ → ℕ) (conn : Database) (auth : AuthContext)
    (now : Instant) where
  abbrev pub execute_request : String → ToolSpec → Option ToolRequest → ToolResult
  execute_request name s none = tool_fail name invalid_arguments (refused_arguments name) 0 false 1
  execute_request name s (some request) =
      attempts_from name s.timeout_limit (λ attempt. dispatch services conn auth now request)
        latency (retries_of s) 1

  abbrev pub execute_spec : String → Args → Option ToolSpec → ToolResult
  execute_spec name raw_args none = tool_fail name invalid_arguments (unknown_tool name) 0 false 1
  execute_spec name raw_args (some s) = execute_request name s (s.input_model raw_args)

  unfoldable pub execute_tool : String → Args → ToolResult
  execute_tool name raw_args = execute_spec name raw_args (lookup name tool_registry)
