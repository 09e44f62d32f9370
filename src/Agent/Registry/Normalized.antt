-- ===== src/Agent/Registry/Normalized.antt =====
-- What execute_tool returns, whatever the tool does.
use parcelpilot_ops_copilot.Prelude.{
  ℕ, ◌+◌, ◌≤◌, ◌≡◌, ◌↔◌, inl, inr, zero, suc, refl, String, false, not, ltb, Option, none, some,
  arith, Bool-cases, Option-cases, lookup, is_some, some_cancel, sym, ap, ◌∙◌,
}
use mathlib.Core.Path.{subst}
use parcelpilot_ops_copilot.Models.{AuthContext, Database, Instant}
use parcelpilot_ops_copilot.Result.{Result, ok, raise, Error, Result-cases}
use parcelpilot_ops_copilot.Agent.Requests.{Args, ToolRequest}
use parcelpilot_ops_copilot.Agent.Tools.{Services}
use parcelpilot_ops_copilot.Agent.Results.{
  ToolResult, ToolOutput, SafeMessage, message_of, invalid_arguments, refused_arguments, tool_fail,
  unknown_tool,
}
use parcelpilot_ops_copilot.Agent.Registry.{
  ToolSpec, attempts_from, attempt_result, execute_tool, tool_registry, is_safe, dispatch,
  is_transient, retries_of,
}
use parcelpilot_ops_copilot.Agent.Registry.Safe.{MayShow, is_safe-MayShow}

-- A result that is a success with an output, or a failure with a type and a message that does not
-- show an error of another kind than the application's own.
pub record Normalized (result : ToolResult) : Type 0 where
  pub has_output : result.success ≡ is_some result.output
  pub has_error : not result.success ≡ is_some result.error_type
  pub has_message : not result.success ≡ is_some result.safe_message
  pub shows_safe : (exc : Error) → result.safe_message ≡ some (message_of exc) → MayShow exc
  pub attempted : 1 ≤ result.attempts

module _ (name : String) (limit : ℕ) (call : ℕ → Result ToolOutput) (latency : ℕ → ℕ) where
  attempt_result-Normalized :
      (attempt : ℕ) (r : Result ToolOutput)
      → 1 ≤ attempt
      → Normalized (attempt_result name limit call latency attempt r)
  attempt_result-Normalized attempt (ok output) h =
      elim (Bool-cases (ltb limit (latency attempt))) [
        | inl e ↦ rw e (record {
          has_output = refl;
          has_error = refl;
          has_message = refl;
          shows_safe = λ exc k. cc;
          attempted = h;
        })
        | inr e ↦ rw e (record {
          has_output = refl;
          has_error = refl;
          has_message = refl;
          shows_safe = λ exc k. cc;
          attempted = h;
        })
      ]
  attempt_result-Normalized attempt (raise e) h = elim (Bool-cases (is_safe e)) [
    | inl t ↦ rw t (record {
      has_output = refl;
      has_error = refl;
      has_message = refl;
      shows_safe = λ exc k. let same : e ≡ exc = cc in subst MayShow same (is_safe-MayShow e t);
      attempted = h;
    })
    | inr t ↦ rw t (record {
      has_output = refl;
      has_error = refl;
      has_message = refl;
      shows_safe = λ exc k. cc;
      attempted = h;
    })
  ]

  attempt_result-attempts :
      (attempt : ℕ) (r : Result ToolOutput)
      → (attempt_result name limit call latency attempt r).attempts ≡ attempt
  attempt_result-attempts attempt (ok output) = ground arith
  attempt_result-attempts attempt (raise e) = refl

  attempts_from-Normalized :
      (left attempt : ℕ)
      → 1 ≤ attempt
      → Normalized (attempts_from name limit call latency left attempt)
  unfolding attempts_from
  attempts_from-Normalized zero attempt h = attempt_result-Normalized attempt (call attempt) h
  attempts_from-Normalized (suc left) attempt h =
      elim (Bool-cases
        (is_transient (attempt_result name limit call latency attempt (call attempt)).error_type)) [
          | inl e ↦ rw e (attempts_from-Normalized left (attempt + 1) (omega arith))
          | inr e ↦ rw e (attempt_result-Normalized attempt (call attempt) h)
        ]

pub not_retryable :
    (name : String) (s : ToolSpec) → lookup name tool_registry ≡ some s → retries_of s ≡ 0
not_retryable name s h = ground arith

abbrev no_output : Option ToolOutput
no_output = none

refused :
    (name : String) (message : SafeMessage)
    → ((exc : Error) → ¬ (message ≡ message_of exc))
    → Normalized (tool_fail name invalid_arguments message 0 false 1)
refused name message own = record {
  has_output = refl;
  has_error = refl;
  has_message = refl;
  shows_safe = λ exc h. absurd (own exc (some_cancel h));
  attempted = omega arith;
}

module _ (services : Services) (latency : ℕ → ℕ) (conn : Database) (auth : AuthContext)
    (now : Instant) where
  pub record Ran (name : String) (raw_args : Args) (output : ToolOutput) : Type 0 where
    pub tool : ToolSpec
    pub registered : lookup name tool_registry ≡ some tool
    pub request : ToolRequest
    pub valid : tool.input_model raw_args ≡ some request
    pub returned : dispatch services conn auth now request ≡ ok output
    pub in_time : latency 1 ≤ tool.timeout_limit

  not_valid :
      {name : String} {raw_args : Args} {output : ToolOutput} {s : ToolSpec}
      → lookup name tool_registry ≡ some s
      → s.input_model raw_args ≡ none
      → Ran name raw_args output
      → no_output ≡ some output
  not_valid {raw_args = raw_args} e f r =
      let same = some_cancel (sym r.registered ∙ e) in
      let k = sym r.valid ∙ (ap (λ t. t.input_model raw_args) same ∙ f) in cc

  -- A call that ran is that of the tool and the request at hand.
  Ran-dispatch :
      {name : String} {raw_args : Args} {output : ToolOutput} {s : ToolSpec} {request : ToolRequest}
      → lookup name tool_registry ≡ some s
      → s.input_model raw_args ≡ some request
      → Ran name raw_args output
      → (dispatch services conn auth now request ≡ ok output) × (latency 1 ≤ s.timeout_limit)
  Ran-dispatch {raw_args = raw_args} {s = s} {request = request} e f r =
      let same : r.tool ≡ s = some_cancel (sym r.registered ∙ e) in
      let asked : r.request ≡ request =
        some_cancel (sym r.valid ∙ (ap (λ t. t.input_model raw_args) same ∙ f)) in
      (
        ap (dispatch services conn auth now) (sym asked) ∙ r.returned,
        subst (λ t. latency 1 ≤ t.timeout_limit) same r.in_time,
      )

  attempt-Ran :
      (name : String) (raw_args : Args) (output : ToolOutput) (s : ToolSpec) (request : ToolRequest)
      → lookup name tool_registry ≡ some s
      → s.input_model raw_args ≡ some request
      → (attempt_result name s.timeout_limit
            (λ attempt. dispatch services conn auth now request)
            latency
            1
            (dispatch services conn auth now request)).output
          ≡ some output
        ↔ Ran name raw_args output
  attempt-Ran name raw_args output s request e f =
      elim (Result-cases (dispatch services conn auth now request)) [
        | inr (exc, d) ↦ rw d (λ h. cc, λ r. let k = (Ran-dispatch e f r).0 in cc)
        | inl (o, d) ↦ elim (Bool-cases (ltb s.timeout_limit (latency 1))) [
          | inl t ↦
              rw d (rw t (λ h. cc, λ r. let k = (Ran-dispatch e f r).1 in absurd (ground arith)))
          | inr t ↦ rw d (
              rw t (
                λ h. record {
                  tool = s;
                  registered = e;
                  request = request;
                  valid = f;
                  returned = d ∙ ap ok (some_cancel h);
                  in_time = ground arith;
                },
                λ r. let k = (Ran-dispatch e f r).0 in cc,
              ))
        ]
      ]

  execute_tool-result :
      (name : String) (raw_args : Args)
      → let result = execute_tool services latency conn auth now name raw_args in
        Normalized result
        × (result.attempts ≡ 1)
        × ((output : ToolOutput) → result.output ≡ some output ↔ Ran name raw_args output)
  unfolding execute_tool attempts_from
  execute_tool-result name raw_args = elim (Option-cases (lookup name tool_registry)) [
    | inl e ↦ rw e (
      refused name (unknown_tool name) (λ exc h. cc),
      refl,
      λ output. (λ h. cc, λ r. let k = r.registered in cc),
    )
    | inr (s, e) ↦ elim (Option-cases (s.input_model raw_args)) [
      | inl f ↦ rw e (
          rw f (
            refused name (refused_arguments name) (λ exc h. cc),
            refl,
            λ output. (λ h. cc, λ r. not_valid e f r),
          ))
      | inr (request, f) ↦ rw e (
          rw f (
            rw (not_retryable name s e) (
              let answer = dispatch services conn auth now request in
              let call = λ (attempt : ℕ). answer in
              (
                attempt_result-Normalized name s.timeout_limit call latency 1 answer (omega arith),
                attempt_result-attempts name s.timeout_limit call latency 1 answer,
                λ output. attempt-Ran name raw_args output s request e f,
              ))))
    ]
  ]

  pub execute_tool-attempts :
      (name : String) (raw_args : Args)
      → (execute_tool services latency conn auth now name raw_args).attempts ≡ 1
  execute_tool-attempts name raw_args = (execute_tool-result name raw_args).1

  -- A tool call always gives one result after one attempt: a success with an output, or a failure
  -- with an error type and a message, which shows an exception only if it is one of the application
  -- or a ValueError. It has an output exactly when the tool is registered, its model takes the
  -- arguments, the tool returned that output, and it did so within the limit of its time.
  pub execute_tool-Normalized :
      (name : String) (raw_args : Args) (output : ToolOutput)
      → let result = execute_tool services latency conn auth now name raw_args in
        Normalized result
        × (result.attempts ≡ 1)
        × (result.output ≡ some output ↔ Ran name raw_args output)
  execute_tool-Normalized name raw_args output =
      let r = execute_tool-result name raw_args in (r.0, r.1, r.2 output)
