-- ===== src/Llm/Gateway.antt =====
-- app/llm/gateway.py: ParcelPilotLLMGateway. Latencies are left out.
pub mod Outcome
use parcelpilot_ops_copilot.Prelude.{
  ℕ, ◌+◌, String, Bool, true, false, Option, none, some, List, [], ◌∷◌, ◌++◌, map, length, ltb, not,
  if◌then◌else◌,
}
use parcelpilot_ops_copilot.Llm.Types.{
  LlmProvider, LlmRequest, LlmResponse, ProviderError, Answer, returned, failed, total_cost,
  is_retryable_provider_error,
}

pub record ProviderAttempt : Type 0 where
  pub provider : String
  pub model : String
  pub success : Bool
  pub error : Option String
  pub retryable : Bool

pub record GatewayRunInfo : Type 0 where
  pub provider_attempts : List ProviderAttempt
  pub fallback_used : Bool
  pub fallback_reason : Option String
  pub total_cost_usd : ℕ

pub record Candidate (Text : Type 0) : Type 0 where
  pub provider : LlmProvider Text
  pub model : String

-- What `complete` does: it returns, or raises one of the module's two exceptions.
pub data GatewayOutcome : Type 0 where
  answered : LlmResponse → GatewayOutcome
  non_retryable_provider_error : ProviderAttempt → GatewayOutcome
  all_providers_failed_error : List ProviderAttempt → GatewayOutcome

-- `__init__`, where `none` is its ValueError
abbrev pub new_gateway :
    {Text : Type 0} → List (LlmProvider Text × String) → Option (List (Candidate Text))
new_gateway [] = none
new_gateway ((p, m) ∷ candidates) = some (
    map (λ candidate. record { provider = candidate.0; model = candidate.1 }) ((p, m) ∷ candidates))

-- `attempts[0].error if attempts else None`
abbrev pub first_error : List ProviderAttempt → Option String
first_error [] = none
first_error (attempt ∷ attempts) = attempt.error

module _ {Text : Type 0} (request : LlmRequest Text) where
  -- `candidate.provider.complete(scoped_request, context)`
  abbrev pub call : Candidate Text → Answer LlmResponse
  call candidate = candidate.provider.complete (record request { model = candidate.model })

  abbrev pub success_attempt : Candidate Text → ProviderAttempt
  success_attempt candidate = record {
    provider = candidate.provider.name;
    model = candidate.model;
    success = true;
    error = none;
    retryable = false;
  }

  abbrev pub failure_attempt : Candidate Text → ProviderError → ProviderAttempt
  failure_attempt candidate exc = record {
    provider = candidate.provider.name;
    model = candidate.model;
    success = false;
    error = some exc.message;
    retryable = is_retryable_provider_error exc;
  }

  abbrev pub run_answered : ℕ → List ProviderAttempt → LlmResponse → GatewayRunInfo
  run_answered index attempts response = record {
    provider_attempts = attempts;
    fallback_used = ltb 0 index;
    fallback_reason = if ltb 0 index then first_error attempts else none;
    total_cost_usd = total_cost response.cost;
  }

  abbrev pub run_stopped : List ProviderAttempt → ProviderAttempt → GatewayRunInfo
  run_stopped attempts attempt = record {
    provider_attempts = attempts;
    fallback_used = false;
    fallback_reason = attempt.error;
    total_cost_usd = 0;
  }

  abbrev pub run_exhausted : List ProviderAttempt → GatewayRunInfo
  run_exhausted attempts = record {
    provider_attempts = attempts;
    fallback_used = ltb 1 (length attempts);
    fallback_reason = first_error attempts;
    total_cost_usd = 0;
  }

  -- The body of the loop after the call, with what the rest of the loop does.
  abbrev pub after_call :
      ℕ
      → List ProviderAttempt
      → Candidate Text
      → Answer LlmResponse
      → (List ProviderAttempt → GatewayOutcome × GatewayRunInfo)
      → GatewayOutcome × GatewayRunInfo
  after_call index attempts candidate (returned response) continue =
      (answered response, run_answered index (attempts ++ success_attempt candidate ∷ []) response)
  after_call index attempts candidate (failed exc) continue =
      let attempt = failure_attempt candidate exc in
      if not (is_retryable_provider_error exc)
      then (non_retryable_provider_error attempt, run_stopped (attempts ++ attempt ∷ []) attempt)
      else continue (attempts ++ attempt ∷ [])

  -- The loop from a candidate on, with its index and the attempts before it. The outcome comes with
  -- `last_run`.
  abbrev pub complete_from :
      ℕ → List ProviderAttempt → List (Candidate Text) → GatewayOutcome × GatewayRunInfo
  complete_from index attempts [] = (all_providers_failed_error attempts, run_exhausted attempts)
  complete_from index attempts (candidate ∷ candidates) =
      after_call index attempts candidate (call candidate)
        λ tried. complete_from (index + 1) tried candidates

  unfoldable pub complete : List (Candidate Text) → GatewayOutcome × GatewayRunInfo
  complete candidates = complete_from 0 [] candidates
