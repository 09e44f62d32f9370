-- ===== src/Examples/Gateway.antt =====
-- The gateway, its retries and the radar's service, run on small inputs.
use parcelpilot_ops_copilot.Prelude.{
  ℕ, ◌≡◌, ◌≤◌, ◌↔◌, zero, suc, String, none, some, List, [], ◌∷◌, arith,
}
use parcelpilot_ops_copilot.Llm.{LlmRequest, LlmResponse, ProviderError, Answer, returned}
use parcelpilot_ops_copilot.Llm.Gateway.{
  Candidate, ProviderAttempt, answered, non_retryable_provider_error, all_providers_failed_error,
  complete, failure_attempt,
}
use parcelpilot_ops_copilot.Llm.Gateway.Outcome.{
  Reaches, Answers, Stops, AllTransient, complete-Reaches,
}
use parcelpilot_ops_copilot.Llm.Anthropic.{
  ClientMessage, create_with_retries, default_base_delay, default_max_delay,
}
use parcelpilot_ops_copilot.Llm.Anthropic.Retries.{Ends, create_with_retries-Ends}

abbrev request : LlmRequest String
request = record {
  messages = [];
  model = "claude-sonnet-5";
  max_output_tokens = 1024;
  max_retries = 2;
  prompt_version = none;
}

abbrev overloaded : ProviderError
overloaded = record { type_name = "OverloadedError"; message = "overloaded" }

abbrev reply : LlmResponse
reply = record {
  content = "Done.";
  provider = "mock";
  model = "mock-model";
  usage = record { input_tokens = 2; output_tokens = 1 };
  cost = record { input_cost = 0; output_cost = 0 };
  prompt_version = none;
  finish_reason = some "stop";
  retries = 0;
}

abbrev first : Candidate String
first = record {
  provider = record { name = "anthropic"; complete = λ r. Answer.failed overloaded };
  model = "claude-sonnet-5";
}

abbrev second : Candidate String
second = record {
  provider = record { name = "mock"; complete = λ r. returned reply };
  model = "mock-model";
}

abbrev candidates : List (Candidate String)
candidates = first ∷ second ∷ []

abbrev first_attempt : ProviderAttempt
first_attempt = failure_attempt request first overloaded

complete-Reaches_example :
    ((complete request candidates).0 ≡ answered reply
      ↔ Reaches request (Answers request reply) candidates)
    × ((complete request candidates).0 ≡ non_retryable_provider_error first_attempt
        ↔ Reaches request (Stops request first_attempt) candidates)
    × (((l : List ProviderAttempt) × ((complete request candidates).0
            ≡ all_providers_failed_error l))
        ↔ AllTransient request candidates)
complete-Reaches_example = complete-Reaches request candidates reply first_attempt

abbrev message : ClientMessage
message = record {
  content = [];
  usage = record { input_tokens = 2; output_tokens = 1 };
  stop_reason = some "end_turn";
}

-- The second call succeeds.
abbrev create : ℕ → Answer ClientMessage
create zero = Answer.failed overloaded
create (suc n) = returned message

-- The longest delay that is allowed.
abbrev longest : ℕ → ℕ → ℕ
longest n bound = bound

longest-le : (n bound : ℕ) → longest n bound ≤ bound
longest-le n bound = omega arith

create_with_retries-Ends_example :
    (last : ℕ) × Ends default_base_delay default_max_delay longest create 0 2 last
      (create_with_retries default_base_delay default_max_delay longest create 2)
create_with_retries-Ends_example =
    create_with_retries-Ends default_base_delay default_max_delay longest create longest-le 2
