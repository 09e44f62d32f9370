-- ===== src/Llm/Types.antt =====
-- app/llm/types.py, base.py and error_classification.py. The content of a message is a parameter of
-- the types, since a prompt is kept as the parts that it prints. `temperature`, `timeout_seconds`
-- and the ids for tracing, on which nothing branches, are left out.
use parcelpilot_ops_copilot.Prelude.{ℕ, ◌+◌, String, Bool, Option, List, [], ◌∷◌, contains}

pub data MessageRole : Type 0 where
  system_message user_message assistant_message : MessageRole

pub record LlmMessage (Text : Type 0) : Type 0 where
  pub role : MessageRole
  pub content : Text

pub record LlmRequest (Text : Type 0) : Type 0 where
  pub messages : List (LlmMessage Text)
  pub model : String
  pub max_output_tokens : ℕ
  pub max_retries : ℕ
  pub prompt_version : Option String

pub record TokenUsage : Type 0 where
  pub input_tokens : ℕ
  pub output_tokens : ℕ

-- In units of 1/1,000,000 dollar.
pub record CostEstimate : Type 0 where
  pub input_cost : ℕ
  pub output_cost : ℕ

abbrev pub total_cost : CostEstimate → ℕ
total_cost cost = cost.input_cost + cost.output_cost

pub record LlmResponse : Type 0 where
  pub content : String
  pub provider : String
  pub model : String
  pub usage : TokenUsage
  pub cost : CostEstimate
  pub prompt_version : Option String
  pub finish_reason : Option String
  pub retries : ℕ

-- An exception: `type(exc).__name__` and `str(exc)`.
pub record ProviderError : Type 0 where
  pub type_name : String
  pub message : String

-- What a call of `complete` does.
pub data Answer (A : Type 0) : Type 0 where
  returned : A → Answer A
  failed : ProviderError → Answer A

pub record LlmProvider (Text : Type 0) : Type 0 where
  pub name : String
  pub complete : LlmRequest Text → Answer LlmResponse

-- RETRYABLE_EXCEPTION_NAMES
abbrev pub retryable_exception_names : List String
retryable_exception_names =
    "APIConnectionError" ∷ "APITimeoutError" ∷ "TimeoutError" ∷ "ConnectionError" ∷ "RateLimitError"
    ∷ "InternalServerError" ∷ "OverloadedError" ∷ "ServiceUnavailableError" ∷ []

unfoldable pub is_retryable_provider_error : ProviderError → Bool
is_retryable_provider_error exc = contains exc.type_name retryable_exception_names
