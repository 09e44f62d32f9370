-- ===== src/Llm/Anthropic.antt =====
-- app/llm/anthropic_provider.py: AnthropicProvider.complete, its retries and its backoff. Delays
-- are in microseconds. `create n` is what the n-th call of the client's `messages.create` does, and
-- `uniform n bound` the n-th draw of `random.uniform(0, bound)`.
pub mod Retries
use Prim.Native.String.{◌++◌ as append}
use parcelpilot_ops_copilot.Prelude.{
  ℕ, ◌+◌, ◌*◌, zero, suc, min, String, Bool, true, false, not, ◌==◌, Option, none, some, List, [],
  ◌∷◌, map, find, filter, if◌then◌else◌,
}
use parcelpilot_ops_copilot.Llm.Types.{
  LlmMessage, MessageRole, system_message, LlmRequest, LlmResponse, TokenUsage, CostEstimate,
  ProviderError, Answer, returned, failed, is_retryable_provider_error,
}
use parcelpilot_ops_copilot.Llm.Pricing.{estimate_cost}

-- A content block of the client's answer; `type` is absent where the block has none.
pub record ContentBlock : Type 0 where
  pub kind : Option String
  pub text : String

pub record ClientMessage : Type 0 where
  pub content : List ContentBlock
  pub usage : TokenUsage
  pub stop_reason : Option String

abbrev pub default_base_delay : ℕ
default_base_delay = 500000

abbrev pub default_max_delay : ℕ
default_max_delay = 8000000

abbrev pub power_of_two : ℕ → ℕ
power_of_two zero = 1
power_of_two (suc n) = 2 * power_of_two n

abbrev is_system : MessageRole → Bool
is_system system_message = true
is_system _ = false

abbrev content_of : {Text : Type 0} → Option (LlmMessage Text) → Option Text
content_of none = none
content_of (some message) = some message.content

-- `kwargs["system"]` and `kwargs["messages"]`
abbrev pub system_of : {Text : Type 0} → LlmRequest Text → Option Text
system_of request = content_of (find (λ m. is_system m.role) request.messages)

abbrev pub messages_of : {Text : Type 0} → LlmRequest Text → List (LlmMessage Text)
messages_of request = filter (λ m. not (is_system m.role)) request.messages

-- What the loop leaves: the last call's answer, `retries`, and the delays that were slept.
pub record RetryRun : Type 0 where
  pub answer : Answer ClientMessage
  pub retries : ℕ
  pub delays : List ℕ

module _ (base_delay max_delay : ℕ) (uniform : ℕ → ℕ → ℕ) where
  unfoldable pub backoff_delay : ℕ → ℕ
  backoff_delay attempt = uniform attempt (min max_delay (base_delay * power_of_two attempt))

  module _ (create : ℕ → Answer ClientMessage) where
    abbrev pub slept_before : ℕ → RetryRun → RetryRun
    slept_before attempt run = record run { delays = backoff_delay attempt ∷ run.delays }

    -- The body of the loop after a call: `is_last_attempt`, and what the rest of the loop does.
    abbrev pub after_create : Bool → ℕ → ℕ → Answer ClientMessage → RetryRun → RetryRun
    after_create is_last_attempt attempt retries (returned message) continue = record {
      answer = returned message;
      retries = retries;
      delays = [];
    }
    after_create is_last_attempt attempt retries (failed exc) continue =
        if is_last_attempt
        then record { answer = failed exc; retries = retries; delays = [] }
        else if not (is_retryable_provider_error exc)
        then record { answer = failed exc; retries = retries; delays = [] }
        else slept_before attempt continue

    -- The loop from an attempt on, with the number of attempts that are left after it.
    abbrev pub attempts_from : ℕ → ℕ → ℕ → RetryRun
    attempts_from zero attempt retries =
        after_create true attempt retries (create attempt)
          (record { answer = create attempt; retries = retries; delays = [] })
    attempts_from (suc left) attempt retries =
        after_create false attempt retries (create attempt)
          (attempts_from left (attempt + 1) (attempt + 1))

    unfoldable pub create_with_retries : ℕ → RetryRun
    create_with_retries max_retries = attempts_from max_retries 0 0

-- `"".join(block.text for block in response.content if ... == "text")`
abbrev is_text : Option String → Bool
is_text none = false
is_text (some kind) = kind == "text"

abbrev concat : List String → String
concat [] = ""
concat (s ∷ ss) = append s (concat ss)

abbrev pub text_of : ClientMessage → String
text_of message =
    concat (map (λ block. block.text) (filter (λ block. is_text block.kind) message.content))

-- The response, or the KeyError of a model without a price.
abbrev pub priced :
    {Text : Type 0} → LlmRequest Text → ClientMessage → ℕ → Option CostEstimate → Answer LlmResponse
priced request message retries none =
    failed (record { type_name = "KeyError"; message = request.model })
priced request message retries (some cost) = returned (record {
  content = text_of message;
  provider = "anthropic";
  model = request.model;
  usage = message.usage;
  cost = cost;
  prompt_version = request.prompt_version;
  finish_reason = message.stop_reason;
  retries = retries;
})

abbrev pub response_of :
    {Text : Type 0} → LlmRequest Text → Answer ClientMessage → ℕ → Answer LlmResponse
response_of request (failed exc) retries = failed exc
response_of request (returned message) retries =
    priced request message retries
      (estimate_cost request.model message.usage.input_tokens message.usage.output_tokens)

-- `client system messages n` is what the n-th call with these texts does.
abbrev pub anthropic_complete :
    {Text : Type 0}
    → (Option Text → List (LlmMessage Text) → ℕ → Answer ClientMessage)
    → (ℕ → ℕ → ℕ)
    → LlmRequest Text
    → Answer LlmResponse
anthropic_complete client uniform request =
    let run =
      create_with_retries default_base_delay default_max_delay uniform
        (client (system_of request) (messages_of request)) request.max_retries in
    response_of request run.answer run.retries
