-- ===== src/Llm.antt =====
-- app/llm: the types of a request and its response, prices, the classification of failures, the
-- gateway over several providers, and the retries of AnthropicProvider. A provider outside the
-- repository is a function from a request to its answer.
mod Types
pub mod Pricing
pub mod Gateway
pub mod Anthropic
unfoldable pub use Types.*
