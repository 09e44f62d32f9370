-- ===== src/Domain.antt =====
-- app/domain: the deterministic services. Each returns a DecisionResult; the LLM never alters one.
pub mod Outcomes
pub mod Evidence
pub mod Severity
pub mod Sla
pub mod Cancellation
pub mod ServiceCredit
pub mod Permitted
