-- ===== src/Agent.antt =====
-- app/agent: what a question names and asks, the plan, the tools, the evidence, and the run.
pub mod Entities
pub mod Intent
pub mod Requests
pub mod Planner
pub mod Tools
pub mod Results
pub mod Registry
pub mod Evidence
pub mod Sufficiency
pub mod Budget
pub mod Composer
pub mod State
pub mod Orchestrator
