-- ===== src/Agent/State.antt =====
-- app/agent/state.py and the results of app/agent/orchestrator.py. Latencies and the ids for tracing are
-- left out. A reason is a constructor that holds what it prints.
use parcelpilot_ops_copilot.Prelude.{ℕ, String, Bool, false, Option, none, some, List, []}
use parcelpilot_ops_copilot.Models.{TrustState, EvidenceRef}
use parcelpilot_ops_copilot.Domain.Outcomes.{Conflict, Assumption}
use parcelpilot_ops_copilot.Llm.{ProviderError}
use parcelpilot_ops_copilot.Agent.Intent.{Intent, Scope}
use parcelpilot_ops_copilot.Agent.Results.{ToolErrorType}
use parcelpilot_ops_copilot.Agent.Budget.{BudgetFailure}

pub data AgentState : Type 0 where
  request_received auth_validated intent_resolved entities_resolved plan_created : AgentState
  tool_executing evidence_validated domain_evaluated trust_evaluated : AgentState
  response_composed : AgentState
  completed needs_clarification insufficient_evidence escalated failed : AgentState
  evidence_validation_failed : AgentState

-- The values of AgentStatus.
pub data AgentStatus : Type 0 where
  completed needs_clarification insufficient_evidence escalated failed : AgentStatus
  evidence_validation_failed : AgentStatus

pub data RunReason : Type 0 where
  multiple_accounts : List String → RunReason
  account_needed : Scope → RunReason
  empty_or_unsupported nothing_to_investigate : RunReason
  plan_exceeds_budget : ℕ → ℕ → RunReason
  wall_clock_exceeded tool_not_authorized : RunReason
  iterations_exceeded : ℕ → RunReason
  no_evidence documents_insufficient llm_budget_exhausted : RunReason
  over_budget : BudgetFailure → RunReason
  composition_failed repair_failed : ProviderError → RunReason
  no_repair_available still_unsupported : List String → RunReason

pub record TraceEntry : Type 0 where
  pub tool : String
  pub purpose : String
  pub success : Bool
  pub error_type : Option ToolErrorType

pub record AgentRunResult : Type 0 where
  pub status : AgentStatus
  pub answer : Option String
  pub trust_state : Option TrustState
  pub needs_human_review : Bool
  pub citations : List EvidenceRef
  pub assumptions : List Assumption
  pub conflicts : List Conflict
  pub reason : Option RunReason
  pub intent : Option Intent
  pub planned_tools : List String
  pub tool_trace : List TraceEntry
  pub state_trace : List AgentState
  pub llm_calls : ℕ
  pub tool_calls : ℕ
  pub total_cost_usd : ℕ

-- _terminal, with its defaults for what is not given
abbrev pub terminal : AgentStatus → RunReason → List AgentState → AgentRunResult
terminal status reason state_trace = record {
  status = status;
  answer = none;
  trust_state = none;
  needs_human_review = false;
  citations = [];
  assumptions = [];
  conflicts = [];
  reason = some reason;
  intent = none;
  planned_tools = [];
  tool_trace = [];
  state_trace = state_trace;
  llm_calls = 0;
  tool_calls = 0;
  total_cost_usd = 0;
}
