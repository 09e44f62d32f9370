-- ===== src/Agent/Orchestrator/Ends.antt =====
-- app/agent/orchestrator.py: what a run uses and keeps, and the ends of run_agent.
use parcelpilot_ops_copilot.Prelude.{
  ℕ, String, Bool, true, false, none, some, List, [], ◌∷◌, ◌++◌, length, if◌then◌else◌,
}
use parcelpilot_ops_copilot.Models.{TrustState, escalate}
use parcelpilot_ops_copilot.Llm.{LlmRequest, LlmResponse, Answer}
use parcelpilot_ops_copilot.Agent.Entities.{Texts}
use parcelpilot_ops_copilot.Agent.Intent.{Intent, Pattern}
use parcelpilot_ops_copilot.Agent.Tools.{Services}
use parcelpilot_ops_copilot.Agent.Results.{ToolResult}
use parcelpilot_ops_copilot.Agent.Evidence.{EvidencePack}
use parcelpilot_ops_copilot.Agent.Composer.{PromptText}
use parcelpilot_ops_copilot.Agent.State.{
  AgentState, AgentStatus, RunReason, TraceEntry, AgentRunResult, terminal,
}
use parcelpilot_ops_copilot.Agent.Orchestrator.Tools.{Clock}

-- What a run uses besides the tables and the budget. `provider n` is what the provider does at the
-- n-th call of the run.
pub record Runtime : Type 0 where
  pub services : Services
  pub clock : Clock
  pub texts : Texts
  pub matches : Pattern → String → Bool
  pub is_blank : String → Bool
  pub words : String → List String
  pub markers : String → List String
  pub word_count : PromptText → ℕ
  pub provider : ℕ → LlmRequest PromptText → Answer LlmResponse

-- What the stages after the tools keep of the investigation.
pub record Investigation : Type 0 where
  pub intent : Intent
  pub planned_tools : List String
  pub tool_results : List ToolResult
  pub tool_trace : List TraceEntry
  pub pack : EvidencePack
  pub trust_state : TrustState

-- The keyword arguments that the early ends share.
abbrev pub with_tools : Intent → List ToolResult → List TraceEntry → AgentRunResult → AgentRunResult
with_tools intent tool_results tool_trace r = record r {
  intent = some intent;
  tool_trace = tool_trace;
  tool_calls = length tool_results;
}

abbrev pub failed_with_trust : Investigation → RunReason → List AgentState → AgentRunResult
failed_with_trust i reason trace =
    record (with_tools i.intent i.tool_results i.tool_trace
      (terminal AgentStatus.failed reason (trace ++ AgentState.failed ∷ []))) {
        trust_state = some i.trust_state;
      }

-- The keyword arguments of the ends after an answer was composed.
abbrev pub with_evidence : Investigation → ℕ → ℕ → AgentRunResult → AgentRunResult
with_evidence i llm_calls cost r = record r {
  intent = some i.intent;
  trust_state = some i.trust_state;
  needs_human_review = i.pack.needs_human_review;
  citations = i.pack.citations;
  assumptions = i.pack.assumptions;
  conflicts = i.pack.conflicts;
  planned_tools = i.planned_tools;
  tool_trace = i.tool_trace;
  tool_calls = length i.tool_results;
  llm_calls = llm_calls;
  total_cost_usd = cost;
}

abbrev pub is_escalate : TrustState → Bool
is_escalate escalate = true
is_escalate _ = false

abbrev pub final_status : TrustState → AgentStatus
final_status trust = if is_escalate trust then AgentStatus.escalated else AgentStatus.completed

abbrev pub final_state : TrustState → AgentState
final_state trust = if is_escalate trust then AgentState.escalated else AgentState.completed

-- The result of a run whose answer passed the check of its citations.
abbrev pub conclude : Investigation → String → ℕ → ℕ → List AgentState → AgentRunResult
conclude i text llm_calls cost trace = with_evidence i llm_calls cost (record {
  status = final_status i.trust_state;
  answer = some text;
  trust_state = none;
  needs_human_review = false;
  citations = [];
  assumptions = [];
  conflicts = [];
  reason = none;
  intent = none;
  planned_tools = [];
  tool_trace = [];
  state_trace = trace ++ final_state i.trust_state ∷ [];
  llm_calls = 0;
  tool_calls = 0;
  total_cost_usd = 0;
})
