-- ===== src/Agent/Orchestrator/Machine.antt =====
-- The states of a run of app/agent/orchestrator.py as a machine, and what its results promise.
use parcelpilot_ops_copilot.Prelude.{
  ◌≤◌, ◌≢◌, ◌≡◌, ◌⊎◌, String, Bool, true, false, none, some, List, [], ◌∷◌, ◌++◌, Has,
}
use parcelpilot_ops_copilot.Models.{TrustState, escalate, EvidenceRef}
use parcelpilot_ops_copilot.Agent.Evidence.Marked.{IsOf}
use parcelpilot_ops_copilot.Agent.Budget.{AgentBudget}
use parcelpilot_ops_copilot.Agent.State.{AgentState, AgentStatus, AgentRunResult}

-- The transitions that the code makes.
pub data Step : AgentState → AgentState → Type 0 where
  validate : Step AgentState.request_received AgentState.auth_validated
  resolve : Step AgentState.auth_validated AgentState.entities_resolved
  ask_which : Step AgentState.entities_resolved AgentState.needs_clarification
  intend : Step AgentState.entities_resolved AgentState.intent_resolved
  ask_account : Step AgentState.intent_resolved AgentState.needs_clarification
  refuse : Step AgentState.intent_resolved AgentState.insufficient_evidence
  plan : Step AgentState.intent_resolved AgentState.plan_created
  find_nothing : Step AgentState.plan_created AgentState.insufficient_evidence
  plan_too_long : Step AgentState.plan_created AgentState.failed
  execute : Step AgentState.plan_created AgentState.tool_executing
  stop_tools : Step AgentState.tool_executing AgentState.failed
  gather : Step AgentState.tool_executing AgentState.evidence_validated
  evaluate : Step AgentState.evidence_validated AgentState.domain_evaluated
  lack : Step AgentState.domain_evaluated AgentState.insufficient_evidence
  trust : Step AgentState.domain_evaluated AgentState.trust_evaluated
  fail_to_answer : Step AgentState.trust_evaluated AgentState.failed
  answer : Step AgentState.trust_evaluated AgentState.response_composed
  fail_to_repair : Step AgentState.response_composed AgentState.failed
  reject : Step AgentState.response_composed AgentState.evidence_validation_failed
  complete : Step AgentState.response_composed AgentState.completed
  hand_over : Step AgentState.response_composed AgentState.escalated

-- A trace of the machine from its start, with the state that it has reached.
pub data Run : List AgentState → AgentState → Type 0 where
  start : Run (AgentState.request_received ∷ []) AgentState.request_received
  next :
      {trace : List AgentState} {a b : AgentState}
      → Run trace a
      → Step a b
      → Run (trace ++ b ∷ []) b

-- The state in which a run of each status ends.
abbrev pub state_of : AgentStatus → AgentState
state_of AgentStatus.completed = AgentState.completed
state_of AgentStatus.needs_clarification = AgentState.needs_clarification
state_of AgentStatus.insufficient_evidence = AgentState.insufficient_evidence
state_of AgentStatus.escalated = AgentState.escalated
state_of AgentStatus.failed = AgentState.failed
state_of AgentStatus.evidence_validation_failed = AgentState.evidence_validation_failed

abbrev pub answers : AgentStatus → Bool
answers AgentStatus.completed = true
answers AgentStatus.escalated = true
answers _ = false

module _ (markers : String → List String) where
  -- Every marker in the text is of one of the citations.
  abbrev pub AllNamed : String → List EvidenceRef → Type 0
  AllNamed text citations =
      (marker : String)
      → Has marker (markers text)
      → (ref : EvidenceRef) × Has ref citations × IsOf marker ref

  -- The answer of a result, its trust state and its status.
  pub record Answered (r : AgentRunResult) : Type 0 where
    pub text : String
    pub trust : TrustState
    pub is_answer : r.answer ≡ some text
    pub is_trust : r.trust_state ≡ some trust
    pub escalates : trust ≡ escalate → r.status ≡ AgentStatus.escalated
    pub completes : trust ≢ escalate → r.status ≡ AgentStatus.completed
    pub all_named : AllNamed text r.citations

  -- Without an answer, the status claims none.
  abbrev pub Grounded : AgentRunResult → Type 0
  Grounded r = ((r.answer ≡ none) × (answers r.status ≡ false)) ⊎ Answered r

  pub record Lawful (budget : AgentBudget) (r : AgentRunResult) : Type 0 where
    pub is_run : Run r.state_trace (state_of r.status)
    pub tools_in_plan : r.tool_calls ≤ budget.max_tool_calls
    pub tools_in_iterations : r.tool_calls ≤ budget.max_iterations
    pub calls_in_budget : r.llm_calls ≤ budget.max_llm_calls
    pub two_calls : r.llm_calls ≤ 2
    pub grounded : Grounded r
