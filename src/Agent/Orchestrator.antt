-- ===== src/Agent/Orchestrator.antt =====
-- app/agent/orchestrator.py: run_agent, stage by stage. Each stage takes the trace of the states before it.
mod Ends
pub mod Tools
pub mod Machine
pub mod Lawful
pub mod Returns
pub mod Promises
pub mod Reports
pub mod Independent
pub mod Authorized
pub use Ends.*
use parcelpilot_ops_copilot.Prelude.{
  ℕ, ◌+◌, String, Bool, true, false, not, ◌&&◌, ltb, leb, Option, none, some, List, [], ◌∷◌, ◌++◌,
  map, length, if◌then◌else◌,
}
use parcelpilot_ops_copilot.Models.{AuthContext, Database, Instant, TrustState, escalate}
use parcelpilot_ops_copilot.Result.{Result, ok, ◌>>=◌}
use parcelpilot_ops_copilot.TrustGate.{enforce_trust_gate}
use parcelpilot_ops_copilot.Llm.{
  LlmRequest, LlmResponse, ProviderError, Answer, returned, total_cost,
}
use parcelpilot_ops_copilot.Agent.Entities.{
  EntityResolution, Texts, resolve_entities, needs_clarification, nonempty,
}
use parcelpilot_ops_copilot.Agent.Intent.{
  Intent, Pattern, Scope, resolve_intent, needs_account_clarification,
}
use parcelpilot_ops_copilot.Agent.Planner.{PlanStep, build_plan}
use parcelpilot_ops_copilot.Agent.Tools.{Services}
use parcelpilot_ops_copilot.Agent.Results.{ToolResult}
use parcelpilot_ops_copilot.Agent.Evidence.{EvidencePack, build_evidence_pack, invalid_markers}
use parcelpilot_ops_copilot.Agent.Sufficiency.{is_document_evidence_sufficient}
use parcelpilot_ops_copilot.Agent.Budget.{
  AgentBudget, BudgetFailure, check_context_budget, check_cost_budget, estimate_worst_case_cost_usd,
}
use parcelpilot_ops_copilot.Agent.Composer.{
  PromptText, request_of, render_user_prompt, render_repair_prompt, estimate_prompt_tokens,
}
use parcelpilot_ops_copilot.Agent.State.{
  AgentState, AgentStatus, RunReason, TraceEntry, AgentRunResult, terminal,
}
use parcelpilot_ops_copilot.Agent.Orchestrator.Tools.{Clock, ToolPhase, stopped, ran, run_steps}

module _ (rt : Runtime) (budget : AgentBudget) (model : String) where
  abbrev pub unsupported_markers : String → EvidencePack → List String
  unsupported_markers text pack = invalid_markers rt.services.decimal rt.markers text pack

  -- After the repair call, whose cost is added to that of the first.
  abbrev pub after_repair :
      Investigation → ℕ → List AgentState → Answer LlmResponse → AgentRunResult
  after_repair i cost trace (Answer.failed exc) =
      with_evidence i 1 cost (
        terminal AgentStatus.failed (RunReason.repair_failed exc) (trace ++ AgentState.failed ∷ []))
  after_repair i cost trace (returned response) =
      let total = cost + total_cost response.cost in
      if nonempty (unsupported_markers response.content i.pack)
      then with_evidence i 2 total (
          terminal AgentStatus.evidence_validation_failed
            (RunReason.still_unsupported (unsupported_markers response.content i.pack))
            (trace ++ AgentState.evidence_validation_failed ∷ []))
      else conclude i response.content 2 total trace

  -- From the check of the first answer's citations on.
  unfoldable pub check_answer : Investigation → LlmResponse → List AgentState → AgentRunResult
  check_answer i response trace =
      let invalid = unsupported_markers response.content i.pack in
      let cost = total_cost response.cost in
      if not (nonempty invalid)
      then conclude i response.content 1 cost trace
      else if ltb budget.max_llm_calls 2
      then with_evidence i 1 cost (
          terminal AgentStatus.evidence_validation_failed (RunReason.no_repair_available invalid)
            (trace ++ AgentState.evidence_validation_failed ∷ []))
      else after_repair i cost trace (
          rt.provider 1 (
            request_of
              (render_repair_prompt rt.services.decimal i.pack i.trust_state response.content
                invalid)
              model budget.max_output_tokens))

  abbrev pub after_compose : Investigation → List AgentState → Answer LlmResponse → AgentRunResult
  after_compose i trace (Answer.failed exc) =
      failed_with_trust i (RunReason.composition_failed exc) trace
  after_compose i trace (returned response) =
      check_answer i response (trace ++ AgentState.response_composed ∷ [])

  abbrev pub compose : Investigation → List AgentState → AgentRunResult
  compose i trace = after_compose i trace (
      rt.provider 0 (
        request_of (render_user_prompt rt.services.decimal i.pack i.trust_state) model
          budget.max_output_tokens))

  -- `if failure: return _terminal(...)`
  abbrev pub unless_over :
      Investigation → List AgentState → Option BudgetFailure → AgentRunResult → AgentRunResult
  unless_over i trace none continue = continue
  unless_over i trace (some failure) continue =
      failed_with_trust i (RunReason.over_budget failure) trace

  -- The budgets of the answer, before it is composed.
  unfoldable pub spend : Investigation → List AgentState → AgentRunResult
  unfolding check_answer
  spend i trace =
      let context_tokens =
        estimate_prompt_tokens rt.services.decimal rt.word_count i.pack i.trust_state in
      if ltb budget.max_llm_calls 1
      then failed_with_trust i RunReason.llm_budget_exhausted trace
      else unless_over i trace (check_context_budget context_tokens budget) (
          unless_over i trace
            (check_cost_budget
              (estimate_worst_case_cost_usd model context_tokens budget.max_output_tokens) budget)
            (compose i trace))

  abbrev pub has_evidence : EvidencePack → Bool
  has_evidence pack = not (
      not (nonempty pack.citations)
      && not (nonempty pack.document_evidence)
      && not (nonempty pack.domain_results))

  -- The tests of the pack, and the trust gate.
  unfoldable pub weigh :
      String
      → Intent
      → List String
      → List ToolResult
      → List TraceEntry
      → EvidencePack
      → List AgentState
      → AgentRunResult
  unfolding spend
  weigh question intent planned results entries pack trace =
      if not (has_evidence pack)
      then record (with_tools intent results entries (
          terminal AgentStatus.insufficient_evidence RunReason.no_evidence
            (trace ++ AgentState.insufficient_evidence ∷ []))) { planned_tools = planned }
      else if not (nonempty pack.domain_results)
          && not (
              is_document_evidence_sufficient rt.words rt.texts.lower question
                pack.document_evidence)
      then record (with_tools intent results entries (
          terminal AgentStatus.insufficient_evidence RunReason.documents_insufficient
            (trace ++ AgentState.insufficient_evidence ∷ []))) { planned_tools = planned }
      else spend
          (record {
            intent = intent;
            planned_tools = planned;
            tool_results = results;
            tool_trace = entries;
            pack = pack;
            trust_state =
                enforce_trust_gate pack.domain_trust_states (nonempty pack.document_evidence);
          })
          (trace ++ AgentState.trust_evaluated ∷ [])

  module _ (conn : Database) (auth : AuthContext) (now : Instant) (question : String) where
    abbrev pub after_tools :
        Intent → EntityResolution → List String → List AgentState → ToolPhase → AgentRunResult
    after_tools intent entities planned trace (stopped reason results entries) =
        with_tools intent results entries
          (terminal AgentStatus.failed reason (trace ++ AgentState.failed ∷ []))
    after_tools intent entities planned trace (ran results entries) =
        weigh question intent planned results entries
          (build_evidence_pack question intent entities results)
          ((trace ++ AgentState.evidence_validated ∷ []) ++ AgentState.domain_evaluated ∷ [])

    -- From the plan on.
    unfoldable pub carry_out :
        Intent → EntityResolution → List PlanStep → List AgentState → AgentRunResult
    unfolding weigh
    carry_out intent entities steps trace =
        if not (nonempty steps)
        then record (terminal AgentStatus.insufficient_evidence RunReason.nothing_to_investigate
            (trace ++ AgentState.insufficient_evidence ∷ [])) { intent = some intent }
        else if ltb budget.max_tool_calls (length steps)
        then record (terminal AgentStatus.failed
            (RunReason.plan_exceeds_budget (length steps) budget.max_tool_calls)
            (trace ++ AgentState.failed ∷ [])) { intent = some intent }
        else after_tools intent entities (map (λ s. s.tool) steps)
            (trace ++ AgentState.tool_executing ∷ [])
            (run_steps rt.services rt.clock budget conn auth now 0 0 [] [] steps)

    abbrev pub is_unsupported : Intent → Bool
    is_unsupported Intent.unsupported = true
    is_unsupported _ = false

    -- From the intent on, with what needs_account_clarification says.
    abbrev pub after_intent :
        Intent → EntityResolution → List AgentState → Option Scope → AgentRunResult
    after_intent intent entities trace (some scope) =
        record (terminal AgentStatus.needs_clarification (RunReason.account_needed scope)
          (trace ++ AgentState.needs_clarification ∷ [])) { intent = some intent }
    after_intent intent entities trace none =
        if is_unsupported intent
        then record (terminal AgentStatus.insufficient_evidence RunReason.empty_or_unsupported
            (trace ++ AgentState.insufficient_evidence ∷ [])) { intent = some intent }
        else carry_out intent entities (build_plan question intent entities).steps
            (trace ++ AgentState.plan_created ∷ [])

    unfoldable pub after_entities : EntityResolution → List AgentState → AgentRunResult
    unfolding carry_out
    after_entities entities trace =
        if needs_clarification entities
        then terminal AgentStatus.needs_clarification
            (RunReason.multiple_accounts entities.ambiguous_account_names)
            (trace ++ AgentState.needs_clarification ∷ [])
        else after_intent (resolve_intent rt.matches rt.is_blank question entities) entities
            (trace ++ AgentState.intent_resolved ∷ [])
            (needs_account_clarification rt.matches rt.is_blank question entities auth)

    unfoldable pub run_agent : Result AgentRunResult
    unfolding after_entities
    run_agent = do
      entities ← resolve_entities rt.texts conn auth question
      ok (
          after_entities entities (
            AgentState.request_received ∷ AgentState.auth_validated ∷ AgentState.entities_resolved
            ∷ []))
