-- ===== src/Agent/Orchestrator/Independent.antt =====
-- Two runs of app/agent/orchestrator.py that differ in the provider alone.
use parcelpilot_ops_copilot.Prelude.{
  ℕ, ◌≡◌, inl, inr, refl, sym, ◌∙◌, String, not, ◌&&◌, ltb, Option, none, some, List, [], ◌∷◌, ◌++◌,
  map, Bool-cases, length,
}
use mathlib.Core.Path.{subst}
use parcelpilot_ops_copilot.Models.{AuthContext, Database, Instant}
use parcelpilot_ops_copilot.Result.{ok, ok-injective}
use parcelpilot_ops_copilot.TrustGate.{enforce_trust_gate}
use parcelpilot_ops_copilot.Llm.{LlmRequest, LlmResponse, Answer}
use parcelpilot_ops_copilot.Agent.Entities.{EntityResolution, nonempty, needs_clarification}
use parcelpilot_ops_copilot.Agent.Entities.Visible.{resolve_entities-AllShown}
use parcelpilot_ops_copilot.Agent.Intent.{
  Intent, Scope, resolve_intent, needs_account_clarification,
}
use parcelpilot_ops_copilot.Agent.Planner.{PlanStep, build_plan}
use parcelpilot_ops_copilot.Agent.Results.{ToolResult}
use parcelpilot_ops_copilot.Agent.Evidence.{EvidencePack, build_evidence_pack}
use parcelpilot_ops_copilot.Agent.Sufficiency.{is_document_evidence_sufficient}
use parcelpilot_ops_copilot.Agent.Budget.{AgentBudget}
use parcelpilot_ops_copilot.Agent.Composer.{PromptText}
use parcelpilot_ops_copilot.Agent.State.{AgentState, AgentRunResult, TraceEntry}
use parcelpilot_ops_copilot.Agent.Orchestrator.{
  Runtime, Investigation, weigh, carry_out, after_tools, after_intent, after_entities, run_agent,
  has_evidence, is_unsupported,
}
use parcelpilot_ops_copilot.Agent.Orchestrator.Tools.{ToolPhase, stopped, ran, run_steps}
use parcelpilot_ops_copilot.Agent.Orchestrator.Reports.{
  SameFindings, same-Reports, same, spend-Reports,
}

module _ (rt : Runtime) (provider : ℕ → LlmRequest PromptText → Answer LlmResponse)
    (budget : AgentBudget) (model : String) where
  -- The same run with another provider.
  abbrev pub other : Runtime
  other = record rt { provider = provider }

  weigh-SameFindings :
      (question : String) (intent : Intent) (planned : List String) (results : List ToolResult)
      (entries : List TraceEntry) (pack : EvidencePack) (trace : List AgentState)
      → SameFindings
          (weigh rt budget model question intent planned results entries pack trace)
          (weigh other budget model question intent planned results entries pack trace)
  unfolding weigh
  weigh-SameFindings question intent planned results entries pack trace =
      let weak =
        not (nonempty pack.domain_results)
        && not (
            is_document_evidence_sufficient rt.words rt.texts.lower question
              pack.document_evidence) in
      elim (Bool-cases (has_evidence rt budget model pack)) [
        | inr e ↦ rw e (same _)
        | inl e ↦ elim (Bool-cases weak) [
          | inl f ↦ rw e (rw f (same _))
          | inr f ↦
              let i : Investigation = record {
                intent = intent;
                planned_tools = planned;
                tool_results = results;
                tool_trace = entries;
                pack = pack;
                trust_state =
                    enforce_trust_gate pack.domain_trust_states (nonempty pack.document_evidence);
              } in
              let after = trace ++ AgentState.trust_evaluated ∷ [] in
              rw e (
                rw f (
                  same-Reports (spend-Reports rt budget model i after)
                    (spend-Reports other budget model i after)))
        ]
      ]

  module _ (conn : Database) (auth : AuthContext) (now : Instant) (question : String) where
    after_tools-SameFindings :
        (intent : Intent) (entities : EntityResolution) (planned : List String)
        (trace : List AgentState) (phase : ToolPhase)
        → SameFindings
            (after_tools rt budget model conn auth now question intent entities planned trace phase)
            (after_tools other budget model conn auth now question intent entities planned trace
              phase)
    after_tools-SameFindings intent entities planned trace (stopped reason results entries) = same _
    after_tools-SameFindings intent entities planned trace (ran results entries) =
        weigh-SameFindings question intent planned results entries
          (build_evidence_pack question intent entities results) _

    carry_out-SameFindings :
        (intent : Intent) (entities : EntityResolution) (steps : List PlanStep)
        (trace : List AgentState)
        → SameFindings
            (carry_out rt budget model conn auth now question intent entities steps trace)
            (carry_out other budget model conn auth now question intent entities steps trace)
    unfolding carry_out
    carry_out-SameFindings intent entities steps trace = elim (Bool-cases (nonempty steps)) [
      | inr e ↦ rw e (same _)
      | inl e ↦ elim (Bool-cases (ltb budget.max_tool_calls (length steps))) [
        | inl f ↦ rw e (rw f (same _))
        | inr f ↦ rw e (
            rw f (
              after_tools-SameFindings intent entities (map (λ s. s.tool) steps)
                (trace ++ AgentState.tool_executing ∷ [])
                (run_steps rt.services rt.clock budget conn auth now 0 0 [] [] steps)))
      ]
    ]

    after_intent-SameFindings :
        (intent : Intent) (entities : EntityResolution) (trace : List AgentState) (o : Option Scope)
        → SameFindings
            (after_intent rt budget model conn auth now question intent entities trace o)
            (after_intent other budget model conn auth now question intent entities trace o)
    after_intent-SameFindings intent entities trace (some scope) = same _
    after_intent-SameFindings intent entities trace none =
        elim (Bool-cases (is_unsupported rt budget model conn auth now question intent)) [
          | inl e ↦ rw e (same _)
          | inr e ↦ rw e (
              carry_out-SameFindings intent entities (build_plan question intent entities).steps
                (trace ++ AgentState.plan_created ∷ []))
        ]

    after_entities-SameFindings :
        (entities : EntityResolution) (trace : List AgentState)
        → SameFindings
            (after_entities rt budget model conn auth now question entities trace)
            (after_entities other budget model conn auth now question entities trace)
    unfolding after_entities
    after_entities-SameFindings entities trace = elim (Bool-cases (needs_clarification entities)) [
      | inl e ↦ rw e (same _)
      | inr e ↦ rw e (
          after_intent-SameFindings (resolve_intent rt.matches rt.is_blank question entities)
            entities (trace ++ AgentState.intent_resolved ∷ [])
            (needs_account_clarification rt.matches rt.is_blank question entities auth))
    ]

    -- Two runs that differ in the language model alone have the same intent, tool calls, tool trace
    -- and trust state; and where both answer, the same status, citations, conflicts, assumptions
    -- and review flag.
    pub run_agent-SameFindings :
        (r s : AgentRunResult)
        → run_agent rt budget model conn auth now question ≡ ok r
        → run_agent other budget model conn auth now question ≡ ok s
        → SameFindings r s
    unfolding run_agent
    run_agent-SameFindings r s h k =
        let (entities, e, shown) = resolve_entities-AllShown conn auth rt.texts question in
        let trace =
          AgentState.request_received ∷ AgentState.auth_validated ∷ AgentState.entities_resolved
          ∷ [] in
        let result = after_entities rt budget model conn auth now question entities trace in
        let result' = after_entities other budget model conn auth now question entities trace in
        let first : run_agent rt budget model conn auth now question ≡ ok result = rw e refl in
        let second : run_agent other budget model conn auth now question ≡ ok result' = rw e refl in
        subst (λ x. SameFindings x s) (ok-injective (sym first ∙ h))
          (subst (λ y. SameFindings result y) (ok-injective (sym second ∙ k))
            (after_entities-SameFindings entities trace))
