-- ===== src/Agent/Orchestrator/Returns.antt =====
-- Every run returns, in the machine and within its budgets.
use parcelpilot_ops_copilot.Prelude.{
  ℕ, ◌+◌, ◌≤◌, ◌≡◌, inl, inr, refl, String, false, not, ◌&&◌, ltb, leb, Option, none, some, List,
  [], ◌∷◌, ◌++◌, map, arith, Bool-cases, length,
}
use parcelpilot_ops_copilot.Models.{AuthContext, Database, Instant}
use parcelpilot_ops_copilot.Result.{ok}
use parcelpilot_ops_copilot.TrustGate.{enforce_trust_gate}
use parcelpilot_ops_copilot.Agent.Entities.{EntityResolution, nonempty, needs_clarification}
use parcelpilot_ops_copilot.Agent.Entities.Visible.{resolve_entities-AllShown}
use parcelpilot_ops_copilot.Agent.Intent.{
  Intent, Scope, resolve_intent, needs_account_clarification,
}
use parcelpilot_ops_copilot.Agent.Planner.{PlanStep, build_plan}
use parcelpilot_ops_copilot.Agent.Results.{ToolResult}
use parcelpilot_ops_copilot.Agent.Registry.Normalized.{execute_tool-attempts}
use parcelpilot_ops_copilot.Agent.Evidence.{EvidencePack, build_evidence_pack}
use parcelpilot_ops_copilot.Agent.Sufficiency.{is_document_evidence_sufficient}
use parcelpilot_ops_copilot.Agent.Budget.{AgentBudget}
use parcelpilot_ops_copilot.Agent.State.{AgentState, AgentRunResult, TraceEntry}
use parcelpilot_ops_copilot.Agent.Orchestrator.{
  Runtime, Investigation, weigh, carry_out, after_tools, after_intent, after_entities, run_agent,
  has_evidence, is_unsupported,
}
use parcelpilot_ops_copilot.Agent.Orchestrator.Tools.{
  ToolPhase, stopped, ran, run_steps, step_result, is_denied, trace_entry,
}
use parcelpilot_ops_copilot.Agent.Orchestrator.Machine
use parcelpilot_ops_copilot.Agent.Orchestrator.Lawful.{spend-Lawful, Counted}

length-concat : {A : Type 0} (xs : List A) (x : A) → length (xs ++ x ∷ []) ≡ length xs + 1
length-concat [] x = refl
length-concat (y ∷ xs) x = let k = length-concat xs x in omega arith

abbrev results_of : ToolPhase → List ToolResult
results_of (stopped reason results entries) = results
results_of (ran results entries) = results

module _ (rt : Runtime) (budget : AgentBudget) (model : String) (conn : Database)
    (auth : AuthContext) (now : Instant) where
  -- However the loop ends, one result stands for each step that ran, and each took an iteration.
  run_steps-le :
      (index iterations : ℕ) (results : List ToolResult) (entries : List TraceEntry)
      (steps : List PlanStep)
      → length results ≤ iterations
      → length results ≤ budget.max_iterations
      → let all = results_of (
          run_steps rt.services rt.clock budget conn auth now index iterations results entries
            steps) in
        (length all ≤ length results + length steps) × (length all ≤ budget.max_iterations)
  unfolding run_steps
  run_steps-le index iterations results entries [] h k = (omega arith, k)
  run_steps-le index iterations results entries (step ∷ steps) h k =
      let result = step_result rt.services rt.clock budget conn auth now index step in
      let one =
        execute_tool-attempts rt.services (rt.clock.latency index) conn auth now step.tool
          step.args in
      let more = length-concat results result in
      elim (Bool-cases (ltb budget.max_wall_clock (rt.clock.elapsed index))) [
        | inl e ↦ rw e (omega arith, k)
        | inr e ↦ elim (Bool-cases (leb budget.max_iterations iterations)) [
          | inl f ↦ rw e (rw f (omega arith, k))
          | inr f ↦
              let left : length results + 1 ≤ budget.max_iterations = ground arith in
              elim (Bool-cases (not result.success && is_denied result.error_type)) [
                | inl g ↦ rw e (rw f (rw g (omega arith, omega arith)))
                | inr g ↦
                    let ih =
                      run_steps-le (index + 1) (iterations + result.attempts)
                        (results ++ result ∷ []) (entries ++ trace_entry step result ∷ []) steps
                        (omega arith) (omega arith) in
                    rw e (rw f (rw g (let a = ih.0 in let b = ih.1 in (omega arith, b))))
              ]
        ]
      ]

  abbrev Law : AgentRunResult → Type 0
  Law = Machine.Lawful rt.markers budget

  weigh-Lawful :
      (question : String) (intent : Intent) (planned : List String) (results : List ToolResult)
      (entries : List TraceEntry) (pack : EvidencePack) {trace : List AgentState}
      → length results ≤ budget.max_tool_calls
      → length results ≤ budget.max_iterations
      → Machine.Run trace AgentState.domain_evaluated
      → Law (weigh rt budget model question intent planned results entries pack trace)
  unfolding weigh
  weigh-Lawful question intent planned results entries pack h k run =
      elim (Bool-cases (has_evidence rt budget model pack)) [
        | inr e ↦ rw e (record {
          is_run = Machine.Run.next run Machine.Step.lack;
          tools_in_plan = h;
          tools_in_iterations = k;
          calls_in_budget = omega arith;
          two_calls = omega arith;
          grounded = inl (refl, refl);
        })
        | inl e ↦
            let weak =
              not (nonempty pack.domain_results)
              && not (
                  is_document_evidence_sufficient rt.words rt.texts.lower question
                    pack.document_evidence) in
            elim (Bool-cases weak) [
              | inl f ↦ rw e (
                  rw f (record {
                    is_run = Machine.Run.next run Machine.Step.lack;
                    tools_in_plan = h;
                    tools_in_iterations = k;
                    calls_in_budget = omega arith;
                    two_calls = omega arith;
                    grounded = inl (refl, refl);
                  }))
              | inr f ↦
                  let i : Investigation = record {
                    intent = intent;
                    planned_tools = planned;
                    tool_results = results;
                    tool_trace = entries;
                    pack = pack;
                    trust_state =
                        enforce_trust_gate pack.domain_trust_states
                          (nonempty pack.document_evidence);
                  } in
                  let counted : Counted rt budget model i = record {
                    in_plan = h;
                    in_iterations = k;
                  } in
                  rw e (
                    rw f (
                      spend-Lawful rt budget model i counted
                        (Machine.Run.next run Machine.Step.trust)))
            ]
      ]

  module _ (question : String) where
    after_tools-Lawful :
        (intent : Intent) (entities : EntityResolution) (planned : List String)
        {trace : List AgentState} (phase : ToolPhase)
        → length (results_of phase) ≤ budget.max_tool_calls
        → length (results_of phase) ≤ budget.max_iterations
        → Machine.Run trace AgentState.tool_executing
        → Law
            (after_tools rt budget model conn auth now question intent entities planned trace phase)
    after_tools-Lawful intent entities planned (stopped reason results entries) h k run = record {
      is_run = Machine.Run.next run Machine.Step.stop_tools;
      tools_in_plan = h;
      tools_in_iterations = k;
      calls_in_budget = omega arith;
      two_calls = omega arith;
      grounded = inl (refl, refl);
    }
    after_tools-Lawful intent entities planned (ran results entries) h k run =
        weigh-Lawful question intent planned results entries
          (build_evidence_pack question intent entities results) h k
          (Machine.Run.next (Machine.Run.next run Machine.Step.gather) Machine.Step.evaluate)

    -- The ends before any tool.
    early :
        {r : AgentRunResult}
        → Machine.Run r.state_trace (Machine.state_of r.status)
        → r.tool_calls ≡ 0
        → r.llm_calls ≡ 0
        → r.answer ≡ none
        → Machine.answers r.status ≡ false
        → Law r
    early run no_tools no_calls no_answer quiet = record {
      is_run = run;
      tools_in_plan = omega arith;
      tools_in_iterations = omega arith;
      calls_in_budget = omega arith;
      two_calls = omega arith;
      grounded = inl (no_answer, quiet);
    }

    carry_out-Lawful :
        (intent : Intent) (entities : EntityResolution) (steps : List PlanStep)
        {trace : List AgentState}
        → Machine.Run trace AgentState.plan_created
        → Law (carry_out rt budget model conn auth now question intent entities steps trace)
    unfolding carry_out
    carry_out-Lawful intent entities steps run = elim (Bool-cases (nonempty steps)) [
      | inr e ↦ rw e (early (Machine.Run.next run Machine.Step.find_nothing) refl refl refl refl)
      | inl e ↦ elim (Bool-cases (ltb budget.max_tool_calls (length steps))) [
        | inl f ↦
            rw e
              (rw f (early (Machine.Run.next run Machine.Step.plan_too_long) refl refl refl refl))
        | inr f ↦
            let bound = run_steps-le 0 0 [] [] steps (omega arith) (omega arith) in
            let fits : length steps ≤ budget.max_tool_calls = ground arith in
            rw e (
              rw f (
                after_tools-Lawful intent entities (map (λ s. s.tool) steps)
                  (run_steps rt.services rt.clock budget conn auth now 0 0 [] [] steps)
                  (let b = bound.0 in omega arith) bound.1
                  (Machine.Run.next run Machine.Step.execute)))
      ]
    ]

    after_intent-Lawful :
        (intent : Intent) (entities : EntityResolution) {trace : List AgentState} (o : Option Scope)
        → Machine.Run trace AgentState.intent_resolved
        → Law (after_intent rt budget model conn auth now question intent entities trace o)
    after_intent-Lawful intent entities (some scope) run =
        early (Machine.Run.next run Machine.Step.ask_account) refl refl refl refl
    after_intent-Lawful intent entities none run =
        elim (Bool-cases (is_unsupported rt budget model conn auth now question intent)) [
          | inl e ↦ rw e (early (Machine.Run.next run Machine.Step.refuse) refl refl refl refl)
          | inr e ↦ rw e (
              carry_out-Lawful intent entities (build_plan question intent entities).steps
                (Machine.Run.next run Machine.Step.plan))
        ]

    after_entities-Lawful :
        (entities : EntityResolution) {trace : List AgentState}
        → Machine.Run trace AgentState.entities_resolved
        → Law (after_entities rt budget model conn auth now question entities trace)
    unfolding after_entities
    after_entities-Lawful entities run = elim (Bool-cases (needs_clarification entities)) [
      | inl e ↦ rw e (early (Machine.Run.next run Machine.Step.ask_which) refl refl refl refl)
      | inr e ↦
          let intent = resolve_intent rt.matches rt.is_blank question entities in
          rw e (
            after_intent-Lawful intent entities
              (needs_account_clarification rt.matches rt.is_blank question entities auth)
              (Machine.Run.next run Machine.Step.intend))
    ]

    pub run_agent-Lawful :
        (r : AgentRunResult) × (run_agent rt budget model conn auth now question ≡ ok r) × Law r
    unfolding run_agent
    run_agent-Lawful =
        let (entities, e, shown) = resolve_entities-AllShown conn auth rt.texts question in
        let begin =
          Machine.Run.next (Machine.Run.next Machine.Run.start Machine.Step.validate)
            Machine.Step.resolve in
        (
          after_entities rt budget model conn auth now question entities (
              AgentState.request_received ∷ AgentState.auth_validated ∷ AgentState.entities_resolved
              ∷ []),
          rw e refl,
          after_entities-Lawful entities begin,
        )
