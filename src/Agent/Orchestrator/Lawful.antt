-- ===== src/Agent/Orchestrator/Lawful.antt =====
-- run_agent against the machine of its states, the budgets and its citations.
use parcelpilot_ops_copilot.Prelude.{
  ℕ, ◌+◌, ◌≤◌, ◌≢◌, ◌≡◌, inl, inr, refl, String, Bool, false, not, Option, none, some, List, [],
  ◌∷◌, ◌++◌, Has, Has-filter, arith, Bool-cases, filter, length, ltb,
}
use mathlib.Core.Path.{subst}
use parcelpilot_ops_copilot.Models.{TrustState}
use parcelpilot_ops_copilot.Llm.{LlmResponse, Answer, returned, total_cost}
use parcelpilot_ops_copilot.Agent.Entities.{nonempty}
use parcelpilot_ops_copilot.Agent.Evidence.Marked.{is_known-IsOf}
use parcelpilot_ops_copilot.Agent.Evidence.{EvidencePack, invalid_markers, is_known}
use parcelpilot_ops_copilot.Agent.Budget.{
  AgentBudget, BudgetFailure, check_context_budget, check_cost_budget, estimate_worst_case_cost_usd,
}
use parcelpilot_ops_copilot.Agent.Composer.{
  request_of, render_user_prompt, render_repair_prompt, estimate_prompt_tokens,
}
use parcelpilot_ops_copilot.Agent.State.{AgentStatus, AgentState, AgentRunResult, RunReason}
use parcelpilot_ops_copilot.Agent.Orchestrator.{
  Runtime, Investigation, conclude, final_state, final_status, failed_with_trust, after_repair,
  check_answer, after_compose, compose, unless_over, spend, unsupported_markers,
}
use parcelpilot_ops_copilot.Agent.Orchestrator.Machine

not_nonempty : {A : Type 0} (xs : List A) → nonempty xs ≡ false → xs ≡ []
not_nonempty [] h = refl
not_nonempty (x ∷ xs) h = absurd (ground arith)

-- A test that leaves nothing holds of no element.
filter-nil :
    {A : Type 0} (p : A → Bool) (xs : List A) → filter p xs ≡ [] → (a : A) → Has a xs → p a ≡ false
filter-nil p xs h a m = elim (Bool-cases (p a)) [
  | inl e ↦ absurd (subst (Has a) h ((Has-filter p a xs).1 (m, e)))
  | inr e ↦ e
]

final_status-escalate :
    (t : TrustState) → t ≡ TrustState.escalate → final_status t ≡ AgentStatus.escalated
final_status-escalate t e = rw e refl

final_status-other :
    (t : TrustState) → t ≢ TrustState.escalate → final_status t ≡ AgentStatus.completed
final_status-other TrustState.confident n = refl
final_status-other TrustState.conditional n = refl
final_status-other TrustState.uncertain n = refl
final_status-other TrustState.escalate n = absurd (n refl)

module _ (rt : Runtime) (budget : AgentBudget) (model : String) where
  -- The tools of an investigation are within the budget.
  pub record Counted (i : Investigation) : Type 0 where
    pub in_plan : length i.tool_results ≤ budget.max_tool_calls
    pub in_iterations : length i.tool_results ≤ budget.max_iterations

  abbrev Law : AgentRunResult → Type 0
  Law = Machine.Lawful rt.markers budget

  no_invalid :
      (text : String) (pack : EvidencePack)
      → nonempty (unsupported_markers rt budget model text pack) ≡ false
      → Machine.AllNamed rt.markers text pack.citations
  unfolding invalid_markers
  no_invalid text pack h marker m =
      let e = not_nonempty (unsupported_markers rt budget model text pack) h in
      is_known-IsOf rt.services.decimal pack.citations marker (
        ground (
          arith,
          filter-nil (λ mk. not (is_known rt.services.decimal pack.citations mk)) (rt.markers text)
              e marker m,
        ))

  final-Run :
      {trace : List AgentState} (t : TrustState)
      → Machine.Run trace AgentState.response_composed
      → Machine.Run (trace ++ final_state t ∷ []) (Machine.state_of (final_status t))
  final-Run TrustState.confident run = Machine.Run.next run Machine.Step.complete
  final-Run TrustState.conditional run = Machine.Run.next run Machine.Step.complete
  final-Run TrustState.uncertain run = Machine.Run.next run Machine.Step.complete
  final-Run TrustState.escalate run = Machine.Run.next run Machine.Step.hand_over

  conclude-Lawful :
      (i : Investigation) (text : String) (calls cost : ℕ) {trace : List AgentState}
      → Counted i
      → calls ≤ budget.max_llm_calls
      → calls ≤ 2
      → nonempty (unsupported_markers rt budget model text i.pack) ≡ false
      → Machine.Run trace AgentState.response_composed
      → Law (conclude i text calls cost trace)
  conclude-Lawful i text calls cost counted below two valid run = record {
    is_run = final-Run i.trust_state run;
    tools_in_plan = counted.in_plan;
    tools_in_iterations = counted.in_iterations;
    calls_in_budget = below;
    two_calls = two;
    grounded = inr (record {
      text = text;
      trust = i.trust_state;
      is_answer = refl;
      is_trust = refl;
      escalates = λ e. final_status-escalate i.trust_state e;
      completes = λ n. final_status-other i.trust_state n;
      all_named = no_invalid text i.pack valid;
    });
  }

  failed_with_trust-Lawful :
      (i : Investigation) (reason : RunReason) {trace : List AgentState}
      → Counted i
      → Machine.Run trace AgentState.trust_evaluated
      → Law (failed_with_trust i reason trace)
  failed_with_trust-Lawful i reason counted run = record {
    is_run = Machine.Run.next run Machine.Step.fail_to_answer;
    tools_in_plan = counted.in_plan;
    tools_in_iterations = counted.in_iterations;
    calls_in_budget = omega arith;
    two_calls = omega arith;
    grounded = inl (refl, refl);
  }

  after_repair-Lawful :
      (i : Investigation) (cost : ℕ) {trace : List AgentState} (answer : Answer LlmResponse)
      → Counted i
      → 2 ≤ budget.max_llm_calls
      → Machine.Run trace AgentState.response_composed
      → Law (after_repair rt budget model i cost trace answer)
  after_repair-Lawful i cost (Answer.failed exc) counted below run = record {
    is_run = Machine.Run.next run Machine.Step.fail_to_repair;
    tools_in_plan = counted.in_plan;
    tools_in_iterations = counted.in_iterations;
    calls_in_budget = omega arith;
    two_calls = omega arith;
    grounded = inl (refl, refl);
  }
  after_repair-Lawful i cost (returned response) counted below run =
      elim (Bool-cases (nonempty (unsupported_markers rt budget model response.content i.pack))) [
        | inl e ↦ rw e (record {
          is_run = Machine.Run.next run Machine.Step.reject;
          tools_in_plan = counted.in_plan;
          tools_in_iterations = counted.in_iterations;
          calls_in_budget = below;
          two_calls = omega arith;
          grounded = inl (refl, refl);
        })
        | inr e ↦ rw e (
            conclude-Lawful i response.content 2 (cost + total_cost response.cost) counted below
              (omega arith) e run)
      ]

  check_answer-Lawful :
      (i : Investigation) (response : LlmResponse) {trace : List AgentState}
      → Counted i
      → 1 ≤ budget.max_llm_calls
      → Machine.Run trace AgentState.response_composed
      → Law (check_answer rt budget model i response trace)
  unfolding check_answer
  check_answer-Lawful i response counted below run =
      elim (Bool-cases (nonempty (unsupported_markers rt budget model response.content i.pack))) [
        | inr e ↦ rw e (
            conclude-Lawful i response.content 1 (total_cost response.cost) counted below
              (omega arith) e run)
        | inl e ↦ elim (Bool-cases (ltb budget.max_llm_calls 2)) [
          | inl t ↦ rw e (
              rw t (record {
                is_run = Machine.Run.next run Machine.Step.reject;
                tools_in_plan = counted.in_plan;
                tools_in_iterations = counted.in_iterations;
                calls_in_budget = below;
                two_calls = omega arith;
                grounded = inl (refl, refl);
              }))
          | inr t ↦ rw e (
              rw t (
                let invalid = unsupported_markers rt budget model response.content i.pack in
                let prompt =
                  render_repair_prompt rt.services.decimal i.pack i.trust_state response.content
                    invalid in
                after_repair-Lawful i (total_cost response.cost)
                  (rt.provider 1 (request_of prompt model budget.max_output_tokens)) counted
                  (ground arith) run))
        ]
      ]

  after_compose-Lawful :
      (i : Investigation) {trace : List AgentState} (answer : Answer LlmResponse)
      → Counted i
      → 1 ≤ budget.max_llm_calls
      → Machine.Run trace AgentState.trust_evaluated
      → Law (after_compose rt budget model i trace answer)
  after_compose-Lawful i (Answer.failed exc) counted below run =
      failed_with_trust-Lawful i (RunReason.composition_failed exc) counted run
  after_compose-Lawful i (returned response) counted below run =
      check_answer-Lawful i response counted below (Machine.Run.next run Machine.Step.answer)

  unless_over-Lawful :
      (i : Investigation) {trace : List AgentState} (o : Option BudgetFailure) {r : AgentRunResult}
      → Counted i
      → Machine.Run trace AgentState.trust_evaluated
      → Law r
      → Law (unless_over rt budget model i trace o r)
  unless_over-Lawful i none counted run h = h
  unless_over-Lawful i (some failure) counted run h =
      failed_with_trust-Lawful i (RunReason.over_budget failure) counted run

  compose-Lawful :
      (i : Investigation) {trace : List AgentState}
      → Counted i
      → 1 ≤ budget.max_llm_calls
      → Machine.Run trace AgentState.trust_evaluated
      → Law (compose rt budget model i trace)
  compose-Lawful i counted below run =
      let prompt = render_user_prompt rt.services.decimal i.pack i.trust_state in
      after_compose-Lawful i (rt.provider 0 (request_of prompt model budget.max_output_tokens))
        counted below run

  pub spend-Lawful :
      (i : Investigation) {trace : List AgentState}
      → Counted i
      → Machine.Run trace AgentState.trust_evaluated
      → Law (spend rt budget model i trace)
  unfolding spend
  spend-Lawful i counted run = elim (Bool-cases (ltb budget.max_llm_calls 1)) [
    | inl e ↦ rw e (failed_with_trust-Lawful i RunReason.llm_budget_exhausted counted run)
    | inr e ↦
        let tokens =
          estimate_prompt_tokens rt.services.decimal rt.word_count i.pack i.trust_state in
        let cost = estimate_worst_case_cost_usd model tokens budget.max_output_tokens in
        rw e (
          unless_over-Lawful i (check_context_budget tokens budget) counted run (
            unless_over-Lawful i (check_cost_budget cost budget) counted run
              (compose-Lawful i counted (ground arith) run)))
  ]
