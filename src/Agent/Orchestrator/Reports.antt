-- ===== src/Agent/Orchestrator/Reports.antt =====
-- The findings of a run of app/agent/orchestrator.py, and the stages from the composition on.
use parcelpilot_ops_copilot.Prelude.{
  ℕ, ◌+◌, ◌≡◌, inl, inr, refl, sym, ◌∙◌, ap, String, true, ltb, Option, none, some, List, [], ◌∷◌,
  ◌++◌, Bool-cases, length, is_some,
}
use mathlib.Core.Bool.{false≢true}
use parcelpilot_ops_copilot.Llm.{LlmResponse, Answer, returned, total_cost}
use parcelpilot_ops_copilot.Agent.Entities.{nonempty}
use parcelpilot_ops_copilot.Agent.Budget.{
  AgentBudget, BudgetFailure, check_context_budget, check_cost_budget, estimate_worst_case_cost_usd,
}
use parcelpilot_ops_copilot.Agent.Composer.{
  request_of, render_user_prompt, render_repair_prompt, estimate_prompt_tokens,
}
use parcelpilot_ops_copilot.Agent.State.{AgentState, AgentRunResult}
use parcelpilot_ops_copilot.Agent.Orchestrator.{
  Runtime, Investigation, after_repair, check_answer, after_compose, unless_over, spend, conclude,
  final_status, unsupported_markers,
}

-- Two results with the same findings: all that does not word the answer, and, where both answer,
-- what they answer with.
pub record SameFindings (r s : AgentRunResult) : Type 0 where
  pub intent : r.intent ≡ s.intent
  pub tool_trace : r.tool_trace ≡ s.tool_trace
  pub tool_calls : r.tool_calls ≡ s.tool_calls
  pub trust_state : r.trust_state ≡ s.trust_state
  pub both_answer :
      is_some r.answer ≡ true
      → is_some s.answer ≡ true
      → (r.status ≡ s.status)
        × (r.citations ≡ s.citations)
        × (r.conflicts ≡ s.conflicts)
        × (r.assumptions ≡ s.assumptions)
        × (r.needs_human_review ≡ s.needs_human_review)

-- The findings of an investigation, in its result.
pub record Reports (i : Investigation) (r : AgentRunResult) : Type 0 where
  intent : r.intent ≡ some i.intent
  tool_trace : r.tool_trace ≡ i.tool_trace
  tool_calls : r.tool_calls ≡ length i.tool_results
  trust_state : r.trust_state ≡ some i.trust_state
  answers :
      is_some r.answer ≡ true
      → (r.status ≡ final_status i.trust_state)
        × (r.citations ≡ i.pack.citations)
        × (r.conflicts ≡ i.pack.conflicts)
        × (r.assumptions ≡ i.pack.assumptions)
        × (r.needs_human_review ≡ i.pack.needs_human_review)

pub same-Reports :
    {i : Investigation} {r s : AgentRunResult} → Reports i r → Reports i s → SameFindings r s
same-Reports p q = record {
  intent = p.intent ∙ sym q.intent;
  tool_trace = p.tool_trace ∙ sym q.tool_trace;
  tool_calls = p.tool_calls ∙ sym q.tool_calls;
  trust_state = p.trust_state ∙ sym q.trust_state;
  both_answer = λ h k.
      let (a, b, c, d, e) = p.answers h in
      let (a', b', c', d', e') = q.answers k in
      (a ∙ sym a', b ∙ sym b', c ∙ sym c', d ∙ sym d', e ∙ sym e');
}

pub same : (r : AgentRunResult) → SameFindings r r
same r = record {
  intent = refl;
  tool_trace = refl;
  tool_calls = refl;
  trust_state = refl;
  both_answer = λ h k. (refl, refl, refl, refl, refl);
}

-- An end without an answer reports its investigation.
silent :
    {i : Investigation} {r : AgentRunResult}
    → r.intent ≡ some i.intent
    → r.tool_trace ≡ i.tool_trace
    → r.tool_calls ≡ length i.tool_results
    → r.trust_state ≡ some i.trust_state
    → r.answer ≡ none
    → Reports i r
silent a b c d e = record {
  intent = a;
  tool_trace = b;
  tool_calls = c;
  trust_state = d;
  answers = λ h. absurd (false≢true (ap is_some (sym e) ∙ h));
}

concluded :
    (i : Investigation) (text : String) (calls cost : ℕ) (trace : List AgentState)
    → Reports i (conclude i text calls cost trace)
concluded i text calls cost trace = record {
  intent = refl;
  tool_trace = refl;
  tool_calls = refl;
  trust_state = refl;
  answers = λ h. (refl, refl, refl, refl, refl);
}

module _ (rt : Runtime) (budget : AgentBudget) (model : String) where
  after_repair-Reports :
      (i : Investigation) (cost : ℕ) (trace : List AgentState) (answer : Answer LlmResponse)
      → Reports i (after_repair rt budget model i cost trace answer)
  after_repair-Reports i cost trace (Answer.failed exc) = silent refl refl refl refl refl
  after_repair-Reports i cost trace (returned response) =
      elim (Bool-cases (nonempty (unsupported_markers rt budget model response.content i.pack))) [
        | inl e ↦ rw e (silent refl refl refl refl refl)
        | inr e ↦ rw e (concluded i response.content 2 (cost + total_cost response.cost) trace)
      ]

  check_answer-Reports :
      (i : Investigation) (response : LlmResponse) (trace : List AgentState)
      → Reports i (check_answer rt budget model i response trace)
  unfolding check_answer
  check_answer-Reports i response trace =
      let invalid = unsupported_markers rt budget model response.content i.pack in
      let prompt =
        render_repair_prompt rt.services.decimal i.pack i.trust_state response.content invalid in
      elim (Bool-cases (nonempty invalid)) [
        | inr e ↦ rw e (concluded i response.content 1 (total_cost response.cost) trace)
        | inl e ↦ elim (Bool-cases (ltb budget.max_llm_calls 2)) [
          | inl t ↦ rw e (rw t (silent refl refl refl refl refl))
          | inr t ↦ rw e (
              rw t (
                after_repair-Reports i (total_cost response.cost) trace
                  (rt.provider 1 (request_of prompt model budget.max_output_tokens))))
        ]
      ]

  after_compose-Reports :
      (i : Investigation) (trace : List AgentState) (answer : Answer LlmResponse)
      → Reports i (after_compose rt budget model i trace answer)
  after_compose-Reports i trace (Answer.failed exc) = silent refl refl refl refl refl
  after_compose-Reports i trace (returned response) =
      check_answer-Reports i response (trace ++ AgentState.response_composed ∷ [])

  unless_over-Reports :
      (i : Investigation) (trace : List AgentState) (o : Option BudgetFailure) {r : AgentRunResult}
      → Reports i r
      → Reports i (unless_over rt budget model i trace o r)
  unless_over-Reports i trace none h = h
  unless_over-Reports i trace (some failure) h = silent refl refl refl refl refl

  pub spend-Reports :
      (i : Investigation) (trace : List AgentState) → Reports i (spend rt budget model i trace)
  unfolding spend
  spend-Reports i trace =
      let tokens = estimate_prompt_tokens rt.services.decimal rt.word_count i.pack i.trust_state in
      let cost = estimate_worst_case_cost_usd model tokens budget.max_output_tokens in
      let prompt = render_user_prompt rt.services.decimal i.pack i.trust_state in
      elim (Bool-cases (ltb budget.max_llm_calls 1)) [
        | inl e ↦ rw e (silent refl refl refl refl refl)
        | inr e ↦ rw e (
            unless_over-Reports i trace (check_context_budget tokens budget) (
              unless_over-Reports i trace (check_cost_budget cost budget) (
                after_compose-Reports i trace
                  (rt.provider 0 (request_of prompt model budget.max_output_tokens)))))
      ]
