-- ===== src/Examples/Agent.antt =====
-- The agent's parts, run on the example database.
use parcelpilot_ops_copilot.Domain.Evidence.{cite_document, cite_structured}
use parcelpilot_ops_copilot.Domain.Outcomes.{conflicts_of, trust_from}
use parcelpilot_ops_copilot.Models.{is_active_at}
use parcelpilot_ops_copilot.Repository.{get_source}
use parcelpilot_ops_copilot.Policy.{resolve_applicability}
use parcelpilot_ops_copilot.Llm.Pricing.{estimate_cost}
use parcelpilot_ops_copilot.Agent.Composer.{
  estimate_prompt_tokens, render_user_prompt, render_evidence_blocks,
}
use parcelpilot_ops_copilot.TrustGate.{enforce_trust_gate}
use parcelpilot_ops_copilot.Agent.Evidence.{deduped, invalid_markers}
use parcelpilot_ops_copilot.Agent.Sufficiency.{is_document_evidence_sufficient}
use parcelpilot_ops_copilot.Agent.Intent.{resolve_intent, needs_account_clarification}
use parcelpilot_ops_copilot.Domain.Cancellation.{evaluate_cancellation, apply_fee_rule}
use parcelpilot_ops_copilot.Agent.Tools.{
  lookup_structured_data_tool, calculate_support_outcome_tool,
}
use parcelpilot_ops_copilot.Agent.Requests.{lookup_model, calculation_model, search_model}
use parcelpilot_ops_copilot.Agent.Registry.{attempts_from, dispatch, classify, is_safe}
use parcelpilot_ops_copilot.Agent.Orchestrator.{
  after_entities, carry_out, weigh, spend, check_answer,
}
use parcelpilot_ops_copilot.Agent.Composer.{PromptText}
use parcelpilot_ops_copilot.Documents.{search_documents}
use parcelpilot_ops_copilot.Repository.{get_order}
use parcelpilot_ops_copilot.Prelude.Sort.{sort_by, insert_by}
use parcelpilot_ops_copilot.Prelude.{
  ℕ, ◌≡◌, ◌≤◌, refl, String, Bool, true, false, none, some, [], ◌∷◌, ◌*◌,
}
use parcelpilot_ops_copilot.Prelude.Int.{negsuc}
use parcelpilot_ops_copilot.Models.{hour}
use parcelpilot_ops_copilot.Result.{ok}
use parcelpilot_ops_copilot.Policy.{agreement_overrides, default_source}
use parcelpilot_ops_copilot.Domain.Cancellation.{default_fee_rules}
use parcelpilot_ops_copilot.Domain.ServiceCredit.{default_credit_rules}
use parcelpilot_ops_copilot.Llm.{LlmRequest, LlmResponse, Answer, returned}
use parcelpilot_ops_copilot.Agent.Entities.{
  EntityResolution, Texts, no_entities, resolve_entities, resolve_names,
}
use parcelpilot_ops_copilot.Agent.Intent.{Intent, Pattern, cancellation_words, instance_signals}
use parcelpilot_ops_copilot.Agent.Planner.{build_plan}
use parcelpilot_ops_copilot.Agent.Planner.Executable.{AllSteps, Ready, build_plan-Ready}
use parcelpilot_ops_copilot.Agent.Tools.{Services, search_documents_tool}
use parcelpilot_ops_copilot.Agent.Registry.{execute_tool}
use parcelpilot_ops_copilot.Agent.Evidence.{build_evidence_pack}
use parcelpilot_ops_copilot.Agent.Budget.{default_budget}
use parcelpilot_ops_copilot.Agent.State.{AgentStatus, AgentRunResult, RunReason, terminal}
use parcelpilot_ops_copilot.Agent.Orchestrator.{Runtime, run_agent}
use parcelpilot_ops_copilot.Agent.Orchestrator.Machine
use parcelpilot_ops_copilot.Agent.Orchestrator.Promises.{
  run_agent-Run, run_agent_within_budget, run_agent-Grounded,
}
use parcelpilot_ops_copilot.Agent.Orchestrator.Reports.{SameFindings}
use parcelpilot_ops_copilot.Agent.Orchestrator.Independent.{other, run_agent-SameFindings}
use parcelpilot_ops_copilot.Agent.Orchestrator.Tools.{run_steps}
use parcelpilot_ops_copilot.Agent.Orchestrator.Authorized.{stops_at_denial, plan_authorized}
use parcelpilot_ops_copilot.Examples.Scenario.{northstar_agent, store, one_pattern, value_or}

abbrev pub services : Services
services = record {
  search = one_pattern;
  tokens_of = λ query. "cancel" ∷ [];
  fts = λ terms chunk. some (negsuc 2999999, "cancel");
  sha16 = λ text. text;
  decimal = λ n. "1";
  issue_texts = record {
    ki_ids = λ text. [];
    words = λ text. [];
    lower = λ text. text;
    within = λ part text. false;
    like = λ text. false;
  };
  overrides = agreement_overrides;
  defaults = default_source;
  fee_rules = default_fee_rules;
  credit_rules = default_credit_rules;
}

abbrev cancels : Pattern → String → Bool
cancels cancellation_words question = true
cancels instance_signals question = true
cancels _ question = false

abbrev texts : Texts
texts = record {
  id_tokens = λ question. "ORD-1" ∷ [];
  upper = λ text. text;
  lower = λ text. text;
  within = λ part text. false;
}

abbrev response : LlmResponse
response = record {
  content = "It can be cancelled [SRC-07].";
  provider = "mock";
  model = "mock-model";
  usage = record { input_tokens = 9; output_tokens = 5 };
  cost = record { input_cost = 0; output_cost = 0 };
  prompt_version = none;
  finish_reason = none;
  retries = 0;
}

abbrev pub runtime : Runtime
runtime = record {
  services = services;
  clock = record { elapsed = λ step. 0; latency = λ step attempt. 1000 };
  texts = texts;
  matches = cancels;
  is_blank = λ question. false;
  words = λ text. [];
  markers = λ text. "SRC-07" ∷ [];
  word_count = λ prompt. 100;
  provider = λ n request. returned response;
}

abbrev no_result : AgentRunResult
no_result = terminal AgentStatus.failed RunReason.no_evidence []

abbrev pub question : String
question = "Can ORD-1 be cancelled?"

abbrev pub run_result : AgentRunResult
run_result =
    value_or no_result
      (run_agent runtime default_budget "mock-model" store northstar_agent (8 * hour) question)

run_agent-Run_example :
    (r : AgentRunResult) × (run_agent runtime default_budget "mock-model" store northstar_agent
        (8 * hour)
        question
      ≡ ok r)
    × Machine.Run r.state_trace (Machine.state_of r.status)
run_agent-Run_example =
    run_agent-Run runtime default_budget "mock-model" store northstar_agent (8 * hour) question

run_agent_within_budget_example :
    (run_result.tool_calls ≤ 6)
    × (run_result.tool_calls ≤ 6)
    × (run_result.llm_calls ≤ 2)
    × (run_result.llm_calls ≤ 2)
unfolding run_agent resolve_entities get_order
run_agent_within_budget_example =
    run_agent_within_budget runtime default_budget "mock-model" store northstar_agent (8 * hour)
      question run_result refl

run_agent-Grounded_example : Machine.Grounded runtime.markers run_result
unfolding run_agent resolve_entities get_order
run_agent-Grounded_example =
    run_agent-Grounded runtime default_budget "mock-model" store northstar_agent (8 * hour) question
      run_result refl

-- A provider that is never available.
abbrev unavailable : ℕ → LlmRequest PromptText → Answer LlmResponse
unavailable n request =
    Answer.failed (record { type_name = "RateLimitError"; message = "overloaded" })

abbrev failed_result : AgentRunResult
failed_result = value_or no_result (
    run_agent (other runtime unavailable default_budget "mock-model") default_budget "mock-model"
      store northstar_agent (8 * hour) question)

run_agent-SameFindings_example : SameFindings run_result failed_result
unfolding run_agent resolve_entities get_order
run_agent-SameFindings_example =
    run_agent-SameFindings runtime unavailable default_budget "mock-model" store northstar_agent
      (8 * hour) question run_result failed_result refl refl

abbrev pub entities : EntityResolution
entities = record no_entities { order_ids = "ORD-1" ∷ [] }

build_plan-Ready_example :
    AllSteps (Ready store northstar_agent) (build_plan question Intent.cancellation entities).steps
unfolding resolve_entities get_order resolve_names
build_plan-Ready_example =
    build_plan-Ready store northstar_agent texts question Intent.cancellation entities refl

plan_authorized_example :
    stops_at_denial (
      run_steps services runtime.clock default_budget store northstar_agent
        (8 * hour)
        0
        0
        []
        []
        (build_plan question Intent.cancellation entities).steps)
    ≡ false
unfolding resolve_entities get_order resolve_names
plan_authorized_example =
    plan_authorized services store northstar_agent (8 * hour) runtime.clock default_budget texts
      question Intent.cancellation entities refl

-- The run of the example ends with an answer.
run_result_completes :
    (run_result.status ≡ AgentStatus.completed)
    × (run_result.llm_calls ≡ 1)
    × (run_result.tool_calls ≡ 3)
unfolding run_agent resolve_entities get_order resolve_names after_entities carry_out run_steps
    execute_tool attempts_from dispatch lookup_structured_data_tool calculate_support_outcome_tool
    search_documents_tool search_documents evaluate_cancellation resolve_intent build_plan weigh
    spend check_answer is_document_evidence_sufficient needs_account_clarification
    build_evidence_pack deduped enforce_trust_gate lookup_model calculation_model search_model
    invalid_markers estimate_prompt_tokens estimate_cost resolve_applicability get_source
    is_active_at apply_fee_rule render_user_prompt conflicts_of cite_document cite_structured
    sort_by insert_by trust_from render_evidence_blocks classify is_safe
run_result_completes = (refl, refl, refl)
