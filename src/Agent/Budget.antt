-- ===== src/Agent/Budget.antt =====
-- app/agent/budgets.py and app/agent/budget_enforcement.py. Costs are in units of 1/1,000,000 dollar,
-- and the wall clock in microseconds.
use parcelpilot_ops_copilot.Prelude.{ℕ, String, Option, none, some, ltb, leb, if◌then◌else◌}
use parcelpilot_ops_copilot.Llm.{CostEstimate, total_cost}
use parcelpilot_ops_copilot.Llm.Pricing.{estimate_cost}

pub record AgentBudget : Type 0 where
  pub max_iterations : ℕ
  pub max_tool_calls : ℕ
  pub max_llm_calls : ℕ
  pub max_context_tokens : ℕ
  pub max_output_tokens : ℕ
  pub max_wall_clock : ℕ
  pub max_estimated_cost : ℕ

abbrev pub default_budget : AgentBudget
default_budget = record {
  max_iterations = 6;
  max_tool_calls = 6;
  max_llm_calls = 2;
  max_context_tokens = 8000;
  max_output_tokens = 1024;
  max_wall_clock = 30000000;
  max_estimated_cost = 500000;
}

-- What a check prints of the amount and of the budget that it exceeds.
pub data BudgetFailure : Type 0 where
  context_over cost_over : ℕ → ℕ → BudgetFailure

-- `max(1, len(text.split()))`, of the number of words
abbrev pub approx_tokens : ℕ → ℕ
approx_tokens words = if leb 1 words then words else 1

abbrev total_of : Option CostEstimate → Option ℕ
total_of none = none
total_of (some cost) = some (total_cost cost)

abbrev pub estimate_worst_case_cost_usd : String → ℕ → ℕ → Option ℕ
estimate_worst_case_cost_usd model input_tokens max_output_tokens =
    total_of (estimate_cost model input_tokens max_output_tokens)

abbrev pub check_context_budget : ℕ → AgentBudget → Option BudgetFailure
check_context_budget context_tokens budget =
    if ltb budget.max_context_tokens context_tokens
    then some (context_over context_tokens budget.max_context_tokens)
    else none

abbrev pub check_cost_budget : Option ℕ → AgentBudget → Option BudgetFailure
check_cost_budget none budget = none
check_cost_budget (some estimated_cost) budget =
    if ltb budget.max_estimated_cost estimated_cost
    then some (cost_over estimated_cost budget.max_estimated_cost)
    else none
