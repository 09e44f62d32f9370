-- ===== src/Agent/Orchestrator/Tools.antt =====
-- The loop of run_agent over the steps of the plan.
use parcelpilot_ops_copilot.Prelude.{
  ℕ, ◌+◌, Bool, false, not, ◌&&◌, ltb, leb, Option, none, some, List, [], ◌∷◌, ◌++◌, if◌then◌else◌,
}
use parcelpilot_ops_copilot.Models.{AuthContext, Database, Instant}
use parcelpilot_ops_copilot.Agent.Planner.{PlanStep}
use parcelpilot_ops_copilot.Agent.Tools.{Services}
use parcelpilot_ops_copilot.Agent.Results.{
  ToolResult, ToolErrorType, same_error_type, not_authorized,
}
use parcelpilot_ops_copilot.Agent.Registry.{execute_tool}
use parcelpilot_ops_copilot.Agent.Budget.{AgentBudget}
use parcelpilot_ops_copilot.Agent.State.{
  RunReason, TraceEntry, wall_clock_exceeded, iterations_exceeded, tool_not_authorized,
}

-- The time since the start of the run at the test before a step, and how long an attempt of the
-- step's call takes; steps are counted from 0 and attempts from 1.
pub record Clock : Type 0 where
  pub elapsed : ℕ → ℕ
  pub latency : ℕ → ℕ → ℕ

-- How the loop ends: by a return, or after the last step.
pub data ToolPhase : Type 0 where
  stopped : RunReason → List ToolResult → List TraceEntry → ToolPhase
  ran : List ToolResult → List TraceEntry → ToolPhase

abbrev pub is_denied : Option ToolErrorType → Bool
is_denied none = false
is_denied (some error_type) = same_error_type error_type not_authorized

abbrev pub trace_entry : PlanStep → ToolResult → TraceEntry
trace_entry step result = record {
  tool = step.tool;
  purpose = step.purpose;
  success = result.success;
  error_type = result.error_type;
}

module _ (services : Services) (clock : Clock) (budget : AgentBudget) (conn : Database)
    (auth : AuthContext) (now : Instant) where
  abbrev pub step_result : ℕ → PlanStep → ToolResult
  step_result index step =
      execute_tool services (clock.latency index) conn auth now step.tool step.args

  -- `index` counts the steps before this one, and the lists hold their results and entries.
  unfoldable pub run_steps : ℕ → ℕ → List ToolResult → List TraceEntry → List PlanStep → ToolPhase
  run_steps index iterations results entries [] = ran results entries
  run_steps index iterations results entries (step ∷ steps) =
      let result : ToolResult = step_result index step in
      let tool_results : List ToolResult = results ++ result ∷ [] in
      let tool_trace : List TraceEntry = entries ++ trace_entry step result ∷ [] in
      let rest =
        run_steps (index + 1) (iterations + result.attempts) tool_results tool_trace steps in
      if ltb budget.max_wall_clock (clock.elapsed index)
      then stopped wall_clock_exceeded results entries
      else if leb budget.max_iterations iterations
      then stopped (iterations_exceeded budget.max_iterations) results entries
      else if not result.success && is_denied result.error_type
      then stopped tool_not_authorized tool_results tool_trace
      else rest
