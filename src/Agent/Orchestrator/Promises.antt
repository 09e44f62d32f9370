-- ===== src/Agent/Orchestrator/Promises.antt =====
-- What each run of run_agent promises: its trace, its budgets and its answer.
use parcelpilot_ops_copilot.Prelude.{◌≤◌, ◌≡◌, ◌∙◌, sym, String}
use mathlib.Core.Path.{subst}
use parcelpilot_ops_copilot.Models.{AuthContext, Database, Instant}
use parcelpilot_ops_copilot.Result.{ok, ok-injective}
use parcelpilot_ops_copilot.Agent.Budget.{AgentBudget}
use parcelpilot_ops_copilot.Agent.State.{AgentRunResult}
use parcelpilot_ops_copilot.Agent.Orchestrator.{Runtime, run_agent}
use parcelpilot_ops_copilot.Agent.Orchestrator.Machine
use parcelpilot_ops_copilot.Agent.Orchestrator.Returns.{run_agent-Lawful}

module _ (rt : Runtime) (budget : AgentBudget) (model : String) (conn : Database)
    (auth : AuthContext) (now : Instant) (question : String) where
  -- Every run returns a result, whatever the tools and the provider raise, and its trace is a run
  -- of the state machine from REQUEST_RECEIVED to the one state in which its status ends.
  pub run_agent-Run :
      (r : AgentRunResult) × (run_agent rt budget model conn auth now question ≡ ok r)
      × Machine.Run r.state_trace (Machine.state_of r.status)
  run_agent-Run =
      let (r, e, law) = run_agent-Lawful rt budget model conn auth now question in
      (r, e, law.is_run)

  Lawful-run :
      (r : AgentRunResult)
      → run_agent rt budget model conn auth now question ≡ ok r
      → Machine.Lawful rt.markers budget r
  Lawful-run r h =
      let (s, e, law) = run_agent-Lawful rt budget model conn auth now question in
      subst (Machine.Lawful rt.markers budget) (ok-injective (sym e ∙ h)) law

  -- A run makes no more tool calls than its budgets of tool calls and of iterations allow, and
  -- reports no more calls of the language model than its budget, and never more than two.
  pub run_agent_within_budget :
      (r : AgentRunResult)
      → run_agent rt budget model conn auth now question ≡ ok r
      → (r.tool_calls ≤ budget.max_tool_calls)
        × (r.tool_calls ≤ budget.max_iterations)
        × (r.llm_calls ≤ budget.max_llm_calls)
        × (r.llm_calls ≤ 2)
  run_agent_within_budget r h =
      let law = Lawful-run r h in
      (law.tools_in_plan, law.tools_in_iterations, law.calls_in_budget, law.two_calls)

  -- A run that shows an answer has checked it: every citation marker in the text is the source of
  -- one of the citations of the result, alone or with a colon and anything after it; the trust
  -- state is there, and the status is ESCALATED or COMPLETED as the trust state says. A run without
  -- an answer has a status that claims none.
  pub run_agent-Grounded :
      (r : AgentRunResult)
      → run_agent rt budget model conn auth now question ≡ ok r
      → Machine.Grounded rt.markers r
  run_agent-Grounded r h = (Lawful-run r h).grounded
