-- ===== src/Agent/Orchestrator/Authorized.antt =====
-- The loop of run_agent over a plan for resolved entities never meets a denied tool call.
use parcelpilot_ops_copilot.Prelude.{
  ℕ, ◌+◌, ◌≡◌, refl, String, Bool, true, false, Option, none, some, List, [], ◌∷◌, ◌++◌, arith,
}
use parcelpilot_ops_copilot.Models.{AuthContext, Database, Instant}
use parcelpilot_ops_copilot.Result.{Result, ok, raise}
use parcelpilot_ops_copilot.Documents.{search_documents}
use parcelpilot_ops_copilot.Domain.Permitted.{
  Permitted, calculate_sla-Permitted, evaluate_cancellation-Permitted,
  evaluate_service_credit-Permitted,
}
use parcelpilot_ops_copilot.Agent.Entities.{EntityResolution, Texts, resolve_entities}
use parcelpilot_ops_copilot.Agent.Intent.{Intent}
use parcelpilot_ops_copilot.Agent.Requests.{
  ToolRequest, search_request, lookup_request, calculation_request, detection_request, LookupKind,
  CalculationType, SearchDocumentsRequest, LookupStructuredDataRequest,
}
use parcelpilot_ops_copilot.Agent.Planner.{PlanStep, build_plan}
use parcelpilot_ops_copilot.Agent.Planner.Executable.{
  AllSteps, Ready, IsVisible, LooksUp, Calculates, build_plan-Ready,
}
use parcelpilot_ops_copilot.Agent.Tools.{
  Services, search_documents_tool, lookup_structured_data_tool, calculate_support_outcome_tool,
  lookup_records, outcome_of,
}
use parcelpilot_ops_copilot.Agent.Results.{ToolResult}
use parcelpilot_ops_copilot.Agent.Registry.{
  dispatch, classify, attempt_result, attempts_from, execute_tool,
}
use parcelpilot_ops_copilot.Agent.Registry.Normalized.{not_retryable}
use parcelpilot_ops_copilot.Agent.Budget.{AgentBudget}
use parcelpilot_ops_copilot.Agent.State.{TraceEntry, RunReason}
use parcelpilot_ops_copilot.Agent.Orchestrator.Tools.{
  Clock, ToolPhase, stopped, run_steps, step_result, is_denied, trace_entry,
}

abbrev pub stops_at_denial : ToolPhase → Bool
stops_at_denial (stopped RunReason.tool_not_authorized results entries) = true
stops_at_denial _ = false

module _ (services : Services) (conn : Database) (auth : AuthContext) (now : Instant) where
  search-Permitted :
      (r : SearchDocumentsRequest) → Permitted (search_documents_tool services conn auth now r)
  unfolding search_documents_tool search_documents
  search-Permitted r = ground arith

  lookup-Permitted :
      (r : LookupStructuredDataRequest) (kind : LookupKind) (id : Option String)
      → r.entity_id ≡ id
      → LooksUp conn auth kind id
      → Permitted (lookup_records services conn auth now r kind)
  lookup-Permitted r LookupKind.get_account_kind (some id) e (row, h) = rw e (rw h refl)
  lookup-Permitted r LookupKind.get_order_kind (some id) e (row, h) = rw e (rw h refl)
  lookup-Permitted r LookupKind.get_ticket_kind (some id) e (row, h) = rw e (rw h refl)
  lookup-Permitted r LookupKind.get_account_kind none e h = absurd h
  lookup-Permitted r LookupKind.get_order_kind none e h = absurd h
  lookup-Permitted r LookupKind.get_ticket_kind none e h = absurd h
  lookup-Permitted r LookupKind.search_orders_kind id e h = absurd h
  lookup-Permitted r LookupKind.search_tickets_kind id e h = absurd h

  outcome-Permitted :
      (kind : CalculationType) (id : String)
      → Calculates conn auth kind id
      → Permitted (outcome_of services conn auth now kind id)
  outcome-Permitted CalculationType.cancellation id (row, h) =
      let k =
        evaluate_cancellation-Permitted conn auth now services.overrides services.defaults
          services.fee_rules id row h in
      ground arith
  outcome-Permitted CalculationType.service_credit id (row, h) =
      let k =
        evaluate_service_credit-Permitted conn auth now services.overrides services.defaults
          services.credit_rules id row h in
      ground arith
  outcome-Permitted CalculationType.sla id (row, h) =
      let k =
        calculate_sla-Permitted conn auth now services.overrides services.defaults services.search
          id row h in
      ground arith
  outcome-Permitted CalculationType.severity id (row, h) = rw h refl

  dispatch-Permitted :
      (request : ToolRequest)
      → IsVisible conn auth request
      → Permitted (dispatch services conn auth now request)
  unfolding dispatch lookup_structured_data_tool calculate_support_outcome_tool
  dispatch-Permitted (search_request r) h = let k = search-Permitted r in ground arith
  dispatch-Permitted (lookup_request r) h =
      let k = lookup-Permitted r r.kind r.entity_id refl h in ground arith
  dispatch-Permitted (calculation_request r) h =
      let k = outcome-Permitted r.calculation_type r.entity_id h in ground arith
  dispatch-Permitted (detection_request r) h = absurd h

  attempt-authorized :
      (name : String) (limit : ℕ) (call : ℕ → Result _) (latency : ℕ → ℕ) (r : Result _)
      → Permitted r
      → is_denied (attempt_result name limit call latency 1 r).error_type ≡ false
  unfolding classify
  attempt-authorized name limit call latency (ok output) h = ground arith
  attempt-authorized name limit call latency (raise e) h = ground arith

  execute_tool-authorized :
      (latency : ℕ → ℕ) (step : PlanStep)
      → Ready conn auth step
      → is_denied (execute_tool services latency conn auth now step.tool step.args).error_type
        ≡ false
  unfolding execute_tool attempts_from
  execute_tool-authorized latency step h =
      let answer = dispatch services conn auth now h.request in
      rw h.registered (
        rw h.valid (
          rw (not_retryable step.tool h.tool h.registered) (
            attempt-authorized step.tool h.tool.timeout_limit (λ attempt. answer) latency answer
              (dispatch-Permitted h.request h.is_visible))))

  module _ (clock : Clock) (budget : AgentBudget) where
    run_steps-authorized :
        (index iterations : ℕ) (results : List ToolResult) (entries : List TraceEntry)
        (steps : List PlanStep)
        → AllSteps (Ready conn auth) steps
        → stops_at_denial
            (run_steps services clock budget conn auth now index iterations results entries steps)
          ≡ false
    unfolding run_steps
    run_steps-authorized index iterations results entries [] h = refl
    run_steps-authorized index iterations results entries (step ∷ steps) h =
        let result = step_result services clock budget conn auth now index step in
        let k = execute_tool-authorized (clock.latency index) step h.0 in
        let rest =
          run_steps-authorized (index + 1) (iterations + result.attempts) (results ++ result ∷ [])
            (entries ++ trace_entry step result ∷ []) steps h.1 in
        ground arith

    -- Whatever the question mentions, the loop over the plan for its resolved entities never stops
    -- at a denied tool call: entity resolution has dropped every id that the caller may not see
    -- before a plan step can name it.
    pub plan_authorized :
        (texts : Texts) (question : String) (intent : Intent) (e : EntityResolution)
        → resolve_entities texts conn auth question ≡ ok e
        → stops_at_denial (
            run_steps services clock budget conn auth now 0 0 [] []
              (build_plan question intent e).steps)
          ≡ false
    plan_authorized texts question intent e h =
        run_steps-authorized 0 0 [] [] (build_plan question intent e).steps
          (build_plan-Ready conn auth texts question intent e h)
