-- ===== src/Routes/Chat.antt =====
-- app/api/routes/chat.py: the route over run_agent. The log line and the ids for tracing are left out.
use parcelpilot_ops_copilot.Prelude.{String, ◌≡◌, refl}
use parcelpilot_ops_copilot.Models.{Database, Instant}
use parcelpilot_ops_copilot.Result.{ok, ◌>>=◌}
use parcelpilot_ops_copilot.Routes.{DemoUser, to_auth_context, Response, responds, response_of}
use parcelpilot_ops_copilot.Agent.Budget.{default_budget}
use parcelpilot_ops_copilot.Agent.State.{AgentRunResult}
use parcelpilot_ops_copilot.Agent.Orchestrator.{Runtime, run_agent}
use parcelpilot_ops_copilot.Agent.Orchestrator.Promises.{run_agent-Run}

record ChatResponse : Type 0 where
  run_result : AgentRunResult
  viewed_as : DemoUser
  dataset_snapshot : Instant

module _ (rt : Runtime) (conn : Database) (now : Instant) where
  unfoldable chat : String → String → DemoUser → Response ChatResponse
  chat model question user = response_of (
      run_agent rt default_budget model conn (to_auth_context user) now question >>= λ r.
      ok (record { run_result = r; viewed_as = user; dataset_snapshot = now }))

  -- Every question over HTTP gets a response, with the result of a run in the scope of the user who
  -- asks; no exception reaches the error handlers.
  chat-responds :
      (model question : String) (user : DemoUser)
      → (r : AgentRunResult) × (run_agent rt default_budget model conn
            (to_auth_context user)
            now
            question
          ≡ ok r)
        × (chat model question user
            ≡ responds (record { run_result = r; viewed_as = user; dataset_snapshot = now }))
  unfolding chat
  chat-responds model question user =
      let (r, e, run) =
        run_agent-Run rt default_budget model conn (to_auth_context user) now question in
      (r, e, rw e refl)
