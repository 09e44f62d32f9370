-- ===== src/Actions/Race.antt =====
-- Concurrent callers of app/actions/workflow.py. Each call of confirm_action or execute_action is a
-- thread of two steps, its reads and its conditional UPDATE, and any schedule may interleave the
-- threads. A proposal writes by one INSERT and is one step. The read that follows a lost UPDATE
-- writes nothing, and is taken in the step of the UPDATE.
pub mod Audit
pub mod Plans
pub mod Steps
pub mod Schedules
pub mod Chances
pub mod Once
use parcelpilot_ops_copilot.Prelude.{ℕ, zero, suc, String, Bool, List, [], ◌∷◌, map}
use parcelpilot_ops_copilot.Models.{AuthContext, Database, Instant}
use parcelpilot_ops_copilot.Result.{Result, ok, raise, Error}
use parcelpilot_ops_copilot.Policy.{AgreementOverride, Defaults}
use parcelpilot_ops_copilot.Actions.Models.{ActionOutcome}
use parcelpilot_ops_copilot.Actions.Workflow.{
  PayloadHash, Plan, prepare_escalation, confirm_plan, execute_plan, finish,
}

pub data Request : Type 0 where
  -- ticket_id, reason, now, user_id, request_id and the digits of the identifier
  prepare_request :
      (ticket_id reason : String) (now : Instant) (user_id request_id hex : String)
      (auth : AuthContext)
      → Request
  confirm_request :
      (action_id payload_hash : String) (auth : AuthContext) (now : Instant) (user_id : String)
      → Request
  execute_request : (action_id : String) (now : Instant) → Request

pub data Phase : Type 0 where
  start : Phase
  planned : Plan → Phase
  returned : ActionOutcome → Phase
  raised : Error → Phase

pub record Thread : Type 0 where
  pub request : Request
  pub phase : Phase

-- Calls of which none has begun.
abbrev pub fresh_threads : List Request → List Thread
fresh_threads = map (λ r. record { request = r; phase = start })

abbrev pub plan_phase : Result Plan → Phase
plan_phase (ok plan) = planned plan
plan_phase (raise e) = raised e

-- The database and the phase after a call that may write; an exception leaves the database.
abbrev pub write_phase : Database → Result (Database × ActionOutcome) → Database × Phase
write_phase conn (ok (conn', outcome)) = (conn', returned outcome)
write_phase conn (raise e) = (conn, raised e)

module _ (hash : PayloadHash) (search : String → String → Bool) (overrides : List AgreementOverride)
    (defaults : Defaults) where
  unfoldable pub begin : Database → Request → Database × Phase
  begin conn (prepare_request ticket_id reason now user_id request_id hex auth) = write_phase conn (
      prepare_escalation hash conn ticket_id reason now user_id request_id hex search auth overrides
        defaults)
  begin conn (confirm_request action_id payload_hash auth now user_id) =
      (conn, plan_phase (confirm_plan conn action_id payload_hash auth now user_id))
  begin conn (execute_request action_id now) = (conn, planned (execute_plan conn action_id now))

  unfoldable pub advance : Database → Request → Phase → Database × Phase
  unfolding begin
  advance conn request start = begin conn request
  advance conn request (planned plan) = write_phase conn (finish conn plan)
  advance conn request (returned outcome) = (conn, returned outcome)
  advance conn request (raised e) = (conn, raised e)

  -- The thread at a position takes its next step.
  unfoldable pub step_at : ℕ → Database → List Thread → Database × List Thread
  step_at n conn [] = (conn, [])
  step_at zero conn (t ∷ ts) =
      let (conn', phase) = advance conn t.request t.phase in
      (conn', record { request = t.request; phase = phase } ∷ ts)
  step_at (suc n) conn (t ∷ ts) = let (conn', ts') = step_at n conn ts in (conn', t ∷ ts')

  -- A schedule is the list of the positions that step.
  unfoldable pub run_schedule : List ℕ → Database → List Thread → Database × List Thread
  run_schedule [] conn ts = (conn, ts)
  run_schedule (n ∷ schedule) conn ts =
      let (conn', ts') = step_at n conn ts in run_schedule schedule conn' ts'
