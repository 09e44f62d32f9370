-- ===== src/Examples/Runs.antt =====
-- The workflow of actions, on the example database.
use parcelpilot_ops_copilot.Prelude.{
  ◌≡◌, ◌≤◌, ◌*◌, ℕ, String, refl, sym, some, List, [], ◌∷◌, arith,
}
use mathlib.Core.Path.{subst}
use parcelpilot_ops_copilot.Prelude.Sort.{sort_by}
use parcelpilot_ops_copilot.Models.{ActionRecord, Database, hour, is_active_at}
use parcelpilot_ops_copilot.Result.{ok}
use parcelpilot_ops_copilot.Repository.{get_account, get_ticket, get_source}
use parcelpilot_ops_copilot.Policy.{agreement_overrides, default_source, resolve_applicability}
use parcelpilot_ops_copilot.Domain.Severity.{classify_severity, hits_for}
use parcelpilot_ops_copilot.Domain.Sla.{lookup_sla_target, calculate_sla}
use parcelpilot_ops_copilot.Actions.Models.{ActionOutcome, success_with}
use parcelpilot_ops_copilot.Actions.Store.{get_action, insert_action, save_action_if_status}
use parcelpilot_ops_copilot.Actions.Workflow.{
  confirm, execute, confirm_plan, execute_plan, finish, confirm_action, execute_action,
  prepare_escalation,
}
use parcelpilot_ops_copilot.Actions.Rows.{IsKeyed}
use parcelpilot_ops_copilot.Actions.Prepare.{Prepared, prepare_escalation-Prepared}
use parcelpilot_ops_copilot.Actions.Confirm.{Confirmable}
use parcelpilot_ops_copilot.Actions.Success.{
  Moved, Confirms, confirm_action_confirms, confirm_action_only,
}
use parcelpilot_ops_copilot.Actions.Idempotent.{execute_action_twice}
use parcelpilot_ops_copilot.Actions.Race.{Request, run_schedule, fresh_threads}
use parcelpilot_ops_copilot.Actions.Race.Audit.{Lifecycle, IsAudited, IsSound, Extends}
use parcelpilot_ops_copilot.Actions.Race.Schedules.{run_schedule-IsAudited, run_schedule-Extends}
use parcelpilot_ops_copilot.Actions.Race.Once.{confirmations, run_schedule-confirmed_once}
use parcelpilot_ops_copilot.Examples.Scenario.{
  northstar_agent, outage, pending_row, store, store_of, digest, one_pattern, value_or,
}

keyed : IsKeyed store.actions
unfolding get_action
keyed = (refl, tt)

confirmable :
    Confirmable store "ACT-1" "TKT-1escalated" northstar_agent (8 * hour) "asha" pending_row
unfolding get_action get_ticket
confirmable = record {
  stored = refl;
  pending = refl;
  in_time = omega arith;
  same_user = refl;
  same_payload = refl;
  ticket = outage;
  reachable = refl;
  unchanged = refl;
}

confirm_action_confirms_example :
    (conn' : Database) × (confirm_action store "ACT-1" "TKT-1escalated" northstar_agent
        (8 * hour)
        "asha"
      ≡ ok (conn', success_with (confirm pending_row (8 * hour))))
    × Moved store conn' "ACT-1" (confirm pending_row (8 * hour))
confirm_action_confirms_example =
    confirm_action_confirms store "ACT-1" "TKT-1escalated" northstar_agent (8 * hour) "asha"
      pending_row keyed confirmable

confirm_action_only_example :
    Confirms store "ACT-1" "TKT-1escalated" northstar_agent
      (8 * hour)
      "asha"
      (store_of (confirm pending_row (8 * hour) ∷ []))
      (success_with (confirm pending_row (8 * hour)))
unfolding confirm_action confirm_plan get_action get_ticket finish save_action_if_status
confirm_action_only_example =
    confirm_action_only store "ACT-1" "TKT-1escalated" northstar_agent (8 * hour) "asha"
      (store_of (confirm pending_row (8 * hour) ∷ []))
      (success_with (confirm pending_row (8 * hour))) refl refl

abbrev agreed_row : ActionRecord
agreed_row = confirm pending_row (8 * hour)

IsKeyed-agreed : IsKeyed (agreed_row ∷ [])
unfolding get_action
IsKeyed-agreed = (refl, tt)

execute_action_twice_example :
    execute_action (store_of (execute agreed_row (9 * hour) ∷ [])) "ACT-1" (10 * hour)
    ≡ ok (
      store_of (execute agreed_row (9 * hour) ∷ []),
      success_with (execute agreed_row (9 * hour)),
    )
unfolding execute_action finish execute_plan get_action save_action_if_status
execute_action_twice_example =
    execute_action_twice (store_of (agreed_row ∷ []))
      (store_of (execute agreed_row (9 * hour) ∷ [])) "ACT-1" (9 * hour) (10 * hour)
      (success_with (execute agreed_row (9 * hour))) IsKeyed-agreed refl refl

abbrev escalation : Database × ActionOutcome
escalation =
    value_or (store, success_with pending_row)
      (prepare_escalation digest store "TKT-1" "deadline passed" (12 * hour) "asha" "REQ-2"
        "0123456789ab" one_pattern northstar_agent agreement_overrides default_source)

prepare_escalation-Prepared_example :
    Prepared digest store "TKT-1" "deadline passed"
      (12 * hour)
      "asha"
      "REQ-2"
      "0123456789ab"
      one_pattern
      northstar_agent
      agreement_overrides
      default_source
      escalation.0
      escalation.1
unfolding prepare_escalation get_ticket calculate_sla get_account classify_severity sort_by hits_for
    resolve_applicability get_source is_active_at lookup_sla_target insert_action
prepare_escalation-Prepared_example =
    prepare_escalation-Prepared digest store "TKT-1" "deadline passed" (12 * hour) "asha" "REQ-2"
      "0123456789ab" one_pattern northstar_agent agreement_overrides default_source escalation.0
      escalation.1 refl

pending_row_only :
    (id : String) (row : ActionRecord) → get_action store.actions id ≡ some row → row ≡ pending_row
unfolding get_action
pending_row_only id row h = ground arith

audited : IsAudited digest store.actions
audited = record {
  keyed = keyed;
  sound = λ id row h. subst (IsSound digest) (sym (pending_row_only id row h)) (record {
    window = refl;
    key = refl;
    payload = refl;
    life = Lifecycle.waiting refl refl refl;
  });
}

-- Two confirmations that both read before either writes, and an execution in between.
abbrev requests : List Request
requests =
    Request.confirm_request "ACT-1" "TKT-1escalated" northstar_agent (8 * hour) "asha"
    ∷ Request.confirm_request "ACT-1" "TKT-1escalated" northstar_agent (8 * hour) "asha"
    ∷ Request.execute_request "ACT-1" (8 * hour)
    ∷ []

abbrev schedule : List ℕ
schedule = 0 ∷ 1 ∷ 1 ∷ 2 ∷ 0 ∷ 2 ∷ []

run_schedule-IsAudited_example :
    IsAudited digest
      (run_schedule digest one_pattern agreement_overrides default_source schedule store
        (fresh_threads requests)).0.actions
run_schedule-IsAudited_example =
    run_schedule-IsAudited digest one_pattern agreement_overrides default_source store requests
      schedule audited

run_schedule-Extends_example :
    Extends store.actions
      (run_schedule digest one_pattern agreement_overrides default_source schedule store
        (fresh_threads requests)).0.actions
run_schedule-Extends_example =
    run_schedule-Extends digest one_pattern agreement_overrides default_source store requests
      schedule audited

run_schedule-confirmed_once_example :
    confirmations "ACT-1"
      (run_schedule digest one_pattern agreement_overrides default_source schedule store
        (fresh_threads requests)).1
    ≤ 1
run_schedule-confirmed_once_example =
    run_schedule-confirmed_once digest one_pattern agreement_overrides default_source store requests
      schedule "ACT-1" audited
