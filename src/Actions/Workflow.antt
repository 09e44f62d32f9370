-- ===== src/Actions/Workflow.antt =====
-- app/actions/workflow.py. `search` is the regular-expression search, `hash` is the SHA-256 digest of
-- the sorted JSON of a payload, `hex` the twelve digits of a fresh uuid4; each is a parameter.
--
-- confirm_action and execute_action read the row, and write it by one conditional UPDATE at their
-- end. So each is a plan, made from what was read, and a finish, which runs the UPDATE.
use Prim.Native.String.{◌++◌ as append}
use parcelpilot_ops_copilot.Prelude.{
  ℕ, ◌+◌, ◌*◌, String, Bool, false, not, ◌&&◌, ◌==◌, Option, none, some, List, ◌∷◌, ltb,
  if◌then◌else◌,
}
use parcelpilot_ops_copilot.Models.{
  ActionType, prepare_escalation as escalation_type, ActionRecord, ActionStatus,
  pending_confirmation, confirmed, executed, expired, ProposedChange, open_ticket,
  same_ticket_status, same_action_status, Severity, p1, same_severity, AuthContext, Database,
  Ticket, Instant, minute, EvidenceRef,
}
use parcelpilot_ops_copilot.Result.{Result, ok, raise, Error, ◌>>=◌}
use parcelpilot_ops_copilot.Repository.{get_ticket}
use parcelpilot_ops_copilot.Policy.{AgreementOverride, Defaults}
use parcelpilot_ops_copilot.Domain.Outcomes.{DecisionResult}
use parcelpilot_ops_copilot.Domain.Evidence.{cite_structured}
use parcelpilot_ops_copilot.Domain.Sla.{SlaOutcome, calculate_sla}
use parcelpilot_ops_copilot.Actions.Models.{
  ActionOutcome, ErrorCode, Message, Verb, to_confirm, to_execute, failure, success_with,
}
use parcelpilot_ops_copilot.Actions.Store.{get_action, insert_action, save_action_if_status}

abbrev pub action_expiry_minutes : ℕ
action_expiry_minutes = 15

-- `_payload_hash`, over an abstract digest
abbrev pub PayloadHash : Type 0
PayloadHash = ActionType → String → ProposedChange → String

-- `except NotAuthorizedError` and `except UnknownEntityError` around get_ticket; any other
-- exception goes on.
abbrev pub caught : Option ActionRecord → ErrorCode → Error → Result ActionOutcome
caught row unknown_code (Error.not_authorized denial) =
    ok (failure row ErrorCode.not_authorized (Message.text_of_error (Error.not_authorized denial)))
caught row unknown_code (Error.unknown_entity kind id) =
    ok (failure row unknown_code (Message.text_of_error (Error.unknown_entity kind id)))
caught row unknown_code e = raise e

abbrev pub sla_severity : Option SlaOutcome → Option Severity
sla_severity none = none
sla_severity (some outcome) = some outcome.severity

-- `not breached` holds of False and of None.
abbrev pub truth : Option Bool → Bool
truth none = false
truth (some b) = b

abbrev pub sla_breached : Option SlaOutcome → Bool
sla_breached none = false
sla_breached (some outcome) = truth outcome.breached

module _ (hash : PayloadHash) (conn : Database) (ticket_id reason : String) (now : Instant)
    (user_id request_id hex : String) where
  abbrev pub change_of : Ticket → Severity → Bool → ProposedChange
  change_of ticket severity breached = record {
    new_priority = "escalated";
    previous_status = ticket.status;
    severity = severity;
    sla_breached = breached;
  }

  -- The row that prepare_escalation inserts.
  abbrev pub proposal : Ticket → Severity → Bool → List EvidenceRef → ActionRecord
  proposal ticket severity breached evidence =
      let action_id = append "ACT-" hex in
      let change : ProposedChange = change_of ticket severity breached in
      record {
        action_id = action_id;
        request_id = request_id;
        user_id = user_id;
        action_type = escalation_type;
        target = ticket_id;
        proposed_change = change;
        reason = reason;
        evidence = cite_structured "tickets" ticket_id none ∷ evidence;
        risk = if same_severity severity p1 then "high" else "medium";
        payload_hash = hash escalation_type ticket_id change;
        status = pending_confirmation;
        prepared_at = now;
        expires_at = now + action_expiry_minutes * minute;
        confirmed_at = none;
        executed_at = none;
        idempotency_key = action_id;
        failure_reason = none;
      }

  -- From the eligibility rule on: P1 or breached.
  abbrev pub propose :
      Ticket
      → DecisionResult SlaOutcome
      → Option Severity
      → Bool
      → Result (Database × ActionOutcome)
  propose ticket sla none breached = ok (
    conn,
    failure none ErrorCode.cannot_determine_eligibility (Message.severity_undetermined ticket_id),
  )
  propose ticket sla (some severity) breached =
      if not (same_severity severity p1) && not breached
      then ok (
        conn,
        failure none ErrorCode.not_escalation_eligible
            (Message.below_escalation_bar ticket_id severity),
      )
      else do
        let row = proposal ticket severity breached sla.evidence
        actions ← insert_action conn.actions row
        ok (record conn { actions = actions }, success_with row)

  module _ (search : String → String → Bool) (auth : AuthContext)
      (overrides : List AgreementOverride) (defaults : Defaults) where
    unfoldable pub prepare_for : Result Ticket → Result (Database × ActionOutcome)
    prepare_for (raise e) = do outcome ← caught none ErrorCode.not_found e; ok (conn, outcome)
    prepare_for (ok ticket) =
        if not (same_ticket_status ticket.status open_ticket)
        then ok (
          conn,
          failure none ErrorCode.invalid_target_state
              (Message.ticket_not_open ticket_id ticket.status),
        )
        else do
          sla ← calculate_sla search conn ticket_id auth now overrides defaults
          propose ticket sla (sla_severity sla.result) (sla_breached sla.result)

    unfoldable pub prepare_escalation : Result (Database × ActionOutcome)
    unfolding prepare_for
    prepare_escalation = prepare_for (get_ticket conn ticket_id auth)

-- A conditional UPDATE to run, with the outcome to report if it changes the row.
pub record Swap : Type 0 where
  pub next : ActionRecord
  pub expected_status : ActionStatus
  pub won : ActionOutcome
  pub verb : Verb

pub data Plan : Type 0 where
  answer : ActionOutcome → Plan
  swap : Swap → Plan

-- The transitions that the code builds by `model_copy`.
abbrev pub expire : ActionRecord → ActionRecord
expire row = record row { status = expired; failure_reason = some "confirmation window expired" }

abbrev pub confirm : ActionRecord → Instant → ActionRecord
confirm row now = record row { status = confirmed; confirmed_at = some now }

abbrev pub execute : ActionRecord → Instant → ActionRecord
execute row now = record row { status = executed; executed_at = some now }

abbrev pub confirm_target : ActionRecord → Instant → Result Ticket → Result Plan
confirm_target row now (raise e) = do
  outcome ← caught (some row) ErrorCode.target_invalid e
  ok (answer outcome)
confirm_target row now (ok ticket) =
    if not (same_ticket_status ticket.status row.proposed_change.previous_status)
    then ok (
        answer (
          failure (some row) ErrorCode.target_state_changed
            (Message.ticket_status_changed row.target)))
    else ok (
        swap (record {
          next = confirm row now;
          expected_status = pending_confirmation;
          won = success_with (confirm row now);
          verb = to_confirm;
        }))

-- confirm_action up to its UPDATE, on the row that was read.
unfoldable pub confirm_row :
    Database → String → String → AuthContext → Instant → String → Option ActionRecord → Result Plan
confirm_row conn action_id payload_hash auth now user_id none =
    ok (answer (failure none ErrorCode.not_found (Message.no_action action_id)))
confirm_row conn action_id payload_hash auth now user_id (some row) =
    if not (same_action_status row.status pending_confirmation)
    then ok (
        answer
          (failure (some row) ErrorCode.wrong_state (Message.not_pending action_id row.status)))
    else if ltb row.expires_at now
    then ok (
        swap (record {
          next = expire row;
          expected_status = pending_confirmation;
          won =
              failure (some (expire row)) ErrorCode.expired_code
                Message.expired_before_confirmation;
          verb = to_confirm;
        }))
    else if not (row.user_id == user_id)
    then ok (answer (failure (some row) ErrorCode.wrong_user Message.only_preparer_confirms))
    else if not (payload_hash == row.payload_hash)
    then ok (answer (failure (some row) ErrorCode.payload_mismatch Message.payload_differs))
    else confirm_target row now (get_ticket conn row.target auth)

unfoldable pub confirm_plan :
    Database → String → String → AuthContext → Instant → String → Result Plan
unfolding confirm_row
confirm_plan conn action_id payload_hash auth now user_id =
    confirm_row conn action_id payload_hash auth now user_id (get_action conn.actions action_id)

-- execute_action up to its UPDATE, on the row that was read.
unfoldable pub execute_row : String → Instant → Option ActionRecord → Plan
execute_row action_id now none =
    answer (failure none ErrorCode.not_found (Message.no_action action_id))
execute_row action_id now (some row) =
    if same_action_status row.status executed
    then answer (success_with row)
    else if not (same_action_status row.status confirmed)
    then answer
        (failure (some row) ErrorCode.wrong_state (Message.not_confirmed action_id row.status))
    else swap (record {
      next = execute row now;
      expected_status = confirmed;
      won = success_with (execute row now);
      verb = to_execute;
    })

unfoldable pub execute_plan : Database → String → Instant → Plan
unfolding execute_row
execute_plan conn action_id now = execute_row action_id now (get_action conn.actions action_id)

-- The answer of a call whose UPDATE changed nothing, on the row as it is read again:
-- `_wrong_state_outcome` for a confirmation, and the row itself for an execution.
abbrev pub lost_outcome : Verb → String → Option ActionRecord → Result ActionOutcome
lost_outcome verb action_id none = raise Error.assertion_error
lost_outcome to_confirm action_id (some current) = ok (
    failure (some current) ErrorCode.wrong_state
      (Message.changed_concurrently action_id current.status to_confirm))
lost_outcome to_execute action_id (some current) = ok (success_with current)

unfoldable pub finish_swap : Database → Swap → Result (Database × ActionOutcome)
finish_swap conn s =
    let (actions, won) = save_action_if_status conn.actions s.next s.expected_status in
    let conn' : Database = record conn { actions = actions } in
    if won then ok (conn', s.won) else do
      outcome ← lost_outcome s.verb s.next.action_id (get_action actions s.next.action_id)
      ok (conn', outcome)

unfoldable pub finish : Database → Plan → Result (Database × ActionOutcome)
unfolding finish_swap
finish conn (answer outcome) = ok (conn, outcome)
finish conn (swap s) = finish_swap conn s

unfoldable pub confirm_action :
    Database → String → String → AuthContext → Instant → String → Result (Database × ActionOutcome)
confirm_action conn action_id payload_hash auth now user_id = do
  plan ← confirm_plan conn action_id payload_hash auth now user_id
  finish conn plan

unfoldable pub execute_action : Database → String → Instant → Result (Database × ActionOutcome)
execute_action conn action_id now = finish conn (execute_plan conn action_id now)
