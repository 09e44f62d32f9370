-- ===== src/Domain/Sla.antt =====
-- app/domain/sla.py: the first-response deadline of a ticket. Elapsed time is held in microseconds,
-- where the code divides by 60 into minutes; the two compare alike with zero.
pub mod Lookup
pub mod Deadline
pub mod Breach
use parcelpilot_ops_copilot.Prelude.{
  ℕ, ◌+◌, ◌*◌, String, Bool, true, false, Option, none, some, List, [], ◌∷◌, ◌++◌, ◌&&◌, ◌||◌, ◌==◌,
  is_some, filter, find, if◌then◌else◌,
}
use parcelpilot_ops_copilot.Prelude.Int.{ℤ, sub_ℕ, nat_lt}
use parcelpilot_ops_copilot.Models.{
  Severity, p1, same_severity, sla_first_response, TrustState, AuthContext, Account, Ticket,
  SlaTarget, Database, EvidenceRef, Instant, minute, date_of,
}
use parcelpilot_ops_copilot.Models.Sql.{column_is}
use parcelpilot_ops_copilot.Result.{Result, ok, raise, Error, ◌>>=◌, ◌>>◌}
use parcelpilot_ops_copilot.Repository.{get_account, get_ticket}
use parcelpilot_ops_copilot.Policy.{
  AgreementOverride, Defaults, ApplicabilityResult, resolve_applicability,
}
use parcelpilot_ops_copilot.Domain.Outcomes.{
  DecisionResult, Reason, Assumption, CalculationInput, conflicts_of,
}
use parcelpilot_ops_copilot.Domain.Evidence.{cite_document, cite_structured}
use parcelpilot_ops_copilot.Domain.Severity.{SeverityOutcome, classify_severity}

pub record SlaOutcome : Type 0 where
  pub severity : Severity
  pub applicable_source_id : String
  pub target_text : String
  pub target_minutes : Option ℕ
  pub is_24x7 : Bool
  pub deadline : Option Instant
  pub elapsed_past_deadline : Option ℤ
  pub breached : Option Bool

-- The WHERE clause of the query.
abbrev pub target_selected : String → Account → Severity → SlaTarget → Bool
target_selected source_id account severity row =
    row.source_id == source_id
    && same_severity row.severity severity
    && (column_is row.plan account.plan || column_is row.account_id account.account_id)

abbrev first_of_rows : List SlaTarget → Option SlaTarget
first_of_rows [] = none
first_of_rows (row ∷ rows) = some row

-- ORDER BY (account_id IS NOT NULL) DESC LIMIT 1; rows that tie are taken in the scan's order
abbrev account_rows_first : List SlaTarget → Option SlaTarget
account_rows_first rows = elim (find (λ row. is_some row.account_id) rows) [
  | none ↦ first_of_rows rows
  | some row ↦ some row
]

unfoldable pub lookup_sla_target : Database → String → Account → Severity → Option SlaTarget
lookup_sla_target conn source_id account severity =
    account_rows_first (filter (target_selected source_id account severity) conn.sla_targets)

-- A decision with no outcome, left to a human.
abbrev pub no_outcome : Reason → List EvidenceRef → DecisionResult SlaOutcome
no_outcome reason evidence = record {
  result = none;
  trust_state = TrustState.uncertain;
  reason = reason;
  evidence = evidence;
  assumptions = [];
  conflicts = [];
  calculation_inputs = [];
  needs_human_review = true;
}

abbrev business_hours :
    ApplicabilityResult
    → Account
    → Severity
    → List EvidenceRef
    → SlaTarget
    → DecisionResult SlaOutcome
business_hours a account severity evidence target = record {
  result = some (record {
    severity = severity;
    applicable_source_id = a.winning_source_id;
    target_text = target.target_text;
    target_minutes = none;
    is_24x7 = false;
    deadline = none;
    elapsed_past_deadline = none;
    breached = none;
  });
  trust_state = TrustState.conditional;
  reason = Reason.needs_business_calendar target.target_text;
  evidence = evidence;
  assumptions = Assumption.business_calendar_undefined ∷ [];
  conflicts = conflicts_of a account.account_id;
  calculation_inputs = [];
  needs_human_review = a.needs_human_review;
}

abbrev is_p1 : Severity → Bool
is_p1 severity = same_severity severity p1

abbrev clock_target :
    ApplicabilityResult
    → Ticket
    → Account
    → Severity
    → List EvidenceRef
    → SlaTarget
    → Instant
    → ℕ
    → DecisionResult SlaOutcome
clock_target a ticket account severity evidence target now target_minutes =
    let deadline : Instant = ticket.created_at + target_minutes * minute in
    let elapsed : ℤ = sub_ℕ now deadline in
    let breached : Bool = nat_lt 0 elapsed in
    record {
      result = some (record {
        severity = severity;
        applicable_source_id = a.winning_source_id;
        target_text = target.target_text;
        target_minutes = some target_minutes;
        is_24x7 = target.is_24x7;
        deadline = some deadline;
        elapsed_past_deadline = some elapsed;
        breached = some breached;
      });
      trust_state = TrustState.confident;
      reason =
          if breached
          then Reason.deadline_passed target.target_text deadline elapsed (is_p1 severity)
          else Reason.deadline_ahead target.target_text deadline elapsed;
      evidence = evidence;
      assumptions = [];
      conflicts = conflicts_of a account.account_id;
      calculation_inputs =
          CalculationInput.created_at ticket.created_at
          ∷ CalculationInput.target_minutes target_minutes
          ∷ [];
      needs_human_review = a.needs_human_review || (breached && is_p1 severity);
    }

-- `timedelta(minutes=None)` is a TypeError.
abbrev clock_decision :
    ApplicabilityResult
    → Ticket
    → Account
    → Severity
    → List EvidenceRef
    → SlaTarget
    → Instant
    → Option ℕ
    → Result (DecisionResult SlaOutcome)
clock_decision a ticket account severity evidence target now none = raise Error.type_error
clock_decision a ticket account severity evidence target now (some target_minutes) =
    ok (clock_target a ticket account severity evidence target now target_minutes)

abbrev pub decide_target :
    Database
    → ApplicabilityResult
    → Ticket
    → Account
    → Severity
    → List EvidenceRef
    → Instant
    → Option SlaTarget
    → Result (DecisionResult SlaOutcome)
decide_target conn a ticket account severity severity_evidence now none = ok (
    no_outcome (Reason.no_sla_target a.winning_source_id account.plan severity)
      (cite_structured "tickets" ticket.ticket_id none ∷ []))
decide_target conn a ticket account severity severity_evidence now (some target) =
    let evidence =
      (cite_structured "tickets" ticket.ticket_id none ∷ severity_evidence)
      ++ cite_document conn a.winning_source_id a.winning_section none ∷ [] in
    if target.requires_business_calendar
    then ok (business_hours a account severity evidence target)
    else clock_decision a ticket account severity evidence target now target.target_minutes

abbrev pub severity_of : Option SeverityOutcome → Option Severity
severity_of none = none
severity_of (some outcome) = outcome.severity

module _ (conn : Database) (now : Instant) (overrides : List AgreementOverride)
    (defaults : Defaults) where
  -- The function from the test of the severity on.
  sla_for :
      Ticket
      → Account
      → DecisionResult SeverityOutcome
      → Option Severity
      → Result (DecisionResult SlaOutcome)
  sla_for ticket account severity_result none = ok (
      no_outcome (Reason.no_target_without_severity severity_result.reason)
        (cite_structured "tickets" ticket.ticket_id none ∷ severity_result.evidence))
  sla_for ticket account severity_result (some severity) = do
    a ←
        resolve_applicability conn sla_first_response account.account_id (date_of now) overrides
          defaults
    decide_target conn a ticket account severity severity_result.evidence now
        (lookup_sla_target conn a.winning_source_id account severity)

unfoldable pub calculate_sla :
    (String → String → Bool)
    → Database
    → String
    → AuthContext
    → Instant
    → List AgreementOverride
    → Defaults
    → Result (DecisionResult SlaOutcome)
unfolding sla_for
calculate_sla search conn ticket_id auth now overrides defaults = do
  ticket ← get_ticket conn ticket_id auth
  account ← get_account conn ticket.account_id auth
  let severity_result = classify_severity search ticket (some conn)
  sla_for conn now overrides defaults ticket account severity_result
      (severity_of severity_result.result)
