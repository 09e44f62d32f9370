-- ===== src/Detection/Tickets.antt =====
-- app/detection/rules.py: the rules over tickets, detect_sla_breaches, detect_sla_approaching and
-- detect_recurring_severity. The warning ratio is given in percent, and the remaining time in
-- microseconds. Of evidence, the order and the content are the code's.
use parcelpilot_ops_copilot.Prelude.{
  ℕ, ◌+◌, ◌*◌, ◌/◌, String, Bool, true, false, not, ◌||◌, Option, none, some, List, [], ◌∷◌, ◌++◌,
  map, filter, length, ltb, if◌then◌else◌,
}
use parcelpilot_ops_copilot.Prelude.Int.{ℤ, pos, neg_le_nat}
use parcelpilot_ops_copilot.Models.{
  Severity, p1, p2, same_severity, open_ticket, TrustState, confident, AuthContext, Database,
  Ticket, Instant, minute,
}
use parcelpilot_ops_copilot.Result.{Result, ok, ◌>>=◌}
use parcelpilot_ops_copilot.Repository.{search_tickets}
use parcelpilot_ops_copilot.Policy.{AgreementOverride, Defaults}
use parcelpilot_ops_copilot.Domain.Outcomes.{DecisionResult}
use parcelpilot_ops_copilot.Domain.Evidence.{cite_structured}
use parcelpilot_ops_copilot.Domain.Sla.{SlaOutcome, calculate_sla}
use parcelpilot_ops_copilot.Actions.Workflow.{truth}
use parcelpilot_ops_copilot.Detection.Alert.{
  AlertCandidate, AlertType, high, medium, critical, AlertReason, TimeWindow, compute_alert_id,
  sorted_texts, sorted_set,
}

abbrev pub sla_rule_version : String
sla_rule_version = "v1"

abbrev pub recurring_rule_version : String
recurring_rule_version = "v1"

abbrev pub default_approaching_warning_percent : ℕ
default_approaching_warning_percent = 25

abbrev pub default_recurring_severity_threshold : ℕ
default_recurring_severity_threshold = 2

abbrev pub default_window_days : ℕ
default_window_days = 30

abbrev pub day : ℕ
day = 86400000000

-- The loop over the rows: what the body lists for each, in order; an exception ends it.
unfoldable pub collect {ℓ κ} :
    {A : Type ℓ} {B : Type κ} → (A → Result (List B)) → List A → Result (List B)
collect body [] = ok []
collect body (row ∷ rows) = do found ← body row; rest ← collect body rows; ok (found ++ rest)

abbrev pub is_confident : TrustState → Bool
is_confident TrustState.confident = true
is_confident _ = false

abbrev pub is_computed : TrustState → Bool
is_computed TrustState.confident = true
is_computed TrustState.conditional = true
is_computed _ = false

-- `severity in _SLA_ALERT_SEVERITIES`
abbrev pub alerts_on : Severity → Bool
alerts_on severity = same_severity severity p1 || same_severity severity p2

-- `elapsed_minutes_past_deadline or 0.0`
abbrev elapsed_or_zero : Option ℤ → ℤ
elapsed_or_zero none = pos 0
elapsed_or_zero (some elapsed) = elapsed

-- `remaining <= target_minutes * warning_ratio` for the time that remains
abbrev pub is_near : ℕ → Option ℕ → Option ℤ → Bool
is_near percent none elapsed = false
is_near percent (some target_minutes) none = false
is_near percent (some target_minutes) (some elapsed) =
    neg_le_nat elapsed (target_minutes * minute * percent / 100)

abbrev minutes_or_zero : Option ℕ → ℕ
minutes_or_zero none = 0
minutes_or_zero (some n) = n

module _ (sha16 : String → String) (decimal : ℕ → String) (search : String → String → Bool)
    (conn : Database) (auth : AuthContext) (now : Instant) where
  abbrev pub breach_alert : Ticket → DecisionResult SlaOutcome → SlaOutcome → AlertCandidate
  breach_alert ticket result outcome = record {
    alert_id =
        compute_alert_id sha16 decimal AlertType.sla_breach TimeWindow.point_in_time
          sla_rule_version (ticket.ticket_id ∷ []);
    alert_type = AlertType.sla_breach;
    severity = if same_severity outcome.severity p1 then critical else high;
    reason =
        AlertReason.past_deadline ticket.ticket_id outcome.severity
          (elapsed_or_zero outcome.elapsed_past_deadline) outcome.target_text;
    observed_count = 1;
    threshold = 1;
    time_window = TimeWindow.point_in_time;
    representative_records = ticket.ticket_id ∷ [];
    affected_accounts = ticket.account_id ∷ [];
    evidence = cite_structured "tickets" ticket.ticket_id (some ticket.subject) ∷ result.evidence;
    trust_state = result.trust_state;
    rule_version = sla_rule_version;
  }

  abbrev pub approaching_alert : Ticket → DecisionResult SlaOutcome → SlaOutcome → AlertCandidate
  approaching_alert ticket result outcome = record {
    alert_id =
        compute_alert_id sha16 decimal AlertType.sla_approaching TimeWindow.point_in_time
          sla_rule_version (ticket.ticket_id ∷ []);
    alert_type = AlertType.sla_approaching;
    severity = if same_severity outcome.severity p1 then high else medium;
    reason =
        AlertReason.near_deadline ticket.ticket_id outcome.severity
          (elapsed_or_zero outcome.elapsed_past_deadline) (minutes_or_zero outcome.target_minutes);
    observed_count = 1;
    threshold = 1;
    time_window = TimeWindow.point_in_time;
    representative_records = ticket.ticket_id ∷ [];
    affected_accounts = ticket.account_id ∷ [];
    evidence = cite_structured "tickets" ticket.ticket_id (some ticket.subject) ∷ result.evidence;
    trust_state = result.trust_state;
    rule_version = sla_rule_version;
  }

  -- The body of each loop after its call of calculate_sla.
  abbrev pub breach_of :
      Ticket → DecisionResult SlaOutcome → Option SlaOutcome → List AlertCandidate
  breach_of ticket result none = []
  breach_of ticket result (some outcome) =
      if not (alerts_on outcome.severity)
      then []
      else if not (is_confident result.trust_state)
      then []
      else if not (truth outcome.breached)
      then []
      else breach_alert ticket result outcome ∷ []

  abbrev pub approaching_of :
      ℕ → Ticket → DecisionResult SlaOutcome → Option SlaOutcome → List AlertCandidate
  approaching_of percent ticket result none = []
  approaching_of percent ticket result (some outcome) =
      if not (alerts_on outcome.severity)
      then []
      else if not (is_confident result.trust_state)
      then []
      else if truth outcome.breached
      then []
      else if is_near percent outcome.target_minutes outcome.elapsed_past_deadline
      then approaching_alert ticket result outcome ∷ []
      else []

  -- The ticket and its severity, if it counts.
  abbrev counted_of :
      Ticket → DecisionResult SlaOutcome → Option SlaOutcome → List (Severity × Ticket)
  counted_of ticket result none = []
  counted_of ticket result (some outcome) =
      if not (alerts_on outcome.severity)
      then []
      else if is_computed result.trust_state
      then (outcome.severity, ticket) ∷ []
      else []

  -- `by_severity[severity]` and `accounts[severity]`
  abbrev pub ticket_ids_of : Severity → List (Severity × Ticket) → List String
  ticket_ids_of severity counted =
      map (λ entry. entry.1.ticket_id) (filter (λ entry. same_severity entry.0 severity) counted)

  abbrev pub accounts_of : Severity → List (Severity × Ticket) → List String
  accounts_of severity counted =
      map (λ entry. entry.1.account_id) (filter (λ entry. same_severity entry.0 severity) counted)

  abbrev pub recurring_alert : ℕ → ℕ → Severity → List String → List String → AlertCandidate
  recurring_alert threshold window_days severity ticket_ids accounts = record {
    alert_id =
        compute_alert_id sha16 decimal AlertType.recurring_issue (TimeWindow.days window_days)
          recurring_rule_version ticket_ids;
    alert_type = AlertType.recurring_issue;
    severity = if same_severity severity p1 then high else medium;
    reason = AlertReason.many_tickets (length ticket_ids) severity window_days threshold;
    observed_count = length ticket_ids;
    threshold = threshold;
    time_window = TimeWindow.days window_days;
    representative_records = sorted_texts ticket_ids;
    affected_accounts = sorted_set accounts;
    evidence = map (λ id. cite_structured "tickets" id none) (sorted_texts ticket_ids);
    trust_state = confident;
    rule_version = recurring_rule_version;
  }

  abbrev pub recurring_for : ℕ → ℕ → List (Severity × Ticket) → Severity → List AlertCandidate
  recurring_for threshold window_days counted severity =
      if ltb (length (ticket_ids_of severity counted)) threshold
      then []
      else recurring_alert threshold window_days severity (ticket_ids_of severity counted)
          (accounts_of severity counted)
        ∷ []

  module _ (overrides : List AgreementOverride) (defaults : Defaults) where
    abbrev pub sla_of : Ticket → Result (DecisionResult SlaOutcome)
    sla_of ticket = calculate_sla search conn ticket.ticket_id auth now overrides defaults

    abbrev pub breach_body : Ticket → Result (List AlertCandidate)
    breach_body ticket = do result ← sla_of ticket; ok (breach_of ticket result result.result)

    unfoldable pub detect_sla_breaches : Result (List AlertCandidate)
    detect_sla_breaches = do
      tickets ← search_tickets conn auth none (some open_ticket)
      collect breach_body tickets

    abbrev pub approaching_body : ℕ → Ticket → Result (List AlertCandidate)
    approaching_body percent ticket = do
      result ← sla_of ticket
      ok (approaching_of percent ticket result result.result)

    unfoldable pub detect_sla_approaching : ℕ → Result (List AlertCandidate)
    detect_sla_approaching percent = do
      tickets ← search_tickets conn auth none (some open_ticket)
      collect (approaching_body percent) tickets

    -- A ticket created before the cutoff is passed over before its deadline is computed.
    abbrev pub counted_body : ℕ → Ticket → Result (List (Severity × Ticket))
    counted_body window_days ticket =
        if ltb (ticket.created_at + window_days * day) now
        then ok []
        else do result ← sla_of ticket; ok (counted_of ticket result result.result)

    unfoldable pub detect_recurring_severity : ℕ → ℕ → Result (List AlertCandidate)
    detect_recurring_severity threshold window_days = do
      tickets ← search_tickets conn auth none (some open_ticket)
      counted ← collect (counted_body window_days) tickets
      ok (
          recurring_for threshold window_days counted p1
          ++ recurring_for threshold window_days counted p2)
