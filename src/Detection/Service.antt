-- ===== src/Detection/Service.antt =====
-- app/detection/service.py: run_operations_radar and group_by_account.
pub mod Ids
pub mod Ordered
pub mod Deduplicated
use parcelpilot_ops_copilot.Prelude.{
  ℕ, String, Bool, true, false, ◌&&◌, ◌||◌, ◌==◌, ltb, eqb, Option, none, some, List, [], ◌∷◌, ◌++◌,
  map, contains, if◌then◌else◌,
}
use parcelpilot_ops_copilot.Prelude.Sort.{sort_by, text_le}
use parcelpilot_ops_copilot.Models.{Role, restricted_support, AuthContext, Database, Instant}
use parcelpilot_ops_copilot.Result.{Result, ok, raise, Error, cross_account_detection, ◌>>=◌}
use parcelpilot_ops_copilot.Policy.{AgreementOverride, Defaults}
use parcelpilot_ops_copilot.Detection.Alert.{
  AlertCandidate, AlertType, AlertSeverity, low, medium, high, critical, sla_breach,
  sla_approaching, recurring_issue, known_issue_pattern, carrier_pattern, overdue_pickup,
  sorted_set,
}
use parcelpilot_ops_copilot.Detection.Tickets.{
  detect_sla_breaches, detect_sla_approaching, detect_recurring_severity,
  default_approaching_warning_percent, default_recurring_severity_threshold,
}
use parcelpilot_ops_copilot.Detection.Orders.{
  detect_carrier_patterns, detect_overdue_pickups, default_carrier_fault_threshold,
}
use parcelpilot_ops_copilot.Detection.KnownIssues.{
  IssueTexts, detect_known_issue_patterns, default_known_issue_min_occurrences,
}

-- The keys of _ALL_RULES, in order.
abbrev pub all_types : List AlertType
all_types =
    sla_breach ∷ sla_approaching ∷ recurring_issue ∷ known_issue_pattern ∷ carrier_pattern
    ∷ overdue_pickup ∷ []

-- _SEVERITY_RANK
abbrev pub severity_rank : AlertSeverity → ℕ
severity_rank critical = 0
severity_rank high = 1
severity_rank medium = 2
severity_rank low = 3

-- The order of the sort's keys, `(_SEVERITY_RANK[a.severity], a.alert_id)`.
abbrev pub alert_le : AlertCandidate → AlertCandidate → Bool
alert_le a b =
    ltb (severity_rank a.severity) (severity_rank b.severity)
    || eqb (severity_rank a.severity) (severity_rank b.severity) && text_le a.alert_id b.alert_id

-- `seen[alert.alert_id] = alert` on the dict's values: a key that is there keeps its place.
unfoldable pub put_alert : AlertCandidate → List AlertCandidate → List AlertCandidate
put_alert alert [] = alert ∷ []
put_alert alert (other ∷ others) =
    let rest = put_alert alert others in
    if other.alert_id == alert.alert_id then alert ∷ others else other ∷ rest

unfoldable pub put_alerts : List AlertCandidate → List AlertCandidate → List AlertCandidate
unfolding put_alert
put_alerts [] seen = seen
put_alerts (alert ∷ alerts) seen = put_alerts alerts (put_alert alert seen)

-- `alert_types or list(_ALL_RULES)`
abbrev pub types_to_run : Option (List AlertType) → List AlertType
types_to_run none = all_types
types_to_run (some []) = all_types
types_to_run (some (t ∷ types)) = t ∷ types

abbrev pub is_restricted : Role → Bool
is_restricted restricted_support = true
is_restricted _ = false

module _ (sha16 : String → String) (decimal : ℕ → String) (search : String → String → Bool)
    (texts : IssueTexts) (conn : Database) (auth : AuthContext) (now : Instant) (window_days : ℕ)
    (overrides : List AgreementOverride) (defaults : Defaults) where
  -- The rule of a type, called with the arguments that the branches of the loop give it.
  unfoldable pub run_rule : AlertType → Result (List AlertCandidate)
  run_rule sla_breach = detect_sla_breaches sha16 decimal search conn auth now overrides defaults
  run_rule sla_approaching =
      detect_sla_approaching sha16 decimal search conn auth now overrides defaults
        default_approaching_warning_percent
  run_rule recurring_issue =
      detect_recurring_severity sha16 decimal search conn auth now overrides defaults
        default_recurring_severity_threshold window_days
  run_rule known_issue_pattern =
      detect_known_issue_patterns sha16 decimal texts conn auth now
        default_known_issue_min_occurrences window_days
  run_rule carrier_pattern =
      detect_carrier_patterns sha16 decimal conn auth now default_carrier_fault_threshold
        window_days
  run_rule overdue_pickup = detect_overdue_pickups sha16 decimal conn auth now

  -- The loop over the types, with `seen`.
  unfoldable pub run_rules : List AlertType → List AlertCandidate → Result (List AlertCandidate)
  run_rules [] seen = ok seen
  run_rules (alert_type ∷ types) seen = do
    alerts ← run_rule alert_type
    run_rules types (put_alerts alerts seen)

  unfoldable pub run_operations_radar : Option (List AlertType) → Result (List AlertCandidate)
  run_operations_radar alert_types =
      if is_restricted auth.role
      then raise (Error.not_authorized cross_account_detection)
      else run_rules (types_to_run alert_types) [] >>= λ seen. ok (sort_by alert_le seen)

-- group_by_account: for each account, sorted, the sorted ids of the alerts that affect it.
abbrev pub accounts_of_alerts : List AlertCandidate → List String
accounts_of_alerts [] = []
accounts_of_alerts (alert ∷ alerts) = alert.affected_accounts ++ accounts_of_alerts alerts

abbrev pub ids_affecting : String → List AlertCandidate → List String
ids_affecting account_id [] = []
ids_affecting account_id (alert ∷ alerts) =
    let rest = ids_affecting account_id alerts in
    if contains account_id alert.affected_accounts then alert.alert_id ∷ rest else rest

unfoldable pub group_by_account : List AlertCandidate → List (String × List String)
group_by_account alerts =
    map (λ account_id. (account_id, sorted_set (ids_affecting account_id alerts)))
      (sorted_set (accounts_of_alerts alerts))
