-- ===== src/Examples/Alerts.antt =====
-- The radar and its routes, on the example database.
use parcelpilot_ops_copilot.Prelude.{
  ℕ, ◌≢◌, ◌≡◌, ◌↔◌, refl, String, false, Option, none, some, List, [], ◌∷◌, Has, ◌*◌,
}
use parcelpilot_ops_copilot.Prelude.Sort.{sort_by}
use parcelpilot_ops_copilot.Models.{hour, restricted_support}
use parcelpilot_ops_copilot.Repository.{search_orders}
use parcelpilot_ops_copilot.Policy.{agreement_overrides, default_source}
use parcelpilot_ops_copilot.Detection.Alert.{AlertCandidate, AlertType, overdue_pickup}
use parcelpilot_ops_copilot.Detection.Orders.{detect_overdue_pickups, overdue_alert}
use parcelpilot_ops_copilot.Detection.KnownIssues.{IssueTexts}
use parcelpilot_ops_copilot.Detection.Service.{
  types_to_run, run_operations_radar, run_rules, run_rule, put_alerts,
}
use parcelpilot_ops_copilot.Detection.Service.Ids.{UniqueIds, HasId}
use parcelpilot_ops_copilot.Detection.Service.Deduplicated.{Raised, run_operations_radar-UniqueIds}
use parcelpilot_ops_copilot.Detection.Service.Ordered.{IsOrdered}
use parcelpilot_ops_copilot.Examples.Scenario.{late_order, northstar_agent, one_pattern, store}
use parcelpilot_ops_copilot.Prelude.{length, ◌↔◌, true, []}
use parcelpilot_ops_copilot.Routes.{DemoUser, Response, responds}
use parcelpilot_ops_copilot.Routes.Radar.{RadarResponse, run_radar, get_alert, radar_response}
use parcelpilot_ops_copilot.Routes.Radar.Listed.{get_alert-run_radar}
use parcelpilot_ops_copilot.Detection.Tickets.{default_window_days}
use parcelpilot_ops_copilot.Detection.Tickets.{
  collect, detect_recurring_severity, detect_sla_approaching, detect_sla_breaches,
}
use parcelpilot_ops_copilot.Repository.{
  check_scope, get_account, get_source, get_ticket, search_tickets,
}
use parcelpilot_ops_copilot.Domain.Sla.{calculate_sla, lookup_sla_target}
use parcelpilot_ops_copilot.Domain.Severity.{classify_severity, hits_for}
use parcelpilot_ops_copilot.Policy.{resolve_applicability}
use parcelpilot_ops_copilot.Models.{is_active_at}
use parcelpilot_ops_copilot.Detection.Alert.{compute_alert_id}
use parcelpilot_ops_copilot.Detection.KnownIssues.{detect_known_issue_patterns, significant_tokens}
use parcelpilot_ops_copilot.Detection.Orders.{detect_carrier_patterns}
use parcelpilot_ops_copilot.Detection.Service.{group_by_account, put_alert}
use parcelpilot_ops_copilot.Domain.Evidence.{cite_document, cite_structured}
use parcelpilot_ops_copilot.Domain.Outcomes.{conflicts_of}
use parcelpilot_ops_copilot.Prelude.Sort.{insert_by}

abbrev short_digest : String → String
short_digest text = text

abbrev thirty : ℕ → String
thirty n = "30"

abbrev issue_texts : IssueTexts
issue_texts = record {
  ki_ids = λ text. [];
  words = λ text. [];
  lower = λ text. text;
  within = λ part text. false;
  like = λ text. false;
}

abbrev overdue : AlertCandidate
overdue = overdue_alert short_digest thirty (12 * hour) late_order

abbrev pickups : Option (List AlertType)
pickups = some (overdue_pickup ∷ [])

run_operations_radar-UniqueIds_example :
    (northstar_agent.role ≢ restricted_support)
    × IsOrdered (overdue ∷ [])
    × UniqueIds (overdue ∷ [])
    × (Has overdue (overdue ∷ [])
        → Raised short_digest thirty one_pattern issue_texts store northstar_agent
            (12 * hour)
            30
            agreement_overrides
            default_source
            (types_to_run pickups)
            overdue)
    × (Raised short_digest thirty one_pattern issue_texts store northstar_agent
          (12 * hour)
          30
          agreement_overrides
          default_source
          (types_to_run pickups)
          overdue
        → HasId overdue.alert_id (overdue ∷ []))
unfolding run_operations_radar detect_overdue_pickups search_orders sort_by run_rules run_rule
    put_alerts
run_operations_radar-UniqueIds_example =
    run_operations_radar-UniqueIds short_digest thirty one_pattern issue_texts store northstar_agent
      (12 * hour) 30 agreement_overrides default_source pickups (overdue ∷ []) overdue refl

abbrev rahul : DemoUser
rahul = record {
  id = "support_agent";
  display_name = "Rahul Verma";
  role = northstar_agent.role;
  account_scope = northstar_agent.account_scope;
}

abbrev shown_or : RadarResponse → Response RadarResponse → RadarResponse
shown_or r (responds s) = s
shown_or r _ = r

abbrev shown : RadarResponse
shown = shown_or (radar_response true []) (
    run_radar short_digest thirty one_pattern issue_texts store (12 * hour) agreement_overrides
      default_source
      (record { alert_types = none; window_days = default_window_days; by_account = true }) rahul)

get_alert-run_radar_example :
    (shown.total_alerts ≡ length shown.alerts)
    × ((get_alert short_digest thirty one_pattern issue_texts store
            (12 * hour)
            agreement_overrides
            default_source
            overdue.alert_id
            rahul
          ≡ responds overdue)
        ↔ (Has overdue shown.alerts × (overdue.alert_id ≡ overdue.alert_id)))
unfolding run_radar run_operations_radar run_rules run_rule detect_sla_breaches search_tickets
    collect sort_by calculate_sla get_ticket get_account classify_severity hits_for
    resolve_applicability get_source is_active_at lookup_sla_target detect_sla_approaching
    detect_recurring_severity compute_alert_id detect_known_issue_patterns significant_tokens
    detect_carrier_patterns detect_overdue_pickups group_by_account put_alert put_alerts
    cite_document cite_structured conflicts_of insert_by check_scope search_orders
get_alert-run_radar_example =
    get_alert-run_radar short_digest thirty one_pattern issue_texts store (12 * hour)
      agreement_overrides default_source true rahul shown overdue overdue.alert_id refl
