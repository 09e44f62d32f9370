-- ===== src/Examples/Radar.antt =====
-- The radar and the routes, on the example database.
use Prim.Native.String.{◌++◌ as append}
use parcelpilot_ops_copilot.Prelude.{
  ◌≡◌, ◌≢◌, true, ◌⊎◌, ◌↔◌, ◌*◌, ℕ, String, refl, some, List, [], ◌∷◌, Has,
}
use parcelpilot_ops_copilot.Prelude.Sort.{sort_by}
use parcelpilot_ops_copilot.Models.{
  TrustState, confident, conditional, uncertain, escalate, ActionRecord, Role, operations_admin,
  hour, is_active_at,
}
use parcelpilot_ops_copilot.Repository.{
  get_account, get_ticket, get_source, search_tickets, search_orders,
}
use parcelpilot_ops_copilot.Repository.Access.{visible}
use parcelpilot_ops_copilot.Policy.{agreement_overrides, default_source, resolve_applicability}
use parcelpilot_ops_copilot.Domain.Severity.{classify_severity, hits_for}
use parcelpilot_ops_copilot.Domain.Sla.{lookup_sla_target, calculate_sla}
use parcelpilot_ops_copilot.Actions.Models.{success_with}
use parcelpilot_ops_copilot.Actions.Store.{get_action, save_action_if_status}
use parcelpilot_ops_copilot.Actions.Workflow.{
  confirm, execute, finish, execute_plan, execute_action,
}
use parcelpilot_ops_copilot.Routes.{DemoUser, execute_route, get_action_route}
use parcelpilot_ops_copilot.Routes.Ownership.{Shown, get_action_route-Shown, execute_route-owner}
use parcelpilot_ops_copilot.Detection.Alert.{AlertCandidate}
use parcelpilot_ops_copilot.Detection.Tickets.{collect, detect_sla_breaches}
use parcelpilot_ops_copilot.Detection.Orders.{
  overdue_alert, detect_overdue_pickups, detect_carrier_patterns,
}
use parcelpilot_ops_copilot.Detection.Sound.{Breaching, detect_sla_breaches-Breaching}
use parcelpilot_ops_copilot.Detection.Scoped.{
  Overdue, detect_overdue_pickups-Overdue, detect_orders-visible,
}
use parcelpilot_ops_copilot.Examples.Scenario.{
  northstar_agent, late_order, pending_row, store, store_of, one_pattern, value_or, head_or,
}
use parcelpilot_ops_copilot.TrustGate.{enforce_trust_gate}
use parcelpilot_ops_copilot.TrustGate.Worst.{enforce_trust_gate_iff, confident_iff}

abbrev short_digest : String → String
short_digest text = append "#" text

abbrev short_decimal : ℕ → String
short_decimal n = "30"

abbrev breaches : List AlertCandidate
breaches = value_or [] (
    detect_sla_breaches short_digest short_decimal one_pattern store northstar_agent (12 * hour)
      agreement_overrides default_source)

abbrev overdue : AlertCandidate
overdue = overdue_alert short_digest short_decimal (12 * hour) late_order

abbrev breach : AlertCandidate
breach = head_or overdue breaches

detect_sla_breaches-Breaching_example :
    Has breach breaches
    ↔ Breaching short_digest short_decimal one_pattern store northstar_agent
        (12 * hour)
        agreement_overrides
        default_source
        breach
unfolding detect_sla_breaches search_tickets collect sort_by calculate_sla get_ticket get_account
    classify_severity hits_for resolve_applicability get_source is_active_at lookup_sla_target
detect_sla_breaches-Breaching_example =
    detect_sla_breaches-Breaching short_digest short_decimal one_pattern store northstar_agent
      (12 * hour) agreement_overrides default_source breaches refl breach

detect_overdue_pickups-Overdue_example :
    Has overdue (overdue ∷ [])
    ↔ Overdue short_digest short_decimal store northstar_agent (12 * hour) overdue
unfolding detect_overdue_pickups search_orders sort_by
detect_overdue_pickups-Overdue_example =
    detect_overdue_pickups-Overdue short_digest short_decimal store northstar_agent (12 * hour)
      (overdue ∷ []) refl overdue

detect_orders-visible_example :
    (detect_overdue_pickups short_digest short_decimal
        (visible northstar_agent store)
        northstar_agent
        (12 * hour)
      ≡ detect_overdue_pickups short_digest short_decimal store northstar_agent (12 * hour))
    × (detect_carrier_patterns short_digest short_decimal
          (visible northstar_agent store)
          northstar_agent
          (12 * hour)
          1
          30
        ≡ detect_carrier_patterns short_digest short_decimal store northstar_agent (12 * hour) 1 30)
detect_orders-visible_example =
    detect_orders-visible short_digest short_decimal store northstar_agent (12 * hour) 1 30

abbrev asha : DemoUser
asha = record {
  id = "asha";
  display_name = "Asha";
  role = Role.support_agent;
  account_scope = some ("ACCT-001" ∷ []);
}

abbrev anita : DemoUser
anita = record {
  id = "anita";
  display_name = "Anita";
  role = Role.restricted_support;
  account_scope = some ("ACCT-002" ∷ []);
}

get_action_route-Shown_example : Shown store "ACT-1" anita (get_action_route store "ACT-1" anita)
get_action_route-Shown_example = get_action_route-Shown store "ACT-1" anita

abbrev confirmed_row : ActionRecord
confirmed_row = confirm pending_row (8 * hour)

execute_route-owner_example :
    (row : ActionRecord) × (get_action (store_of (confirmed_row ∷ [])).actions "ACT-1" ≡ some row)
    × ((asha.role ≡ operations_admin) ⊎ (row.user_id ≡ "asha"))
unfolding execute_route get_action execute_action finish execute_plan save_action_if_status
execute_route-owner_example =
    execute_route-owner (store_of (confirmed_row ∷ []))
      (store_of (execute confirmed_row (9 * hour) ∷ [])) "ACT-1" asha (9 * hour)
      (success_with (execute confirmed_row (9 * hour))) refl

enforce_trust_gate_iff_example :
    ((enforce_trust_gate (confident ∷ conditional ∷ []) true ≡ escalate)
      ↔ Has escalate (confident ∷ conditional ∷ []))
    × ((enforce_trust_gate (confident ∷ conditional ∷ []) true ≡ uncertain) ↔ (
        Has uncertain (confident ∷ conditional ∷ [])
        × ¬ Has escalate (confident ∷ conditional ∷ [])))
    × ((enforce_trust_gate (confident ∷ conditional ∷ []) true ≡ conditional) ↔ (
        Has conditional (confident ∷ conditional ∷ [])
        × (¬ Has escalate (confident ∷ conditional ∷ []))
        × (¬ Has uncertain (confident ∷ conditional ∷ []))))
enforce_trust_gate_iff_example = enforce_trust_gate_iff confident (conditional ∷ []) true

confident_iff_example : (enforce_trust_gate (confident ∷ conditional ∷ []) true ≡ confident) ↔ (
    (confident ∷ conditional ∷ [] ≢ [])
    × ((s : TrustState) → Has s (confident ∷ conditional ∷ []) → s ≡ confident))
confident_iff_example = confident_iff (confident ∷ conditional ∷ []) true
