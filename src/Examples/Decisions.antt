-- ===== src/Examples/Decisions.antt =====
-- The decisions of the domain, on the example database.
use parcelpilot_ops_copilot.Prelude.{
  ◌≡◌, ◌≢◌, ◌↔◌, ◌<◌, ◌*◌, ℕ, true, refl, inl, inr, none, some, false, is_some, sym, ap, arith, Has,
}
use parcelpilot_ops_copilot.Prelude.Sort.{sort_by}
use parcelpilot_ops_copilot.Prelude.Int.{pos}
use parcelpilot_ops_copilot.Models.{
  Severity, p1, Ticket, Order, allows_account, hour, is_active_at, SlaTarget, OrderStatus,
}
use parcelpilot_ops_copilot.Result.{ok}
use parcelpilot_ops_copilot.Repository.{get_account, get_order, get_ticket, get_source}
use parcelpilot_ops_copilot.Policy.{agreement_overrides, default_source, resolve_applicability}
use parcelpilot_ops_copilot.Domain.Outcomes.{DecisionResult}
use parcelpilot_ops_copilot.Domain.Severity.{classify_severity, hits_for}
use parcelpilot_ops_copilot.Domain.Severity.Unique.{assigned, signal_count, assigned_iff_leads}
use parcelpilot_ops_copilot.Domain.Sla.{SlaOutcome, lookup_sla_target, calculate_sla}
use parcelpilot_ops_copilot.Domain.Sla.Lookup.{account_row_wins}
use parcelpilot_ops_copilot.Domain.Sla.Deadline.{Shape, calculate_sla-Shape}
use parcelpilot_ops_copilot.Domain.Sla.Breach.{Breached, StillBreached, breach_persists}
use parcelpilot_ops_copilot.Domain.Cancellation.{
  CancellationOutcome, CancellationDecision, default_fee_rules, apply_fee_rule,
  evaluate_cancellation,
}
use parcelpilot_ops_copilot.Domain.Cancellation.Table.{Prescribed, evaluate_cancellation-Prescribed}
use parcelpilot_ops_copilot.Domain.ServiceCredit.{
  DelayReference, ServiceCreditOutcome, default_credit_rules, apply_credit_rule,
  evaluate_service_credit,
}
use parcelpilot_ops_copilot.Domain.ServiceCredit.Bounds.{Granted, evaluate_service_credit-Granted}
use parcelpilot_ops_copilot.Domain.ServiceCredit.Trust.{Guarded, evaluate_service_credit-Guarded}
use parcelpilot_ops_copilot.Examples.Scenario.{
  northstar_agent, northstar, outage, northstar_target, store, one_pattern, value_or, option_or,
  blank,
}

assigned_iff_leads_example :
    (assigned (classify_severity one_pattern outage (some store)) ≡ some p1) ↔ (
      (other : Severity)
      → other ≢ p1
      → signal_count one_pattern outage other < signal_count one_pattern outage p1)
assigned_iff_leads_example = assigned_iff_leads one_pattern outage (some store) p1

account_row_wins_example : northstar_target.account_id ≡ some "ACCT-001"
unfolding lookup_sla_target
account_row_wins_example =
    account_row_wins store "SRC-05" northstar p1 northstar_target northstar_target one_scope
      (inl refl) refl refl refl
  where
    one_scope :
        (r : SlaTarget) → Has r store.sla_targets → is_some r.account_id ≡ true → r.plan ≡ none
    one_scope r (inl e) s = sym (ap (λ t. t.plan) e)
    one_scope r (inr h) s = absurd h

-- What the code decides of the outage, and the outcome that it states.
abbrev sla_at : ℕ → DecisionResult SlaOutcome
sla_at now =
    value_or blank (
      calculate_sla one_pattern store "TKT-1" northstar_agent now agreement_overrides
        default_source)

abbrev outcome_at : ℕ → SlaOutcome
outcome_at now =
    option_or
      (record {
        severity = p1;
        applicable_source_id = "";
        target_text = "";
        target_minutes = none;
        is_24x7 = false;
        deadline = none;
        elapsed_past_deadline = none;
        breached = none;
      })
      (sla_at now).result

sla_at_noon :
    calculate_sla one_pattern store "TKT-1" northstar_agent
      (12 * hour)
      agreement_overrides
      default_source
    ≡ ok (sla_at (12 * hour))
unfolding calculate_sla get_ticket get_account classify_severity sort_by hits_for
    resolve_applicability get_source is_active_at lookup_sla_target
sla_at_noon = refl

calculate_sla-Shape_example :
    (ticket : Ticket) × (get_ticket store "TKT-1" northstar_agent ≡ ok ticket)
    × (allows_account northstar_agent ticket.account_id ≡ true)
    × Shape ticket.created_at (12 * hour) (sla_at (12 * hour))
calculate_sla-Shape_example =
    calculate_sla-Shape one_pattern store "TKT-1" northstar_agent (12 * hour) agreement_overrides
      default_source (sla_at (12 * hour)) sla_at_noon

Breached-at_noon : Breached (sla_at (12 * hour)) (outcome_at (12 * hour))
unfolding calculate_sla get_ticket get_account classify_severity sort_by hits_for
    resolve_applicability get_source is_active_at lookup_sla_target
Breached-at_noon = record { stated = refl; passed = refl }

breach_persists_example : StillBreached (outcome_at (12 * hour)) (
    calculate_sla one_pattern store "TKT-1" northstar_agent
      (20 * hour)
      agreement_overrides
      default_source)
breach_persists_example =
    breach_persists one_pattern store "TKT-1" northstar_agent agreement_overrides default_source
      (sla_at (12 * hour)) (outcome_at (12 * hour)) (12 * hour) (20 * hour) sla_at_noon
      Breached-at_noon (omega arith) refl

abbrev cancellation : DecisionResult CancellationOutcome
cancellation = value_or blank (
    evaluate_cancellation store "ORD-1" northstar_agent (12 * hour) default_fee_rules
      agreement_overrides default_source)

abbrev waived_outcome : CancellationOutcome
waived_outcome = record {
  decision = CancellationDecision.can_cancel;
  fee = some 0;
  applicable_rule = ("SRC-05", "2");
  order_status = OrderStatus.booked;
  since_booking = some (pos (2 * hour));
}

evaluate_cancellation-Prescribed_example :
    (order : Order) × (get_order store "ORD-1" northstar_agent ≡ ok order)
    × (allows_account northstar_agent order.account_id ≡ true)
    × Prescribed store
        (12 * hour)
        default_fee_rules
        agreement_overrides
        default_source
        order
        waived_outcome
unfolding evaluate_cancellation get_order resolve_applicability get_source is_active_at
    apply_fee_rule
evaluate_cancellation-Prescribed_example =
    evaluate_cancellation-Prescribed store "ORD-1" northstar_agent (12 * hour) default_fee_rules
      agreement_overrides default_source cancellation waived_outcome refl refl

abbrev credit : DecisionResult ServiceCreditOutcome
credit = value_or blank (
    evaluate_service_credit store "ORD-1" northstar_agent (12 * hour) default_credit_rules
      agreement_overrides default_source)

-- Six hours late: the lower of INR 500 and ten percent of INR 800.
abbrev credit_outcome : ServiceCreditOutcome
credit_outcome = record {
  eligible = true;
  credit = some 800000;
  applicable_rule = ("SRC-03", "2");
  delay = some (pos (6 * hour));
  delay_reference = some DelayReference.snapshot;
  manager_approval_required = false;
}

evaluate_service_credit-Granted_example :
    (order : Order) × (get_order store "ORD-1" northstar_agent ≡ ok order)
    × (allows_account northstar_agent order.account_id ≡ true)
    × Granted store
        (12 * hour)
        default_credit_rules
        agreement_overrides
        default_source
        order
        credit_outcome
unfolding evaluate_service_credit get_order resolve_applicability apply_credit_rule
evaluate_service_credit-Granted_example =
    evaluate_service_credit-Granted store "ORD-1" northstar_agent (12 * hour) default_credit_rules
      agreement_overrides default_source credit credit_outcome refl refl

evaluate_service_credit-Guarded_example : Guarded credit credit_outcome
unfolding evaluate_service_credit get_order resolve_applicability apply_credit_rule
evaluate_service_credit-Guarded_example =
    evaluate_service_credit-Guarded store "ORD-1" northstar_agent (12 * hour) default_credit_rules
      agreement_overrides default_source credit credit_outcome refl refl
