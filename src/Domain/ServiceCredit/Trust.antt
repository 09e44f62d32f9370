-- ===== src/Domain/ServiceCredit/Trust.antt =====
-- How far a credit of app/domain/service_credit.py is trusted.
use parcelpilot_ops_copilot.Prelude.{
  ◌<◌, String, Bool, true, false, ◌≡◌, ◌≢◌, none, some, List, arith, lookup, if◌then◌else◌, not,
  ◌||◌,
}
use parcelpilot_ops_copilot.Prelude.Int.{ℤ}
use parcelpilot_ops_copilot.Models.{
  service_credit_threshold_and_amount, AuthContext, Order, Database, Instant, date_of, Money,
  confident, escalate,
}
use parcelpilot_ops_copilot.Result.{ok, >>=-eq-ok, ok-injective}
use parcelpilot_ops_copilot.Repository.{get_order}
use parcelpilot_ops_copilot.Policy.{
  AgreementOverride, Defaults, ApplicabilityResult, resolve_applicability,
}
use parcelpilot_ops_copilot.Domain.Outcomes.{DecisionResult, trust_from}
use parcelpilot_ops_copilot.Domain.Cancellation.{rule_for, required}
use parcelpilot_ops_copilot.Domain.ServiceCredit.{
  ServiceCreditOutcome, snapshot, Credit, CreditRules, apply_credit_rule, refused, credit_decision,
  credit_for_delay, delay_of, evaluate_service_credit, manager_approval_threshold,
}

-- Manager approval is required exactly for a credit above the threshold, and makes the decision an
-- escalation for review; a delay that is measured from the snapshot is never CONFIDENT.
pub record Guarded (d : DecisionResult ServiceCreditOutcome) (o : ServiceCreditOutcome)
    : Type 0 where
  pub above_needs_manager :
      (c : Money)
      → o.credit ≡ some c
      → manager_approval_threshold < c
      → o.manager_approval_required ≡ true
  pub manager_only_above :
      o.manager_approval_required ≡ true
      → (c : Money) × (o.credit ≡ some c) × (manager_approval_threshold < c)
  pub manager_escalates :
      o.manager_approval_required ≡ true
      → (d.trust_state ≡ escalate) × (d.needs_human_review ≡ true)
  pub accruing_unsure : o.delay_reference ≡ some snapshot → d.trust_state ≢ confident

module _ (d : DecisionResult ServiceCreditOutcome) (o : ServiceCreditOutcome)
    (stated : d.result ≡ some o) where
  credit_decision-Guarded :
      (conn : Database) (order : Order) (delay : ℤ) (a : ApplicabilityResult) (credit : Credit)
      → credit_decision conn order delay a credit ≡ d
      → Guarded d o
  unfolding trust_from
  credit_decision-Guarded conn order delay a (eligible, none, note) h = record {
    above_needs_manager = λ c e above. ground arith;
    manager_only_above = λ m. absurd (ground arith);
    manager_escalates = λ m. ground arith;
    accruing_unsure = λ s. ground arith;
  }
  credit_decision-Guarded conn order delay a (eligible, some amount, note) h = record {
    above_needs_manager = λ c e above. ground arith;
    manager_only_above = λ m. (amount, ground arith, ground arith);
    manager_escalates = λ m. ground arith;
    accruing_unsure = λ s. ground arith;
  }

  refused-Guarded :
      (conn : Database) (order : Order) (rule : String × String)
      → refused conn order rule ≡ d
      → Guarded d o
  refused-Guarded conn order rule h = record {
    above_needs_manager = λ c e above. ground arith;
    manager_only_above = λ m. absurd (ground arith);
    manager_escalates = λ m. ground arith;
    accruing_unsure = λ s. ground arith;
  }

  credit_for_delay-Guarded :
      (conn : Database) (now : Instant) (credit_rules : CreditRules)
      (overrides : List AgreementOverride) (defaults : Defaults) (order : Order)
      → credit_for_delay conn now credit_rules overrides defaults order ≡ ok d
      → Guarded d o
  unfolding credit_for_delay
  credit_for_delay-Guarded conn now credit_rules overrides defaults order h =
      let (a, resolved, rest) =
        >>=-eq-ok
          (resolve_applicability conn service_credit_threshold_and_amount order.account_id
            (date_of now) overrides defaults)
          _ h in
      let (rule, got, rest') =
        >>=-eq-ok (rule_for (lookup a.winning_source_id credit_rules) a.winning_source_id) _ rest in
      let delay = delay_of conn now credit_rules overrides defaults order in
      let (credit, applied, last) =
        >>=-eq-ok (apply_credit_rule rule delay order.shipment_fee_paise) _ rest' in
      credit_decision-Guarded conn order delay a credit (ok-injective last)

  decided-Guarded :
      (conn : Database) (now : Instant) (credit_rules : CreditRules)
      (overrides : List AgreementOverride) (defaults : Defaults) (order : Order)
      (rule : String × String) (refuse : Bool)
      → (if refuse
          then ok (refused conn order rule)
          else credit_for_delay conn now credit_rules overrides defaults order)
        ≡ ok d
      → Guarded d o
  decided-Guarded conn now credit_rules overrides defaults order rule true h =
      refused-Guarded conn order rule (ok-injective h)
  decided-Guarded conn now credit_rules overrides defaults order rule false h =
      credit_for_delay-Guarded conn now credit_rules overrides defaults order h

-- Manager approval is required exactly for a credit above INR 1000, and then the decision is an
-- escalation that asks for review; and a delay measured from the snapshot is never CONFIDENT.
pub evaluate_service_credit-Guarded :
    (conn : Database) (order_id : String) (auth : AuthContext) (now : Instant)
    (credit_rules : CreditRules) (overrides : List AgreementOverride) (defaults : Defaults)
    (d : DecisionResult ServiceCreditOutcome) (o : ServiceCreditOutcome)
    → evaluate_service_credit conn order_id auth now credit_rules overrides defaults ≡ ok d
    → d.result ≡ some o
    → Guarded d o
unfolding evaluate_service_credit
evaluate_service_credit-Guarded conn order_id auth now credit_rules overrides defaults d o h
      stated =
    let (order, got, rest) = >>=-eq-ok (get_order conn order_id auth) _ h in
    let (rule, has_default, decided) =
      >>=-eq-ok (required (defaults service_credit_threshold_and_amount)) _ rest in
    decided-Guarded d o stated conn now credit_rules overrides defaults order rule
      (not order.carrier_fault || order.customer_fault) decided
