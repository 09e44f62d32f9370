-- ===== src/Domain/ServiceCredit/Bounds.antt =====
-- When app/domain/service_credit.py grants a credit, and of what amount.
use parcelpilot_ops_copilot.Prelude.{
  ℕ, ◌+◌, ◌*◌, ◌<◌, ◌≤◌, String, true, false, ◌≡◌, ◌⊎◌, inl, inr, refl, Option, none, some, List,
  arith, lookup, if◌then◌else◌, Bool-cases, is_some, not, ◌||◌, min,
}
use parcelpilot_ops_copilot.Prelude.Int.{ℤ, sub_ℕ, le_nat}
use parcelpilot_ops_copilot.Models.{
  service_credit_threshold_and_amount, AuthContext, allows_account, Order, Database, Instant, hour,
  date_of, Money,
}
use parcelpilot_ops_copilot.Result.{ok, >>=-eq-ok}
use parcelpilot_ops_copilot.Repository.{get_order}
use parcelpilot_ops_copilot.Repository.Access.{gets_scoped}
use parcelpilot_ops_copilot.Policy.{
  AgreementOverride, Defaults, ApplicabilityResult, resolve_applicability,
}
use parcelpilot_ops_copilot.Domain.Outcomes.{DecisionResult}
use parcelpilot_ops_copilot.Domain.Cancellation.{rule_for, required}
use parcelpilot_ops_copilot.Domain.Cancellation.Table.{rule_for-some}
use parcelpilot_ops_copilot.Domain.ServiceCredit.{
  ServiceCreditOutcome, ServiceCreditRule, CreditRuleKind, fixed_amount, percentage_with_cap,
  Credit, CreditRules, apply_credit_rule, credit_by_kind, fixed_rule, percentage_rule,
  reference_instant, refused, credit_for_delay, delay_of, evaluate_service_credit,
}

-- What a rule grants for a pickup window that ended at `end`, measured at `t`, on a fee in 1/100
-- rupee.
pub data CreditDue (rule : ServiceCreditRule) (end t : Instant) (fee : ℕ) (credit : Option Money)
    : Type 0 where
  not_late : t ≤ end + rule.threshold_hours * hour → credit ≡ none → CreditDue rule end t fee credit
  fixed_credit :
      end + rule.threshold_hours * hour < t
      → rule.kind ≡ fixed_amount
      → (amount : Money) → rule.fixed ≡ some amount
      → credit ≡ some amount
      → CreditDue rule end t fee credit
  percentage_credit :
      end + rule.threshold_hours * hour < t
      → rule.kind ≡ percentage_with_cap
      → (cap percentage amount : ℕ) → rule.cap ≡ some cap
      → rule.percentage ≡ some percentage
      → credit ≡ some amount
      → amount ≤ cap
      → amount ≤ percentage * fee
      → (amount ≡ cap) ⊎ (amount ≡ percentage * fee)
      → CreditDue rule end t fee credit

module _ (rule : ServiceCreditRule) (end t : Instant) (fee : ℕ) (credit : Credit)
    (after : end + rule.threshold_hours * hour < t) where
  fixed_rule-CreditDue :
      (amount : Option Money)
      → rule.kind ≡ fixed_amount
      → rule.fixed ≡ amount
      → fixed_rule rule.threshold_hours amount ≡ ok credit
      → CreditDue rule end t fee credit.1
  fixed_rule-CreditDue none k e h = cc
  fixed_rule-CreditDue (some amount) k e h = fixed_credit after k amount e (ground arith)

  percentage_rule-CreditDue :
      (cap percentage : Option ℕ)
      → rule.kind ≡ percentage_with_cap
      → rule.cap ≡ cap
      → rule.percentage ≡ percentage
      → percentage_rule rule.threshold_hours cap percentage fee ≡ ok credit
      → CreditDue rule end t fee credit.1
  percentage_rule-CreditDue none percentage k c e h = cc
  percentage_rule-CreditDue (some cap) none k c e h = cc
  percentage_rule-CreditDue (some cap) (some percentage) k c e h =
      percentage_credit after k cap percentage (min cap (percentage * fee)) c e (ground arith)
        (omega arith) (omega arith) (omega arith)

  credit_by_kind-CreditDue :
      (kind : CreditRuleKind)
      → rule.kind ≡ kind
      → credit_by_kind kind rule fee ≡ ok credit
      → CreditDue rule end t fee credit.1
  credit_by_kind-CreditDue fixed_amount k h = fixed_rule-CreditDue rule.fixed k refl h
  credit_by_kind-CreditDue percentage_with_cap k h =
      percentage_rule-CreditDue rule.cap rule.percentage k refl refl h

apply_credit_rule-CreditDue :
    (rule : ServiceCreditRule) (end t : Instant) (fee : ℕ) (credit : Credit)
    → apply_credit_rule rule (sub_ℕ t end) fee ≡ ok credit
    → CreditDue rule end t fee credit.1
unfolding apply_credit_rule
apply_credit_rule-CreditDue rule end t fee credit h =
    elim (Bool-cases (le_nat (sub_ℕ t end) (rule.threshold_hours * hour))) [
      | inl early ↦ not_late (ground arith) (ground arith)
      | inr after ↦
          credit_by_kind-CreditDue rule end t fee credit (ground arith) rule.kind refl
            (rw after at h)
    ]

credit_by_kind-eligible :
    (kind : CreditRuleKind) (rule : ServiceCreditRule) (fee : ℕ) (credit : Credit)
    → credit_by_kind kind rule fee ≡ ok credit
    → credit.0 ≡ is_some credit.1
credit_by_kind-eligible fixed_amount rule fee credit h = ground arith
credit_by_kind-eligible percentage_with_cap rule fee credit h = ground arith

apply_credit_rule-eligible :
    (rule : ServiceCreditRule) (delay : ℤ) (fee : ℕ) (credit : Credit)
    → apply_credit_rule rule delay fee ≡ ok credit
    → credit.0 ≡ is_some credit.1
unfolding apply_credit_rule
apply_credit_rule-eligible rule delay fee credit h =
    elim (Bool-cases (le_nat delay (rule.threshold_hours * hour))) [
      | inl early ↦ ground arith
      | inr after ↦ credit_by_kind-eligible rule.kind rule fee credit (rw after at h)
    ]

-- What is decided on an order.
pub data Granted (conn : Database) (now : Instant) (credit_rules : CreditRules)
    (overrides : List AgreementOverride) (defaults : Defaults) (order : Order)
    (o : ServiceCreditOutcome) : Type 0 where
  denied :
      (order.carrier_fault ≡ false) ⊎ (order.customer_fault ≡ true)
      → o.eligible ≡ false
      → o.credit ≡ none
      → Granted conn now credit_rules overrides defaults order o
  measured :
      (a : ApplicabilityResult) (rule : ServiceCreditRule)
      → order.carrier_fault ≡ true
      → order.customer_fault ≡ false
      → resolve_applicability conn service_credit_threshold_and_amount order.account_id
          (date_of now)
          overrides
          defaults
        ≡ ok a
      → lookup a.winning_source_id credit_rules ≡ some rule
      → CreditDue rule order.pickup_window_end
          (reference_instant order.pickup_actual_at now)
          order.shipment_fee_paise
          o.credit
      → o.eligible ≡ is_some o.credit
      → Granted conn now credit_rules overrides defaults order o

module _ (conn : Database) (now : Instant) (credit_rules : CreditRules)
    (overrides : List AgreementOverride) (defaults : Defaults) (order : Order)
    (d : DecisionResult ServiceCreditOutcome) (o : ServiceCreditOutcome)
    (stated : d.result ≡ some o) where
  credit_for_delay-Granted :
      order.carrier_fault ≡ true
      → order.customer_fault ≡ false
      → credit_for_delay conn now credit_rules overrides defaults order ≡ ok d
      → Granted conn now credit_rules overrides defaults order o
  unfolding credit_for_delay
  credit_for_delay-Granted carrier customer h =
      let (a, resolved, rest) =
        >>=-eq-ok
          (resolve_applicability conn service_credit_threshold_and_amount order.account_id
            (date_of now) overrides defaults)
          _ h in
      let (rule, got, rest') =
        >>=-eq-ok (rule_for (lookup a.winning_source_id credit_rules) a.winning_source_id) _ rest in
      let delay = delay_of conn now credit_rules overrides defaults order in
      let (credit, applied, last) =
        >>=-eq-ok (apply_credit_rule rule delay order.shipment_fee_paise) _ rest' in
      let same : o.credit ≡ credit.1 = ground arith in
      let eligible : o.eligible ≡ credit.0 = ground arith in
      measured a rule carrier customer resolved
        (rule_for-some (lookup a.winning_source_id credit_rules) a.winning_source_id got)
        (rw same (
          apply_credit_rule-CreditDue rule order.pickup_window_end
            (reference_instant order.pickup_actual_at now) order.shipment_fee_paise credit applied))
        (rw (eligible, same)
          (apply_credit_rule-eligible rule delay order.shipment_fee_paise credit applied))

  decided-Granted :
      (rule : String × String)
      → (if not order.carrier_fault || order.customer_fault
          then ok (refused conn order rule)
          else credit_for_delay conn now credit_rules overrides defaults order)
        ≡ ok d
      → Granted conn now credit_rules overrides defaults order o
  decided-Granted rule h = elim (Bool-cases (not order.carrier_fault || order.customer_fault)) [
    | inl at_fault ↦ denied (ground arith) (ground arith) (ground arith)
    | inr clear ↦ credit_for_delay-Granted (ground arith) (ground arith) (rw clear at h)
  ]

-- Every outcome is about an order that the caller may see. Without carrier fault, or with customer
-- fault, no credit is stated. Otherwise the rule of the governing source decides: nothing up to its
-- threshold of delay; past it the fixed amount, or the lower of the cap and the percentage of the
-- fee. An order is eligible exactly when an amount is stated.
pub evaluate_service_credit-Granted :
    (conn : Database) (order_id : String) (auth : AuthContext) (now : Instant)
    (credit_rules : CreditRules) (overrides : List AgreementOverride) (defaults : Defaults)
    (d : DecisionResult ServiceCreditOutcome) (o : ServiceCreditOutcome)
    → evaluate_service_credit conn order_id auth now credit_rules overrides defaults ≡ ok d
    → d.result ≡ some o
    → (order : Order) × (get_order conn order_id auth ≡ ok order)
      × (allows_account auth order.account_id ≡ true)
      × Granted conn now credit_rules overrides defaults order o
unfolding evaluate_service_credit
evaluate_service_credit-Granted conn order_id auth now credit_rules overrides defaults d o h
      stated =
    let (order, got, rest) = >>=-eq-ok (get_order conn order_id auth) _ h in
    let (rule, has_default, decided) =
      >>=-eq-ok (required (defaults service_credit_threshold_and_amount)) _ rest in
    (
      order,
      got,
      ((gets_scoped conn auth order_id).1 order got).2,
      decided-Granted conn now credit_rules overrides defaults order d o stated rule decided,
    )
