-- ===== src/Domain/ServiceCredit.antt =====
-- app/domain/service_credit.py. A delay is held as a signed number of microseconds. A percentage
-- of a fee in 1/100 rupee is a whole number of units of 1/10,000 rupee, so credits are exact.
pub mod Bounds
pub mod Trust
use parcelpilot_ops_copilot.Prelude.{
  ℕ, ◌*◌, String, Bool, true, false, not, ◌||◌, Option, none, some, List, [], ◌∷◌, lookup, min, ltb,
  if◌then◌else◌,
}
use parcelpilot_ops_copilot.Prelude.Int.{ℤ, sub_ℕ, le_nat}
use parcelpilot_ops_copilot.Models.{
  service_credit_threshold_and_amount, confident, AuthContext, Order, Database, Instant, hour,
  date_of, Money, inr,
}
use parcelpilot_ops_copilot.Result.{Result, ok, raise, Error, ◌>>=◌, ◌>>◌}
use parcelpilot_ops_copilot.Repository.{get_order}
use parcelpilot_ops_copilot.Policy.{
  AgreementOverride, Defaults, ApplicabilityResult, resolve_applicability,
}
use parcelpilot_ops_copilot.Domain.Outcomes.{
  DecisionResult, Reason, CreditNote, Assumption, CalculationInput, conflicts_of, trust_from,
}
use parcelpilot_ops_copilot.Domain.Evidence.{cite_document, cite_structured}
use parcelpilot_ops_copilot.Domain.Cancellation.{rule_for, required}

abbrev pub manager_approval_threshold : Money
manager_approval_threshold = inr 1000

pub data DelayReference : Type 0 where
  pickup_actual snapshot : DelayReference

pub record ServiceCreditOutcome : Type 0 where
  pub eligible : Bool
  pub credit : Option Money
  pub applicable_rule : String × String
  pub delay : Option ℤ
  pub delay_reference : Option DelayReference
  pub manager_approval_required : Bool

pub data CreditRuleKind : Type 0 where
  percentage_with_cap fixed_amount : CreditRuleKind

pub record ServiceCreditRule : Type 0 where
  pub threshold_hours : ℕ
  pub kind : CreditRuleKind
  pub cap : Option Money
  pub percentage : Option ℕ
  pub fixed : Option Money

abbrev pub Credit : Type 0
Credit = Bool × Option Money × CreditNote

abbrev fixed_rule : ℕ → Option Money → Result Credit
fixed_rule threshold none = raise Error.assertion_error
fixed_rule threshold (some amount) =
    ok (true, some amount, CreditNote.fixed_credit threshold amount)

abbrev percentage_rule : ℕ → Option Money → Option ℕ → ℕ → Result Credit
percentage_rule threshold none percentage fee = raise Error.assertion_error
percentage_rule threshold (some cap) none fee = raise Error.assertion_error
percentage_rule threshold (some cap) (some percentage) fee =
    ok (
      true,
      some (min cap (percentage * fee)),
      CreditNote.percentage_credit threshold cap percentage,
    )

abbrev credit_by_kind : CreditRuleKind → ServiceCreditRule → ℕ → Result Credit
credit_by_kind fixed_amount rule fee = fixed_rule rule.threshold_hours rule.fixed
credit_by_kind percentage_with_cap rule fee =
    percentage_rule rule.threshold_hours rule.cap rule.percentage fee

-- The fee is in 1/100 rupee.
unfoldable pub apply_credit_rule : ServiceCreditRule → ℤ → ℕ → Result Credit
apply_credit_rule rule delay fee =
    if le_nat delay (rule.threshold_hours * hour)
    then ok (false, none, CreditNote.below_threshold rule.threshold_hours)
    else credit_by_kind rule.kind rule fee

abbrev pub CreditRules : Type 0
CreditRules = List (String × ServiceCreditRule)

abbrev pub default_credit_rules : CreditRules
default_credit_rules =
    (
      "SRC-03",
      record {
        threshold_hours = 2;
        kind = percentage_with_cap;
        cap = some (inr 500);
        percentage = some 10;
        fixed = none;
      },
    )
    ∷ (
      "SRC-06",
      record {
        threshold_hours = 4;
        kind = fixed_amount;
        cap = none;
        percentage = none;
        fixed = some (inr 300);
      },
    )
    ∷ []

abbrev pub needs_manager : Option Money → Bool
needs_manager none = false
needs_manager (some credit) = ltb manager_approval_threshold credit

-- `order.pickup_actual_at or snapshot`, what it refers to, and the assumption that it rests on.
abbrev pub reference_instant : Option Instant → Instant → Instant
reference_instant none now = now
reference_instant (some picked_up_at) now = picked_up_at

abbrev reference_kind : Option Instant → DelayReference
reference_kind none = snapshot
reference_kind (some picked_up_at) = pickup_actual

abbrev pub delay_assumptions : Option Instant → List Assumption
delay_assumptions none = Assumption.delay_still_accruing ∷ []
delay_assumptions (some picked_up_at) = []

abbrev any_assumption : List Assumption → Bool
any_assumption [] = false
any_assumption (a ∷ as') = true

abbrev refused : Database → Order → String × String → DecisionResult ServiceCreditOutcome
refused conn order (source_id, section) = record {
  result = some (record {
    eligible = false;
    credit = none;
    applicable_rule = (source_id, section);
    delay = none;
    delay_reference = none;
    manager_approval_required = false;
  });
  trust_state = confident;
  reason = if not order.carrier_fault then Reason.no_carrier_fault else Reason.customer_at_fault;
  evidence =
      cite_structured "orders" order.order_id none ∷ cite_document conn source_id section none ∷ [];
  assumptions = [];
  conflicts = [];
  calculation_inputs =
      CalculationInput.carrier_fault order.carrier_fault
      ∷ CalculationInput.customer_fault order.customer_fault
      ∷ [];
  needs_human_review = false;
}

abbrev credit_decision :
    Database → Order → ℤ → ApplicabilityResult → Credit → DecisionResult ServiceCreditOutcome
credit_decision conn order delay a (eligible, credit, note) =
    let manager_approval : Bool = needs_manager credit in
    let review_required : Bool = a.needs_human_review || manager_approval in
    record {
      result = some (record {
        eligible = eligible;
        credit = credit;
        applicable_rule = (a.winning_source_id, a.winning_section);
        delay = some delay;
        delay_reference = some (reference_kind order.pickup_actual_at);
        manager_approval_required = manager_approval;
      });
      trust_state =
          trust_from review_required (any_assumption (delay_assumptions order.pickup_actual_at));
      reason = Reason.credit_decided note a.reason manager_approval;
      evidence =
          cite_structured "orders" order.order_id none
          ∷ cite_document conn a.winning_source_id a.winning_section none
          ∷ [];
      assumptions = delay_assumptions order.pickup_actual_at;
      conflicts = conflicts_of a order.account_id;
      calculation_inputs =
          CalculationInput.delay_hours delay
          ∷ CalculationInput.shipment_fee order.shipment_fee_paise
          ∷ CalculationInput.carrier_fault order.carrier_fault
          ∷ CalculationInput.customer_fault order.customer_fault
          ∷ [];
      needs_human_review = review_required;
    }

module _ (conn : Database) (now : Instant) (credit_rules : CreditRules)
    (overrides : List AgreementOverride) (defaults : Defaults) (order : Order) where
  abbrev pub delay_of : ℤ
  delay_of = sub_ℕ (reference_instant order.pickup_actual_at now) order.pickup_window_end

  -- The function from the reference instant on.
  credit_for_delay : Result (DecisionResult ServiceCreditOutcome)
  credit_for_delay = do
    a ←
        resolve_applicability conn service_credit_threshold_and_amount order.account_id
          (date_of now) overrides defaults
    rule ← rule_for (lookup a.winning_source_id credit_rules) a.winning_source_id
    credit ← apply_credit_rule rule delay_of order.shipment_fee_paise
    ok (credit_decision conn order delay_of a credit)

unfoldable pub evaluate_service_credit :
    Database
    → String
    → AuthContext
    → Instant
    → CreditRules
    → List AgreementOverride
    → Defaults
    → Result (DecisionResult ServiceCreditOutcome)
unfolding credit_for_delay
evaluate_service_credit conn order_id auth now credit_rules overrides defaults = do
  order ← get_order conn order_id auth
  rule ← required (defaults service_credit_threshold_and_amount)
  if not order.carrier_fault || order.customer_fault
      then ok (refused conn order rule)
      else credit_for_delay conn now credit_rules overrides defaults order
