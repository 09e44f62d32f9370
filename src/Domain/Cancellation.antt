-- ===== src/Domain/Cancellation.antt =====
-- app/domain/cancellation.py. The minutes since booking are held as a signed number of
-- microseconds, and a fee in units of 1/10,000 rupee.
pub mod Table
use parcelpilot_ops_copilot.Prelude.{
  ℕ, ◌*◌, String, Bool, false, Option, none, some, List, [], ◌∷◌, lookup, if◌then◌else◌,
}
use parcelpilot_ops_copilot.Prelude.Int.{ℤ, sub_ℕ, le_nat}
use parcelpilot_ops_copilot.Models.{
  OrderStatus, draft, booked, picked_up, delivered, cancellation_fee, confident, AuthContext, Order,
  Database, EvidenceRef, Instant, minute, date_of, Money, inr,
}
use parcelpilot_ops_copilot.Result.{Result, ok, raise, Error, ◌>>=◌, ◌>>◌}
use parcelpilot_ops_copilot.Repository.{get_order}
use parcelpilot_ops_copilot.Policy.{
  AgreementOverride, Defaults, ApplicabilityResult, resolve_applicability,
}
use parcelpilot_ops_copilot.Domain.Outcomes.{
  DecisionResult, Reason, FeeNote, CalculationInput, conflicts_of, trust_from,
}
use parcelpilot_ops_copilot.Domain.Evidence.{cite_document, cite_structured}

pub data CancellationDecision : Type 0 where
  can_cancel cannot_cancel no_action_needed : CancellationDecision

-- `applicable_rule` is the pair that the text joins by "#".
pub record CancellationOutcome : Type 0 where
  pub decision : CancellationDecision
  pub fee : Option Money
  pub applicable_rule : String × String
  pub order_status : OrderStatus
  pub since_booking : Option ℤ

pub data FeeRuleKind : Type 0 where
  threshold_fee full_waiver : FeeRuleKind

pub record CancellationFeeRule : Type 0 where
  pub kind : FeeRuleKind
  pub threshold_minutes : Option ℕ
  pub fee : Option Money

-- `assert rule.threshold_minutes is not None and rule.fee_inr is not None`
abbrev threshold_rule : Option ℕ → Option Money → ℤ → Result (Money × FeeNote)
threshold_rule none fee elapsed = raise Error.assertion_error
threshold_rule (some threshold) none elapsed = raise Error.assertion_error
threshold_rule (some threshold) (some fee) elapsed =
    if le_nat elapsed (threshold * minute)
    then ok (0, FeeNote.within_threshold threshold)
    else ok (fee, FeeNote.past_threshold threshold fee)

abbrev fee_by_kind : FeeRuleKind → CancellationFeeRule → ℤ → Result (Money × FeeNote)
fee_by_kind full_waiver rule elapsed = ok (0, FeeNote.waived)
fee_by_kind threshold_fee rule elapsed = threshold_rule rule.threshold_minutes rule.fee elapsed

unfoldable pub apply_fee_rule : CancellationFeeRule → ℤ → Result (Money × FeeNote)
apply_fee_rule rule elapsed = fee_by_kind rule.kind rule elapsed

abbrev pub FeeRules : Type 0
FeeRules = List (String × CancellationFeeRule)

abbrev pub default_fee_rules : FeeRules
default_fee_rules =
    ("SRC-03", record { kind = threshold_fee; threshold_minutes = some 30; fee = some (inr 250) })
    ∷ ("SRC-05", record { kind = full_waiver; threshold_minutes = none; fee = none })
    ∷ []

-- `fee_rules[source_id]`
abbrev pub rule_for {ℓ} : {V : Type ℓ} → Option V → String → Result V
rule_for none source_id = raise (Error.key_error source_id)
rule_for (some rule) source_id = ok rule

-- `assert default_source is not None`
abbrev pub required {ℓ} : {A : Type ℓ} → Option A → Result A
required none = raise Error.assertion_error
required (some a) = ok a

-- A decision that the order's status settles, under the default rule.
abbrev pub by_status :
    CancellationDecision
    → Option Money
    → String × String
    → OrderStatus
    → Reason
    → List EvidenceRef
    → DecisionResult CancellationOutcome
by_status decision fee rule status reason evidence = record {
  result = some (record {
    decision = decision;
    fee = fee;
    applicable_rule = rule;
    order_status = status;
    since_booking = none;
  });
  trust_state = confident;
  reason = reason;
  evidence = evidence;
  assumptions = [];
  conflicts = [];
  calculation_inputs = [];
  needs_human_review = false;
}

abbrev fee_decision :
    Database
    → Order
    → Instant
    → ApplicabilityResult
    → Money × FeeNote
    → DecisionResult CancellationOutcome
fee_decision conn order requested a (fee, note) =
    let elapsed : ℤ = sub_ℕ requested order.booked_at in
    record {
      result = some (record {
        decision = can_cancel;
        fee = some fee;
        applicable_rule = (a.winning_source_id, a.winning_section);
        order_status = order.status;
        since_booking = some elapsed;
      });
      trust_state = trust_from a.needs_human_review false;
      reason = Reason.fee_decided note a.reason;
      evidence =
          cite_structured "orders" order.order_id none
          ∷ cite_document conn a.winning_source_id a.winning_section none
          ∷ [];
      assumptions = [];
      conflicts = conflicts_of a order.account_id;
      calculation_inputs =
          CalculationInput.minutes_since_booking elapsed
          ∷ CalculationInput.booked_at order.booked_at
          ∷ CalculationInput.cancellation_requested_at requested
          ∷ [];
      needs_human_review = a.needs_human_review;
    }

module _ (conn : Database) (now : Instant) (fee_rules : FeeRules)
    (overrides : List AgreementOverride) (defaults : Defaults) (order : Order) where
  -- The branch of a BOOKED order.
  booked_order : String × String → Option Instant → Result (DecisionResult CancellationOutcome)
  booked_order rule none = ok (
      by_status no_action_needed none rule order.status Reason.no_cancellation_requested
        (cite_structured "orders" order.order_id none ∷ []))
  booked_order rule (some requested) = do
    a ←
        resolve_applicability conn cancellation_fee order.account_id (date_of now) overrides
          defaults
    fee_rule ← rule_for (lookup a.winning_source_id fee_rules) a.winning_source_id
    decided ← apply_fee_rule fee_rule (sub_ℕ requested order.booked_at)
    ok (fee_decision conn order requested a decided)

  abbrev cited : String × String → List EvidenceRef
  cited (source_id, section) =
      cite_structured "orders" order.order_id none ∷ cite_document conn source_id section none ∷ []

  cancel_by_status : OrderStatus → String × String → Result (DecisionResult CancellationOutcome)
  unfolding booked_order
  cancel_by_status delivered rule =
      ok (by_status cannot_cancel none rule order.status Reason.delivered_order (cited rule))
  cancel_by_status picked_up rule =
      ok (by_status cannot_cancel none rule order.status Reason.picked_up_order (cited rule))
  cancel_by_status draft rule =
      ok (by_status can_cancel (some 0) rule order.status Reason.draft_order (cited rule))
  cancel_by_status booked rule = booked_order rule order.cancellation_requested_at

unfoldable pub evaluate_cancellation :
    Database
    → String
    → AuthContext
    → Instant
    → FeeRules
    → List AgreementOverride
    → Defaults
    → Result (DecisionResult CancellationOutcome)
unfolding cancel_by_status
evaluate_cancellation conn order_id auth now fee_rules overrides defaults = do
  order ← get_order conn order_id auth
  rule ← required (defaults cancellation_fee)
  cancel_by_status conn now fee_rules overrides defaults order order.status rule
