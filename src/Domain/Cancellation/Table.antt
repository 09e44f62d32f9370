-- ===== src/Domain/Cancellation/Table.antt =====
-- The decision table of a cancellation, for app/domain/cancellation.py.
use parcelpilot_ops_copilot.Prelude.{
  ℕ, ◌+◌, ◌*◌, ◌<◌, ◌≤◌, String, true, ◌≡◌, ◌⊎◌, inl, inr, ap, Bool-cases, refl, Option, none, some,
  List, arith, lookup,
}
use parcelpilot_ops_copilot.Prelude.Int.{sub_ℕ, le_nat}
use parcelpilot_ops_copilot.Models.{
  OrderStatus, draft, booked, picked_up, delivered, cancellation_fee, AuthContext, allows_account,
  Order, Database, Instant, minute, date_of, Money,
}
use parcelpilot_ops_copilot.Result.{ok, >>=-eq-ok, ok-injective}
use parcelpilot_ops_copilot.Repository.{get_order}
use parcelpilot_ops_copilot.Repository.Access.{gets_scoped}
use parcelpilot_ops_copilot.Policy.{
  AgreementOverride, Defaults, ApplicabilityResult, resolve_applicability,
}
use parcelpilot_ops_copilot.Domain.Outcomes.{DecisionResult, FeeNote}
use parcelpilot_ops_copilot.Domain.Cancellation.{
  CancellationOutcome, can_cancel, cannot_cancel, no_action_needed, CancellationFeeRule,
  FeeRuleKind, threshold_fee, full_waiver, apply_fee_rule, FeeRules, rule_for, required,
  booked_order, cancel_by_status, evaluate_cancellation, fee_by_kind, threshold_rule,
}

-- The fee that a rule asks of an order booked at `start` whose cancellation was asked at `t`.
pub data FeeDue (rule : CancellationFeeRule) (start t : Instant) (fee : Money) : Type 0 where
  waiver : rule.kind ≡ full_waiver → fee ≡ 0 → FeeDue rule start t fee
  in_time :
      rule.kind ≡ threshold_fee
      → (threshold : ℕ) → rule.threshold_minutes ≡ some threshold
      → t ≤ start + threshold * minute
      → fee ≡ 0
      → FeeDue rule start t fee
  late :
      rule.kind ≡ threshold_fee
      → (threshold : ℕ) → rule.threshold_minutes ≡ some threshold
      → start + threshold * minute < t
      → rule.fee ≡ some fee
      → FeeDue rule start t fee

module _ (rule : CancellationFeeRule) (start t : Instant) (charged : Money × FeeNote) where
  threshold_rule-FeeDue :
      (threshold : Option ℕ) (fee : Option Money)
      → rule.kind ≡ threshold_fee
      → rule.threshold_minutes ≡ threshold
      → rule.fee ≡ fee
      → threshold_rule threshold fee (sub_ℕ t start) ≡ ok charged
      → FeeDue rule start t charged.0
  threshold_rule-FeeDue none fee k e f h = cc
  threshold_rule-FeeDue (some threshold) none k e f h = cc
  threshold_rule-FeeDue (some threshold) (some fee) k e f h =
      elim (Bool-cases (le_nat (sub_ℕ t start) (threshold * minute))) [
        | inl early ↦ in_time k threshold e (ground arith) (ground arith)
        | inr after ↦ late k threshold e (ground arith) (ground arith)
      ]

  fee_by_kind-FeeDue :
      (kind : FeeRuleKind)
      → rule.kind ≡ kind
      → fee_by_kind kind rule (sub_ℕ t start) ≡ ok charged
      → FeeDue rule start t charged.0
  fee_by_kind-FeeDue full_waiver k h = waiver k (ground arith)
  fee_by_kind-FeeDue threshold_fee k h =
      threshold_rule-FeeDue rule.threshold_minutes rule.fee k refl refl h

apply_fee_rule-FeeDue :
    (rule : CancellationFeeRule) (start t : Instant) (charged : Money × FeeNote)
    → apply_fee_rule rule (sub_ℕ t start) ≡ ok charged
    → FeeDue rule start t charged.0
unfolding apply_fee_rule
apply_fee_rule-FeeDue rule start t charged h =
    fee_by_kind-FeeDue rule start t charged rule.kind refl h

-- What the decision table prescribes for an order.
pub data Prescribed (conn : Database) (now : Instant) (fee_rules : FeeRules)
    (overrides : List AgreementOverride) (defaults : Defaults) (order : Order)
    (o : CancellationOutcome) : Type 0 where
  after_pickup :
      (order.status ≡ delivered) ⊎ (order.status ≡ picked_up)
      → o.decision ≡ cannot_cancel
      → o.fee ≡ none
      → Prescribed conn now fee_rules overrides defaults order o
  free_draft :
      order.status ≡ draft
      → o.decision ≡ can_cancel
      → o.fee ≡ some 0
      → Prescribed conn now fee_rules overrides defaults order o
  not_requested :
      order.status ≡ booked
      → order.cancellation_requested_at ≡ none
      → o.decision ≡ no_action_needed
      → o.fee ≡ none
      → Prescribed conn now fee_rules overrides defaults order o
  requested :
      (t : Instant) (a : ApplicabilityResult) (rule : CancellationFeeRule) (fee : Money)
      → order.status ≡ booked
      → order.cancellation_requested_at ≡ some t
      → resolve_applicability conn cancellation_fee order.account_id
          (date_of now)
          overrides
          defaults
        ≡ ok a
      → lookup a.winning_source_id fee_rules ≡ some rule
      → o.decision ≡ can_cancel
      → o.fee ≡ some fee
      → FeeDue rule order.booked_at t fee
      → Prescribed conn now fee_rules overrides defaults order o

pub rule_for-some :
    {V : Type 0} (found : Option V) (source_id : String) {rule : V}
    → rule_for found source_id ≡ ok rule
    → found ≡ some rule
rule_for-some none source_id h = cc
rule_for-some (some r) source_id h = ap some (ok-injective h)

module _ (conn : Database) (now : Instant) (fee_rules : FeeRules)
    (overrides : List AgreementOverride) (defaults : Defaults) (order : Order)
    (rule : String × String) (d : DecisionResult CancellationOutcome) (o : CancellationOutcome)
    (stated : d.result ≡ some o) where
  booked_order-Prescribed :
      (request : Option Instant)
      → order.status ≡ booked
      → order.cancellation_requested_at ≡ request
      → booked_order conn now fee_rules overrides defaults order rule request ≡ ok d
      → Prescribed conn now fee_rules overrides defaults order o
  unfolding booked_order
  booked_order-Prescribed none s r h = not_requested s r (ground arith) (ground arith)
  booked_order-Prescribed (some t) s r h =
      let (a, resolved, rest) =
        >>=-eq-ok
          (resolve_applicability conn cancellation_fee order.account_id (date_of now) overrides
            defaults)
          _ h in
      let (fee_rule, got, rest') =
        >>=-eq-ok (rule_for (lookup a.winning_source_id fee_rules) a.winning_source_id) _ rest in
      let (charged, applied, last) =
        >>=-eq-ok (apply_fee_rule fee_rule (sub_ℕ t order.booked_at)) _ rest' in
      requested t a fee_rule charged.0 s r resolved
        (rule_for-some (lookup a.winning_source_id fee_rules) a.winning_source_id got)
        (ground arith) (ground arith)
        (apply_fee_rule-FeeDue fee_rule order.booked_at t charged applied)

  cancel_by_status-Prescribed :
      (status : OrderStatus)
      → order.status ≡ status
      → cancel_by_status conn now fee_rules overrides defaults order status rule ≡ ok d
      → Prescribed conn now fee_rules overrides defaults order o
  unfolding cancel_by_status
  cancel_by_status-Prescribed delivered s h = after_pickup (inl s) (ground arith) (ground arith)
  cancel_by_status-Prescribed picked_up s h = after_pickup (inr s) (ground arith) (ground arith)
  cancel_by_status-Prescribed draft s h = free_draft s (ground arith) (ground arith)
  cancel_by_status-Prescribed booked s h =
      booked_order-Prescribed order.cancellation_requested_at s refl h

-- Every outcome is about an order that the caller may see, and is the one that the decision table
-- prescribes: no cancellation once picked up or delivered; a draft is free; without a request there
-- is nothing to do; and on request the fee is that of the rule of the source that governs.
pub evaluate_cancellation-Prescribed :
    (conn : Database) (order_id : String) (auth : AuthContext) (now : Instant)
    (fee_rules : FeeRules) (overrides : List AgreementOverride) (defaults : Defaults)
    (d : DecisionResult CancellationOutcome) (o : CancellationOutcome)
    → evaluate_cancellation conn order_id auth now fee_rules overrides defaults ≡ ok d
    → d.result ≡ some o
    → (order : Order) × (get_order conn order_id auth ≡ ok order)
      × (allows_account auth order.account_id ≡ true)
      × Prescribed conn now fee_rules overrides defaults order o
unfolding evaluate_cancellation
evaluate_cancellation-Prescribed conn order_id auth now fee_rules overrides defaults d o h stated =
    let (order, got, rest) = >>=-eq-ok (get_order conn order_id auth) _ h in
    let (rule, has_default, decided) = >>=-eq-ok (required (defaults cancellation_fee)) _ rest in
    (
      order,
      got,
      ((gets_scoped conn auth order_id).1 order got).2,
      cancel_by_status-Prescribed conn now fee_rules overrides defaults order rule d o stated
          order.status refl decided,
    )

threshold_fee_mono :
    (threshold fee : Option ℕ) (start t u : Instant) {early after : Money × FeeNote}
    → t ≤ u
    → threshold_rule threshold fee (sub_ℕ t start) ≡ ok early
    → threshold_rule threshold fee (sub_ℕ u start) ≡ ok after
    → early.0 ≤ after.0
threshold_fee_mono none fee start t u le h k = cc
threshold_fee_mono (some threshold) none start t u le h k = cc
threshold_fee_mono (some threshold) (some fee) start t u le h k = ground arith

fee_by_kind_mono :
    (kind : FeeRuleKind) (rule : CancellationFeeRule) (start t u : Instant)
    {early after : Money × FeeNote}
    → t ≤ u
    → fee_by_kind kind rule (sub_ℕ t start) ≡ ok early
    → fee_by_kind kind rule (sub_ℕ u start) ≡ ok after
    → early.0 ≤ after.0
fee_by_kind_mono full_waiver rule start t u le h k = ground arith
fee_by_kind_mono threshold_fee rule start t u le h k =
    threshold_fee_mono rule.threshold_minutes rule.fee start t u le h k

-- Under one rule, a later request never costs less than an earlier one.
apply_fee_rule_mono :
    (rule : CancellationFeeRule) (start t u : Instant) (early after : Money × FeeNote)
    → t ≤ u
    → apply_fee_rule rule (sub_ℕ t start) ≡ ok early
    → apply_fee_rule rule (sub_ℕ u start) ≡ ok after
    → early.0 ≤ after.0
unfolding apply_fee_rule
apply_fee_rule_mono rule start t u early after le h k =
    fee_by_kind_mono rule.kind rule start t u le h k
