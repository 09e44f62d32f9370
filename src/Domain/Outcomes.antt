-- ===== src/Domain/Outcomes.antt =====
-- app/domain/outcomes.py. The f-strings of a reason and of the calculation inputs are constructors
-- that hold what the text prints. `source_notes` and `missing_fields`, which no service sets and
-- nothing reads, are left out.
use parcelpilot_ops_copilot.Prelude.{
  ℕ, String, Bool, Option, none, some, List, [], ◌∷◌, ◌==◌, if◌then◌else◌,
}
use parcelpilot_ops_copilot.Prelude.Int.{ℤ}
use parcelpilot_ops_copilot.Models.{
  Severity, TrustState, confident, conditional, escalate, EvidenceRef, Instant, Money,
}
use parcelpilot_ops_copilot.Policy.{ApplicabilityReason, ApplicabilityResult}

pub record Conflict : Type 0 where
  pub winner_source_id : String
  pub loser_source_id : String
  pub scope : String
  pub reason : ApplicabilityReason
  pub needs_human_review : Bool

pub data CreditNote : Type 0 where
  below_threshold : ℕ → CreditNote
  fixed_credit : ℕ → Money → CreditNote
  percentage_credit : ℕ → Money → ℕ → CreditNote

pub data FeeNote : Type 0 where
  waived : FeeNote
  within_threshold : ℕ → FeeNote
  past_threshold : ℕ → Money → FeeNote

pub data Reason : Type 0 where
  -- severity.py
  no_signal : Reason
  signals_tied : Severity → Severity → ℕ → Reason
  matched_signal : String → Severity → Reason
  -- sla.py
  no_target_without_severity : Reason → Reason
  no_sla_target : String → String → Severity → Reason
  needs_business_calendar : String → Reason
  deadline_passed : String → Instant → ℤ → Bool → Reason
  deadline_ahead : String → Instant → ℤ → Reason
  -- cancellation.py
  delivered_order picked_up_order draft_order no_cancellation_requested : Reason
  fee_decided : FeeNote → ApplicabilityReason → Reason
  -- service_credit.py
  no_carrier_fault customer_at_fault : Reason
  credit_decided : CreditNote → ApplicabilityReason → Bool → Reason

pub data Assumption : Type 0 where
  business_calendar_undefined delay_still_accruing : Assumption

pub data CalculationInput : Type 0 where
  signal_counts : List (Severity × ℕ) → CalculationInput
  created_at booked_at cancellation_requested_at : Instant → CalculationInput
  target_minutes : ℕ → CalculationInput
  minutes_since_booking delay_hours : ℤ → CalculationInput
  shipment_fee : ℕ → CalculationInput
  carrier_fault customer_fault : Bool → CalculationInput

pub record DecisionResult (T : Type 0) : Type 0 where
  pub result : Option T
  pub trust_state : TrustState
  pub reason : Reason
  pub evidence : List EvidenceRef
  pub assumptions : List Assumption
  pub conflicts : List Conflict
  pub calculation_inputs : List CalculationInput
  pub needs_human_review : Bool

unfoldable pub trust_from : Bool → Bool → TrustState
trust_from review_required has_assumptions =
    if review_required then escalate else if has_assumptions then conditional else confident

-- `if applicability.overridden_source_id:`, which neither None nor "" passes
abbrev conflict_with : Option String → ApplicabilityResult → String → List Conflict
conflict_with none a account_id = []
conflict_with (some loser) a account_id =
    if loser == ""
    then []
    else record {
      winner_source_id = a.winning_source_id;
      loser_source_id = loser;
      scope = account_id;
      reason = a.reason;
      needs_human_review = a.needs_human_review;
    }
      ∷ []

-- The conflict that each service records for its account.
unfoldable pub conflicts_of : ApplicabilityResult → String → List Conflict
conflicts_of a account_id = conflict_with a.overridden_source_id a account_id
