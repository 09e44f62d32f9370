-- ===== src/Domain/Permitted.antt =====
-- The calculations of app/domain on a row that the caller may read: whatever they raise, it is not a
-- NotAuthorizedError.
use parcelpilot_ops_copilot.Prelude.{
  ◌≡◌, refl, inl, inr, String, Bool, true, false, some, List, arith, find, Bool-cases, Option-cases,
  ◌==◌,
}
use parcelpilot_ops_copilot.Models.{
  AuthContext, Order, Ticket, Database, Instant, date_of, ClauseTopic, is_active_at,
  sla_first_response, cancellation_fee, service_credit_threshold_and_amount,
}
use parcelpilot_ops_copilot.Result.{Result, ok, raise, Error, ◌>>=◌}
use parcelpilot_ops_copilot.Repository.{get_account, get_order, get_ticket, get_source}
use parcelpilot_ops_copilot.Policy.{AgreementOverride, Defaults, resolve_applicability, addresses}
use parcelpilot_ops_copilot.Domain.Sla.{calculate_sla, severity_of}
use parcelpilot_ops_copilot.Domain.Severity.{classify_severity}
use parcelpilot_ops_copilot.Domain.Cancellation.{FeeRules, evaluate_cancellation, apply_fee_rule}
use parcelpilot_ops_copilot.Domain.ServiceCredit.{
  CreditRules, evaluate_service_credit, apply_credit_rule,
}

abbrev pub denies : {A : Type 0} → Result A → Bool
denies (raise (Error.not_authorized denial)) = true
denies _ = false

abbrev pub Permitted : {A : Type 0} → Result A → Type 0
Permitted m = denies m ≡ false

pub >>=-Permitted :
    {A B : Type 0} (m : Result A) (f : A → Result B)
    → Permitted m
    → ((a : A) → m ≡ ok a → Permitted (f a))
    → Permitted (m >>= f)
>>=-Permitted (ok a) f h k = k a refl
>>=-Permitted (raise e) f h k = ground arith

module _ (conn : Database) (topic : ClauseTopic) (id : String) (at : Instant)
    (overrides : List AgreementOverride) (defaults : Defaults) where
  resolve-Permitted : Permitted (resolve_applicability conn topic id at overrides defaults)
  unfolding resolve_applicability get_source
  resolve-Permitted = elim (Option-cases (find (addresses id topic) overrides)) [
    | inl e ↦ elim (Option-cases (defaults topic)) [
      | inl f ↦ rw e (rw f refl)
      | inr (d, f) ↦ rw e (rw f refl)
    ]
    | inr (o, e) ↦ elim (Option-cases (find (λ row. row.source_id == o.source_id) conn.sources)) [
      | inl f ↦ rw e (rw f refl)
      | inr (row, f) ↦ elim (Bool-cases (is_active_at row at)) [
        | inl g ↦ rw e (rw f (rw g refl))
        | inr g ↦ elim (Option-cases (defaults topic)) [
          | inl k ↦ rw e (rw f (rw g (rw k refl)))
          | inr (d, k) ↦ rw e (rw f (rw g (rw k refl)))
        ]
      ]
    ]
  ]

module _ (conn : Database) (auth : AuthContext) (now : Instant) (overrides : List AgreementOverride)
    (defaults : Defaults) where
  -- A row that the caller may read is of an account in the scope.
  account-Permitted :
      (ticket : Ticket) (id : String)
      → get_ticket conn id auth ≡ ok ticket
      → Permitted (get_account conn ticket.account_id auth)
  unfolding get_ticket get_account
  account-Permitted ticket id h = ground arith

  pub calculate_sla-Permitted :
      (search : String → String → Bool) (id : String) (ticket : Ticket)
      → get_ticket conn id auth ≡ ok ticket
      → Permitted (calculate_sla search conn id auth now overrides defaults)
  unfolding calculate_sla
  calculate_sla-Permitted search id ticket h = rw h (
      >>=-Permitted (get_account conn ticket.account_id auth) _ (account-Permitted ticket id h)
        (λ account e.
          elim (Option-cases (severity_of (classify_severity search ticket (some conn)).result)) [
            | inl f ↦ rw f refl
            | inr (severity, f) ↦ rw f (
                >>=-Permitted
                  (resolve_applicability conn sla_first_response account.account_id (date_of now)
                    overrides defaults)
                  _
                  (resolve-Permitted conn sla_first_response account.account_id (date_of now)
                    overrides defaults)
                  (λ a g. ground arith))
          ]))

  pub evaluate_cancellation-Permitted :
      (fee_rules : FeeRules) (id : String) (order : Order)
      → get_order conn id auth ≡ ok order
      → Permitted (evaluate_cancellation conn id auth now fee_rules overrides defaults)
  unfolding evaluate_cancellation apply_fee_rule
  evaluate_cancellation-Permitted fee_rules id order h =
      let k =
        resolve-Permitted conn cancellation_fee order.account_id (date_of now) overrides defaults in
      rw h (ground arith)

  pub evaluate_service_credit-Permitted :
      (credit_rules : CreditRules) (id : String) (order : Order)
      → get_order conn id auth ≡ ok order
      → Permitted (evaluate_service_credit conn id auth now credit_rules overrides defaults)
  unfolding evaluate_service_credit apply_credit_rule
  evaluate_service_credit-Permitted credit_rules id order h =
      let k =
        resolve-Permitted conn service_credit_threshold_and_amount order.account_id (date_of now)
          overrides defaults in
      rw h (ground arith)
