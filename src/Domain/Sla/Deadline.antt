-- ===== src/Domain/Sla/Deadline.antt =====
-- What a decision of calculate_sla (app/domain/sla.py) says, in each trust state.
use parcelpilot_ops_copilot.Prelude.{
  ℕ, ◌+◌, ◌*◌, ◌<◌, ◌≤◌, String, Bool, true, false, ◌≡◌, ◌↔◌, refl, Option, none, some, List, arith,
  if◌then◌else◌,
}
use mathlib.Core.Path.{subst}
use parcelpilot_ops_copilot.Repository.Access.{gets_scoped}
use parcelpilot_ops_copilot.Models.{
  sla_first_response, Severity, Ticket, Account, Database, AuthContext, allows_account, Instant,
  minute, date_of, SlaTarget, EvidenceRef, confident, conditional, uncertain,
}
use parcelpilot_ops_copilot.Result.{ok, >>=-eq-ok, ok-injective}
use parcelpilot_ops_copilot.Repository.{get_ticket, get_account}
use parcelpilot_ops_copilot.Policy.{
  AgreementOverride, Defaults, ApplicabilityResult, resolve_applicability,
}
use parcelpilot_ops_copilot.Domain.Outcomes.{DecisionResult}
use parcelpilot_ops_copilot.Domain.Severity.{SeverityOutcome, classify_severity}
use parcelpilot_ops_copilot.Domain.Sla.{
  SlaOutcome, business_hours, clock_target, clock_decision, decide_target, sla_for, calculate_sla,
  lookup_sla_target, severity_of,
}

-- The three shapes of a decision for a ticket created at `created`, taken at `now`.
pub data Shape (created now : Instant) (d : DecisionResult SlaOutcome) : Type 0 where
  exact :
      (o : SlaOutcome) (minutes : ℕ)
      → d.trust_state ≡ confident
      → d.result ≡ some o
      → o.target_minutes ≡ some minutes
      → o.deadline ≡ some (created + minutes * minute)
      → (o.breached ≡ some true) ↔ (created + minutes * minute < now)
      → (o.breached ≡ some false) ↔ (now ≤ created + minutes * minute)
      → Shape created now d
  not_computable :
      (o : SlaOutcome)
      → d.trust_state ≡ conditional
      → d.result ≡ some o
      → o.target_minutes ≡ none
      → o.deadline ≡ none
      → o.breached ≡ none
      → Shape created now d
  no_decision :
      d.trust_state ≡ uncertain
      → d.result ≡ none
      → d.needs_human_review ≡ true
      → Shape created now d

module _ (a : ApplicabilityResult) (ticket : Ticket) (account : Account) (severity : Severity)
    (evidence : List EvidenceRef) (target : SlaTarget) (now : Instant) where
  clock_target-Shape :
      (minutes : ℕ)
      → Shape ticket.created_at now
          (clock_target a ticket account severity evidence target now minutes)
  clock_target-Shape minutes =
      exact _ minutes refl refl refl refl ((λ h. ground arith), (λ h. ground arith))
        ((λ h. ground arith), (λ h. ground arith))

  target_decision :
      (calendar : Bool) (minutes : Option ℕ) (d : DecisionResult SlaOutcome)
      → (if calendar
          then ok (business_hours a account severity evidence target)
          else clock_decision a ticket account severity evidence target now minutes)
        ≡ ok d
      → Shape ticket.created_at now d
  target_decision true minutes d h =
      subst (Shape ticket.created_at now) (ok-injective h)
        (not_computable _ refl refl refl refl refl)
  target_decision false none d h = cc
  target_decision false (some minutes) d h =
      subst (Shape ticket.created_at now) (ok-injective h) (clock_target-Shape minutes)

decide_target-Shape :
    (conn : Database) (a : ApplicabilityResult) (ticket : Ticket) (account : Account)
    (severity : Severity) (evidence : List EvidenceRef) (now : Instant) (target : Option SlaTarget)
    (d : DecisionResult SlaOutcome)
    → decide_target conn a ticket account severity evidence now target ≡ ok d
    → Shape ticket.created_at now d
decide_target-Shape conn a ticket account severity evidence now none d h =
    no_decision (ground arith) (ground arith) (ground arith)
decide_target-Shape conn a ticket account severity evidence now (some target) d h =
    target_decision a ticket account severity _ target now target.requires_business_calendar
      target.target_minutes d h

sla_for-Shape :
    (conn : Database) (now : Instant) (overrides : List AgreementOverride) (defaults : Defaults)
    (ticket : Ticket) (account : Account) (s : DecisionResult SeverityOutcome)
    (severity : Option Severity) (d : DecisionResult SlaOutcome)
    → sla_for conn now overrides defaults ticket account s severity ≡ ok d
    → Shape ticket.created_at now d
unfolding sla_for
sla_for-Shape conn now overrides defaults ticket account s none d h =
    no_decision (ground arith) (ground arith) (ground arith)
sla_for-Shape conn now overrides defaults ticket account s (some severity) d h =
    let (a, resolved, decided) =
      >>=-eq-ok
        (resolve_applicability conn sla_first_response account.account_id (date_of now) overrides
          defaults)
        _ h in
    decide_target-Shape conn a ticket account severity s.evidence now
      (lookup_sla_target conn a.winning_source_id account severity) d decided

-- A decision is about a ticket that the caller may see, and has one of three shapes. CONFIDENT: the
-- deadline is the creation time plus the target, and `breached` tells exactly whether it has
-- passed. CONDITIONAL: neither a deadline nor a breach is stated. UNCERTAIN: there is no outcome,
-- and review by a human is asked for.
pub calculate_sla-Shape :
    (search : String → String → Bool) (conn : Database) (ticket_id : String) (auth : AuthContext)
    (now : Instant) (overrides : List AgreementOverride) (defaults : Defaults)
    (d : DecisionResult SlaOutcome)
    → calculate_sla search conn ticket_id auth now overrides defaults ≡ ok d
    → (ticket : Ticket) × (get_ticket conn ticket_id auth ≡ ok ticket)
      × (allows_account auth ticket.account_id ≡ true)
      × Shape ticket.created_at now d
unfolding calculate_sla
calculate_sla-Shape search conn ticket_id auth now overrides defaults d h =
    let (ticket, got, rest) = >>=-eq-ok (get_ticket conn ticket_id auth) _ h in
    let (account, got_account, decided) =
      >>=-eq-ok (get_account conn ticket.account_id auth) _ rest in
    let s = classify_severity search ticket (some conn) in
    (
      ticket,
      got,
      ((gets_scoped conn auth ticket_id).2 ticket got).2,
      sla_for-Shape conn now overrides defaults ticket account s (severity_of s.result) d decided,
    )
