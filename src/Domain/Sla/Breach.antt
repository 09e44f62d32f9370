-- ===== src/Domain/Sla/Breach.antt =====
-- A stated breach of calculate_sla (app/domain/sla.py), and how it moves with the clock.
use parcelpilot_ops_copilot.Prelude.{
  ℕ, ◌≤◌, String, Bool, true, false, ◌≡◌, refl, Option, none, some, List, arith, if◌then◌else◌,
}
use parcelpilot_ops_copilot.Models.{
  Severity, p1, Ticket, Account, Database, AuthContext, Instant, date_of, SlaTarget, EvidenceRef,
  sla_first_response,
}
use parcelpilot_ops_copilot.Result.{Result, ok, >>=-eq-ok}
use parcelpilot_ops_copilot.Repository.{get_ticket, get_account}
use parcelpilot_ops_copilot.Policy.{
  AgreementOverride, Defaults, ApplicabilityResult, resolve_applicability,
}
use parcelpilot_ops_copilot.Domain.Outcomes.{DecisionResult}
use parcelpilot_ops_copilot.Domain.Severity.{SeverityOutcome, classify_severity}
use parcelpilot_ops_copilot.Domain.Sla.{
  SlaOutcome, business_hours, clock_target, clock_decision, decide_target, sla_for, calculate_sla,
  lookup_sla_target, severity_of,
}

-- The decision states that the deadline has passed, and which one.
pub record Breached (d : DecisionResult SlaOutcome) (o : SlaOutcome) : Type 0 where
  pub stated : d.result ≡ some o
  pub passed : o.breached ≡ some true

-- At a later instant the same is decided, with the same deadline.
abbrev pub StillBreached : SlaOutcome → Result (DecisionResult SlaOutcome) → Type 0
StillBreached o r =
    (d : DecisionResult SlaOutcome) × (o' : SlaOutcome) × (r ≡ ok d)
    × Breached d o'
    × (o'.deadline ≡ o.deadline)
    × (o'.severity ≡ o.severity)

module _ {d : DecisionResult SlaOutcome} {o : SlaOutcome} (b : Breached d o) where
  module _ (a : ApplicabilityResult) (ticket : Ticket) (account : Account) (severity : Severity)
      (evidence : List EvidenceRef) (target : SlaTarget) (now : Instant) where
    review :
        (calendar : Bool) (minutes : Option ℕ)
        → o.severity ≡ p1
        → (if calendar
            then ok (business_hours a account severity evidence target)
            else clock_decision a ticket account severity evidence target now minutes)
          ≡ ok d
        → d.needs_human_review ≡ true
    review true minutes s h = ground arith
    review false none s h = ground arith
    review false (some minutes) s h = ground arith

    persists :
        (later : Instant) (calendar : Bool) (minutes : Option ℕ)
        → now ≤ later
        → (if calendar
            then ok (business_hours a account severity evidence target)
            else clock_decision a ticket account severity evidence target now minutes)
          ≡ ok d
        → StillBreached o (
            if calendar
            then ok (business_hours a account severity evidence target)
            else clock_decision a ticket account severity evidence target later minutes)
    persists later true minutes le h = absurd (ground arith)
    persists later false none le h = cc
    persists later false (some minutes) le h = (
      clock_target a ticket account severity evidence target later minutes,
      _,
      refl,
      record { stated = refl; passed = ground arith },
      ground arith,
      ground arith,
    )

  decide_target-review :
      (conn : Database) (a : ApplicabilityResult) (ticket : Ticket) (account : Account)
      (severity : Severity) (evidence : List EvidenceRef) (now : Instant)
      (target : Option SlaTarget)
      → o.severity ≡ p1
      → decide_target conn a ticket account severity evidence now target ≡ ok d
      → d.needs_human_review ≡ true
  decide_target-review conn a ticket account severity evidence now none s h = ground arith
  decide_target-review conn a ticket account severity evidence now (some target) s h =
      review a ticket account severity _ target now target.requires_business_calendar
        target.target_minutes s h

  decide_target-persists :
      (conn : Database) (a : ApplicabilityResult) (ticket : Ticket) (account : Account)
      (severity : Severity) (evidence : List EvidenceRef) (now later : Instant)
      (target : Option SlaTarget)
      → now ≤ later
      → decide_target conn a ticket account severity evidence now target ≡ ok d
      → StillBreached o (decide_target conn a ticket account severity evidence later target)
  decide_target-persists conn a ticket account severity evidence now later none le h =
      absurd (ground arith)
  decide_target-persists conn a ticket account severity evidence now later (some target) le h =
      persists a ticket account severity _ target now later target.requires_business_calendar
        target.target_minutes le h

  module _ (conn : Database) (overrides : List AgreementOverride) (defaults : Defaults)
      (ticket : Ticket) (account : Account) (s : DecisionResult SeverityOutcome) where
    sla_for-review :
        (now : Instant) (severity : Option Severity)
        → o.severity ≡ p1
        → sla_for conn now overrides defaults ticket account s severity ≡ ok d
        → d.needs_human_review ≡ true
    unfolding sla_for
    sla_for-review now none p h = ground arith
    sla_for-review now (some severity) p h =
        let (a, resolved, decided) =
          >>=-eq-ok
            (resolve_applicability conn sla_first_response account.account_id (date_of now)
              overrides defaults)
            _ h in
        decide_target-review conn a ticket account severity s.evidence now
          (lookup_sla_target conn a.winning_source_id account severity) p decided

    sla_for-persists :
        (now later : Instant) (severity : Option Severity)
        → now ≤ later
        → date_of later ≡ date_of now
        → sla_for conn now overrides defaults ticket account s severity ≡ ok d
        → StillBreached o (sla_for conn later overrides defaults ticket account s severity)
    unfolding sla_for
    sla_for-persists now later none le day h = absurd (ground arith)
    sla_for-persists now later (some severity) le day h =
        let (a, resolved, decided) =
          >>=-eq-ok
            (resolve_applicability conn sla_first_response account.account_id (date_of now)
              overrides defaults)
            _ h in
        rw (day, resolved)
          (decide_target-persists conn a ticket account severity s.evidence now later
            (lookup_sla_target conn a.winning_source_id account severity) le decided)

module _ (search : String → String → Bool) (conn : Database) (ticket_id : String)
    (auth : AuthContext) (overrides : List AgreementOverride) (defaults : Defaults)
    (d : DecisionResult SlaOutcome) (o : SlaOutcome) where
  -- A decision that states a breach at severity P1 asks for review by a human.
  p1_breach_review :
      (now : Instant)
      → calculate_sla search conn ticket_id auth now overrides defaults ≡ ok d
      → Breached d o
      → o.severity ≡ p1
      → d.needs_human_review ≡ true
  unfolding calculate_sla
  p1_breach_review now h b s =
      let (ticket, got, rest) = >>=-eq-ok (get_ticket conn ticket_id auth) _ h in
      let (account, got_account, decided) =
        >>=-eq-ok (get_account conn ticket.account_id auth) _ rest in
      let sev = classify_severity search ticket (some conn) in
      sla_for-review b conn overrides defaults ticket account sev now (severity_of sev.result) s
        decided

  -- Once a breach is stated, it is stated at every later instant of the same day, with the same
  -- deadline and severity.
  pub breach_persists :
      (now later : Instant)
      → calculate_sla search conn ticket_id auth now overrides defaults ≡ ok d
      → Breached d o
      → now ≤ later
      → date_of later ≡ date_of now
      → StillBreached o (calculate_sla search conn ticket_id auth later overrides defaults)
  unfolding calculate_sla
  breach_persists now later h b le day =
      let (ticket, got, rest) = >>=-eq-ok (get_ticket conn ticket_id auth) _ h in
      let (account, got_account, decided) =
        >>=-eq-ok (get_account conn ticket.account_id auth) _ rest in
      let sev = classify_severity search ticket (some conn) in
      rw (got, got_account)
        (sla_for-persists b conn overrides defaults ticket account sev now later
          (severity_of sev.result) le day decided)
