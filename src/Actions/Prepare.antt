-- ===== src/Actions/Prepare.antt =====
-- What prepare_escalation of app/actions/workflow.py needs, and what it writes.
use parcelpilot_ops_copilot.Prelude.{
  String, ◌≡◌, ◌⊎◌, inl, inr, refl, sym, ◌∙◌, Bool, true, false, not, ◌&&◌, Option, none, some,
  List, [], ◌∷◌, ◌++◌, arith, Bool-cases, ap,
}
use parcelpilot_ops_copilot.Models.{
  ActionRecord, Severity, p1, same_severity, AuthContext, allows_account, Database, Ticket,
  open_ticket, same_ticket_status, Instant,
}
use parcelpilot_ops_copilot.Result.{Result, ok, raise, >>=-eq-ok, ok-injective}
use parcelpilot_ops_copilot.Repository.{get_ticket}
use parcelpilot_ops_copilot.Repository.Access.{gets_scoped}
use parcelpilot_ops_copilot.Policy.{AgreementOverride, Defaults}
use parcelpilot_ops_copilot.Domain.Outcomes.{DecisionResult}
use parcelpilot_ops_copilot.Domain.Sla.{SlaOutcome, calculate_sla}
use parcelpilot_ops_copilot.Actions.Models.{ActionOutcome, ErrorCode, success_with}
use parcelpilot_ops_copilot.Actions.Store.{get_action, insert_action}
use parcelpilot_ops_copilot.Actions.Workflow.{
  PayloadHash, caught, sla_severity, sla_breached, proposal, propose, prepare_for,
  prepare_escalation,
}
use parcelpilot_ops_copilot.Actions.Rows.{insert_fresh}
use parcelpilot_ops_copilot.Actions.Confirm.{caught-fails}

module _ (hash : PayloadHash) (conn : Database) (ticket_id reason : String) (now : Instant)
    (user_id request_id hex : String) (search : String → String → Bool) (auth : AuthContext)
    (overrides : List AgreementOverride) (defaults : Defaults) where
  -- What stands behind a row that was proposed.
  pub record Eligible (row : ActionRecord) : Type 0 where
    pub ticket : Ticket
    pub reachable : get_ticket conn ticket_id auth ≡ ok ticket
    pub in_scope : allows_account auth ticket.account_id ≡ true
    pub still_open : ticket.status ≡ open_ticket
    pub sla : DecisionResult SlaOutcome
    pub computed : calculate_sla search conn ticket_id auth now overrides defaults ≡ ok sla
    pub severity : Severity
    pub classified : sla_severity sla.result ≡ some severity
    pub urgent : (severity ≡ p1) ⊎ (sla_breached sla.result ≡ true)
    pub proposed :
        row
        ≡ proposal hash conn ticket_id reason now user_id request_id hex ticket severity
            (sla_breached sla.result)
            sla.evidence
    pub fresh : get_action conn.actions row.action_id ≡ none

  -- Either one eligible row is appended and returned, or the call fails and changes nothing.
  pub data Prepared (conn' : Database) (o : ActionOutcome) : Type 0 where
    proposes :
        (row : ActionRecord)
        → Eligible row
        → o ≡ success_with row
        → conn' ≡ record conn { actions = conn.actions ++ row ∷ [] }
        → Prepared conn' o
    declines : o.success ≡ false → conn' ≡ conn → Prepared conn' o

  module _ (conn' : Database) (o : ActionOutcome) where
    propose-Prepared :
        (ticket : Ticket) (sla : DecisionResult SlaOutcome) (severity : Option Severity)
        → get_ticket conn ticket_id auth ≡ ok ticket
        → ticket.status ≡ open_ticket
        → calculate_sla search conn ticket_id auth now overrides defaults ≡ ok sla
        → sla_severity sla.result ≡ severity
        → propose hash conn ticket_id reason now user_id request_id hex ticket sla severity
            (sla_breached sla.result)
          ≡ ok (conn', o)
        → Prepared conn' o
    propose-Prepared ticket sla none got is_open computed s h =
        let e = ok-injective h in declines (ap (λ p. p.1.success) (sym e)) (ap (λ p. p.0) (sym e))
    propose-Prepared ticket sla (some severity) got is_open computed s h =
        elim (Bool-cases (not (same_severity severity p1) && not (sla_breached sla.result))) [
          | inl below ↦
              let e = ok-injective (rw below at h) in
              declines (ap (λ p. p.1.success) (sym e)) (ap (λ p. p.0) (sym e))
          | inr urgent ↦
              let row =
                proposal hash conn ticket_id reason now user_id request_id hex ticket severity
                  (sla_breached sla.result) sla.evidence in
              let (rows, inserted, last) =
                >>=-eq-ok (insert_action conn.actions row) _ (rw urgent at h) in
              let (fresh, appended) = insert_fresh conn.actions row inserted in
              let e = ok-injective last in
              proposes row
                (record {
                  ticket = ticket;
                  reachable = got;
                  in_scope = ((gets_scoped conn auth ticket_id).2 ticket got).2;
                  still_open = is_open;
                  sla = sla;
                  computed = computed;
                  severity = severity;
                  classified = s;
                  urgent = ground arith;
                  proposed = refl;
                  fresh = fresh;
                })
                (ap (λ p. p.1) (sym e))
                (ap (λ p. p.0) (sym e) ∙ ap (λ r. record conn { actions = r }) (sym appended))
        ]

    prepare_for-Prepared :
        (t : Result Ticket)
        → get_ticket conn ticket_id auth ≡ t
        → prepare_for hash conn ticket_id reason now user_id request_id hex search auth overrides
            defaults t
          ≡ ok (conn', o)
        → Prepared conn' o
    unfolding prepare_for
    prepare_for-Prepared (raise e) got h =
        let (outcome, reported, last) = >>=-eq-ok (caught none ErrorCode.not_found e) _ h in
        let same = ok-injective last in
        declines
          (ap (λ p. p.1.success) (sym same) ∙ caught-fails none ErrorCode.not_found e reported)
          (ap (λ p. p.0) (sym same))
    prepare_for-Prepared (ok ticket) got h =
        elim (Bool-cases (same_ticket_status ticket.status open_ticket)) [
          | inl is_open ↦
              let (sla, computed, rest) =
                >>=-eq-ok (calculate_sla search conn ticket_id auth now overrides defaults) _
                  (rw is_open at h) in
              propose-Prepared ticket sla (sla_severity sla.result) got (ground arith) computed refl
                rest
          | inr closed ↦
              let e = ok-injective (rw closed at h) in
              declines (ap (λ p. p.1.success) (sym e)) (ap (λ p. p.0) (sym e))
        ]

    -- A proposal either reports a failure and changes nothing, or appends exactly the row that it
    -- returns, under a fresh identifier: the caller may see the ticket, which is open, and the
    -- deterministic rule holds, severity P1 or a breached deadline.
    pub prepare_escalation-Prepared :
        prepare_escalation hash conn ticket_id reason now user_id request_id hex search auth
            overrides defaults
          ≡ ok (conn', o)
        → Prepared conn' o
    unfolding prepare_escalation
    prepare_escalation-Prepared h = prepare_for-Prepared (get_ticket conn ticket_id auth) refl h
