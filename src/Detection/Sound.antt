-- ===== src/Detection/Sound.antt =====
-- The loop of the rules of app/detection/rules.py, and detect_sla_breaches against its conditions.
use mathlib.Core.Path.{subst}
use parcelpilot_ops_copilot.Prelude.{
  ℕ, String, Bool, true, false, ◌≡◌, ◌⊎◌, ◌↔◌, inl, inr, refl, sym, ap, ◌∙◌, Option, none, some,
  List, [], ◌∷◌, ◌++◌, Has, arith, Bool-cases,
}
use parcelpilot_ops_copilot.Models.{
  TrustState, p1, p2, Severity, open_ticket, confident, AuthContext, allows_account, Database,
  Ticket, Instant,
}
use parcelpilot_ops_copilot.Result.{Result, ok, >>=-eq-ok, ok-injective}
use parcelpilot_ops_copilot.Repository.{search_tickets}
use parcelpilot_ops_copilot.Repository.Access.{search_tickets-selected}
use parcelpilot_ops_copilot.Policy.{AgreementOverride, Defaults}
use parcelpilot_ops_copilot.Domain.Outcomes.{DecisionResult}
use parcelpilot_ops_copilot.Domain.Sla.{SlaOutcome, calculate_sla}
use parcelpilot_ops_copilot.Actions.Workflow.{truth}
use parcelpilot_ops_copilot.Detection.Alert.{AlertCandidate}
use parcelpilot_ops_copilot.Detection.Tickets.{
  collect, alerts_on, is_confident, breach_alert, breach_of, breach_body, detect_sla_breaches,
}

Has-append : {A : Type 0} (a : A) (xs ys : List A) → Has a (xs ++ ys) ↔ (Has a xs ⊎ Has a ys)
Has-append a [] ys = ((λ h. inr h), (λ h. elim h [ inl n ↦ absurd n | inr m ↦ m ]))
Has-append a (x ∷ xs) ys =
    (ground (arith, (Has-append a xs ys).0), ground (arith, (Has-append a xs ys).1))

-- What a loop lists, its bodies list, and conversely.
collect-Has :
    {A B : Type 0} (body : A → Result (List B)) (rows : List A) (all : List B)
    → collect body rows ≡ ok all
    → (b : B)
    → Has b all
      ↔ ((row : A) × (found : List B) × Has row rows × (body row ≡ ok found) × Has b found)
unfolding collect
collect-Has body [] all h b =
    ((λ m. absurd (subst (Has b) (sym (ok-injective h)) m)), (λ (row, found, m, e, k). absurd m))
collect-Has body (row ∷ rows) all h b =
    let (found, listed, more) = >>=-eq-ok (body row) _ h in
    let (rest, others, last) = >>=-eq-ok (collect body rows) _ more in
    let whole : found ++ rest ≡ all = ok-injective last in
    let ih = collect-Has body rows rest others b in
    (
      (λ m. elim ((Has-append b found rest).0 (subst (Has b) (sym whole) m)) [
        | inl k ↦ (row, found, inl refl, listed, k)
        | inr k ↦ let (r, f, m', e, k') = ih.0 k in (r, f, inr m', e, k')
      ]),
      (λ (r, f, m, e, k). subst (Has b) whole (
          (Has-append b found rest).1 (elim m [
            | inl same ↦
                let here : found ≡ f = ok-injective (sym listed ∙ ap body same ∙ e) in
                inl (subst (Has b) (sym here) k)
            | inr m' ↦ inr (ih.1 (r, f, m', e, k))
          ]))),
    )

confident_only : (t : TrustState) → is_confident t ≡ true → t ≡ confident
confident_only TrustState.confident h = refl
confident_only TrustState.conditional h = absurd (ground arith)
confident_only TrustState.uncertain h = absurd (ground arith)
confident_only TrustState.escalate h = absurd (ground arith)

alerts_both : (s : Severity) → (s ≡ p1) ⊎ (s ≡ p2) → alerts_on s ≡ true
alerts_both s (inl e) = rw e refl
alerts_both s (inr e) = rw e refl

truth_only : (b : Option Bool) → truth b ≡ true → b ≡ some true
truth_only none h = absurd (ground arith)
truth_only (some true) h = refl
truth_only (some false) h = absurd (ground arith)

-- The conditions of detect_sla_breaches on a ticket.
pub record Breaching (sha16 : String → String) (decimal : ℕ → String)
    (search : String → String → Bool) (conn : Database) (auth : AuthContext) (now : Instant)
    (overrides : List AgreementOverride) (defaults : Defaults) (a : AlertCandidate) : Type 0 where
  pub ticket : Ticket
  pub listed : Has ticket conn.tickets
  pub in_scope : allows_account auth ticket.account_id ≡ true
  pub still_open : ticket.status ≡ open_ticket
  pub result : DecisionResult SlaOutcome
  pub computed : calculate_sla search conn ticket.ticket_id auth now overrides defaults ≡ ok result
  pub outcome : SlaOutcome
  pub stated : result.result ≡ some outcome
  pub urgent : (outcome.severity ≡ p1) ⊎ (outcome.severity ≡ p2)
  pub sure : result.trust_state ≡ confident
  pub passed : outcome.breached ≡ some true
  pub raised : a ≡ breach_alert sha16 decimal search conn auth now ticket result outcome

module _ (sha16 : String → String) (decimal : ℕ → String) (search : String → String → Bool)
    (conn : Database) (auth : AuthContext) (now : Instant) where
  breach_of-Has :
      (ticket : Ticket) (result : DecisionResult SlaOutcome) (stated : Option SlaOutcome)
      (a : AlertCandidate)
      → Has a (breach_of sha16 decimal search conn auth now ticket result stated)
      → (outcome : SlaOutcome) × (stated ≡ some outcome)
        × ((outcome.severity ≡ p1) ⊎ (outcome.severity ≡ p2))
        × (result.trust_state ≡ confident)
        × (outcome.breached ≡ some true)
        × (a ≡ breach_alert sha16 decimal search conn auth now ticket result outcome)
  breach_of-Has ticket result none a h = absurd h
  breach_of-Has ticket result (some outcome) a h = elim (Bool-cases (alerts_on outcome.severity)) [
    | inr calm ↦ absurd (rw calm at h)
    | inl urgent ↦ elim (Bool-cases (is_confident result.trust_state)) [
      | inr unsure ↦ absurd (rw (urgent, unsure) at h)
      | inl sure ↦ elim (Bool-cases (truth outcome.breached)) [
        | inr ahead ↦ absurd (rw (urgent, sure, ahead) at h)
        | inl passed ↦ (
          outcome,
          refl,
          ground arith,
          confident_only result.trust_state sure,
          truth_only outcome.breached passed,
          elim (rw (urgent, sure, passed) at h) [ inl e ↦ sym e | inr n ↦ absurd n ],
        )
      ]
    ]
  ]

  module _ (overrides : List AgreementOverride) (defaults : Defaults)
      (alerts : List AlertCandidate) where
    abbrev IsBreaching : AlertCandidate → Type 0
    IsBreaching a = Breaching sha16 decimal search conn auth now overrides defaults a

    lists :
        {a : AlertCandidate} (b : IsBreaching a)
        → Has a (breach_of sha16 decimal search conn auth now b.ticket b.result b.result.result)
    lists b =
        let urgent : alerts_on b.outcome.severity ≡ true =
          alerts_both b.outcome.severity b.urgent in
        let sure : is_confident b.result.trust_state ≡ true = rw b.sure refl in
        rw (b.stated, urgent, sure, b.passed) (inl (sym b.raised))

    -- If detect_sla_breaches returns, an alert is in its list exactly when it is the breach alert
    -- of an open ticket in the caller's scope whose SLA decision is CONFIDENT, of severity P1 or
    -- P2, and states a breach.
    pub detect_sla_breaches-Breaching :
        detect_sla_breaches sha16 decimal search conn auth now overrides defaults ≡ ok alerts
        → (a : AlertCandidate) → Has a alerts ↔ IsBreaching a
    unfolding detect_sla_breaches
    detect_sla_breaches-Breaching h a =
        let (tickets, found, looped) =
          >>=-eq-ok (search_tickets conn auth none (some open_ticket)) _ h in
        let each =
          collect-Has (breach_body sha16 decimal search conn auth now overrides defaults) tickets
            alerts looped a in
        let exact = (search_tickets-selected conn auth none (some open_ticket) found).1 in
        (
          (λ m.
              let (ticket, alerts', place, listed, k) = each.0 m in
              let (result, computed, last) =
                >>=-eq-ok (calculate_sla search conn ticket.ticket_id auth now overrides defaults) _
                  listed in
              let (outcome, stated, urgent, sure, passed, raised) =
                breach_of-Has ticket result result.result a
                  (subst (Has a) (sym (ok-injective last)) k) in
              let (place', selected) = (exact ticket).0 place in
              record {
                ticket = ticket;
                listed = place';
                in_scope = ground arith;
                still_open = ground arith;
                result = result;
                computed = computed;
                outcome = outcome;
                stated = stated;
                urgent = urgent;
                sure = sure;
                passed = passed;
                raised = raised;
              }),
          (λ b. each.1 (
            b.ticket,
            breach_of sha16 decimal search conn auth now b.ticket b.result b.result.result,
            (exact b.ticket).1 (b.listed, rw (b.in_scope, b.still_open) refl),
            rw b.computed refl,
            lists b,
          )),
        )
