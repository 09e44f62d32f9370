-- ===== src/Detection/Service/Deduplicated.antt =====
-- The list that run_operations_radar returns.
use parcelpilot_ops_copilot.Prelude.{
  ℕ, ◌≢◌, ◌≡◌, ◌∙◌, ap, sym, ◌⊎◌, inl, inr, refl, String, Bool, false, Option, List, [], ◌∷◌, Has,
  arith, Bool-cases,
}
use parcelpilot_ops_copilot.Prelude.Sort.{sort_by, sort_by-IsSorted, Has-sort_by}
use mathlib.Core.Path.{subst}
use mathlib.Core.Bool.{false≢true}
use parcelpilot_ops_copilot.Models.{Role, restricted_support, AuthContext, Database, Instant}
use parcelpilot_ops_copilot.Result.{Result, ok, >>=-eq-ok, ok-injective}
use parcelpilot_ops_copilot.Policy.{AgreementOverride, Defaults}
use parcelpilot_ops_copilot.Detection.Alert.{AlertCandidate, AlertType}
use parcelpilot_ops_copilot.Detection.KnownIssues.{IssueTexts}
use parcelpilot_ops_copilot.Detection.Service.{
  alert_le, put_alerts, types_to_run, is_restricted, run_rule, run_rules, run_operations_radar,
}
use parcelpilot_ops_copilot.Detection.Service.Ids.{
  UniqueIds, HasId, put_alerts-UniqueIds, put_alerts-Has, put_alerts-HasId, sort_by-UniqueIds,
  sort_by-HasId, alert_le_total, Has-HasId,
}
use parcelpilot_ops_copilot.Detection.Service.Ordered.{IsOrdered, sorted-IsOrdered}

unrestricted : (role : Role) → is_restricted role ≡ false → role ≢ restricted_support
unrestricted role h e = false≢true (sym h ∙ ap is_restricted e)

module _ (sha16 : String → String) (decimal : ℕ → String) (search : String → String → Bool)
    (texts : IssueTexts) (conn : Database) (auth : AuthContext) (now : Instant) (window_days : ℕ)
    (overrides : List AgreementOverride) (defaults : Defaults) where
  abbrev rule : AlertType → Result (List AlertCandidate)
  rule = run_rule sha16 decimal search texts conn auth now window_days overrides defaults

  -- One of the rules listed the alert.
  pub record Raised (types : List AlertType) (a : AlertCandidate) : Type 0 where
    pub alert_type : AlertType
    pub requested : Has alert_type types
    pub alerts : List AlertCandidate
    pub returned :
        run_rule sha16 decimal search texts conn auth now window_days overrides defaults alert_type
        ≡ ok alerts
    pub listed : Has a alerts

  abbrev rules : List AlertType → List AlertCandidate → Result (List AlertCandidate)
  rules = run_rules sha16 decimal search texts conn auth now window_days overrides defaults

  run_rules-UniqueIds :
      (types : List AlertType) (seen : List AlertCandidate) {r : List AlertCandidate}
      → rules types seen ≡ ok r
      → UniqueIds seen
      → UniqueIds r
  unfolding run_rules
  run_rules-UniqueIds [] seen h u = subst UniqueIds (ok-injective h) u
  run_rules-UniqueIds (t ∷ types) seen h u =
      let (alerts, e, k) = >>=-eq-ok (rule t) _ h in
      run_rules-UniqueIds types (put_alerts alerts seen) k (put_alerts-UniqueIds alerts seen u)

  weaken :
      {t : AlertType} {types : List AlertType} {a : AlertCandidate}
      → Raised types a
      → Raised (t ∷ types) a
  weaken r = record {
    alert_type = r.alert_type;
    requested = inr r.requested;
    alerts = r.alerts;
    returned = r.returned;
    listed = r.listed;
  }

  run_rules-Raised :
      (types : List AlertType) (seen : List AlertCandidate) {r : List AlertCandidate}
      (a : AlertCandidate)
      → rules types seen ≡ ok r
      → Has a r
      → Raised types a ⊎ Has a seen
  unfolding run_rules
  run_rules-Raised [] seen a h m = inr (subst (Has a) (ok-injective (sym h)) m)
  run_rules-Raised (t ∷ types) seen a h m =
      let (alerts, e, k) = >>=-eq-ok (rule t) _ h in
      elim (run_rules-Raised types (put_alerts alerts seen) a k m) [
        | inl r ↦ inl (weaken r)
        | inr n ↦ elim (put_alerts-Has a alerts seen n) [
          | inl l ↦ inl (record {
            alert_type = t;
            requested = inl refl;
            alerts = alerts;
            returned = e;
            listed = l;
          })
          | inr l ↦ inr l
        ]
      ]

  -- What the rules so far listed stays, by its id.
  run_rules-HasId :
      (types : List AlertType) (seen : List AlertCandidate) {r : List AlertCandidate} (id : String)
      → rules types seen ≡ ok r
      → HasId id seen
      → HasId id r
  unfolding run_rules
  run_rules-HasId [] seen id h m = subst (HasId id) (ok-injective h) m
  run_rules-HasId (t ∷ types) seen id h m =
      let (alerts, e, k) = >>=-eq-ok (rule t) _ h in
      run_rules-HasId types (put_alerts alerts seen) id k (put_alerts-HasId id alerts seen (inr m))

  run_rules-keeps :
      (types : List AlertType) (seen : List AlertCandidate) {r : List AlertCandidate}
      (a : AlertCandidate)
      → rules types seen ≡ ok r
      → Raised types a
      → HasId a.alert_id r
  unfolding run_rules
  run_rules-keeps [] seen a h raised = absurd raised.requested
  run_rules-keeps (t ∷ types) seen a h raised =
      let (alerts, e, k) = >>=-eq-ok (rule t) _ h in
      elim raised.requested [
        | inl same ↦
            let here : raised.alerts ≡ alerts =
              ok-injective (sym raised.returned ∙ (ap rule (sym same) ∙ e)) in
            run_rules-HasId types (put_alerts alerts seen) a.alert_id k (
              put_alerts-HasId a.alert_id alerts seen
                (inl (Has-HasId a alerts (subst (Has a) here raised.listed))))
        | inr later ↦ run_rules-keeps types (put_alerts alerts seen) a k (record {
          alert_type = raised.alert_type;
          requested = later;
          alerts = raised.alerts;
          returned = raised.returned;
          listed = raised.listed;
        })
      ]

  only-Raised :
      (types : List AlertType) {seen : List AlertCandidate} (a : AlertCandidate)
      → rules types [] ≡ ok seen
      → Has a seen
      → Raised types a
  only-Raised types a h m = elim (run_rules-Raised types [] a h m) [ inl r ↦ r | inr n ↦ absurd n ]

  -- A list of alerts that the radar returns goes to a caller who is not restricted support. It has
  -- the most severe first and within one severity is in the order of ids; no id stands in it twice,
  -- each alert was listed by a requested rule, and every alert that a requested rule lists has its
  -- id in it.
  pub run_operations_radar-UniqueIds :
      (types : Option (List AlertType)) (alerts : List AlertCandidate) (a : AlertCandidate)
      → run_operations_radar sha16 decimal search texts conn auth now window_days overrides defaults
          types
        ≡ ok alerts
      → (auth.role ≢ restricted_support)
        × IsOrdered alerts
        × UniqueIds alerts
        × (Has a alerts → Raised (types_to_run types) a)
        × (Raised (types_to_run types) a → HasId a.alert_id alerts)
  unfolding run_operations_radar
  run_operations_radar-UniqueIds types alerts a h = elim (Bool-cases (is_restricted auth.role)) [
    | inl e ↦ absurd (ground arith)
    | inr e ↦
        let (seen, k, sorted) = >>=-eq-ok (rules (types_to_run types) []) _ (rw e at h) in
        let same : sort_by alert_le seen ≡ alerts = ok-injective sorted in
        rw (← same) (
          unrestricted auth.role e,
          sorted-IsOrdered (sort_by alert_le seen) (sort_by-IsSorted alert_le alert_le_total seen),
          sort_by-UniqueIds seen (run_rules-UniqueIds (types_to_run types) [] k tt),
          λ m. only-Raised (types_to_run types) a k ((Has-sort_by alert_le a seen).0 m),
          λ r. sort_by-HasId a.alert_id seen (run_rules-keeps (types_to_run types) [] a k r),
        )
  ]
