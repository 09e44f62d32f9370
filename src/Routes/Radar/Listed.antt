-- ===== src/Routes/Radar/Listed.antt =====
-- What the two routes of the radar let a caller see.
use parcelpilot_ops_copilot.Prelude.{
  ℕ, ◌≡◌, ◌↔◌, ap, inl, inr, refl, String, Bool, false, ◌==◌, eq_iff, arith, Bool-cases, none, List,
  [], ◌∷◌, Has, length, find,
}
use mathlib.Core.Path.{subst}
use parcelpilot_ops_copilot.Models.{Database, Instant}
use parcelpilot_ops_copilot.Result.{Result, ok, raise, Error}
use parcelpilot_ops_copilot.Policy.{AgreementOverride, Defaults}
use parcelpilot_ops_copilot.Detection.Alert.{AlertCandidate}
use parcelpilot_ops_copilot.Detection.Tickets.{default_window_days}
use parcelpilot_ops_copilot.Detection.KnownIssues.{IssueTexts}
use parcelpilot_ops_copilot.Detection.Service.{run_operations_radar}
use parcelpilot_ops_copilot.Detection.Service.Ids.{UniqueIds, FreshId}
use parcelpilot_ops_copilot.Detection.Service.Deduplicated.{run_operations_radar-UniqueIds}
use parcelpilot_ops_copilot.Routes.{DemoUser, to_auth_context, Response, responds}
use parcelpilot_ops_copilot.Routes.Radar.{
  RadarResponse, with_alerts, radar_response, alert_or_404, run_radar, get_alert,
}

with_alerts-responds :
    {A : Type 0} (alerts : Result (List AlertCandidate)) (rest : List AlertCandidate → Response A)
    {a : A}
    → with_alerts alerts rest ≡ responds a
    → (as' : List AlertCandidate) × (alerts ≡ ok as') × (rest as' ≡ responds a)
with_alerts-responds (ok alerts) rest h = (alerts, refl, h)
with_alerts-responds (raise (Error.not_authorized d)) rest h = cc
with_alerts-responds (raise (Error.unknown_entity a b)) rest h = cc
with_alerts-responds (raise (Error.no_default_no_agreement a b)) rest h = cc
with_alerts-responds (raise (Error.inactive_no_default a b c)) rest h = cc
with_alerts-responds (raise (Error.key_error a)) rest h = cc
with_alerts-responds (raise Error.assertion_error) rest h = cc
with_alerts-responds (raise Error.type_error) rest h = cc
with_alerts-responds (raise Error.integrity_error) rest h = cc
with_alerts-responds (raise (Error.value_error a)) rest h = cc
with_alerts-responds (raise Error.invalid_filter) rest h = cc

fresh_not_listed :
    (id : String) (a : AlertCandidate) (alerts : List AlertCandidate)
    → FreshId id alerts
    → Has a alerts
    → a.alert_id == id ≡ false
fresh_not_listed id a [] h m = absurd m
fresh_not_listed id a (b ∷ alerts) h (inl e) = subst (λ x. x.alert_id == id ≡ false) e h.0
fresh_not_listed id a (b ∷ alerts) h (inr m) = fresh_not_listed id a alerts h.1 m

-- Under unique ids, the loop returns the one alert with the id, or ends with none.
alert_or_404-listed :
    (id : String) (a : AlertCandidate) (alerts : List AlertCandidate)
    → UniqueIds alerts
    → (alert_or_404 id (find (λ b. b.alert_id == id) alerts) ≡ responds a)
      ↔ (Has a alerts × (a.alert_id ≡ id))
alert_or_404-listed id a [] u = ((λ h. cc), (λ k. absurd k.0))
alert_or_404-listed id a (b ∷ alerts) u = elim (Bool-cases (b.alert_id == id)) [
  | inr other ↦
      let (there, back) = alert_or_404-listed id a alerts u.1 in
      rw other (
        (λ h. let (m, e) = there h in (inr m, e)),
        (λ k. elim k.0 [
          | inl same ↦ absurd (ground (arith, eq_iff b.alert_id id, ap (λ x. x.alert_id) same, k.1))
          | inr m ↦ back (m, k.1)
        ]),
      )
  | inl here ↦
      let same_id : b.alert_id ≡ id = (eq_iff b.alert_id id).0 here in
      rw here (
        (λ h. let e : b ≡ a = cc in (inl e, subst (λ x. x.alert_id ≡ id) e same_id)),
        (λ k. elim k.0 [
          | inl same ↦ ap responds same
          | inr m ↦
              let differ = fresh_not_listed b.alert_id a alerts u.0 m in
              absurd (ground (arith, eq_iff a.alert_id b.alert_id, k.1, same_id))
        ]),
      )
]

module _ (sha16 : String → String) (decimal : ℕ → String) (search : String → String → Bool)
    (texts : IssueTexts) (conn : Database) (now : Instant) (overrides : List AgreementOverride)
    (defaults : Defaults) where
  -- With the default window and all rules, when run_radar responds, it counts its alerts, and
  -- reading an alert by its id over HTTP gives exactly the alert of that list which has the id.
  pub get_alert-run_radar :
      (by_account : Bool) (user : DemoUser) (r : RadarResponse) (a : AlertCandidate)
      (alert_id : String)
      → run_radar sha16 decimal search texts conn now overrides defaults
          (record {
            alert_types = none;
            window_days = default_window_days;
            by_account = by_account;
          })
          user
        ≡ responds r
      → (r.total_alerts ≡ length r.alerts)
        × ((get_alert sha16 decimal search texts conn now overrides defaults alert_id user
              ≡ responds a)
            ↔ (Has a r.alerts × (a.alert_id ≡ alert_id)))
  unfolding run_radar get_alert
  get_alert-run_radar by_account user r a alert_id h =
      let radar =
        run_operations_radar sha16 decimal search texts conn (to_auth_context user) now
          default_window_days overrides defaults none in
      let (alerts, e, k) = with_alerts-responds radar _ h in
      let unique =
        (run_operations_radar-UniqueIds sha16 decimal search texts conn (to_auth_context user) now
          default_window_days overrides defaults none alerts a e).2 in
      let same : radar_response by_account alerts ≡ r = cc in
      rw (← same) (refl, rw e (alert_or_404-listed alert_id a alerts unique))
