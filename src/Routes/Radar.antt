-- ===== src/Routes/Radar.antt =====
-- app/api/routes/radar.py: the two routes over run_operations_radar. A response leaves out the latency
-- and the instant and the user of the request, which the caller gave.
pub mod Listed
use parcelpilot_ops_copilot.Prelude.{
  ℕ, ◌≡◌, ◌∙◌, ◌↔◌, ap, sym, ◌⊎◌, inl, inr, refl, String, Bool, true, false, ◌==◌, eq_iff, arith,
  Bool-cases, Option, none, some, List, [], ◌∷◌, Has, length, find, if◌then◌else◌,
}
use mathlib.Core.Path.{subst}
use parcelpilot_ops_copilot.Models.{Database, Instant}
use parcelpilot_ops_copilot.Result.{Result, ok, raise, Error, Result-cases}
use parcelpilot_ops_copilot.Policy.{AgreementOverride, Defaults}
use parcelpilot_ops_copilot.Detection.Alert.{AlertCandidate, AlertType}
use parcelpilot_ops_copilot.Detection.Tickets.{default_window_days}
use parcelpilot_ops_copilot.Detection.KnownIssues.{IssueTexts}
use parcelpilot_ops_copilot.Detection.Service.{run_operations_radar, group_by_account}
use parcelpilot_ops_copilot.Detection.Service.Ids.{UniqueIds, FreshId, HasId}
use parcelpilot_ops_copilot.Detection.Service.Deduplicated.{run_operations_radar-UniqueIds}
use parcelpilot_ops_copilot.Routes.{
  DemoUser, to_auth_context, Response, responds, http_404, http_403, unhandled,
}

pub record RadarRequest : Type 0 where
  pub alert_types : Option (List AlertType)
  pub window_days : ℕ
  pub by_account : Bool

pub record RadarResponse : Type 0 where
  pub alerts : List AlertCandidate
  pub total_alerts : ℕ
  pub grouped_by_account : Option (List (String × List String))

-- `except NotAuthorizedError`, and what the route does with the alerts
abbrev pub with_alerts :
    {A : Type 0} → Result (List AlertCandidate) → (List AlertCandidate → Response A) → Response A
with_alerts (ok alerts) rest = rest alerts
with_alerts (raise (Error.not_authorized denial)) rest = http_403
with_alerts (raise e) rest = unhandled e

abbrev pub radar_response : Bool → List AlertCandidate → RadarResponse
radar_response by_account alerts = record {
  alerts = alerts;
  total_alerts = length alerts;
  grouped_by_account = if by_account then some (group_by_account alerts) else none;
}

-- The loop of get_alert, and its end.
abbrev pub alert_or_404 : String → Option AlertCandidate → Response AlertCandidate
alert_or_404 alert_id none = http_404 alert_id
alert_or_404 alert_id (some alert) = responds alert

module _ (sha16 : String → String) (decimal : ℕ → String) (search : String → String → Bool)
    (texts : IssueTexts) (conn : Database) (now : Instant) (overrides : List AgreementOverride)
    (defaults : Defaults) where
  unfoldable pub run_radar : RadarRequest → DemoUser → Response RadarResponse
  run_radar body user =
      with_alerts
        (run_operations_radar sha16 decimal search texts conn (to_auth_context user) now
          body.window_days overrides defaults body.alert_types)
        (λ alerts. responds (radar_response body.by_account alerts))

  unfoldable pub get_alert : String → DemoUser → Response AlertCandidate
  get_alert alert_id user =
      with_alerts
        (run_operations_radar sha16 decimal search texts conn (to_auth_context user) now
          default_window_days overrides defaults none)
        (λ alerts. alert_or_404 alert_id (find (λ alert. alert.alert_id == alert_id) alerts))
