-- ===== src/Detection/Orders.antt =====
-- app/detection/rules.py: the rules over orders, detect_carrier_patterns and detect_overdue_pickups.
use parcelpilot_ops_copilot.Prelude.{
  ℕ, ◌+◌, ◌*◌, String, Bool, not, ◌&&◌, ◌==◌, none, some, List, [], ◌∷◌, map, filter, length, ltb,
  contains, is_some, if◌then◌else◌,
}
use parcelpilot_ops_copilot.Prelude.Int.{sub_ℕ}
use parcelpilot_ops_copilot.Models.{booked, confident, AuthContext, Database, Order, Instant}
use parcelpilot_ops_copilot.Result.{Result, ok, ◌>>=◌}
use parcelpilot_ops_copilot.Repository.{search_orders}
use parcelpilot_ops_copilot.Domain.Evidence.{cite_structured}
use parcelpilot_ops_copilot.Detection.Alert.{
  AlertCandidate, AlertType, high, medium, AlertReason, TimeWindow, compute_alert_id, sorted_texts,
  sorted_set,
}
use parcelpilot_ops_copilot.Detection.Tickets.{day}

abbrev pub carrier_rule_version : String
carrier_rule_version = "v1"

abbrev pub overdue_pickup_rule_version : String
overdue_pickup_rule_version = "v1"

abbrev pub default_carrier_fault_threshold : ℕ
default_carrier_fault_threshold = 2

-- What passes the two `continue`s of detect_carrier_patterns.
abbrev pub is_recent_fault : ℕ → Instant → Order → Bool
is_recent_fault window_days now order =
    order.carrier_fault && not (ltb (order.booked_at + window_days * day) now)

-- The keys of `by_carrier`, in the order in which they were first set.
abbrev keys_from : List String → List Order → List String
keys_from seen [] = []
keys_from seen (order ∷ orders) =
    let fresh = order.carrier ∷ keys_from (order.carrier ∷ seen) orders in
    let rest = keys_from seen orders in if contains order.carrier seen then rest else fresh

abbrev pub orders_of : String → List Order → List Order
orders_of carrier orders = filter (λ order. order.carrier == carrier) orders

-- What passes the two `continue`s of detect_overdue_pickups.
abbrev pub is_overdue : Instant → Order → Bool
is_overdue now order = not (is_some order.pickup_actual_at) && ltb order.pickup_window_end now

module _ (sha16 : String → String) (decimal : ℕ → String) where
  abbrev pub carrier_alert : ℕ → ℕ → String → List Order → AlertCandidate
  carrier_alert threshold window_days carrier orders =
      let order_ids : List String = map (λ order. order.order_id) orders in
      record {
        alert_id =
            compute_alert_id sha16 decimal AlertType.carrier_pattern (TimeWindow.days window_days)
              carrier_rule_version order_ids;
        alert_type = AlertType.carrier_pattern;
        severity = medium;
        reason = AlertReason.many_faults (length order_ids) carrier threshold window_days;
        observed_count = length order_ids;
        threshold = threshold;
        time_window = TimeWindow.days window_days;
        representative_records = sorted_texts order_ids;
        affected_accounts = sorted_set (map (λ order. order.account_id) orders);
        evidence = map (λ id. cite_structured "orders" id none) (sorted_texts order_ids);
        trust_state = confident;
        rule_version = carrier_rule_version;
      }

  -- The second loop, over the carriers.
  abbrev pub carrier_alerts : ℕ → ℕ → List Order → List String → List AlertCandidate
  carrier_alerts threshold window_days faults [] = []
  carrier_alerts threshold window_days faults (carrier ∷ carriers) =
      let rest = carrier_alerts threshold window_days faults carriers in
      if ltb (length (orders_of carrier faults)) threshold
      then rest
      else carrier_alert threshold window_days carrier (orders_of carrier faults) ∷ rest

  unfoldable pub detect_carrier_patterns :
      Database → AuthContext → Instant → ℕ → ℕ → Result (List AlertCandidate)
  detect_carrier_patterns conn auth now threshold window_days = do
    orders ← search_orders conn auth none none none
    let faults : List Order = filter (is_recent_fault window_days now) orders
    ok (carrier_alerts threshold window_days faults (keys_from [] faults))

  abbrev pub overdue_alert : Instant → Order → AlertCandidate
  overdue_alert now order = record {
    alert_id =
        compute_alert_id sha16 decimal AlertType.overdue_pickup TimeWindow.point_in_time
          overdue_pickup_rule_version (order.order_id ∷ []);
    alert_type = AlertType.overdue_pickup;
    severity = if order.carrier_fault then high else medium;
    reason = AlertReason.window_over order.order_id (sub_ℕ now order.pickup_window_end);
    observed_count = 1;
    threshold = 1;
    time_window = TimeWindow.point_in_time;
    representative_records = order.order_id ∷ [];
    affected_accounts = order.account_id ∷ [];
    evidence = cite_structured "orders" order.order_id none ∷ [];
    trust_state = confident;
    rule_version = overdue_pickup_rule_version;
  }

  unfoldable pub detect_overdue_pickups :
      Database → AuthContext → Instant → Result (List AlertCandidate)
  detect_overdue_pickups conn auth now = do
    orders ← search_orders conn auth none (some booked) none
    ok (map (overdue_alert now) (filter (is_overdue now) orders))
