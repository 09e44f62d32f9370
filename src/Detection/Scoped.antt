-- ===== src/Detection/Scoped.antt =====
-- The rules over orders of app/detection/rules.py, against their conditions and the scope.
use parcelpilot_ops_copilot.Prelude.{
  ℕ, ◌<◌, String, true, false, ◌≡◌, ◌↔◌, refl, Option, none, some, List, filter, Has, Has-filter,
  Has-map, arith, is_some,
}
use parcelpilot_ops_copilot.Prelude.Sort.{Has-sort_by}
use parcelpilot_ops_copilot.Models.{booked, AuthContext, allows_account, Database, Order, Instant}
use parcelpilot_ops_copilot.Result.{ok, >>=-eq-ok, ok-injective}
use parcelpilot_ops_copilot.Repository.{search_orders, order_selected, order_le}
use parcelpilot_ops_copilot.Repository.Access.{search_visible, visible}
use parcelpilot_ops_copilot.Detection.Alert.{AlertCandidate}
use parcelpilot_ops_copilot.Detection.Orders.{
  is_overdue, overdue_alert, detect_overdue_pickups, detect_carrier_patterns,
}
use mathlib.Core.Path.{subst}

-- The conditions of detect_overdue_pickups on an order.
pub record Overdue (sha16 : String → String) (decimal : ℕ → String) (conn : Database)
    (auth : AuthContext) (now : Instant) (a : AlertCandidate) : Type 0 where
  pub order : Order
  pub listed : Has order conn.orders
  pub in_scope : allows_account auth order.account_id ≡ true
  pub still_booked : order.status ≡ booked
  pub waiting : order.pickup_actual_at ≡ none
  pub window_over : order.pickup_window_end < now
  pub raised : a ≡ overdue_alert sha16 decimal now order

not_some : {A : Type 0} (o : Option A) → is_some o ≡ false → o ≡ none
not_some none h = refl
not_some (some a) h = absurd (ground arith)

module _ (sha16 : String → String) (decimal : ℕ → String) (conn : Database) (auth : AuthContext)
    (now : Instant) where
  found_orders :
      (orders : List Order)
      → search_orders conn auth none (some booked) none ≡ ok orders
      → (o : Order)
      → Has o orders ↔ (Has o conn.orders × (order_selected auth none (some booked) none o ≡ true))
  unfolding search_orders
  found_orders orders h o =
      let p = order_selected auth none (some booked) none in
      subst (λ rows. Has o rows ↔ (Has o conn.orders × (p o ≡ true))) (ok-injective h)
        (
          (λ m.
              (Has-filter p o conn.orders).0 ((Has-sort_by order_le o (filter p conn.orders)).0 m)),
          (λ m.
              (Has-sort_by order_le o (filter p conn.orders)).1 ((Has-filter p o conn.orders).1 m)),
        )

  -- If detect_overdue_pickups returns, an alert is in its list exactly when it is the alert of a
  -- BOOKED order in the caller's scope that has no recorded pickup and whose pickup window ended
  -- before now, whether or not its cancellation was requested.
  pub detect_overdue_pickups-Overdue :
      (alerts : List AlertCandidate)
      → detect_overdue_pickups sha16 decimal conn auth now ≡ ok alerts
      → (a : AlertCandidate) → Has a alerts ↔ Overdue sha16 decimal conn auth now a
  unfolding detect_overdue_pickups
  detect_overdue_pickups-Overdue alerts h a =
      let (orders, found, last) = >>=-eq-ok (search_orders conn auth none (some booked) none) _ h in
      let mapped = Has-map (overdue_alert sha16 decimal now) a (filter (is_overdue now) orders) in
      let exact = found_orders orders found in
      subst (λ as'. Has a as' ↔ Overdue sha16 decimal conn auth now a) (ok-injective last)
        (
          (λ m.
              let (order, place, raised) = mapped.0 m in
              let (place', overdue) = (Has-filter (is_overdue now) order orders).0 place in
              let (listed, selected) = (exact order).0 place' in
              record {
                order = order;
                listed = listed;
                in_scope = ground arith;
                still_booked = ground arith;
                waiting = not_some order.pickup_actual_at (ground arith);
                window_over = ground arith;
                raised = raised;
              }),
          (λ b. mapped.1 (
            b.order,
            (Has-filter (is_overdue now) b.order orders).1 (
              (exact b.order).1 (b.listed, rw (b.in_scope, b.still_booked) refl),
              rw b.waiting (ground (arith, b.window_over)),
            ),
            b.raised,
          )),
        )

  -- The two rules over orders list the same alerts on the whole database and on the part of it that
  -- the caller may see: no count includes an order outside the scope.
  pub detect_orders-visible :
      (threshold window_days : ℕ)
      → (detect_overdue_pickups sha16 decimal (visible auth conn) auth now
          ≡ detect_overdue_pickups sha16 decimal conn auth now)
        × (detect_carrier_patterns sha16 decimal (visible auth conn) auth now threshold window_days
            ≡ detect_carrier_patterns sha16 decimal conn auth now threshold window_days)
  unfolding detect_overdue_pickups detect_carrier_patterns
  detect_orders-visible threshold window_days = (
    rw (search_visible conn auth none none (some booked) none).0 refl,
    rw (search_visible conn auth none none none none).0 refl,
  )
