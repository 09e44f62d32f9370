-- ===== src/Actions/Race/Once.antt =====
-- How often one action is confirmed, over a schedule of calls of app/actions/workflow.py.
use parcelpilot_ops_copilot.Prelude.{
  ℕ, zero, suc, ◌+◌, ◌≤◌, String, ◌≡◌, refl, Bool, List, [], ◌∷◌, count_if, arith,
}
use parcelpilot_ops_copilot.Models.{Database}
use parcelpilot_ops_copilot.Policy.{AgreementOverride, Defaults}
use parcelpilot_ops_copilot.Actions.Store.{get_action}
use parcelpilot_ops_copilot.Actions.Workflow.{PayloadHash}
use parcelpilot_ops_copilot.Actions.Race.{
  Request, prepare_request, confirm_request, execute_request, Thread, step_at, run_schedule,
  fresh_threads,
}
use parcelpilot_ops_copilot.Actions.Race.Audit.{IsAudited}
use parcelpilot_ops_copilot.Actions.Race.Steps.{AreSafe}
use parcelpilot_ops_copilot.Actions.Race.Chances.{
  has_confirmed, points, is_open, chance, HoldsPlan, advance-HoldsPlan, advance-Pays,
}
use parcelpilot_ops_copilot.Actions.Race.Schedules.{step_at-KeepsAll, fresh_threads-AreSafe}

abbrev AllHold : List Thread → Type 0
AllHold [] = Unit
AllHold (t ∷ ts) = HoldsPlan t.request t.phase × AllHold ts

abbrev pub confirmations : String → List Thread → ℕ
confirmations id ts = count_if (has_confirmed id) ts

module _ (hash : PayloadHash) (search : String → String → Bool) (overrides : List AgreementOverride)
    (defaults : Defaults) where
  step_at-AllHold :
      (n : ℕ) (conn : Database) (ts : List Thread)
      → AllHold ts
      → AllHold (step_at hash search overrides defaults n conn ts).1
  unfolding step_at
  step_at-AllHold n conn [] hold = tt
  step_at-AllHold zero conn (t ∷ ts) hold =
      (advance-HoldsPlan hash search overrides defaults conn t.request t.phase hold.0, hold.1)
  step_at-AllHold (suc n) conn (t ∷ ts) hold = (hold.0, step_at-AllHold n conn ts hold.1)

  step_at-confirmations :
      (id : String) (n : ℕ) (conn : Database) (ts : List Thread)
      → IsAudited hash conn.actions
      → AreSafe conn.actions ts
      → AllHold ts
      → let (conn', ts') = step_at hash search overrides defaults n conn ts in
        confirmations id ts' + chance conn'.actions id
        ≤ confirmations id ts + chance conn.actions id
  unfolding step_at
  step_at-confirmations id n conn [] audited safe hold = omega arith
  step_at-confirmations id zero conn (t ∷ ts) audited safe hold =
      let pays =
        advance-Pays hash conn audited search overrides defaults id t.request t.phase safe.0
          hold.0 in
      ground arith
  step_at-confirmations id (suc n) conn (t ∷ ts) audited safe hold =
      let rest = step_at-confirmations id n conn ts audited safe.1 hold.1 in ground arith

  run_schedule-confirmations :
      (id : String) (schedule : List ℕ) (conn : Database) (ts : List Thread)
      → IsAudited hash conn.actions
      → AreSafe conn.actions ts
      → AllHold ts
      → confirmations id (run_schedule hash search overrides defaults schedule conn ts).1
        ≤ confirmations id ts + chance conn.actions id
  unfolding run_schedule
  run_schedule-confirmations id [] conn ts audited safe hold = omega arith
  run_schedule-confirmations id (n ∷ schedule) conn ts audited safe hold =
      let (conn', ts') = step_at hash search overrides defaults n conn ts in
      let kept = step_at-KeepsAll hash search overrides defaults n conn ts audited safe in
      let step = step_at-confirmations id n conn ts audited safe hold in
      let rest =
        run_schedule-confirmations id schedule conn' ts' kept.audited kept.safe
          (step_at-AllHold n conn ts hold) in
      omega arith

  fresh_threads-AllHold : (requests : List Request) → AllHold (fresh_threads requests)
  fresh_threads-AllHold [] = tt
  fresh_threads-AllHold (prepare_request a b c d e f g ∷ requests) =
      (tt, fresh_threads-AllHold requests)
  fresh_threads-AllHold (confirm_request a b c d e ∷ requests) =
      (tt, fresh_threads-AllHold requests)
  fresh_threads-AllHold (execute_request a b ∷ requests) = (tt, fresh_threads-AllHold requests)

  fresh_threads-confirmations :
      (id : String) (requests : List Request) → confirmations id (fresh_threads requests) ≡ 0
  fresh_threads-confirmations id [] = refl
  fresh_threads-confirmations id (r ∷ requests) =
      ground (arith, fresh_threads-confirmations id requests)

  -- From an audited table of actions, whatever calls of prepare, confirm and execute are under way
  -- and however their reads and writes interleave, at most one of the confirmations of an action
  -- reports success.
  pub run_schedule-confirmed_once :
      (conn : Database) (requests : List Request) (schedule : List ℕ) (id : String)
      → IsAudited hash conn.actions
      → confirmations id
          (run_schedule hash search overrides defaults schedule conn (fresh_threads requests)).1
        ≤ 1
  run_schedule-confirmed_once conn requests schedule id audited =
      let total =
        run_schedule-confirmations id schedule conn (fresh_threads requests) audited
          (fresh_threads-AreSafe hash search overrides defaults conn.actions requests)
          (fresh_threads-AllHold requests) in
      let before = fresh_threads-confirmations id requests in
      let bound = one_chance (is_open (get_action conn.actions id)) in omega arith
    where
      one_chance : (b : Bool) → points b ≤ 1
      one_chance b = ground arith
