-- ===== src/Actions/Idempotent.antt =====
-- Repeated calls of execute_action of app/actions/workflow.py.
use mathlib.Core.Path.{subst}
use mathlib.Core.Bool.{false≢true}
use parcelpilot_ops_copilot.Prelude.{
  String, ◌≡◌, refl, sym, ◌∙◌, true, false, none, some, arith, Bool-cases, Option-cases, inl, inr,
  ap,
}
use parcelpilot_ops_copilot.Models.{
  ActionRecord, confirmed, executed, Database, Instant, same_action_status,
}
use parcelpilot_ops_copilot.Result.{ok, ok-injective}
use parcelpilot_ops_copilot.Actions.Models.{ActionOutcome, success_with}
use parcelpilot_ops_copilot.Actions.Store.{get_action}
use parcelpilot_ops_copilot.Actions.Workflow.{execute, execute_plan, finish, execute_action}
use parcelpilot_ops_copilot.Actions.Rows.{IsKeyed, found_with, get_action-save_self, get_action-id}
use parcelpilot_ops_copilot.Actions.Confirm.{after_swap, finish_swap-won, execute_swap}

-- An EXECUTED row is returned as it is, and nothing is written.
execute_action_again :
    (conn : Database) (action_id : String) (now : Instant) (row : ActionRecord)
    → get_action conn.actions action_id ≡ some row
    → row.status ≡ executed
    → execute_action conn action_id now ≡ ok (conn, success_with row)
unfolding execute_action execute_plan finish
execute_action_again conn action_id now row stored done =
    let status : same_action_status row.status executed ≡ true = ground (arith, done) in
    rw (stored, status)

-- A CONFIRMED row becomes EXECUTED at this instant.
execute_action_first :
    (conn : Database) (action_id : String) (now : Instant) (row : ActionRecord)
    → IsKeyed conn.actions
    → get_action conn.actions action_id ≡ some row
    → row.status ≡ confirmed
    → (execute_action conn action_id now
        ≡ ok (after_swap conn (execute_swap row now), success_with (execute row now)))
      × (get_action (after_swap conn (execute_swap row now)).actions action_id
          ≡ some (execute row now))
unfolding execute_action execute_plan finish
execute_action_first conn action_id now row keyed stored status =
    let same : row.action_id ≡ action_id = get_action-id conn.actions action_id stored in
    let own : get_action conn.actions row.action_id ≡ some row =
      subst (λ id. get_action conn.actions id ≡ some row) (sym same) stored in
    let first : same_action_status row.status executed ≡ false = ground (arith, status) in
    let second : same_action_status row.status confirmed ≡ true = ground (arith, status) in
    (
      rw (stored, first, second)
          (finish_swap-won conn (execute_swap row now) keyed
            (ap (found_with confirmed) own ∙ second)),
      subst
          (λ id.
            get_action (after_swap conn (execute_swap row now)).actions id ≡ some (execute row now))
          same (get_action-save_self conn.actions (execute row now) confirmed row own second),
    )

-- An execution that is neither first nor again fails.
execute_row-fails :
    (conn : Database) (action_id : String) (now : Instant) (row : ActionRecord) {conn' : Database}
    {o : ActionOutcome}
    → get_action conn.actions action_id ≡ some row
    → same_action_status row.status executed ≡ false
    → same_action_status row.status confirmed ≡ false
    → execute_action conn action_id now ≡ ok (conn', o)
    → o.success ≡ false
unfolding execute_action execute_plan finish
execute_row-fails conn action_id now row stored first second h =
    ap (λ p. p.1.success) (sym (ok-injective (rw (stored, first, second) at h)))

execute_missing-fails :
    (conn : Database) (action_id : String) (now : Instant) {conn' : Database} {o : ActionOutcome}
    → get_action conn.actions action_id ≡ none
    → execute_action conn action_id now ≡ ok (conn', o)
    → o.success ≡ false
unfolding execute_action execute_plan finish
execute_missing-fails conn action_id now missing h =
    ap (λ p. p.1.success) (sym (ok-injective (rw missing at h)))

-- After an execution that reported success on a table of unique identifiers, a second one, whenever
-- it comes, reports the same record and changes nothing in the database.
pub execute_action_twice :
    (conn conn' : Database) (action_id : String) (now later : Instant) (o : ActionOutcome)
    → IsKeyed conn.actions
    → execute_action conn action_id now ≡ ok (conn', o)
    → o.success ≡ true
    → execute_action conn' action_id later ≡ ok (conn', o)
execute_action_twice conn conn' action_id now later o keyed h succeeded =
    elim (Option-cases (get_action conn.actions action_id)) [
      | inl missing ↦
          absurd (false≢true (sym (execute_missing-fails conn action_id now missing h) ∙ succeeded))
      | inr (row, stored) ↦ elim (Bool-cases (same_action_status row.status executed)) [
        | inl done ↦
            let e =
              ok-injective
                (sym (execute_action_again conn action_id now row stored (ground arith)) ∙ h) in
            subst (λ p. execute_action p.0 action_id later ≡ ok p) e
              (execute_action_again conn action_id later row stored (ground arith))
        | inr first ↦ elim (Bool-cases (same_action_status row.status confirmed)) [
          | inl status ↦
              let (ran, left) =
                execute_action_first conn action_id now row keyed stored (ground arith) in
              let e = ok-injective (sym ran ∙ h) in
              subst (λ p. execute_action p.0 action_id later ≡ ok p) e
                (execute_action_again (after_swap conn (execute_swap row now)) action_id later
                  (execute row now) left refl)
          | inr other ↦ absurd (
              false≢true
                (sym (execute_row-fails conn action_id now row stored first other h) ∙ succeeded))
        ]
      ]
    ]
