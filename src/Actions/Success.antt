-- ===== src/Actions/Success.antt =====
-- When confirm_action of app/actions/workflow.py reports success.
use mathlib.Core.Path.{subst}
use mathlib.Core.Bool.{false≢true}
use parcelpilot_ops_copilot.Prelude.{
  String, ◌≡◌, ◌≢◌, refl, sym, ◌∙◌, true, false, Option, none, some, arith, Bool-cases, inl, inr,
  ap,
}
use parcelpilot_ops_copilot.Models.{
  ActionRecord, pending_confirmation, AuthContext, Database, Instant,
}
use parcelpilot_ops_copilot.Result.{ok, >>=-eq-ok, ok-injective}
use parcelpilot_ops_copilot.Actions.Models.{ActionOutcome, success_with, to_confirm}
use parcelpilot_ops_copilot.Actions.Store.{get_action, save_action_if_status}
use parcelpilot_ops_copilot.Actions.Workflow.{
  Plan, Swap, confirm, confirm_plan, finish_swap, finish, confirm_action, lost_outcome,
}
use parcelpilot_ops_copilot.Actions.Rows.{
  IsKeyed, found_with, get_action-save_ne, get_action-save_self, get_action-id,
}
use parcelpilot_ops_copilot.Actions.Confirm.{
  after_swap, finish_swap-won, Confirmable, confirm_swap, expire_swap, confirm_row-Confirmable,
  Verdict, refuses, expires, commits, confirm_plan-Verdict,
}

-- What a transition of one row leaves: the row is `next`, and every other row is as it was.
pub record Moved (conn conn' : Database) (action_id : String) (next : ActionRecord) : Type 0 where
  pub stored : get_action conn'.actions action_id ≡ some next
  pub others :
      (id : String) → id ≢ action_id → get_action conn'.actions id ≡ get_action conn.actions id

confirm_swap-Moved :
    (conn : Database) (action_id : String) (row : ActionRecord) (now : Instant)
    → get_action conn.actions action_id ≡ some row
    → row.status ≡ pending_confirmation
    → Moved conn (after_swap conn (confirm_swap row now)) action_id (confirm row now)
confirm_swap-Moved conn action_id row now stored pending =
    let same : row.action_id ≡ action_id = get_action-id conn.actions action_id stored in
    record {
      stored =
          subst
            (λ id.
              get_action (after_swap conn (confirm_swap row now)).actions id
              ≡ some (confirm row now))
            same
            (get_action-save_self conn.actions (confirm row now) pending_confirmation row
              (subst (λ id. get_action conn.actions id ≡ some row) (sym same) stored)
              (ground arith));
      others = λ id other.
          get_action-save_ne conn.actions (confirm row now) pending_confirmation id
            (λ e. other (e ∙ same));
    }

lost-fails :
    (id : String) (found : Option ActionRecord) {o : ActionOutcome}
    → lost_outcome to_confirm id found ≡ ok o
    → o.success ≡ false
lost-fails id none h = cc
lost-fails id (some current) h = ground arith

-- A confirmation that loses its swap reports a failure.
finish_swap-success :
    (conn conn' : Database) (s : Swap) (o : ActionOutcome)
    → s.verb ≡ to_confirm
    → finish_swap conn s ≡ ok (conn', o)
    → o.success ≡ true
    → (conn' ≡ after_swap conn s) × (o ≡ s.won)
unfolding finish_swap
finish_swap-success conn conn' s o v h succeeded =
    let (rows, won) = save_action_if_status conn.actions s.next s.expected_status in
    elim (Bool-cases won) [
      | inl w ↦ let e = ok-injective (rw w at h) in (ap (λ p. p.0) (sym e), ap (λ p. p.1) (sym e))
      | inr l ↦
          let (outcome, reported, last) =
            >>=-eq-ok (lost_outcome s.verb s.next.action_id (get_action rows s.next.action_id)) _
              (rw l at h) in
          let e = ok-injective last in
          absurd (
            false≢true (
              sym
                (lost-fails s.next.action_id (get_action rows s.next.action_id) (rw v at reported))
              ∙ ap (λ p. p.1.success) e
              ∙ succeeded))
    ]

module _ (conn : Database) (action_id payload_hash : String) (auth : AuthContext) (now : Instant)
    (user_id : String) where
  -- With every condition met, and identifiers unique, a confirmation succeeds: the row becomes
  -- CONFIRMED at this instant, and no other row changes.
  pub confirm_action_confirms :
      (row : ActionRecord)
      → IsKeyed conn.actions
      → Confirmable conn action_id payload_hash auth now user_id row
      → (conn' : Database) × (confirm_action conn action_id payload_hash auth now user_id
          ≡ ok (conn', success_with (confirm row now)))
        × Moved conn conn' action_id (confirm row now)
  unfolding confirm_action confirm_plan finish
  confirm_action_confirms row keyed c =
      let same : row.action_id ≡ action_id = get_action-id conn.actions action_id c.stored in
      let own : get_action conn.actions row.action_id ≡ some row =
        subst (λ id. get_action conn.actions id ≡ some row) (sym same) c.stored in
      (
        after_swap conn (confirm_swap row now),
        rw (c.stored, confirm_row-Confirmable conn action_id payload_hash auth now user_id row c)
            (finish_swap-won conn (confirm_swap row now) keyed
              (ap (found_with pending_confirmation) own ∙ ground (arith, c.pending))),
        confirm_swap-Moved conn action_id row now c.stored c.pending,
      )

  -- What a success that was reported shows.
  abbrev pub Confirms : Database → ActionOutcome → Type 0
  Confirms conn' o =
      (row : ActionRecord) × Confirmable conn action_id payload_hash auth now user_id row
      × (o ≡ success_with (confirm row now))
      × Moved conn conn' action_id (confirm row now)

  Verdict-Confirms :
      (plan : Plan) (conn' : Database) (o : ActionOutcome)
      → finish conn plan ≡ ok (conn', o)
      → o.success ≡ true
      → Verdict conn action_id payload_hash auth now user_id plan
      → Confirms conn' o
  unfolding finish
  Verdict-Confirms plan conn' o f succeeded (refuses r e fails) =
      let same = ok-injective (rw e at f) in
      absurd (false≢true (sym fails ∙ ap (λ p. p.1.success) same ∙ succeeded))
  Verdict-Confirms plan conn' o f succeeded (expires row stored pending past e) =
      let (moved, reported) =
        finish_swap-success conn conn' (expire_swap row) o refl (rw e at f) succeeded in
      absurd (false≢true (ap (λ r. r.success) (sym reported) ∙ succeeded))
  Verdict-Confirms plan conn' o f succeeded (commits row c e) =
      let (moved, reported) =
        finish_swap-success conn conn' (confirm_swap row now) o refl (rw e at f) succeeded in
      (
        row,
        c,
        reported,
        subst (λ db. Moved conn db action_id (confirm row now)) (sym moved)
            (confirm_swap-Moved conn action_id row now c.stored c.pending),
      )

  -- A confirmation that reports success met every condition: the row was PENDING_CONFIRMATION and
  -- not past its expiry, the caller prepared it, sent the prepared payload's digest, may see the
  -- ticket, and the ticket's status is the recorded one. It left that row CONFIRMED at this instant
  -- and every other row alone.
  pub confirm_action_only :
      (conn' : Database) (o : ActionOutcome)
      → confirm_action conn action_id payload_hash auth now user_id ≡ ok (conn', o)
      → o.success ≡ true
      → Confirms conn' o
  unfolding confirm_action
  confirm_action_only conn' o h succeeded =
      let (plan, planned, finished) =
        >>=-eq-ok (confirm_plan conn action_id payload_hash auth now user_id) (λ p. finish conn p)
          h in
      Verdict-Confirms plan conn' o finished succeeded
        (confirm_plan-Verdict conn action_id payload_hash auth now user_id plan planned)
