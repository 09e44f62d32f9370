-- ===== src/Actions/Confirm.antt =====
-- The branches of confirm_action and execute_action of app/actions/workflow.py, up to the UPDATE.
use parcelpilot_ops_copilot.Prelude.{
  ◌≤◌, ◌<◌, String, ◌≡◌, refl, sym, true, false, ◌==◌, Option, some, arith, eq_iff, Bool-cases,
  Option-cases, inl, inr, ltb,
}
use parcelpilot_ops_copilot.Models.{
  ActionRecord, pending_confirmation, confirmed, same_action_status, same_ticket_status,
  AuthContext, Database, Ticket, Instant,
}
use parcelpilot_ops_copilot.Result.{Result, ok, raise, Error, >>=-eq-ok, ok-injective}
use parcelpilot_ops_copilot.Repository.{get_ticket}
use parcelpilot_ops_copilot.Actions.Models.{
  ActionOutcome, ErrorCode, Message, failure, success_with, to_confirm, to_execute,
}
use parcelpilot_ops_copilot.Actions.Store.{get_action, save_action_if_status}
use parcelpilot_ops_copilot.Actions.Workflow.{
  Plan, answer, swap, Swap, caught, expire, confirm, execute, confirm_target, confirm_row,
  confirm_plan, finish_swap,
}
use parcelpilot_ops_copilot.Actions.Rows.{IsKeyed, found_with, save-won}

-- The database after a conditional UPDATE.
abbrev pub after_swap : Database → Swap → Database
after_swap conn s = record conn {
  actions = (save_action_if_status conn.actions s.next s.expected_status).0;
}

-- A swap whose row still has the expected status reports its own outcome.
pub finish_swap-won :
    (conn : Database) (s : Swap)
    → IsKeyed conn.actions
    → found_with s.expected_status (get_action conn.actions s.next.action_id) ≡ true
    → finish_swap conn s ≡ ok (after_swap conn s, s.won)
unfolding finish_swap
finish_swap-won conn s k found = rw (save-won conn.actions s.next s.expected_status k, found)

pub caught-fails :
    (row : Option ActionRecord) (code : ErrorCode) (e : Error) {o : ActionOutcome}
    → caught row code e ≡ ok o
    → o.success ≡ false
caught-fails row code e h = ground arith

-- What a caller must get right for a confirmation to succeed.
pub record Confirmable (conn : Database) (action_id payload_hash : String) (auth : AuthContext)
    (now : Instant) (user_id : String) (row : ActionRecord) : Type 0 where
  pub stored : get_action conn.actions action_id ≡ some row
  pub pending : row.status ≡ pending_confirmation
  pub in_time : now ≤ row.expires_at
  pub same_user : row.user_id ≡ user_id
  pub same_payload : payload_hash ≡ row.payload_hash
  pub ticket : Ticket
  pub reachable : get_ticket conn row.target auth ≡ ok ticket
  pub unchanged : ticket.status ≡ row.proposed_change.previous_status

abbrev pub confirm_swap : ActionRecord → Instant → Swap
confirm_swap row now = record {
  next = confirm row now;
  expected_status = pending_confirmation;
  won = success_with (confirm row now);
  verb = to_confirm;
}

module _ (conn : Database) (action_id payload_hash : String) (auth : AuthContext) (now : Instant)
    (user_id : String) where
  pub confirm_row-Confirmable :
      (row : ActionRecord)
      → Confirmable conn action_id payload_hash auth now user_id row
      → confirm_row conn action_id payload_hash auth now user_id (some row)
        ≡ ok (swap (confirm_swap row now))
  unfolding confirm_row
  confirm_row-Confirmable row c =
      ground (arith, c, eq_iff row.user_id user_id, eq_iff payload_hash row.payload_hash)

abbrev pub expire_swap : ActionRecord → Swap
expire_swap row = record {
  next = expire row;
  expected_status = pending_confirmation;
  won = failure (some (expire row)) ErrorCode.expired_code Message.expired_before_confirmation;
  verb = to_confirm;
}

abbrev pub execute_swap : ActionRecord → Instant → Swap
execute_swap row now = record {
  next = execute row now;
  expected_status = confirmed;
  won = success_with (execute row now);
  verb = to_execute;
}

module _ (conn : Database) (action_id payload_hash : String) (auth : AuthContext) (now : Instant)
    (user_id : String) where
  -- The three ends of a confirmation's first part.
  pub data Verdict (plan : Plan) : Type 0 where
    refuses : (o : ActionOutcome) → plan ≡ answer o → o.success ≡ false → Verdict plan
    expires :
        (row : ActionRecord)
        → get_action conn.actions action_id ≡ some row
        → row.status ≡ pending_confirmation
        → row.expires_at < now
        → plan ≡ swap (expire_swap row)
        → Verdict plan
    commits :
        (row : ActionRecord)
        → Confirmable conn action_id payload_hash auth now user_id row
        → plan ≡ swap (confirm_swap row now)
        → Verdict plan

  module _ (row : ActionRecord) (plan : Plan)
      (stored : get_action conn.actions action_id ≡ some row) where
    confirm_target-Verdict :
        (t : Result Ticket)
        → get_ticket conn row.target auth ≡ t
        → row.status ≡ pending_confirmation
        → now ≤ row.expires_at
        → row.user_id ≡ user_id
        → payload_hash ≡ row.payload_hash
        → confirm_target row now t ≡ ok plan
        → Verdict plan
    confirm_target-Verdict (raise e) got p i u q h =
        let (o, caught_as, same) =
          >>=-eq-ok (caught (some row) ErrorCode.target_invalid e) (λ o. ok (answer o)) h in
        refuses o (sym (ok-injective same))
          (caught-fails (some row) ErrorCode.target_invalid e caught_as)
    confirm_target-Verdict (ok ticket) got p i u q h =
        elim (Bool-cases (same_ticket_status ticket.status row.proposed_change.previous_status)) [
          | inl same ↦
              commits row
                (record {
                  stored = stored;
                  pending = p;
                  in_time = i;
                  same_user = u;
                  same_payload = q;
                  ticket = ticket;
                  reachable = got;
                  unchanged = ground arith;
                })
                (sym (ok-injective (rw same at h)))
          | inr changed ↦ refuses _ (sym (ok-injective (rw changed at h))) refl
        ]

    confirm_row-Verdict :
        confirm_row conn action_id payload_hash auth now user_id (some row) ≡ ok plan → Verdict plan
    unfolding confirm_row
    confirm_row-Verdict h = elim (Bool-cases (same_action_status row.status pending_confirmation)) [
      | inr other ↦ refuses _ (sym (ok-injective (rw other at h))) refl
      | inl p ↦ elim (Bool-cases (ltb row.expires_at now)) [
        | inl past ↦
            expires row stored (ground arith) (ground arith)
              (sym (ok-injective (rw (p, past) at h)))
        | inr in_time ↦ elim (Bool-cases (row.user_id == user_id)) [
          | inr stranger ↦ refuses _ (sym (ok-injective (rw (p, in_time, stranger) at h))) refl
          | inl u ↦ elim (Bool-cases (payload_hash == row.payload_hash)) [
            | inr altered ↦ refuses _ (sym (ok-injective (rw (p, in_time, u, altered) at h))) refl
            | inl q ↦
                confirm_target-Verdict (get_ticket conn row.target auth) refl (ground arith)
                  (ground arith) ((eq_iff row.user_id user_id).0 u)
                  ((eq_iff payload_hash row.payload_hash).0 q) (rw (p, in_time, u, q) at h)
          ]
        ]
      ]
    ]

  pub confirm_plan-Verdict :
      (plan : Plan)
      → confirm_plan conn action_id payload_hash auth now user_id ≡ ok plan
      → Verdict plan
  unfolding confirm_plan
  confirm_plan-Verdict plan h = elim (Option-cases (get_action conn.actions action_id)) [
    | inl missing ↦ refuses _ (sym (ok-injective (rw missing at h))) refl
    | inr (row, stored) ↦ confirm_row-Verdict row plan stored (rw stored at h)
  ]
