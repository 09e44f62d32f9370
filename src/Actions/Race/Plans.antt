-- ===== src/Actions/Race/Plans.antt =====
-- The plans of confirm_action and execute_action, and the row of a proposal, against the audit trail.
use mathlib.Core.Path.{subst}
use parcelpilot_ops_copilot.Prelude.{
  ◌≤◌, String, ◌≡◌, inl, inr, refl, sym, ◌∙◌, ap, none, some, [], ◌∷◌, ◌++◌, arith, Bool-cases,
  Option-cases, eq_iff, ◌==◌, some_cancel,
}
use parcelpilot_ops_copilot.Models.{
  ActionRecord, pending_confirmation, confirmed, executed, AuthContext, Database, Instant,
  same_action_status,
}
use parcelpilot_ops_copilot.Result.{ok}
use parcelpilot_ops_copilot.Actions.Store.{Table, get_action}
use parcelpilot_ops_copilot.Actions.Workflow.{
  PayloadHash, Plan, answer, swap, confirm, execute, expire, confirm_plan, execute_row,
  execute_plan,
}
use parcelpilot_ops_copilot.Actions.Rows.{get_action-id, get_action-append, append-IsKeyed}
use parcelpilot_ops_copilot.Actions.Confirm.{
  Verdict, refuses, expires, commits, confirm_plan-Verdict,
}
use parcelpilot_ops_copilot.Actions.Race.Audit.{
  Lifecycle, waiting, lapsed, agreed, done, IsSound, IsAudited, IsSafe, Extends, Follows-refl,
}

abbrev pub IsSafePlan : Table → Plan → Type 0
IsSafePlan rows (answer o) = Unit
IsSafePlan rows (swap s) = IsSafe rows s

-- A row is found under its own identifier.
own_id :
    (rows : Table) (id : String) (row : ActionRecord)
    → get_action rows id ≡ some row
    → get_action rows row.action_id ≡ some row
own_id rows id row stored =
    subst (λ a. get_action rows a ≡ some row) (sym (get_action-id rows id stored)) stored

expire-Lifecycle :
    (row : ActionRecord)
    → row.status ≡ pending_confirmation
    → Lifecycle row
    → Lifecycle (expire row)
expire-Lifecycle row p (waiting s c e) = lapsed refl c e
expire-Lifecycle row p (lapsed s c e) = absurd (ground arith)
expire-Lifecycle row p (agreed t s c le e) = absurd (ground arith)
expire-Lifecycle row p (done t u s c le e) = absurd (ground arith)

confirm-Lifecycle :
    (row : ActionRecord) (now : Instant)
    → row.status ≡ pending_confirmation
    → now ≤ row.expires_at
    → Lifecycle row
    → Lifecycle (confirm row now)
confirm-Lifecycle row now p le (waiting s c e) = agreed now refl refl le e
confirm-Lifecycle row now p le (lapsed s c e) = absurd (ground arith)
confirm-Lifecycle row now p le (agreed t s c le' e) = absurd (ground arith)
confirm-Lifecycle row now p le (done t u s c le' e) = absurd (ground arith)

execute-Lifecycle :
    (row : ActionRecord) (now : Instant)
    → row.status ≡ confirmed
    → Lifecycle row
    → Lifecycle (execute row now)
execute-Lifecycle row now p (waiting s c e) = absurd (ground arith)
execute-Lifecycle row now p (lapsed s c e) = absurd (ground arith)
execute-Lifecycle row now p (agreed t s c le e) = done t now refl c le refl
execute-Lifecycle row now p (done t u s c le e) = absurd (ground arith)

module _ (hash : PayloadHash) (conn : Database) (audited : IsAudited hash conn.actions) where
  pub confirm_plan-IsSafe :
      (action_id payload_hash : String) (auth : AuthContext) (now : Instant) (user_id : String)
      (plan : Plan)
      → confirm_plan conn action_id payload_hash auth now user_id ≡ ok plan
      → IsSafePlan conn.actions plan
  confirm_plan-IsSafe action_id payload_hash auth now user_id plan h =
      by_verdict (confirm_plan-Verdict conn action_id payload_hash auth now user_id plan h)
    where
      by_verdict :
          Verdict conn action_id payload_hash auth now user_id plan → IsSafePlan conn.actions plan
      by_verdict (refuses o e fails) = subst (IsSafePlan conn.actions) (sym e) tt
      by_verdict (expires row stored p past e) = subst (IsSafePlan conn.actions) (sym e) (record {
        from_open = inl refl;
        leaves_pending = λ q. cc;
        life = expire-Lifecycle row p (audited.sound action_id row stored).life;
        current = row;
        stored = own_id conn.actions action_id row stored;
        same_term = refl;
      })
      by_verdict (commits row c e) = subst (IsSafePlan conn.actions) (sym e) (record {
        from_open = inl refl;
        leaves_pending = λ q. cc;
        life =
            confirm-Lifecycle row now c.pending c.in_time
              (audited.sound action_id row c.stored).life;
        current = row;
        stored = own_id conn.actions action_id row c.stored;
        same_term = refl;
      })

  execute_row-IsSafe :
      (action_id : String) (now : Instant) (row : ActionRecord)
      → get_action conn.actions action_id ≡ some row
      → IsSafePlan conn.actions (execute_row action_id now (some row))
  unfolding execute_row
  execute_row-IsSafe action_id now row stored =
      elim (Bool-cases (same_action_status row.status executed)) [
        | inl again ↦ rw again tt
        | inr first ↦ elim (Bool-cases (same_action_status row.status confirmed)) [
          | inr other ↦ rw (first, other) tt
          | inl status ↦
              rw (first, status)
                (record {
                  from_open = inr refl;
                  leaves_pending = λ q. cc;
                  life =
                      execute-Lifecycle row now (ground arith)
                        (audited.sound action_id row stored).life;
                  current = row;
                  stored = own_id conn.actions action_id row stored;
                  same_term = refl;
                })
        ]
      ]

  pub execute_plan-IsSafe :
      (action_id : String) (now : Instant)
      → IsSafePlan conn.actions (execute_plan conn action_id now)
  unfolding execute_plan
  execute_plan-IsSafe action_id now = elim (Option-cases (get_action conn.actions action_id)) [
    | inl missing ↦ rw missing tt
    | inr (row, stored) ↦ rw stored (execute_row-IsSafe action_id now row stored)
  ]

-- A row appended under a fresh identifier, itself sound, keeps the audit trail and every other row.
module _ (rows : Table) (row : ActionRecord) (fresh : get_action rows row.action_id ≡ none) where
  pub append-IsAudited :
      (hash : PayloadHash)
      → IsAudited hash rows
      → IsSound hash row
      → IsAudited hash (rows ++ row ∷ [])
  append-IsAudited hash audited sound = record {
    keyed = append-IsKeyed rows row fresh audited.keyed;
    sound = λ id found h. elim (Bool-cases (row.action_id == id)) [
      | inl same ↦
          subst (IsSound hash)
            (some_cancel (sym (get_action-append rows row id fresh ∙ rw same) ∙ h)) sound
      | inr other ↦
          audited.sound id found (sym (get_action-append rows row id fresh ∙ rw other) ∙ h)
    ];
  }

  pub append-Extends : Extends rows (rows ++ row ∷ [])
  append-Extends id found stored = elim (Bool-cases (row.action_id == id)) [
    | inl same ↦
        let clash = sym fresh ∙ ap (get_action rows) ((eq_iff row.action_id id).0 same) ∙ stored in
        absurd (ground arith)
    | inr other ↦
        (found, (get_action-append rows row id fresh ∙ rw other) ∙ stored, Follows-refl found)
  ]
