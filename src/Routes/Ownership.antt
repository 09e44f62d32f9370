-- ===== src/Routes/Ownership.antt =====
-- What the routes of app/api/routes/actions.py let a caller learn and do.
use parcelpilot_ops_copilot.Prelude.{
  String, ◌≡◌, ◌⊎◌, inl, inr, refl, sym, ◌∙◌, ◌≢◌, true, false, some_cancel, some, arith, eq_iff,
  Bool-cases, Option-cases,
}
use mathlib.Core.Path.{subst}
use parcelpilot_ops_copilot.Models.{ActionRecord, Database, Instant, operations_admin}
use parcelpilot_ops_copilot.Actions.Models.{ActionOutcome, success_with}
use parcelpilot_ops_copilot.Actions.Store.{get_action}
use parcelpilot_ops_copilot.Routes.{
  DemoUser, Response, responds, http_404, is_foreign, execute_route, get_action_route,
}

-- What a user is shown of an action.
pub data Shown (conn : Database) (action_id : String) (user : DemoUser) (r : Response ActionOutcome)
    : Type 0 where
  shows :
      (row : ActionRecord) (o : ActionOutcome)
      → get_action conn.actions action_id ≡ some row
      → (user.role ≡ operations_admin) ⊎ (row.user_id ≡ user.id)
      → r ≡ responds o
      → o.success ≡ true
      → o.outcome_record ≡ some row
      → Shown conn action_id user r
  hides :
      ((row : ActionRecord)
        → get_action conn.actions action_id ≡ some row
        → (user.role ≢ operations_admin) × (row.user_id ≢ user.id))
      → r ≡ http_404 action_id
      → Shown conn action_id user r

own_lem :
    (user : DemoUser) (row : ActionRecord)
    → is_foreign user row ≡ false
    → (user.role ≡ operations_admin) ⊎ (row.user_id ≡ user.id)
own_lem user row own = ground (arith, eq_iff row.user_id user.id)

foreign_lem :
    (user : DemoUser) (row : ActionRecord)
    → is_foreign user row ≡ true
    → (user.role ≢ operations_admin) × (row.user_id ≢ user.id)
foreign_lem user row foreign =
    ((λ h. ground arith), (λ h. ground (arith, eq_iff row.user_id user.id)))

-- Reading an action over HTTP shows the stored row to an administrator and to the user who prepared
-- it. To anyone else it gives the same 404, which holds nothing but the identifier asked for, as
-- for an action that does not exist.
pub get_action_route-Shown :
    (conn : Database) (action_id : String) (user : DemoUser)
    → Shown conn action_id user (get_action_route conn action_id user)
unfolding get_action_route
get_action_route-Shown conn action_id user =
    elim (Option-cases (get_action conn.actions action_id)) [
      | inl missing ↦ rw missing (hides (λ row stored. cc) refl)
      | inr (row, stored) ↦ elim (Bool-cases (is_foreign user row)) [
        | inl foreign ↦
            rw (stored, foreign)
              (hides
                (λ other found.
                  subst (λ r. (user.role ≢ operations_admin) × (r.user_id ≢ user.id))
                    (some_cancel (sym stored ∙ found)) (foreign_lem user row foreign))
                refl)
        | inr own ↦
            rw (stored, own)
              (shows row (success_with row) stored (own_lem user row own) refl refl refl)
      ]
    ]

-- An execution over HTTP that gets a response is of an action that exists, and is asked for by an
-- administrator or by the user who prepared it.
pub execute_route-owner :
    (conn conn' : Database) (action_id : String) (user : DemoUser) (now : Instant)
    (o : ActionOutcome)
    → execute_route conn action_id user now ≡ responds (conn', o)
    → (row : ActionRecord) × (get_action conn.actions action_id ≡ some row)
      × ((user.role ≡ operations_admin) ⊎ (row.user_id ≡ user.id))
unfolding execute_route
execute_route-owner conn conn' action_id user now o h =
    elim (Option-cases (get_action conn.actions action_id)) [
      | inl missing ↦ absurd (ground arith)
      | inr (row, stored) ↦ elim (Bool-cases (is_foreign user row)) [
        | inl foreign ↦ absurd (ground arith)
        | inr own ↦ (row, stored, ground (arith, eq_iff row.user_id user.id))
      ]
    ]
