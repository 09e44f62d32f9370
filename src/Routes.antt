-- ===== src/Routes.antt =====
-- app/api/routes/actions.py and app/api/demo_users.py: who may call the workflow over HTTP. A
-- response carries the outcome; the log lines are left out, and so is `viewed_as`, which is the user.
pub mod Ownership
pub mod Radar
pub mod Users
pub mod Handlers
pub mod Chat
use parcelpilot_ops_copilot.Prelude.{
  String, Bool, not, ◌&&◌, ◌==◌, Option, none, some, List, if◌then◌else◌,
}
use parcelpilot_ops_copilot.Models.{ActionRecord, AuthContext, Database, Instant, Role, is_admin}
use parcelpilot_ops_copilot.Result.{Result, ok, raise, Error}
use parcelpilot_ops_copilot.Policy.{AgreementOverride, Defaults}
use parcelpilot_ops_copilot.Actions.Models.{ActionOutcome, success_with}
use parcelpilot_ops_copilot.Actions.Store.{get_action}
use parcelpilot_ops_copilot.Actions.Workflow.{
  PayloadHash, prepare_escalation, confirm_action, execute_action,
}

pub record DemoUser : Type 0 where
  pub id : String
  pub display_name : String
  pub role : Role
  pub account_scope : Option (List String)

abbrev pub to_auth_context : DemoUser → AuthContext
to_auth_context user = record { role = user.role; account_scope = user.account_scope }

-- A route's end: a response, HTTPException with 404 and the identifier in its detail, with 403, or
-- with 400 and what the detail prints, or another exception, which the error handlers take.
pub data Response (A : Type 0) : Type 0 where
  responds : A → Response A
  http_404 : String → Response A
  http_403 : Response A
  http_400 : String → Response A
  unhandled : Error → Response A

abbrev pub response_of : {A : Type 0} → Result A → Response A
response_of (ok a) = responds a
response_of (raise e) = unhandled e

-- `user.role is not Role.OPERATIONS_ADMIN and record.user_id != user.id`
abbrev pub is_foreign : DemoUser → ActionRecord → Bool
is_foreign user row = not (is_admin user.role) && not (row.user_id == user.id)

-- `_require_owner_or_admin`, and then the rest of the route
abbrev owner_or_admin :
    {A : Type 0} → Option ActionRecord → String → DemoUser → Response A → Response A
owner_or_admin none action_id user rest = http_404 action_id
owner_or_admin (some row) action_id user rest = if is_foreign user row then http_403 else rest

abbrev pub owned_row : Option ActionRecord → String → DemoUser → Response ActionOutcome
owned_row none action_id user = http_404 action_id
owned_row (some row) action_id user =
    if is_foreign user row then http_404 action_id else responds (success_with row)

unfoldable pub get_owned_action_or_404 : Database → String → DemoUser → Response ActionOutcome
get_owned_action_or_404 conn action_id user =
    owned_row (get_action conn.actions action_id) action_id user

unfoldable pub prepare_route :
    PayloadHash
    → Database
    → String
    → String
    → Instant
    → DemoUser
    → String
    → String
    → (String → String → Bool)
    → List AgreementOverride
    → Defaults
    → Response (Database × ActionOutcome)
prepare_route hash conn ticket_id reason now user request_id hex search overrides defaults =
    response_of (
      prepare_escalation hash conn ticket_id reason now user.id request_id hex search
        (to_auth_context user) overrides defaults)

unfoldable pub confirm_route :
    Database → String → String → DemoUser → Instant → Response (Database × ActionOutcome)
confirm_route conn action_id payload_hash user now =
    response_of (confirm_action conn action_id payload_hash (to_auth_context user) now user.id)

unfoldable pub execute_route :
    Database → String → DemoUser → Instant → Response (Database × ActionOutcome)
execute_route conn action_id user now =
    owner_or_admin (get_action conn.actions action_id) action_id user
      (response_of (execute_action conn action_id now))

unfoldable pub get_action_route : Database → String → DemoUser → Response ActionOutcome
unfolding get_owned_action_or_404
get_action_route conn action_id user = get_owned_action_or_404 conn action_id user
