-- ===== src/Routes/Users.antt =====
-- app/api/demo_users.py and get_current_user of app/api/deps.py: the identities that a request may name.
use parcelpilot_ops_copilot.Prelude.{String, ◌==◌, Option, none, some, List, [], ◌∷◌, find}
use parcelpilot_ops_copilot.Models.{Role}
use parcelpilot_ops_copilot.Routes.{DemoUser, Response, responds, http_400}

-- DEFAULT_DEMO_USERS
abbrev default_demo_users : List (String × DemoUser)
default_demo_users =
    (
      "ops_admin",
      record {
        id = "ops_admin";
        display_name = "Priya Sharma - Operations Admin (all accounts)";
        role = Role.operations_admin;
        account_scope = none;
      },
    )
    ∷ (
      "support_agent",
      record {
        id = "support_agent";
        display_name = "Rahul Verma - Support Agent (Northstar Logistics, ACCT-001)";
        role = Role.support_agent;
        account_scope = some ("ACCT-001" ∷ []);
      },
    )
    ∷ (
      "restricted_support",
      record {
        id = "restricted_support";
        display_name = "Anita Desai - Restricted Support (LumenWorks, ACCT-002)";
        role = Role.restricted_support;
        account_scope = some ("ACCT-002" ∷ []);
      },
    )
    ∷ []

abbrev user_or_400 : String → Option (String × DemoUser) → Response DemoUser
user_or_400 x_demo_user none = http_400 x_demo_user
user_or_400 x_demo_user (some (key, user)) = responds user

unfoldable get_current_user : String → List (String × DemoUser) → Response DemoUser
get_current_user x_demo_user demo_users =
    user_or_400 x_demo_user (find (λ entry. entry.0 == x_demo_user) demo_users)
