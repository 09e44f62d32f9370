-- ===== src/Examples/Scenario.antt =====
-- The database of the examples, and parameters to run the code with.
use Prim.Native.String.{◌++◌ as append}
use parcelpilot_ops_copilot.Prelude.{
  ◌+◌, ◌*◌, String, Bool, true, false, Option, none, some, List, [], ◌∷◌, ◌==◌,
}
use parcelpilot_ops_copilot.Models.{
  Role, AuthContext, Account, Order, OrderStatus, Ticket, TicketStatus, Severity, SourceDocument,
  SlaTarget, TrustState, Database, ActionRecord, ActionType, ActionStatus, ProposedChange, hour,
  minute,
}
use parcelpilot_ops_copilot.Result.{Result, ok, raise}
use parcelpilot_ops_copilot.Domain.Outcomes.{DecisionResult, Reason}
use parcelpilot_ops_copilot.Actions.Workflow.{PayloadHash}

abbrev pub admin : AuthContext
admin = record { role = Role.operations_admin; account_scope = none }

abbrev pub northstar_agent : AuthContext
northstar_agent = record { role = Role.support_agent; account_scope = some ("ACCT-001" ∷ []) }

abbrev pub northstar : Account
northstar = record {
  account_id = "ACCT-001";
  account_name = "Northstar";
  plan = "Enterprise";
  status = "active";
  csm = "Mira";
  contract_file = none;
  premium_support = true;
  notes = "";
}

-- Booked five hours in, with a window that ended at the sixth hour; cancelled late.
abbrev pub late_order : Order
late_order = record {
  order_id = "ORD-1";
  account_id = "ACCT-001";
  carrier = "SwiftShip";
  status = OrderStatus.booked;
  booked_at = 5 * hour;
  pickup_window_start = 5 * hour;
  pickup_window_end = 6 * hour;
  pickup_actual_at = none;
  shipment_fee_paise = 80000;
  carrier_fault = true;
  customer_fault = false;
  cancellation_requested_at = some (7 * hour);
  notes = "";
}

abbrev pub outage : Ticket
outage = record {
  ticket_id = "TKT-1";
  account_id = "ACCT-001";
  created_at = hour;
  status = TicketStatus.open_ticket;
  subject = "Every user is blocked";
  description = "No workaround";
  channel = "email";
  assigned_to = "Asha";
  last_customer_message_at = hour;
  historical_resolution = none;
}

abbrev pub agreement : SourceDocument
agreement = record { source_id = "SRC-05"; effective_date = 0; expiry_date = none }

abbrev pub northstar_target : SlaTarget
northstar_target = record {
  source_id = "SRC-05";
  plan = none;
  account_id = some "ACCT-001";
  severity = Severity.p1;
  target_text = "15 minutes";
  target_minutes = some 15;
  is_24x7 = true;
  requires_business_calendar = false;
}

abbrev pub digest : PayloadHash
digest kind target change = append target change.new_priority

abbrev pub change : ProposedChange
change = record {
  new_priority = "escalated";
  previous_status = TicketStatus.open_ticket;
  severity = Severity.p1;
  sla_breached = true;
}

abbrev pub pending_row : ActionRecord
pending_row = record {
  action_id = "ACT-1";
  request_id = "REQ-1";
  user_id = "asha";
  action_type = ActionType.prepare_escalation;
  target = "TKT-1";
  proposed_change = change;
  reason = "deadline passed";
  evidence = [];
  risk = "high";
  payload_hash = "TKT-1escalated";
  status = ActionStatus.pending_confirmation;
  prepared_at = 8 * hour;
  expires_at = 8 * hour + 15 * minute;
  confirmed_at = none;
  executed_at = none;
  idempotency_key = "ACT-1";
  failure_reason = none;
}

abbrev pub store_of : List ActionRecord → Database
store_of rows = record {
  accounts = northstar ∷ [];
  orders = late_order ∷ [];
  tickets = outage ∷ [];
  sources = agreement ∷ [];
  chunks = [];
  sla_targets = northstar_target ∷ [];
  actions = rows;
}

abbrev pub store : Database
store = store_of (pending_row ∷ [])

-- A search that knows one pattern.
abbrev pub one_pattern : String → String → Bool
one_pattern pattern text = pattern == "\\bno workaround\\b"

-- What a call returned.
abbrev pub value_or {ℓ} : {A : Type ℓ} → A → Result A → A
value_or d (ok a) = a
value_or d (raise e) = d

abbrev pub option_or {ℓ} : {A : Type ℓ} → A → Option A → A
option_or d none = d
option_or d (some a) = a

abbrev pub blank : {T : Type 0} → DecisionResult T
blank = record {
  result = none;
  trust_state = TrustState.uncertain;
  reason = Reason.no_signal;
  evidence = [];
  assumptions = [];
  conflicts = [];
  calculation_inputs = [];
  needs_human_review = true;
}

abbrev pub head_or {ℓ} : {A : Type ℓ} → A → List A → A
head_or d [] = d
head_or d (a ∷ as') = a
