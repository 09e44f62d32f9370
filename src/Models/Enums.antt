-- ===== src/Models/Enums.antt =====
-- The enumerations, and the tests by which the code compares their members.
use parcelpilot_ops_copilot.Prelude.{ℕ, Bool, true, false, eqb, Option, none, some}

-- app/authorization/context.py
pub data Role : Type 0 where
  operations_admin support_agent restricted_support : Role

abbrev pub is_admin : Role → Bool
is_admin Role.operations_admin = true
is_admin _ = false

-- app/models/enums.py
pub data OrderStatus : Type 0 where
  draft booked picked_up delivered : OrderStatus

pub data TicketStatus : Type 0 where
  open_ticket closed_ticket : TicketStatus

pub data Severity : Type 0 where
  p1 p2 p3 : Severity

-- The values are those of the columns.
pub data SourceType : Type 0 where
  support_policy sop product_doc agreement structured_data : SourceType

pub data SourceStatus : Type 0 where
  current_source deprecated_source active_source : SourceStatus

pub data AuthorityClass : Type 0 where
  agreement_class policy_current product_doc_class : AuthorityClass
  historical deprecated_class structured_class : AuthorityClass

pub data ScopeKind : Type 0 where
  global_scope account_only : ScopeKind

abbrev pub is_global : ScopeKind → Bool
is_global ScopeKind.global_scope = true
is_global ScopeKind.account_only = false

-- `AuthorityClass.rank`; `none` is excluded from precedence
abbrev pub authority_rank : AuthorityClass → Option ℕ
authority_rank AuthorityClass.agreement_class = some 1
authority_rank AuthorityClass.policy_current = some 2
authority_rank AuthorityClass.product_doc_class = some 3
authority_rank AuthorityClass.historical = some 4
authority_rank _ = none

-- app/policy/applicability.py
pub data ClauseTopic : Type 0 where
  cancellation_fee service_credit_threshold_and_amount : ClauseTopic
  service_credit_aggregate_cap sla_first_response : ClauseTopic

-- app/domain/outcomes.py
pub data TrustState : Type 0 where
  confident conditional uncertain escalate : TrustState

-- app/actions/models.py
pub data ActionType : Type 0 where
  prepare_escalation : ActionType

pub data ActionStatus : Type 0 where
  pending_confirmation confirmed executed rejected expired failed cancelled : ActionStatus

-- Each enumeration is compared by the position of a member.
abbrev pub order_status_index : OrderStatus → ℕ
order_status_index OrderStatus.draft = 0
order_status_index OrderStatus.booked = 1
order_status_index OrderStatus.picked_up = 2
order_status_index OrderStatus.delivered = 3

abbrev pub ticket_status_index : TicketStatus → ℕ
ticket_status_index TicketStatus.open_ticket = 0
ticket_status_index TicketStatus.closed_ticket = 1

abbrev source_type_index : SourceType → ℕ
source_type_index SourceType.support_policy = 0
source_type_index SourceType.sop = 1
source_type_index SourceType.product_doc = 2
source_type_index SourceType.agreement = 3
source_type_index SourceType.structured_data = 4

abbrev source_status_index : SourceStatus → ℕ
source_status_index SourceStatus.current_source = 0
source_status_index SourceStatus.deprecated_source = 1
source_status_index SourceStatus.active_source = 2

abbrev authority_index : AuthorityClass → ℕ
authority_index AuthorityClass.agreement_class = 0
authority_index AuthorityClass.policy_current = 1
authority_index AuthorityClass.product_doc_class = 2
authority_index AuthorityClass.historical = 3
authority_index AuthorityClass.deprecated_class = 4
authority_index AuthorityClass.structured_class = 5

abbrev pub severity_index : Severity → ℕ
severity_index Severity.p1 = 0
severity_index Severity.p2 = 1
severity_index Severity.p3 = 2

abbrev pub topic_index : ClauseTopic → ℕ
topic_index ClauseTopic.cancellation_fee = 0
topic_index ClauseTopic.service_credit_threshold_and_amount = 1
topic_index ClauseTopic.service_credit_aggregate_cap = 2
topic_index ClauseTopic.sla_first_response = 3

abbrev pub action_status_index : ActionStatus → ℕ
action_status_index ActionStatus.pending_confirmation = 0
action_status_index ActionStatus.confirmed = 1
action_status_index ActionStatus.executed = 2
action_status_index ActionStatus.rejected = 3
action_status_index ActionStatus.expired = 4
action_status_index ActionStatus.failed = 5
action_status_index ActionStatus.cancelled = 6

abbrev pub same_order_status : OrderStatus → OrderStatus → Bool
same_order_status a b = eqb (order_status_index a) (order_status_index b)

abbrev pub same_ticket_status : TicketStatus → TicketStatus → Bool
same_ticket_status a b = eqb (ticket_status_index a) (ticket_status_index b)

abbrev pub same_severity : Severity → Severity → Bool
same_severity a b = eqb (severity_index a) (severity_index b)

abbrev pub same_topic : ClauseTopic → ClauseTopic → Bool
same_topic a b = eqb (topic_index a) (topic_index b)

abbrev pub same_action_status : ActionStatus → ActionStatus → Bool
same_action_status a b = eqb (action_status_index a) (action_status_index b)

abbrev pub same_source_type : SourceType → SourceType → Bool
same_source_type a b = eqb (source_type_index a) (source_type_index b)

abbrev pub same_source_status : SourceStatus → SourceStatus → Bool
same_source_status a b = eqb (source_status_index a) (source_status_index b)

abbrev pub same_authority : AuthorityClass → AuthorityClass → Bool
same_authority a b = eqb (authority_index a) (authority_index b)
