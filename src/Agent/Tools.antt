-- ===== src/Agent/Tools.antt =====
-- app/agent/tools.py: the four tools. Latencies and logging are left out.
pub mod Scoped
use parcelpilot_ops_copilot.Prelude.{
  ℕ, String, Bool, true, false, Option, none, some, List, [], ◌∷◌, map, filter, if◌then◌else◌, ◌==◌,
}
use parcelpilot_ops_copilot.Prelude.Int.{ℤ, negsuc}
use parcelpilot_ops_copilot.Models.{
  AuthContext, allows_account, Account, Order, OrderStatus, Ticket, TicketStatus, TrustState,
  EvidenceRef, Database, DocumentChunk, Instant,
}
use parcelpilot_ops_copilot.Result.{Result, ok, raise, Error, ◌>>=◌}
use parcelpilot_ops_copilot.Repository.{
  get_account, get_order, get_ticket, search_orders, search_tickets,
}
use parcelpilot_ops_copilot.Documents.{
  DocumentSearchFilter, DocumentSearchResult, search_documents, le_ℤ,
}
use parcelpilot_ops_copilot.Policy.{AgreementOverride, Defaults}
use parcelpilot_ops_copilot.Domain.Outcomes.{
  DecisionResult, Conflict, Reason, Assumption, CalculationInput,
}
use parcelpilot_ops_copilot.Domain.Severity.{SeverityOutcome, classify_severity}
use parcelpilot_ops_copilot.Domain.Sla.{SlaOutcome, calculate_sla}
use parcelpilot_ops_copilot.Domain.Cancellation.{
  CancellationOutcome, FeeRules, evaluate_cancellation,
}
use parcelpilot_ops_copilot.Domain.ServiceCredit.{
  ServiceCreditOutcome, CreditRules, evaluate_service_credit,
}
use parcelpilot_ops_copilot.Detection.Alert.{AlertCandidate, sorted_set}
use parcelpilot_ops_copilot.Detection.KnownIssues.{IssueTexts}
use parcelpilot_ops_copilot.Detection.Service.{run_operations_radar, group_by_account}
use parcelpilot_ops_copilot.Agent.Requests.{
  SearchDocumentsRequest, LookupStructuredDataRequest, LookupKind, get_account_kind, get_order_kind,
  get_ticket_kind, search_orders_kind, search_tickets_kind, CalculateSupportOutcomeRequest,
  CalculationType, cancellation, service_credit, sla, severity, DetectIssuesRequest,
}

-- MIN_RELEVANCE_SCORE, -1.0
abbrev pub min_relevance_score : ℤ
min_relevance_score = negsuc 999999

pub record SearchDocumentsResponse : Type 0 where
  pub query : String
  pub results : List DocumentSearchResult

pub data Row : Type 0 where
  account_row : Account → Row
  order_row : Order → Row
  ticket_row : Ticket → Row

pub record LookupStructuredDataResponse : Type 0 where
  pub kind : LookupKind
  pub records : List Row

-- `decision.result.model_dump(mode="json")`, as the outcome that it prints
pub data Payload : Type 0 where
  cancellation_payload : CancellationOutcome → Payload
  service_credit_payload : ServiceCreditOutcome → Payload
  sla_payload : SlaOutcome → Payload
  severity_payload : SeverityOutcome → Payload

pub record CalculateSupportOutcomeResponse : Type 0 where
  pub calculation_type : CalculationType
  pub trust_state : TrustState
  pub reason : Reason
  pub result : Option Payload
  pub evidence : List EvidenceRef
  pub assumptions : List Assumption
  pub conflicts : List Conflict
  pub needs_human_review : Bool
  pub calculation_inputs : List CalculationInput

pub record DetectIssuesResponse : Type 0 where
  pub alerts : List AlertCandidate
  pub grouped_by_account : Option (List (String × List String))

abbrev pub map_option : {A B : Type 0} → (A → B) → Option A → Option B
map_option f none = none
map_option f (some a) = some (f a)

abbrev pub from_decision :
    {T : Type 0}
    → CalculationType
    → (T → Payload)
    → DecisionResult T
    → CalculateSupportOutcomeResponse
from_decision kind dump decision = record {
  calculation_type = kind;
  trust_state = decision.trust_state;
  reason = decision.reason;
  result = map_option dump decision.result;
  evidence = decision.evidence;
  assumptions = decision.assumptions;
  conflicts = decision.conflicts;
  needs_human_review = decision.needs_human_review;
  calculation_inputs = decision.calculation_inputs;
}

-- `OrderStatus(request.status) if request.status else None`, and the same for tickets
abbrev pub order_status_of : Option String → Result (Option OrderStatus)
order_status_of none = ok none
order_status_of (some value) =
    if value == ""
    then ok none
    else if value == "DRAFT"
    then ok (some OrderStatus.draft)
    else if value == "BOOKED"
    then ok (some OrderStatus.booked)
    else if value == "PICKED_UP"
    then ok (some OrderStatus.picked_up)
    else if value == "DELIVERED"
    then ok (some OrderStatus.delivered)
    else raise (Error.value_error value)

abbrev pub ticket_status_of : Option String → Result (Option TicketStatus)
ticket_status_of none = ok none
ticket_status_of (some value) =
    if value == ""
    then ok none
    else if value == "open"
    then ok (some TicketStatus.open_ticket)
    else if value == "closed"
    then ok (some TicketStatus.closed_ticket)
    else raise (Error.value_error value)

-- `if request.entity_id is None: raise ValueError(...)`
abbrev pub required_id : Option String → String → Result String
required_id none message = raise (Error.value_error message)
required_id (some entity_id) message = ok entity_id

-- What the tools use besides the tables: the libraries' functions, and the rules of app/domain and
-- app/policy.
pub record Services : Type 0 where
  pub search : String → String → Bool
  pub tokens_of : String → List String
  pub fts : List String → DocumentChunk → Option (ℤ × String)
  pub sha16 : String → String
  pub decimal : ℕ → String
  pub issue_texts : IssueTexts
  pub overrides : List AgreementOverride
  pub defaults : Defaults
  pub fee_rules : FeeRules
  pub credit_rules : CreditRules

module _ (services : Services) (conn : Database) (auth : AuthContext) (now : Instant) where
  unfoldable pub search_documents_tool : SearchDocumentsRequest → Result SearchDocumentsResponse
  search_documents_tool request = do
    raw_results ←
        search_documents services.tokens_of services.fts conn request.query
          (record {
            source_types = request.source_types;
            authority_classes = request.authority_classes;
            statuses = request.statuses;
            account_scope = auth.account_scope;
          })
          request.top_k
    ok (record {
      query = request.query;
      results = filter (λ r. le_ℤ r.score min_relevance_score) raw_results;
    })

  -- The `match` on the kind.
  abbrev pub lookup_records : LookupStructuredDataRequest → LookupKind → Result (List Row)
  lookup_records request get_account_kind = do
    entity_id ← required_id request.entity_id "entity_id is required for get_account"
    row ← get_account conn entity_id auth
    ok (account_row row ∷ [])
  lookup_records request get_order_kind = do
    entity_id ← required_id request.entity_id "entity_id is required for get_order"
    row ← get_order conn entity_id auth
    ok (order_row row ∷ [])
  lookup_records request get_ticket_kind = do
    entity_id ← required_id request.entity_id "entity_id is required for get_ticket"
    row ← get_ticket conn entity_id auth
    ok (ticket_row row ∷ [])
  lookup_records request search_orders_kind = do
    status ← order_status_of request.status
    rows ← search_orders conn auth request.account_id status request.carrier
    ok (map order_row rows)
  lookup_records request search_tickets_kind = do
    status ← ticket_status_of request.status
    rows ← search_tickets conn auth request.account_id status
    ok (map ticket_row rows)

  unfoldable pub lookup_structured_data_tool :
      LookupStructuredDataRequest → Result LookupStructuredDataResponse
  lookup_structured_data_tool request = do
    records ← lookup_records request request.kind
    ok (record { kind = request.kind; records = records })

  -- The `match` on the calculation, with the response that is made of its decision.
  abbrev pub outcome_of : CalculationType → String → Result CalculateSupportOutcomeResponse
  outcome_of cancellation entity_id = do
    decision ←
        evaluate_cancellation conn entity_id auth now services.fee_rules services.overrides
          services.defaults
    ok (from_decision cancellation cancellation_payload decision)
  outcome_of service_credit entity_id = do
    decision ←
        evaluate_service_credit conn entity_id auth now services.credit_rules services.overrides
          services.defaults
    ok (from_decision service_credit service_credit_payload decision)
  outcome_of sla entity_id = do
    decision ←
        calculate_sla services.search conn entity_id auth now services.overrides services.defaults
    ok (from_decision sla sla_payload decision)
  outcome_of severity entity_id = do
    ticket ← get_ticket conn entity_id auth
    ok (
        from_decision severity severity_payload
          (classify_severity services.search ticket (some conn)))

  unfoldable pub calculate_support_outcome_tool :
      CalculateSupportOutcomeRequest → Result CalculateSupportOutcomeResponse
  calculate_support_outcome_tool request = outcome_of request.calculation_type request.entity_id

  -- `scoped_auth`: the caller's scope, narrowed to the accounts that the request names.
  unfoldable pub scoped_auth : Option (List String) → AuthContext
  scoped_auth none = auth
  scoped_auth (some ids) = record {
    role = auth.role;
    account_scope = some (sorted_set (filter (λ id. allows_account auth id) ids));
  }

  abbrev pub grouped : Bool → List AlertCandidate → Option (List (String × List String))
  grouped group alerts = if group then some (group_by_account alerts) else none

  unfoldable pub detect_issues_tool : DetectIssuesRequest → Result DetectIssuesResponse
  detect_issues_tool request = do
    alerts ←
        run_operations_radar services.sha16 services.decimal services.search services.issue_texts
          conn (scoped_auth request.account_scope) now request.window_days services.overrides
          services.defaults request.alert_types
    ok (record { alerts = alerts; grouped_by_account = grouped request.group_by_account alerts })
