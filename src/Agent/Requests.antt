-- ===== src/Agent/Requests.antt =====
-- The requests of app/agent/tools.py, and their validation from a step's arguments. The arguments are
-- one of the three dicts that app/agent/planner.py builds; pydantic ignores an item that a model
-- does not declare, and refuses a dict that lacks a required one.
use parcelpilot_ops_copilot.Prelude.{
  ℕ, String, Bool, false, ◌&&◌, leb, Option, none, some, List, [], ◌∷◌, if◌then◌else◌, ◌==◌,
}
use parcelpilot_ops_copilot.Models.{SourceType, SourceStatus, AuthorityClass}
use parcelpilot_ops_copilot.Detection.Alert.{AlertType}
use parcelpilot_ops_copilot.Detection.Tickets.{default_window_days}
use parcelpilot_ops_copilot.Documents.{max_top_k}

pub data Args : Type 0 where
  -- `query`, `top_k`, `source_types` where given
  search_args : String → ℕ → Option (List String) → Args
  -- `kind`, `entity_id`
  lookup_args : String → String → Args
  -- `calculation_type`, `entity_id`
  calculation_args : String → String → Args

pub data LookupKind : Type 0 where
  get_account_kind get_order_kind get_ticket_kind : LookupKind
  search_orders_kind search_tickets_kind : LookupKind

pub data CalculationType : Type 0 where
  cancellation service_credit sla severity : CalculationType

pub record SearchDocumentsRequest : Type 0 where
  pub query : String
  pub source_types : Option (List SourceType)
  pub authority_classes : Option (List AuthorityClass)
  pub statuses : Option (List SourceStatus)
  pub top_k : ℕ

pub record LookupStructuredDataRequest : Type 0 where
  pub kind : LookupKind
  pub entity_id : Option String
  pub account_id : Option String
  pub status : Option String
  pub carrier : Option String

pub record CalculateSupportOutcomeRequest : Type 0 where
  pub calculation_type : CalculationType
  pub entity_id : String

pub record DetectIssuesRequest : Type 0 where
  pub alert_types : Option (List AlertType)
  pub window_days : ℕ
  pub account_scope : Option (List String)
  pub group_by_account : Bool

pub data ToolRequest : Type 0 where
  search_request : SearchDocumentsRequest → ToolRequest
  lookup_request : LookupStructuredDataRequest → ToolRequest
  calculation_request : CalculateSupportOutcomeRequest → ToolRequest
  detection_request : DetectIssuesRequest → ToolRequest

-- The member of an enumeration with a value; `none` refuses it.
abbrev pub lookup_kind : String → Option LookupKind
lookup_kind value =
    if value == "get_account"
    then some get_account_kind
    else if value == "get_order"
    then some get_order_kind
    else if value == "get_ticket"
    then some get_ticket_kind
    else if value == "search_orders"
    then some search_orders_kind
    else if value == "search_tickets"
    then some search_tickets_kind
    else none

abbrev pub calculation_type : String → Option CalculationType
calculation_type value =
    if value == "cancellation"
    then some cancellation
    else if value == "service_credit"
    then some service_credit
    else if value == "sla"
    then some sla
    else if value == "severity"
    then some severity
    else none

abbrev pub source_type : String → Option SourceType
source_type value =
    if value == "support_policy"
    then some SourceType.support_policy
    else if value == "sop"
    then some SourceType.sop
    else if value == "product_doc"
    then some SourceType.product_doc
    else if value == "agreement"
    then some SourceType.agreement
    else if value == "structured_data"
    then some SourceType.structured_data
    else none

infixl 5 ◌>>=◌
abbrev pub ◌>>=◌ {ℓ κ} : {A : Type ℓ} {B : Type κ} → Option A → (A → Option B) → Option B
none >>= rest = none
some a >>= rest = rest a

abbrev source_type_list : List String → Option (List SourceType)
source_type_list [] = some []
source_type_list (value ∷ values) = do
  first ← source_type value
  others ← source_type_list values
  some (first ∷ others)

abbrev given_source_types : Option (List String) → Option (Option (List SourceType))
given_source_types none = some none
given_source_types (some values) = do members ← source_type_list values; some (some members)

-- `Field(default=5, ge=1, le=50)`
abbrev top_k_field : ℕ → Option ℕ
top_k_field n = if leb 1 n && leb n max_top_k then some n else none

-- `input_model(**raw_args)` for each model; `none` is its ValidationError.
unfoldable pub search_model : Args → Option ToolRequest
search_model (search_args query top_k source_types) = do
  types ← given_source_types source_types
  count ← top_k_field top_k
  some (
      search_request (record {
        query = query;
        source_types = types;
        authority_classes = none;
        statuses = none;
        top_k = count;
      }))
search_model _ = none

unfoldable pub lookup_model : Args → Option ToolRequest
lookup_model (lookup_args kind entity_id) = do
  member ← lookup_kind kind
  some (
      lookup_request (record {
        kind = member;
        entity_id = some entity_id;
        account_id = none;
        status = none;
        carrier = none;
      }))
lookup_model _ = none

unfoldable pub calculation_model : Args → Option ToolRequest
calculation_model (calculation_args kind entity_id) = do
  member ← calculation_type kind
  some (calculation_request (record { calculation_type = member; entity_id = entity_id }))
calculation_model _ = none

-- Every field has a default, and none of them is among the arguments.
unfoldable pub detection_model : Args → Option ToolRequest
detection_model args = some (
    detection_request (record {
      alert_types = none;
      window_days = default_window_days;
      account_scope = none;
      group_by_account = false;
    }))
