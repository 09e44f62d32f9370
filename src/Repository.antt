-- ===== src/Repository.antt =====
-- app/structured_data/repository.py and app/documents/source_repository.py: the typed reads, each
-- bound to the caller's account scope. Rows stand in the tables already converted to records.
pub mod Access
use parcelpilot_ops_copilot.Prelude.{
  String, Bool, true, Option, none, some, List, ◌&&◌, not, ◌==◌, find, filter, if◌then◌else◌,
}
use parcelpilot_ops_copilot.Prelude.Sort.{sort_by, text_le}
use parcelpilot_ops_copilot.Models.{
  AuthContext, allows_account, Account, Order, Ticket, SourceDocument, Database, OrderStatus,
  TicketStatus, same_order_status, same_ticket_status,
}
use parcelpilot_ops_copilot.Result.{
  Result, ok, raise, Error, EntityType, cannot_access, ◌>>=◌, ◌>>◌,
}

unfoldable pub check_scope : AuthContext → String → EntityType → String → Result (Unit {0})
check_scope auth account_id entity_type entity_id =
    if not (allows_account auth account_id)
    then raise (Error.not_authorized (cannot_access auth.role entity_type entity_id))
    else ok tt

-- `if row is None: raise UnknownEntityError(...)`
abbrev found {ℓ} : {A : Type ℓ} → Option A → EntityType → String → Result A
found none entity_type entity_id = raise (Error.unknown_entity entity_type entity_id)
found (some row) entity_type entity_id = ok row

unfoldable pub get_account : Database → String → AuthContext → Result Account
unfolding check_scope
get_account conn account_id auth = do
  check_scope auth account_id EntityType.account_entity account_id
  found (find (λ row. row.account_id == account_id) conn.accounts) EntityType.account_entity
      account_id

unfoldable pub get_order : Database → String → AuthContext → Result Order
unfolding check_scope
get_order conn order_id auth = do
  row ← found (find (λ row. row.order_id == order_id) conn.orders) EntityType.order_entity order_id
  check_scope auth row.account_id EntityType.order_entity order_id
  ok row

unfoldable pub get_ticket : Database → String → AuthContext → Result Ticket
unfolding check_scope
get_ticket conn ticket_id auth = do
  row ←
      found (find (λ row. row.ticket_id == ticket_id) conn.tickets) EntityType.ticket_entity
        ticket_id
  check_scope auth row.account_id EntityType.ticket_entity ticket_id
  ok row

unfoldable pub get_source : Database → String → Result SourceDocument
get_source conn source_id =
    found (find (λ row. row.source_id == source_id) conn.sources) EntityType.source_entity source_id

-- A filter that is not given holds of every row.
abbrev pub text_filter : Option String → String → Bool
text_filter none value = true
text_filter (some wanted) value = value == wanted

abbrev pub order_status_filter : Option OrderStatus → OrderStatus → Bool
order_status_filter none value = true
order_status_filter (some wanted) value = same_order_status value wanted

abbrev pub ticket_status_filter : Option TicketStatus → TicketStatus → Bool
ticket_status_filter none value = true
ticket_status_filter (some wanted) value = same_ticket_status value wanted

-- `if account_id is not None and not auth.allows_account(account_id): raise`
abbrev check_account : AuthContext → Option String → Result (Unit {0})
check_account auth none = ok tt
check_account auth (some account_id) =
    check_scope auth account_id EntityType.account_entity account_id

-- The WHERE clause.
abbrev pub order_selected :
    AuthContext → Option String → Option OrderStatus → Option String → Order → Bool
order_selected auth account_id status carrier row =
    allows_account auth row.account_id
    && text_filter account_id row.account_id
    && order_status_filter status row.status
    && text_filter carrier row.carrier

abbrev pub ticket_selected : AuthContext → Option String → Option TicketStatus → Ticket → Bool
ticket_selected auth account_id status row =
    allows_account auth row.account_id
    && text_filter account_id row.account_id
    && ticket_status_filter status row.status

abbrev pub order_le : Order → Order → Bool
order_le a b = text_le a.order_id b.order_id

abbrev pub ticket_le : Ticket → Ticket → Bool
ticket_le a b = text_le a.ticket_id b.ticket_id

unfoldable pub search_orders :
    Database
    → AuthContext
    → Option String
    → Option OrderStatus
    → Option String
    → Result (List Order)
unfolding check_scope
search_orders conn auth account_id status carrier = do
  check_account auth account_id
  ok (sort_by order_le (filter (order_selected auth account_id status carrier) conn.orders))

unfoldable pub search_tickets :
    Database → AuthContext → Option String → Option TicketStatus → Result (List Ticket)
unfolding check_scope
search_tickets conn auth account_id status = do
  check_account auth account_id
  ok (sort_by ticket_le (filter (ticket_selected auth account_id status) conn.tickets))
