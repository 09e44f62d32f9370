-- ===== src/Repository/Access.antt =====
-- The lookups and searches of app/structured_data/repository.py against the account scope.
use parcelpilot_ops_copilot.Prelude.{
  String, ◌≡◌, ◌∙◌, refl, ◌↔◌, true, none, some, some_cancel, Option, List, arith, filter, Has,
  ◌==◌, Has-filter, find-Has, filter-filter, eq_iff, Has-contains,
}
use parcelpilot_ops_copilot.Prelude.Sort.{
  sort_by, IsSorted, Has-sort_by, sort_by-IsSorted, text_le, text_le_total,
}
use mathlib.Core.Path.{subst}
use parcelpilot_ops_copilot.Models.{
  in_scope, AuthContext, allows_account, Account, Order, Ticket, Database, OrderStatus,
  TicketStatus, same_ticket_status,
}
use parcelpilot_ops_copilot.Result.{ok}
use parcelpilot_ops_copilot.Repository.{
  get_account, get_order, get_ticket, search_orders, search_tickets, order_selected,
  ticket_selected, ticket_le, text_filter, ticket_status_filter,
}

-- A search that returns lists the rows that its WHERE clause selects.
pub search_tickets-selected :
    (conn : Database) (auth : AuthContext) (account_id : Option String)
    (status : Option TicketStatus) {rows : List Ticket}
    → search_tickets conn auth account_id status ≡ ok rows
    → IsSorted ticket_le rows
      × ((t : Ticket)
          → Has t rows ↔ (Has t conn.tickets × (ticket_selected auth account_id status t ≡ true)))
unfolding search_tickets
search_tickets-selected conn auth account_id status {rows} h =
    let p = ticket_selected auth account_id status in
    let listed : sort_by ticket_le (filter p conn.tickets) ≡ rows = ground arith in
    rw (← listed) (
      sort_by-IsSorted ticket_le (λ a b. text_le_total a.ticket_id b.ticket_id)
          (filter p conn.tickets),
      λ t. (
        λ m.
            (Has-filter p t conn.tickets).0 ((Has-sort_by ticket_le t (filter p conn.tickets)).0 m),
        λ m.
            (Has-sort_by ticket_le t (filter p conn.tickets)).1 ((Has-filter p t conn.tickets).1 m),
      ),
    )

-- A ticket of an account in the caller's scope that has the account and the status asked for.
pub record IsWanted (auth : AuthContext) (account_id : Option String) (status : Option TicketStatus)
    (t : Ticket) : Type 0 where
  pub in_scope : (ids : List String) → auth.account_scope ≡ some ids → Has t.account_id ids
  pub of_account : (id : String) → account_id ≡ some id → t.account_id ≡ id
  pub of_status : (s : TicketStatus) → status ≡ some s → t.status ≡ s

same_ticket_status-eq : (a b : TicketStatus) → same_ticket_status a b ≡ true → a ≡ b
same_ticket_status-eq a b h = ground arith

same_ticket_status_refl : (a : TicketStatus) → same_ticket_status a a ≡ true
same_ticket_status_refl a = ground arith

text_filter_iff :
    (wanted : Option String) (value : String)
    → (text_filter wanted value ≡ true) ↔ ((id : String) → wanted ≡ some id → value ≡ id)
text_filter_iff none value = ((λ h id e. cc), (λ f. refl))
text_filter_iff (some id) value =
    ((λ h id' e. (eq_iff value id).0 h ∙ some_cancel e), (λ f. (eq_iff value id).1 (f id refl)))

status_filter_iff :
    (wanted : Option TicketStatus) (value : TicketStatus)
    → (ticket_status_filter wanted value ≡ true)
      ↔ ((s : TicketStatus) → wanted ≡ some s → value ≡ s)
status_filter_iff none value = ((λ h s e. cc), (λ f. refl))
status_filter_iff (some s) value = (
  (λ h s' e. same_ticket_status-eq value s h ∙ some_cancel e),
  (λ f. rw (f s refl) (same_ticket_status_refl s)),
)

scope_iff :
    (scope : Option (List String)) (account_id : String)
    → (in_scope scope account_id ≡ true)
      ↔ ((ids : List String) → scope ≡ some ids → Has account_id ids)
scope_iff none account_id = ((λ h ids e. cc), (λ f. refl))
scope_iff (some ids) account_id = (
  (λ h ids' e. subst (Has account_id) (some_cancel e) ((Has-contains account_id ids).0 h)),
  (λ f. (Has-contains account_id ids).1 (f ids refl)),
)

selected-IsWanted :
    (auth : AuthContext) (account_id : Option String) (status : Option TicketStatus) (t : Ticket)
    → (ticket_selected auth account_id status t ≡ true) ↔ IsWanted auth account_id status t
selected-IsWanted auth account_id status t =
    let scope = scope_iff auth.account_scope t.account_id in
    let account = text_filter_iff account_id t.account_id in
    let state = status_filter_iff status t.status in
    (
      (λ h. record {
        in_scope = scope.0 (ground arith);
        of_account = account.0 (ground arith);
        of_status = state.0 (ground arith);
      }),
      (λ w. rw (scope.1 w.in_scope, account.1 w.of_account, state.1 w.of_status) refl),
    )

-- A search of tickets that returns gives exactly the rows of the table of which the account is one
-- of the caller's scope, if that is limited, and the account and status are those asked for, if any
-- is; they stand in the order of their identifiers.
pub search_tickets_exact :
    (conn : Database) (auth : AuthContext) (account_id : Option String)
    (status : Option TicketStatus) {rows : List Ticket}
    → search_tickets conn auth account_id status ≡ ok rows
    → IsSorted (λ (a b : Ticket). text_le a.ticket_id b.ticket_id) rows
      × ((t : Ticket) → Has t rows ↔ (Has t conn.tickets × IsWanted auth account_id status t))
search_tickets_exact conn auth account_id status {rows} h =
    let (sorted, exact) = search_tickets-selected conn auth account_id status h in
    (
      sorted,
      (λ t.
          let wanted = selected-IsWanted auth account_id status t in
          (
            (λ m. let (place, s) = (exact t).0 m in (place, wanted.0 s)),
            (λ p. (exact t).1 (p.0, wanted.1 p.1)),
          )),
    )

-- The database as a caller with this scope could hold it: no row of another account.
abbrev pub visible : AuthContext → Database → Database
visible auth conn = record conn {
  accounts = filter (λ row. allows_account auth row.account_id) conn.accounts;
  orders = filter (λ row. allows_account auth row.account_id) conn.orders;
  tickets = filter (λ row. allows_account auth row.account_id) conn.tickets;
}

-- A search gives the same result on the whole database and on its visible part, whatever the
-- filters: no row outside the scope influences it, not even through an error.
pub search_visible :
    (conn : Database) (auth : AuthContext) (account_id carrier : Option String)
    (order_status : Option OrderStatus) (ticket_status : Option TicketStatus)
    → (search_orders (visible auth conn) auth account_id order_status carrier
        ≡ search_orders conn auth account_id order_status carrier)
      × (search_tickets (visible auth conn) auth account_id ticket_status
          ≡ search_tickets conn auth account_id ticket_status)
unfolding search_orders search_tickets
search_visible conn auth account_id carrier order_status ticket_status = (
  rw (
      filter-filter (λ row. allows_account auth row.account_id)
        (order_selected auth account_id order_status carrier) (λ row h. ground arith) conn.orders),
  rw (
      filter-filter (λ row. allows_account auth row.account_id)
        (ticket_selected auth account_id ticket_status) (λ row h. ground arith) conn.tickets),
)

-- A row that a lookup returns is a row of its table with the identifier asked for, of an account in
-- the caller's scope.
pub gets_scoped :
    (conn : Database) (auth : AuthContext) (id : String)
    → ((a : Account)
        → get_account conn id auth ≡ ok a
        → Has a conn.accounts × (a.account_id ≡ id) × (allows_account auth a.account_id ≡ true))
      × ((o : Order)
          → get_order conn id auth ≡ ok o
          → Has o conn.orders × (o.order_id ≡ id) × (allows_account auth o.account_id ≡ true))
      × ((t : Ticket)
          → get_ticket conn id auth ≡ ok t
          → Has t conn.tickets × (t.ticket_id ≡ id) × (allows_account auth t.account_id ≡ true))
unfolding get_account get_order get_ticket
gets_scoped conn auth id = (
  λ a h.
      ground (
        arith,
        find-Has (λ row. row.account_id == id) conn.accounts {b = a},
        eq_iff a.account_id id,
      ),
  λ o h.
      ground
        (arith, find-Has (λ row. row.order_id == id) conn.orders {b = o}, eq_iff o.order_id id),
  λ t h.
      ground
        (arith, find-Has (λ row. row.ticket_id == id) conn.tickets {b = t}, eq_iff t.ticket_id id),
)
