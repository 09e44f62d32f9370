-- ===== src/Examples/Reads.antt =====
-- The reads and the policy, on the example database.
use parcelpilot_ops_copilot.Prelude.{true, ◌≡◌, ◌↔◌, refl, sym, inl, inr, none, some, [], ◌∷◌, Has}
use parcelpilot_ops_copilot.Prelude.Sort.{IsSorted, sort_by, text_le}
use parcelpilot_ops_copilot.Models.{
  Ticket, Account, Order, allows_account, ClauseTopic, is_active_at,
}
use parcelpilot_ops_copilot.Result.{ok}
use parcelpilot_ops_copilot.Repository.{
  check_scope, get_account, get_order, get_ticket, get_source, search_orders, search_tickets,
}
use parcelpilot_ops_copilot.Repository.Access.{
  visible, IsWanted, search_tickets_exact, search_visible, gets_scoped,
}
use parcelpilot_ops_copilot.Policy.{
  AgreementOverride, ApplicabilityResult, default_source, governed_by, resolve_applicability,
}
use parcelpilot_ops_copilot.Policy.Governs.{
  InForce, Explained, resolve-Explained, Governing, agreement_governs,
}
use parcelpilot_ops_copilot.Examples.Scenario.{northstar_agent, outage, agreement, store}

search_tickets_exact_example :
    IsSorted (λ (a b : Ticket). text_le a.ticket_id b.ticket_id) (outage ∷ [])
    × ((t : Ticket)
        → Has t (outage ∷ []) ↔ (Has t store.tickets × IsWanted northstar_agent none none t))
unfolding search_tickets check_scope sort_by
search_tickets_exact_example =
    search_tickets_exact store northstar_agent none none {rows = outage ∷ []} refl

search_visible_example :
    (search_orders (visible northstar_agent store) northstar_agent (some "ACCT-002") none none
      ≡ search_orders store northstar_agent (some "ACCT-002") none none)
    × (search_tickets (visible northstar_agent store) northstar_agent (some "ACCT-002") none
        ≡ search_tickets store northstar_agent (some "ACCT-002") none)
search_visible_example = search_visible store northstar_agent (some "ACCT-002") none none none

gets_scoped_example :
    ((a : Account)
      → get_account store "TKT-1" northstar_agent ≡ ok a
      → Has a store.accounts
        × (a.account_id ≡ "TKT-1")
        × (allows_account northstar_agent a.account_id ≡ true))
    × ((o : Order)
        → get_order store "TKT-1" northstar_agent ≡ ok o
        → Has o store.orders
          × (o.order_id ≡ "TKT-1")
          × (allows_account northstar_agent o.account_id ≡ true))
    × ((t : Ticket)
        → get_ticket store "TKT-1" northstar_agent ≡ ok t
        → Has t store.tickets
          × (t.ticket_id ≡ "TKT-1")
          × (allows_account northstar_agent t.account_id ≡ true))
gets_scoped_example = gets_scoped store northstar_agent "TKT-1"

abbrev fee_clause : AgreementOverride
fee_clause = record {
  account_id = "ACCT-001";
  source_id = "SRC-05";
  section = "2";
  topic = ClauseTopic.cancellation_fee;
  note = "no fee";
}

fee_clause-InForce :
    InForce store ClauseTopic.cancellation_fee "ACCT-001" 3 (fee_clause ∷ []) fee_clause
unfolding get_source is_active_at
fee_clause-InForce = record {
  listed = inl refl;
  own_account = refl;
  own_topic = refl;
  agreement = agreement;
  registered = refl;
  active = refl;
}

agreement_governs_example :
    (r : ApplicabilityResult) × (resolve_applicability store ClauseTopic.cancellation_fee "ACCT-001"
        3
        (fee_clause ∷ [])
        default_source
      ≡ ok r)
    × Governing store ClauseTopic.cancellation_fee "ACCT-001" 3
        (fee_clause ∷ [])
        default_source
        fee_clause
        r
agreement_governs_example =
    agreement_governs store ClauseTopic.cancellation_fee "ACCT-001" 3 (fee_clause ∷ [])
      default_source fee_clause fee_clause-InForce only_entry
  where
    only_entry :
        (other : AgreementOverride)
        → Has other (fee_clause ∷ [])
        → other.account_id ≡ "ACCT-001"
        → other.topic ≡ ClauseTopic.cancellation_fee
        → other ≡ fee_clause
    only_entry other (inl e) a t = sym e
    only_entry other (inr none') a t = absurd none'

resolve-Explained_example :
    Explained store ClauseTopic.cancellation_fee "ACCT-001" 3
      (fee_clause ∷ [])
      default_source
      (governed_by ClauseTopic.cancellation_fee "ACCT-001" fee_clause (some ("SRC-03", "1")))
unfolding resolve_applicability get_source is_active_at
resolve-Explained_example =
    resolve-Explained store ClauseTopic.cancellation_fee "ACCT-001" 3 (fee_clause ∷ [])
      default_source
      (governed_by ClauseTopic.cancellation_fee "ACCT-001" fee_clause (some ("SRC-03", "1"))) refl
