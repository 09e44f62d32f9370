-- ===== src/Agent/Entities/Reads.antt =====
-- The reads of resolve_entities, and the bucket that an id goes to.
use parcelpilot_ops_copilot.Prelude.{
  ◌≡◌, inl, inr, refl, String, Option, none, some, Bool-cases, Option-cases, find, ◌==◌,
}
use parcelpilot_ops_copilot.Models.{AuthContext, Account, Order, Ticket, Database, allows_account}
use parcelpilot_ops_copilot.Result.{Result, ok, raise, Error, EntityType}
use parcelpilot_ops_copilot.Repository.{get_account, get_order, get_ticket}
use parcelpilot_ops_copilot.Agent.Entities.{
  Found, found, not_there, not_visible, found_of, kind_of, first_kind,
}

-- A read that returns, or raises one of the two errors that the loop handles.
abbrev Expected : {A : Type 0} → Result A → Type 0
Expected (ok a) = Unit
Expected (raise (Error.unknown_entity kind id)) = Unit
Expected (raise (Error.not_authorized denial)) = Unit
Expected (raise e) = ⊥

-- What the loop learns of a read: with `found`, that it returned a row.
abbrev Learned : {A : Type 0} → Result A → Found → Type 0
Learned {A = A} r found = (row : A) × (r ≡ ok row)
Learned r f = Unit

found_of-returns :
    {A : Type 0} (r : Result A) → Expected r → (f : Found) × (found_of r ≡ ok f) × Learned r f
found_of-returns (ok a) h = (found, refl, (a, refl))
found_of-returns (raise (Error.unknown_entity kind id)) h = (not_there, refl, tt)
found_of-returns (raise (Error.not_authorized denial)) h = (not_visible, refl, tt)
found_of-returns (raise (Error.no_default_no_agreement a b)) h = absurd h
found_of-returns (raise (Error.inactive_no_default a b c)) h = absurd h
found_of-returns (raise (Error.key_error a)) h = absurd h
found_of-returns (raise Error.assertion_error) h = absurd h
found_of-returns (raise Error.type_error) h = absurd h
found_of-returns (raise Error.integrity_error) h = absurd h
found_of-returns (raise (Error.value_error a)) h = absurd h
found_of-returns (raise Error.invalid_filter) h = absurd h

module _ (conn : Database) (auth : AuthContext) where
  get_order-Expected : (id : String) → Expected (get_order conn id auth)
  unfolding get_order
  get_order-Expected id = elim (Option-cases (find (λ row. row.order_id == id) conn.orders)) [
    | inl e ↦ rw e tt
    | inr (row, e) ↦ elim (Bool-cases (allows_account auth row.account_id)) [
      | inl t ↦ rw e (rw t tt)
      | inr t ↦ rw e (rw t tt)
    ]
  ]

  get_ticket-Expected : (id : String) → Expected (get_ticket conn id auth)
  unfolding get_ticket
  get_ticket-Expected id = elim (Option-cases (find (λ row. row.ticket_id == id) conn.tickets)) [
    | inl e ↦ rw e tt
    | inr (row, e) ↦ elim (Bool-cases (allows_account auth row.account_id)) [
      | inl t ↦ rw e (rw t tt)
      | inr t ↦ rw e (rw t tt)
    ]
  ]

  get_account-Expected : (id : String) → Expected (get_account conn id auth)
  unfolding get_account
  get_account-Expected id = elim (Bool-cases (allows_account auth id)) [
    | inr t ↦ rw t tt
    | inl t ↦ elim (Option-cases (find (λ row. row.account_id == id) conn.accounts)) [
      | inl e ↦ rw t (rw e tt)
      | inr (row, e) ↦ rw t (rw e tt)
    ]
  ]

  -- The row that an id of a bucket names, as the caller may read it.
  abbrev pub Shown : EntityType → String → Type 0
  Shown EntityType.order_entity id = (row : Order) × (get_order conn id auth ≡ ok row)
  Shown EntityType.ticket_entity id = (row : Ticket) × (get_ticket conn id auth ≡ ok row)
  Shown EntityType.account_entity id = (row : Account) × (get_account conn id auth ≡ ok row)
  Shown EntityType.source_entity id = ⊥

  abbrev pub Kind : Option EntityType → String → Type 0
  Kind none id = Unit
  Kind (some kind) id = Shown kind id

  pub kind_of-returns :
      (id : String) → (kind : Option EntityType) × (kind_of conn auth id ≡ ok kind) × Kind kind id
  unfolding kind_of
  kind_of-returns id =
      let (o, eo, lo) = found_of-returns (get_order conn id auth) (get_order-Expected id) in
      let (t, et, lt) = found_of-returns (get_ticket conn id auth) (get_ticket-Expected id) in
      let (a, ea, la) = found_of-returns (get_account conn id auth) (get_account-Expected id) in
      rw eo (rw et (rw ea (after o t a lo lt la)))
    where
      after :
          (o t a : Found)
          → Learned (get_order conn id auth) o
          → Learned (get_ticket conn id auth) t
          → Learned (get_account conn id auth) a
          → (kind : Option EntityType) × (first_kind o EntityType.order_entity (
                first_kind t EntityType.ticket_entity
                  (first_kind a EntityType.account_entity (ok none)))
              ≡ ok kind)
            × Kind kind id
      after found t a lo lt la = (some EntityType.order_entity, refl, lo)
      after not_visible t a lo lt la = (none, refl, tt)
      after not_there found a lo lt la = (some EntityType.ticket_entity, refl, lt)
      after not_there not_visible a lo lt la = (none, refl, tt)
      after not_there not_there found lo lt la = (some EntityType.account_entity, refl, la)
      after not_there not_there not_there lo lt la = (none, refl, tt)
      after not_there not_there not_visible lo lt la = (none, refl, tt)
