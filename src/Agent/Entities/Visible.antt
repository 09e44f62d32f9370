-- ===== src/Agent/Entities/Visible.antt =====
-- What resolve_entities finds is visible to the caller.
use parcelpilot_ops_copilot.Prelude.{
  ◌≡◌, ◌∙◌, sym, ◌⊎◌, inl, inr, refl, String, true, List, [], ◌∷◌, ◌++◌, Has, Option, none, some,
  arith, contains, Bool-cases, Option-cases, find, find-none, ◌==◌, eq_iff,
}
use mathlib.Core.Path.{subst}
use parcelpilot_ops_copilot.Models.{AuthContext, Account, Database, allows_account}
use parcelpilot_ops_copilot.Result.{ok, EntityType, ok-injective}
use parcelpilot_ops_copilot.Repository.{get_account}
use parcelpilot_ops_copilot.Agent.Entities.{
  EntityResolution, Texts, resolve_tokens, resolve_names, resolve_entities, put, no_entities,
  match_rows, name_matches, match_account_names, take_names, has_ids,
}
use parcelpilot_ops_copilot.Agent.Entities.Reads.{Shown, Kind, kind_of-returns}

module _ (conn : Database) (auth : AuthContext) where
  -- Every id of a bucket names a row that the caller may read.
  pub record AllShown (e : EntityResolution) : Type 0 where
    pub orders : (id : String) → Has id e.order_ids → Shown conn auth EntityType.order_entity id
    pub tickets : (id : String) → Has id e.ticket_ids → Shown conn auth EntityType.ticket_entity id
    pub accounts :
        (id : String) → Has id e.account_ids → Shown conn auth EntityType.account_entity id

  added :
      (P : String → Type 0) (ids : List String) {new : String}
      → ((id : String) → Has id ids → P id)
      → P new
      → (id : String) → Has id (ids ++ new ∷ [])
      → P id
  added P [] old shown id (inl e) = subst P e shown
  added P [] old shown id (inr m) = absurd m
  added P (i ∷ ids) old shown id (inl e) = old id (inl e)
  added P (i ∷ ids) old shown id (inr m) = added P ids (λ j k. old j (inr k)) shown id m

  put-AllShown :
      (kind : Option EntityType) (id : String) (e : EntityResolution)
      → Kind conn auth kind id
      → AllShown e
      → AllShown (put kind id e)
  put-AllShown none id e k h = record {
    orders = h.orders;
    tickets = h.tickets;
    accounts = h.accounts;
  }
  put-AllShown (some EntityType.order_entity) id e k h = record {
    orders = added (Shown conn auth EntityType.order_entity) e.order_ids h.orders k;
    tickets = h.tickets;
    accounts = h.accounts;
  }
  put-AllShown (some EntityType.ticket_entity) id e k h = record {
    orders = h.orders;
    tickets = added (Shown conn auth EntityType.ticket_entity) e.ticket_ids h.tickets k;
    accounts = h.accounts;
  }
  put-AllShown (some EntityType.account_entity) id e k h = record {
    orders = h.orders;
    tickets = h.tickets;
    accounts = added (Shown conn auth EntityType.account_entity) e.account_ids h.accounts k;
  }
  put-AllShown (some EntityType.source_entity) id e k h = absurd k

  module _ (texts : Texts) where
    resolve_tokens-returns :
        (seen tokens : List String) (e : EntityResolution)
        → AllShown e
        → (r : EntityResolution) × (resolve_tokens texts conn auth seen tokens e ≡ ok r)
          × AllShown r
    unfolding resolve_tokens
    resolve_tokens-returns seen [] e h = (e, refl, h)
    resolve_tokens-returns seen (token ∷ tokens) e h =
        elim (Bool-cases (contains (texts.upper token) seen)) [
          | inl t ↦ rw t (resolve_tokens-returns seen tokens e h)
          | inr t ↦
              let (kind, k, shown) = kind_of-returns conn auth (texts.upper token) in
              rw t (
                rw k (
                  resolve_tokens-returns (texts.upper token ∷ seen) tokens
                    (put kind (texts.upper token) e)
                    (put-AllShown kind (texts.upper token) e shown h)))
        ]

    get_account-in_scope :
        (id : String) (row : Account)
        → Has row conn.accounts
        → row.account_id ≡ id
        → allows_account auth id ≡ true
        → Shown conn auth EntityType.account_entity id
    unfolding get_account
    get_account-in_scope id row m e t =
        elim (Option-cases (find (λ r. r.account_id == id) conn.accounts)) [
          | inr (found_row, f) ↦ rw t (rw f (found_row, refl))
          | inl f ↦
              let k = find-none (λ r. r.account_id == id) conn.accounts f row m in
              absurd (ground (arith, eq_iff row.account_id id))
        ]

    match_rows-Shown :
        (lowered : String) (rows : List Account)
        → ((row : Account) → Has row rows → Has row conn.accounts)
        → (id : String) → Has id (match_rows texts conn auth lowered rows)
        → Shown conn auth EntityType.account_entity id
    match_rows-Shown lowered [] listed id m = absurd m
    match_rows-Shown lowered (row ∷ rows) listed id m =
        elim (Bool-cases (name_matches texts conn auth lowered row)) [
          | inl t ↦
              let found_at : (row.account_id ≡ id)
                  ⊎ Has id (match_rows texts conn auth lowered rows) =
                rw t at m in
              let allowed : allows_account auth row.account_id ≡ true = ground arith in
              elim found_at [
                | inl e ↦
                    get_account-in_scope id row (listed row (inl refl)) e
                      (subst (λ i. allows_account auth i ≡ true) e allowed)
                | inr k ↦ match_rows-Shown lowered rows (λ r l. listed r (inr l)) id k
              ]
          | inr t ↦ match_rows-Shown lowered rows (λ r l. listed r (inr l)) id (rw t at m)
        ]

    take_names-AllShown :
        (ids : List String) (e : EntityResolution)
        → ((id : String) → Has id ids → Shown conn auth EntityType.account_entity id)
        → AllShown e
        → AllShown (take_names ids e)
    take_names-AllShown [] e shown h = h
    take_names-AllShown (id ∷ []) e shown h = record {
      orders = h.orders;
      tickets = h.tickets;
      accounts = shown;
    }
    take_names-AllShown (id ∷ more ∷ ids) e shown h = record {
      orders = h.orders;
      tickets = h.tickets;
      accounts = h.accounts;
    }

    resolve_names-AllShown :
        (question : String) (e : EntityResolution)
        → AllShown e
        → AllShown (resolve_names texts conn auth question e)
    unfolding resolve_names match_account_names
    resolve_names-AllShown question e h = elim (Bool-cases (has_ids e)) [
      | inl t ↦ rw t h
      | inr t ↦ rw t (
          take_names-AllShown (match_account_names texts conn auth question) e
            (match_rows-Shown (texts.lower question) conn.accounts (λ r m. m)) h)
    ]

    pub resolve_entities-AllShown :
        (question : String)
        → (e : EntityResolution) × (resolve_entities texts conn auth question ≡ ok e) × AllShown e
    unfolding resolve_entities
    resolve_entities-AllShown question =
        let nothing : AllShown no_entities = record {
          orders = λ id m. absurd m;
          tickets = λ id m. absurd m;
          accounts = λ id m. absurd m;
        } in
        let (e, k, h) = resolve_tokens-returns [] (texts.id_tokens question) no_entities nothing in
        (resolve_names texts conn auth question e, rw k refl, resolve_names-AllShown question e h)

    pub AllShown-resolved :
        (question : String) (e : EntityResolution)
        → resolve_entities texts conn auth question ≡ ok e
        → AllShown e
    AllShown-resolved question e h =
        let (r, k, shown) = resolve_entities-AllShown question in
        subst AllShown (ok-injective (sym k ∙ h)) shown
