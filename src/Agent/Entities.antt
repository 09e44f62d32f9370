-- ===== src/Agent/Entities.antt =====
-- app/agent/entities.py: resolve_entities and _match_account_names. `id_tokens` is `_ID_TOKEN.findall`
-- on the question, `upper` and `lower` are str's, and `within part text` is `part in text`.
pub mod Reads
pub mod Visible
use Prim.Native.String
use parcelpilot_ops_copilot.Prelude.{
  ℕ, ◌+◌, String, Bool, true, false, ◌&&◌, ◌||◌, not, Option, none, some, List, [], ◌∷◌, ◌++◌, leb,
  contains, if◌then◌else◌,
}
use parcelpilot_ops_copilot.Models.{AuthContext, allows_account, Account, Database}
use parcelpilot_ops_copilot.Result.{Result, ok, raise, Error, EntityType, ◌>>=◌}
use parcelpilot_ops_copilot.Repository.{get_account, get_order, get_ticket}

pub record EntityResolution : Type 0 where
  pub order_ids : List String
  pub ticket_ids : List String
  pub account_ids : List String
  pub ambiguous_account_names : List String
  pub unresolved_mentions : List String

-- The truth of a list.
abbrev pub nonempty {ℓ} : {A : Type ℓ} → List A → Bool
nonempty [] = false
nonempty (x ∷ xs) = true

abbrev pub needs_clarification : EntityResolution → Bool
needs_clarification entities = nonempty entities.ambiguous_account_names

abbrev pub text_length : String → ℕ
text_length String.[] = 0
text_length (String.◌∷◌ c s) = text_length s + 1

-- What one checker does with an id: it is found, or not there, or there and not visible.
pub data Found : Type 0 where
  found not_there not_visible : Found

abbrev pub found_of {ℓ} : {A : Type ℓ} → Result A → Result Found
found_of (ok row) = ok found
found_of (raise (Error.unknown_entity kind id)) = ok not_there
found_of (raise (Error.not_authorized denial)) = ok not_visible
found_of (raise e) = raise e

abbrev pub first_kind : Found → EntityType → Result (Option EntityType) → Result (Option EntityType)
first_kind found kind others = ok (some kind)
first_kind not_there kind others = others
first_kind not_visible kind others = ok none

module _ (conn : Database) (auth : AuthContext) where
  -- The inner loop over `checkers`: the bucket for the id, if one is found for it.
  unfoldable pub kind_of : String → Result (Option EntityType)
  kind_of entity_id = do
    is_order ← found_of (get_order conn entity_id auth)
    let others : Result (Option EntityType) = do
      is_ticket ← found_of (get_ticket conn entity_id auth)
      let last : Result (Option EntityType) = do
        is_account ← found_of (get_account conn entity_id auth)
        first_kind is_account EntityType.account_entity (ok none)
      first_kind is_ticket EntityType.ticket_entity last
    first_kind is_order EntityType.order_entity others

-- The id goes to the end of its bucket, or of `unresolved`.
abbrev pub put : Option EntityType → String → EntityResolution → EntityResolution
put (some EntityType.order_entity) id e = record e { order_ids = e.order_ids ++ id ∷ [] }
put (some EntityType.ticket_entity) id e = record e { ticket_ids = e.ticket_ids ++ id ∷ [] }
put (some EntityType.account_entity) id e = record e { account_ids = e.account_ids ++ id ∷ [] }
put _ id e = record e { unresolved_mentions = e.unresolved_mentions ++ id ∷ [] }

abbrev pub no_entities : EntityResolution
no_entities = record {
  order_ids = [];
  ticket_ids = [];
  account_ids = [];
  ambiguous_account_names = [];
  unresolved_mentions = [];
}

abbrev pub has_ids : EntityResolution → Bool
has_ids e = nonempty e.order_ids || nonempty e.ticket_ids || nonempty e.account_ids

-- `if len(name_matches) == 1` and `elif len(name_matches) > 1`
abbrev pub take_names : List String → EntityResolution → EntityResolution
take_names [] e = e
take_names (id ∷ []) e = record e { account_ids = id ∷ [] }
take_names (id ∷ more ∷ ids) e = record e { ambiguous_account_names = id ∷ more ∷ ids }

-- What the module does with texts.
pub record Texts : Type 0 where
  pub id_tokens : String → List String
  pub upper : String → String
  pub lower : String → String
  pub within : String → String → Bool

module _ (texts : Texts) (conn : Database) (auth : AuthContext) where
  -- The loop over the tokens, with `seen` and the buckets.
  unfoldable pub resolve_tokens :
      List String → List String → EntityResolution → Result EntityResolution
  unfolding kind_of
  resolve_tokens seen [] e = ok e
  resolve_tokens seen (token ∷ tokens) e =
      let entity_id = texts.upper token in
      let skipped : Result EntityResolution = resolve_tokens seen tokens e in
      let rest = resolve_tokens (entity_id ∷ seen) tokens in
      if contains entity_id seen
      then skipped
      else kind_of conn auth entity_id >>= λ kind. rest (put kind entity_id e)

  -- The test of a row of accounts against the lowered question.
  abbrev pub name_matches : String → Account → Bool
  name_matches lowered row =
      leb 4 (text_length row.account_name)
      && texts.within (texts.lower row.account_name) lowered
      && allows_account auth row.account_id

  abbrev pub match_rows : String → List Account → List String
  match_rows lowered [] = []
  match_rows lowered (row ∷ rows) =
      let rest = match_rows lowered rows in
      if name_matches lowered row then row.account_id ∷ rest else rest

  unfoldable pub match_account_names : String → List String
  match_account_names question = match_rows (texts.lower question) conn.accounts

  -- Names are matched only when no explicit id was found.
  unfoldable pub resolve_names : String → EntityResolution → EntityResolution
  unfolding match_account_names
  resolve_names question e = if has_ids e then e else take_names (match_account_names question) e

  unfoldable pub resolve_entities : String → Result EntityResolution
  unfolding resolve_tokens
  resolve_entities question = do
    entities ← resolve_tokens [] (texts.id_tokens question) no_entities
    ok (resolve_names question entities)
