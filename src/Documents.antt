-- ===== src/Documents.antt =====
-- app/documents/retrieval.py: the search of the full-text index. `fts query` is the index's answer to
-- the MATCH: the score and the snippet of a chunk that it finds. A score is held in units of
-- 1/1,000,000; that of a better match is lower.
pub mod Scoped
pub mod SlaTable
use parcelpilot_ops_copilot.Prelude.{
  ℕ, ◌+◌, ◌<◌, zero, suc, String, Bool, true, false, ◌&&◌, ◌||◌, not, leb, Option, none, some, List,
  [], ◌∷◌, ◌++◌, map, filter, contains, if◌then◌else◌, ◌==◌,
}
use parcelpilot_ops_copilot.Prelude.Int.{ℤ, pos, negsuc}
use parcelpilot_ops_copilot.Prelude.Sort.{sort_by, text_le}
use parcelpilot_ops_copilot.Models.{
  SourceType, SourceStatus, AuthorityClass, same_source_type, same_source_status, same_authority,
  DocumentChunk, Date, Database,
}
use parcelpilot_ops_copilot.Result.{Result, ok, raise, Error, ◌>>=◌}

pub record DocumentSearchFilter : Type 0 where
  pub source_types : Option (List SourceType)
  pub authority_classes : Option (List AuthorityClass)
  pub statuses : Option (List SourceStatus)
  pub account_scope : Option (List String)

pub record DocumentSearchResult : Type 0 where
  pub chunk_id : String
  pub source_id : String
  pub filename : String
  pub page : ℕ
  pub section : Option String
  pub snippet : String
  pub score : ℤ
  pub status : SourceStatus
  pub source_type : SourceType
  pub authority_class : AuthorityClass
  pub effective_date : Date
  pub account_scope : Option String

abbrev pub max_top_k : ℕ
max_top_k = 50

-- `z ≤ w`
abbrev pub le_ℤ : ℤ → ℤ → Bool
le_ℤ (pos m) (pos n) = leb m n
le_ℤ (pos m) (negsuc n) = false
le_ℤ (negsuc m) (pos n) = true
le_ℤ (negsuc m) (negsuc n) = leb n m

-- The loop of _normalize_query, with `seen`.
abbrev pub unique_tokens : List String → List String → List String
unique_tokens seen [] = []
unique_tokens seen (token ∷ tokens) =
    let fresh = token ∷ unique_tokens (token ∷ seen) tokens in
    let rest = unique_tokens seen tokens in if contains token seen then rest else fresh

-- The terms of the query that `" OR ".join` prints.
abbrev pub searchable : List String → Result (List String)
searchable [] = raise Error.invalid_filter
searchable (token ∷ tokens) = ok (token ∷ tokens)

abbrev pub member : {A : Type 0} → (A → A → Bool) → A → List A → Bool
member same a [] = false
member same a (b ∷ bs) = same a b || member same a bs

-- `column IN (...)`; neither None nor an empty list gives a clause
abbrev pub in_clause : {A : Type 0} → (A → A → Bool) → Option (List A) → A → Bool
in_clause same none value = true
in_clause same (some []) value = true
in_clause same (some (a ∷ choices)) value = member same value (a ∷ choices)

-- `account_scope IS NULL OR account_scope IN (...)`
abbrev pub account_clause : Option (List String) → Option String → Bool
account_clause none owner = true
account_clause (some ids) none = true
account_clause (some ids) (some owner) = contains owner ids

abbrev pub selected : DocumentSearchFilter → DocumentChunk → Bool
selected filters chunk =
    in_clause same_source_type filters.source_types chunk.source_type
    && in_clause same_authority filters.authority_classes chunk.authority_class
    && in_clause same_source_status filters.statuses chunk.status
    && account_clause filters.account_scope chunk.account_scope

-- `ORDER BY score ASC, chunk_id ASC`
abbrev pub ranks_before : DocumentSearchResult → DocumentSearchResult → Bool
ranks_before a b =
    if le_ℤ a.score b.score
    then (not (le_ℤ b.score a.score) || text_le a.chunk_id b.chunk_id)
    else false

abbrev pub take {ℓ} : {A : Type ℓ} → ℕ → List A → List A
take zero xs = []
take (suc n) [] = []
take (suc n) (x ∷ xs) = x ∷ take n xs

module _ (tokens_of : String → List String)
    (fts : List String → DocumentChunk → Option (ℤ × String)) where
  abbrev pub normalize_query : String → Result (List String)
  normalize_query query = searchable (unique_tokens [] (tokens_of query))

  abbrev pub result_of : DocumentChunk → Option (ℤ × String) → List DocumentSearchResult
  result_of chunk none = []
  result_of chunk (some (score, snippet)) =
      record {
        chunk_id = chunk.chunk_id;
        source_id = chunk.source_id;
        filename = chunk.filename;
        page = chunk.page;
        section = chunk.section;
        snippet = snippet;
        score = score;
        status = chunk.status;
        source_type = chunk.source_type;
        authority_class = chunk.authority_class;
        effective_date = chunk.effective_date;
        account_scope = chunk.account_scope;
      }
      ∷ []

  -- The rows of the join that match and pass the clauses.
  abbrev pub matching :
      List String → DocumentSearchFilter → List DocumentChunk → List DocumentSearchResult
  matching query filters [] = []
  matching query filters (chunk ∷ chunks) =
      let rest = matching query filters chunks in
      if selected filters chunk then result_of chunk (fts query chunk) ++ rest else rest

  unfoldable pub search_documents :
      Database → String → DocumentSearchFilter → ℕ → Result (List DocumentSearchResult)
  search_documents conn query filters top_k =
      if not (leb 1 top_k && leb top_k max_top_k)
      then raise Error.invalid_filter
      else normalize_query query >>= λ fts_query.
          ok (take top_k (sort_by ranks_before (matching fts_query filters conn.chunks)))
