-- ===== src/Agent/Tools/Scoped.antt =====
-- The documents that an agent's search gives it, and the scope of its detections.
use parcelpilot_ops_copilot.Prelude.{
  ◌≤◌, ◌≡◌, ap, sym, refl, String, Bool, true, Option, none, some, List, Has, arith, filter, length,
  Has-filter,
}
use mathlib.Core.Path.{subst}
use parcelpilot_ops_copilot.Models.{AuthContext, allows_account, Database, DocumentChunk, Instant}
use parcelpilot_ops_copilot.Result.{ok, >>=-eq-ok, ok-injective}
use parcelpilot_ops_copilot.Documents.{
  DocumentSearchResult, DocumentSearchFilter, le_ℤ, account_clause, search_documents,
}
use parcelpilot_ops_copilot.Documents.Scoped.{search_documents-Found}
use parcelpilot_ops_copilot.Agent.Requests.{SearchDocumentsRequest}
use parcelpilot_ops_copilot.Agent.Tools.{
  Services, SearchDocumentsResponse, search_documents_tool, min_relevance_score,
}

-- A document is for everyone, or of an account that the caller may see.
abbrev pub may_read : AuthContext → Option String → Bool
may_read auth none = true
may_read auth (some account_id) = allows_account auth account_id

clause_may_read :
    (auth : AuthContext) (owner : Option String)
    → account_clause auth.account_scope owner ≡ true
    → may_read auth owner ≡ true
clause_may_read auth none h = refl
clause_may_read auth (some account_id) h = ground arith

length-filter : {A : Type 0} (p : A → Bool) (xs : List A) → length (filter p xs) ≤ length xs
length-filter p List.[] = omega arith
length-filter p (List.◌∷◌ x xs) = let k = length-filter p xs in ground arith

-- A search by the agent gives at most as many documents as were asked for, and each of them is a
-- stored chunk that is for everyone or of an account in the scope of the caller, with a score of at
-- most -1.
pub search_documents_tool_scoped :
    (services : Services) (conn : Database) (auth : AuthContext) (now : Instant)
    (request : SearchDocumentsRequest) (response : SearchDocumentsResponse)
    (r : DocumentSearchResult)
    → search_documents_tool services conn auth now request ≡ ok response
    → Has r response.results
    → (length response.results ≤ request.top_k)
      × (le_ℤ r.score min_relevance_score ≡ true)
      × (may_read auth r.account_scope ≡ true)
      × ((chunk : DocumentChunk) × Has chunk conn.chunks × (r.chunk_id ≡ chunk.chunk_id))
unfolding search_documents_tool
search_documents_tool_scoped services conn auth now request response r h m =
    let filters : DocumentSearchFilter = record {
      source_types = request.source_types;
      authority_classes = request.authority_classes;
      statuses = request.statuses;
      account_scope = auth.account_scope;
    } in
    let (raw, k, e) =
      >>=-eq-ok
        (search_documents services.tokens_of services.fts conn request.query filters request.top_k)
        _ h in
    let (short, found) =
      search_documents-Found services.tokens_of services.fts conn request.query filters
        request.top_k raw k in
    let near = λ (x : DocumentSearchResult). le_ℤ x.score min_relevance_score in
    let same : filter near raw ≡ response.results = ap (λ x. x.results) (ok-injective e) in
    let (listed, close) = (Has-filter near r raw).0 (subst (Has r) (sym same) m) in
    let f = found r listed in
    let fits = length-filter near raw in
    (
      subst (λ xs. length xs ≤ request.top_k) same (omega arith),
      close,
      subst (λ o. may_read auth o ≡ true) (sym f.same_scope)
          (clause_may_read auth f.chunk.account_scope (let p = f.passes in ground arith)),
      (f.chunk, f.stored, f.same_chunk),
    )
