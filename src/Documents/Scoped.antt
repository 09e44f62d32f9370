-- ===== src/Documents/Scoped.antt =====
-- What search_documents returns, against the filters and the caller's scope.
use parcelpilot_ops_copilot.Prelude.{
  ℕ, ◌≤◌, ◌≡◌, ap, sym, ◌⊎◌, inl, inr, refl, String, true, ◌&&◌, leb, zero, suc, Option, none, some,
  List, [], ◌∷◌, ◌++◌, Has, arith, Bool-cases, length,
}
use parcelpilot_ops_copilot.Prelude.Sort.{sort_by, Has-sort_by}
use parcelpilot_ops_copilot.Prelude.Int.{ℤ}
use parcelpilot_ops_copilot.Models.{DocumentChunk, Database}
use parcelpilot_ops_copilot.Result.{ok, >>=-eq-ok, ok-injective}
use parcelpilot_ops_copilot.Documents.{
  DocumentSearchFilter, DocumentSearchResult, selected, ranks_before, take, matching, result_of,
  normalize_query, search_documents, max_top_k,
}

take-Has : {A : Type 0} (n : ℕ) (xs : List A) (a : A) → Has a (take n xs) → Has a xs
take-Has zero xs a m = absurd m
take-Has (suc n) [] a m = m
take-Has (suc n) (x ∷ xs) a m = ground (arith, take-Has n xs a)

take-length : {A : Type 0} (n : ℕ) (xs : List A) → length (take n xs) ≤ n
take-length zero xs = omega arith
take-length (suc n) [] = omega arith
take-length (suc n) (x ∷ xs) = let k = take-length n xs in omega arith

pub Has-concat : {A : Type 0} (xs ys : List A) (a : A) → Has a (xs ++ ys) → Has a xs ⊎ Has a ys
Has-concat [] ys a m = inr m
Has-concat (x ∷ xs) ys a (inl e) = inl (inl e)
Has-concat (x ∷ xs) ys a (inr m) = ground (arith, Has-concat xs ys a m)

module _ (tokens_of : String → List String)
    (fts : List String → DocumentChunk → Option (ℤ × String)) where
  -- The result is of a stored chunk that passes the filters.
  pub record Found (conn : Database) (filters : DocumentSearchFilter) (r : DocumentSearchResult)
      : Type 0 where
    pub chunk : DocumentChunk
    pub stored : Has chunk conn.chunks
    pub passes : selected filters chunk ≡ true
    pub same_chunk : r.chunk_id ≡ chunk.chunk_id
    pub same_source : r.source_id ≡ chunk.source_id
    pub same_scope : r.account_scope ≡ chunk.account_scope

  result_of-Found :
      (conn : Database) (filters : DocumentSearchFilter) (chunk : DocumentChunk)
      (hit : Option (ℤ × String)) (r : DocumentSearchResult)
      → Has chunk conn.chunks
      → selected filters chunk ≡ true
      → Has r (result_of tokens_of fts chunk hit)
      → Found conn filters r
  result_of-Found conn filters chunk none r stored passes m = absurd m
  result_of-Found conn filters chunk (some hit) r stored passes (inr m) = absurd m
  result_of-Found conn filters chunk (some (score, snippet)) r stored passes (inl e) = record {
    chunk = chunk;
    stored = stored;
    passes = passes;
    same_chunk = ap (λ x. x.chunk_id) (sym e);
    same_source = ap (λ x. x.source_id) (sym e);
    same_scope = ap (λ x. x.account_scope) (sym e);
  }

  matching-Found :
      (conn : Database) (query : List String) (filters : DocumentSearchFilter)
      (chunks : List DocumentChunk) (r : DocumentSearchResult)
      → ((c : DocumentChunk) → Has c chunks → Has c conn.chunks)
      → Has r (matching tokens_of fts query filters chunks)
      → Found conn filters r
  matching-Found conn query filters [] r listed m = absurd m
  matching-Found conn query filters (c ∷ chunks) r listed m =
      elim (Bool-cases (selected filters c)) [
        | inl e ↦
            let hits = result_of tokens_of fts c (fts query c) in
            elim (Has-concat hits (matching tokens_of fts query filters chunks) r (rw e at m)) [
              | inl k ↦ result_of-Found conn filters c (fts query c) r (listed c (inl refl)) e k
              | inr k ↦ matching-Found conn query filters chunks r (λ d n. listed d (inr n)) k
            ]
        | inr e ↦ matching-Found conn query filters chunks r (λ d n. listed d (inr n)) (rw e at m)
      ]

  pub search_documents-Found :
      (conn : Database) (query : String) (filters : DocumentSearchFilter) (top_k : ℕ)
      (results : List DocumentSearchResult)
      → search_documents tokens_of fts conn query filters top_k ≡ ok results
      → (length results ≤ top_k)
        × ((r : DocumentSearchResult) → Has r results → Found conn filters r)
  unfolding search_documents
  search_documents-Found conn query filters top_k results h =
      elim (Bool-cases (leb 1 top_k && leb top_k max_top_k)) [
        | inr e ↦ absurd (ground arith)
        | inl e ↦
            let (terms, k, listed) =
              >>=-eq-ok (normalize_query tokens_of fts query) _ (rw e at h) in
            let all = sort_by ranks_before (matching tokens_of fts terms filters conn.chunks) in
            rw (← ok-injective listed) (
              take-length top_k all,
              λ r m.
                  matching-Found conn terms filters conn.chunks r (λ c n. n)
                    ((Has-sort_by ranks_before r
                        (matching tokens_of fts terms filters conn.chunks)).0
                      (take-Has top_k all r m)),
            )
      ]
