-- ===== src/Agent/Sufficiency.antt =====
-- app/agent/evidence_sufficiency.py: whether documents alone support an answer. `words` is
-- `_TOKEN.findall` and `lower` is str.lower.
use parcelpilot_ops_copilot.Prelude.{
  ℕ, String, Bool, true, false, not, ◌&&◌, List, [], ◌∷◌, filter, length, leb, contains,
  if◌then◌else◌,
}
use parcelpilot_ops_copilot.Prelude.Int.{ℤ, negsuc}
use parcelpilot_ops_copilot.Documents.{DocumentSearchResult, le_ℤ}
use parcelpilot_ops_copilot.Detection.Alert.{distinct}

abbrev pub stopwords : List String
stopwords =
    "what" ∷ "when" ∷ "where" ∷ "which" ∷ "who" ∷ "whom" ∷ "whose" ∷ "why" ∷ "how" ∷ "does" ∷ "did"
    ∷ "done" ∷ "have" ∷ "has" ∷ "had" ∷ "will" ∷ "would" ∷ "should" ∷ "could" ∷ "shall" ∷ "must"
    ∷ "about" ∷ "explain" ∷ "describe" ∷ "tell" ∷ "please" ∷ "the" ∷ "a" ∷ "an" ∷ "and" ∷ "or"
    ∷ "of" ∷ "to" ∷ "for" ∷ "in" ∷ "on" ∷ "at" ∷ "is" ∷ "are" ∷ "was" ∷ "were" ∷ "be" ∷ "been"
    ∷ "being" ∷ "this" ∷ "that" ∷ "these" ∷ "those" ∷ "with" ∷ "by" ∷ "as" ∷ "it" ∷ "its" ∷ "from"
    ∷ "into" ∷ "over" ∷ "under" ∷ "than" ∷ "then" ∷ "there" ∷ "here" ∷ "some" ∷ "any" ∷ "all"
    ∷ "each" ∷ "every" ∷ "not" ∷ "never" ∷ "just" ∷ "only" ∷ "also" ∷ "very" ∷ "more" ∷ "most"
    ∷ "such" ∷ []

-- _STRONG_SCORE, -3.0
abbrev pub strong_score : ℤ
strong_score = negsuc 2999999

abbrev pub min_shared_tokens : ℕ
min_shared_tokens = 2

abbrev pub min_corroborating_chunks : ℕ
min_corroborating_chunks = 2

abbrev pub larger : ℕ → ℕ → ℕ
larger m n = if leb m n then n else m

abbrev pub smaller : ℤ → ℤ → ℤ
smaller m n = if le_ℤ m n then m else n

-- `min(chunk.score for chunk in document_evidence)` of a first chunk and the others
abbrev pub best_score : ℤ → List DocumentSearchResult → ℤ
best_score best [] = best
best_score best (chunk ∷ chunks) = best_score (smaller best chunk.score) chunks

module _ (words : String → List String) (lower : String → String) where
  abbrev pub significant_tokens : String → List String
  significant_tokens text = distinct (filter (λ t. not (contains t stopwords)) (words (lower text)))

  -- `len(query_tokens & _significant_tokens(chunk.snippet))`
  abbrev pub overlap : List String → DocumentSearchResult → ℕ
  overlap query_tokens chunk =
      length (filter (λ t. contains t (significant_tokens chunk.snippet)) query_tokens)

  abbrev pub best_overlap : List String → List DocumentSearchResult → ℕ
  best_overlap query_tokens [] = 0
  best_overlap query_tokens (chunk ∷ chunks) =
      larger (overlap query_tokens chunk) (best_overlap query_tokens chunks)

  abbrev pub supports : List String → List DocumentSearchResult → Bool
  supports query_tokens [] = false
  supports [] (chunk ∷ chunks) = false
  supports (token ∷ tokens) (chunk ∷ chunks) =
      if leb min_shared_tokens (best_overlap (token ∷ tokens) (chunk ∷ chunks))
      then true
      else le_ℤ (best_score chunk.score chunks) strong_score
        && leb min_corroborating_chunks (length (chunk ∷ chunks))

  unfoldable pub is_document_evidence_sufficient : String → List DocumentSearchResult → Bool
  is_document_evidence_sufficient question document_evidence =
      supports (significant_tokens question) document_evidence
