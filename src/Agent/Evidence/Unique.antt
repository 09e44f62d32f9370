-- ===== src/Agent/Evidence/Unique.antt =====
-- The citations of a pack: those of the results, each key once.
use parcelpilot_ops_copilot.Prelude.{
  ◌≡◌, ◌∙◌, ap, sym, inl, inr, refl, String, true, false, ◌||◌, Option, none, some, List, [], ◌∷◌,
  ◌++◌, map, Has, arith, Bool-cases, if◌then◌else◌, eq_refl, eq_iff,
}
use mathlib.Core.Path.{subst}
use mathlib.Core.Bool.{false≢true}
use mathlib.Core.List.{append-nil, append_assoc}
use parcelpilot_ops_copilot.Models.{EvidenceRef, Locator, page_section, table_record, no_locator}
use parcelpilot_ops_copilot.Agent.Entities.{EntityResolution}
use parcelpilot_ops_copilot.Agent.Intent.{Intent}
use parcelpilot_ops_copilot.Agent.Results.{
  ToolResult, ToolOutput, documents_output, records_output, outcome_output, issues_output,
}
use parcelpilot_ops_copilot.Agent.Evidence.{
  EvidencePack, cite_record, cite_result, add_output, add_result, add_results, same_key,
  same_locator, seen_key, deduped, empty_pack, build_evidence_pack,
}

-- What a result cites, if it is a success.
abbrev pub cited_in : Option ToolOutput → List EvidenceRef
cited_in none = []
cited_in (some (records_output output)) = map cite_record output.records
cited_in (some (documents_output output)) = map cite_result output.results
cited_in (some (outcome_output output)) = output.evidence
cited_in (some (issues_output output)) = []

abbrev pub cited_by : List ToolResult → List EvidenceRef
cited_by [] = []
cited_by (result ∷ results) =
    (if result.success then cited_in result.output else []) ++ cited_by results

-- No later citation has the key of an earlier one.
abbrev MatchesNone : EvidenceRef → List EvidenceRef → Type 0
MatchesNone ref [] = Unit
MatchesNone ref (other ∷ others) = (same_key ref other ≡ false) × MatchesNone ref others

abbrev Unmatched : List EvidenceRef → Type 0
Unmatched [] = Unit
Unmatched (ref ∷ refs) = MatchesNone ref refs × Unmatched refs

-- No citation of the list has been seen.
abbrev Unseen : List EvidenceRef → List EvidenceRef → Type 0
Unseen seen [] = Unit
Unseen seen (ref ∷ refs) = (seen_key ref seen ≡ false) × Unseen seen refs

Unseen-split :
    (ref : EvidenceRef) (seen refs : List EvidenceRef)
    → Unseen (ref ∷ seen) refs
    → MatchesNone ref refs × Unseen seen refs
Unseen-split ref seen [] h = (tt, tt)
Unseen-split ref seen (other ∷ others) h =
    let rest = Unseen-split ref seen others h.1 in
    let fresh : same_key ref other ≡ false = ground arith in
    let unseen : seen_key other seen ≡ false = ground arith in ((fresh, rest.0), (unseen, rest.1))

deduped-Unmatched :
    (seen refs : List EvidenceRef) → Unseen seen (deduped seen refs) × Unmatched (deduped seen refs)
unfolding deduped
deduped-Unmatched seen [] = (tt, tt)
deduped-Unmatched seen (ref ∷ refs) = elim (Bool-cases (seen_key ref seen)) [
  | inl e ↦ rw e (deduped-Unmatched seen refs)
  | inr e ↦
      let ih = deduped-Unmatched (ref ∷ seen) refs in
      let split = Unseen-split ref seen (deduped (ref ∷ seen) refs) ih.0 in
      rw e ((e, split.1), (split.0, ih.1))
]

same_locator_refl : (l : Locator) → same_locator l l ≡ true
same_locator_refl (page_section p s) = rw (eq_refl s) (ground arith)
same_locator_refl (table_record a b) = rw (eq_refl a) (rw (eq_refl b) refl)
same_locator_refl no_locator = refl

same_key_refl : (ref : EvidenceRef) → same_key ref ref ≡ true
same_key_refl ref = rw (eq_refl ref.source_id) (same_locator_refl ref.locator)

first_kept :
    (seen refs : List EvidenceRef) (first : EvidenceRef)
    → (seen_key first (deduped seen (first ∷ refs)) || seen_key first seen) ≡ true
unfolding deduped
first_kept seen refs first =
    let self = same_key_refl first in
    elim (Bool-cases (seen_key first seen)) [ inl e ↦ ground arith | inr e ↦ rw e (ground arith) ]

deduped-keeps :
    (seen refs : List EvidenceRef) (ref : EvidenceRef)
    → Has ref refs
    → (seen_key ref (deduped seen refs) || seen_key ref seen) ≡ true
unfolding deduped
deduped-keeps seen [] ref m = absurd m
deduped-keeps seen (first ∷ refs) ref (inl e) =
    subst (λ x. (seen_key x (deduped seen (first ∷ refs)) || seen_key x seen) ≡ true) e
      (first_kept seen refs first)
deduped-keeps seen (first ∷ refs) ref (inr m) = elim (Bool-cases (seen_key first seen)) [
  | inl e ↦ rw e (deduped-keeps seen refs ref m)
  | inr e ↦ let ih = deduped-keeps (first ∷ seen) refs ref m in rw e (ground arith)
]

deduped-Has :
    (seen refs : List EvidenceRef) (ref : EvidenceRef) → Has ref (deduped seen refs) → Has ref refs
unfolding deduped
deduped-Has seen [] ref m = m
deduped-Has seen (first ∷ refs) ref m =
    ground (arith, deduped-Has seen refs ref, deduped-Has (first ∷ seen) refs ref)

output_added :
    (output : Option ToolOutput) (pack : EvidencePack)
    → (add_output output pack).citations ≡ pack.citations ++ cited_in output
output_added none pack = sym (append-nil pack.citations)
output_added (some (records_output output)) pack = refl
output_added (some (documents_output output)) pack = refl
output_added (some (outcome_output output)) pack = refl
output_added (some (issues_output output)) pack = sym (append-nil pack.citations)

added :
    (result : ToolResult) (pack : EvidencePack)
    → (add_result result pack).citations
      ≡ pack.citations ++ (if result.success then cited_in result.output else [])
added result pack = elim (Bool-cases result.success) [
  | inl e ↦ rw e (output_added result.output pack)
  | inr e ↦ rw e (sym (append-nil pack.citations))
]

gathered :
    (results : List ToolResult) (pack : EvidencePack)
    → (add_results results pack).citations ≡ pack.citations ++ cited_by results
gathered [] pack = sym (append-nil pack.citations)
gathered (result ∷ results) pack =
    let now = if result.success then cited_in result.output else [] in
    gathered results (add_result result pack)
    ∙ ap (λ xs. xs ++ cited_by results) (added result pack)
    ∙ append_assoc pack.citations now (cited_by results)

same_locator-eq : (a b : Locator) → same_locator a b ≡ true → a ≡ b
same_locator-eq (page_section p s) (page_section q u) h = ground (arith, eq_iff s u)
same_locator-eq (page_section p s) (table_record b c) h = cc
same_locator-eq (page_section p s) no_locator h = cc
same_locator-eq (table_record a b) (page_section p s) h = cc
same_locator-eq (table_record a b) (table_record c d) h = ground (arith, eq_iff a c, eq_iff b d)
same_locator-eq (table_record a b) no_locator h = cc
same_locator-eq no_locator (page_section p s) h = cc
same_locator-eq no_locator (table_record a b) h = cc
same_locator-eq no_locator no_locator h = refl

-- Two citations of one place.
abbrev pub SameKey : EvidenceRef → EvidenceRef → Type 0
SameKey a b = (a.source_id ≡ b.source_id) × (a.locator ≡ b.locator)

same_key-SameKey : (a b : EvidenceRef) → same_key a b ≡ true → SameKey a b
same_key-SameKey a b h = (
  ground (arith, eq_iff a.source_id b.source_id),
  same_locator-eq a.locator b.locator (ground arith),
)

SameKey-same_key : (a b : EvidenceRef) → SameKey a b → same_key a b ≡ true
SameKey-same_key a b (s, l) = rw (s, l) (rw (eq_refl b.source_id) (same_locator_refl b.locator))

-- No later citation has the source and locator of an earlier one.
abbrev pub IsFresh : EvidenceRef → List EvidenceRef → Type 0
IsFresh ref [] = Unit
IsFresh ref (other ∷ others) = (¬ SameKey ref other) × IsFresh ref others

abbrev pub UniqueKeys : List EvidenceRef → Type 0
UniqueKeys [] = Unit
UniqueKeys (ref ∷ refs) = IsFresh ref refs × UniqueKeys refs

-- A citation of the same place is in the list.
abbrev pub HasKey : EvidenceRef → List EvidenceRef → Type 0
HasKey ref refs = (other : EvidenceRef) × Has other refs × SameKey other ref

MatchesNone-IsFresh :
    (ref : EvidenceRef) (refs : List EvidenceRef) → MatchesNone ref refs → IsFresh ref refs
MatchesNone-IsFresh ref [] h = tt
MatchesNone-IsFresh ref (other ∷ others) h =
    (λ k. false≢true (sym h.0 ∙ SameKey-same_key ref other k), MatchesNone-IsFresh ref others h.1)

Unmatched-UniqueKeys : (refs : List EvidenceRef) → Unmatched refs → UniqueKeys refs
Unmatched-UniqueKeys [] h = tt
Unmatched-UniqueKeys (ref ∷ refs) h =
    (MatchesNone-IsFresh ref refs h.0, Unmatched-UniqueKeys refs h.1)

seen_key-HasKey :
    (ref : EvidenceRef) (refs : List EvidenceRef) → seen_key ref refs ≡ true → HasKey ref refs
seen_key-HasKey ref [] h = absurd (false≢true h)
seen_key-HasKey ref (other ∷ others) h = elim (Bool-cases (same_key other ref)) [
  | inl e ↦ (other, inl refl, same_key-SameKey other ref e)
  | inr e ↦ let (found, m, k) = seen_key-HasKey ref others (ground arith) in (found, inr m, k)
]

-- The citations of an evidence pack have pairwise different pairs of source and locator; each is
-- one that a successful tool result cites, and each that a result cites has its source and locator
-- among them.
pub build_evidence_pack-UniqueKeys :
    (question : String) (intent : Intent) (entities : EntityResolution) (results : List ToolResult)
    (ref : EvidenceRef)
    → let citations = (build_evidence_pack question intent entities results).citations in
      UniqueKeys citations
      × (Has ref citations → Has ref (cited_by results))
      × (Has ref (cited_by results) → HasKey ref citations)
unfolding build_evidence_pack
build_evidence_pack-UniqueKeys question intent entities results ref =
    rw (gathered results (empty_pack question intent entities)) (
      Unmatched-UniqueKeys (deduped [] (cited_by results))
          (deduped-Unmatched [] (cited_by results)).1,
      deduped-Has [] (cited_by results) ref,
      λ m.
          let k = deduped-keeps [] (cited_by results) ref m in
          seen_key-HasKey ref (deduped [] (cited_by results)) (ground arith),
    )
