-- ===== src/Agent/Evidence.antt =====
-- app/agent/evidence_pack.py, and app/agent/citations.py: the keys of citations and the check of an
-- answer's markers. `decimal` is `str` on a
-- natural number, and `markers` is `_CITATION_MARKER.findall`.
-- `account_scope` and `snapshot_time`, which nothing reads from a pack, are left out.
pub mod Marked
pub mod Unique
use Prim.Native.Char.{Char, code}
use Prim.Native.String
use Prim.Native.String.{◌++◌ as append}
use parcelpilot_ops_copilot.Prelude.{
  ℕ, String, Bool, true, false, not, ◌&&◌, ◌||◌, eqb, Option, none, some, List, [], ◌∷◌, ◌++◌, map,
  filter, contains, if◌then◌else◌, ◌==◌,
}
use parcelpilot_ops_copilot.Models.{
  EvidenceRef, EvidenceKind, Locator, page_section, table_record, no_locator, TrustState,
}
use parcelpilot_ops_copilot.Domain.Outcomes.{Conflict, Assumption}
use parcelpilot_ops_copilot.Domain.Evidence.{cite_structured}
use parcelpilot_ops_copilot.Documents.{DocumentSearchResult}
use parcelpilot_ops_copilot.Agent.Entities.{EntityResolution, nonempty}
use parcelpilot_ops_copilot.Agent.Intent.{Intent}
use parcelpilot_ops_copilot.Agent.Tools.{
  Row, account_row, order_row, ticket_row, Payload, CalculateSupportOutcomeResponse,
}
use parcelpilot_ops_copilot.Agent.Results.{
  ToolResult, ToolOutput, documents_output, records_output, outcome_output, issues_output,
}

pub record EvidencePack : Type 0 where
  pub question : String
  pub intent : Intent
  pub entities : EntityResolution
  pub structured_facts : List Row
  pub document_evidence : List DocumentSearchResult
  pub domain_results : List Payload
  pub domain_trust_states : List TrustState
  pub citations : List EvidenceRef
  pub assumptions : List Assumption
  pub conflicts : List Conflict
  pub needs_human_review : Bool

-- _cite_record
abbrev pub cite_record : Row → EvidenceRef
cite_record (account_row row) = cite_structured "accounts" row.account_id none
cite_record (order_row row) = cite_structured "orders" row.order_id none
cite_record (ticket_row row) = cite_structured "tickets" row.ticket_id none

-- `{doc.section}`, which prints a missing section as None
abbrev section_text : Option String → String
section_text none = "None"
section_text (some section) = section

abbrev pub cite_result : DocumentSearchResult → EvidenceRef
cite_result doc = record {
  kind = EvidenceKind.document;
  source_id = doc.source_id;
  locator = Locator.page_section doc.page (section_text doc.section);
  note = some doc.snippet;
}

abbrev some_payload : Option Payload → List Payload
some_payload none = []
some_payload (some payload) = payload ∷ []

abbrev pub add_outcome : CalculateSupportOutcomeResponse → EvidencePack → EvidencePack
add_outcome output pack = record pack {
  domain_results = pack.domain_results ++ some_payload output.result;
  domain_trust_states = pack.domain_trust_states ++ output.trust_state ∷ [];
  citations = pack.citations ++ output.evidence;
  assumptions = pack.assumptions ++ output.assumptions;
  conflicts = pack.conflicts ++ output.conflicts;
  needs_human_review = pack.needs_human_review || output.needs_human_review;
}

-- The branch for a tool's output; none is for detect_issues.
abbrev pub add_output : Option ToolOutput → EvidencePack → EvidencePack
add_output none pack = pack
add_output (some (records_output output)) pack = record pack {
  structured_facts = pack.structured_facts ++ output.records;
  citations = pack.citations ++ map cite_record output.records;
}
add_output (some (documents_output output)) pack = record pack {
  document_evidence = pack.document_evidence ++ output.results;
  citations = pack.citations ++ map cite_result output.results;
}
add_output (some (outcome_output output)) pack = add_outcome output pack
add_output (some (issues_output output)) pack = pack

abbrev pub add_result : ToolResult → EvidencePack → EvidencePack
add_result result pack = if result.success then add_output result.output pack else pack

abbrev pub add_results : List ToolResult → EvidencePack → EvidencePack
add_results [] pack = pack
add_results (result ∷ results) pack = add_results results (add_result result pack)

-- Equality of the keys `(ref.source_id, ref.locator)`.
abbrev pub same_locator : Locator → Locator → Bool
same_locator (page_section p s) (page_section q t) = eqb p q && s == t
same_locator (table_record a b) (table_record c d) = a == c && b == d
same_locator no_locator no_locator = true
same_locator _ _ = false

abbrev pub same_key : EvidenceRef → EvidenceRef → Bool
same_key a b = a.source_id == b.source_id && same_locator a.locator b.locator

abbrev pub seen_key : EvidenceRef → List EvidenceRef → Bool
seen_key ref [] = false
seen_key ref (other ∷ others) = same_key other ref || seen_key ref others

-- The loop that keeps the first citation of each key.
unfoldable pub deduped : List EvidenceRef → List EvidenceRef → List EvidenceRef
deduped seen [] = []
deduped seen (ref ∷ refs) =
    let kept = ref ∷ deduped (ref ∷ seen) refs in
    let rest = deduped seen refs in if seen_key ref seen then rest else kept

abbrev pub empty_pack : String → Intent → EntityResolution → EvidencePack
empty_pack question intent entities = record {
  question = question;
  intent = intent;
  entities = entities;
  structured_facts = [];
  document_evidence = [];
  domain_results = [];
  domain_trust_states = [];
  citations = [];
  assumptions = [];
  conflicts = [];
  needs_human_review = false;
}

unfoldable pub build_evidence_pack :
    String → Intent → EntityResolution → List ToolResult → EvidencePack
build_evidence_pack question intent entities tool_results =
    let pack = add_results tool_results (empty_pack question intent entities) in
    record pack { citations = deduped [] pack.citations }

-- `m.split(":")[0]`
abbrev pub before_colon : String → String
before_colon String.[] = String.[]
before_colon (String.◌∷◌ c s) =
    let rest = String.◌∷◌ c (before_colon s) in if eqb (code c) 58 then String.[] else rest

module _ (decimal : ℕ → String) where
  abbrev pub key_of : String → Locator → String
  key_of source_id (page_section page section) =
      append source_id (append ":p" (append (decimal page) (append ":" section)))
  key_of source_id (table_record table record_id) =
      append source_id (append ":" (append table (append ":" record_id)))
  key_of source_id no_locator = source_id

  abbrev pub citation_key : EvidenceRef → String
  citation_key ref = key_of ref.source_id ref.locator

  -- `m not in known and m.split(":")[0] not in known_source_ids`, negated
  abbrev pub is_known : List EvidenceRef → String → Bool
  is_known citations marker =
      contains marker (map citation_key citations)
      || contains (before_colon marker) (map (λ ref. ref.source_id) citations)

  module _ (markers : String → List String) where
    -- `invalid_markers`; the check is `valid` when there are none.
    unfoldable pub invalid_markers : String → EvidencePack → List String
    invalid_markers text pack =
        filter (λ marker. not (is_known pack.citations marker)) (markers text)
