-- ===== src/Domain/Evidence.antt =====
-- app/domain/evidence.py: citations built from the database.
use parcelpilot_ops_copilot.Prelude.{ℕ, String, Option, none, some, ◌&&◌, ◌==◌, find}
use parcelpilot_ops_copilot.Models.{Database, DocumentChunk, EvidenceRef, EvidenceKind, Locator}
use parcelpilot_ops_copilot.Models.Sql.{column_is}

abbrev page_of : Option DocumentChunk → ℕ
page_of none = 1
page_of (some chunk) = chunk.page

unfoldable pub cite_document : Database → String → String → Option String → EvidenceRef
cite_document conn source_id section note = record {
  kind = EvidenceKind.document;
  source_id = source_id;
  locator =
      Locator.page_section
        (page_of (
          find (λ chunk. chunk.source_id == source_id && column_is chunk.section section)
            conn.chunks))
        section;
  note = note;
}

unfoldable pub cite_structured : String → String → Option String → EvidenceRef
cite_structured table record_id note = record {
  kind = EvidenceKind.structured;
  source_id = "SRC-07";
  locator = Locator.table_record table record_id;
  note = note;
}
