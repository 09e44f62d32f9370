-- ===== src/Examples/Evidence.antt =====
-- Tool calls, evidence and a search, on concrete inputs.
use parcelpilot_ops_copilot.Documents.{DocumentSearchResult, le_ℤ, search_documents}
use parcelpilot_ops_copilot.Prelude.Sort.{sort_by, insert_by}
use parcelpilot_ops_copilot.Prelude.{
  ◌≡◌, ◌≤◌, ◌↔◌, inl, refl, length, true, none, some, List, [], ◌∷◌, Has, ◌*◌,
}
use parcelpilot_ops_copilot.Prelude.Int.{negsuc}
use parcelpilot_ops_copilot.Models.{
  DocumentChunk, Database, EvidenceRef, hour, current_source, support_policy, policy_current,
}
use parcelpilot_ops_copilot.Agent.Intent.{Intent}
use parcelpilot_ops_copilot.Agent.Requests.{Args, lookup_args, LookupKind, SearchDocumentsRequest}
use parcelpilot_ops_copilot.Agent.Tools.{
  order_row, SearchDocumentsResponse, search_documents_tool, min_relevance_score,
}
use parcelpilot_ops_copilot.Agent.Tools.Scoped.{may_read, search_documents_tool_scoped}
use parcelpilot_ops_copilot.Agent.Results.{ToolOutput, records_output, ToolResult, tool_ok}
use parcelpilot_ops_copilot.Agent.Registry.{execute_tool}
use parcelpilot_ops_copilot.Agent.Registry.Normalized.{Normalized, Ran, execute_tool-Normalized}
use parcelpilot_ops_copilot.Agent.Evidence.{build_evidence_pack, cite_record}
use parcelpilot_ops_copilot.Agent.Evidence.Unique.{
  UniqueKeys, HasKey, cited_by, build_evidence_pack-UniqueKeys,
}
use parcelpilot_ops_copilot.Examples.Scenario.{northstar_agent, late_order, store}
use parcelpilot_ops_copilot.Examples.Agent.{services, entities, question}

abbrev order_args : Args
order_args = lookup_args "get_order" "ORD-1"

abbrev order_output : ToolOutput
order_output =
    records_output
      (record { kind = LookupKind.get_order_kind; records = order_row late_order ∷ [] })

abbrev order_result : ToolResult
order_result =
    execute_tool services (λ attempt. 1000) store northstar_agent (8 * hour)
      "lookup_structured_data" order_args

execute_tool-Normalized_example :
    Normalized order_result
    × (order_result.attempts ≡ 1)
    × (order_result.output ≡ some order_output
        ↔ Ran services
            (λ attempt. 1000)
            store
            northstar_agent
            (8 * hour)
            "lookup_structured_data"
            order_args
            order_output)
execute_tool-Normalized_example =
    execute_tool-Normalized services (λ attempt. 1000) store northstar_agent (8 * hour)
      "lookup_structured_data" order_args order_output

abbrev citing : List ToolResult
citing =
    tool_ok "lookup_structured_data" order_output 1000 1
    ∷ tool_ok "lookup_structured_data" order_output 1000 1
    ∷ []

abbrev order_citation : EvidenceRef
order_citation = cite_record (order_row late_order)

build_evidence_pack-UniqueKeys_example :
    let citations = (build_evidence_pack question Intent.cancellation entities citing).citations in
    UniqueKeys citations
    × (Has order_citation citations → Has order_citation (cited_by citing))
    × (Has order_citation (cited_by citing) → HasKey order_citation citations)
build_evidence_pack-UniqueKeys_example =
    build_evidence_pack-UniqueKeys question Intent.cancellation entities citing order_citation

abbrev handbook : DocumentChunk
handbook = record {
  chunk_id = "SRC-03-1";
  source_id = "SRC-03";
  filename = "policy.pdf";
  page = 2;
  section = some "4";
  text = "Orders are cancelled free of charge before pickup.";
  status = current_source;
  source_type = support_policy;
  account_scope = none;
  effective_date = 0;
  authority_class = policy_current;
}

abbrev library : Database
library = record store { chunks = handbook ∷ [] }

abbrev search_request : SearchDocumentsRequest
search_request = record {
  query = "cancel";
  source_types = none;
  authority_classes = none;
  statuses = none;
  top_k = 5;
}

abbrev page : DocumentSearchResult
page = record {
  chunk_id = "SRC-03-1";
  source_id = "SRC-03";
  filename = "policy.pdf";
  page = 2;
  section = some "4";
  snippet = "cancel";
  score = negsuc 2999999;
  status = current_source;
  source_type = support_policy;
  authority_class = policy_current;
  effective_date = 0;
  account_scope = none;
}

abbrev found_pages : SearchDocumentsResponse
found_pages = record { query = "cancel"; results = page ∷ [] }

search_documents_tool_scoped_example :
    (length found_pages.results ≤ 5)
    × (le_ℤ page.score min_relevance_score ≡ true)
    × (may_read northstar_agent page.account_scope ≡ true)
    × ((chunk : DocumentChunk) × Has chunk library.chunks × (page.chunk_id ≡ chunk.chunk_id))
unfolding search_documents_tool search_documents sort_by insert_by
search_documents_tool_scoped_example =
    search_documents_tool_scoped services library northstar_agent (8 * hour) search_request
      found_pages page refl (inl refl)
