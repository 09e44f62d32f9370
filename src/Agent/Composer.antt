-- ===== src/Agent/Composer.antt =====
-- app/agent/response_composer.py: the prompts, each a list of what its lines print, and the request that
-- is sent with one. `word_count` is `len(text.split())` on the text of a prompt.
use parcelpilot_ops_copilot.Prelude.{
  ℕ, ◌+◌, String, Option, some, List, [], ◌∷◌, ◌++◌, map, if◌then◌else◌,
}
use parcelpilot_ops_copilot.Models.{TrustState}
use parcelpilot_ops_copilot.Domain.Outcomes.{Conflict, Assumption}
use parcelpilot_ops_copilot.Llm.{LlmRequest, MessageRole}
use parcelpilot_ops_copilot.Agent.Tools.{Row, Payload}
use parcelpilot_ops_copilot.Agent.Evidence.{EvidencePack, citation_key}
use parcelpilot_ops_copilot.Agent.Budget.{approx_tokens}

pub data PromptLine : Type 0 where
  question_line : String → PromptLine
  blank_line already_executed_notice : PromptLine
  evidence_header records_header results_header assumptions_header conflicts_header : PromptLine
  -- the marker and the note of a citation
  evidence_line : String → Option String → PromptLine
  record_line : Row → PromptLine
  result_line : Payload → PromptLine
  assumption_line : Assumption → PromptLine
  conflict_line : Conflict → PromptLine
  trust_line : TrustState → PromptLine
  review_notice answer_instruction repair_notice : PromptLine
  invalid_markers_line : List String → PromptLine
  previous_answer_line : String → PromptLine
  repair_instruction : TrustState → PromptLine

pub data PromptText : Type 0 where
  -- the file of a prompt: its name and version
  prompt_file : String → String → PromptText
  prompt_lines : List PromptLine → PromptText

-- `load_prompt(_SYSTEM_PROMPT_NAME)` in the version of CURRENT_VERSIONS
abbrev pub system_prompt : PromptText
system_prompt = prompt_file "support_agent_system" "v2"

-- A block is left out when there is nothing to list in it.
abbrev pub block : {A : Type 0} → PromptLine → (A → PromptLine) → List A → List PromptLine
block header line [] = []
block header line (a ∷ items) = header ∷ (map line (a ∷ items) ++ blank_line ∷ [])

module _ (decimal : ℕ → String) where
  unfoldable pub render_evidence_blocks : EvidencePack → List PromptLine
  render_evidence_blocks pack =
      block evidence_header (λ ref. evidence_line (citation_key decimal ref) ref.note)
        pack.citations
      ++ block records_header record_line pack.structured_facts
      ++ block results_header result_line pack.domain_results
      ++ block assumptions_header assumption_line pack.assumptions
      ++ block conflicts_header conflict_line pack.conflicts

  unfoldable pub render_user_prompt : EvidencePack → TrustState → PromptText
  render_user_prompt pack trust_state = prompt_lines (
      (question_line pack.question ∷ blank_line ∷ already_executed_notice ∷ blank_line ∷ [])
      ++ render_evidence_blocks pack
      ++ (trust_line trust_state ∷ [])
      ++ (if pack.needs_human_review then review_notice ∷ [] else [])
      ++ (answer_instruction ∷ []))

  unfoldable pub render_repair_prompt :
      EvidencePack → TrustState → String → List String → PromptText
  render_repair_prompt pack trust_state previous_answer invalid = prompt_lines (
      (question_line pack.question
        ∷ blank_line
        ∷ already_executed_notice
        ∷ blank_line
        ∷ repair_notice
        ∷ blank_line
        ∷ invalid_markers_line invalid
        ∷ blank_line
        ∷ [])
      ++ render_evidence_blocks pack
      ++ (previous_answer_line previous_answer ∷ blank_line ∷ repair_instruction trust_state ∷ []))

  unfoldable pub estimate_prompt_tokens : (PromptText → ℕ) → EvidencePack → TrustState → ℕ
  estimate_prompt_tokens word_count pack trust_state =
      approx_tokens (word_count system_prompt)
      + approx_tokens (word_count (render_user_prompt pack trust_state))

-- The request of _call_llm.
abbrev pub request_of : PromptText → String → ℕ → LlmRequest PromptText
request_of user_prompt model max_output_tokens = record {
  messages =
      record { role = MessageRole.system_message; content = system_prompt }
      ∷ record { role = MessageRole.user_message; content = user_prompt }
      ∷ [];
  model = model;
  max_output_tokens = max_output_tokens;
  max_retries = 2;
  prompt_version = some "support_agent_system_v2";
}
