-- ===== src/Agent/Planner.antt =====
-- app/agent/planner.py
pub mod Executable
use Prim.Native.String.{◌++◌ as append}
use parcelpilot_ops_copilot.Prelude.{ℕ, String, Option, none, some, List, [], ◌∷◌, ◌++◌}
use parcelpilot_ops_copilot.Agent.Entities.{EntityResolution}
use parcelpilot_ops_copilot.Agent.Intent.{Intent}
use parcelpilot_ops_copilot.Agent.Requests.{Args, search_args, lookup_args, calculation_args}

pub record PlanStep : Type 0 where
  pub tool : String
  pub purpose : String
  pub args : Args

pub record Plan : Type 0 where
  pub intent : Intent
  pub steps : List PlanStep

abbrev pub lookup_order : String → PlanStep
lookup_order order_id = record {
  tool = "lookup_structured_data";
  purpose = append "resolve order " order_id;
  args = lookup_args "get_order" order_id;
}

abbrev pub lookup_ticket : String → PlanStep
lookup_ticket ticket_id = record {
  tool = "lookup_structured_data";
  purpose = append "resolve ticket " ticket_id;
  args = lookup_args "get_ticket" ticket_id;
}

abbrev pub lookup_account : String → PlanStep
lookup_account account_id = record {
  tool = "lookup_structured_data";
  purpose = append "resolve account " account_id;
  args = lookup_args "get_account" account_id;
}

abbrev pub search : String → String → Option (List String) → PlanStep
search query purpose source_types = record {
  tool = "search_documents";
  purpose = purpose;
  args = search_args query 5 source_types;
}

abbrev pub calculate : String → String → String → PlanStep
calculate calc_type entity_id purpose = record {
  tool = "calculate_support_outcome";
  purpose = purpose;
  args = calculation_args calc_type entity_id;
}

-- A loop that appends some steps for each id.
abbrev pub for_each : List String → (String → List PlanStep) → List PlanStep
for_each [] steps_for = []
for_each (id ∷ ids) steps_for = steps_for id ++ for_each ids steps_for

abbrev pub outcome_steps : String → String → String → List PlanStep
outcome_steps calc_type purpose order_id =
    lookup_order order_id ∷ calculate calc_type order_id (append purpose order_id) ∷ []

abbrev pub ticket_outcome_steps : String → String → String → List PlanStep
ticket_outcome_steps calc_type purpose ticket_id =
    lookup_ticket ticket_id ∷ calculate calc_type ticket_id (append purpose ticket_id) ∷ []

abbrev pub both_outcomes : String → List PlanStep
both_outcomes order_id =
    calculate "cancellation" order_id (append "cancellation outcome for " order_id)
    ∷ calculate "service_credit" order_id (append "service credit outcome for " order_id)
    ∷ []

abbrev pub steps_of : String → Intent → EntityResolution → List PlanStep
steps_of question Intent.cancellation e =
    for_each e.order_ids (outcome_steps "cancellation" "cancellation outcome for ")
    ++ search question "retrieve applicable cancellation policy/agreement" none ∷ []
steps_of question Intent.service_credit e =
    for_each e.order_ids (outcome_steps "service_credit" "service credit outcome for ")
    ++ search question "retrieve applicable service-credit policy/agreement" none ∷ []
steps_of question Intent.sla e =
    for_each e.ticket_ids (ticket_outcome_steps "sla" "SLA outcome for ")
    ++ search question "retrieve applicable SLA/first-response policy" none ∷ []
steps_of question Intent.severity e =
    for_each e.ticket_ids (ticket_outcome_steps "severity" "severity classification for ")
    ++ search question "retrieve severity definitions" (some ("support_policy" ∷ [])) ∷ []
steps_of question Intent.known_issue e =
    search question "retrieve product documentation / known issues" (some ("product_doc" ∷ [])) ∷ []
steps_of question Intent.order_investigation e =
    for_each e.order_ids (λ id. lookup_order id ∷ [])
    ++ search question "retrieve any relevant policy context" none ∷ []
steps_of question Intent.ticket_investigation e =
    for_each e.ticket_ids (λ id. lookup_ticket id ∷ [])
    ++ search question "retrieve any relevant policy context" none ∷ []
steps_of question Intent.account_investigation e =
    for_each e.account_ids (λ id. lookup_account id ∷ [])
    ++ search question "retrieve the account's agreement, if any" none ∷ []
steps_of question Intent.multi_source e =
    for_each e.order_ids (λ id. lookup_order id ∷ [])
    ++ for_each e.ticket_ids (λ id. lookup_ticket id ∷ [])
    ++ (search question "retrieve applicable policy across the referenced entities" none ∷ [])
    ++ for_each e.order_ids both_outcomes
    ++ for_each e.ticket_ids (λ id. calculate "sla" id (append "SLA outcome for " id) ∷ [])
steps_of question Intent.informational e =
    search question "retrieve relevant policy/document evidence" none ∷ []
steps_of question _ e = []

unfoldable pub build_plan : String → Intent → EntityResolution → Plan
build_plan question intent e = record { intent = intent; steps = steps_of question intent e }
