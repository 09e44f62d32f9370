-- ===== src/Lib.antt =====
-- ParcelPilot Ops Copilot: the deterministic core of a support assistant for a parcel carrier. The
-- assistant reads accounts, orders and tickets from SQLite under the caller's account scope, decides
-- which policy or agreement governs, computes deadlines, fees and credits, and prepares actions that
-- a human confirms before they are executed. A language model words the answers.
--
-- The parts, and the files that model them:
--   Models (Enums, Records): app/models, app/authorization/context.py, app/actions/models.py.
--   Result: app/errors.py, the exceptions as values, and the chain of calls that may raise.
--   Repository: app/structured_data/repository.py and app/documents/source_repository.py: _check_scope,
--     get_account, get_order, get_ticket, get_source, search_orders, search_tickets.
--   Policy: app/policy/applicability.py: resolve_applicability and its registry.
--   Domain: app/domain: outcomes.py, evidence.py, severity.py (classify_severity), sla.py
--     (calculate_sla), cancellation.py (evaluate_cancellation), service_credit.py
--     (evaluate_service_credit).
--   Actions: app/actions: store.py, workflow.py (prepare_escalation, confirm_action, execute_action).
--     Actions.Race runs many of these calls at once, each a thread of two steps, its reads and its
--     conditional UPDATE, under any schedule.
--   Routes: app/api/routes/actions.py and app/api/demo_users.py: the four routes over the workflow, with
--     their ownership checks (_require_owner_or_admin, _get_owned_action_or_404). Routes.Radar, Routes.Chat,
--     Routes.Users and Routes.Handlers: the routes of app/api/routes/radar.py and chat.py,
--     get_current_user of app/api/deps.py and the statuses of app/api/error_handlers.py.
--   Detection (Alert, Tickets, Orders, KnownIssues, Service): app/detection: models.py, fingerprint.py,
--     the six rules of rules.py, and run_operations_radar of service.py, which runs them.
--   Documents: app/documents/retrieval.py: search_documents. Documents.SlaTable: app/documents/sla_table.py.
--   Llm (Types, Pricing, Gateway, Anthropic): app/llm: types.py, base.py, error_classification.py,
--     pricing.py, ParcelPilotLLMGateway.complete, and the retries of AnthropicProvider.complete.
--   Agent (Entities, Intent, Requests, Planner, Tools, Results, Registry, Evidence, Sufficiency, Budget,
--     Composer, State, Orchestrator): app/agent. run_agent resolves the entities of a question, plans
--     tool calls, runs them by execute_tool, gathers their evidence, passes it through the trust gate
--     and lets a language model word the answer, whose citations it checks. Each early return of
--     run_agent is a stage of Agent.Orchestrator, and Agent.Orchestrator.Machine has its transitions.
--   TrustGate: app/agent/trust_gate.py: enforce_trust_gate.
--   Prelude holds the lists, tests, signed numbers and sorting that the parts share, and Examples one
--   small database on which the theorems are applied.
--
-- How the code is read:
--   An exception is a value of Error, and a function that may raise returns a Result. A call that
--   writes gives the new Database with its outcome.
--   A table is the list of its rows in the order of a scan, with rows already converted to records.
--   ORDER BY sorts; where it leaves a tie, the scan's order stands.
--   An instant is a number of microseconds of the clock's wall time, a date its day. A difference of
--   instants is a signed number of microseconds, where the code divides it into minutes or hours.
--   Money is in units of 1/10,000 rupee and a percentage in whole percents, so that amounts are exact
--   where the code uses floats.
--   A text that is only printed (reasons, messages) is a constructor that holds what it prints.
--   Parameters stand for what is not in the repository: `search` for re.search, `hash` for the SHA-256
--   digest of a payload's JSON, `sha16` for the first digits of a text's digest, `decimal` for str of a
--   number, `hex` for the digits of a fresh uuid4, `fts` for what the full-text index finds, fields of
--   Texts, IssueTexts, SlaTexts and Runtime for regular expressions and methods of str, `client` for the client of
--   the Anthropic SDK, `uniform` for random.uniform, and Clock for the readings of the clock of the
--   machine. No law of them is assumed, but that uniform stays within its bound.
--   The n-th call of a provider in a run may differ from the others; the tools read one state of the
--   database in a run.
--   A score, a cost and a time are in millionths of their unit, exact where the code uses floats.
--   The registry of default sources is a total function on topics.
--   The read that follows a lost UPDATE writes nothing, and is taken in the step of the UPDATE.
--   There is no fuel: every function is structurally recursive. A retry loop recurses on the attempts
--   that are left.
--
-- Not modelled: text of rows and JSON, PDF and workbook parsing, ingestion, the prose summary of the
-- radar, the mock provider, web framework wiring, evaluation scripts, tracing and logging.
pub mod Prelude
pub mod Result
pub mod Llm
pub mod Agent
pub mod Models
pub mod Repository
pub mod Policy
pub mod Documents
pub mod Domain
pub mod Actions
pub mod Examples
pub mod Routes
pub mod Detection
pub mod TrustGate
