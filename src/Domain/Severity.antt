-- ===== src/Domain/Severity.antt =====
-- app/domain/severity.py. `search` is `pattern.search(text)` of Python's `re` under IGNORECASE, a
-- parameter that is given the pattern's text.
pub mod Unique
use Prim.Native.String.{◌++◌ as append}
use parcelpilot_ops_copilot.Prelude.{
  ℕ, String, Bool, true, false, Option, none, some, List, [], ◌∷◌, map, leb, eqb, filter, length,
  if◌then◌else◌,
}
use parcelpilot_ops_copilot.Prelude.Sort.{sort_by}
use parcelpilot_ops_copilot.Models.{Severity, p1, p2, p3, TrustState, Ticket, Database, EvidenceRef}
use parcelpilot_ops_copilot.Domain.Outcomes.{DecisionResult, Reason, CalculationInput}
use parcelpilot_ops_copilot.Domain.Evidence.{cite_document}

-- A pattern's text and the definition phrase that it is tied to.
abbrev pub Signal : Type 0
Signal = String × String

abbrev p1_outage : String
p1_outage = "complete production outage preventing all shipment creation for a customer"

abbrev p1_no_workaround : String
p1_no_workaround = "immediate material business risk with no workaround"

abbrev p1_security : String
p1_security = "confirmed security incident or suspected credential exposure"

abbrev p2_degraded : String
p2_degraded = "major feature unavailable or materially degraded for a customer"

abbrev p2_workaround : String
p2_workaround = "major feature unavailable or materially degraded ... or a workaround exists"

abbrev p3_howto : String
p3_howto = "how-to question"

abbrev p3_config : String
p3_config = "configuration request"

abbrev p3_minor : String
p3_minor = "minor defect ... limited operational impact"

abbrev pub signals : Severity → List Signal
signals p1 =
    ("\\bevery user\\b", p1_outage)
    ∷ ("\\ball\\b[^.]{0,40}\\bshipment creation\\b[^.]{0,20}\\bfail", p1_outage)
    ∷ ("\\bcannot create any shipment", p1_outage)
    ∷ ("\\bcomplete outage\\b", p1_outage)
    ∷ ("\\bno workaround\\b", p1_no_workaround)
    ∷ ("\\bapi key\\b", p1_security)
    ∷ ("\\bcredential\\b", p1_security)
    ∷ ("\\bsecurity incident\\b", p1_security)
    ∷ ("\\b(leaked|exposed|posted)\\b[^.]{0,40}\\b(key|token|secret|password)\\b", p1_security)
    ∷ []
signals p2 =
    ("(?<!no )workaround\\b", p2_workaround)
    ∷ ("\\bstill works\\b", "core operations remain possible or a workaround exists")
    ∷ ("\\b(some|many)\\s+(users?|customers?)\\b", p2_degraded)
    ∷ ("\\bintermittent(ly)?\\b", p2_degraded)
    ∷ ("\\bfails? for\\b[^.]{0,30}\\b(rows?|records?|files?)\\b", p2_degraded)
    ∷ ("\\bpartial(ly)?\\b", p2_degraded)
    ∷ []
signals p3 =
    ("\\bhow do (we|i)\\b", p3_howto)
    ∷ ("\\bhow to\\b", p3_howto)
    ∷ ("\\bbilling[- ]contact\\b", p3_config)
    ∷ ("\\bconfiguration\\b", p3_config)
    ∷ ("\\bstill shows\\b", p3_minor)
    ∷ ("\\b(cosmetic|typo|minor)\\b", p3_minor)
    ∷ []

pub record SeverityOutcome : Type 0 where
  pub severity : Option Severity
  pub matched_signal_count : List (Severity × ℕ)
  pub matched_definition : Option String

-- A severity with the definitions that its patterns hit, an item of `hits`.
abbrev pub Hits : Type 0
Hits = Severity × List String

-- Before or beside, in `sorted(hits.items(), key=lambda kv: len(kv[1]), reverse=True)`: more hits
-- come first, and equals keep their order.
abbrev pub more_hits : Hits → Hits → Bool
more_hits (sev, defs) (sev', defs') = leb (length defs') (length defs)

abbrev pub undecided :
    List (Severity × ℕ) → Reason → List EvidenceRef → DecisionResult SeverityOutcome
undecided counts reason evidence = record {
  result =
      some (record { severity = none; matched_signal_count = counts; matched_definition = none });
  trust_state = TrustState.uncertain;
  reason = reason;
  evidence = evidence;
  assumptions = [];
  conflicts = [];
  calculation_inputs = [];
  needs_human_review = true;
}

abbrev decided :
    List (Severity × ℕ) → Severity → String → List EvidenceRef → DecisionResult SeverityOutcome
decided counts top definition evidence = record {
  result = some (record {
    severity = some top;
    matched_signal_count = counts;
    matched_definition = some definition;
  });
  trust_state = TrustState.confident;
  reason = Reason.matched_signal definition top;
  evidence = evidence;
  assumptions = [];
  conflicts = [];
  calculation_inputs = CalculationInput.signal_counts counts ∷ [];
  needs_human_review = false;
}

-- The rest of the function, by the two leaders of the ranking.
abbrev judge : List (Severity × ℕ) → List EvidenceRef → Hits → Hits → DecisionResult SeverityOutcome
judge counts evidence (top, []) (second, runner_up) = undecided counts Reason.no_signal evidence
judge counts evidence (top, definition ∷ more) (second, runner_up) =
    if leb (length (definition ∷ more)) (length runner_up)
    then undecided counts (Reason.signals_tied top second (length (definition ∷ more))) evidence
    else decided counts top definition evidence

-- The ranking always holds the three severities.
abbrev judge_ranking :
    List (Severity × ℕ) → List EvidenceRef → List Hits → DecisionResult SeverityOutcome
judge_ranking counts evidence (first ∷ second ∷ rest) = judge counts evidence first second
judge_ranking counts evidence (first ∷ []) = judge counts evidence first (p1, [])
judge_ranking counts evidence [] = undecided counts Reason.no_signal evidence

abbrev definition_evidence : Option Database → List EvidenceRef
definition_evidence none = []
definition_evidence (some conn) = cite_document conn "SRC-01" "2" none ∷ []

-- `f"{ticket.subject} {ticket.description}"`
abbrev pub text_of : Ticket → String
text_of ticket = append ticket.subject (append " " ticket.description)

module _ (search : String → String → Bool) where
  -- `hits[severity]`
  unfoldable pub hits_for : String → Severity → List String
  hits_for text severity = map (λ s. s.1) (filter (λ s. search s.0 text) (signals severity))

  abbrev hits_of : Ticket → List Hits
  hits_of ticket =
      map (λ severity. (severity, hits_for (text_of ticket) severity)) (p1 ∷ p2 ∷ p3 ∷ [])

  abbrev pub counts_of : Ticket → List (Severity × ℕ)
  counts_of ticket = map (λ kv. (kv.0, length kv.1)) (hits_of ticket)

  unfoldable pub classify_severity : Ticket → Option Database → DecisionResult SeverityOutcome
  classify_severity ticket conn =
      judge_ranking (counts_of ticket) (definition_evidence conn)
        (sort_by more_hits (hits_of ticket))
