-- ===== src/Domain/Severity/Unique.antt =====
-- When classify_severity of app/domain/severity.py assigns a severity.
use parcelpilot_ops_copilot.Prelude.{
  ℕ, ◌<◌, String, Bool, ◌≡◌, ◌≢◌, ◌↔◌, Option, none, some, List, [], ◌∷◌, arith, ltb, ◌&&◌, length,
  if◌then◌else◌,
}
use parcelpilot_ops_copilot.Prelude.Sort.{sort_by}
use parcelpilot_ops_copilot.Models.{Severity, p1, p2, p3, Ticket, Database, EvidenceRef}
use parcelpilot_ops_copilot.Domain.Outcomes.{DecisionResult}
use parcelpilot_ops_copilot.Domain.Severity.{
  SeverityOutcome, more_hits, judge_ranking, definition_evidence, hits_for, text_of,
  classify_severity, counts_of,
}

abbrev severity_in : Option SeverityOutcome → Option Severity
severity_in none = none
severity_in (some outcome) = outcome.severity

-- The severity that a decision assigns, if any.
abbrev pub assigned : DecisionResult SeverityOutcome → Option Severity
assigned d = severity_in d.result

-- The strict leader of three counts.
abbrev leader : ℕ → ℕ → ℕ → Option Severity
leader a b c =
    if ltb b a && ltb c a
    then some p1
    else if ltb a b && ltb c b
    then some p2
    else if ltb a c && ltb b c
    then some p3
    else none

judge_ranking-leader :
    (counts : List (Severity × ℕ)) (evidence : List EvidenceRef) (a b c : List String)
    → assigned
        (judge_ranking counts evidence (sort_by more_hits ((p1, a) ∷ (p2, b) ∷ (p3, c) ∷ [])))
      ≡ leader (length a) (length b) (length c)
unfolding sort_by
judge_ranking-leader counts evidence a b c = ground arith

leader-leads :
    (n : Severity → ℕ) (s other : Severity)
    → leader (n p1) (n p2) (n p3) ≡ some s
    → other ≢ s
    → n other < n s
leader-leads n p1 other h ne = ground arith
leader-leads n p2 other h ne = ground arith
leader-leads n p3 other h ne = ground arith

leads-leader :
    (n : Severity → ℕ) (s : Severity)
    → ((other : Severity) → other ≢ s → n other < n s)
    → leader (n p1) (n p2) (n p3) ≡ some s
leads-leader n p1 h = ground (arith, h p2 (λ e. cc), h p3 (λ e. cc))
leads-leader n p2 h = ground (arith, h p1 (λ e. cc), h p3 (λ e. cc))
leads-leader n p3 h = ground (arith, h p1 (λ e. cc), h p2 (λ e. cc))

module _ (search : String → String → Bool) (ticket : Ticket) where
  -- How many patterns of a severity the ticket's text matches.
  abbrev pub signal_count : Severity → ℕ
  signal_count severity = length (hits_for search (text_of ticket) severity)

  -- A severity is assigned exactly when more of its patterns match than of either other severity;
  -- so a tie at the top, or no match at all, assigns none.
  pub assigned_iff_leads :
      (conn : Option Database) (s : Severity)
      → (assigned (classify_severity search ticket conn) ≡ some s)
        ↔ ((other : Severity) → other ≢ s → signal_count other < signal_count s)
  unfolding classify_severity
  assigned_iff_leads conn s =
      let h : assigned (classify_severity search ticket conn)
          ≡ leader (signal_count p1) (signal_count p2) (signal_count p3) =
        judge_ranking-leader (counts_of search ticket) (definition_evidence conn)
          (hits_for search (text_of ticket) p1) (hits_for search (text_of ticket) p2)
          (hits_for search (text_of ticket) p3) in
      rw h (λ e other ne. leader-leads signal_count s other e ne, leads-leader signal_count s)
