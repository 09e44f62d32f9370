-- ===== src/Detection/KnownIssues.antt =====
-- app/detection/rules.py: detect_known_issue_patterns. `ki_ids` is `_KI_ID.finditer`, the start and
-- the text of each match in order; `words` is `_TOKEN.findall`; `lower` is str.lower, `within part text`
-- is `part in text`, and `like` is `text LIKE '%KI-%'`.
use Prim.Native.String.{◌++◌ as append}
use parcelpilot_ops_copilot.Prelude.{
  ℕ, ◌+◌, ◌-◌, ◌*◌, zero, suc, String, Bool, not, ◌&&◌, Option, none, some, List, [], ◌∷◌, ◌++◌,
  map, filter, length, ltb, leb, contains, if◌then◌else◌,
}
use parcelpilot_ops_copilot.Models.{
  confident, AuthContext, Database, Ticket, Instant, DocumentChunk, EvidenceRef, EvidenceKind,
  Locator, same_source_type, product_doc, same_source_status, current_source,
}
use parcelpilot_ops_copilot.Result.{Result, ok, ◌>>=◌}
use parcelpilot_ops_copilot.Repository.{search_tickets}
use parcelpilot_ops_copilot.Domain.Evidence.{cite_structured, cite_document}
use parcelpilot_ops_copilot.Detection.Alert.{
  AlertCandidate, AlertType, medium, AlertReason, ScopeNote, one_account, distinct_accounts,
  TimeWindow, compute_alert_id, sorted_texts, sorted_set, distinct,
}
use parcelpilot_ops_copilot.Detection.Tickets.{day}

abbrev pub known_issue_rule_version : String
known_issue_rule_version = "v1"

abbrev pub default_known_issue_min_occurrences : ℕ
default_known_issue_min_occurrences = 1

abbrev pub min_shared_tokens : ℕ
min_shared_tokens = 2

abbrev pub stopwords : List String
stopwords =
    "the" ∷ "a" ∷ "an" ∷ "and" ∷ "or" ∷ "of" ∷ "to" ∷ "for" ∷ "in" ∷ "on" ∷ "at" ∷ "is" ∷ "are"
    ∷ "was" ∷ "were" ∷ "be" ∷ "this" ∷ "that" ∷ "with" ∷ "by" ∷ "as" ∷ "it" ∷ "its" ∷ "opened"
    ∷ "status" ∷ "investigating" ∷ "current" ∷ "known" ∷ "issue" ∷ "issues" ∷ "some" ∷ "even"
    ∷ "though" ∷ "remains" ∷ "product" ∷ "limit" ∷ "customers" ∷ "experience" ∷ "above"
    ∷ "approximately" ∷ "customer" ∷ "while" ∷ "still" ∷ "before" ∷ "arrive" ∷ "telling"
    ∷ "shipment" ∷ "shipments" ∷ "creation" ∷ "creating" ∷ "order" ∷ "orders" ∷ "account"
    ∷ "accounts" ∷ "user" ∷ "users" ∷ []

pub record IssueTexts : Type 0 where
  pub ki_ids : String → List (ℕ × String)
  pub words : String → List String
  pub lower : String → String
  pub within : String → String → Bool
  pub like : String → Bool

pub record KnownIssue : Type 0 where
  pub ki_id : String
  pub source_id : String
  pub section : Option String
  pub resolved : Bool
  pub tokens : List String

-- `text[start:]` and `text[:count]`
abbrev pub text_from : ℕ → String → String
text_from zero s = s
text_from (suc n) String.[] = String.[]
text_from (suc n) (String.◌∷◌ c s) = text_from n s

abbrev pub text_to : ℕ → String → String
text_to zero s = String.[]
text_to (suc n) String.[] = String.[]
text_to (suc n) (String.◌∷◌ c s) = String.◌∷◌ c (text_to n s)

-- Each match with `text[start:end]`, which ends where the next match starts.
abbrev pub segments : String → List (ℕ × String) → List (String × String)
segments text [] = []
segments text ((start, id) ∷ []) = (id, text_from start text) ∷ []
segments text ((start, id) ∷ (next, other) ∷ others) =
    (id, text_to (next - start) (text_from start text)) ∷ segments text ((next, other) ∷ others)

-- cite_document; no row has `section = NULL`, and the locator prints None
abbrev pub cite_section : Database → String → Option String → String → EvidenceRef
cite_section conn source_id none ki_id = record {
  kind = EvidenceKind.document;
  source_id = source_id;
  locator = Locator.page_section 1 "None";
  note = some ki_id;
}
cite_section conn source_id (some section) ki_id = cite_document conn source_id section (some ki_id)

abbrev pub scope_note : List String → ScopeNote
scope_note (account_id ∷ []) = one_account account_id
scope_note accounts = distinct_accounts (length accounts)

module _ (texts : IssueTexts) where
  unfoldable pub significant_tokens : String → List String
  significant_tokens text =
      distinct (filter (λ t. not (contains t stopwords)) (texts.words (texts.lower text)))

  abbrev pub issue_of : DocumentChunk → String × String → KnownIssue
  issue_of row (ki_id, segment) = record {
    ki_id = ki_id;
    source_id = row.source_id;
    section = row.section;
    resolved = texts.within "resolved" (texts.lower segment);
    tokens = significant_tokens segment;
  }

  abbrev pub is_current_doc : DocumentChunk → Bool
  is_current_doc row =
      same_source_type row.source_type product_doc
      && same_source_status row.status current_source
      && texts.like row.text

  -- _parse_known_issues
  abbrev pub issues_in : List DocumentChunk → List KnownIssue
  issues_in [] = []
  issues_in (row ∷ rows) =
      let rest = issues_in rows in
      if is_current_doc row
      then map (issue_of row) (segments row.text (texts.ki_ids row.text)) ++ rest
      else rest

  -- `len(_significant_tokens(f"{t.subject} {t.description}") & issue["tokens"]) >= _MIN_SHARED_TOKENS`
  abbrev pub overlaps : KnownIssue → Ticket → Bool
  overlaps issue ticket = leb min_shared_tokens (
      length (
        filter (λ t. contains t issue.tokens)
          (significant_tokens (append ticket.subject (append " " ticket.description)))))

module _ (sha16 : String → String) (decimal : ℕ → String) (texts : IssueTexts) where
  abbrev pub issue_alert : Database → ℕ → ℕ → KnownIssue → List Ticket → AlertCandidate
  issue_alert conn min_occurrences window_days issue matches =
      let ticket_ids : List String = map (λ t. t.ticket_id) matches in
      let accounts : List String = sorted_set (map (λ t. t.account_id) matches) in
      record {
        alert_id =
            compute_alert_id sha16 decimal AlertType.known_issue_pattern
              (TimeWindow.days window_days) known_issue_rule_version (issue.ki_id ∷ ticket_ids);
        alert_type = AlertType.known_issue_pattern;
        severity = medium;
        reason = AlertReason.overlaps_issue issue.ki_id (length matches) (scope_note accounts);
        observed_count = length matches;
        threshold = min_occurrences;
        time_window = TimeWindow.days window_days;
        representative_records = sorted_texts ticket_ids;
        affected_accounts = accounts;
        evidence =
            cite_section conn issue.source_id issue.section issue.ki_id
            ∷ map (λ id. cite_structured "tickets" id none) ticket_ids;
        trust_state = confident;
        rule_version = known_issue_rule_version;
      }

  -- The loop over the issues.
  abbrev pub issue_alerts : Database → ℕ → ℕ → List Ticket → List KnownIssue → List AlertCandidate
  issue_alerts conn min_occurrences window_days candidates [] = []
  issue_alerts conn min_occurrences window_days candidates (issue ∷ issues) =
      let matches : List Ticket = filter (overlaps texts issue) candidates in
      let rest = issue_alerts conn min_occurrences window_days candidates issues in
      if ltb (length matches) min_occurrences
      then rest
      else issue_alert conn min_occurrences window_days issue matches ∷ rest

  -- `if not known_issues: return []`, before the tickets are read
  abbrev pub alerts_for :
      Database → AuthContext → Instant → ℕ → ℕ → List KnownIssue → Result (List AlertCandidate)
  alerts_for conn auth now min_occurrences window_days [] = ok []
  alerts_for conn auth now min_occurrences window_days (issue ∷ issues) = do
    tickets ← search_tickets conn auth none none
    let candidates : List Ticket =
        filter (λ t. not (ltb (t.created_at + window_days * day) now)) tickets
    ok (issue_alerts conn min_occurrences window_days candidates (issue ∷ issues))

  unfoldable pub detect_known_issue_patterns :
      Database → AuthContext → Instant → ℕ → ℕ → Result (List AlertCandidate)
  detect_known_issue_patterns conn auth now min_occurrences window_days =
      alerts_for conn auth now min_occurrences window_days
        (filter (λ issue. not issue.resolved) (issues_in texts conn.chunks))
