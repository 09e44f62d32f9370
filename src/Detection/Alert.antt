-- ===== src/Detection/Alert.antt =====
-- app/detection/models.py and app/detection/fingerprint.py. A text that is only printed is a
-- constructor that holds what it prints; `title` and `recommended_next_step`, which print parts of
-- the reason or a fixed text, are left out.
use Prim.Native.String.{◌++◌ as append}
use parcelpilot_ops_copilot.Prelude.{ℕ, String, List, [], ◌∷◌, contains, if◌then◌else◌}
use parcelpilot_ops_copilot.Prelude.Int.{ℤ}
use parcelpilot_ops_copilot.Prelude.Sort.{sort_by, text_le}
use parcelpilot_ops_copilot.Models.{Severity, TrustState, EvidenceRef}

pub data AlertType : Type 0 where
  sla_breach sla_approaching recurring_issue : AlertType
  known_issue_pattern carrier_pattern overdue_pickup : AlertType

pub data AlertSeverity : Type 0 where
  low medium high critical : AlertSeverity

pub data TimeWindow : Type 0 where
  point_in_time : TimeWindow
  days : ℕ → TimeWindow

-- `scope_note` of a known issue: the one account of its tickets, or how many there are.
pub data ScopeNote : Type 0 where
  one_account : String → ScopeNote
  distinct_accounts : ℕ → ScopeNote

pub data AlertReason : Type 0 where
  past_deadline : String → Severity → ℤ → String → AlertReason
  near_deadline : String → Severity → ℤ → ℕ → AlertReason
  many_tickets : ℕ → Severity → ℕ → ℕ → AlertReason
  many_faults : ℕ → String → ℕ → ℕ → AlertReason
  window_over : String → ℤ → AlertReason
  overlaps_issue : String → ℕ → ScopeNote → AlertReason

pub record AlertCandidate : Type 0 where
  pub alert_id : String
  pub alert_type : AlertType
  pub severity : AlertSeverity
  pub reason : AlertReason
  pub observed_count : ℕ
  pub threshold : ℕ
  pub time_window : TimeWindow
  pub representative_records : List String
  pub affected_accounts : List String
  pub evidence : List EvidenceRef
  pub trust_state : TrustState
  pub rule_version : String

-- `alert_type.value`
abbrev pub type_value : AlertType → String
type_value sla_breach = "sla_breach"
type_value sla_approaching = "sla_approaching"
type_value recurring_issue = "recurring_issue"
type_value known_issue_pattern = "known_issue_pattern"
type_value carrier_pattern = "carrier_pattern"
type_value overdue_pickup = "overdue_pickup"

-- `separator.join(texts)`
abbrev pub join : String → List String → String
join separator [] = ""
join separator (s ∷ []) = s
join separator (s ∷ t ∷ ts) = append s (append separator (join separator (t ∷ ts)))

-- `set(texts)`, as the last of each run of equal texts
abbrev pub distinct : List String → List String
distinct [] = []
distinct (s ∷ ss) = let rest = distinct ss in if contains s ss then rest else s ∷ rest

-- `sorted(set(texts))`
abbrev pub sorted_set : List String → List String
sorted_set texts = sort_by text_le (distinct texts)

abbrev pub sorted_texts : List String → List String
sorted_texts texts = sort_by text_le texts

module _ (sha16 : String → String) (decimal : ℕ → String) where
  abbrev pub window_value : TimeWindow → String
  window_value point_in_time = "point-in-time"
  window_value (days n) = append (decimal n) "d"

  unfoldable pub compute_alert_id : AlertType → TimeWindow → String → List String → String
  compute_alert_id kind window version entities = append "ALERT-" (
      sha16 (
        join "|"
          (type_value kind ∷ window_value window ∷ version ∷ join "," (sorted_set entities) ∷ [])))
