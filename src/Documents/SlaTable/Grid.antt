-- ===== src/Documents/SlaTable/Grid.antt =====
-- The grid of plans and severities of app/documents/sla_table.py, printed and parsed again.
use parcelpilot_ops_copilot.Prelude.{
  ℕ, ◌*◌, ◌≡◌, refl, String, true, false, ◌==◌, inl, inr, some, none, List, [], ◌∷◌, ◌++◌, contains,
  arith, Bool-cases, eq_iff,
}
use parcelpilot_ops_copilot.Models.{Severity, p1, p2, p3, SlaTarget}
use parcelpilot_ops_copilot.Documents.SlaTable.{SlaTexts, from_plan, target, parse_grid_table}

-- The rows of a grid.
abbrev pub plan_names : List String
plan_names = "Enterprise" ∷ "Growth" ∷ "Standard" ∷ []

-- The lines of a grid, one to a cell.
abbrev pub grid_rows : (String → Severity → String) → List String → List String
grid_rows cell [] = []
grid_rows cell (plan ∷ rows) =
    plan ∷ cell plan p1 ∷ cell plan p2 ∷ cell plan p3 ∷ grid_rows cell rows

abbrev pub grid_lines : (String → Severity → String) → List String
grid_lines cell = "Plan" ∷ "P1" ∷ "P2" ∷ "P3" ∷ grid_rows cell plan_names

from_plan-skips :
    (before lines : List String)
    → contains "Plan" before ≡ false
    → from_plan (before ++ "Plan" ∷ lines) ≡ some ("Plan" ∷ lines)
from_plan-skips [] lines h = refl
from_plan-skips (line ∷ before) lines h = elim (Bool-cases (line == "Plan")) [
  | inl e ↦ absurd (ground (arith, eq_iff line "Plan", eq_iff "Plan" line))
  | inr e ↦ rw e (from_plan-skips before lines (ground arith))
]

module _ (texts : SlaTexts) (source_id : String) where
  -- A target that a cell of the row of a plan states. It has minutes only if the cell does not speak
  -- of business hours and has a duration, whose hours count sixty minutes each.
  pub record States (plan : String) (severity : Severity) (text : String) (t : SlaTarget)
      : Type 0 where
    pub of_source : t.source_id ≡ source_id
    pub of_plan : t.plan ≡ some plan
    pub of_no_account : t.account_id ≡ none
    pub of_severity : t.severity ≡ severity
    pub of_text : t.target_text ≡ text
    pub around_the_clock : t.is_24x7 ≡ texts.within "24x7" (texts.lower text)
    pub business : t.requires_business_calendar ≡ texts.within "business" (texts.lower text)
    pub no_clock : t.requires_business_calendar ≡ true → t.target_minutes ≡ none
    pub no_duration : texts.duration (texts.lower text) ≡ none → t.target_minutes ≡ none
    pub in_hours :
        (n : ℕ)
        → texts.duration (texts.lower text) ≡ some (n, true)
        → t.requires_business_calendar ≡ false
        → t.target_minutes ≡ some (n * 60)
    pub in_minutes :
        (n : ℕ)
        → texts.duration (texts.lower text) ≡ some (n, false)
        → t.requires_business_calendar ≡ false
        → t.target_minutes ≡ some n

  target-States :
      (plan : String) (severity : Severity) (text : String)
      → States plan severity text (target texts source_id (some plan) none severity text)
  target-States plan severity text = record {
    of_source = refl;
    of_plan = refl;
    of_no_account = refl;
    of_severity = refl;
    of_text = refl;
    around_the_clock = refl;
    business = refl;
    no_clock = λ h. rw h refl;
    no_duration = λ e. ground (arith, e);
    in_hours = λ n e h. rw (h, e) refl;
    in_minutes = λ n e h. rw (h, e) refl;
  }

  module _ (cell : String → Severity → String) where
    -- One target for each plan and severity, row by row.
    abbrev pub StatesAll : List String → List SlaTarget → Type 0
    StatesAll [] [] = Unit
    StatesAll (plan ∷ rows) (a ∷ b ∷ c ∷ targets) =
        States plan p1 (cell plan p1) a
        × States plan p2 (cell plan p2) b
        × States plan p3 (cell plan p3) c
        × StatesAll rows targets
    StatesAll _ _ = ⊥

    grid_targets : List String → List SlaTarget
    grid_targets [] = []
    grid_targets (plan ∷ rows) =
        target texts source_id (some plan) none p1 (cell plan p1)
        ∷ target texts source_id (some plan) none p2 (cell plan p2)
        ∷ target texts source_id (some plan) none p3 (cell plan p3)
        ∷ grid_targets rows

    grid_targets-StatesAll : (rows : List String) → StatesAll rows (grid_targets rows)
    unfolding grid_targets
    grid_targets-StatesAll [] = tt
    grid_targets-StatesAll (plan ∷ rows) = (
      target-States plan p1 (cell plan p1),
      target-States plan p2 (cell plan p2),
      target-States plan p3 (cell plan p3),
      grid_targets-StatesAll rows,
    )

    -- A grid of plans and severities that is printed one cell to a line, between any lines of which
    -- those above it do not equal its first, is parsed to one target for each plan and severity, in
    -- the order of the grid, each with the text of its cell: it needs the business calendar or runs
    -- around the clock as the words of the cell say, and it has the minutes of the duration in the
    -- cell, sixty to an hour, unless the cell speaks of business or has no duration.
    pub parse_grid_table-grid_lines :
        (body : String) (before after : List String)
        → contains "Plan" before ≡ false
        → texts.stripped_lines body ≡ before ++ (grid_lines cell ++ after)
        → (targets : List SlaTarget) × (parse_grid_table texts source_id body ≡ inr targets)
          × StatesAll plan_names targets
    unfolding parse_grid_table grid_targets
    parse_grid_table-grid_lines body before after h printed =
        let rest = "P1" ∷ "P2" ∷ "P3" ∷ (grid_rows cell plan_names ++ after) in
        (
          grid_targets plan_names,
          rw printed (rw (from_plan-skips before rest h) refl),
          grid_targets-StatesAll plan_names,
        )
