-- ===== src/Documents/SlaTable.antt =====
-- app/documents/sla_table.py: the SLA targets of a policy's grid and of an agreement's bullets. The
-- lines of a body, its case, the words in it and the two regular expressions are parameters. An
-- error holds what its message prints, but the number of the line.
pub mod Grid
use parcelpilot_ops_copilot.Prelude.{
  ℕ, ◌*◌, String, Bool, true, false, ◌&&◌, ◌==◌, eqb, ◌⊎◌, inl, inr, Option, none, some, List, [],
  ◌∷◌, ◌++◌, length, if◌then◌else◌,
}
use parcelpilot_ops_copilot.Models.{Severity, p1, p2, p3, SlaTarget}

-- `stripped_lines body` is the list of its stripped lines that are not empty, `duration text` the
-- number that _DURATION finds and whether its unit is hours, and `bullet line` the digit and the
-- stripped text that _BULLET_TARGET finds.
pub record SlaTexts : Type 0 where
  pub stripped_lines : String → List String
  pub lines : String → List String
  pub lower : String → String
  pub within : String → String → Bool
  pub duration : String → Option (ℕ × Bool)
  pub bullet : String → Option (Severity × String)

-- The causes of DocumentParseError.
pub data GridError : Type 0 where
  header_missing header_wrong : GridError
  plan_expected : String → List String → GridError
  bullets_expected : ℕ → GridError

abbrev pub plans : List String
plans = "Enterprise" ∷ "Growth" ∷ "Standard" ∷ []

abbrev pub minutes_of : Option (ℕ × Bool) → Option ℕ
minutes_of none = none
minutes_of (some (n, hours)) = some (if hours then n * 60 else n)

-- `lines.index("Plan")`, as the lines from there on
abbrev pub from_plan : List String → Option (List String)
from_plan [] = none
from_plan (line ∷ lines) =
    let rest = from_plan lines in if line == "Plan" then some (line ∷ lines) else rest

-- `lines[header : header + 4]` against the header, and what follows it
abbrev pub after_header : List String → Option (List String)
after_header (a ∷ b ∷ c ∷ d ∷ rest) =
    if a == "Plan" && b == "P1" && c == "P2" && d == "P3" then some rest else none
after_header _ = none

abbrev pub with_rows : List SlaTarget → (GridError ⊎ List SlaTarget) → GridError ⊎ List SlaTarget
with_rows targets (inl e) = inl e
with_rows targets (inr rest) = inr (targets ++ rest)

module _ (texts : SlaTexts) (source_id : String) where
  abbrev pub parse_duration : String → Option ℕ × Bool × Bool
  parse_duration text =
      let lowered = texts.lower text in
      let business = texts.within "business" lowered in
      (
        if business then none else minutes_of (texts.duration lowered),
        texts.within "24x7" lowered,
        business,
      )

  -- The SlaTarget that both parsers append.
  abbrev pub target : Option String → Option String → Severity → String → SlaTarget
  target plan account_id severity text =
      let (minutes, is_247, biz) = parse_duration text in
      record {
        source_id = source_id;
        plan = plan;
        account_id = account_id;
        severity = severity;
        target_text = text;
        target_minutes = minutes;
        is_24x7 = is_247;
        requires_business_calendar = biz;
      }

  -- The loop over the plans, from the cursor on.
  unfoldable pub parse_rows : List String → List String → GridError ⊎ List SlaTarget
  parse_rows [] lines = inr []
  parse_rows (plan ∷ rows) (a ∷ b ∷ c ∷ d ∷ lines) =
      let rest = parse_rows rows lines in
      if a == plan
      then with_rows
          (target (some plan) none p1 b
            ∷ target (some plan) none p2 c
            ∷ target (some plan) none p3 d
            ∷ [])
          rest
      else inl (plan_expected plan (a ∷ b ∷ c ∷ d ∷ []))
  parse_rows (plan ∷ rows) lines = inl (plan_expected plan lines)

  abbrev pub after_found : Option (List String) → GridError ⊎ List SlaTarget
  after_found none = inl header_wrong
  after_found (some lines) = parse_rows plans lines

  abbrev pub at_header : Option (List String) → GridError ⊎ List SlaTarget
  at_header none = inl header_missing
  at_header (some lines) = after_found (after_header lines)

  unfoldable pub parse_grid_table : String → GridError ⊎ List SlaTarget
  unfolding parse_rows
  parse_grid_table body = at_header (from_plan (texts.stripped_lines body))

  abbrev with_bullet : String → Option (Severity × String) → List SlaTarget → List SlaTarget
  with_bullet account_id none targets = targets
  with_bullet account_id (some (severity, text)) targets =
      target none (some account_id) severity text ∷ targets

  abbrev bullet_targets : String → List String → List SlaTarget
  bullet_targets account_id [] = []
  bullet_targets account_id (line ∷ lines) =
      with_bullet account_id (texts.bullet line) (bullet_targets account_id lines)

  unfoldable parse_bullet_targets : String → String → GridError ⊎ List SlaTarget
  parse_bullet_targets body account_id =
      let targets = bullet_targets account_id (texts.lines body) in
      if eqb (length targets) 3 then inr targets else inl (bullets_expected (length targets))
