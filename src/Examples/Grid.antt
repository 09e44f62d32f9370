-- ===== src/Examples/Grid.antt =====
-- The grid parser, on the lines of one grid.
use parcelpilot_ops_copilot.Prelude.{
  ◌≡◌, refl, String, inr, false, none, some, true, List, [], ◌∷◌, ◌++◌,
}
use parcelpilot_ops_copilot.Models.{Severity, SlaTarget}
use parcelpilot_ops_copilot.Documents.SlaTable.{SlaTexts, parse_grid_table}
use parcelpilot_ops_copilot.Documents.SlaTable.Grid.{
  grid_lines, plan_names, StatesAll, parse_grid_table-grid_lines,
}

abbrev cell : String → Severity → String
cell plan severity = "4 hours, 24x7"

abbrev texts : SlaTexts
texts = record {
  stripped_lines = λ body. body ∷ (grid_lines cell ++ "4. Definitions" ∷ []);
  lines = λ body. body ∷ [];
  lower = λ text. text;
  within = λ part text. false;
  duration = λ text. some (4, true);
  bullet = λ line. none;
}

parse_grid_table-grid_lines_example :
    (targets : List SlaTarget) × (parse_grid_table texts "SRC-01" "3. First response" ≡ inr targets)
    × StatesAll texts "SRC-01" cell plan_names targets
parse_grid_table-grid_lines_example =
    parse_grid_table-grid_lines texts "SRC-01" cell "3. First response" ("3. First response" ∷ [])
      ("4. Definitions" ∷ []) refl refl
