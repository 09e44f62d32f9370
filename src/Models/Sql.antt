-- ===== src/Models/Sql.antt =====
-- `SELECT * FROM t WHERE key = ?` with `fetchone`, and comparisons with a nullable column.
use parcelpilot_ops_copilot.Prelude.{String, Bool, false, Option, none, some, ◌==◌}

-- `column = ?`, which does not hold of NULL
abbrev pub column_is : Option String → String → Bool
column_is none s = false
column_is (some c) s = c == s
