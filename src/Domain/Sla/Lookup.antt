-- ===== src/Domain/Sla/Lookup.antt =====
-- Which row of `sla_targets` the query returns.
use parcelpilot_ops_copilot.Prelude.{
  String, true, ◌≡◌, sym, ◌∙◌, false, inl, inr, Option, none, some, List, [], ◌∷◌, arith, is_some,
  Has, find, filter, Has-filter, find-Has, find-none, Option-cases, Bool-cases, ap, eq_iff,
}
use mathlib.Core.Bool.{false≢true}
use parcelpilot_ops_copilot.Models.{Severity, Account, SlaTarget, Database}
use parcelpilot_ops_copilot.Models.Sql.{column_is}
use parcelpilot_ops_copilot.Domain.Sla.{target_selected, account_rows_first, lookup_sla_target}

account_rows_first-Has :
    (rows : List SlaTarget) {row : SlaTarget} → account_rows_first rows ≡ some row → Has row rows
account_rows_first-Has [] h = cc
account_rows_first-Has (x ∷ xs) {row} h =
    ground (arith, find-Has (λ r. is_some r.account_id) (x ∷ xs) {b = row})

account_rows_first-none :
    (rows : List SlaTarget) (row : SlaTarget) → account_rows_first rows ≡ none → Has row rows → ⊥
account_rows_first-none [] row h m = m
account_rows_first-none (x ∷ xs) row h m = ground arith

column_is-some : (c : Option String) (s : String) → column_is c s ≡ true → c ≡ some s
column_is-some none s h = cc
column_is-some (some c) s h = ap some ((eq_iff c s).0 h)

account_rows_first-account :
    (rows : List SlaTarget) (specific : SlaTarget) {row : SlaTarget}
    → Has specific rows
    → is_some specific.account_id ≡ true
    → account_rows_first rows ≡ some row
    → is_some row.account_id ≡ true
account_rows_first-account rows specific {row} m account_row h =
    elim (Option-cases (find (λ r. is_some r.account_id) rows)) [
      | inl missing ↦ absurd (
          false≢true
            (sym (find-none (λ r. is_some r.account_id) rows missing specific m) ∙ account_row))
      | inr (r, found) ↦ ground (arith, find-Has (λ r. is_some r.account_id) rows {b = r} found)
    ]

module _ (conn : Database) (source_id : String) (account : Account) (severity : Severity) where
  -- The query returns a row of the table that satisfies its WHERE clause, and returns none only if
  -- no row does.
  lookup_selects :
      ((row : SlaTarget)
        → lookup_sla_target conn source_id account severity ≡ some row
        → Has row conn.sla_targets × (target_selected source_id account severity row ≡ true))
      × ((row : SlaTarget)
          → lookup_sla_target conn source_id account severity ≡ none
          → Has row conn.sla_targets
          → target_selected source_id account severity row ≡ false)
  unfolding lookup_sla_target
  lookup_selects =
      let p = target_selected source_id account severity in
      (
        λ row h.
            (Has-filter p row conn.sla_targets).0
              (account_rows_first-Has (filter p conn.sla_targets) h),
        λ row h m. elim (Bool-cases (p row)) [
          | inl selected ↦ absurd (
              account_rows_first-none (filter p conn.sla_targets) row h
                ((Has-filter p row conn.sla_targets).1 (m, selected)))
          | inr refused ↦ refused
        ],
      )

  -- In a table whose rows are of an account or of a plan and not of both, a row for this account
  -- that satisfies the WHERE clause keeps every plan-level row from being returned.
  pub account_row_wins :
      (specific row : SlaTarget)
      → ((r : SlaTarget) → Has r conn.sla_targets → is_some r.account_id ≡ true → r.plan ≡ none)
      → Has specific conn.sla_targets
      → target_selected source_id account severity specific ≡ true
      → specific.account_id ≡ some account.account_id
      → lookup_sla_target conn source_id account severity ≡ some row
      → row.account_id ≡ some account.account_id
  unfolding lookup_sla_target
  account_row_wins specific row one_scope m selected own h =
      let rows = filter (target_selected source_id account severity) conn.sla_targets in
      let is_account : is_some row.account_id ≡ true =
        account_rows_first-account rows specific
          ((Has-filter (target_selected source_id account severity) specific conn.sla_targets).1
            (m, selected))
          (rw own) h in
      let (listed, chosen) = lookup_selects.0 row h in
      column_is-some row.account_id account.account_id
        (ground (arith, one_scope row listed is_account))
