-- ===== src/Actions/Race/Schedules.antt =====
-- Schedules of concurrent calls of app/actions/workflow.py, by induction on their steps.
use parcelpilot_ops_copilot.Prelude.{ℕ, zero, suc, String, Bool, List, [], ◌∷◌}
use parcelpilot_ops_copilot.Models.{Database}
use parcelpilot_ops_copilot.Policy.{AgreementOverride, Defaults}
use parcelpilot_ops_copilot.Actions.Store.{Table}
use parcelpilot_ops_copilot.Actions.Workflow.{PayloadHash}
use parcelpilot_ops_copilot.Actions.Race.{Request, Thread, fresh_threads, step_at, run_schedule}
use parcelpilot_ops_copilot.Actions.Race.Audit.{IsAudited, Extends}
use parcelpilot_ops_copilot.Actions.Race.Steps.{
  AreSafe, AreSafe-Extends, IsSafePhase-Extends, Extends-refl, Extends-trans, advance-Keeps,
}

module _ (hash : PayloadHash) (search : String → String → Bool) (overrides : List AgreementOverride)
    (defaults : Defaults) where
  -- The same, of all threads.
  pub record KeepsAll (conn conn' : Database) (ts : List Thread) : Type 0 where
    pub audited : IsAudited hash conn'.actions
    pub extends : Extends conn.actions conn'.actions
    pub safe : AreSafe conn'.actions ts

  pub step_at-KeepsAll :
      (n : ℕ) (conn : Database) (ts : List Thread)
      → IsAudited hash conn.actions
      → AreSafe conn.actions ts
      → let (conn', ts') = step_at hash search overrides defaults n conn ts in
        KeepsAll conn conn' ts'
  unfolding step_at
  step_at-KeepsAll n conn [] audited safe = record {
    audited = audited;
    extends = Extends-refl conn.actions;
    safe = tt;
  }
  step_at-KeepsAll zero conn (t ∷ ts) audited safe =
      let k = advance-Keeps hash conn audited search overrides defaults t.request t.phase safe.0 in
      record {
        audited = k.audited;
        extends = k.extends;
        safe = (k.safe, AreSafe-Extends conn.actions _ ts k.extends safe.1);
      }
  step_at-KeepsAll (suc n) conn (t ∷ ts) audited safe =
      let k = step_at-KeepsAll n conn ts audited safe.1 in
      record {
        audited = k.audited;
        extends = k.extends;
        safe = (IsSafePhase-Extends conn.actions _ t.phase k.extends safe.0, k.safe);
      }

  run_schedule-KeepsAll :
      (schedule : List ℕ) (conn : Database) (ts : List Thread)
      → IsAudited hash conn.actions
      → AreSafe conn.actions ts
      → let (conn', ts') = run_schedule hash search overrides defaults schedule conn ts in
        KeepsAll conn conn' ts'
  unfolding run_schedule
  run_schedule-KeepsAll [] conn ts audited safe = record {
    audited = audited;
    extends = Extends-refl conn.actions;
    safe = safe;
  }
  run_schedule-KeepsAll (n ∷ schedule) conn ts audited safe =
      let (conn', ts') = step_at hash search overrides defaults n conn ts in
      let first = step_at-KeepsAll n conn ts audited safe in
      let rest = run_schedule-KeepsAll schedule conn' ts' first.audited first.safe in
      record {
        audited = rest.audited;
        extends = Extends-trans conn.actions conn'.actions _ first.extends rest.extends;
        safe = rest.safe;
      }

  pub fresh_threads-AreSafe :
      (rows : Table) (requests : List Request) → AreSafe rows (fresh_threads requests)
  fresh_threads-AreSafe rows [] = tt
  fresh_threads-AreSafe rows (r ∷ requests) = (tt, fresh_threads-AreSafe rows requests)

  module _ (conn : Database) (requests : List Request) (schedule : List ℕ) where
    -- Whatever calls of prepare, confirm and execute are under way, and however their reads and
    -- writes interleave, a table of actions that is audited stays so: identifiers are unique, every
    -- row expires fifteen minutes after it was prepared and has the digest of its own payload, and
    -- its columns show that it waits, or expired unconfirmed, or was confirmed no later than its
    -- expiry, or was so confirmed and is executed.
    pub run_schedule-IsAudited :
        IsAudited hash conn.actions
        → IsAudited hash
            (run_schedule hash search overrides defaults schedule conn
              (fresh_threads requests)).0.actions
    run_schedule-IsAudited audited =
        (run_schedule-KeepsAll schedule conn (fresh_threads requests) audited
          (fresh_threads-AreSafe conn.actions requests)).audited

    -- Under every interleaving, no row of an audited table is lost: a later lookup of its
    -- identifier finds a row with the same user, target, proposed change, payload digest and term,
    -- the very same row if it was executed or expired, and never a row that waits if it no longer
    -- waited.
    pub run_schedule-Extends :
        IsAudited hash conn.actions
        → Extends conn.actions
            (run_schedule hash search overrides defaults schedule conn
              (fresh_threads requests)).0.actions
    run_schedule-Extends audited =
        (run_schedule-KeepsAll schedule conn (fresh_threads requests) audited
          (fresh_threads-AreSafe conn.actions requests)).extends
