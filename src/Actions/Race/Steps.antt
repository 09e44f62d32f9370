-- ===== src/Actions/Race/Steps.antt =====
-- One step of a thread: the audit trail, the rows, and the plans of the other threads.
use parcelpilot_ops_copilot.Prelude.{
  String, ◌≡◌, refl, sym, List, [], ◌∷◌, inl, inr, Bool, Bool-cases,
}
use mathlib.Core.Path.{subst}
use parcelpilot_ops_copilot.Models.{AuthContext, Database, Instant}
use parcelpilot_ops_copilot.Result.{Result, ok, raise, ◌>>=◌}
use parcelpilot_ops_copilot.Policy.{AgreementOverride, Defaults}
use parcelpilot_ops_copilot.Actions.Models.{ActionOutcome}
use parcelpilot_ops_copilot.Actions.Store.{Table, get_action, save_action_if_status}
use parcelpilot_ops_copilot.Actions.Workflow.{
  PayloadHash, Plan, answer, swap, prepare_escalation, confirm_plan, execute_plan, finish,
  finish_swap, lost_outcome,
}
use parcelpilot_ops_copilot.Actions.Prepare.{
  Prepared, proposes, declines, prepare_escalation-Prepared,
}
use parcelpilot_ops_copilot.Actions.Race.{
  Request, prepare_request, confirm_request, execute_request, Phase, start, planned, returned,
  raised, Thread, plan_phase, write_phase, begin, advance,
}
use parcelpilot_ops_copilot.Actions.Race.Audit.{
  waiting, IsSound, IsAudited, Extends, IsSafe-Extends, save-IsAudited, save-Extends, Follows-refl,
  Follows-trans,
}
use parcelpilot_ops_copilot.Actions.Race.Plans.{
  IsSafePlan, confirm_plan-IsSafe, execute_plan-IsSafe, append-IsAudited, append-Extends,
}

abbrev pub IsSafePhase : Table → Phase → Type 0
IsSafePhase rows start = Unit
IsSafePhase rows (planned plan) = IsSafePlan rows plan
IsSafePhase rows (returned outcome) = Unit
IsSafePhase rows (raised e) = Unit

abbrev pub AreSafe : Table → List Thread → Type 0
AreSafe rows [] = Unit
AreSafe rows (t ∷ ts) = IsSafePhase rows t.phase × AreSafe rows ts

pub IsSafePhase-Extends :
    (rows rows' : Table) (phase : Phase)
    → Extends rows rows'
    → IsSafePhase rows phase
    → IsSafePhase rows' phase
IsSafePhase-Extends rows rows' start extends safe = tt
IsSafePhase-Extends rows rows' (planned (answer o)) extends safe = tt
IsSafePhase-Extends rows rows' (planned (swap s)) extends safe = IsSafe-Extends s extends safe
IsSafePhase-Extends rows rows' (returned outcome) extends safe = tt
IsSafePhase-Extends rows rows' (raised e) extends safe = tt

pub AreSafe-Extends :
    (rows rows' : Table) (ts : List Thread)
    → Extends rows rows'
    → AreSafe rows ts
    → AreSafe rows' ts
AreSafe-Extends rows rows' [] extends safe = tt
AreSafe-Extends rows rows' (t ∷ ts) extends safe = (
  IsSafePhase-Extends rows rows' t.phase extends safe.0,
  AreSafe-Extends rows rows' ts extends safe.1,
)

pub Extends-refl : (rows : Table) → Extends rows rows
Extends-refl rows id row stored = (row, stored, Follows-refl row)

pub Extends-trans : (a b c : Table) → Extends a b → Extends b c → Extends a c
Extends-trans a b c first then' id row stored =
    let (row', stored', follows) = first id row stored in
    let (row'', stored'', follows') = then' id row' stored' in
    (row'', stored'', Follows-trans row row' row'' follows follows')

-- What a step owes: the audit trail, the rows, and a phase that is safe.
module _ (hash : PayloadHash) (conn : Database) where
  pub record Keeps (conn' : Database) (phase : Phase) : Type 0 where
    pub audited : IsAudited hash conn'.actions
    pub extends : Extends conn.actions conn'.actions
    pub safe : IsSafePhase conn'.actions phase

  module _ (audited : IsAudited hash conn.actions) where
    still : (phase : Phase) → IsSafePhase conn.actions phase → Keeps conn phase
    still phase safe = record {
      audited = audited;
      extends = Extends-refl conn.actions;
      safe = safe;
    }

    -- A call that wrote, and then raised, is rolled back.
    write-Keeps :
        (conn' : Database) (r : Result ActionOutcome)
        → IsAudited hash conn'.actions
        → Extends conn.actions conn'.actions
        → let (after, phase) = write_phase conn (do outcome ← r; ok (conn', outcome)) in
          Keeps after phase
    write-Keeps conn' (raise e) audited' extends = still (raised e) tt
    write-Keeps conn' (ok outcome) audited' extends = record {
      audited = audited';
      extends = extends;
      safe = tt;
    }

    finish-Keeps :
        (plan : Plan)
        → IsSafePlan conn.actions plan
        → let (conn', phase) = write_phase conn (finish conn plan) in Keeps conn' phase
    unfolding finish finish_swap
    finish-Keeps (answer outcome) safe = still (returned outcome) tt
    finish-Keeps (swap s) safe =
        let saved = save_action_if_status conn.actions s.next s.expected_status in
        let conn' : Database = record conn { actions = saved.0 } in
        let audited' = save-IsAudited hash conn.actions s audited safe in
        let extends = save-Extends conn.actions s safe in
        elim (Bool-cases saved.1) [
          | inl won ↦ rw won (write-Keeps conn' (ok s.won) audited' extends)
          | inr lost ↦ rw lost (
              write-Keeps conn'
                (lost_outcome s.verb s.next.action_id (get_action saved.0 s.next.action_id))
                audited' extends)
        ]

    plan-Keeps :
        (r : Result Plan)
        → ((plan : Plan) → r ≡ ok plan → IsSafePlan conn.actions plan)
        → Keeps conn (plan_phase r)
    plan-Keeps (ok plan) safe = still (planned plan) (safe plan refl)
    plan-Keeps (raise e) safe = still (raised e) tt

    module _ (search : String → String → Bool) (overrides : List AgreementOverride)
        (defaults : Defaults) where
      prepare-Keeps :
          (ticket_id reason : String) (now : Instant) (user_id request_id hex : String)
          (auth : AuthContext) (r : Result (Database × ActionOutcome))
          → prepare_escalation hash conn ticket_id reason now user_id request_id hex search auth
              overrides defaults
            ≡ r
          → let (conn', phase) = write_phase conn r in Keeps conn' phase
      prepare-Keeps ticket_id reason now user_id request_id hex auth (raise e) h =
          still (raised e) tt
      prepare-Keeps ticket_id reason now user_id request_id hex auth (ok (conn', o)) h = by_case (
          prepare_escalation-Prepared hash conn ticket_id reason now user_id request_id hex search
            auth overrides defaults conn' o h)
        where
          by_case :
              Prepared hash conn ticket_id reason now user_id request_id hex search auth overrides
                defaults conn' o
              → Keeps conn' (returned o)
          by_case (declines fails same) =
              subst (λ c. Keeps c (returned o)) (sym same) (still (returned o) tt)
          by_case (proposes row eligible reported same) =
              subst (λ c. Keeps c (returned o)) (sym same)
                (record {
                  audited = append-IsAudited conn.actions row eligible.fresh hash audited (
                      subst (IsSound hash) (sym eligible.proposed) (record {
                        window = refl;
                        key = refl;
                        payload = refl;
                        life = waiting refl refl refl;
                      }));
                  extends = append-Extends conn.actions row eligible.fresh;
                  safe = tt;
                })

      pub advance-Keeps :
          (request : Request) (phase : Phase)
          → IsSafePhase conn.actions phase
          → let (conn', phase') = advance hash search overrides defaults conn request phase in
            Keeps conn' phase'
      unfolding advance begin
      advance-Keeps (prepare_request ticket_id reason now user_id request_id hex auth) start safe =
          prepare-Keeps ticket_id reason now user_id request_id hex auth _ refl
      advance-Keeps (confirm_request action_id payload_hash auth now user_id) start safe =
          plan-Keeps (confirm_plan conn action_id payload_hash auth now user_id)
            (confirm_plan-IsSafe hash conn audited action_id payload_hash auth now user_id)
      advance-Keeps (execute_request action_id now) start safe =
          still (planned (execute_plan conn action_id now))
            (execute_plan-IsSafe hash conn audited action_id now)
      advance-Keeps request (planned plan) safe = finish-Keeps plan safe
      advance-Keeps request (returned outcome) safe = still (returned outcome) tt
      advance-Keeps request (raised e) safe = still (raised e) tt
