-- ===== src/Actions/Race/Chances.antt =====
-- What one step of a confirmation does to the chance that its action is still confirmed.
use mathlib.Core.Path.{subst}
use mathlib.Core.Bool.{false≢true}
use parcelpilot_ops_copilot.Prelude.{
  ℕ, ◌+◌, ◌≤◌, String, ◌≡◌, ◌≢◌, refl, sym, ◌∙◌, inl, inr, Bool, true, false, ◌&&◌, ◌==◌, Option,
  none, some, List, arith, eq_iff, Bool-cases, Option-cases, if◌then◌else◌,
}
use parcelpilot_ops_copilot.Models.{
  ActionRecord, ActionStatus, pending_confirmation, same_action_status, AuthContext, Database,
  Instant,
}
use parcelpilot_ops_copilot.Result.{Result, ok, raise, ◌>>=◌}
use parcelpilot_ops_copilot.Policy.{AgreementOverride, Defaults}
use parcelpilot_ops_copilot.Actions.Models.{ActionOutcome, to_confirm}
use parcelpilot_ops_copilot.Actions.Store.{Table, get_action}
use parcelpilot_ops_copilot.Actions.Workflow.{
  PayloadHash, Plan, answer, swap, Swap, confirm_plan, finish, finish_swap, lost_outcome,
}
use parcelpilot_ops_copilot.Actions.Rows.{get_action-id, save-won, found_with, get_action-save_self}
use parcelpilot_ops_copilot.Actions.Confirm.{
  Verdict, refuses, expires, commits, confirm_plan-Verdict,
}
use parcelpilot_ops_copilot.Actions.Race.{
  Request, prepare_request, confirm_request, execute_request, Phase, start, planned, returned,
  raised, Thread, plan_phase, write_phase, begin, advance,
}
use parcelpilot_ops_copilot.Actions.Race.Audit.{IsAudited, IsSafe, Extends, save-Extends}
use parcelpilot_ops_copilot.Actions.Race.Steps.{IsSafePhase, advance-Keeps}

abbrev pub asks : String → Request → Bool
asks id (prepare_request ticket_id reason now user_id request_id hex auth) = false
asks id (confirm_request action_id payload_hash auth now user_id) = action_id == id
asks id (execute_request action_id now) = false

abbrev pub succeeded : Phase → Bool
succeeded start = false
succeeded (planned plan) = false
succeeded (returned outcome) = outcome.success
succeeded (raised e) = false

-- A confirmation of this action that reported success.
abbrev pub has_confirmed : String → Thread → Bool
has_confirmed id t = asks id t.request && succeeded t.phase

abbrev pub points : Bool → ℕ
points b = if b then 1 else 0

abbrev pub is_open : Option ActionRecord → Bool
is_open none = true
is_open (some row) = same_action_status row.status pending_confirmation

-- Whether a confirmation may still succeed.
abbrev pub chance : Table → String → ℕ
chance rows id = points (is_open (get_action rows id))

chance-Extends :
    (rows rows' : Table) (id : String) → Extends rows rows' → chance rows' id ≤ chance rows id
chance-Extends rows rows' id extends = elim (Option-cases (get_action rows id)) [
  | inl missing ↦ rw missing (at_most_one (is_open (get_action rows' id)))
  | inr (row, stored) ↦ elim (Bool-cases (is_open (some row))) [
    | inl waiting ↦ rw (stored, waiting) (at_most_one (is_open (get_action rows' id)))
    | inr settled ↦
        let (row', stored', follows) = extends id row stored in
        let moved : row.status ≢ pending_confirmation = λ p. false≢true (sym settled ∙ rw p refl) in
        rw (stored, stored', settled) (closed row'.status (follows.settled moved))
  ]
]
  where
    at_most_one : (b : Bool) → points b ≤ 1
    at_most_one b = ground arith

    closed :
        (s : ActionStatus)
        → s ≢ pending_confirmation
        → points (same_action_status s pending_confirmation) ≤ 0
    closed s other = ground arith

-- What a confirmation holds between its two steps.
abbrev ConfirmsOnly : String → Plan → Type 0
ConfirmsOnly action_id (answer outcome) = outcome.success ≡ false
ConfirmsOnly action_id (swap s) =
    (s.next.action_id ≡ action_id)
    × (s.expected_status ≡ pending_confirmation)
    × (s.verb ≡ to_confirm)

abbrev pub HoldsPlan : Request → Phase → Type 0
HoldsPlan (prepare_request ticket_id reason now user_id request_id hex auth) phase = Unit
HoldsPlan (execute_request action_id now) phase = Unit
HoldsPlan (confirm_request action_id payload_hash auth now user_id) start = Unit
HoldsPlan (confirm_request action_id payload_hash auth now user_id) (planned plan) =
    ConfirmsOnly action_id plan
HoldsPlan (confirm_request action_id payload_hash auth now user_id) (returned outcome) = Unit
HoldsPlan (confirm_request action_id payload_hash auth now user_id) (raised e) = Unit

confirm_plan-ConfirmsOnly :
    (conn : Database) (action_id payload_hash : String) (auth : AuthContext) (now : Instant)
    (user_id : String) (plan : Plan)
    → confirm_plan conn action_id payload_hash auth now user_id ≡ ok plan
    → ConfirmsOnly action_id plan
confirm_plan-ConfirmsOnly conn action_id payload_hash auth now user_id plan h =
    by_verdict (confirm_plan-Verdict conn action_id payload_hash auth now user_id plan h)
  where
    by_verdict :
        Verdict conn action_id payload_hash auth now user_id plan → ConfirmsOnly action_id plan
    by_verdict (refuses o e fails) = subst (ConfirmsOnly action_id) (sym e) fails
    by_verdict (expires row stored p past e) =
        subst (ConfirmsOnly action_id) (sym e)
          (get_action-id conn.actions action_id stored, refl, refl)
    by_verdict (commits row c e) =
        subst (ConfirmsOnly action_id) (sym e)
          (get_action-id conn.actions action_id c.stored, refl, refl)

pub advance-HoldsPlan :
    (hash : PayloadHash) (search : String → String → Bool) (overrides : List AgreementOverride)
    (defaults : Defaults) (conn : Database) (request : Request) (phase : Phase)
    → HoldsPlan request phase
    → HoldsPlan request (advance hash search overrides defaults conn request phase).1
unfolding advance begin
advance-HoldsPlan hash search overrides defaults conn
      (prepare_request ticket_id reason now user_id request_id hex auth) phase holds =
    tt
advance-HoldsPlan hash search overrides defaults conn (execute_request action_id now) phase holds =
    tt
advance-HoldsPlan hash search overrides defaults conn
      (confirm_request action_id payload_hash auth now user_id) start holds =
    by_plan (confirm_plan conn action_id payload_hash auth now user_id) refl
  where
    by_plan :
        (r : Result Plan)
        → confirm_plan conn action_id payload_hash auth now user_id ≡ r
        → HoldsPlan (confirm_request action_id payload_hash auth now user_id) (plan_phase r)
    by_plan (ok plan) h =
        confirm_plan-ConfirmsOnly conn action_id payload_hash auth now user_id plan h
    by_plan (raise e) h = tt
advance-HoldsPlan hash search overrides defaults conn
      (confirm_request action_id payload_hash auth now user_id) (planned plan) holds =
    by_result (finish conn plan)
  where
    by_result :
        (r : Result (Database × ActionOutcome))
        → HoldsPlan (confirm_request action_id payload_hash auth now user_id) (write_phase conn r).1
    by_result (ok (conn', outcome)) = tt
    by_result (raise e) = tt
advance-HoldsPlan hash search overrides defaults conn
      (confirm_request action_id payload_hash auth now user_id) (returned outcome) holds =
    tt
advance-HoldsPlan hash search overrides defaults conn
      (confirm_request action_id payload_hash auth now user_id) (raised e) holds =
    tt

-- What a confirmation's UPDATE does to the chance: a success uses it up.
module _ (hash : PayloadHash) (conn : Database) (audited : IsAudited hash conn.actions) where
  lost-fails :
      (id : String) (conn' : Database) (found : Option ActionRecord)
      → chance conn'.actions id ≤ chance conn.actions id
      → let (after, phase) =
          write_phase conn (do outcome ← lost_outcome to_confirm id found; ok (conn', outcome)) in
        points (succeeded phase) + chance after.actions id ≤ chance conn.actions id
  lost-fails id conn' none le = omega arith
  lost-fails id conn' (some row) le = omega (arith, le)

  spends :
      (b : Bool) (s : ActionStatus)
      → s ≢ pending_confirmation
      → points b + points (same_action_status s pending_confirmation) ≤ 1
  spends b s other = ground arith

  swap-uses :
      (s : Swap)
      → IsSafe conn.actions s
      → s.expected_status ≡ pending_confirmation
      → s.verb ≡ to_confirm
      → points (succeeded (write_phase conn (finish_swap conn s)).1)
          + chance (write_phase conn (finish_swap conn s)).0.actions s.next.action_id
        ≤ chance conn.actions s.next.action_id
  unfolding finish_swap
  swap-uses s safe expects verb =
      let wins = save-won conn.actions s.next s.expected_status audited.keyed in
      elim (Bool-cases (found_with s.expected_status (get_action conn.actions s.next.action_id))) [
        | inr lost ↦
            rw (wins ∙ lost, verb)
              (lost-fails s.next.action_id _ _
                (chance-Extends conn.actions _ s.next.action_id (save-Extends conn.actions s safe)))
        | inl hit ↦ elim (Option-cases (get_action conn.actions s.next.action_id)) [
          | inl missing ↦ absurd (false≢true (rw missing at hit))
          | inr (row, stored) ↦
              let status : same_action_status row.status s.expected_status ≡ true =
                rw stored at hit in
              let after =
                get_action-save_self conn.actions s.next s.expected_status row stored status in
              let before : same_action_status row.status pending_confirmation ≡ true =
                subst (λ e. same_action_status row.status e ≡ true) expects status in
              rw (wins ∙ hit, after, stored, before)
                (spends s.won.success s.next.status safe.leaves_pending)
        ]
      ]

  quiet : (b : Bool) (r : Result Plan) → points (b && succeeded (plan_phase r)) ≡ 0
  quiet b (ok plan) = ground arith
  quiet b (raise e) = ground arith

  at_most : (b c : Bool) → points (b && c) ≤ points c
  at_most b c = ground arith

  module _ (search : String → String → Bool) (overrides : List AgreementOverride)
      (defaults : Defaults) (id : String) where
    -- A step adds a success only if it uses up the chance.
    abbrev pub Pays : Request → Phase → Type 0
    Pays request phase =
        let (conn', phase') = advance hash search overrides defaults conn request phase in
        points (asks id request && succeeded phase') + chance conn'.actions id
        ≤ points (asks id request && succeeded phase) + chance conn.actions id

    keeps-chance :
        (request : Request) (phase : Phase)
        → IsSafePhase conn.actions phase
        → chance (advance hash search overrides defaults conn request phase).0.actions id
          ≤ chance conn.actions id
    keeps-chance request phase safe =
        chance-Extends conn.actions _ id
          (advance-Keeps hash conn audited search overrides defaults request phase safe).extends

    swap-Pays :
        (action_id payload_hash : String) (auth : AuthContext) (now : Instant) (user_id : String)
        (s : Swap)
        → IsSafe conn.actions s
        → ConfirmsOnly action_id (swap s)
        → Pays (confirm_request action_id payload_hash auth now user_id) (planned (swap s))
    unfolding advance finish
    swap-Pays action_id payload_hash auth now user_id s safe (same, expects, verb) =
        elim (Bool-cases (action_id == id)) [
          | inl asked ↦
              let own : s.next.action_id ≡ id = same ∙ (eq_iff action_id id).0 asked in
              let uses =
                subst
                  (λ a.
                    points (succeeded (write_phase conn (finish_swap conn s)).1)
                      + chance (write_phase conn (finish_swap conn s)).0.actions a
                    ≤ chance conn.actions a)
                  own (swap-uses s safe expects verb) in
              rw asked (omega arith)
          | inr other ↦
              let kept =
                keeps-chance (confirm_request action_id payload_hash auth now user_id)
                  (planned (swap s)) safe in
              rw other (omega arith)
        ]

    pub advance-Pays :
        (request : Request) (phase : Phase)
        → IsSafePhase conn.actions phase
        → HoldsPlan request phase
        → Pays request phase
    unfolding advance begin finish
    advance-Pays (prepare_request ticket_id reason now user_id request_id hex auth) phase safe
          holds =
        let kept =
          keeps-chance (prepare_request ticket_id reason now user_id request_id hex auth) phase
            safe in
        omega arith
    advance-Pays (execute_request action_id now) phase safe holds =
        let kept = keeps-chance (execute_request action_id now) phase safe in omega arith
    advance-Pays (confirm_request action_id payload_hash auth now user_id) start safe holds =
        let none' =
          quiet (action_id == id) (confirm_plan conn action_id payload_hash auth now user_id) in
        rw none' (omega arith)
    advance-Pays (confirm_request action_id payload_hash auth now user_id) (planned (answer o)) safe
          holds =
        rw holds (omega arith)
    advance-Pays (confirm_request action_id payload_hash auth now user_id) (planned (swap s)) safe
          holds =
        swap-Pays action_id payload_hash auth now user_id s safe holds
    advance-Pays (confirm_request action_id payload_hash auth now user_id) (returned o) safe holds =
        omega arith
    advance-Pays (confirm_request action_id payload_hash auth now user_id) (raised e) safe holds =
        omega arith
