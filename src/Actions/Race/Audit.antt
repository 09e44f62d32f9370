-- ===== src/Actions/Race/Audit.antt =====
-- What a row of the table of actions records of its own history, across one UPDATE of
-- app/actions/store.py.
use mathlib.Core.Option
use mathlib.Core.Path.{subst}
use parcelpilot_ops_copilot.Prelude.{
  ◌+◌, ◌*◌, ◌≤◌, String, ◌≡◌, ◌≢◌, ◌⊎◌, inl, inr, refl, sym, ◌∙◌, ap, true, Option, none, some,
  arith, Bool-cases, eq_iff, some_cancel,
}
use parcelpilot_ops_copilot.Models.{
  ActionRecord, ActionStatus, same_action_status, pending_confirmation, confirmed, executed,
  expired, Instant, minute,
}
use parcelpilot_ops_copilot.Actions.Store.{
  Table, get_action, save_action_if_status, with_state_of, swap_row, swaps,
}
use parcelpilot_ops_copilot.Actions.Workflow.{PayloadHash, Swap, action_expiry_minutes}
use parcelpilot_ops_copilot.Actions.Rows.{IsKeyed, get_action-save, save-IsKeyed, get_action-id}

-- The columns of a row tell its history: it waits, it expired unconfirmed, it was confirmed before
-- it expired, or it was so confirmed and then executed.
pub data Lifecycle (row : ActionRecord) : Type 0 where
  waiting :
      row.status ≡ pending_confirmation
      → row.confirmed_at ≡ none
      → row.executed_at ≡ none
      → Lifecycle row
  lapsed : row.status ≡ expired → row.confirmed_at ≡ none → row.executed_at ≡ none → Lifecycle row
  agreed :
      (t : Instant)
      → row.status ≡ confirmed
      → row.confirmed_at ≡ some t
      → t ≤ row.expires_at
      → row.executed_at ≡ none
      → Lifecycle row
  done :
      (t u : Instant)
      → row.status ≡ executed
      → row.confirmed_at ≡ some t
      → t ≤ row.expires_at
      → row.executed_at ≡ some u
      → Lifecycle row

module _ (hash : PayloadHash) where
  pub record IsSound (row : ActionRecord) : Type 0 where
    pub window : row.expires_at ≡ row.prepared_at + action_expiry_minutes * minute
    pub key : row.idempotency_key ≡ row.action_id
    pub payload : row.payload_hash ≡ hash row.action_type row.target row.proposed_change
    pub life : Lifecycle row

  pub record IsAudited (rows : Table) : Type 0 where
    pub keyed : IsKeyed rows
    pub sound : (id : String) (row : ActionRecord) → get_action rows id ≡ some row → IsSound row

-- A conditional UPDATE that a thread holds: it leaves an open state for a later one, and it was
-- made from a row with the same term as the stored one.
pub record IsSafe (rows : Table) (s : Swap) : Type 0 where
  pub from_open : (s.expected_status ≡ pending_confirmation) ⊎ (s.expected_status ≡ confirmed)
  pub leaves_pending : s.next.status ≢ pending_confirmation
  pub life : Lifecycle s.next
  pub current : ActionRecord
  pub stored : get_action rows s.next.action_id ≡ some current
  pub same_term : s.next.expires_at ≡ current.expires_at

-- A later state of a row: the proposal is the same, and an executed or expired row is unchanged.
pub record Follows (row row' : ActionRecord) : Type 0 where
  pub same_term : row'.expires_at ≡ row.expires_at
  pub same_user : row'.user_id ≡ row.user_id
  pub same_target : row'.target ≡ row.target
  pub same_change : row'.proposed_change ≡ row.proposed_change
  pub same_hash : row'.payload_hash ≡ row.payload_hash
  pub settled : row.status ≢ pending_confirmation → row'.status ≢ pending_confirmation
  pub final : (row.status ≡ executed) ⊎ (row.status ≡ expired) → row' ≡ row

pub Follows-refl : (row : ActionRecord) → Follows row row
Follows-refl row = record {
  same_term = refl;
  same_user = refl;
  same_target = refl;
  same_change = refl;
  same_hash = refl;
  settled = λ s. s;
  final = λ closed. refl;
}

pub Follows-trans : (a b c : ActionRecord) → Follows a b → Follows b c → Follows a c
Follows-trans a b c f g = record {
  same_term = g.same_term ∙ f.same_term;
  same_user = g.same_user ∙ f.same_user;
  same_target = g.same_target ∙ f.same_target;
  same_change = g.same_change ∙ f.same_change;
  same_hash = g.same_hash ∙ f.same_hash;
  settled = λ s. g.settled (f.settled s);
  final = λ closed.
      let e = f.final closed in
      g.final (subst (λ r. (r.status ≡ executed) ⊎ (r.status ≡ expired)) (sym e) closed) ∙ e;
}

-- Rows stay, each as a later state of itself.
abbrev pub Extends : Table → Table → Type 0
Extends rows rows' =
    (id : String) (row : ActionRecord)
    → get_action rows id ≡ some row
    → (row' : ActionRecord) × (get_action rows' id ≡ some row') × Follows row row'

pub IsSafe-Extends :
    {rows rows' : Table} (s : Swap) → Extends rows rows' → IsSafe rows s → IsSafe rows' s
IsSafe-Extends s extends safe =
    let (row', stored, follows) = extends s.next.action_id safe.current safe.stored in
    record {
      from_open = safe.from_open;
      leaves_pending = safe.leaves_pending;
      life = safe.life;
      current = row';
      stored = stored;
      same_term = safe.same_term ∙ sym follows.same_term;
    }

Lifecycle-with_state_of :
    (next row : ActionRecord)
    → next.expires_at ≡ row.expires_at
    → Lifecycle next
    → Lifecycle (with_state_of next row)
Lifecycle-with_state_of next row term (waiting s c e) = waiting s c e
Lifecycle-with_state_of next row term (lapsed s c e) = lapsed s c e
Lifecycle-with_state_of next row term (agreed t s c le e) = agreed t s c (omega arith) e
Lifecycle-with_state_of next row term (done t u s c le e) = done t u s c (omega arith) e

-- What a lookup finds after an UPDATE: the row as it was, or with the four columns of the new one.
pub data Changed (next : ActionRecord) (expected_status : ActionStatus) (row row' : ActionRecord)
    : Type 0 where
  kept : row' ≡ row → Changed next expected_status row row'
  taken :
      row.action_id ≡ next.action_id
      → same_action_status row.status expected_status ≡ true
      → row' ≡ with_state_of next row
      → Changed next expected_status row row'

swap_row-Changed :
    (next : ActionRecord) (expected_status : ActionStatus) (row : ActionRecord)
    → Changed next expected_status row (swap_row next expected_status row)
swap_row-Changed next expected_status row =
    elim (Bool-cases (swaps next.action_id expected_status row)) [
      | inl hit ↦
          taken (ground (arith, hit, eq_iff row.action_id next.action_id)) (ground arith) (rw hit)
      | inr miss ↦ kept (rw miss)
    ]

module _ (rows : Table) (next : ActionRecord) (expected_status : ActionStatus) (id : String) where
  map-found :
      (found : Option ActionRecord) {row' : ActionRecord}
      → Option.map (swap_row next expected_status) found ≡ some row'
      → (row : ActionRecord) × (found ≡ some row) × Changed next expected_status row row'
  map-found none h = absurd (ground arith)
  map-found (some row) h = (
    row,
    refl,
    subst (Changed next expected_status row) (some_cancel h)
        (swap_row-Changed next expected_status row),
  )

  pub found_after_save :
      (row' : ActionRecord)
      → get_action (save_action_if_status rows next expected_status).0 id ≡ some row'
      → (row : ActionRecord) × (get_action rows id ≡ some row)
        × Changed next expected_status row row'
  found_after_save row' h =
      map-found (get_action rows id) (sym (get_action-save rows next expected_status id) ∙ h)

Changed-Follows :
    (rows : Table) (s : Swap) (row : ActionRecord) {row' : ActionRecord}
    → IsSafe rows s
    → Changed s.next s.expected_status row row'
    → Follows row row'
Changed-Follows rows s row safe (kept e) = subst (Follows row) (sym e) (Follows-refl row)
Changed-Follows rows s row safe (taken same status e) = subst (Follows row) (sym e) (record {
  same_term = refl;
  same_user = refl;
  same_target = refl;
  same_change = refl;
  same_hash = refl;
  settled = λ old. safe.leaves_pending;
  final = λ closed. absurd (open_only closed safe.from_open status);
})
  where
    open_only :
        (row.status ≡ executed) ⊎ (row.status ≡ expired)
        → (s.expected_status ≡ pending_confirmation) ⊎ (s.expected_status ≡ confirmed)
        → same_action_status row.status s.expected_status ≡ true
        → ⊥
    open_only closed opened status = ground arith

pub save-Extends :
    (rows : Table) (s : Swap)
    → IsSafe rows s
    → Extends rows (save_action_if_status rows s.next s.expected_status).0
save-Extends rows s safe id row stored = (
  swap_row s.next s.expected_status row,
  get_action-save rows s.next s.expected_status id ∙ rw stored,
  Changed-Follows rows s row safe (swap_row-Changed s.next s.expected_status row),
)

module _ (hash : PayloadHash) where
  Changed-IsSound :
      (rows : Table) (s : Swap) (id : String) (row : ActionRecord) {row' : ActionRecord}
      → IsSafe rows s
      → get_action rows id ≡ some row
      → IsSound hash row
      → Changed s.next s.expected_status row row'
      → IsSound hash row'
  Changed-IsSound rows s id row safe stored sound (kept e) = subst (IsSound hash) (sym e) sound
  Changed-IsSound rows s id row safe stored sound (taken same status e) =
      let own : get_action rows s.next.action_id ≡ some row =
        subst (λ a. get_action rows a ≡ some row) (sym (get_action-id rows id stored) ∙ same)
          stored in
      let current : safe.current ≡ row = some_cancel (sym safe.stored ∙ own) in
      subst (IsSound hash) (sym e) (record {
        window = sound.window;
        key = sound.key;
        payload = sound.payload;
        life =
            Lifecycle-with_state_of s.next row (safe.same_term ∙ ap (λ r. r.expires_at) current)
              safe.life;
      })

  -- An UPDATE that is safe keeps the audit trail sound.
  pub save-IsAudited :
      (rows : Table) (s : Swap)
      → IsAudited hash rows
      → IsSafe rows s
      → IsAudited hash (save_action_if_status rows s.next s.expected_status).0
  save-IsAudited rows s audited safe = record {
    keyed = save-IsKeyed rows s.next s.expected_status audited.keyed;
    sound = λ id row' h.
        let (row, stored, changed) = found_after_save rows s.next s.expected_status id row' h in
        Changed-IsSound rows s id row safe stored (audited.sound id row stored) changed;
  }
