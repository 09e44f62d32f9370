-- ===== src/Actions/Rows.antt =====
-- The three statements of the store, by what a lookup sees after them.
use parcelpilot_ops_copilot.Prelude.{
  String, ◌≡◌, ◌≢◌, refl, ◌∙◌, Bool, true, false, ◌==◌, Option, none, some, [], ◌∷◌, ◌++◌, arith,
  count_if, eq_iff, if◌then◌else◌, find-Has, eq_refl, find-map, ap, Bool-cases, Option-cases, inl,
  inr,
}
use mathlib.Core.Option
use parcelpilot_ops_copilot.Models.{ActionRecord, ActionStatus, same_action_status}
use parcelpilot_ops_copilot.Result.{ok, ok-injective}
use parcelpilot_ops_copilot.Actions.Store.{
  Table, get_action, insert_action, swaps, with_state_of, swap_row, save_action_if_status,
}

-- No identifier is listed twice, as the primary key demands.
abbrev pub IsKeyed : Table → Type 0
IsKeyed [] = Unit
IsKeyed (row ∷ rows) = (get_action rows row.action_id ≡ none) × IsKeyed rows

swap_row-id :
    (next : ActionRecord) (expected_status : ActionStatus) (row : ActionRecord)
    → (swap_row next expected_status row).action_id ≡ row.action_id
swap_row-id next expected_status row =
    elim (Bool-cases (swaps next.action_id expected_status row)) [ inl h ↦ rw h | inr h ↦ rw h ]

pub get_action-save :
    (rows : Table) (next : ActionRecord) (expected_status : ActionStatus) (id : String)
    → get_action (save_action_if_status rows next expected_status).0 id
      ≡ Option.map (swap_row next expected_status) (get_action rows id)
unfolding get_action save_action_if_status
get_action-save rows next expected_status id =
    find-map (λ row. row.action_id == id) (swap_row next expected_status)
      (λ row. ap (λ (a : String). a == id) (swap_row-id next expected_status row)) rows

-- Whether the row that a lookup finds has the expected_status status.
abbrev pub found_with : ActionStatus → Option ActionRecord → Bool
found_with expected_status none = false
found_with expected_status (some row) = same_action_status row.status expected_status

count-none :
    (rows : Table) (id : String) (expected_status : ActionStatus)
    → get_action rows id ≡ none
    → count_if (swaps id expected_status) rows ≡ 0
unfolding get_action
count-none [] id expected_status h = refl
count-none (row ∷ rows) id expected_status h = ground (arith, count-none rows id expected_status)

count-found :
    (rows : Table) (id : String) (expected_status : ActionStatus)
    → IsKeyed rows
    → count_if (swaps id expected_status) rows
      ≡ (if found_with expected_status (get_action rows id) then 1 else 0)
unfolding get_action
count-found [] id expected_status k = refl
count-found (row ∷ rows) id expected_status k = ground (
  arith,
  count-found rows id expected_status k.1,
  count-none rows id expected_status,
  eq_iff row.action_id id,
)

-- A conditional UPDATE wins exactly if the row under its identifier has the expected_status status.
pub save-won :
    (rows : Table) (next : ActionRecord) (expected_status : ActionStatus)
    → IsKeyed rows
    → (save_action_if_status rows next expected_status).1
      ≡ found_with expected_status (get_action rows next.action_id)
unfolding save_action_if_status
save-won rows next expected_status k =
    elim (Bool-cases (found_with expected_status (get_action rows next.action_id))) [
      | inl yes' ↦ ground (arith, count-found rows next.action_id expected_status k)
      | inr no' ↦ ground (arith, count-found rows next.action_id expected_status k)
    ]

pub save-IsKeyed :
    (rows : Table) (next : ActionRecord) (expected_status : ActionStatus)
    → IsKeyed rows
    → IsKeyed (save_action_if_status rows next expected_status).0
unfolding save_action_if_status
save-IsKeyed [] next expected_status k = tt
save-IsKeyed (row ∷ rows) next expected_status k = (
  rw (swap_row-id next expected_status row)
      (get_action-save rows next expected_status row.action_id ∙ rw k.0),
  save-IsKeyed rows next expected_status k.1,
)

pub get_action-append :
    (rows : Table) (row : ActionRecord) (id : String)
    → get_action rows row.action_id ≡ none
    → get_action (rows ++ row ∷ []) id
      ≡ (if row.action_id == id then some row else get_action rows id)
unfolding get_action
get_action-append [] row id h = refl
get_action-append (r ∷ rows) row id h = ground (
  arith,
  get_action-append rows row id,
  eq_iff r.action_id id,
  eq_iff row.action_id id,
  eq_iff r.action_id row.action_id,
)

pub append-IsKeyed :
    (rows : Table) (row : ActionRecord)
    → get_action rows row.action_id ≡ none
    → IsKeyed rows
    → IsKeyed (rows ++ row ∷ [])
unfolding get_action
append-IsKeyed [] row h k = (refl, tt)
append-IsKeyed (r ∷ rows) row h k = ground (
  arith,
  get_action-append rows row r.action_id,
  append-IsKeyed rows row,
  eq_iff r.action_id row.action_id,
  eq_iff row.action_id r.action_id,
)

-- An INSERT that succeeds had a fresh identifier, and appends the row.
pub insert_fresh :
    (rows : Table) (row : ActionRecord) {rows' : Table}
    → insert_action rows row ≡ ok rows'
    → (get_action rows row.action_id ≡ none) × (rows ++ row ∷ [] ≡ rows')
unfolding insert_action
insert_fresh rows row h = elim (Option-cases (get_action rows row.action_id)) [
  | inl fresh ↦ (fresh, ok-injective (rw fresh at h))
  | inr (r, taken) ↦ absurd (ground arith)
]

pub get_action-insert :
    (rows : Table) (row : ActionRecord) (id : String) {rows' : Table}
    → insert_action rows row ≡ ok rows'
    → get_action rows' id ≡ (if row.action_id == id then some row else get_action rows id)
get_action-insert rows row id h =
    let (fresh, same) = insert_fresh rows row h in rw (← same) (get_action-append rows row id fresh)

pub insert-IsKeyed :
    (rows : Table) (row : ActionRecord) {rows' : Table}
    → insert_action rows row ≡ ok rows'
    → IsKeyed rows
    → IsKeyed rows'
insert-IsKeyed rows row h k =
    let (fresh, same) = insert_fresh rows row h in rw (← same) (append-IsKeyed rows row fresh k)

pub get_action-id :
    (rows : Table) (id : String) {row : ActionRecord}
    → get_action rows id ≡ some row
    → row.action_id ≡ id
unfolding get_action
get_action-id rows id {row} h =
    (eq_iff row.action_id id).0 (find-Has (λ r. r.action_id == id) rows {b = row} h).1

module _ (rows : Table) (next : ActionRecord) (expected_status : ActionStatus) where
  -- A row under another identifier is left alone.
  pub get_action-save_ne :
      (id : String)
      → id ≢ next.action_id
      → get_action (save_action_if_status rows next expected_status).0 id ≡ get_action rows id
  get_action-save_ne id other =
      get_action-save rows next expected_status id ∙ untouched (get_action rows id) refl
    where
      untouched :
          (found : Option ActionRecord)
          → get_action rows id ≡ found
          → Option.map (swap_row next expected_status) found ≡ found
      untouched none e = refl
      untouched (some row) e =
          ground (arith, get_action-id rows id e, eq_iff row.action_id next.action_id)

  -- The row under the identifier, if it has the expected status, takes the four columns.
  pub get_action-save_self :
      (row : ActionRecord)
      → get_action rows next.action_id ≡ some row
      → same_action_status row.status expected_status ≡ true
      → get_action (save_action_if_status rows next expected_status).0 next.action_id
        ≡ some (with_state_of next row)
  get_action-save_self row found status =
      get_action-save rows next expected_status next.action_id
      ∙ rw (found, get_action-id rows next.action_id found, eq_refl, status)
