-- ===== src/Actions/Store.antt =====
-- app/actions/store.py, on the table as a list of rows. A call is one SQL statement, hence atomic.
use parcelpilot_ops_copilot.Prelude.{
  String, Bool, ◌&&◌, ◌==◌, Option, List, [], ◌∷◌, ◌++◌, map, find, count_if, eqb, is_some,
  if◌then◌else◌,
}
use parcelpilot_ops_copilot.Models.{ActionRecord, ActionStatus, same_action_status}
use parcelpilot_ops_copilot.Result.{Result, ok, raise, Error}

abbrev pub Table : Type 0
Table = List ActionRecord

unfoldable pub get_action : Table → String → Option ActionRecord
get_action rows action_id = find (λ row. row.action_id == action_id) rows

-- `action_id` is the primary key: a second row with one identifier is an IntegrityError.
unfoldable pub insert_action : Table → ActionRecord → Result Table
unfolding get_action
insert_action rows row =
    if is_some (get_action rows row.action_id)
    then raise Error.integrity_error
    else ok (rows ++ row ∷ [])

-- The WHERE clause of the conditional UPDATE.
abbrev pub swaps : String → ActionStatus → ActionRecord → Bool
swaps action_id expected_status row =
    row.action_id == action_id && same_action_status row.status expected_status

-- The four columns that the UPDATE sets.
abbrev pub with_state_of : ActionRecord → ActionRecord → ActionRecord
with_state_of next row = record row {
  status = next.status;
  confirmed_at = next.confirmed_at;
  executed_at = next.executed_at;
  failure_reason = next.failure_reason;
}

abbrev pub swap_row : ActionRecord → ActionStatus → ActionRecord → ActionRecord
swap_row next expected_status row =
    if swaps next.action_id expected_status row then with_state_of next row else row

-- The new table, and whether exactly one row was changed.
unfoldable pub save_action_if_status : Table → ActionRecord → ActionStatus → Table × Bool
save_action_if_status rows next expected_status = (
  map (swap_row next expected_status) rows,
  eqb (count_if (swaps next.action_id expected_status) rows) 1,
)
