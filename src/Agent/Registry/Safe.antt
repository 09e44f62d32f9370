-- ===== src/Agent/Registry/Safe.antt =====
-- The errors whose message execute_tool of app/agent/registry.py may show.
use parcelpilot_ops_copilot.Prelude.{◌≡◌, String, true}
use mathlib.Core.Bool.{false≢true}
use parcelpilot_ops_copilot.Models.{ClauseTopic, Date}
use parcelpilot_ops_copilot.Result.{Error, EntityType, Denial}
use parcelpilot_ops_copilot.Agent.Registry.{is_safe}

-- An error of the application, or a ValueError.
pub data MayShow : Error → Type 0 where
  unknown : (kind : EntityType) (id : String) → MayShow (Error.unknown_entity kind id)
  denied : (denial : Denial) → MayShow (Error.not_authorized denial)
  no_filter : MayShow Error.invalid_filter
  no_default :
      (topic : ClauseTopic) (id : String) → MayShow (Error.no_default_no_agreement topic id)
  inactive :
      (id : String) (at : Date) (topic : ClauseTopic)
      → MayShow (Error.inactive_no_default id at topic)
  no_value : (message : String) → MayShow (Error.value_error message)

pub is_safe-MayShow : (exc : Error) → is_safe exc ≡ true → MayShow exc
unfolding is_safe
is_safe-MayShow (Error.unknown_entity kind id) h = unknown kind id
is_safe-MayShow (Error.not_authorized denial) h = denied denial
is_safe-MayShow (Error.no_default_no_agreement topic id) h = no_default topic id
is_safe-MayShow (Error.inactive_no_default id at' topic) h = inactive id at' topic
is_safe-MayShow (Error.key_error key) h = absurd (false≢true h)
is_safe-MayShow Error.assertion_error h = absurd (false≢true h)
is_safe-MayShow Error.type_error h = absurd (false≢true h)
is_safe-MayShow Error.integrity_error h = absurd (false≢true h)
is_safe-MayShow (Error.value_error message) h = no_value message
is_safe-MayShow Error.invalid_filter h = no_filter
