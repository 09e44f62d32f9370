-- ===== src/Agent/Intent.antt =====
-- app/agent/intent.py and app/agent/clarification.py. The signals are `search` of each module's
-- patterns on the question, and `is_blank` is `not question.strip()`.
use parcelpilot_ops_copilot.Prelude.{
  ℕ, String, Bool, false, not, ◌&&◌, ◌||◌, eqb, Option, none, some, List, [], ◌∷◌, ◌++◌, length,
  if◌then◌else◌,
}
use parcelpilot_ops_copilot.Models.{AuthContext}
use parcelpilot_ops_copilot.Agent.Entities.{EntityResolution, nonempty, needs_clarification}

pub data Intent : Type 0 where
  informational order_investigation ticket_investigation account_investigation : Intent
  cancellation service_credit sla severity known_issue multi_source : Intent
  clarification unsupported : Intent

-- The patterns of both modules.
pub data Pattern : Type 0 where
  cancellation_words service_credit_words sla_words known_issue_words severity_words : Pattern
  instance_signals aggregate_signals : Pattern

-- `if test: signals.append(intent)`
abbrev signal : Bool → Intent → List Intent
signal test intent = if test then intent ∷ [] else []

-- `signals[0]` of a single signal, MULTI_SOURCE for more, and without any, by the ids.
abbrev pub by_ids : EntityResolution → Intent
by_ids e =
    if nonempty e.order_ids
    then order_investigation
    else if nonempty e.ticket_ids
    then ticket_investigation
    else if nonempty e.account_ids
    then account_investigation
    else informational

abbrev pub choose : List Intent → EntityResolution → Intent
choose [] e = by_ids e
choose (one ∷ []) e = one
choose (one ∷ more ∷ others) e = multi_source

-- Whose access the request for clarification describes: `scope_desc`.
pub data Scope : Type 0 where
  any_account : Scope
  accounts_count : ℕ → Scope

abbrev pub scope_of : Option (List String) → Scope
scope_of none = any_account
scope_of (some ids) = accounts_count (length ids)

abbrev pub has_one_account : Option (List String) → Bool
has_one_account none = false
has_one_account (some ids) = eqb (length ids) 1

module _ (matches : Pattern → String → Bool) (is_blank : String → Bool) where
  abbrev pub signals_of : String → EntityResolution → List Intent
  signals_of question e =
      signal (matches cancellation_words question && nonempty e.order_ids) cancellation
      ++ signal (matches service_credit_words question && nonempty e.order_ids) service_credit
      ++ signal (matches sla_words question && nonempty e.ticket_ids) sla
      ++ signal (matches severity_words question && nonempty e.ticket_ids) severity
      ++ signal (matches known_issue_words question) known_issue

  unfoldable pub resolve_intent : String → EntityResolution → Intent
  resolve_intent question e =
      if needs_clarification e
      then clarification
      else if is_blank question
      then unsupported
      else choose (signals_of question e) e

  -- `none` is enough to proceed.
  unfoldable pub needs_account_clarification :
      String → EntityResolution → AuthContext → Option Scope
  needs_account_clarification question e auth =
      if nonempty e.order_ids || nonempty e.ticket_ids
      then none
      else if not (matches instance_signals question)
      then none
      else if matches aggregate_signals question
      then none
      else if nonempty e.account_ids
      then none
      else if has_one_account auth.account_scope
      then none
      else some (scope_of auth.account_scope)
