-- ===== src/Policy.antt =====
-- app/policy/applicability.py: which source's clause governs a topic for an account.
--
-- `defaults` is a total function: the registry has an entry for each topic.
pub mod Governs
use parcelpilot_ops_copilot.Prelude.{
  String, Bool, true, false, not, Option, none, some, List, [], ◌∷◌, ◌&&◌, ◌==◌, find,
  if◌then◌else◌,
}
use parcelpilot_ops_copilot.Models.{
  ClauseTopic, cancellation_fee, service_credit_threshold_and_amount, service_credit_aggregate_cap,
  sla_first_response, same_topic, Date, Database, is_active_at,
}
use parcelpilot_ops_copilot.Result.{Result, ok, raise, Error, ◌>>=◌}
use parcelpilot_ops_copilot.Repository.{get_source}

pub record AgreementOverride : Type 0 where
  pub account_id : String
  pub source_id : String
  pub section : String
  pub topic : ClauseTopic
  pub note : String

abbrev pub Defaults : Type 0
Defaults = ClauseTopic → Option (String × String)

abbrev override_entry : String → String → String → ClauseTopic → String → AgreementOverride
override_entry account_id source_id section topic note = record {
  account_id = account_id;
  source_id = source_id;
  section = section;
  topic = topic;
  note = note;
}

abbrev pub agreement_overrides : List AgreementOverride
agreement_overrides =
    override_entry "ACCT-001" "SRC-05" "2" cancellation_fee
      "Northstar may cancel any BOOKED shipment before pickup with no fee, regardless of how long ago it was booked (SRC-05 s2)."
    ∷ override_entry "ACCT-001" "SRC-05" "3" service_credit_aggregate_cap
        "Northstar's monthly aggregate service credits are capped at INR 5,000; the per-credit threshold and amount are unchanged (SRC-05 s3)."
    ∷ override_entry "ACCT-001" "SRC-05" "1" sla_first_response
        "Northstar's agreement replaces the standard first-response targets (SRC-05 s1)."
    ∷ override_entry "ACCT-002" "SRC-06" "3" service_credit_threshold_and_amount
        "LumenWorks' agreement replaces both the default failed-pickup delay threshold and credit amount (SRC-06 s3)."
    ∷ override_entry "ACCT-002" "SRC-06" "1" sla_first_response
        "LumenWorks' agreement replaces the standard first-response targets; no weekend or after-hours coverage (SRC-06 s1)."
    ∷ []

abbrev pub default_source : Defaults
default_source cancellation_fee = some ("SRC-03", "1")
default_source service_credit_threshold_and_amount = some ("SRC-03", "2")
default_source service_credit_aggregate_cap = none
default_source sla_first_response = some ("SRC-01", "3")

-- The three texts of `reason`, each with what it prints.
pub data ApplicabilityReason : Type 0 where
  no_agreement : String → ClauseTopic → ApplicabilityReason
  not_active : String → Date → Date → Option Date → ApplicabilityReason
  agreement_note : String → ApplicabilityReason

pub record ApplicabilityResult : Type 0 where
  pub topic : ClauseTopic
  pub account_id : String
  pub winning_source_id : String
  pub winning_section : String
  pub overridden_source_id : Option String
  pub overridden_section : Option String
  pub reason : ApplicabilityReason
  pub needs_human_review : Bool

abbrev pub addresses : String → ClauseTopic → AgreementOverride → Bool
addresses account_id topic o = o.account_id == account_id && same_topic o.topic topic

-- The default policy governs, if there is one.
abbrev fall_back :
    ClauseTopic
    → String
    → ApplicabilityReason
    → Bool
    → Error
    → Option (String × String)
    → Result ApplicabilityResult
fall_back topic account_id reason review error none = raise error
fall_back topic account_id reason review error (some (source_id, section)) = ok (record {
  topic = topic;
  account_id = account_id;
  winning_source_id = source_id;
  winning_section = section;
  overridden_source_id = none;
  overridden_section = none;
  reason = reason;
  needs_human_review = review;
})

abbrev pub source_part : Option (String × String) → Option String
source_part none = none
source_part (some (source_id, section)) = some source_id

abbrev pub section_part : Option (String × String) → Option String
section_part none = none
section_part (some (source_id, section)) = some section

abbrev pub governed_by :
    ClauseTopic → String → AgreementOverride → Option (String × String) → ApplicabilityResult
governed_by topic account_id o default = record {
  topic = topic;
  account_id = account_id;
  winning_source_id = o.source_id;
  winning_section = o.section;
  overridden_source_id = source_part default;
  overridden_section = section_part default;
  reason = ApplicabilityReason.agreement_note o.note;
  needs_human_review = false;
}

resolve_override :
    Database
    → ClauseTopic
    → String
    → Date
    → Option (String × String)
    → Option AgreementOverride
    → Result ApplicabilityResult
resolve_override conn topic account_id at default none =
    fall_back topic account_id (ApplicabilityReason.no_agreement account_id topic) false
      (Error.no_default_no_agreement topic account_id) default
resolve_override conn topic account_id at default (some o) = do
  agreement ← get_source conn o.source_id
  if not (is_active_at agreement at)
      then fall_back topic account_id
          (ApplicabilityReason.not_active o.source_id at agreement.effective_date
            agreement.expiry_date)
          true (Error.inactive_no_default o.source_id at topic) default
      else ok (governed_by topic account_id o default)

unfoldable pub resolve_applicability :
    Database
    → ClauseTopic
    → String
    → Date
    → List AgreementOverride
    → Defaults
    → Result ApplicabilityResult
unfolding resolve_override
resolve_applicability conn topic account_id at overrides defaults =
    resolve_override conn topic account_id at (defaults topic)
      (find (addresses account_id topic) overrides)
