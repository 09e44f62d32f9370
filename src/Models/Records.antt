-- ===== src/Models/Records.antt =====
-- The records. The lines give the class that each one models.
use parcelpilot_ops_copilot.Prelude.{
  ℕ, ◌*◌, ◌/◌, String, Bool, Option, none, some, List, leb, contains, ltb, if◌then◌else◌, true,
  false, ◌==◌,
}
use parcelpilot_ops_copilot.Models.Enums.{
  Role, OrderStatus, TicketStatus, Severity, ActionType, ActionStatus, SourceType, SourceStatus,
  AuthorityClass, ScopeKind, is_global,
}

abbrev pub Instant : Type 0
Instant = ℕ

abbrev pub Date : Type 0
Date = ℕ

abbrev pub minute : ℕ
minute = 60000000

abbrev pub hour : ℕ
hour = 3600000000

-- `datetime.date()`
abbrev pub date_of : Instant → Date
date_of t = t / 86400000000

-- An amount in units of 1/10,000 rupee.
abbrev pub Money : Type 0
Money = ℕ

abbrev pub inr : ℕ → Money
inr n = n * 10000

-- AuthContext; a scope of `none` is unrestricted.
pub record AuthContext : Type 0 where
  pub role : Role
  pub account_scope : Option (List String)

abbrev pub in_scope : Option (List String) → String → Bool
in_scope none account_id = true
in_scope (some ids) account_id = contains account_id ids

abbrev pub allows_account : AuthContext → String → Bool
allows_account auth account_id = in_scope auth.account_scope account_id

pub record Account : Type 0 where
  pub account_id : String
  pub account_name : String
  pub plan : String
  pub status : String
  pub csm : String
  pub contract_file : Option String
  pub premium_support : Bool
  pub notes : String

pub record Order : Type 0 where
  pub order_id : String
  pub account_id : String
  pub carrier : String
  pub status : OrderStatus
  pub booked_at : Instant
  pub pickup_window_start : Instant
  pub pickup_window_end : Instant
  pub pickup_actual_at : Option Instant
  -- in 1/100 rupee
  pub shipment_fee_paise : ℕ
  pub carrier_fault : Bool
  pub customer_fault : Bool
  pub cancellation_requested_at : Option Instant
  pub notes : String

pub record Ticket : Type 0 where
  pub ticket_id : String
  pub account_id : String
  pub created_at : Instant
  pub status : TicketStatus
  pub subject : String
  pub description : String
  pub channel : String
  pub assigned_to : String
  pub last_customer_message_at : Instant
  pub historical_resolution : Option String

-- SourceScope
pub record SourceScope : Type 0 where
  pub kind : ScopeKind
  pub account_id : Option String

abbrev covers_account : Option String → Option String → Bool
covers_account own none = true
covers_account none (some account_id) = false
covers_account (some own) (some account_id) = account_id == own

-- `SourceScope.covers`; without an account there is no restriction
abbrev pub covers : SourceScope → Option String → Bool
covers scope account_id =
    if is_global scope.kind then true else covers_account scope.account_id account_id

-- SourceDocument, with the fields that the modelled code reads.
pub record SourceDocument : Type 0 where
  pub source_id : String
  pub effective_date : Date
  pub expiry_date : Option Date

abbrev not_past : Option Date → Date → Bool
not_past none at = true
not_past (some expiry) at = leb at expiry

unfoldable pub is_active_at : SourceDocument → Date → Bool
is_active_at source at =
    if ltb at source.effective_date then false else not_past source.expiry_date at

-- DocumentChunk. `normalized_text`, which only the index reads, is left out.
pub record DocumentChunk : Type 0 where
  pub chunk_id : String
  pub source_id : String
  pub filename : String
  pub page : ℕ
  pub section : Option String
  pub text : String
  pub status : SourceStatus
  pub source_type : SourceType
  pub account_scope : Option String
  pub effective_date : Date
  pub authority_class : AuthorityClass

-- A row of `sla_targets`.
pub record SlaTarget : Type 0 where
  pub source_id : String
  pub plan : Option String
  pub account_id : Option String
  pub severity : Severity
  pub target_text : String
  pub target_minutes : Option ℕ
  pub is_24x7 : Bool
  pub requires_business_calendar : Bool

-- What a citation points at: `p{page}:{section}`, `{table}:{record_id}`, or nothing.
pub data Locator : Type 0 where
  page_section : ℕ → String → Locator
  table_record : String → String → Locator
  no_locator : Locator

pub data EvidenceKind : Type 0 where
  document structured calculation : EvidenceKind

pub record EvidenceRef : Type 0 where
  pub kind : EvidenceKind
  pub source_id : String
  pub locator : Locator
  pub note : Option String

-- The `proposed_change` of an escalation; `new_priority` is always "escalated".
pub record ProposedChange : Type 0 where
  pub new_priority : String
  pub previous_status : TicketStatus
  pub severity : Severity
  pub sla_breached : Bool

pub record ActionRecord : Type 0 where
  pub action_id : String
  pub request_id : String
  pub user_id : String
  pub action_type : ActionType
  pub target : String
  pub proposed_change : ProposedChange
  pub reason : String
  pub evidence : List EvidenceRef
  pub risk : String
  pub payload_hash : String
  pub status : ActionStatus
  pub prepared_at : Instant
  pub expires_at : Instant
  pub confirmed_at : Option Instant
  pub executed_at : Option Instant
  pub idempotency_key : String
  pub failure_reason : Option String

-- The tables, each a list of rows in the order in which a scan meets them.
pub record Database : Type 0 where
  pub accounts : List Account
  pub orders : List Order
  pub tickets : List Ticket
  pub sources : List SourceDocument
  pub chunks : List DocumentChunk
  pub sla_targets : List SlaTarget
  pub actions : List ActionRecord
