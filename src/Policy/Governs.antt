-- ===== src/Policy/Governs.antt =====
-- Which clause governs, by resolve_applicability of app/policy/applicability.py.
use parcelpilot_ops_copilot.Prelude.{
  String, ◌≡◌, refl, inl, inr, true, false, Option, none, some, List, arith, find, filter, Has,
  find-Has, find-none, find-filter, ◌==◌, eq_iff, Option-cases, Bool-cases, ◌≢◌, ◌&&◌, sym, ◌∙◌,
}
use mathlib.Core.Bool.{false≢true}
use parcelpilot_ops_copilot.Models.{
  ClauseTopic, same_topic, Date, Database, SourceDocument, is_active_at,
}
use parcelpilot_ops_copilot.Result.{ok, raise, Error, Result-cases}
use parcelpilot_ops_copilot.Repository.{get_source}
use parcelpilot_ops_copilot.Policy.{
  AgreementOverride, Defaults, ApplicabilityReason, ApplicabilityResult, addresses,
  resolve_override, resolve_applicability, governed_by,
}

-- An agreement of this account on this topic that is in force on the day.
pub record InForce (conn : Database) (topic : ClauseTopic) (account_id : String) (at : Date)
    (overrides : List AgreementOverride) (o : AgreementOverride) : Type 0 where
  pub listed : Has o overrides
  pub own_account : o.account_id ≡ account_id
  pub own_topic : o.topic ≡ topic
  pub agreement : SourceDocument
  pub registered : get_source conn o.source_id ≡ ok agreement
  pub active : is_active_at agreement at ≡ true

same_topic-eq : (a b : ClauseTopic) → same_topic a b ≡ true → a ≡ b
same_topic-eq a b h = ground arith

own_topic_lem :
    (account_id : String) (topic : ClauseTopic)
    → (account_id == account_id && same_topic topic topic) ≡ true
own_topic_lem account_id topic = ground (arith, eq_iff account_id account_id)

addresses-own :
    {topic : ClauseTopic} {account_id : String} (o : AgreementOverride)
    → o.account_id ≡ account_id
    → o.topic ≡ topic
    → addresses account_id topic o ≡ true
addresses-own {topic} {account_id} o own_account own_topic =
    rw (own_account, own_topic) (own_topic_lem account_id topic)

find_override :
    (topic : ClauseTopic) (account_id : String) (overrides : List AgreementOverride)
    {o : AgreementOverride}
    → find (addresses account_id topic) overrides ≡ some o
    → Has o overrides × (o.account_id ≡ account_id) × (o.topic ≡ topic)
find_override topic account_id overrides {o} h =
    let found = find-Has (addresses account_id topic) overrides {b = o} h in
    ground (arith, found, eq_iff o.account_id account_id, same_topic-eq o.topic topic)

-- An agreement of this account on this topic that is registered and out of its term on the day.
pub record OutOfTerm (conn : Database) (topic : ClauseTopic) (account_id : String) (at : Date)
    (overrides : List AgreementOverride) : Type 0 where
  pub entry : AgreementOverride
  pub listed : Has entry overrides
  pub own_account : entry.account_id ≡ account_id
  pub own_topic : entry.topic ≡ topic
  pub agreement : SourceDocument
  pub registered : get_source conn entry.source_id ≡ ok agreement
  pub inactive : is_active_at agreement at ≡ false

module _ (conn : Database) (topic : ClauseTopic) (account_id : String) (at : Date)
    (overrides : List AgreementOverride) (defaults : Defaults) where
  -- Why a result names the source that it names.
  pub data Explained (r : ApplicabilityResult) : Type 0 where
    agreement_wins :
        (o : AgreementOverride)
        → InForce conn topic account_id at overrides o
        → (r.winning_source_id ≡ o.source_id) × (r.winning_section ≡ o.section)
        → r.needs_human_review ≡ false
        → Explained r
    default_wins :
        defaults topic ≡ some (r.winning_source_id, r.winning_section)
        → r.overridden_source_id ≡ none
        → r.needs_human_review ≡ false
        → ((o : AgreementOverride) → Has o overrides → addresses account_id topic o ≡ false)
        → Explained r
    default_for_lapsed :
        defaults topic ≡ some (r.winning_source_id, r.winning_section)
        → r.overridden_source_id ≡ none
        → r.needs_human_review ≡ true
        → OutOfTerm conn topic account_id at overrides
        → Explained r

  no_override :
      (r : ApplicabilityResult) (d : Option (String × String))
      → defaults topic ≡ d
      → find (addresses account_id topic) overrides ≡ none
      → resolve_override conn topic account_id at d none ≡ ok r
      → Explained r
  unfolding resolve_override
  no_override r none e none_found h = cc
  no_override r (some (source_id, section)) e none_found h =
      default_wins (ground arith) (ground arith) (ground arith)
        (find-none (addresses account_id topic) overrides none_found)

  lapsed :
      (r : ApplicabilityResult) (o : AgreementOverride) (agreement : SourceDocument)
      (d : Option (String × String))
      → defaults topic ≡ d
      → find (addresses account_id topic) overrides ≡ some o
      → get_source conn o.source_id ≡ ok agreement
      → is_active_at agreement at ≡ false
      → resolve_override conn topic account_id at d (some o) ≡ ok r
      → Explained r
  unfolding resolve_override
  lapsed r o agreement none e found registered inactive h = ground arith
  lapsed r o agreement (some (source_id, section)) e found registered inactive h =
      let (listed, own_account, own_topic) = find_override topic account_id overrides found in
      default_for_lapsed (ground arith) (ground arith) (ground arith) (record {
        entry = o;
        listed = listed;
        own_account = own_account;
        own_topic = own_topic;
        agreement = agreement;
        registered = registered;
        inactive = inactive;
      })

  in_force :
      (r : ApplicabilityResult) (o : AgreementOverride) (agreement : SourceDocument)
      (d : Option (String × String))
      → find (addresses account_id topic) overrides ≡ some o
      → get_source conn o.source_id ≡ ok agreement
      → is_active_at agreement at ≡ true
      → resolve_override conn topic account_id at d (some o) ≡ ok r
      → Explained r
  unfolding resolve_override
  in_force r o agreement d found registered active h =
      let (listed, own_account, own_topic) = find_override topic account_id overrides found in
      agreement_wins o
        (record {
          listed = listed;
          own_account = own_account;
          own_topic = own_topic;
          agreement = agreement;
          registered = registered;
          active = active;
        })
        (ground arith, ground arith) (ground arith)

  unregistered :
      (r : ApplicabilityResult) (o : AgreementOverride) (d : Option (String × String))
      (error : Error)
      → get_source conn o.source_id ≡ raise error
      → resolve_override conn topic account_id at d (some o) ≢ ok r
  unfolding resolve_override
  unregistered r o d error missing h = ground arith

  override_active :
      (o : AgreementOverride) (agreement : SourceDocument) (d : Option (String × String))
      → get_source conn o.source_id ≡ ok agreement
      → is_active_at agreement at ≡ true
      → resolve_override conn topic account_id at d (some o) ≡ ok (governed_by topic account_id o d)
  unfolding resolve_override
  override_active o agreement d registered active = ground arith

  override-Explained :
      (r : ApplicabilityResult) (o : AgreementOverride) (d : Option (String × String))
      → defaults topic ≡ d
      → find (addresses account_id topic) overrides ≡ some o
      → resolve_override conn topic account_id at d (some o) ≡ ok r
      → Explained r
  override-Explained r o d e found h = elim (Result-cases (get_source conn o.source_id)) [
    | inl (agreement, registered) ↦ elim (Bool-cases (is_active_at agreement at)) [
      | inl active ↦ in_force r o agreement d found registered active h
      | inr inactive ↦ lapsed r o agreement d e found registered inactive h
    ]
    | inr (error, missing) ↦ absurd (unregistered r o d error missing h)
  ]

  -- A result names an agreement of this account on this topic that is in force on the day, or the
  -- default of the topic; human review is asked for exactly when a lapsed agreement is passed over.
  pub resolve-Explained :
      (r : ApplicabilityResult)
      → resolve_applicability conn topic account_id at overrides defaults ≡ ok r
      → Explained r
  unfolding resolve_applicability
  resolve-Explained r h = elim (Option-cases (find (addresses account_id topic) overrides)) [
    | inl none_found ↦ no_override r (defaults topic) refl none_found (rw none_found at h)
    | inr (o, found) ↦ override-Explained r o (defaults topic) refl found (rw found at h)
  ]

  -- The only entry that addresses the account and the topic is the one that the loop finds.
  resolve-governed_by :
      (o : AgreementOverride)
      → InForce conn topic account_id at overrides o
      → ((other : AgreementOverride)
          → Has other overrides
          → other.account_id ≡ account_id
          → other.topic ≡ topic
          → other ≡ o)
      → resolve_applicability conn topic account_id at overrides defaults
        ≡ ok (governed_by topic account_id o (defaults topic))
  unfolding resolve_applicability
  resolve-governed_by o f only = elim (Option-cases (find (addresses account_id topic) overrides)) [
    | inl none_found ↦ absurd (
        false≢true (
          sym (find-none (addresses account_id topic) overrides none_found o f.listed)
          ∙ addresses-own o f.own_account f.own_topic))
    | inr (o', found) ↦
        let (listed, own_account, own_topic) = find_override topic account_id overrides found in
        let same : o' ≡ o = only o' listed own_account own_topic in
        rw (found, same) (override_active o f.agreement (defaults topic) f.registered f.active)
  ]

  -- The clause of the entry governs this account and topic, and the default, if there is one, is
  -- named as overridden.
  pub record Governing (o : AgreementOverride) (r : ApplicabilityResult) : Type 0 where
    pub of_topic : r.topic ≡ topic
    pub of_account : r.account_id ≡ account_id
    pub winner : (r.winning_source_id ≡ o.source_id) × (r.winning_section ≡ o.section)
    pub overrides_default :
        (source_id section : String)
        → defaults topic ≡ some (source_id, section)
        → (r.overridden_source_id ≡ some source_id) × (r.overridden_section ≡ some section)
    pub overrides_nothing :
        defaults topic ≡ none → (r.overridden_source_id ≡ none) × (r.overridden_section ≡ none)
    pub because : r.reason ≡ ApplicabilityReason.agreement_note o.note
    pub no_review : r.needs_human_review ≡ false

  -- If an agreement of this account on this topic is in force and no other entry addresses them,
  -- the result is for this account and topic and names its clause as the winner, the default, if
  -- there is one, as overridden, and its note as the reason; no review is asked for.
  pub agreement_governs :
      (o : AgreementOverride)
      → InForce conn topic account_id at overrides o
      → ((other : AgreementOverride)
          → Has other overrides
          → other.account_id ≡ account_id
          → other.topic ≡ topic
          → other ≡ o)
      → (r : ApplicabilityResult) × (resolve_applicability conn topic account_id at overrides
            defaults
          ≡ ok r)
        × Governing o r
  agreement_governs o f only = (
    governed_by topic account_id o (defaults topic),
    resolve-governed_by o f only,
    record {
      of_topic = refl;
      of_account = refl;
      winner = (refl, refl);
      overrides_default = λ source_id section e. rw e (refl, refl);
      overrides_nothing = λ e. rw e (refl, refl);
      because = refl;
      no_review = refl;
    },
  )

-- Entries for other accounts have no influence on the result.
resolve_own_account :
    (conn : Database) (topic : ClauseTopic) (account_id : String) (at : Date)
    (overrides : List AgreementOverride) (defaults : Defaults)
    → resolve_applicability conn topic account_id at
        (filter (λ o. o.account_id == account_id) overrides)
        defaults
      ≡ resolve_applicability conn topic account_id at overrides defaults
unfolding resolve_applicability
resolve_own_account conn topic account_id at overrides defaults = rw (
    find-filter (addresses account_id topic) (λ o. o.account_id == account_id) (λ o h. ground arith)
      overrides)
