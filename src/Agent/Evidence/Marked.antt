-- ===== src/Agent/Evidence/Marked.antt =====
-- The markers that validate_citations of app/agent/citations.py accepts.
use Prim.Native.Char.{code}
use Prim.Native.String.{◌++◌ as append}
use text.Mathlib.TextLemmas.{nil-append, cons-append, append-nil}
use parcelpilot_ops_copilot.Prelude.{
  ℕ, ◌≡◌, ◌∙◌, sym, ap, refl, inl, inr, String, true, eqb, arith, Bool-cases, List, map, Has,
  Has-map, Has-contains, contains,
}
use mathlib.Core.Path.{subst}
use parcelpilot_ops_copilot.Models.{EvidenceRef, Locator, page_section, table_record, no_locator}
use parcelpilot_ops_copilot.Agent.Evidence.{is_known, citation_key, key_of, before_colon}

-- The text is empty or begins with a colon.
abbrev pub IsTail : String → Type 0
IsTail String.[] = Unit
IsTail (String.◌∷◌ c s) = code c ≡ 58

-- The marker is the source of the citation, alone or with a colon and any text after it.
abbrev pub IsOf : String → EvidenceRef → Type 0
IsOf marker ref = (tail : String) × IsTail tail × (marker ≡ append ref.source_id tail)

before_colon-append :
    (marker : String) → (tail : String) × IsTail tail × (marker ≡ append (before_colon marker) tail)
before_colon-append String.[] = (String.[], tt, sym (nil-append String.[]))
before_colon-append (String.◌∷◌ c s) = elim (Bool-cases (eqb (code c) 58)) [
  | inl e ↦ rw e (String.◌∷◌ c s, ground arith, sym (nil-append (String.◌∷◌ c s)))
  | inr e ↦
      let (tail, ok, same) = before_colon-append s in
      rw e (tail, ok, ap (λ t. String.◌∷◌ c t) same ∙ sym (cons-append c (before_colon s) tail))
]

-- The text begins with a colon.
abbrev Leads : String → Type 0
Leads String.[] = ⊥
Leads (String.◌∷◌ c s) = code c ≡ 58

append-IsTail : (s t : String) → Leads s → IsTail (append s t)
append-IsTail String.[] t h = absurd h
append-IsTail (String.◌∷◌ c s) t h = subst IsTail (sym (cons-append c s t)) h

key_of-IsTail :
    (decimal : ℕ → String) (source_id : String) (locator : Locator)
    → (tail : String) × IsTail tail × (key_of decimal source_id locator ≡ append source_id tail)
key_of-IsTail decimal source_id (page_section page section) = (
  append ":p" (append (decimal page) (append ":" section)),
  append-IsTail ":p" (append (decimal page) (append ":" section)) refl,
  refl,
)
key_of-IsTail decimal source_id (table_record table record_id) = (
  append ":" (append table (append ":" record_id)),
  append-IsTail ":" (append table (append ":" record_id)) refl,
  refl,
)
key_of-IsTail decimal source_id no_locator = (String.[], tt, sym (append-nil source_id))

pub is_known-IsOf :
    (decimal : ℕ → String) (citations : List EvidenceRef) (marker : String)
    → is_known decimal citations marker ≡ true
    → (ref : EvidenceRef) × Has ref citations × IsOf marker ref
is_known-IsOf decimal citations marker h =
    elim (Bool-cases (contains marker (map (citation_key decimal) citations))) [
      | inl e ↦
          let keys = map (citation_key decimal) citations in
          let (ref, m, same) =
            (Has-map (citation_key decimal) marker citations).0 ((Has-contains marker keys).0 e) in
          let (tail, ok, k) = key_of-IsTail decimal ref.source_id ref.locator in
          (ref, m, (tail, ok, same ∙ k))
      | inr e ↦
          let sources = map (λ (r : EvidenceRef). r.source_id) citations in
          let (ref, m, same) =
            (Has-map (λ (r : EvidenceRef). r.source_id) (before_colon marker) citations).0
              ((Has-contains (before_colon marker) sources).0 (ground arith)) in
          let (tail, ok, k) = before_colon-append marker in
          (ref, m, (tail, ok, k ∙ ap (λ s. append s tail) same))
    ]
