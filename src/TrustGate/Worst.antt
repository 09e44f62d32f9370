-- ===== src/TrustGate/Worst.antt =====
-- The state that the gate of app/agent/trust_gate.py reports.
use parcelpilot_ops_copilot.Prelude.{
  ◌≤◌, ◌≡◌, ◌≢◌, ◌⊎◌, ◌↔◌, inl, inr, refl, sym, ap, ◌∙◌, Bool, List, [], ◌∷◌, Has, arith,
  Bool-cases, ltb,
}
use mathlib.Core.Path.{subst}
use parcelpilot_ops_copilot.Models.{TrustState, confident, conditional, uncertain, escalate}
use parcelpilot_ops_copilot.TrustGate.{trust_rank, worse, max_from, enforce_trust_gate}

worse-cases : (a b : TrustState) → (worse a b ≡ a) ⊎ (worse a b ≡ b)
worse-cases a b = elim (Bool-cases (ltb (trust_rank a) (trust_rank b))) [
  | inl higher ↦ inr (rw higher refl)
  | inr lower ↦ inl (rw lower refl)
]

worse-rank :
    (a b : TrustState)
    → (trust_rank a ≤ trust_rank (worse a b)) × (trust_rank b ≤ trust_rank (worse a b))
worse-rank a b = elim (Bool-cases (ltb (trust_rank a) (trust_rank b))) [
  | inl higher ↦ rw higher (ground (arith, higher), omega arith)
  | inr lower ↦ rw lower (omega arith, ground (arith, lower))
]

max_from-Has :
    (best : TrustState) (ss : List TrustState)
    → (max_from best ss ≡ best) ⊎ Has (max_from best ss) ss
max_from-Has best [] = inl refl
max_from-Has best (s ∷ ss) = elim (max_from-Has (worse best s) ss) [
  | inr m ↦ inr (inr m)
  | inl e ↦ elim (worse-cases best s) [ inl w ↦ inl (e ∙ w) | inr w ↦ inr (inl (sym (e ∙ w))) ]
]

max_from-best :
    (best : TrustState) (ss : List TrustState) → trust_rank best ≤ trust_rank (max_from best ss)
max_from-best best [] = omega arith
max_from-best best (s ∷ ss) =
    let step = (worse-rank best s).0 in let rest = max_from-best (worse best s) ss in omega arith

max_from-each :
    (best : TrustState) (ss : List TrustState) (t : TrustState)
    → Has t ss
    → trust_rank t ≤ trust_rank (max_from best ss)
max_from-each best [] t h = absurd h
max_from-each best (s ∷ ss) t (inl e) =
    let step = (worse-rank best s).1 in
    let rest = max_from-best (worse best s) ss in let same = ap trust_rank e in omega arith
max_from-each best (s ∷ ss) t (inr h) = max_from-each (worse best s) ss t h

-- When calculations ran, the gate reports the state of one of them, and none of them is less
-- certain.
enforce_trust_gate-worst :
    (first : TrustState) (rest : List TrustState) (has_document_evidence : Bool)
    → Has (enforce_trust_gate (first ∷ rest) has_document_evidence) (first ∷ rest)
      × ((s : TrustState)
          → Has s (first ∷ rest)
          → trust_rank s ≤ trust_rank (enforce_trust_gate (first ∷ rest) has_document_evidence))
unfolding enforce_trust_gate
enforce_trust_gate-worst first rest has_document_evidence = (
  (elim (max_from-Has first rest) [ inl e ↦ inl (sym e) | inr m ↦ inr m ]),
  (λ s h. elim h [
    | inl e ↦ rw (← e) (max_from-best first rest)
    | inr m ↦ max_from-each first rest s m
  ]),
)

rank_zero : (s : TrustState) → trust_rank s ≤ 0 → s ≡ confident
rank_zero confident h = refl
rank_zero conditional h = absurd (omega arith)
rank_zero uncertain h = absurd (omega arith)
rank_zero escalate h = absurd (omega arith)

-- An answer is CONFIDENT exactly when at least one calculation ran and each one that ran was
-- CONFIDENT, whatever document evidence there is.
pub confident_iff :
    (states : List TrustState) (has_document_evidence : Bool)
    → (enforce_trust_gate states has_document_evidence ≡ confident)
      ↔ ((states ≢ []) × ((s : TrustState) → Has s states → s ≡ confident))
unfolding enforce_trust_gate
confident_iff [] has_document_evidence = ((λ h. absurd (ground arith)), (λ p. absurd (p.0 refl)))
confident_iff (first ∷ rest) has_document_evidence =
    let worst = enforce_trust_gate-worst first rest has_document_evidence in
    (
      (λ h. ((λ e. absurd (cc)), (λ s m. rank_zero s (ground (arith, worst.1 s m))))),
      (λ p. p.1 (max_from first rest) worst.0),
    )

rank_of-escalate : (s : TrustState) → 3 ≤ trust_rank s → s ≡ escalate
rank_of-escalate confident h = absurd (omega arith)
rank_of-escalate conditional h = absurd (omega arith)
rank_of-escalate uncertain h = absurd (omega arith)
rank_of-escalate escalate h = refl

rank_of-uncertain : (s : TrustState) → 2 ≤ trust_rank s → s ≢ escalate → s ≡ uncertain
rank_of-uncertain confident h n = absurd (omega arith)
rank_of-uncertain conditional h n = absurd (omega arith)
rank_of-uncertain uncertain h n = refl
rank_of-uncertain escalate h n = absurd (n refl)

rank_of-conditional :
    (s : TrustState) → 1 ≤ trust_rank s → s ≢ escalate → s ≢ uncertain → s ≡ conditional
rank_of-conditional confident h n u = absurd (omega arith)
rank_of-conditional conditional h n u = refl
rank_of-conditional uncertain h n u = absurd (u refl)
rank_of-conditional escalate h n u = absurd (n refl)

-- When calculations ran, the gate reports ESCALATE exactly when one of them did, UNCERTAIN exactly
-- when one did and none reported ESCALATE, and CONDITIONAL exactly when one did and none reported
-- either of those, whatever document evidence there is.
pub enforce_trust_gate_iff :
    (first : TrustState) (rest : List TrustState) (has_document_evidence : Bool)
    → ((enforce_trust_gate (first ∷ rest) has_document_evidence ≡ escalate)
        ↔ Has escalate (first ∷ rest))
      × ((enforce_trust_gate (first ∷ rest) has_document_evidence ≡ uncertain)
          ↔ (Has uncertain (first ∷ rest) × ¬ Has escalate (first ∷ rest)))
      × ((enforce_trust_gate (first ∷ rest) has_document_evidence ≡ conditional) ↔ (
          Has conditional (first ∷ rest)
          × (¬ Has escalate (first ∷ rest))
          × (¬ Has uncertain (first ∷ rest))))
enforce_trust_gate_iff first rest has_document_evidence =
    let gate = enforce_trust_gate (first ∷ rest) has_document_evidence in
    let (reported, worst) = enforce_trust_gate-worst first rest has_document_evidence in
    let is_one : (t : TrustState) → gate ≡ t → Has t (first ∷ rest) =
      λ t e. subst (λ s. Has s (first ∷ rest)) e reported in
    let no_worse : (s t : TrustState)
        → gate ≡ t
        → Has s (first ∷ rest)
        → trust_rank s ≤ trust_rank t =
      λ s t e m. subst (λ g. trust_rank s ≤ trust_rank g) e (worst s m) in
    (
      (is_one escalate, (λ m. rank_of-escalate gate (worst escalate m))),
      (
        (λ e. (is_one uncertain e, (λ m. let k = no_worse escalate uncertain e m in omega arith))),
        (λ p. rank_of-uncertain gate (worst uncertain p.0) (λ e. p.1 (is_one escalate e))),
      ),
      (
        (λ e. (
          is_one conditional e,
          (λ m. let k = no_worse escalate conditional e m in omega arith),
          (λ m. let k = no_worse uncertain conditional e m in omega arith),
        )),
        (λ p.
            rank_of-conditional gate (worst conditional p.0) (λ e. p.1 (is_one escalate e))
              (λ e. p.2 (is_one uncertain e))),
      ),
    )
