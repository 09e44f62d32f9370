-- ===== src/TrustGate.antt =====
-- app/agent/trust_gate.py: the trust state of an agent's answer, from those of its calculations.
pub mod Worst
use parcelpilot_ops_copilot.Prelude.{ℕ, Bool, List, [], ◌∷◌, ltb, if◌then◌else◌}
use parcelpilot_ops_copilot.Models.{TrustState, confident, conditional, uncertain, escalate}

-- `_SEVERITY_ORDER`
abbrev pub trust_rank : TrustState → ℕ
trust_rank confident = 0
trust_rank conditional = 1
trust_rank uncertain = 2
trust_rank escalate = 3

abbrev pub worse : TrustState → TrustState → TrustState
worse best s = if ltb (trust_rank best) (trust_rank s) then s else best

-- `max(states, key=...)`: the first state of the highest rank
abbrev pub max_from : TrustState → List TrustState → TrustState
max_from best [] = best
max_from best (s ∷ ss) = max_from (worse best s) ss

unfoldable pub enforce_trust_gate : List TrustState → Bool → TrustState
enforce_trust_gate [] has_document_evidence =
    if has_document_evidence then conditional else uncertain
enforce_trust_gate (s ∷ ss) has_document_evidence = max_from s ss
