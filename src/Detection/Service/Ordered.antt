-- ===== src/Detection/Service/Ordered.antt =====
-- The order of the alerts that run_operations_radar returns.
use parcelpilot_ops_copilot.Prelude.{
  ltb, eqb, true, ◌≡◌, ◌⊎◌, inl, inr, List, [], ◌∷◌, arith, Bool-cases,
}
use parcelpilot_ops_copilot.Prelude.Sort.{text_le, IsSorted}
use parcelpilot_ops_copilot.Detection.Alert.{
  AlertCandidate, AlertSeverity, low, medium, high, critical,
}
use parcelpilot_ops_copilot.Detection.Service.{severity_rank, alert_le}

-- One severity is above another.
pub data IsAbove : AlertSeverity → AlertSeverity → Type 0 where
  critical_high : IsAbove critical high
  critical_medium : IsAbove critical medium
  critical_low : IsAbove critical low
  high_medium : IsAbove high medium
  high_low : IsAbove high low
  medium_low : IsAbove medium low

-- The higher severity first, and within one severity the smaller id.
abbrev pub Precedes : AlertCandidate → AlertCandidate → Type 0
Precedes a b =
    IsAbove a.severity b.severity
    ⊎ ((a.severity ≡ b.severity) × (text_le a.alert_id b.alert_id ≡ true))

abbrev pub PrecedesFirst : AlertCandidate → List AlertCandidate → Type 0
PrecedesFirst a [] = Unit
PrecedesFirst a (b ∷ alerts) = Precedes a b

-- Each alert precedes the next.
abbrev pub IsOrdered : List AlertCandidate → Type 0
IsOrdered [] = Unit
IsOrdered (a ∷ alerts) = PrecedesFirst a alerts × IsOrdered alerts

rank-IsAbove : (s t : AlertSeverity) → ltb (severity_rank s) (severity_rank t) ≡ true → IsAbove s t
rank-IsAbove critical critical h = absurd (ground arith)
rank-IsAbove critical high h = critical_high
rank-IsAbove critical medium h = critical_medium
rank-IsAbove critical low h = critical_low
rank-IsAbove high critical h = absurd (ground arith)
rank-IsAbove high high h = absurd (ground arith)
rank-IsAbove high medium h = high_medium
rank-IsAbove high low h = high_low
rank-IsAbove medium critical h = absurd (ground arith)
rank-IsAbove medium high h = absurd (ground arith)
rank-IsAbove medium medium h = absurd (ground arith)
rank-IsAbove medium low h = medium_low
rank-IsAbove low critical h = absurd (ground arith)
rank-IsAbove low high h = absurd (ground arith)
rank-IsAbove low medium h = absurd (ground arith)
rank-IsAbove low low h = absurd (ground arith)

rank-eq : (s t : AlertSeverity) → eqb (severity_rank s) (severity_rank t) ≡ true → s ≡ t
rank-eq s t h = ground arith

alert_le-Precedes : (a b : AlertCandidate) → alert_le a b ≡ true → Precedes a b
alert_le-Precedes a b h =
    elim (Bool-cases (ltb (severity_rank a.severity) (severity_rank b.severity))) [
      | inl e ↦ inl (rank-IsAbove a.severity b.severity e)
      | inr e ↦ inr (rank-eq a.severity b.severity (ground arith), ground arith)
    ]

pub sorted-IsOrdered : (alerts : List AlertCandidate) → IsSorted alert_le alerts → IsOrdered alerts
sorted-IsOrdered [] h = tt
sorted-IsOrdered (a ∷ []) h = (tt, tt)
sorted-IsOrdered (a ∷ b ∷ alerts) h = (alert_le-Precedes a b h.0, sorted-IsOrdered (b ∷ alerts) h.1)
