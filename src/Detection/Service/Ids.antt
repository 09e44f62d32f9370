-- ===== src/Detection/Service/Ids.antt =====
-- The dict of alerts by their ids, and its sorted values.
use parcelpilot_ops_copilot.Prelude.{
  ◌≡◌, ap, ◌⊎◌, inl, inr, refl, String, true, false, List, [], ◌∷◌, Has, arith, Bool-cases, ◌==◌,
  eq_iff,
}
use parcelpilot_ops_copilot.Prelude.Sort.{sort_by, insert_by, Has-sort_by, text_le_total}
use mathlib.Core.Path.{subst}
use parcelpilot_ops_copilot.Detection.Alert.{AlertCandidate}
use parcelpilot_ops_copilot.Detection.Service.{alert_le, put_alert, put_alerts}

-- No alert of the list has the id.
abbrev pub FreshId : String → List AlertCandidate → Type 0
FreshId id [] = Unit
FreshId id (a ∷ alerts) = (a.alert_id == id ≡ false) × FreshId id alerts

abbrev pub UniqueIds : List AlertCandidate → Type 0
UniqueIds [] = Unit
UniqueIds (a ∷ alerts) = FreshId a.alert_id alerts × UniqueIds alerts

-- An alert with the id is in the list.
abbrev pub HasId : String → List AlertCandidate → Type 0
HasId id [] = ⊥
HasId id (a ∷ alerts) = (a.alert_id ≡ id) ⊎ HasId id alerts

differ_sym : (s t : String) → s == t ≡ false → t == s ≡ false
differ_sym s t h = ground (arith, eq_iff s t, eq_iff t s)

put_alert-FreshId :
    (id : String) (a : AlertCandidate) (seen : List AlertCandidate)
    → a.alert_id == id ≡ false
    → FreshId id seen
    → FreshId id (put_alert a seen)
unfolding put_alert
put_alert-FreshId id a [] h k = (h, tt)
put_alert-FreshId id a (other ∷ others) h k = elim (Bool-cases (other.alert_id == a.alert_id)) [
  | inl e ↦ rw e ((h, k.1))
  | inr e ↦ rw e ((k.0, put_alert-FreshId id a others h k.1))
]

put_alert-UniqueIds :
    (a : AlertCandidate) (seen : List AlertCandidate)
    → UniqueIds seen
    → UniqueIds (put_alert a seen)
unfolding put_alert
put_alert-UniqueIds a [] h = (tt, tt)
put_alert-UniqueIds a (other ∷ others) h = elim (Bool-cases (other.alert_id == a.alert_id)) [
  | inl e ↦
      let same : other.alert_id ≡ a.alert_id = ground (arith, eq_iff other.alert_id a.alert_id) in
      rw e ((subst (λ id. FreshId id others) same h.0, h.1))
  | inr e ↦ rw e (
      (
        put_alert-FreshId other.alert_id a others (differ_sym other.alert_id a.alert_id e) h.0,
        put_alert-UniqueIds a others h.1,
      ))
]

put_alert-Has :
    (b a : AlertCandidate) (seen : List AlertCandidate)
    → Has b (put_alert a seen)
    → (a ≡ b) ⊎ Has b seen
unfolding put_alert
put_alert-Has b a [] m = ground arith
put_alert-Has b a (other ∷ others) m = ground (arith, put_alert-Has b a others)

put_alert-HasId :
    (id : String) (a : AlertCandidate) (seen : List AlertCandidate)
    → (a.alert_id ≡ id) ⊎ HasId id seen
    → HasId id (put_alert a seen)
unfolding put_alert
put_alert-HasId id a [] m = ground arith
put_alert-HasId id a (other ∷ others) m =
    ground (arith, put_alert-HasId id a others, eq_iff other.alert_id a.alert_id)

pub put_alerts-UniqueIds :
    (alerts seen : List AlertCandidate) → UniqueIds seen → UniqueIds (put_alerts alerts seen)
unfolding put_alerts
put_alerts-UniqueIds [] seen h = h
put_alerts-UniqueIds (a ∷ alerts) seen h =
    put_alerts-UniqueIds alerts (put_alert a seen) (put_alert-UniqueIds a seen h)

pub put_alerts-Has :
    (b : AlertCandidate) (alerts seen : List AlertCandidate)
    → Has b (put_alerts alerts seen)
    → Has b alerts ⊎ Has b seen
unfolding put_alerts
put_alerts-Has b [] seen m = inr m
put_alerts-Has b (a ∷ alerts) seen m =
    ground (arith, put_alerts-Has b alerts (put_alert a seen), put_alert-Has b a seen)

pub put_alerts-HasId :
    (id : String) (alerts seen : List AlertCandidate)
    → HasId id alerts ⊎ HasId id seen
    → HasId id (put_alerts alerts seen)
unfolding put_alerts
put_alerts-HasId id [] seen m = ground arith
put_alerts-HasId id (a ∷ alerts) seen m =
    ground (arith, put_alerts-HasId id alerts (put_alert a seen), put_alert-HasId id a seen)

-- Sorting keeps the ids apart.
insert_by-FreshId :
    (id : String) (a : AlertCandidate) (alerts : List AlertCandidate)
    → a.alert_id == id ≡ false
    → FreshId id alerts
    → FreshId id (insert_by alert_le a alerts)
unfolding insert_by
insert_by-FreshId id a [] h k = (h, tt)
insert_by-FreshId id a (b ∷ alerts) h k = elim (Bool-cases (alert_le a b)) [
  | inl e ↦ rw e ((h, k))
  | inr e ↦ rw e ((k.0, insert_by-FreshId id a alerts h k.1))
]

insert_by-UniqueIds :
    (a : AlertCandidate) (alerts : List AlertCandidate)
    → FreshId a.alert_id alerts
    → UniqueIds alerts
    → UniqueIds (insert_by alert_le a alerts)
unfolding insert_by
insert_by-UniqueIds a [] h k = (tt, tt)
insert_by-UniqueIds a (b ∷ alerts) h k = elim (Bool-cases (alert_le a b)) [
  | inl e ↦ rw e ((h, k))
  | inr e ↦ rw e (
      (
        insert_by-FreshId b.alert_id a alerts (differ_sym b.alert_id a.alert_id h.0) k.0,
        insert_by-UniqueIds a alerts h.1 k.1,
      ))
]

sort_by-FreshId :
    (id : String) (alerts : List AlertCandidate)
    → FreshId id alerts
    → FreshId id (sort_by alert_le alerts)
unfolding sort_by
sort_by-FreshId id [] h = tt
sort_by-FreshId id (a ∷ alerts) h =
    insert_by-FreshId id a (sort_by alert_le alerts) h.0 (sort_by-FreshId id alerts h.1)

pub sort_by-UniqueIds :
    (alerts : List AlertCandidate) → UniqueIds alerts → UniqueIds (sort_by alert_le alerts)
unfolding sort_by
sort_by-UniqueIds [] h = tt
sort_by-UniqueIds (a ∷ alerts) h =
    insert_by-UniqueIds a (sort_by alert_le alerts) (sort_by-FreshId a.alert_id alerts h.0)
      (sort_by-UniqueIds alerts h.1)

pub alert_le_total : (a b : AlertCandidate) → alert_le a b ≡ false → alert_le b a ≡ true
alert_le_total a b h = let k = text_le_total a.alert_id b.alert_id in ground arith

pub Has-HasId :
    (a : AlertCandidate) (alerts : List AlertCandidate) → Has a alerts → HasId a.alert_id alerts
Has-HasId a [] m = m
Has-HasId a (b ∷ alerts) (inl e) = inl (ap (λ c. c.alert_id) e)
Has-HasId a (b ∷ alerts) (inr m) = inr (Has-HasId a alerts m)

HasId-Has :
    (id : String) (alerts : List AlertCandidate)
    → HasId id alerts
    → (a : AlertCandidate) × Has a alerts × (a.alert_id ≡ id)
HasId-Has id [] m = absurd m
HasId-Has id (b ∷ alerts) (inl e) = (b, inl refl, e)
HasId-Has id (b ∷ alerts) (inr m) = let (a, h, e) = HasId-Has id alerts m in (a, inr h, e)

pub sort_by-HasId :
    (id : String) (alerts : List AlertCandidate)
    → HasId id alerts
    → HasId id (sort_by alert_le alerts)
sort_by-HasId id alerts m =
    let (a, h, e) = HasId-Has id alerts m in
    subst (λ i. HasId i (sort_by alert_le alerts)) e
      (Has-HasId a (sort_by alert_le alerts) ((Has-sort_by alert_le a alerts).1 h))
