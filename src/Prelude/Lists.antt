-- ===== src/Prelude/Lists.antt =====
-- Lists as the source uses them: `next(... for ... if ...)`, comprehensions with a test, `in`.
use Prim.Native.Nat.{ℕ, suc}
use mathlib.Core.Path.{◌≡◌, refl, ap, sym, ◌∙◌}
use mathlib.Core.Logic.{◌⊎◌, ◌↔◌, inl, inr}
use native.Mathlib.Omega.{arith}
use mathlib.Core.Bool.{Bool, true, false, ◌||◌}
use mathlib.Core.Option.{Option, none, some}
use mathlib.Core.List.{List, [], ◌∷◌, map}
use mathlib.Core.Option
use Prim.Native.String.{String}
use text.Mathlib.Text.{◌==◌}
use text.Mathlib.TextEquality.{eq_iff}
use parcelpilot_ops_copilot.Prelude.Tests.{if◌then◌else◌}

module _ {ℓ} {A : Type ℓ} where
  abbrev pub length : List A → ℕ
  length [] = 0
  length (x ∷ xs) = suc (length xs)

  -- the first element that passes the test
  abbrev pub find : (A → Bool) → List A → Option A
  find p [] = none
  find p (x ∷ xs) = if p x then some x else find p xs

  -- the elements that pass the test, in order
  abbrev pub filter : (A → Bool) → List A → List A
  filter p [] = []
  filter p (x ∷ xs) = let rest = filter p xs in if p x then x ∷ rest else rest

  -- the number of elements that pass the test
  abbrev pub count_if : (A → Bool) → List A → ℕ
  count_if p [] = 0
  count_if p (x ∷ xs) = let rest = count_if p xs in if p x then suc rest else rest

-- membership, by recursion, with the place kept
abbrev pub Has : {A : Type 0} → A → List A → Type 0
Has a [] = ⊥
Has a (x ∷ xs) = (x ≡ a) ⊎ Has a xs

-- `x in xs` on texts
abbrev pub contains : String → List String → Bool
contains s [] = false
contains s (x ∷ xs) = x == s || contains s xs

module _ {A : Type 0} (p : A → Bool) where
  pub Has-filter : (b : A) (xs : List A) → Has b (filter p xs) ↔ (Has b xs × (p b ≡ true))
  Has-filter b [] = ((λ h. absurd h), (λ h. absurd h.0))
  Has-filter b (x ∷ xs) =
      (ground (arith, (Has-filter b xs).0, ap p), ground (arith, (Has-filter b xs).1, ap p))

  pub find-Has : (xs : List A) {b : A} → find p xs ≡ some b → Has b xs × (p b ≡ true)
  find-Has [] h = cc
  find-Has (x ∷ xs) {b} h = ground (arith, find-Has xs {b = b})

  -- Filtering twice is filtering by the stronger test.
  pub filter-filter :
      (q : A → Bool)
      → ((a : A) → q a ≡ true → p a ≡ true)
      → (xs : List A) → filter q (filter p xs) ≡ filter q xs
  filter-filter q stronger [] = refl
  filter-filter q stronger (x ∷ xs) = ground (arith, stronger x, filter-filter q stronger xs)

  pub find-none : (xs : List A) → find p xs ≡ none → (b : A) → Has b xs → p b ≡ false
  find-none [] h b m = absurd m
  find-none (x ∷ xs) h b (inl e) = rw (← e) (ground arith)
  find-none (x ∷ xs) h b (inr m) = find-none xs (ground arith) b m

  -- What the test refuses may be dropped before the search.
  pub find-filter :
      (q : A → Bool)
      → ((a : A) → p a ≡ true → q a ≡ true)
      → (xs : List A) → find p (filter q xs) ≡ find p xs
  find-filter q weaker [] = refl
  find-filter q weaker (x ∷ xs) = ground (arith, weaker x, find-filter q weaker xs)

-- `d[k]` of a dict with text keys, as its items
abbrev pub lookup {ℓ} : {V : Type ℓ} → String → List (String × V) → Option V
lookup k [] = none
lookup k ((j, v) ∷ m) = if j == k then some v else lookup k m

-- A search after a change that leaves the test alone.
pub find-map :
    {A : Type 0} (p : A → Bool) (f : A → A)
    → ((a : A) → p (f a) ≡ p a)
    → (xs : List A) → find p (map f xs) ≡ Option.map f (find p xs)
find-map p f same [] = refl
find-map p f same (x ∷ xs) = rw (same x) (ground (arith, find-map p f same xs))

pub Has-map :
    {A B : Type 0} (f : A → B) (b : B) (xs : List A)
    → Has b (map f xs) ↔ ((a : A) × Has a xs × (b ≡ f a))
Has-map f b [] = ((λ h. absurd h), (λ (a, m, e). absurd m))
Has-map f b (x ∷ xs) =
    let ih = Has-map f b xs in
    (
      (λ h. elim h [
        | inl e ↦ (x, inl refl, sym e)
        | inr k ↦ let (a, m, e) = ih.0 k in (a, inr m, e)
      ]),
      (λ (a, m, e). elim m [ inl same ↦ inl (ap f same ∙ sym e) | inr k ↦ inr (ih.1 (a, k, e)) ]),
    )

pub Has-contains : (s : String) (xs : List String) → (contains s xs ≡ true) ↔ Has s xs
Has-contains s [] = ((λ h. cc), (λ h. absurd h))
Has-contains s (x ∷ xs) = (
  ground (arith, (Has-contains s xs).0, eq_iff x s),
  ground (arith, (Has-contains s xs).1, eq_iff x s),
)
