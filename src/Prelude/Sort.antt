-- ===== src/Prelude/Sort.antt =====
-- `sorted(key=...)` and `ORDER BY` on a text, as a stable insertion sort.
use Prim.Native.Nat.{ℕ, Ordering, compare as compare_ℕ}
use Prim.Native.Char.{code}
use Prim.Native.String.{String, compare, then as then_compare}
use Prim.Native.String.compare
use mathlib.Core.Path.{◌≡◌, refl, sym, ◌∙◌}
use mathlib.Core.Logic.{◌⊎◌, ◌↔◌}
use mathlib.Core.Bool.{Bool, true, false, false≢true}
use mathlib.Core.List.{List, [], ◌∷◌}
use native.Mathlib.Omega.{arith}
use text.Mathlib.Text.{is_le}
use parcelpilot_ops_copilot.Prelude.Tests.{if◌then◌else◌}
use parcelpilot_ops_copilot.Prelude.Lists.{Has}

abbrev pub text_le : String → String → Bool
text_le s t = is_le (compare s t)

then_total :
    (m n : ℕ) (o o' : Ordering)
    → (is_le o ≡ false → is_le o' ≡ true)
    → is_le (then_compare (compare_ℕ m n) o) ≡ false
    → is_le (then_compare (compare_ℕ n m) o') ≡ true
then_total m n o o' ih h = ground arith

pub text_le_total : (s t : String) → text_le s t ≡ false → text_le t s ≡ true
text_le_total String.[] String.[] h = refl
text_le_total String.[] (String.◌∷◌ d t) h = absurd (false≢true (sym h ∙ rw compare.nil-cons))
text_le_total (String.◌∷◌ c s) String.[] h = rw compare.nil-cons
text_le_total (String.◌∷◌ c s) (String.◌∷◌ d t) h = rw compare.cons-cons (
    then_total (code c) (code d) (compare s t) (compare t s) (text_le_total s t)
      (rw compare.cons-cons at h))

module _ {A : Type 0} (le : A → A → Bool) where
  -- `a` goes before the first element that it is at most
  unfoldable pub insert_by : A → List A → List A
  insert_by a [] = a ∷ []
  insert_by a (x ∷ xs) = let rest = insert_by a xs in if le a x then a ∷ x ∷ xs else x ∷ rest

  unfoldable pub sort_by : List A → List A
  unfolding insert_by
  sort_by [] = []
  sort_by (x ∷ xs) = insert_by x (sort_by xs)

  -- Each element is at most the next one.
  abbrev pub StartsAbove : A → List A → Type 0
  StartsAbove a [] = Unit
  StartsAbove a (x ∷ xs) = le a x ≡ true

  abbrev pub IsSorted : List A → Type 0
  IsSorted [] = Unit
  IsSorted (x ∷ xs) = StartsAbove x xs × IsSorted xs

  module _ (total : (a b : A) → le a b ≡ false → le b a ≡ true) where
    insert_by-above :
        (b a : A) (xs : List A) → le b a ≡ true → StartsAbove b xs → StartsAbove b (insert_by a xs)
    unfolding insert_by
    insert_by-above b a [] p h = p
    insert_by-above b a (x ∷ xs) p h = ground arith

    insert_by-IsSorted : (a : A) (xs : List A) → IsSorted xs → IsSorted (insert_by a xs)
    unfolding insert_by
    insert_by-IsSorted a [] h = (tt, tt)
    insert_by-IsSorted a (x ∷ xs) h =
        ground (arith, total a x, insert_by-above x a xs, insert_by-IsSorted a xs h.1)

    pub sort_by-IsSorted : (xs : List A) → IsSorted (sort_by xs)
    unfolding sort_by
    sort_by-IsSorted [] = tt
    sort_by-IsSorted (x ∷ xs) = insert_by-IsSorted x (sort_by xs) (sort_by-IsSorted xs)

  Has-insert_by : (b a : A) (xs : List A) → Has b (insert_by a xs) ↔ ((a ≡ b) ⊎ Has b xs)
  unfolding insert_by
  Has-insert_by b a [] = ((λ h. h), (λ h. h))
  Has-insert_by b a (x ∷ xs) =
      (ground (arith, (Has-insert_by b a xs).0), ground (arith, (Has-insert_by b a xs).1))

  pub Has-sort_by : (b : A) (xs : List A) → Has b (sort_by xs) ↔ Has b xs
  unfolding sort_by
  Has-sort_by b [] = ((λ h. h), (λ h. h))
  Has-sort_by b (x ∷ xs) = ground (arith, Has-insert_by b x (sort_by xs), Has-sort_by b xs)
