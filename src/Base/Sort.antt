-- ===== src/Base/Sort.antt =====
-- Go's sort.SliceStable and sort.Strings by insertion, for an order given as a Boolean test.
use mathlib.Core.Path.{◌≡◌, refl, sym, ap, ◌∙◌}
use mathlib.Core.Bool.{Bool, false, ◌||◌}
use mathlib.Core.List.{List, [], ◌∷◌}
use native.Mathlib.Omega.{arith}
use mathlib.Core.Logic.{◌↔◌}
use devm.Base.Tests.{if◌then◌else◌}
use devm.Base.Lists.{any, is_nil}

module _ {A : Type 0} (less : A → A → Bool) where
  insert_by : A → List A → List A
  insert_by x [] = x ∷ []
  insert_by x (y ∷ ys) = let rest = insert_by x ys in if less y x then y ∷ rest else x ∷ y ∷ ys

  unfoldable pub sort_by : List A → List A
  unfolding insert_by
  sort_by [] = []
  sort_by (x ∷ xs) = insert_by x (sort_by xs)

  any-insert_by : (p : A → Bool) (x : A) (xs : List A) → any p (insert_by x xs) ≡ (p x || any p xs)
  unfolding insert_by
  any-insert_by p x [] = refl
  any-insert_by p x (y ∷ ys) = ground (arith, any-insert_by p x ys)

  pub any-sort_by : (p : A → Bool) (xs : List A) → any p (sort_by xs) ≡ any p xs
  unfolding sort_by
  any-sort_by p [] = refl
  any-sort_by p (x ∷ xs) = ground (arith, any-insert_by p x (sort_by xs), any-sort_by p xs)

  insert_by-is_nil : (x : A) (xs : List A) → is_nil (insert_by x xs) ≡ false
  unfolding insert_by
  insert_by-is_nil x [] = refl
  insert_by-is_nil x (y ∷ ys) = ground arith

  pub sort_by-is_nil : (xs : List A) → (sort_by xs ≡ []) ↔ (xs ≡ [])
  unfolding sort_by
  sort_by-is_nil [] = ground arith
  sort_by-is_nil (x ∷ xs) =
      (λ e. absurd (cc (sym (insert_by-is_nil x (sort_by xs)) ∙ ap is_nil e)), λ e. absurd (cc e))
