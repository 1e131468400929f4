-- ===== src/Base/Checks.antt =====
-- Validation that stops at the first error: `none` when there is nothing to report.
use mathlib.Core.Path.{◌≡◌, refl}
use mathlib.Core.Logic.{◌↔◌}
use mathlib.Core.Bool.{Bool, true, false}
use mathlib.Core.Option.{Option, none, some}
use mathlib.Core.List.{List, [], ◌∷◌}
use devm.Base.Lists.{All}

module _ {E : Type 0} where
  infixr 25 ◌or_else◌
  -- The first error of the two.
  unfoldable pub ◌or_else◌ : Option E → Option E → Option E
  none or_else b = b
  some e or_else b = some e

  -- `if test { return err }`.
  unfoldable pub reject_if : Bool → E → Option E
  reject_if true e = some e
  reject_if false e = none

  unfoldable pub each {ℓ} : {A : Type ℓ} → (A → Option E) → List A → Option E
  unfolding ◌or_else◌
  each f [] = none
  each f (x ∷ xs) = f x or_else each f xs

  infixr 25 ◌and_also◌
  pub ◌and_also◌ {ℓ κ} :
      {P : Type ℓ} {Q : Type κ} {a b : Option E}
      → (a ≡ none) ↔ P
      → (b ≡ none) ↔ Q
      → ((a or_else b) ≡ none) ↔ (P × Q)
  unfolding ◌or_else◌
  ◌and_also◌ {a = none} {b = b} f g = (λ e. (f.0 refl, g.0 e), λ p. g.1 p.1)
  ◌and_also◌ {a = some x} {b = b} f g = (λ e. absurd (cc e), λ p. absurd (cc (f.1 p.0)))

  pub reject_if_iff {ℓ} :
      {P : Type ℓ} (b : Bool) (e : E) → (b ≡ false) ↔ P → (reject_if b e ≡ none) ↔ P
  unfolding reject_if
  reject_if_iff true e f = (λ h. absurd (cc h), λ p. absurd (cc (f.1 p)))
  reject_if_iff false e f = (λ h. f.0 refl, λ p. refl)

  pub each_iff {ℓ κ} :
      {A : Type ℓ} (P : A → Type κ) (f : A → Option E)
      → ((x : A) → (f x ≡ none) ↔ P x)
      → (xs : List A) → (each f xs ≡ none) ↔ All P xs
  unfolding each ◌or_else◌
  each_iff P f h [] = (λ e. tt, λ u. refl)
  each_iff P f h (x ∷ xs) = h x and_also each_iff P f h xs

module _ {E F : Type 0} where
  -- `fmt.Errorf("...: %w", err)`.
  unfoldable pub wrap : (E → F) → Option E → Option F
  wrap f none = none
  wrap f (some e) = some (f e)

  pub wrap_iff {ℓ} :
      {P : Type ℓ} (f : E → F) (o : Option E) → (o ≡ none) ↔ P → (wrap f o ≡ none) ↔ P
  unfolding wrap
  wrap_iff f none g = (λ e. g.0 refl, λ p. refl)
  wrap_iff f (some e) g = (λ h. absurd (cc h), λ p. absurd (cc (g.1 p)))

pub iff_trans {ℓ κ ι} : {P : Type ℓ} {Q : Type κ} {R : Type ι} → P ↔ Q → Q ↔ R → P ↔ R
iff_trans f g = (λ p. g.0 (f.0 p), λ r. f.1 (g.1 r))

pub iff_refl {ℓ} : {P : Type ℓ} → P ↔ P
iff_refl = (λ p. p, λ p. p)
