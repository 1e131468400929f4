-- ===== src/Base/Assoc.antt =====
-- A Go map as an association list. `insert` replaces in place, so a map keeps each key once.
use mathlib.Core.Path.{◌≡◌, refl}
use mathlib.Core.List.{List, [], ◌∷◌}
use mathlib.Core.Option.{Option, none, some}
use native.Mathlib.Omega.{arith}
use mathlib.Core.Logic.{inl, inr}
use devm.Base.Lists.{All}
use devm.Base.Tests.{Eq, ◌==◌, if◌then◌else◌, Bool-cases}

abbrev pub Map : Type 0 → Type 0 → Type 0
Map K V = List (K × V)

module _ {K V : Type 0} ⦃e : Eq K⦄ where
  unfoldable pub lookup : K → Map K V → Option V
  lookup k [] = none
  lookup k ((j, v) ∷ m) = if j == k then some v else lookup k m

  unfoldable pub insert : K → V → Map K V → Map K V
  insert k v [] = (k, v) ∷ []
  insert k v ((j, w) ∷ m) = if j == k then (j, v) ∷ m else (j, w) ∷ insert k v m

  unfoldable pub delete : K → Map K V → Map K V
  delete k [] = []
  delete k ((j, w) ∷ m) = let rest = delete k m in if j == k then rest else (j, w) ∷ rest

  pub lookup-insert :
      (j k : K) (v : V) (m : Map K V)
      → lookup j (insert k v m) ≡ (if k == j then some v else lookup j m)
  unfolding lookup insert
  lookup-insert j k v [] = refl
  lookup-insert j k v ((i, w) ∷ m) =
      ground (arith, e.beq_iff k j, e.beq_iff i k, e.beq_iff i j, lookup-insert j k v m)

  pub lookup-delete :
      (j k : K) (m : Map K V) → lookup j (delete k m) ≡ (if k == j then none else lookup j m)
  unfolding lookup delete
  lookup-delete j k [] = ground arith
  lookup-delete j k ((i, w) ∷ m) =
      ground (arith, e.beq_iff k j, e.beq_iff i k, e.beq_iff i j, lookup-delete j k m)

  -- Each key stands once, as in a Go map.
  abbrev pub IsUnique : Map K V → Type 0
  IsUnique [] = Unit
  IsUnique ((k, v) ∷ m) = (lookup k m ≡ none) × IsUnique m

  pub insert-IsUnique : (k : K) (v : V) (m : Map K V) → IsUnique m → IsUnique (insert k v m)
  unfolding insert
  insert-IsUnique k v [] u = (unfold lookup in refl, tt)
  insert-IsUnique k v ((j, w) ∷ m) (new, u) = elim (Bool-cases (j == k)) [
    | inl same ↦ rw (same, insert) (new, u)
    | inr other ↦
        rw (other, insert)
          (
            ground (arith, lookup-insert j k v m, e.beq_iff j k, e.beq_iff k j),
            insert-IsUnique k v m u,
          )
  ]

  -- With unique keys, what holds of what is looked up holds of the entries.
  pub All-entries {ℓ} :
      (P : K → V → Type ℓ) (m : Map K V)
      → IsUnique m
      → ((k : K) (v : V) → lookup k m ≡ some v → P k v)
      → All (λ kv. P kv.0 kv.1) m
  unfolding lookup
  All-entries P [] u h = tt
  All-entries P ((k, v) ∷ m) (new, u) h = (
    h k v (ground (arith, e.beq_iff k k)),
    All-entries P m u (λ j w found. h j w (ground (arith, e.beq_iff k j))),
  )
