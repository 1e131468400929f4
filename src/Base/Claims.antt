-- ===== src/Base/Claims.antt =====
-- Entries that each claim a key, at most one entry for a key: the loops that keep a map of what
-- they have seen.
use mathlib.Core.Path.{◌≡◌, refl}
use mathlib.Core.Logic.{◌↔◌}
use mathlib.Core.Bool.{false}
use mathlib.Core.Option.{Option, none, some}
use mathlib.Core.List.{List, [], ◌∷◌}
use native.Mathlib.Omega.{arith}
use devm.Base.Tests.{Eq, ◌==◌}
use devm.Base.Lists.{any, All}
use devm.Base.Assoc.{Map, lookup, insert, lookup-insert}

module _ {K A : Type 0} (key : A → Option K) where
  -- The keys that are claimed, in order.
  abbrev pub claims : List A → List K
  claims [] = []
  claims (x ∷ xs) = elim (key x) [ none ↦ claims xs | some k ↦ k ∷ claims xs ]

module _ {K : Type 0} ⦃e : Eq K⦄ where
  abbrev pub Distinct : List K → Type 0
  Distinct [] = Unit
  Distinct (k ∷ ks) = (any (λ j. j == k) ks ≡ false) × Distinct ks

  -- No key of the list is in the map, and none is twice in the list.
  abbrev pub IsFree : {V : Type 0} → Map K V → List K → Type 0
  IsFree seen ks = All (λ k. lookup k seen ≡ none) ks × Distinct ks

  module _ {V : Type 0} where
    free_insert_iff :
        (k : K) (v : V) (seen : Map K V) (ks : List K)
        → lookup k seen ≡ none
        → All (λ j. lookup j (insert k v seen) ≡ none) ks
          ↔ ((any (λ j. j == k) ks ≡ false) × All (λ j. lookup j seen ≡ none) ks)
    free_insert_iff k v seen [] new = ground arith
    free_insert_iff k v seen (j ∷ ks) new = ground (
      arith,
      lookup-insert j k v seen,
      e.beq_iff j k,
      e.beq_iff k j,
      free_insert_iff k v seen ks new,
    )

    -- To claim one key more.
    pub IsFree-insert :
        (k : K) (v : V) (seen : Map K V) (ks : List K)
        → ((lookup k seen ≡ none) × IsFree (insert k v seen) ks) ↔ IsFree seen (k ∷ ks)
    IsFree-insert k v seen ks = (
      λ h.
          let both = (free_insert_iff k v seen ks (h.0)).0 ((h.1).0) in
          ((h.0, both.1), (both.0, (h.1).1)),
      λ h. ((h.0).0, ((free_insert_iff k v seen ks ((h.0).0)).1 ((h.1).0, (h.0).1), (h.1).1)),
    )

  module _ {V E : Type 0} where
    -- The error for a key that was claimed before.
    unfoldable pub clash : Option K → Map K V → (V → E) → Option E
    clash none seen error = none
    clash (some k) seen error = elim (lookup k seen) [ none ↦ none | some v ↦ some (error v) ]

    clash_iff :
        (k : K) (seen : Map K V) (error : V → E)
        → (clash (some k) seen error ≡ none) ↔ (lookup k seen ≡ none)
    unfolding clash
    clash_iff k seen error = ground arith

  module _ {V : Type 0} where
    unfoldable pub remember : Option K → V → Map K V → Map K V
    remember none v seen = seen
    remember (some k) v seen = insert k v seen

  module _ {V E : Type 0} where
    pub clash-remember :
        (o : Option K) (v : V) (seen : Map K V) (error : V → E) (ks : List K)
        → ((clash o seen error ≡ none) × IsFree (remember o v seen) ks)
          ↔ IsFree seen (elim o [ none ↦ ks | some k ↦ k ∷ ks ])
    unfolding remember
    clash-remember none v seen error ks = (λ h. h.1, λ f. (unfold clash in refl, f))
    clash-remember (some k) v seen error ks = (
      λ h. (IsFree-insert k v seen ks).0 ((clash_iff k seen error).0 (h.0), h.1),
      λ f. let h = (IsFree-insert k v seen ks).1 f in ((clash_iff k seen error).1 (h.0), h.1),
    )

  module _ (V : Type 0) where
    All-new : (ks : List K) → All (λ k. lookup k (let m : Map K V = [] in m) ≡ none) ks
    unfolding lookup
    All-new [] = tt
    All-new (k ∷ ks) = (refl, All-new ks)

    -- At the start of a loop nothing is claimed.
    pub IsFree-nil : (ks : List K) → IsFree {V = V} [] ks ↔ Distinct ks
    IsFree-nil ks = (λ f. f.1, λ d. (All-new ks, d))
