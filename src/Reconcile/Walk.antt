-- ===== src/Reconcile/Walk.antt =====
-- Walking the sorted union of the keys of two maps, as every section of internal/reconcile/diff.go
-- does (`unionServiceNames` and its like), and what such a walk finds.
use devm.Base.{
  ◌≡◌, refl, ◌↔◌, inl, inr, true, false, ◌||◌, List, [], ◌∷◌, ◌++◌, arith, ◌==◌, nat_eq, bool_eq,
  pair_eq, eq_of_==, Bool-cases, any-append, Bytes, bytes_eq,
}
use mathlib.Core.Path.{subst}
use devm.Base.Assoc.{Map}
use mathlib.Core.Path.{subst}
use devm.Base.Rounds.{concat_map}
use devm.Base.Names.{has, keys, sorted_set, has-sorted_set}

unfoldable pub union_names : List Bytes → List Bytes → List Bytes
union_names xs ys = sorted_set (xs ++ ys)

module _ {V W : Type 0} where
  unfoldable pub union_keys : Map Bytes V → Map Bytes W → List Bytes
  union_keys a b = union_names (keys a) (keys b)

pub has-union_names :
    (z : Bytes) (xs ys : List Bytes) → has z (union_names xs ys) ≡ (has z xs || has z ys)
unfolding union_names
has-union_names z xs ys =
    ground (arith, has-sorted_set z (xs ++ ys), any-append (λ y. y == z) xs ys)

module _ {A : Type 0} where
  pub append-is_nil : (xs ys : List A) → ((xs ++ ys) ≡ []) ↔ ((xs ≡ []) × (ys ≡ []))
  append-is_nil [] ys = (λ e. (refl, e), λ p. p.1)
  append-is_nil (x ∷ xs) ys = ground arith

module _ {B : Type 0} where
  walk_finds :
      (f : Bytes → List B) (xs : List Bytes)
      → concat_map f xs ≡ []
      → (k : Bytes) → has k xs ≡ true
      → f k ≡ []
  unfolding concat_map
  walk_finds f [] e k h = absurd (cc h)
  walk_finds f (x ∷ xs) e k h =
      let both = (append-is_nil (f x) (concat_map f xs)).0 e in
      elim (Bool-cases (x == k)) [
        | inl same ↦ subst (λ z. f z ≡ []) (eq_of_== x k same) (both.0)
        | inr other ↦ walk_finds f xs (both.1) k (ground arith)
      ]

  walk_of_nil :
      (f : Bytes → List B) (xs : List Bytes) → ((k : Bytes) → f k ≡ []) → concat_map f xs ≡ []
  unfolding concat_map
  walk_of_nil f [] e = refl
  walk_of_nil f (x ∷ xs) e = rw (e x, walk_of_nil f xs e)

  -- A walk finds nothing if and only if no name has a finding, given that names outside have none.
  pub concat_map-is_nil :
      (f : Bytes → List B) (xs : List Bytes)
      → ((k : Bytes) → has k xs ≡ false → f k ≡ [])
      → (concat_map f xs ≡ []) ↔ ((k : Bytes) → f k ≡ [])
  concat_map-is_nil f xs outside = (
    λ e k. elim (Bool-cases (has k xs)) [
      | inl inside ↦ walk_finds f xs e k inside
      | inr out ↦ outside k out
    ],
    walk_of_nil f xs,
  )
