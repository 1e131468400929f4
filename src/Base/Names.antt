-- ===== src/Base/Names.antt =====
-- Sets of names: membership, the keys of a map, and the sorted list without repetition that the
-- program walks in place of a map.
use devm.Base.{
  ◌≡◌, refl, sym, ◌↔◌, inl, inr, Bool, true, false, not, is_nil, is_nil_iff, ◌&&◌, ◌||◌, none, some,
  Option-cases, List, [], ◌∷◌, map, arith, if◌then◌else◌, ◌==◌, nat_eq, bool_eq, pair_eq, eq_of_==,
  Bool-cases, any, keep, Bytes, bytes_beq_iff, bytes_eq, bytes_ltb,
}
use mathlib.Core.Path.{subst}
use devm.Base.Assoc.{Map, lookup}
use mathlib.Core.Path.{subst}

abbrev pub has : Bytes → List Bytes → Bool
has x xs = any (λ y. y == x) xs

module _ {V : Type 0} where
  abbrev pub keys : Map Bytes V → List Bytes
  keys m = map (λ kv. kv.0) m

-- A name in its place in a sorted list without repetition.
unfoldable pub insert_name : Bytes → List Bytes → List Bytes
insert_name x [] = x ∷ []
insert_name x (y ∷ ys) =
    let rest = insert_name x ys in
    if y == x then y ∷ ys else if bytes_ltb x y then x ∷ y ∷ ys else y ∷ rest

-- The names as a set, sorted.
unfoldable pub sorted_set : List Bytes → List Bytes
unfolding insert_name
sorted_set [] = []
sorted_set (x ∷ xs) = insert_name x (sorted_set xs)

pub has-insert_name :
    (z x : Bytes) (ys : List Bytes) → has z (insert_name x ys) ≡ (x == z || has z ys)
unfolding insert_name
has-insert_name z x [] = refl
has-insert_name z x (y ∷ ys) = ground (arith, bytes_beq_iff y x, has-insert_name z x ys)

pub has-sorted_set : (z : Bytes) (xs : List Bytes) → has z (sorted_set xs) ≡ has z xs
unfolding sorted_set
has-sorted_set z [] = refl
has-sorted_set z (x ∷ xs) = rw (has-insert_name z x (sorted_set xs), has-sorted_set z xs)

module _ {V : Type 0} where
  pub has-keys : (k : Bytes) (m : Map Bytes V) → has k (keys m) ≡ false → lookup k m ≡ none
  unfolding lookup
  has-keys k [] h = refl
  has-keys k ((j, v) ∷ m) h = ground (arith, has-keys k m)

pub has-keep :
    (p : Bytes → Bool) (k : Bytes) (xs : List Bytes) → has k (keep p xs) ≡ (p k && has k xs)
has-keep p k [] = ground arith
has-keep p k (x ∷ xs) = elim (Bool-cases (x == k)) [
  | inl same ↦
      subst (λ z. has z (keep p (x ∷ xs)) ≡ (p z && has z (x ∷ xs))) (eq_of_== x k same)
        (ground (
          arith,
          bytes_beq_iff x x,
          subst (λ z. has z (keep p xs) ≡ (p z && has z xs)) (sym (eq_of_== x k same))
              (has-keep p k xs),
        ))
  | inr other ↦ ground (arith, has-keep p k xs)
]

pub names-is_nil : (xs : List Bytes) → (xs ≡ []) ↔ ((k : Bytes) → has k xs ≡ false)
names-is_nil [] = (λ e k. refl, λ h. refl)
names-is_nil (x ∷ xs) = (λ e. absurd (cc e), λ h. absurd (ground (arith, h x, bytes_beq_iff x x)))

module _ {A : Type 0} where
  pub map-is_nil : (f : Bytes → A) (xs : List Bytes) → (map f xs ≡ []) ↔ (xs ≡ [])
  map-is_nil f [] = ground arith
  map-is_nil f (x ∷ xs) = ground arith

module _ {V : Type 0} where
  pub has-keys-none : (k : Bytes) (m : Map Bytes V) → lookup k m ≡ none → has k (keys m) ≡ false
  unfolding lookup
  has-keys-none k [] h = refl
  has-keys-none k ((j, v) ∷ m) h = ground (arith, has-keys-none k m)

  pub has-keys-some :
      (k : Bytes) (m : Map Bytes V) (v : V) → lookup k m ≡ some v → has k (keys m) ≡ true
  has-keys-some k m v h = ground (arith, has-keys k m)

  pub lookup-has :
      (k : Bytes) (m : Map Bytes V) → has k (keys m) ≡ true → (v : V) × (lookup k m ≡ some v)
  lookup-has k m h = elim (Option-cases (lookup k m)) [
    | inl missing ↦ absurd (ground (arith, has-keys-none k m missing))
    | inr found ↦ found
  ]

insert_name-is_nil : (x : Bytes) (ys : List Bytes) → is_nil (insert_name x ys) ≡ false
unfolding insert_name
insert_name-is_nil x [] = refl
insert_name-is_nil x (y ∷ ys) = ground arith

pub sorted_set-is_nil : (xs : List Bytes) → is_nil (sorted_set xs) ≡ is_nil xs
unfolding sorted_set
sorted_set-is_nil [] = refl
sorted_set-is_nil (x ∷ xs) = insert_name-is_nil x (sorted_set xs)

-- The sorted set of names is empty if and only if no name is there.
pub sorted_set-empty_iff :
    (xs : List Bytes) → (not (is_nil (sorted_set xs)) ≡ false) ↔ ((k : Bytes) → has k xs ≡ false)
sorted_set-empty_iff xs = (
  λ e. (names-is_nil xs).0 ((is_nil_iff xs).0 (ground (arith, sorted_set-is_nil xs))),
  λ h. ground (arith, sorted_set-is_nil xs, (is_nil_iff xs).1 ((names-is_nil xs).1 h)),
)
