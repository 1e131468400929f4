-- ===== src/Reconcile/Compare.antt =====
-- The comparisons of internal/reconcile/diff.go on slices and pointers, how it prints pointers, and
-- the walks over the names of two maps.
use devm.Base.{
  ◌≡◌, ◌↔◌, Bool, true, false, ◌&&◌, Option, none, some, List, [], ◌∷◌, ◌++◌, arith, Eq, ◌==◌,
  nat_eq, bool_eq, pair_eq, any, Bytes, codes, bytes_eq,
}
use devm.Base.Assoc.{Map, lookup}
use devm.Schema.Config.{Config, Service, zero_service, service_of}
use devm.Reconcile.Change.{Change}
use devm.Base.Names.{has, keys, has-keys}
use devm.Base.Rounds.{concat_map, any-concat_map_none}
use devm.Reconcile.Walk.{union_keys, has-union_names, concat_map-is_nil}

module _ {A : Type 0} ⦃e : Eq A⦄ where
  -- `stringSliceEqual` and `pathEqual`.
  abbrev pub slice_equal : List A → List A → Bool
  slice_equal [] [] = true
  slice_equal [] (y ∷ ys) = false
  slice_equal (x ∷ xs) [] = false
  slice_equal (x ∷ xs) (y ∷ ys) = x == y && slice_equal xs ys

  pub slice_equal_iff : (xs ys : List A) → (slice_equal xs ys ≡ true) ↔ (xs ≡ ys)
  slice_equal_iff [] [] = ground arith
  slice_equal_iff [] (y ∷ ys) = ground arith
  slice_equal_iff (x ∷ xs) [] = ground arith
  slice_equal_iff (x ∷ xs) (y ∷ ys) = ground (arith, slice_equal_iff xs ys, e.beq_iff x y)

  -- `stringPtrEqual`, `boolPtrEqual`, `memoryEqual` and `cpuEqual`.
  abbrev pub pointer_equal : Option A → Option A → Bool
  pointer_equal none none = true
  pointer_equal none (some b) = false
  pointer_equal (some a) none = false
  pointer_equal (some a) (some b) = a == b

  pub pointer_equal_iff : (a b : Option A) → (pointer_equal a b ≡ true) ↔ (a ≡ b)
  pointer_equal_iff none none = ground arith
  pointer_equal_iff none (some b) = ground arith
  pointer_equal_iff (some a) none = ground arith
  pointer_equal_iff (some a) (some b) = ground (arith, e.beq_iff a b)

abbrev pub format_bool : Bool → Bytes
format_bool true = codes "true"
format_bool false = codes "false"

abbrev pub format_string_pointer : Option Bytes → Bytes
format_string_pointer none = []
format_string_pointer (some s) = s

abbrev pub format_bool_pointer : Option Bool → Bytes
format_bool_pointer none = []
format_bool_pointer (some b) = format_bool b

-- strings.Join.
abbrev pub join : Bytes → List Bytes → Bytes
join sep [] = []
join sep (s ∷ []) = s
join sep (s ∷ t ∷ ss) = s ++ (sep ++ join sep (t ∷ ss))

-- A change if the test says that something differs.
unfoldable pub unless_same : Bool → Change → List Change
unless_same true c = []
unless_same false c = c ∷ []

-- Every name of the two service maps, with what reading the maps gives for it.
unfoldable pub walk_services :
    (Bytes → Service → Service → List Change) → Config → Config → List Change
walk_services f old new =
    concat_map (λ name. f name (service_of old name) (service_of new name))
      (union_keys old.services new.services)

module _ {V : Type 0} where
  unfoldable pub walk_keys :
      (Bytes → Option V → Option V → List Change) → Map Bytes V → Map Bytes V → List Change
  walk_keys f a b = concat_map (λ k. f k (lookup k a) (lookup k b)) (union_keys a b)

  pub union_keys-outside :
      (a b : Map Bytes V) (k : Bytes)
      → has k (union_keys a b) ≡ false
      → (lookup k a ≡ none) × (lookup k b ≡ none)
  unfolding union_keys
  union_keys-outside a b k h =
      let u = has-union_names k (keys a) (keys b) in
      (has-keys k a (ground arith), has-keys k b (ground arith))

  pub walk_keys-is_nil :
      (f : Bytes → Option V → Option V → List Change) (a b : Map Bytes V)
      → ((k : Bytes) → f k none none ≡ [])
      → (walk_keys f a b ≡ []) ↔ ((k : Bytes) → f k (lookup k a) (lookup k b) ≡ [])
  unfolding walk_keys
  walk_keys-is_nil f a b absent =
      concat_map-is_nil _ (union_keys a b)
        (λ k h. let o = union_keys-outside a b k h in rw (o.0, o.1) (absent k))

  pub any-walk_keys :
      (p : Change → Bool) (f : Bytes → Option V → Option V → List Change) (a b : Map Bytes V)
      → ((k : Bytes) (o n : Option V) → any p (f k o n) ≡ false)
      → any p (walk_keys f a b) ≡ false
  unfolding walk_keys
  any-walk_keys p f a b none_of =
      any-concat_map_none p _ (union_keys a b) (λ k. none_of k (lookup k a) (lookup k b))

pub walk_services-is_nil :
    (f : Bytes → Service → Service → List Change) (old new : Config)
    → ((k : Bytes) → f k zero_service zero_service ≡ [])
    → (walk_services f old new ≡ [])
      ↔ ((k : Bytes) → f k (service_of old k) (service_of new k) ≡ [])
unfolding walk_services service_of
walk_services-is_nil f old new absent =
    concat_map-is_nil _ (union_keys old.services new.services) (λ k h.
      let o = union_keys-outside old.services new.services k h in
      rw (o.0, o.1, service_of) (absent k))

pub any-walk_services :
    (p : Change → Bool) (f : Bytes → Service → Service → List Change) (old new : Config)
    → ((k : Bytes) (o n : Service) → any p (f k o n) ≡ false)
    → any p (walk_services f old new) ≡ false
unfolding walk_services
any-walk_services p f old new none_of =
    any-concat_map_none p _ (union_keys old.services new.services)
      (λ k. none_of k (service_of old k) (service_of new k))
