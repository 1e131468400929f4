-- ===== src/Base/Order.antt =====
-- The order of texts is a strict total order, so that the sorted set of names is strictly
-- increasing and holds each name once.
use devm.Base.{
  ◌≡◌, refl, inl, inr, true, false, List, [], ◌∷◌, arith, ◌==◌, All, Bool-cases, Bytes, bytes_eq,
  bytes_beq_iff, bytes_ltb,
}
use devm.Base.Names.{has, sorted_set, insert_name}
use devm.Base.Claims.{Distinct}

bytes_ltb_trans :
    (a b c : Bytes) → bytes_ltb a b ≡ true → bytes_ltb b c ≡ true → bytes_ltb a c ≡ true
bytes_ltb_trans a [] c h k = absurd (cc h)
bytes_ltb_trans a (y ∷ b) [] h k = absurd (cc k)
bytes_ltb_trans [] (y ∷ b) (z ∷ c) h k = refl
bytes_ltb_trans (x ∷ a) (y ∷ b) (z ∷ c) h k = ground (arith, bytes_ltb_trans a b c)

bytes_ltb_irrefl : (a : Bytes) → bytes_ltb a a ≡ false
bytes_ltb_irrefl [] = refl
bytes_ltb_irrefl (x ∷ a) = ground (arith, bytes_ltb_irrefl a)

bytes_ltb_total : (a b : Bytes) → bytes_ltb a b ≡ false → (b == a) ≡ false → bytes_ltb b a ≡ true
bytes_ltb_total [] [] h k = absurd (cc k)
bytes_ltb_total [] (y ∷ b) h k = absurd (cc h)
bytes_ltb_total (x ∷ a) [] h k = refl
bytes_ltb_total (x ∷ a) (y ∷ b) h k = ground (arith, bytes_ltb_total a b)

abbrev Above : Bytes → List Bytes → Type 0
Above x ys = All (λ y. bytes_ltb x y ≡ true) ys

abbrev pub IsIncreasing : List Bytes → Type 0
IsIncreasing [] = Unit
IsIncreasing (x ∷ xs) = Above x xs × IsIncreasing xs

Above-trans : (x y : Bytes) (ys : List Bytes) → bytes_ltb x y ≡ true → Above y ys → Above x ys
Above-trans x y [] h a = tt
Above-trans x y (z ∷ ys) h a = (bytes_ltb_trans x y z h (a.0), Above-trans x y ys h (a.1))

Above-insert_name :
    (z x : Bytes) (ys : List Bytes) → bytes_ltb z x ≡ true → Above z ys → Above z (insert_name x ys)
unfolding insert_name
Above-insert_name z x [] h a = (h, tt)
Above-insert_name z x (y ∷ ys) h a = elim (Bool-cases (y == x)) [
  | inl same ↦ rw (same, insert_name) a
  | inr other ↦ elim (Bool-cases (bytes_ltb x y)) [
    | inl less ↦ rw (other, insert_name) (rw less (h, a))
    | inr more ↦ rw (other, insert_name) (rw more (a.0, Above-insert_name z x ys h (a.1)))
  ]
]

insert_name-IsIncreasing :
    (x : Bytes) (ys : List Bytes) → IsIncreasing ys → IsIncreasing (insert_name x ys)
unfolding insert_name
insert_name-IsIncreasing x [] s = (tt, tt)
insert_name-IsIncreasing x (y ∷ ys) s = elim (Bool-cases (y == x)) [
  | inl same ↦ rw (same, insert_name) s
  | inr other ↦ elim (Bool-cases (bytes_ltb x y)) [
    | inl less ↦ rw (other, insert_name) (rw less ((less, Above-trans x y ys less (s.0)), s))
    | inr more ↦
        rw (other, insert_name)
          (rw more (
            Above-insert_name y x ys (bytes_ltb_total x y more other) (s.0),
            insert_name-IsIncreasing x ys (s.1),
          ))
  ]
]

pub sorted_set-IsIncreasing : (xs : List Bytes) → IsIncreasing (sorted_set xs)
unfolding sorted_set
sorted_set-IsIncreasing [] = tt
sorted_set-IsIncreasing (x ∷ xs) =
    insert_name-IsIncreasing x (sorted_set xs) (sorted_set-IsIncreasing xs)

has-Above : (x : Bytes) (ys : List Bytes) → Above x ys → has x ys ≡ false
has-Above x [] a = refl
has-Above x (y ∷ ys) a =
    ground (arith, has-Above x ys (a.1), bytes_beq_iff y x, bytes_ltb_irrefl x, a.0)

IsIncreasing-Distinct : (xs : List Bytes) → IsIncreasing xs → Distinct xs
IsIncreasing-Distinct [] s = tt
IsIncreasing-Distinct (x ∷ xs) s = (has-Above x xs (s.0), IsIncreasing-Distinct xs (s.1))

pub sorted_set-Distinct : (xs : List Bytes) → Distinct (sorted_set xs)
sorted_set-Distinct xs = IsIncreasing-Distinct (sorted_set xs) (sorted_set-IsIncreasing xs)
