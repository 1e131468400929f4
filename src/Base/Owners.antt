-- ===== src/Base/Owners.antt =====
-- What holds of all names of a list, and keys that have one owner: the same said by names.
use devm.Base.{
  ◌≡◌, sym, ap, ◌∙◌, ◌↔◌, inl, inr, true, Option, some, List, [], ◌∷◌, arith, Eq, ◌==◌, any, All,
  Bool-cases, Option-cases, Bytes, bytes_eq, bytes_beq_iff, eq_of_==, ==_refl,
}
use mathlib.Core.Path.{subst}
use devm.Base.Names.{has, sorted_set, has-sorted_set}
use devm.Base.Order.{sorted_set-Distinct}
use devm.Base.Claims.{claims, Distinct}

module _ {ℓ} (P : Bytes → Type ℓ) where
  All-has : (xs : List Bytes) → All P xs → (k : Bytes) → has k xs ≡ true → P k
  All-has [] a k h = absurd (cc h)
  All-has (x ∷ xs) a k h = elim (Bool-cases (x == k)) [
    | inl same ↦ subst P (eq_of_== x k same) (a.0)
    | inr other ↦ All-has xs (a.1) k (ground arith)
  ]

  All-of_has : (xs : List Bytes) → ((k : Bytes) → has k xs ≡ true → P k) → All P xs
  All-of_has [] f = tt
  All-of_has (x ∷ xs) f =
      (f x (ground (arith, ==_refl x)), All-of_has xs (λ k h. f k (ground arith)))

  -- On the sorted set of some names.
  pub All-sorted_set :
      (xs : List Bytes) → All P (sorted_set xs) ↔ ((k : Bytes) → has k xs ≡ true → P k)
  All-sorted_set xs = (
    λ a k h. All-has (sorted_set xs) a k (has-sorted_set k xs ∙ h),
    λ f. All-of_has (sorted_set xs) (λ k h. f k (sym (has-sorted_set k xs) ∙ h)),
  )

module _ {K : Type 0} ⦃eqs : Eq K⦄ (key : Bytes → Option K) where
  -- Two names of the list that claim the same key are the same name.
  abbrev pub OneOwner : List Bytes → Type 0
  OneOwner xs =
      (j k : Bytes)
      → has j xs ≡ true
      → has k xs ≡ true
      → (q : K) → key j ≡ some q
      → key k ≡ some q
      → j ≡ k

  claimed :
      (xs : List Bytes) (k : Bytes) (q : K)
      → has k xs ≡ true
      → key k ≡ some q
      → any (λ c. c == q) (claims key xs) ≡ true
  claimed [] k q h p = absurd (cc h)
  claimed (x ∷ xs) k q h p = elim (Bool-cases (x == k)) [
    | inl same ↦
        let here : key x ≡ some q = ap key (eq_of_== x k same) ∙ p in
        ground (arith, here, eqs.beq_iff q q)
    | inr other ↦ ground (arith, claimed xs k q)
  ]

  owner_of :
      (xs : List Bytes) (q : K)
      → any (λ c. c == q) (claims key xs) ≡ true
      → (k : Bytes) × (has k xs ≡ true) × (key k ≡ some q)
  owner_of [] q h = absurd (cc h)
  owner_of (x ∷ xs) q h = elim (Option-cases (key x)) [
    | inl free ↦ let (k, inside, p) = owner_of xs q (ground arith) in (k, ground arith, p)
    | inr (c, p) ↦ elim (Bool-cases (c == q)) [
      | inl same ↦ (x, ground (arith, ==_refl x), ground (arith, eqs.beq_iff c q))
      | inr other ↦ let (k, inside, r) = owner_of xs q (ground arith) in (k, ground arith, r)
    ]
  ]

  one_owner : (xs : List Bytes) → Distinct (claims key xs) → OneOwner xs
  one_owner [] d j k hj hk q p r = absurd (cc hj)
  one_owner (x ∷ xs) d j k hj hk q p r = elim (Bool-cases (x == j)) [
    | inl first ↦ elim (Bool-cases (x == k)) [
      | inl second ↦ sym (eq_of_== x j first) ∙ eq_of_== x k second
      | inr other ↦
          absurd (ground (arith, claimed xs k q, bytes_beq_iff x j, ap key (eq_of_== x j first)))
    ]
    | inr later ↦ elim (Bool-cases (x == k)) [
      | inl second ↦ absurd (ground (arith, claimed xs j q, ap key (eq_of_== x k second)))
      | inr other ↦ one_owner xs (ground arith) j k (ground arith) (ground arith) q p r
    ]
  ]

  Distinct-of_owners : (xs : List Bytes) → Distinct xs → OneOwner xs → Distinct (claims key xs)
  Distinct-of_owners [] d o = tt
  Distinct-of_owners (x ∷ xs) d o =
      let rest = Distinct-of_owners xs (d.1) (λ j k hj hk. o j k (ground arith) (ground arith)) in
      elim (Option-cases (key x)) [
        | inl free ↦ rw (free, claims) rest
        | inr (q, p) ↦ elim (Bool-cases (any (λ c. c == q) (claims key xs))) [
          | inl twice ↦
              let (k, inside, r) = owner_of xs q twice in
              let same = o x k (ground (arith, ==_refl x)) (ground arith) q p r in
              absurd (ground (arith, d.0, subst (λ z. has z xs ≡ true) (sym same) inside))
          | inr once ↦ rw (p, claims) (once, rest)
        ]
      ]

  -- On the sorted set of some names.
  pub Distinct-claims : (xs : List Bytes) → Distinct (claims key (sorted_set xs)) ↔ OneOwner xs
  Distinct-claims xs = (
    λ d j k hj hk.
        one_owner (sorted_set xs) d j k (has-sorted_set j xs ∙ hj) (has-sorted_set k xs ∙ hk),
    λ o.
        Distinct-of_owners (sorted_set xs) (sorted_set-Distinct xs)
          (λ j k hj hk. o j k (sym (has-sorted_set j xs) ∙ hj) (sym (has-sorted_set k xs) ∙ hk)),
  )
