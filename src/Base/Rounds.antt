-- ===== src/Base/Rounds.antt =====
-- Loops that append what each round finds.
use devm.Base.{◌≡◌, refl, Bool, false, List, [], ◌∷◌, ◌++◌, any, any-append}

module _ {A B : Type 0} where
  unfoldable pub concat_map : (A → List B) → List A → List B
  concat_map f [] = []
  concat_map f (x ∷ xs) = f x ++ concat_map f xs

module _ {A B : Type 0} where
  -- Whether a walk finds something of a kind.
  pub any-concat_map :
      (p : B → Bool) (f : A → List B) (xs : List A)
      → any p (concat_map f xs) ≡ any (λ x. any p (f x)) xs
  unfolding concat_map
  any-concat_map p f [] = refl
  any-concat_map p f (x ∷ xs) = rw (any-append p (f x) (concat_map f xs), any-concat_map p f xs)

  pub any-concat_map_none :
      (p : B → Bool) (f : A → List B) (xs : List A)
      → ((x : A) → any p (f x) ≡ false)
      → any p (concat_map f xs) ≡ false
  unfolding concat_map
  any-concat_map_none p f [] none_of = refl
  any-concat_map_none p f (x ∷ xs) none_of =
      rw (any-append p (f x) (concat_map f xs), none_of x, any-concat_map_none p f xs none_of)
