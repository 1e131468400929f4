-- ===== src/Reconcile/Same/Iff.antt =====
-- How "finds nothing" of a section is put together from its parts.
use devm.Base.{
  ◌≡◌, refl, ◌↔◌, Bool, true, false, ◌&&◌, List, [], ◌++◌, nat_eq, bool_eq, pair_eq, bytes_eq,
}
use devm.Reconcile.Change.{Change}
use devm.Reconcile.Walk.{append-is_nil}
use devm.Reconcile.Compare.{unless_same}

-- The parts of a result, one behind the other, find nothing if and only if each of them does.
infixl 20 ◌with◌
module _ {ℓ κ} {P : Type ℓ} {Q : Type κ} where
  pub trans_iff {ι} : {R : Type ι} → P ↔ Q → Q ↔ R → P ↔ R
  trans_iff f g = (λ p. g.0 (f.0 p), λ r. f.1 (g.1 r))

  pub ◌with◌ : {xs ys : List Change} → (xs ≡ []) ↔ P → (ys ≡ []) ↔ Q → ((xs ++ ys) ≡ []) ↔ (P × Q)
  ◌with◌ {xs = xs} {ys = ys} f g =
      let both = append-is_nil xs ys in
      (λ e. (f.0 ((both.0 e).0), g.0 ((both.0 e).1)), λ p. both.1 (f.1 (p.0), g.1 (p.1)))

  pub and_iff : {a b : Bool} → (a ≡ true) ↔ P → (b ≡ true) ↔ Q → ((a && b) ≡ true) ↔ (P × Q)
  and_iff {a = true} {b = b} f g = (λ e. (f.0 refl, g.0 e), λ p. g.1 (p.1))
  and_iff {a = false} {b = b} f g = (λ e. absurd (cc e), λ p. f.1 (p.0))

-- To replace what holds of each name by what is equivalent to it.
pub each_iff {ℓ κ ι} :
    {A : Type ι} {P : A → Type ℓ} {Q : A → Type κ}
    → ((a : A) → P a ↔ Q a)
    → ((a : A) → P a) ↔ ((a : A) → Q a)
each_iff h = (λ p a. (h a).0 (p a), λ q a. (h a).1 (q a))

pub unless_same-is_nil {ℓ} :
    {P : Type ℓ} {b : Bool} (c : Change) → (b ≡ true) ↔ P → (unless_same b c ≡ []) ↔ P
unfolding unless_same
unless_same-is_nil {b = true} c f = (λ e. f.0 refl, λ p. refl)
unless_same-is_nil {b = false} c f = (λ e. absurd (cc e), λ p. absurd (cc (f.1 p)))
