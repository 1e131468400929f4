-- ===== src/Reconcile/Flavor/Found.antt =====
-- Whether a list of changes has one of a kind, put together from the parts of the list.
use devm.Base.{
  ◌≡◌, refl, ◌∙◌, Bool, true, false, ◌&&◌, ◌||◌, not, List, [], ◌∷◌, ◌++◌, arith, nat_eq, bool_eq,
  pair_eq, any, any-append, bytes_eq,
}
use devm.Reconcile.Change.{Change, needs_teardown, needs_restart}
use devm.Reconcile.Compare.{unless_same}
use devm.Reconcile.Flavor.Calm.{IsCalm, disturbs}

-- Whether a list has a change of a kind, as a fact that is put together from parts.
pub record Finds (p : Change → Bool) (cs : List Change) (b : Bool) : Type 0 where
  pub found : any p cs ≡ b

infixl 20 ◌found_with◌
pub ◌found_with◌ :
    {p : Change → Bool} {xs ys : List Change} {a b : Bool}
    → Finds p xs a
    → Finds p ys b
    → Finds p (xs ++ ys) (a || b)
◌found_with◌ {p = p} {xs = xs} {ys = ys} f g = record {
  found = any-append p xs ys ∙ rw (f.found, g.found);
}

pub unless_same-Finds :
    (p : Change → Bool) (b : Bool) (c : Change) → Finds p (unless_same b c) (not b && p c)
unfolding unless_same
unless_same-Finds p true c = record { found = refl }
unless_same-Finds p false c = record { found = ground arith }

any-false :
    (p q : Change → Bool) (cs : List Change)
    → ((c : Change) → p c ≡ true → q c ≡ true)
    → any q cs ≡ false
    → any p cs ≡ false
any-false p q [] le h = refl
any-false p q (c ∷ cs) le h = ground (arith, le c, any-false p q cs le)

needs_teardown-disturbs : (c : Change) → needs_teardown c ≡ true → disturbs c ≡ true
needs_teardown-disturbs c h = ground arith

needs_restart-disturbs : (c : Change) → needs_restart c ≡ true → disturbs c ≡ true
needs_restart-disturbs c h = ground arith

pub calm_teardown : {cs : List Change} → IsCalm cs → Finds needs_teardown cs false
calm_teardown {cs = cs} h = record {
  found = any-false needs_teardown disturbs cs needs_teardown-disturbs h.quiet;
}

pub calm_restart : {cs : List Change} → IsCalm cs → Finds needs_restart cs false
calm_restart {cs = cs} h = record {
  found = any-false needs_restart disturbs cs needs_restart-disturbs h.quiet;
}
