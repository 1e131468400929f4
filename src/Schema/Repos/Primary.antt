-- ===== src/Schema/Repos/Primary.antt =====
-- Valid repos have one primary repo, and `PrimaryRepoName` finds it in every order.
use devm.Base.{
  ◌≡◌, refl, sym, ◌∙◌, ap, ◌≢◌, ◌↔◌, ◌⊎◌, inl, inr, Bool, true, false, ◌&&◌, not, none, some, List,
  [], ◌∷◌, arith, ◌==◌, keep, is_nil, is_nil_iff, Bool-cases, Bytes, bytes_eq, bytes_beq_iff,
  eq_of_==, ==_refl,
}
use mathlib.Core.Path.{subst}
use devm.Base.Names.{has, has-keep, has-sorted_set, keys, sorted_set}
use devm.Base.Order.{sorted_set-Distinct}
use devm.Base.Owners.{All-sorted_set}
use devm.Base.Claims.{Distinct}
use devm.Base.Checks.{◌and_also◌, reject_if_iff, each_iff, iff_trans, iff_refl}
use devm.Schema.Config.{Config, RepoConfig}
use devm.Schema.Repos.{
  RepoError, repo_of, is_primary, has_no_url, has_no_volume, primary_among, check_primary,
  check_repos, validate_repos,
}

abbrev Declared : Config → Bytes → Type 0
Declared c k = has k (keys c.repos) ≡ true

-- The repo that is marked, if only one is, or else the only one without a URL.
abbrev pub IsChosen : Config → Bytes → Type 0
IsChosen c p =
    ((is_primary (repo_of c p) ≡ true)
      × ((k : Bytes) → Declared c k → is_primary (repo_of c k) ≡ true → k ≡ p))
    ⊎ (((k : Bytes) → Declared c k → is_primary (repo_of c k) ≡ false)
        × (has_no_url (repo_of c p) ≡ true)
        × ((k : Bytes) → Declared c k → has_no_url (repo_of c k) ≡ true → k ≡ p))

-- The one primary repo: it has a volume, and every other repo has a URL.
pub record PrimaryRepo (c : Config) (p : Bytes) : Type 0 where
  pub declared : Declared c p
  pub chosen : IsChosen c p
  pub volume : has_no_volume (repo_of c p) ≡ false
  pub others : (k : Bytes) → Declared c k → k ≢ p → has_no_url (repo_of c k) ≡ false

keep-Distinct : (p : Bytes → Bool) (xs : List Bytes) → Distinct xs → Distinct (keep p xs)
keep-Distinct p [] d = tt
keep-Distinct p (x ∷ xs) d = ground (arith, has-keep p x xs, keep-Distinct p xs (d.1))

-- What the two lists of `validateRepos` are.
record Kept (c : Config) (test : RepoConfig → Bool) (xs : List Bytes) : Type 0 where
  holds : (k : Bytes) → has k xs ≡ (test (repo_of c k) && has k (keys c.repos))
  distinct : Distinct xs

Kept-keep :
    (c : Config) (test : RepoConfig → Bool)
    → Kept c test (keep (λ n. test (repo_of c n)) (sorted_set (keys c.repos)))
Kept-keep c test = record {
  holds = λ k. has-keep _ k (sorted_set (keys c.repos)) ∙ rw (has-sorted_set k (keys c.repos));
  distinct = keep-Distinct _ _ (sorted_set-Distinct (keys c.repos));
}

check_primary_iff :
    (c : Config) (p : Bytes)
    → (check_primary c (sorted_set (keys c.repos)) p ≡ none) ↔ (
        (has_no_volume (repo_of c p) ≡ false)
        × ((k : Bytes) → Declared c k → k ≢ p → has_no_url (repo_of c k) ≡ false))
unfolding check_primary
check_primary_iff c p =
    let others =
      All-sorted_set (λ k. (not (k == p) && has_no_url (repo_of c k)) ≡ false) (keys c.repos) in
    iff_trans
      (reject_if_iff _ _ iff_refl
        and_also each_iff _ _ (λ k. reject_if_iff _ _ iff_refl) (sorted_set (keys c.repos)))
      (
        λ h. (h.0, λ k d n. ground (arith, others.0 (h.1) k d, bytes_beq_iff k p)),
        λ h. (h.0, others.1 (λ k d. ground (arith, h.1 k d, bytes_beq_iff k p))),
      )

-- A list with one name is told by its members.
only_one :
    (c : Config) (test : RepoConfig → Bool) (x : Bytes)
    → Kept c test (x ∷ [])
    → (Declared c x)
      × (test (repo_of c x) ≡ true)
      × ((k : Bytes) → Declared c k → test (repo_of c k) ≡ true → k ≡ x)
only_one c test x kept = (
  ground (arith, kept.holds x, ==_refl x),
  ground (arith, kept.holds x, ==_refl x),
  λ k d h. sym (eq_of_== x k (ground (arith, kept.holds k))),
)

-- A list with no name has no member.
none_of :
    (c : Config) (test : RepoConfig → Bool)
    → Kept c test []
    → (k : Bytes) → Declared c k
    → test (repo_of c k) ≡ false
none_of c test kept k d = ground (arith, kept.holds k)

-- Two names of a list are not the same.
not_two :
    (c : Config) (test : RepoConfig → Bool) (x y : Bytes) (xs : List Bytes)
    → Kept c test (x ∷ y ∷ xs)
    → (p : Bytes) → ((k : Bytes) → Declared c k → test (repo_of c k) ≡ true → k ≡ p)
    → ⊥
not_two c test x y xs kept p all =
    let fx = kept.holds x in
    let fy = kept.holds y in
    let same : y ≡ x =
      all y (ground (arith, ==_refl y)) (ground (arith, ==_refl y))
      ∙ sym (all x (ground (arith, ==_refl x)) (ground (arith, ==_refl x))) in
    ground (arith, (kept.distinct).0, bytes_beq_iff y x)

IsChosen-among :
    (c : Config) (es us : List Bytes)
    → Kept c is_primary es
    → Kept c has_no_url us
    → (p : Bytes) → primary_among es us ≡ inr p
    → Declared c p × IsChosen c p
unfolding primary_among
IsChosen-among c [] [] marked bare p h = absurd (cc h)
IsChosen-among c [] (u ∷ []) marked bare p h =
    let one = only_one c has_no_url u bare in
    subst (λ z. Declared c z × IsChosen c z) (cc h)
      (one.0, inr (none_of c is_primary marked, one.1, one.2))
IsChosen-among c [] (u ∷ v ∷ us) marked bare p h = absurd (cc h)
IsChosen-among c (e ∷ []) us marked bare p h =
    let one = only_one c is_primary e marked in
    subst (λ z. Declared c z × IsChosen c z) (cc h) (one.0, inl (one.1, one.2))
IsChosen-among c (e ∷ f ∷ es) us marked bare p h = absurd (cc h)

among_chosen :
    (c : Config) (es us : List Bytes)
    → Kept c is_primary es
    → Kept c has_no_url us
    → (p : Bytes) → Declared c p
    → IsChosen c p
    → primary_among es us ≡ inr p
unfolding primary_among
among_chosen c [] [] marked bare p d (inl (m, o)) = absurd (cc (none_of c is_primary marked p d))
among_chosen c [] (u ∷ us) marked bare p d (inl (m, o)) =
    absurd (cc (none_of c is_primary marked p d))
among_chosen c (e ∷ []) us marked bare p d (inl (m, o)) =
    let one = only_one c is_primary e marked in ap inr (o e (one.0) (one.1))
among_chosen c (e ∷ f ∷ es) us marked bare p d (inl (m, o)) =
    absurd (not_two c is_primary e f es marked p o)
among_chosen c [] [] marked bare p d (inr (n, m, o)) = absurd (cc (none_of c has_no_url bare p d))
among_chosen c [] (u ∷ []) marked bare p d (inr (n, m, o)) =
    let one = only_one c has_no_url u bare in ap inr (o u (one.0) (one.1))
among_chosen c [] (u ∷ v ∷ us) marked bare p d (inr (n, m, o)) =
    absurd (not_two c has_no_url u v us bare p o)
among_chosen c (e ∷ es) us marked bare p d (inr (n, m, o)) =
    absurd (ground (arith, marked.holds e, n e, ==_refl e))

check_repos_iff :
    (c : Config) (es us : List Bytes)
    → Kept c is_primary es
    → Kept c has_no_url us
    → (check_repos c (sorted_set (keys c.repos)) es us ≡ none) ↔ ((p : Bytes) × PrimaryRepo c p)
unfolding check_repos
check_repos_iff c es us marked bare = (
  λ h. to (primary_among es us) refl h,
  λ (p, r).
      rw (among_chosen c es us marked bare p r.declared r.chosen, check_repos)
        ((check_primary_iff c p).1 (r.volume, r.others)),
)
  where
    to :
        (s : RepoError ⊎ Bytes)
        → primary_among es us ≡ s
        → (elim s [ inl e ↦ some e | inr p ↦ check_primary c (sorted_set (keys c.repos)) p ]) ≡ none
        → (p : Bytes) × PrimaryRepo c p
    to (inl e) same h = absurd (cc h)
    to (inr p) same h =
        let chosen = IsChosen-among c es us marked bare p same in
        let checked = (check_primary_iff c p).0 h in
        (
          p,
          record { declared = chosen.0; chosen = chosen.1; volume = checked.0; others = checked.1 },
        )

-- `validateRepos` accepts exactly the configs with no repo or with a primary repo.
pub validate_repos_iff :
    (c : Config) → (validate_repos c ≡ none) ↔ ((c.repos ≡ []) ⊎ ((p : Bytes) × PrimaryRepo c p))
unfolding validate_repos
validate_repos_iff c =
    let some_repo = check_repos_iff c _ _ (Kept-keep c is_primary) (Kept-keep c has_no_url) in
    elim (Bool-cases (is_nil c.repos)) [
      | inl empty ↦ (λ h. inl ((is_nil_iff c.repos).0 empty), λ p. rw (empty))
      | inr filled ↦ (
        λ h. inr (some_repo.0 (rw (filled) at h)),
        λ p. rw filled (
            some_repo.1 (elim p [
              | inl none_left ↦ absurd (ground (arith, (is_nil_iff c.repos).1 none_left))
              | inr found ↦ found
            ])),
      )
    ]
