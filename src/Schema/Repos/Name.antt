-- ===== src/Schema/Repos/Name.antt =====
-- `PrimaryRepoName` (internal/schema/schema.go) on valid repos, whatever the order of the map.
use devm.Base.{
  ℕ, ◌+◌, ◌≡◌, ◌≢◌, refl, sym, ◌∙◌, ap, inl, inr, Bool, true, false, none, some, [], ◌∷◌, arith,
  nat_beq, All, any, Bool-cases, Bytes, bytes_eq, bytes_beq_iff, if◌then◌else◌,
}
use devm.Base.Assoc.{Map, lookup, IsUnique, All-entries}
use devm.Base.Names.{has-keys-some, lookup-has}
use devm.Schema.Config.{Config, RepoConfig}
use mathlib.Core.Path.{subst}
use devm.Schema.Repos.{
  validate_repos, repo_of, is_primary, has_no_url, primary_from, primary_repo_name,
}
use devm.Schema.Repos.Primary.{validate_repos_iff, PrimaryRepo, IsChosen}

-- The marked repo is found before the count is looked at.
primary_from-marked :
    (p : Bytes) (m : Map Bytes RepoConfig) (last : Bytes) (count : ℕ)
    → any (λ kv. is_primary kv.1) m ≡ true
    → All (λ kv. is_primary kv.1 ≡ true → kv.0 ≡ p) m
    → primary_from m last count ≡ p
unfolding primary_from
primary_from-marked p [] last count h a = absurd (cc h)
primary_from-marked p ((k, r) ∷ m) last count h a = elim (Bool-cases (is_primary r)) [
  | inl marked ↦ rw marked (a.0 marked)
  | inr plain ↦ rw plain (primary_from-marked p m _ _ (ground arith) (a.1))
]

-- With no repo left that is marked or has no URL the count decides.
primary_from-rest :
    (m : Map Bytes RepoConfig) (last : Bytes) (count : ℕ)
    → All (λ kv. is_primary kv.1 ≡ false) m
    → All (λ kv. has_no_url kv.1 ≡ false) m
    → primary_from m last count ≡ (if nat_beq count 1 then last else [])
unfolding primary_from
primary_from-rest [] last count a b = refl
primary_from-rest ((k, r) ∷ m) last count a b =
    ground (arith, primary_from-rest m last count (a.1) (b.1), a.0, b.0)

no_other :
    (p : Bytes) (m : Map Bytes RepoConfig)
    → lookup p m ≡ none
    → All (λ kv. has_no_url kv.1 ≡ true → kv.0 ≡ p) m
    → All (λ kv. has_no_url kv.1 ≡ false) m
unfolding lookup
no_other p [] h a = tt
no_other p ((k, r) ∷ m) h a =
    (ground (arith, a.0, bytes_beq_iff k p), no_other p m (ground arith) (a.1))

primary_from-bare :
    (p : Bytes) (m : Map Bytes RepoConfig) (last : Bytes)
    → IsUnique m
    → any (λ kv. has_no_url kv.1) m ≡ true
    → All (λ kv. is_primary kv.1 ≡ false) m
    → All (λ kv. has_no_url kv.1 ≡ true → kv.0 ≡ p) m
    → primary_from m last 0 ≡ p
unfolding primary_from
primary_from-bare p [] last u h a b = absurd (cc h)
primary_from-bare p ((k, r) ∷ m) last (new, u) h a b = elim (Bool-cases (has_no_url r)) [
  | inl bare ↦
      let same : k ≡ p = b.0 bare in
      rw (a.0, bare)
        (primary_from-rest m k (0 + 1) (a.1) (no_other p m (rw same at new) (b.1)) ∙ same)
  | inr plain ↦ rw (a.0, plain) (primary_from-bare p m last u (ground arith) (a.1) (b.1))
]

any_of_lookup :
    (test : RepoConfig → Bool) (p : Bytes) (m : Map Bytes RepoConfig) (r : RepoConfig)
    → lookup p m ≡ some r
    → test r ≡ true
    → any (λ kv. test kv.1) m ≡ true
unfolding lookup
any_of_lookup test p [] r h t = absurd (cc h)
any_of_lookup test p ((k, s) ∷ m) r h t = ground (arith, any_of_lookup test p m r)

repo_of_found :
    (c : Config) (k : Bytes) (r : RepoConfig) → lookup k c.repos ≡ some r → repo_of c k ≡ r
unfolding repo_of
repo_of_found c k r h = rw (h, repo_of)

primary_repo_name_lem :
    (c : Config) (p : Bytes) → IsUnique c.repos → PrimaryRepo c p → primary_repo_name c ≡ p
unfolding primary_repo_name
primary_repo_name_lem c p u primary = of_choice primary.chosen
  where
    entry : (r : RepoConfig) × (lookup p c.repos ≡ some r)
    entry = lookup-has p c.repos primary.declared

    here : repo_of c p ≡ entry.0
    here = repo_of_found c p (entry.0) (entry.1)

    of_choice : IsChosen c p → primary_repo_name c ≡ p
    of_choice (inl (marked, only)) =
        primary_from-marked p c.repos [] 0
          (any_of_lookup is_primary p c.repos (entry.0) (entry.1)
            (sym (ap is_primary here) ∙ marked))
          (All-entries (λ k r. is_primary r ≡ true → k ≡ p) c.repos u
            (λ k r found m.
              only k (has-keys-some k c.repos r found)
                (ap is_primary (repo_of_found c k r found) ∙ m)))
    of_choice (inr (plain, bare, only)) =
        primary_from-bare p c.repos [] u
          (any_of_lookup has_no_url p c.repos (entry.0) (entry.1) (sym (ap has_no_url here) ∙ bare))
          (All-entries (λ k r. is_primary r ≡ false) c.repos u
            (λ k r found.
              sym (ap is_primary (repo_of_found c k r found))
              ∙ plain k (has-keys-some k c.repos r found)))
          (All-entries (λ k r. has_no_url r ≡ true → k ≡ p) c.repos u
            (λ k r found b.
              only k (has-keys-some k c.repos r found)
                (ap has_no_url (repo_of_found c k r found) ∙ b)))

-- In a config whose repos are accepted, and are not none, the repo that `PrimaryRepoName` names is
-- the primary one, in whatever order the names stand in the map: it is declared, it is the one that
-- is marked, or else the only one without a URL, it has a volume, and the others have a URL.
pub primary_repo_name-PrimaryRepo :
    (c : Config)
    → IsUnique c.repos
    → validate_repos c ≡ none
    → c.repos ≢ []
    → PrimaryRepo c (primary_repo_name c)
primary_repo_name-PrimaryRepo c u accepted filled = elim ((validate_repos_iff c).0 accepted) [
  | inl empty ↦ absurd (filled empty)
  | inr (p, primary) ↦ subst (PrimaryRepo c) (sym (primary_repo_name_lem c p u primary)) primary
]
