-- ===== src/Schema/Repos.antt =====
-- Which repo is the primary one, and `Config.validateRepos` (internal/schema/schema.go).
pub mod Primary
pub mod Name
use devm.Base.{
  ℕ, ◌+◌, ◌⊎◌, inl, inr, Bool, true, false, ◌&&◌, not, Option, none, some, List, [], ◌∷◌, ◌==◌,
  nat_beq, keep, is_nil, Bytes, bytes_eq, if◌then◌else◌,
}
use devm.Base.Assoc.{Map, lookup}
use devm.Base.Names.{keys, sorted_set}
use devm.Base.Checks.{◌or_else◌, reject_if, each}
use devm.Base.Words.{is_function_name}
use devm.Schema.Config.{Config, RepoConfig}

pub data RepoError : Type 0 where
  many_primary no_primary ambiguous_primary : RepoError
  primary_without_volume secondary_without_url : Bytes → RepoError

-- Go's zero value, which reading a missing key of a map gives.
abbrev pub zero_repo : RepoConfig
zero_repo = record {
  url = none;
  secret = [];
  label = none;
  volume = none;
  primary = none;
  ignore = [];
  commands = [];
}

unfoldable pub repo_of : Config → Bytes → RepoConfig
repo_of c name = elim (lookup name c.repos) [ none ↦ zero_repo | some r ↦ r ]

-- `primary: true` is written.
unfoldable pub is_primary : RepoConfig → Bool
is_primary r = elim (r.primary) [ none ↦ false | some b ↦ b ]

unfoldable pub has_no_url : RepoConfig → Bool
has_no_url r = elim (r.url) [ none ↦ true | some u ↦ false ]

-- `volume: false` is written.
unfoldable pub has_no_volume : RepoConfig → Bool
has_no_volume r = elim (r.volume) [ none ↦ false | some b ↦ not b ]

-- The loop of `PrimaryRepoName`, with the last repo without a URL and their number. Go iterates
-- over a map in any order: here it is the order of the association list.
unfoldable pub primary_from : Map Bytes RepoConfig → Bytes → ℕ → Bytes
primary_from [] last count = if nat_beq count 1 then last else []
primary_from ((name, r) ∷ m) last count =
    let rest =
      primary_from m (if has_no_url r then name else last)
        (if has_no_url r then count + 1 else count) in
    if is_primary r then name else rest

unfoldable pub primary_repo_name : Config → Bytes
unfolding primary_from
primary_repo_name c = primary_from c.repos [] 0

unfoldable pub primary_among : (explicit url_nil : List Bytes) → RepoError ⊎ Bytes
primary_among [] [] = inl no_primary
primary_among [] (u ∷ []) = inr u
primary_among [] (u ∷ v ∷ us) = inl ambiguous_primary
primary_among (e ∷ []) us = inr e
primary_among (e ∷ f ∷ es) us = inl many_primary

unfoldable pub check_primary : Config → List Bytes → Bytes → Option RepoError
check_primary c names primary =
    reject_if (has_no_volume (repo_of c primary)) (primary_without_volume primary)
    or_else each
        (λ name.
          reject_if (not (name == primary) && has_no_url (repo_of c name))
            (secondary_without_url name))
        names

unfoldable pub check_repos :
    Config → List Bytes → (explicit url_nil : List Bytes) → Option RepoError
check_repos c names explicit url_nil = elim (primary_among explicit url_nil) [
  | inl e ↦ some e
  | inr primary ↦ check_primary c names primary
]

unfoldable pub validate_repos : Config → Option RepoError
validate_repos c =
    let names = sorted_set (keys c.repos) in
    if is_nil c.repos
    then none
    else check_repos c names (keep (λ n. is_primary (repo_of c n)) names)
        (keep (λ n. has_no_url (repo_of c n)) names)

-- `RepoConfig.validateCommands` (internal/schema/repo.go): the first name that is no function name.
unfoldable pub validate_commands : RepoConfig → Option Bytes
validate_commands r = each (λ name. reject_if (not (is_function_name name)) name) r.commands
