-- ===== src/Reconcile/Same/Storage.antt =====
-- When the sections on volumes, repos, repo commands and packages find nothing.
use devm.Base.{
  ◌≡◌, refl, ◌↔◌, Bool, true, false, ◌&&◌, not, Option, none, some, List, [], arith, nat_eq,
  bool_eq, pair_eq, keep, Bytes, bytes_beq_iff, bytes_eq,
}
use devm.Base.Assoc.{lookup}
use devm.Schema.Config.{Config, Volume, RepoConfig}
use devm.Base.Names.{names-is_nil, map-is_nil, has-keep, has, sorted_set, has-sorted_set}
use devm.Reconcile.Walk.{union_names, has-union_names, concat_map-is_nil}
use devm.Reconcile.Compare.{slice_equal_iff, pointer_equal_iff, walk_keys-is_nil}
use devm.Reconcile.Storage.{
  volume_field_changes, volume_difference, compute_volume_changes, repo_field_changes,
  repo_difference, compute_repo_changes, command_difference, command_differences, commands_of,
  compute_commands_changes, package_drift, compute_packages_change,
}
use devm.Reconcile.Same.Iff.{◌with◌, trans_iff, each_iff, unless_same-is_nil}

some_iff : {A : Type 0} (a b : A) → (some a ≡ some b) ↔ (a ≡ b)
some_iff a b = ground arith

volume_field_changes-is_nil :
    (k : Bytes) (o n : Volume) → (volume_field_changes k o n ≡ []) ↔ (o ≡ n)
unfolding volume_field_changes
volume_field_changes-is_nil k o n =
    trans_iff
      (unless_same-is_nil _ (bytes_beq_iff o.path n.path)
        with unless_same-is_nil _ (pointer_equal_iff o.label n.label)
        with unless_same-is_nil _ (slice_equal_iff o.ignore n.ignore))
      (ground arith)

volume_difference-is_nil :
    (k : Bytes) (o n : Option Volume) → (volume_difference k o n ≡ []) ↔ (o ≡ n)
unfolding volume_difference
volume_difference-is_nil k none none = ground arith
volume_difference-is_nil k none (some n) = ground arith
volume_difference-is_nil k (some o) none = ground arith
volume_difference-is_nil k (some o) (some n) =
    trans_iff (volume_field_changes-is_nil k o n) (ground arith)

pub compute_volume_changes-is_nil :
    (old new : Config)
    → (compute_volume_changes old new ≡ [])
      ↔ ((k : Bytes) → lookup k old.volumes ≡ lookup k new.volumes)
unfolding compute_volume_changes
compute_volume_changes-is_nil old new =
    trans_iff
      (walk_keys-is_nil _ old.volumes new.volumes
        (λ k. (volume_difference-is_nil k none none).1 refl))
      (each_iff (λ k. volume_difference-is_nil k _ _))

-- A repo without its commands, which have a section of their own.
abbrev pub without_commands : RepoConfig → RepoConfig
without_commands r = record r { commands = [] }

repo_field_changes-is_nil :
    (k : Bytes) (o n : RepoConfig)
    → (repo_field_changes k o n ≡ []) ↔ (without_commands o ≡ without_commands n)
unfolding repo_field_changes
repo_field_changes-is_nil k o n =
    trans_iff
      (unless_same-is_nil _ (pointer_equal_iff o.url n.url)
        with unless_same-is_nil _ (bytes_beq_iff o.secret n.secret)
        with unless_same-is_nil _ (pointer_equal_iff o.label n.label)
        with unless_same-is_nil _ (pointer_equal_iff o.volume n.volume)
        with unless_same-is_nil _ (pointer_equal_iff o.primary n.primary)
        with unless_same-is_nil _ (slice_equal_iff o.ignore n.ignore))
      (ground arith)

abbrev pub repo_settings : Option RepoConfig → Option RepoConfig
repo_settings none = none
repo_settings (some r) = some (without_commands r)

repo_difference-is_nil :
    (k : Bytes) (o n : Option RepoConfig)
    → (repo_difference k o n ≡ []) ↔ (repo_settings o ≡ repo_settings n)
unfolding repo_difference
repo_difference-is_nil k none none = ground arith
repo_difference-is_nil k none (some n) = ground arith
repo_difference-is_nil k (some o) none = ground arith
repo_difference-is_nil k (some o) (some n) =
    trans_iff (repo_field_changes-is_nil k o n) (ground arith)

pub compute_repo_changes-is_nil :
    (old new : Config)
    → (compute_repo_changes old new ≡ [])
      ↔ ((k : Bytes) → repo_settings (lookup k old.repos) ≡ repo_settings (lookup k new.repos))
unfolding compute_repo_changes
compute_repo_changes-is_nil old new =
    trans_iff
      (walk_keys-is_nil _ old.repos new.repos (λ k. (repo_difference-is_nil k none none).1 refl))
      (each_iff (λ k. repo_difference-is_nil k _ _))

-- Two lists with the same members.
abbrev pub SameNames : List Bytes → List Bytes → Type 0
SameNames o n = (x : Bytes) → has x o ≡ has x n

command_difference-is_nil : (r k : Bytes) (o n : Bool) → (command_difference r k o n ≡ []) ↔ (o ≡ n)
unfolding command_difference
command_difference-is_nil r k true true = ground arith
command_difference-is_nil r k true false = ground arith
command_difference-is_nil r k false true = ground arith
command_difference-is_nil r k false false = ground arith

command_differences-is_nil :
    (r : Bytes) (o n : List Bytes) → (command_differences r o n ≡ []) ↔ SameNames o n
unfolding command_differences
command_differences-is_nil r o n =
    trans_iff
      (concat_map-is_nil _ (union_names o n) (λ k h.
        (command_difference-is_nil r k (has k o) (has k n)).1
          (ground (arith, has-union_names k o n))))
      (each_iff (λ k. command_difference-is_nil r k _ _))

pub compute_commands_changes-is_nil :
    (old new : Config)
    → (compute_commands_changes old new ≡ []) ↔ (
        (k : Bytes)
        → SameNames (commands_of (lookup k old.repos)) (commands_of (lookup k new.repos)))
unfolding compute_commands_changes
compute_commands_changes-is_nil old new =
    trans_iff
      (walk_keys-is_nil _ old.repos new.repos
        (λ k. (command_differences-is_nil k [] []).1 (λ x. refl)))
      (each_iff (λ k. command_differences-is_nil k _ _))

missing-is_nil :
    (xs ys : List Bytes)
    → (keep (λ p. not (has p ys)) xs ≡ []) ↔ ((k : Bytes) → (not (has k ys) && has k xs) ≡ false)
missing-is_nil xs ys =
    trans_iff (names-is_nil (keep (λ p. not (has p ys)) xs))
      (each_iff (λ k. ground (arith, has-keep (λ p. not (has p ys)) k xs)))

pub both_missing_iff :
    (xs ys : List Bytes)
    → ((keep (λ p. not (has p ys)) xs ≡ []) × (keep (λ p. not (has p xs)) ys ≡ []))
      ↔ SameNames ys xs
both_missing_iff xs ys = (
  λ e k. ground (arith, (missing-is_nil xs ys).0 (e.0) k, (missing-is_nil ys xs).0 (e.1) k),
  λ s. (
    (missing-is_nil xs ys).1 (λ k. ground (arith, s k)),
    (missing-is_nil ys xs).1 (λ k. ground (arith, s k)),
  ),
)

sorted_set-is_nil : (xs : List Bytes) → (sorted_set xs ≡ []) ↔ (xs ≡ [])
sorted_set-is_nil xs = trans_iff (names-is_nil (sorted_set xs)) (
    trans_iff (each_iff (λ k. ground (arith, has-sorted_set k xs)))
      ((names-is_nil xs).1, (names-is_nil xs).0))

pub compute_packages_change-is_nil :
    (old new : Config)
    → (compute_packages_change old new ≡ []) ↔ SameNames old.packages new.packages
unfolding compute_packages_change package_drift
compute_packages_change-is_nil old new =
    trans_iff
      (trans_iff (map-is_nil _ _) (sorted_set-is_nil _)
        with trans_iff (map-is_nil _ _) (sorted_set-is_nil _))
      (both_missing_iff new.packages old.packages)
