-- ===== src/Reconcile/Same/Machine.antt =====
-- When the sections on the machine, the allowlist and the secrets find nothing.
use devm.Base.{
  ◌≡◌, refl, ◌↔◌, Option, none, some, [], arith, nat_beq_iff, nat_eq, bool_beq_iff, bool_eq,
  pair_eq, Bytes, bytes_beq_iff, bytes_eq,
}
use devm.Base.Int.{int_eq}
use devm.Base.Assoc.{Map, lookup}
use devm.Base.Sort.{sort_by-is_nil}
use devm.Schema.Allow.{domains}
use devm.Schema.Config.{Config}
use devm.Base.Names.{map-is_nil}
use devm.Reconcile.Compare.{slice_equal_iff, pointer_equal_iff, walk_keys-is_nil}
use devm.Reconcile.Machine.{
  compute_path_change, compute_identity_change, compute_docker_change, effective_disk_gb,
  compute_disk_change, compute_resource_change, compute_network_changes, secret_difference,
  compute_secret_changes,
}
use devm.Reconcile.Same.Iff.{◌with◌, trans_iff, each_iff, unless_same-is_nil}
use devm.Reconcile.Same.Storage.{SameNames, both_missing_iff}

pub compute_path_change-is_nil :
    (old new : Config) → (compute_path_change old new ≡ []) ↔ (old.path ≡ new.path)
unfolding compute_path_change
compute_path_change-is_nil old new = unless_same-is_nil _ (slice_equal_iff old.path new.path)

pub compute_identity_change-is_nil :
    (old new : Config) → (compute_identity_change old new ≡ []) ↔ (old.project ≡ new.project)
unfolding compute_identity_change
compute_identity_change-is_nil old new =
    unless_same-is_nil _ (bytes_beq_iff old.project new.project)

pub compute_docker_change-is_nil :
    (old new : Config) → (compute_docker_change old new ≡ []) ↔ (old.docker ≡ new.docker)
unfolding compute_docker_change
compute_docker_change-is_nil old new = unless_same-is_nil _ (bool_beq_iff old.docker new.docker)

pub compute_disk_change-is_nil :
    (old new : Config)
    → (compute_disk_change old new ≡ []) ↔ (effective_disk_gb old ≡ effective_disk_gb new)
unfolding compute_disk_change
compute_disk_change-is_nil old new =
    unless_same-is_nil _ (nat_beq_iff (effective_disk_gb old) (effective_disk_gb new))

pub compute_resource_change-is_nil :
    (old new : Config)
    → (compute_resource_change old new ≡ []) ↔ ((old.memory ≡ new.memory) × (old.cpu ≡ new.cpu))
unfolding compute_resource_change
compute_resource_change-is_nil old new =
    unless_same-is_nil _ (pointer_equal_iff old.memory new.memory)
    with unless_same-is_nil _ (pointer_equal_iff old.cpu new.cpu)

pub compute_network_changes-is_nil :
    (old new : Config)
    → (compute_network_changes old new ≡ []) ↔ SameNames (domains old.allow) (domains new.allow)
unfolding compute_network_changes
compute_network_changes-is_nil old new = trans_iff (sort_by-is_nil _ _) (
    trans_iff (map-is_nil _ _ with map-is_nil _ _)
      (both_missing_iff (domains new.allow) (domains old.allow)))

secret_difference-is_nil :
    (k : Bytes) (n o : Option Bytes) → (secret_difference k n o ≡ []) ↔ (n ≡ o)
unfolding secret_difference
secret_difference-is_nil k none none = ground arith
secret_difference-is_nil k none (some o) = ground arith
secret_difference-is_nil k (some n) none = ground arith
secret_difference-is_nil k (some n) (some o) =
    trans_iff (unless_same-is_nil _ (bytes_beq_iff n o)) (ground arith)

pub compute_secret_changes-is_nil :
    (new_hashes old_hashes : Map Bytes Bytes)
    → (compute_secret_changes new_hashes old_hashes ≡ [])
      ↔ ((k : Bytes) → lookup k new_hashes ≡ lookup k old_hashes)
unfolding compute_secret_changes
compute_secret_changes-is_nil new_hashes old_hashes =
    trans_iff
      (walk_keys-is_nil _ new_hashes old_hashes
        (λ k. (secret_difference-is_nil k none none).1 refl))
      (each_iff (λ k. secret_difference-is_nil k _ _))
