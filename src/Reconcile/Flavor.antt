-- ===== src/Reconcile/Flavor.antt =====
-- Which recreation of the machine a config edit needs, told from the two configs.
pub mod Calm
pub mod Found
pub mod Repos
use devm.Base.{
  ◌≡◌, ◌∙◌, inl, inr, Bool, ◌&&◌, ◌||◌, not, some, List, ◌++◌, arith, nat_beq, if◌then◌else◌, ◌==◌,
  nat_eq, bool_eq, pair_eq, Option-cases, any, bytes_eq,
}
use devm.Base.Int.{int_eq}
use devm.Schema.Config.{Config}
use devm.Reconcile.Change.{
  Change, bucket, change_bucket, needs_teardown, needs_restart, recreate_flavor,
  recreate_flavor-cases, live_only, flavor_restart_vm, flavor_teardown_vm,
}
use mathlib.Core.Path.{subst}
use mathlib.Core.Option.{some-injective}
use devm.Reconcile.Templates.{compute_template_changes}
use devm.Reconcile.Machine.{compute_secret_changes}
use devm.Reconcile.Compare.{pointer_equal}
use devm.Reconcile.Machine.{
  compute_identity_change, compute_docker_change, effective_disk_gb, compute_disk_change,
  compute_resource_change,
}
use devm.Reconcile.All.{Baseline, bundle_changes, config_changes, compute_all_changes}
use Calm.{
  IsCalm, compute_port_changes-IsCalm, compute_global_env_changes-IsCalm,
  compute_env_changes-IsCalm, compute_service_unit_changes-IsCalm, compute_direct_changes-IsCalm,
  compute_hostname_changes-IsCalm, compute_packages_change-IsCalm, compute_volume_changes-IsCalm,
  compute_commands_changes-IsCalm, compute_path_change-IsCalm, compute_network_changes-IsCalm,
  compute_secret_changes-IsCalm, bundle_changes-IsCalm, compute_image_change-IsCalm,
  compute_template_changes-IsCalm,
}
use Found.{◌found_with◌, unless_same-Finds, calm_teardown, calm_restart}
use Repos.{some_recloned, compute_repo_changes-teardown, compute_repo_changes-restart}

-- Whether the machine has to be made anew, and whether it has to be started again.
unfoldable pub rebuilds : Config → Config → Bool
rebuilds old new = not (
    old.project == new.project
    && old.docker == new.docker
    && nat_beq (effective_disk_gb old) (effective_disk_gb new))

unfoldable pub reboots : Config → Config → Bool
reboots old new =
    some_recloned old new
    || not (pointer_equal old.memory new.memory && pointer_equal old.cpu new.cpu)

config_changes-teardown :
    (old new : Config) → any needs_teardown (config_changes old new) ≡ rebuilds old new
unfolding config_changes rebuilds compute_identity_change compute_docker_change compute_disk_change
    compute_resource_change bucket change_bucket
config_changes-teardown old new =
    (calm_teardown (compute_port_changes-IsCalm old new)
      found_with calm_teardown (compute_network_changes-IsCalm old new)
      found_with calm_teardown (compute_global_env_changes-IsCalm old new)
      found_with calm_teardown (compute_env_changes-IsCalm old new)
      found_with calm_teardown (compute_service_unit_changes-IsCalm old new)
      found_with calm_teardown (compute_direct_changes-IsCalm old new)
      found_with calm_teardown (compute_hostname_changes-IsCalm old new)
      found_with calm_teardown (compute_packages_change-IsCalm old new)
      found_with calm_teardown (compute_volume_changes-IsCalm old new)
      found_with record { found = compute_repo_changes-teardown old new }
      found_with calm_teardown (compute_commands_changes-IsCalm old new)
      found_with calm_teardown (compute_image_change-IsCalm old new)
      found_with unless_same-Finds needs_teardown _ _
      found_with unless_same-Finds needs_teardown _ _
      found_with unless_same-Finds needs_teardown _ _
      found_with (unless_same-Finds needs_teardown _ _
          found_with unless_same-Finds needs_teardown _ _)
      found_with calm_teardown (compute_path_change-IsCalm old new)).found
    ∙ ground arith

config_changes-restart :
    (old new : Config) → any needs_restart (config_changes old new) ≡ reboots old new
unfolding config_changes reboots compute_identity_change compute_docker_change compute_disk_change
    compute_resource_change bucket change_bucket
config_changes-restart old new =
    (calm_restart (compute_port_changes-IsCalm old new)
      found_with calm_restart (compute_network_changes-IsCalm old new)
      found_with calm_restart (compute_global_env_changes-IsCalm old new)
      found_with calm_restart (compute_env_changes-IsCalm old new)
      found_with calm_restart (compute_service_unit_changes-IsCalm old new)
      found_with calm_restart (compute_direct_changes-IsCalm old new)
      found_with calm_restart (compute_hostname_changes-IsCalm old new)
      found_with calm_restart (compute_packages_change-IsCalm old new)
      found_with calm_restart (compute_volume_changes-IsCalm old new)
      found_with record { found = compute_repo_changes-restart old new }
      found_with calm_restart (compute_commands_changes-IsCalm old new)
      found_with calm_restart (compute_image_change-IsCalm old new)
      found_with unless_same-Finds needs_restart _ _
      found_with unless_same-Finds needs_restart _ _
      found_with unless_same-Finds needs_restart _ _
      found_with (unless_same-Finds needs_restart _ _
          found_with unless_same-Finds needs_restart _ _)
      found_with calm_restart (compute_path_change-IsCalm old new)).found
    ∙ ground arith

-- Templates, secrets and the bundle stand behind the sections of the configs.
compute_all_changes-split :
    (old new : Config) (b : Baseline) (cs : List Change)
    → compute_all_changes old new b ≡ some cs
    → (ts : List Change) × (IsCalm ts)
      × (config_changes old new
            ++ ts
            ++ compute_secret_changes b.new_secret_hashes b.old_secret_hashes
            ++ bundle_changes b
          ≡ cs)
unfolding compute_all_changes
compute_all_changes-split old new b cs h =
    elim (Option-cases (compute_template_changes new b.desired_templates b.applied_templates)) [
      | inl e ↦ absurd (cc (rw (e, compute_all_changes) at h))
      | inr (ts, e) ↦ (
        ts,
        compute_template_changes-IsCalm new b.desired_templates b.applied_templates ts e,
        some-injective _ _ (rw (e, compute_all_changes) at h),
      )
    ]

module _ (old new : Config) (b : Baseline) {cs : List Change}
    (computed : compute_all_changes old new b ≡ some cs) where
  all_teardown : any needs_teardown cs ≡ rebuilds old new
  all_teardown =
      let (ts, calm, e) = compute_all_changes-split old new b cs computed in
      subst (λ c. any needs_teardown c ≡ rebuilds old new) e
        ((record { found = config_changes-teardown old new }
            found_with calm_teardown calm
            found_with calm_teardown
                (compute_secret_changes-IsCalm b.new_secret_hashes b.old_secret_hashes)
            found_with calm_teardown (bundle_changes-IsCalm b)).found
          ∙ ground arith)

  all_restart : any needs_restart cs ≡ reboots old new
  all_restart =
      let (ts, calm, e) = compute_all_changes-split old new b cs computed in
      subst (λ c. any needs_restart c ≡ reboots old new) e
        ((record { found = config_changes-restart old new }
            found_with calm_restart calm
            found_with calm_restart
                (compute_secret_changes-IsCalm b.new_secret_hashes b.old_secret_hashes)
            found_with calm_restart (bundle_changes-IsCalm b)).found
          ∙ ground arith)

  -- A config edit makes the machine anew exactly when the project name, docker or the effective
  -- disk size differ; if not, it starts the machine again exactly when memory, cpu, or the URL or
  -- secret of a repo that both configs have differ; and else the machine runs on. Templates,
  -- secrets and the bundle play no part.
  pub compute_all_changes-flavor : recreate_flavor cs ≡ (
      if rebuilds old new
      then flavor_teardown_vm
      else if reboots old new
      then flavor_restart_vm
      else live_only)
  compute_all_changes-flavor = rw (recreate_flavor-cases cs, all_teardown, all_restart)
