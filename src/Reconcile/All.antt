-- ===== src/Reconcile/All.antt =====
-- `ComputeAllChanges` (internal/reconcile/diff.go): every section, in the order of the source.
use devm.Base.{
  ◌&&◌, not, Option, none, some, List, [], ◌∷◌, ◌++◌, if◌then◌else◌, ◌==◌, nat_eq, bool_eq, pair_eq,
  is_nil, Bytes, bytes_eq,
}
use devm.Base.Assoc.{Map}
use devm.Schema.Config.{Config}
use devm.Reconcile.Change.{Change, of_kind, bundle_refresh}
use devm.Reconcile.Services.{
  compute_port_changes, compute_global_env_changes, compute_env_changes,
  compute_service_unit_changes, compute_direct_changes, compute_hostname_changes,
}
use devm.Reconcile.Storage.{
  compute_packages_change, compute_volume_changes, compute_repo_changes, compute_commands_changes,
}
use devm.Reconcile.Machine.{
  compute_network_changes, compute_identity_change, compute_docker_change, compute_disk_change,
  compute_resource_change, compute_path_change, compute_secret_changes,
}
use devm.Reconcile.Templates.{compute_template_changes}

-- What the callers bring besides the two configs.
pub record Baseline : Type 0 where
  pub desired_templates : Option (Map Bytes Bytes)
  pub applied_templates : Map Bytes Bytes
  pub old_secret_hashes : Map Bytes Bytes
  pub new_secret_hashes : Map Bytes Bytes
  pub stored_bundle : Bytes
  pub current_bundle : Bytes

-- A base image has no fields, so two of them are always equal.
unfoldable pub compute_image_change : Config → Config → List Change
compute_image_change old new = []

-- The sections that look at the two configs alone.
unfoldable pub config_changes : Config → Config → List Change
config_changes old new =
    compute_port_changes old new
    ++ compute_network_changes old new
    ++ compute_global_env_changes old new
    ++ compute_env_changes old new
    ++ compute_service_unit_changes old new
    ++ compute_direct_changes old new
    ++ compute_hostname_changes old new
    ++ compute_packages_change old new
    ++ compute_volume_changes old new
    ++ compute_repo_changes old new
    ++ compute_commands_changes old new
    ++ compute_image_change old new
    ++ compute_identity_change old new
    ++ compute_docker_change old new
    ++ compute_disk_change old new
    ++ compute_resource_change old new
    ++ compute_path_change old new

unfoldable pub bundle_changes : Baseline → List Change
bundle_changes b =
    if not (is_nil b.current_bundle) && not (b.stored_bundle == b.current_bundle)
    then of_kind bundle_refresh ∷ []
    else []

-- `none` is the error of the templates.
unfoldable pub compute_all_changes : Config → Config → Baseline → Option (List Change)
compute_all_changes old new b =
    elim (compute_template_changes new b.desired_templates b.applied_templates) [
      | none ↦ none
      | some templates ↦ some (
          config_changes old new
          ++ templates
          ++ compute_secret_changes b.new_secret_hashes b.old_secret_hashes
          ++ bundle_changes b)
    ]
