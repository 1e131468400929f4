-- ===== src/Reconcile/Tests.antt =====
-- A config edit from end to end, and the theorems about it.
use devm.Base.{
  ◌≡◌, refl, ◌↔◌, true, false, none, some, List, [], ◌∷◌, nat_eq, bool_eq, pair_eq, codes, bytes_eq,
}
use devm.Base.Int.{pos, itoa, int_eq}
use devm.Base.FilePath.{base_name}
use devm.Base.Decimal.{decimal}
use devm.Base.Sort.{sort_by}
use devm.Base.Assoc.{lookup, insert}
use devm.Schema.Config.{Config, Service, zero_service, RepoConfig, service_of, render, token_for}
use devm.Schema.Allow.{domains}
use devm.Schema.Sizes.{parse_disk_size}
use devm.Reconcile.Change.{
  Change, of_kind, bucket, change_bucket, recreate_flavor, op_mutate, text, port_add, memory_change,
  repo_change, template_change, bundle_refresh, service_hostname_change, flavor_restart_vm,
}
use devm.Base.Names.{sorted_set}
use devm.Base.Rounds.{concat_map}
use devm.Reconcile.Walk.{union_keys, union_names}
use devm.Reconcile.Compare.{unless_same, walk_services, walk_keys}
use devm.Reconcile.Services.{
  port_difference, env_difference, unit_differences, rendered, compute_port_changes,
  compute_global_env_changes, compute_env_changes, compute_service_unit_changes,
  compute_direct_changes, compute_hostname_changes,
}
use devm.Reconcile.Storage.{
  volume_difference, repo_difference, repo_field_changes, command_difference, command_differences,
  compute_volume_changes, compute_repo_changes, compute_commands_changes, package_drift,
  compute_packages_change,
}
use devm.Reconcile.Machine.{
  compute_network_changes, compute_identity_change, compute_docker_change, compute_disk_change,
  compute_resource_change, compute_path_change, compute_secret_changes, effective_disk_gb,
}
use devm.Reconcile.Templates.{
  compute_template_changes, script_change, removed_script, meta_of, desired_meta,
}
use devm.Reconcile.All.{
  Baseline, compute_image_change, config_changes, bundle_changes, compute_all_changes,
}
use devm.Reconcile.Flavor.{compute_all_changes-flavor, rebuilds, reboots}
use devm.Reconcile.Flavor.Repos.{recloned, some_recloned}
use devm.Reconcile.Unchanged.{SameConfig, SameBaseline, compute_all_changes-is_nil}

-- One line that opens the code that an edit goes through.
edit : Unit {0}
unfolding itoa decimal sort_by lookup insert service_of render token_for domains parse_disk_size
    bucket change_bucket recreate_flavor union_keys union_names sorted_set concat_map unless_same
    walk_services walk_keys port_difference env_difference unit_differences rendered
    compute_port_changes compute_global_env_changes compute_env_changes compute_service_unit_changes
    compute_direct_changes compute_hostname_changes volume_difference repo_difference
    repo_field_changes command_difference command_differences compute_volume_changes
    compute_repo_changes compute_commands_changes package_drift compute_packages_change
    compute_network_changes compute_identity_change compute_docker_change compute_disk_change
    compute_resource_change compute_path_change compute_secret_changes effective_disk_gb
    compute_template_changes script_change removed_script meta_of desired_meta base_name
    compute_image_change config_changes bundle_changes compute_all_changes rebuilds reboots recloned
    some_recloned
edit = tt

abbrev web : Service
web = record zero_service { port = pos 8080; hostname = codes "web.test" }

abbrev main_repo : RepoConfig
main_repo = record {
  url = some (codes "git@host:me/app.git");
  secret = codes "gh";
  label = none;
  volume = none;
  primary = some true;
  ignore = [];
  commands = codes "build" ∷ [];
}

abbrev before : Config
before = record {
  project = codes "blog";
  docker = false;
  allow = record { host = codes "api.test"; secrets = [] } ∷ [];
  env = [];
  services = (codes "web", zero_service) ∷ [];
  volumes = [];
  repos = (codes "app", main_repo) ∷ [];
  packages = codes "git" ∷ codes "jq" ∷ [];
  path = [];
  disk = some (codes "32G");
  memory = none;
  cpu = none;
  functions = codes "build" ∷ [];
  guest = record { propose = none; passthrough = none };
  mac_services = [];
  peer_services = [];
}

-- The same packages in another order, and the default disk size left out.
abbrev reordered : Config
reordered = record before { packages = codes "jq" ∷ codes "git" ∷ []; disk = none }

abbrev after : Config
after = record reordered {
  services = (codes "web", web) ∷ [];
  repos = (codes "app", record main_repo { secret = codes "gh2" }) ∷ [];
  memory = some (codes "8G");
}

abbrev baseline : Baseline
baseline = record {
  desired_templates = some [];
  applied_templates = (codes "00-web-x.sh", codes "old") ∷ [];
  old_secret_hashes = [];
  new_secret_hashes = [];
  stored_bundle = codes "a";
  current_bundle = codes "b";
}

abbrev edit_changes : List Change
edit_changes =
    record (of_kind port_add) { service = codes "web"; key = codes "8080"; new = codes "8080" }
    ∷ record (of_kind service_hostname_change) { service = codes "web"; new = codes "web.test" }
    ∷ record (of_kind repo_change) {
      op = op_mutate;
      key = codes "app";
      field = codes "Secret";
      old = codes "gh";
      new = codes "gh2";
      old_value = text (codes "gh");
      new_value = text (codes "gh2");
      repo_before = some main_repo;
      repo_after = some (record main_repo { secret = codes "gh2" });
    }
    ∷ record (of_kind memory_change) { old = codes "(default)"; new = codes "8G" }
    ∷ record (of_kind template_change) { detail = codes "00-web-x.sh"; old = codes "previous" }
    ∷ of_kind bundle_refresh
    ∷ []

edit_test : compute_all_changes before after baseline ≡ some edit_changes
unfolding edit
edit_test = refl

compute_all_changes-flavor_example : recreate_flavor edit_changes ≡ flavor_restart_vm
unfolding edit
compute_all_changes-flavor_example = compute_all_changes-flavor before after baseline edit_test

-- What was applied and hashed is what is desired.
abbrev settled : Baseline
settled = record {
  desired_templates = some ((codes "/run/00-web-x.sh", codes "old") ∷ []);
  applied_templates = (codes "00-web-x.sh", codes "old") ∷ [];
  old_secret_hashes = (codes "gh", codes "11") ∷ [];
  new_secret_hashes = (codes "gh", codes "11") ∷ [];
  stored_bundle = codes "a";
  current_bundle = codes "a";
}

compute_all_changes-is_nil_example :
    (compute_all_changes before reordered settled ≡ some [])
    ↔ (SameConfig before reordered × SameBaseline settled)
compute_all_changes-is_nil_example = compute_all_changes-is_nil before reordered settled

settled_test : compute_all_changes before reordered settled ≡ some []
unfolding edit devm.Reconcile.Machine.secret_difference
settled_test = refl

reordered_test : config_changes before reordered ≡ []
unfolding edit
reordered_test = refl
