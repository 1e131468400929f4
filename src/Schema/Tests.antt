-- ===== src/Schema/Tests.antt =====
-- A devm.yaml that is accepted, some that are not, and the theorems at these.
use devm.Base.{◌≡◌, refl, true, none, some, [], ◌∷◌, Bytes, codes, bytes_eq}
use devm.Base.Int.{pos}
use devm.Base.Assoc.{lookup, insert, IsUnique}
use devm.Base.Names.{sorted_set}
use devm.Base.Rounds.{concat_map}
use devm.Base.FilePath.{clean, is_abs, base_name}
use devm.Base.Words.{is_word, is_volume_name, is_dns_label, is_label, is_function_name}
use devm.Base.Claims.{clash, remember}
use devm.Base.Checks.{◌or_else◌, reject_if, each, wrap}
use devm.Schema.Allow
use devm.Schema.Allow.{host_part, path_pattern, validate_entry, validate_from}
use devm.Schema.Config.{Config, Service, zero_service, RepoConfig, service_of}
use devm.Schema.Sizes.{parse_disk_size, parse_memory_size}
use devm.Schema.Service.{
  validate_service, validate_template, escapes, is_declarative, is_restart, is_idle,
}
use devm.Schema.Services.{
  port_reserved, hostname_twice, hostname_claim, port_claim, check_port, check_services,
  validate_services,
}
use devm.Schema.Volumes.{
  path_of, check_shape, check_paths, overlaps, check_overlap, validate_volumes, overlaps_workspace,
}
use devm.Schema.Secrets.{
  secrets_of, env_refs, named_secrets, hosts_naming, secret_hosts, hosts_of,
  validate_secret_bindings, bound_to_no_host,
}
use devm.Schema.Repos.{
  repo_of, is_primary, has_no_url, has_no_volume, primary_from, primary_repo_name, primary_among,
  check_primary, check_repos, validate_repos, validate_commands,
}
use devm.Schema.Repos.Primary.{PrimaryRepo}
use devm.Schema.Repos.Name.{primary_repo_name-PrimaryRepo}
use devm.Schema.Functions.{validate_all_commands, validate_function_references}
use devm.Schema.Peers.{
  is_reserved_mac_port, check_mac_services, validate_mac_services, check_peer_services,
  validate_peer_services,
}
use devm.Schema.Labels.{
  bare_clone_name, sanitize_derived_label, repo_label, volume_label, repo_owner, volume_of,
  volume_owner, label_owners, check_label, check_labels, validate_labels, GoodLabels,
}
use devm.Schema.Volumes.{GoodVolumes}
use devm.Schema.Validate.{
  validate_project, check_disk, check_memory, check_cpu, validate, validate_with_root, in_volumes,
  in_services, in_secrets,
}
use devm.Schema.Valid.{IsValid, validate_with_root_iff}

-- One line that opens the code that a validation goes through.
schema : Unit {0}
unfolding lookup insert sorted_set concat_map clean is_abs base_name is_word is_volume_name
    is_dns_label is_label is_function_name clash remember ◌or_else◌ reject_if each wrap host_part
    path_pattern validate_entry validate_from Allow.validate service_of parse_disk_size
    parse_memory_size validate_service validate_template escapes is_declarative is_restart is_idle
    hostname_claim port_claim check_port check_services validate_services path_of check_shape
    check_paths overlaps check_overlap validate_volumes secrets_of env_refs named_secrets
    hosts_naming secret_hosts hosts_of validate_secret_bindings repo_of is_primary has_no_url
    has_no_volume primary_from primary_repo_name primary_among check_primary check_repos
    validate_repos validate_commands validate_all_commands validate_function_references
    is_reserved_mac_port check_mac_services validate_mac_services check_peer_services
    validate_peer_services bare_clone_name sanitize_derived_label repo_label volume_label repo_owner
    volume_of volume_owner label_owners check_label check_labels validate_labels validate_project
    check_disk check_memory check_cpu validate validate_with_root
schema = tt

abbrev web : Service
web = record zero_service {
  port = pos 8080;
  hostname = codes "web.test";
  exec_func = codes "serve";
  env = (codes "TOKEN", record { literal = []; secret = some (codes "gh") }) ∷ [];
}

abbrev db : Service
db = record zero_service {
  port = pos 5432;
  hostname = codes "db.test";
  direct = true;
  systemd = codes "[Unit]";
}

abbrev app_repo : RepoConfig
app_repo = record {
  url = none;
  secret = codes "gh";
  label = none;
  volume = none;
  primary = none;
  ignore = [];
  commands = codes "build" ∷ [];
}

abbrev lib_repo : RepoConfig
lib_repo = record app_repo { url = some (codes "git@host:me/lib.git"); commands = [] }

abbrev shop : Config
shop = record {
  project = codes "shop";
  docker = true;
  allow = record { host = codes "api.test/v1/*"; secrets = codes "gh" ∷ [] } ∷ [];
  env = [];
  services = (codes "web", web) ∷ (codes "db", db) ∷ [];
  volumes =
      (codes "cache", record { path = codes "/home/devm/.cache"; label = none; ignore = [] }) ∷ [];
  repos = (codes "lib", lib_repo) ∷ (codes "app", app_repo) ∷ [];
  packages = [];
  path = [];
  disk = some (codes " 64gb ");
  memory = some (codes "8G");
  cpu = some (pos 4);
  functions = codes "build" ∷ codes "serve" ∷ [];
  guest = record { propose = none; passthrough = none };
  mac_services = some (record { name = codes "ollama"; port = pos 11434 }) ∷ [];
  peer_services = some (codes "blog") ∷ [];
}

abbrev root : Bytes
root = codes "/Users/me/shop/"

accepted_test : validate_with_root shop root ≡ none
unfolding schema
accepted_test = refl

validate_with_root_iff_example : IsValid shop × (GoodVolumes shop root × GoodLabels shop root)
validate_with_root_iff_example = (validate_with_root_iff shop root).0 accepted_test

rejected_tests :
    (validate (record shop { services = (codes "web", record web { port = pos 22 }) ∷ [] })
      ≡ some (in_services (port_reserved (codes "web"))))
    × (validate (record shop {
      services = (codes "b", web) ∷ (codes "a", record web { port = pos 81 }) ∷ [];
    })
        ≡ some (in_services (hostname_twice (codes "web.test") (codes "a") (codes "b"))))
    × (validate (record shop { allow = [] })
        ≡ some (in_secrets (bound_to_no_host (codes "gh" ∷ []))))
    × (validate_with_root shop (codes "/home")
        ≡ some (in_volumes (overlaps_workspace (codes "cache"))))
unfolding schema
rejected_tests = (refl, refl, refl, refl)

IsUnique-repos : IsUnique shop.repos
unfolding schema
IsUnique-repos = (refl, (refl, tt))

accepted_repos_test : validate_repos shop ≡ none
unfolding schema
accepted_repos_test = refl

primary_repo_name_test : primary_repo_name shop ≡ codes "app"
unfolding schema
primary_repo_name_test = refl

primary_repo_name-PrimaryRepo_example : PrimaryRepo shop (primary_repo_name shop)
primary_repo_name-PrimaryRepo_example =
    primary_repo_name-PrimaryRepo shop IsUnique-repos accepted_repos_test (λ e. cc e)
