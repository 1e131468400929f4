-- ===== src/Live/Tests.antt =====
-- Runs of `ApplyLive` (internal/reconcile/apply_live.go) in a small world, and its theorems at
-- concrete inputs.
use devm.Base.{
  ◌≡◌, refl, Bool, true, false, none, some, [], ◌∷◌, if◌then◌else◌, ◌==◌, Bytes, codes, bytes_eq,
}
use devm.Schema.Allow.{domains}
use devm.Schema.Labels.{bare_clone_name, volume_label}
use devm.Base.FilePath.{dir_name, join_path}
use devm.Base.Parse.{cut, fields, parse_int}
use devm.Live.Volumes.{
  apply_volume_change, move_volume_guest_path, mutate_volume, rename_volume_label, volume_in,
  volume_spec,
}
use devm.Live.Repos.{
  add_repo, apply_repo_change, drop_mirror, mutate_repo, remove_repo, rename_repo_label,
  repo_guest_path, repo_in, repo_spec, repo_volume_enabled, resolve_repo_label_for_apply,
  terminate_if_enabled, toggle_repo_volume,
}
use devm.Base.Int.{pos}
use devm.Schema.Config.{Config, Volume, RepoConfig}
use devm.Reconcile.Change.{
  Change, of_kind, volume_change, repo_change, network_add, template_change, op_add, op_remove,
  op_mutate, a_volume, a_repo, bucket, change_bucket,
}
use devm.Sync.Guard.{ScanSide, guard_check}
use devm.Live.World.{
  scan, ensure_dir, clone, exited, holds, walked_over, flush, terminate, Event, guest_ran, made_dir,
  listed_dir, listed_sessions, operated, created, removed, renamed, built_bundle, piped_bundle,
  set_allowlist, Trace, World, guard_failed, ok, failed, ask, each_do, fail, from_option, give,
  or_fail, unless, when_some, ◌>>=◌,
}
use devm.Live.Sessions.{
  compose_ignores, check_sides, clone_one_repo_if_empty, config_file_path,
  ensure_repo_cloned_in_guest, find_exact_session, find_session, guest_ssh_target, operate,
  recreate_session_with_ignore, session_name, setup_and_clone, setup_single_session, start_session,
  terminate_session_if_exists,
}
use devm.Live.Guest.{
  guest_side_of, script_text, clone_config, clone_repo_in_guest, ensure_guest_dir, move_guest_dir,
  must_run, read_field, read_fields, scan_guest_side,
}
use devm.Live.Mirrors.{
  guard_ok, default_mirror_dir, entry_count, hash_top_sample, mac_side_of, mirror_path,
  remove_if_empty, remove_mirror_if_empty, rename_mirror, resolve_mirror_path, sample_text,
  scan_mac_side, total_size, verify_git_head,
}
use devm.Live.Apply.{
  apply_live, effective_allowlist, apply_batches, apply_mutagen_session_change,
  apply_network_change, demand, gather, install_templates, not_listed, put_change, put_demand,
  refresh_bundle,
}
use devm.Live.Careful.{IsCareful}
use devm.Live.Careful.Batches.{apply_live-IsCareful}
use devm.Live.Lockstep.{side_of, kind_of, guard_ok-guard_check}

abbrev blog : Bytes
blog = codes "blog"

abbrev nothing_there : Bytes
nothing_there = codes "count=0 size=0 hash=- top=-"

-- Empty mirrors and guest directories; a session runs for the label `old`.
abbrev empty_world : World
empty_world = record {
  guest = λ t s. exited nothing_there (pos 0);
  mkdir_all = λ t p. true;
  dir_entries = λ t p. holds 0;
  walk = λ t p. walked_over [];
  head_ok = λ t p. true;
  sessions = λ t name. some (
      if name == codes "devm-blog-old"
      then record { id = codes "s1"; name = name; status = codes "watching" } ∷ []
      else []);
  session_op = λ t op id. true;
  write_config = λ t p ignores. true;
  create = λ t name alpha beta config. true;
  remove = λ t p. true;
  remove_all = λ t p. true;
  rename = λ t a b. true;
  build_bundle = λ t c. true;
  pipe_bundle = λ t. exited [] (pos 0);
  dispatch = λ t. exited [] (pos 0);
  allow = λ t p l. true;
  sha256_hex = λ b. b;
  base64 = λ b. b;
  runtime_dir = codes "/run";
}

-- A guest directory with two entries, and a mirror with one.
abbrev full_world : World
full_world = record empty_world {
  guest = λ t s. exited (codes "count=2 size=7 hash=ab top=x") (pos 0);
  walk = λ t p. walked_over (record { path = codes "a"; is_dir = false; size = 7 } ∷ []);
}

abbrev config : Config
config = record {
  project = blog;
  docker = true;
  allow =
      record { host = codes "auth.docker.io"; secrets = [] }
      ∷ record { host = codes "api.test"; secrets = [] }
      ∷ [];
  env = [];
  services = [];
  volumes = [];
  repos = [];
  packages = [];
  path = [];
  disk = none;
  memory = none;
  cpu = none;
  functions = [];
  guest = record { propose = none; passthrough = none };
  mac_services = [];
  peer_services = [];
}

abbrev volume_of : Bytes → Volume
volume_of label = record { path = codes "/data"; label = some label; ignore = codes "*.o" ∷ [] }

abbrev add_volume : Change
add_volume = record (of_kind volume_change) {
  op = op_add;
  new_value = a_volume (volume_of (codes "cache"));
}

abbrev remove_volume : Change
remove_volume = record (of_kind volume_change) {
  op = op_remove;
  old_value = a_volume (volume_of (codes "old"));
}

abbrev repo : RepoConfig
repo = record {
  url = some (codes "https://host/app.git");
  secret = [];
  label = none;
  volume = none;
  primary = none;
  ignore = [];
  commands = [];
}

abbrev new_repo : Change
new_repo = record (of_kind repo_change) { op = op_add; new_value = a_repo repo }

-- The docker hosts that are listed already are not listed twice.
effective_allowlist_docker :
    effective_allowlist config
    ≡ codes "auth.docker.io"
      ∷ codes "api.test"
      ∷ codes "registry-1.docker.io"
      ∷ codes "production.cloudfront.docker.com"
      ∷ codes "download.docker.com"
      ∷ []
unfolding effective_allowlist not_listed domains
effective_allowlist_docker = refl

abbrev old_dir : Bytes
old_dir = codes "/run/blog/old"

abbrev moved_volume : Bytes → Change
moved_volume field = record (of_kind volume_change) {
  op = op_mutate;
  field = field;
  volume_before = some (volume_of (codes "a"));
  volume_after = some (record (volume_of (codes "b")) { path = codes "/new" });
}

-- New ignores of the primary repo, which is the directory of the project.
abbrev primary : RepoConfig
primary = record repo { url = none; volume = some true; primary = some true }

abbrev new_ignore : Change
new_ignore = record (of_kind repo_change) {
  op = op_mutate;
  field = codes "Ignore";
  repo_before = some primary;
  repo_after = some (record primary { ignore = codes "*.o" ∷ [] });
}

abbrev is_create_or_rename : Event → Bool
is_create_or_rename (created name alpha beta cfg done) = true
is_create_or_rename (renamed old new done) = true
is_create_or_rename _ = false

abbrev creates_and_renames : Trace → Trace
creates_and_renames [] = []
creates_and_renames (e ∷ t) =
    let rest = creates_and_renames t in if is_create_or_rename e then e ∷ rest else rest

-- Five runs. A session is flushed, ended, and its mirror removed if it is empty, and the allowlist is
-- set last. Where the two sides differ nothing is created and the allowlist is not set. A repo without
-- a mirror is cloned into an empty directory. Where the path and the label of a volume change at once,
-- the old mirror is renamed onto the mirror over which a session was just created. Where the ignores
-- of a repo without label and URL change, its session has an empty label, the home directory and the
-- directory of all mirrors.
apply_runs :
    (apply_live empty_world blog config (of_kind network_add ∷ remove_volume ∷ []) [] ≡ (
      ok tt,
      set_allowlist blog (effective_allowlist config) true
          ∷ removed old_dir true
          ∷ listed_dir old_dir (holds 0)
          ∷ listed_dir old_dir (holds 0)
          ∷ made_dir old_dir true
          ∷ operated terminate (codes "s1") true
          ∷ operated flush (codes "s1") true
          ∷ listed_sessions (codes "devm-blog-old") (
              some (
                record { id = codes "s1"; name = codes "devm-blog-old"; status = codes "watching" }
                ∷ []))
          ∷ [],
    ))
    × ((apply_live full_world blog config (add_volume ∷ of_kind network_add ∷ []) []).0
        ≡ failed (guard_failed (codes "cache")))
    × ((apply_live empty_world blog config (new_repo ∷ []) []).1
        ≡ guest_ran
            (clone
              (codes "https://host/app.git")
              []
              (codes "/home/devm/app")
              (codes "/etc/ssl/certs/ca-certificates.crt"))
            (exited nothing_there (pos 0))
          ∷ guest_ran (scan (codes "/home/devm/app")) (exited nothing_there (pos 0))
          ∷ guest_ran (ensure_dir (codes "/home/devm/app")) (exited nothing_there (pos 0))
          ∷ piped_bundle (exited [] (pos 0))
          ∷ built_bundle config true
          ∷ [])
    × (creates_and_renames
          (apply_live empty_world blog config
            (moved_volume (codes "path") ∷ moved_volume (codes "label") ∷ [])
            []).1
        ≡ created
            (codes "devm-blog-b")
            (codes "/run/blog/b")
            (codes "devm@devm-blog:/new")
            (codes "/run/mutagen/sessions/blog/b.yml")
            true
          ∷ renamed (codes "/run/blog/a") (codes "/run/blog/b") true
          ∷ created
              (codes "devm-blog-b")
              (codes "/run/blog/b")
              (codes "devm@devm-blog:/new")
              (codes "/run/mutagen/sessions/blog/b.yml")
              true
          ∷ [])
    × (creates_and_renames (apply_live empty_world blog config (new_ignore ∷ []) []).1
        ≡ created
            (codes "devm-blog-")
            (codes "/run/blog")
            (codes "devm@devm-blog:/home/devm")
            (codes "/run/mutagen/sessions/blog/.yml")
            true
          ∷ [])
unfolding ◌>>=◌ give fail or_fail unless from_option when_some ask each_do clone_config script_text
    must_run ensure_guest_dir move_guest_dir clone_repo_in_guest read_field read_fields
    guest_side_of scan_guest_side mirror_path entry_count default_mirror_dir resolve_mirror_path
    sample_text hash_top_sample total_size mac_side_of scan_mac_side guard_ok verify_git_head
    remove_if_empty remove_mirror_if_empty rename_mirror session_name guest_ssh_target
    config_file_path compose_ignores find_session find_exact_session operate
    terminate_session_if_exists check_sides start_session setup_single_session
    clone_one_repo_if_empty setup_and_clone recreate_session_with_ignore ensure_repo_cloned_in_guest
    volume_in volume_spec move_volume_guest_path rename_volume_label mutate_volume
    apply_volume_change repo_in resolve_repo_label_for_apply repo_volume_enabled repo_guest_path
    repo_spec terminate_if_enabled rename_repo_label drop_mirror toggle_repo_volume add_repo
    remove_repo mutate_repo apply_repo_change demand put_demand put_change gather not_listed
    effective_allowlist refresh_bundle install_templates apply_network_change
    apply_mutagen_session_change apply_batches apply_live domains volume_label bare_clone_name
    bucket change_bucket join_path dir_name fields cut parse_int
apply_runs = (refl, refl, refl, refl, refl)

apply_live-IsCareful_example :
    IsCareful empty_world blog
      (apply_live empty_world blog config
        (add_volume ∷ of_kind network_add ∷ remove_volume ∷ new_repo ∷ of_kind template_change ∷ [])
        []).1
apply_live-IsCareful_example =
    apply_live-IsCareful empty_world blog config
      (add_volume ∷ of_kind network_add ∷ remove_volume ∷ new_repo ∷ of_kind template_change ∷ [])
      [] tt

abbrev one_file : ScanSide
one_file = record {
  count = pos 1;
  size = pos 7;
  top_hash = codes "ab";
  top_sample = codes "a" ∷ [];
}

abbrev two_files : ScanSide
two_files = record one_file { count = pos 2 }

guard_ok-guard_check_example :
    guard_ok (side_of one_file) (side_of two_files)
    ≡ ((guard_check one_file two_files).accepted, kind_of (guard_check one_file two_files).reason)
guard_ok-guard_check_example = guard_ok-guard_check one_file two_files
