-- ===== src/Live/Repos.antt =====
-- The change of a repo (internal/reconcile/apply_live.go).
use devm.Base.{
  Bool, false, ◌&&◌, not, Option, none, some, [], ◌∷◌, ◌==◌, if◌then◌else◌, bool_eq, Bytes, codes,
  bytes_eq,
}
use devm.Base.FilePath.{join_path}
use devm.Schema.Config.{RepoConfig}
use devm.Schema.Labels.{bare_clone_name}
use devm.Reconcile.Change.{Change, op_add, op_remove, op_mutate, Value, a_repo}
use devm.Live.World.{
  World, missing_value, missing_snapshot, mirror_remove, removed_all, M, ◌>>◌, give, fail, or_fail,
  unless, ask, ◌>>=◌,
}
use devm.Live.Guest.{move_guest_dir}
use devm.Live.Mirrors.{resolve_mirror_path, rename_mirror, remove_mirror_if_empty}
use devm.Live.Sessions.{
  SessionSpec, terminate_session_if_exists, setup_and_clone, recreate_session_with_ignore,
  ensure_repo_cloned_in_guest,
}

-- `change.NewValue.(schema.RepoConfig)`.
unfoldable pub repo_in : Value → Option RepoConfig
repo_in (a_repo r) = some r
repo_in _ = none

abbrev pub guest_home_dir : Bytes
guest_home_dir = codes "/home/devm"

-- `caenv.Vars["GIT_SSL_CAINFO"]`.
abbrev pub guest_git_ca_cert_path : Bytes
guest_git_ca_cert_path = codes "/etc/ssl/certs/ca-certificates.crt"

abbrev pub deref_or_empty : Option Bytes → Bytes
deref_or_empty none = []
deref_or_empty (some s) = s

unfoldable pub resolve_repo_label_for_apply : RepoConfig → Bytes
resolve_repo_label_for_apply r = elim (r.label) [
  | some label ↦ label
  | none ↦ elim (r.url) [ some url ↦ bare_clone_name url | none ↦ [] ]
]

unfoldable pub repo_volume_enabled : RepoConfig → Bool
repo_volume_enabled r = elim (r.volume) [ none ↦ false | some on ↦ on ]

unfoldable pub repo_guest_path : RepoConfig → Bytes
repo_guest_path r = join_path (guest_home_dir ∷ resolve_repo_label_for_apply r ∷ [])

unfoldable pub repo_spec : RepoConfig → SessionSpec
repo_spec r = record {
  label = resolve_repo_label_for_apply r;
  guest_path = repo_guest_path r;
  ignore = r.ignore;
  repo =
      some (record {
        url = deref_or_empty r.url;
        secret = r.secret;
        ca_path = guest_git_ca_cert_path;
      });
}

-- The session of a repo, only if it has a mirror.
unfoldable pub terminate_if_enabled : World → Bytes → RepoConfig → M (Unit {0})
terminate_if_enabled w project r =
    unless (not (repo_volume_enabled r))
      (terminate_session_if_exists w project (resolve_repo_label_for_apply r))

unfoldable pub rename_repo_label : World → Bytes → (before after : RepoConfig) → M (Unit {0})
rename_repo_label w project before after =
    unless (resolve_repo_label_for_apply before == resolve_repo_label_for_apply after) (
      terminate_if_enabled w project before
      >> move_guest_dir w (repo_guest_path before) (repo_guest_path after)
      >> unless (not (repo_volume_enabled after)) (
          rename_mirror w project (resolve_repo_label_for_apply before)
            (resolve_repo_label_for_apply after)
          >> setup_and_clone w project (repo_spec after)))

-- The end of a repo's mirror; the clone in the guest stays.
unfoldable pub drop_mirror : World → (project label : Bytes) → M (Unit {0})
drop_mirror w project label = do
  terminate_session_if_exists w project label
  mirror ← resolve_mirror_path w project label
  done ← ask (λ t. w.remove_all t mirror) (removed_all mirror)
  or_fail mirror_remove done

unfoldable pub toggle_repo_volume : World → Bytes → (before after : RepoConfig) → M (Unit {0})
toggle_repo_volume w project before after =
    unless (repo_volume_enabled before == repo_volume_enabled after) (
      if repo_volume_enabled before && not (repo_volume_enabled after)
      then drop_mirror w project (resolve_repo_label_for_apply after)
      else setup_and_clone w project (repo_spec after))

unfoldable pub add_repo : World → Bytes → RepoConfig → M (Unit {0})
add_repo w project r =
    if repo_volume_enabled r
    then setup_and_clone w project (repo_spec r)
    else ensure_repo_cloned_in_guest w (deref_or_empty r.url) r.secret (repo_guest_path r)
        guest_git_ca_cert_path

unfoldable pub remove_repo : World → Bytes → RepoConfig → M (Unit {0})
remove_repo w project r = unless (not (repo_volume_enabled r)) (
    terminate_session_if_exists w project (resolve_repo_label_for_apply r)
    >> remove_mirror_if_empty w project (resolve_repo_label_for_apply r))

unfoldable pub mutate_repo : World → Bytes → Bytes → (before after : RepoConfig) → M (Unit {0})
mutate_repo w project field before after =
    if field == codes "Label"
    then rename_repo_label w project before after
    else if field == codes "Volume"
    then toggle_repo_volume w project before after
    else if field == codes "Ignore"
    then unless (not (repo_volume_enabled after))
        (recreate_session_with_ignore w project (repo_spec after))
    else give tt

unfoldable pub apply_repo_change : World → Bytes → Change → M (Unit {0})
apply_repo_change w project c = elim (c.op) [
  | op_add ↦ elim (repo_in c.new_value) [
    | none ↦ fail missing_value
    | some r ↦ add_repo w project r
  ]
  | op_remove ↦ elim (repo_in c.old_value) [
    | none ↦ fail missing_value
    | some r ↦ remove_repo w project r
  ]
  | op_mutate ↦ elim (c.repo_before) [
    | none ↦ fail missing_snapshot
    | some before ↦ elim (c.repo_after) [
      | none ↦ fail missing_snapshot
      | some after ↦ mutate_repo w project c.field before after
    ]
  ]
]
