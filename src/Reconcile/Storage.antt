-- ===== src/Reconcile/Storage.antt =====
-- The sections of internal/reconcile/diff.go on volumes, repos, repo commands and apt packages.
use devm.Base.{
  Bool, true, false, not, Option, none, some, List, [], ◌∷◌, ◌++◌, map, ◌==◌, nat_eq, bool_eq,
  pair_eq, keep, Bytes, codes, bytes_eq,
}
use devm.Schema.Config.{Config, Volume, RepoConfig}
use devm.Reconcile.Change.{
  Change, of_kind, op_add, op_remove, op_mutate, volume_change, repo_change, commands_change,
  package_add, package_remove, Value, text, text_pointer, bool_pointer, texts, a_volume, a_repo,
}
use devm.Base.Names.{has, sorted_set}
use devm.Base.Rounds.{concat_map}
use devm.Reconcile.Walk.{union_names}
use devm.Reconcile.Compare.{
  slice_equal, pointer_equal, format_string_pointer, format_bool_pointer, join, unless_same,
  walk_keys,
}

volume_mutation : Bytes → Volume → Volume → Bytes → (old new : Bytes) → (was is : Value) → Change
volume_mutation name o n field old new was is = record (of_kind volume_change) {
  op = op_mutate;
  key = name;
  field = field;
  old = old;
  new = new;
  old_value = was;
  new_value = is;
  volume_before = some o;
  volume_after = some n;
}

unfoldable pub volume_field_changes : Bytes → Volume → Volume → List Change
unfolding volume_mutation
volume_field_changes name o n =
    unless_same (o.path == n.path)
      (volume_mutation name o n (codes "path") o.path n.path (text o.path) (text n.path))
    ++ unless_same (pointer_equal o.label n.label) (
        volume_mutation name o n (codes "label") (format_string_pointer o.label)
          (format_string_pointer n.label) (text_pointer o.label) (text_pointer n.label))
    ++ unless_same (slice_equal o.ignore n.ignore) (
        volume_mutation name o n (codes "ignore") (join (codes ",") o.ignore)
          (join (codes ",") n.ignore) (texts o.ignore) (texts n.ignore))

unfoldable pub volume_difference : Bytes → Option Volume → Option Volume → List Change
volume_difference name none none = []
volume_difference name none (some n) =
    record (of_kind volume_change) { op = op_add; key = name; new = n.path; new_value = a_volume n }
    ∷ []
volume_difference name (some o) none =
    record (of_kind volume_change) {
      op = op_remove;
      key = name;
      old = o.path;
      old_value = a_volume o;
    }
    ∷ []
volume_difference name (some o) (some n) = volume_field_changes name o n

unfoldable pub compute_volume_changes : Config → Config → List Change
compute_volume_changes old new = walk_keys volume_difference old.volumes new.volumes

repo_mutation :
    Bytes → RepoConfig → RepoConfig → Bytes → (old new : Bytes) → (was is : Value) → Change
repo_mutation name o n field old new was is = record (of_kind repo_change) {
  op = op_mutate;
  key = name;
  field = field;
  old = old;
  new = new;
  old_value = was;
  new_value = is;
  repo_before = some o;
  repo_after = some n;
}

unfoldable pub repo_field_changes : Bytes → RepoConfig → RepoConfig → List Change
unfolding repo_mutation
repo_field_changes name o n =
    unless_same (pointer_equal o.url n.url) (
      repo_mutation name o n (codes "URL") (format_string_pointer o.url)
        (format_string_pointer n.url) (text_pointer o.url) (text_pointer n.url))
    ++ unless_same (o.secret == n.secret)
        (repo_mutation name o n (codes "Secret") o.secret n.secret (text o.secret) (text n.secret))
    ++ unless_same (pointer_equal o.label n.label) (
        repo_mutation name o n (codes "Label") (format_string_pointer o.label)
          (format_string_pointer n.label) (text_pointer o.label) (text_pointer n.label))
    ++ unless_same (pointer_equal o.volume n.volume) (
        repo_mutation name o n (codes "Volume") (format_bool_pointer o.volume)
          (format_bool_pointer n.volume) (bool_pointer o.volume) (bool_pointer n.volume))
    ++ unless_same (pointer_equal o.primary n.primary) (
        repo_mutation name o n (codes "Primary") (format_bool_pointer o.primary)
          (format_bool_pointer n.primary) (bool_pointer o.primary) (bool_pointer n.primary))
    ++ unless_same (slice_equal o.ignore n.ignore) (
        repo_mutation name o n (codes "Ignore") (join (codes ",") o.ignore)
          (join (codes ",") n.ignore) (texts o.ignore) (texts n.ignore))

unfoldable pub repo_difference : Bytes → Option RepoConfig → Option RepoConfig → List Change
repo_difference name none none = []
repo_difference name none (some n) =
    record (of_kind repo_change) { op = op_add; key = name; new_value = a_repo n } ∷ []
repo_difference name (some o) none =
    record (of_kind repo_change) { op = op_remove; key = name; old_value = a_repo o } ∷ []
repo_difference name (some o) (some n) = repo_field_changes name o n

unfoldable pub compute_repo_changes : Config → Config → List Change
compute_repo_changes old new = walk_keys repo_difference old.repos new.repos

-- One command name of a repo: whether the old list has it and whether the new one has it.
unfoldable pub command_difference : Bytes → Bytes → (was is : Bool) → List Change
command_difference repo name true true = []
command_difference repo name false false = []
command_difference repo name false true =
    record (of_kind commands_change) {
      op = op_add;
      repo = repo;
      key = name;
      new = name;
      new_value = text name;
    }
    ∷ []
command_difference repo name true false =
    record (of_kind commands_change) {
      op = op_remove;
      repo = repo;
      key = name;
      old = name;
      old_value = text name;
    }
    ∷ []

-- A missing repo has no commands.
abbrev pub commands_of : Option RepoConfig → List Bytes
commands_of none = []
commands_of (some r) = r.commands

unfoldable pub command_differences : Bytes → List Bytes → List Bytes → List Change
unfolding command_difference
command_differences repo old new =
    concat_map (λ name. command_difference repo name (has name old) (has name new))
      (union_names old new)

unfoldable pub compute_commands_changes : Config → Config → List Change
compute_commands_changes old new =
    walk_keys (λ repo o n. command_differences repo (commands_of o) (commands_of n)) old.repos
      new.repos

-- `PackageDrift`: what is only in the new list, and what is only in the old one.
unfoldable pub package_drift : Config → Config → List Bytes × List Bytes
package_drift old new = (
  sorted_set (keep (λ p. not (has p old.packages)) new.packages),
  sorted_set (keep (λ p. not (has p new.packages)) old.packages),
)

unfoldable pub compute_packages_change : Config → Config → List Change
compute_packages_change old new =
    let drift = package_drift old new in
    map (λ p. record (of_kind package_add) { key = p; new = p }) (drift.0)
    ++ map (λ p. record (of_kind package_remove) { key = p; old = p }) (drift.1)
