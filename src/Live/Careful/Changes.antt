-- ===== src/Live/Careful/Changes.antt =====
-- The changes of volumes and repos (internal/reconcile/apply_live.go) keep a trace careful.
use devm.Base.{Bool, true, false, Option, none, some, if◌then◌else◌, Bytes, bytes_eq, bool_eq}
use devm.Schema.Config.{Volume, RepoConfig}
use devm.Reconcile.Change
use devm.Reconcile.Change.{Change, ChangeKind, Op, op_add, op_remove, op_mutate}
use devm.Live.World.{World, M}
use devm.Live.Volumes.{
  volume_in, move_volume_guest_path, rename_volume_label, mutate_volume, apply_volume_change,
}
use devm.Live.Repos.{
  repo_in, terminate_if_enabled, rename_repo_label, toggle_repo_volume, add_repo, remove_repo,
  mutate_repo, apply_repo_change,
}
use devm.Live.Apply.{apply_mutagen_session_change}
use devm.Live.Careful.Rules.{Keeps, then-Keeps, give-Keeps, fail-Keeps, unless-Keeps}
use devm.Live.Careful.Steps.{
  move_guest_dir-Keeps, rename_mirror-Keeps, terminate_session_if_exists-Keeps,
  remove_mirror_if_empty-Keeps,
}
use devm.Live.Careful.Dropped.{drop_mirror-Keeps}
use devm.Live.Careful.Setup.{
  setup_and_clone-Keeps, recreate_session_with_ignore-Keeps, ensure_repo_cloned_in_guest-Keeps,
}

module _ (w : World) (project : Bytes) where
  move_volume_guest_path-Keeps :
      (before after : Volume) → Keeps w project (move_volume_guest_path w project before after)
  unfolding move_volume_guest_path
  move_volume_guest_path-Keeps before after =
      then-Keeps w project (terminate_session_if_exists-Keeps w project _) (λ u.
        then-Keeps w project (move_guest_dir-Keeps w project _ _)
          (λ u. setup_and_clone-Keeps w project _))

  rename_volume_label-Keeps :
      (before after : Volume) → Keeps w project (rename_volume_label w project before after)
  unfolding rename_volume_label
  rename_volume_label-Keeps before after = unless-Keeps w project _ (
      then-Keeps w project
        (then-Keeps w project (terminate_session_if_exists-Keeps w project _)
          (λ u. rename_mirror-Keeps w project _ _))
        (λ u. setup_and_clone-Keeps w project _))

  if-Keeps :
      {A : Type 0} {a b : M A} (test : Bool)
      → Keeps w project a
      → Keeps w project b
      → Keeps w project (if test then a else b)
  if-Keeps true k l = k
  if-Keeps false k l = l

  mutate_volume-Keeps :
      (field : Bytes) (before after : Volume)
      → Keeps w project (mutate_volume w project field before after)
  unfolding mutate_volume
  mutate_volume-Keeps field before after = if-Keeps _ (move_volume_guest_path-Keeps before after) (
      if-Keeps _ (rename_volume_label-Keeps before after)
        (if-Keeps _ (recreate_session_with_ignore-Keeps w project _) (give-Keeps w project tt)))

  elim-Keeps :
      {A : Type 0} {none_step : M (Unit {0})} {f : A → M (Unit {0})} (o : Option A)
      → Keeps w project none_step
      → ((a : A) → Keeps w project (f a))
      → Keeps w project (elim o [ none ↦ none_step | some a ↦ f a ])
  elim-Keeps none k l = k
  elim-Keeps (some a) k l = l a

  op-Keeps :
      {a b c : M (Unit {0})} (op : Op)
      → Keeps w project a
      → Keeps w project b
      → Keeps w project c
      → Keeps w project (elim op [ op_add ↦ a | op_remove ↦ b | op_mutate ↦ c ])
  op-Keeps op_add k l m = k
  op-Keeps op_remove k l m = l
  op-Keeps op_mutate k l m = m

  apply_volume_change-Keeps : (c : Change) → Keeps w project (apply_volume_change w project c)
  unfolding apply_volume_change
  apply_volume_change-Keeps c =
      op-Keeps c.op
        (elim-Keeps (volume_in c.new_value) (fail-Keeps w project _)
          (λ v. setup_and_clone-Keeps w project _))
        (elim-Keeps (volume_in c.old_value) (fail-Keeps w project _) (λ v.
          then-Keeps w project (terminate_session_if_exists-Keeps w project _)
            (λ u. remove_mirror_if_empty-Keeps w project _)))
        (elim-Keeps c.volume_before (fail-Keeps w project _) (λ before.
          elim-Keeps c.volume_after (fail-Keeps w project _) (mutate_volume-Keeps c.field before)))

  terminate_if_enabled-Keeps : (r : RepoConfig) → Keeps w project (terminate_if_enabled w project r)
  unfolding terminate_if_enabled
  terminate_if_enabled-Keeps r =
      unless-Keeps w project _ (terminate_session_if_exists-Keeps w project _)

  rename_repo_label-Keeps :
      (before after : RepoConfig) → Keeps w project (rename_repo_label w project before after)
  unfolding rename_repo_label
  rename_repo_label-Keeps before after = unless-Keeps w project _ (
      then-Keeps w project
        (then-Keeps w project (terminate_if_enabled-Keeps before)
          (λ u. move_guest_dir-Keeps w project _ _))
        (λ u. unless-Keeps w project _ (
          then-Keeps w project (rename_mirror-Keeps w project _ _)
            (λ u. setup_and_clone-Keeps w project _))))

  toggle_repo_volume-Keeps :
      (before after : RepoConfig) → Keeps w project (toggle_repo_volume w project before after)
  unfolding toggle_repo_volume
  toggle_repo_volume-Keeps before after =
      unless-Keeps w project _
        (if-Keeps _ (drop_mirror-Keeps w project _) (setup_and_clone-Keeps w project _))

  add_repo-Keeps : (r : RepoConfig) → Keeps w project (add_repo w project r)
  unfolding add_repo
  add_repo-Keeps r =
      if-Keeps _ (setup_and_clone-Keeps w project _)
        (ensure_repo_cloned_in_guest-Keeps w project _ _ _ _)

  remove_repo-Keeps : (r : RepoConfig) → Keeps w project (remove_repo w project r)
  unfolding remove_repo
  remove_repo-Keeps r = unless-Keeps w project _ (
      then-Keeps w project (terminate_session_if_exists-Keeps w project _)
        (λ u. remove_mirror_if_empty-Keeps w project _))

  mutate_repo-Keeps :
      (field : Bytes) (before after : RepoConfig)
      → Keeps w project (mutate_repo w project field before after)
  unfolding mutate_repo
  mutate_repo-Keeps field before after = if-Keeps _ (rename_repo_label-Keeps before after) (
      if-Keeps _ (toggle_repo_volume-Keeps before after) (
        if-Keeps _ (unless-Keeps w project _ (recreate_session_with_ignore-Keeps w project _))
          (give-Keeps w project tt)))

  apply_repo_change-Keeps : (c : Change) → Keeps w project (apply_repo_change w project c)
  unfolding apply_repo_change
  apply_repo_change-Keeps c =
      op-Keeps c.op (elim-Keeps (repo_in c.new_value) (fail-Keeps w project _) add_repo-Keeps)
        (elim-Keeps (repo_in c.old_value) (fail-Keeps w project _) remove_repo-Keeps)
        (elim-Keeps c.repo_before (fail-Keeps w project _) (λ before.
          elim-Keeps c.repo_after (fail-Keeps w project _) (mutate_repo-Keeps c.field before)))

  kind-Keeps :
      {a b c : M (Unit {0})} (k : ChangeKind)
      → Keeps w project a
      → Keeps w project b
      → Keeps w project c
      → Keeps w project (elim k [ Change.volume_change ↦ a | Change.repo_change ↦ b | _ ↦ c ])
  kind-Keeps Change.volume_change k l m = k
  kind-Keeps Change.repo_change k l m = l
  kind-Keeps _ k l m = m

  pub apply_mutagen_session_change-Keeps :
      (c : Change) → Keeps w project (apply_mutagen_session_change w project c)
  unfolding apply_mutagen_session_change
  apply_mutagen_session_change-Keeps c =
      kind-Keeps c.kind (apply_volume_change-Keeps c) (apply_repo_change-Keeps c)
        (give-Keeps w project tt)
