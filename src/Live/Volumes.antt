-- ===== src/Live/Volumes.antt =====
-- The change of a volume (internal/reconcile/apply_live.go).
use devm.Base.{Option, none, some, ◌==◌, if◌then◌else◌, Bytes, codes, bytes_eq}
use devm.Schema.Config.{Volume}
use devm.Schema.Labels.{volume_label}
use devm.Reconcile.Change.{Change, op_add, op_remove, op_mutate, Value, a_volume}
use devm.Live.World.{World, missing_value, missing_snapshot, M, ◌>>◌, give, fail, unless}
use devm.Live.Guest.{move_guest_dir}
use devm.Live.Mirrors.{rename_mirror, remove_mirror_if_empty}
use devm.Live.Sessions.{
  SessionSpec, terminate_session_if_exists, setup_and_clone, recreate_session_with_ignore,
}

-- `change.NewValue.(schema.Volume)`.
unfoldable pub volume_in : Value → Option Volume
volume_in (a_volume v) = some v
volume_in _ = none

unfoldable pub volume_spec : Volume → SessionSpec
volume_spec v = record {
  label = volume_label v;
  guest_path = v.path;
  ignore = v.ignore;
  repo = none;
}

unfoldable pub move_volume_guest_path : World → Bytes → (before after : Volume) → M (Unit {0})
move_volume_guest_path w project before after = do
  terminate_session_if_exists w project (volume_label before)
  move_guest_dir w before.path after.path
  setup_and_clone w project (volume_spec after)

unfoldable pub rename_volume_label : World → Bytes → (before after : Volume) → M (Unit {0})
rename_volume_label w project before after = unless (volume_label before == volume_label after) (
    terminate_session_if_exists w project (volume_label before)
    >> rename_mirror w project (volume_label before) (volume_label after)
    >> setup_and_clone w project (volume_spec after))

unfoldable pub mutate_volume : World → Bytes → Bytes → (before after : Volume) → M (Unit {0})
mutate_volume w project field before after =
    if field == codes "path"
    then move_volume_guest_path w project before after
    else if field == codes "label"
    then rename_volume_label w project before after
    else if field == codes "ignore"
    then recreate_session_with_ignore w project (volume_spec after)
    else give tt

unfoldable pub apply_volume_change : World → Bytes → Change → M (Unit {0})
apply_volume_change w project c = elim (c.op) [
  | op_add ↦ elim (volume_in c.new_value) [
    | none ↦ fail missing_value
    | some v ↦ setup_and_clone w project (volume_spec v)
  ]
  | op_remove ↦ elim (volume_in c.old_value) [
    | none ↦ fail missing_value
    | some v ↦
        terminate_session_if_exists w project (volume_label v)
        >> remove_mirror_if_empty w project (volume_label v)
  ]
  | op_mutate ↦ elim (c.volume_before) [
    | none ↦ fail missing_snapshot
    | some before ↦ elim (c.volume_after) [
      | none ↦ fail missing_snapshot
      | some after ↦ mutate_volume w project c.field before after
    ]
  ]
]
