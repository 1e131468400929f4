-- ===== src/Live/Sessions.antt =====
-- The sync session of one mirrored path (internal/reconcile/apply_live.go): set up, cloned into,
-- ended and made anew.
use devm.Base.{
  ◌||◌, not, Option, none, some, List, [], ◌∷◌, ◌++◌, ◌==◌, if◌then◌else◌, Bytes, codes, bytes_eq,
}
use devm.Base.Int.{pos, int_eq, int_above}
use devm.Base.FilePath.{join_path}
use devm.Live.World.{
  World, Session, flush, terminate, resume, SessionOp, listed_sessions, operated, wrote_config,
  created, LiveError, session_list, session_flush, session_terminate, session_resume,
  session_create, config_write, guard_failed, M, ◌>>=◌, ◌>>◌, give, or_fail, unless, from_option,
  when_some, ask,
}
use devm.Live.Guest.{Side, ensure_guest_dir, scan_guest_side, clone_repo_in_guest}
use devm.Live.Mirrors.{default_mirror_dir, scan_mac_side, guard_ok, verify_git_head}

-- `repoCloneSpec`. The URL of iron-proxy that the source also carries is read by nothing.
pub record CloneSpec : Type 0 where
  pub url : Bytes
  pub secret : Bytes
  pub ca_path : Bytes

pub record SessionSpec : Type 0 where
  pub label : Bytes
  pub guest_path : Bytes
  pub ignore : List Bytes
  pub repo : Option CloneSpec

unfoldable pub session_name : (project label : Bytes) → Bytes
session_name project label = codes "devm-" ++ (project ++ (codes "-" ++ label))

unfoldable pub guest_ssh_target : Bytes → Bytes
guest_ssh_target project = codes "devm-" ++ project

-- `mutagen.ConfigFilePath` in `mutagenSessionsDir`.
unfoldable pub config_file_path : World → (project label : Bytes) → Bytes
config_file_path w project label = join_path (
    join_path (w.runtime_dir ∷ codes "mutagen" ∷ codes "sessions" ∷ [])
    ∷ project
    ∷ (label ++ codes ".yml")
    ∷ [])

-- `mutagen.DefaultIgnores`.
abbrev pub default_ignores : List Bytes
default_ignores =
    codes "**/node_modules/"
    ∷ codes "**/.venv/"
    ∷ codes "**/venv/"
    ∷ codes "**/__pycache__/"
    ∷ codes "*.pyc"
    ∷ codes "**/.DS_Store"
    ∷ codes "**/CLAUDE.local.md"
    ∷ codes "**/dist/"
    ∷ codes "**/build/"
    ∷ codes "**/.next/cache/"
    ∷ codes "**/.turbo/"
    ∷ codes "**/.pytest_cache/"
    ∷ codes "**/.mypy_cache/"
    ∷ []

-- The ignores of `mutagen.ComposeConfig`; its other settings are fixed.
unfoldable pub compose_ignores : List Bytes → List Bytes
compose_ignores user_ignore = default_ignores ++ user_ignore

unfoldable pub find_session : Bytes → List Session → Option Session
find_session name [] = none
find_session name (s ∷ ss) = if s.name == name then some s else find_session name ss

unfoldable pub find_exact_session : World → Bytes → M (Option Session)
unfolding find_session
find_exact_session w name = do
  sessions ← ask (λ t. w.sessions t name) (listed_sessions name)
  ss ← from_option session_list sessions
  give (find_session name ss)

unfoldable pub operate : World → SessionOp → LiveError → Bytes → M (Unit {0})
operate w op e id = ask (λ t. w.session_op t op id) (operated op id) >>= or_fail e

unfoldable pub terminate_session_if_exists : World → (project label : Bytes) → M (Unit {0})
unfolding find_exact_session operate
terminate_session_if_exists w project label = do
  existing ← find_exact_session w (session_name project label)
  when_some existing
      (λ s. operate w flush session_flush s.id >> operate w terminate session_terminate s.id)

-- The guard over the two sides, and for a repo the check of the mirror's checkout.
unfoldable pub check_sides : World → SessionSpec → Bytes → (mac guest : Side) → M (Unit {0})
check_sides w spec mirror mac guest = do
  or_fail (guard_failed spec.label) (guard_ok mac guest).0
  when_some spec.repo
      (λ r. unless (not (int_above mac.count 0)) (verify_git_head w spec.label mirror))

-- A session that is there is resumed if it is paused; if there is none, one is created.
unfoldable pub start_session : World → Bytes → SessionSpec → Bytes → Option Session → M (Unit {0})
unfolding operate
start_session w project spec mirror (some s) =
    unless (not (s.status == codes "paused")) (operate w resume session_resume s.id)
start_session w project spec mirror none = do
  let config = config_file_path w project spec.label
  let ignores = compose_ignores spec.ignore
  written ← ask (λ t. w.write_config t config ignores) (wrote_config config ignores)
  or_fail config_write written
  let name = session_name project spec.label
  let beta = codes "devm@" ++ (guest_ssh_target project ++ (codes ":" ++ spec.guest_path))
  done ← ask (λ t. w.create t name mirror beta config) (created name mirror beta config)
  or_fail session_create done

unfoldable pub setup_single_session : World → Bytes → SessionSpec → M (Unit {0})
setup_single_session w project spec = do
  (mirror, empty) ← default_mirror_dir w project spec.label
  ensure_guest_dir w spec.guest_path
  mac ← scan_mac_side w mirror
  guest ← scan_guest_side w spec.guest_path
  check_sides w spec mirror mac guest
  existing ← find_exact_session w (session_name project spec.label)
  start_session w project spec mirror existing

-- A repo is cloned only where both sides are empty.
unfoldable pub clone_one_repo_if_empty : World → Bytes → SessionSpec → M (Unit {0})
clone_one_repo_if_empty w project spec = when_some spec.repo (λ r. do
  (mirror, empty) ← default_mirror_dir w project spec.label
  mac ← scan_mac_side w mirror
  guest ← scan_guest_side w spec.guest_path
  unless (int_above mac.count 0 || int_above guest.count 0)
      (clone_repo_in_guest w r.url r.secret spec.guest_path r.ca_path))

-- What every caller does: the session, then the clone.
unfoldable pub setup_and_clone : World → Bytes → SessionSpec → M (Unit {0})
setup_and_clone w project spec =
    setup_single_session w project spec >> clone_one_repo_if_empty w project spec

unfoldable pub recreate_session_with_ignore : World → Bytes → SessionSpec → M (Unit {0})
recreate_session_with_ignore w project spec =
    terminate_session_if_exists w project spec.label >> setup_and_clone w project spec

-- A repo without a mirror: a guest directory that is empty gets a clone.
unfoldable pub ensure_repo_cloned_in_guest :
    World → (url secret guest_path ca_path : Bytes) → M (Unit {0})
ensure_repo_cloned_in_guest w url secret guest_path ca_path = do
  ensure_guest_dir w guest_path
  guest ← scan_guest_side w guest_path
  unless (not (guest.count == pos 0)) (clone_repo_in_guest w url secret guest_path ca_path)
