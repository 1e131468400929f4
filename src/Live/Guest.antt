-- ===== src/Live/Guest.antt =====
-- The scripts that internal/reconcile/apply_live.go runs in the guest, and how it reads what they
-- print.
use devm.Base.{
  Bool, false, Option, none, some, List, [], ◌∷◌, ◌++◌, ◌==◌, is_nil, if◌then◌else◌, Bytes, codes,
  bytes_eq,
}
use devm.Base.Int.{ℤ, pos, int_eq}
use devm.Base.FilePath.{dir_name}
use devm.Base.Parse.{fields, cut, parse_int}
use devm.Sync.Quote.{posix_shell_quote}
use devm.Schema.Config.{token_for}
use devm.Live.World.{
  Script, scan, ensure_dir, move, clone, ExecReply, no_transport, exited, guest_ran, World,
  LiveError, guest_dir, guest_scan, guest_move, guest_clone, M, or_fail, from_option, ask, ◌>>=◌,
}

-- `guestScanScriptBody`.
abbrev scan_body : Bytes
scan_body =
    codes "set -e"
    ++ 10 ∷ codes "cd \"$1\" 2>/dev/null || { echo count=0 size=0 hash=- top=-; exit 0; }"
    ++ 10 ∷ codes "count=$(find . -mindepth 1 | wc -l | tr -d ' ')"
    ++ 10 ∷ codes "size=$(du -sb . 2>/dev/null | awk '{print $1}')"
    ++ 10
      ∷ codes
          "top=$(find . -mindepth 1 -printf '%P\\n' 2>/dev/null | sort | head -100 | shasum -a 256 | awk '{print $1}')"
    ++ 10 ∷ codes "echo \"count=$count size=$size hash=$top\""
    ++ 10 ∷ []

-- The configuration that hands git the placeholder of a secret.
unfoldable pub clone_config : (base64 : Bytes → Bytes) → Bytes → Bytes
clone_config base64 secret =
    if is_nil secret
    then []
    else codes "-c "
      ++ (posix_shell_quote (
            codes "http.extraheader=Authorization: Basic "
            ++ base64 (codes "x-access-token:" ++ token_for secret))
          ++ codes " ")

unfoldable pub script_text : (base64 : Bytes → Bytes) → Script → Bytes
script_text base64 (scan path) = codes "set -- " ++ (posix_shell_quote path ++ (10 ∷ scan_body))
script_text base64 (ensure_dir path) =
    codes "sudo install -d -o devm -g devm "
    ++ (posix_shell_quote (dir_name path)
        ++ (10 ∷ codes "sudo -u devm mkdir -p " ++ (posix_shell_quote path ++ 10 ∷ [])))
script_text base64 (move before after) =
    codes "sudo install -d -o devm -g devm "
    ++ (posix_shell_quote (dir_name after)
        ++ (10 ∷ codes "sudo -u devm mv "
            ++ (posix_shell_quote before ++ (32 ∷ posix_shell_quote after ++ 10 ∷ []))))
script_text base64 (clone url secret target ca_path) =
    codes "sudo -u devm bash -c "
    ++ posix_shell_quote (
        codes "set -e"
        ++ (10 ∷ codes "export GIT_SSL_CAINFO="
            ++ (ca_path
                ++ (10 ∷ codes "git clone --quiet "
                    ++ (clone_config base64 secret
                        ++ (posix_shell_quote url
                            ++ (32 ∷ posix_shell_quote target ++ 10 ∷ [])))))))

abbrev pub run_script : World → Script → M ExecReply
run_script w s = ask (λ t. w.guest t (script_text w.base64 s)) (guest_ran s)

abbrev pub succeeded : ExecReply → Bool
succeeded no_transport = false
succeeded (exited out code) = code == pos 0

-- A script that must exit with 0.
unfoldable pub must_run : World → LiveError → Script → M (Unit {0})
must_run w e s = do reply ← run_script w s; or_fail e (succeeded reply)

unfoldable pub ensure_guest_dir : World → Bytes → M (Unit {0})
unfolding must_run
ensure_guest_dir w path = must_run w guest_dir (ensure_dir path)

unfoldable pub move_guest_dir : World → (before after : Bytes) → M (Unit {0})
unfolding must_run
move_guest_dir w before after = must_run w guest_move (move before after)

unfoldable pub clone_repo_in_guest : World → (url secret target ca_path : Bytes) → M (Unit {0})
unfolding must_run
clone_repo_in_guest w url secret target ca_path =
    must_run w guest_clone (clone url secret target ca_path)

-- `scanSide`.
pub record Side : Type 0 where
  pub count : ℤ
  pub size : ℤ
  pub top_hash : Bytes

abbrev pub empty_side : Side
empty_side = record { count = pos 0; size = pos 0; top_hash = [] }

-- One `key=value` of the scan's output.
unfoldable pub read_field : Bytes → Side → Option Side
read_field f side = elim (cut f b'=') [
  | none ↦ some side
  | some (key, val) ↦
      if key == codes "count"
      then elim (parse_int val) [ none ↦ none | some n ↦ some (record side { count = n }) ]
      else if key == codes "size"
      then elim (parse_int val) [ none ↦ none | some n ↦ some (record side { size = n }) ]
      else if key == codes "hash"
      then some (if val == codes "-" then side else record side { top_hash = val })
      else some side
]

unfoldable pub read_fields : List Bytes → Side → Option Side
read_fields [] side = some side
read_fields (f ∷ fs) side = elim (read_field f side) [ none ↦ none | some s ↦ read_fields fs s ]

-- What the reply to a scan says of the guest's side.
unfoldable pub guest_side_of : ExecReply → Option Side
unfolding read_fields
guest_side_of no_transport = none
guest_side_of (exited out code) =
    if code == pos 0 then read_fields (fields out) empty_side else none

unfoldable pub scan_guest_side : World → Bytes → M Side
scan_guest_side w path = do
  reply ← run_script w (scan path)
  from_option guest_scan (guest_side_of reply)
