-- ===== src/Live/World.antt =====
-- The world outside of internal/reconcile/apply_live.go: the guest, the file system of the Mac,
-- mutagen, git, the builder of the guest bundle and the policy authority. Each call is an event of
-- a trace, the newest first, with what was answered. An answer may depend on all that was done
-- before; a call that returns an error answers `false`, `none` or a constructor of its own.
use devm.Base.{ℕ, Bool, true, false, Option, none, some, List, [], ◌∷◌, Bytes}
use devm.Base.Int.{ℤ}
use devm.Schema.Config.{Config}

-- What a shell script in the guest is for; its text is written in Live.Guest.
pub data Script : Type 0 where
  scan ensure_dir : Bytes → Script
  move : (before after : Bytes) → Script
  clone : (url secret target ca_path : Bytes) → Script

-- Standard output and the exit code of a script, or an error of the transport.
pub data ExecReply : Type 0 where
  no_transport : ExecReply
  exited : (stdout : Bytes) → (code : ℤ) → ExecReply

-- os.ReadDir, with the number of entries.
pub data DirReply : Type 0 where
  absent unreadable : DirReply
  holds : ℕ → DirReply

pub record DirEntry : Type 0 where
  pub path : Bytes
  pub is_dir : Bool
  pub size : ℕ

-- filepath.WalkDir below a root, with what d.Info says of the files.
pub data WalkReply : Type 0 where
  no_root walk_failed : WalkReply
  walked_over : List DirEntry → WalkReply

pub record Session : Type 0 where
  pub id : Bytes
  pub name : Bytes
  pub status : Bytes

pub data SessionOp : Type 0 where
  flush terminate resume : SessionOp

pub data Event : Type 0 where
  guest_ran : Script → ExecReply → Event
  made_dir : Bytes → Bool → Event
  listed_dir : Bytes → DirReply → Event
  walked : Bytes → WalkReply → Event
  verified_head : Bytes → Bool → Event
  listed_sessions : Bytes → Option (List Session) → Event
  operated : SessionOp → Bytes → Bool → Event
  wrote_config : Bytes → List Bytes → Bool → Event
  created : (name alpha beta config : Bytes) → Bool → Event
  removed removed_all : Bytes → Bool → Event
  renamed : (before after : Bytes) → Bool → Event
  built_bundle : Config → Bool → Event
  piped_bundle dispatched : ExecReply → Event
  set_allowlist : Bytes → List Bytes → Bool → Event

abbrev pub Trace : Type 0
Trace = List Event

-- What answers, by what was done before. `sha256_hex` and `base64` are those of Go's library,
-- `script_text` is how a script is sent.
pub record World : Type 0 where
  pub guest : Trace → Bytes → ExecReply
  pub mkdir_all : Trace → Bytes → Bool
  pub dir_entries : Trace → Bytes → DirReply
  pub walk : Trace → Bytes → WalkReply
  pub head_ok : Trace → Bytes → Bool
  pub sessions : Trace → Bytes → Option (List Session)
  pub session_op : Trace → SessionOp → Bytes → Bool
  pub write_config : Trace → Bytes → List Bytes → Bool
  pub create : Trace → (name alpha beta config : Bytes) → Bool
  pub remove : Trace → Bytes → Bool
  pub remove_all : Trace → Bytes → Bool
  pub rename : Trace → Bytes → Bytes → Bool
  pub build_bundle : Trace → Config → Bool
  pub pipe_bundle : Trace → ExecReply
  pub dispatch : Trace → ExecReply
  pub allow : Trace → Bytes → List Bytes → Bool
  pub sha256_hex : Bytes → Bytes
  pub base64 : Bytes → Bytes
  pub runtime_dir : Bytes

-- The step that failed.
pub data LiveError : Type 0 where
  mirror_dir guest_dir guest_scan mac_scan guest_move guest_clone : LiveError
  guard_failed : Bytes → LiveError
  integrity_failed : Bytes → LiveError
  session_list session_flush session_terminate session_resume session_create : LiveError
  config_write mirror_read mirror_remove mirror_rename : LiveError
  missing_value missing_snapshot : LiveError
  bundle_build bundle_pipe template_install allowlist_set : LiveError

pub data Result (A : Type 0) : Type 0 where
  ok : A → Result A
  failed : LiveError → Result A

-- A step reads and extends the trace.
abbrev pub M : Type 0 → Type 0
M A = Trace → Result A × Trace

abbrev pub after : {A B : Type 0} → Result A × Trace → (A → M B) → Result B × Trace
after (ok a, t) f = f a t
after (failed e, t) f = (failed e, t)

infixl 5 ◌>>=◌ ◌>>◌
unfoldable pub ◌>>=◌ : {A B : Type 0} → M A → (A → M B) → M B
◌>>=◌ m f t = after (m t) f

abbrev pub ◌>>◌ : {B : Type 0} → M (Unit {0}) → M B → M B
m >> k = m >>= λ _. k

unfoldable pub give : {A : Type 0} → A → M A
give a t = (ok a, t)

unfoldable pub fail : {A : Type 0} → LiveError → M A
fail e t = (failed e, t)

-- `if err != nil { return ... }`.
unfoldable pub or_fail : LiveError → Bool → M (Unit {0})
unfolding give fail
or_fail e true = give tt
or_fail e false = fail e

-- A step that is left out if the test holds.
unfoldable pub unless : Bool → M (Unit {0}) → M (Unit {0})
unfolding give
unless true m = give tt
unless false m = m

-- What is there, or a failure.
unfoldable pub from_option : {A : Type 0} → LiveError → Option A → M A
unfolding give fail
from_option e none = fail e
from_option e (some a) = give a

-- A step on what is there, if it is.
unfoldable pub when_some : {A : Type 0} → Option A → (A → M (Unit {0})) → M (Unit {0})
unfolding give
when_some none f = give tt
when_some (some a) f = f a

-- One call, and its answer.
unfoldable pub ask : {A : Type 0} → (Trace → A) → (A → Event) → M A
ask answer event t = (ok (answer t), event (answer t) ∷ t)

-- One step after the other, up to the first that fails.
unfoldable pub each_do : {A : Type 0} → (A → M (Unit {0})) → List A → M (Unit {0})
each_do f [] = give tt
each_do f (x ∷ xs) = f x >> each_do f xs
