-- ===== src/Live/Careful.antt =====
-- What makes a trace of internal/reconcile/apply_live.go careful: nothing is created, cloned, removed
-- or ended but on grounds that were looked at just before.
use devm.Base.{zero, ℕ, List, none, ◌≡◌, true, false, ◌⊎◌, some, [], ◌∷◌, ◌++◌, Bytes, codes}
use devm.Base.Int.{int_above}
use devm.Live.World.{
  scan, clone, holds, flush, terminate, Event, guest_ran, listed_dir, walked, verified_head,
  listed_sessions, made_dir, removed_all, Session, operated, wrote_config, created, removed,
  built_bundle, piped_bundle, dispatched, set_allowlist, Trace, World,
}
use devm.Live.Guest.{Side, guest_side_of, succeeded}
use devm.Live.Mirrors.{mac_side_of, guard_ok, mirror_path}
use devm.Live.Sessions.{guest_ssh_target, session_name, find_session}
pub mod Rules
pub mod Known
pub mod Steps
pub mod Scans
pub mod Setup
pub mod Dropped
pub mod Changes
pub mod Batches

-- An event that leaves the two sides of a session as they are.
abbrev pub IsQuiet : Event → Type 0
IsQuiet (guest_ran (scan path) reply) = Unit
IsQuiet (listed_dir path reply) = Unit
IsQuiet (walked path reply) = Unit
IsQuiet (verified_head path done) = Unit
IsQuiet (listed_sessions name reply) = Unit
IsQuiet (wrote_config path ignores done) = Unit
IsQuiet _ = ⊥

-- Such an event was seen, and only quiet ones since.
abbrev pub Seen : (Event → Type 0) → Trace → Type 0
Seen P [] = ⊥
Seen P (e ∷ t) = P e ⊎ (IsQuiet e × Seen P t)

abbrev pub IsMacScan : World → Bytes → Side → Event → Type 0
IsMacScan w path side (walked p reply) = (p ≡ path) × (mac_side_of w.sha256_hex reply ≡ some side)
IsMacScan w path side _ = ⊥

abbrev pub IsGuestScan : Bytes → Side → Event → Type 0
IsGuestScan path side (guest_ran (scan p) reply) = (p ≡ path) × (guest_side_of reply ≡ some side)
IsGuestScan path side _ = ⊥

abbrev pub IsEmptyDir : Bytes → Event → Type 0
IsEmptyDir path (listed_dir p (holds zero)) = p ≡ path
IsEmptyDir path _ = ⊥

abbrev pub IsFlush : Bytes → Event → Type 0
IsFlush id (operated flush i true) = i ≡ id
IsFlush id _ = ⊥

-- Two sides that the guard accepts.
pub record IsGuarded (w : World) (project alpha beta : Bytes) (t : Trace) : Type 0 where
  pub guest_path : Bytes
  pub mac : Side
  pub guest : Side
  pub target : beta ≡ codes "devm@" ++ (guest_ssh_target project ++ (codes ":" ++ guest_path))
  pub accepted : (guard_ok mac guest).0 ≡ true
  pub seen_mac : Seen (IsMacScan w alpha mac) t
  pub seen_guest : Seen (IsGuestScan guest_path guest) t

-- A guest directory without entries.
pub record IsEmptyTarget (target : Bytes) (t : Trace) : Type 0 where
  pub guest : Side
  pub seen_guest : Seen (IsGuestScan target guest) t
  pub empty : int_above guest.count 0 ≡ false

-- No session of the name is left: none was listed, or the listed one was flushed and ended.
abbrev pub IsEnded : Bytes → Trace → Type 0
IsEnded name t =
    (sessions : List Session) × (before : Trace) × (((find_session name sessions ≡ none)
        × (t ≡ listed_sessions name (some sessions) ∷ before))
      ⊎ ((s : Session) × (find_session name sessions ≡ some s)
          × (t
              ≡ operated terminate s.id true
                ∷ operated flush s.id true
                ∷ listed_sessions name (some sessions)
                ∷ before)))

-- The mirror of a label, looked up just before, of which no session is left.
pub record IsUnsynced (w : World) (project path : Bytes) (t : Trace) : Type 0 where
  pub label : Bytes
  pub entries : ℕ
  pub before : Trace
  pub is_mirror : path ≡ mirror_path w project label
  pub looked_up : t ≡ listed_dir path (holds entries) ∷ made_dir path true ∷ before
  pub ended : IsEnded (session_name project label) before

-- A bundle was built just before.
abbrev pub IsBuilt : Trace → Type 0
IsBuilt (built_bundle c true ∷ t) = Unit
IsBuilt _ = ⊥

-- A bundle was piped into the guest just before.
abbrev pub IsPiped : Trace → Type 0
IsPiped (piped_bundle reply ∷ t) = succeeded reply ≡ true
IsPiped _ = ⊥

abbrev pub IsJustified : World → Bytes → Event → Trace → Type 0
IsJustified w project (guest_ran (clone url secret target ca_path) reply) t = IsEmptyTarget target t
IsJustified w project (created name alpha beta config done) t = IsGuarded w project alpha beta t
IsJustified w project (removed path done) t = Seen (IsEmptyDir path) t
IsJustified w project (removed_all path done) t = IsUnsynced w project path t
IsJustified w project (operated terminate id done) t = Seen (IsFlush id) t
IsJustified w project (piped_bundle reply) t = IsBuilt t
IsJustified w project (dispatched reply) t = IsPiped t
IsJustified w project (set_allowlist p allowlist done) t = p ≡ project
IsJustified w project _ t = Unit

abbrev pub IsCareful : World → Bytes → Trace → Type 0
IsCareful w project [] = Unit
IsCareful w project (e ∷ t) = IsJustified w project e t × IsCareful w project t
