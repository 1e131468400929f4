-- ===== src/Sync/Monitor.antt =====
-- `subscribeMutagenMonitor` (internal/serviceapi/mutagen_monitor.go): the lines of `mutagen sync
-- monitor`, the health of a project's sessions, and the delay before the monitor is started again.
use devm.Base.{
  ℕ, ◌*◌, Bool, true, false, ◌&&◌, ◌||◌, Option, none, some, List, [], ◌∷◌, ◌++◌, ltb, is_nil,
  length, if◌then◌else◌, ◌==◌, Bytes, codes, bytes_eq, has_prefix,
}
use devm.Base.Assoc.{Map, lookup, insert}
use devm.Base.Names.{has}
use devm.Base.Parse.{cut}
pub mod Backoff
mod Tests

-- Seconds.
abbrev pub backoff_initial : ℕ
backoff_initial = 5

abbrev pub backoff_max : ℕ
backoff_max = 60

unfoldable pub next_monitor_backoff : ℕ → ℕ
next_monitor_backoff current = if ltb backoff_max (current * 2) then backoff_max else current * 2

-- How one round of the loop ends.
pub data RunEnd : Type 0 where
  pipe_failed start_failed : RunEnd
  exited : (observed_any_tick : Bool) → RunEnd

-- How long the round sleeps, by the backoff that it starts with.
unfoldable pub delay_of : RunEnd → ℕ → ℕ
unfolding next_monitor_backoff
delay_of pipe_failed backoff = backoff
delay_of start_failed backoff = backoff
delay_of (exited true) backoff = backoff_initial
delay_of (exited false) backoff = next_monitor_backoff backoff

-- The backoff of the next round.
unfoldable pub backoff_after : List RunEnd → ℕ → ℕ
unfolding delay_of
backoff_after [] backoff = backoff
backoff_after (r ∷ rs) backoff = backoff_after rs (next_monitor_backoff (delay_of r backoff))

abbrev pub tick_marker : Bytes
tick_marker = codes "===devm-tick==="

unfoldable pub parse_monitor_line : Bytes → Option (Bytes × Bytes)
parse_monitor_line line = elim (cut line b'|') [
  | none ↦ none
  | some (name, status) ↦ if is_nil name || is_nil status then none else some (name, status)
]

pub data MutagenStatus : Type 0 where
  mutagen_ok mutagen_dead : MutagenStatus

abbrev pub failed_statuses : List Bytes
failed_statuses =
    codes "Disconnected"
    ∷ codes "HaltedOnRootEmptied"
    ∷ codes "HaltedOnRootDeletion"
    ∷ codes "HaltedOnRootTypeChange"
    ∷ []

unfoldable pub status_to_mutagen_health : Bytes → MutagenStatus
status_to_mutagen_health status = if has status failed_statuses then mutagen_dead else mutagen_ok

unfoldable pub session_name_prefix : Bytes → Bytes
session_name_prefix project = codes "devm-" ++ (project ++ codes "-")

-- The loop over the known projects, with the best so far and the length of its prefix.
unfoldable pub best_project : Bytes → List Bytes → Option (Bytes × ℕ) → Option Bytes
unfolding session_name_prefix
best_project name [] none = none
best_project name [] (some (best, n)) = some best
best_project name (p ∷ ps) best =
    let prefix = session_name_prefix p in
    let longer : Bool = elim best [ none ↦ true | some (b, n) ↦ ltb n (length prefix) ] in
    best_project name ps
      (if has_prefix name prefix && longer then some (p, length prefix) else best)

unfoldable pub session_name_to_project : List Bytes → Bytes → Option Bytes
unfolding best_project
session_name_to_project projects name = best_project name projects none

-- The rows of the cache: a project and the health of its sessions.
abbrev pub Health : Type 0
Health = Map Bytes MutagenStatus

-- One session of a tick, in the order in which the map is walked.
unfoldable pub apply_session : List Bytes → Map Bytes Bytes → Bytes × Bytes → Health → Health
unfolding session_name_to_project status_to_mutagen_health
apply_session projects previous (name, status) h =
    let known : Bool = elim (lookup name previous) [
      | none ↦ is_nil status
      | some s ↦ s == status
    ] in
    elim (session_name_to_project projects name) [
      | none ↦ h
      | some project ↦ if known then h else insert project (status_to_mutagen_health status) h
    ]

unfoldable pub apply_monitor_tick : List Bytes → Map Bytes Bytes → Map Bytes Bytes → Health → Health
unfolding apply_session
apply_monitor_tick projects previous [] h = h
apply_monitor_tick projects previous (s ∷ tick) h =
    apply_monitor_tick projects previous tick (apply_session projects previous s h)

-- The loop over the lines, with the last tick and the one that is being read.
pub record Reader : Type 0 where
  pub previous : Map Bytes Bytes
  pub tick : Map Bytes Bytes
  pub observed_tick : Bool
  pub health : Health

unfoldable pub read_line : List Bytes → Bytes → Reader → Reader
unfolding apply_monitor_tick parse_monitor_line
read_line projects line r =
    if line == tick_marker
    then record {
      previous = r.tick;
      tick = [];
      observed_tick = true;
      health = apply_monitor_tick projects r.previous r.tick r.health;
    }
    else elim (parse_monitor_line line) [
      | none ↦ r
      | some (name, status) ↦ record r { tick = insert name status r.tick }
    ]

unfoldable pub read_lines : List Bytes → List Bytes → Reader → Reader
unfolding read_line
read_lines projects [] r = r
read_lines projects (line ∷ lines) r = read_lines projects lines (read_line projects line r)

-- `markAllProjectsMutagenDead`: the projects whose machine runs.
unfoldable pub mark_all_dead : List Bytes → Health → Health
mark_all_dead [] h = h
mark_all_dead (p ∷ running) h = mark_all_dead running (insert p mutagen_dead h)
