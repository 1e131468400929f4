-- ===== src/Sync/Monitor/Tests.antt =====
-- Runs of the monitor (internal/serviceapi/mutagen_monitor.go), and its delays.
use devm.Base.{
  ◌≡◌, refl, ◌≤◌, true, false, some, List, [], ◌∷◌, ◌++◌, min, length, Bytes, codes, bytes_eq,
}
use devm.Base.Assoc.{lookup, insert}
use devm.Base.Parse.{cut}
use devm.Sync.Monitor.{
  RunEnd, start_failed, exited, backoff_initial, backoff_max, delay_of, backoff_after, tick_marker,
  parse_monitor_line, mutagen_ok, mutagen_dead, status_to_mutagen_health, session_name_prefix,
  best_project, session_name_to_project, apply_session, apply_monitor_tick, Reader, read_line,
  read_lines,
}
use devm.Sync.Monitor.Backoff.{doubled, delay_of-silent}

abbrev blog : Bytes
blog = codes "blog"

abbrev fresh : Reader
fresh = record { previous = []; tick = []; observed_tick = false; health = [] }

-- A session that has failed and stays so is hidden by the next change of another one of its project.
halted_then_scanning :
    (read_lines
        (blog ∷ [])
        (codes "devm-blog-a|Watching" ∷ codes "devm-blog-b|Disconnected" ∷ tick_marker ∷ [])
        fresh).health
      ≡ ((blog, mutagen_dead) ∷ [])
    × ((read_lines
          (blog ∷ [])
          (codes "devm-blog-a|Watching"
            ∷ codes "devm-blog-b|Disconnected"
            ∷ tick_marker
            ∷ codes "devm-blog-a|Scanning"
            ∷ codes "devm-blog-b|Disconnected"
            ∷ tick_marker
            ∷ [])
          fresh).health
        ≡ ((blog, mutagen_ok) ∷ []))
unfolding read_lines read_line apply_monitor_tick apply_session session_name_to_project best_project
    session_name_prefix status_to_mutagen_health parse_monitor_line cut lookup insert
halted_then_scanning = (refl, refl)

-- The session of the label `bar-x` of `blog` is taken for one of the project `blog-bar`.
longest_prefix :
    session_name_to_project (blog ∷ codes "blog-bar" ∷ []) (codes "devm-blog-bar-x")
    ≡ some (codes "blog-bar")
unfolding session_name_to_project best_project session_name_prefix
longest_prefix = refl

abbrev crash : List RunEnd
crash = exited false ∷ start_failed ∷ []

delay_of-silent_example :
    (min backoff_max (doubled (length crash) backoff_initial)
      ≤ delay_of (exited false) (backoff_after ((exited true ∷ []) ++ crash) backoff_initial))
    × (delay_of (exited false) (backoff_after ((exited true ∷ []) ++ crash) backoff_initial)
        ≤ backoff_max)
delay_of-silent_example =
    delay_of-silent (exited true ∷ []) crash (exited false) (refl, (tt, tt)) refl
