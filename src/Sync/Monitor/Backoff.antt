-- ===== src/Sync/Monitor/Backoff.antt =====
-- The delays of `subscribeMutagenMonitor` (internal/serviceapi/mutagen_monitor.go).
use devm.Base.{
  ℕ, zero, suc, ◌*◌, ◌≤◌, ◌≡◌, refl, min, true, false, List, [], ◌∷◌, ◌++◌, arith, length, All,
}
use devm.Sync.Monitor.{
  RunEnd, pipe_failed, start_failed, exited, backoff_initial, backoff_max, next_monitor_backoff,
  delay_of, backoff_after,
}

-- A round that saw no tick.
abbrev pub IsSilent : RunEnd → Type 0
IsSilent pipe_failed = Unit
IsSilent start_failed = Unit
IsSilent (exited observed) = observed ≡ false

-- At least what the silent rounds so far have made of it, and between the two limits.
abbrev InBounds : ℕ → ℕ → Type 0
InBounds low b = (min 60 low ≤ b) × (5 ≤ b) × (b ≤ 60)

next-InBounds : (b low : ℕ) → InBounds low b → InBounds (2 * low) (next_monitor_backoff b)
unfolding next_monitor_backoff
next-InBounds b low k = let (l, m, h) = k in ground arith

delay_of-InBounds :
    (r : RunEnd) (b low : ℕ) → IsSilent r → InBounds low b → InBounds low (delay_of r b)
unfolding delay_of next_monitor_backoff
delay_of-InBounds pipe_failed b low s k = k
delay_of-InBounds start_failed b low s k = k
delay_of-InBounds (exited true) b low s k = ground arith
delay_of-InBounds (exited false) b low s k = let (l, m, h) = k in ground arith

any-InBounds : (r : RunEnd) (b : ℕ) → InBounds 5 b → InBounds 5 (delay_of r b)
unfolding delay_of next_monitor_backoff
any-InBounds pipe_failed b k = k
any-InBounds start_failed b k = k
any-InBounds (exited true) b k = omega arith
any-InBounds (exited false) b k = let (l, m, h) = k in ground arith

-- Any rounds keep the backoff between the limits.
backoff_after-InBounds : (rs : List RunEnd) (b : ℕ) → InBounds 5 b → InBounds 5 (backoff_after rs b)
unfolding backoff_after
backoff_after-InBounds [] b k = k
backoff_after-InBounds (r ∷ rs) b k =
    let d = next-InBounds (delay_of r b) 5 (any-InBounds r b k) in
    backoff_after-InBounds rs (next_monitor_backoff (delay_of r b)) (omega (arith, d))

abbrev pub doubled : (times low : ℕ) → ℕ
doubled zero low = low
doubled (suc n) low = doubled n (2 * low)

silent-InBounds :
    (rs : List RunEnd) (b low : ℕ)
    → All IsSilent rs
    → InBounds low b
    → InBounds (doubled (length rs) low) (backoff_after rs b)
unfolding backoff_after
silent-InBounds [] b low s k = k
silent-InBounds (r ∷ rs) b low s k =
    silent-InBounds rs (next_monitor_backoff (delay_of r b)) (2 * low) s.1
      (next-InBounds (delay_of r b) low (delay_of-InBounds r b low s.0 k))

backoff_after-append :
    (rs ss : List RunEnd) (b : ℕ)
    → backoff_after (rs ++ ss) b ≡ backoff_after ss (backoff_after rs b)
unfolding backoff_after
backoff_after-append [] ss b = refl
backoff_after-append (r ∷ rs) ss b =
    backoff_after-append rs ss (next_monitor_backoff (delay_of r b))

-- Whatever came before, behind some rounds in a row that saw no tick one more such round sleeps at
-- least the initial backoff doubled as often as there were such rounds, or the maximum if that is
-- less, and never more than the maximum: the delays grow until they stay at the maximum.
pub delay_of-silent :
    (before silent : List RunEnd) (r : RunEnd)
    → All IsSilent silent
    → IsSilent r
    → (min backoff_max (doubled (length silent) backoff_initial)
        ≤ delay_of r (backoff_after (before ++ silent) backoff_initial))
      × (delay_of r (backoff_after (before ++ silent) backoff_initial) ≤ backoff_max)
delay_of-silent before silent r s q =
    let start = backoff_after before backoff_initial in
    let low = doubled (length silent) backoff_initial in
    let k = backoff_after-InBounds before backoff_initial (omega arith) in
    let bounds =
      delay_of-InBounds r (backoff_after silent start) low q (silent-InBounds silent start 5 s k) in
    rw (backoff_after-append before silent backoff_initial) (bounds.0, bounds.2)
