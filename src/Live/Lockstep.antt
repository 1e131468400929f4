-- ===== src/Live/Lockstep.antt =====
-- The guard of internal/reconcile/apply_live.go beside the one of internal/serviceapi/mutagen_guard.go,
-- which its comment says it must agree with.
use devm.Base.{◌≡◌, arith, bytes_eq}
use devm.Base.Int.{int_eq}
use devm.Sync.Guard
use devm.Sync.Guard.{ScanSide, Reason, guard_check}
use devm.Live.Guest.{Side}
use devm.Live.Mirrors.{GuardReason, no_reason, counts_differ, sizes_differ, hashes_differ, guard_ok}

-- A side without its sample.
abbrev pub side_of : ScanSide → Side
side_of s = record { count = s.count; size = s.size; top_hash = s.top_hash }

-- A reason without its numbers.
abbrev pub kind_of : Reason → GuardReason
kind_of Guard.no_reason = no_reason
kind_of Guard.hashes_differ = hashes_differ
kind_of (Guard.counts_differ mac guest) = counts_differ
kind_of (Guard.sizes_differ mac guest) = sizes_differ

-- On any two sides the guard of the live application decides as the guard of the cold start does,
-- and refuses for the same reason.
pub guard_ok-guard_check :
    (mac guest : ScanSide)
    → guard_ok (side_of mac) (side_of guest)
      ≡ ((guard_check mac guest).accepted, kind_of (guard_check mac guest).reason)
unfolding guard_ok guard_check
guard_ok-guard_check mac guest = ground arith
