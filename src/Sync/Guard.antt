-- ===== src/Sync/Guard.antt =====
-- `GuardCheck`: may a fresh sync session be started over two sides? The reasons for a refusal keep
-- the two numbers that their texts show.
use devm.Base.{
  ◌≡◌, ◌≢◌, ◌↔◌, ◌⊎◌, Bool, true, false, ◌||◌, not, List, arith, if◌then◌else◌, ◌==◌, nat_eq,
  bool_eq, pair_eq, Bytes, bytes_beq_iff, bytes_eq,
}
use devm.Base.Int.{ℤ, pos, int_eq, int_beq_iff}

pub record ScanSide : Type 0 where
  pub count : ℤ
  pub size : ℤ
  pub top_hash : Bytes
  pub top_sample : List Bytes

pub data Reason : Type 0 where
  no_reason hashes_differ : Reason
  counts_differ sizes_differ : (mac guest : ℤ) → Reason

pub record GuardVerdict : Type 0 where
  pub accepted : Bool
  pub reason : Reason
  pub mac_side : ScanSide
  pub guest_side : ScanSide

unfoldable pub guard_check : ScanSide → ScanSide → GuardVerdict
guard_check mac guest =
    let v : GuardVerdict = record {
      accepted = false;
      reason = no_reason;
      mac_side = mac;
      guest_side = guest;
    } in
    if mac.count == pos 0 || guest.count == pos 0
    then record v { accepted = true }
    else if not (mac.count == guest.count)
    then record v { reason = counts_differ mac.count guest.count }
    else if not (mac.size == guest.size)
    then record v { reason = sizes_differ mac.size guest.size }
    else if not (mac.top_hash == guest.top_hash)
    then record v { reason = hashes_differ }
    else record v { accepted = true }

-- What a verdict says of its two sides, by its reason: none where a side is empty or the two agree
-- in count, size and hash, and else the first difference, with the two numbers that differ.
abbrev pub IsReason : ScanSide → ScanSide → Reason → Type 0
IsReason mac guest no_reason =
    (mac.count ≡ pos 0)
    ⊎ (guest.count ≡ pos 0)
    ⊎ ((mac.count ≡ guest.count) × (mac.size ≡ guest.size) × (mac.top_hash ≡ guest.top_hash))
IsReason mac guest (counts_differ m g) =
    (mac.count ≢ pos 0)
    × (guest.count ≢ pos 0)
    × (mac.count ≢ guest.count)
    × (m ≡ mac.count)
    × (g ≡ guest.count)
IsReason mac guest (sizes_differ m g) =
    (mac.count ≢ pos 0)
    × (mac.count ≡ guest.count)
    × (mac.size ≢ guest.size)
    × (m ≡ mac.size)
    × (g ≡ guest.size)
IsReason mac guest hashes_differ =
    (mac.count ≢ pos 0)
    × (mac.count ≡ guest.count)
    × (mac.size ≡ guest.size)
    × (mac.top_hash ≢ guest.top_hash)

-- A verdict carries the reason `r` exactly when `IsReason` holds of the two sides and `r`: no reason
-- where a side is empty or the two agree in count, size and hash, and else the first of these in
-- which they differ, with the two numbers. The guard accepts exactly when there is no reason.
pub guard_check-IsReason :
    (mac guest : ScanSide) (r : Reason)
    → (((guard_check mac guest).reason ≡ r) ↔ IsReason mac guest r)
      × (((guard_check mac guest).accepted ≡ true) ↔ ((guard_check mac guest).reason ≡ no_reason))
unfolding guard_check
guard_check-IsReason mac guest no_reason = ground (
  arith,
  int_beq_iff mac.count (pos 0),
  int_beq_iff guest.count (pos 0),
  int_beq_iff mac.count guest.count,
  int_beq_iff mac.size guest.size,
  bytes_beq_iff mac.top_hash guest.top_hash,
)
guard_check-IsReason mac guest hashes_differ = ground (
  arith,
  int_beq_iff mac.count (pos 0),
  int_beq_iff guest.count (pos 0),
  int_beq_iff mac.count guest.count,
  int_beq_iff mac.size guest.size,
  bytes_beq_iff mac.top_hash guest.top_hash,
)
guard_check-IsReason mac guest (counts_differ m g) = ground (
  arith,
  int_beq_iff mac.count (pos 0),
  int_beq_iff guest.count (pos 0),
  int_beq_iff mac.count guest.count,
  int_beq_iff mac.size guest.size,
  bytes_beq_iff mac.top_hash guest.top_hash,
)
guard_check-IsReason mac guest (sizes_differ m g) = ground (
  arith,
  int_beq_iff mac.count (pos 0),
  int_beq_iff guest.count (pos 0),
  int_beq_iff mac.count guest.count,
  int_beq_iff mac.size guest.size,
  bytes_beq_iff mac.top_hash guest.top_hash,
)
