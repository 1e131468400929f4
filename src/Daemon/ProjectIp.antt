-- ===== src/Daemon/ProjectIp.antt =====
-- internal/serviceapi/projectip.go: the loopback address of each project. `probe` is
-- `probeIPInUse`, a query of the operating system; `stores` says of which projects a snapshot can
-- be read and written. The mutex makes each operation one step.
use devm.Base.{
  ℕ, zero, suc, ◌-◌, Bool, not, ◌&&◌, ◌||◌, ◌⊎◌, inl, inr, Option, none, some, ◌++◌, if◌then◌else◌,
  ◌==◌, any, is_nil, Bytes, codes, bytes_eq,
}
use devm.Base.Decimal.{decimal}
use devm.Base.Assoc.{Map, lookup, insert}
pub mod Separate
pub mod Lowest

-- The `ProjectIP` fields: of `ironProxyState`, and of the snapshots on disk. Empty is none.
pub record Addresses : Type 0 where
  pub infos : Map Bytes Bytes
  pub snapshots : Map Bytes Bytes

-- cfg.PoolStart and cfg.PoolEnd.
pub record Pool : Type 0 where
  pub first : ℕ
  pub last : ℕ

unfoldable pub pool_ip : ℕ → Bytes
pool_ip n = codes "127.42.0." ++ decimal n

-- A missing entry has the zero value.
unfoldable pub ip_of : Bytes → Map Bytes Bytes → Bytes
ip_of project m = elim (lookup project m) [ none ↦ codes "" | some ip ↦ ip ]

-- Whether the address is a key of `heldBy`.
unfoldable pub is_held : Bytes → Map Bytes Bytes → Bool
is_held ip infos = any (λ entry. not (is_nil entry.1) && entry.1 == ip) infos

unfoldable pub is_busy : (Bytes → Bool) → Map Bytes Bytes → ℕ → Bool
is_busy probe infos n = is_held (pool_ip n) infos || probe (pool_ip n)

-- The loop over the pool, from `n` on, over so many addresses.
unfoldable pub first_free : (Bytes → Bool) → Map Bytes Bytes → (count n : ℕ) → Option Bytes
first_free probe infos zero n = none
first_free probe infos (suc count) n =
    let rest = first_free probe infos count (suc n) in
    if is_busy probe infos n then rest else some (pool_ip n)

-- How many addresses the pool has.
unfoldable pub pool_size : Pool → ℕ
pool_size pool = suc pool.last - pool.first

-- A snapshot that is there gets the address.
unfoldable pub mirror : (Bytes → Bool) → Bytes → Bytes → Map Bytes Bytes → Map Bytes Bytes
mirror stores project ip snapshots =
    if stores project
    then elim (lookup project snapshots) [
      | none ↦ snapshots
      | some old ↦ insert project ip snapshots
    ]
    else snapshots

pub data AllocateError : Type 0 where
  pool_exhausted : AllocateError

unfoldable pub allocate_project_ip :
    Pool → (probe stores : Bytes → Bool) → Bytes → Addresses → (AllocateError ⊎ Bytes) × Addresses
allocate_project_ip pool probe stores project s =
    if is_nil (ip_of project s.infos)
    then elim (first_free probe s.infos (pool_size pool) pool.first) [
      | none ↦ (inl pool_exhausted, s)
      | some ip ↦ (
        inr ip,
        record {
          infos = insert project ip s.infos;
          snapshots = mirror stores project ip s.snapshots;
        },
      )
    ]
    else (inr (ip_of project s.infos), s)

unfoldable pub clear_ip : Bytes → Map Bytes Bytes → Map Bytes Bytes
clear_ip project m = if is_nil (ip_of project m) then m else insert project (codes "") m

unfoldable pub release_project_ip : (stores : Bytes → Bool) → Bytes → Addresses → Addresses
release_project_ip stores project s = record {
  infos = clear_ip project s.infos;
  snapshots = if stores project then clear_ip project s.snapshots else s.snapshots;
}
