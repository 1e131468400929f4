-- ===== src/Daemon/ProjectIp/Lowest.antt =====
-- Which address `AllocateProjectIP` (internal/serviceapi/projectip.go) takes from the pool.
use devm.Base.{
  ℕ, zero, suc, ◌+◌, ◌-◌, ◌≤◌, ◌<◌, ◌≡◌, refl, ◌⊎◌, inl, inr, Bool, true, false, none, some, arith,
  if◌then◌else◌, Bool-cases, is_nil, Bytes, bytes_eq, ◌==◌,
}
use devm.Base.Assoc.{Map, insert, lookup-insert}
use devm.Daemon.ProjectIp.{
  Pool, Addresses, pool_ip, is_busy, first_free, pool_size, ip_of, allocate_project_ip,
  pool_exhausted,
}

-- The first address from `n` on that is not busy.
pub record IsLowest (probe : Bytes → Bool) (infos : Map Bytes Bytes) (n k : ℕ) (ip : Bytes)
    : Type 0 where
  pub index : ℕ
  pub at_least : n ≤ index
  pub below : index < k
  pub ip_is : ip ≡ pool_ip index
  pub free : is_busy probe infos index ≡ false
  pub lowest : (j : ℕ) → n ≤ j → j < index → is_busy probe infos j ≡ true

module _ (probe : Bytes → Bool) (infos : Map Bytes Bytes) where
  -- The search ends with nothing if all are busy, else with the lowest.
  pub first_free_cases :
      (count n : ℕ)
      → ((first_free probe infos count n ≡ none)
          × ((j : ℕ) → n ≤ j → j < n + count → is_busy probe infos j ≡ true))
        ⊎ ((ip : Bytes) × ((first_free probe infos count n ≡ some ip)
              × IsLowest probe infos n (n + count) ip))
  unfolding first_free
  first_free_cases zero n = inl (refl, λ j low high. absurd (omega arith))
  first_free_cases (suc count) n = elim (Bool-cases (is_busy probe infos n)) [
    | inr free ↦ inr (
      pool_ip n,
      (
        rw (free, first_free) refl,
        record {
          index = n;
          at_least = omega arith;
          below = omega arith;
          ip_is = refl;
          free = free;
          lowest = λ j low high. absurd (omega arith);
        },
      ),
    )
    | inl busy ↦ elim (first_free_cases count (suc n)) [
      | inl (nothing, all_busy) ↦
          inl (rw (busy, first_free) nothing, λ j low high. ground (arith, all_busy j, busy))
      | inr (ip, (found, l)) ↦ inr (
        ip,
        (
          rw (busy, first_free) found,
          record {
            index = l.index;
            at_least = omega (arith, l.at_least);
            below = omega (arith, l.below);
            ip_is = l.ip_is;
            free = l.free;
            lowest = λ j low high. ground (arith, l.lowest j, busy);
          },
        ),
      )
    ]
  ]

lookup-insert_ip :
    (project q ip : Bytes) (m : Map Bytes Bytes)
    → ip_of q (insert project ip m) ≡ (if project == q then ip else ip_of q m)
unfolding ip_of
lookup-insert_ip project q ip m = ground (arith, lookup-insert q project ip m)

-- A project that has an address gets it again, and nothing changes. A project that has none gets
-- the lowest address of the pool that no project holds and that has no listener, and only its own
-- entry of the daemon's state changes; or, if every address of the pool is held or listened on, an
-- error, and nothing changes.
pub allocate_project_ip_lem :
    (pool : Pool) (probe stores : Bytes → Bool) (project : Bytes) (s : Addresses)
    → ((is_nil (ip_of project s.infos) ≡ false)
        × (allocate_project_ip pool probe stores project s ≡ (inr (ip_of project s.infos), s)))
      ⊎ (((is_nil (ip_of project s.infos) ≡ true)
            × ((j : ℕ) → pool.first ≤ j → j ≤ pool.last → is_busy probe s.infos j ≡ true)
            × (allocate_project_ip pool probe stores project s ≡ (inl pool_exhausted, s)))
          ⊎ ((ip : Bytes) × ((is_nil (ip_of project s.infos) ≡ true)
                × IsLowest probe s.infos pool.first (suc pool.last) ip
                × ((allocate_project_ip pool probe stores project s).0 ≡ inr ip)
                × ((q : Bytes)
                    → ip_of q (allocate_project_ip pool probe stores project s).1.infos
                      ≡ (if project == q then ip else ip_of q s.infos)))))
unfolding allocate_project_ip pool_size
allocate_project_ip_lem pool probe stores project s =
    elim (Bool-cases (is_nil (ip_of project s.infos))) [
      | inr has_one ↦ inl (has_one, rw (has_one, allocate_project_ip) refl)
      | inl has_none ↦
          elim (first_free_cases probe s.infos (suc pool.last - pool.first) pool.first) [
            | inl (nothing, all_busy) ↦ inr (
                inl (
                  has_none,
                  λ j low high. all_busy j low (omega arith),
                  rw (has_none, nothing, allocate_project_ip) refl,
                ))
            | inr (ip, (found, l)) ↦ inr (
                inr (
                  ip,
                  (
                    has_none,
                    record {
                      index = l.index;
                      at_least = l.at_least;
                      below = omega (arith, l.below, l.at_least);
                      ip_is = l.ip_is;
                      free = l.free;
                      lowest = l.lowest;
                    },
                    rw (has_none, found, allocate_project_ip) refl,
                    λ q.
                        rw (has_none, found, allocate_project_ip)
                          (lookup-insert_ip project q ip s.infos),
                  ),
                ))
          ]
    ]
