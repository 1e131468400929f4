-- ===== src/Daemon/Tests.antt =====
-- Endpoints and addresses of concrete projects, and the theorems about them at concrete inputs.
use devm.Base.{
  ℕ, suc, ◌≡◌, ◌≤◌, refl, ◌↔◌, ◌⊎◌, inl, inr, Bool, true, false, none, some, List, [], ◌∷◌,
  if◌then◌else◌, ◌==◌, All, is_nil, Bytes, codes, bytes_eq,
}
use devm.Base.Decimal.{decimal}
use devm.Base.Assoc.{lookup, insert, IsUnique}
use devm.Base.Checks.{◌or_else◌, reject_if, each}
use devm.Base.Names.{has}
use devm.Daemon.Ports.{
  PortClaims, in_use_by, check_key, release, claim_all, reconcile, IsOpen, without, reconcile_lem,
}
use devm.Daemon.ProjectIp.{
  Pool, Addresses, pool_exhausted, pool_ip, ip_of, is_held, is_busy, first_free, pool_size, mirror,
  allocate_project_ip, clear_ip, release_project_ip,
}
use devm.Daemon.ProjectIp.Lowest.{IsLowest, allocate_project_ip_lem}
use devm.Daemon.ProjectIp.Separate.{
  IsSeparate, Op, op_allocate, op_release, step, run, run-IsSeparate,
}

-- One line that opens the code of both tables.
tables : Unit {0}
unfolding decimal lookup insert ◌or_else◌ reject_if each check_key release claim_all reconcile
    pool_ip ip_of is_held is_busy first_free pool_size mirror allocate_project_ip clear_ip
    release_project_ip step run
tables = tt

abbrev claimed : PortClaims
claimed = (codes "127.42.0.10:22", codes "shop") ∷ (codes "127.42.0.11:22", codes "blog") ∷ []

abbrev wanted : List Bytes
wanted = codes "127.42.0.10:8080" ∷ []

reconcile_tests :
    (reconcile (codes "shop") wanted claimed ≡ (
      none,
      (codes "127.42.0.11:22", codes "blog") ∷ (codes "127.42.0.10:8080", codes "shop") ∷ [],
    ))
    × (reconcile (codes "shop") (codes "127.42.0.11:22" ∷ []) claimed
        ≡ (some (in_use_by (codes "127.42.0.11:22") (codes "blog")), claimed))
unfolding tables
reconcile_tests = (refl, refl)

claimed-IsUnique : IsUnique claimed
unfolding tables
claimed-IsUnique = (refl, (refl, tt))

reconcile_lem_example :
    (((reconcile (codes "shop") wanted claimed).0 ≡ none)
      ↔ All (IsOpen (codes "shop") claimed) wanted)
    × ((key : Bytes)
        → lookup key (reconcile (codes "shop") wanted claimed).1
          ≡ (elim ((reconcile (codes "shop") wanted claimed).0) [
            | some e ↦ lookup key claimed
            | none ↦
                if has key wanted
                then some (codes "shop")
                else without (codes "shop") (lookup key claimed)
          ]))
    × IsUnique (reconcile (codes "shop") wanted claimed).1
reconcile_lem_example = reconcile_lem (codes "shop") wanted claimed claimed-IsUnique

abbrev pool : Pool
pool = record { first = 10; last = 12 }

-- Somebody else listens on the first address.
abbrev taken : Bytes → Bool
taken ip = ip == codes "127.42.0.10"

abbrev stored : Bytes → Bool
stored project = true

abbrev fresh : Addresses
fresh = record { infos = []; snapshots = (codes "shop", codes "") ∷ [] }

abbrev asked : List Op
asked =
    op_allocate pool taken stored (codes "shop")
    ∷ op_allocate pool taken stored (codes "blog")
    ∷ op_release stored (codes "shop")
    ∷ op_allocate pool taken stored (codes "diary")
    ∷ []

asked_tests :
    (run asked fresh ≡ record {
      infos =
          (codes "shop", codes "")
          ∷ (codes "blog", codes "127.42.0.12")
          ∷ (codes "diary", codes "127.42.0.11")
          ∷ [];
      snapshots = (codes "shop", codes "") ∷ [];
    })
    × ((allocate_project_ip pool taken stored (codes "shop") (run asked fresh)).0
        ≡ inl pool_exhausted)
unfolding tables
asked_tests = (refl, refl)

fresh-IsSeparate : IsSeparate fresh.infos
unfolding tables
fresh-IsSeparate p q ip mine yours named = absurd (cc mine)

run-IsSeparate_example : IsSeparate (run asked fresh).infos
run-IsSeparate_example = run-IsSeparate asked fresh fresh-IsSeparate

allocate_project_ip_lem_example :
    ((is_nil (ip_of (codes "shop") fresh.infos) ≡ false)
      × (allocate_project_ip pool taken stored (codes "shop") fresh
          ≡ (inr (ip_of (codes "shop") fresh.infos), fresh)))
    ⊎ (((is_nil (ip_of (codes "shop") fresh.infos) ≡ true)
          × ((j : ℕ) → 10 ≤ j → j ≤ 12 → is_busy taken fresh.infos j ≡ true)
          × (allocate_project_ip pool taken stored (codes "shop") fresh
              ≡ (inl pool_exhausted, fresh)))
        ⊎ ((ip : Bytes) × ((is_nil (ip_of (codes "shop") fresh.infos) ≡ true)
              × IsLowest taken fresh.infos 10 (suc 12) ip
              × ((allocate_project_ip pool taken stored (codes "shop") fresh).0 ≡ inr ip)
              × ((q : Bytes)
                  → ip_of q (allocate_project_ip pool taken stored (codes "shop") fresh).1.infos
                    ≡ (if codes "shop" == q then ip else ip_of q fresh.infos)))))
allocate_project_ip_lem_example = allocate_project_ip_lem pool taken stored (codes "shop") fresh
