-- ===== src/Daemon/ProjectIp/Separate.antt =====
-- No two projects have the same address (internal/serviceapi/projectip.go).
use devm.Base.{
  ◌≡◌, ◌≢◌, inl, inr, Bool, false, some, Bool-cases, List, [], ◌∷◌, arith, ◌==◌, is_nil, Bytes,
  bytes_beq_iff, bytes_eq,
}
use devm.Base.Assoc.{Map, lookup, insert, lookup-insert}
use devm.Daemon.ProjectIp.{
  Pool, Addresses, is_held, is_busy, ip_of, allocate_project_ip, release_project_ip, clear_ip,
  pool_size,
}
use devm.Daemon.ProjectIp.Lowest.{first_free_cases}

-- An address belongs to one project; the empty text is no address.
abbrev pub IsSeparate : Map Bytes Bytes → Type 0
IsSeparate infos =
    (p q ip : Bytes)
    → lookup p infos ≡ some ip
    → lookup q infos ≡ some ip
    → is_nil ip ≡ false
    → p ≡ q

-- An address that is not held is no project's.
not_held :
    (ip q : Bytes) (infos : Map Bytes Bytes)
    → is_held ip infos ≡ false
    → is_nil ip ≡ false
    → lookup q infos ≢ some ip
unfolding is_held lookup
not_held ip q [] free named mine = cc mine
not_held ip q ((p, held) ∷ infos) free named mine = elim (Bool-cases (p == q)) [
  | inl same ↦ ground (arith, bytes_beq_iff held ip)
  | inr other ↦ not_held ip q infos (ground arith) named (ground arith)
]

insert-IsSeparate :
    (project ip : Bytes) (infos : Map Bytes Bytes)
    → is_held ip infos ≡ false
    → IsSeparate infos
    → IsSeparate (insert project ip infos)
insert-IsSeparate project ip infos free apart p q shared mine yours named = ground (
  arith,
  lookup-insert p project ip infos,
  lookup-insert q project ip infos,
  apart p q shared,
  not_held ip p infos free,
  not_held ip q infos free,
  bytes_beq_iff project p,
  bytes_beq_iff project q,
)

clear_ip-IsSeparate :
    (project : Bytes) (infos : Map Bytes Bytes)
    → IsSeparate infos
    → IsSeparate (clear_ip project infos)
unfolding clear_ip
clear_ip-IsSeparate project infos apart = elim (Bool-cases (is_nil (ip_of project infos))) [
  | inl has_none ↦ rw (has_none, clear_ip) apart
  | inr has_one ↦
      rw (has_one, clear_ip)
        (λ p q shared mine yours named. ground (
          arith,
          lookup-insert p project [] infos,
          lookup-insert q project [] infos,
          apart p q shared,
        ))
]

allocate-IsSeparate :
    (pool : Pool) (probe stores : Bytes → Bool) (project : Bytes) (s : Addresses)
    → IsSeparate s.infos
    → IsSeparate (allocate_project_ip pool probe stores project s).1.infos
unfolding allocate_project_ip is_busy
allocate-IsSeparate pool probe stores project s apart =
    elim (Bool-cases (is_nil (ip_of project s.infos))) [
      | inr has_one ↦ rw (has_one, allocate_project_ip) apart
      | inl has_none ↦ elim (first_free_cases probe s.infos (pool_size pool) pool.first) [
        | inl (nothing, all_busy) ↦ rw (has_none, nothing, allocate_project_ip) apart
        | inr (ip, (found, l)) ↦
            rw (has_none, found, allocate_project_ip)
              (insert-IsSeparate project ip s.infos (rw (l.ip_is) (ground (arith, l.free))) apart)
      ]
    ]

-- The two operations, with what the operating system says at the time.
pub data Op : Type 0 where
  op_allocate : Pool → (probe stores : Bytes → Bool) → Bytes → Op
  op_release : (stores : Bytes → Bool) → Bytes → Op

unfoldable pub step : Op → Addresses → Addresses
step (op_allocate pool probe stores project) s = (allocate_project_ip pool probe stores project s).1
step (op_release stores project) s = release_project_ip stores project s

unfoldable pub run : List Op → Addresses → Addresses
unfolding step
run [] s = s
run (o ∷ os) s = run os (step o s)

step-IsSeparate : (o : Op) (s : Addresses) → IsSeparate s.infos → IsSeparate (step o s).infos
unfolding step release_project_ip
step-IsSeparate (op_allocate pool probe stores project) s apart =
    allocate-IsSeparate pool probe stores project s apart
step-IsSeparate (op_release stores project) s apart = clear_ip-IsSeparate project s.infos apart

-- In a state in which no two projects have the same address, whatever is allocated and released,
-- in any order and whatever the operating system says, no two projects have the same address.
pub run-IsSeparate :
    (os : List Op) (s : Addresses) → IsSeparate s.infos → IsSeparate (run os s).infos
unfolding run
run-IsSeparate [] s apart = apart
run-IsSeparate (o ∷ os) s apart = run-IsSeparate os (step o s) (step-IsSeparate o s apart)
