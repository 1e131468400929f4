-- ===== src/Daemon/Ports.antt =====
-- internal/serviceapi/portclaims.go: which project owns each host endpoint, "bindIP:hostPort".
use devm.Base.{
  ◌≡◌, refl, ◌↔◌, inl, inr, not, Option, none, some, Option-cases, Bool-cases, List, [], ◌∷◌, arith,
  if◌then◌else◌, ◌==◌, All, Bytes, bytes_beq_iff, bytes_eq,
}
use devm.Base.Assoc.{Map, lookup, insert, lookup-insert, IsUnique, insert-IsUnique}
use devm.Base.Checks.{each, each_iff, reject_if}
use devm.Base.Names.{has}

-- Endpoint and owner.
abbrev pub PortClaims : Type 0
PortClaims = Map Bytes Bytes

pub data ClaimError : Type 0 where
  in_use_by : Bytes → Bytes → ClaimError

unfoldable pub check_key : Bytes → PortClaims → Bytes → Option ClaimError
check_key project c key = elim (lookup key c) [
  | none ↦ none
  | some o ↦ reject_if (not (o == project)) (in_use_by key o)
]

unfoldable pub release : Bytes → PortClaims → PortClaims
release project [] = []
release project ((key, o) ∷ c) =
    let rest = release project c in if o == project then rest else (key, o) ∷ rest

unfoldable pub claim_all : Bytes → List Bytes → PortClaims → PortClaims
claim_all project [] c = c
claim_all project (key ∷ keys) c = claim_all project keys (insert key project c)

-- The error, if any, and the claims behind it.
unfoldable pub reconcile : Bytes → List Bytes → PortClaims → Option ClaimError × PortClaims
reconcile project keys c = elim (each (check_key project c) keys) [
  | some e ↦ (some e, c)
  | none ↦ (none, claim_all project keys (release project c))
]

-- Nobody or the project itself owns the endpoint.
abbrev pub IsOpen : Bytes → PortClaims → Bytes → Type 0
IsOpen project c key = (o : Bytes) → lookup key c ≡ some o → o ≡ project

check_key_iff :
    (project : Bytes) (c : PortClaims) (key : Bytes)
    → (check_key project c key ≡ none) ↔ IsOpen project c key
unfolding check_key reject_if
check_key_iff project c key = elim (Option-cases (lookup key c)) [
  | inl missing ↦ (λ e o own. absurd (ground arith), λ free. rw (missing, check_key) refl)
  | inr (old, found) ↦ (
    λ e o own. ground (arith, bytes_beq_iff old project),
    λ free. ground (arith, free old found, bytes_beq_iff old project),
  )
]

lookup-claim_all :
    (project key : Bytes) (keys : List Bytes) (c : PortClaims)
    → lookup key (claim_all project keys c) ≡ (if has key keys then some project else lookup key c)
unfolding claim_all
lookup-claim_all project key [] c = refl
lookup-claim_all project key (k ∷ keys) c =
    rw (lookup-claim_all project key keys (insert k project c), lookup-insert key k project c)
      (ground arith)

claim_all-IsUnique :
    (project : Bytes) (keys : List Bytes) (c : PortClaims)
    → IsUnique c
    → IsUnique (claim_all project keys c)
unfolding claim_all
claim_all-IsUnique project [] c u = u
claim_all-IsUnique project (k ∷ keys) c u =
    claim_all-IsUnique project keys (insert k project c) (insert-IsUnique k project c u)

-- The owner, unless it is the project.
abbrev pub without : Bytes → Option Bytes → Option Bytes
without project none = none
without project (some o) = if o == project then none else some o

pub lookup-release :
    (project key : Bytes) (c : PortClaims)
    → IsUnique c
    → lookup key (release project c) ≡ without project (lookup key c)
unfolding release lookup
lookup-release project key [] u = refl
lookup-release project key ((k, o) ∷ c) (new, u) =
    ground (arith, lookup-release project key c u, bytes_beq_iff k key, bytes_beq_iff o project)

release-IsUnique : (project : Bytes) (c : PortClaims) → IsUnique c → IsUnique (release project c)
unfolding release lookup
release-IsUnique project [] u = u
release-IsUnique project ((k, o) ∷ c) (new, u) =
    let rest = release-IsUnique project c u in
    elim (Bool-cases (o == project)) [
      | inl mine ↦ rw (mine, release) rest
      | inr other ↦ rw (other, release) (ground (arith, lookup-release project k c u), rest)
    ]

-- With one owner for each endpoint, a set of endpoints is granted exactly when nobody else owns
-- one of them. Then the project owns these and no others, and the other projects own what they
-- owned; if it is not granted, nothing changes. Each endpoint still has one owner.
pub reconcile_lem :
    (project : Bytes) (keys : List Bytes) (c : PortClaims)
    → IsUnique c
    → (((reconcile project keys c).0 ≡ none) ↔ All (IsOpen project c) keys)
      × ((key : Bytes)
          → lookup key (reconcile project keys c).1 ≡ (elim ((reconcile project keys c).0) [
            | some e ↦ lookup key c
            | none ↦ if has key keys then some project else without project (lookup key c)
          ]))
      × IsUnique (reconcile project keys c).1
unfolding reconcile
reconcile_lem project keys c u =
    let open_iff =
      each_iff (IsOpen project c) (check_key project c) (check_key_iff project c) keys in
    elim (Option-cases (each (check_key project c) keys)) [
      | inr (e, refused) ↦
          rw (refused, reconcile)
            (
              (λ granted. absurd (cc granted), λ free. absurd (cc (refused, open_iff.1 free))),
              λ key. refl,
              u,
            )
      | inl granted ↦
          rw (granted, reconcile)
            (
              (λ e. open_iff.0 granted, λ free. refl),
              λ key.
                  rw
                    (
                      lookup-claim_all project key keys (release project c),
                      lookup-release project key c u,
                    )
                    refl,
              claim_all-IsUnique project keys (release project c) (release-IsUnique project c u),
            )
    ]
