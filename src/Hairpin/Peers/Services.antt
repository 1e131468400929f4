-- ===== src/Hairpin/Peers/Services.antt =====
-- What internal/serviceapi/peers.go takes from the declared services of a project, and its check
-- against the projects that the daemon knows. An entry is a pointer, `none` is nil.
use devm.Base.{
  ℕ, suc, ◌+◌, ◌≡◌, ◌≢◌, ap, ◌∙◌, ◌⊎◌, true, false, not, Option, none, some, List, [], ◌∷◌, ◌++◌,
  arith, is_nil, is_nil_iff, length, All, if◌then◌else◌, ◌==◌, Bytes, bytes_eq, bytes_beq_iff,
}
use devm.Base.Int.{ℤ, pos, int_eq}
use devm.Base.Names.{has}

unfoldable pub project_ids_from_peer_services : List (Option Bytes) → List Bytes
project_ids_from_peer_services [] = []
project_ids_from_peer_services (none ∷ ps) = project_ids_from_peer_services ps
project_ids_from_peer_services (some p ∷ ps) =
    let rest = project_ids_from_peer_services ps in if is_nil p then rest else p ∷ rest

unfoldable pub mac_ports_from_services : List (Option ℤ) → List ℤ
mac_ports_from_services [] = []
mac_ports_from_services (none ∷ ms) = mac_ports_from_services ms
mac_ports_from_services (some port ∷ ms) =
    let rest = mac_ports_from_services ms in if port == pos 0 then rest else port ∷ rest

-- The index of the entry that is at fault, and its project.
pub data PeerError : Type 0 where
  self_peer unknown_peer : (index : ℕ) → (project : Bytes) → PeerError

unfoldable pub check_peers_from :
    (self : Bytes) → (known : List Bytes) → ℕ → List (Option Bytes) → Option PeerError
check_peers_from self known i [] = none
check_peers_from self known i (none ∷ ps) = check_peers_from self known (suc i) ps
check_peers_from self known i (some p ∷ ps) =
    let rest = check_peers_from self known (suc i) ps in
    if is_nil p
    then rest
    else if p == self
    then some (self_peer i p)
    else if not (has p known)
    then some (unknown_peer i p)
    else rest

-- `validatePeerServicesCrossProject`; the project itself is added to the known ones.
unfoldable pub validate_peer_services_cross_project :
    Bytes → List (Option Bytes) → List Bytes → Option PeerError
unfolding check_peers_from
validate_peer_services_cross_project self ps known = check_peers_from self (self ∷ known) 0 ps

module _ (self : Bytes) (known : List Bytes) where
  -- An entry that is left out, or names another project that is known.
  abbrev pub IsFine : Option Bytes → Type 0
  IsFine none = Unit
  IsFine (some p) = (p ≡ []) ⊎ ((p ≢ self) × (has p known ≡ true))

  abbrev pub fault : ℕ → Bytes → PeerError
  fault i p = if p == self then self_peer i p else unknown_peer i p

  check_peers_from-fault :
      (good rest : List (Option Bytes)) (p : Bytes) (i : ℕ)
      → All IsFine good
      → p ≢ []
      → (p ≡ self) ⊎ (has p known ≡ false)
      → check_peers_from self (self ∷ known) i (good ++ some p ∷ rest)
        ≡ some (fault (i + length good) p)
  unfolding check_peers_from
  check_peers_from-fault [] rest p i fine there bad =
      let first : check_peers_from self (self ∷ known) i (some p ∷ rest) ≡ some (fault i p) =
        ground (arith, is_nil_iff p, bytes_beq_iff p self, bytes_beq_iff self p) in
      first ∙ ap (λ n. some (fault n p)) (omega arith)
  check_peers_from-fault (none ∷ good) rest p i fine there bad =
      check_peers_from-fault good rest p (suc i) fine.1 there bad
      ∙ ap (λ n. some (fault n p)) (omega arith)
  check_peers_from-fault (some q ∷ good) rest p i fine there bad =
      let left = good ++ some p ∷ rest in
      let passed : check_peers_from self (self ∷ known) i (some q ∷ left)
          ≡ check_peers_from self (self ∷ known) (suc i) left =
        let f = fine.0 in
        ground (arith, is_nil_iff q, bytes_beq_iff q self, bytes_beq_iff self q) in
      passed
      ∙ check_peers_from-fault good rest p (suc i) fine.1 there bad
      ∙ ap (λ n. some (fault n p)) (omega arith)

  -- Behind entries that are left out or name other known projects, an entry that names the project
  -- itself or a project that is not known is reported with its index, as a self-peer if the name is
  -- the project's own, as an unknown peer otherwise, whatever follows.
  pub validate_peer_services_cross_project-fault :
      (good rest : List (Option Bytes)) (p : Bytes)
      → All IsFine good
      → p ≢ []
      → (p ≡ self) ⊎ (has p known ≡ false)
      → validate_peer_services_cross_project self (good ++ some p ∷ rest) known
        ≡ some (fault (length good) p)
  unfolding validate_peer_services_cross_project
  validate_peer_services_cross_project-fault good rest p fine there bad =
      check_peers_from-fault good rest p 0 fine there bad ∙ ap (λ n. some (fault n p)) (omega arith)
