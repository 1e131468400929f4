-- ===== src/Hairpin/Peers.antt =====
-- internal/serviceapi/peers.go: which project has declared which other one as its peer, in both
-- directions, and where the listeners of the declared peers are. A set is a sorted list.
use devm.Base.{
  ℕ, not, none, some, List, [], ◌∷◌, ◌++◌, nat_beq, is_nil, keep, if◌then◌else◌, ◌==◌, Bytes, codes,
  bytes_eq,
}
use devm.Base.Assoc.{Map, lookup, insert, delete}
use devm.Base.Decimal.{decimal}
use devm.Base.Names.{insert_name, sorted_set}
pub mod Inverse
pub mod Backends
pub mod Services

pub record PeersIndex : Type 0 where
  pub peers_of : Map Bytes (List Bytes)
  pub deps : Map Bytes (List Bytes)

abbrev pub new_peers_index : PeersIndex
new_peers_index = record { peers_of = []; deps = [] }

-- The set under a key; a missing key has the empty one.
unfoldable pub set_at : Bytes → Map Bytes (List Bytes) → List Bytes
set_at k m = elim (lookup k m) [ none ↦ [] | some s ↦ s ]

-- One old edge is taken out of `deps`, which keeps no empty set.
unfoldable pub drop_edge : (project peer : Bytes) → Map Bytes (List Bytes) → Map Bytes (List Bytes)
drop_edge project peer deps = elim (lookup peer deps) [
  | none ↦ deps
  | some d ↦
      let left = keep (λ q. not (q == project)) d in
      if is_nil left then delete peer deps else insert peer left deps
]

unfoldable pub drop_edges : Bytes → List Bytes → Map Bytes (List Bytes) → Map Bytes (List Bytes)
unfolding drop_edge
drop_edges project [] deps = deps
drop_edges project (peer ∷ peers) deps = drop_edges project peers (drop_edge project peer deps)

unfoldable pub add_edges : Bytes → List Bytes → Map Bytes (List Bytes) → Map Bytes (List Bytes)
unfolding set_at
add_edges project [] deps = deps
add_edges project (peer ∷ peers) deps =
    add_edges project peers (insert peer (insert_name project (set_at peer deps)) deps)

unfoldable pub set_peers : Bytes → List Bytes → PeersIndex → PeersIndex
unfolding drop_edges add_edges
set_peers project peers x =
    let set = sorted_set peers in
    let rest = drop_edges project (set_at project x.peers_of) x.deps in
    record { peers_of = insert project set x.peers_of; deps = add_edges project set rest }

-- `remove`: the edges that lead to the project stay.
unfoldable pub remove_project : Bytes → PeersIndex → PeersIndex
unfolding drop_edges
remove_project project x = record {
  peers_of = delete project x.peers_of;
  deps = drop_edges project (set_at project x.peers_of) x.deps;
}

unfoldable pub dependents_of : Bytes → PeersIndex → List Bytes
unfolding set_at
dependents_of peer x = set_at peer x.deps

-- The two listeners of `projectInfo` that a peer may be sent to; 0 is none.
pub record PeerPorts : Type 0 where
  pub guest_https_port : ℕ
  pub guest_http_port : ℕ

abbrev pub zone : (project tld : Bytes) → Bytes
zone project tld = project ++ (codes "." ++ tld)

-- The entry of one peer, if its listener is bound.
unfoldable pub add_backend :
    (PeerPorts → ℕ) → Map Bytes PeerPorts → Bytes → Bytes → Map Bytes Bytes → Map Bytes Bytes
add_backend port_of infos tld peer out = elim (lookup peer infos) [
  | none ↦ out
  | some info ↦
      if nat_beq (port_of info) 0
      then out
      else insert (zone peer tld) (codes "127.0.0.1:" ++ decimal (port_of info)) out
]

unfoldable pub backends_from :
    (PeerPorts → ℕ) → Map Bytes PeerPorts → Bytes → List Bytes → Map Bytes Bytes → Map Bytes Bytes
unfolding add_backend
backends_from port_of infos tld [] out = out
backends_from port_of infos tld (peer ∷ peers) out =
    backends_from port_of infos tld peers (add_backend port_of infos tld peer out)

unfoldable pub peer_backends :
    Bytes → Map Bytes PeerPorts → Bytes → (PeerPorts → ℕ) → PeersIndex → Map Bytes Bytes
unfolding backends_from
peer_backends project infos tld port_of x =
    backends_from port_of infos tld (set_at project x.peers_of) []

unfoldable pub peer_hairpins_for :
    Bytes → Map Bytes PeerPorts → Bytes → PeersIndex → Map Bytes Bytes
unfolding peer_backends
peer_hairpins_for project infos tld x = peer_backends project infos tld (λ i. i.guest_https_port) x

unfoldable pub peer_hairpins_http_for :
    Bytes → Map Bytes PeerPorts → Bytes → PeersIndex → Map Bytes Bytes
unfolding peer_backends
peer_hairpins_http_for project infos tld x =
    peer_backends project infos tld (λ i. i.guest_http_port) x
