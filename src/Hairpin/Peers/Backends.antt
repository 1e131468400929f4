-- ===== src/Hairpin/Peers/Backends.antt =====
-- The addresses that internal/serviceapi/peers.go gives out for a project.
use devm.Base.{
  ℕ, ◌≡◌, refl, sym, ap, ◌∙◌, ◌⊎◌, inl, inr, true, false, some, Option-cases, List, [], ◌∷◌, ◌++◌,
  arith, nat_beq, if◌then◌else◌, ◌==◌, Bool-cases, Bytes, codes, bytes_eq, bytes_beq_iff,
}
use devm.Base.Assoc.{Map, lookup, insert, lookup-insert}
use devm.Base.Decimal.{decimal}
use devm.Base.Names.{has}
use devm.Hairpin.Peers.{
  PeersIndex, PeerPorts, zone, set_at, add_backend, backends_from, peer_backends,
}

module _ (port_of : PeerPorts → ℕ) (infos : Map Bytes PeerPorts) (tld : Bytes) where
  -- An address is that of a peer in the list, whose listener is bound.
  pub record IsBackend (peers : List Bytes) (key address : Bytes) : Type 0 where
    pub peer : Bytes
    pub ports : PeerPorts
    pub listed : has peer peers ≡ true
    pub named : key ≡ zone peer tld
    pub registered : lookup peer infos ≡ some ports
    pub bound : nat_beq (port_of ports) 0 ≡ false
    pub at : address ≡ codes "127.0.0.1:" ++ decimal (port_of ports)

  one_more :
      (q : Bytes) (peers : List Bytes) (key address : Bytes)
      → IsBackend peers key address
      → IsBackend (q ∷ peers) key address
  one_more q peers key address b = record {
    peer = b.peer;
    ports = b.ports;
    listed = ground (arith, b.listed);
    named = b.named;
    registered = b.registered;
    bound = b.bound;
    at = b.at;
  }

  inserted :
      (peer : Bytes) (peers : List Bytes) (out : Map Bytes Bytes) (key address : Bytes)
      (info : PeerPorts)
      → lookup peer infos ≡ some info
      → nat_beq (port_of info) 0 ≡ false
      → (if zone peer tld == key
          then some (codes "127.0.0.1:" ++ decimal (port_of info))
          else lookup key out)
        ≡ some address
      → (lookup key out ≡ some address) ⊎ IsBackend (peer ∷ peers) key address
  inserted peer peers out key address info there bound found =
      elim (Bool-cases (zone peer tld == key)) [
        | inl same ↦ inr (record {
          peer = peer;
          ports = info;
          listed = ground (arith, bytes_beq_iff peer peer);
          named = ground (arith, bytes_beq_iff (zone peer tld) key);
          registered = there;
          bound = bound;
          at = ground arith;
        })
        | inr other ↦ inl (ground arith)
      ]

  skipped :
      (peer key address : Bytes) (out : Map Bytes Bytes)
      → add_backend port_of infos tld peer out ≡ out
      → lookup key (add_backend port_of infos tld peer out) ≡ some address
      → lookup key out ≡ some address
  skipped peer key address out same found = ap (λ m. lookup key m) (sym same) ∙ found

  add_backend-IsBackend :
      (peer : Bytes) (peers : List Bytes) (out : Map Bytes Bytes) (key address : Bytes)
      → lookup key (add_backend port_of infos tld peer out) ≡ some address
      → (lookup key out ≡ some address) ⊎ IsBackend (peer ∷ peers) key address
  unfolding add_backend
  add_backend-IsBackend peer peers out key address found = elim (Option-cases (lookup peer infos)) [
    | inl absent ↦ inl (skipped peer key address out (rw (absent, add_backend) refl) found)
    | inr (info, there) ↦ elim (Bool-cases (nat_beq (port_of info) 0)) [
      | inl unbound ↦
          inl (skipped peer key address out (rw (there, add_backend, unbound) refl) found)
      | inr bound ↦
          let at = codes "127.0.0.1:" ++ decimal (port_of info) in
          let added : add_backend port_of infos tld peer out ≡ insert (zone peer tld) at out =
            rw (there, add_backend, bound) refl in
          let now = ap (λ m. lookup key m) (sym added) ∙ found in
          inserted peer peers out key address info there bound
            (sym (lookup-insert key (zone peer tld) at out) ∙ now)
    ]
  ]

  backends_from-IsBackend :
      (peers : List Bytes) (out : Map Bytes Bytes) (key address : Bytes)
      → lookup key (backends_from port_of infos tld peers out) ≡ some address
      → (lookup key out ≡ some address) ⊎ IsBackend peers key address
  unfolding backends_from
  backends_from-IsBackend [] out key address found = inl found
  backends_from-IsBackend (peer ∷ peers) out key address found =
      elim (backends_from-IsBackend peers (add_backend port_of infos tld peer out) key address
        found) [
          | inl before ↦ add_backend-IsBackend peer peers out key address before
          | inr b ↦ inr (one_more peer peers key address b)
        ]

  -- What is handed out for a project is handed out for a peer that it declares.
  pub peer_backends-IsBackend :
      (project : Bytes) (x : PeersIndex) (key address : Bytes)
      → lookup key (peer_backends project infos tld port_of x) ≡ some address
      → IsBackend (set_at project x.peers_of) key address
  unfolding peer_backends lookup
  peer_backends-IsBackend project x key address found =
      elim (backends_from-IsBackend (set_at project x.peers_of) [] key address found) [
        | inl before ↦ ground arith
        | inr b ↦ b
      ]
