-- ===== src/Hairpin/Dispatch/Declared.antt =====
-- Where `hairpinDispatchHTTPS` (internal/serviceapi/hairpin_sni.go) sends a guest's connection.
use devm.Base.{
  ◌≡◌, ◌≢◌, refl, Bool, true, false, Option, none, some, ◌++◌, arith, is_nil, nat_beq, Bytes, codes,
  bytes_eq,
}
use mathlib.Core.Path.{subst}
use devm.Base.Assoc.{Map, lookup}
use devm.Base.Decimal.{decimal}
use devm.Base.Names.{has}
use devm.Hairpin.Slice.{Outcome, panicked, out_of_fuel, refused, done}
use devm.Hairpin.Sni.{parse_sni}
use devm.Hairpin.Sni.Total.{parse_sni_ends}
use devm.Hairpin.Peers.{PeersIndex, PeerPorts, zone, set_at, peer_hairpins_for}
use devm.Hairpin.Peers.Backends.{peer_backends-IsBackend}
use devm.Hairpin.Dispatch.{
  crashed, spliced, peek_record, is_own, peer_suffix, splice_to, dispatch_name, dispatch_sni,
  dispatch_record, hairpin_dispatch_https,
}
use devm.Hairpin.Dispatch.Suffix.{IsBelow, peer_suffix-IsBelow}

module _ (tld project : Bytes) (infos : Map Bytes PeerPorts) (x : PeersIndex) where
  -- The name of the connection is in the zone of a declared peer with a bound listener, which is at the
  -- address, and not in the project's own zone.
  pub record IsDeclaredPeer (sni address : Bytes) : Type 0 where
    pub peer : Bytes
    pub ports : PeerPorts
    pub declared : has peer (set_at project x.peers_of) ≡ true
    pub below : IsBelow sni (zone peer tld)
    pub foreign : is_own sni (zone project tld) ≡ false
    pub registered : lookup peer infos ≡ some ports
    pub bound : nat_beq ports.guest_https_port 0 ≡ false
    pub at : address ≡ codes "127.0.0.1:" ++ decimal ports.guest_https_port

module _ (dial write : Bytes → Bool) (tld project : Bytes) (infos : Map Bytes PeerPorts)
    (x : PeersIndex) where
  splice_to-spliced :
      (o : Option Bytes) (address : Bytes)
      → splice_to dial write o ≡ spliced address
      → o ≡ some address
  unfolding splice_to
  splice_to-spliced none address h = ground arith
  splice_to-spliced (some peer) address h = ground arith

  dispatch_name-tests :
      (hairpins : Map Bytes Bytes) (sni address : Bytes)
      → dispatch_name dial write tld project hairpins sni ≡ spliced address
      → (is_own sni (zone project tld) ≡ false)
        × (is_nil (peer_suffix sni tld) ≡ false)
        × (splice_to dial write (lookup (peer_suffix sni tld) hairpins) ≡ spliced address)
  unfolding dispatch_name
  dispatch_name-tests hairpins sni address h = ground arith

  dispatch_name-spliced :
      (sni address : Bytes)
      → dispatch_name dial write tld project (peer_hairpins_for project infos tld x) sni
        ≡ spliced address
      → IsDeclaredPeer tld project infos x sni address
  unfolding peer_hairpins_for
  dispatch_name-spliced sni address h =
      let tests = dispatch_name-tests (peer_hairpins_for project infos tld x) sni address h in
      let found =
        splice_to-spliced (lookup (peer_suffix sni tld) (peer_hairpins_for project infos tld x))
          address tests.2 in
      let b =
        peer_backends-IsBackend (λ i. i.guest_https_port) infos tld project x (peer_suffix sni tld)
          address found in
      record {
        peer = b.peer;
        ports = b.ports;
        declared = b.listed;
        below = subst (IsBelow sni) b.named (peer_suffix-IsBelow sni tld tests.1);
        foreign = tests.0;
        registered = b.registered;
        bound = b.bound;
        at = b.at;
      }

  abbrev hairpins : Map Bytes Bytes
  hairpins = peer_hairpins_for project infos tld x

  dispatch_sni-spliced :
      (o : Outcome Bytes) (address : Bytes)
      → dispatch_sni dial write tld project hairpins o ≡ spliced address
      → (sni : Bytes) × ((o ≡ done sni) × IsDeclaredPeer tld project infos x sni address)
  unfolding dispatch_sni
  dispatch_sni-spliced panicked address h = ground arith
  dispatch_sni-spliced out_of_fuel address h = ground arith
  dispatch_sni-spliced (refused r) address h = ground arith
  dispatch_sni-spliced (done sni) address h = (sni, (refl, dispatch_name-spliced sni address h))

  dispatch_record-spliced :
      (o : Option Bytes) (address : Bytes)
      → dispatch_record dial write tld project hairpins o ≡ spliced address
      → (rec : Bytes) × ((o ≡ some rec)
          × ((sni : Bytes) × ((parse_sni rec ≡ done sni)
                × IsDeclaredPeer tld project infos x sni address)))
  unfolding dispatch_record
  dispatch_record-spliced none address h = ground arith
  dispatch_record-spliced (some rec) address h =
      (rec, (refl, dispatch_sni-spliced (parse_sni rec) address h))

  -- A connection is spliced to an address only if the first record that the client sends is a
  -- ClientHello with a name outside of the project's own zone, which is the zone of a peer that the
  -- project declares, or below it, and the address is that of this peer's bound listener.
  pub hairpin_dispatch_https-IsDeclaredPeer :
      (sent address : Bytes)
      → hairpin_dispatch_https dial write tld project infos x sent ≡ spliced address
      → (rec : Bytes) × ((peek_record sent ≡ some rec)
          × ((sni : Bytes) × ((parse_sni rec ≡ done sni)
                × IsDeclaredPeer tld project infos x sni address)))
  unfolding hairpin_dispatch_https
  hairpin_dispatch_https-IsDeclaredPeer sent address h =
      dispatch_record-spliced (peek_record sent) address h

  splice_to-crashed : (o : Option Bytes) → splice_to dial write o ≢ crashed
  unfolding splice_to
  splice_to-crashed none = ground arith
  splice_to-crashed (some peer) = ground arith

  dispatch_name-crashed :
      (sni : Bytes) → dispatch_name dial write tld project hairpins sni ≢ crashed
  unfolding dispatch_name
  dispatch_name-crashed sni =
      ground (arith, splice_to-crashed (lookup (peer_suffix sni tld) hairpins))

  dispatch_sni-crashed :
      (o : Outcome Bytes)
      → (o ≢ panicked) × (o ≢ out_of_fuel)
      → dispatch_sni dial write tld project hairpins o ≢ crashed
  unfolding dispatch_sni
  dispatch_sni-crashed panicked n = ground arith
  dispatch_sni-crashed out_of_fuel n = ground arith
  dispatch_sni-crashed (refused e) n = ground arith
  dispatch_sni-crashed (done sni) n = dispatch_name-crashed sni

  dispatch_record-crashed :
      (o : Option Bytes) → dispatch_record dial write tld project hairpins o ≢ crashed
  unfolding dispatch_record
  dispatch_record-crashed none = ground arith
  dispatch_record-crashed (some rec) = dispatch_sni-crashed (parse_sni rec) (parse_sni_ends rec)

  -- No bytes of a client make the dispatch panic.
  pub hairpin_dispatch_https-crashed :
      (sent : Bytes) → hairpin_dispatch_https dial write tld project infos x sent ≢ crashed
  unfolding hairpin_dispatch_https
  hairpin_dispatch_https-crashed sent = dispatch_record-crashed (peek_record sent)
