-- ===== src/Hairpin/Tests.antt =====
-- A ClientHello and a small graph of peers (internal/serviceapi), with what becomes of a connection.
use devm.Base.{
  none, Option, inr, ◌≡◌, ◌≢◌, refl, Bool, true, some, List, [], arith, ◌∷◌, ◌++◌, Bytes, codes,
  bytes_eq,
}
use devm.Base.Assoc.{Map, lookup, insert, delete}
use devm.Base.Decimal.{decimal}
use devm.Base.Names.{has, insert_name, sorted_set}
use devm.Hairpin.Slice.{
  panicked, out_of_fuel, done, ◌>>=◌, byte_at, slice, uint16_at, uint24_at, need, or_refuse,
}
use devm.Hairpin.Sni.{
  first_host_name, server_name, find_server_name, hello_name, parse_hello, parse_handshake,
  parse_sni,
}
use devm.Hairpin.Sni.Wire.{ClientHello, record_bytes}
use devm.Hairpin.Sni.Round.{parse_sni-record_bytes}
use devm.Hairpin.Sni.Total.{parse_sni_ends}
use devm.Hairpin.Peers.{
  PeersIndex, PeerPorts, new_peers_index, set_at, drop_edge, drop_edges, add_edges, set_peers,
  remove_project, dependents_of, add_backend, backends_from, peer_backends, peer_hairpins_for,
}
use devm.Hairpin.Peers.Inverse.{PeerOp, op_set, op_remove, step, run, declared, run-declared}
use devm.Hairpin.Peers.Services.{
  unknown_peer, validate_peer_services_cross_project, validate_peer_services_cross_project-fault,
}
use devm.Hairpin.Dispatch.{
  closed, alerted, served, spliced, last_label, peer_suffix, peek, peek_record, splice_to,
  dispatch_name, dispatch_sni, dispatch_record, hairpin_dispatch_https,
}
use devm.Hairpin.Dispatch.Declared.{IsDeclaredPeer, hairpin_dispatch_https-IsDeclaredPeer}

abbrev random : Bytes
random = codes "..0123456789abcdef0123456789abcdef"

abbrev hello : Bytes → ClientHello
hello name = record {
  fixed = random;
  session_id = codes "id";
  ciphers = 19 ∷ 1 ∷ [];
  compression = 0 ∷ [];
  others = (43, 2 ∷ 3 ∷ 4 ∷ []) ∷ [];
  name = name;
  rest = 0 ∷ 23 ∷ 0 ∷ 0 ∷ [];
}

abbrev blog : Bytes
blog = codes "blog"

abbrev shop : Bytes
shop = codes "shop"

abbrev ops : List PeerOp
ops = op_set blog (shop ∷ []) ∷ op_set shop (blog ∷ shop ∷ []) ∷ op_remove shop ∷ []

abbrev index : PeersIndex
index = record { peers_of = (blog, shop ∷ []) ∷ []; deps = (shop, blog ∷ []) ∷ [] }

run_index : run ops new_peers_index ≡ index
unfolding run step set_peers remove_project drop_edges drop_edge add_edges set_at insert_name
    sorted_set lookup insert delete
run_index = refl

abbrev ports : Map Bytes PeerPorts
ports = (shop, record { guest_https_port = 443; guest_http_port = 80 }) ∷ []

abbrev always : Bytes → Bool
always p = true

-- The names of its own, of a peer, and of another project; and half a record.
dispatch_names :
    (hairpin_dispatch_https always always
        (codes "test")
        blog
        ports
        index
        (record_bytes (hello (codes "www.blog.test")))
      ≡ served)
    × (hairpin_dispatch_https always always
          (codes "test")
          blog
          ports
          index
          (record_bytes (hello (codes "a.b.shop.test")))
        ≡ spliced (codes "127.0.0.1:443"))
    × (hairpin_dispatch_https always always
          (codes "test")
          blog
          ports
          index
          (record_bytes (hello (codes "else.test")))
        ≡ alerted)
    × (hairpin_dispatch_https always always
          (codes "test")
          blog
          ports
          index
          (22 ∷ 3 ∷ 1 ∷ 0 ∷ 9 ∷ [])
        ≡ closed)
unfolding hairpin_dispatch_https dispatch_record dispatch_sni dispatch_name splice_to peek_record
    peek peer_suffix last_label ◌>>=◌ byte_at slice uint16_at uint24_at need or_refuse
    first_host_name server_name find_server_name hello_name parse_hello parse_handshake parse_sni
    add_backend backends_from peer_backends peer_hairpins_for set_at lookup insert decimal
dispatch_names = (refl, refl, refl, refl)

parse_sni_ends_example :
    (parse_sni (22 ∷ 3 ∷ 1 ∷ 0 ∷ 9 ∷ 1 ∷ []) ≢ panicked)
    × (parse_sni (22 ∷ 3 ∷ 1 ∷ 0 ∷ 9 ∷ 1 ∷ []) ≢ out_of_fuel)
parse_sni_ends_example = parse_sni_ends (22 ∷ 3 ∷ 1 ∷ 0 ∷ 9 ∷ 1 ∷ [])

parse_sni-record_bytes_example :
    parse_sni (record_bytes (hello (codes "a.blog.test")) ++ codes "more")
    ≡ done (codes "a.blog.test")
parse_sni-record_bytes_example =
    parse_sni-record_bytes (hello (codes "a.blog.test")) (codes "more") refl (ground arith, tt)

run-declared_example :
    (has shop (set_at blog (run ops new_peers_index).peers_of) ≡ has shop (declared ops blog []))
    × (has blog (dependents_of shop (run ops new_peers_index)) ≡ has shop (declared ops blog []))
run-declared_example = run-declared ops blog shop

abbrev sent : Bytes
sent = record_bytes (hello (codes "a.b.shop.test"))

hairpin_dispatch_https-IsDeclaredPeer_example :
    (rec : Bytes) × ((peek_record sent ≡ some rec)
      × ((sni : Bytes) × ((parse_sni rec ≡ done sni)
            × IsDeclaredPeer (codes "test") blog ports index sni (codes "127.0.0.1:443"))))
hairpin_dispatch_https-IsDeclaredPeer_example =
    hairpin_dispatch_https-IsDeclaredPeer always always (codes "test") blog ports index sent
      (codes "127.0.0.1:443") (dispatch_names.1)

abbrev declared_peers : List (Option Bytes)
declared_peers = none ∷ some shop ∷ []

validate_peer_services_cross_project-fault_example :
    validate_peer_services_cross_project blog
      (declared_peers ++ some (codes "nobody") ∷ some blog ∷ [])
      (shop ∷ [])
    ≡ some (unknown_peer 2 (codes "nobody"))
validate_peer_services_cross_project-fault_example =
    validate_peer_services_cross_project-fault blog (shop ∷ []) declared_peers (some blog ∷ [])
      (codes "nobody") (tt, (inr (ground arith, refl), tt)) (ground arith) (inr refl)
