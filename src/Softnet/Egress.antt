-- ===== src/Softnet/Egress.antt =====
-- internal/softnet/egress.go and contract.go: where an outbound flow of the guest is sent. The
-- copying of bytes between the two connections and the TCP options are gvisor's and Go's.
use devm.Base.{
  ℕ, Bool, true, false, ◌&&◌, not, Option, none, some, List, [], ◌∷◌, ◌++◌, nat_beq, if◌then◌else◌,
  ◌==◌, nat_eq, bool_eq, pair_eq, is_nil, any, Bytes, codes, bytes_eq,
}
use devm.Base.Assoc.{Map}
pub mod Routes
use devm.Base.Decimal.{decimal}

abbrev pub gateway_ip : Bytes
gateway_ip = codes "192.168.127.1"

abbrev pub nat_alias_ip : Bytes
nat_alias_ip = codes "192.168.127.254"

abbrev pub host_loop_ip : Bytes
host_loop_ip = codes "127.0.0.1"

abbrev pub intercepted_test_ip : Bytes
intercepted_test_ip = codes "192.0.2.2"

-- `Policy` is an integer in the source, of which ParsePolicy makes these two.
pub data Policy : Type 0 where
  locked forwarding : Policy

unfoldable pub policy_text : Policy → Bytes
policy_text locked = codes "LOCKED"
policy_text forwarding = codes "FORWARDING"

unfoldable pub parse_policy : Bytes → Option Policy
parse_policy s =
    if s == codes "LOCKED"
    then some locked
    else if s == codes "FORWARDING"
    then some forwarding
    else none

pub record ForwardTargets : Type 0 where
  pub http : Bytes
  pub https : Bytes
  pub dns : Bytes
  pub ntp : Bytes
  pub guest_http : Bytes
  pub guest_https : Bytes
  pub guest_api : Bytes
  pub mac_ports : List ℕ
  pub peer_hairpins : Map Bytes Bytes

-- The state of `egress`, without its lock and its network.
pub record Egress : Type 0 where
  pub pol : Policy
  pub ft : Option ForwardTargets
  pub direct_test : List Bytes

unfoldable pub new_egress : Egress
new_egress = record { pol = locked; ft = none; direct_test = [] }

-- No new targets leave the old ones.
unfoldable pub set_policy : Policy → Option ForwardTargets → Egress → Egress
set_policy p none e = record e { pol = p }
set_policy p (some f) e = record e { pol = p; ft = some f }

unfoldable pub set_direct_test_hosts : List Bytes → Egress → Egress
set_direct_test_hosts hosts e = record e { direct_test = hosts }

abbrev pub lists_port : ℕ → List ℕ → Bool
lists_port dport ports = any (λ p. nat_beq dport p) ports

-- An address that is used if it is set.
abbrev pub if_set : Bytes → Bytes × Bool
if_set addr = (addr, not (is_nil addr))

abbrev pub refuse : Bytes × Bool
refuse = ([], false)

-- The part of `target` behind the boot lock and the allowlist of Mac ports.
route : ForwardTargets → Bytes → ℕ → Bytes × Bool
route f dst dport =
    if dst == intercepted_test_ip
    then if nat_beq dport 80
      then if_set f.guest_http
      else if nat_beq dport 443
      then if_set f.guest_https
      else refuse
    else if dst == gateway_ip && nat_beq dport 81
    then if_set f.guest_api
    else if nat_beq dport 80
    then if_set f.http
    else if nat_beq dport 443
    then if_set f.https
    else refuse

-- Under forwarding, with the allowlist of Mac ports in front.
forwarded : ForwardTargets → Bytes → ℕ → Bytes × Bool
forwarded f dst dport =
    if dst == host_loop_ip && lists_port dport f.mac_ports
    then (host_loop_ip ++ b':' ∷ decimal dport, true)
    else route f dst dport

-- The address behind the NAT alias.
unfoldable pub behind_alias : Bytes → Bytes
behind_alias dst = if dst == nat_alias_ip then host_loop_ip else dst

-- `target`: the address to dial on the host and whether to dial it. With no targets every arm of
-- the source refuses, so the test of `ft` stands once, in front.
unfoldable pub target : Egress → Bytes → ℕ → Bytes × Bool
unfolding forwarded route behind_alias
target e dst_ip dport =
    let dst = behind_alias dst_ip in
    elim (e.pol) [
      | locked ↦ refuse
      | forwarding ↦ elim (e.ft) [ none ↦ refuse | some f ↦ forwarded f dst dport ]
    ]

unfoldable pub udp_target : Egress → Bytes → ℕ → Bytes × Bool
udp_target e dst_ip dport = elim (e.pol) [
  | locked ↦ refuse
  | forwarding ↦ elim (e.ft) [
    | none ↦ refuse
    | some f ↦ if nat_beq dport 123 && not (is_nil f.ntp) then (f.ntp, true) else refuse
  ]
]
