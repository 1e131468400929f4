-- ===== src/Softnet/Dns.antt =====
-- internal/softnet/dns.go: how names of the guest are answered. The name servers
-- are Go's resolver, and the server that holds the zones is gvisor-tap-vsock's: a parameter.
pub mod Upstream
use devm.Base.{
  ℕ, ◌++◌, [], ◌∷◌, Bool-cases, ◌≡◌, refl, ◌⊎◌, inl, inr, Bool, true, false, ◌||◌, not, Option,
  none, some, List, arith, if◌then◌else◌, ◌==◌, nat_eq, bool_eq, pair_eq, is_nil, any, Bytes, codes,
  bytes_eq, has_suffix, trim_suffix,
}
use devm.Base.Decimal.{decimal}
use devm.Softnet.Egress.{
  nat_alias_ip, host_loop_ip, lists_port, intercepted_test_ip, Policy, locked, forwarding,
  ForwardTargets, Egress,
}

unfoldable pub is_test_name : Bytes → Bool
is_test_name name = name == codes "test" || has_suffix name (codes ".test")

unfoldable pub plain_name : Bytes → Bytes
plain_name fqdn = trim_suffix fqdn (codes ".")

unfoldable pub is_direct : Bytes → List Bytes → Bool
is_direct name direct = any (λ d. d == name) direct

-- `testAnswerIP`; `none` falls through to the upstream.
unfoldable pub test_answer_ip : Bytes → List Bytes → Option Bytes
test_answer_ip fqdn direct =
    let name = plain_name fqdn in
    if not (is_test_name name)
    then none
    else if is_direct name direct
    then some host_loop_ip
    else some intercepted_test_ip

unfoldable pub test_answer : Egress → Bytes → Option Bytes
unfolding test_answer_ip
test_answer e fqdn = test_answer_ip fqdn e.direct_test

unfoldable pub upstream_for : Policy → Option ForwardTargets → Option Bytes
upstream_for locked ft = none
upstream_for forwarding none = none
upstream_for forwarding (some f) = if is_nil f.dns then none else some f.dns

-- `LookupIPAddr`: an answer of its own, a question to the upstream, or an error.
pub data Answer : Type 0 where
  address : Bytes → Answer
  ask_upstream : (server name : Bytes) → Answer
  dropped : Answer

unfoldable pub lookup_ip_addr : Egress → Bytes → Answer
unfolding test_answer upstream_for
lookup_ip_addr e host = elim (test_answer e host) [
  | some ip ↦ address ip
  | none ↦ elim (upstream_for e.pol e.ft) [ none ↦ dropped | some addr ↦ ask_upstream addr host ]
]

-- The other lookups (CNAME, MX, NS, SRV, TXT) have no answer of their own.
unfoldable pub lookup_other : Egress → Bytes → Answer
unfolding upstream_for
lookup_other e name = elim (upstream_for e.pol e.ft) [
  | none ↦ dropped
  | some addr ↦ ask_upstream addr name
]

-- What the resolver answers of itself: a .test name, with the loopback if it is a direct host and
-- with the intercepted address if not. The zones of the server come before it.
pub lookup_ip_addr-test :
    (e : Egress) (fqdn : Bytes)
    → lookup_ip_addr e fqdn ≡ (
        if is_test_name (plain_name fqdn)
        then address (
            if is_direct (plain_name fqdn) e.direct_test then host_loop_ip else intercepted_test_ip)
        else lookup_other e fqdn)
unfolding lookup_ip_addr lookup_other
lookup_ip_addr-test e fqdn = ground arith

pub record Zone : Type 0 where
  pub name : Bytes
  pub default_ip : Bytes

unfoldable pub dns_zones : List Zone
dns_zones =
    record { name = codes "devm.test."; default_ip = nat_alias_ip }
    ∷ record { name = codes "host.test."; default_ip = nat_alias_ip }
    ∷ []

-- A name `<name>.` and the zone.
abbrev pub in_zone : Bytes → Zone → Bool
in_zone fqdn z = has_suffix fqdn (b'.' ∷ z.name)

-- A server of gvisor-tap-vsock, by its zones, its resolver and the name of a query.
abbrev pub DnsServer : Type 0
DnsServer = List Zone → (Bytes → Answer) → Bytes → Answer

-- What the source says of it: a name below a zone is answered with that zone's address, by the
-- first such zone; every other name goes to the resolver.
pub record IsZoned (serve : DnsServer) : Type 0 where
  pub local :
      (before after : List Zone) (z : Zone) (up : Bytes → Answer) (fqdn : Bytes)
      → any (in_zone fqdn) before ≡ false
      → in_zone fqdn z ≡ true
      → serve (before ++ z ∷ after) up fqdn ≡ address z.default_ip
  pub upstream :
      (zones : List Zone) (up : Bytes → Answer) (fqdn : Bytes)
      → any (in_zone fqdn) zones ≡ false
      → serve zones up fqdn ≡ up fqdn

-- How the server that `startDNS` makes answers a query for an address.
unfoldable pub start_dns : DnsServer → Egress → Bytes → Answer
start_dns serve e fqdn = serve dns_zones (lookup_ip_addr e) fqdn

pub start_dns-zone :
    (serve : DnsServer) (e : Egress) (fqdn : Bytes)
    → IsZoned serve
    → any (in_zone fqdn) dns_zones ≡ true
    → start_dns serve e fqdn ≡ address nat_alias_ip
unfolding start_dns dns_zones
start_dns-zone serve e fqdn z h =
    let devm_zone : Zone = record { name = codes "devm.test."; default_ip = nat_alias_ip } in
    let host_zone : Zone = record { name = codes "host.test."; default_ip = nat_alias_ip } in
    elim (Bool-cases (in_zone fqdn devm_zone)) [
      | inl first ↦ z.local [] (host_zone ∷ []) devm_zone (lookup_ip_addr e) fqdn refl first
      | inr other ↦
          z.local (devm_zone ∷ []) [] host_zone (lookup_ip_addr e) fqdn (ground arith)
            (ground arith)
    ]

-- What a name of the test domain stands for: the Mac, or the project's own services.
unfoldable pub is_local : Egress → Bytes → Bool
is_local e fqdn = any (in_zone fqdn) dns_zones || is_direct (plain_name fqdn) e.direct_test

abbrev pub IsMacRoute : ForwardTargets → ℕ → Bytes → Type 0
IsMacRoute f dport host =
    ((lists_port dport f.mac_ports ≡ true) × (host ≡ host_loop_ip ++ b':' ∷ decimal dport))
    ⊎ ((lists_port dport f.mac_ports ≡ false)
        × (((dport ≡ 80) × (host ≡ f.http)) ⊎ ((dport ≡ 443) × (host ≡ f.https))))

abbrev pub IsGuestRoute : ForwardTargets → ℕ → Bytes → Type 0
IsGuestRoute f dport host =
    ((dport ≡ 80) × (host ≡ f.guest_http)) ⊎ ((dport ≡ 443) × (host ≡ f.guest_https))
