-- ===== src/Softnet/Dns/Upstream.antt =====
-- Which queries leave softnet for the name server of the daemon (internal/softnet/dns.go).
use devm.Base.{
  ◌≡◌, refl, sym, ◌∙◌, ◌≢◌, ◌↔◌, inl, inr, true, false, none, some, ◌∷◌, [], arith, nat_eq, bool_eq,
  pair_eq, Bool-cases, Option, Option-cases, any, is_nil, Bytes, bytes_eq,
}
use mathlib.Core.Option.{some-injective}
use devm.Softnet.Egress.{Policy, locked, forwarding, ForwardTargets, Egress}
use devm.Softnet.Dns.{
  upstream_for, ask_upstream, is_test_name, plain_name, lookup_ip_addr, lookup_other,
  lookup_ip_addr-test, in_zone, dns_zones, DnsServer, IsZoned, start_dns, start_dns-zone,
}

-- A name server is set and softnet forwards.
abbrev pub IsUpstream : Egress → Bytes → Type 0
IsUpstream e server =
    (e.pol ≡ forwarding)
    × ((f : ForwardTargets) × (e.ft ≡ some f) × (f.dns ≡ server) × (server ≢ []))

is_nil_iff : (s : Bytes) → (is_nil s ≡ true) ↔ (s ≡ [])
is_nil_iff [] = (λ e. refl, λ e. refl)
is_nil_iff (c ∷ s) = (λ e. absurd (cc e), λ e. absurd (cc e))

upstream_for_iff :
    (p : Policy) (ft : Option ForwardTargets) (server : Bytes)
    → (upstream_for p ft ≡ some server) ↔ (
        (p ≡ forwarding)
        × ((f : ForwardTargets) × (ft ≡ some f) × (f.dns ≡ server) × (server ≢ [])))
unfolding upstream_for
upstream_for_iff locked ft server = (λ e. absurd (cc e), λ p. absurd (cc (p.0)))
upstream_for_iff forwarding none server = (λ e. absurd (cc e), λ p. absurd (cc (p.1.1)))
upstream_for_iff forwarding (some f) server = elim (Bool-cases (is_nil f.dns)) [
  | inl unset ↦ (
    λ e. absurd (ground arith),
    λ p.
        let same : f ≡ p.1.0 = some-injective _ _ (p.1.1) in
        absurd (p.1.3 (cc (same, p.1.2, (is_nil_iff f.dns).0 unset))),
  )
  | inr known ↦ (
    λ e. (
      refl,
      (
        f,
        refl,
        ground arith,
        λ empty.
            let dns : f.dns ≡ server = ground arith in
            cc (known, (is_nil_iff f.dns).1 (dns ∙ empty)),
      ),
    ),
    λ p.
        let same : f ≡ p.1.0 = some-injective _ _ (p.1.1) in
        let dns : f.dns ≡ server = cc (same, p.1.2) in ground arith,
  )
]

lookup_other_iff :
    (e : Egress) (name server asked : Bytes)
    → (lookup_other e name ≡ ask_upstream server asked) ↔ (IsUpstream e server × (asked ≡ name))
unfolding lookup_other
lookup_other_iff e name server asked =
    let way = upstream_for_iff e.pol e.ft server in
    elim (Option-cases (upstream_for e.pol e.ft)) [
      | inl shut ↦
          (λ h. absurd (cc (rw (shut, lookup_other) at h)), λ p. absurd (cc (shut, way.1 p.0)))
      | inr (addr, opened) ↦
          (λ h. (way.0 (ground arith), ground arith), λ p. (let eq = way.1 (p.0) in ground arith))
    ]

lookup_ip_addr_iff :
    (e : Egress) (fqdn server asked : Bytes)
    → (lookup_ip_addr e fqdn ≡ ask_upstream server asked)
      ↔ ((is_test_name (plain_name fqdn) ≡ false) × IsUpstream e server × (asked ≡ fqdn))
lookup_ip_addr_iff e fqdn server asked =
    let law = lookup_ip_addr-test e fqdn in
    elim (Bool-cases (is_test_name (plain_name fqdn))) [
      | inl test ↦ (λ h. absurd (cc (h, rw test at law)), λ p. absurd (cc (test, p.0)))
      | inr other ↦
          let same : lookup_ip_addr e fqdn ≡ lookup_other e fqdn = rw other at law in
          let way = lookup_other_iff e fqdn server asked in
          (
            λ h. let out = way.0 (rw same at h) in (other, out.0, out.1),
            λ p. rw same (way.1 (p.1, p.2)),
          )
    ]

-- With a server that puts the zones before the resolver, a query for an address leaves for a name
-- server exactly when softnet is forwarding, that server is the one of the pushed targets and is
-- set, and the name is neither a .test name nor below a zone; it asks for the name as it is. So no
-- query leaves while softnet is locked.
pub start_dns-ask_upstream_iff :
    (serve : DnsServer) (e : Egress) (fqdn server asked : Bytes)
    → IsZoned serve
    → (start_dns serve e fqdn ≡ ask_upstream server asked) ↔ (
        (any (in_zone fqdn) dns_zones ≡ false)
        × (is_test_name (plain_name fqdn) ≡ false)
        × IsUpstream e server
        × (asked ≡ fqdn))
unfolding start_dns
start_dns-ask_upstream_iff serve e fqdn server asked z =
    elim (Bool-cases (any (in_zone fqdn) dns_zones)) [
      | inl zone ↦
          (λ h. absurd (cc (h, start_dns-zone serve e fqdn z zone)), λ p. absurd (cc (zone, p.0)))
      | inr up ↦
          let same = z.upstream dns_zones (lookup_ip_addr e) fqdn up in
          let way = lookup_ip_addr_iff e fqdn server asked in
          (
            λ h. let out = way.0 (sym same ∙ h) in (up, out.0, out.1, out.2),
            λ p. same ∙ way.1 (p.1, p.2, p.3),
          )
    ]
