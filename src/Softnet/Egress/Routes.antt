-- ===== src/Softnet/Egress/Routes.antt =====
-- The ways out of the guest, as a relation, and that `target` finds exactly these.
use devm.Base.{
  ℕ, ◌≡◌, refl, ◌≢◌, ◌↔◌, ◌⊎◌, inl, inr, true, false, ◌&&◌, some, [], ◌∷◌, ◌++◌, arith, ◌==◌,
  nat_eq, bool_eq, pair_eq, eq_of_==, Bool-cases, Option-cases, Bytes, bytes_beq_iff, bytes_eq,
}
use devm.Base.Decimal.{decimal}
use devm.Softnet.Egress.{
  gateway_ip, host_loop_ip, intercepted_test_ip, Policy, locked, forwarding, ForwardTargets, Egress,
  lists_port, if_set, behind_alias, route, forwarded, target,
}

-- The arms of `route`, with the tests on the address as equations.
abbrev pub IsArm : ForwardTargets → Bytes → ℕ → Bytes → Type 0
IsArm f dst dport host =
    ((dst ≡ intercepted_test_ip)
      × (((dport ≡ 80) × (host ≡ f.guest_http)) ⊎ ((dport ≡ 443) × (host ≡ f.guest_https))))
    ⊎ ((dst ≡ gateway_ip) × (dport ≡ 81) × (host ≡ f.guest_api))
    ⊎ ((dst ≢ intercepted_test_ip)
        × (((dport ≡ 80) × (host ≡ f.http)) ⊎ ((dport ≡ 443) × (host ≡ f.https))))

-- A way to leave for `dst` (behind the NAT alias) at `dport`, and the host address where it ends.
abbrev pub IsRoute : ForwardTargets → Bytes → ℕ → Bytes → Type 0
IsRoute f dst dport host =
    ((dst ≡ host_loop_ip)
      × (lists_port dport f.mac_ports ≡ true)
      × (host ≡ host_loop_ip ++ b':' ∷ decimal dport))
    ⊎ (((dst ≢ host_loop_ip) ⊎ (lists_port dport f.mac_ports ≡ false))
        × ((host ≢ []) × IsArm f dst dport host))

if_set_iff : (addr host : Bytes) → (if_set addr ≡ (host, true)) ↔ ((host ≢ []) × (host ≡ addr))
if_set_iff [] host = ground arith
if_set_iff (c ∷ s) host = ground arith

route_intercepted :
    (f : ForwardTargets) (dport : ℕ) (host : Bytes)
    → (route f intercepted_test_ip dport ≡ (host, true))
      ↔ ((host ≢ []) × IsArm f intercepted_test_ip dport host)
unfolding route
route_intercepted f dport host =
    ground (arith, if_set_iff f.guest_http host, if_set_iff f.guest_https host)

route_other :
    (f : ForwardTargets) (dst : Bytes) (dport : ℕ) (host : Bytes)
    → dst ≢ intercepted_test_ip
    → (route f dst dport ≡ (host, true)) ↔ ((host ≢ []) × IsArm f dst dport host)
unfolding route
route_other f dst dport host h = ground (
  arith,
  bytes_beq_iff dst intercepted_test_ip,
  bytes_beq_iff dst gateway_ip,
  if_set_iff f.guest_api host,
  if_set_iff f.http host,
  if_set_iff f.https host,
)

route-IsArm :
    (f : ForwardTargets) (dst : Bytes) (dport : ℕ) (host : Bytes)
    → (route f dst dport ≡ (host, true)) ↔ ((host ≢ []) × IsArm f dst dport host)
route-IsArm f dst dport host = elim (Bool-cases (dst == intercepted_test_ip)) [
  | inl e ↦ rw (eq_of_== dst intercepted_test_ip e) (route_intercepted f dport host)
  | inr e ↦
      route_other f dst dport host (λ h. ground (arith, e, bytes_beq_iff dst intercepted_test_ip))
]

forwarded_iff :
    (f : ForwardTargets) (dst : Bytes) (dport : ℕ) (host : Bytes)
    → (forwarded f dst dport ≡ (host, true)) ↔ IsRoute f dst dport host
unfolding forwarded
forwarded_iff f dst dport host =
    elim (Bool-cases (dst == host_loop_ip && lists_port dport f.mac_ports)) [
      | inl mac ↦ ground (arith, bytes_beq_iff dst host_loop_ip)
      | inr other ↦
          let eq : forwarded f dst dport ≡ route f dst dport = rw (other, forwarded) in
          let arm = route-IsArm f dst dport host in
          (
            λ h. inr (ground (arith, bytes_beq_iff dst host_loop_ip), arm.0 (rw eq at h)),
            λ r. rw eq (arm.1 (other_arm other r)),
          )
    ]
  where
    other_arm :
        (dst == host_loop_ip && lists_port dport f.mac_ports) ≡ false
        → IsRoute f dst dport host
        → (host ≢ []) × IsArm f dst dport host
    other_arm other (inl (loop, listed, _)) =
        absurd (ground (arith, bytes_beq_iff dst host_loop_ip))
    other_arm other (inr (_, arm)) = arm

Policy-cases : (p : Policy) → (p ≡ locked) ⊎ (p ≡ forwarding)
Policy-cases locked = inl refl
Policy-cases forwarding = inr refl

-- A flow is forwarded to a host address exactly when softnet is forwarding and the address is one
-- of the pushed targets for this destination and port: a listed Mac port on the loopback, the
-- guest-origin listeners for the intercepted address, the guest API at the gateway's port 81, and
-- iron-proxy at ports 80 and 443 of any other address.
pub target_iff :
    (e : Egress) (dst_ip : Bytes) (dport : ℕ) (host : Bytes)
    → (target e dst_ip dport ≡ (host, true)) ↔ (
        (e.pol ≡ forwarding)
        × ((f : ForwardTargets) × (e.ft ≡ some f) × IsRoute f (behind_alias dst_ip) dport host))
unfolding target
target_iff e dst_ip dport host = elim (Policy-cases (e.pol)) [
  | inl shut ↦ (λ h. cc (rw (shut, target) at h), λ r. cc (shut, r.0))
  | inr opened ↦ elim (Option-cases (e.ft)) [
    | inl unset ↦ (λ h. cc (rw (opened, unset, target) at h), λ r. cc (unset, r.1.1))
    | inr (f, pushed) ↦
        let eq : target e dst_ip dport ≡ forwarded f (behind_alias dst_ip) dport =
          rw (opened, pushed, target) in
        let found = forwarded_iff f (behind_alias dst_ip) dport host in
        (
          λ h. (opened, (f, pushed, found.0 (rw eq at h))),
          λ r.
              let same : f ≡ r.1.0 = cc (pushed, r.1.1) in rw eq (found.1 (rw (← same) at (r.1.2))),
        )
  ]
]
