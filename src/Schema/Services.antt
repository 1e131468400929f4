-- ===== src/Schema/Services.antt =====
-- The loop of `Config.Validate` (internal/schema/schema.go) over the services, by name.
use devm.Base.{
  ◌≡◌, ◌≢◌, ◌↔◌, true, false, ◌&&◌, ◌||◌, not, Option, none, some, List, [], ◌∷◌, arith, ◌==◌,
  is_nil, All, Bytes, bytes_eq, if◌then◌else◌,
}
use devm.Base.Int.{ℤ, pos, negsuc, int_eq, int_beq_iff, int_below, int_above}
use devm.Base.Assoc.{Map}
use devm.Base.Claims.{claims, IsFree, clash, remember, clash-remember, IsFree-nil}
use devm.Base.Checks.{
  ◌or_else◌, reject_if, wrap, ◌and_also◌, reject_if_iff, wrap_iff, iff_trans, iff_refl,
}
use devm.Base.Owners.{OneOwner, All-sorted_set, Distinct-claims}
use devm.Base.Names.{has, sorted_set, keys}
use devm.Schema.Config.{Config, Service, service_of}
use devm.Schema.Service.{ServiceError, validate_service, IsServable, validate_service_iff}

pub data ServicesError : Type 0 where
  in_service : Bytes → ServiceError → ServicesError
  port_range port_reserved : Bytes → ServicesError
  hostname_twice : Bytes → (before after : Bytes) → ServicesError
  port_twice : ℤ → (before after : Bytes) → ServicesError

-- What a service claims for itself; an empty hostname and port 0 are no claims.
unfoldable pub hostname_claim : Service → Option Bytes
hostname_claim s = if is_nil s.hostname then none else some s.hostname

unfoldable pub port_claim : Service → Option ℤ
port_claim s = if s.port == pos 0 then none else some s.port

unfoldable pub check_port : Bytes → ℤ → Option ServicesError
check_port name port =
    reject_if (not (port == pos 0) && (int_below port 1 || int_above port 65535)) (port_range name)
    or_else reject_if (port == pos 22) (port_reserved name)

-- `seenHosts` and `seenPorts` name the service that came first.
unfoldable pub check_services :
    Config → List Bytes → Map Bytes Bytes → Map ℤ Bytes → Option ServicesError
check_services c [] hosts ports = none
check_services c (name ∷ names) hosts ports =
    let s = service_of c name in
    wrap (in_service name) (validate_service s)
    or_else clash (hostname_claim s) hosts (λ before. hostname_twice s.hostname before name)
    or_else check_port name s.port
    or_else clash (port_claim s) ports (λ before. port_twice s.port before name)
    or_else check_services c names (remember (hostname_claim s) name hosts)
        (remember (port_claim s) name ports)

unfoldable pub validate_services : Config → Option ServicesError
validate_services c = check_services c (sorted_set (keys c.services)) [] []

-- A port is 0, for none, or a port number other than that of ssh.
pub record IsPort (port : ℤ) : Type 0 where
  pub at_least : port ≢ pos 0 → int_below port 1 ≡ false
  pub at_most : int_above port 65535 ≡ false
  pub not_ssh : port ≢ pos 22

abbrev IsGoodService : Config → Bytes → Type 0
IsGoodService c name = IsServable (service_of c name) × IsPort ((service_of c name).port)

port_tests_iff :
    (port : ℤ)
    → (((not (port == pos 0) && (int_below port 1 || int_above port 65535)) ≡ false)
        × ((port == pos 22) ≡ false))
      ↔ IsPort port
port_tests_iff (pos n) = ground (arith, int_beq_iff (pos n) (pos 0), int_beq_iff (pos n) (pos 22))
port_tests_iff (negsuc n) =
    ground (arith, int_beq_iff (negsuc n) (pos 0), int_beq_iff (negsuc n) (pos 22))

check_port_iff : (name : Bytes) (port : ℤ) → (check_port name port ≡ none) ↔ IsPort port
unfolding check_port
check_port_iff name port =
    iff_trans
      (reject_if_iff _ (port_range name) iff_refl
        and_also reject_if_iff _ (port_reserved name) iff_refl)
      (port_tests_iff port)

check_services_iff :
    (c : Config) (names : List Bytes) (hosts : Map Bytes Bytes) (ports : Map ℤ Bytes)
    → (check_services c names hosts ports ≡ none) ↔ (
        All (IsGoodService c) names
        × IsFree hosts (claims (λ n. hostname_claim (service_of c n)) names)
        × IsFree ports (claims (λ n. port_claim (service_of c n)) names))
unfolding check_services
check_services_iff c [] hosts ports = ground arith
check_services_iff c (name ∷ names) hosts ports =
    let s = service_of c name in
    let host =
      clash-remember (hostname_claim s) name hosts (λ before. hostname_twice s.hostname before name)
        (claims (λ n. hostname_claim (service_of c n)) names) in
    let port =
      clash-remember (port_claim s) name ports (λ before. port_twice s.port before name)
        (claims (λ n. port_claim (service_of c n)) names) in
    iff_trans
      (wrap_iff (in_service name) (validate_service s) (validate_service_iff s)
        and_also iff_refl
        and_also check_port_iff name s.port
        and_also iff_refl
        and_also check_services_iff c names _ _)
      (
        λ p. (
          ((p.0, p.1.1.0), p.1.1.1.1.0),
          host.0 (p.1.0, p.1.1.1.1.1),
          port.0 (p.1.1.1.0, p.1.1.1.1.2),
        ),
        λ q.
            let h = host.1 (q.1) in
            let k = port.1 (q.2) in ((q.0).0.0, (h.0, ((q.0).0.1, (k.0, ((q.0).1, h.1, k.1))))),
      )

-- What `Config.Validate` promises of the services: each is good for itself, and no hostname and no
-- port is claimed twice.
pub record GoodServices (c : Config) : Type 0 where
  pub servable : (k : Bytes) → has k (keys c.services) ≡ true → IsServable (service_of c k)
  pub port : (k : Bytes) → has k (keys c.services) ≡ true → IsPort ((service_of c k).port)
  pub own_hostname : OneOwner (λ n. hostname_claim (service_of c n)) (keys c.services)
  pub own_port : OneOwner (λ n. port_claim (service_of c n)) (keys c.services)

pub validate_services_iff : (c : Config) → (validate_services c ≡ none) ↔ GoodServices c
unfolding validate_services
validate_services_iff c =
    let names = keys c.services in
    let good = All-sorted_set (IsGoodService c) names in
    let host = Distinct-claims (λ n. hostname_claim (service_of c n)) names in
    let port = Distinct-claims (λ n. port_claim (service_of c n)) names in
    iff_trans (check_services_iff c (sorted_set names) [] []) (
      λ p. record {
        servable = λ k h. (good.0 (p.0) k h).0;
        port = λ k h. (good.0 (p.0) k h).1;
        own_hostname = host.0 ((IsFree-nil Bytes _).0 (p.1));
        own_port = port.0 ((IsFree-nil Bytes _).0 (p.2));
      },
      λ g. (
        good.1 (λ k h. (g.servable k h, g.port k h)),
        (IsFree-nil Bytes _).1 (host.1 g.own_hostname),
        (IsFree-nil Bytes _).1 (port.1 g.own_port),
      ),
    )
