-- ===== src/Schema/Peers.antt =====
-- What a machine may reach beyond itself: `Config.validateMacServices` and
-- `Config.validatePeerServicesShape` (internal/schema/schema.go).
use devm.Base.{
  ◌≡◌, ◌↔◌, Bool, true, false, ◌||◌, not, Option, none, some, List, [], ◌∷◌, arith, Bytes, bytes_eq,
}
use devm.Base.Assoc.{Map}
use devm.Base.Int.{ℤ, pos, int_eq, int_beq, int_below, int_above}
use devm.Base.Words.{is_dns_label}
use devm.Base.Claims.{claims, Distinct, IsFree, clash, remember, clash-remember, IsFree-nil}
use devm.Base.Checks.{◌or_else◌, reject_if, ◌and_also◌, reject_if_iff, iff_trans, iff_refl}
use devm.Schema.Config.{Config, MacService}

pub data PeerError : Type 0 where
  nil_entry : PeerError
  name_shape name_twice : Bytes → PeerError
  port_range port_reserved : ℤ → PeerError

-- The table `reservedMacPorts`.
unfoldable pub is_reserved_mac_port : ℤ → Bool
is_reserved_mac_port port =
    int_beq port (pos 53)
    || (int_beq port (pos 80) || (int_beq port (pos 123) || int_beq port (pos 443)))

-- The set `seen` is a map to nothing.
unfoldable pub check_mac_services :
    List (Option MacService) → Map Bytes (Unit {0}) → Option PeerError
check_mac_services [] seen = none
check_mac_services (none ∷ ms) seen = some nil_entry
check_mac_services (some m ∷ ms) seen =
    reject_if (not (is_dns_label m.name)) (name_shape m.name)
    or_else clash (some m.name) seen (λ before. name_twice m.name)
    or_else reject_if (int_below m.port 1 || int_above m.port 65535) (port_range m.port)
    or_else reject_if (is_reserved_mac_port m.port) (port_reserved m.port)
    or_else check_mac_services ms (remember (some m.name) tt seen)

unfoldable pub validate_mac_services : Config → Option PeerError
validate_mac_services c = check_mac_services c.mac_services []

unfoldable pub check_peer_services : List (Option Bytes) → Map Bytes (Unit {0}) → Option PeerError
check_peer_services [] seen = none
check_peer_services (none ∷ ps) seen = some nil_entry
check_peer_services (some p ∷ ps) seen =
    reject_if (not (is_dns_label p)) (name_shape p)
    or_else clash (some p) seen (λ before. name_twice p)
    or_else check_peer_services ps (remember (some p) tt seen)

unfoldable pub validate_peer_services : Config → Option PeerError
validate_peer_services c = check_peer_services c.peer_services []

-- A Mac service has a DNS label for a name and a port that softnet does not forward already.
pub record GoodMacService (m : MacService) : Type 0 where
  pub label : is_dns_label m.name ≡ true
  pub at_least : int_below m.port 1 ≡ false
  pub at_most : int_above m.port 65535 ≡ false
  pub not_reserved : is_reserved_mac_port m.port ≡ false

-- No entry is nil, and each has the property.
abbrev pub AllPresent : {A : Type 0} → (A → Type 0) → List (Option A) → Type 0
AllPresent P [] = Unit
AllPresent P (none ∷ xs) = ⊥
AllPresent P (some x ∷ xs) = P x × AllPresent P xs

abbrev pub name_claim : Option MacService → Option Bytes
name_claim none = none
name_claim (some m) = some m.name

abbrev pub project_claim : Option Bytes → Option Bytes
project_claim p = p

check_mac_services_iff :
    (ms : List (Option MacService)) (seen : Map Bytes (Unit {0}))
    → (check_mac_services ms seen ≡ none)
      ↔ (AllPresent GoodMacService ms × IsFree seen (claims name_claim ms))
unfolding check_mac_services
check_mac_services_iff [] seen = ground arith
check_mac_services_iff (none ∷ ms) seen = (λ h. absurd (cc h), λ p. absurd (p.0))
check_mac_services_iff (some m ∷ ms) seen =
    let free =
      clash-remember (some m.name) tt seen (λ before. name_twice m.name) (claims name_claim ms) in
    iff_trans
      (reject_if_iff _ _ iff_refl
        and_also iff_refl
        and_also reject_if_iff _ _ iff_refl
        and_also reject_if_iff _ _ iff_refl
        and_also check_mac_services_iff ms _)
      (
        λ p. (
          (
            record {
              label = ground (arith, p.0);
              at_least = ground (arith, p.1.1.0);
              at_most = ground (arith, p.1.1.0);
              not_reserved = p.1.1.1.0;
            },
            p.1.1.1.1.0,
          ),
          free.0 (p.1.0, p.1.1.1.1.1),
        ),
        λ q.
            let g = (q.0).0 in
            let f = free.1 (q.1) in
            (
              ground (arith, g.label),
              (f.0, (ground (arith, g.at_least, g.at_most), (g.not_reserved, ((q.0).1, f.1)))),
            ),
      )

check_peer_services_iff :
    (ps : List (Option Bytes)) (seen : Map Bytes (Unit {0}))
    → (check_peer_services ps seen ≡ none)
      ↔ (AllPresent (λ p. is_dns_label p ≡ true) ps × IsFree seen (claims project_claim ps))
unfolding check_peer_services
check_peer_services_iff [] seen = ground arith
check_peer_services_iff (none ∷ ps) seen = (λ h. absurd (cc h), λ p. absurd (p.0))
check_peer_services_iff (some p ∷ ps) seen =
    let free = clash-remember (some p) tt seen (λ before. name_twice p) (claims project_claim ps) in
    iff_trans (reject_if_iff _ _ iff_refl and_also iff_refl and_also check_peer_services_iff ps _) (
      λ h. ((ground (arith, h.0), h.1.1.0), free.0 (h.1.0, h.1.1.1)),
      λ q. let f = free.1 (q.1) in (ground (arith, (q.0).0), (f.0, ((q.0).1, f.1))),
    )

-- What the validation promises of Mac services and of peers.
pub record GoodPeers (c : Config) : Type 0 where
  pub mac_services : AllPresent GoodMacService c.mac_services
  pub own_name : Distinct (claims name_claim c.mac_services)
  pub peers : AllPresent (λ p. is_dns_label p ≡ true) c.peer_services
  pub own_project : Distinct (claims project_claim c.peer_services)

pub validate_peers_iff :
    (c : Config) → ((validate_mac_services c or_else validate_peer_services c) ≡ none) ↔ GoodPeers c
unfolding validate_mac_services validate_peer_services
validate_peers_iff c =
    let free = IsFree-nil (Unit {0}) in
    iff_trans
      (check_mac_services_iff c.mac_services [] and_also check_peer_services_iff c.peer_services [])
      (
        λ p. record {
          mac_services = p.0.0;
          own_name = (free _).0 (p.0.1);
          peers = p.1.0;
          own_project = (free _).0 (p.1.1);
        },
        λ g. ((g.mac_services, (free _).1 g.own_name), (g.peers, (free _).1 g.own_project)),
      )
