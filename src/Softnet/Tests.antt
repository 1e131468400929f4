-- ===== src/Softnet/Tests.antt =====
-- Runs of softnet on concrete flows, names and ports, and its theorems at concrete inputs.
use devm.Base.{
  ℕ, ◌+◌, ◌≡◌, refl, any, ◌++◌, arith, ◌≢◌, ◌↔◌, true, false, none, some, List, [], ◌∷◌, map,
  if◌then◌else◌, nat_eq, bool_eq, pair_eq, Bytes, codes, bytes_eq,
}
use devm.Base.Int.{pos, int_beq, int_eq}
use devm.Base.Assoc.{lookup, insert}
use devm.Softnet.Egress.{
  nat_alias_ip, host_loop_ip, intercepted_test_ip, forwarding, ForwardTargets, Egress, new_egress,
  behind_alias, target,
}
use devm.Softnet.Egress.Routes.{IsRoute, target_iff}
use devm.Softnet.Dns.{
  address, ask_upstream, dropped, is_test_name, plain_name, is_direct, lookup_ip_addr, Answer, Zone,
  in_zone, DnsServer, IsZoned, dns_zones, start_dns,
}
use devm.Softnet.Dns.Upstream.{IsUpstream, start_dns-ask_upstream_iff}
use devm.Softnet.Ingress.{ExposePort, Listeners, Bind, wanted, apply}
use devm.Softnet.Ingress.Applied.{outcome, apply_listeners, apply_ok}
use devm.Softnet.Dedup.{check_all, events_of, logged_of, pending_of, check_all_accounts}

abbrev targets : ForwardTargets
targets = record {
  http = codes "127.0.0.1:9080";
  https = codes "127.0.0.1:9443";
  dns = codes "127.0.0.1:9053";
  ntp = [];
  guest_http = codes "127.0.0.1:8080";
  guest_https = [];
  guest_api = codes "127.0.0.1:8081";
  mac_ports = 5432 ∷ [];
  peer_hairpins = [];
}

abbrev running : Egress
running = record { pol = forwarding; ft = some targets; direct_test = codes "db.test" ∷ [] }

dns_tests :
    (lookup_ip_addr running (codes "web.test.") ≡ address intercepted_test_ip)
    × (lookup_ip_addr running (codes "db.test.") ≡ address host_loop_ip)
    × (lookup_ip_addr running (codes "a.org.")
        ≡ ask_upstream (codes "127.0.0.1:9053") (codes "a.org."))
    × (lookup_ip_addr new_egress (codes "a.org.") ≡ dropped)
unfolding lookup_ip_addr plain_name is_direct is_test_name new_egress
dns_tests = (refl, refl, refl, refl)

target_iff_example : (target running nat_alias_ip 5432 ≡ (codes "127.0.0.1:5432", true)) ↔ (
    (running.pol ≡ forwarding)
    × ((f : ForwardTargets) × (running.ft ≡ some f)
        × IsRoute f (behind_alias nat_alias_ip) 5432 (codes "127.0.0.1:5432")))
target_iff_example = target_iff running nat_alias_ip 5432 (codes "127.0.0.1:5432")

-- A server as the source describes it.
abbrev serve : DnsServer
serve [] up fqdn = up fqdn
serve (z ∷ zones) up fqdn = if in_zone fqdn z then address z.default_ip else serve zones up fqdn

serve-local :
    (before after : List Zone) (z : Zone) (up : Bytes → Answer) (fqdn : Bytes)
    → any (in_zone fqdn) before ≡ false
    → in_zone fqdn z ≡ true
    → serve (before ++ z ∷ after) up fqdn ≡ address z.default_ip
serve-local [] after z up fqdn none_before here = ground arith
serve-local (y ∷ before) after z up fqdn none_before here =
    ground (arith, serve-local before after z up fqdn)

serve-upstream :
    (zones : List Zone) (up : Bytes → Answer) (fqdn : Bytes)
    → any (in_zone fqdn) zones ≡ false
    → serve zones up fqdn ≡ up fqdn
serve-upstream [] up fqdn h = refl
serve-upstream (z ∷ zones) up fqdn h = ground (arith, serve-upstream zones up fqdn)

serve-IsZoned : IsZoned serve
serve-IsZoned = record { local = serve-local; upstream = serve-upstream }

start_dns-ask_upstream_iff_example :
    (start_dns serve running (codes "a.org.")
      ≡ ask_upstream (codes "127.0.0.1:9053") (codes "a.org."))
    ↔ ((any (in_zone (codes "a.org.")) dns_zones ≡ false)
        × (is_test_name (plain_name (codes "a.org.")) ≡ false)
        × IsUpstream running (codes "127.0.0.1:9053")
        × (codes "a.org." ≡ codes "a.org."))
start_dns-ask_upstream_iff_example =
    start_dns-ask_upstream_iff serve running (codes "a.org.") (codes "127.0.0.1:9053")
      (codes "a.org.") serve-IsZoned

abbrev port : ℕ → ExposePort
port n = record { guest_port = pos n; bind_ip = codes "127.42.0.2"; host_port = pos n }

abbrev taken_22 : Bind
taken_22 ip hp = if int_beq hp (pos 22) then some (codes "EADDRINUSE") else none

abbrev nobody : Listeners
nobody hp = none

ingress_tests :
    ((apply taken_22 (port 80 ∷ port 22 ∷ []) nobody).0 (pos 80)
      ≡ some (record { guest_port = 80; bind_ip = codes "127.42.0.2" }))
    × ((apply taken_22 (port 80 ∷ port 22 ∷ []) nobody).0 (pos 22) ≡ none)
    × (map (λ r. r.succeeded) (apply taken_22 (port 80 ∷ port 22 ∷ []) nobody).1
        ≡ false ∷ true ∷ [])
unfolding apply lookup insert
ingress_tests = (refl, refl, refl)

apply_listeners_example :
    (apply taken_22 (port 80 ∷ port 22 ∷ []) nobody).0 (pos 22)
    ≡ outcome taken_22 (pos 22) (lookup (pos 22) (wanted (port 80 ∷ port 22 ∷ []) [])) none
apply_listeners_example = apply_listeners taken_22 (port 80 ∷ port 22 ∷ []) nobody (pos 22)

apply_ok_example : (apply taken_22 (port 80 ∷ []) nobody).0 (pos 80) ≢ none
unfolding apply wanted lookup insert
apply_ok_example = apply_ok taken_22 (port 80 ∷ []) nobody (pos 80) refl (λ e. cc)

abbrev burst : List (ℕ × Bytes)
burst =
    (1, codes "a")
    ∷ (2, codes "a")
    ∷ (3, codes "b")
    ∷ (4, codes "a")
    ∷ (61, codes "a")
    ∷ (62, codes "a")
    ∷ []

dedup_tests :
    ((check_all 60 burst []).1
      ≡ (codes "a", (true, 0))
        ∷ (codes "a", (false, 0))
        ∷ (codes "b", (true, 0))
        ∷ (codes "a", (false, 0))
        ∷ (codes "a", (true, 2))
        ∷ (codes "a", (false, 0))
        ∷ [])
    × (pending_of (codes "a") (check_all 60 burst []).0 ≡ 1)
unfolding check_all pending_of lookup insert
dedup_tests = (refl, refl)

check_all_accounts_example :
    events_of (codes "a") burst + pending_of (codes "a") []
    ≡ logged_of (codes "a") (check_all 60 burst []).1
      + pending_of (codes "a") (check_all 60 burst []).0
check_all_accounts_example = check_all_accounts 60 burst (codes "a") []
