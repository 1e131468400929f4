-- ===== src/Softnet/Ingress.antt =====
-- internal/softnet/ingress.go: the host listeners that lead into the guest. A bind, by the root
-- helper or by net.Listen, is the argument `bind`, which gives the error of a failed one.
use devm.Base.{
  ℕ, ◌%◌, ◌^◌, ◌-◌, Bool, true, false, ◌&&◌, Option, none, some, List, [], ◌∷◌, nat_beq,
  if◌then◌else◌, ◌==◌, nat_eq, bool_eq, pair_eq, is_nil, all, Bytes, bytes_eq,
}
use devm.Base.Int.{ℤ, pos, negsuc, int_eq, int_ltb}
use devm.Base.Assoc.{Map, lookup, insert}
pub mod Applied
use devm.Softnet.Egress.{host_loop_ip}

pub record ExposePort : Type 0 where
  pub guest_port : ℤ
  pub bind_ip : Bytes
  pub host_port : ℤ

pub record ExposeResult : Type 0 where
  pub bind_ip : Bytes
  pub host_port : ℤ
  pub guest_port : ℤ
  pub succeeded : Bool
  pub error : Bytes

-- `exposeListener`, without its socket; the guest port is a uint16.
pub record Listener : Type 0 where
  pub guest_port : ℕ
  pub bind_ip : Bytes

-- `listeners`, keyed by host port.
abbrev pub Listeners : Type 0
Listeners = ℤ → Option Listener

abbrev pub Bind : Type 0
Bind = Bytes → ℤ → Option Bytes

-- The conversion of an int, which wraps around.
abbrev pub uint16 : ℤ → ℕ
uint16 (pos n) = n % 2 ^ 16
uint16 (negsuc n) = 2 ^ 16 - 1 - n % 2 ^ 16

unfoldable pub bind_to : ExposePort → ExposePort
bind_to p = if is_nil p.bind_ip then record p { bind_ip = host_loop_ip } else p

-- `want`: the last port of the list wins its host port.
unfoldable pub wanted : List ExposePort → Map ℤ ExposePort → Map ℤ ExposePort
unfolding bind_to
wanted [] want = want
wanted (p ∷ ps) want = wanted ps (insert p.host_port (bind_to p) want)

unfoldable pub serves : Listener → ExposePort → Bool
serves l p = nat_beq (uint16 p.guest_port) l.guest_port && p.bind_ip == l.bind_ip

-- The first loop of `apply`: listeners that are not wanted, or not so, are closed.
unfoldable pub close_stale : Map ℤ ExposePort → Listeners → Listeners
unfolding serves
close_stale want ls hp = elim (ls hp) [
  | none ↦ none
  | some l ↦ elim (lookup hp want) [ none ↦ none | some p ↦ if serves l p then some l else none ]
]

unfoldable pub result_of : ℤ → ExposePort → Option Bytes → ExposeResult
result_of hp p none = record {
  bind_ip = p.bind_ip;
  host_port = hp;
  guest_port = p.guest_port;
  succeeded = true;
  error = [];
}
result_of hp p (some e) = record {
  bind_ip = p.bind_ip;
  host_port = hp;
  guest_port = p.guest_port;
  succeeded = false;
  error = e;
}

listen : ℤ → ExposePort → Listeners → Listeners
listen hp p ls j =
    if hp == j
    then some (record { guest_port = uint16 p.guest_port; bind_ip = p.bind_ip })
    else ls j

-- The body of the second loop: a wanted port that nobody listens on is bound.
open_one : Bind → ℤ → ExposePort → Listeners → Listeners × ExposeResult
unfolding result_of listen
open_one bind hp p ls = elim (ls hp) [
  | some l ↦ (ls, result_of hp p none)
  | none ↦ elim (bind p.bind_ip hp) [
    | some e ↦ (ls, result_of hp p (some e))
    | none ↦ (listen hp p ls, result_of hp p none)
  ]
]

unfoldable pub open_wanted : Bind → Map ℤ ExposePort → Listeners → Listeners × List ExposeResult
unfolding open_one
open_wanted bind [] ls = (ls, [])
open_wanted bind ((hp, p) ∷ want) ls =
    let one = open_one bind hp p ls in
    let rest = open_wanted bind want one.0 in (rest.0, one.1 ∷ rest.1)

insert_result : ExposeResult → List ExposeResult → List ExposeResult
insert_result r [] = r ∷ []
insert_result r (s ∷ ss) = elim (int_ltb s.host_port r.host_port) [
  | true ↦ s ∷ insert_result r ss
  | false ↦ r ∷ s ∷ ss
]

-- The results by host port, of which each stands once.
sort_results : List ExposeResult → List ExposeResult
sort_results [] = []
sort_results (r ∷ rs) = insert_result r (sort_results rs)

unfoldable pub apply : Bind → List ExposePort → Listeners → Listeners × List ExposeResult
unfolding wanted close_stale open_wanted insert_result sort_results
apply bind ports ls =
    let want = wanted ports [] in
    let opened = open_wanted bind want (close_stale want ls) in (opened.0, sort_results opened.1)

-- `ExposeAck.OK`.
abbrev pub all_ok : List ExposeResult → Bool
all_ok rs = all (λ r. r.succeeded) rs
