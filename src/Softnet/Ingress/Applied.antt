-- ===== src/Softnet/Ingress/Applied.antt =====
-- What `apply` leaves: exactly the wanted ports that were bound, and a result for each of them.
use devm.Base.{
  ◌≡◌, refl, sym, ◌∙◌, ◌≢◌, inl, inr, true, false, ◌&&◌, Option, none, some, List, [], ◌∷◌, arith,
  nat_beq, if◌then◌else◌, nat_beq_iff, nat_eq, bool_eq, pair_eq, Bool-cases, Option-cases, bytes_eq,
  bytes_beq_iff, ◌==◌,
}
use devm.Base.Int.{ℤ, int_beq, int_beq_iff, int_eq}
use devm.Base.Assoc.{Map, lookup, IsUnique, insert-IsUnique}
use mathlib.Core.Path.{subst}
use devm.Softnet.Ingress.{
  ExposePort, ExposeResult, Listener, Listeners, Bind, uint16, bind_to, wanted, serves, close_stale,
  result_of, listen, open_one, open_wanted, apply, all_ok, insert_result, sort_results,
}

-- What listens on a host port after an `apply`, by what is wanted there and what listened before.
abbrev pub outcome : Bind → ℤ → Option ExposePort → Option Listener → Option Listener
outcome bind hp none old = none
outcome bind hp (some p) none = elim (bind p.bind_ip hp) [
  | some e ↦ none
  | none ↦ some (record { guest_port = uint16 p.guest_port; bind_ip = p.bind_ip })
]
outcome bind hp (some p) (some l) =
    if l.bind_ip == p.bind_ip && nat_beq l.guest_port (uint16 p.guest_port)
    then some l
    else elim (bind p.bind_ip hp) [
      | some e ↦ none
      | none ↦ some (record { guest_port = uint16 p.guest_port; bind_ip = p.bind_ip })
    ]

wanted-IsUnique :
    (ports : List ExposePort) (want : Map ℤ ExposePort)
    → IsUnique want
    → IsUnique (wanted ports want)
unfolding wanted
wanted-IsUnique [] want u = u
wanted-IsUnique (p ∷ ps) want u =
    wanted-IsUnique ps _ (insert-IsUnique p.host_port (bind_to p) want u)

open_one-other :
    (bind : Bind) (j hp : ℤ) (q : ExposePort) (ls : Listeners)
    → int_beq j hp ≡ false
    → (open_one bind j q ls).0 hp ≡ ls hp
unfolding open_one listen
open_one-other bind j hp q ls h = ground arith

open_one-at :
    (bind : Bind) (j : ℤ) (q : ExposePort) (ls : Listeners)
    → (open_one bind j q ls).0 j
      ≡ elim (ls j) [ some l ↦ some l | none ↦ outcome bind j (some q) none ]
unfolding open_one listen
open_one-at bind j q ls = ground (arith, int_beq_iff j j)

open_wanted-other :
    (bind : Bind) (want : Map ℤ ExposePort) (ls : Listeners) (hp : ℤ)
    → lookup hp want ≡ none
    → (open_wanted bind want ls).0 hp ≡ ls hp
unfolding open_wanted
open_wanted-other bind [] ls hp h = refl
open_wanted-other bind ((j, p) ∷ want) ls hp h = elim (Bool-cases (int_beq j hp)) [
  | inl same ↦ absurd (unfold lookup in ground arith)
  | inr other ↦
      open_wanted-other bind want (open_one bind j p ls).0 hp (unfold lookup in ground arith)
      ∙ open_one-other bind j hp p ls other
]

close_stale-other :
    (want : Map ℤ ExposePort) (ls : Listeners) (hp : ℤ)
    → lookup hp want ≡ none
    → close_stale want ls hp ≡ none
unfolding close_stale
close_stale-other want ls hp h = ground arith

-- One wanted port, behind whatever else is wanted.
open_wanted-at :
    (bind : Bind) (want : Map ℤ ExposePort) (ls : Listeners) (hp : ℤ) (p : ExposePort)
    → IsUnique want
    → lookup hp want ≡ some p
    → (open_wanted bind want ls).0 hp
      ≡ elim (ls hp) [ some l ↦ some l | none ↦ outcome bind hp (some p) none ]
unfolding open_wanted
open_wanted-at bind [] ls hp p u h =
    let h' : ◌≡◌ {A = Option ExposePort} none (some p) = unfold lookup in h in cc h'
open_wanted-at bind ((j, q) ∷ want) ls hp p (new, u) h = elim (Bool-cases (int_beq j hp)) [
  | inl here ↦
      let j≡hp : j ≡ hp = (int_beq_iff j hp).0 here in
      let q≡p : q ≡ p = unfold lookup in ground arith in
      rw (j≡hp, q≡p)
        (open_wanted-other bind want (open_one bind hp p ls).0 hp (rw j≡hp at new)
          ∙ open_one-at bind hp p ls)
  | inr there ↦
      rw (← open_one-other bind j hp q ls there)
        (open_wanted-at bind want (open_one bind j q ls).0 hp p u (unfold lookup in ground arith))
]

serves_lem :
    (l : Listener) (p : ExposePort)
    → serves l p ≡ (l.bind_ip == p.bind_ip && nat_beq l.guest_port (uint16 p.guest_port))
unfolding serves
serves_lem l p = ground (
  arith,
  bytes_beq_iff l.bind_ip p.bind_ip,
  bytes_beq_iff p.bind_ip l.bind_ip,
  nat_beq_iff l.guest_port (uint16 p.guest_port),
  nat_beq_iff (uint16 p.guest_port) l.guest_port,
)

outcome_of_kept :
    (bind : Bind) (want : Map ℤ ExposePort) (ls : Listeners) (hp : ℤ) (p : ExposePort)
    → lookup hp want ≡ some p
    → elim (close_stale want ls hp) [ some l ↦ some l | none ↦ outcome bind hp (some p) none ]
      ≡ outcome bind hp (some p) (ls hp)
unfolding close_stale
outcome_of_kept bind want ls hp p h = elim (Option-cases (ls hp)) [
  | inl e ↦ rw (e, close_stale)
  | inr (l, e) ↦ ground (arith, serves_lem l p)
]

-- After an `apply` every host port has the listener that is due there: none where no port is
-- wanted, the old one where it serves the wanted guest port on the wanted address, and a fresh one
-- otherwise, unless its bind failed.
pub apply_listeners :
    (bind : Bind) (ports : List ExposePort) (ls : Listeners) (hp : ℤ)
    → (apply bind ports ls).0 hp ≡ outcome bind hp (lookup hp (wanted ports [])) (ls hp)
unfolding apply
apply_listeners bind ports ls hp =
    let want = wanted ports [] in
    elim (Option-cases (lookup hp want)) [
      | inl e ↦
          rw e (
            open_wanted-other bind want (close_stale want ls) hp e ∙ close_stale-other want ls hp e)
      | inr (p, e) ↦ rw e (
          open_wanted-at bind want (close_stale want ls) hp p (wanted-IsUnique ports [] tt) e
          ∙ outcome_of_kept bind want ls hp p e)
    ]

all_ok-insert_result :
    (r : ExposeResult) (rs : List ExposeResult)
    → all_ok (insert_result r rs) ≡ (r.succeeded && all_ok rs)
unfolding insert_result
all_ok-insert_result r [] = refl
all_ok-insert_result r (s ∷ ss) = ground (arith, all_ok-insert_result r ss)

all_ok-sort_results : (rs : List ExposeResult) → all_ok (sort_results rs) ≡ all_ok rs
unfolding sort_results
all_ok-sort_results [] = refl
all_ok-sort_results (r ∷ rs) =
    ground (arith, all_ok-insert_result r (sort_results rs), all_ok-sort_results rs)

open_one_ok :
    (bind : Bind) (j : ℤ) (q : ExposePort) (ls : Listeners)
    → (open_one bind j q ls).1.succeeded ≡ true
    → (open_one bind j q ls).0 j ≢ none
unfolding open_one listen result_of
open_one_ok bind j q ls h e = ground (arith, int_beq_iff j j)

open_one_keeps :
    (bind : Bind) (j hp : ℤ) (q : ExposePort) (ls : Listeners)
    → ls hp ≢ none
    → (open_one bind j q ls).0 hp ≢ none
unfolding open_one listen
open_one_keeps bind j hp q ls h e = ground (arith, h)

-- A listener that was opened stays through the rest of the loop.
open_wanted_keeps :
    (bind : Bind) (want : Map ℤ ExposePort) (ls : Listeners) (hp : ℤ)
    → ls hp ≢ none
    → (open_wanted bind want ls).0 hp ≢ none
unfolding open_wanted
open_wanted_keeps bind [] ls hp h = h
open_wanted_keeps bind ((j, q) ∷ want) ls hp h =
    open_wanted_keeps bind want (open_one bind j q ls).0 hp (open_one_keeps bind j hp q ls h)

open_wanted_ok :
    (bind : Bind) (want : Map ℤ ExposePort) (ls : Listeners) (hp : ℤ)
    → all_ok (open_wanted bind want ls).1 ≡ true
    → lookup hp want ≢ none
    → (open_wanted bind want ls).0 hp ≢ none
unfolding open_wanted
open_wanted_ok bind [] ls hp ok h = absurd (h (unfold lookup in refl))
open_wanted_ok bind ((j, q) ∷ want) ls hp ok h = elim (Bool-cases (int_beq j hp)) [
  | inl here ↦
      let j≡hp : j ≡ hp = (int_beq_iff j hp).0 here in
      open_wanted_keeps bind want (open_one bind j q ls).0 hp (
        subst (λ i. (open_one bind j q ls).0 i ≢ none) j≡hp
          (open_one_ok bind j q ls (ground arith)))
  | inr there ↦
      open_wanted_ok bind want (open_one bind j q ls).0 hp (ground arith)
        (λ e. h (unfold lookup in ground arith))
]

-- A good acknowledgement means that every wanted port is listened on.
pub apply_ok :
    (bind : Bind) (ports : List ExposePort) (ls : Listeners) (hp : ℤ)
    → all_ok (apply bind ports ls).1 ≡ true
    → lookup hp (wanted ports []) ≢ none
    → (apply bind ports ls).0 hp ≢ none
unfolding apply
apply_ok bind ports ls hp ok h =
    let want = wanted ports [] in
    let opened = open_wanted bind want (close_stale want ls) in
    open_wanted_ok bind want (close_stale want ls) hp (sym (all_ok-sort_results opened.1) ∙ ok) h
