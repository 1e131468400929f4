-- ===== src/Daemon/Routes/Accepted.antt =====
-- What an accepted `Routes.Apply` (internal/serviceapi/routes.go) leaves at each hostname.
use devm.Base.{
  ◌≡◌, refl, ◌↔◌, Bool, inl, inr, ◌&&◌, true, false, Option, none, some, Option-cases, Bool-cases,
  List, [], ◌∷◌, arith, if◌then◌else◌, All, Bytes, bytes_beq_iff, bytes_eq, not,
}
use devm.Base.Assoc.{lookup}
use devm.Base.Names.{has}
use devm.Daemon.Routes.{
  Route, Routes, hostnames_of, hostnames, reserved_routes, check_items, apply, swap,
  is_daemon_reserved_hostname,
}
use devm.Daemon.Routes.Reading.{owner_at, last_of, last_of-absent}
use devm.Daemon.Routes.Owned.{IsOwned, IsFreeItem, All-hostnames}
use devm.Daemon.Routes.Swap.{lookup-swap}
use devm.Daemon.Routes.Steps.{check_items_iff}

-- A name that the swap takes out: listed by the project, and not reserved.
abbrev pub is_dropped : Bytes → Bytes → Routes → Bool
is_dropped h project r =
    has h (hostnames_of project r) && not (is_daemon_reserved_hostname h project r.tld)

module _ (project : Bytes) (r : Routes) (own : IsOwned r) where
  -- The reserved routes are what the table reads at the reserved ones of the names.
  last_of-reserved_routes :
      (hs : List Bytes) (h : Bytes) (old : Option Route)
      → ((j : Bytes) → has j hs ≡ true → owner_at j r ≡ some project)
      → last_of h (reserved_routes project hs r) old ≡ (
          if has h hs && is_daemon_reserved_hostname h project r.tld
          then lookup h r.hostname_to_route
          else old)
  unfolding reserved_routes
  last_of-reserved_routes [] h old mine = refl
  last_of-reserved_routes (j ∷ hs) h old mine =
      let rest =
        λ (o : Option Route). last_of-reserved_routes hs h o (λ i there. mine i (ground arith)) in
      let here = mine j (ground (arith, bytes_beq_iff j j)) in
      elim (Bool-cases (is_daemon_reserved_hostname j project r.tld)) [
        | inr plain ↦ rw (plain, reserved_routes) (ground (arith, rest old, bytes_beq_iff j h))
        | inl kept ↦ elim (Option-cases (lookup j r.hostname_to_route)) [
          | inl missing ↦ absurd (ground arith)
          | inr (rt, found) ↦
              rw (kept, found, reserved_routes)
                (ground (arith, rest old, rest (some rt), own.named j rt found, bytes_beq_iff j h))
        ]
      ]

  -- A free item is not reserved.
  free-plain :
      (items : List Route) (h : Bytes)
      → All (IsFreeItem project r) items
      → has h (hostnames items) ≡ true
      → is_daemon_reserved_hostname h project r.tld ≡ false
  unfolding is_daemon_reserved_hostname
  free-plain items h free there =
      All-hostnames (λ j. is_daemon_reserved_hostname j project r.tld ≡ false) items h
        (plain items free) there
    where
      plain :
          (its : List Route)
          → All (IsFreeItem project r) its
          → All (λ it. is_daemon_reserved_hostname it.hostname project r.tld ≡ false) its
      plain [] f = tt
      plain (it ∷ its) (f, fs) =
          (ground (arith, f.no_prefix, f.no_files, f.no_preview), plain its fs)

  lookup-swap_free :
      (items : List Route) (h : Bytes)
      → All (IsFreeItem project r) items
      → lookup h (swap project items r).hostname_to_route
        ≡ last_of h items (if is_dropped h project r then none else lookup h r.hostname_to_route)
  lookup-swap_free items h free =
      let hs = hostnames_of project r in
      let found = lookup h r.hostname_to_route in
      rw
        (
          lookup-swap project h items r,
          last_of-reserved_routes hs h (last_of h items (if has h hs then none else found))
              (λ j. (own.listed project j).0),
        )
        (elim (Bool-cases (is_daemon_reserved_hostname h project r.tld)) [
          | inr plain ↦ rw plain (ground arith)
          | inl kept ↦
              let absent : has h (hostnames items) ≡ false =
                ground (arith, free-plain items h free) in
              rw kept (
                ground
                  (arith, last_of-absent h items none absent, last_of-absent h items found absent))
        ])

-- `Apply` on a table in which every hostname is with the project that lists it: the batch is
-- accepted exactly when each item has a name that is not reserved and that no other project owns.
-- Then each hostname reads the batch's last route of that name, if it has one; if not, nothing
-- where the project listed the name and the name is not reserved, and else what stood there.
pub apply_lem :
    (project : Bytes) (items : List Route) (r : Routes)
    → IsOwned r
    → (((apply project items r).0 ≡ none) ↔ All (IsFreeItem project r) items)
      × ((h : Bytes)
          → (apply project items r).0 ≡ none
          → lookup h (apply project items r).1.hostname_to_route
            ≡ last_of h items
                (if is_dropped h project r then none else lookup h r.hostname_to_route))
unfolding apply
apply_lem project items r own = elim (Option-cases (check_items project items r)) [
  | inr (e, refused) ↦
      rw (refused, apply)
        (
          (
            λ accepted. absurd (cc accepted),
            λ free. absurd (cc (refused, (check_items_iff project items r).1 free)),
          ),
          λ h accepted. absurd (cc accepted),
        )
  | inl accepted ↦
      let free = (check_items_iff project items r).0 accepted in
      rw (accepted, apply)
        ((λ e. free, λ f. refl), λ h e. lookup-swap_free project r own items h free)
]
