-- ===== src/Daemon/Routes/Swap.antt =====
-- The swap of `Routes.Apply` (internal/serviceapi/routes.go): what it leaves in the table.
use devm.Base.{
  ◌≡◌, refl, ◌∙◌, sym, ◌↔◌, inl, inr, true, none, some, Option-cases, Bool-cases, List, [], ◌∷◌,
  ◌++◌, any-append, arith, if◌then◌else◌, ◌==◌, All, Bytes, bytes_beq_iff, bytes_eq,
}
use devm.Base.Assoc.{lookup, lookup-insert}
use devm.Base.Names.{has}
use devm.Daemon.Routes.{
  Route, Routes, hostnames_of, hostnames, is_daemon_reserved_hostname, put_routes, clear_hosts,
  reserved_routes, swap,
}
use devm.Daemon.Routes.Reading.{
  owner_at, last_of, last_exposed, lookup-put_routes, lan-put_routes, lookup-clear_hosts,
  lan-clear_hosts, put_routes_keeps, clear_hosts_keeps, AllOf, project_of-last_of,
  last_exposed_cases, last_of_cases,
}
use devm.Daemon.Routes.Owned.{IsOwned, IsMine, All-hostnames}

module _ (project : Bytes) (r : Routes) (own : IsOwned r) where
  -- The reserved routes that survive a swap are the project's own.
  pub reserved_routes-AllOf :
      (hs : List Bytes)
      → ((h : Bytes) → has h hs ≡ true → owner_at h r ≡ some project)
      → AllOf project (reserved_routes project hs r)
  unfolding reserved_routes
  reserved_routes-AllOf [] mine = tt
  reserved_routes-AllOf (h ∷ hs) mine =
      let rest = reserved_routes-AllOf hs (λ j there. mine j (ground arith)) in
      let here = mine h (ground (arith, bytes_beq_iff h h)) in
      elim (Bool-cases (is_daemon_reserved_hostname h project r.tld)) [
        | inr plain ↦ rw (plain, reserved_routes) rest
        | inl kept ↦ elim (Option-cases (lookup h r.hostname_to_route)) [
          | inl missing ↦ rw (kept, missing, reserved_routes) rest
          | inr (rt, found) ↦ rw (kept, found, reserved_routes) (ground arith, rest)
        ]
      ]

  pub has-reserved_routes :
      (hs : List Bytes) (j : Bytes)
      → has j (hostnames (reserved_routes project hs r)) ≡ true
      → has j hs ≡ true
  unfolding reserved_routes
  has-reserved_routes [] j there = there
  has-reserved_routes (h ∷ hs) j there =
      elim (Bool-cases (is_daemon_reserved_hostname h project r.tld)) [
        | inr plain ↦ ground (arith, has-reserved_routes hs j)
        | inl kept ↦ elim (Option-cases (lookup h r.hostname_to_route)) [
          | inl missing ↦ ground (arith, has-reserved_routes hs j)
          | inr (rt, found) ↦ ground (arith, has-reserved_routes hs j, own.named h rt found)
        ]
      ]

pub hostnames_of-swap :
    (project q : Bytes) (items : List Route) (r : Routes)
    → hostnames_of q (swap project items r) ≡ (
        if project == q
        then hostnames items ++ hostnames (reserved_routes project (hostnames_of project r) r)
        else hostnames_of q r)
unfolding swap hostnames_of
hostnames_of-swap project q items r =
    let hs = hostnames_of project r in
    let kept = reserved_routes project hs r in
    rw
      (
        put_routes_keeps kept (put_routes items (clear_hosts hs r)),
        put_routes_keeps items (clear_hosts hs r),
        clear_hosts_keeps hs r,
      )
      (ground (
        arith,
        lookup-insert q project (hostnames items ++ hostnames kept) r.projects_to_hostnames,
      ))

pub lookup-swap :
    (project h : Bytes) (items : List Route) (r : Routes)
    → lookup h (swap project items r).hostname_to_route
      ≡ last_of h (reserved_routes project (hostnames_of project r) r) (
          last_of h items
            (if has h (hostnames_of project r) then none else lookup h r.hostname_to_route))
unfolding swap
lookup-swap project h items r =
    let hs = hostnames_of project r in
    rw
      (
        lookup-put_routes h (reserved_routes project hs r) (put_routes items (clear_hosts hs r)),
        lookup-put_routes h items (clear_hosts hs r),
        lookup-clear_hosts h hs r,
      )
      refl

pub lan-swap :
    (project h : Bytes) (items : List Route) (r : Routes)
    → lookup h (swap project items r).lan_hostname_to_route
      ≡ last_exposed h (reserved_routes project (hostnames_of project r) r) (
          last_exposed h items
            (if has h (hostnames_of project r) then none else lookup h r.lan_hostname_to_route))
unfolding swap
lan-swap project h items r =
    let hs = hostnames_of project r in
    rw
      (
        lan-put_routes h (reserved_routes project hs r) (put_routes items (clear_hosts hs r)),
        lan-put_routes h items (clear_hosts hs r),
        lan-clear_hosts h hs r,
      )
      refl

module _ (project : Bytes) (items : List Route) (r : Routes) (own : IsOwned r)
    (of_project : AllOf project items) (free : All (λ it. IsMine project r it.hostname) items) where
  pub kept-AllOf : AllOf project (reserved_routes project (hostnames_of project r) r)
  kept-AllOf =
      reserved_routes-AllOf project r own (hostnames_of project r)
        (λ h there. (own.listed project h).0 there)

  pub items_mine :
      (h q : Bytes) → has h (hostnames items) ≡ true → owner_at h r ≡ some q → q ≡ project
  items_mine h q there = All-hostnames (IsMine project r) items h free there q

  -- Who owns a hostname after a swap: the project what it registers or keeps, nobody what it
  -- drops, and the others what they had.
  pub owner_at-swap :
      (h : Bytes)
      → owner_at h (swap project items r) ≡ (
          if has h (hostnames (reserved_routes project (hostnames_of project r) r))
          then some project
          else if has h (hostnames items)
          then some project
          else if has h (hostnames_of project r)
          then none
          else owner_at h r)
  owner_at-swap h =
      let kept = reserved_routes project (hostnames_of project r) r in
      rw
        (
          lookup-swap project h items r,
          project_of-last_of project h kept
              (last_of h items
                (if has h (hostnames_of project r) then none else lookup h r.hostname_to_route))
              kept-AllOf,
          project_of-last_of project h items
              (if has h (hostnames_of project r) then none else lookup h r.hostname_to_route)
              of_project,
        )
        (ground arith)

  swap-listed :
      (q h : Bytes)
      → (has h (hostnames_of q (swap project items r)) ≡ true)
        ↔ (owner_at h (swap project items r) ≡ some q)
  swap-listed q h =
      let kept = hostnames (reserved_routes project (hostnames_of project r) r) in
      rw (owner_at-swap h, hostnames_of-swap project q items r)
        (ground (
          arith,
          any-append (λ j. j == h) (hostnames items) kept,
          bytes_beq_iff project q,
          own.listed q h,
          own.listed project h,
          items_mine h q,
          has-reserved_routes project r own (hostnames_of project r) h,
        ))

  swap-named :
      (h : Bytes) (rt : Route)
      → lookup h (swap project items r).hostname_to_route ≡ some rt
      → rt.hostname ≡ h
  swap-named h rt e =
      let hs = hostnames_of project r in
      let left = if has h hs then none else lookup h r.hostname_to_route in
      elim (last_of_cases h (reserved_routes project hs r) (last_of h items left) rt
        (sym (lookup-swap project h items r) ∙ e)) [
          | inr named ↦ named
          | inl now ↦ elim (last_of_cases h items left rt now) [
            | inr named ↦ named
            | inl old ↦ own.named h rt (ground arith)
          ]
        ]

  swap-exposed :
      (h : Bytes) (rt : Route)
      → lookup h (swap project items r).lan_hostname_to_route ≡ some rt
      → (rt.expose_host ≡ true) × (owner_at h (swap project items r) ≡ some rt.project)
  swap-exposed h rt e =
      let hs = hostnames_of project r in
      let left = if has h hs then none else lookup h r.lan_hostname_to_route in
      elim (last_exposed_cases project h (reserved_routes project hs r) (last_exposed h items left)
        rt kept-AllOf (sym (lan-swap project h items r) ∙ e)) [
          | inr there ↦ ground (arith, owner_at-swap h, there)
          | inl now ↦ elim (last_exposed_cases project h items left rt of_project now) [
            | inr there ↦ ground (arith, owner_at-swap h, there)
            | inl old ↦
                let was = own.exposed h rt (ground arith) in
                ground (
                  arith,
                  owner_at-swap h,
                  was,
                  own.listed project h,
                  items_mine h rt.project,
                  has-reserved_routes project r own (hostnames_of project r) h,
                )
          ]
        ]

  pub swap-IsOwned : IsOwned (swap project items r)
  swap-IsOwned = record { named = swap-named; listed = swap-listed; exposed = swap-exposed }
