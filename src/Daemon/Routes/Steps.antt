-- ===== src/Daemon/Routes/Steps.antt =====
-- The operations on the route table (internal/serviceapi/routes.go), each of which keeps every
-- hostname with the project that lists it.
use devm.Base.{
  ◌≡◌, ◌↔◌, inl, inr, ◌||◌, ◌&&◌, false, none, some, Option-cases, List, [], ◌∷◌, ◌++◌, any-append,
  arith, if◌then◌else◌, ◌==◌, All, Bytes, bytes_beq_iff, bytes_eq, not, has_prefix,
}
use devm.Base.Assoc.{lookup, lookup-insert, lookup-delete}
use devm.Base.Names.{has}
use devm.Base.Checks.{
  ◌or_else◌, reject_if, each_iff, reject_if_iff, ◌and_also◌, iff_trans, iff_refl,
}
use devm.Daemon.Routes.{
  Route, Routes, hostnames_of, is_daemon_reserved_hostname, is_reserved_files_hostname,
  is_reserved_preview_hostname, reserved_route_prefix, reserved_by_prefix, reserved_for_files,
  reserved_for_preview, not_reserved, check_owner, check_names, check_prefix, check_items,
  put_route, apply, track, apply_reserved_route, remove,
}
use devm.Daemon.Routes.Reading.{lookup-clear_hosts, lan-clear_hosts, clear_hosts_keeps, AllOf}
use devm.Daemon.Routes.Owned.{IsOwned, IsMine, IsFreeItem, check_owner_iff}
use devm.Daemon.Routes.Swap.{swap-IsOwned}

check_names_iff :
    (project tld : Bytes) (item : Route)
    → (check_names project tld item ≡ none) ↔ (
        (is_reserved_files_hostname item.hostname project tld ≡ false)
        × (is_reserved_preview_hostname item.hostname project tld ≡ false))
unfolding check_names
check_names_iff project tld item =
    reject_if_iff _ (reserved_for_files item.hostname) iff_refl
    and_also reject_if_iff _ (reserved_for_preview item.hostname) iff_refl

check_prefix_iff :
    (item : Route)
    → (check_prefix item ≡ none) ↔ (has_prefix item.hostname reserved_route_prefix ≡ false)
unfolding check_prefix
check_prefix_iff item = reject_if_iff _ (reserved_by_prefix item.hostname) iff_refl

free_items :
    (project : Bytes) (r : Routes) (items : List Route)
    → (All (λ it. has_prefix it.hostname reserved_route_prefix ≡ false) items
        × (All
              (λ it.
                (is_reserved_files_hostname it.hostname project r.tld ≡ false)
                × (is_reserved_preview_hostname it.hostname project r.tld ≡ false))
              items
            × All (λ it. IsMine project r it.hostname) items))
      ↔ All (IsFreeItem project r) items
free_items project r [] = (λ p. tt, λ a. (tt, (tt, tt)))
free_items project r (it ∷ items) =
    let rest = free_items project r items in
    (
      λ p. (
        record {
          no_prefix = (p.0).0;
          no_files = (((p.1).0).0).0;
          no_preview = (((p.1).0).0).1;
          mine = ((p.1).1).0;
        },
        rest.0 ((p.0).1, (((p.1).0).1, ((p.1).1).1)),
      ),
      λ a.
          let b = rest.1 (a.1) in
          let f = a.0 in
          ((f.no_prefix, b.0), (((f.no_files, f.no_preview), (b.1).0), (f.mine, (b.1).1))),
    )

pub check_items_iff :
    (project : Bytes) (items : List Route) (r : Routes)
    → (check_items project items r ≡ none) ↔ All (IsFreeItem project r) items
unfolding check_items
check_items_iff project items r =
    iff_trans
      (each_iff _ check_prefix check_prefix_iff items
        and_also each_iff _ (check_names project r.tld) (check_names_iff project r.tld) items
        and_also each_iff _ (check_owner project r) (check_owner_iff project r) items)
      (free_items project r items)

pub free_owners :
    (project : Bytes) (r : Routes) (items : List Route)
    → check_items project items r ≡ none
    → All (λ it. IsMine project r it.hostname) items
free_owners project r items accepted =
    (((free_items project r items).1 ((check_items_iff project items r).0 accepted)).1).1

pub apply-IsOwned :
    (project : Bytes) (items : List Route) (r : Routes)
    → IsOwned r
    → AllOf project items
    → IsOwned (apply project items r).1
unfolding apply
apply-IsOwned project items r own of_project = elim (Option-cases (check_items project items r)) [
  | inr (e, refused) ↦ rw (refused, apply) own
  | inl accepted ↦
      rw (accepted, apply)
        (swap-IsOwned project items r own of_project (free_owners project r items accepted))
]

module _ (project : Bytes) (rt : Route) (r : Routes) where
  unfoldable pub reserved : Routes
  reserved = track project rt.hostname (put_route rt r)

  pub lookup-reserved :
      (h : Bytes)
      → lookup h reserved.hostname_to_route
        ≡ (if rt.hostname == h then some rt else lookup h r.hostname_to_route)
  unfolding reserved track put_route
  lookup-reserved h = ground (arith, lookup-insert h rt.hostname rt r.hostname_to_route)

  pub lan-reserved :
      (h : Bytes)
      → lookup h reserved.lan_hostname_to_route
        ≡ (if rt.expose_host && rt.hostname == h then some rt else lookup h r.lan_hostname_to_route)
  unfolding reserved track put_route
  lan-reserved h = ground (arith, lookup-insert h rt.hostname rt r.lan_hostname_to_route)

  pub has-reserved :
      (q h : Bytes)
      → has h (hostnames_of q reserved)
        ≡ (has h (hostnames_of q r) || (project == q && rt.hostname == h))
  unfolding reserved track put_route hostnames_of
  has-reserved q h =
      let hs = hostnames_of project r in
      ground (
        arith,
        lookup-insert q project (hs ++ (rt.hostname ∷ [])) r.projects_to_hostnames,
        any-append (λ j. j == h) hs (rt.hostname ∷ []),
        bytes_beq_iff project q,
        bytes_beq_iff rt.hostname h,
      )

module _ (project : Bytes) (rt : Route) (r : Routes) (own : IsOwned r)
    (of_project : rt.project ≡ project) (mine : IsMine project r rt.hostname) where
  pub reserved-IsOwned : IsOwned (reserved project rt r)
  reserved-IsOwned = record {
    named = λ h x e.
        ground (arith, lookup-reserved project rt r h, own.named h x, bytes_beq_iff rt.hostname h);
    listed = λ q h.
        rw (has-reserved project rt r q h, lookup-reserved project rt r h)
          (ground
            (arith, own.listed q h, mine q, bytes_beq_iff project q, bytes_beq_iff rt.hostname h));
    exposed = λ h x e. ground (
      arith,
      lookup-reserved project rt r h,
      lan-reserved project rt r h,
      own.exposed h x,
      mine x.project,
      bytes_beq_iff rt.hostname h,
    );
  }

pub apply_reserved_route-IsOwned :
    (project : Bytes) (rt : Route) (r : Routes)
    → IsOwned r
    → rt.project ≡ project
    → IsOwned (apply_reserved_route project rt r).1
unfolding apply_reserved_route
apply_reserved_route-IsOwned project rt r own of_project =
    let checks =
      reject_if (not (is_daemon_reserved_hostname rt.hostname project r.tld))
        (not_reserved rt.hostname)
      or_else check_owner project r rt in
    elim (Option-cases checks) [
      | inr (e, refused) ↦ rw (refused, apply_reserved_route) own
      | inl accepted ↦
          let mine =
            ((reject_if_iff _ (not_reserved rt.hostname) iff_refl
                and_also check_owner_iff project r rt).0
              accepted).1 in
          rw (accepted, apply_reserved_route)
            (unfold reserved in reserved-IsOwned project rt r own of_project mine)
    ]

module _ (project : Bytes) (r : Routes) where
  pub lookup-remove :
      (h : Bytes)
      → lookup h (remove project r).hostname_to_route
        ≡ (if has h (hostnames_of project r) then none else lookup h r.hostname_to_route)
  unfolding remove
  lookup-remove h = lookup-clear_hosts h (hostnames_of project r) r

  pub lan-remove :
      (h : Bytes)
      → lookup h (remove project r).lan_hostname_to_route
        ≡ (if has h (hostnames_of project r) then none else lookup h r.lan_hostname_to_route)
  unfolding remove
  lan-remove h = lan-clear_hosts h (hostnames_of project r) r

  pub has-remove :
      (q h : Bytes)
      → has h (hostnames_of q (remove project r))
        ≡ (if project == q then false else has h (hostnames_of q r))
  unfolding remove hostnames_of
  has-remove q h =
      rw (clear_hosts_keeps (hostnames_of project r) r)
        (ground (arith, lookup-delete q project r.projects_to_hostnames))

  pub remove-IsOwned : IsOwned r → IsOwned (remove project r)
  remove-IsOwned own = record {
    named = λ h x e. ground (arith, lookup-remove h, own.named h x);
    listed = λ q h.
        rw (has-remove q h, lookup-remove h)
          (ground (arith, own.listed q h, own.listed project h, bytes_beq_iff project q));
    exposed = λ h x e. ground (arith, lookup-remove h, lan-remove h, own.exposed h x);
  }
