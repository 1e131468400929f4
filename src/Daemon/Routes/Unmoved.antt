-- ===== src/Daemon/Routes/Unmoved.antt =====
-- What an operation of one project on the route table (internal/serviceapi/routes.go) leaves of the
-- routes and the lists of another.
use devm.Base.{
  ◌≡◌, ◌≢◌, refl, inl, inr, false, some, Option-cases, List, arith, ◌==◌, All, Bytes, bytes_beq_iff,
  bytes_eq, not,
}
use devm.Base.Assoc.{lookup}
use devm.Base.Names.{has}
use devm.Daemon.Routes.{
  Route, Routes, hostnames_of, hostnames, reserved_routes, check_items, check_owner, apply, swap,
  apply_reserved_route, is_daemon_reserved_hostname, not_reserved,
}
use devm.Base.Checks.{◌or_else◌, reject_if, reject_if_iff, ◌and_also◌, iff_refl}
use devm.Daemon.Routes.Reading.{
  owner_at, last_of, last_exposed, AllOf, last_of-absent, last_exposed-absent,
}
use devm.Daemon.Routes.Owned.{IsOwned, IsMine, check_owner_iff}
use devm.Daemon.Routes.Swap.{lookup-swap, lan-swap, has-reserved_routes, items_mine}
use devm.Daemon.Routes.Steps.{
  free_owners, reserved, lookup-reserved, lan-reserved, lookup-remove, lan-remove,
}
use devm.Daemon.Routes.Swap.{hostnames_of-swap}
use devm.Daemon.Routes.Steps.{has-reserved, has-remove}
use devm.Daemon.Routes.Runs.{Op, op_apply, op_apply_reserved, op_remove, step, IsHonest, actor}

-- A hostname of another project reads the same in both maps.
pub record IsUnmoved (h : Bytes) (before after : Routes) : Type 0 where
  pub same : lookup h after.hostname_to_route ≡ lookup h before.hostname_to_route
  pub same_lan : lookup h after.lan_hostname_to_route ≡ lookup h before.lan_hostname_to_route

pub IsUnmoved-refl : (h : Bytes) (r : Routes) → IsUnmoved h r r
IsUnmoved-refl h r = record { same = refl; same_lan = refl }

module _ (r : Routes) (own : IsOwned r) (h q : Bytes) (owner : owner_at h r ≡ some q) where
  not_listed : (project : Bytes) → project ≢ q → has h (hostnames_of project r) ≡ false
  not_listed project other = ground (arith, own.listed project h)

  swap-IsUnmoved :
      (project : Bytes) (items : List Route)
      → AllOf project items
      → All (λ it. IsMine project r it.hostname) items
      → project ≢ q
      → IsUnmoved h r (swap project items r)
  swap-IsUnmoved project items of_project free other =
      let unlisted = not_listed project other in
      let hs = hostnames_of project r in
      let kept = reserved_routes project hs r in
      let unkept : has h (hostnames kept) ≡ false =
        ground (arith, has-reserved_routes project r own hs h, unlisted) in
      let absent : has h (hostnames items) ≡ false =
        ground (arith, items_mine project items r own of_project free h q) in
      record {
        same =
            rw
              (
                lookup-swap project h items r,
                unlisted,
                last_of-absent h kept (last_of h items (lookup h r.hostname_to_route)) unkept,
              )
              (last_of-absent h items _ absent);
        same_lan =
            rw
              (
                lan-swap project h items r,
                unlisted,
                last_exposed-absent h kept (last_exposed h items (lookup h r.lan_hostname_to_route))
                    unkept,
              )
              (last_exposed-absent h items _ absent);
      }

  apply-IsUnmoved :
      (project : Bytes) (items : List Route)
      → AllOf project items
      → project ≢ q
      → IsUnmoved h r (apply project items r).1
  unfolding apply
  apply-IsUnmoved project items of_project other =
      elim (Option-cases (check_items project items r)) [
        | inr (e, refused) ↦ rw (refused, apply) (IsUnmoved-refl h r)
        | inl accepted ↦
            rw (accepted, apply)
              (swap-IsUnmoved project items of_project (free_owners project r items accepted) other)
      ]

  apply_reserved_route-IsUnmoved :
      (project : Bytes) (rt : Route)
      → project ≢ q
      → IsUnmoved h r (apply_reserved_route project rt r).1
  unfolding apply_reserved_route
  apply_reserved_route-IsUnmoved project rt other =
      let checks =
        reject_if (not (is_daemon_reserved_hostname rt.hostname project r.tld))
          (not_reserved rt.hostname)
        or_else check_owner project r rt in
      elim (Option-cases checks) [
        | inr (e, refused) ↦ rw (refused, apply_reserved_route) (IsUnmoved-refl h r)
        | inl accepted ↦
            let mine =
              ((reject_if_iff _ (not_reserved rt.hostname) iff_refl
                  and_also check_owner_iff project r rt).0
                accepted).1 in
            let apart : (rt.hostname == h) ≡ false =
              ground (arith, bytes_beq_iff rt.hostname h, mine q) in
            rw (accepted, apply_reserved_route)
              (unfold reserved in
                record {
                  same = ground (arith, lookup-reserved project rt r h, apart);
                  same_lan = ground (arith, lan-reserved project rt r h, apart);
                })
      ]

  pub step-IsUnmoved : (o : Op) → IsHonest o → actor o ≢ q → IsUnmoved h r (step o r)
  unfolding step
  step-IsUnmoved (op_apply project items) honest other = apply-IsUnmoved project items honest other
  step-IsUnmoved (op_apply_reserved project rt) honest other =
      apply_reserved_route-IsUnmoved project rt other
  step-IsUnmoved (op_remove project) honest other =
      let unlisted = not_listed project other in
      record {
        same = rw (lookup-remove project r h, unlisted) refl;
        same_lan = rw (lan-remove project r h, unlisted) refl;
      }

module _ (project : Bytes) (r : Routes) (q h : Bytes) (other : project ≢ q) where
  has-apply :
      (items : List Route)
      → has h (hostnames_of q (apply project items r).1) ≡ has h (hostnames_of q r)
  unfolding apply
  has-apply items = elim (Option-cases (check_items project items r)) [
    | inr (e, refused) ↦ rw (refused, apply) refl
    | inl accepted ↦
        rw (accepted, apply, hostnames_of-swap project q items r)
          (ground (arith, bytes_beq_iff project q))
  ]

  has-apply_reserved_route :
      (rt : Route)
      → has h (hostnames_of q (apply_reserved_route project rt r).1) ≡ has h (hostnames_of q r)
  unfolding apply_reserved_route
  has-apply_reserved_route rt =
      let checks =
        reject_if (not (is_daemon_reserved_hostname rt.hostname project r.tld))
          (not_reserved rt.hostname)
        or_else check_owner project r rt in
      elim (Option-cases checks) [
        | inr (e, refused) ↦ rw (refused, apply_reserved_route) refl
        | inl accepted ↦
            rw (accepted, apply_reserved_route)
              (unfold reserved in
                (ground (arith, has-reserved project rt r q h, bytes_beq_iff project q)))
      ]

-- An operation leaves the lists of the other projects.
pub has-step :
    (o : Op) (r : Routes) (q h : Bytes)
    → actor o ≢ q
    → has h (hostnames_of q (step o r)) ≡ has h (hostnames_of q r)
unfolding step
has-step (op_apply project items) r q h other = has-apply project r q h other items
has-step (op_apply_reserved project rt) r q h other =
    has-apply_reserved_route project r q h other rt
has-step (op_remove project) r q h other =
    ground (arith, has-remove project r q h, bytes_beq_iff project q)
