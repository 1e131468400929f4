-- ===== src/Daemon/Routes/Tests.antt =====
-- Runs of the route table on concrete projects, and its theorems at concrete inputs.
use devm.Base.{
  ◌≡◌, ◌≢◌, refl, ◌↔◌, true, false, none, some, List, [], ◌∷◌, if◌then◌else◌, All, Bytes, codes,
  bytes_eq, bytes_beq_iff,
}
use devm.Base.Int.{pos}
use devm.Base.Assoc.{lookup, insert, delete}
use devm.Base.Checks.{◌or_else◌, reject_if, each}
use devm.Daemon.Routes.{
  Route, Routes, mode_vm, owned_by_other, new_routes, apply, lookup_route, lan_lookup, check_items,
  check_prefix, check_names, check_owner, swap, clear_hosts, clear_host, reserved_routes,
  put_routes, put_route, hostnames_of, apply_reserved_route, track, remove,
  is_daemon_reserved_hostname, is_reserved_files_hostname, is_reserved_preview_hostname,
}
use devm.Daemon.Routes.Reading.{owner_at, last_of}
use devm.Daemon.Routes.Owned.{IsOwned, IsFreeItem}
use devm.Daemon.Routes.Runs.{
  Op, op_apply, op_apply_reserved, op_remove, run, step, IsHonest, run-IsOwned,
}
use devm.Daemon.Routes.Isolated.{IsForeign, run-lookup_route}
use devm.Daemon.Routes.Accepted.{is_dropped, apply_lem}

abbrev a_route : Bytes → Bytes → Route
a_route hostname project = record {
  hostname = hostname;
  backend_host = codes "127.42.0.1";
  backend_port = pos 8080;
  mode = mode_vm;
  direct = false;
  project = project;
  expose_host = true;
}

abbrev shop_hosts : List Route
shop_hosts = a_route (codes "web.test") (codes "shop") ∷ []

-- The shop registers a hostname and its file browser.
abbrev opened : List Op
opened =
    op_apply (codes "shop") shop_hosts
    ∷ op_apply_reserved (codes "shop") (a_route (codes "files.shop.test") (codes "shop"))
    ∷ []

-- Another project tries to take the name, and registers one of its own.
abbrev others : List Op
others =
    op_apply (codes "blog") (a_route (codes "web.test") (codes "blog") ∷ [])
    ∷ op_apply (codes "blog") (a_route (codes "blog.test") (codes "blog") ∷ [])
    ∷ op_remove (codes "blog")
    ∷ []

abbrev table : Routes
table = run opened (new_routes (codes "test"))

-- One line that opens the code that a route goes through.
routes : Unit {0}
unfolding run step apply check_items check_prefix check_names check_owner reject_if each ◌or_else◌
    swap clear_hosts clear_host reserved_routes put_routes put_route hostnames_of lookup insert
    delete apply_reserved_route track remove is_daemon_reserved_hostname is_reserved_files_hostname
    is_reserved_preview_hostname lookup_route lan_lookup new_routes
routes = tt

-- The blog does not get the shop's name, and the shop keeps it through all that the blog does.
routes_tests :
    ((apply (codes "blog") (a_route (codes "web.test") (codes "blog") ∷ []) table).0
      ≡ some (owned_by_other (codes "web.test") (codes "shop")))
    × (lookup_route (codes "web.test") (codes "shop") (run others table)
        ≡ some (a_route (codes "web.test") (codes "shop")))
    × (lookup_route (codes "web.test") (codes "blog") table ≡ none)
    × (lookup_route (codes "files.shop.test") (codes "shop") (apply (codes "shop") [] table).1
        ≡ some (a_route (codes "files.shop.test") (codes "shop")))
unfolding routes
routes_tests = (refl, refl, refl, refl)

opened-IsHonest : All IsHonest opened
opened-IsHonest = ((refl, tt), (refl, tt))

others_apart : codes "blog" ≢ codes "shop"
others_apart e =
    let same : false ≡ true = (bytes_beq_iff (codes "blog") (codes "shop")).1 e in cc same

others-IsForeign : All (IsForeign (codes "shop")) others
others-IsForeign =
    (((refl, tt), others_apart), (((refl, tt), others_apart), ((tt, others_apart), tt)))

table-IsOwned : IsOwned table
table-IsOwned = run-IsOwned (codes "test") opened opened-IsHonest

run-IsOwned_example : IsOwned (run opened (new_routes (codes "test")))
run-IsOwned_example = run-IsOwned (codes "test") opened opened-IsHonest

run-lookup_route_example :
    (lookup_route (codes "web.test") (codes "shop") (run others table)
      ≡ lookup_route (codes "web.test") (codes "shop") table)
    × (owner_at (codes "web.test") table ≡ some (codes "shop")
        → lan_lookup (codes "web.test") (run others table) ≡ lan_lookup (codes "web.test") table)
run-lookup_route_example =
    run-lookup_route (codes "test") opened others (codes "web.test") (codes "shop") opened-IsHonest
      (λ e. cc e) others-IsForeign

abbrev moved : List Route
moved = a_route (codes "new.test") (codes "shop") ∷ []

apply_lem_example :
    (((apply (codes "shop") moved table).0 ≡ none) ↔ All (IsFreeItem (codes "shop") table) moved)
    × ((h : Bytes)
        → (apply (codes "shop") moved table).0 ≡ none
        → lookup h (apply (codes "shop") moved table).1.hostname_to_route
          ≡ last_of h moved (
              if is_dropped h (codes "shop") table then none else lookup h table.hostname_to_route))
apply_lem_example = apply_lem (codes "shop") moved table table-IsOwned
