-- ===== src/Daemon/Routes.antt =====
-- internal/serviceapi/routes.go: which hostname leads to which backend, and which project owns it;
-- and the reserved hostnames of reserved_files_route.go and reserved_preview_route.go. The mutex
-- makes each operation one step.
use devm.Base.{
  Bool, ◌||◌, not, Option, none, some, List, [], ◌∷◌, ◌++◌, map, length, ℕ, if◌then◌else◌, ◌==◌,
  Bytes, codes, bytes_eq, has_prefix, is_nil, ◌&&◌,
}
use devm.Base.Int.{ℤ}
use devm.Base.Assoc.{Map, lookup, insert, delete}
use devm.Base.Checks.{◌or_else◌, reject_if, each}
use devm.Base.Names.{has}
pub mod Reading
pub mod Owned
pub mod Swap
pub mod Steps
pub mod Runs
pub mod Unmoved
pub mod Isolated
pub mod Accepted
mod Tests

pub data RouteMode : Type 0 where
  mode_vm mode_local : RouteMode

pub record Route : Type 0 where
  pub hostname : Bytes
  pub backend_host : Bytes
  pub backend_port : ℤ
  pub mode : RouteMode
  pub direct : Bool
  pub project : Bytes
  pub expose_host : Bool

pub record Routes : Type 0 where
  pub projects_to_hostnames : Map Bytes (List Bytes)
  pub hostname_to_route : Map Bytes Route
  pub lan_hostname_to_route : Map Bytes Route
  pub tld : Bytes

unfoldable pub new_routes : Bytes → Routes
new_routes tld = record {
  projects_to_hostnames = [];
  hostname_to_route = [];
  lan_hostname_to_route = [];
  tld = tld;
}

-- Reading a missing key gives the nil slice.
unfoldable pub hostnames_of : Bytes → Routes → List Bytes
hostnames_of project r = elim (lookup project r.projects_to_hostnames) [ none ↦ [] | some hs ↦ hs ]

abbrev pub reserved_route_prefix : Bytes
reserved_route_prefix = codes "_devm."

abbrev dotted : Bytes → Bytes → Bytes → Bytes
dotted name project tld = name ++ (project ++ (codes "." ++ tld))

unfoldable pub is_reserved_files_hostname : Bytes → Bytes → Bytes → Bool
is_reserved_files_hostname hostname project tld = hostname == dotted (codes "files.") project tld

unfoldable pub is_reserved_preview_hostname : Bytes → Bytes → Bytes → Bool
is_reserved_preview_hostname hostname project tld =
    hostname == dotted (codes "preview.") project tld

unfoldable pub is_daemon_reserved_hostname : Bytes → Bytes → Bytes → Bool
is_daemon_reserved_hostname hostname project tld =
    has_prefix hostname reserved_route_prefix
    || (is_reserved_files_hostname hostname project tld
        || is_reserved_preview_hostname hostname project tld)

pub data RouteError : Type 0 where
  reserved_by_prefix reserved_for_files reserved_for_preview : Bytes → RouteError
  owned_by_other : Bytes → Bytes → RouteError
  not_reserved : Bytes → RouteError

unfoldable pub check_owner : Bytes → Routes → Route → Option RouteError
check_owner project r item = elim (lookup item.hostname r.hostname_to_route) [
  | none ↦ none
  | some old ↦ reject_if (not (old.project == project)) (owned_by_other item.hostname old.project)
]

unfoldable pub check_names : Bytes → Bytes → Route → Option RouteError
check_names project tld item =
    reject_if (is_reserved_files_hostname item.hostname project tld)
      (reserved_for_files item.hostname)
    or_else reject_if (is_reserved_preview_hostname item.hostname project tld)
        (reserved_for_preview item.hostname)

unfoldable pub check_prefix : Route → Option RouteError
check_prefix item =
    reject_if (has_prefix item.hostname reserved_route_prefix) (reserved_by_prefix item.hostname)

-- The three loops of `Apply` that reject the whole batch.
unfoldable pub check_items : Bytes → List Route → Routes → Option RouteError
check_items project items r =
    each check_prefix items
    or_else each (check_names project r.tld) items
    or_else each (check_owner project r) items

-- One route into both maps.
unfoldable pub put_route : Route → Routes → Routes
put_route rt r = record r {
  hostname_to_route = insert rt.hostname rt r.hostname_to_route;
  lan_hostname_to_route =
      if rt.expose_host
      then insert rt.hostname rt r.lan_hostname_to_route
      else r.lan_hostname_to_route;
}

unfoldable pub put_routes : List Route → Routes → Routes
unfolding put_route
put_routes [] r = r
put_routes (rt ∷ rts) r = put_routes rts (put_route rt r)

-- A hostname out of both maps.
unfoldable pub clear_host : Bytes → Routes → Routes
clear_host h r = record r {
  hostname_to_route = delete h r.hostname_to_route;
  lan_hostname_to_route = delete h r.lan_hostname_to_route;
}

unfoldable pub clear_hosts : List Bytes → Routes → Routes
unfolding clear_host
clear_hosts [] r = r
clear_hosts (h ∷ hs) r = clear_hosts hs (clear_host h r)

-- The reserved routes among the hostnames, which survive the swap.
unfoldable pub reserved_routes : Bytes → List Bytes → Routes → List Route
reserved_routes project [] r = []
reserved_routes project (h ∷ hs) r =
    let rest = reserved_routes project hs r in
    if is_daemon_reserved_hostname h project r.tld
    then elim (lookup h r.hostname_to_route) [ none ↦ rest | some rt ↦ rt ∷ rest ]
    else rest

abbrev pub hostnames : List Route → List Bytes
hostnames rts = map (λ rt. rt.hostname) rts

-- The part of `Apply` behind the checks.
unfoldable pub swap : Bytes → List Route → Routes → Routes
swap project items r =
    let hs = hostnames_of project r in
    let reserved = reserved_routes project hs r in
    let swapped = put_routes reserved (put_routes items (clear_hosts hs r)) in
    record swapped {
      projects_to_hostnames =
          insert project (hostnames items ++ hostnames reserved) swapped.projects_to_hostnames;
    }

-- `Apply`: the error, if any, and the table behind it.
unfoldable pub apply : Bytes → List Route → Routes → Option RouteError × Routes
apply project items r = elim (check_items project items r) [
  | some e ↦ (some e, r)
  | none ↦ (none, swap project items r)
]

-- A hostname at the end of a project's list, unless it is there.
unfoldable pub track : Bytes → Bytes → Routes → Routes
track project h r = if has h (hostnames_of project r) then r else record r {
  projects_to_hostnames =
      insert project (hostnames_of project r ++ (h ∷ [])) r.projects_to_hostnames;
}

unfoldable pub apply_reserved_route : Bytes → Route → Routes → Option RouteError × Routes
apply_reserved_route project route r =
    elim (reject_if (not (is_daemon_reserved_hostname route.hostname project r.tld))
        (not_reserved route.hostname)
      or_else check_owner project r route) [
        | some e ↦ (some e, r)
        | none ↦ (none, track project route.hostname (put_route route r))
      ]

unfoldable pub remove : Bytes → Routes → Routes
remove project r =
    let cleared = clear_hosts (hostnames_of project r) r in
    record cleared { projects_to_hostnames = delete project cleared.projects_to_hostnames }

unfoldable pub lan_lookup : Bytes → Routes → Option Route
lan_lookup host r = lookup host r.lan_hostname_to_route

unfoldable pub count_lan_routes : Routes → ℕ
count_lan_routes r = length r.lan_hostname_to_route

-- `Lookup`, for the proxy of a project; the empty project skips the check.
unfoldable pub lookup_route : Bytes → Bytes → Routes → Option Route
lookup_route host project r = elim (lookup host r.hostname_to_route) [
  | none ↦ none
  | some rt ↦
      if rt.direct
      then none
      else if not (is_nil project) && not (rt.project == project)
      then none
      else some rt
]
