-- ===== src/Daemon/Routes/Reading.antt =====
-- What the route table of internal/serviceapi/routes.go reads at a hostname after its steps.
use devm.Base.{
  ◌≡◌, refl, ◌⊎◌, inl, inr, true, false, ◌&&◌, Option, none, some, Bool-cases, List, [], ◌∷◌, arith,
  if◌then◌else◌, ◌==◌, All, Bytes, bytes_beq_iff, bytes_eq,
}
use devm.Base.Assoc.{lookup, lookup-insert, lookup-delete}
use devm.Base.Names.{has}
use devm.Daemon.Routes.{Route, Routes, put_route, put_routes, clear_host, clear_hosts, hostnames}

abbrev pub project_of : Option Route → Option Bytes
project_of none = none
project_of (some rt) = some rt.project

-- Who owns a hostname.
abbrev pub owner_at : Bytes → Routes → Option Bytes
owner_at h r = project_of (lookup h r.hostname_to_route)

-- The last of the routes with a hostname.
abbrev pub last_of : Bytes → List Route → Option Route → Option Route
last_of h [] old = old
last_of h (rt ∷ rts) old = last_of h rts (if rt.hostname == h then some rt else old)

abbrev pub last_exposed : Bytes → List Route → Option Route → Option Route
last_exposed h [] old = old
last_exposed h (rt ∷ rts) old =
    last_exposed h rts (if rt.expose_host && rt.hostname == h then some rt else old)

pub lookup-put_routes :
    (h : Bytes) (rts : List Route) (r : Routes)
    → lookup h (put_routes rts r).hostname_to_route ≡ last_of h rts (lookup h r.hostname_to_route)
unfolding put_routes put_route
lookup-put_routes h [] r = refl
lookup-put_routes h (rt ∷ rts) r =
    rw
      (lookup-put_routes h rts (put_route rt r), lookup-insert h rt.hostname rt r.hostname_to_route)
      refl

lan-put_route :
    (h : Bytes) (rt : Route) (r : Routes)
    → lookup h (put_route rt r).lan_hostname_to_route
      ≡ (if rt.expose_host && rt.hostname == h then some rt else lookup h r.lan_hostname_to_route)
unfolding put_route
lan-put_route h rt r = ground (arith, lookup-insert h rt.hostname rt r.lan_hostname_to_route)

pub lan-put_routes :
    (h : Bytes) (rts : List Route) (r : Routes)
    → lookup h (put_routes rts r).lan_hostname_to_route
      ≡ last_exposed h rts (lookup h r.lan_hostname_to_route)
unfolding put_routes
lan-put_routes h [] r = refl
lan-put_routes h (rt ∷ rts) r =
    rw (lan-put_routes h rts (put_route rt r), lan-put_route h rt r) refl

pub lookup-clear_hosts :
    (h : Bytes) (hs : List Bytes) (r : Routes)
    → lookup h (clear_hosts hs r).hostname_to_route
      ≡ (if has h hs then none else lookup h r.hostname_to_route)
unfolding clear_hosts clear_host
lookup-clear_hosts h [] r = refl
lookup-clear_hosts h (j ∷ hs) r =
    rw (lookup-clear_hosts h hs (clear_host j r), lookup-delete h j r.hostname_to_route)
      (ground arith)

pub lan-clear_hosts :
    (h : Bytes) (hs : List Bytes) (r : Routes)
    → lookup h (clear_hosts hs r).lan_hostname_to_route
      ≡ (if has h hs then none else lookup h r.lan_hostname_to_route)
unfolding clear_hosts clear_host
lan-clear_hosts h [] r = refl
lan-clear_hosts h (j ∷ hs) r =
    rw (lan-clear_hosts h hs (clear_host j r), lookup-delete h j r.lan_hostname_to_route)
      (ground arith)

-- The steps on the two maps leave the lists of the projects.
pub put_routes_keeps :
    (rts : List Route) (r : Routes)
    → (put_routes rts r).projects_to_hostnames ≡ r.projects_to_hostnames
unfolding put_routes put_route
put_routes_keeps [] r = refl
put_routes_keeps (rt ∷ rts) r = put_routes_keeps rts (put_route rt r)

pub clear_hosts_keeps :
    (hs : List Bytes) (r : Routes)
    → (clear_hosts hs r).projects_to_hostnames ≡ r.projects_to_hostnames
unfolding clear_hosts clear_host
clear_hosts_keeps [] r = refl
clear_hosts_keeps (h ∷ hs) r = clear_hosts_keeps hs (clear_host h r)

-- The routes are all of one project.
abbrev pub AllOf : Bytes → List Route → Type 0
AllOf project rts = All (λ rt. rt.project ≡ project) rts

pub project_of-last_of :
    (project h : Bytes) (rts : List Route) (old : Option Route)
    → AllOf project rts
    → project_of (last_of h rts old)
      ≡ (if has h (hostnames rts) then some project else project_of old)
project_of-last_of project h [] old all_of = refl
project_of-last_of project h (rt ∷ rts) old (own, all_of) = ground (
  arith,
  project_of-last_of project h rts (some rt) all_of,
  project_of-last_of project h rts old all_of,
)

-- What the LAN map reads is one of the routes, or stood there before.
pub last_exposed_cases :
    (project h : Bytes) (rts : List Route) (old : Option Route) (rt : Route)
    → AllOf project rts
    → last_exposed h rts old ≡ some rt
    → (old ≡ some rt)
      ⊎ ((rt.expose_host ≡ true) × (rt.project ≡ project) × (has h (hostnames rts) ≡ true))
last_exposed_cases project h [] old rt all_of e = inl e
last_exposed_cases project h (x ∷ rts) old rt (own, all_of) e =
    elim (last_exposed_cases project h rts _ rt all_of e) [
      | inr (exposed, mine, there) ↦ inr (exposed, mine, ground (arith, there))
      | inl now ↦ elim (Bool-cases (x.expose_host && x.hostname == h)) [
        | inr other ↦ inl (ground arith)
        | inl taken ↦ inr (ground arith)
      ]
    ]

-- What the table reads is one of the routes, with its hostname, or stood there before.
pub last_of_cases :
    (h : Bytes) (rts : List Route) (old : Option Route) (rt : Route)
    → last_of h rts old ≡ some rt
    → (old ≡ some rt) ⊎ (rt.hostname ≡ h)
last_of_cases h [] old rt e = inl e
last_of_cases h (x ∷ rts) old rt e = elim (last_of_cases h rts _ rt e) [
  | inr named ↦ inr named
  | inl now ↦ ground (arith, bytes_beq_iff x.hostname h)
]

pub last_of-absent :
    (h : Bytes) (rts : List Route) (old : Option Route)
    → has h (hostnames rts) ≡ false
    → last_of h rts old ≡ old
last_of-absent h [] old e = refl
last_of-absent h (x ∷ rts) old e = ground (arith, last_of-absent h rts old)

pub last_exposed-absent :
    (h : Bytes) (rts : List Route) (old : Option Route)
    → has h (hostnames rts) ≡ false
    → last_exposed h rts old ≡ old
last_exposed-absent h [] old e = refl
last_exposed-absent h (x ∷ rts) old e = ground (arith, last_exposed-absent h rts old)
