-- ===== src/Daemon/Routes/Owned.antt =====
-- Every hostname of the route table (internal/serviceapi/routes.go) belongs to the project that
-- lists it, and the LAN map holds only hostnames whose owner opted in.
use devm.Base.{
  ◌≡◌, refl, ◌↔◌, inl, inr, true, false, none, some, Option-cases, Bool-cases, List, [], ◌∷◌, arith,
  ◌==◌, eq_of_==, All, Bytes, bytes_beq_iff, bytes_eq, has_prefix,
}
use mathlib.Core.Path.{subst}
use devm.Base.Assoc.{lookup}
use devm.Base.Names.{has}
use devm.Base.Checks.{reject_if}
use devm.Daemon.Routes.{
  Route, Routes, hostnames_of, hostnames, reserved_route_prefix, is_reserved_files_hostname,
  is_reserved_preview_hostname, check_owner,
}
use devm.Daemon.Routes.Reading.{owner_at}

pub record IsOwned (r : Routes) : Type 0 where
  pub named : (h : Bytes) (rt : Route) → lookup h r.hostname_to_route ≡ some rt → rt.hostname ≡ h
  pub listed :
      (project h : Bytes) → (has h (hostnames_of project r) ≡ true) ↔ (owner_at h r ≡ some project)
  pub exposed :
      (h : Bytes) (rt : Route)
      → lookup h r.lan_hostname_to_route ≡ some rt
      → (rt.expose_host ≡ true) × (owner_at h r ≡ some rt.project)

-- No other project owns the hostname.
abbrev pub IsMine : Bytes → Routes → Bytes → Type 0
IsMine project r h = (q : Bytes) → owner_at h r ≡ some q → q ≡ project

pub check_owner_iff :
    (project : Bytes) (r : Routes) (item : Route)
    → (check_owner project r item ≡ none) ↔ IsMine project r item.hostname
unfolding check_owner reject_if
check_owner_iff project r item = elim (Option-cases (lookup item.hostname r.hostname_to_route)) [
  | inl missing ↦ (λ e q own. absurd (ground arith), λ mine. rw (missing, check_owner) refl)
  | inr (old, found) ↦ (
    λ e q own. ground (arith, bytes_beq_iff old.project project),
    λ mine. ground (arith, mine old.project (rw found refl), bytes_beq_iff old.project project),
  )
]

-- What a project may register: no reserved name of its own, and no name of another project.
pub record IsFreeItem (project : Bytes) (r : Routes) (item : Route) : Type 0 where
  pub no_prefix : has_prefix item.hostname reserved_route_prefix ≡ false
  pub no_files : is_reserved_files_hostname item.hostname project r.tld ≡ false
  pub no_preview : is_reserved_preview_hostname item.hostname project r.tld ≡ false
  pub mine : IsMine project r item.hostname

-- What holds of the hostnames of the items holds of every name among them.
pub All-hostnames :
    (P : Bytes → Type 0) (rts : List Route) (h : Bytes)
    → All (λ rt. P rt.hostname) rts
    → has h (hostnames rts) ≡ true
    → P h
All-hostnames P [] h all_of there = absurd (cc there)
All-hostnames P (rt ∷ rts) h (here, all_of) there = elim (Bool-cases (rt.hostname == h)) [
  | inl same ↦ subst P (eq_of_== rt.hostname h same) here
  | inr other ↦ All-hostnames P rts h all_of (ground arith)
]
