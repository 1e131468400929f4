-- ===== src/Policy/Authority.antt =====
-- internal/serviceapi/policyauthority.go: the daemon's egress decision, its per-project allowlists
-- and modes, the unix-socket listeners, and the gate on secrets in request paths. The socket calls
-- of the operating system are arguments that say whether they succeed.
pub mod Decisions
pub mod Consistent
use devm.Base.{
  ℕ, Bool, true, false, Option, none, some, List, [], if◌then◌else◌, ◌==◌, nat_eq, bool_eq, pair_eq,
  Bytes, bytes_eq,
}
use devm.Base.Assoc.{Map, lookup, insert, delete}
use devm.Policy.Match.{allowed, strip_port}
use devm.Policy.Denials.{Denials, record_denial, clear_project, invalidate_resolved}
use devm.Policy.Gate.{Backend, gate_reject}

pub data Mode : Type 0 where
  restricted passthrough : Mode

-- `listeners` holds the socket path of each serving project.
pub record Authority : Type 0 where
  pub allow : Map Bytes (List Bytes)
  pub modes : Map Bytes Mode
  pub listeners : Map Bytes Bytes
  pub denials : Denials
  pub secrets : Option Backend

unfoldable pub new_authority : Authority
new_authority = record { allow = []; modes = []; listeners = []; denials = []; secrets = none }

-- A project with no entry has Go's nil slice, which allows nothing.
unfoldable pub allowlist_for : Bytes → Authority → List Bytes
allowlist_for project a = elim (lookup project a.allow) [ none ↦ [] | some l ↦ l ]

unfoldable pub mode_for : Bytes → Authority → Mode
mode_for project a = elim (lookup project a.modes) [ none ↦ restricted | some m ↦ m ]

unfoldable pub set_allowlist : Bytes → List Bytes → Authority → Authority
set_allowlist project list a = record a {
  allow = insert project list a.allow;
  denials = invalidate_resolved project (allowed list) a.denials;
}

unfoldable pub set_mode : Bytes → Mode → Authority → Authority
set_mode project mode a = record a { modes = insert project mode a.modes }

pub data ServeError : Type 0 where
  no_directory no_listener : ServeError

-- What EnsureServing does once no other listener of the project is left.
open_listener : Bytes → Bytes → Bool → Bool → Authority → Authority × Option ServeError
open_listener project sock false bound a = (a, some no_directory)
open_listener project sock true false a = (a, some no_listener)
open_listener project sock true true a =
    (record a { listeners = insert project sock a.listeners }, none)

-- `made` and `bound` are the outcomes of os.MkdirAll and net.Listen.
unfoldable pub ensure_serving :
    Bytes → Bytes → (made bound : Bool) → Authority → Authority × Option ServeError
unfolding open_listener
ensure_serving project sock made bound a = elim (lookup project a.listeners) [
  | none ↦ open_listener project sock made bound a
  | some old ↦
      if old == sock
      then (a, none)
      else open_listener project sock made bound
          (record a { listeners = delete project a.listeners })
]

unfoldable pub stop_serving : Bytes → Authority → Authority
stop_serving project a = record a {
  listeners = delete project a.listeners;
  modes = delete project a.modes;
}

unfoldable pub purge_project : Bytes → Authority → Authority
purge_project project a = record a {
  listeners = delete project a.listeners;
  allow = delete project a.allow;
  modes = delete project a.modes;
  denials = clear_project project a.denials;
}

unfoldable pub use_secret_backend : Option Backend → Authority → Authority
use_secret_backend b a = record a { secrets = b }

unfoldable pub decide : Bytes → Bytes → Bytes → Bytes → ℕ → Authority → Authority × Bool
decide project host path method now a = elim (mode_for project a) [
  | passthrough ↦ (a, true)
  | restricted ↦
      if allowed (allowlist_for project a) host path
      then (a, true)
      else (record a { denials = record_denial project host path method now a.denials }, false)
]

-- The answer to iron-proxy; a rejection carries the response that devm wrote.
pub data Response : Type 0 where
  proceed : Response
  reject_secret : (name : Bytes) → Response
  reject_policy : (host method url : Bytes) → Response

pub record HttpRequest : Type 0 where
  pub host : Bytes
  pub method : Bytes
  pub url : Bytes

abbrev pub status_code : Response → Option ℕ
status_code proceed = none
status_code (reject_secret name) = some 400
status_code (reject_policy host method url) = some 403

-- `url_path` is the path that Go's url.Parse finds in the request's URL, empty when it fails.
unfoldable pub transform_request :
    (url_path : Bytes → Bytes) → Bytes → HttpRequest → ℕ → Authority → Authority × Response
transform_request url_path project r now a =
    let host = strip_port r.host in
    let path = url_path r.url in
    elim (gate_reject a.secrets project path) [
      | some name ↦ (a, reject_secret name)
      | none ↦
          let answer = decide project host path r.method now a in
          (answer.0, if answer.1 then proceed else reject_policy host r.method r.url)
    ]
