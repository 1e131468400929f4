-- ===== src/Schema/Config.antt =====
-- The types of devm.yaml (internal/schema/schema.go and repo.go). A pointer that may be nil is an
-- `Option`, a map an association list.
use devm.Base.{
  Bool, true, false, Option, none, some, List, [], ◌++◌, nat_eq, bool_eq, pair_eq, Bytes, codes,
  bytes_eq,
}
use devm.Base.Int.{ℤ, pos}
use devm.Base.Assoc.{Map, lookup}
use devm.Schema.Allow.{AllowEntry}

-- An env value: a text, or the name of a secret.
pub record EnvValue : Type 0 where
  pub literal : Bytes
  pub secret : Option Bytes

-- `TokenFor`.
unfoldable pub token_for : Bytes → Bytes
token_for name = codes "__DEVM_SECRET_" ++ (name ++ codes "__")

unfoldable pub render : EnvValue → Bytes
render v = elim (v.secret) [ none ↦ v.literal | some name ↦ token_for name ]

pub record Template : Type 0 where
  pub source : Bytes
  pub output : Bytes
  pub sudo : Bool

pub record Service : Type 0 where
  pub port : ℤ
  pub bind_ip : Bytes
  pub hostname : Bytes
  pub direct : Bool
  pub expose_host : Bool
  pub env : Map Bytes EnvValue
  pub templates : List Template
  pub exec_func : Bytes
  pub exec_argv : List Bytes
  pub work_dir : Bytes
  pub restart : Bytes
  pub after : List Bytes
  pub user : Bytes
  pub systemd : Bytes

-- Go's zero value, which reading a missing key of a map gives.
abbrev pub zero_service : Service
zero_service = record {
  port = pos 0;
  bind_ip = [];
  hostname = [];
  direct = false;
  expose_host = false;
  env = [];
  templates = [];
  exec_func = [];
  exec_argv = [];
  work_dir = [];
  restart = [];
  after = [];
  user = [];
  systemd = [];
}

pub record Volume : Type 0 where
  pub path : Bytes
  pub label : Option Bytes
  pub ignore : List Bytes

pub record RepoConfig : Type 0 where
  pub url : Option Bytes
  pub secret : Bytes
  pub label : Option Bytes
  pub volume : Option Bool
  pub primary : Option Bool
  pub ignore : List Bytes
  pub commands : List Bytes

pub record Guest : Type 0 where
  pub propose : Option Bool
  pub passthrough : Option Bool

pub record MacService : Type 0 where
  pub name : Bytes
  pub port : ℤ

-- The base image has no fields and a project only its name.
pub record Config : Type 0 where
  pub project : Bytes
  pub docker : Bool
  pub allow : List AllowEntry
  pub env : Map Bytes EnvValue
  pub services : Map Bytes Service
  pub volumes : Map Bytes Volume
  pub repos : Map Bytes RepoConfig
  pub packages : List Bytes
  pub path : List Bytes
  pub disk : Option Bytes
  pub memory : Option Bytes
  pub cpu : Option ℤ
  pub functions : List Bytes
  pub guest : Guest
  pub mac_services : List (Option MacService)
  pub peer_services : List (Option Bytes)

unfoldable pub service_of : Config → Bytes → Service
service_of c name = elim (lookup name c.services) [ none ↦ zero_service | some s ↦ s ]

-- The gates of gdevm, open unless they are closed.
abbrev or_true : Option Bool → Bool
or_true none = true
or_true (some b) = b

unfoldable pub guest_propose_allowed : Config → Bool
guest_propose_allowed c = or_true (c.guest.propose)

unfoldable pub guest_passthrough_allowed : Config → Bool
guest_passthrough_allowed c = or_true (c.guest.passthrough)
