-- ===== src/Schema/Expand/Resolve.antt =====
-- `ResolveEnv` (internal/schema/env.go): the variables of a config. An error leaves the config as it
-- is, so the result has either the error or the new config.
use devm.Base.{
  ℕ, suc, ◌⊎◌, inl, inr, not, Option, none, some, List, [], ◌∷◌, is_nil, if◌then◌else◌, Bytes,
  codes, bytes_eq, has_prefix,
}
use devm.Base.Assoc.{Map, lookup, insert}
use devm.Base.Names.{has, keys, sorted_set}
use devm.Schema.Config.{Config, EnvValue, Service}
use devm.Schema.Expand.{ExpandError, expand_workspace}
pub mod Injected

-- Where a variable stands: in the project or in a service.
pub data EnvPlace : Type 0 where
  in_project : EnvPlace
  in_service : Bytes → EnvPlace

pub data EnvError : Type 0 where
  reserved_key : EnvPlace → (key : Bytes) → EnvError
  bad_value : EnvPlace → (key : Bytes) → ExpandError → EnvError
  bad_path : (index : ℕ) → ExpandError → EnvError
  empty_path tilde_path relative_path : (index : ℕ) → EnvError

abbrev pub workspace_key : Bytes
workspace_key = codes "WORKSPACE"

abbrev pub is_sandbox_key : Bytes
is_sandbox_key = codes "IS_SANDBOX"

abbrev reserved_env_keys : List Bytes
reserved_env_keys = workspace_key ∷ is_sandbox_key ∷ []

unfoldable pub check_keys : EnvPlace → Map Bytes EnvValue → Option EnvError
check_keys place [] = none
check_keys place ((k, v) ∷ env) =
    let rest = check_keys place env in
    if has k reserved_env_keys then some (reserved_key place k) else rest

unfoldable pub check_service_keys : Map Bytes Service → Option EnvError
unfolding check_keys
check_service_keys [] = none
check_service_keys ((name, s) ∷ services) =
    let rest = check_service_keys services in
    elim (check_keys (in_service name) s.env) [ some e ↦ some e | none ↦ rest ]

-- One entry of the path, and its expansion.
unfoldable pub check_path : ℕ → ExpandError ⊎ Bytes → EnvError ⊎ Bytes
check_path i (inl e) = inl (bad_path i e)
check_path i (inr out) =
    if is_nil out
    then inl (empty_path i)
    else if has_prefix out (codes "~")
    then inl (tilde_path i)
    else if not (has_prefix out (codes "/"))
    then inl (relative_path i)
    else inr out

unfoldable pub append_path : EnvError ⊎ Bytes → EnvError ⊎ List Bytes → EnvError ⊎ List Bytes
append_path (inl e) rest = inl e
append_path (inr out) (inl e) = inl e
append_path (inr out) (inr outs) = inr (out ∷ outs)

unfoldable pub resolve_path : ℕ → Bytes → List Bytes → EnvError ⊎ List Bytes
unfolding check_path append_path
resolve_path i root [] = inr []
resolve_path i root (p ∷ ps) =
    append_path (check_path i (expand_workspace p root)) (resolve_path (suc i) root ps)

-- A secret is passed through, a literal is expanded.
unfoldable pub resolve_value : EnvPlace → (root key : Bytes) → EnvValue → EnvError ⊎ EnvValue
resolve_value place root key v = elim (v.secret) [
  | some name ↦ inr v
  | none ↦ elim (expand_workspace v.literal root) [
    | inl e ↦ inl (bad_value place key e)
    | inr out ↦ inr (record { literal = out; secret = none })
  ]
]

unfoldable pub resolve_values :
    EnvPlace → Bytes → Map Bytes EnvValue → EnvError ⊎ Map Bytes EnvValue
unfolding resolve_value
resolve_values place root [] = inr []
resolve_values place root ((k, v) ∷ env) = elim (resolve_value place root k v) [
  | inl e ↦ inl e
  | inr out ↦ elim (resolve_values place root env) [
    | inl e ↦ inl e
    | inr outs ↦ inr ((k, out) ∷ outs)
  ]
]

-- The services that have an env, by name.
unfoldable pub resolve_services :
    Bytes → List Bytes → Map Bytes Service → EnvError ⊎ Map Bytes Service
unfolding resolve_values
resolve_services root [] services = inr services
resolve_services root (name ∷ names) services = elim (lookup name services) [
  | none ↦ resolve_services root names services
  | some s ↦ elim (resolve_values (in_service name) root s.env) [
    | inl e ↦ inl e
    | inr env ↦ resolve_services root names (insert name (record s { env = env }) services)
  ]
]

abbrev pub literal_of : Bytes → EnvValue
literal_of b = record { literal = b; secret = none }

unfoldable pub inject : Bytes → Map Bytes EnvValue → Map Bytes EnvValue
inject root env =
    insert is_sandbox_key (literal_of (codes "1")) (insert workspace_key (literal_of root) env)

-- The commit, if the path, the env and the services are all resolved.
unfoldable pub commit :
    Config
    → Bytes
    → EnvError ⊎ List Bytes
    → EnvError ⊎ Map Bytes EnvValue
    → EnvError ⊎ Map Bytes Service
    → EnvError ⊎ Config
unfolding inject
commit c root (inl e) env services = inl e
commit c root (inr path) (inl e) services = inl e
commit c root (inr path) (inr env) (inl e) = inl e
commit c root (inr path) (inr env) (inr services) =
    inr (record c { env = inject root env; path = path; services = services })

unfoldable pub resolve_env : Config → Bytes → EnvError ⊎ Config
unfolding commit check_service_keys resolve_services resolve_path
resolve_env c root = elim (check_keys in_project c.env) [
  | some e ↦ inl e
  | none ↦ elim (check_service_keys c.services) [
    | some e ↦ inl e
    | none ↦
        commit c root (resolve_path 0 root c.path) (resolve_values in_project root c.env)
          (resolve_services root (sorted_set (keys c.services)) c.services)
  ]
]
