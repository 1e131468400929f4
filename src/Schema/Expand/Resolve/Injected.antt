-- ===== src/Schema/Expand/Resolve/Injected.antt =====
-- What a config that `ResolveEnv` (internal/schema/env.go) has resolved holds.
use devm.Base.{
  ℕ, suc, ◌≡◌, refl, ◌∙◌, ◌⊎◌, inl, inr, true, some, List, [], ◌∷◌, arith, is_nil, All, Bool-cases,
  Bytes, codes, bytes_eq, has_prefix, Option-cases,
}
use devm.Base.Assoc.{Map, lookup, insert, lookup-insert}
use mathlib.Core.Path.{subst}
use devm.Base.Names.{keys, sorted_set}
use devm.Schema.Config.{Config, EnvValue, Service}
use devm.Schema.Expand.{ExpandError, expand_workspace}
use devm.Schema.Expand.Resolve.{
  EnvError, in_project, check_path, append_path, resolve_path, resolve_values, resolve_services,
  check_keys, check_service_keys, workspace_key, is_sandbox_key, literal_of, inject, commit,
  resolve_env,
}

abbrev pub IsAbsolute : Bytes → Type 0
IsAbsolute p = has_prefix p (codes "/") ≡ true

-- The two variables that devm owns, and a path of absolute entries.
pub record IsResolved (root : Bytes) (c : Config) : Type 0 where
  pub workspace : lookup workspace_key c.env ≡ some (literal_of root)
  pub sandbox : lookup is_sandbox_key c.env ≡ some (literal_of (codes "1"))
  pub absolute : All IsAbsolute c.path

abbrev Paths : EnvError ⊎ List Bytes → Type 0
Paths (inl e) = Unit
Paths (inr ps) = All IsAbsolute ps

abbrev Entry : EnvError ⊎ Bytes → Type 0
Entry (inl e) = Unit
Entry (inr p) = IsAbsolute p

check_path-Entry : (i : ℕ) (r : ExpandError ⊎ Bytes) → Entry (check_path i r)
unfolding check_path
check_path-Entry i (inl e) = tt
check_path-Entry i (inr out) = elim (Bool-cases (is_nil out)) [
  | inl empty ↦ rw (empty) tt
  | inr full ↦ elim (Bool-cases (has_prefix out (codes "~"))) [
    | inl tilde ↦ rw (full, tilde) tt
    | inr plain ↦ elim (Bool-cases (has_prefix out (codes "/"))) [
      | inl absolute ↦ rw (full, plain, absolute) absolute
      | inr relative ↦ rw (full, plain, relative) tt
    ]
  ]
]

append_path-Paths :
    (r : EnvError ⊎ Bytes) (rs : EnvError ⊎ List Bytes)
    → Entry r
    → Paths rs
    → Paths (append_path r rs)
unfolding append_path
append_path-Paths (inl e) rs h hs = tt
append_path-Paths (inr out) (inl e) h hs = tt
append_path-Paths (inr out) (inr outs) h hs = (h, hs)

resolve_path-Paths : (i : ℕ) (root : Bytes) (ps : List Bytes) → Paths (resolve_path i root ps)
unfolding resolve_path
resolve_path-Paths i root [] = tt
resolve_path-Paths i root (p ∷ ps) =
    append_path-Paths (check_path i (expand_workspace p root)) (resolve_path (suc i) root ps)
      (check_path-Entry i (expand_workspace p root)) (resolve_path-Paths (suc i) root ps)

inr_injective : (r : EnvError ⊎ Config) (c d : Config) → r ≡ inr c → r ≡ inr d → c ≡ d
inr_injective r c d h k = ground arith

commit-IsResolved :
    (c d : Config) (root : Bytes) (path : EnvError ⊎ List Bytes)
    (env : EnvError ⊎ Map Bytes EnvValue) (services : EnvError ⊎ Map Bytes Service)
    → Paths path
    → commit c root path env services ≡ inr d
    → IsResolved root d
unfolding commit inject
commit-IsResolved c d root (inl e) env services h k = ground arith
commit-IsResolved c d root (inr path) (inl e) services h k = ground arith
commit-IsResolved c d root (inr path) (inr env) (inl e) h k = ground arith
commit-IsResolved c d root (inr path) (inr env) (inr services) h k =
    let one = insert workspace_key (literal_of root) env in
    let new : Config = record c { env = inject root env; path = path; services = services } in
    subst (IsResolved root) (inr_injective (inr new) new d refl k) (record {
      workspace =
          lookup-insert workspace_key is_sandbox_key (literal_of (codes "1")) one
          ∙ lookup-insert workspace_key workspace_key (literal_of root) env;
      sandbox = lookup-insert is_sandbox_key is_sandbox_key (literal_of (codes "1")) one;
      absolute = h;
    })

-- A config that `ResolveEnv` returns, when it returns no error, has the two variables that devm
-- owns, WORKSPACE with the given directory and IS_SANDBOX with 1, whatever the config set before,
-- and every entry of its path is absolute.
pub resolve_env-IsResolved :
    (c d : Config) (root : Bytes) → resolve_env c root ≡ inr d → IsResolved root d
unfolding resolve_env
resolve_env-IsResolved c d root h = elim (Option-cases (check_keys in_project c.env)) [
  | inr (e, bad) ↦ ground arith
  | inl good ↦ elim (Option-cases (check_service_keys c.services)) [
    | inr (e, bad) ↦ ground arith
    | inl fine ↦
        commit-IsResolved c d root (resolve_path 0 root c.path)
          (resolve_values in_project root c.env)
          (resolve_services root (sorted_set (keys c.services)) c.services)
          (resolve_path-Paths 0 root c.path) (ground arith)
  ]
]
