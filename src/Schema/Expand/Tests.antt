-- ===== src/Schema/Expand/Tests.antt =====
-- Env values that are expanded, and the theorem at one of them.
use devm.Base.{◌≡◌, refl, false, inl, inr}
use devm.Base.{codes, bytes_eq}
use devm.Schema.Expand.{
  trailing_dollar, unterminated, unknown_variable, is_ident_start, is_ident_cont, cut_brace,
  span_ident, named, read_dollar, prepend, expand_from, expand_workspace,
}
use devm.Base.{none, List, [], ◌∷◌, Bytes}
use devm.Base.Assoc.{lookup, insert}
use devm.Base.Names.{insert_name, sorted_set}
use devm.Schema.Config.{Config}
use devm.Schema.Expand.Resolve.{
  in_project, reserved_key, relative_path, literal_of, check_keys, check_service_keys, check_path,
  append_path, resolve_path, resolve_value, resolve_values, resolve_services, inject, commit,
  resolve_env,
}
use devm.Schema.Expand.Resolve.Injected.{IsResolved, resolve_env-IsResolved}
use devm.Schema.Expand.Exact.{IsExpansion, expand_workspace_iff}

-- One line that opens the code of the expansion.
expansion : Unit {0}
unfolding is_ident_start is_ident_cont cut_brace span_ident named read_dollar prepend expand_from
    expand_workspace
expansion = tt

expanded_test :
    expand_workspace (codes "$WORKSPACE/bin:${WORKSPACE}x$$5") (codes "/src")
    ≡ inr (codes "/src/bin:/srcx$5")
unfolding expansion
expanded_test = refl

refused_tests :
    (expand_workspace (codes "a$") (codes "/src") ≡ inl trailing_dollar)
    × (expand_workspace (codes "${WORKSPACE") (codes "/src") ≡ inl unterminated)
    × (expand_workspace (codes "$WORKSPACES") (codes "/src")
        ≡ inl (unknown_variable (codes "WORKSPACES")))
unfolding expansion
refused_tests = (refl, refl, refl)

expand_workspace_iff_example :
    IsExpansion (codes "/src") (codes "$WORKSPACE/bin:${WORKSPACE}x$$5") (codes "/src/bin:/srcx$5")
expand_workspace_iff_example =
    (expand_workspace_iff (codes "$WORKSPACE/bin:${WORKSPACE}x$$5") (codes "/src")
        (codes "/src/bin:/srcx$5")).0
      expanded_test

abbrev config : List Bytes → Config
config path = record {
  project = codes "shop";
  docker = false;
  allow = [];
  env = (codes "BIN", literal_of (codes "$WORKSPACE/bin")) ∷ [];
  services = [];
  volumes = [];
  repos = [];
  packages = [];
  path = path;
  disk = none;
  memory = none;
  cpu = none;
  functions = [];
  guest = record { propose = none; passthrough = none };
  mac_services = [];
  peer_services = [];
}

resolved_tests :
    (resolve_env (config (codes "${WORKSPACE}/x" ∷ [])) (codes "/src")
      ≡ inr (record (config (codes "/src/x" ∷ [])) {
        env =
            (codes "BIN", literal_of (codes "/src/bin"))
            ∷ (codes "WORKSPACE", literal_of (codes "/src"))
            ∷ (codes "IS_SANDBOX", literal_of (codes "1"))
            ∷ [];
      }))
    × (resolve_env (config (codes "/bin" ∷ codes "x" ∷ [])) (codes "/src") ≡ inl (relative_path 1))
    × (resolve_env (record (config []) { env = (codes "IS_SANDBOX", literal_of []) ∷ [] }) []
        ≡ inl (reserved_key in_project (codes "IS_SANDBOX")))
unfolding expansion check_keys check_service_keys check_path append_path resolve_path resolve_value
    resolve_values resolve_services inject commit resolve_env lookup insert insert_name sorted_set
resolved_tests = (refl, refl, refl)

resolve_env-IsResolved_example : IsResolved (codes "/src") (record (config (codes "/src/x" ∷ [])) {
  env =
      (codes "BIN", literal_of (codes "/src/bin"))
      ∷ (codes "WORKSPACE", literal_of (codes "/src"))
      ∷ (codes "IS_SANDBOX", literal_of (codes "1"))
      ∷ [];
})
resolve_env-IsResolved_example =
    resolve_env-IsResolved (config (codes "${WORKSPACE}/x" ∷ []))
      (record (config (codes "/src/x" ∷ [])) {
        env =
            (codes "BIN", literal_of (codes "/src/bin"))
            ∷ (codes "WORKSPACE", literal_of (codes "/src"))
            ∷ (codes "IS_SANDBOX", literal_of (codes "1"))
            ∷ [];
      })
      (codes "/src") (resolved_tests.0)
