-- ===== src/Schema/Functions.antt =====
-- References to functions of devm.sh: `Config.validateFunctionReferences` and the commands loop of
-- `Config.Validate` (internal/schema/schema.go).
use devm.Base.{
  ◌≡◌, ◌↔◌, ◌≢◌, true, ◌&&◌, not, Option, none, [], arith, is_nil, is_nil_iff, All, Bytes, bytes_eq,
}
use devm.Base.Names.{has, keys, sorted_set}
use devm.Base.Words.{is_function_name}
use devm.Base.Owners.{All-sorted_set}
use devm.Base.Checks.{
  ◌or_else◌, reject_if, each, wrap, ◌and_also◌, reject_if_iff, each_iff, wrap_iff, iff_trans,
}
use devm.Schema.Config.{Config, service_of}
use devm.Schema.Repos.{repo_of, validate_commands}

pub data FunctionError : Type 0 where
  command_undefined exec_undefined : (entry function : Bytes) → FunctionError
  command_misnamed : (repo function : Bytes) → FunctionError

-- The names of commands, repo by repo.
unfoldable pub validate_all_commands : Config → Option FunctionError
validate_all_commands c =
    each (λ name. wrap (command_misnamed name) (validate_commands (repo_of c name)))
      (sorted_set (keys c.repos))

unfoldable pub validate_function_references : Config → Option FunctionError
validate_function_references c =
    each
      (λ name.
        each (λ fn. reject_if (not (has fn c.functions)) (command_undefined name fn))
          ((repo_of c name).commands))
      (sorted_set (keys c.repos))
    or_else each
        (λ name.
          let fn = (service_of c name).exec_func in
          reject_if (not (is_nil fn) && not (has fn c.functions)) (exec_undefined name fn))
        (sorted_set (keys c.services))

-- Every command of a repo and every function that a service runs is declared.
pub record FunctionsDeclared (c : Config) : Type 0 where
  pub commands :
      (k : Bytes)
      → has k (keys c.repos) ≡ true
      → All (λ fn. has fn c.functions ≡ true) ((repo_of c k).commands)
  pub runs :
      (k : Bytes)
      → has k (keys c.services) ≡ true
      → (service_of c k).exec_func ≢ []
      → has ((service_of c k).exec_func) c.functions ≡ true

-- Every command of a repo is a function name.
abbrev pub CommandsNamed : Config → Type 0
CommandsNamed c =
    (k : Bytes)
    → has k (keys c.repos) ≡ true
    → All (λ fn. is_function_name fn ≡ true) ((repo_of c k).commands)

pub validate_all_commands_iff : (c : Config) → (validate_all_commands c ≡ none) ↔ CommandsNamed c
unfolding validate_all_commands validate_commands
validate_all_commands_iff c =
    iff_trans
      (each_iff _ _
        (λ k. wrap_iff _ _ (
          each_iff (λ fn. is_function_name fn ≡ true) _ (λ fn. reject_if_iff _ fn (ground arith))
            _))
        (sorted_set (keys c.repos)))
      (All-sorted_set _ (keys c.repos))

pub validate_function_references_iff :
    (c : Config) → (validate_function_references c ≡ none) ↔ FunctionsDeclared c
unfolding validate_function_references
validate_function_references_iff c =
    let commands =
      iff_trans
        (each_iff (λ k. All (λ fn. has fn c.functions ≡ true) ((repo_of c k).commands)) _
          (λ k. each_iff _ _ (λ fn. reject_if_iff _ _ (ground arith)) ((repo_of c k).commands))
          (sorted_set (keys c.repos)))
        (All-sorted_set _ (keys c.repos)) in
    let runs =
      iff_trans
        (each_iff
          (λ k.
            (service_of c k).exec_func ≢ [] → has ((service_of c k).exec_func) c.functions ≡ true)
          _ (λ k. reject_if_iff _ _ (ground (arith, is_nil_iff ((service_of c k).exec_func))))
          (sorted_set (keys c.services)))
        (All-sorted_set _ (keys c.services)) in
    iff_trans (commands and_also runs)
      (λ p. record { commands = p.0; runs = p.1 }, λ f. (f.commands, f.runs))
