-- ===== src/Schema/Validate.antt =====
-- `Project.Validate`, `Config.Validate` and `Config.ValidateWithRoot` (internal/schema/schema.go).
use devm.Base.{
  Bool, ◌||◌, Option, none, some, List, [], ◌∷◌, ltb, is_nil, has_byte, contains, Bytes, codes,
  bytes_eq,
}
use devm.Base.Int.{ℤ, int_below}
use devm.Base.Names.{has}
use devm.Base.Checks.{◌or_else◌, reject_if, wrap}
use devm.Schema.Allow
use devm.Schema.Allow.{AllowError}
use devm.Schema.Config.{Config}
use devm.Schema.Sizes.{parse_disk_size, parse_memory_size}
use devm.Schema.Services.{ServicesError, validate_services}
use devm.Schema.Volumes.{VolumeError, validate_volumes}
use devm.Schema.Secrets.{BindingError, validate_secret_bindings}
use devm.Schema.Repos.{RepoError, validate_repos}
use devm.Schema.Functions.{FunctionError, validate_all_commands, validate_function_references}
use devm.Schema.Peers.{PeerError, validate_mac_services, validate_peer_services}
use devm.Schema.Labels.{LabelError, validate_labels}

pub data ProjectError : Type 0 where
  name_required name_space name_path : ProjectError

-- strings.ContainsAny with " \t\n\r".
abbrev pub has_space : Bytes → Bool
has_space s = has_byte s 32 || (has_byte s 9 || (has_byte s 10 || has_byte s 13))

-- A slash, a backslash or two dots.
abbrev pub has_path_parts : Bytes → Bool
has_path_parts s = has_byte s b'/' || (has_byte s 92 || contains s (codes ".."))

unfoldable pub validate_project : Bytes → Option ProjectError
validate_project name =
    reject_if (is_nil name) name_required
    or_else reject_if (has_space name) name_space
    or_else reject_if (has_path_parts name) name_path

-- The table `ReservedProjectIDs`.
abbrev pub reserved_project_ids : List Bytes
reserved_project_ids =
    codes "bin"
    ∷ codes "state"
    ∷ codes "iron-proxy"
    ∷ codes "mutagen"
    ∷ codes "mutagen-ssh-dir"
    ∷ codes "ssh"
    ∷ codes "secrets"
    ∷ codes "ca"
    ∷ codes "softnet-bin"
    ∷ codes "volumes"
    ∷ []

pub data ConfigError : Type 0 where
  in_project : ProjectError → ConfigError
  in_network : AllowError → ConfigError
  disk_malformed disk_small memory_malformed cpu_positive project_reserved : ConfigError
  in_services : ServicesError → ConfigError
  in_volumes : VolumeError → ConfigError
  in_secrets : BindingError → ConfigError
  in_repos : RepoError → ConfigError
  in_functions : FunctionError → ConfigError
  in_peers : PeerError → ConfigError
  in_labels : LabelError → ConfigError

unfoldable pub check_disk : Option Bytes → Option ConfigError
check_disk none = none
check_disk (some s) = elim (parse_disk_size s) [
  | none ↦ some disk_malformed
  | some gib ↦ reject_if (ltb gib 32) disk_small
]

unfoldable pub check_memory : Option Bytes → Option ConfigError
check_memory none = none
check_memory (some s) = elim (parse_memory_size s) [
  | none ↦ some memory_malformed
  | some mib ↦ none
]

unfoldable pub check_cpu : Option ℤ → Option ConfigError
check_cpu none = none
check_cpu (some n) = reject_if (int_below n 1) cpu_positive

unfoldable pub validate : Config → Option ConfigError
validate c =
    wrap in_project (validate_project c.project)
    or_else wrap in_network (Allow.validate c.allow)
    or_else check_disk c.disk
    or_else check_memory c.memory
    or_else check_cpu c.cpu
    or_else wrap in_services (validate_services c)
    or_else wrap in_volumes (validate_volumes c [])
    or_else wrap in_secrets (validate_secret_bindings c)
    or_else wrap in_repos (validate_repos c)
    or_else wrap in_functions (validate_all_commands c)
    or_else wrap in_functions (validate_function_references c)
    or_else reject_if (has c.project reserved_project_ids) project_reserved
    or_else wrap in_peers (validate_mac_services c or_else validate_peer_services c)
    or_else wrap in_labels (validate_labels c [])

unfoldable pub validate_with_root : Config → Bytes → Option ConfigError
validate_with_root c project_root =
    validate c
    or_else wrap in_volumes (validate_volumes c project_root)
    or_else wrap in_labels (validate_labels c project_root)
