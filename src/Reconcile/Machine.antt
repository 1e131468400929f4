-- ===== src/Reconcile/Machine.antt =====
-- The sections of internal/reconcile/diff.go on the machine itself (PATH, image, project, docker,
-- disk, memory, cpu), on the allowlist and on secrets.
use devm.Base.{
  ℕ, Bool, true, false, not, Option, none, some, List, [], ◌∷◌, ◌++◌, map, nat_beq, if◌then◌else◌,
  ◌==◌, nat_eq, bool_eq, pair_eq, keep, Bytes, codes, bytes_beq, bytes_eq, bytes_ltb,
}
use devm.Base.Int.{ℤ, itoa, int_eq}
use devm.Base.Decimal.{decimal}
use devm.Base.Assoc.{Map}
use devm.Base.Sort.{sort_by}
use devm.Schema.Allow.{domains}
use devm.Schema.Config.{Config}
use devm.Schema.Sizes.{parse_disk_size}
use devm.Reconcile.Change.{
  Change, of_kind, path_change, identity_change, docker_toggle, disk_change, memory_change,
  cpu_change, network_add, network_remove, secret_add, secret_remove, secret_change,
}
use devm.Base.Names.{has}
use devm.Reconcile.Compare.{slice_equal, pointer_equal, join, unless_same, walk_keys}

unfoldable pub compute_path_change : Config → Config → List Change
compute_path_change old new =
    unless_same (slice_equal old.path new.path) (record (of_kind path_change) {
      old = join (codes ":") old.path;
      new = join (codes ":") new.path;
    })

unfoldable pub compute_identity_change : Config → Config → List Change
compute_identity_change old new = unless_same (old.project == new.project) (of_kind identity_change)

unfoldable pub compute_docker_change : Config → Config → List Change
compute_docker_change old new = unless_same (old.docker == new.docker) (of_kind docker_toggle)

abbrev pub default_disk_size_gb : ℕ
default_disk_size_gb = 32

-- A text that does not parse counts as 0, as the ignored error leaves it.
unfoldable pub effective_disk_gb : Config → ℕ
effective_disk_gb c = elim (c.disk) [
  | none ↦ default_disk_size_gb
  | some s ↦ elim (parse_disk_size s) [ none ↦ 0 | some n ↦ n ]
]

unfoldable pub compute_disk_change : Config → Config → List Change
compute_disk_change old new =
    let o = effective_disk_gb old in
    let n = effective_disk_gb new in
    unless_same (nat_beq o n)
      (record (of_kind disk_change) { old = decimal o ++ codes "G"; new = decimal n ++ codes "G" })

abbrev format_memory : Option Bytes → Bytes
format_memory none = codes "(default)"
format_memory (some s) = s

abbrev format_cpu : Option ℤ → Bytes
format_cpu none = codes "(default)"
format_cpu (some n) = itoa n

unfoldable pub compute_resource_change : Config → Config → List Change
compute_resource_change old new =
    unless_same (pointer_equal old.memory new.memory) (record (of_kind memory_change) {
      old = format_memory old.memory;
      new = format_memory new.memory;
    })
    ++ unless_same (pointer_equal old.cpu new.cpu)
        (record (of_kind cpu_change) { old = format_cpu old.cpu; new = format_cpu new.cpu })

-- The order of the changes of the allowlist: by host, additions before removals.
network_less : Change → Change → Bool
network_less a b =
    if bytes_beq a.key b.key
    then elim (a.kind) [
      | network_add ↦ elim (b.kind) [ network_remove ↦ true | _ ↦ false ]
      | _ ↦ false
    ]
    else bytes_ltb a.key b.key

unfoldable pub compute_network_changes : Config → Config → List Change
unfolding network_less
compute_network_changes old new =
    let was = domains old.allow in
    let is = domains new.allow in
    sort_by network_less (
      map (λ h. record (of_kind network_add) { key = h; new = h }) (keep (λ h. not (has h was)) is)
      ++ map (λ h. record (of_kind network_remove) { key = h; old = h })
          (keep (λ h. not (has h is)) was))

unfoldable pub secret_difference : Bytes → Option Bytes → Option Bytes → List Change
secret_difference k none none = []
secret_difference k (some n) none = record (of_kind secret_add) { key = k } ∷ []
secret_difference k none (some o) = record (of_kind secret_remove) { key = k } ∷ []
secret_difference k (some n) (some o) =
    unless_same (n == o) (record (of_kind secret_change) { key = k })

-- On the hashes of the resolved secrets, the new ones first.
unfoldable pub compute_secret_changes : (new_hashes old_hashes : Map Bytes Bytes) → List Change
compute_secret_changes new_hashes old_hashes = walk_keys secret_difference new_hashes old_hashes
