-- ===== src/Schema/Valid.antt =====
-- When `Config.Validate` and `Config.ValidateWithRoot` (internal/schema/schema.go) accept.
use devm.Base.{
  ℕ, ◌≤◌, ◌≡◌, refl, ◌≢◌, ◌↔◌, ◌⊎◌, false, Option, none, some, [], arith, ltb, is_nil, is_nil_iff,
  All, Bytes, bytes_eq,
}
use mathlib.Core.Path.{subst}
use mathlib.Core.Option.{some-injective}
use devm.Base.Int.{ℤ, int_below}
use devm.Base.Names.{has}
use devm.Base.Checks.{reject_if, ◌and_also◌, reject_if_iff, wrap_iff, iff_trans, iff_refl}
use devm.Schema.Allow
use devm.Schema.Allow.{IsUsable}
use devm.Schema.Config.{Config}
use devm.Schema.Sizes.{parse_disk_size, parse_memory_size}
use devm.Schema.Services.{GoodServices, validate_services_iff}
use devm.Schema.Volumes.{GoodVolumes, validate_volumes_iff}
use devm.Schema.Secrets.{SecretsBound, validate_secret_bindings_iff}
use devm.Schema.Repos.Primary.{PrimaryRepo, validate_repos_iff}
use devm.Schema.Functions.{
  CommandsNamed, FunctionsDeclared, validate_all_commands_iff, validate_function_references_iff,
}
use devm.Schema.Peers.{GoodPeers, validate_peers_iff}
use devm.Schema.Labels.{GoodLabels, validate_labels_iff}
use devm.Schema.Validate.{
  has_space, has_path_parts, validate_project, reserved_project_ids, disk_malformed, disk_small,
  memory_malformed, cpu_positive, project_reserved, name_required, name_space, name_path,
  check_disk, check_memory, check_cpu, validate, validate_with_root,
}

-- A project name is one safe path component, and none of devm's own.
pub record GoodProject (name : Bytes) : Type 0 where
  pub named : name ≢ []
  pub no_space : has_space name ≡ false
  pub one_part : has_path_parts name ≡ false
  pub not_reserved : has name reserved_project_ids ≡ false

-- The overrides of the machine parse and are large enough.
pub record GoodMachine (c : Config) : Type 0 where
  pub disk : (s : Bytes) → c.disk ≡ some s → (gib : ℕ) × (parse_disk_size s ≡ some gib) × (32 ≤ gib)
  pub memory : (s : Bytes) → c.memory ≡ some s → (mib : ℕ) × (parse_memory_size s ≡ some mib)
  pub cpu : (n : ℤ) → c.cpu ≡ some n → int_below n 1 ≡ false

-- A statement about the value of an option that has one.
value_iff : {A : Type 0} (P : A → Type 0) (t : A) → P t ↔ ((s : A) → some t ≡ some s → P s)
value_iff P t = (λ p s e. subst P (some-injective t s e) p, λ f. f t refl)

disk_size_iff :
    (o : Option ℕ)
    → ((elim o [ none ↦ some disk_malformed | some gib ↦ reject_if (ltb gib 32) disk_small ])
        ≡ none)
      ↔ ((gib : ℕ) × (o ≡ some gib) × (32 ≤ gib))
unfolding reject_if
disk_size_iff none = (λ h. absurd (cc h), λ p. absurd (cc (p.1)))
disk_size_iff (some n) = (λ h. (n, refl, ground arith), λ (m, e, le). ground arith)

check_disk_iff :
    (o : Option Bytes)
    → (check_disk o ≡ none)
      ↔ ((s : Bytes) → o ≡ some s → (gib : ℕ) × (parse_disk_size s ≡ some gib) × (32 ≤ gib))
unfolding check_disk
check_disk_iff none = (λ e s h. absurd (cc h), λ f. refl)
check_disk_iff (some t) =
    iff_trans (disk_size_iff (parse_disk_size t))
      (value_iff (λ s. (gib : ℕ) × (parse_disk_size s ≡ some gib) × (32 ≤ gib)) t)

memory_size_iff :
    (o : Option ℕ)
    → ((elim o [ none ↦ some memory_malformed | some mib ↦ none ]) ≡ none)
      ↔ ((mib : ℕ) × (o ≡ some mib))
memory_size_iff none = (λ h. absurd (cc h), λ p. absurd (cc (p.1)))
memory_size_iff (some n) = (λ h. (n, refl), λ p. refl)

check_memory_iff :
    (o : Option Bytes)
    → (check_memory o ≡ none)
      ↔ ((s : Bytes) → o ≡ some s → (mib : ℕ) × (parse_memory_size s ≡ some mib))
unfolding check_memory
check_memory_iff none = (λ e s h. absurd (cc h), λ f. refl)
check_memory_iff (some t) =
    iff_trans (memory_size_iff (parse_memory_size t))
      (value_iff (λ s. (mib : ℕ) × (parse_memory_size s ≡ some mib)) t)

check_cpu_iff :
    (o : Option ℤ) → (check_cpu o ≡ none) ↔ ((n : ℤ) → o ≡ some n → int_below n 1 ≡ false)
unfolding check_cpu
check_cpu_iff none = (λ e s h. absurd (cc h), λ f. refl)
check_cpu_iff (some n) =
    iff_trans (reject_if_iff _ cpu_positive iff_refl) (value_iff (λ m. int_below m 1 ≡ false) n)

-- What a valid config is, part by part.
pub record IsValid (c : Config) : Type 0 where
  pub project : GoodProject c.project
  pub network : All IsUsable c.allow
  pub machine : GoodMachine c
  pub services : GoodServices c
  pub volumes : GoodVolumes c []
  pub secrets : SecretsBound c
  pub repos : (c.repos ≡ []) ⊎ ((p : Bytes) × PrimaryRepo c p)
  pub commands : CommandsNamed c
  pub functions : FunctionsDeclared c
  pub peers : GoodPeers c
  pub labels : GoodLabels c []

-- `Config.Validate` accepts exactly the valid configs.
pub validate_iff : (c : Config) → (validate c ≡ none) ↔ IsValid c
unfolding validate validate_project
validate_iff c =
    iff_trans
      (wrap_iff _ _ (
          reject_if_iff _ name_required iff_refl
          and_also reject_if_iff _ name_space iff_refl
          and_also reject_if_iff _ name_path iff_refl)
        and_also wrap_iff _ _ (Allow.validate_iff c.allow)
        and_also check_disk_iff c.disk
        and_also check_memory_iff c.memory
        and_also check_cpu_iff c.cpu
        and_also wrap_iff _ _ (validate_services_iff c)
        and_also wrap_iff _ _ (validate_volumes_iff c [])
        and_also wrap_iff _ _ (validate_secret_bindings_iff c)
        and_also wrap_iff _ _ (validate_repos_iff c)
        and_also wrap_iff _ _ (validate_all_commands_iff c)
        and_also wrap_iff _ _ (validate_function_references_iff c)
        and_also reject_if_iff _ project_reserved iff_refl
        and_also wrap_iff _ _ (validate_peers_iff c)
        and_also wrap_iff _ _ (validate_labels_iff c []))
      (
        λ p. record {
          project = record {
            named = ground (arith, p.0.0, is_nil_iff c.project);
            no_space = p.0.1.0;
            one_part = p.0.1.1;
            not_reserved = p.1.1.1.1.1.1.1.1.1.1.1.0;
          };
          network = p.1.0;
          machine = record { disk = p.1.1.0; memory = p.1.1.1.0; cpu = p.1.1.1.1.0 };
          services = p.1.1.1.1.1.0;
          volumes = p.1.1.1.1.1.1.0;
          secrets = p.1.1.1.1.1.1.1.0;
          repos = p.1.1.1.1.1.1.1.1.0;
          commands = p.1.1.1.1.1.1.1.1.1.0;
          functions = p.1.1.1.1.1.1.1.1.1.1.0;
          peers = p.1.1.1.1.1.1.1.1.1.1.1.1.0;
          labels = p.1.1.1.1.1.1.1.1.1.1.1.1.1;
        },
        λ v.
            let named : is_nil c.project ≡ false =
              ground (arith, v.project.named, is_nil_iff c.project) in
            let machine = v.machine in
            (
              (named, (v.project.no_space, v.project.one_part)),
              (
                v.network,
                (
                  machine.disk,
                  (
                    machine.memory,
                    (
                      machine.cpu,
                      (
                        v.services,
                        (
                          v.volumes,
                          (
                            v.secrets,
                            (
                              v.repos,
                              (
                                v.commands,
                                (v.functions, (v.project.not_reserved, (v.peers, v.labels))),
                              ),
                            ),
                          ),
                        ),
                      ),
                    ),
                  ),
                ),
              ),
            ),
      )

-- ValidateWithRoot accepts exactly the configs that are valid part by part: a safe project name,
-- usable allow entries, sizes that parse and are large enough, services that are good for
-- themselves with no hostname and no port claimed by two, volumes with paths of their own outside
-- the workspace, secrets that are bound on both sides, one primary repo if there are repos,
-- declared functions, good Mac services and peers, and legal labels of which no two are the same.
pub validate_with_root_iff :
    (c : Config) (root : Bytes)
    → (validate_with_root c root ≡ none) ↔ (IsValid c × (GoodVolumes c root × GoodLabels c root))
unfolding validate_with_root
validate_with_root_iff c root =
    validate_iff c
    and_also wrap_iff _ _ (validate_volumes_iff c root)
    and_also wrap_iff _ _ (validate_labels_iff c root)
