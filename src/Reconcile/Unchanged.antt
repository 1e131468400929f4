-- ===== src/Reconcile/Unchanged.antt =====
-- When `ComputeAllChanges` finds nothing: the two configs agree in what the sections read, and what
-- was applied of templates, secrets and bundle is what is desired.
use devm.Base.{
  zero, ◌≡◌, refl, ◌↔◌, ◌⊎◌, none, some, Option, List, [], ◌++◌, ap, nat_eq, bool_eq, pair_eq,
  Bytes, bytes_eq,
}
use devm.Base.Assoc.{Map, lookup}
use devm.Schema.Allow.{domains}
use devm.Schema.Config.{Config, service_of}
use devm.Reconcile.Storage.{commands_of}
use devm.Reconcile.Machine.{effective_disk_gb, compute_secret_changes}
use devm.Reconcile.All.{
  Baseline, config_changes, compute_image_change, bundle_changes, compute_all_changes,
}
use devm.Reconcile.Same.Iff.{◌with◌, trans_iff}
use devm.Reconcile.Same.Services.{
  SameEnv, SameUnit, compute_port_changes-is_nil, compute_global_env_changes-is_nil,
  compute_env_changes-is_nil, compute_service_unit_changes-is_nil, compute_direct_changes-is_nil,
  compute_hostname_changes-is_nil,
}
use devm.Reconcile.Same.Storage.{
  SameNames, repo_settings, compute_volume_changes-is_nil, compute_repo_changes-is_nil,
  compute_commands_changes-is_nil, compute_packages_change-is_nil,
}
use devm.Reconcile.Same.Machine.{
  compute_network_changes-is_nil, compute_identity_change-is_nil, compute_docker_change-is_nil,
  compute_disk_change-is_nil, compute_resource_change-is_nil, compute_path_change-is_nil,
  compute_secret_changes-is_nil,
}
use devm.Reconcile.Same.Templates.{
  SameScripts, compute_template_changes-is_nil, bundle_changes-is_nil,
}
use devm.Reconcile.Templates.{compute_template_changes}
use mathlib.Core.Option.{some-injective}
use devm.Reconcile.Change.{Change}

-- What the two configs have to agree in. Lists of hosts, packages and commands are compared as
-- sets, env values as they are rendered, the disk by its effective size.
pub record SameConfig (old new : Config) : Type 0 where
  pub port : (k : Bytes) → (service_of old k).port ≡ (service_of new k).port
  pub network : SameNames (domains old.allow) (domains new.allow)
  pub global_env : SameEnv old.env new.env
  pub env : (k : Bytes) → SameEnv ((service_of old k).env) ((service_of new k).env)
  pub unit : (k : Bytes) → SameUnit (service_of old k) (service_of new k)
  pub direct : (k : Bytes) → (service_of old k).direct ≡ (service_of new k).direct
  pub hostname : (k : Bytes) → (service_of old k).hostname ≡ (service_of new k).hostname
  pub packages : SameNames old.packages new.packages
  pub volumes : (k : Bytes) → lookup k old.volumes ≡ lookup k new.volumes
  pub repos : (k : Bytes) → repo_settings (lookup k old.repos) ≡ repo_settings (lookup k new.repos)
  pub commands :
      (k : Bytes) → SameNames (commands_of (lookup k old.repos)) (commands_of (lookup k new.repos))
  pub project : old.project ≡ new.project
  pub docker : old.docker ≡ new.docker
  pub disk : effective_disk_gb old ≡ effective_disk_gb new
  pub memory : old.memory ≡ new.memory
  pub cpu : old.cpu ≡ new.cpu
  pub path : old.path ≡ new.path

compute_image_change-is_nil :
    (old new : Config) → (compute_image_change old new ≡ []) ↔ (zero ≡ zero)
unfolding compute_image_change
compute_image_change-is_nil old new = (λ e. refl, λ u. refl)

-- Of the sections that look at the two configs alone; `compute_all_changes` adds the others.
config_changes-is_nil : (old new : Config) → (config_changes old new ≡ []) ↔ SameConfig old new
unfolding config_changes
config_changes-is_nil old new =
    trans_iff
      (compute_port_changes-is_nil old new
        with compute_network_changes-is_nil old new
        with compute_global_env_changes-is_nil old new
        with compute_env_changes-is_nil old new
        with compute_service_unit_changes-is_nil old new
        with compute_direct_changes-is_nil old new
        with compute_hostname_changes-is_nil old new
        with compute_packages_change-is_nil old new
        with compute_volume_changes-is_nil old new
        with compute_repo_changes-is_nil old new
        with compute_commands_changes-is_nil old new
        with compute_image_change-is_nil old new
        with compute_identity_change-is_nil old new
        with compute_docker_change-is_nil old new
        with compute_disk_change-is_nil old new
        with compute_resource_change-is_nil old new
        with compute_path_change-is_nil old new)
      (
        λ p. record {
          port = p.0.0.0.0.0.0.0.0.0.0.0.0.0.0.0.0;
          network = p.0.0.0.0.0.0.0.0.0.0.0.0.0.0.0.1;
          global_env = p.0.0.0.0.0.0.0.0.0.0.0.0.0.0.1;
          env = p.0.0.0.0.0.0.0.0.0.0.0.0.0.1;
          unit = p.0.0.0.0.0.0.0.0.0.0.0.0.1;
          direct = p.0.0.0.0.0.0.0.0.0.0.0.1;
          hostname = p.0.0.0.0.0.0.0.0.0.0.1;
          packages = p.0.0.0.0.0.0.0.0.0.1;
          volumes = p.0.0.0.0.0.0.0.0.1;
          repos = p.0.0.0.0.0.0.0.1;
          commands = p.0.0.0.0.0.0.1;
          project = p.0.0.0.0.1;
          docker = p.0.0.0.1;
          disk = p.0.0.1;
          memory = p.0.1.0;
          cpu = p.0.1.1;
          path = p.1;
        },
        λ s. (
          (
            (
              (
                (
                  (
                    (
                      (
                        (
                          (
                            (
                              (((((s.port, s.network), s.global_env), s.env), s.unit), s.direct),
                              s.hostname,
                            ),
                            s.packages,
                          ),
                          s.volumes,
                        ),
                        s.repos,
                      ),
                      s.commands,
                    ),
                    refl,
                  ),
                  s.project,
                ),
                s.docker,
              ),
              s.disk,
            ),
            (s.memory, s.cpu),
          ),
          s.path,
        ),
      )

-- What the callers bring has to agree as well. No bundle at hand counts as the stored one.
pub record SameBaseline (b : Baseline) : Type 0 where
  pub templates :
      (ds : Map Bytes Bytes) × (b.desired_templates ≡ some ds) × SameScripts ds b.applied_templates
  pub secrets : (k : Bytes) → lookup k b.new_secret_hashes ≡ lookup k b.old_secret_hashes
  pub bundle : (b.current_bundle ≡ []) ⊎ (b.stored_bundle ≡ b.current_bundle)

stays : {P : Type 0} → P ↔ P
stays = (λ p. p, λ p. p)

-- An answer that is joined from four sections, of which one may fail.
joined_iff :
    (xs ys zs : List Change) (t : Option (List Change))
    → (◌≡◌ {A = Option (List Change)}
        (elim t [ none ↦ none | some ts ↦ some (xs ++ ts ++ ys ++ zs) ])
        (some []))
      ↔ ((t ≡ some []) × (xs ≡ []) × (ys ≡ []) × (zs ≡ []))
joined_iff xs ys zs none = (λ e. absurd (cc e), λ p. absurd (cc (p.0)))
joined_iff xs ys zs (some ts) =
    let all =
      stays {P = xs ≡ []}
      with stays {P = ts ≡ []}
      with stays {P = ys ≡ []}
      with stays {P = zs ≡ []} in
    (
      λ e. let p = all.0 (some-injective _ _ e) in (ap some (p.0.0.1), p.0.0.0, p.0.1, p.1),
      λ p. ap some (all.1 (((p.1, some-injective _ _ (p.0)), p.2), p.3)),
    )

-- `ComputeAllChanges` answers with no change exactly when two things hold. The two configs agree in
-- every setting that is compared: hosts, packages and commands as sets, env values as they are
-- rendered, the disk by its effective size, and the rest name by name. And the templates render,
-- each script is applied with the same content and no other script is applied, the secret hashes
-- are the same, and the current bundle is empty or the stored one.
pub compute_all_changes-is_nil :
    (old new : Config) (b : Baseline)
    → (compute_all_changes old new b ≡ some []) ↔ (SameConfig old new × SameBaseline b)
unfolding compute_all_changes
compute_all_changes-is_nil old new b =
    let configs = config_changes-is_nil old new in
    let templates = compute_template_changes-is_nil new b.desired_templates b.applied_templates in
    let secrets = compute_secret_changes-is_nil b.new_secret_hashes b.old_secret_hashes in
    let bundle = bundle_changes-is_nil b in
    trans_iff
      (joined_iff (config_changes old new)
        (compute_secret_changes b.new_secret_hashes b.old_secret_hashes) (bundle_changes b)
        (compute_template_changes new b.desired_templates b.applied_templates))
      (
        λ p. (
          configs.0 (p.1),
          record {
            templates = templates.0 (p.0);
            secrets = secrets.0 (p.2);
            bundle = bundle.0 (p.3);
          },
        ),
        λ s. (
          templates.1 (s.1.templates),
          configs.1 (s.0),
          secrets.1 (s.1.secrets),
          bundle.1 (s.1.bundle),
        ),
      )
