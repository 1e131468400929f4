-- ===== src/Reconcile/Flavor/Calm.antt =====
-- The sections of internal/reconcile/diff.go whose changes never stop the machine.
use devm.Base.{
  ◌≡◌, refl, ◌∙◌, Bool, true, false, Option, none, some, List, [], ◌∷◌, ◌++◌, map, arith, ◌==◌,
  nat_eq, bool_eq, pair_eq, any, any-append, Bytes, bytes_eq,
}
use devm.Base.Assoc.{Map}
use mathlib.Core.Path.{subst}
use mathlib.Core.Option.{some-injective}
use devm.Base.Sort.{sort_by, any-sort_by}
use devm.Schema.Config.{Config, Service, Volume}
use devm.Reconcile.Change.{Change, bucket, change_bucket, teardown_vm, restart_vm}
use devm.Base.Names.{has}
use devm.Base.Rounds.{concat_map, any-concat_map_none}
use devm.Reconcile.Walk.{union_names}
use devm.Reconcile.Compare.{unless_same, walk_services, walk_keys, any-walk_keys, any-walk_services}
use devm.Reconcile.Services.{
  port_difference, compute_port_changes, env_difference, rendered, compute_global_env_changes,
  compute_env_changes, unit_differences, compute_service_unit_changes, compute_direct_changes,
  compute_hostname_changes,
}
use devm.Reconcile.Storage.{
  volume_field_changes, volume_difference, compute_volume_changes, command_difference,
  command_differences, compute_commands_changes, package_drift, compute_packages_change,
}
use devm.Reconcile.Machine.{
  compute_path_change, compute_network_changes, secret_difference, compute_secret_changes,
}
use devm.Reconcile.Templates.{script_change, removed_script, compute_template_changes}
use devm.Reconcile.All.{Baseline, compute_image_change, bundle_changes}

abbrev pub disturbs : Change → Bool
disturbs c = elim (bucket c) [ teardown_vm ↦ true | restart_vm ↦ true | _ ↦ false ]

-- No change of the list stops the machine.
pub record IsCalm (cs : List Change) : Type 0 where
  pub quiet : any disturbs cs ≡ false

infixl 20 ◌calm_with◌
pub ◌calm_with◌ : {xs ys : List Change} → IsCalm xs → IsCalm ys → IsCalm (xs ++ ys)
◌calm_with◌ {xs = xs} {ys = ys} f g = record {
  quiet = any-append disturbs xs ys ∙ ground (arith, f.quiet, g.quiet);
}

unless_same-IsCalm : (b : Bool) (c : Change) → disturbs c ≡ false → IsCalm (unless_same b c)
unfolding unless_same
unless_same-IsCalm true c h = record { quiet = refl }
unless_same-IsCalm false c h = record { quiet = ground arith }

map-IsCalm :
    (f : Bytes → Change) (xs : List Bytes)
    → ((x : Bytes) → disturbs (f x) ≡ false)
    → IsCalm (map f xs)
map-IsCalm f [] h = record { quiet = refl }
map-IsCalm f (x ∷ xs) h = record { quiet = ground (arith, h x, (map-IsCalm f xs h).quiet) }

services-IsCalm :
    (f : Bytes → Service → Service → List Change) (old new : Config)
    → ((k : Bytes) (o n : Service) → IsCalm (f k o n))
    → IsCalm (walk_services f old new)
services-IsCalm f old new h = record {
  quiet = any-walk_services disturbs f old new (λ k o n. (h k o n).quiet);
}

module _ {V : Type 0} where
  keys-IsCalm :
      (f : Bytes → Option V → Option V → List Change) (a b : Map Bytes V)
      → ((k : Bytes) (o n : Option V) → IsCalm (f k o n))
      → IsCalm (walk_keys f a b)
  keys-IsCalm f a b h = record { quiet = any-walk_keys disturbs f a b (λ k o n. (h k o n).quiet) }

sort-IsCalm :
    {xs : List Change} (less : Change → Change → Bool) → IsCalm xs → IsCalm (sort_by less xs)
sort-IsCalm {xs = xs} less h = record { quiet = any-sort_by less disturbs xs ∙ h.quiet }

port_difference-IsCalm : (k : Bytes) (o n : Service) → IsCalm (port_difference k o.port n.port)
unfolding port_difference bucket change_bucket
port_difference-IsCalm k o n = record { quiet = ground arith }

pub compute_port_changes-IsCalm : (old new : Config) → IsCalm (compute_port_changes old new)
unfolding compute_port_changes
compute_port_changes-IsCalm old new = services-IsCalm _ old new port_difference-IsCalm

env_difference-IsCalm : (s k : Bytes) (o n : Option Bytes) → IsCalm (env_difference s k o n)
unfolding env_difference bucket change_bucket
env_difference-IsCalm s k none none = record { quiet = refl }
env_difference-IsCalm s k none (some n) = record { quiet = refl }
env_difference-IsCalm s k (some o) none = record { quiet = refl }
env_difference-IsCalm s k (some o) (some n) = unless_same-IsCalm (o == n) _ refl

pub compute_global_env_changes-IsCalm :
    (old new : Config) → IsCalm (compute_global_env_changes old new)
unfolding compute_global_env_changes
compute_global_env_changes-IsCalm old new =
    keys-IsCalm _ (rendered old.env) (rendered new.env) (env_difference-IsCalm [])

pub compute_env_changes-IsCalm : (old new : Config) → IsCalm (compute_env_changes old new)
unfolding compute_env_changes
compute_env_changes-IsCalm old new =
    services-IsCalm _ old new
      (λ s o n. keys-IsCalm _ (rendered o.env) (rendered n.env) (env_difference-IsCalm s))

unit_differences-IsCalm : (k : Bytes) (o n : Service) → IsCalm (unit_differences k o n)
unfolding unit_differences bucket change_bucket
unit_differences-IsCalm k o n =
    unless_same-IsCalm _ _ refl
    calm_with unless_same-IsCalm _ _ refl
    calm_with unless_same-IsCalm _ _ refl
    calm_with unless_same-IsCalm _ _ refl
    calm_with unless_same-IsCalm _ _ refl
    calm_with unless_same-IsCalm _ _ refl

pub compute_service_unit_changes-IsCalm :
    (old new : Config) → IsCalm (compute_service_unit_changes old new)
unfolding compute_service_unit_changes
compute_service_unit_changes-IsCalm old new = services-IsCalm _ old new unit_differences-IsCalm

pub compute_direct_changes-IsCalm : (old new : Config) → IsCalm (compute_direct_changes old new)
unfolding compute_direct_changes bucket change_bucket
compute_direct_changes-IsCalm old new =
    services-IsCalm _ old new (λ k o n. unless_same-IsCalm (o.direct == n.direct) _ refl)

pub compute_hostname_changes-IsCalm : (old new : Config) → IsCalm (compute_hostname_changes old new)
unfolding compute_hostname_changes bucket change_bucket
compute_hostname_changes-IsCalm old new =
    services-IsCalm _ old new (λ k o n. unless_same-IsCalm (o.hostname == n.hostname) _ refl)

pub compute_packages_change-IsCalm : (old new : Config) → IsCalm (compute_packages_change old new)
unfolding compute_packages_change bucket change_bucket
compute_packages_change-IsCalm old new =
    map-IsCalm _ ((package_drift old new).0) (λ x. refl)
    calm_with map-IsCalm _ ((package_drift old new).1) (λ x. refl)

volume_field_changes-IsCalm : (k : Bytes) (o n : Volume) → IsCalm (volume_field_changes k o n)
unfolding volume_field_changes bucket change_bucket
volume_field_changes-IsCalm k o n =
    unless_same-IsCalm _ _ refl
    calm_with unless_same-IsCalm _ _ refl
    calm_with unless_same-IsCalm _ _ refl

volume_difference-IsCalm : (k : Bytes) (o n : Option Volume) → IsCalm (volume_difference k o n)
unfolding volume_difference bucket change_bucket
volume_difference-IsCalm k none none = record { quiet = refl }
volume_difference-IsCalm k none (some n) = record { quiet = refl }
volume_difference-IsCalm k (some o) none = record { quiet = refl }
volume_difference-IsCalm k (some o) (some n) = volume_field_changes-IsCalm k o n

pub compute_volume_changes-IsCalm : (old new : Config) → IsCalm (compute_volume_changes old new)
unfolding compute_volume_changes
compute_volume_changes-IsCalm old new =
    keys-IsCalm _ old.volumes new.volumes volume_difference-IsCalm

command_difference-IsCalm : (r k : Bytes) (o n : Bool) → IsCalm (command_difference r k o n)
unfolding command_difference bucket change_bucket
command_difference-IsCalm r k true true = record { quiet = refl }
command_difference-IsCalm r k true false = record { quiet = refl }
command_difference-IsCalm r k false true = record { quiet = refl }
command_difference-IsCalm r k false false = record { quiet = refl }

command_differences-IsCalm : (r : Bytes) (o n : List Bytes) → IsCalm (command_differences r o n)
unfolding command_differences
command_differences-IsCalm r o n = record {
  quiet =
      any-concat_map_none disturbs _ (union_names o n)
        (λ k. (command_difference-IsCalm r k (has k o) (has k n)).quiet);
}

pub compute_commands_changes-IsCalm : (old new : Config) → IsCalm (compute_commands_changes old new)
unfolding compute_commands_changes
compute_commands_changes-IsCalm old new =
    keys-IsCalm _ old.repos new.repos (λ k o n. command_differences-IsCalm k _ _)

pub compute_path_change-IsCalm : (old new : Config) → IsCalm (compute_path_change old new)
unfolding compute_path_change bucket change_bucket
compute_path_change-IsCalm old new = unless_same-IsCalm _ _ refl

pub compute_network_changes-IsCalm : (old new : Config) → IsCalm (compute_network_changes old new)
unfolding compute_network_changes bucket change_bucket
compute_network_changes-IsCalm old new =
    sort-IsCalm _ (map-IsCalm _ _ (λ x. refl) calm_with map-IsCalm _ _ (λ x. refl))

secret_difference-IsCalm : (k : Bytes) (n o : Option Bytes) → IsCalm (secret_difference k n o)
unfolding secret_difference bucket change_bucket
secret_difference-IsCalm k none none = record { quiet = refl }
secret_difference-IsCalm k none (some o) = record { quiet = refl }
secret_difference-IsCalm k (some n) none = record { quiet = refl }
secret_difference-IsCalm k (some n) (some o) = unless_same-IsCalm (n == o) _ refl

pub compute_secret_changes-IsCalm :
    (new_hashes old_hashes : Map Bytes Bytes)
    → IsCalm (compute_secret_changes new_hashes old_hashes)
unfolding compute_secret_changes
compute_secret_changes-IsCalm new_hashes old_hashes =
    keys-IsCalm _ new_hashes old_hashes secret_difference-IsCalm

pub bundle_changes-IsCalm : (b : Baseline) → IsCalm (bundle_changes b)
unfolding bundle_changes bucket change_bucket
bundle_changes-IsCalm b = record { quiet = ground arith }

pub compute_image_change-IsCalm : (old new : Config) → IsCalm (compute_image_change old new)
unfolding compute_image_change
compute_image_change-IsCalm old new = record { quiet = refl }

script_change-IsCalm :
    (c : Config) (applied : Map Bytes Bytes) (d : Bytes × Bytes)
    → IsCalm (script_change c applied d)
unfolding script_change unless_same bucket change_bucket
script_change-IsCalm c applied (path, content) = record { quiet = ground arith }

removed_script-IsCalm : (wanted : List Bytes) (d : Bytes × Bytes) → IsCalm (removed_script wanted d)
unfolding removed_script bucket change_bucket
removed_script-IsCalm wanted (name, content) = unless_same-IsCalm (has name wanted) _ refl

concat_map-IsCalm :
    {A : Type 0} (f : A → List Change) (xs : List A)
    → ((x : A) → IsCalm (f x))
    → IsCalm (concat_map f xs)
concat_map-IsCalm f xs h = record { quiet = any-concat_map_none disturbs f xs (λ x. (h x).quiet) }

pub compute_template_changes-IsCalm :
    (c : Config) (desired : Option (Map Bytes Bytes)) (applied : Map Bytes Bytes) (cs : List Change)
    → compute_template_changes c desired applied ≡ some cs
    → IsCalm cs
unfolding compute_template_changes
compute_template_changes-IsCalm c none applied cs h = absurd (cc h)
compute_template_changes-IsCalm c (some desired) applied cs h =
    subst IsCalm (some-injective _ _ h) (
      sort-IsCalm _ (
        concat_map-IsCalm _ desired (script_change-IsCalm c applied)
        calm_with concat_map-IsCalm _ applied (removed_script-IsCalm _)))
