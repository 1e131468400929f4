-- ===== src/Reconcile/Same/Services.antt =====
-- When the sections on services and env values find nothing.
use devm.Base.{
  ◌≡◌, refl, ◌↔◌, false, Option, none, some, [], arith, nat_eq, bool_beq_iff, bool_eq, pair_eq,
  Bytes, bytes_beq_iff, bytes_eq,
}
use devm.Base.Int.{ℤ, pos, int_beq_iff}
use devm.Base.Assoc.{Map, lookup}
use devm.Schema.Config.{Config, Service, EnvValue, service_of, zero_service}
use devm.Reconcile.Compare.{slice_equal_iff, walk_keys, walk_services-is_nil, walk_keys-is_nil}
use devm.Reconcile.Same.Iff.{◌with◌, and_iff, trans_iff, each_iff, unless_same-is_nil}
use devm.Reconcile.Services.{
  port_difference, compute_port_changes, env_difference, rendered, compute_global_env_changes,
  compute_env_changes, unit_differences, compute_service_unit_changes, compute_direct_changes,
  compute_hostname_changes,
}

port_difference-is_nil : (k : Bytes) (o n : ℤ) → (port_difference k o n ≡ []) ↔ (o ≡ n)
unfolding port_difference
port_difference-is_nil k o n = ground (arith, int_beq_iff o n)

pub compute_port_changes-is_nil :
    (old new : Config)
    → (compute_port_changes old new ≡ [])
      ↔ ((k : Bytes) → (service_of old k).port ≡ (service_of new k).port)
unfolding compute_port_changes
compute_port_changes-is_nil old new =
    trans_iff
      (walk_services-is_nil _ old new (λ k. (port_difference-is_nil k (pos 0) (pos 0)).1 refl))
      (each_iff (λ k. port_difference-is_nil k _ _))

pub env_difference-is_nil :
    (s k : Bytes) (o n : Option Bytes) → (env_difference s k o n ≡ []) ↔ (o ≡ n)
unfolding env_difference
env_difference-is_nil s k none none = ground arith
env_difference-is_nil s k none (some n) = ground arith
env_difference-is_nil s k (some o) none = ground arith
env_difference-is_nil s k (some o) (some n) =
    trans_iff (unless_same-is_nil _ (bytes_beq_iff o n)) (ground arith)

-- Two env maps render the same.
abbrev pub SameEnv : Map Bytes EnvValue → Map Bytes EnvValue → Type 0
SameEnv o n = (k : Bytes) → lookup k (rendered o) ≡ lookup k (rendered n)

env_walk-is_nil :
    (s : Bytes) (o n : Map Bytes EnvValue)
    → (walk_keys (env_difference s) (rendered o) (rendered n) ≡ []) ↔ SameEnv o n
env_walk-is_nil s o n =
    trans_iff
      (walk_keys-is_nil _ (rendered o) (rendered n)
        (λ k. (env_difference-is_nil s k none none).1 refl))
      (each_iff (λ k. env_difference-is_nil s k _ _))

pub compute_global_env_changes-is_nil :
    (old new : Config) → (compute_global_env_changes old new ≡ []) ↔ SameEnv old.env new.env
unfolding compute_global_env_changes
compute_global_env_changes-is_nil old new = env_walk-is_nil [] old.env new.env

pub compute_env_changes-is_nil :
    (old new : Config)
    → (compute_env_changes old new ≡ [])
      ↔ ((s : Bytes) → SameEnv ((service_of old s).env) ((service_of new s).env))
unfolding compute_env_changes
compute_env_changes-is_nil old new =
    trans_iff (walk_services-is_nil _ old new (λ s. (env_walk-is_nil s [] []).1 (λ k. refl)))
      (each_iff (λ s. env_walk-is_nil s _ _))

-- The fields that a service's unit file is made of.
pub record SameUnit (o n : Service) : Type 0 where
  pub exec_func : o.exec_func ≡ n.exec_func
  pub exec_argv : o.exec_argv ≡ n.exec_argv
  pub restart : o.restart ≡ n.restart
  pub after : o.after ≡ n.after
  pub work_dir : o.work_dir ≡ n.work_dir
  pub user : o.user ≡ n.user
  pub systemd : o.systemd ≡ n.systemd

pub SameUnit-refl : (s : Service) → SameUnit s s
SameUnit-refl s = record {
  exec_func = refl;
  exec_argv = refl;
  restart = refl;
  after = refl;
  work_dir = refl;
  user = refl;
  systemd = refl;
}

unit_differences-is_nil : (k : Bytes) (o n : Service) → (unit_differences k o n ≡ []) ↔ SameUnit o n
unfolding unit_differences
unit_differences-is_nil k o n =
    trans_iff
      (unless_same-is_nil _ (
          and_iff (bytes_beq_iff o.exec_func n.exec_func) (slice_equal_iff o.exec_argv n.exec_argv))
        with unless_same-is_nil _ (bytes_beq_iff o.restart n.restart)
        with unless_same-is_nil _ (slice_equal_iff o.after n.after)
        with unless_same-is_nil _ (bytes_beq_iff o.work_dir n.work_dir)
        with unless_same-is_nil _ (bytes_beq_iff o.user n.user)
        with unless_same-is_nil _ (bytes_beq_iff o.systemd n.systemd))
      (
        (λ p. record {
          exec_func = p.0.0.0.0.0.0;
          exec_argv = p.0.0.0.0.0.1;
          restart = p.0.0.0.0.1;
          after = p.0.0.0.1;
          work_dir = p.0.0.1;
          user = p.0.1;
          systemd = p.1;
        }),
        (λ s. (
          (((((s.exec_func, s.exec_argv), s.restart), s.after), s.work_dir), s.user),
          s.systemd,
        )),
      )

pub compute_service_unit_changes-is_nil :
    (old new : Config)
    → (compute_service_unit_changes old new ≡ [])
      ↔ ((k : Bytes) → SameUnit (service_of old k) (service_of new k))
unfolding compute_service_unit_changes
compute_service_unit_changes-is_nil old new =
    trans_iff
      (walk_services-is_nil unit_differences old new
        (λ k. (unit_differences-is_nil k zero_service zero_service).1 (SameUnit-refl zero_service)))
      (each_iff (λ k. unit_differences-is_nil k (service_of old k) (service_of new k)))

pub compute_direct_changes-is_nil :
    (old new : Config)
    → (compute_direct_changes old new ≡ [])
      ↔ ((k : Bytes) → (service_of old k).direct ≡ (service_of new k).direct)
unfolding compute_direct_changes
compute_direct_changes-is_nil old new =
    trans_iff
      (walk_services-is_nil _ old new
        (λ k. (unless_same-is_nil _ (bool_beq_iff false false)).1 refl))
      (each_iff (λ k. unless_same-is_nil _ (bool_beq_iff _ _)))

pub compute_hostname_changes-is_nil :
    (old new : Config)
    → (compute_hostname_changes old new ≡ [])
      ↔ ((k : Bytes) → (service_of old k).hostname ≡ (service_of new k).hostname)
unfolding compute_hostname_changes
compute_hostname_changes-is_nil old new =
    trans_iff
      (walk_services-is_nil _ old new (λ k. (unless_same-is_nil _ (bytes_beq_iff [] [])).1 refl))
      (each_iff (λ k. unless_same-is_nil _ (bytes_beq_iff _ _)))
