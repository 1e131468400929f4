-- ===== src/Reconcile/Services.antt =====
-- The sections of internal/reconcile/diff.go on services and on env values.
use devm.Base.{
  ◌&&◌, Option, none, some, List, [], ◌∷◌, ◌++◌, map, if◌then◌else◌, ◌==◌, nat_eq, bool_eq, pair_eq,
  Bytes, bytes_eq,
}
use devm.Base.Int.{ℤ, pos, int_beq, itoa}
use devm.Base.Assoc.{Map}
use devm.Schema.Config.{Config, Service, EnvValue, render}
use devm.Reconcile.Change.{
  Change, of_kind, port_add, port_remove, port_change, env_add, env_remove, env_change,
  service_exec_change, service_restart_change, service_after_change, service_workdir_change,
  service_user_change, service_systemd_override_change, service_hostname_change,
  service_direct_change,
}
use devm.Reconcile.Compare.{slice_equal, format_bool, unless_same, walk_services, walk_keys}

unfoldable pub port_difference : Bytes → ℤ → ℤ → List Change
port_difference name o n =
    if int_beq o n
    then []
    else if int_beq o (pos 0)
    then record (of_kind port_add) { service = name; key = itoa n; new = itoa n } ∷ []
    else if int_beq n (pos 0)
    then record (of_kind port_remove) { service = name; key = itoa o; old = itoa o } ∷ []
    else record (of_kind port_change) { service = name; key = itoa n; old = itoa o; new = itoa n }
      ∷ []

unfoldable pub compute_port_changes : Config → Config → List Change
unfolding port_difference
compute_port_changes old new =
    walk_services (λ name o n. port_difference name o.port n.port) old new

-- One key of an env map, as it was and as it is.
unfoldable pub env_difference : Bytes → Bytes → Option Bytes → Option Bytes → List Change
env_difference service k none none = []
env_difference service k none (some n) =
    record (of_kind env_add) { service = service; key = k; new = n } ∷ []
env_difference service k (some o) none =
    record (of_kind env_remove) { service = service; key = k; old = o } ∷ []
env_difference service k (some o) (some n) =
    unless_same (o == n)
      (record (of_kind env_change) { service = service; key = k; old = o; new = n })

-- `globalEnvOf` and `envOf`.
unfoldable pub rendered : Map Bytes EnvValue → Map Bytes Bytes
rendered env = map (λ kv. (kv.0, render kv.1)) env

unfoldable pub compute_global_env_changes : Config → Config → List Change
compute_global_env_changes old new =
    walk_keys (env_difference []) (rendered old.env) (rendered new.env)

unfoldable pub compute_env_changes : Config → Config → List Change
compute_env_changes old new =
    walk_services (λ name o n. walk_keys (env_difference name) (rendered o.env) (rendered n.env))
      old new

unfoldable pub unit_differences : Bytes → Service → Service → List Change
unit_differences name o n =
    unless_same (o.exec_func == n.exec_func && slice_equal o.exec_argv n.exec_argv)
      (record (of_kind service_exec_change) { service = name })
    ++ unless_same (o.restart == n.restart)
        (record (of_kind service_restart_change) { service = name })
    ++ unless_same (slice_equal o.after n.after)
        (record (of_kind service_after_change) { service = name })
    ++ unless_same (o.work_dir == n.work_dir)
        (record (of_kind service_workdir_change) { service = name })
    ++ unless_same (o.user == n.user) (record (of_kind service_user_change) { service = name })
    ++ unless_same (o.systemd == n.systemd)
        (record (of_kind service_systemd_override_change) { service = name })

unfoldable pub compute_service_unit_changes : Config → Config → List Change
unfolding unit_differences
compute_service_unit_changes old new = walk_services unit_differences old new

unfoldable pub compute_direct_changes : Config → Config → List Change
compute_direct_changes old new =
    walk_services
      (λ name o n. unless_same (o.direct == n.direct) (record (of_kind service_direct_change) {
        service = name;
        old = format_bool o.direct;
        new = format_bool n.direct;
      }))
      old new

unfoldable pub compute_hostname_changes : Config → Config → List Change
compute_hostname_changes old new =
    walk_services
      (λ name o n.
        unless_same (o.hostname == n.hostname) (record (of_kind service_hostname_change) {
          service = name;
          old = o.hostname;
          new = n.hostname;
        }))
      old new
