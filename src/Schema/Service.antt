-- ===== src/Schema/Service.antt =====
-- `Template.Validate` and `Service.Validate` (internal/schema/schema.go).
use devm.Base.{
  ◌≡◌, ◌≢◌, ◌↔◌, Bool, true, false, ◌&&◌, ◌||◌, not, Option, none, [], arith, ◌==◌, bool_eq,
  bytes_beq_iff, is_nil, is_nil_iff, All, Bytes, codes, bytes_eq, has_prefix, has_suffix,
}
use devm.Base.Int.{pos, int_eq, int_beq_iff}
use devm.Base.FilePath.{clean, is_abs}
use devm.Base.Checks.{
  ◌or_else◌, reject_if, each, wrap, ◌and_also◌, reject_if_iff, each_iff, wrap_iff, iff_trans,
  iff_refl,
}
use devm.Schema.Config.{Template, Service}

pub data TemplateError : Type 0 where
  source_required output_required source_escapes output_not_absolute : TemplateError

-- Whether a cleaned path leaves the project root.
unfoldable pub escapes : Bytes → Bool
escapes cleaned =
    cleaned == codes ".." || (has_prefix cleaned (codes "../") || has_prefix cleaned (codes "/"))

unfoldable pub validate_template : Template → Option TemplateError
validate_template t =
    reject_if (is_nil t.source) source_required
    or_else reject_if (is_nil t.output) output_required
    or_else reject_if (escapes (clean t.source)) source_escapes
    or_else reject_if (not (is_abs t.output)) output_not_absolute

pub data ServiceError : Type 0 where
  expose_without_hostname hostname_not_test hostname_reserved : ServiceError
  direct_without_hostname bind_without_port nothing_to_do : ServiceError
  systemd_exclusive restart_unknown : ServiceError
  in_template : TemplateError → ServiceError

-- Some field that a systemd override excludes is set.
unfoldable pub is_declarative : Service → Bool
is_declarative s =
    not (is_nil s.exec_func)
    || (not (is_nil s.exec_argv)
        || (not (is_nil s.restart)
            || (not (is_nil s.after) || (not (is_nil s.work_dir) || not (is_nil s.user)))))

unfoldable pub is_restart : Bytes → Bool
is_restart r = is_nil r || (r == codes "no" || (r == codes "on-failure" || r == codes "always"))

unfoldable pub is_idle : Service → Bool
is_idle s = s.port == pos 0 && (is_nil s.exec_func && (is_nil s.exec_argv && is_nil s.systemd))

unfoldable pub validate_service : Service → Option ServiceError
validate_service s =
    reject_if (s.expose_host && is_nil s.hostname) expose_without_hostname
    or_else reject_if (not (is_nil s.hostname) && not (has_suffix s.hostname (codes ".test")))
        hostname_not_test
    or_else reject_if
        (s.hostname == codes "host.test" || has_suffix s.hostname (codes ".host.test"))
        hostname_reserved
    or_else reject_if (s.direct && is_nil s.hostname) direct_without_hostname
    or_else reject_if (not (is_nil s.bind_ip) && s.port == pos 0) bind_without_port
    or_else reject_if (is_idle s) nothing_to_do
    or_else reject_if (not (is_nil s.systemd) && is_declarative s) systemd_exclusive
    or_else reject_if (not (is_restart s.restart)) restart_unknown
    or_else each (λ t. wrap in_template (validate_template t)) s.templates

-- A template that can be installed: both ends are written, the source stays below the project
-- root, and the output is absolute.
pub record IsInstallable (t : Template) : Type 0 where
  pub has_source : t.source ≢ []
  pub has_output : t.output ≢ []
  pub stays_inside : escapes (clean t.source) ≡ false
  pub absolute : is_abs t.output ≡ true

-- What `Service.Validate` promises of a service.
pub record IsServable (s : Service) : Type 0 where
  pub exposed_by_name : s.expose_host ≡ true → s.hostname ≢ []
  pub in_test : s.hostname ≢ [] → has_suffix s.hostname (codes ".test") ≡ true
  pub not_host : s.hostname ≢ codes "host.test"
  pub not_below_host : has_suffix s.hostname (codes ".host.test") ≡ false
  pub direct_by_name : s.direct ≡ true → s.hostname ≢ []
  pub bound_port : s.bind_ip ≢ [] → s.port ≢ pos 0
  pub active : is_idle s ≡ false
  pub one_way : s.systemd ≢ [] → is_declarative s ≡ false
  pub restarts : is_restart s.restart ≡ true
  pub templates : All IsInstallable s.templates

pub validate_template_iff : (t : Template) → (validate_template t ≡ none) ↔ IsInstallable t
unfolding validate_template
validate_template_iff t =
    iff_trans
      (reject_if_iff (is_nil t.source) source_required iff_refl
        and_also reject_if_iff (is_nil t.output) output_required iff_refl
        and_also reject_if_iff (escapes (clean t.source)) source_escapes iff_refl
        and_also reject_if_iff (not (is_abs t.output)) output_not_absolute iff_refl)
      (ground (arith, is_nil_iff t.source, is_nil_iff t.output))

pub validate_service_iff : (s : Service) → (validate_service s ≡ none) ↔ IsServable s
unfolding validate_service
validate_service_iff s =
    iff_trans
      (reject_if_iff _ expose_without_hostname iff_refl
        and_also reject_if_iff _ hostname_not_test iff_refl
        and_also reject_if_iff _ hostname_reserved iff_refl
        and_also reject_if_iff _ direct_without_hostname iff_refl
        and_also reject_if_iff _ bind_without_port iff_refl
        and_also reject_if_iff _ nothing_to_do iff_refl
        and_also reject_if_iff _ systemd_exclusive iff_refl
        and_also reject_if_iff _ restart_unknown iff_refl
        and_also each_iff IsInstallable _
            (λ t. wrap_iff in_template (validate_template t) (validate_template_iff t)) s.templates)
      (ground (
        arith,
        is_nil_iff s.hostname,
        is_nil_iff s.bind_ip,
        is_nil_iff s.systemd,
        bytes_beq_iff s.hostname (codes "host.test"),
        int_beq_iff s.port (pos 0),
      ))
