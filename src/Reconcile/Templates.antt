-- ===== src/Reconcile/Templates.antt =====
-- `ComputeTemplateChanges` (internal/reconcile/diff.go). What internal/render makes of the
-- templates, which reads the source files, is the argument `desired`: a map from script path to
-- content, or `none` for its error.
use devm.Base.{
  ℕ, suc, Option, none, some, List, [], ◌∷◌, ◌++◌, map, ltb, if◌then◌else◌, ◌==◌, nat_eq, bool_eq,
  pair_eq, Bytes, codes, bytes_eq, bytes_ltb,
}
use devm.Base.Assoc.{Map, lookup, insert}
use devm.Base.FilePath.{base_name}
use devm.Base.Decimal.{decimal}
use devm.Base.Sort.{sort_by}
use devm.Schema.Config.{Config, Template, service_of}
use devm.Reconcile.Change.{Change, of_kind, template_change}
use devm.Base.Names.{has, keys, sorted_set}
use devm.Base.Rounds.{concat_map}
use devm.Reconcile.Compare.{unless_same}

-- `fmt.Sprintf("%02d-%s-%s.sh", idx, svc, filepath.Base(tmpl.Output))`.
script_name : ℕ → Bytes → Bytes → Bytes
script_name idx svc output =
    (if ltb idx 10 then b'0' ∷ decimal idx else decimal idx)
    ++ (b'-' ∷ svc ++ (b'-' ∷ base_name output ++ codes ".sh"))

-- Service and output of each script name.
abbrev Meta : Type 0
Meta = Map Bytes (Bytes × Bytes)

templates_meta : Bytes → List Template → ℕ × Meta → ℕ × Meta
templates_meta svc [] acc = acc
templates_meta svc (t ∷ ts) (idx, meta) =
    templates_meta svc ts (suc idx, insert (script_name idx svc t.output) (svc, t.output) meta)

services_meta : Config → List Bytes → ℕ × Meta → ℕ × Meta
services_meta c [] acc = acc
services_meta c (svc ∷ names) acc =
    services_meta c names (templates_meta svc ((service_of c svc).templates) acc)

unfoldable pub desired_meta : Config → Map Bytes (Bytes × Bytes)
unfolding services_meta templates_meta script_name
desired_meta c = (services_meta c (sorted_set (keys c.services)) (0, [])).1

unfoldable pub meta_of : Config → Bytes → Bytes × Bytes
meta_of c name = elim (lookup name (desired_meta c)) [ none ↦ ([], []) | some m ↦ m ]

-- A desired script against what was applied last.
unfoldable pub script_change : Config → Map Bytes Bytes → Bytes × Bytes → List Change
script_change c applied (path, content) =
    let m = meta_of c (base_name path) in
    elim (lookup (base_name path) applied) [
      | none ↦
          record (of_kind template_change) { service = m.0; detail = m.1; new = codes "installed" }
          ∷ []
      | some existing ↦ unless_same (existing == content) (record (of_kind template_change) {
        service = m.0;
        detail = m.1;
        old = codes "previous";
        new = codes "updated";
      })
    ]

unfoldable pub removed_script : List Bytes → Bytes × Bytes → List Change
removed_script wanted (name, content) =
    unless_same (has name wanted)
      (record (of_kind template_change) { detail = name; old = codes "previous" })

-- Changes with the same detail come in the order of the maps here; the source leaves it open.
unfoldable pub compute_template_changes :
    Config
    → (desired : Option (Map Bytes Bytes)) → (applied : Map Bytes Bytes) → Option (List Change)
compute_template_changes c none applied = none
compute_template_changes c (some desired) applied = some (
    sort_by (λ a b. bytes_ltb a.detail b.detail)
      (concat_map (script_change c applied) desired
        ++ concat_map (removed_script (map (λ d. base_name d.0) desired)) applied))
