-- ===== src/Reconcile/Same/Templates.antt =====
-- When the sections on templates and the bundle find nothing.
use devm.Base.{
  ◌≡◌, refl, ap, sym, ◌↔◌, ◌⊎◌, inl, inr, true, Option, none, some, List, [], ◌∷◌, map, arith,
  nat_eq, bool_eq, pair_eq, Option-cases, All, Bytes, bytes_beq_iff, bytes_eq,
}
use mathlib.Core.Path.{subst}
use mathlib.Core.Option.{some-injective}
use devm.Base.Assoc.{Map, lookup}
use devm.Base.FilePath.{base_name}
use devm.Base.Names.{has}
use devm.Base.Rounds.{concat_map}
use devm.Base.Sort.{sort_by-is_nil}
use devm.Schema.Config.{Config}
use devm.Reconcile.Change.{Change}
use devm.Reconcile.Templates.{script_change, removed_script, compute_template_changes}
use devm.Reconcile.All.{Baseline, bundle_changes}
use devm.Reconcile.Same.Iff.{◌with◌, trans_iff, unless_same-is_nil}

-- A section that walks over a list finds nothing if and only if it finds nothing at each place.
walk-is_nil :
    {A : Type 0} {P : A → Type 0} (f : A → List Change)
    → ((x : A) → (f x ≡ []) ↔ P x)
    → (xs : List A) → (concat_map f xs ≡ []) ↔ All P xs
unfolding concat_map
walk-is_nil f each [] = (λ e. tt, λ u. refl)
walk-is_nil f each (x ∷ xs) = each x with walk-is_nil f each xs

script_change-is_nil :
    (c : Config) (applied : Map Bytes Bytes) (d : Bytes × Bytes)
    → (script_change c applied d ≡ []) ↔ (lookup (base_name d.0) applied ≡ some d.1)
unfolding script_change
script_change-is_nil c applied (path, content) =
    elim (Option-cases (lookup (base_name path) applied)) [
      | inl missing ↦
          (λ h. absurd (cc (rw (missing, script_change) at h)), λ h. absurd (cc (missing, h)))
      | inr (existing, e) ↦
          rw (e, script_change)
            (trans_iff (unless_same-is_nil _ (bytes_beq_iff existing content)) (ground arith))
    ]

removed_script-is_nil :
    (wanted : List Bytes) (d : Bytes × Bytes)
    → (removed_script wanted d ≡ []) ↔ (has d.0 wanted ≡ true)
unfolding removed_script
removed_script-is_nil wanted (name, content) = unless_same-is_nil _ ((λ e. e), (λ e. e))

-- The desired scripts are those that were applied, under their base names.
abbrev pub SameScripts : (desired applied : Map Bytes Bytes) → Type 0
SameScripts desired applied =
    All (λ d. lookup (base_name d.0) applied ≡ some d.1) desired
    × All (λ d. has d.0 (map (λ s. base_name s.0) desired) ≡ true) applied

pub compute_template_changes-is_nil :
    (c : Config) (desired : Option (Map Bytes Bytes)) (applied : Map Bytes Bytes)
    → (compute_template_changes c desired applied ≡ some [])
      ↔ ((ds : Map Bytes Bytes) × (desired ≡ some ds) × SameScripts ds applied)
unfolding compute_template_changes
compute_template_changes-is_nil c none applied = (λ e. absurd (cc e), λ d. absurd (cc (d.1)))
compute_template_changes-is_nil c (some ds) applied =
    let found =
      walk-is_nil (script_change c applied) (script_change-is_nil c applied) ds
      with walk-is_nil (removed_script (map (λ s. base_name s.0) ds))
          (removed_script-is_nil (map (λ s. base_name s.0) ds)) applied in
    let whole = trans_iff (sort_by-is_nil _ _) found in
    (
      λ e. (ds, refl, whole.0 (some-injective _ _ e)),
      λ d.
          ap some
            (whole.1 (subst (λ m. SameScripts m applied) (sym (some-injective _ _ (d.1))) (d.2))),
    )

pub bundle_changes-is_nil :
    (b : Baseline)
    → (bundle_changes b ≡ []) ↔ ((b.current_bundle ≡ []) ⊎ (b.stored_bundle ≡ b.current_bundle))
unfolding bundle_changes
bundle_changes-is_nil b = ground (arith, bytes_beq_iff b.stored_bundle b.current_bundle)
