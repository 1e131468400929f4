-- ===== src/Schema/Labels.antt =====
-- The labels of repos and volumes, which name sync sessions, and `Config.validateLabels`
-- (internal/schema/schema.go and repo.go).
use devm.Base.{
  ℕ, ◌≡◌, ◌≢◌, ◌↔◌, Bool, true, false, ◌&&◌, not, Option, none, some, List, map, [], ◌∷◌, ◌++◌,
  arith, ◌==◌, nat_eq, drop, suc, is_nil, All, Bytes, codes, bytes_eq, bytes_beq_iff, if◌then◌else◌,
  trim_prefix, trim_suffix, last_index_byte,
}
use devm.Base.Int.{int_eq}
use devm.Base.Assoc.{Map, lookup}
use devm.Base.Names.{keys, sorted_set}
use devm.Base.FilePath.{base_name}
use devm.Base.Words.{is_label}
use devm.Base.Claims.{Distinct, IsFree, clash, remember, clash-remember, IsFree-nil}
use devm.Base.Checks.{◌or_else◌, reject_if, each, ◌and_also◌, each_iff, iff_trans, iff_refl}
use devm.Schema.Config.{Config, Volume, RepoConfig}
use devm.Schema.Repos.{repo_of}

-- What stands behind the last such byte, or the whole text.
behind_last : ℕ → Bytes → Bytes
behind_last d s = elim (last_index_byte s d) [ none ↦ s | some i ↦ drop (suc i) s ]

unfoldable pub bare_clone_name : Bytes → Bytes
unfolding behind_last
bare_clone_name url = behind_last b':' (behind_last b'/' (trim_suffix url (codes ".git")))

unfoldable pub sanitize_derived_label : Bytes → Bytes
sanitize_derived_label leaf = trim_prefix leaf (codes ".")

-- `RepoConfig.ResolveLabel`.
unfoldable pub repo_label : Bytes → RepoConfig → Bytes
repo_label mac_cwd r = elim (r.label) [
  | some label ↦ label
  | none ↦ elim (r.url) [
    | some url ↦ bare_clone_name url
    | none ↦ sanitize_derived_label (base_name mac_cwd)
  ]
]

-- `Volume.ResolveLabel`.
unfoldable pub volume_label : Volume → Bytes
volume_label v = elim (v.label) [
  | some label ↦ label
  | none ↦ sanitize_derived_label (base_name v.path)
]

abbrev pub cwd_label_placeholder : Bytes
cwd_label_placeholder = codes "__cwd__"

pub data OwnerKind : Type 0 where
  repos_entry volumes_entry : OwnerKind

pub record LabelOwner : Type 0 where
  pub kind : OwnerKind
  pub name : Bytes
  pub label : Bytes
  pub explicit : Bool

pub data LabelError : Type 0 where
  explicit_invalid derived_invalid : LabelOwner → LabelError
  label_twice : (before after : LabelOwner) → LabelError

is_written : Option Bytes → Bool
is_written none = false
is_written (some s) = true

-- As `ResolveLabel`, but with a placeholder where the directory on the Mac is not known.
unfoldable pub repo_owner : Config → Bytes → Bytes → LabelOwner
unfolding is_written
repo_owner c mac_cwd name =
    let r = repo_of c name in
    record {
      kind = repos_entry;
      name = name;
      label =
          if is_nil mac_cwd && (not (is_written r.label) && not (is_written r.url))
          then cwd_label_placeholder
          else repo_label mac_cwd r;
      explicit = is_written r.label;
    }

abbrev zero_volume : Volume
zero_volume = record { path = []; label = none; ignore = [] }

unfoldable pub volume_of : Config → Bytes → Volume
volume_of c name = elim (lookup name c.volumes) [ none ↦ zero_volume | some v ↦ v ]

unfoldable pub volume_owner : Config → Bytes → LabelOwner
unfolding is_written
volume_owner c name =
    let v = volume_of c name in
    record {
      kind = volumes_entry;
      name = name;
      label = volume_label v;
      explicit = is_written v.label;
    }

unfoldable pub label_owners : Config → Bytes → List LabelOwner
label_owners c mac_cwd =
    map (repo_owner c mac_cwd) (sorted_set (keys c.repos))
    ++ map (volume_owner c) (sorted_set (keys c.volumes))

unfoldable pub check_label : LabelOwner → Option LabelError
check_label o =
    if o.label == cwd_label_placeholder
    then none
    else reject_if (not (is_label o.label))
        (if o.explicit then explicit_invalid o else derived_invalid o)

unfoldable pub check_labels : List LabelOwner → Map Bytes LabelOwner → Option LabelError
check_labels [] seen = none
check_labels (o ∷ os) seen =
    clash (some o.label) seen (λ before. label_twice before o)
    or_else check_labels os (remember (some o.label) o seen)

unfoldable pub validate_labels : Config → Bytes → Option LabelError
validate_labels c mac_cwd =
    let owners = label_owners c mac_cwd in each check_label owners or_else check_labels owners []

-- Every label names a session or is the placeholder, and no two entries have one label.
pub record GoodLabels (c : Config) (mac_cwd : Bytes) : Type 0 where
  pub legal :
      All (λ o. o.label ≢ cwd_label_placeholder → is_label o.label ≡ true) (label_owners c mac_cwd)
  pub own_label : Distinct (map (λ o. o.label) (label_owners c mac_cwd))

check_label_iff :
    (o : LabelOwner)
    → (check_label o ≡ none) ↔ (o.label ≢ cwd_label_placeholder → is_label o.label ≡ true)
unfolding check_label reject_if
check_label_iff o = ground (arith, bytes_beq_iff o.label cwd_label_placeholder)

check_labels_iff :
    (os : List LabelOwner) (seen : Map Bytes LabelOwner)
    → (check_labels os seen ≡ none) ↔ IsFree seen (map (λ o. o.label) os)
unfolding check_labels
check_labels_iff [] seen = ground arith
check_labels_iff (o ∷ os) seen =
    iff_trans (iff_refl and_also check_labels_iff os _) (clash-remember (some o.label) o seen _ _)

pub validate_labels_iff :
    (c : Config) (mac_cwd : Bytes) → (validate_labels c mac_cwd ≡ none) ↔ GoodLabels c mac_cwd
unfolding validate_labels
validate_labels_iff c mac_cwd =
    let owners = label_owners c mac_cwd in
    iff_trans (each_iff _ check_label check_label_iff owners and_also check_labels_iff owners []) (
      λ p. record { legal = p.0; own_label = (IsFree-nil LabelOwner _).0 (p.1) },
      λ g. (g.legal, (IsFree-nil LabelOwner _).1 g.own_label),
    )
