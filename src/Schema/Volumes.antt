-- ===== src/Schema/Volumes.antt =====
-- `Config.validateVolumes` (internal/schema/schema.go).
use devm.Base.{
  ◌≡◌, refl, ◌≢◌, ◌↔◌, Bool, true, false, ◌||◌, not, Option, none, some, List, [], ◌∷◌, ◌++◌, arith,
  ◌==◌, is_nil, is_nil_iff, All, Bytes, codes, bytes_eq, contains, has_prefix, if◌then◌else◌,
}
use devm.Base.Assoc.{Map, lookup}
use devm.Base.Names.{has, keys, sorted_set}
use devm.Base.Words.{is_volume_name}
use devm.Base.FilePath.{clean, is_abs}
use devm.Base.Owners.{OneOwner, All-sorted_set, Distinct-claims}
use devm.Base.Claims.{claims, IsFree, clash, remember, clash-remember, IsFree-nil}
use devm.Base.Checks.{
  ◌or_else◌, reject_if, each, ◌and_also◌, reject_if_iff, each_iff, iff_trans, iff_refl,
}
use devm.Schema.Config.{Config}

pub data VolumeError : Type 0 where
  name_empty : VolumeError
  name_shape path_empty path_relative path_dots overlaps_workspace : Bytes → VolumeError
  path_twice : Bytes → (before after : Bytes) → VolumeError

-- Reading a missing key gives the empty path.
unfoldable pub path_of : Config → Bytes → Bytes
path_of c name = elim (lookup name c.volumes) [ none ↦ [] | some v ↦ v.path ]

unfoldable pub check_shape : Config → Bytes → Option VolumeError
check_shape c name =
    reject_if (is_nil name) name_empty
    or_else reject_if (not (is_volume_name name)) (name_shape name)
    or_else reject_if (is_nil (path_of c name)) (path_empty name)
    or_else reject_if (not (is_abs (path_of c name))) (path_relative name)
    or_else reject_if (contains (path_of c name) (codes "..")) (path_dots name)

-- The map `byPath` names the volume that came first.
unfoldable pub check_paths : Config → List Bytes → Map Bytes Bytes → Option VolumeError
check_paths c [] by_path = none
check_paths c (name ∷ names) by_path =
    clash (some (path_of c name)) by_path (λ before. path_twice (path_of c name) before name)
    or_else check_paths c names (remember (some (path_of c name)) name by_path)

-- Whether a path is the root or below it.
unfoldable pub overlaps : Bytes → Bytes → Bool
overlaps root path = path == root || has_prefix path (root ++ codes "/")

unfoldable pub check_overlap : Config → Bytes → Bytes → Option VolumeError
check_overlap c root name =
    reject_if (overlaps root (clean (path_of c name))) (overlaps_workspace name)

-- The early return for no volumes changes nothing: each loop then has no rounds.
unfoldable pub validate_volumes : Config → Bytes → Option VolumeError
validate_volumes c workspace_root =
    let names = sorted_set (keys c.volumes) in
    each (check_shape c) names
    or_else check_paths c names []
    or_else (if is_nil workspace_root
        then none
        else each (check_overlap c (clean workspace_root)) names)

pub record GoodVolume (name path : Bytes) : Type 0 where
  pub named : name ≢ []
  pub shaped : is_volume_name name ≡ true
  pub mounted : path ≢ []
  pub absolute : is_abs path ≡ true
  pub no_dots : contains path (codes "..") ≡ false

-- What the validation promises of the volumes: each is good for itself, no guest path has two
-- owners, and with a workspace none lies in it.
pub record GoodVolumes (c : Config) (workspace_root : Bytes) : Type 0 where
  pub good : (k : Bytes) → has k (keys c.volumes) ≡ true → GoodVolume k (path_of c k)
  pub own_path : OneOwner (λ n. some (path_of c n)) (keys c.volumes)
  pub outside :
      workspace_root ≢ []
      → (k : Bytes) → has k (keys c.volumes) ≡ true
      → overlaps (clean workspace_root) (clean (path_of c k)) ≡ false

check_shape_iff : (c : Config) (k : Bytes) → (check_shape c k ≡ none) ↔ GoodVolume k (path_of c k)
unfolding check_shape
check_shape_iff c k =
    iff_trans
      (reject_if_iff _ name_empty iff_refl
        and_also reject_if_iff _ (name_shape k) iff_refl
        and_also reject_if_iff _ (path_empty k) iff_refl
        and_also reject_if_iff _ (path_relative k) iff_refl
        and_also reject_if_iff _ (path_dots k) iff_refl)
      (ground (arith, is_nil_iff k, is_nil_iff (path_of c k)))

check_paths_iff :
    (c : Config) (names : List Bytes) (by_path : Map Bytes Bytes)
    → (check_paths c names by_path ≡ none) ↔ IsFree by_path (claims (λ n. some (path_of c n)) names)
unfolding check_paths
check_paths_iff c [] by_path = ground arith
check_paths_iff c (name ∷ names) by_path =
    iff_trans (iff_refl and_also check_paths_iff c names _)
      (clash-remember (some (path_of c name)) name by_path _ _)

check_overlaps_iff :
    (c : Config) (root : Bytes) (names : List Bytes)
    → ((if is_nil root then none else each (check_overlap c (clean root)) names) ≡ none)
      ↔ (root ≢ [] → All (λ k. overlaps (clean root) (clean (path_of c k)) ≡ false) names)
unfolding check_overlap
check_overlaps_iff c [] names = (λ e n. absurd (n refl), λ f. refl)
check_overlaps_iff c (x ∷ root) names =
    let e =
      each_iff (λ k. overlaps (clean (x ∷ root)) (clean (path_of c k)) ≡ false) _
        (λ k. reject_if_iff _ (overlaps_workspace k) iff_refl) names in
    (λ h n. e.0 h, λ f. e.1 (f (λ p. cc p)))

pub validate_volumes_iff :
    (c : Config) (root : Bytes) → (validate_volumes c root ≡ none) ↔ GoodVolumes c root
unfolding validate_volumes
validate_volumes_iff c root =
    let names = keys c.volumes in
    let good = All-sorted_set (λ k. GoodVolume k (path_of c k)) names in
    let out = All-sorted_set (λ k. overlaps (clean root) (clean (path_of c k)) ≡ false) names in
    let own = Distinct-claims (λ n. some (path_of c n)) names in
    iff_trans
      (each_iff _ (check_shape c) (check_shape_iff c) (sorted_set names)
        and_also check_paths_iff c (sorted_set names) []
        and_also check_overlaps_iff c root (sorted_set names))
      (
        λ p. record {
          good = good.0 (p.0);
          own_path = own.0 ((IsFree-nil Bytes _).0 (p.1.0));
          outside = λ n. out.0 (p.1.1 n);
        },
        λ g. (good.1 g.good, ((IsFree-nil Bytes _).1 (own.1 g.own_path), λ n. out.1 (g.outside n))),
      )
