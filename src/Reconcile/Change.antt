-- ===== src/Reconcile/Change.antt =====
-- internal/reconcile/diff.go: a change between two configs, how invasive its kind is, and which
-- recreation a list of changes needs.
use devm.Base.{
  ◌≡◌, refl, Bool, true, false, ◌&&◌, ◌||◌, Option, none, List, [], ◌∷◌, arith, if◌then◌else◌, ◌==◌,
  nat_eq, bool_eq, pair_eq, any, Bytes, codes, bytes_eq,
}
use devm.Schema.Config.{Volume, RepoConfig}

pub data Bucket : Type 0 where
  live restart_vm teardown_vm egress_restart : Bucket

pub data Op : Type 0 where
  op_add op_remove op_mutate : Op

pub data ChangeKind : Type 0 where
  port_add port_remove port_change network_add network_remove env_add env_remove : ChangeKind
  env_change package_add package_remove image_change identity_change : ChangeKind
  docker_toggle disk_change memory_change cpu_change template_change path_change : ChangeKind
  service_exec_change service_restart_change service_after_change : ChangeKind
  service_workdir_change service_user_change service_systemd_override_change : ChangeKind
  service_hostname_change service_direct_change secret_add secret_remove : ChangeKind
  secret_change iron_proxy_down volume_change repo_change ssh_endpoint_healed : ChangeKind
  commands_change bundle_refresh : ChangeKind

-- The table `changeBucket`.
unfoldable pub change_bucket : ChangeKind → Bucket
change_bucket image_change = teardown_vm
change_bucket identity_change = teardown_vm
change_bucket docker_toggle = teardown_vm
change_bucket disk_change = teardown_vm
change_bucket memory_change = restart_vm
change_bucket cpu_change = restart_vm
change_bucket secret_add = egress_restart
change_bucket secret_remove = egress_restart
change_bucket secret_change = egress_restart
change_bucket iron_proxy_down = egress_restart
change_bucket port_add = live
change_bucket port_remove = live
change_bucket port_change = live
change_bucket network_add = live
change_bucket network_remove = live
change_bucket env_add = live
change_bucket env_remove = live
change_bucket env_change = live
change_bucket package_add = live
change_bucket package_remove = live
change_bucket template_change = live
change_bucket path_change = live
change_bucket service_exec_change = live
change_bucket service_restart_change = live
change_bucket service_after_change = live
change_bucket service_workdir_change = live
change_bucket service_user_change = live
change_bucket service_systemd_override_change = live
change_bucket service_hostname_change = live
change_bucket service_direct_change = live
change_bucket volume_change = live
change_bucket repo_change = live
change_bucket ssh_endpoint_healed = live
change_bucket commands_change = live
change_bucket bundle_refresh = live

-- What the fields of type `any` hold; `no_value` is their nil.
pub data Value : Type 0 where
  no_value : Value
  text : Bytes → Value
  text_pointer : Option Bytes → Value
  bool_pointer : Option Bool → Value
  texts : List Bytes → Value
  a_volume : Volume → Value
  a_repo : RepoConfig → Value

pub record Change : Type 0 where
  pub kind : ChangeKind
  pub service : Bytes
  pub key : Bytes
  pub old : Bytes
  pub new : Bytes
  pub detail : Bytes
  pub op : Op
  pub field : Bytes
  pub old_value : Value
  pub new_value : Value
  pub repo_before : Option RepoConfig
  pub repo_after : Option RepoConfig
  pub volume_before : Option Volume
  pub volume_after : Option Volume
  pub repo : Bytes

-- `Change{Kind: kind}`, the other fields at Go's zero values.
abbrev pub of_kind : ChangeKind → Change
of_kind kind = record {
  kind = kind;
  service = [];
  key = [];
  old = [];
  new = [];
  detail = [];
  op = op_add;
  field = [];
  old_value = no_value;
  new_value = no_value;
  repo_before = none;
  repo_after = none;
  volume_before = none;
  volume_after = none;
  repo = [];
}

abbrev pub is_repo_change : ChangeKind → Bool
is_repo_change repo_change = true
is_repo_change _ = false

unfoldable pub bucket : Change → Bucket
bucket c =
    if is_repo_change c.kind && (c.field == codes "URL" || c.field == codes "Secret")
    then restart_vm
    else change_bucket c.kind

pub data FlavorKind : Type 0 where
  live_only flavor_restart_vm flavor_teardown_vm : FlavorKind

-- The loop of `RecreateFlavor`, with the `max` so far.
flavor_from : FlavorKind → List Change → FlavorKind
flavor_from best [] = best
flavor_from best (c ∷ cs) =
    let restarted = flavor_from (elim best [ live_only ↦ flavor_restart_vm | f ↦ f ]) cs in
    let kept = flavor_from best cs in
    elim (bucket c) [
      | live ↦ kept
      | egress_restart ↦ kept
      | restart_vm ↦ restarted
      | teardown_vm ↦ flavor_teardown_vm
    ]

unfoldable pub recreate_flavor : List Change → FlavorKind
unfolding flavor_from
recreate_flavor cs = flavor_from live_only cs

abbrev pub needs_teardown : Change → Bool
needs_teardown c = elim (bucket c) [ teardown_vm ↦ true | _ ↦ false ]

abbrev pub needs_restart : Change → Bool
needs_restart c = elim (bucket c) [ restart_vm ↦ true | _ ↦ false ]

grave : FlavorKind → List Change → FlavorKind
grave best cs =
    if any needs_teardown cs
    then flavor_teardown_vm
    else if any needs_restart cs
    then elim best [ live_only ↦ flavor_restart_vm | f ↦ f ]
    else best

flavor_from-grave : (best : FlavorKind) (cs : List Change) → flavor_from best cs ≡ grave best cs
unfolding flavor_from grave
flavor_from-grave best [] = refl
flavor_from-grave live_only (c ∷ cs) =
    ground (arith, flavor_from-grave live_only cs, flavor_from-grave flavor_restart_vm cs)
flavor_from-grave flavor_restart_vm (c ∷ cs) =
    ground (arith, flavor_from-grave flavor_restart_vm cs)
flavor_from-grave flavor_teardown_vm (c ∷ cs) =
    ground (arith, flavor_from-grave flavor_teardown_vm cs)

-- The flavor is the gravest that one of the changes asks for: a teardown if any does, else a
-- restart if any does, else live.
pub recreate_flavor-cases :
    (cs : List Change)
    → recreate_flavor cs ≡ (
        if any needs_teardown cs
        then flavor_teardown_vm
        else if any needs_restart cs
        then flavor_restart_vm
        else live_only)
unfolding recreate_flavor grave
recreate_flavor-cases cs = flavor_from-grave live_only cs
