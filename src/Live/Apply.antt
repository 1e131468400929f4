-- ===== src/Live/Apply.antt =====
-- `ApplyLive` (internal/reconcile/apply_live.go): the changes that need no new machine, in batches.
use devm.Base.{
  Bool, true, false, ◌&&◌, not, List, [], ◌∷◌, ◌++◌, is_nil, if◌then◌else◌, Bytes, codes, bytes_eq,
}
use devm.Base.Names.{has}
use devm.Schema.Config.{Config}
use devm.Schema.Allow.{domains}
use devm.Reconcile.Change
use devm.Reconcile.Change.{Change, ChangeKind, bucket, live, volume_change, repo_change}
use devm.Live.World.{
  World, built_bundle, piped_bundle, dispatched, set_allowlist, bundle_build, bundle_pipe,
  template_install, allowlist_set, M, give, or_fail, unless, ask, each_do, ◌>>=◌, ◌>>◌,
}
use devm.Live.Guest.{succeeded}
use devm.Live.Volumes.{apply_volume_change}
use devm.Live.Repos.{apply_repo_change}

-- What a kind of change asks for.
pub data Demand : Type 0 where
  nothing templates bundle sessions bundle_and_sessions network : Demand

unfoldable pub demand : ChangeKind → Demand
demand Change.template_change = templates
demand Change.env_add = bundle
demand Change.env_remove = bundle
demand Change.env_change = bundle
demand Change.path_change = bundle
demand Change.commands_change = bundle
demand Change.bundle_refresh = bundle
demand Change.repo_change = bundle_and_sessions
demand Change.volume_change = sessions
demand Change.network_add = network
demand Change.network_remove = network
demand _ = nothing

-- What the first loop gathers.
pub record Batches : Type 0 where
  pub template_changes : List Change
  pub mutagen_changes : List Change
  pub bundle_rebuild_needed : Bool
  pub network_changes_present : Bool

abbrev pub no_batches : Batches
no_batches = record {
  template_changes = [];
  mutagen_changes = [];
  bundle_rebuild_needed = false;
  network_changes_present = false;
}

abbrev pub is_live : Change → Bool
is_live c = elim (bucket c) [ live ↦ true | _ ↦ false ]

unfoldable pub put_demand : Demand → Change → Batches → Batches
put_demand nothing c b = b
put_demand templates c b = record b { template_changes = b.template_changes ++ (c ∷ []) }
put_demand bundle c b = record b { bundle_rebuild_needed = true }
put_demand sessions c b = record b { mutagen_changes = b.mutagen_changes ++ (c ∷ []) }
put_demand bundle_and_sessions c b = record b {
  mutagen_changes = b.mutagen_changes ++ (c ∷ []);
  bundle_rebuild_needed = true;
}
put_demand network c b = record b { network_changes_present = true }

unfoldable pub put_change : Change → Batches → Batches
put_change c b = if is_live c then put_demand (demand c.kind) c b else b

unfoldable pub gather : List Change → Batches → Batches
gather [] b = b
gather (c ∷ cs) b = gather cs (put_change c b)

-- `docker.EffectiveAllowlist` (internal/docker/allowlist.go).
abbrev pub docker_implicit_allowlist : List Bytes
docker_implicit_allowlist =
    codes "registry-1.docker.io"
    ∷ codes "auth.docker.io"
    ∷ codes "production.cloudfront.docker.com"
    ∷ codes "download.docker.com"
    ∷ []

unfoldable pub not_listed : List Bytes → List Bytes → List Bytes
not_listed user [] = []
not_listed user (h ∷ hs) = let rest = not_listed user hs in if has h user then rest else h ∷ rest

unfoldable pub effective_allowlist : Config → List Bytes
effective_allowlist c =
    let user = domains c.allow in
    if c.docker then user ++ not_listed user docker_implicit_allowlist else user

unfoldable pub refresh_bundle : World → Config → M (Unit {0})
refresh_bundle w c = do
  built ← ask (λ t. w.build_bundle t c) (built_bundle c)
  or_fail bundle_build built
  reply ← ask w.pipe_bundle piped_bundle
  or_fail bundle_pipe (succeeded reply)

unfoldable pub install_templates : World → M (Unit {0})
install_templates w = do
  reply ← ask w.dispatch dispatched
  or_fail template_install (succeeded reply)

unfoldable pub apply_network_change : World → Bytes → List Bytes → M (Unit {0})
apply_network_change w project allowlist = do
  done ← ask (λ t. w.allow t project allowlist) (set_allowlist project allowlist)
  or_fail allowlist_set done

unfoldable pub apply_mutagen_session_change : World → Bytes → Change → M (Unit {0})
apply_mutagen_session_change w project c = elim (c.kind) [
  | volume_change ↦ apply_volume_change w project c
  | repo_change ↦ apply_repo_change w project c
  | _ ↦ give tt
]

-- The steps behind the first loop.
unfoldable pub apply_batches : World → Bytes → Config → Batches → M (Unit {0})
apply_batches w project c b = do
  unless (not b.bundle_rebuild_needed && is_nil b.template_changes) (refresh_bundle w c)
  unless (is_nil b.template_changes) (install_templates w)
  each_do (apply_mutagen_session_change w project) b.mutagen_changes
  unless (not b.network_changes_present) (apply_network_change w project (effective_allowlist c))

unfoldable pub apply_live : World → Bytes → Config → List Change → M (Unit {0})
apply_live w project c changes = apply_batches w project c (gather changes no_batches)
