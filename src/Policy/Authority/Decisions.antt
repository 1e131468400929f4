-- ===== src/Policy/Authority/Decisions.antt =====
-- What the answers of the authority mean: when a request goes through, and what a rejection leaves.
use devm.Base.{
  ℕ, ◌+◌, ◌≡◌, refl, ◌≢◌, ◌↔◌, ◌⊎◌, true, ◌&&◌, ◌||◌, is_nil, ◌∷◌, [], arith, if◌then◌else◌, ◌==◌,
  nat_eq, bool_eq, pair_eq, ==_refl, Bytes, bytes_eq,
}
use devm.Base.Assoc.{lookup-delete}
use devm.Policy.Match.{allowed, strip_port}
use devm.Policy.Denials.{DenialKey, count_of, record_denial, count_of-record_denial}
use devm.Policy.Gate.Safe.{IsSafePath, gate_reject-IsSafePath}
use devm.Policy.Authority.{
  restricted, passthrough, Authority, allowlist_for, mode_for, stop_serving, purge_project, decide,
  proceed, HttpRequest, transform_request,
}

-- A request goes through exactly when every secret that the store lists for its project is safe in
-- its path and the project either is in passthrough mode or has a list that covers the request's
-- host, without its port, and path. A secret is safe when its token is not in the path or its
-- stored value has no slash; without a store, or when listing or reading a secret fails, the
-- secret is not held against the request.
pub transform_request-proceed_iff :
    (url_path : Bytes → Bytes) (project : Bytes) (r : HttpRequest) (now : ℕ) (a : Authority)
    → ((transform_request url_path project r now a).1 ≡ proceed) ↔ (
        IsSafePath a.secrets project (url_path r.url)
        × ((mode_for project a ≡ passthrough)
            ⊎ (allowed (allowlist_for project a) (strip_port r.host) (url_path r.url) ≡ true)))
unfolding transform_request decide
transform_request-proceed_iff url_path project r now a =
    ground (arith, gate_reject-IsSafePath a.secrets project (url_path r.url))

-- After a stop or a purge a project is restricted again; a purge also forgets its list, so that
-- every request of the project is rejected.
pub stopped_project :
    (url_path : Bytes → Bytes) (project : Bytes) (r : HttpRequest) (now : ℕ) (a : Authority)
    → (mode_for project (stop_serving project a) ≡ restricted)
      × (allowlist_for project (stop_serving project a) ≡ allowlist_for project a)
      × ((transform_request url_path project r now (purge_project project a)).1 ≢ proceed)
unfolding mode_for allowlist_for stop_serving purge_project transform_request decide allowed
stopped_project url_path project r now a = (
  ground (arith, lookup-delete project project a.modes, ==_refl project),
  refl,
  λ h. ground (
    arith,
    lookup-delete project project a.modes,
    lookup-delete project project a.allow,
    ==_refl project,
  ),
)

-- A decision adds one to the count of its own host and path when it rejects, and to no other
-- count; an allowed request leaves all counts, and so does one with an empty host or project.
pub decide_counts :
    (project host path method : Bytes) (now : ℕ) (a : Authority) (p : Bytes) (k : DenialKey)
    → count_of p k (decide project host path method now a).0.denials
      ≡ count_of p k a.denials
        + (if (decide project host path method now a).1 || is_nil project || is_nil host
            then 0
            else if project == p && (host, path) == k
            then 1
            else 0)
unfolding decide record_denial
decide_counts [] host path method now a p k = ground arith
decide_counts (c ∷ cs) [] path method now a p k = ground arith
decide_counts (c ∷ cs) (h ∷ hs) path method now a p k = ground (
  arith,
  count_of-record_denial (c ∷ cs) (h ∷ hs) path method now a.denials p k (λ e. cc) (λ e. cc),
)
