-- ===== src/Live/Careful/Batches.antt =====
-- A run of `ApplyLive` (internal/reconcile/apply_live.go) keeps its trace careful.
use devm.Base.{Bool, true, false, ◌&&◌, not, List, ◌∷◌, ◌≡◌, refl, Bytes, bytes_eq, bool_eq, is_nil}
use devm.Schema.Config.{Config}
use devm.Reconcile.Change.{Change}
use devm.Live.World.{
  ExecReply, built_bundle, piped_bundle, Trace, World, ok, failed, give, unless, ask,
}
use devm.Live.Guest.{succeeded}
use devm.Live.Apply.{
  Batches, no_batches, gather, refresh_bundle, install_templates, apply_network_change,
  apply_batches, apply_live,
}
use devm.Live.Careful.{IsCareful, IsBuilt, IsPiped}
use devm.Live.Careful.Rules.{
  Does, Ends, Keeps, bind-Does, Once, or_fail-Once, loosen-Does, then-Keeps, or_fail-Keeps,
  unless-Keeps, ask-Keeps, each_do-Keeps,
}
use devm.Live.Careful.Changes.{apply_mutagen_session_change-Keeps}

module _ (w : World) (project : Bytes) where
  -- A bundle was just built, or just piped.
  abbrev Built : Trace → Type 0
  Built t = IsBuilt t × IsCareful w project t

  abbrev Piped : Trace → Type 0
  Piped t = IsPiped t × IsCareful w project t

  built :
      (c : Config) (t : Trace) (b : Bool)
      → IsCareful w project t
      → Once w project Built b (built_bundle c b ∷ t)
  built c t true k = (tt, (tt, k))
  built c t false k = (tt, k)

  piped :
      (t : Trace) (reply : ExecReply) (b : Bool)
      → succeeded reply ≡ b
      → Built t
      → Once w project Piped b (piped_bundle reply ∷ t)
  piped t reply true e k = (e, k)
  piped t reply false e k = k

  refresh_bundle-Does :
      (c : Config) → Does w project (IsCareful w project) (refresh_bundle w c) (λ u. Piped)
  unfolding refresh_bundle ask
  refresh_bundle-Does c =
      bind-Does w project (Once w project Built)
        (record { ends = λ t k. built c t (w.build_bundle t c) k })
        (λ done.
          bind-Does w project (λ u. Built) (or_fail-Once w project Built _ done)
            (λ u.
              bind-Does w project (λ reply. Once w project Piped (succeeded reply))
                (record { ends = λ t k. piped t (w.pipe_bundle t) _ refl k })
                (λ reply. or_fail-Once w project Piped _ _)))

  install_templates-Does : Does w project Piped (install_templates w) (λ u. IsCareful w project)
  unfolding install_templates ask
  install_templates-Does =
      bind-Does w project (λ r. IsCareful w project) (record { ends = λ t k. k })
        (λ r. or_fail-Keeps w project _ _)

  -- Where there are templates to install, the bundle was piped.
  abbrev Ready : Bool → Trace → Type 0
  Ready true = IsCareful w project
  Ready false = Piped

  refresh-Does :
      (c : Config) (rebuild no_templates : Bool)
      → Does w project
          (IsCareful w project)
          (unless (not rebuild && no_templates) (refresh_bundle w c))
          (λ u. Ready no_templates)
  unfolding unless give
  refresh-Does c true false = refresh_bundle-Does c
  refresh-Does c false false = refresh_bundle-Does c
  refresh-Does c false true = record { ends = λ t k. k }
  refresh-Does c true true = loosen-Does w project (λ u t k. k.1) (refresh_bundle-Does c)

  install-Does :
      (no_templates : Bool)
      → Does w project
          (Ready no_templates)
          (unless no_templates (install_templates w))
          (λ u. IsCareful w project)
  unfolding unless give
  install-Does true = record { ends = λ t k. k }
  install-Does false = install_templates-Does

  apply_network_change-Keeps :
      (allowlist : List Bytes) → Keeps w project (apply_network_change w project allowlist)
  unfolding apply_network_change
  apply_network_change-Keeps allowlist =
      then-Keeps w project (ask-Keeps w project _ _ (λ b t. refl)) (or_fail-Keeps w project _)

  apply_batches-Keeps : (c : Config) (b : Batches) → Keeps w project (apply_batches w project c b)
  unfolding apply_batches
  apply_batches-Keeps c b =
      bind-Does w project (λ u. Ready (is_nil b.template_changes)) (refresh-Does c _ _)
        (λ u.
          bind-Does w project (λ u. IsCareful w project) (install-Does _)
            (λ u.
              then-Keeps w project
                (each_do-Keeps w project _ (apply_mutagen_session_change-Keeps w project) _)
                (λ u. unless-Keeps w project _ (apply_network_change-Keeps _))))

  -- An end of a careful step leaves a careful trace.
  Ends-careful :
      {A : Type 0} (r : _)
      → Ends w project {A = A} (λ a. IsCareful w project) r
      → IsCareful w project r.1
  Ends-careful (ok a, t) c = c
  Ends-careful (failed e, t) c = c

  -- Whatever the outside answers, a run of `ApplyLive` on any changes keeps a trace careful, whether
  -- it ends well or at an error. In a careful trace: a session is created only where both sides were
  -- scanned with nothing but quiet events (reads, and the write of its config file) since, and the
  -- guard accepts what the scans said of that mirror and that guest path; a session is ended only
  -- behind a flush of it that succeeded; a mirror is removed by itself only behind a listing without
  -- entries, and with all that is in it (a repo's mirror that is toggled off) only where it was just
  -- looked up for a label of which no session is left: right before, none was listed under the
  -- label's name, or the listed one was flushed and ended; a repo is cloned only behind a scan of the
  -- target that counted no entry, each time with only quiet events since; a bundle is piped only right
  -- behind a build that succeeded and templates are installed only right behind a bundle piped with
  -- exit code 0; and an allowlist is set for this project only.
  pub apply_live-IsCareful :
      (c : Config) (changes : List Change) (t : Trace)
      → IsCareful w project t
      → IsCareful w project (apply_live w project c changes t).1
  unfolding apply_live
  apply_live-IsCareful c changes t careful =
      Ends-careful _ ((apply_batches-Keeps c (gather changes no_batches)).ends t careful)
